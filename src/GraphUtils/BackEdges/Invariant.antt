-- ===== src/GraphUtils/BackEdges/Invariant.antt =====
-- The invariant of the depth-first search, and that marking, entering and leaving keep it.
use open_workflow_studio.Prelude.{
  ◌≡◌, refl, ◌⊎◌, inl, inr, true, false, List, ◌∷◌, arith, In, Bool-cases,
}
use open_workflow_studio.Text.{Text, ◌==◌, ==_iff, mem, mem-add, mem-delete}
use open_workflow_studio.GraphUtils.Connections.{
  RawConnection, get_connection_key, source_id, target_id,
}
use open_workflow_studio.GraphUtils.BackEdges.{Dfs, enter, leave, mark}
use open_workflow_studio.GraphUtils.BackEdges.Walks.{ClosesCycle}
use open_workflow_studio.GraphUtils.BackEdges.Order.{IsOrder, IsOrder-monotone}

-- What holds between the rounds; `o` is the order in which nodes were finished.
pub record Inv (cs : List RawConnection) (s : Dfs) (o : List Text) : Type 0 where
  pub placed : (x : Text) → mem x s.visited ≡ true → (mem x s.in_stack ≡ true) ⊎ (mem x o ≡ true)
  pub stacked : (x : Text) → mem x s.in_stack ≡ true → mem x s.visited ≡ true
  pub ordered : IsOrder cs s.back_edge_keys o
  pub sound :
      (k : Text)
      → mem k s.back_edge_keys ≡ true
      → (c : RawConnection) × In c cs × (get_connection_key c ≡ k) × ClosesCycle cs c

-- What a part of the search keeps.
pub record Extends (s : Dfs) (o : List Text) (t : Dfs) (p : List Text) : Type 0 where
  pub stack : (x : Text) → mem x t.in_stack ≡ mem x s.in_stack
  pub seen : (x : Text) → mem x s.visited ≡ true → mem x t.visited ≡ true
  pub marks : (k : Text) → mem k s.back_edge_keys ≡ true → mem k t.back_edge_keys ≡ true
  pub done : (x : Text) → mem x o ≡ true → mem x p ≡ true

pub Extends-refl : (s : Dfs) (o : List Text) → Extends s o s o
Extends-refl s o = record { stack = λ x. refl; seen = λ x h. h; marks = λ x h. h; done = λ x h. h }

pub Extends-trans :
    {s t u : Dfs} {o p q : List Text} → Extends s o t p → Extends t p u q → Extends s o u q
Extends-trans a b = record {
  stack = λ x. ground (arith, a.stack x, b.stack x);
  seen = λ x h. b.seen x (a.seen x h);
  marks = λ x h. b.marks x (a.marks x h);
  done = λ x h. b.done x (a.done x h);
}

-- The connection is marked, or its target is finished.
abbrev pub Settled : RawConnection → Dfs → List Text → Type 0
Settled c t p = (mem (get_connection_key c) t.back_edge_keys ≡ true) ⊎ (mem (target_id c) p ≡ true)

module _ (cs : List RawConnection) where
  -- Marking a connection that closes a cycle.
  pub Inv-mark :
      {s : Dfs} {o : List Text} (c : RawConnection)
      → In c cs
      → ClosesCycle cs c
      → Inv cs s o
      → Inv cs (mark c s) o
  Inv-mark {s} {o} c i cycle h = record {
    placed = h.placed;
    stacked = h.stacked;
    ordered =
        IsOrder-monotone cs s.back_edge_keys _ o
          (λ k m. ground (arith, mem-add k key s.back_edge_keys)) h.ordered;
    sound = λ k m. elim (Bool-cases (k == key)) [
      | inl e ↦ (c, i, ground (arith, ==_iff k key), cycle)
      | inr n ↦ h.sound k (ground (arith, mem-add k key s.back_edge_keys))
    ];
  }
    where
      key : Text
      key = get_connection_key c

  pub Extends-mark : (s : Dfs) (o : List Text) (c : RawConnection) → Extends s o (mark c s) o
  Extends-mark s o c = record {
    stack = λ x. refl;
    seen = λ x h. h;
    marks = λ k m. ground (arith, mem-add k (get_connection_key c) s.back_edge_keys);
    done = λ x h. h;
  }

  pub Inv-enter : (n : Text) {s : Dfs} {o : List Text} → Inv cs s o → Inv cs (enter n s) o
  Inv-enter n {s} h = record {
    placed = λ x m. ground (arith, mem-add x n s.visited, mem-add x n s.in_stack, h.placed x);
    stacked = λ x m. ground (arith, mem-add x n s.visited, mem-add x n s.in_stack, h.stacked x);
    ordered = h.ordered;
    sound = h.sound;
  }

  -- A node is finished when all connections that leave it are settled.
  pub Inv-leave :
      (n : Text) {t : Dfs} {p : List Text}
      → ((c : RawConnection) → In c cs → source_id c ≡ n → Settled c t p)
      → Inv cs t p
      → Inv cs (leave n t) (n ∷ p)
  unfolding mem
  Inv-leave n {t} settled h = record {
    placed = λ x m. ground (arith, mem-delete x n t.in_stack, h.placed x, ==_iff x n, ==_iff n x);
    stacked = λ x m. ground (arith, mem-delete x n t.in_stack, h.stacked x);
    ordered = (settled, h.ordered);
    sound = h.sound;
  }

  -- Entering and leaving a node that was not visited give back the stack.
  pub Extends-leave :
      (n : Text) {s t : Dfs} {o p : List Text}
      → mem n s.visited ≡ false
      → Inv cs s o
      → Extends (enter n s) o t p
      → Extends s o (leave n t) (n ∷ p)
  unfolding mem
  Extends-leave n {s} {t} new h e = record {
    stack = λ x. ground (
      arith,
      mem-delete x n t.in_stack,
      e.stack x,
      mem-add x n s.in_stack,
      h.stacked x,
      ==_iff x n,
      ==_iff n x,
    );
    seen = λ x m. ground (arith, e.seen x, mem-add x n s.visited);
    marks = e.marks;
    done = λ x m. ground (arith, e.done x);
  }
