-- ===== src/History/Bounds.antt =====
-- The two stacks together never hold more actions than the limit.
use open_workflow_studio.Prelude.{
  ap, ℕ, zero, suc, ◌+◌, ◌≤◌, ◌<◌, ◌≡◌, refl, Option, none, some, List, [], ◌∷◌, length, arith,
  Bool-cases, Option-cases, List-cases, inl, inr, drop_last,
}
use open_workflow_studio.Text.{Text}
use open_workflow_studio.History.Push.{push_paused, push_batched, push_plain}
use open_workflow_studio.History.{
  Run, returns, throws, Action, History, new_history, trim, push, start_batch, batch_action,
  commit_batch, after_undo, undo, after_redo, redo, clear, pause, resume,
}

length-drop_last {ℓ} : {A : Type ℓ} (x : A) (xs : List A) → length (drop_last (x ∷ xs)) ≡ length xs
length-drop_last x [] = refl
length-drop_last x (y ∷ xs) = ap suc (length-drop_last y xs)

module _ {ℓ} {S : Type ℓ} where
  pub record IsBounded (h : History S) : Type 0 where
    pub positive : 0 < h.max_size
    pub within : length h.undo_stack + length h.redo_stack ≤ h.max_size

  length-trim :
      (n : ℕ) (a : Action S) (acts : List (Action S))
      → 0 < n
      → length acts ≤ n
      → length (trim n (a ∷ acts)) ≤ n
  length-trim n a acts p h = ground (arith, length-drop_last a acts)

  pub push-IsBounded :
      (now : ℕ) (a : Action S) (h : History S) → IsBounded h → IsBounded (push now a h)
  unfolding push
  push-IsBounded now a h b = elim (Bool-cases h.recording) [
    | inr off ↦ rw (push_paused now a h off) b
    | inl on ↦ elim (Option-cases h.current_batch) [
      | inr (batch, e) ↦
          rw (push_batched now a h batch on e) (record { positive = b.positive; within = b.within })
      | inl e ↦
          let room : length (trim h.max_size (record a { timestamp = some now } ∷ h.undo_stack))
              ≤ h.max_size =
            length-trim h.max_size (record a { timestamp = some now }) h.undo_stack b.positive
              (omega (arith, b.within)) in
          rw (push_plain now a h on e)
            (record { positive = b.positive; within = omega (arith, room) })
    ]
  ]

  -- The calls of the manager.
  pub data Step : History S → History S → Type ℓ where
    pushes : (now : ℕ) (a : Action S) (h : History S) → Step h (push now a h)
    starts : (h : History S) → Step h (start_batch h)
    commits : (now : ℕ) (d : Text) (h : History S) → Step h (commit_batch now d h)
    undoes : (h : History S) (s : S) → Step h (undo h s).0
    redoes : (h : History S) (s : S) → Step h (redo h s).0
    clears : (h : History S) → Step h (clear h)
    pauses : (h : History S) → Step h (pause h)
    resumes : (h : History S) → Step h (resume h)

  commit_batch-IsBounded :
      (now : ℕ) (d : Text) (h : History S) → IsBounded h → IsBounded (commit_batch now d h)
  unfolding commit_batch
  commit_batch-IsBounded now d h b = elim (Option-cases h.current_batch) [
    | inl e ↦ rw (e, commit_batch) open_h
    | inr ([], e) ↦ rw (e, commit_batch) open_h
    | inr (c ∷ cs, e) ↦ rw (e, commit_batch) (push-IsBounded now (batch_action d (c ∷ cs)) _ open_h)
  ]
    where
      open_h : IsBounded (record h { current_batch = none })
      open_h = record { positive = b.positive; within = b.within }

  after_undo-IsBounded :
      (r : Run S) (a : Action S) (rest : List (Action S)) (h : History S)
      → h.undo_stack ≡ a ∷ rest
      → IsBounded h
      → IsBounded (after_undo a rest h r).0
  unfolding after_undo
  after_undo-IsBounded (returns t) a rest h e b = record {
    positive = b.positive;
    within = omega (arith, b.within, ap length e);
  }
  after_undo-IsBounded (throws t) a rest h e b = record {
    positive = b.positive;
    within = omega (arith, b.within, ap length e);
  }

  after_redo-IsBounded :
      (r : Run S) (a : Action S) (rest : List (Action S)) (h : History S)
      → h.redo_stack ≡ a ∷ rest
      → IsBounded h
      → IsBounded (after_redo a rest h r).0
  unfolding after_redo
  after_redo-IsBounded (returns t) a rest h e b = record {
    positive = b.positive;
    within = omega (arith, b.within, ap length e);
  }
  after_redo-IsBounded (throws t) a rest h e b = record {
    positive = b.positive;
    within = omega (arith, b.within, ap length e);
  }

  undo-IsBounded : (h : History S) (s : S) → IsBounded h → IsBounded (undo h s).0
  unfolding undo
  undo-IsBounded h s b = elim (List-cases h.undo_stack) [
    | inl e ↦ rw (e, undo) b
    | inr (a, rest, e) ↦ rw (e, undo) (after_undo-IsBounded (a.undo s) a rest h e b)
  ]

  redo-IsBounded : (h : History S) (s : S) → IsBounded h → IsBounded (redo h s).0
  unfolding redo
  redo-IsBounded h s b = elim (List-cases h.redo_stack) [
    | inl e ↦ rw (e, redo) b
    | inr (a, rest, e) ↦ rw (e, redo) (after_redo-IsBounded (a.redo s) a rest h e b)
  ]

  -- Every call of the manager keeps the bound, that both stacks together have no more actions than
  -- the maximum, which is not 0.
  pub Step-IsBounded : {h k : History S} → Step h k → IsBounded h → IsBounded k
  unfolding start_batch clear pause resume
  Step-IsBounded (pushes now a h) b = push-IsBounded now a h b
  Step-IsBounded (starts h) b = record { positive = b.positive; within = b.within }
  Step-IsBounded (commits now d h) b = commit_batch-IsBounded now d h b
  Step-IsBounded (undoes h s) b = undo-IsBounded h s b
  Step-IsBounded (redoes h s) b = redo-IsBounded h s b
  Step-IsBounded (clears h) b = record { positive = b.positive; within = omega arith }
  Step-IsBounded (pauses h) b = record { positive = b.positive; within = b.within }
  Step-IsBounded (resumes h) b = record { positive = b.positive; within = b.within }

  pub new_history-IsBounded : (n : Option ℕ) → IsBounded (new_history {S = S} n)
  unfolding new_history
  new_history-IsBounded none = record { positive = omega arith; within = omega arith }
  new_history-IsBounded (some zero) = record { positive = omega arith; within = omega arith }
  new_history-IsBounded (some (suc n)) = record { positive = omega arith; within = omega arith }
