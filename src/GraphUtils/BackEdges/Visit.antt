-- ===== src/GraphUtils/BackEdges/Visit.antt =====
-- The depth-first search is total, finishes each node behind those that it leads to, and marks only
-- connections that close a cycle. One lemma carries all three, by induction on the fuel.
use open_workflow_studio.Prelude.{
  ℕ, zero, suc, ◌≤◌, ◌<◌, ◌≡◌, refl, ◌⊎◌, inl, inr, true, false, Option, some, List, [], ◌∷◌, arith,
  In, Bool-cases, subst, sym, ◌↔◌,
}
use open_workflow_studio.Text.{Text, ◌==◌, ==_iff, ==_refl, mem, add, mem-add}
use open_workflow_studio.Assoc.{Assoc}
use open_workflow_studio.GraphUtils.Connections.{
  RawConnection, get_connection_key, source_id, target_id, bucket,
}
use open_workflow_studio.GraphUtils.BackEdges.{Dfs, enter, leave, mark, follow, scan, visit}
use open_workflow_studio.GraphUtils.BackEdges.Walks.{Leads, edge, step, ClosesCycle}
use open_workflow_studio.GraphUtils.BackEdges.Invariant.{
  Inv, Extends, Extends-refl, Extends-trans, Settled, Inv-mark, Extends-mark, Inv-enter, Inv-leave,
  Extends-leave,
}
use open_workflow_studio.GraphUtils.BackEdges.Scope.{unvisited, unvisited-lt, unvisited-monotone}

-- The outcome of a part of the search: it ends, and what it reached has the property `Q`.
abbrev pub Ends :
    List RawConnection → Option Dfs → Dfs → List Text → (Dfs → List Text → Type 0) → Type 0
Ends cs r s o Q = (t : Dfs) × (p : List Text) × (r ≡ some t) × Inv cs t p × Extends s o t p × Q t p

-- Entering a node of the graph for the first time.
entered :
    (ids : List Text) (n : Text) (s : Dfs)
    → mem n ids ≡ true
    → mem n s.visited ≡ false
    → unvisited ids (add n s.visited) < unvisited ids s.visited
entered ids n s i new =
    unvisited-lt ids s.visited (add n s.visited) n (λ x m. ground (arith, mem-add x n s.visited)) i
      new (ground (arith, mem-add n n s.visited, ==_refl n))

module _ (cs : List RawConnection) (ids : List Text) where
  -- The nodes of the stack lead to `n`, or are `n`.
  abbrev Above : Text → Dfs → Type 0
  Above n s = (x : Text) → mem x s.in_stack ≡ true → (x ≡ n) ⊎ Leads cs x n

  -- The lemma about a recursive call.
  abbrev pub VisitEnds : (Text → Dfs → Option Dfs) → ℕ → Type 0
  VisitEnds f fuel =
      (n : Text) (s : Dfs) (o : List Text)
      → unvisited ids s.visited ≤ fuel
      → mem n ids ≡ true
      → mem n s.visited ≡ false
      → ((x : Text) → mem x s.in_stack ≡ true → Leads cs x n)
      → Inv cs s o
      → Ends cs (f n s) s o (λ t p. (mem n t.visited ≡ true) × (mem n p ≡ true))

  module _ (targets : (c : RawConnection) → In c cs → mem (target_id c) ids ≡ true) where
    follow_ends :
        (f : Text → Dfs → Option Dfs) (fuel : ℕ)
        → VisitEnds f fuel
        → (n : Text) (c : RawConnection) (s : Dfs) (o : List Text) → In c cs
        → source_id c ≡ n
        → unvisited ids s.visited ≤ fuel
        → Above n s
        → Inv cs s o
        → Ends cs (follow f n c s) s o (Settled c)
    unfolding follow
    follow_ends f fuel rec n c s o i e u above h = elim (Bool-cases (n == target_id c)) [
      | inl self ↦ marked (inl (ground (arith, ==_iff n (target_id c)))) (rw self)
      | inr other ↦ elim (Bool-cases (mem (target_id c) s.in_stack)) [
        | inl back ↦ marked (closes (above (target_id c) back)) (rw (other, back))
        | inr fresh ↦ elim (Bool-cases (mem (target_id c) s.visited)) [
          | inl old ↦ (
            s,
            o,
            rw (other, fresh, old),
            h,
            Extends-refl s o,
            inr (ground (arith, h.placed (target_id c))),
          )
          | inr new ↦
              let (t, p, r, inv, ext, done) = rec (target_id c) s o u (targets c i) new below h in
              (t, p, rw (other, fresh, new) r, inv, ext, inr done.1)
        ]
      ]
    ]
      where
        key : Text
        key = get_connection_key c

        marked :
            ClosesCycle cs c
            → follow f n c s ≡ some (mark c s)
            → Ends cs (follow f n c s) s o (Settled c)
        marked cycle r = (
          mark c s,
          o,
          r,
          Inv-mark cs c i cycle h,
          Extends-mark cs s o c,
          inl (ground (arith, mem-add key key s.back_edge_keys, ==_refl key)),
        )

        closes : (target_id c ≡ n) ⊎ Leads cs (target_id c) n → ClosesCycle cs c
        closes (inl a) = inl (cc)
        closes (inr l) = inr (subst (Leads cs (target_id c)) (sym e) l)

        below : (x : Text) → mem x s.in_stack ≡ true → Leads cs x (target_id c)
        below x m = elim (above x m) [ inl a ↦ edge c i (cc) refl | inr l ↦ step l c i e refl ]

    -- Every connection of the bucket is settled at the end.
    scan_ends :
        (f : Text → Dfs → Option Dfs) (fuel : ℕ)
        → VisitEnds f fuel
        → (n : Text) (ds : List RawConnection) (s : Dfs) (o : List Text)
        → ((c : RawConnection) → In c ds → In c cs × (source_id c ≡ n))
        → unvisited ids s.visited ≤ fuel
        → Above n s
        → Inv cs s o
        → Ends cs (scan f n ds s) s o (λ t p. (c : RawConnection) → In c ds → Settled c t p)
    unfolding scan
    scan_ends f fuel rec n [] s o own u above h = (s, o, refl, h, Extends-refl s o, λ c i. absurd i)
    scan_ends f fuel rec n (c ∷ ds) s o own u above h =
        let (i, e) = own c (inl refl) in
        let (s1, o1, r1, h1, x1, first) = follow_ends f fuel rec n c s o i e u above h in
        let fewer : unvisited ids s1.visited ≤ fuel =
          omega (arith, unvisited-monotone ids s.visited s1.visited x1.seen) in
        let (t, p, r, ht, xt, rest) =
          scan_ends f fuel rec n ds s1 o1 (λ d j. own d (inr j)) fewer
            (λ x m. above x (ground (arith, x1.stack x))) h1 in
        (t, p, rw r1 r, ht, Extends-trans x1 xt, settled first xt rest)
      where
        settled :
            {s1 t : Dfs} {o1 p : List Text}
            → Settled c s1 o1
            → Extends s1 o1 t p
            → ((d : RawConnection) → In d ds → Settled d t p)
            → (d : RawConnection) → In d (c ∷ ds)
            → Settled d t p
        settled first xt rest d (inr j) = rest d j
        settled first xt rest d (inl e) =
            rw e (elim first [ inl k ↦ inl (xt.marks _ k) | inr k ↦ inr (xt.done _ k) ])

    module _ (adj : Assoc (List RawConnection))
        (bucket_lem : (n : Text) (c : RawConnection)
          → In c (bucket n adj) ↔ (In c cs × (source_id c ≡ n))) where
      pub visit_ends : (fuel : ℕ) → VisitEnds (visit adj fuel) fuel
      unfolding visit mem
      visit_ends zero n s o u i new above h = absurd (omega (arith, entered ids n s i new))
      visit_ends (suc fuel) n s o u i new above h =
          let (t, p, r, ht, xt, settled) =
            scan_ends (visit adj fuel) fuel (visit_ends fuel) n (bucket n adj) (enter n s) o
              (λ c j. (bucket_lem n c).0 j) (omega (arith, entered ids n s i new)) inside
              (Inv-enter cs n h) in
          (
            leave n t,
            n ∷ p,
            rw r,
            Inv-leave cs n (λ c j e. settled c ((bucket_lem n c).1 (j, e))) ht,
            Extends-leave cs n new h xt,
            (
              xt.seen n (ground (arith, mem-add n n s.visited, ==_refl n)),
              ground (arith, ==_refl n),
            ),
          )
        where
          inside : Above n (enter n s)
          inside x m = elim (Bool-cases (x == n)) [
            | inl e ↦ inl (ground (arith, ==_iff x n))
            | inr e ↦ inr (above x (ground (arith, mem-add x n s.in_stack)))
          ]
