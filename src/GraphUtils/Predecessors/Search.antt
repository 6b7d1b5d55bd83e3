-- ===== src/GraphUtils/Predecessors/Search.antt =====
-- The worklist of `getStructuralPredecessorIds` ends, and visits what leads to the node.
use open_workflow_studio.Prelude.{
  ℕ, zero, suc, ◌+◌, ◌≤◌, ◌<◌, ◌≡◌, refl, ◌⊎◌, inl, inr, true, some, List, [], ◌∷◌, ◌++◌, ◌∙◌,
  arith, In, In-map, In-map_of, In-filter, Bool-cases, List-cases, length, length-append, map,
  filter, ap, subst, sym,
}
use open_workflow_studio.Text.{
  Text, ◌==◌, ==_iff, ==_refl, mem, add, mem-add, mem-append, NoRepeat, NoRepeat-append, mem-In,
}
use open_workflow_studio.Assoc.{Assoc}
use open_workflow_studio.GraphUtils.Connections.{RawConnection, source_id, target_id, bucket}
use open_workflow_studio.GraphUtils.BackEdges.Walks.{Leads, edge, Leads-cons}
use open_workflow_studio.GraphUtils.BackEdges.Scope.{unvisited, unvisited-lt}
use open_workflow_studio.GraphUtils.Predecessors.{Sweep, offer, offer_all, sweep}

-- A connection whose target was visited waits in the queue, or its source was visited too.
abbrev pub Covered : Sweep → RawConnection → Type 0
Covered s c =
    mem (target_id c) s.visited ≡ true
    → (mem (target_id c) s.queue ≡ true) ⊎ (mem (source_id c) s.visited ≡ true)

module _ (n : Text) (cs : List RawConnection) where
  -- The loop's invariant, but for the closure under connections.
  pub record Inv (s : Sweep) : Type 0 where
    pub listed : s.visited ≡ n ∷ s.predecessors
    pub distinct : NoRepeat s.visited
    pub sound : (x : Text) → mem x s.visited ≡ true → (x ≡ n) ⊎ Leads cs x n
    pub queued : (x : Text) → mem x s.queue ≡ true → mem x s.visited ≡ true

  abbrev sources : List Text
  sources = map source_id cs

  -- What the loop still has to do.
  abbrev pub work : Sweep → ℕ
  work s = unvisited sources s.visited + length s.queue

  Inv-offer : (p : Text) (s : Sweep) → (p ≡ n) ⊎ Leads cs p n → Inv s → Inv (offer p s)
  unfolding offer add mem
  Inv-offer p s l h = elim (Bool-cases (mem p s.visited)) [
    | inl old ↦ rw old h
    | inr new ↦ rw new (record {
      listed = rw h.listed refl;
      distinct = NoRepeat-append p s.visited h.distinct new;
      sound = λ x m. elim (Bool-cases (x == p)) [
        | inl e ↦ rw ((==_iff x p).0 e) l
        | inr e ↦ h.sound x (ground (arith, mem-append x s.visited (p ∷ []), e))
      ];
      queued = λ x m.
          ground
            (arith, h.queued x, mem-append x s.visited (p ∷ []), mem-append x s.queue (p ∷ []));
    })
  ]

  -- The new sets hold what the old ones did, and `p`; the work does not grow.
  pub record Grows (s t : Sweep) : Type 0 where
    pub seen : (x : Text) → mem x s.visited ≡ true → mem x t.visited ≡ true
    pub waits : (x : Text) → mem x s.queue ≡ true → mem x t.queue ≡ true
    pub fresh :
        (x : Text) → mem x t.visited ≡ true → (mem x s.visited ≡ true) ⊎ (mem x t.queue ≡ true)
    pub bounded : work t ≤ work s

  Grows-offer : (p : Text) (s : Sweep) → In p sources → Grows s (offer p s)
  unfolding offer add mem
  Grows-offer p s i = elim (Bool-cases (mem p s.visited)) [
    | inl old ↦
        rw old (record {
          seen = λ x m. m;
          waits = λ x m. m;
          fresh = λ x m. inl m;
          bounded = omega arith;
        })
    | inr new ↦ rw new (record {
      seen = λ x m. ground (arith, mem-append x s.visited (p ∷ []));
      waits = λ x m. ground (arith, mem-append x s.queue (p ∷ []));
      fresh = λ x m. ground (arith, mem-append x s.visited (p ∷ []), mem-append x s.queue (p ∷ []));
      bounded = omega (
        arith,
        length-append s.queue (p ∷ []),
        unvisited-lt sources s.visited (s.visited ++ p ∷ []) p
            (λ x m. ground (arith, mem-append x s.visited (p ∷ []))) ((mem-In p sources).1 i) new
            (ground (arith, mem-append p s.visited (p ∷ []), ==_refl p)),
      );
    })
  ]

  Grows-trans : {s t u : Sweep} → Grows s t → Grows t u → Grows s u
  Grows-trans a b = record {
    seen = λ x m. b.seen x (a.seen x m);
    waits = λ x m. b.waits x (a.waits x m);
    fresh = λ x m. ground (arith, b.fresh x, a.fresh x, b.waits x);
    bounded = omega (arith, a.bounded, b.bounded);
  }

  mem-offer : (p : Text) (s : Sweep) → mem p (offer p s).visited ≡ true
  unfolding offer
  mem-offer p s = ground (arith, mem-add p p s.visited, ==_refl p)

  offer_all_lem :
      (ps : List Text) (s : Sweep)
      → ((p : Text) → In p ps → In p sources × ((p ≡ n) ⊎ Leads cs p n))
      → Inv s
      → Inv (offer_all ps s)
        × Grows s (offer_all ps s)
        × ((p : Text) → In p ps → mem p (offer_all ps s).visited ≡ true)
  unfolding offer_all
  offer_all_lem [] s f h = (
    h,
    record { seen = λ x m. m; waits = λ x m. m; fresh = λ x m. inl m; bounded = omega arith },
    λ p i. absurd i,
  )
  offer_all_lem (p ∷ ps) s f h =
      let (i, l) = f p (inl refl) in
      let (h', g', all) = offer_all_lem ps (offer p s) (λ q j. f q (inr j)) (Inv-offer p s l h) in
      (
        h',
        Grows-trans (Grows-offer p s i) g',
        λ q j. elim j [ inl e ↦ rw e (g'.seen p (mem-offer p s)) | inr k ↦ all q k ],
      )

  module _ (adj : Assoc (List Text))
      (bucket_lem : (k : Text)
        → bucket k adj ≡ map source_id (filter (λ c. k == target_id c) cs)) where
    bucket-In :
        (k p : Text)
        → In p (bucket k adj)
        → (c : RawConnection) × In c cs × (source_id c ≡ p) × (target_id c ≡ k)
    bucket-In k p i =
        let (c, j, e) = In-map source_id p _ (rw (bucket_lem k) at i) in
        let (l, t) = (In-filter (λ (d : RawConnection). k == target_id d) c cs).0 j in
        (c, l, sym e, sym ((==_iff k (target_id c)).0 t))

    In-bucket :
        (k : Text) (c : RawConnection) → In c cs → target_id c ≡ k → In (source_id c) (bucket k adj)
    In-bucket k c i e = rw (bucket_lem k) (
        In-map_of source_id c _ (
          (In-filter (λ (d : RawConnection). k == target_id d) c cs).1
            (i, (==_iff k (target_id c)).1 (sym e))))

    -- The parents of a node that was reached lead to `n`.
    bucket-Leads :
        (u : Text)
        → (u ≡ n) ⊎ Leads cs u n
        → (p : Text) → In p (bucket u adj)
        → In p sources × ((p ≡ n) ⊎ Leads cs p n)
    bucket-Leads u l p i =
        let (c, j, e, f) = bucket-In u p i in
        (
          subst (λ x. In x sources) e (In-map_of source_id c cs j),
          elim l [ inl a ↦ inr (edge c j e (f ∙ a)) | inr a ↦ inr (Leads-cons c j e f a) ],
        )

    -- One round of the `while` loop, for the node at the head of the queue.
    round :
        (s : Sweep) (u : Text) (rest : List Text)
        → s.queue ≡ u ∷ rest
        → Inv s
        → ((c : RawConnection) → In c cs → Covered s c)
        → (let t = offer_all (bucket u adj) (record s { queue = rest }) in
            Inv t × (work t < work s) × ((c : RawConnection) → In c cs → Covered t c))
    unfolding mem
    round s u rest e h cover =
        let s' : Sweep = record s { queue = rest } in
        let h' : Inv s' = record {
          listed = h.listed;
          distinct = h.distinct;
          sound = h.sound;
          queued = λ x m. h.queued x (rw e (ground arith));
        } in
        let at_head : mem u s.queue ≡ true = rw e (ground (arith, ==_refl u)) in
        let (ht, g, all) =
          offer_all_lem (bucket u adj) s' (bucket-Leads u (h.sound u (h.queued u at_head))) h' in
        (
          ht,
          omega (arith, g.bounded, ap length e),
          λ c i m. elim (g.fresh (target_id c) m) [
            | inr q ↦ inl q
            | inl old ↦ elim (cover c i old) [
              | inr q ↦ inr (g.seen _ q)
              | inl q ↦ elim (Bool-cases (target_id c == u)) [
                | inl k ↦ inr (all (source_id c) (In-bucket u c i ((==_iff (target_id c) u).0 k)))
                | inr k ↦ inl (g.waits (target_id c) (rw (e, k) at q))
              ]
            ]
          ],
        )

    -- With fuel for the work that is left the loop ends, with an empty queue.
    pub sweep_ends :
        (fuel : ℕ) (s : Sweep)
        → work s ≤ fuel
        → Inv s
        → ((c : RawConnection) → In c cs → Covered s c)
        → (t : Sweep) × (sweep adj fuel s ≡ some t)
          × Inv t
          × (t.queue ≡ [])
          × ((c : RawConnection) → In c cs → Covered t c)
    unfolding sweep
    sweep_ends zero s w h cover = elim (List-cases s.queue) [
      | inl e ↦ (s, simp (e, sweep), h, e, cover)
      | inr (u, rest, e) ↦ absurd (omega (arith, ap length e))
    ]
    sweep_ends (suc fuel) s w h cover = elim (List-cases s.queue) [
      | inl e ↦ (s, simp (e, sweep), h, e, cover)
      | inr (u, rest, e) ↦
          let (ht, less, covered) = round s u rest e h cover in
          let (t, r, inv, empty, all) = sweep_ends fuel _ (omega arith) ht covered in
          (t, rw (e, sweep) r, inv, empty, all)
    ]
