-- ===== src/ExecutionContext/Loops.antt =====
-- core/context.js: the loop over a collection, as the class's usage writes it.
use open_workflow_studio.Prelude.{
  ℕ, zero, suc, ◌+◌, ◌≤◌, ◌≡◌, refl, sym, ap, ◌∙◌, Bool, true, false, Option, none, some, List, [],
  ◌∷◌, ◌>>=◌, arith, eqb, ltb, Bool-cases, inl, inr,
}
use open_workflow_studio.Value.{Items, nil, cons, arr}
use open_workflow_studio.ExecutionContext.{
  ExecutionContext, LoopState, LoopView, view, loop, push_loop, pop_loop, advance_loop,
}
use open_workflow_studio.ExecutionContext.Paths.{size, item_at}

abbrev pub Run : Type 0
Run = Option (List LoopView × ExecutionContext)

abbrev first_view : LoopView → List LoopView × ExecutionContext → List LoopView × ExecutionContext
first_view v (vs, d) = (v ∷ vs, d)

-- One round from `c`, whose body and step lead to `d`, and from there to `rest`.
abbrev pub turn : Option LoopView → Bool → ExecutionContext → ExecutionContext → Run → Run
turn none more c d rest = some ([], c)
turn (some v) false c d rest = some (v ∷ [], d)
turn (some v) true c d rest = rest >>= λ r. some (first_view v r)

-- `while (ctx._loop) { … if (!ctx.advanceLoop()) break; }`, with what `_loop` was in each round.
-- None is a loop that takes more rounds than the fuel.
unfoldable pub run_loop : (ExecutionContext → ExecutionContext) → ℕ → ExecutionContext → Run
run_loop body zero c = none
run_loop body (suc fuel) c =
    let next = advance_loop (body c) in
    let rest = run_loop body fuel next.0 in turn (loop c) next.1 c next.0 rest

-- `ctx.pushLoop(collection)`, the loop and `ctx.popLoop()`.
abbrev pub for_each : (ExecutionContext → ExecutionContext) → Items → ExecutionContext → Run
for_each body vs c = push_loop (arr vs) c >>= λ d.
    run_loop body (suc (size vs)) d >>= λ r. some (r.0, (pop_loop r.1).0)

-- A body that ends each loop that it begins.
abbrev pub KeepsLoops : (ExecutionContext → ExecutionContext) → Type 0
KeepsLoops body = (c : ExecutionContext) → (body c).loop_stack ≡ c.loop_stack

-- The items from an index on, each with its place.
abbrev pub views_from : ℕ → ℕ → Items → List LoopView
views_from i total nil = []
views_from i total (cons v vs) =
    record { item = v; index = i; total = total; is_first = eqb i 0; is_last = eqb (suc i) total }
    ∷ views_from (suc i) total vs

-- The rest of a collection behind an index.
abbrev drop : ℕ → Items → Items
drop zero vs = vs
drop (suc n) nil = nil
drop (suc n) (cons v vs) = drop n vs

drop-some :
    (n : ℕ) (vs : Items) → suc n ≤ size vs → drop n vs ≡ cons (item_at n vs) (drop (suc n) vs)
drop-some zero nil h = absurd (omega (arith, h))
drop-some zero (cons v vs) h = refl
drop-some (suc n) nil h = absurd (omega (arith, h))
drop-some (suc n) (cons v vs) h = drop-some n vs (omega (arith, h))

drop_all : (n : ℕ) (vs : Items) → size vs ≤ n → drop n vs ≡ nil
drop_all zero nil h = refl
drop_all zero (cons v vs) h = absurd (omega (arith, h))
drop_all (suc n) nil h = refl
drop_all (suc n) (cons v vs) h = drop_all n vs (omega (arith, h))

module _ (body : ExecutionContext → ExecutionContext) (keeps : KeepsLoops body) where
  -- A round inside the collection.
  run_loop-turn :
      (fuel i : ℕ) (vs : Items) (c : ExecutionContext) (ls : List LoopState) (b : Bool)
      → c.loop_stack ≡ record { collection = vs; index = i; total = size vs } ∷ ls
      → suc i ≤ size vs
      → ltb (suc i) (size vs) ≡ b
      → run_loop body (suc fuel) c
        ≡ turn
            (some (view (record { collection = vs; index = i; total = size vs })))
            b
            c
            (advance_loop (body c)).0
            (run_loop body fuel (advance_loop (body c)).0)
  unfolding run_loop
  run_loop-turn fuel i vs c ls b e h m =
      let now : LoopState = record { collection = vs; index = i; total = size vs } in
      let d = (advance_loop (body c)).0 in
      let rest = run_loop body fuel d in
      let some_items : eqb (size vs) 0 ≡ false = ground (arith, h) in
      let shown : loop c ≡ some (view now) = rw (e, some_items) refl in
      let step : (advance_loop (body c)).1 ≡ ltb (suc i) (size vs) = rw (keeps c ∙ e) refl in
      ap (λ v. turn v (advance_loop (body c)).1 c d rest) shown
      ∙ ap (λ x. turn (some (view now)) x c d rest) (step ∙ m)

  run_loop_views :
      (fuel i : ℕ) (vs : Items) (c : ExecutionContext) (ls : List LoopState)
      → c.loop_stack ≡ record { collection = vs; index = i; total = size vs } ∷ ls
      → suc i ≤ size vs
      → size vs ≤ i + fuel
      → (d : ExecutionContext) × (l : LoopState) × (run_loop body fuel c
          ≡ some (views_from i (size vs) (drop i vs), d))
        × (d.loop_stack ≡ l ∷ ls)
  unfolding run_loop
  run_loop_views zero i vs c ls e h k = absurd (omega (arith, h, k))
  run_loop_views (suc fuel) i vs c ls e h k =
      let total = size vs in
      let now : LoopState = record { collection = vs; index = i; total = total } in
      let later : LoopState = record { collection = vs; index = suc i; total = total } in
      let d = (advance_loop (body c)).0 in
      let next : d.loop_stack ≡ later ∷ ls = rw (keeps c ∙ e) refl in
      let items = λ (x : ExecutionContext) (r : Items) (q : drop i vs ≡ cons (item_at i vs) r).
        ap {B = Run} (λ y. some (views_from i total y, x)) (sym q) in
      elim (Bool-cases (ltb (suc i) total)) [
        | inl m ↦
            let (x, l, q, t) =
              run_loop_views fuel (suc i) vs d ls next (ground (arith, m)) (omega (arith, k)) in
            (
              x,
              l,
              run_loop-turn fuel i vs c ls true e h m
                  ∙ ap {B = Run} (λ o. o >>= λ r. some (first_view (view now) r)) q
                  ∙ items x (drop (suc i) vs) (drop-some i vs h),
              t,
            )
        | inr m ↦ (
          d,
          later,
          run_loop-turn fuel i vs c ls false e h m
              ∙ items d nil (
                  drop-some i vs h
                  ∙ ap (cons (item_at i vs)) (drop_all (suc i) vs (ground (arith, m)))),
          next,
        )
      ]

  -- For a body that ends each loop that it begins, the loop over a collection ends. Its rounds are
  -- those of the items in order, each with its index, the number of all, and whether it is the
  -- first or the last; and the loops that were running before run on as they were.
  pub for_each_views :
      (vs : Items) (c : ExecutionContext)
      → (d : ExecutionContext) × (for_each body vs c ≡ some (views_from 0 (size vs) vs, d))
        × (d.loop_stack ≡ c.loop_stack)
  unfolding run_loop
  for_each_views nil c = (c, refl, refl)
  for_each_views (cons v vs) c =
      let l : LoopState = record { collection = cons v vs; index = 0; total = size (cons v vs) } in
      let (d, x, q, t) =
        run_loop_views (suc (size (cons v vs))) 0 (cons v vs)
          (record c { loop_stack = l ∷ c.loop_stack }) c.loop_stack refl (omega arith)
          (omega arith) in
      ((pop_loop d).0, ap (λ o. o >>= λ r. some (r.0, (pop_loop r.1).0)) q, rw (t, pop_loop) refl)
