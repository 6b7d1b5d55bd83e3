-- ===== src/Progress/Replace.antt =====
-- Replacing the result of a node in the progress of a run.
use open_workflow_studio.Prelude.{
  ◌≡◌, refl, true, Option, none, some, List, [], ◌∷◌, ◌++◌, arith, ◌∙◌, ap₂, Option-cases,
  Bool-cases, inl, inr, any, map, In, ◌||◌,
}
use open_workflow_studio.Text.{Text, ==_refl}
use open_workflow_studio.Assoc
use open_workflow_studio.Assoc.Laws.{set-set, get-set}
use open_workflow_studio.Progress.{NodeResult, Progress, given, status_of, progress_or_fresh}
use open_workflow_studio.Progress.Items.{
  matches, matches_item, swap_item, replace_items, replace_execution_node_result, eq_text,
}

eq_text_refl : (o : Option Text) → eq_text o o ≡ true
eq_text_refl none = refl
eq_text_refl (some s) = ==_refl s

matches_refl : (r : NodeResult) → matches r r ≡ true
matches_refl r = elim (Option-cases r.node_run_id) [
  | inl e ↦ rw e (ground (arith, eq_text_refl r.node_id))
  | inr (i, e) ↦ rw e (ground arith)
]

module _ (r : NodeResult) where
  swap-swap : (x : Option NodeResult) → swap_item r (swap_item r x) ≡ swap_item r x
  swap-swap none = refl
  swap-swap (some item) = ground arith

  matches-swap : (x : Option NodeResult) → matches_item r (swap_item r x) ≡ matches_item r x
  matches-swap none = refl
  matches-swap (some item) = elim (Bool-cases (matches r item)) [
    | inl e ↦ rw e (matches_refl r)
    | inr e ↦ rw e e
  ]

  any-swaps :
      (items : List (Option NodeResult))
      → any (matches_item r) (map (swap_item r) items) ≡ any (matches_item r) items
  any-swaps [] = refl
  any-swaps (x ∷ items) = ap₂ (λ a b. a || b) (matches-swap x) (any-swaps items)

  swaps-swaps :
      (items : List (Option NodeResult))
      → map (swap_item r) (map (swap_item r) items) ≡ map (swap_item r) items
  swaps-swaps [] = refl
  swaps-swaps (x ∷ items) = ap₂ (λ a b. a ∷ b) (swap-swap x) (swaps-swaps items)

  any-end : (items : List (Option NodeResult)) → any (matches_item r) (items ++ some r ∷ []) ≡ true
  any-end [] = rw (matches_refl r) refl
  any-end (x ∷ items) = ground (arith, any-end items)

  swaps-end :
      (items : List (Option NodeResult))
      → map (swap_item r) (map (swap_item r) items ++ some r ∷ [])
        ≡ map (swap_item r) items ++ some r ∷ []
  swaps-end [] = rw (matches_refl r) refl
  swaps-end (x ∷ items) = ap₂ (λ a b. a ∷ b) (swap-swap x) (swaps-end items)

  replace_items-replace_items :
      (items : List (Option NodeResult))
      → replace_items r (replace_items r items) ≡ replace_items r items
  unfolding replace_items
  replace_items-replace_items items = elim (Bool-cases (any (matches_item r) items)) [
    | inl found ↦ rw found (rw (any-swaps items) (rw found (swaps-swaps items)))
    | inr absent ↦ rw absent (rw (any-end (map (swap_item r) items)) (swaps-end items))
  ]

  In-swaps :
      (items : List (Option NodeResult))
      → any (matches_item r) items ≡ true
      → In (some r) (map (swap_item r) items)
  In-swaps [] h = absurd (ground arith)
  In-swaps (none ∷ items) h = inr (In-swaps items h)
  In-swaps (some item ∷ items) h = elim (Bool-cases (matches r item)) [
    | inl e ↦ rw e (inl refl)
    | inr e ↦ inr (In-swaps items (rw e at h))
  ]

  In-end : (items : List (Option NodeResult)) → In (some r) (items ++ some r ∷ [])
  In-end [] = inl refl
  In-end (x ∷ items) = inr (In-end items)

  In-replace_items : (items : List (Option NodeResult)) → In (some r) (replace_items r items)
  unfolding replace_items
  In-replace_items items = elim (Bool-cases (any (matches_item r) items)) [
    | inl found ↦ rw found (In-swaps items found)
    | inr absent ↦ rw absent (In-end (map (swap_item r) items))
  ]

  -- After `replaceExecutionNodeResult`, which raises no exception for a result with a node's id,
  -- the result is among the results and among the events, the node has its status, and replacing
  -- it once more changes nothing.
  pub replace_execution_node_result_lem :
      (k : Text) (o : Option Progress)
      → given r.node_id ≡ some k
      → (p : Progress) × (replace_execution_node_result r o ≡ some p)
        × In (some r) p.node_results
        × In (some r) p.execution_events
        × (Assoc.get k p.node_statuses ≡ some (status_of r))
        × (replace_execution_node_result r (some p) ≡ some p)
  unfolding replace_execution_node_result
  replace_execution_node_result_lem k o e =
      let q = progress_or_fresh o none in
      let p = record q {
        node_results = replace_items r q.node_results;
        execution_events = replace_items r q.execution_events;
        node_statuses = Assoc.set k (status_of r) q.node_statuses;
      } in
      (
        p,
        rw (e, replace_execution_node_result) refl,
        In-replace_items q.node_results,
        In-replace_items q.execution_events,
        get-set k k (status_of r) q.node_statuses ∙ rw (==_refl k) refl,
        rw (e, replace_execution_node_result)
            (λ i. some (record p {
              node_results = replace_items-replace_items q.node_results i;
              execution_events = replace_items-replace_items q.execution_events i;
              node_statuses = set-set k (status_of r) (status_of r) q.node_statuses i;
            })),
      )
