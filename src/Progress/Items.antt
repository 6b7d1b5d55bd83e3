-- ===== src/Progress/Items.antt =====
-- store/workflow_store.js, `replaceExecutionNodeResult`: putting in the result of one node.
use open_workflow_studio.Prelude.{
  ℕ, Bool, true, false, ◌&&◌, Option, none, some, List, [], ◌∷◌, ◌++◌, eqb, any, if◌then◌else◌, map,
}
use open_workflow_studio.Text.{Text, ◌==◌}
use open_workflow_studio.Assoc
use open_workflow_studio.Assoc.{Assoc}
use open_workflow_studio.Progress.{NodeResult, Progress, given, progress_or_fresh, status_of}

abbrev pub eq_text : Option Text → Option Text → Bool
eq_text none none = true
eq_text none (some _) = false
eq_text (some _) none = false
eq_text (some s) (some t) = s == t

abbrev eq_number : Option ℕ → Option ℕ → Bool
eq_number none none = true
eq_number none (some _) = false
eq_number (some _) none = false
eq_number (some m) (some n) = eqb m n

-- `matchesByRunId || matchesByNode`, for the result `r` that is put in.
abbrev pub matches : NodeResult → NodeResult → Bool
matches r item = elim r.node_run_id [
  | some i ↦ eq_number item.node_run_id (some i)
  | none ↦
      eq_text item.node_id r.node_id
      && eq_number item.sequence r.sequence
      && eq_number item.iteration r.iteration
]

-- The items after the loop of `replaceItems`, and whether one was replaced.
abbrev pub swap_item : NodeResult → Option NodeResult → Option NodeResult
swap_item r none = none
swap_item r (some item) = if matches r item then some r else some item

abbrev pub matches_item : NodeResult → Option NodeResult → Bool
matches_item r none = false
matches_item r (some item) = matches r item

unfoldable pub replace_items : NodeResult → List (Option NodeResult) → List (Option NodeResult)
replace_items r items =
    if any (matches_item r) items
    then map (swap_item r) items
    else map (swap_item r) items ++ some r ∷ []

-- `replaceExecutionNodeResult`; `none` is the exception for a result without a node's id.
unfoldable pub replace_execution_node_result : NodeResult → Option Progress → Option Progress
replace_execution_node_result r o = elim (given r.node_id) [
  | none ↦ none
  | some k ↦
      let p = progress_or_fresh o none in
      some (record p {
        node_results = replace_items r p.node_results;
        execution_events = replace_items r p.execution_events;
        node_statuses = Assoc.set k (status_of r) p.node_statuses;
      })
]
