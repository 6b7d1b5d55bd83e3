-- ===== src/Progress/Statuses.antt =====
-- The statuses that the results of a run give its nodes.
use open_workflow_studio.Prelude.{
  ◌≡◌, refl, false, Bool, Option, none, some, List, [], ◌∷◌, arith, if◌then◌else◌, ◌∙◌, ap,
  Option-cases, inl, inr,
}
use open_workflow_studio.Text.{Text, ◌==◌, ==_iff}
use open_workflow_studio.Assoc
use open_workflow_studio.Assoc.{Assoc, IsUnique}
use open_workflow_studio.Assoc.Laws.{get-set, set-IsUnique}
use open_workflow_studio.Node.Config.{or_else}
use open_workflow_studio.Progress.{
  NodeResult, Progress, Fields, given, status_of, add_statuses, assign_statuses,
  derive_connection_ids, derive_statuses, assign_fields, progress_or_fresh, set_execution_result,
}
use open_workflow_studio.Progress.Bus.{list_of}

abbrev pub is_of : Text → NodeResult → Bool
is_of k r = elim (given r.node_id) [ none ↦ false | some j ↦ k == j ]

-- The last result of the node with the id `k`.
abbrev pub last_result : Text → List (Option NodeResult) → Option NodeResult
last_result k [] = none
last_result k (none ∷ rs) = last_result k rs
last_result k (some r ∷ rs) = or_else (last_result k rs) (if is_of k r then some r else none)

abbrev pub last_status : Text → List (Option NodeResult) → Option Text
last_status k rs = elim (last_result k rs) [ none ↦ none | some r ↦ some (status_of r) ]

get-add_statuses :
    (k : Text) (rs : List (Option NodeResult)) (m : Assoc Text)
    → Assoc.get k (add_statuses rs m) ≡ or_else (last_status k rs) (Assoc.get k m)
unfolding add_statuses
get-add_statuses k [] m = refl
get-add_statuses k (none ∷ rs) m = get-add_statuses k rs m
get-add_statuses k (some r ∷ rs) m = elim (Option-cases (given r.node_id)) [
  | inl e ↦ rw e (get-add_statuses k rs m ∙ ground arith)
  | inr (j, e) ↦ rw e (
      get-add_statuses k rs (Assoc.set j (status_of r) m)
      ∙ ground (arith, get-set k j (status_of r) m, ==_iff k j))
]

add_statuses-IsUnique :
    (rs : List (Option NodeResult)) (m : Assoc Text) → IsUnique m → IsUnique (add_statuses rs m)
unfolding add_statuses
add_statuses-IsUnique [] m u = u
add_statuses-IsUnique (none ∷ rs) m u = add_statuses-IsUnique rs m u
add_statuses-IsUnique (some r ∷ rs) m u = elim (Option-cases (given r.node_id)) [
  | inl e ↦ rw e (add_statuses-IsUnique rs m u)
  | inr (j, e) ↦
      rw e
        (add_statuses-IsUnique rs (Assoc.set j (status_of r) m) (set-IsUnique j (status_of r) m u))
]

get-assign_statuses :
    (k : Text) (patch base : Assoc Text)
    → IsUnique patch
    → Assoc.get k (assign_statuses base patch) ≡ or_else (Assoc.get k patch) (Assoc.get k base)
unfolding assign_statuses Assoc.get
get-assign_statuses k [] base u = refl
get-assign_statuses k ((j, v) ∷ patch) base (new, u) =
    get-assign_statuses k patch (Assoc.set j v base) u
    ∙ ground (arith, get-set k j v base, ==_iff k j)

statuses-derive_connection_ids :
    (p : Progress) → (derive_connection_ids p).node_statuses ≡ p.node_statuses
statuses-derive_connection_ids p = ground arith

get-derive_statuses :
    (k : Text) (o : Option (List (Option NodeResult))) (p : Progress)
    → Assoc.get k (derive_statuses o p).node_statuses
      ≡ or_else (last_status k (list_of o)) (Assoc.get k p.node_statuses)
unfolding Assoc.get
get-derive_statuses k none p = refl
get-derive_statuses k (some []) p = refl
get-derive_statuses k (some (r ∷ rs)) p =
    get-assign_statuses k (add_statuses (r ∷ rs) []) p.node_statuses
      (add_statuses-IsUnique (r ∷ rs) [] tt)
    ∙ ap (λ o. or_else o (Assoc.get k p.node_statuses))
        (get-add_statuses k (r ∷ rs) [] ∙ ground arith)

-- After `setExecutionResult` a node has the status of the last of the given results that is its
-- own, error or success, and else the status that it had.
pub get-set_execution_result :
    (k : Text) (f : Fields) (o : Option Progress)
    → Assoc.get k (set_execution_result f o).node_statuses
      ≡ or_else
          (last_status k (list_of f.node_results))
          (Assoc.get k (progress_or_fresh o none).node_statuses)
unfolding set_execution_result
get-set_execution_result k f o =
    ap (Assoc.get k) (
      statuses-derive_connection_ids
        (derive_statuses f.node_results (assign_fields f (progress_or_fresh o none))))
    ∙ get-derive_statuses k f.node_results (assign_fields f (progress_or_fresh o none))
