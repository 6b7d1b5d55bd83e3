-- ===== src/Progress.antt =====
-- store/workflow_store.js: the progress of a run, as the end of the run fills it. No caller of
-- `setExecutionResult` gives statuses. Ids are strings; what is null, undefined or empty is no id.
-- Entries of lists may be null.
pub mod Statuses
pub mod Replace
pub mod Tracked
pub mod Bus
pub mod Items
use open_workflow_studio.Prelude.{
  ℕ, zero, suc, ◌+◌, Bool, true, false, not, ◌&&◌, ◌||◌, Option, none, some, List, [], ◌∷◌, ◌++◌,
  eqb, any, if◌then◌else◌, get_last?, map,
}
use open_workflow_studio.Text.{Text, codes, ◌==◌}
use open_workflow_studio.Assoc
use open_workflow_studio.Assoc.{Assoc}
use open_workflow_studio.Value.{Value, null, obj, end}

-- An entry of `nodeResults` or `executionEvents`. The run id is that of a record, never 0.
pub record NodeResult : Type 0 where
  pub node_id : Option Text
  pub node_run_id : Option ℕ
  pub sequence : Option ℕ
  pub iteration : Option ℕ
  pub error_message : Option Text
  pub output_data : Value

pub record RoutedConnection : Type 0 where
  pub connection_id : Option Text
  pub detail : Value

pub record Progress : Type 0 where
  pub run_id : Option Text
  pub status : Text
  pub node_statuses : Assoc Text
  pub executed_order : List Text
  pub executed_connection_ids : List Text
  pub executed_connections : List (Option RoutedConnection)
  pub execution_events : List (Option NodeResult)
  pub node_results : List (Option NodeResult)
  pub node_outputs : Value
  pub error : Option Text
  pub error_node_id : Option Text
  pub output_data : Value
  pub input_data : Value
  pub context_snapshot : Value
  pub execution_count : Option ℕ
  pub duration_seconds : Value
  pub node_count_executed : Option ℕ

-- `createFreshProgress`
abbrev pub fresh_progress : Option Text → Progress
fresh_progress run_id = record {
  run_id = run_id;
  status = codes "running";
  node_statuses = [];
  executed_order = [];
  executed_connection_ids = [];
  executed_connections = [];
  execution_events = [];
  node_results = [];
  node_outputs = null;
  error = none;
  error_node_id = none;
  output_data = null;
  input_data = obj end;
  context_snapshot = null;
  execution_count = none;
  duration_seconds = null;
  node_count_executed = none;
}

-- The text, if it is there and not empty.
abbrev pub given : Option Text → Option Text
given none = none
given (some []) = none
given (some (c ∷ s)) = some (c ∷ s)

abbrev pub status_of : NodeResult → Text
status_of r = elim (given r.error_message) [ none ↦ codes "success" | some e ↦ codes "error" ]

-- The loop of `buildNodeStatusesFromResults`, with the statuses so far.
unfoldable pub add_statuses : List (Option NodeResult) → Assoc Text → Assoc Text
add_statuses [] statuses = statuses
add_statuses (none ∷ rs) statuses = add_statuses rs statuses
add_statuses (some r ∷ rs) statuses =
    add_statuses rs
      (elim (given r.node_id) [ none ↦ statuses | some k ↦ Assoc.set k (status_of r) statuses ])

abbrev pub build_node_statuses_from_results : List (Option NodeResult) → Assoc Text
build_node_statuses_from_results rs = add_statuses rs []

-- `Object.assign` on maps of statuses.
unfoldable pub assign_statuses : Assoc Text → Assoc Text → Assoc Text
assign_statuses base [] = base
assign_statuses base ((k, v) ∷ patch) = assign_statuses (Assoc.set k v base) patch

-- The ids of the connections that have one.
unfoldable pub connection_ids : List (Option RoutedConnection) → List Text
connection_ids [] = []
connection_ids (none ∷ cs) = connection_ids cs
connection_ids (some c ∷ cs) =
    let rest = connection_ids cs in elim (given c.connection_id) [ none ↦ rest | some i ↦ i ∷ rest ]

abbrev pub finished : Progress → Bool
finished p = p.status == codes "completed" || p.status == codes "failed"

-- The fields that a caller of `setExecutionResult` gives.
pub record Fields : Type 0 where
  pub run_id : Option (Option Text)
  pub status : Option Text
  pub executed_order : Option (List Text)
  pub executed_connection_ids : Option (List Text)
  pub executed_connections : Option (List (Option RoutedConnection))
  pub execution_events : Option (List (Option NodeResult))
  pub node_results : Option (List (Option NodeResult))
  pub node_outputs : Option Value
  pub error : Option (Option Text)
  pub error_node_id : Option (Option Text)
  pub output_data : Option Value
  pub input_data : Option Value
  pub context_snapshot : Option Value
  pub execution_count : Option (Option ℕ)
  pub duration_seconds : Option Value
  pub node_count_executed : Option (Option ℕ)

abbrev pub or_old {ℓ} : {A : Type ℓ} → Option A → A → A
or_old none old = old
or_old (some new) old = new

-- `Object.assign(state.executionProgress, fields)`
abbrev pub assign_fields : Fields → Progress → Progress
assign_fields f p = record {
  run_id = or_old f.run_id p.run_id;
  status = or_old f.status p.status;
  node_statuses = p.node_statuses;
  executed_order = or_old f.executed_order p.executed_order;
  executed_connection_ids = or_old f.executed_connection_ids p.executed_connection_ids;
  executed_connections = or_old f.executed_connections p.executed_connections;
  execution_events = or_old f.execution_events p.execution_events;
  node_results = or_old f.node_results p.node_results;
  node_outputs = or_old f.node_outputs p.node_outputs;
  error = or_old f.error p.error;
  error_node_id = or_old f.error_node_id p.error_node_id;
  output_data = or_old f.output_data p.output_data;
  input_data = or_old f.input_data p.input_data;
  context_snapshot = or_old f.context_snapshot p.context_snapshot;
  execution_count = or_old f.execution_count p.execution_count;
  duration_seconds = or_old f.duration_seconds p.duration_seconds;
  node_count_executed = or_old f.node_count_executed p.node_count_executed;
}

-- `if (Array.isArray(fields.nodeResults) && fields.nodeResults.length) …`
abbrev pub derive_statuses : Option (List (Option NodeResult)) → Progress → Progress
derive_statuses none p = p
derive_statuses (some []) p = p
derive_statuses (some (r ∷ rs)) p = record p {
  node_statuses = assign_statuses p.node_statuses (build_node_statuses_from_results (r ∷ rs));
}

abbrev pub derive_connection_ids : Progress → Progress
derive_connection_ids p = elim p.executed_connection_ids [
  | i ∷ is ↦ p
  | [] ↦ elim p.executed_connections [
    | [] ↦ p
    | c ∷ cs ↦ record p { executed_connection_ids = connection_ids (c ∷ cs) }
  ]
]

abbrev pub progress_or_fresh : Option Progress → Option Text → Progress
progress_or_fresh none run_id = fresh_progress run_id
progress_or_fresh (some p) run_id = p

-- `setExecutionResult`, but for the panel that it opens when the run is finished.
unfoldable pub set_execution_result : Fields → Option Progress → Progress
set_execution_result f o =
    derive_connection_ids
      (derive_statuses f.node_results (assign_fields f (progress_or_fresh o none)))

-- `replaceExecutionResult`, of the fields that are given.
unfoldable pub replace_execution_result : Fields → Progress
replace_execution_result f =
    set_execution_result f (some (fresh_progress (given (or_old f.run_id none))))
