-- ===== src/Store/Session/RunData.antt =====
-- store/workflow_store.js: what the server tells of a run, and the fields of the progress that it
-- gives. Node outputs are objects under the ids of their nodes, and errors are texts.
pub mod Outputs
use open_workflow_studio.Prelude.{
  ℕ, zero, suc, Bool, true, false, ◌||◌, Option, none, some, List, [], ◌∷◌, ◌++◌, map,
  if◌then◌else◌,
}
use mathlib.Core.List.{reverse}
use open_workflow_studio.Text.{Text, codes, ◌==◌, mem, add}
use open_workflow_studio.Assoc
use open_workflow_studio.Assoc.{Assoc}
use open_workflow_studio.Value.{
  or_value, Value, undefined, null, str, obj, arr, end, object, truthy, prop, or_undefined,
}
use open_workflow_studio.Progress.{Fields, NodeResult, RoutedConnection, fresh_progress, given}
use open_workflow_studio.Store.Pins.{Snapshot, build_full_snapshot}
use open_workflow_studio.Store.Session.{Session, set_progress, set_result}

-- What the server tells of a run, at once or when the run is read. A field that is absent, null or
-- of a type that is not used is `none`, or a value that is not true.
pub record RunData : Type 0 where
  pub run_id : Option Text
  pub id : Option Text
  pub status : Option Text
  pub error : Option Text
  pub error_message : Option Text
  pub error_node_id : Option Text
  pub output_data : Value
  pub executed_order : Option (List Text)
  pub executed_connection_ids : Option (List Text)
  pub executed_connections : Option (List (Option RoutedConnection))
  pub execution_events : Option (List (Option NodeResult))
  pub node_results : Option (List (Option NodeResult))
  pub node_outputs : Option (Assoc Value)
  pub execution_count : Option ℕ
  pub duration_seconds : Value
  pub node_count_executed : Option ℕ
  pub input_data : Value
  pub context_snapshot : Value
  pub jsonrpc : Bool

abbrev pub no_fields : Fields
no_fields = record {
  run_id = none;
  status = none;
  executed_order = none;
  executed_connection_ids = none;
  executed_connections = none;
  execution_events = none;
  node_results = none;
  node_outputs = none;
  error = none;
  error_node_id = none;
  output_data = none;
  input_data = none;
  context_snapshot = none;
  execution_count = none;
  duration_seconds = none;
  node_count_executed = none;
}

-- `a || b`, of texts, lists that may be absent, and values; `v || null`, and `n || null`.
abbrev pub first_text : Option Text → Option Text → Option Text
first_text a b = elim (given a) [ none ↦ b | some s ↦ some s ]

abbrev pub first_list {ℓ} : {A : Type ℓ} → Option (List A) → Option (List A) → List A
first_list (some xs) b = xs
first_list none (some ys) = ys
first_list none none = []

abbrev pub count_or_null : Option ℕ → Option ℕ
count_or_null none = none
count_or_null (some zero) = none
count_or_null (some (suc n)) = some (suc n)

-- The run could not be read.
abbrev pub unread_fields : RunData → Value → Fields
unread_fields result input = record no_fields {
  run_id = some result.run_id;
  status = first_text result.status (some (codes "failed"));
  error = some (first_text result.error (some (codes "Failed to load run details")));
  input_data = some input;
}

abbrev pub run_fields : RunData → RunData → Value → Fields
run_fields result run input = record no_fields {
  run_id = some (first_text run.run_id (first_text run.id result.run_id));
  status = first_text run.status (first_text result.status (some (codes "completed")));
  error = some (first_text run.error (first_text run.error_message (given result.error)));
  error_node_id = some (given run.error_node_id);
  output_data = some (or_value run.output_data null);
  executed_order = some (first_list run.executed_order result.executed_order);
  executed_connection_ids =
      some (first_list run.executed_connection_ids result.executed_connection_ids);
  executed_connections = some (first_list run.executed_connections result.executed_connections);
  execution_count = some (count_or_null run.execution_count);
  duration_seconds = some (or_value run.duration_seconds (or_value result.duration_seconds null));
  node_count_executed = some (count_or_null run.node_count_executed);
  input_data = some (or_value run.input_data input);
  context_snapshot = some (or_value result.context_snapshot (or_value run.context_snapshot null));
  execution_events = some (first_list run.execution_events result.execution_events);
  node_results = some (first_list run.node_results none);
}

-- The loop of `buildNodeResultsFromOutputs`, over the ids from the last to the first.
pub collect : List Text → List Text → List Text → List Text
collect [] seen results = results
collect (k ∷ ks) seen results =
    if mem k seen then collect ks seen results else collect ks (add k seen) (results ++ k ∷ [])

abbrev pub text_of : Value → Option Text
text_of (str s) = some s
text_of _ = none

-- The result of a node, but for the title and the meta, which nothing here reads.
abbrev pub output_result : Assoc Value → Text → NodeResult
output_result outputs k =
    let output = or_undefined (Assoc.get k outputs) in
    record {
      node_id = some k;
      node_run_id = none;
      sequence = none;
      iteration = none;
      error_message = given (text_of (prop (codes "error") output));
      output_data = prop (codes "json") output;
    }

abbrev pub ids_of_run : Assoc Value → Option (List Text) → List Text
ids_of_run outputs none = Assoc.keys outputs
ids_of_run outputs (some []) = Assoc.keys outputs
ids_of_run outputs (some (k ∷ ks)) = k ∷ ks

abbrev pub outputs_or_empty : Option (Assoc Value) → Assoc Value
outputs_or_empty none = []
outputs_or_empty (some m) = m

unfoldable pub build_node_results_from_outputs :
    Option (Assoc Value) → Option (List Text) → List NodeResult
build_node_results_from_outputs node_outputs executed_order =
    let outputs = outputs_or_empty node_outputs in
    map (output_result outputs)
      (reverse (collect (reverse (ids_of_run outputs executed_order)) [] []))

abbrev pub outputs_value : Option (Assoc Value) → Value
outputs_value none = null
outputs_value (some m) = obj (object m)

abbrev pub until_fields : RunData → Text → Value → Fields
until_fields r status input = record no_fields {
  status = some status;
  error = some (given r.error);
  error_node_id = some (given r.error_node_id);
  executed_order = some (first_list r.executed_order none);
  executed_connection_ids = some (first_list r.executed_connection_ids none);
  executed_connections = some (first_list r.executed_connections none);
  execution_count = some (count_or_null r.execution_count);
  duration_seconds = some (or_value r.duration_seconds null);
  node_count_executed = some (count_or_null r.node_count_executed);
  input_data = some input;
  execution_events = some (first_list r.execution_events none);
  node_results = some (map some (build_node_results_from_outputs r.node_outputs r.executed_order));
  node_outputs = some (outputs_value r.node_outputs);
  context_snapshot = some (or_value r.context_snapshot null);
}
