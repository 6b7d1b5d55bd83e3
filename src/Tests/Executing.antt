-- ===== src/Tests/Executing.antt =====
-- Runs over servers that answer, and that fail.
use open_workflow_studio.Prelude.{◌≡◌, refl, none, some, [], ◌∷◌, false, map}
use open_workflow_studio.Text.{Text, codes, ◌==◌, mem, NoRepeat}
use open_workflow_studio.Assoc.{Assoc}
use open_workflow_studio.Value.{Value, undefined, null, str, obj, end, field}
use open_workflow_studio.Store.Session.RunData.{
  RunData, build_node_results_from_outputs, ids_of_run, output_result, outputs_or_empty,
}
use open_workflow_studio.Store.Session.RunData.Outputs.{latest, build_node_results_from_outputs_lem}
use open_workflow_studio.Store.Session.Execution.{
  Server, answered, failed_with, session_of, execute_until_node,
}
use open_workflow_studio.Store.Session.Execution.Ends.{
  IsOver, settles_end, execute_until_node-IsOver,
}
use open_workflow_studio.Tests.Sessions.{session}

abbrev outputs : Assoc Value
outputs =
    (codes "n_1", obj (field (codes "json") (str (codes "a")) end))
    ∷ (codes "n_2", obj (field (codes "error") (str (codes "lost")) end))
    ∷ []

build_node_results_from_outputs_example :
    let order = some (codes "n_1" ∷ codes "n_2" ∷ codes "n_1" ∷ []) in
    let ids = ids_of_run (outputs_or_empty (some outputs)) order in
    (build_node_results_from_outputs (some outputs) order
      ≡ map (output_result (outputs_or_empty (some outputs))) (latest ids))
    × NoRepeat (latest ids)
    × ((k : Text) → mem k (latest ids) ≡ mem k ids)
build_node_results_from_outputs_example =
    build_node_results_from_outputs_lem (some outputs)
      (some (codes "n_1" ∷ codes "n_2" ∷ codes "n_1" ∷ []))

abbrev failed_run : RunData
failed_run = record {
  run_id = none;
  id = none;
  status = some (codes "failed");
  error = some (codes "lost");
  error_message = none;
  error_node_id = some (codes "n_2");
  output_data = null;
  executed_order = some (codes "n_1" ∷ codes "n_2" ∷ []);
  executed_connection_ids = none;
  executed_connections = none;
  execution_events = none;
  node_results = none;
  node_outputs = some outputs;
  execution_count = some 2;
  duration_seconds = null;
  node_count_executed = some 2;
  input_data = undefined;
  context_snapshot = undefined;
  jsonrpc = false;
}

abbrev server : Server
server = record {
  execute = λ w v. failed_with (some (codes "offline"));
  run = λ i. answered none;
  execute_until = λ r. answered (some failed_run);
  execute_from = λ w k v. failed_with none;
}

execute_until_node-IsOver_example :
    IsOver (session_of (execute_until_node server (λ s. s) (codes "n_2") undefined null session))
unfolding ◌==◌
execute_until_node-IsOver_example =
    execute_until_node-IsOver server (λ s. s) b'n' (codes "_2") undefined null 1 session refl
      (settles_end failed_run (codes "failed") refl refl)
