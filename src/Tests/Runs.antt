-- ===== src/Tests/Runs.antt =====
-- The progress of a run, pinned data, and the configuration of a request.
use open_workflow_studio.Prelude.{In, ◌⊎◌, ◌≡◌, refl, Option, none, some, List, [], ◌∷◌, true, In}
use open_workflow_studio.Prelude.Int.{pos}
use open_workflow_studio.Text.{Text, codes}
use open_workflow_studio.Assoc
use open_workflow_studio.Assoc.{Assoc, IsUnique}
use open_workflow_studio.Value.Json.{json_entries}
use open_workflow_studio.Value.{Value, null, str, num}
use open_workflow_studio.Node.Config.{or_else}
use open_workflow_studio.Adapter.{state_of}
use open_workflow_studio.Editor.{new_editor}
use open_workflow_studio.Progress.{
  Progress, NodeResult, Fields, status_of, fresh_progress, progress_or_fresh, set_execution_result,
}
use open_workflow_studio.Progress.Items.{replace_execution_node_result}
use open_workflow_studio.Progress.Bus.{Payload, list_of}
use open_workflow_studio.Progress.Statuses.{last_status, get-set_execution_result}
use open_workflow_studio.Progress.Replace.{replace_execution_node_result_lem}
use open_workflow_studio.Progress.Tracked.{IsTracked, IsPartial, on_all, on_all-IsTracked}
use open_workflow_studio.Store.{Store}
use open_workflow_studio.Store.Pins.{load_metadata, snapshot_metadata}
use open_workflow_studio.Store.Pins.Saved.{PinCall, pin, unpin, call_all, pin_data-load_metadata}
use open_workflow_studio.Connector.{sanitize_connector_request_config}
use open_workflow_studio.Connector.Cleared.{
  IsNothing, IsNoRecord, IsBlankText, HasNoRow, IsBlankBody,
}
use open_workflow_studio.Connector.Blank.{
  IsCleared, cleared_keys, sanitize_connector_request_config_lem,
}

abbrev result_of : Text → Option Text → NodeResult
result_of k error = record {
  node_id = some k;
  node_run_id = none;
  sequence = some 1;
  iteration = none;
  error_message = error;
  output_data = null;
}

abbrev fields : Fields
fields = record {
  run_id = none;
  status = some (codes "failed");
  executed_order = none;
  executed_connection_ids = none;
  executed_connections = none;
  execution_events = none;
  node_results = some (
      some (result_of (codes "n_1") none)
      ∷ none
      ∷ some (result_of (codes "n_1") (some (codes "lost")))
      ∷ []);
  node_outputs = none;
  error = none;
  error_node_id = none;
  output_data = none;
  input_data = none;
  context_snapshot = none;
  execution_count = none;
  duration_seconds = none;
  node_count_executed = none;
}

get-set_execution_result_example :
    Assoc.get (codes "n_1") (set_execution_result fields none).node_statuses
    ≡ or_else
        (last_status (codes "n_1") (list_of fields.node_results))
        (Assoc.get (codes "n_1") (progress_or_fresh none none).node_statuses)
get-set_execution_result_example = get-set_execution_result (codes "n_1") fields none

abbrev run : Progress
run = record (fresh_progress (some (codes "r"))) {
  node_results = some (result_of (codes "n_1") (some (codes "lost"))) ∷ none ∷ [];
}

replace_execution_node_result_example :
    (p : Progress) × (replace_execution_node_result (result_of (codes "n_1") none) (some run)
      ≡ some p)
    × In (some (result_of (codes "n_1") none)) p.node_results
    × In (some (result_of (codes "n_1") none)) p.execution_events
    × (Assoc.get (codes "n_1") p.node_statuses ≡ some (status_of (result_of (codes "n_1") none)))
    × (replace_execution_node_result (result_of (codes "n_1") none) (some p) ≡ some p)
replace_execution_node_result_example =
    replace_execution_node_result_lem (result_of (codes "n_1") none) (codes "n_1") (some run) refl

abbrev payload_of : Text → Text → Payload
payload_of run_id k = record {
  run_id = some run_id;
  completed_nodes = some (some (record { node_id = some k; status = none }) ∷ none ∷ []);
  connections = some (some (record { connection_id = some (codes "c"); detail = null }) ∷ []);
  next_running_node_id = some (codes "n_2");
  status = none;
  error = none;
  executed_order = none;
  executed_connection_ids = none;
  executed_connections = none;
}

-- The third payload is of another run.
abbrev payloads : List Payload
payloads =
    payload_of (codes "r") (codes "n_1")
    ∷ payload_of (codes "r") (codes "n_1")
    ∷ payload_of (codes "q") (codes "n_3")
    ∷ []

payload_of-IsPartial : (run_id k : Text) → IsPartial (payload_of run_id k)
payload_of-IsPartial run_id k = record { no_order = refl; no_ids = refl; no_connections = refl }

on_all-IsTracked_example : IsTracked (on_all payloads (fresh_progress (some (codes "r"))))
on_all-IsTracked_example =
    on_all-IsTracked (some (codes "r")) payloads
      (payload_of-IsPartial _ _, (payload_of-IsPartial _ _, (payload_of-IsPartial _ _, tt)))

abbrev store : Store
store = record {
  adapter = record { editor = new_editor []; state = state_of [] [] };
  history = record {
    undo_stack = [];
    redo_stack = [];
    max_size = 50;
    recording = true;
    current_batch = none;
    notices = [];
  };
  execution_progress = none;
  pin_data = [];
  workflow_metadata = (codes "pinData", null) ∷ [];
}

abbrev pins : List PinCall
pins =
    pin (codes "n_1") (num (pos 4)) ∷ pin (codes "n_2") (str (codes "x")) ∷ unpin (codes "n_2") ∷ []

pin_data-load_metadata_example :
    ((load_metadata (json_entries (snapshot_metadata (call_all pins store))) store).pin_data
      ≡ json_entries (call_all pins store).pin_data)
    × (json_entries (json_entries (call_all pins store).pin_data)
        ≡ json_entries (call_all pins store).pin_data)
pin_data-load_metadata_example = pin_data-load_metadata pins store store tt

abbrev request : Assoc Value
request =
    (codes "url", str (codes "  ")) ∷ (codes "method", str (codes "GET")) ∷ (codes "x", null) ∷ []

sanitize_connector_request_config_example :
    IsCleared IsNoRecord (codes "connector_id") request
    × IsCleared IsNoRecord (codes "workspace_id") request
    × IsCleared IsNoRecord (codes "endpoint_id") request
    × IsCleared IsNoRecord (codes "auth_profile_id") request
    × IsCleared IsBlankText (codes "url") request
    × IsCleared IsBlankText (codes "method") request
    × IsCleared HasNoRow (codes "headers") request
    × IsCleared HasNoRow (codes "query_params") request
    × IsCleared IsBlankBody (codes "body_config") request
    × IsCleared IsNothing (codes "timeout") request
    × ((k : Text)
        → In k cleared_keys
          ⊎ (Assoc.get k (sanitize_connector_request_config request) ≡ Assoc.get k request))
    × (sanitize_connector_request_config (sanitize_connector_request_config request)
        ≡ sanitize_connector_request_config request)
sanitize_connector_request_config_example = sanitize_connector_request_config_lem request
