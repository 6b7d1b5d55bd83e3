-- ===== src/Store/Session/Execution.antt =====
-- store/workflow_store.js: running the workflow, all of it, up to a node, or from one. The server is
-- a parameter. While the store waits for an answer other things happen: they are a function on
-- the session, one for each wait. The events that tell the canvas to refresh are left out.
pub mod Ends
use open_workflow_studio.Prelude.{
  ℕ, zero, suc, Bool, true, false, ◌||◌, Option, none, some, List, [], ◌∷◌, ◌++◌, map,
  if◌then◌else◌,
}
use mathlib.Core.List.{reverse}
use open_workflow_studio.Text.{Text, codes, ◌==◌, mem, add}
use open_workflow_studio.Assoc
use open_workflow_studio.Assoc.{Assoc}
use open_workflow_studio.Value.{
  Value, undefined, null, str, obj, arr, end, object, truthy, prop, or_undefined,
}
use open_workflow_studio.Progress.{Fields, NodeResult, RoutedConnection, fresh_progress, given}
use open_workflow_studio.Store.Pins.{Snapshot, build_full_snapshot}
use open_workflow_studio.Store.Session.{Session, set_progress, set_result}
use open_workflow_studio.Store.Session.RunData.{
  RunData, no_fields, first_text, unread_fields, run_fields, until_fields,
}

-- An answer, which is no object where it is `none`, or an exception with its message.
pub data Reply : Type 0 where
  answered : Option RunData → Reply
  failed_with : Option Text → Reply

pub record UntilRequest : Type 0 where
  pub workflow_id : ℕ
  pub target_node_id : Text
  pub input_data : Value
  pub snapshot : Snapshot
  pub config_overrides : Value

-- The routes of the server, called with `rpc`.
pub record Server : Type 0 where
  pub execute : ℕ → Value → Reply
  pub run : Text → Reply
  pub execute_until : UntilRequest → Reply
  pub execute_from : ℕ → Text → Value → Reply

pub data Executed : Type 0 where
  returned : Option RunData → Session → Executed
  raised : Option Text → Session → Executed

abbrev pub session_of : Executed → Session
session_of (returned r s) = s
session_of (raised e s) = s

-- A parameter that is undefined has its default.
abbrev pub default_input : Value → Value
default_input undefined = obj end
default_input v = v

abbrev pub normalize_input_data : Value → Value
normalize_input_data (obj f) = obj f
normalize_input_data (arr vs) = arr vs
normalize_input_data _ = obj end

-- The state of a run that begins.
unfoldable pub begin_run : Value → Session → Session
begin_run input s = set_progress (record (fresh_progress none) { input_data = input }) s

-- The run was read, or could not be.
abbrev pub take_run : RunData → Value → Reply → Session → Executed
take_run result input (failed_with e) s = raised e s
take_run result input (answered none) s =
    returned (some result) (set_result (unread_fields result input) s)
take_run result input (answered (some run)) s =
    returned (some result) (
      set_result (if run.jsonrpc then unread_fields result input else run_fields result run input)
        s)

-- The part that `executeWorkflow` and `executeFromNode` share, after the first answer.
abbrev pub take_result : Server → (Session → Session) → Value → Reply → Session → Executed
take_result server meanwhile input (failed_with e) s = raised e s
take_result server meanwhile input (answered none) s = returned none s
take_result server meanwhile input (answered (some r)) s = elim (given r.run_id) [
  | some i ↦ take_run r input (server.run i) (meanwhile s)
  | none ↦ elim (given r.error) [
    | none ↦ returned (some r) s
    | some e ↦ returned (some r) (
        set_result
          (record no_fields {
            status = first_text r.status (some (codes "failed"));
            error = some (some e);
            input_data = some input;
          })
          s)
  ]
]

unfoldable pub execute_workflow :
    Server → (Session → Session) → (Session → Session) → Value → Session → Executed
execute_workflow server waiting reading input_data s = elim s.workflow_id [
  | none ↦ raised (some (codes "No workflow ID loaded")) s
  | some w ↦
      let input = normalize_input_data (default_input input_data) in
      take_result server reading input (server.execute w input) (waiting (begin_run input s))
]

unfoldable pub execute_from_node :
    Server → (Session → Session) → (Session → Session) → Text → Value → Session → Executed
execute_from_node server waiting reading start_node_id input_data s = elim s.workflow_id [
  | none ↦ raised (some (codes "No workflow ID loaded")) s
  | some w ↦ elim start_node_id [
    | [] ↦ raised (some (codes "Start node ID is required")) s
    | c ∷ k ↦
        let input = normalize_input_data (default_input input_data) in
        take_result server reading input (server.execute_from w (c ∷ k) input)
          (waiting (begin_run input s))
  ]
]

abbrev pub is_end : Text → Bool
is_end status = status == codes "completed" || status == codes "failed"

-- The answer to `execute_until`, with the input as it was given and as it was sent.
abbrev pub take_until : Value → Value → Reply → Session → Executed
take_until given_input input (answered none) s = returned none s
take_until given_input input (answered (some r)) s = elim r.status [
  | none ↦ returned (some r) s
  | some status ↦
      returned (some r) (if is_end status then set_result (until_fields r status input) s else s)
]
take_until given_input input (failed_with e) s = raised e (
    set_result
      (record no_fields {
        status = some (codes "failed");
        error = some (first_text e (some (codes "Execution failed")));
        input_data = some given_input;
      })
      s)

unfoldable pub execute_until_node :
    Server → (Session → Session) → Text → Value → Value → Session → Executed
execute_until_node server waiting target_node_id input_data config_overrides s =
    elim s.workflow_id [
      | none ↦ raised (some (codes "No workflow ID loaded")) s
      | some w ↦ elim target_node_id [
        | [] ↦ raised (some (codes "Target node ID is required")) s
        | c ∷ k ↦
            let given_input = default_input input_data in
            let input = normalize_input_data given_input in
            take_until given_input input
              (server.execute_until (record {
                workflow_id = w;
                target_node_id = c ∷ k;
                input_data = input;
                snapshot = build_full_snapshot s.store;
                config_overrides = config_overrides;
              }))
              (waiting (begin_run input s))
      ]
    ]
