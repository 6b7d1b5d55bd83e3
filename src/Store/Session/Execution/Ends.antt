-- ===== src/Store/Session/Execution/Ends.antt =====
-- store/workflow_store.js: how the progress stands when a run ends.
use open_workflow_studio.Prelude.{
  ℕ, ◌≡◌, refl, ◌∙◌, sym, ap, true, Option, none, some, List, [], ◌∷◌, subst,
}
use open_workflow_studio.Text.{Text, codes, ◌==◌}
use open_workflow_studio.Value.{Value}
use open_workflow_studio.Progress.{
  Progress, Fields, NodeResult, RoutedConnection, set_execution_result, finished, derive_statuses,
  derive_connection_ids, assign_fields, progress_or_fresh, or_old,
}
use open_workflow_studio.Store.Pins.{build_full_snapshot}
use open_workflow_studio.Store.Session.{Session, set_progress, set_result, open_log_if}
use open_workflow_studio.Store.Session.RunData.{RunData}
use open_workflow_studio.Store.Session.Execution.{
  Reply, answered, failed_with, Server, session_of, execute_until_node, take_until, is_end,
  default_input, normalize_input_data,
}

-- The answer says how the run ended, or is an exception.
pub data Settles : Reply → Type 0 where
  settles_end :
      (r : RunData) (status : Text)
      → r.status ≡ some status
      → is_end status ≡ true
      → Settles (answered (some r))
  settles_exception : (e : Option Text) → Settles (failed_with e)

-- The progress says that the run is over, and the log is shown.
pub record IsOver (s : Session) : Type 0 where
  pub progress : Progress
  pub shown : s.store.execution_progress ≡ some progress
  pub over : finished progress ≡ true
  pub log : s.ui.panels.execution_log_open ≡ true

status-derive_statuses :
    (o : Option (List (Option NodeResult))) (p : Progress) → (derive_statuses o p).status ≡ p.status
status-derive_statuses none p = refl
status-derive_statuses (some []) p = refl
status-derive_statuses (some (r ∷ rs)) p = refl

status-derive_connection_ids : (p : Progress) → (derive_connection_ids p).status ≡ p.status
status-derive_connection_ids p = by_lists p.executed_connection_ids p.executed_connections
  where
    by_lists :
        (is : List Text) (cs : List (Option RoutedConnection))
        → (derive_connection_ids
            (record p { executed_connection_ids = is; executed_connections = cs })).status
          ≡ p.status
    by_lists [] [] = refl
    by_lists [] (c ∷ cs) = refl
    by_lists (i ∷ is) cs = refl

status-set_execution_result :
    (f : Fields) (o : Option Progress) (status : Text)
    → f.status ≡ some status
    → (set_execution_result f o).status ≡ status
unfolding set_execution_result
status-set_execution_result f o status e =
    status-derive_connection_ids
      (derive_statuses f.node_results (assign_fields f (progress_or_fresh o none)))
    ∙ status-derive_statuses f.node_results (assign_fields f (progress_or_fresh o none))
    ∙ ap (λ t. or_old t (progress_or_fresh o none).status) e

set_result-IsOver :
    (f : Fields) (s : Session) (status : Text)
    → f.status ≡ some status
    → is_end status ≡ true
    → IsOver (set_result f s)
set_result-IsOver f s status e h =
    let p = set_execution_result f s.store.execution_progress in
    let over : finished p ≡ true =
      ap is_end (status-set_execution_result f s.store.execution_progress status e) ∙ h in
    subst (λ b. IsOver (open_log_if b (set_progress p s))) (sym over)
      (record { progress = p; shown = refl; over = over; log = refl })

take_until-IsOver :
    (given_input input : Value) (reply : Reply) (s : Session)
    → Settles reply
    → IsOver (session_of (take_until given_input input reply s))
unfolding ◌==◌
take_until-IsOver given_input input reply s (settles_end r status e h) =
    rw (e, take_until) (rw h (set_result-IsOver _ s status refl h))
take_until-IsOver given_input input reply s (settles_exception e) =
    set_result-IsOver _ s (codes "failed") refl refl

module _ (server : Server) (waiting : Session → Session) where
  -- With a workflow that is loaded and a target that is not empty, whatever happens while the answer
  -- is awaited, the run up to a node leaves a progress whose status is completed or failed, and
  -- shows the log, when the answer is an exception or has such a status.
  pub execute_until_node-IsOver :
      (c : ℕ) (k : Text) (input_data config_overrides : Value) (w : ℕ) (s : Session)
      → s.workflow_id ≡ some w
      → Settles (
          server.execute_until (record {
            workflow_id = w;
            target_node_id = c ∷ k;
            input_data = normalize_input_data (default_input input_data);
            snapshot = build_full_snapshot s.store;
            config_overrides = config_overrides;
          }))
      → IsOver
          (session_of (execute_until_node server waiting (c ∷ k) input_data config_overrides s))
  unfolding execute_until_node
  execute_until_node-IsOver c k input_data config_overrides w s e h =
      rw (e, execute_until_node) (take_until-IsOver _ _ _ _ h)
