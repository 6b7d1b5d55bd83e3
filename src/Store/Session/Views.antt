-- ===== src/Store/Session/Views.antt =====
-- store/workflow_store.js: the preview of a revision, the view of a run, and loading a workflow. Each
-- of the first two shows another graph, and keeps the editor's own to show it again.
pub mod Refine
pub mod Entering
pub mod Leaving
pub mod Steps
pub mod Modes
pub mod Stale
use open_workflow_studio.Prelude.{
  ℕ, zero, suc, Bool, true, false, not, ◌&&◌, Option, none, some, List, [], ◌∷◌, if◌then◌else◌,
  is_some,
}
use open_workflow_studio.Text.{Text}
use open_workflow_studio.Value.{Value}
use open_workflow_studio.Assoc.{Assoc}
use open_workflow_studio.Editor.Load
use open_workflow_studio.Editor.Load.{WorkflowData}
use open_workflow_studio.Adapter
use open_workflow_studio.Adapter.{Adapter, Loading, loaded_all, threw_error}
use open_workflow_studio.Progress.{Fields}
use open_workflow_studio.History
use open_workflow_studio.Store.{Store}
use open_workflow_studio.Store.Pins.{Snapshot, load_metadata}
use open_workflow_studio.Store.Session.{
  Session, Kept, Marker, Panels, Ui, nothing_kept, no_marker, no_selection, no_hover, closed_menu,
  replace_result,
}

-- How an action ends; an exception leaves the session as it is then.
pub data Ran : Type 0 where
  done threw : Session → Ran

infixl 5 ◌>>=◌
abbrev pub ◌>>=◌ : Ran → (Session → Ran) → Ran
done s >>= f = f s
threw s >>= f = threw s

abbrev pub after : Ran → Session
after (done s) = s
after (threw s) = s

abbrev pub with_adapter : Adapter → Session → Session
with_adapter a s = record s { store = record s.store { adapter = a } }

-- `adapter.fromJSON(snapshot)`
unfoldable pub load : WorkflowData → Session → Ran
load d s = elim (Adapter.from_json d s.store.adapter) [
  | loaded_all a ↦ done (with_adapter a s)
  | threw_error a ↦ threw (with_adapter a s)
]

-- `if (kept.active && restoreOriginal && kept.originalSnapshot) adapter.fromJSON(…)`
unfoldable pub restore : Bool → Kept → Session → Ran
restore restore_original kept s =
    if kept.active && restore_original
    then elim kept.original_snapshot [ none ↦ done s | some d ↦ load d s ]
    else done s

-- `id || null`
abbrev pub id_or_null : Option ℕ → Option ℕ
id_or_null none = none
id_or_null (some zero) = none
id_or_null (some (suc n)) = some (suc n)

abbrev pub leave_preview : Session → Session
leave_preview s = record s {
  history_preview = nothing_kept;
  ui = record s.ui {
    history_preview = no_marker;
    readonly = false;
    selection = no_selection;
    hovered_connection = no_hover;
  };
}

unfoldable pub end_history_preview : Bool → Session → Ran
end_history_preview restore_original s =
    restore restore_original s.history_preview s >>= λ t. done (leave_preview t)

abbrev pub clear_if : Bool → Session → Session
clear_if false s = s
clear_if true s = record s { store = record s.store { execution_progress = none } }

abbrev pub leave_view : Session → Session
leave_view s = record s {
  execution_view = nothing_kept;
  ui = record s.ui {
    execution_view = no_marker;
    readonly = false;
    selection = no_selection;
    hovered_connection = no_hover;
  };
}

unfoldable pub end_execution_view : Bool → Bool → Session → Ran
end_execution_view restore_original clear_execution s =
    restore restore_original s.execution_view s >>= λ t.
    done (clear_if clear_execution (leave_view t))

-- The graph is kept unless one is kept already.
abbrev pub keep : Option ℕ → Kept → Adapter → Kept
keep id kept a = record {
  active = true;
  id = id_or_null id;
  original_snapshot = if kept.active then kept.original_snapshot else some (Load.to_json a.editor);
}

abbrev pub without_config : Panels → Panels
without_config p = record p { config_open = false; config_node_id = none }

abbrev pub enter_preview : Option ℕ → Session → Session
enter_preview revision_id s = record s {
  history_preview = keep revision_id s.history_preview s.store.adapter;
  ui = record s.ui {
    history_preview = record { active = true; id = id_or_null revision_id };
    readonly = true;
    selection = no_selection;
    hovered_connection = no_hover;
    panels = without_config s.ui.panels;
    node_menu = closed_menu;
  };
}

unfoldable pub start_history_preview : Option ℕ → Option WorkflowData → Session → Ran
start_history_preview revision_id none s = done s
start_history_preview revision_id (some snapshot) s =
    (if s.execution_view.active then end_execution_view true true s else done s) >>= λ t.
    load snapshot (enter_preview revision_id t)

abbrev pub enter_view : Option ℕ → Session → Session
enter_view run_id s = record s {
  execution_view = keep run_id s.execution_view s.store.adapter;
  ui = record s.ui {
    execution_view = record { active = true; id = id_or_null run_id };
    readonly = true;
    selection = no_selection;
    hovered_connection = no_hover;
    panels = record (without_config s.ui.panels) { execution_log_open = true };
    node_menu = closed_menu;
  };
}

abbrev pub show_data : Option Fields → Session → Session
show_data none s = s
show_data (some f) s = replace_result f s

unfoldable pub start_execution_view : Option ℕ → Option WorkflowData → Option Fields → Session → Ran
start_execution_view run_id none execution_data s = done s
start_execution_view run_id (some snapshot) execution_data s =
    (if s.history_preview.active then end_history_preview true s else done s) >>= λ t.
    load snapshot (enter_view run_id t) >>= λ u. done (show_data execution_data u)

unfoldable pub copy_execution_to_editor : Session → Ran
copy_execution_to_editor s =
    if s.execution_view.active then end_execution_view true false s else done s

-- The fields that `debugExecution` takes from a run; without results it raises an exception.
unfoldable pub debug_execution : Option Fields → Session → Ran
debug_execution none s = threw s
debug_execution (some f) s =
    (if s.execution_view.active then end_execution_view true true s else done s) >>= λ t.
    done (replace_result f t)

-- `loadWorkflow`, with what the server sends. The kept view of a run is left as it is.
unfoldable pub load_workflow : ℕ → Text → Snapshot → Session → Ran
load_workflow id version_hash snapshot s =
    let t = record s {
      store = record s.store { execution_progress = none };
      ui = record s.ui {
        panels = record s.ui.panels { execution_log_open = false };
        executing = false;
        execution_view = no_marker;
      };
    } in
    load snapshot.graph t >>= λ u. done (record u {
      version_hash = some version_hash;
      workflow_id = some id;
      store = load_metadata snapshot.metadata u.store;
    })

-- `saveWorkflow`, once the server has saved the snapshot.
abbrev pub saved : Text → Session → Session
saved version_hash s = record s {
  version_hash = some version_hash;
  store = record s.store { history = History.clear s.store.history };
}
