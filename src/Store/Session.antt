-- ===== src/Store/Session.antt =====
-- store/workflow_store.js: the state of the interface beside the graph, and the actions on it.
-- Zoom levels are left out, and so are events on the bus. Ids of records are numbers above 0.
pub mod Views
pub mod Interface
pub mod RunData
pub mod Execution
use open_workflow_studio.Prelude.{
  ℕ, zero, suc, Bool, true, false, not, Option, none, some, List, [], ◌∷◌, if◌then◌else◌,
}
use open_workflow_studio.Prelude.Int.{◌+ℤ◌}
use open_workflow_studio.Text.{Text, codes, add}
use open_workflow_studio.Value.{Value, bool, truthy, or_undefined}
use open_workflow_studio.Assoc
use open_workflow_studio.Node.{Position, origin}
use open_workflow_studio.Editor
use open_workflow_studio.Editor.Load.{WorkflowData}
use open_workflow_studio.Adapter
use open_workflow_studio.Adapter.{Adapter}
use open_workflow_studio.Progress.{
  Progress, Fields, NodeResult, set_execution_result, replace_execution_result, finished,
}
use open_workflow_studio.Progress.Items.{replace_execution_node_result}
use open_workflow_studio.Progress.Bus.{Payload, on_execution_progress}
use open_workflow_studio.Store.{Store}

pub record Selection : Type 0 where
  pub node_ids : List Text
  pub connection_ids : List Text

pub record Panels : Type 0 where
  pub config_open : Bool
  pub config_node_id : Option Text
  pub menu_open : Bool
  pub history_open : Bool
  pub execution_log_open : Bool

pub record HoveredConnection : Type 0 where
  pub id : Option Text
  pub midpoint : Position
  pub canvas_midpoint : Option Position

pub record NodeMenu : Type 0 where
  pub visible : Bool
  pub screen : Position
  pub canvas : Position
  pub variant : Text
  pub connection_context : Option Value

-- `{ active, revisionId }` and `{ active, runId }`, as the interface sees them.
pub record Marker : Type 0 where
  pub active : Bool
  pub id : Option ℕ

pub record Ui : Type 0 where
  pub selection : Selection
  pub pan : Position
  pub focus_node_request : Option (Text × ℕ)
  pub panels : Panels
  pub hovered_connection : HoveredConnection
  pub readonly : Bool
  pub saving : Bool
  pub executing : Bool
  pub history_preview : Marker
  pub execution_view : Marker
  pub node_menu : NodeMenu

-- `historyPreview` and `executionView`, which keep the graph that was shown before.
pub record Kept : Type 0 where
  pub active : Bool
  pub id : Option ℕ
  pub original_snapshot : Option WorkflowData

pub record Session : Type 0 where
  pub store : Store
  pub ui : Ui
  pub history_preview : Kept
  pub execution_view : Kept
  pub focus_node_request_seq : ℕ
  pub workflow_id : Option ℕ
  pub version_hash : Option Text

abbrev pub no_selection : Selection
no_selection = record { node_ids = []; connection_ids = [] }

abbrev pub no_hover : HoveredConnection
no_hover = record { id = none; midpoint = origin; canvas_midpoint = none }

abbrev pub closed_menu : NodeMenu
closed_menu = record {
  visible = false;
  screen = origin;
  canvas = origin;
  variant = codes "default";
  connection_context = none;
}

abbrev pub no_marker : Marker
no_marker = record { active = false; id = none }

abbrev pub nothing_kept : Kept
nothing_kept = record { active = false; id = none; original_snapshot = none }

-- `DEFAULT_UI_STATE`
abbrev pub default_ui_state : Ui
default_ui_state = record {
  selection = no_selection;
  pan = origin;
  focus_node_request = none;
  panels = record {
    config_open = false;
    config_node_id = none;
    menu_open = false;
    history_open = false;
    execution_log_open = false;
  };
  hovered_connection = no_hover;
  readonly = false;
  saving = false;
  executing = false;
  history_preview = no_marker;
  execution_view = no_marker;
  node_menu = closed_menu;
}

abbrev pub set_progress : Progress → Session → Session
set_progress p s = record s { store = record s.store { execution_progress = some p } }

abbrev pub open_log_if : Bool → Session → Session
open_log_if false s = s
open_log_if true s = record s {
  ui = record s.ui { panels = record s.ui.panels { execution_log_open = true } };
}

-- The actions of the store on the progress.
abbrev pub set_result : Fields → Session → Session
set_result f s =
    let p = set_execution_result f s.store.execution_progress in
    open_log_if (finished p) (set_progress p s)

abbrev pub replace_result : Fields → Session → Session
replace_result f s =
    let p = replace_execution_result f in open_log_if (finished p) (set_progress p s)

abbrev pub take_progress : Option Payload → Session → Session
take_progress none s = s
take_progress (some payload) s =
    set_progress (on_execution_progress payload s.store.execution_progress) s

-- `none` is the exception for a result without a node's id.
abbrev pub replace_node_result : NodeResult → Session → Option Session
replace_node_result r s = elim (replace_execution_node_result r s.store.execution_progress) [
  | none ↦ none
  | some p ↦ some (set_progress p s)
]
