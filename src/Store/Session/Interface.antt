-- ===== src/Store/Session/Interface.antt =====
-- store/workflow_store.js: the actions on selection, panels, menus and flags of the interface.
use open_workflow_studio.Prelude.{suc, Bool, true, false, not, Option, none, some, List, [], ◌∷◌}
use open_workflow_studio.Prelude.Int.{◌+ℤ◌}
use open_workflow_studio.Text.{Text, codes, add}
use open_workflow_studio.Value.{Value, bool, truthy, or_undefined}
use open_workflow_studio.Assoc
use open_workflow_studio.Node.{Position, origin}
use open_workflow_studio.Editor
use open_workflow_studio.Adapter
use open_workflow_studio.Adapter.{Adapter}
use open_workflow_studio.Store.Session.{Panels, Session, closed_menu, no_hover}

-- `Array.from(new Set(ids))`
abbrev pub distinct_from : List Text → List Text → List Text
distinct_from seen [] = seen
distinct_from seen (x ∷ xs) = distinct_from (add x seen) xs

unfoldable pub select : List Text → List Text → Session → Session
select node_ids connection_ids s = record s {
  ui = record s.ui {
    selection = record {
      node_ids = distinct_from [] node_ids;
      connection_ids = distinct_from [] connection_ids;
    };
  };
}

abbrev pub focus_node : Text → Session → Session
focus_node [] s = s
focus_node (c ∷ k) s = record s {
  focus_node_request_seq = suc s.focus_node_request_seq;
  ui = record s.ui {
    selection = record { node_ids = (c ∷ k) ∷ []; connection_ids = [] };
    focus_node_request = some (c ∷ k, suc s.focus_node_request_seq);
  };
}

abbrev pub pan_by : Position → Session → Session
pan_by d s = record s {
  ui = record s.ui { pan = record { x = s.ui.pan.x +ℤ d.x; y = s.ui.pan.y +ℤ d.y } };
}

abbrev pub set_readonly : Bool → Session → Session
set_readonly v s = record s { ui = record s.ui { readonly = v } }

abbrev pub set_saving : Bool → Session → Session
set_saving v s = record s { ui = record s.ui { saving = v } }

abbrev pub set_executing : Bool → Session → Session
set_executing v s = record s { ui = record s.ui { executing = v } }

pub data Panel : Type 0 where
  config menu history execution_log : Panel

abbrev pub set_panel : Panel → Bool → Option Text → Panels → Panels
set_panel config v node_id p = record p { config_open = v; config_node_id = node_id }
set_panel menu v node_id p = record p { menu_open = v }
set_panel history v node_id p = record p { history_open = v }
set_panel execution_log v node_id p = record p { execution_log_open = v }

-- The node's id is of the configuration panel's context.
abbrev pub open_panel : Panel → Option Text → Session → Session
open_panel panel node_id s = record s {
  ui = record s.ui { panels = set_panel panel true node_id s.ui.panels };
}

abbrev pub close_panel : Panel → Session → Session
close_panel panel s = record s {
  ui = record s.ui { panels = set_panel panel false none s.ui.panels };
}

abbrev pub position_or_origin : Option Position → Position
position_or_origin none = origin
position_or_origin (some p) = p

abbrev pub set_hovered_connection :
    Option Text → Option Position → Option Position → Session → Session
set_hovered_connection id midpoint canvas_midpoint s = record s {
  ui = record s.ui {
    hovered_connection = elim id [
      | none ↦ no_hover
      | some i ↦ record {
        id = some i;
        midpoint = position_or_origin midpoint;
        canvas_midpoint = canvas_midpoint;
      }
    ];
  };
}

abbrev pub open_node_menu : Position → Position → Text → Option Value → Session → Session
open_node_menu screen canvas variant context s = record s {
  ui = record s.ui {
    node_menu = record {
      visible = true;
      screen = screen;
      canvas = canvas;
      variant = variant;
      connection_context = context;
    };
  };
}

abbrev pub close_node_menu : Session → Session
close_node_menu s = record s { ui = record s.ui { node_menu = closed_menu } }

-- `toggleDisable`
pub toggle_disable : Text → Session → Session
toggle_disable k s =
    let disabled = truthy (
      or_undefined
        (Assoc.get (codes "disabled") (Editor.get_node_meta k s.store.adapter.editor))) in
    record s {
      store = record s.store {
        adapter =
            (Adapter.set_node_meta k ((codes "disabled", bool (not disabled)) ∷ [])
              s.store.adapter).0;
      };
    }
