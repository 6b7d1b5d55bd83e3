-- ===== src/Tests/Sessions.antt =====
-- A session that previews a revision and views a run, and the progress of that run.
use open_workflow_studio.Prelude.{◌≡◌, refl, Option, none, some, List, [], ◌∷◌, true, false}
use open_workflow_studio.Prelude.Int.{pos}
use open_workflow_studio.Text.{Text, codes, ◌==◌}
use open_workflow_studio.Assoc
use open_workflow_studio.Assoc.{Assoc}
use open_workflow_studio.Connection.{Connection, default_meta}
use open_workflow_studio.Connection.Restore.{IsMade}
use open_workflow_studio.Node.{BaseNode, NodeClass}
use open_workflow_studio.Node.Restore.{IsInstance}
use open_workflow_studio.Editor.{Editor, new_editor}
use open_workflow_studio.Editor.Load
use open_workflow_studio.Editor.Load.{WorkflowData, loaded}
use open_workflow_studio.Editor.Load.RoundTrip.{reloaded, from_json-to_json}
use open_workflow_studio.Adapter
use open_workflow_studio.Adapter.{state_of}
use open_workflow_studio.Adapter.Reload.{Graph, IsWhole, saved_graph, adapter_of}
use open_workflow_studio.Store.Session.{Session, default_ui_state, nothing_kept}
use open_workflow_studio.Store.Session.Views.{load_workflow, load, after}
use open_workflow_studio.Store.Pins.{Snapshot}
use open_workflow_studio.Store.Session.Views.Refine.{editing, Represents, kept_graph, marker}
use open_workflow_studio.Store.Session.Views.Modes.{
  ViewCall, start_preview, stop_preview, start_view, copy, perform_all, Steps, previews, views,
  copies, takes_preview, goes, stays, perform_all-Represents,
}
use open_workflow_studio.Store.Session.Views.Stale.{IsStale, load_workflow-IsStale}

abbrev step_node : Option Text → BaseNode
step_node id = record {
  id = id;
  type = codes "step";
  label = codes "Step";
  icon = [];
  category = codes "data";
  position = record { x = pos 0; y = pos 0 };
  inputs = [];
  outputs = [];
  controls = [];
  meta = [];
}

abbrev step_class : NodeClass
step_class = record { instance_node = step_node none }

abbrev link : Connection
link = record {
  id = codes "n_1:out=>n_2:in";
  source = codes "n_1";
  source_handle = codes "out";
  target = codes "n_2";
  target_handle = codes "in";
  meta = default_meta;
}

abbrev graph : Graph
graph = record {
  nodes =
      (codes "n_1", step_node (some (codes "n_1")))
      ∷ (codes "n_2", step_node (some (codes "n_2")))
      ∷ [];
  connections = link ∷ [];
  registry = (codes "step", step_class) ∷ [];
}

step_node-IsInstance : (id : Option Text) → IsInstance graph.registry (step_node id)
unfolding Assoc.get ◌==◌
step_node-IsInstance id = record {
  class = step_class;
  known = refl;
  type = refl;
  icon = refl;
  category = refl;
  inputs = refl;
  outputs = refl;
  labelled = λ e. cc;
  shaped = tt;
  unique = tt;
  begins = tt;
  meta_unique = tt;
}

link-IsMade : IsMade link
unfolding Assoc.get ◌==◌
link-IsMade = record { named = λ e. cc; begins = (refl, (refl, tt)); unique = (refl, (refl, tt)) }

graph-IsWhole : IsWhole graph
unfolding Assoc.get ◌==◌
graph-IsWhole = record {
  unique = (refl, (refl, tt));
  nodes = ((refl, step_node-IsInstance _), ((refl, step_node-IsInstance _), tt));
  connections = (link-IsMade, tt);
}

abbrev editor : Editor
editor = record {
  nodes = graph.nodes;
  connections = graph.connections;
  node_registry = graph.registry;
  id_counter = 5;
  emitted = [];
}

from_json-to_json_example :
    Load.from_json (Load.to_json editor) (new_editor graph.registry)
    ≡ loaded (reloaded editor (new_editor graph.registry))
from_json-to_json_example =
    from_json-to_json editor (new_editor graph.registry)
      (record {
        unique = graph-IsWhole.unique;
        nodes = graph-IsWhole.nodes;
        connections = graph-IsWhole.connections;
      })
      refl

abbrev pub session : Session
session = record {
  store = record {
    adapter = record { editor = editor; state = state_of graph.nodes graph.connections };
    history = record {
      undo_stack = [];
      redo_stack = [];
      max_size = 50;
      recording = true;
      current_batch = none;
      notices = [];
    };
    execution_progress = none;
    pin_data = [];
    workflow_metadata = [];
  };
  ui = default_ui_state;
  history_preview = nothing_kept;
  execution_view = nothing_kept;
  focus_node_request_seq = 0;
  workflow_id = some 1;
  version_hash = none;
}

session-Represents : Represents graph editing session
session-Represents = (
  record { nodes = refl; connections = refl; registry = refl; shown = refl },
  record {
    readonly_is = refl;
    preview_is = refl;
    view_is = refl;
    preview_marker = refl;
    view_marker = refl;
  },
)

abbrev empty_workflow : WorkflowData
empty_workflow = record { version = codes "1.0"; nodes = none; connections = none }

abbrev unknown_workflow : WorkflowData
unknown_workflow = record empty_workflow {
  nodes = some (
      record {
        id = some (codes "n_9");
        type = codes "gone";
        label = none;
        position = none;
        config = none;
        meta = none;
      }
      ∷ []);
}

abbrev void : Graph
void = record graph { nodes = []; connections = [] }

void-IsWhole : IsWhole void
void-IsWhole = record { unique = tt; nodes = tt; connections = tt }

-- A preview that raises an exception, the view of a run, a copy of the run, and a preview of an
-- empty revision that is taken over.
abbrev calls : List ViewCall
calls =
    start_preview (some 7) (some unknown_workflow)
    ∷ start_view (some 3) (some empty_workflow) none
    ∷ copy
    ∷ start_preview (some 8) (some (saved_graph void))
    ∷ stop_preview false
    ∷ []

calls-Steps : Steps calls graph editing void editing
calls-Steps = goes (previews (some 7) unknown_workflow graph editing) (
    goes (views (some 3) empty_workflow none graph _) (
      goes (copies graph _) (
        goes (previews (some 8) (saved_graph void) graph editing)
          (goes (takes_preview (some 8) graph void void-IsWhole refl) (stays void editing)))))

perform_all-Represents_example : Represents void editing (perform_all calls session)
perform_all-Represents_example =
    perform_all-Represents calls graph void editing editing session graph-IsWhole calls-Steps
      session-Represents

abbrev viewing_session : Session
viewing_session = record session {
  ui = record session.ui { readonly = true; execution_view = marker (some 3) };
  execution_view = kept_graph (some 3) graph;
  store = record session.store {
    adapter = adapter_of (Adapter.from_json empty_workflow session.store.adapter);
  };
}

abbrev other : Snapshot
other = record { graph = empty_workflow; metadata = [] }

abbrev loaded_session : Session
loaded_session = after (load_workflow 2 (codes "abc") other viewing_session)

load_workflow-IsStale_example : IsStale graph loaded_session
unfolding load_workflow load
load_workflow-IsStale_example =
    load_workflow-IsStale graph graph-IsWhole (some 3) empty_workflow 2 (codes "abc") other
      viewing_session loaded_session
      (
        (session.store.adapter, refl, refl),
        record {
          readonly_is = refl;
          preview_is = refl;
          view_is = refl;
          preview_marker = refl;
          view_marker = refl;
        },
      )
      refl
