-- ===== src/Tests/Canvas.antt =====
-- A canvas of two nodes, with sockets that fit, as the editor and the adapter hold it.
use open_workflow_studio.Prelude.{◌≡◌, refl, none, some, List, [], ◌∷◌, true, false, arith, ℕ}
use open_workflow_studio.Prelude.Int.{pos}
use open_workflow_studio.Text.{codes, ◌==◌}
use open_workflow_studio.Assoc
use open_workflow_studio.Assoc.{Assoc}
use open_workflow_studio.Socket.{data_socket, is_compatible}
use open_workflow_studio.Connection.{connect, generate_id}
use open_workflow_studio.Node.{BaseNode, NodeClass, Position}
use open_workflow_studio.Editor
use open_workflow_studio.Text.{mem}
use open_workflow_studio.Text.Decimal.{print}
use open_workflow_studio.Adapter.{absorb, deliver}
use open_workflow_studio.Adapter.Calls.{perform}
use open_workflow_studio.Editor.{
  emit, place_node, sockets_fit, sockets_fit, place_node, Editor, generate_node_id, new_editor,
}
use open_workflow_studio.Editor.Valid.{IsValid}
use open_workflow_studio.Editor.Removal.{remove_node-IsValid}
use open_workflow_studio.Editor.Links.{add_connection-IsValid}
use open_workflow_studio.Adapter
use open_workflow_studio.Adapter.{deliver, absorb, Adapter, Registry, node_for_ui, move_ui_node}
use open_workflow_studio.Adapter.Calls.{
  perform, add, move, remove, link, perform_all, new_adapter, Call,
}
use open_workflow_studio.Adapter.Calls.Good.{IsGood, MakesFresh}
use open_workflow_studio.Adapter.Calls.Reach.{perform_all-IsGood, new_adapter-IsGood}
use open_workflow_studio.Store
use open_workflow_studio.Store.{Store, move_node}
use open_workflow_studio.Store.Undo.{IsTakenBack, Records, undo-add_connection, undo-move_node}

abbrev at_point : ℕ → Position
at_point n = record { x = pos n; y = pos n }

abbrev http : NodeClass
http = record {
  instance_node = record {
    id = none;
    type = codes "http";
    label = codes "HTTP";
    icon = [];
    category = codes "data";
    position = at_point 0;
    inputs =
        (
          codes "in",
          record { key = codes "in"; socket = some data_socket; label = none; multiple = false },
        )
        ∷ [];
    outputs =
        (codes "out", record { key = codes "out"; socket = some data_socket; label = none }) ∷ [];
    controls = [];
    meta = [];
  };
}

-- One class, under every name.
abbrev registry : Registry
registry type = some http

registry-MakesFresh : MakesFresh registry
registry-MakesFresh type k e = cc

abbrev calls : List Call
calls =
    add (codes "http") (at_point 10)
    ∷ add (codes "http") (at_point 20)
    ∷ link (codes "n_1") (codes "out") (codes "n_2") (codes "in")
    ∷ []

abbrev pub canvas : Adapter
canvas = perform_all registry calls (new_adapter [])

pub canvas-IsGood : IsGood canvas
canvas-IsGood =
    perform_all-IsGood registry calls (new_adapter []) registry-MakesFresh (new_adapter-IsGood [])

perform_all-IsGood_example :
    IsGood
      (perform_all registry (move (codes "n_1") (at_point 30) ∷ remove (codes "n_2") ∷ []) canvas)
perform_all-IsGood_example =
    perform_all-IsGood registry (move (codes "n_1") (at_point 30) ∷ remove (codes "n_2") ∷ [])
      canvas registry-MakesFresh canvas-IsGood

remove_node-IsValid_example : IsValid (Editor.remove_node (codes "n_1") canvas.editor).0
remove_node-IsValid_example = remove_node-IsValid (codes "n_1") canvas.editor canvas-IsGood.valid

add_connection-IsValid_example :
    IsValid
      (Editor.add_connection (codes "n_2") (codes "out") (codes "n_1") (codes "in") canvas.editor).0
add_connection-IsValid_example =
    add_connection-IsValid (codes "n_2") (codes "out") (codes "n_1") (codes "in") canvas.editor
      canvas-IsGood.valid

abbrev placed : BaseNode
placed = record http.instance_node { id = some (codes "n_1"); position = at_point 10 }

canvas_node : Assoc.get (codes "n_1") canvas.editor.nodes ≡ some placed
unfolding perform_all perform new_adapter Adapter.add_node Adapter.add_connection absorb deliver
    Editor.add_node Editor.add_node_of_class place_node generate_node_id Editor.add_connection
    sockets_fit emit print Assoc.get Assoc.set ◌==◌ generate_id is_compatible mem node_for_ui
canvas_node = refl

back_link :
    (Adapter.add_connection (codes "n_2") (codes "out") (codes "n_1") (codes "in") canvas).1
    ≡ some (connect (codes "n_2") (codes "out") (codes "n_1") (codes "in"))
unfolding perform_all perform new_adapter Adapter.add_node Adapter.add_connection absorb deliver
    Editor.add_node Editor.add_node_of_class place_node generate_node_id Editor.add_connection
    sockets_fit emit print Assoc.get Assoc.set ◌==◌ generate_id is_compatible mem node_for_ui
back_link = refl

abbrev pub store : Store
store = record {
  adapter = canvas;
  history = record {
    undo_stack = [];
    redo_stack = [];
    max_size = 50;
    recording = true;
    current_batch = none;
    notices = [];
  };
  execution_progress = none;
  pin_data = [];
  workflow_metadata = [];
}

pub store-Records : Records store.history
store-Records = record { on = refl; plain = refl; room = omega arith }

store_linked :
    (Store.add_connection 5 (codes "n_2") (codes "out") (codes "n_1") (codes "in") store).1
    ≡ some (generate_id (codes "n_2") (codes "out") (codes "n_1") (codes "in"))
unfolding Store.add_connection
store_linked = rw (back_link, Store.add_connection) refl

undo-add_connection_example :
    IsTakenBack
      (Store.add_connection 5 (codes "n_2") (codes "out") (codes "n_1") (codes "in") store).0
      canvas
undo-add_connection_example =
    undo-add_connection 5 (codes "n_2") (codes "out") (codes "n_1") (codes "in")
      (generate_id (codes "n_2") (codes "out") (codes "n_1") (codes "in")) store canvas-IsGood
      store-Records store_linked

undo-move_node_example : IsTakenBack (move_node 5 (codes "n_1") (at_point 50) store) canvas
undo-move_node_example =
    undo-move_node 5 (codes "n_1") (at_point 50) placed store canvas-IsGood store-Records
      canvas_node refl
