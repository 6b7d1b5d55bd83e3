-- ===== src/Editor.antt =====
-- core/editor.js: `WorkflowEditor`, the nodes and connections of a workflow and the events that
-- their changes emit. A listener sees the graph as it is when the event is emitted, so that each
-- emission carries it.
pub mod Load
pub mod Valid
pub mod Nodes
pub mod Removal
pub mod Links
pub mod Events
pub mod Inverse
use open_workflow_studio.Prelude.{
  ℕ, suc, ◌+◌, max, Bool, true, false, not, ◌||◌, Option, none, some, List, [], ◌∷◌, ◌++◌, filter,
  any, if◌then◌else◌, is_some, map, get_elem?,
}
use open_workflow_studio.Text.{Text, codes, ◌==◌}
use open_workflow_studio.Text.Decimal.{print}
use open_workflow_studio.Assoc
use open_workflow_studio.Assoc.{Assoc}
use open_workflow_studio.Value.{Value, truthy, or_undefined, prop, spread, assign, obj, object}
use open_workflow_studio.Socket.{Socket, is_compatible}
use open_workflow_studio.Connection.{Connection, connect, generate_id, involves_node}
use open_workflow_studio.Node.{BaseNode, NodeClass, new_node, Position, Input, Output}

-- The events; `change` is `onChange`, with the reason that its payload names.
pub data Event : Type 0 where
  node_add node_remove node_move connection_add connection_remove : Event
  change : Text → Event

pub record Emission : Type 0 where
  pub event : Event
  pub nodes : Assoc BaseNode
  pub connections : List Connection

pub record Editor : Type 0 where
  pub nodes : Assoc BaseNode
  pub connections : List Connection
  pub node_registry : Assoc NodeClass
  pub id_counter : ℕ
  pub emitted : List Emission

abbrev pub new_editor : Assoc NodeClass → Editor
new_editor registry = record {
  nodes = [];
  connections = [];
  node_registry = registry;
  id_counter = 0;
  emitted = [];
}

unfoldable pub emit : Event → Editor → Editor
emit e ed = record ed {
  emitted = ed.emitted ++ record { event = e; nodes = ed.nodes; connections = ed.connections } ∷ [];
}

-- `n_${++this._idCounter}`, for a counter below 2^53: from there on a double does not count.
unfoldable pub generate_node_id : Editor → Editor × Text
generate_node_id ed =
    (record ed { id_counter = suc ed.id_counter }, codes "n_" ++ print (suc ed.id_counter))

-- `this.nodes.set(node.id, node)` and the event, for a node that has its id.
unfoldable pub place_node : Text → BaseNode → Position → Editor → Editor × BaseNode
place_node k n p ed =
    let placed = record n { id = some k; position = p } in
    (emit node_add (record ed { nodes = Assoc.set k placed ed.nodes }), placed)

-- `addNode` with a node. `if (!node.id)` also takes the empty id for none.
unfoldable pub add_node : BaseNode → Position → Editor → Editor × BaseNode
unfolding place_node generate_node_id
add_node n p ed = elim n.id [
  | none ↦ let (ed', k) = generate_node_id ed in place_node k n p ed'
  | some t ↦ elim t [
    | [] ↦ let (ed', k) = generate_node_id ed in place_node k n p ed'
    | c ∷ u ↦ place_node (c ∷ u) n p ed
  ]
]

-- `addNode` with a class.
unfoldable pub add_node_of_class : NodeClass → Position → Editor → Editor × BaseNode
add_node_of_class k p ed = add_node (new_node k) p ed

-- `list.forEach(c => this._emit('onConnectionRemove', c))`
pub emit_all : Event → List Connection → Editor → Editor
emit_all e [] ed = ed
emit_all e (c ∷ cs) ed = emit_all e cs (emit e ed)

unfoldable pub remove_node : Text → Editor → Editor × Bool
remove_node k ed = elim (Assoc.get k ed.nodes) [
  | none ↦ (ed, false)
  | some n ↦
      let removed = filter (involves_node k) ed.connections in
      let cut = record ed { connections = filter (λ c. not (involves_node k c)) ed.connections } in
      let told = emit_all connection_remove removed cut in
      (emit node_remove (record told { nodes = Assoc.delete k told.nodes }), true)
]

-- Mutating the node that `this.nodes.get(nodeId)` returned.
abbrev pub put_node : Text → BaseNode → Editor → Editor
put_node k n ed = record ed { nodes = Assoc.set k n ed.nodes }

unfoldable pub update_node_position : Text → Position → Editor → Editor × Bool
update_node_position k p ed = elim (Assoc.get k ed.nodes) [
  | none ↦ (ed, false)
  | some n ↦ (emit node_move (put_node k (record n { position = p }) ed), true)
]

abbrev pub get_node_meta : Text → Editor → Assoc Value
get_node_meta k ed = elim (Assoc.get k ed.nodes) [ none ↦ [] | some n ↦ n.meta ]

-- `if (patchUi[k]) nextUi[k] = { ...(prevUi[k] || {}), ...patchUi[k] }`
abbrev pub merge_mode : Text → Value → Value → Assoc Value → Assoc Value
merge_mode k prev_ui patch_ui next_ui =
    if truthy (prop k patch_ui)
    then Assoc.set k (obj (object (assign (spread (prop k prev_ui)) (spread (prop k patch_ui)))))
        next_ui
    else next_ui

-- The merge of `meta.ui`.
abbrev pub merge_ui : Value → Value → Assoc Value
merge_ui prev_ui patch_ui =
    merge_mode (codes "pairModes") prev_ui patch_ui (
      merge_mode (codes "controlModes") prev_ui patch_ui
        (assign (spread prev_ui) (spread patch_ui)))

-- The new metadata of `setNodeMeta`.
abbrev pub merge_meta : Assoc Value → Assoc Value → Assoc Value
merge_meta prev patch =
    let patch_ui = or_undefined (Assoc.get (codes "ui") patch) in
    let prev_ui = or_undefined (Assoc.get (codes "ui") prev) in
    if truthy patch_ui
    then Assoc.set (codes "ui") (obj (object (merge_ui prev_ui patch_ui))) (assign prev patch)
    else assign prev patch

pub set_node_meta : Text → Assoc Value → Editor → Editor × Bool
set_node_meta k patch ed = elim (Assoc.get k ed.nodes) [
  | none ↦ (ed, false)
  | some n ↦ (
    emit (change (codes "meta")) (put_node k (record n { meta = merge_meta n.meta patch }) ed),
    true,
  )
]

pub set_node_label : Text → Text → Editor → Editor × Bool
set_node_label k label ed = elim (Assoc.get k ed.nodes) [
  | none ↦ (ed, false)
  | some n ↦ (emit (change (codes "label")) (put_node k (record n { label = label }) ed), true)
]

-- `node.outputs[handle]?.socket`
abbrev pub out_socket : BaseNode → Text → Option Socket
out_socket n h = elim (Assoc.get h n.outputs) [ none ↦ none | some o ↦ o.socket ]

abbrev pub in_socket : BaseNode → Text → Option Socket
in_socket n h = elim (Assoc.get h n.inputs) [ none ↦ none | some i ↦ i.socket ]

-- The checks of `addConnection` up to the sockets, in the source's order.
unfoldable pub sockets_fit : Option BaseNode → Text → Option BaseNode → Text → Bool
sockets_fit none sh t th = false
sockets_fit (some s) sh none th = false
sockets_fit (some s) sh (some t) th = elim (out_socket s sh) [
  | none ↦ false
  | some out ↦ elim (in_socket t th) [ none ↦ false | some inp ↦ is_compatible out (some inp) ]
]

abbrev pub has_connection : Text → List Connection → Bool
has_connection i cs = any (λ c. c.id == i) cs

unfoldable pub add_connection : Text → Text → Text → Text → Editor → Editor × Option Connection
add_connection s sh t th ed =
    if not (sockets_fit (Assoc.get s ed.nodes) sh (Assoc.get t ed.nodes) th)
    then (ed, none)
    else if has_connection (generate_id s sh t th) ed.connections
    then (ed, none)
    else if s == t
    then (ed, none)
    else (
      emit connection_add (record ed { connections = ed.connections ++ connect s sh t th ∷ [] }),
      some (connect s sh t th),
    )

-- `findIndex` and `splice(index, 1)`: the first connection with the id goes.
pub remove_first : Text → List Connection → List Connection
remove_first i [] = []
remove_first i (c ∷ cs) = let rest = remove_first i cs in if c.id == i then cs else c ∷ rest

unfoldable pub remove_connection : Text → Editor → Editor × Bool
remove_connection i ed =
    if has_connection i ed.connections
    then (emit connection_remove (record ed { connections = remove_first i ed.connections }), true)
    else (ed, false)

abbrev pub get_node_connections : Text → Editor → List Connection
get_node_connections k ed = filter (involves_node k) ed.connections

unfoldable pub clear : Editor → Editor
clear ed =
    emit (change (codes "clear")) (record ed { nodes = []; connections = []; id_counter = 0 })

-- `registerNodes`, over the classes with their `nodeType`.
abbrev pub register_nodes : List (Text × NodeClass) → Editor → Editor
register_nodes [] ed = ed
register_nodes ((type, k) ∷ ks) ed =
    register_nodes ks (record ed { node_registry = Assoc.set type k ed.node_registry })

abbrev pub get_node : Text → Editor → Option BaseNode
get_node k ed = Assoc.get k ed.nodes

abbrev pub get_nodes : Editor → List BaseNode
get_nodes ed = Assoc.values ed.nodes

abbrev pub get_connections : Editor → List Connection
get_connections ed = ed.connections
