-- ===== src/Adapter.antt =====
-- core/adapter.js: `WorkflowAdapter` keeps, beside the editor, the plain state that the interface
-- shows. It refreshes that state on every event of the editor but a move.
pub mod Calls
pub mod Move
pub mod Sync
pub mod Inverse
pub mod Reload
use open_workflow_studio.Prelude.{
  ℕ, max, ◌≡◌, Bool, true, false, ◌&&◌, Option, none, some, List, [], ◌∷◌, map, if◌then◌else◌,
}
use open_workflow_studio.Prelude.Int.{ℤ, eqb_ℤ}
use open_workflow_studio.Text.{Text, codes, ◌==◌}
use open_workflow_studio.Text.Decimal.{parse_digits}
use open_workflow_studio.Assoc
use open_workflow_studio.Assoc.{Assoc}
use open_workflow_studio.Value.{Value, bool, truthy, prop, or_undefined}
use open_workflow_studio.Control.{Control, set_value}
use open_workflow_studio.Connection.{Connection}
use open_workflow_studio.Node.{
  BaseNode, NodeClass, new_node, Position, Input, Output, get_config, set_config,
}
use open_workflow_studio.Editor
use open_workflow_studio.Editor.{Editor, Event, node_move, Emission, put_node}
use open_workflow_studio.Editor.Load
use open_workflow_studio.Editor.Load.{WorkflowData, Outcome, loaded, threw}

pub record UiNode : Type 0 where
  pub id : Option Text
  pub type : Text
  pub title : Text
  pub title_is_custom : Bool
  pub x : ℤ
  pub y : ℤ
  pub icon : Text
  pub category : Text
  pub inputs : Assoc (Option Text)
  pub outputs : Assoc (Option Text)
  pub disabled : Bool

pub record UiConnection : Type 0 where
  pub id : Text
  pub source : Text
  pub source_handle : Text
  pub target : Text
  pub target_handle : Text

-- `this.state`
pub record UiState : Type 0 where
  pub nodes : List UiNode
  pub connections : List UiConnection

pub record Adapter : Type 0 where
  pub editor : Editor
  pub state : UiState

-- `_socketsToUI`, over what gives a socket's label.
sockets_to_ui {ℓ} :
    {S : Type ℓ} → (S → Option Text) → Assoc S → Assoc (Option Text) → Assoc (Option Text)
sockets_to_ui label [] result = result
sockets_to_ui label ((k, s) ∷ rest) result = sockets_to_ui label rest (Assoc.set k (label s) result)

abbrev is_true : Value → Bool
is_true (bool b) = b
is_true _ = false

unfoldable pub node_for_ui : BaseNode → UiNode
unfolding sockets_to_ui
node_for_ui n = record {
  id = n.id;
  type = n.type;
  title = n.label;
  title_is_custom =
      truthy (prop (codes "titleIsCustom") (or_undefined (Assoc.get (codes "ui") n.meta)));
  x = n.position.x;
  y = n.position.y;
  icon = n.icon;
  category = n.category;
  inputs = sockets_to_ui (λ (i : Input). i.label) n.inputs [];
  outputs = sockets_to_ui (λ (o : Output). o.label) n.outputs [];
  disabled = is_true (or_undefined (Assoc.get (codes "disabled") n.meta));
}

abbrev pub connection_for_ui : Connection → UiConnection
connection_for_ui c = record {
  id = c.id;
  source = c.source;
  source_handle = c.source_handle;
  target = c.target;
  target_handle = c.target_handle;
}

-- `_syncState`: what the interface shows of a graph.
abbrev pub state_of : Assoc BaseNode → List Connection → UiState
state_of nodes connections = record {
  nodes = map node_for_ui (Assoc.values nodes);
  connections = map connection_for_ui connections;
}

-- The listener that the constructor registers for `onChange`.
abbrev pub on_change : Emission → UiState → UiState
on_change e s = elim e.event [ node_move ↦ s | _ ↦ state_of e.nodes e.connections ]

unfoldable pub deliver : List Emission → UiState → UiState
deliver [] s = s
deliver (e ∷ es) s = deliver es (on_change e s)

-- The adapter after the editor has gone on to `ed`: the events reach the listener in order.
unfoldable pub absorb : Editor → Adapter → Adapter
absorb ed a = record { editor = record ed { emitted = [] }; state = deliver ed.emitted a.state }

-- `nodeTypeRegistry.get(type, null)`, and the class of the entry. The registry is Odoo's.
abbrev pub Registry : Type 0
Registry = Text → Option NodeClass

unfoldable pub add_node : Registry → Text → Position → Adapter → Adapter × Option Text
add_node registry type p a = elim (registry type) [
  | none ↦ (a, none)
  | some k ↦ let (ed, n) = Editor.add_node_of_class k p a.editor in (absorb ed a, n.id)
]

-- `if (config) node.setConfig(config)`
abbrev pub configure : Option (Assoc Value) → BaseNode → BaseNode
configure none n = n
configure (some config) n = set_config config n

-- `if (!Number.isNaN(numeric)) …`
abbrev pub raise_counter : Option ℕ → Editor → Editor
raise_counter none ed = ed
raise_counter (some m) ed = record ed { id_counter = max ed.id_counter m }

pub add_node_with_id :
    Registry → Text → Position → Text → Option (Assoc Value) → Adapter → Adapter × Option Text
add_node_with_id registry type p forced_id config a = elim (registry type) [
  | none ↦ (a, none)
  | some k ↦
      let n = configure config (record (new_node k) { id = some forced_id }) in
      let (ed, _) = Editor.add_node n p a.editor in
      let a' = absorb ed a in
      (record a' { editor = raise_counter (parse_digits forced_id) a'.editor }, some forced_id)
]

unfoldable pub remove_node : Text → Adapter → Adapter × Bool
remove_node k a = let (ed, r) = Editor.remove_node k a.editor in (absorb ed a, r)

-- `this.state.nodes.find(n => n.id === nodeId)`, and the new coordinates in it.
unfoldable pub move_ui_node : Text → Position → List UiNode → List UiNode
move_ui_node k p [] = []
move_ui_node k p (n ∷ ns) =
    let rest = move_ui_node k p ns in
    if elim n.id [ none ↦ false | some i ↦ i == k ]
    then record n { x = p.x; y = p.y } ∷ ns
    else n ∷ rest

unfoldable pub update_position : Text → Position → Adapter → Adapter × Bool
update_position k p a = elim (Assoc.get k a.editor.nodes) [
  | none ↦ (a, false)
  | some n ↦
      if eqb_ℤ n.position.x p.x && eqb_ℤ n.position.y p.y
      then (a, true)
      else (let (ed, r) = Editor.update_node_position k p a.editor in
          let a' = absorb ed a in
          (record a' { state = record a'.state { nodes = move_ui_node k p a'.state.nodes } }, r))
]

abbrev pub get_node_config : Text → Adapter → Assoc Value
get_node_config k a = elim (Assoc.get k a.editor.nodes) [ none ↦ [] | some n ↦ get_config n ]

pub set_node_meta : Text → Assoc Value → Adapter → Adapter × Bool
set_node_meta k patch a = let (ed, r) = Editor.set_node_meta k patch a.editor in (absorb ed a, r)

-- `_syncState`
pub sync_state : Adapter → Adapter
sync_state a = record a { state = state_of a.editor.nodes a.editor.connections }

pub set_node_label : Text → Text → Adapter → Adapter × Bool
set_node_label k label a =
    let (ed, r) = Editor.set_node_label k label a.editor in
    (if r then sync_state (absorb ed a) else absorb ed a, r)

pub set_node_config : Text → Assoc Value → Adapter → Adapter × Bool
set_node_config k config a = elim (Assoc.get k a.editor.nodes) [
  | none ↦ (a, false)
  | some n ↦ (sync_state (record a { editor = put_node k (set_config config n) a.editor }), true)
]

pub set_control_value : Text → Text → Value → Adapter → Adapter × Bool
set_control_value k key v a = elim (Assoc.get k a.editor.nodes) [
  | none ↦ (a, false)
  | some n ↦ elim (Assoc.get key n.controls) [
    | none ↦ (a, false)
    | some c ↦ (
      record a {
        editor =
            put_node k (record n { controls = Assoc.set key (set_value v c) n.controls }) a.editor;
      },
      true,
    )
  ]
]

unfoldable pub add_connection : Text → Text → Text → Text → Adapter → Adapter × Option Connection
add_connection s sh t th a =
    let (ed, c) = Editor.add_connection s sh t th a.editor in (absorb ed a, c)

unfoldable pub remove_connection : Text → Adapter → Adapter × Bool
remove_connection i a = let (ed, r) = Editor.remove_connection i a.editor in (absorb ed a, r)

pub clear : Adapter → Adapter
clear a = absorb (Editor.clear a.editor) a

pub data Loading : Type 0 where
  loaded_all threw_error : Adapter → Loading

abbrev pub from_json : WorkflowData → Adapter → Loading
from_json d a = elim (Load.from_json d a.editor) [
  | loaded ed ↦ loaded_all (absorb ed a)
  | threw ed ↦ threw_error (absorb ed a)
]
