-- ===== src/Node.antt =====
-- core/node.js: a node of a workflow, its sockets, its controls and its serialized form.
pub mod Config
pub mod Restore
use open_workflow_studio.Prelude.{
  ℕ, ◌≡◌, Bool, true, false, Option, none, some, List, [], ◌∷◌, is_some,
}
use open_workflow_studio.Prelude.Int.{ℤ, pos}
use open_workflow_studio.Text.{Text, codes}
use open_workflow_studio.Assoc
use open_workflow_studio.Assoc.{Assoc}
use open_workflow_studio.Value.{Value, bool, str, assign}
use open_workflow_studio.Socket.{Socket}
use open_workflow_studio.Control.{Control, set_value, get_value}

-- A point of the canvas, at integer coordinates.
pub record Position : Type 0 where
  pub x : ℤ
  pub y : ℤ

pub record Input : Type 0 where
  pub key : Text
  pub socket : Option Socket
  pub label : Option Text
  pub multiple : Bool

pub record Output : Type 0 where
  pub key : Text
  pub socket : Option Socket
  pub label : Option Text

pub record BaseNode : Type 0 where
  pub id : Option Text
  pub type : Text
  pub label : Text
  pub icon : Text
  pub category : Text
  pub position : Position
  pub inputs : Assoc Input
  pub outputs : Assoc Output
  pub controls : Assoc Control
  pub meta : Assoc Value

abbrev pub origin : Position
origin = record { x = pos 0; y = pos 0 }

-- The constructor of `BaseNode`, in a class with these static properties.
abbrev pub construct : Text → Text → Text → Text → BaseNode
construct type label icon category = record {
  id = none;
  type = type;
  label = label;
  icon = icon;
  category = category;
  position = origin;
  inputs = [];
  outputs = [];
  controls = [];
  meta = (codes "disabled", bool false) ∷ (codes "notes", str []) ∷ [];
}

abbrev pub add_input : Text → Option Socket → Option Text → Bool → BaseNode → BaseNode
add_input k s l multiple n = record n {
  inputs = Assoc.set k (record { key = k; socket = s; label = l; multiple = multiple }) n.inputs;
}

abbrev pub add_output : Text → Option Socket → Option Text → BaseNode → BaseNode
add_output k s l n = record n {
  outputs = Assoc.set k (record { key = k; socket = s; label = l }) n.outputs;
}

abbrev pub add_control : Text → Control → BaseNode → BaseNode
add_control k c n = record n { controls = Assoc.set k c n.controls }

config_loop : Assoc Control → Assoc Value → Assoc Value
config_loop [] config = config
config_loop ((k, c) ∷ cs) config = config_loop cs (Assoc.set k (get_value c) config)

pub get_config : BaseNode → Assoc Value
unfolding config_loop
get_config n = config_loop n.controls []

-- One round of the loop in `setConfig`: a key without a control is passed over.
pub set_control : Text → Value → Assoc Control → Assoc Control
set_control k v cs = elim (Assoc.get k cs) [ none ↦ cs | some c ↦ Assoc.set k (set_value v c) cs ]

unfoldable pub set_controls : Assoc Value → Assoc Control → Assoc Control
set_controls [] cs = cs
set_controls ((k, v) ∷ config) cs = set_controls config (set_control k v cs)

unfoldable pub set_config : Assoc Value → BaseNode → BaseNode
set_config config n = record n { controls = set_controls config n.controls }

-- A serialized node. All but the type may be missing.
pub record NodeData : Type 0 where
  pub id : Option Text
  pub type : Text
  pub label : Option Text
  pub position : Option Position
  pub config : Option (Assoc Value)
  pub meta : Option (Assoc Value)

abbrev pub to_json : BaseNode → NodeData
to_json n = record {
  id = n.id;
  type = n.type;
  label = some n.label;
  position = some n.position;
  config = some (get_config n);
  meta = some n.meta;
}

-- A class, as the node that its constructor makes.
pub record NodeClass : Type 0 where
  pub instance_node : BaseNode

-- `new NodeClass()`
abbrev pub new_node : NodeClass → BaseNode
new_node k = k.instance_node

-- `data.label || node.label`
abbrev pub label_or : Option Text → Text → Text
label_or none l = l
label_or (some []) l = l
label_or (some (c ∷ t)) l = c ∷ t

abbrev pub position_or : Option Position → Position
position_or none = origin
position_or (some p) = p

abbrev pub entries_or : Option (Assoc Value) → Assoc Value
entries_or none = []
entries_or (some m) = m

-- The rest of `BaseNode.fromJSON`, once the class is found.
abbrev pub restore : NodeData → NodeClass → BaseNode
restore d k =
    let n = new_node k in
    set_config (entries_or d.config) (record n {
      id = d.id;
      label = label_or d.label n.label;
      position = position_or d.position;
      meta = assign n.meta (entries_or d.meta);
    })

-- `none` is the exception for an unknown node type.
abbrev pub from_json : NodeData → Assoc NodeClass → Option BaseNode
from_json d registry = elim (Assoc.get d.type registry) [
  | none ↦ none
  | some k ↦ some (restore d k)
]

abbrev pub get_input_keys : BaseNode → List Text
get_input_keys n = Assoc.keys n.inputs

abbrev pub get_output_keys : BaseNode → List Text
get_output_keys n = Assoc.keys n.outputs

-- The copy is made by the node's own class, and has no id.
abbrev pub clone : NodeClass → BaseNode → Option BaseNode
clone k n = from_json (record (to_json n) { id = none }) ((n.type, k) ∷ [])
