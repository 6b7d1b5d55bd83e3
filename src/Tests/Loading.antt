-- ===== src/Tests/Loading.antt =====
-- Loading a saved workflow of two nodes, whose second has a known type or not.
use open_workflow_studio.Prelude.{arith, ◌≡◌, refl, Option, none, some, [], ◌∷◌, false}
use open_workflow_studio.Prelude.Int.{pos}
use open_workflow_studio.Text.{Text, codes, ◌==◌}
use open_workflow_studio.Text.Decimal.{parse_digits, only_digits}
use open_workflow_studio.Assoc
use open_workflow_studio.Assoc.{Assoc}
use open_workflow_studio.Node.{set_controls, set_config, BaseNode, NodeClass, NodeData}
use open_workflow_studio.Editor.{Editor, new_editor, emit, clear, change, generate_node_id}
use open_workflow_studio.Editor.Load.{WorkflowData, loaded, threw, from_json}
use open_workflow_studio.Editor.Load.Ends.{from_json_threw, from_json_fresh}

abbrev plain_node : Text → Option Text → BaseNode
plain_node type id = record {
  id = id;
  type = type;
  label = codes "Step";
  icon = [];
  category = codes "data";
  position = record { x = pos 0; y = pos 0 };
  inputs = [];
  outputs = [];
  controls = [];
  meta = [];
}

abbrev step_class : NodeClass
step_class = record { instance_node = plain_node (codes "step") none }

abbrev editor : Editor
editor = new_editor ((codes "step", step_class) ∷ [])

abbrev saved : Text → Text → NodeData
saved id type = record {
  id = some id;
  type = type;
  label = none;
  position = none;
  config = none;
  meta = none;
}

abbrev workflow_of : Text → WorkflowData
workflow_of type = record {
  version = codes "1.0";
  nodes = some (saved (codes "n_7") (codes "step") ∷ saved (codes "n_3") type ∷ []);
  connections = none;
}

abbrev half : Editor
half = record editor {
  nodes = (codes "n_7", plain_node (codes "step") (some (codes "n_7"))) ∷ [];
  emitted = record { event = change (codes "clear"); nodes = []; connections = [] } ∷ [];
}

-- The editor keeps the first node, although its id is above the counter.
stops_half_way : from_json (workflow_of (codes "gone")) editor ≡ threw half
unfolding set_config set_controls clear emit Assoc.get Assoc.set ◌==◌
stops_half_way = refl

from_json_threw_example : (half.id_counter ≡ 0) × (half.connections ≡ [])
from_json_threw_example = from_json_threw (workflow_of (codes "gone")) editor half stops_half_way

abbrev whole : Editor
whole = record editor {
  nodes =
      (codes "n_7", plain_node (codes "step") (some (codes "n_7")))
      ∷ (codes "n_3", plain_node (codes "step") (some (codes "n_3")))
      ∷ [];
  id_counter = 7;
  emitted =
      record { event = change (codes "clear"); nodes = []; connections = [] }
      ∷ record {
        event = change (codes "load");
        nodes =
            (codes "n_7", plain_node (codes "step") (some (codes "n_7")))
            ∷ (codes "n_3", plain_node (codes "step") (some (codes "n_3")))
            ∷ [];
        connections = [];
      }
      ∷ [];
}

loads_whole : from_json (workflow_of (codes "step")) editor ≡ loaded whole
unfolding set_config set_controls clear emit Assoc.get Assoc.set ◌==◌ parse_digits only_digits
loads_whole = refl

from_json_fresh_example : Assoc.has (generate_node_id whole).1 whole.nodes ≡ false
from_json_fresh_example =
    from_json_fresh (workflow_of (codes "step")) editor whole loads_whole (omega arith)
