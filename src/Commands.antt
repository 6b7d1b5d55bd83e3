-- ===== src/Commands.antt =====
-- core/history.js: the actions that the store pushes, over the adapter's operations. None of them
-- throws.
pub mod Inverse
use open_workflow_studio.Prelude.{Option, List, [], ◌∷◌, none, some, ◌++◌}
use open_workflow_studio.Text.{Text, codes}
use open_workflow_studio.Assoc.{Assoc}
use open_workflow_studio.Value.{Value}
use open_workflow_studio.Node.{Position}
use open_workflow_studio.Connection.{Connection}
use open_workflow_studio.History.{Action, Run, returns}
use open_workflow_studio.Adapter
use open_workflow_studio.Adapter.{Adapter, Registry}

-- `nodeData`, and one element of `nodeMoves`.
pub record NodeData : Type 0 where
  pub id : Text
  pub type : Text
  pub position : Position
  pub config : Option (Assoc Value)

pub record NodeMove : Type 0 where
  pub node_id : Text
  pub old_position : Position
  pub new_position : Position

-- An action that is given by its two functions on the adapter.
abbrev pub action : Text → (Adapter → Adapter) → (Adapter → Adapter) → Action Adapter
action description undo redo = record {
  description = description;
  timestamp = none;
  undo = λ a. returns (undo a);
  redo = λ a. returns (redo a);
}

abbrev pub create_add_node_action : Registry → NodeData → Action Adapter
create_add_node_action registry d =
    action (codes "Add " ++ d.type ++ codes " node") (λ a. (Adapter.remove_node d.id a).0)
      (λ a. (Adapter.add_node_with_id registry d.type d.position d.id d.config a).0)

-- `relatedConnections.forEach(c => adapter.addConnection(…))`
abbrev pub restore_connections : List Connection → Adapter → Adapter
restore_connections [] a = a
restore_connections (c ∷ cs) a =
    restore_connections cs
      (Adapter.add_connection c.source c.source_handle c.target c.target_handle a).0

abbrev pub create_remove_node_action : Registry → NodeData → List Connection → Action Adapter
create_remove_node_action registry d related =
    action (codes "Remove " ++ d.type ++ codes " node")
      (λ a.
        restore_connections related
          (Adapter.add_node_with_id registry d.type d.position d.id d.config a).0)
      (λ a. (Adapter.remove_node d.id a).0)

pub create_move_node_action : Text → Position → Position → Action Adapter
create_move_node_action k old_position new_position =
    action (codes "Move node") (λ a. (Adapter.update_position k old_position a).0)
      (λ a. (Adapter.update_position k new_position a).0)

-- The two loops of `createMoveNodesAction`.
abbrev pub move_back : List NodeMove → Adapter → Adapter
move_back [] a = a
move_back (m ∷ ms) a = move_back ms (Adapter.update_position m.node_id m.old_position a).0

abbrev pub move_forth : List NodeMove → Adapter → Adapter
move_forth [] a = a
move_forth (m ∷ ms) a = move_forth ms (Adapter.update_position m.node_id m.new_position a).0

abbrev pub create_move_nodes_action : List NodeMove → Action Adapter
create_move_nodes_action moves = action (codes "Move nodes") (move_back moves) (move_forth moves)

pub create_add_connection_action : Connection → Action Adapter
create_add_connection_action c =
    action (codes "Add connection") (λ a. (Adapter.remove_connection c.id a).0)
      (λ a. (Adapter.add_connection c.source c.source_handle c.target c.target_handle a).0)

abbrev pub create_remove_connection_action : Connection → Action Adapter
create_remove_connection_action c =
    action (codes "Remove connection")
      (λ a. (Adapter.add_connection c.source c.source_handle c.target c.target_handle a).0)
      (λ a. (Adapter.remove_connection c.id a).0)
