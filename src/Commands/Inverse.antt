-- ===== src/Commands/Inverse.antt =====
-- The actions of a move and of a new connection go forth and back exactly: after the undo the
-- adapter, its editor and what the interface shows, is as it was.
use open_workflow_studio.Prelude.{◌≡◌, refl, ap, some}
use open_workflow_studio.Text.{Text}
use open_workflow_studio.Assoc
use open_workflow_studio.Assoc.{Assoc}
use open_workflow_studio.Connection.{Connection}
use open_workflow_studio.Node.{BaseNode, Position}
use open_workflow_studio.Adapter
use open_workflow_studio.Adapter.{Adapter, state_of, absorb}
use open_workflow_studio.Adapter.Calls.Good.{IsGood}
use open_workflow_studio.Adapter.Inverse.{remove_connection-add_connection, update_position_back}
use open_workflow_studio.History.{returns}
use open_workflow_studio.History.Chain.{Between}
use open_workflow_studio.Commands.{create_move_node_action, create_add_connection_action}

-- When the interface shows a valid editor, and adding a connection gives the connection `c`, the
-- action for it leads from the adapter before to the one after, and its undo gives back exactly
-- the adapter before.
pub create_add_connection_action-Between :
    (s sh t th : Text) (c : Connection) (a : Adapter)
    → IsGood a
    → (Adapter.add_connection s sh t th a).1 ≡ some c
    → Between (create_add_connection_action c) a (Adapter.add_connection s sh t th a).0
unfolding create_add_connection_action
create_add_connection_action-Between s sh t th c a g e =
    let (same, back) = remove_connection-add_connection s sh t th c a g e in
    record { forth = rw same refl; back = ap returns back }

-- When the interface shows a valid editor that has the node, the action that moves it from its
-- position leads to the adapter with the node moved, and its undo gives back exactly the adapter
-- before.
pub create_move_node_action-Between :
    (k : Text) (p : Position) (n : BaseNode) (a : Adapter)
    → IsGood a
    → Assoc.get k a.editor.nodes ≡ some n
    → Between (create_move_node_action k n.position p) a (Adapter.update_position k p a).0
unfolding create_move_node_action
create_move_node_action-Between k p n a g e = record {
  forth = refl;
  back = ap returns (update_position_back k p n a g e);
}
