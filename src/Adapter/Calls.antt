-- ===== src/Adapter/Calls.antt =====
-- core/adapter.js: the operations that edit the graph, as calls, and sequences of them. Loading a
-- workflow (`fromJSON`) is none of these calls.
pub mod Good
pub mod Reach
use open_workflow_studio.Prelude.{Option, List, [], ◌∷◌}
use open_workflow_studio.Text.{Text}
use open_workflow_studio.Assoc.{Assoc}
use open_workflow_studio.Value.{Value}
use open_workflow_studio.Node.{NodeClass, Position}
use open_workflow_studio.Editor.{new_editor}
use open_workflow_studio.Adapter
use open_workflow_studio.Adapter.{Adapter, Registry}

-- The operations of the adapter that edit the graph. `fromJSON`, which replaces it, is left out.
pub data Call : Type 0 where
  add : Text → Position → Call
  add_with_id : Text → Position → Text → Option (Assoc Value) → Call
  remove : Text → Call
  move : Text → Position → Call
  change_meta : Text → Assoc Value → Call
  rename : Text → Text → Call
  change_config : Text → Assoc Value → Call
  change_control : Text → Text → Value → Call
  link : Text → Text → Text → Text → Call
  unlink : Text → Call
  clear_all : Call

unfoldable pub perform : Registry → Call → Adapter → Adapter
perform registry (add type p) a = (Adapter.add_node registry type p a).0
perform registry (add_with_id type p k config) a =
    (Adapter.add_node_with_id registry type p k config a).0
perform registry (remove k) a = (Adapter.remove_node k a).0
perform registry (move k p) a = (Adapter.update_position k p a).0
perform registry (change_meta k patch) a = (Adapter.set_node_meta k patch a).0
perform registry (rename k label) a = (Adapter.set_node_label k label a).0
perform registry (change_config k config) a = (Adapter.set_node_config k config a).0
perform registry (change_control k key v) a = (Adapter.set_control_value k key v a).0
perform registry (link s sh t th) a = (Adapter.add_connection s sh t th a).0
perform registry (unlink i) a = (Adapter.remove_connection i a).0
perform registry clear_all a = Adapter.clear a

unfoldable pub perform_all : Registry → List Call → Adapter → Adapter
perform_all registry [] a = a
perform_all registry (c ∷ cs) a = perform_all registry cs (perform registry c a)

-- The adapter's constructor, with the classes that the registry has then.
unfoldable pub new_adapter : Assoc NodeClass → Adapter
new_adapter classes = record {
  editor = new_editor classes;
  state = record { nodes = []; connections = [] };
}
