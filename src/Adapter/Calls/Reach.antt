-- ===== src/Adapter/Calls/Reach.antt =====
-- core/adapter.js: the operations that edit the graph, one after the other. Loading is left out.
use open_workflow_studio.Prelude.{
  ◌≡◌, refl, ◌&&◌, Option, none, some, List, [], ◌∷◌, Bool-cases, Option-cases, inl, inr,
}
use open_workflow_studio.Prelude.Int.{eqb_ℤ}
use open_workflow_studio.Text.{Text}
use open_workflow_studio.Text.Decimal.{parse_digits}
use open_workflow_studio.Assoc
use open_workflow_studio.Assoc.{Assoc}
use open_workflow_studio.Value.{Value}
use open_workflow_studio.Node.{BaseNode, NodeClass, new_node, Position}
use open_workflow_studio.Node.Config.{id-set_config}
use open_workflow_studio.Editor
use open_workflow_studio.Editor.{
  Editor, Event, emit, put_node, place_node, generate_node_id, node_move, new_editor, sockets_fit,
  has_connection,
}
use open_workflow_studio.Editor.Valid.{update_node-IsValid, new_editor-IsValid, emit-IsValid}
use open_workflow_studio.Editor.Nodes.{add_forced-IsValid, add_unnumbered-IsValid}
use open_workflow_studio.Adapter
use open_workflow_studio.Adapter.{
  connection_for_ui, Adapter, Registry, absorb, state_of, configure, raise_counter, sync_state,
  move_ui_node, node_for_ui,
}
use open_workflow_studio.Adapter.Calls.{
  Call, add, add_with_id, remove, move, change_meta, rename, change_config, change_control, link,
  unlink, clear_all, perform, perform_all, new_adapter,
}
use open_workflow_studio.Editor.Events.{add_node-Refreshes, update_node_position_found}
use open_workflow_studio.Adapter.Sync.{IsSynced, absorb-IsSynced, moved, moved-IsSynced}
use open_workflow_studio.Adapter.Calls.Good.{
  IsGood, MakesFresh, absorb-IsGood, absorb-IsValid, add_connection-IsGood, add_node-IsGood,
  clear-IsGood, remove_connection-IsGood, remove_node-IsGood, set_control_value-IsGood,
  set_node_config-IsGood, set_node_label-IsGood, set_node_meta-IsGood,
}

moved-IsGood :
    (k : Text) (p : Position) (n : BaseNode) (a : Adapter)
    → Assoc.get k a.editor.nodes ≡ some n
    → IsGood a
    → IsGood (moved k p n a)
unfolding absorb
moved-IsGood k p n a e g = record {
  synced = moved-IsSynced k p n a g.valid.unique g.valid.keyed e g.synced;
  valid = absorb-IsValid _ a (
      emit-IsValid node_move
        (update_node-IsValid k n (record n { position = p }) a.editor e refl g.valid));
}

pub update_position-IsGood :
    (k : Text) (p : Position) (a : Adapter) → IsGood a → IsGood (Adapter.update_position k p a).0
unfolding Adapter.update_position
update_position-IsGood k p a g = elim (Option-cases (Assoc.get k a.editor.nodes)) [
  | inl e ↦ rw (e, Adapter.update_position) g
  | inr (n, e) ↦ elim (Bool-cases (eqb_ℤ n.position.x p.x && eqb_ℤ n.position.y p.y)) [
    | inl there ↦ rw (e, Adapter.update_position) (rw there g)
    | inr away ↦
        rw (e, Adapter.update_position)
          (rw (away, update_node_position_found k p n a.editor e) (moved-IsGood k p n a e g))
  ]
]

id-configure : (config : Option (Assoc Value)) (n : BaseNode) → (configure config n).id ≡ n.id
id-configure none n = refl
id-configure (some config) n = id-set_config config n

-- Adding a node that has its id, and counting the id.
forced-IsGood :
    (n : BaseNode) (k : Text) (p : Position) (a : Adapter)
    → n.id ≡ some k
    → IsGood a
    → IsGood (
        let a' = absorb (Editor.add_node n p a.editor).0 a in
        record a' { editor = raise_counter (parse_digits k) a'.editor })
unfolding absorb
forced-IsGood n k p a e g = elim (Option-cases (parse_digits k)) [
  | inl d ↦ rw d (
      absorb-IsGood ed a (add_node-Refreshes n p a.editor)
        (add_unnumbered-IsValid n k p a.editor e d g.valid) g.synced)
  | inr (m, d) ↦ rw d (record {
    synced = record { shown = synced.shown; quiet = refl };
    valid = absorb-IsValid _ a (add_forced-IsValid n k m p a.editor e d g.valid);
  })
]
  where
    ed : Editor
    ed = (Editor.add_node n p a.editor).0

    synced : IsSynced (absorb ed a)
    synced = absorb-IsSynced ed a (add_node-Refreshes n p a.editor) g.synced

add_node_with_id-IsGood :
    (registry : Registry) (type : Text) (p : Position) (k : Text) (config : Option (Assoc Value))
    (a : Adapter)
    → IsGood a
    → IsGood (Adapter.add_node_with_id registry type p k config a).0
unfolding Adapter.add_node_with_id
add_node_with_id-IsGood registry type p k config a g = elim (Option-cases (registry type)) [
  | inl e ↦ rw (e, Adapter.add_node_with_id) g
  | inr (c, e) ↦
      rw (e, Adapter.add_node_with_id)
        (forced-IsGood (configure config (record (new_node c) { id = some k })) k p a
          (id-configure config _) g)
]

perform-IsGood :
    (registry : Registry) (c : Call) (a : Adapter)
    → MakesFresh registry
    → IsGood a
    → IsGood (perform registry c a)
unfolding perform
perform-IsGood registry (add type p) a f g = add_node-IsGood registry type p a f g
perform-IsGood registry (add_with_id type p k config) a f g =
    add_node_with_id-IsGood registry type p k config a g
perform-IsGood registry (remove k) a f g = remove_node-IsGood k a g
perform-IsGood registry (move k p) a f g = update_position-IsGood k p a g
perform-IsGood registry (change_meta k patch) a f g = set_node_meta-IsGood k patch a g
perform-IsGood registry (rename k label) a f g = set_node_label-IsGood k label a g
perform-IsGood registry (change_config k config) a f g = set_node_config-IsGood k config a g
perform-IsGood registry (change_control k key v) a f g = set_control_value-IsGood k key v a g
perform-IsGood registry (link s sh t th) a f g = add_connection-IsGood s sh t th a g
perform-IsGood registry (unlink i) a f g = remove_connection-IsGood i a g
perform-IsGood registry clear_all a f g = clear-IsGood a g

-- With a registry whose classes make nodes without an id, every sequence of edits (adding, removing,
-- moving and renaming a node, changing its meta, configuration or a control, connecting,
-- disconnecting and clearing; loading a workflow is none) leads from an adapter with a valid editor
-- that its interface shows to such an adapter: the ids
-- of nodes are unique and not above the counter, every connection has the id of its ends and
-- stands between two different nodes of the editor, no connection stands twice, and the interface
-- shows what a refresh would show.
pub perform_all-IsGood :
    (registry : Registry) (cs : List Call) (a : Adapter)
    → MakesFresh registry
    → IsGood a
    → IsGood (perform_all registry cs a)
unfolding perform_all
perform_all-IsGood registry [] a f g = g
perform_all-IsGood registry (c ∷ cs) a f g =
    perform_all-IsGood registry cs (perform registry c a) f (perform-IsGood registry c a f g)

pub new_adapter-IsGood : (classes : Assoc NodeClass) → IsGood (new_adapter classes)
unfolding new_adapter
new_adapter-IsGood classes = record {
  synced = record { shown = refl; quiet = refl };
  valid = new_editor-IsValid classes;
}
