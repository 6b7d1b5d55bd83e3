-- ===== src/Adapter/Calls/Good.antt =====
-- An adapter is good when its editor is valid and its interface shows it: the operations that end
-- with a refresh, or need none, keep it so.
use open_workflow_studio.Prelude.{
  ℕ, ◌≡◌, refl, Option, none, some, ◌∙◌, map, arith, ap, Bool-cases, Option-cases, inl, inr,
}
use open_workflow_studio.Text.{Text}
use open_workflow_studio.Assoc
use open_workflow_studio.Assoc.{Assoc}
use open_workflow_studio.Value.{Value}
use open_workflow_studio.Control.{set_value}
use open_workflow_studio.Node.{BaseNode, NodeClass, new_node, Position, set_config}
use open_workflow_studio.Node.Config.{id-set_config}
use open_workflow_studio.Editor
use open_workflow_studio.Editor.{
  Editor, Event, emit, put_node, place_node, generate_node_id, node_move, new_editor, sockets_fit,
  has_connection,
}
use open_workflow_studio.Editor.Valid.{IsValid, update_node-IsValid}
use open_workflow_studio.Editor.Nodes.{
  add_node_of_class-IsValid, set_node_meta-IsValid, set_node_label-IsValid, clear-IsValid,
}
use open_workflow_studio.Editor.Removal.{remove_node-IsValid}
use open_workflow_studio.Editor.Links.{add_connection-IsValid, remove_connection-IsValid}
use open_workflow_studio.Adapter
use open_workflow_studio.Adapter.{
  connection_for_ui, Adapter, Registry, absorb, state_of, configure, raise_counter, sync_state,
  move_ui_node, node_for_ui,
}
use open_workflow_studio.Adapter.Move.{unseen-set, node_for_ui-controls}
use open_workflow_studio.Editor.Events.{
  add_node_of_class-Refreshes, remove_node-Refreshes, set_node_meta-Refreshes,
  set_node_label-Refreshes, add_connection-Refreshes, remove_connection-Refreshes, clear-Refreshes,
  Refreshes,
}
use open_workflow_studio.Adapter.Sync.{IsSynced, absorb-IsSynced, sync_state-IsSynced}

pub record IsGood (a : Adapter) : Type 0 where
  pub synced : IsSynced a
  pub valid : IsValid a.editor

-- The classes of the registry make nodes without an id, as the constructor of `BaseNode` does.
abbrev pub MakesFresh : Registry → Type 0
MakesFresh registry =
    (type : Text) (k : NodeClass) → registry type ≡ some k → (new_node k).id ≡ none

pub absorb-IsValid : (ed : Editor) (a : Adapter) → IsValid ed → IsValid (absorb ed a).editor
unfolding absorb
absorb-IsValid ed a v = record {
  unique = v.unique;
  keyed = v.keyed;
  counted = v.counted;
  linked = v.linked;
  distinct = v.distinct;
}

-- A call of the editor that ends with a refresh or no change, taken over by the adapter.
pub absorb-IsGood :
    (ed : Editor) (a : Adapter)
    → Refreshes a.editor ed
    → IsValid ed
    → IsSynced a
    → IsGood (absorb ed a)
absorb-IsGood ed a r v h = record {
  synced = absorb-IsSynced ed a r h;
  valid = absorb-IsValid ed a v;
}

pub raise_counter-IsValid : (o : Option ℕ) (ed : Editor) → IsValid ed → IsValid (raise_counter o ed)
raise_counter-IsValid none ed v = v
raise_counter-IsValid (some m) ed v = record {
  unique = v.unique;
  keyed = v.keyed;
  counted = λ k h i e. omega (arith, v.counted k h i e);
  linked = v.linked;
  distinct = v.distinct;
}

pub add_node-IsGood :
    (registry : Registry) (type : Text) (p : Position) (a : Adapter)
    → MakesFresh registry
    → IsGood a
    → IsGood (Adapter.add_node registry type p a).0
unfolding Adapter.add_node
add_node-IsGood registry type p a fresh g = elim (Option-cases (registry type)) [
  | inl e ↦ rw (e, Adapter.add_node) g
  | inr (k, e) ↦
      rw (e, Adapter.add_node)
        (absorb-IsGood _ a (add_node_of_class-Refreshes k p a.editor)
          (add_node_of_class-IsValid k p a.editor (fresh type k e) g.valid) g.synced)
]

pub remove_node-IsGood : (k : Text) (a : Adapter) → IsGood a → IsGood (Adapter.remove_node k a).0
unfolding Adapter.remove_node
remove_node-IsGood k a g =
    absorb-IsGood (Editor.remove_node k a.editor).0 a (remove_node-Refreshes k a.editor)
      (remove_node-IsValid k a.editor g.valid) g.synced

pub set_node_meta-IsGood :
    (k : Text) (patch : Assoc Value) (a : Adapter)
    → IsGood a
    → IsGood (Adapter.set_node_meta k patch a).0
unfolding Adapter.set_node_meta
set_node_meta-IsGood k patch a g =
    absorb-IsGood (Editor.set_node_meta k patch a.editor).0 a
      (set_node_meta-Refreshes k patch a.editor) (set_node_meta-IsValid k patch a.editor g.valid)
      g.synced

pub sync_state-IsGood : (a : Adapter) → IsSynced a → IsValid a.editor → IsGood (sync_state a)
unfolding sync_state
sync_state-IsGood a h v = record { synced = sync_state-IsSynced a h.quiet; valid = v }

pub set_node_label-IsGood :
    (k label : Text) (a : Adapter) → IsGood a → IsGood (Adapter.set_node_label k label a).0
unfolding Adapter.set_node_label
set_node_label-IsGood k label a g = elim (Bool-cases (Editor.set_node_label k label a.editor).1) [
  | inl done ↦ rw done (sync_state-IsGood _ good.synced good.valid)
  | inr not_found ↦ rw not_found good
]
  where
    good : IsGood (absorb (Editor.set_node_label k label a.editor).0 a)
    good =
        absorb-IsGood (Editor.set_node_label k label a.editor).0 a
          (set_node_label-Refreshes k label a.editor)
          (set_node_label-IsValid k label a.editor g.valid) g.synced

pub set_node_config-IsGood :
    (k : Text) (config : Assoc Value) (a : Adapter)
    → IsGood a
    → IsGood (Adapter.set_node_config k config a).0
unfolding Adapter.set_node_config sync_state
set_node_config-IsGood k config a g = elim (Option-cases (Assoc.get k a.editor.nodes)) [
  | inl e ↦ rw (e, Adapter.set_node_config) g
  | inr (n, e) ↦
      rw (e, Adapter.set_node_config)
        (record {
          synced = record { shown = refl; quiet = g.synced.quiet };
          valid =
              update_node-IsValid k n (set_config config n) a.editor e (id-set_config config n)
                g.valid;
        })
]

-- The interface does not show the values of controls.
pub set_control_value-IsGood :
    (k key : Text) (v : Value) (a : Adapter)
    → IsGood a
    → IsGood (Adapter.set_control_value k key v a).0
unfolding Adapter.set_control_value
set_control_value-IsGood k key v a g = elim (Option-cases (Assoc.get k a.editor.nodes)) [
  | inl e ↦ rw (e, Adapter.set_control_value) g
  | inr (n, e) ↦ elim (Option-cases (Assoc.get key n.controls)) [
    | inl f ↦ rw (e, Adapter.set_control_value) (rw (f, Adapter.set_control_value) g)
    | inr (c, f) ↦
        let n' : BaseNode = record n { controls = Assoc.set key (set_value v c) n.controls } in
        rw (e, Adapter.set_control_value)
          (rw (f, Adapter.set_control_value)
            (record {
              synced = record {
                shown =
                    g.synced.shown
                    ∙ ap
                        (λ ns. record {
                          nodes = ns;
                          connections = map connection_for_ui a.editor.connections;
                        })
                        (unseen-set k n' n a.editor.nodes e (node_for_ui-controls n _));
                quiet = g.synced.quiet;
              };
              valid = update_node-IsValid k n n' a.editor e refl g.valid;
            }))
  ]
]

pub add_connection-IsGood :
    (s sh t th : Text) (a : Adapter) → IsGood a → IsGood (Adapter.add_connection s sh t th a).0
unfolding Adapter.add_connection
add_connection-IsGood s sh t th a g =
    absorb-IsGood (Editor.add_connection s sh t th a.editor).0 a
      (add_connection-Refreshes s sh t th a.editor)
      (add_connection-IsValid s sh t th a.editor g.valid) g.synced

pub remove_connection-IsGood :
    (i : Text) (a : Adapter) → IsGood a → IsGood (Adapter.remove_connection i a).0
unfolding Adapter.remove_connection
remove_connection-IsGood i a g =
    absorb-IsGood (Editor.remove_connection i a.editor).0 a (remove_connection-Refreshes i a.editor)
      (remove_connection-IsValid i a.editor g.valid) g.synced

pub clear-IsGood : (a : Adapter) → IsGood a → IsGood (Adapter.clear a)
unfolding Adapter.clear
clear-IsGood a g =
    absorb-IsGood (Editor.clear a.editor) a (clear-Refreshes a.editor a.editor)
      (clear-IsValid a.editor) g.synced
