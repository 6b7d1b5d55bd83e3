-- ===== src/Store/Undo.antt =====
-- One undo takes back an edit of the store.
use open_workflow_studio.Prelude.{
  ℕ, ◌<◌, ◌≡◌, refl, ◌∙◌, sym, ap, true, false, none, some, List, [], ◌∷◌, map, find?, Bool-cases,
  Option-cases, inl, inr, arith,
}
use open_workflow_studio.Text.{Text, ◌==◌, ==_iff, ==_refl}
use open_workflow_studio.Assoc
use open_workflow_studio.Assoc.{Assoc, IsUnique}
use open_workflow_studio.Node.{BaseNode, Position}
use open_workflow_studio.Connection.{Connection}
use open_workflow_studio.Adapter
use open_workflow_studio.Adapter.{Adapter, UiNode, node_for_ui, state_of}
use open_workflow_studio.Adapter.Move.{IsKeyed-tail}
use open_workflow_studio.Adapter.Calls.Good.{IsGood}
use open_workflow_studio.History.{Action, History, done, push}
use open_workflow_studio.History.Chain.{Between, Reverts}
use open_workflow_studio.History.Batch.{push-Reverts}
use open_workflow_studio.Commands.{create_move_node_action, create_add_connection_action}
use open_workflow_studio.Commands.Inverse.{
  create_add_connection_action-Between, create_move_node_action-Between,
}
use open_workflow_studio.Store.{
  Store, get_node, has_id, ui_position, same_position, move_node, add_connection, undo, redo,
}

-- An undo can be recorded: recording is on, no batch is open and the stack has room.
pub record Records {S : Type 0} (h : History S) : Type 0 where
  pub on : h.recording ≡ true
  pub plain : h.current_batch ≡ none
  pub room : 0 < h.max_size

-- One undo gives back the adapter, a redo after it the store's own, and neither raises an exception.
pub record IsTakenBack (st : Store) (a : Adapter) : Type 0 where
  pub undone : (undo st).0.adapter ≡ a
  pub undo_ended : (undo st).1 ≡ done
  pub redone : (redo (undo st).0).0.adapter ≡ st.adapter
  pub redo_ended : (redo (undo st).0).1 ≡ done

-- After the push of an action that led from `a` to the store's adapter.
pub push-IsTakenBack :
    (now : ℕ) (act : Action Adapter) (h : History Adapter) (a : Adapter) (st : Store)
    → Records h
    → st.history ≡ push now act h
    → Between act a st.adapter
    → IsTakenBack st a
push-IsTakenBack now act h a st r e b =
    let v : Reverts st.history a st.adapter =
      rw e (push-Reverts now act h a st.adapter r.on r.plain r.room b) in
    record {
      undone = v.undone;
      undo_ended = v.undo_ended;
      redone = v.redone;
      redo_ended = v.redo_ended;
    }

added :
    (now : ℕ) (s sh t th : Text) (c : Connection) (st : Store)
    → (Adapter.add_connection s sh t th st.adapter).1 ≡ some c
    → (add_connection now s sh t th st).0 ≡ record st {
      adapter = (Adapter.add_connection s sh t th st.adapter).0;
      history = push now (create_add_connection_action c) st.history;
      execution_progress = none;
    }
unfolding add_connection
added now s sh t th c st f = rw (f, add_connection) refl

moved_and_pushed :
    (now : ℕ) (k : Text) (p : Position) (n : UiNode) (st : Store)
    → get_node k st ≡ some n
    → same_position (ui_position n) p ≡ false
    → move_node now k p st ≡ record st {
      adapter = (Adapter.update_position k p st.adapter).0;
      history = push now (create_move_node_action k (ui_position n) p) st.history;
    }
unfolding move_node
moved_and_pushed now k p n st e away = rw (e, move_node) (rw away refl)

-- When the store's interface shows a valid editor, its history records (recording is on, no batch
-- is open, the maximum is not 0), and the connection is added, one undo gives back exactly the
-- adapter from before, with the editor and what is shown, a redo after it the adapter with the
-- connection, and neither raises an exception.
pub undo-add_connection :
    (now : ℕ) (s sh t th i : Text) (st : Store)
    → IsGood st.adapter
    → Records st.history
    → (add_connection now s sh t th st).1 ≡ some i
    → IsTakenBack (add_connection now s sh t th st).0 st.adapter
undo-add_connection now s sh t th i st g r e =
    elim (Option-cases (Adapter.add_connection s sh t th st.adapter).1) [
      | inl f ↦
          absurd (some-not-none (sym e ∙ unfold add_connection in rw (f, add_connection) refl))
      | inr (c, f) ↦ rw (added now s sh t th c st f) (
          push-IsTakenBack now (create_add_connection_action c) st.history st.adapter _ r refl
            (create_add_connection_action-Between s sh t th c st.adapter g f))
    ]
  where
    some-not-none : some i ≡ none → ⊥
    some-not-none f = absurd (ground arith)

has_id-some : (k j : Text) (u : UiNode) → u.id ≡ some j → has_id k u ≡ (j == k)
has_id-some k j u e = rw e refl

find_here :
    (k : Text) (u : UiNode) (us : List UiNode)
    → has_id k u ≡ true
    → find? (has_id k) (u ∷ us) ≡ some u
find_here k u us e = ground arith

-- The interface finds the nodes of the editor, under their ids.
pub find-node_for_ui :
    (k : Text) (m : Assoc BaseNode)
    → ((j : Text) (n : BaseNode) → Assoc.get j m ≡ some n → n.id ≡ some j)
    → IsUnique m
    → (n : BaseNode) → Assoc.get k m ≡ some n
    → find? (has_id k) (map node_for_ui (Assoc.values m)) ≡ some (node_for_ui n)
unfolding Assoc.get node_for_ui
find-node_for_ui k [] h u n e = cc
find-node_for_ui k ((j, o) ∷ m) h u n e = elim (Bool-cases (k == j)) [
  | inl same ↦
      let key : o.id ≡ some k = h k o (rw same refl) in
      let found : o ≡ n = ground arith in
      find_here k (node_for_ui o) (map node_for_ui (Assoc.values m))
        (has_id-some k k (node_for_ui o) key ∙ ==_refl k)
      ∙ ap some (ap node_for_ui found)
  | inr other ↦
      let key : o.id ≡ some j = h j o (rw (==_refl j) refl) in
      let rest : Assoc.get k m ≡ some n = rw other at e in
      let apart : (j == k) ≡ false = ground (arith, ==_iff k j, ==_iff j k) in
      rw key (rw apart (find-node_for_ui k m (IsKeyed-tail j o m u h) u.1 n rest))
]

-- When the store's interface shows a valid editor that has the node, and its history records
-- (recording is on, no batch is open, the maximum is not 0), one undo after the node was moved
-- elsewhere gives back exactly the adapter from before, a redo after it the adapter with the node
-- moved, and neither raises an exception.
pub undo-move_node :
    (now : ℕ) (k : Text) (p : Position) (n : BaseNode) (st : Store)
    → IsGood st.adapter
    → Records st.history
    → Assoc.get k st.adapter.editor.nodes ≡ some n
    → same_position n.position p ≡ false
    → IsTakenBack (move_node now k p st) st.adapter
unfolding node_for_ui
undo-move_node now k p n st g r e away =
    let found : get_node k st ≡ some (node_for_ui n) =
      ap (λ s. find? (has_id k) s.nodes) g.synced.shown
      ∙ find-node_for_ui k st.adapter.editor.nodes g.valid.keyed g.valid.unique n e in
    rw (moved_and_pushed now k p (node_for_ui n) st found away) (
      push-IsTakenBack now (create_move_node_action k n.position p) st.history st.adapter _ r refl
        (create_move_node_action-Between k p n st.adapter g e))
