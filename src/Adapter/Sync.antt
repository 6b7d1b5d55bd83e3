-- ===== src/Adapter/Sync.antt =====
-- core/adapter.js: what it means that the interface shows the graph of the editor, for operations
-- that end with a refresh, change nothing, or move a node. Loading is not among them.
use open_workflow_studio.Prelude.{
  ◌≡◌, refl, false, some, List, [], ◌∷◌, ◌++◌, map, ◌∙◌, arith, ap, inl, inr,
}
use open_workflow_studio.Text.{Text}
use open_workflow_studio.Assoc
use open_workflow_studio.Assoc.{Assoc, IsUnique}
use open_workflow_studio.Node.{BaseNode, Position}
use open_workflow_studio.Editor.{Editor, Event, node_move, Emission, emit, put_node}
use open_workflow_studio.Editor.Events.{is_move, Refreshes}
use open_workflow_studio.Adapter.Move.{IsKeyed, move_ui_node-set}
use open_workflow_studio.Adapter.{
  connection_for_ui, move_ui_node, UiState, Adapter, state_of, on_change, deliver, absorb,
  sync_state,
}

pub record IsSynced (a : Adapter) : Type 0 where
  pub shown : a.state ≡ state_of a.editor.nodes a.editor.connections
  pub quiet : a.editor.emitted ≡ []

deliver-append :
    (es : List Emission) (e : Emission) (s : UiState)
    → deliver (es ++ e ∷ []) s ≡ on_change e (deliver es s)
unfolding deliver
deliver-append [] e s = refl
deliver-append (d ∷ es) e s = deliver-append es e (on_change d s)

on_change_lem :
    (e : Emission) (s : UiState)
    → is_move e.event ≡ false
    → on_change e s ≡ state_of e.nodes e.connections
on_change_lem e s h = ground arith

-- An event that ends an operation, and is no move, refreshes all.
pub absorb-emit :
    (e : Event) (ed : Editor) (a : Adapter) → is_move e ≡ false → IsSynced (absorb (emit e ed) a)
unfolding absorb emit
absorb-emit e ed a h = record {
  shown = rw (deliver-append ed.emitted _ a.state) (on_change_lem _ _ h);
  quiet = refl;
}

-- An operation that was refused changes nothing.
pub absorb_same : (a : Adapter) → IsSynced a → IsSynced (absorb a.editor a)
unfolding absorb deliver
absorb_same a h = record { shown = rw h.quiet h.shown; quiet = refl }

pub sync_state-IsSynced : (a : Adapter) → a.editor.emitted ≡ [] → IsSynced (sync_state a)
unfolding sync_state
sync_state-IsSynced a h = record { shown = refl; quiet = h }

pub absorb-IsSynced :
    (ed : Editor) (a : Adapter) → Refreshes a.editor ed → IsSynced a → IsSynced (absorb ed a)
absorb-IsSynced ed a (inl (e, ed', p, m)) h = rw p (absorb-emit e ed' a m)
absorb-IsSynced ed a (inr p) h = rw p (absorb_same a h)

-- A move: the listener passes over the event.
pub state-absorb_move :
    (ed : Editor) (a : Adapter) → ed.emitted ≡ [] → (absorb (emit node_move ed) a).state ≡ a.state
unfolding absorb emit deliver
state-absorb_move ed a h = rw h refl

-- The adapter after a move that changes the position.
abbrev pub moved : Text → Position → BaseNode → Adapter → Adapter
moved k p n a =
    let ed = emit node_move (put_node k (record n { position = p }) a.editor) in
    let a' = absorb ed a in
    record a' { state = record a'.state { nodes = move_ui_node k p a'.state.nodes } }

pub moved-IsSynced :
    (k : Text) (p : Position) (n : BaseNode) (a : Adapter)
    → IsUnique a.editor.nodes
    → IsKeyed a.editor.nodes
    → Assoc.get k a.editor.nodes ≡ some n
    → IsSynced a
    → IsSynced (moved k p n a)
unfolding absorb emit
moved-IsSynced k p n a u h e g = record {
  shown =
      ap (λ s. record { nodes = move_ui_node k p s.nodes; connections = s.connections })
        (state-absorb_move (put_node k (record n { position = p }) a.editor) a g.quiet ∙ g.shown)
      ∙ ap (λ ns. record { nodes = ns; connections = map connection_for_ui a.editor.connections })
          (move_ui_node-set k p n a.editor.nodes u h e);
  quiet = refl;
}
