-- ===== src/EditorCanvas/Drag/Transient.antt =====
-- components/editor_canvas/hooks/use_multi_node_drag.js: the transient moves of the store, of which
-- the dragging makes use, as places of the nodes.
use open_workflow_studio.Prelude.{
  find?, ◌≡◌, refl, ◌∙◌, ap, none, some, [], ◌∷◌, arith, Bool-cases, Option-cases, inl, inr,
}
use open_workflow_studio.Text.{Text, ==_iff}
use open_workflow_studio.Assoc
use open_workflow_studio.Assoc.{Assoc, IsUnique}
use open_workflow_studio.Node.{BaseNode, Position}
use open_workflow_studio.Adapter
use open_workflow_studio.Adapter.{Adapter, UiNode, node_for_ui}
use open_workflow_studio.Adapter.Calls.Good.{IsGood}
use open_workflow_studio.Adapter.Calls.Reach.{update_position-IsGood}
use open_workflow_studio.Store.{
  Store, get_node, has_id, ui_position, same_position, move_entries, move_nodes_transient,
}
use open_workflow_studio.Store.Undo.{find-node_for_ui}
use open_workflow_studio.EditorCanvas.Drag.Relocate.{Places, nowhere, only, later}
use open_workflow_studio.EditorCanvas.Drag.Moved.{
  IsMoved, IsMoved-stay, IsMoved-later, IsMoved-there, is_there_lem, update_position-IsMoved,
}

-- The node that the store finds is the editor's.
pub get_node_lem :
    (k : Text) (n : BaseNode) (st : Store)
    → IsGood st.adapter
    → Assoc.get k st.adapter.editor.nodes ≡ some n
    → get_node k st ≡ some (node_for_ui n)
get_node_lem k n st g e =
    ap (λ s. find? (has_id k) s.nodes) g.synced.shown
    ∙ find-node_for_ui k st.adapter.editor.nodes g.valid.keyed g.valid.unique n e

pub position-get_node :
    (k : Text) (n : BaseNode) (u : UiNode) (st : Store)
    → IsGood st.adapter
    → get_node k st ≡ some u
    → Assoc.get k st.adapter.editor.nodes ≡ some n
    → n.position ≡ ui_position u
unfolding node_for_ui
position-get_node k n u st g f e =
    let shown = get_node_lem k n st g e in
    let same : node_for_ui n ≡ u = ground arith in ap ui_position same

-- The places of a list of updates, of which the last one for a node counts.
pub places_of : Assoc Position → Places
places_of [] = nowhere
places_of ((k, p) ∷ updates) = later (places_of updates) (only k p)

pub places_of-get :
    (j : Text) (updates : Assoc Position)
    → IsUnique updates
    → places_of updates j ≡ Assoc.get j updates
unfolding places_of Assoc.get
places_of-get j [] u = refl
places_of-get j ((k, p) ∷ updates) u = ground (arith, places_of-get j updates, ==_iff j k)

pub record Carries (f : Places) (st st' : Store) : Type 0 where
  pub carried : IsMoved f st.adapter st'.adapter
  pub same_history : st'.history ≡ st.history

pub Carries-later :
    (f g : Places) (s t u : Store) → Carries f s t → Carries g t u → Carries (later g f) s u
Carries-later f g s t u h i = record {
  carried = IsMoved-later f g s.adapter t.adapter u.adapter h.carried i.carried;
  same_history = i.same_history ∙ h.same_history;
}

-- A node that is not shown, or is at the place, is not moved.
Carries-skip :
    (k : Text) (p : Position) (st : Store)
    → IsGood st.adapter
    → ((n : BaseNode) → Assoc.get k st.adapter.editor.nodes ≡ some n → n.position ≡ p)
    → Carries (only k p) st st
Carries-skip k p st g h = record { carried = IsMoved-there k p st.adapter g h; same_history = refl }

-- The transient moves put the nodes at the updates' places, and record nothing.
pub move_nodes_transient-Carries :
    (updates : Assoc Position) (st : Store)
    → IsGood st.adapter
    → Carries (places_of updates) st (move_nodes_transient updates st)
unfolding places_of
move_nodes_transient-Carries [] st g = record {
  carried = IsMoved-stay st.adapter g;
  same_history = refl;
}
move_nodes_transient-Carries ((k, p) ∷ updates) st g = elim (Option-cases (get_node k st)) [
  | inl e ↦
      rw (e, move_nodes_transient, move_entries)
        (Carries-later (only k p) (places_of updates) st st _
          (Carries-skip k p st g (λ n f. absurd (missing n f e)))
          (move_nodes_transient-Carries updates st g))
  | inr (u, e) ↦ elim (Bool-cases (same_position (ui_position u) p)) [
    | inl there ↦
        rw (e, move_nodes_transient, move_entries)
          (rw there (
            Carries-later (only k p) (places_of updates) st st _
              (Carries-skip k p st g
                (λ n f. position-get_node k n u st g e f ∙ is_there_lem (ui_position u) p there))
              (move_nodes_transient-Carries updates st g)))
    | inr away ↦
        let st' : Store = record st { adapter = (Adapter.update_position k p st.adapter).0 } in
        rw (e, move_nodes_transient, move_entries)
          (rw away (
            Carries-later (only k p) (places_of updates) st st' _
              (record { carried = update_position-IsMoved k p st.adapter g; same_history = refl })
              (move_nodes_transient-Carries updates st' (update_position-IsGood k p st.adapter g))))
  ]
]
  where
    missing :
        (n : BaseNode) → Assoc.get k st.adapter.editor.nodes ≡ some n → get_node k st ≡ none → ⊥
    missing n f e = let shown = get_node_lem k n st g f in ground arith
