-- ===== src/EditorCanvas/Drag/Undo.antt =====
-- components/editor_canvas/hooks/use_multi_node_drag.js: one undo takes back a whole drag.
use open_workflow_studio.Prelude.{
  ℕ, ◌≡◌, ◌⊎◌, refl, ◌∙◌, sym, ap, true, false, List, [], ◌∷◌, arith, Option-cases, inl, inr,
}
use open_workflow_studio.Text.{Text, mem}
use open_workflow_studio.Assoc
use open_workflow_studio.Assoc.{Assoc}
use open_workflow_studio.Node.{Position}
use open_workflow_studio.Adapter.Calls.Good.{IsGood}
use open_workflow_studio.History.{push}
use open_workflow_studio.History.Chain.{Between}
use open_workflow_studio.Commands.{NodeMove, create_move_nodes_action}
use open_workflow_studio.Store.{Store, record_move_nodes}
use open_workflow_studio.Store.Undo.{Records, IsTakenBack, push-IsTakenBack}
use open_workflow_studio.Real.{Real}
use open_workflow_studio.EditorCanvas.AutoScroll.{Point}
use open_workflow_studio.EditorCanvas.Drag.{
  Drag, DragEvent, capture, node_moves, nodes_to_move, on_node_drag_start, handle_mouse_up,
  happen_all,
}
use open_workflow_studio.EditorCanvas.Drag.Relocate.{nowhere, Alike}
use open_workflow_studio.EditorCanvas.Drag.Moved.{IsMoved-stay, IsMoved-alike}
use open_workflow_studio.EditorCanvas.Drag.Transient.{position-get_node}
use open_workflow_studio.EditorCanvas.Drag.Frames.{IsDragging, happen_all-IsDragging}
use open_workflow_studio.EditorCanvas.Drag.Between.{
  IsCaptured, place_own, capture-IsCaptured, create_move_nodes_action-Between,
}

record_move_nodes-IsTakenBack :
    (now : ℕ) (ms : List NodeMove) (st st' : Store)
    → Records st.history
    → st'.history ≡ st.history
    → Between (create_move_nodes_action ms) st.adapter st'.adapter
    → ((record_move_nodes now ms st').adapter ≡ st.adapter)
        × ((record_move_nodes now ms st').history ≡ st.history)
      ⊎ IsTakenBack (record_move_nodes now ms st') st.adapter
record_move_nodes-IsTakenBack now [] st st' r e b = inl (ground (arith, b.back), e)
record_move_nodes-IsTakenBack now (m ∷ ms) st st' r e b = inr (
    push-IsTakenBack now (create_move_nodes_action (m ∷ ms)) st.history st.adapter _ r
      (ap (push now (create_move_nodes_action (m ∷ ms))) e) b)

captured-Alike :
    (st : Store) (initial : Assoc Position) (T : Text → Type 0)
    → IsGood st.adapter
    → IsCaptured st T initial
    → Alike nowhere (λ k. Assoc.get k initial) st.adapter.editor.nodes
captured-Alike st initial T g c k n e = elim (Option-cases (Assoc.get k initial)) [
  | inl f ↦ rw f refl
  | inr (p, f) ↦
      let (listed, u, shown, at) = c k p f in
      rw f (sym (place_own p n (position-get_node k n u st g shown e ∙ at)))
]

capture-listed :
    (st : Store) (ids : List Text) → IsCaptured st (λ k. mem k ids ≡ true) (capture st ids [])
unfolding Assoc.get
capture-listed st ids =
    capture-IsCaptured (λ k. mem k ids ≡ true) st ids [] (λ k e. e) (λ k p e. absurd (ground arith))

module _ (real : Real) where
  released :
      (now : ℕ) (d : Drag real)
      → d.is_dragging ≡ true
      → (handle_mouse_up real now false d).store
        ≡ record_move_nodes now (node_moves d.initial_positions d.last_positions d.node_ids) d.store
  unfolding handle_mouse_up
  released now d e = rw e refl

  started :
      (selected : List Text) (k : Text) (client : Point real) (d : Drag real)
      → IsGood d.store.adapter
      → IsDragging real d.store
          (capture d.store (nodes_to_move selected k) [])
          (nodes_to_move selected k)
          (on_node_drag_start real false selected k client d)
  unfolding on_node_drag_start
  started selected k client d g =
      let ids = nodes_to_move selected k in
      let captured = capture-listed d.store ids in
      record {
        dragging = refl;
        same_initial = refl;
        same_ids = refl;
        carries = record {
          carried =
              IsMoved-alike nowhere _ d.store.adapter d.store.adapter g
                (captured-Alike d.store _ (λ j. mem j ids ≡ true) g captured)
                (IsMoved-stay d.store.adapter g);
          same_history = refl;
        };
        same_keys = λ j. refl;
      }

  -- When the canvas is not read-only at the start of a drag and at its end, the store's interface
  -- shows a valid editor, and its history records (recording is on, no batch is open, the maximum
  -- is not 0), then after the start, any sequence of pointer moves, frames and scroll frames in
  -- between, and the release, either the store has the adapter and the history from before, or one
  -- undo gives back exactly the adapter from before, a redo after it the adapter from after the
  -- release, and neither raises an exception.
  pub undo-handle_mouse_up :
      (now : ℕ) (selected : List Text) (k : Text) (client : Point real) (es : List (DragEvent real))
      (d : Drag real)
      → IsGood d.store.adapter
      → Records d.store.history
      → (let st =
            (handle_mouse_up real now false
              (happen_all real es (on_node_drag_start real false selected k client d))).store in
          (st.adapter ≡ d.store.adapter) × (st.history ≡ d.store.history)
          ⊎ IsTakenBack st d.store.adapter)
  undo-handle_mouse_up now selected k client es d g r =
      let ids = nodes_to_move selected k in
      let initial = capture d.store ids [] in
      let d' = happen_all real es (on_node_drag_start real false selected k client d) in
      let h : IsDragging real d.store initial ids d' =
        happen_all-IsDragging real d.store initial ids es _ g (started selected k client d g) in
      rw (released now d' h.dragging, h.same_initial, h.same_ids)
        (record_move_nodes-IsTakenBack now (node_moves initial d'.last_positions ids) d.store
          d'.store r h.carries.same_history
          (create_move_nodes_action-Between d.store initial d'.last_positions ids g
            (capture-listed d.store ids) h.same_keys d'.store.adapter h.carries.carried))
