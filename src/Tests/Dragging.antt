-- ===== src/Tests/Dragging.antt =====
-- A drag of two nodes, over the integers.
use open_workflow_studio.Prelude.{
  ◌≡◌, ◌⊎◌, ◌*◌, ◌/◌, ◌+◌, ℕ, false, none, List, [], ◌∷◌, if◌then◌else◌,
}
use open_workflow_studio.Prelude.Int.{ℤ, pos, ◌+ℤ◌, ◌-ℤ◌, ltb_ℤ, leb_ℤ, sub_ℕ, pos_part, neg_part}
use open_workflow_studio.Text.{codes}
use open_workflow_studio.Store.Undo.{IsTakenBack}
use open_workflow_studio.Real.{Real}
use open_workflow_studio.EditorCanvas.AutoScroll.{Point}
use open_workflow_studio.EditorCanvas.Drag.{
  Drag, DragEvent, pointer_moved, frame, scroll_frame, on_node_drag_start, happen_all,
  handle_mouse_up,
}
use open_workflow_studio.EditorCanvas.Drag.Undo.{undo-handle_mouse_up}
use open_workflow_studio.Tests.Canvas.{store, store-Records, canvas-IsGood}

-- Integers, with the quotient of the absolute values.
size : ℤ → ℕ
size z = pos_part z + neg_part z

signed : ℤ → ℤ → ℕ → ℤ
signed a b n =
    if leb_ℤ (pos 0) a
    then if leb_ℤ (pos 0) b then pos n else sub_ℕ 0 n
    else if leb_ℤ (pos 0) b
    then sub_ℕ 0 n
    else pos n

abbrev integers : Real
integers = record {
  R = ℤ;
  of_ℤ = λ a. a;
  add = λ a b. a +ℤ b;
  sub = λ a b. a -ℤ b;
  mul = λ a b. signed a b (size a * size b);
  div = λ a b. signed a b (size a / size b);
  neg = λ a. pos 0 -ℤ a;
  lt = λ a b. ltb_ℤ a b;
  round = λ a. a;
}

abbrev point : ℕ → ℕ → Point integers
point x y = record { x = pos x; y = pos y }

abbrev at_rest : Drag integers
at_rest = record {
  store = store;
  zoom = pos 1;
  pan = point 0 0;
  is_dragging = false;
  start = point 0 0;
  initial_positions = [];
  last_positions = [];
  node_ids = [];
  drag_frame = none;
  auto_scroll_frame = false;
  last_pointer = none;
}

abbrev events : List (DragEvent integers)
events =
    pointer_moved false (point 60 20) none
    ∷ frame
    ∷ pointer_moved false (point 90 80) none
    ∷ scroll_frame none
    ∷ frame
    ∷ []

undo-handle_mouse_up_example :
    let st =
      (handle_mouse_up integers 5 false (
        happen_all integers events (
          on_node_drag_start integers false
            (codes "n_1" ∷ codes "n_2" ∷ [])
            (codes "n_1")
            (point 10 10)
            at_rest))).store in
    (st.adapter ≡ store.adapter) × (st.history ≡ store.history) ⊎ IsTakenBack st store.adapter
undo-handle_mouse_up_example =
    undo-handle_mouse_up integers 5 (codes "n_1" ∷ codes "n_2" ∷ []) (codes "n_1") (point 10 10)
      events at_rest canvas-IsGood store-Records
