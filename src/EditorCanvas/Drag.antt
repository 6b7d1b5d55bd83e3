-- ===== src/EditorCanvas/Drag.antt =====
-- components/editor_canvas/hooks/use_multi_node_drag.js: dragging the selected nodes. The nodes move
-- with the pointer, a frame at a time, and the drag is recorded at its end. A frame that was asked
-- for is an event of its own, and so is the release of the pointer.
pub mod Relocate
pub mod Moved
pub mod Transient
pub mod Frames
pub mod Moves
pub mod Between
pub mod Undo
use open_workflow_studio.Prelude.{
  ℕ, zero, suc, ◌*◌, ◌+◌, ◌-◌, Bool, true, false, not, ◌&&◌, Option, none, some, List, [], ◌∷◌,
  if◌then◌else◌,
}
use open_workflow_studio.Prelude.Int.{ℤ, pos, negsuc}
use open_workflow_studio.Text.{Text, mem}
use open_workflow_studio.Assoc
use open_workflow_studio.Assoc.{Assoc}
use open_workflow_studio.Node.{Position}
use open_workflow_studio.Commands.{NodeMove}
use open_workflow_studio.Store.{
  Store, get_node, ui_position, same_position, move_nodes_transient, record_move_nodes,
}
use open_workflow_studio.Real.{Real}
use open_workflow_studio.EditorCanvas.AutoScroll.{
  Point, Sides, is_still, get_auto_scroll_delta, should_auto_scroll,
}

-- `Math.round(x) * GRID_SIZE`, of the rounded number.
abbrev pub on_grid : ℤ → ℤ
on_grid (pos n) = pos (n * 20)
on_grid (negsuc n) = negsuc (n * 20 + 19)

-- The initial positions of the nodes that the store shows.
abbrev pub capture : Store → List Text → Assoc Position → Assoc Position
capture st [] m = m
capture st (k ∷ ks) m = elim (get_node k st) [
  | none ↦ capture st ks m
  | some n ↦ capture st ks (Assoc.set k (ui_position n) m)
]

-- `lastPositions.get(id) || oldPosition`
abbrev pub or_position : Option Position → Position → Position
or_position none p = p
or_position (some q) p = q

-- One move of `nodeMoves`, if the node has moved.
abbrev pub moved_if : Text → Position → Position → List NodeMove → List NodeMove
moved_if k p q ms =
    if same_position p q
    then ms
    else record { node_id = k; old_position = p; new_position = q } ∷ ms

-- The loop of `handleMouseUp`.
abbrev pub node_moves : Assoc Position → Assoc Position → List Text → List NodeMove
node_moves initial last [] = []
node_moves initial last (k ∷ ks) = elim (Assoc.get k initial) [
  | none ↦ node_moves initial last ks
  | some p ↦ moved_if k p (or_position (Assoc.get k last) p) (node_moves initial last ks)
]

-- The loop of `applyDrag`: the updates, and the last positions.
pub snap_all :
    (Position → Position)
    → Assoc Position
    → List Text
    → Assoc Position
    → Assoc Position
    → Assoc Position × Assoc Position
snap_all to initial [] updates last = (updates, last)
snap_all to initial (k ∷ ks) updates last = elim (Assoc.get k initial) [
  | none ↦ snap_all to initial ks updates last
  | some p ↦ snap_all to initial ks (Assoc.set k (to p) updates) (Assoc.set k (to p) last)
]

abbrev pub nodes_to_move : List Text → Text → List Text
nodes_to_move selected k = if mem k selected then selected else k ∷ []

module _ (real : Real) where
  open real use {R, of_ℤ, add, sub, mul, div, neg, lt, round}

  -- The hook's variables, with the viewport and the store that it calls.
  pub record Drag : Type 0 where
    pub store : Store
    pub zoom : R
    pub pan : Point real
    pub is_dragging : Bool
    pub start : Point real
    pub initial_positions : Assoc Position
    pub last_positions : Assoc Position
    pub node_ids : List Text
    pub drag_frame : Option (Point real)
    pub auto_scroll_frame : Bool
    pub last_pointer : Option (Point real)

  -- The new coordinate of a node that was at `initial`.
  abbrev pub snapped : R → R → R → ℤ → ℤ
  snapped zoom start client initial =
      on_grid (round (div (add (of_ℤ initial) (div (sub client start) zoom)) (of_ℤ (pos 20))))

  abbrev pub snapped_position : Drag → Point real → Position → Position
  snapped_position d client p = record {
    x = snapped d.zoom d.start.x client.x p.x;
    y = snapped d.zoom d.start.y client.y p.y;
  }

  unfoldable pub apply_drag : Point real → Drag → Drag
  unfolding snap_all
  apply_drag client d =
      let (updates, last) =
        snap_all (snapped_position d client) d.initial_positions d.node_ids [] d.last_positions in
      record d { store = move_nodes_transient updates d.store; last_positions = last }

  -- A frame of the automatic scrolling, over the canvas' rectangle if it has one.
  abbrev pub scroll_by : Point real → Point real → Drag → Drag
  scroll_by pointer by d =
      let moved = record d {
        pan = record { x = sub d.pan.x by.x; y = sub d.pan.y by.y };
        start = record { x = sub d.start.x by.x; y = sub d.start.y by.y };
      } in
      record (apply_drag pointer moved) { auto_scroll_frame = true }

  abbrev pub auto_scroll_step : Option (Sides real) → Drag → Drag
  auto_scroll_step rect drag =
      let d = record drag { auto_scroll_frame = false } in
      if d.is_dragging
      then elim d.last_pointer [
        | none ↦ d
        | some p ↦ elim rect [
          | none ↦ d
          | some r ↦
              let by = get_auto_scroll_delta real p r in
              if is_still real by then d else scroll_by p by d
        ]
      ]
      else d

  -- `onNodeDragStart`, with the ids that are selected.
  unfoldable pub on_node_drag_start : Bool → List Text → Text → Point real → Drag → Drag
  on_node_drag_start readonly selected k client d =
      if readonly
      then d
      else (let initial = capture d.store (nodes_to_move selected k) [] in
          record d {
            start = client;
            initial_positions = initial;
            last_positions = initial;
            node_ids = nodes_to_move selected k;
            last_pointer = some client;
            is_dragging = true;
          })

  -- `handleMouseMove`; a frame that waits keeps the pointer that it was asked with.
  abbrev pub ask_frame : Point real → Option (Point real) → Option (Point real)
  ask_frame client none = some client
  ask_frame client (some p) = some p

  unfoldable pub handle_mouse_move : Bool → Point real → Option (Sides real) → Drag → Drag
  handle_mouse_move readonly client rect d =
      if readonly
      then d
      else if d.is_dragging
      then record d {
        last_pointer = some client;
        auto_scroll_frame = should_auto_scroll real client rect;
        drag_frame = ask_frame client d.drag_frame;
      }
      else d

  -- The frame that was asked for.
  unfoldable pub run_drag_frame : Drag → Drag
  run_drag_frame d = elim d.drag_frame [
    | none ↦ d
    | some client ↦
        let rested = record d { drag_frame = none } in
        if d.is_dragging then apply_drag client rested else rested
  ]

  -- The frame of the automatic scrolling, if one was asked for.
  unfoldable pub run_scroll_frame : Option (Sides real) → Drag → Drag
  run_scroll_frame rect d = if d.auto_scroll_frame then auto_scroll_step rect d else d

  unfoldable pub handle_mouse_up : ℕ → Bool → Drag → Drag
  handle_mouse_up now readonly d =
      if readonly
      then d
      else if d.is_dragging
      then record d {
        store =
            record_move_nodes now (node_moves d.initial_positions d.last_positions d.node_ids)
              d.store;
        is_dragging = false;
        auto_scroll_frame = false;
        last_pointer = none;
        drag_frame = none;
        initial_positions = [];
        last_positions = [];
        node_ids = [];
      }
      else d

  -- What happens in a drag.
  pub data DragEvent : Type 0 where
    pointer_moved : Bool → Point real → Option (Sides real) → DragEvent
    frame : DragEvent
    scroll_frame : Option (Sides real) → DragEvent

  abbrev pub happen : DragEvent → Drag → Drag
  happen (pointer_moved readonly client rect) d = handle_mouse_move readonly client rect d
  happen frame d = run_drag_frame d
  happen (scroll_frame rect) d = run_scroll_frame rect d

  abbrev pub happen_all : List DragEvent → Drag → Drag
  happen_all [] d = d
  happen_all (e ∷ es) d = happen_all es (happen e d)
