-- ===== src/EditorCanvas/AutoScroll.antt =====
-- components/editor_canvas/hooks/use_multi_node_drag.js: how far the canvas scrolls by itself when the
-- pointer is near a side of it.
use open_workflow_studio.Prelude.{Bool, false, not, ◌&&◌, Option, none, some, if◌then◌else◌}
use open_workflow_studio.Prelude.Int.{pos}
use open_workflow_studio.Real.{Real}

module _ (real : Real) where
  open real use {R, of_ℤ, add, sub, mul, div, neg, lt}

  -- A point of the screen, and a rectangle of it by its sides.
  pub record Point : Type 0 where
    pub x : R
    pub y : R

  pub record Sides : Type 0 where
    pub left : R
    pub right : R
    pub top : R
    pub bottom : R

  -- `speedFromDistance`
  abbrev pub speed_from_distance : R → R
  speed_from_distance distance =
      let safe = if lt distance (of_ℤ (pos 0)) then of_ℤ (pos 0) else distance in
      if lt safe (of_ℤ (pos 56))
      then mul (div (sub (of_ℤ (pos 56)) safe) (of_ℤ (pos 56))) (of_ℤ (pos 18))
      else of_ℤ (pos 0)

  -- One coordinate of `getAutoScrollDelta`.
  abbrev pub scroll_along : R → R → R
  scroll_along before behind =
      if lt before (of_ℤ (pos 56))
      then neg (speed_from_distance before)
      else if lt behind (of_ℤ (pos 56))
      then speed_from_distance behind
      else of_ℤ (pos 0)

  abbrev pub get_auto_scroll_delta : Point → Sides → Point
  get_auto_scroll_delta p r = record {
    x = scroll_along (sub p.x r.left) (sub r.right p.x);
    y = scroll_along (sub p.y r.top) (sub r.bottom p.y);
  }

  -- `d.x !== 0 || d.y !== 0`, by the order.
  abbrev pub is_zero : R → Bool
  is_zero a = not (lt a (of_ℤ (pos 0))) && not (lt (of_ℤ (pos 0)) a)

  abbrev pub is_still : Point → Bool
  is_still d = is_zero d.x && is_zero d.y

  abbrev pub should_auto_scroll : Point → Option Sides → Bool
  should_auto_scroll p none = false
  should_auto_scroll p (some r) = not (is_still (get_auto_scroll_delta p r))
