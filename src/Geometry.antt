-- ===== src/Geometry.antt =====
-- components/editor_canvas/utils/geometry.js: points and rectangles of the canvas, over integers.
pub mod Laws
use open_workflow_studio.Prelude.{Bool, not, ◌&&◌, ◌||◌, if◌then◌else◌}
use open_workflow_studio.Prelude.Int.{
  ℤ, pos, negsuc, pos_part, neg_part, sub_ℕ, ◌+ℤ◌, ◌-ℤ◌, ltb_ℤ, leb_ℤ,
}

pub record Point : Type 0 where
  pub x : ℤ
  pub y : ℤ

pub record Rect : Type 0 where
  pub x : ℤ
  pub y : ℤ
  pub width : ℤ
  pub height : ℤ

pub point_in_rect : Point → Rect → Bool
point_in_rect p r =
    leb_ℤ r.x p.x && leb_ℤ p.x (r.x +ℤ r.width) && leb_ℤ r.y p.y && leb_ℤ p.y (r.y +ℤ r.height)

pub rects_intersect : Rect → Rect → Bool
rects_intersect r s = not (
    ltb_ℤ (r.x +ℤ r.width) s.x
    || ltb_ℤ (s.x +ℤ s.width) r.x
    || ltb_ℤ (r.y +ℤ r.height) s.y
    || ltb_ℤ (s.y +ℤ s.height) r.y)

-- `Math.min`, `Math.max` and `Math.abs`.
abbrev pub min_ℤ : ℤ → ℤ → ℤ
min_ℤ a b = if leb_ℤ a b then a else b

abbrev pub max_ℤ : ℤ → ℤ → ℤ
max_ℤ a b = if leb_ℤ a b then b else a

abbrev pub abs : ℤ → ℤ
abs a = if ltb_ℤ a (pos 0) then pos 0 -ℤ a else a

pub clamp : ℤ → ℤ → ℤ → ℤ
clamp value min max = max_ℤ min (min_ℤ max value)

pub get_selection_box : Point → Point → Rect
get_selection_box start_point end_point = record {
  x = min_ℤ start_point.x end_point.x;
  y = min_ℤ start_point.y end_point.y;
  width = abs (end_point.x -ℤ start_point.x);
  height = abs (end_point.y -ℤ start_point.y);
}
