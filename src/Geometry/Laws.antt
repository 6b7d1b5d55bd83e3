-- ===== src/Geometry/Laws.antt =====
-- The box that is dragged between two corners, whatever the direction, and when boxes meet.
use open_workflow_studio.Prelude.{◌≡◌, Bool, true, false, not, ◌&&◌, ◌||◌, arith, refl}
use open_workflow_studio.Prelude.Int.{ℤ, pos, ◌+ℤ◌, ◌-ℤ◌, ◌≤ℤ◌, ltb_ℤ, leb_ℤ}
use open_workflow_studio.Geometry.{
  Point, Rect, point_in_rect, rects_intersect, min_ℤ, max_ℤ, abs, clamp, get_selection_box,
}

-- The point lies in the interval from `a` of the length `w`.
span_start : (a b : ℤ) → leb_ℤ (min_ℤ a b) a ≡ true
span_start a b = ground arith

span_start_end : (a b : ℤ) → leb_ℤ a (min_ℤ a b +ℤ abs (b -ℤ a)) ≡ true
unfolding ◌+ℤ◌ ◌-ℤ◌
span_start_end a b = ground arith

span_end : (a b : ℤ) → leb_ℤ (min_ℤ a b) b ≡ true
span_end a b = ground arith

span_end_end : (a b : ℤ) → leb_ℤ b (min_ℤ a b +ℤ abs (b -ℤ a)) ≡ true
unfolding ◌+ℤ◌ ◌-ℤ◌
span_end_end a b = ground arith

-- The selection box contains both of the points that it was dragged between, in any direction.
pub get_selection_box_corners :
    (p q : Point)
    → (point_in_rect p (get_selection_box p q) ≡ true)
      × (point_in_rect q (get_selection_box p q) ≡ true)
unfolding point_in_rect get_selection_box
get_selection_box_corners p q = (
  rw (span_start p.x q.x, span_start_end p.x q.x, span_start p.y q.y, span_start_end p.y q.y) refl,
  rw (span_end p.x q.x, span_end_end p.x q.x, span_end p.y q.y, span_end_end p.y q.y) refl,
)

-- When the lower bound is at most the upper one, a clamped value lies between them, and a value
-- that lies between them is left as it is.
pub clamp_lem :
    (v lo hi : ℤ)
    → lo ≤ℤ hi
    → (lo ≤ℤ clamp v lo hi) × (clamp v lo hi ≤ℤ hi) × (lo ≤ℤ v → v ≤ℤ hi → clamp v lo hi ≡ v)
unfolding clamp
clamp_lem v lo hi h = ground arith

-- Two intervals meet when neither ends before the other starts: at the later of their starts.
meet :
    (a w b v : ℤ)
    → pos 0 ≤ℤ w
    → pos 0 ≤ℤ v
    → ltb_ℤ (a +ℤ w) b ≡ false
    → ltb_ℤ (b +ℤ v) a ≡ false
    → (leb_ℤ a (max_ℤ a b) ≡ true)
      × (leb_ℤ (max_ℤ a b) (a +ℤ w) ≡ true)
      × (leb_ℤ b (max_ℤ a b) ≡ true)
      × (leb_ℤ (max_ℤ a b) (b +ℤ v) ≡ true)
unfolding ◌+ℤ◌
meet a w b v hw hv h g = ground arith

apart_right : (a w b c : ℤ) → leb_ℤ c (a +ℤ w) ≡ true → leb_ℤ b c ≡ true → ltb_ℤ (a +ℤ w) b ≡ false
unfolding ◌+ℤ◌
apart_right a w b c h g = ground arith

common : Rect → Rect → Point
common r s = record { x = max_ℤ r.x s.x; y = max_ℤ r.y s.y }

four :
    (a b c d : Bool)
    → not (a || b || c || d) ≡ true
    → (a ≡ false) × (b ≡ false) × (c ≡ false) × (d ≡ false)
four a b c d h = ground arith

four_true :
    (a b c d : Bool) → (a && b && c && d) ≡ true → (a ≡ true) × (b ≡ true) × (c ≡ true) × (d ≡ true)
four_true a b c d h = ground arith

-- Rectangles of a width and a height that are not negative intersect, as the program tests it,
-- just when some point is in both, as the program tests that.
pub rects_intersect_iff_common_point :
    (r s : Rect)
    → pos 0 ≤ℤ r.width
    → pos 0 ≤ℤ r.height
    → pos 0 ≤ℤ s.width
    → pos 0 ≤ℤ s.height
    → ((rects_intersect r s ≡ true)
        → (p : Point) × (point_in_rect p r ≡ true) × (point_in_rect p s ≡ true))
      × ((p : Point)
          → point_in_rect p r ≡ true
          → point_in_rect p s ≡ true
          → rects_intersect r s ≡ true)
unfolding rects_intersect point_in_rect common
rects_intersect_iff_common_point r s rw0 rh0 sw0 sh0 = (
  λ h.
      let (a, b, c, d) = four _ _ _ _ h in
      let (x1, x2, x3, x4) = meet r.x r.width s.x s.width rw0 sw0 a b in
      let (y1, y2, y3, y4) = meet r.y r.height s.y s.height rh0 sh0 c d in
      (common r s, rw (x1, x2, y1, y2) refl, rw (x3, x4, y3, y4) refl),
  λ p h g.
      let (x1, x2, y1, y2) = four_true _ _ _ _ h in
      let (x3, x4, y3, y4) = four_true _ _ _ _ g in
      rw
        (
          apart_right r.x r.width s.x p.x x2 x3,
          apart_right s.x s.width r.x p.x x4 x1,
          apart_right r.y r.height s.y p.y y2 y3,
          apart_right s.y s.height r.y p.y y4 y1,
        )
        refl,
)
