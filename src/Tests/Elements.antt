-- ===== src/Tests/Elements.antt =====
-- Nodes with controls, ids, pairs and rectangles.
use open_workflow_studio.Prelude.{◌≡◌, refl, none, some, List, [], ◌∷◌, true, arith, ℕ}
use open_workflow_studio.Prelude.Int.{pos}
use open_workflow_studio.Text.{codes, ◌==◌}
use open_workflow_studio.Assoc
use open_workflow_studio.Assoc.{Assoc}
use open_workflow_studio.Value.{Value, str, num}
use open_workflow_studio.Control.Pairs.{StoredPair, adds, removes, sets, call_all, new_key_value}
use open_workflow_studio.Control.Pairs.Numbered.{IsNumbered, new_key_value-IsNumbered}
use open_workflow_studio.Node.{BaseNode, get_config, set_config}
use open_workflow_studio.Node.Config.{written, get_config-set_config}
use open_workflow_studio.Geometry.{Point, Rect, rects_intersect, point_in_rect}
use open_workflow_studio.Geometry.Laws.{rects_intersect_iff_common_point}

abbrev request : BaseNode
request = record {
  id = some (codes "n_1");
  type = codes "http";
  label = codes "HTTP";
  icon = [];
  category = codes "data";
  position = record { x = pos 0; y = pos 0 };
  inputs = [];
  outputs = [];
  controls =
      (
        codes "url",
        record { key = codes "url"; type = codes "text"; label = codes "URL"; value = str [] },
      )
      ∷ [];
  meta = [];
}

abbrev config : Assoc Value
config = (codes "url", str (codes "/a")) ∷ (codes "other", num (pos 3)) ∷ []

get_config-set_config_example :
    Assoc.get (codes "url") (get_config (set_config config request))
    ≡ written (Assoc.get (codes "url") config) (Assoc.get (codes "url") (get_config request))
unfolding Assoc.get ◌==◌
get_config-set_config_example =
    get_config-set_config (codes "url") config request (refl, tt) (refl, (refl, tt))

abbrev stored : List StoredPair
stored =
    record { id = some 4; key = some (codes "Accept"); value = none }
    ∷ record { id = none; key = none; value = none }
    ∷ []

new_key_value-IsNumbered_example : IsNumbered (
    call_all
      (adds ∷ removes 0 ∷ sets 1 (codes "k") [] ∷ [])
      (new_key_value (codes "headers") none none none (some stored)))
new_key_value-IsNumbered_example =
    new_key_value-IsNumbered (codes "headers") none none none stored
      (adds ∷ removes 0 ∷ sets 1 (codes "k") [] ∷ [])
      (λ _. (λ e. omega (arith, e), tt), (λ n. absurd (n refl), tt))

abbrev square : ℕ → Rect
square n = record { x = pos n; y = pos n; width = pos 10; height = pos 10 }

rects_intersect_iff_common_point_example :
    ((rects_intersect (square 0) (square 5) ≡ true)
      → (p : Point) × (point_in_rect p (square 0) ≡ true) × (point_in_rect p (square 5) ≡ true))
    × ((p : Point)
        → point_in_rect p (square 0) ≡ true
        → point_in_rect p (square 5) ≡ true
        → rects_intersect (square 0) (square 5) ≡ true)
rects_intersect_iff_common_point_example =
    rects_intersect_iff_common_point (square 0) (square 5) (omega arith) (omega arith) (omega arith)
      (omega arith)
