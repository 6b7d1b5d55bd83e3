-- ===== src/GraphUtils/BackEdges/Scope.antt =====
-- The nodes that the search has not visited: what bounds the depth of its recursion.
use open_workflow_studio.Prelude.{
  ℕ, ◌≤◌, ◌<◌, ◌≡◌, true, false, not, List, [], ◌∷◌, arith, length, filter, length-filter,
}
use open_workflow_studio.Text.{Text, mem, ==_iff}

abbrev pub unvisited : List Text → List Text → ℕ
unvisited ids seen = length (filter (λ x. not (mem x seen)) ids)

pub unvisited-monotone :
    (ids seen later : List Text)
    → ((x : Text) → mem x seen ≡ true → mem x later ≡ true)
    → unvisited ids later ≤ unvisited ids seen
unvisited-monotone [] seen later f = omega arith
unvisited-monotone (x ∷ ids) seen later f = ground (arith, unvisited-monotone ids seen later f, f x)

-- Visiting a node of the graph leaves fewer.
pub unvisited-lt :
    (ids seen later : List Text) (n : Text)
    → ((x : Text) → mem x seen ≡ true → mem x later ≡ true)
    → mem n ids ≡ true
    → mem n seen ≡ false
    → mem n later ≡ true
    → unvisited ids later < unvisited ids seen
unfolding mem
unvisited-lt [] seen later n f i s l = cc
unvisited-lt (x ∷ ids) seen later n f i s l =
    ground
      (arith, unvisited-lt ids seen later n f, unvisited-monotone ids seen later f, f x, ==_iff n x)

pub unvisited-le : (ids seen : List Text) → unvisited ids seen ≤ length ids
unvisited-le ids seen = length-filter (λ x. not (mem x seen)) ids
