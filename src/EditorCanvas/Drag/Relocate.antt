-- ===== src/EditorCanvas/Drag/Relocate.antt =====
-- components/editor_canvas/hooks/use_multi_node_drag.js: nodes that are put at other places, for the
-- proofs on dragging.
use open_workflow_studio.Prelude.{
  ◌≡◌, refl, true, false, Option, none, some, [], ◌∷◌, if◌then◌else◌, arith, Bool-cases, inl, inr,
}
use open_workflow_studio.Text.{Text, ◌==◌, ==_iff, ==_refl}
use open_workflow_studio.Assoc
use open_workflow_studio.Assoc.{Assoc, IsUnique}
use open_workflow_studio.Node.{BaseNode, Position}

-- Where nodes are put, and the later of two such.
abbrev pub Places : Type 0
Places = Text → Option Position

abbrev pub nowhere : Places
nowhere _ = none

abbrev pub only : Text → Position → Places
only k p j = if j == k then some p else none

abbrev pub or_else : Option Position → Option Position → Option Position
or_else none q = q
or_else (some p) q = some p

abbrev pub later : Places → Places → Places
later g f k = or_else (g k) (f k)

abbrev pub place : Option Position → BaseNode → BaseNode
place none n = n
place (some p) n = record n { position = p }

pub relocate : Places → Assoc BaseNode → Assoc BaseNode
relocate f [] = []
relocate f ((k, n) ∷ m) = (k, place (f k) n) ∷ relocate f m

place-place : (p q : Option Position) (n : BaseNode) → place p (place q n) ≡ place (or_else p q) n
place-place none q n = refl
place-place (some p) none n = refl
place-place (some p) (some q) n = refl

pub relocate-relocate :
    (g f : Places) (m : Assoc BaseNode) → relocate g (relocate f m) ≡ relocate (later g f) m
unfolding relocate
relocate-relocate g f [] = refl
relocate-relocate g f ((k, n) ∷ m) = rw (relocate-relocate g f m, place-place (g k) (f k) n) refl

-- Two ways to put the nodes that put each node at one place.
abbrev pub Alike : Places → Places → Assoc BaseNode → Type 0
Alike f g m = (k : Text) (n : BaseNode) → Assoc.get k m ≡ some n → place (f k) n ≡ place (g k) n

pub relocate_alike :
    (f g : Places) (m : Assoc BaseNode) → IsUnique m → Alike f g m → relocate f m ≡ relocate g m
unfolding relocate Assoc.get
relocate_alike f g [] u h = refl
relocate_alike f g ((k, n) ∷ m) u h =
    rw (h k n (rw (==_refl k) refl), relocate_alike f g m u.1 (λ j o e. h j o (rw (apart j o e) e)))
      refl
  where
    apart : (j : Text) (o : BaseNode) → Assoc.get j m ≡ some o → (j == k) ≡ false
    apart j o e = elim (Bool-cases (j == k)) [
      | inl same ↦ absurd (ground (arith, ==_iff j k))
      | inr other ↦ other
    ]

pub relocate-nowhere : (m : Assoc BaseNode) → relocate nowhere m ≡ m
unfolding relocate
relocate-nowhere [] = refl
relocate-nowhere ((k, n) ∷ m) = rw (relocate-nowhere m) refl

relocate-only_new :
    (k : Text) (p : Position) (m : Assoc BaseNode)
    → Assoc.has k m ≡ false
    → relocate (only k p) m ≡ m
unfolding relocate Assoc.get
relocate-only_new k p [] h = refl
relocate-only_new k p ((j, n) ∷ m) h =
    ground (arith, relocate-only_new k p m, ==_iff k j, ==_iff j k)

pub set-relocate :
    (k : Text) (p : Position) (n : BaseNode) (m : Assoc BaseNode)
    → IsUnique m
    → Assoc.get k m ≡ some n
    → Assoc.set k (record n { position = p }) m ≡ relocate (only k p) m
unfolding relocate Assoc.get Assoc.set
set-relocate k p n [] u e = cc
set-relocate k p n ((j, o) ∷ m) u e = elim (Bool-cases (k == j)) [
  | inl same ↦
      let found : o ≡ n = ground arith in
      let flip : (j == k) ≡ true = ground (arith, ==_iff k j, ==_refl j) in
      let new : Assoc.has k m ≡ false = ground (arith, ==_iff k j) in
      rw (same, flip, relocate-only_new k p m new, found) refl
  | inr other ↦
      let flip : (j == k) ≡ false = ground (arith, ==_iff k j, ==_iff j k) in
      let rest : Assoc.get k m ≡ some n = rw other at e in
      rw (other, flip, set-relocate k p n m u.1 rest) refl
]
