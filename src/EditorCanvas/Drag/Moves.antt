-- ===== src/EditorCanvas/Drag/Moves.antt =====
-- components/editor_canvas/hooks/use_multi_node_drag.js: the moves that the release of the pointer
-- records. They lead from the places of the start to those of the end, and back.
use open_workflow_studio.Prelude.{
  ◌≡◌, refl, ◌∙◌, ap, Bool, true, false, Option, none, some, List, [], ◌∷◌, arith, Bool-cases,
  Option-cases, inl, inr, if◌then◌else◌,
}
use open_workflow_studio.Text.{Text, ◌==◌, ==_iff, mem}
use open_workflow_studio.Assoc
use open_workflow_studio.Assoc.{Assoc, IsUnique}
use open_workflow_studio.Node.{Position}
use open_workflow_studio.Adapter.{Adapter}
use open_workflow_studio.Adapter.Calls.Good.{IsGood}
use open_workflow_studio.Adapter.Calls.Reach.{update_position-IsGood}
use open_workflow_studio.Commands.{NodeMove, move_back, move_forth}
use open_workflow_studio.Store.{same_position}
use open_workflow_studio.EditorCanvas.Drag.{or_position, moved_if, node_moves}
use open_workflow_studio.EditorCanvas.Drag.Relocate.{Places, nowhere, only, or_else, later}
use open_workflow_studio.EditorCanvas.Drag.Moved.{
  IsMoved, IsMoved-stay, IsMoved-later, update_position-IsMoved,
}

-- The places that a list of moves leads to, of the side that is asked for.
pub ends_of : (NodeMove → Position) → List NodeMove → Places
ends_of side [] = nowhere
ends_of side (m ∷ ms) = later (ends_of side ms) (only m.node_id (side m))

pub move_forth-IsMoved :
    (ms : List NodeMove) (a : Adapter)
    → IsGood a
    → IsMoved (ends_of (λ m. m.new_position) ms) a (move_forth ms a)
unfolding ends_of
move_forth-IsMoved [] a g = IsMoved-stay a g
move_forth-IsMoved (m ∷ ms) a g =
    IsMoved-later (only m.node_id m.new_position) _ a _ _
      (update_position-IsMoved m.node_id m.new_position a g)
      (move_forth-IsMoved ms _ (update_position-IsGood m.node_id m.new_position a g))

pub move_back-IsMoved :
    (ms : List NodeMove) (a : Adapter)
    → IsGood a
    → IsMoved (ends_of (λ m. m.old_position) ms) a (move_back ms a)
unfolding ends_of
move_back-IsMoved [] a g = IsMoved-stay a g
move_back-IsMoved (m ∷ ms) a g =
    IsMoved-later (only m.node_id m.old_position) _ a _ _
      (update_position-IsMoved m.node_id m.old_position a g)
      (move_back-IsMoved ms _ (update_position-IsGood m.node_id m.old_position a g))

-- The move of one node.
abbrev pub move_of : Text → Position → Position → NodeMove
move_of k p q = record { node_id = k; old_position = p; new_position = q }

-- Where the move of a node from `p` to `q` leads, if it is one.
abbrev pub end_of : (NodeMove → Position) → Text → Position → Position → Option Position
end_of side k p q = if same_position p q then none else some (side (move_of k p q))

ends_of-moved_if :
    (side : NodeMove → Position) (j k : Text) (p q : Position) (ms : List NodeMove)
    → ends_of side (moved_if k p q ms) j
      ≡ or_else (ends_of side ms j) (if j == k then end_of side k p q else none)
unfolding ends_of
ends_of-moved_if side j k p q ms = ground arith

-- What is recorded of a node: its move from the initial to the last position, if it has one.
abbrev pub recorded :
    (NodeMove → Position) → Assoc Position → Assoc Position → Text → Option Position
recorded side initial last k = elim (Assoc.get k initial) [
  | none ↦ none
  | some p ↦ end_of side k p (or_position (Assoc.get k last) p)
]

ends_of-node_moves_cons :
    (side : NodeMove → Position) (initial last : Assoc Position) (j k : Text) (ks : List Text)
    → ends_of side (node_moves initial last (j ∷ ks)) k
      ≡ or_else
          (ends_of side (node_moves initial last ks) k)
          (if k == j then recorded side initial last j else none)
ends_of-node_moves_cons side initial last j k ks = elim (Option-cases (Assoc.get j initial)) [
  | inl e ↦ rw (e, node_moves, recorded) (or_none _ (k == j))
  | inr (p, e) ↦
      rw (e, node_moves, recorded) (ends_of-moved_if side k j p _ (node_moves initial last ks))
]
  where
    or_none : (o : Option Position) (c : Bool) → o ≡ or_else o (if c then none else none)
    or_none none true = refl
    or_none none false = refl
    or_none (some p) c = refl

pub ends_of-node_moves :
    (side : NodeMove → Position) (initial last : Assoc Position) (ks : List Text) (k : Text)
    → ends_of side (node_moves initial last ks) k
      ≡ (if mem k ks then recorded side initial last k else none)
unfolding ends_of mem
ends_of-node_moves side initial last [] k = refl
ends_of-node_moves side initial last (j ∷ ks) k =
    ends_of-node_moves_cons side initial last j k ks
    ∙ rw (ends_of-node_moves side initial last ks k) (elim (Bool-cases (k == j)) [
      | inl same ↦
          let key : k ≡ j = ground (arith, ==_iff k j) in
          rw (same, ap (recorded side initial last) key) (or_same _ (mem k ks))
      | inr other ↦ rw other (or_nothing _)
    ])
  where
    or_same : (o : Option Position) (c : Bool) → or_else (if c then o else none) o ≡ o
    or_same none true = refl
    or_same none false = refl
    or_same (some p) true = refl
    or_same (some p) false = refl

    or_nothing : (o : Option Position) → or_else o none ≡ o
    or_nothing none = refl
    or_nothing (some p) = refl
