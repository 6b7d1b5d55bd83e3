-- ===== src/Adapter/Move.antt =====
-- A move changes the coordinates that the interface shows in place, without a refresh: the result
-- is what a refresh would have given.
use open_workflow_studio.Prelude.{
  ◌≡◌, refl, false, some, List, [], ◌∷◌, map, ◌∙◌, sym, arith, ap, Bool-cases, inl, inr,
}
use open_workflow_studio.Text.{Text, ◌==◌, ==_iff, ==_refl}
use open_workflow_studio.Assoc
use open_workflow_studio.Assoc.{Assoc, IsUnique}
use open_workflow_studio.Control.{Control}
use open_workflow_studio.Node.{BaseNode, Position}
use open_workflow_studio.Adapter.{UiNode, node_for_ui, move_ui_node}

-- Each node stands under its own id.
abbrev pub IsKeyed : Assoc BaseNode → Type 0
IsKeyed m = (k : Text) (n : BaseNode) → Assoc.get k m ≡ some n → n.id ≡ some k

pub IsKeyed-tail :
    (j : Text) (n : BaseNode) (m : Assoc BaseNode)
    → IsUnique ((j, n) ∷ m)
    → IsKeyed ((j, n) ∷ m)
    → IsKeyed m
unfolding Assoc.get
IsKeyed-tail j n m u h k o e = ground (arith, h k o, ==_iff k j)

moved_here :
    (k : Text) (p : Position) (u : UiNode) (us : List UiNode)
    → u.id ≡ some k
    → move_ui_node k p (u ∷ us) ≡ record u { x = p.x; y = p.y } ∷ us
unfolding move_ui_node
moved_here k p u us e = ground (arith, ==_refl k)

moved_later :
    (k j : Text) (p : Position) (u : UiNode) (us : List UiNode)
    → u.id ≡ some j
    → (j == k) ≡ false
    → move_ui_node k p (u ∷ us) ≡ u ∷ move_ui_node k p us
unfolding move_ui_node
moved_later k j p u us e h = ground arith

-- When the ids of the nodes do not repeat and each node stands under its own, changing the
-- coordinates in the shown list gives what a refresh after the move of the node would show.
pub move_ui_node-set :
    (k : Text) (p : Position) (n : BaseNode) (m : Assoc BaseNode)
    → IsUnique m
    → IsKeyed m
    → Assoc.get k m ≡ some n
    → move_ui_node k p (map node_for_ui (Assoc.values m))
      ≡ map node_for_ui (Assoc.values (Assoc.set k (record n { position = p }) m))
unfolding Assoc.get Assoc.set node_for_ui
move_ui_node-set k p n [] u h e = cc
move_ui_node-set k p n ((j, o) ∷ m) u h e = elim (Bool-cases (k == j)) [
  | inl same ↦
      let key : o.id ≡ some k = h k o (rw same refl) in
      let found : o ≡ n = ground arith in
      moved_here k p (node_for_ui o) _ key ∙ rw (found, same) refl
  | inr other ↦
      let key : o.id ≡ some j = h j o (rw (==_refl j) refl) in
      let rest : Assoc.get k m ≡ some n = rw other at e in
      moved_later k j p (node_for_ui o) _ key (ground (arith, ==_iff k j, ==_iff j k))
      ∙ rw other
          (ap (node_for_ui o ∷◌) (move_ui_node-set k p n m u.1 (IsKeyed-tail j o m u h) rest))
]

-- A change that the interface does not show.
pub unseen-set :
    (k : Text) (n o : BaseNode) (m : Assoc BaseNode)
    → Assoc.get k m ≡ some o
    → node_for_ui n ≡ node_for_ui o
    → map node_for_ui (Assoc.values m) ≡ map node_for_ui (Assoc.values (Assoc.set k n m))
unfolding Assoc.get Assoc.set
unseen-set k n o [] e s = cc
unseen-set k n o ((j, q) ∷ m) e s = elim (Bool-cases (k == j)) [
  | inl same ↦
      let found : q ≡ o = ground arith in
      rw same (ap (λ u. u ∷ map node_for_ui (Assoc.values m)) (ap node_for_ui found ∙ sym s))
  | inr other ↦ rw other (ap (node_for_ui q ∷◌) (unseen-set k n o m (rw other at e) s))
]

pub node_for_ui-controls :
    (n : BaseNode) (cs : Assoc Control) → node_for_ui (record n { controls = cs }) ≡ node_for_ui n
unfolding node_for_ui
node_for_ui-controls n cs = refl
