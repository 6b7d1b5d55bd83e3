-- ===== src/Adapter/Inverse.antt =====
-- Calls of the adapter that take back others: the adapter is as it was, and the interface too.
use open_workflow_studio.Prelude.{
  ◌≡◌, refl, ◌∙◌, sym, ap, Bool, true, false, ◌&&◌, some, [], arith, Bool-cases, inl, inr,
}
use open_workflow_studio.Prelude.Int.{ℤ, eqb_ℤ}
use open_workflow_studio.Text.{Text, ==_refl}
use open_workflow_studio.Assoc
use open_workflow_studio.Assoc.{Assoc}
use open_workflow_studio.Assoc.Laws.{get-set, set-set, set_same}
use open_workflow_studio.Connection.{Connection, connect}
use open_workflow_studio.Node.{BaseNode, Position}
use open_workflow_studio.Editor
use open_workflow_studio.Editor.{
  Editor, has_connection, remove_first, sockets_fit, emit, put_node, node_move,
}
use open_workflow_studio.Editor.Events.{update_node_position_found}
use open_workflow_studio.Adapter
use open_workflow_studio.Adapter.{Adapter, state_of, absorb}
use open_workflow_studio.Adapter.Sync.{IsSynced, moved}
use open_workflow_studio.Adapter.Calls.Good.{
  IsGood, add_connection-IsGood, remove_connection-IsGood,
}
use open_workflow_studio.Adapter.Calls.Reach.{update_position-IsGood}
use open_workflow_studio.Editor.Inverse.{remove-added, add_connection-result}

-- What the interface shows is determined by the editor.
pub same_editor : (a b : Adapter) → IsSynced a → IsSynced b → a.editor ≡ b.editor → a ≡ b
same_editor a b g h e =
    ap (λ s. record { editor = a.editor; state = s }) g.shown
    ∙ ap (λ (ed : Editor). record { editor = ed; state = state_of ed.nodes ed.connections }) e
    ∙ ap (λ s. record { editor = b.editor; state = s }) (sym h.shown)

quieted : (ed : Editor) → ed.emitted ≡ [] → record ed { emitted = [] } ≡ ed
quieted ed q = ap (λ es. record ed { emitted = es }) (sym q)

pub remove_connection-add_connection :
    (s sh t th : Text) (c : Connection) (a : Adapter)
    → IsGood a
    → (Adapter.add_connection s sh t th a).1 ≡ some c
    → (c ≡ connect s sh t th)
      × ((Adapter.remove_connection c.id (Adapter.add_connection s sh t th a).0).0 ≡ a)
unfolding Adapter.add_connection Adapter.remove_connection absorb
remove_connection-add_connection s sh t th c a g e =
    let (same, new, added) = add_connection-result s sh t th a.editor c e in
    let b : Adapter = (Adapter.add_connection s sh t th a).0 in
    let good : IsGood b = add_connection-IsGood s sh t th a g in
    (
      same,
      rw same (
          same_editor _ a (remove_connection-IsGood (connect s sh t th).id b good).synced g.synced (
            ap
              (λ (ed : Editor). record (Editor.remove_connection (connect s sh t th).id ed).0 {
                emitted = [];
              })
              added
            ∙ remove-added (connect s sh t th) a.editor new
            ∙ quieted a.editor g.synced.quiet)),
    )

eqb_ℤ_sym : (a b : ℤ) → eqb_ℤ a b ≡ eqb_ℤ b a
eqb_ℤ_sym a b = ground arith

abbrev pub is_there : Position → Position → Bool
is_there p q = eqb_ℤ p.x q.x && eqb_ℤ p.y q.y

module _ (k : Text) (p : Position) (n : BaseNode) (a : Adapter) where
  pub update_position_stays :
      Assoc.get k a.editor.nodes ≡ some n
      → is_there n.position p ≡ true
      → (Adapter.update_position k p a).0 ≡ a
  unfolding Adapter.update_position
  update_position_stays e there = rw (e, Adapter.update_position) (rw there refl)

  pub update_position_goes :
      Assoc.get k a.editor.nodes ≡ some n
      → is_there n.position p ≡ false
      → (Adapter.update_position k p a).0 ≡ moved k p n a
  unfolding Adapter.update_position
  update_position_goes e away =
      rw (e, Adapter.update_position) (rw (away, update_node_position_found k p n a.editor e) refl)

is_there_refl : (p : Position) → is_there p p ≡ true
is_there_refl p = ground arith

is_there_sym : (p q : Position) → is_there p q ≡ is_there q p
is_there_sym p q = rw (eqb_ℤ_sym p.x q.x, eqb_ℤ_sym p.y q.y) refl

get-moved :
    (k : Text) (p : Position) (n : BaseNode) (a : Adapter)
    → Assoc.get k (moved k p n a).editor.nodes ≡ some (record n { position = p })
unfolding absorb emit
get-moved k p n a = get-set k k _ a.editor.nodes ∙ rw (==_refl k) refl

editor-moved_back :
    (k : Text) (p : Position) (n : BaseNode) (a : Adapter)
    → Assoc.get k a.editor.nodes ≡ some n
    → a.editor.emitted ≡ []
    → (moved k n.position (record n { position = p }) (moved k p n a)).editor ≡ a.editor
unfolding absorb emit
editor-moved_back k p n a e q =
    ap (λ ns. record a.editor { nodes = ns; emitted = [] })
      (set-set k n (record n { position = p }) a.editor.nodes ∙ set_same k n a.editor.nodes e)
    ∙ quieted a.editor q

-- A node that was moved, and is moved back.
pub update_position_back :
    (k : Text) (p : Position) (n : BaseNode) (a : Adapter)
    → IsGood a
    → Assoc.get k a.editor.nodes ≡ some n
    → (Adapter.update_position k n.position (Adapter.update_position k p a).0).0 ≡ a
update_position_back k p n a g e = elim (Bool-cases (is_there n.position p)) [
  | inl there ↦
      rw (update_position_stays k p n a e there)
        (update_position_stays k n.position n a e (is_there_refl n.position))
  | inr away ↦
      let first = update_position_goes k p n a e away in
      let n' : BaseNode = record n { position = p } in
      let second =
        update_position_goes k n.position n' (moved k p n a) (get-moved k p n a)
          (is_there_sym p n.position ∙ away) in
      same_editor _ a
        (update_position-IsGood k n.position _ (update_position-IsGood k p a g)).synced g.synced
        (ap (λ (b : Adapter). (Adapter.update_position k n.position b).0.editor) first
          ∙ ap (λ (b : Adapter). b.editor) second
          ∙ editor-moved_back k p n a e g.synced.quiet)
]
