-- ===== src/EditorCanvas/Drag/Moved.antt =====
-- components/editor_canvas/hooks/use_multi_node_drag.js: adapters that differ in the places of the
-- nodes alone, for the proofs on dragging.
use open_workflow_studio.Prelude.{
  ◌≡◌, refl, ◌∙◌, sym, ap, true, none, some, arith, Bool-cases, Option-cases, inl, inr,
}
use open_workflow_studio.Prelude.Int.{eqb_ℤ_iff}
use open_workflow_studio.Text.{Text, ◌==◌, ==_iff}
use open_workflow_studio.Assoc
use open_workflow_studio.Assoc.{Assoc, IsUnique}
use open_workflow_studio.Node.{BaseNode, Position}
use open_workflow_studio.Editor.{Editor, emit}
use open_workflow_studio.Adapter
use open_workflow_studio.Adapter.{Adapter, absorb}
use open_workflow_studio.Adapter.Inverse.{
  same_editor, is_there, update_position_stays, update_position_goes,
}
use open_workflow_studio.Adapter.Calls.Good.{IsGood}
use open_workflow_studio.Adapter.Calls.Reach.{update_position-IsGood}
use open_workflow_studio.EditorCanvas.Drag.Relocate.{
  Places, nowhere, only, later, relocate, relocate-relocate, Alike, relocate_alike,
  relocate-nowhere, set-relocate,
}

update_position_missing :
    (k : Text) (p : Position) (a : Adapter)
    → Assoc.get k a.editor.nodes ≡ none
    → (Adapter.update_position k p a).0 ≡ a
unfolding Adapter.update_position
update_position_missing k p a e = rw (e, Adapter.update_position) refl

-- The second adapter is the first with the nodes put at other places.
pub record IsMoved (f : Places) (a b : Adapter) : Type 0 where
  pub good : IsGood b
  pub placed : b.editor ≡ record a.editor { nodes = relocate f a.editor.nodes }

pub IsMoved-stay : (a : Adapter) → IsGood a → IsMoved nowhere a a
IsMoved-stay a g = record {
  good = g;
  placed = ap (λ ns. record a.editor { nodes = ns }) (sym (relocate-nowhere a.editor.nodes));
}

pub IsMoved-later :
    (f g : Places) (a b c : Adapter) → IsMoved f a b → IsMoved g b c → IsMoved (later g f) a c
IsMoved-later f g a b c h i = record {
  good = i.good;
  placed =
      i.placed
      ∙ ap (λ (ed : Editor). record ed { nodes = relocate g ed.nodes }) h.placed
      ∙ ap (λ ns. record a.editor { nodes = ns }) (relocate-relocate g f a.editor.nodes);
}

pub IsMoved-alike :
    (f g : Places) (a b : Adapter)
    → IsGood a
    → Alike f g a.editor.nodes
    → IsMoved f a b
    → IsMoved g a b
IsMoved-alike f g a b good h i = record {
  good = i.good;
  placed =
      i.placed
      ∙ ap (λ ns. record a.editor { nodes = ns })
          (relocate_alike f g a.editor.nodes good.valid.unique h);
}

-- The places determine the adapter, with what it shows.
pub IsMoved-determined : (f : Places) (a b c : Adapter) → IsMoved f a b → IsMoved f a c → b ≡ c
IsMoved-determined f a b c h i =
    same_editor b c h.good.synced i.good.synced (h.placed ∙ sym i.placed)

pub is_there_lem : (p q : Position) → is_there p q ≡ true → p ≡ q
is_there_lem p q e = ground (arith, eqb_ℤ_iff p.x q.x, eqb_ℤ_iff p.y q.y)

-- A node that is at the place already.
pub IsMoved-there :
    (k : Text) (p : Position) (a : Adapter)
    → IsGood a
    → ((n : BaseNode) → Assoc.get k a.editor.nodes ≡ some n → n.position ≡ p)
    → IsMoved (only k p) a a
IsMoved-there k p a g h = IsMoved-alike nowhere (only k p) a a g alike (IsMoved-stay a g)
  where
    alike : Alike nowhere (only k p) a.editor.nodes
    alike j n e = elim (Bool-cases (j == k)) [
      | inl same ↦
          let found : Assoc.get k a.editor.nodes ≡ some n = ground (arith, ==_iff j k) in
          rw same (ap (λ q. record n { position = q }) (h n found))
      | inr other ↦ rw other refl
    ]

pub update_position-IsMoved :
    (k : Text) (p : Position) (a : Adapter)
    → IsGood a
    → IsMoved (only k p) a (Adapter.update_position k p a).0
unfolding absorb emit
update_position-IsMoved k p a g = elim (Option-cases (Assoc.get k a.editor.nodes)) [
  | inl e ↦
      rw (update_position_missing k p a e) (IsMoved-there k p a g (λ n f. absurd (ground arith)))
  | inr (n, e) ↦ elim (Bool-cases (is_there n.position p)) [
    | inl there ↦
        rw (update_position_stays k p n a e there)
          (IsMoved-there k p a g (λ o f. is_there_lem o.position p (found n o e f there)))
    | inr away ↦ record {
      good = update_position-IsGood k p a g;
      placed =
          ap (λ (b : Adapter). b.editor) (update_position_goes k p n a e away)
          ∙ ap
              (λ es. record a.editor {
                nodes = Assoc.set k (record n { position = p }) a.editor.nodes;
                emitted = es;
              })
              (sym g.synced.quiet)
          ∙ ap (λ ns. record a.editor { nodes = ns })
              (set-relocate k p n a.editor.nodes g.valid.unique e);
    }
  ]
]
  where
    found :
        (n o : BaseNode)
        → Assoc.get k a.editor.nodes ≡ some n
        → Assoc.get k a.editor.nodes ≡ some o
        → is_there n.position p ≡ true
        → is_there o.position p ≡ true
    found n o e f there =
        let same : o ≡ n = ground arith in ap (λ (m : BaseNode). is_there m.position p) same ∙ there
