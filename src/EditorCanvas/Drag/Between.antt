-- ===== src/EditorCanvas/Drag/Between.antt =====
-- components/editor_canvas/hooks/use_multi_node_drag.js: what is recorded at the end of a drag leads
-- from the adapter of the start to that of the end, and back.
use open_workflow_studio.Prelude.{
  ◌≡◌, ◌⊎◌, refl, ◌∙◌, sym, ap, Bool, true, false, Option, none, some, List, [], ◌∷◌, arith,
  Bool-cases, Option-cases, inl, inr, if◌then◌else◌,
}
use open_workflow_studio.Text.{Text, ◌==◌, ==_iff, mem}
use open_workflow_studio.Assoc
use open_workflow_studio.Assoc.{Assoc}
use open_workflow_studio.Assoc.Laws.{get-set}
use open_workflow_studio.Node.{BaseNode, Position}
use open_workflow_studio.Adapter.{Adapter, UiNode}
use open_workflow_studio.Adapter.Calls.Good.{IsGood}
use open_workflow_studio.History.{returns}
use open_workflow_studio.History.Chain.{Between}
use open_workflow_studio.Commands.{NodeMove, create_move_nodes_action}
use open_workflow_studio.Store.{Store, get_node, ui_position, same_position}
use open_workflow_studio.EditorCanvas.Drag.{capture, node_moves}
use open_workflow_studio.EditorCanvas.Drag.Relocate.{later, place, Alike}
use open_workflow_studio.EditorCanvas.Drag.Moved.{
  IsMoved, IsMoved-stay, IsMoved-later, IsMoved-alike, IsMoved-determined, is_there_lem,
}
use open_workflow_studio.EditorCanvas.Drag.Transient.{position-get_node}
use open_workflow_studio.EditorCanvas.Drag.Moves.{
  ends_of, end_of, move_of, recorded, ends_of-node_moves, move_forth-IsMoved, move_back-IsMoved,
}

-- The positions that are captured are those of nodes that are shown and are to be moved.
abbrev pub IsCaptured : Store → (Text → Type 0) → Assoc Position → Type 0
IsCaptured st T m =
    (k : Text) (p : Position)
    → Assoc.get k m ≡ some p
    → T k × (u : UiNode) × (get_node k st ≡ some u) × (ui_position u ≡ p)

pub capture-IsCaptured :
    (T : Text → Type 0) (st : Store) (ks : List Text) (m : Assoc Position)
    → ((k : Text) → mem k ks ≡ true → T k)
    → IsCaptured st T m
    → IsCaptured st T (capture st ks m)
unfolding mem
capture-IsCaptured T st [] m h c = c
capture-IsCaptured T st (k ∷ ks) m h c = elim (Option-cases (get_node k st)) [
  | inl e ↦ rw (e, capture) (capture-IsCaptured T st ks m (λ j f. h j (ground arith)) c)
  | inr (u, e) ↦
      rw (e, capture)
        (capture-IsCaptured T st ks _ (λ j f. h j (ground arith))
          (λ j p f. elim (Bool-cases (j == k)) [
            | inl same ↦
                let key : k ≡ j = ground (arith, ==_iff j k) in
                let here : ui_position u ≡ p = ground (arith, get-set j k (ui_position u) m) in
                (h j (rw same refl), u, ap (λ i. get_node i st) (sym key) ∙ e, here)
            | inr other ↦ c j p (ground (arith, get-set j k (ui_position u) m))
          ]))
]

pub place_own : (p : Position) (n : BaseNode) → n.position ≡ p → place (some p) n ≡ n
place_own p n e = ap (λ q. record n { position = q }) (sym e)

module _ (st : Store) (initial last : Assoc Position) (ids : List Text) where
  -- A node that was dragged, from where it was; the others have no last position.
  record IsDragged (k : Text) (n : BaseNode) : Type 0 where
    from : Position
    to : Position
    at_last : Assoc.get k last ≡ some to
    at_start : n.position ≡ from
    ends :
        (side : NodeMove → Position)
        → ends_of side (node_moves initial last ids) k ≡ end_of side k from to

  record IsStill (k : Text) : Type 0 where
    no_last : Assoc.get k last ≡ none
    no_end : (side : NodeMove → Position) → ends_of side (node_moves initial last ids) k ≡ none

  ends_same :
      (k : Text) (n : BaseNode) (d : IsDragged k n) (side : NodeMove → Position)
      → same_position d.from d.to ≡ true
      → ends_of side (node_moves initial last ids) k ≡ none
  ends_same k n d side same = d.ends side ∙ rw same refl

  ends_away :
      (k : Text) (n : BaseNode) (d : IsDragged k n) (side : NodeMove → Position)
      → same_position d.from d.to ≡ false
      → ends_of side (node_moves initial last ids) k ≡ some (side (move_of k d.from d.to))
  ends_away k n d side away = d.ends side ∙ rw away refl

  module _ (good : IsGood st.adapter) (captured : IsCaptured st (λ k. mem k ids ≡ true) initial)
      (same_keys : (k : Text) → Assoc.has k last ≡ Assoc.has k initial) where
    last_cases :
        (k : Text) (n : BaseNode)
        → Assoc.get k st.adapter.editor.nodes ≡ some n
        → IsDragged k n ⊎ IsStill k
    last_cases k n e = elim (Option-cases (Assoc.get k initial)) [
      | inl f ↦ inr (record {
        no_last = ground (arith, same_keys k);
        no_end = λ side.
            ends_of-node_moves side initial last ids k
            ∙ rw (f, recorded) (either_way (mem k ids) none);
      })
      | inr (p, f) ↦
          let (listed, u, shown, at) = captured k p f in
          elim (Option-cases (Assoc.get k last)) [
            | inl l ↦ absurd (ground (arith, same_keys k))
            | inr (q, l) ↦ inl (record {
              from = p;
              to = q;
              at_last = l;
              at_start = position-get_node k n u st good shown e ∙ at;
              ends = λ side.
                  ends_of-node_moves side initial last ids k ∙ rw (listed, f, l, recorded) refl;
            })
          ]
    ]
      where
        either_way : (c : Bool) (o : Option Position) → (if c then o else o) ≡ o
        either_way true o = refl
        either_way false o = refl

    -- The moves lead to the last positions, from where the nodes were at the start.
    forth :
        Alike
          (ends_of (λ m. m.new_position) (node_moves initial last ids))
          (λ k. Assoc.get k last)
          st.adapter.editor.nodes
    forth k n e = elim (last_cases k n e) [
      | inl d ↦ elim (Bool-cases (same_position d.from d.to)) [
        | inl same ↦
            rw (ends_same k n d (λ m. m.new_position) same, d.at_last)
              (sym (place_own d.to n (d.at_start ∙ is_there_lem d.from d.to same)))
        | inr away ↦ rw (ends_away k n d (λ m. m.new_position) away, d.at_last) refl
      ]
      | inr s ↦ rw (s.no_end (λ m. m.new_position), s.no_last) refl
    ]

    back :
        Alike
          (later
            (ends_of (λ m. m.old_position) (node_moves initial last ids))
            (λ k. Assoc.get k last))
          (λ _. none)
          st.adapter.editor.nodes
    back k n e = elim (last_cases k n e) [
      | inl d ↦ elim (Bool-cases (same_position d.from d.to)) [
        | inl same ↦
            rw (ends_same k n d (λ m. m.old_position) same, d.at_last)
              (place_own d.to n (d.at_start ∙ is_there_lem d.from d.to same))
        | inr away ↦ rw (ends_away k n d (λ m. m.old_position) away) (place_own d.from n d.at_start)
      ]
      | inr s ↦ rw (s.no_end (λ m. m.old_position), s.no_last) refl
    ]

    -- The recorded moves lead from the adapter at the start to that at the end, and back.
    pub create_move_nodes_action-Between :
        (b : Adapter)
        → IsMoved (λ k. Assoc.get k last) st.adapter b
        → Between (create_move_nodes_action (node_moves initial last ids)) st.adapter b
    create_move_nodes_action-Between b h = record {
      forth = ap returns (
          IsMoved-determined _ st.adapter _ b
            (IsMoved-alike _ _ st.adapter _ good forth
              (move_forth-IsMoved (node_moves initial last ids) st.adapter good))
            h);
      back = ap returns (
          IsMoved-determined _ st.adapter _ st.adapter
            (IsMoved-alike _ _ st.adapter _ good back (
              IsMoved-later _ _ st.adapter b _ h
                (move_back-IsMoved (node_moves initial last ids) b h.good)))
            (IsMoved-stay st.adapter good));
    }
