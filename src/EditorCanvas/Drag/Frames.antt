-- ===== src/EditorCanvas/Drag/Frames.antt =====
-- components/editor_canvas/hooks/use_multi_node_drag.js: where the nodes are during a drag. Whatever
-- happens, they are at the last positions, and only nodes with an initial one have a last one.
use open_workflow_studio.Prelude.{
  if-both, option-both, ◌≡◌, refl, ◌∙◌, sym, ap, Bool, true, false, Option, none, some, List, [],
  ◌∷◌, arith, Option-cases, inl, inr,
}
use open_workflow_studio.Text.{Text, ==_iff}
use open_workflow_studio.Assoc
use open_workflow_studio.Assoc.{Assoc, IsUnique}
use open_workflow_studio.Assoc.Laws.{get-set, set-IsUnique}
use open_workflow_studio.Node.{BaseNode, Position}
use open_workflow_studio.Adapter.Calls.Good.{IsGood}
use open_workflow_studio.Store.{Store, move_nodes_transient}
use open_workflow_studio.Real.{Real}
use open_workflow_studio.EditorCanvas.AutoScroll.{Point, Sides, is_still, get_auto_scroll_delta}
use open_workflow_studio.EditorCanvas.Drag.{
  Drag, DragEvent, pointer_moved, frame, scroll_frame, snap_all, snapped_position, apply_drag,
  auto_scroll_step, handle_mouse_move, run_drag_frame, run_scroll_frame, happen, happen_all,
  scroll_by,
}
use open_workflow_studio.EditorCanvas.Drag.Relocate.{Places, or_else, later, Alike, place}
use open_workflow_studio.EditorCanvas.Drag.Moved.{IsMoved-alike}
use open_workflow_studio.EditorCanvas.Drag.Transient.{
  Carries, Carries-later, places_of, places_of-get, move_nodes_transient-Carries,
}

-- What the loop of a frame has gathered, when the nodes were at `f` before it.
record Snapped (initial : Assoc Position) (f : Places) (updates last : Assoc Position)
    : Type 0 where
  unique : IsUnique updates
  latest : (k : Text) → Assoc.get k last ≡ or_else (Assoc.get k updates) (f k)
  same_keys : (k : Text) → Assoc.has k last ≡ Assoc.has k initial

set-Snapped :
    (k : Text) (o p : Position) (initial : Assoc Position) (f : Places)
    (updates last : Assoc Position)
    → Assoc.get k initial ≡ some o
    → Snapped initial f updates last
    → Snapped initial f (Assoc.set k p updates) (Assoc.set k p last)
set-Snapped k o p initial f updates last e s = record {
  unique = set-IsUnique k p updates s.unique;
  latest = λ j. ground (arith, get-set j k p updates, get-set j k p last, s.latest j);
  same_keys = λ j. ground (arith, get-set j k p last, s.same_keys j, ==_iff j k);
}

snap_all-Snapped :
    (to : Position → Position) (initial : Assoc Position) (f : Places) (ks : List Text)
    (updates last : Assoc Position)
    → Snapped initial f updates last
    → (let r = snap_all to initial ks updates last in Snapped initial f r.0 r.1)
unfolding snap_all
snap_all-Snapped to initial f [] updates last s = s
snap_all-Snapped to initial f (k ∷ ks) updates last s = elim (Option-cases (Assoc.get k initial)) [
  | inl e ↦ rw (e, snap_all) (snap_all-Snapped to initial f ks updates last s)
  | inr (p, e) ↦
      rw (e, snap_all)
        (snap_all-Snapped to initial f ks _ _ (set-Snapped k p (to p) initial f updates last e s))
]

Alike-places : (f g : Places) (m : Assoc BaseNode) → ((k : Text) → f k ≡ g k) → Alike f g m
Alike-places f g m h k n e = ap (λ o. place o n) (h k)

module _ (real : Real) (st : Store) (initial : Assoc Position) (ids : List Text) where
  -- During a drag that began in the store `st`.
  pub record IsDragging (d : Drag real) : Type 0 where
    pub dragging : d.is_dragging ≡ true
    pub same_initial : d.initial_positions ≡ initial
    pub same_ids : d.node_ids ≡ ids
    pub carries : Carries (λ k. Assoc.get k d.last_positions) st d.store
    pub same_keys : (k : Text) → Assoc.has k d.last_positions ≡ Assoc.has k initial

  apply_drag-IsDragging :
      (client : Point real) (d : Drag real)
      → IsGood st.adapter
      → IsDragging d
      → IsDragging (apply_drag real client d)
  unfolding apply_drag Assoc.get
  apply_drag-IsDragging client d g h = record {
    dragging = h.dragging;
    same_initial = h.same_initial;
    same_ids = h.same_ids;
    carries = record {
      carried =
          IsMoved-alike _ _ st.adapter _ g (Alike-places _ _ st.adapter.editor.nodes there)
            carried.carried;
      same_history = carried.same_history;
    };
    same_keys = λ k. snapped.same_keys k ∙ ap (Assoc.has k) h.same_initial;
  }
    where
      r : Assoc Position × Assoc Position
      r =
          snap_all (snapped_position real d client) d.initial_positions d.node_ids []
            d.last_positions

      snapped : Snapped d.initial_positions (λ k. Assoc.get k d.last_positions) r.0 r.1
      snapped =
          snap_all-Snapped (snapped_position real d client) d.initial_positions _ d.node_ids []
            d.last_positions
            (record {
              unique = tt;
              latest = λ k. refl;
              same_keys = λ k. h.same_keys k ∙ sym (ap (Assoc.has k) h.same_initial);
            })

      carried :
          Carries
            (later (places_of r.0) (λ k. Assoc.get k d.last_positions))
            st
            (move_nodes_transient r.0 d.store)
      carried =
          Carries-later _ (places_of r.0) st d.store _ h.carries
            (move_nodes_transient-Carries r.0 d.store h.carries.carried.good)

      there :
          (k : Text) → later (places_of r.0) (λ k. Assoc.get k d.last_positions) k ≡ Assoc.get k r.1
      there k =
          ap (λ o. or_else o (Assoc.get k d.last_positions)) (places_of-get k r.0 snapped.unique)
          ∙ sym (snapped.latest k)

  -- The hook's other variables do not matter.
  other-IsDragging :
      (pan start : Point real) (drag_frame pointer : Option (Point real)) (scrolls : Bool)
      (d : Drag real)
      → IsDragging d
      → IsDragging (record d {
        pan = pan;
        start = start;
        drag_frame = drag_frame;
        auto_scroll_frame = scrolls;
        last_pointer = pointer;
      })
  other-IsDragging pan start drag_frame pointer scrolls d h = record {
    dragging = h.dragging;
    same_initial = h.same_initial;
    same_ids = h.same_ids;
    carries = h.carries;
    same_keys = h.same_keys;
  }

  run_drag_frame-IsDragging :
      (d : Drag real) → IsGood st.adapter → IsDragging d → IsDragging (run_drag_frame real d)
  unfolding run_drag_frame
  run_drag_frame-IsDragging d g h =
      let rested = other-IsDragging d.pan d.start none d.last_pointer d.auto_scroll_frame d h in
      option-both IsDragging d.drag_frame h (λ client.
        if-both IsDragging d.is_dragging (apply_drag-IsDragging client _ g rested) rested)

  scroll_by-IsDragging :
      (p by : Point real) (d : Drag real)
      → IsGood st.adapter
      → IsDragging d
      → IsDragging (scroll_by real p by d)
  scroll_by-IsDragging p by d g h = other-IsDragging _ _ _ _ true _ (
      apply_drag-IsDragging p _ g
        (other-IsDragging _ _ d.drag_frame d.last_pointer d.auto_scroll_frame d h))

  auto_scroll_step-IsDragging :
      (rect : Option (Sides real)) (d : Drag real)
      → IsGood st.adapter
      → IsDragging d
      → IsDragging (auto_scroll_step real rect d)
  auto_scroll_step-IsDragging rect d g h =
      let rested = other-IsDragging d.pan d.start d.drag_frame d.last_pointer false d h in
      if-both IsDragging d.is_dragging
        (option-both IsDragging d.last_pointer rested (λ p. option-both IsDragging rect rested (λ r.
          if-both IsDragging (is_still real (get_auto_scroll_delta real p r)) rested
            (scroll_by-IsDragging p (get_auto_scroll_delta real p r) _ g rested))))
        rested

  handle_mouse_move-IsDragging :
      (readonly : Bool) (client : Point real) (rect : Option (Sides real)) (d : Drag real)
      → IsDragging d
      → IsDragging (handle_mouse_move real readonly client rect d)
  unfolding handle_mouse_move
  handle_mouse_move-IsDragging readonly client rect d h =
      if-both IsDragging readonly h
        (if-both IsDragging d.is_dragging (other-IsDragging d.pan d.start _ _ _ d h) h)

  happen-IsDragging :
      (e : DragEvent real) (d : Drag real)
      → IsGood st.adapter
      → IsDragging d
      → IsDragging (happen real e d)
  unfolding run_scroll_frame
  happen-IsDragging (pointer_moved readonly client rect) d g h =
      handle_mouse_move-IsDragging readonly client rect d h
  happen-IsDragging frame d g h = run_drag_frame-IsDragging d g h
  happen-IsDragging (scroll_frame rect) d g h =
      if-both IsDragging d.auto_scroll_frame (auto_scroll_step-IsDragging rect d g h) h

  -- What holds at the start of the drag holds until the release.
  pub happen_all-IsDragging :
      (es : List (DragEvent real)) (d : Drag real)
      → IsGood st.adapter
      → IsDragging d
      → IsDragging (happen_all real es d)
  happen_all-IsDragging [] d g h = h
  happen_all-IsDragging (e ∷ es) d g h =
      happen_all-IsDragging es (happen real e d) g (happen-IsDragging e d g h)
