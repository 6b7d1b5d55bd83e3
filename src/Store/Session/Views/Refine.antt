-- ===== src/Store/Session/Views/Refine.antt =====
-- store/workflow_store.js: the modes that previews and views promise, with the graph that is the
-- editor's own and the snapshot that is shown instead of it.
use open_workflow_studio.Prelude.{
  ℕ, ◌≡◌, refl, ◌∙◌, sym, ap, subst, Bool, true, false, Option, some,
}
use open_workflow_studio.Editor.Load.{WorkflowData}
use open_workflow_studio.Adapter
use open_workflow_studio.Adapter.{Adapter, Loading, loaded_all, threw_error}
use open_workflow_studio.Adapter.Reload.{
  Graph, Shows, IsWhole, saved_graph, adapter_of, registry-from_json_adapter, from_json-saved_graph,
}
use open_workflow_studio.Store.Session.{Session, Kept, Marker, nothing_kept, no_marker}
use open_workflow_studio.Store.Session.Views.{
  Ran, done, threw, after, ◌>>=◌, with_adapter, load, restore, leave_preview, end_history_preview,
  clear_if, leave_view, end_execution_view,
}

-- The abstract state: editing, or showing the snapshot of a revision or a run instead.
pub data Mode : Type 0 where
  editing : Mode
  previewing viewing : Option ℕ → WorkflowData → Mode

abbrev pub kept_graph : Option ℕ → Graph → Kept
kept_graph id g = record { active = true; id = id; original_snapshot = some (saved_graph g) }

abbrev pub marker : Option ℕ → Marker
marker id = record { active = true; id = id }

-- The parts of the session that make the mode.
pub record InMode (readonly : Bool) (preview view : Kept) (p v : Marker) (s : Session)
    : Type 0 where
  pub readonly_is : s.ui.readonly ≡ readonly
  pub preview_is : s.history_preview ≡ preview
  pub view_is : s.execution_view ≡ view
  pub preview_marker : s.ui.history_preview ≡ p
  pub view_marker : s.ui.execution_view ≡ v

-- The adapter is what loading the snapshot with the registry of `g` leaves, by an exception or not.
abbrev pub IsLoaded : Graph → WorkflowData → Adapter → Type 0
IsLoaded g d a =
    (b : Adapter) × (b.editor.node_registry ≡ g.registry) × (a ≡ adapter_of (Adapter.from_json d b))

-- What stands in the session beside the graph that is shown.
abbrev pub Enters : Graph → Mode → Session → Type 0
Enters g editing s = InMode false nothing_kept nothing_kept no_marker no_marker s
Enters g (previewing id d) s = InMode true (kept_graph id g) nothing_kept (marker id) no_marker s
Enters g (viewing id d) s = InMode true nothing_kept (kept_graph id g) no_marker (marker id) s

-- The graph that the session shows: its own, or what the snapshot gives.
abbrev pub IsShown : Graph → Mode → Adapter → Type 0
IsShown g editing a = Shows g a
IsShown g (previewing id d) a = IsLoaded g d a
IsShown g (viewing id d) a = IsLoaded g d a

-- The session is in the mode, with `g` for the editor's own graph.
abbrev pub Represents : Graph → Mode → Session → Type 0
Represents g m s = IsShown g m s.store.adapter × Enters g m s

pub registry-IsLoaded :
    (g : Graph) (d : WorkflowData) (a : Adapter)
    → IsLoaded g d a
    → a.editor.node_registry ≡ g.registry
registry-IsLoaded g d a (b, r, e) =
    ap (λ (x : Adapter). x.editor.node_registry) e ∙ registry-from_json_adapter d b ∙ r

-- The snapshot of a whole graph shows that graph.
pub IsLoaded-Shows :
    (g h : Graph) (a : Adapter)
    → IsWhole h
    → h.registry ≡ g.registry
    → IsLoaded g (saved_graph h) a
    → Shows h a
IsLoaded-Shows g h a whole same (b, r, e) =
    let (c, f, w) = from_json-saved_graph h b whole (r ∙ sym same) in
    subst (Shows h) (sym (e ∙ ap adapter_of f)) w

pub after-load :
    (d : WorkflowData) (s : Session)
    → after (load d s) ≡ with_adapter (adapter_of (Adapter.from_json d s.store.adapter)) s
unfolding load
after-load d s = go (Adapter.from_json d s.store.adapter)
  where
    go :
        (l : Loading)
        → after (elim l as (λ _. Ran) [
          | loaded_all a ↦ done (with_adapter a s)
          | threw_error a ↦ threw (with_adapter a s)
        ])
          ≡ with_adapter (adapter_of l) s
    go (loaded_all a) = refl
    go (threw_error a) = refl

module _ (g : Graph) (whole : IsWhole g) where
  -- Another graph is loaded, or not, and the mode stays.
  pub load-InMode :
      (readonly : Bool) (preview view : Kept) (p v : Marker) (d : WorkflowData) (s : Session)
      → s.store.adapter.editor.node_registry ≡ g.registry
      → InMode readonly preview view p v s
      → IsLoaded g d (after (load d s)).store.adapter
        × InMode readonly preview view p v (after (load d s))
  load-InMode readonly preview view p v d s r h = rw (after-load d s) (
    (s.store.adapter, r, refl),
    record {
      readonly_is = h.readonly_is;
      preview_is = h.preview_is;
      view_is = h.view_is;
      preview_marker = h.preview_marker;
      view_marker = h.view_marker;
    },
  )

  -- The graph that was kept is shown again.
  pub restored :
      (id : Option ℕ) (kept : Kept) (s : Session)
      → s.store.adapter.editor.node_registry ≡ g.registry
      → kept ≡ kept_graph id g
      → (a : Adapter) × (restore true kept s ≡ done (with_adapter a s)) × Shows g a
  unfolding restore load
  restored id kept s r k =
      let (b, e, h) = from_json-saved_graph g s.store.adapter whole r in
      let loading = λ (l : Loading).
        let x : Ran = elim l [
          | loaded_all a ↦ done (with_adapter a s)
          | threw_error a ↦ threw (with_adapter a s)
        ] in
        x in
      (b, ap (λ x. restore true x s) k ∙ ap loading e, h)

  pub end_preview :
      (id : Option ℕ) (d : WorkflowData) (s : Session)
      → Represents g (previewing id d) s
      → (t : Session) × (end_history_preview true s ≡ done t) × Represents g editing t
  unfolding end_history_preview
  end_preview id d s (l, h) =
      let (a, e, w) =
        restored id s.history_preview s (registry-IsLoaded g d s.store.adapter l) h.preview_is in
      (
        leave_preview (with_adapter a s),
        ap (λ (m : Ran). m >>= λ t. done (leave_preview t)) e,
        (
          w,
          record {
            readonly_is = refl;
            preview_is = refl;
            view_is = h.view_is;
            preview_marker = refl;
            view_marker = h.view_marker;
          },
        ),
      )

  pub cleared :
      (b : Bool) (s : Session) → Represents g editing s → Represents g editing (clear_if b s)
  cleared false s h = h
  cleared true s (w, h) = (
    w,
    record {
      readonly_is = h.readonly_is;
      preview_is = h.preview_is;
      view_is = h.view_is;
      preview_marker = h.preview_marker;
      view_marker = h.view_marker;
    },
  )

  pub end_view :
      (id : Option ℕ) (d : WorkflowData) (b : Bool) (s : Session)
      → Represents g (viewing id d) s
      → (t : Session) × (end_execution_view true b s ≡ done t) × Represents g editing t
  unfolding end_execution_view
  end_view id d b s (l, h) =
      let (a, e, w) =
        restored id s.execution_view s (registry-IsLoaded g d s.store.adapter l) h.view_is in
      let left : Represents g editing (leave_view (with_adapter a s)) = (
        w,
        record {
          readonly_is = refl;
          preview_is = h.preview_is;
          view_is = refl;
          preview_marker = h.preview_marker;
          view_marker = refl;
        },
      ) in
      (
        clear_if b (leave_view (with_adapter a s)),
        ap (λ (m : Ran). m >>= λ t. done (clear_if b (leave_view t))) e,
        cleared b (leave_view (with_adapter a s)) left,
      )
