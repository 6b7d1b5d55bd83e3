-- ===== src/Store/Session/Views/Leaving.antt =====
-- store/workflow_store.js: ending what is not shown, and ending a preview or a view without going
-- back to the graph that was kept.
use open_workflow_studio.Prelude.{ℕ, ◌≡◌, refl, ap, Bool, false, Option}
use open_workflow_studio.Adapter.Reload.{Graph, IsWhole, saved_graph}
use open_workflow_studio.Store.Session.{Session, Kept}
use open_workflow_studio.Store.Session.Views.{
  done, ◌>>=◌, restore, leave_preview, end_history_preview, clear_if, leave_view,
  end_execution_view,
}
use open_workflow_studio.Store.Session.Views.Refine.{
  editing, previewing, viewing, Represents, IsLoaded-Shows, cleared,
}

module _ (g : Graph) (whole : IsWhole g) where
  -- Ending what is not shown only clears the selection.
  pub end_preview_idle :
      (restores : Bool) (s : Session)
      → Represents g editing s
      → (t : Session) × (end_history_preview restores s ≡ done t) × Represents g editing t
  unfolding end_history_preview restore
  end_preview_idle restores s (w, h) = (
    leave_preview s,
    ap (λ (k : Kept). restore restores k s >>= λ t. done (leave_preview t)) h.preview_is,
    (
      w,
      record {
        readonly_is = refl;
        preview_is = refl;
        view_is = h.view_is;
        preview_marker = refl;
        view_marker = h.view_marker;
      },
    ),
  )

  pub end_view_idle :
      (restores b : Bool) (s : Session)
      → Represents g editing s
      → (t : Session) × (end_execution_view restores b s ≡ done t) × Represents g editing t
  unfolding end_execution_view restore
  end_view_idle restores b s (w, h) =
      let left : Represents g editing (leave_view s) = (
        w,
        record {
          readonly_is = refl;
          preview_is = h.preview_is;
          view_is = refl;
          preview_marker = h.preview_marker;
          view_marker = refl;
        },
      ) in
      (
        clear_if b (leave_view s),
        ap (λ (k : Kept). restore restores k s >>= λ t. done (clear_if b (leave_view t))) h.view_is,
        cleared g whole b (leave_view s) left,
      )

  -- What is shown is taken for the editor's own graph.
  pub take_preview :
      (id : Option ℕ) (h : Graph) (s : Session)
      → IsWhole h
      → h.registry ≡ g.registry
      → Represents g (previewing id (saved_graph h)) s
      → (t : Session) × (end_history_preview false s ≡ done t) × Represents h editing t
  unfolding end_history_preview restore
  take_preview id h s w r (l, i) = (
    leave_preview s,
    ap (λ (k : Kept). restore false k s >>= λ t. done (leave_preview t)) i.preview_is,
    (
      IsLoaded-Shows g h s.store.adapter w r l,
      record {
        readonly_is = refl;
        preview_is = refl;
        view_is = i.view_is;
        preview_marker = refl;
        view_marker = i.view_marker;
      },
    ),
  )

  pub take_view :
      (id : Option ℕ) (h : Graph) (b : Bool) (s : Session)
      → IsWhole h
      → h.registry ≡ g.registry
      → Represents g (viewing id (saved_graph h)) s
      → (t : Session) × (end_execution_view false b s ≡ done t) × Represents h editing t
  unfolding end_execution_view restore
  take_view id h b s w r (l, i) =
      let left : Represents h editing (leave_view s) = (
        IsLoaded-Shows g h s.store.adapter w r l,
        record {
          readonly_is = refl;
          preview_is = i.preview_is;
          view_is = refl;
          preview_marker = i.preview_marker;
          view_marker = refl;
        },
      ) in
      (
        clear_if b (leave_view s),
        ap (λ (k : Kept). restore false k s >>= λ t. done (clear_if b (leave_view t))) i.view_is,
        cleared h w b (leave_view s) left,
      )
