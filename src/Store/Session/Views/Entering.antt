-- ===== src/Store/Session/Views/Entering.antt =====
-- store/workflow_store.js: entering a preview or a view, as steps between the modes of the session.
use open_workflow_studio.Prelude.{ℕ, refl, ◌∙◌, ap, Option, some}
use open_workflow_studio.Editor.Load.{WorkflowData}
use open_workflow_studio.Adapter.Reload.{Graph, to_json-Shows}
use open_workflow_studio.Store.Session.{Session}
use open_workflow_studio.Store.Session.Views.{id_or_null, keep, enter_preview, enter_view}
use open_workflow_studio.Store.Session.Views.Refine.{
  editing, previewing, viewing, kept_graph, Enters, Represents,
}

module _ (g : Graph) where
  pub entered_preview :
      (id : Option ℕ) (d : WorkflowData) (s : Session)
      → Represents g editing s
      → Enters g (previewing (id_or_null id) d) (enter_preview id s)
  entered_preview id d s (w, h) = record {
    readonly_is = refl;
    preview_is =
        ap (λ k. keep id k s.store.adapter) h.preview_is
        ∙ ap (λ d. record (kept_graph (id_or_null id) g) { original_snapshot = some d })
            (to_json-Shows g s.store.adapter w);
    view_is = h.view_is;
    preview_marker = refl;
    view_marker = h.view_marker;
  }

  pub entered_preview_again :
      (id old : Option ℕ) (d c : WorkflowData) (s : Session)
      → Represents g (previewing old c) s
      → Enters g (previewing (id_or_null id) d) (enter_preview id s)
  entered_preview_again id old d c s (r, h) = record {
    readonly_is = refl;
    preview_is = ap (λ k. keep id k s.store.adapter) h.preview_is;
    view_is = h.view_is;
    preview_marker = refl;
    view_marker = h.view_marker;
  }

  pub entered_view :
      (id : Option ℕ) (d : WorkflowData) (s : Session)
      → Represents g editing s
      → Enters g (viewing (id_or_null id) d) (enter_view id s)
  entered_view id d s (w, h) = record {
    readonly_is = refl;
    preview_is = h.preview_is;
    view_is =
        ap (λ k. keep id k s.store.adapter) h.view_is
        ∙ ap (λ d. record (kept_graph (id_or_null id) g) { original_snapshot = some d })
            (to_json-Shows g s.store.adapter w);
    preview_marker = h.preview_marker;
    view_marker = refl;
  }

  pub entered_view_again :
      (id old : Option ℕ) (d c : WorkflowData) (s : Session)
      → Represents g (viewing old c) s
      → Enters g (viewing (id_or_null id) d) (enter_view id s)
  entered_view_again id old d c s (r, h) = record {
    readonly_is = refl;
    preview_is = h.preview_is;
    view_is = ap (λ k. keep id k s.store.adapter) h.view_is;
    preview_marker = h.preview_marker;
    view_marker = refl;
  }
