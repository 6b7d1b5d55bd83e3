-- ===== src/Store/Session/Views/Steps.antt =====
-- store/workflow_store.js: starting a preview or a view, and leaving a view, as steps of the mode.
use open_workflow_studio.Prelude.{
  ℕ, ◌≡◌, refl, ◌∙◌, sym, ap, Bool, true, false, Option, none, some, if◌then◌else◌, subst,
}
use open_workflow_studio.Editor.Load.{WorkflowData}
use open_workflow_studio.Adapter.Reload.{Graph, IsWhole}
use open_workflow_studio.Progress.{Progress, Fields, finished, replace_execution_result}
use open_workflow_studio.Store.Session.{
  Session, Kept, Marker, replace_result, set_progress, open_log_if,
}
use open_workflow_studio.Store.Session.Views.{
  Ran, done, threw, after, ◌>>=◌, load, id_or_null, end_history_preview, end_execution_view,
  enter_preview, start_history_preview, enter_view, show_data, start_execution_view,
}
use open_workflow_studio.Store.Session.Views.Refine.{
  Mode, editing, previewing, viewing, Represents, Enters, IsShown, registry-IsLoaded, InMode,
  load-InMode, end_preview, end_view,
}
use open_workflow_studio.Store.Session.Views.Entering.{
  entered_preview, entered_preview_again, entered_view, entered_view_again,
}

-- The mode without a view.
abbrev pub stop : Mode → Mode
stop editing = editing
stop (previewing id d) = previewing id d
stop (viewing id d) = editing

-- The parts that make the mode, and the adapter, are the same.
record SameMode (s t : Session) : Type 0 where
  adapter : t.store.adapter ≡ s.store.adapter
  readonly : t.ui.readonly ≡ s.ui.readonly
  preview : t.history_preview ≡ s.history_preview
  view : t.execution_view ≡ s.execution_view
  preview_marker : t.ui.history_preview ≡ s.ui.history_preview
  view_marker : t.ui.execution_view ≡ s.ui.execution_view

logged_SameMode :
    (b : Bool) (p : Progress) (s : Session) → SameMode s (open_log_if b (set_progress p s))
logged_SameMode false p s = record {
  adapter = refl;
  readonly = refl;
  preview = refl;
  view = refl;
  preview_marker = refl;
  view_marker = refl;
}
logged_SameMode true p s = record {
  adapter = refl;
  readonly = refl;
  preview = refl;
  view = refl;
  preview_marker = refl;
  view_marker = refl;
}

module _ (g : Graph) (whole : IsWhole g) where
  moved :
      (s t : Session) (r : Bool) (a b : Kept) (p v : Marker)
      → SameMode s t
      → InMode r a b p v s
      → InMode r a b p v t
  moved s t r a b p v e i = record {
    readonly_is = e.readonly ∙ i.readonly_is;
    preview_is = e.preview ∙ i.preview_is;
    view_is = e.view ∙ i.view_is;
    preview_marker = e.preview_marker ∙ i.preview_marker;
    view_marker = e.view_marker ∙ i.view_marker;
  }

  entered : (m : Mode) (s t : Session) → SameMode s t → Enters g m s → Enters g m t
  entered editing s t e i = moved s t _ _ _ _ _ e i
  entered (previewing id d) s t e i = moved s t _ _ _ _ _ e i
  entered (viewing id d) s t e i = moved s t _ _ _ _ _ e i

  same : (m : Mode) (s t : Session) → SameMode s t → Represents g m s → Represents g m t
  same m s t e (w, i) = (subst (IsShown g m) (sym e.adapter) w, entered m s t e i)

  -- Writing the progress leaves the mode.
  pub progressed :
      (m : Mode) (f : Fields) (s : Session) → Represents g m s → Represents g m (replace_result f s)
  progressed m f s h =
      let p = replace_execution_result f in
      same m s (replace_result f s) (logged_SameMode (finished p) p s) h

  data_shown :
      (m : Mode) (o : Option Fields) (r : Ran)
      → Represents g m (after r)
      → Represents g m (after (r >>= λ u. done (show_data o u)))
  data_shown m none (done s) h = h
  data_shown m (some f) (done s) h = progressed m f s h
  data_shown m o (threw s) h = h

  -- The snapshot is loaded, by an exception or not, in a preview or a view.
  load_previewing :
      (id : Option ℕ) (d : WorkflowData) (s : Session)
      → s.store.adapter.editor.node_registry ≡ g.registry
      → Enters g (previewing id d) s
      → Represents g (previewing id d) (after (load d s))
  load_previewing id d s r h = load-InMode g whole _ _ _ _ _ d s r h

  load_viewing :
      (id : Option ℕ) (d : WorkflowData) (s : Session)
      → s.store.adapter.editor.node_registry ≡ g.registry
      → Enters g (viewing id d) s
      → Represents g (viewing id d) (after (load d s))
  load_viewing id d s r h = load-InMode g whole _ _ _ _ _ d s r h

  -- A preview leaves the view first, and then begins.
  begun_preview :
      (id : Option ℕ) (d : WorkflowData) (s t : Session)
      → (if s.execution_view.active then end_execution_view true true s else done s) ≡ done t
      → t.store.adapter.editor.node_registry ≡ g.registry
      → Enters g (previewing (id_or_null id) d) (enter_preview id t)
      → Represents g (previewing (id_or_null id) d) (after (start_history_preview id (some d) s))
  unfolding start_history_preview
  begun_preview id d s t e r h =
      subst
        (λ (r : Ran).
          Represents g (previewing (id_or_null id) d)
            (after (r >>= λ u. load d (enter_preview id u))))
        (sym e) (load_previewing (id_or_null id) d (enter_preview id t) r h)

  pub previewed :
      (id : Option ℕ) (d : WorkflowData) (m : Mode) (s : Session)
      → Represents g m s
      → Represents g (previewing (id_or_null id) d) (after (start_history_preview id (some d) s))
  previewed id d editing s (w, h) =
      begun_preview id d s s
        (ap (λ (k : Kept). if k.active then end_execution_view true true s else done s) h.view_is)
        w.registry (entered_preview g id d s (w, h))
  previewed id d (previewing old c) s (l, h) =
      begun_preview id d s s
        (ap (λ (k : Kept). if k.active then end_execution_view true true s else done s) h.view_is)
        (registry-IsLoaded g c s.store.adapter l) (entered_preview_again g id old d c s (l, h))
  previewed id d (viewing old c) s (w, h) =
      let (t, e, k) = end_view g whole old c true s (w, h) in
      begun_preview id d s t
        (ap (λ (k : Kept). if k.active then end_execution_view true true s else done s) h.view_is
          ∙ e)
        k.0.registry (entered_preview g id d t k)

  begun_view :
      (id : Option ℕ) (d : WorkflowData) (o : Option Fields) (s t : Session)
      → (if s.history_preview.active then end_history_preview true s else done s) ≡ done t
      → t.store.adapter.editor.node_registry ≡ g.registry
      → Enters g (viewing (id_or_null id) d) (enter_view id t)
      → Represents g (viewing (id_or_null id) d) (after (start_execution_view id (some d) o s))
  unfolding start_execution_view
  begun_view id d o s t e r h =
      subst
        (λ (r : Ran).
          Represents g (viewing (id_or_null id) d)
            (after (r >>= λ u. load d (enter_view id u) >>= λ v. done (show_data o v))))
        (sym e)
        (data_shown (viewing (id_or_null id) d) o (load d (enter_view id t))
          (load_viewing (id_or_null id) d (enter_view id t) r h))

  pub viewed :
      (id : Option ℕ) (d : WorkflowData) (o : Option Fields) (m : Mode) (s : Session)
      → Represents g m s
      → Represents g (viewing (id_or_null id) d) (after (start_execution_view id (some d) o s))
  viewed id d o editing s (w, h) =
      begun_view id d o s s
        (ap (λ (k : Kept). if k.active then end_history_preview true s else done s) h.preview_is)
        w.registry (entered_view g id d s (w, h))
  viewed id d o (viewing old c) s (l, h) =
      begun_view id d o s s
        (ap (λ (k : Kept). if k.active then end_history_preview true s else done s) h.preview_is)
        (registry-IsLoaded g c s.store.adapter l) (entered_view_again g id old d c s (l, h))
  viewed id d o (previewing old c) s (w, h) =
      let (t, e, k) = end_preview g whole old c s (w, h) in
      begun_view id d o s t
        (ap (λ (k : Kept). if k.active then end_history_preview true s else done s) h.preview_is
          ∙ e)
        k.0.registry (entered_view g id d t k)

  -- A view is left, and nothing else is.
  pub view_left :
      (b : Bool) (m : Mode) (s : Session)
      → Represents g m s
      → (t : Session) × ((if s.execution_view.active then end_execution_view true b s else done s)
          ≡ done t)
        × Represents g (stop m) t
  view_left b editing s (w, h) = (
    s,
    ap (λ (k : Kept). if k.active then end_execution_view true b s else done s) h.view_is,
    (w, h),
  )
  view_left b (previewing old c) s (w, h) = (
    s,
    ap (λ (k : Kept). if k.active then end_execution_view true b s else done s) h.view_is,
    (w, h),
  )
  view_left b (viewing old c) s (w, h) =
      let (t, e, k) = end_view g whole old c b s (w, h) in
      (
        t,
        ap (λ (k : Kept). if k.active then end_execution_view true b s else done s) h.view_is ∙ e,
        k,
      )
