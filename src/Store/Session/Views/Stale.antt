-- ===== src/Store/Session/Views/Stale.antt =====
-- Loading another workflow while a run is viewed.
use open_workflow_studio.Prelude.{
  ℕ, ◌≡◌, refl, ◌∙◌, ap, true, false, Option, none, some, subst, if◌then◌else◌,
}
use open_workflow_studio.Text.{Text}
use open_workflow_studio.Editor.Load.{WorkflowData}
use open_workflow_studio.Adapter
use open_workflow_studio.Adapter.{Adapter, Loading, loaded_all, threw_error}
use open_workflow_studio.Adapter.Reload.{
  Graph, Shows, IsWhole, adapter_of, registry-from_json_adapter,
}
use open_workflow_studio.Store.Pins.{Snapshot, load_metadata}
use open_workflow_studio.Store.Session.{Session, Kept, no_marker}
use open_workflow_studio.Store.Session.Views.{
  Ran, done, threw, ◌>>=◌, load, load_workflow, leave_view, clear_if, end_execution_view,
  copy_execution_to_editor, with_adapter,
}
use open_workflow_studio.Store.Session.Views.Refine.{
  viewing, Represents, kept_graph, restored, registry-IsLoaded,
}

-- The session is marked as in editing, but it cannot be edited, and copying the run to the editor
-- shows the graph `g`.
abbrev pub IsStale : Graph → Session → Type 0
IsStale g u =
    (u.ui.readonly ≡ true)
    × (u.ui.execution_view ≡ no_marker)
    × (t : Session) × (copy_execution_to_editor u ≡ done t)
    × Shows g t.store.adapter

module _ (g : Graph) (whole : IsWhole g) where
  kept_graph-IsStale :
      (id : Option ℕ) (u : Session)
      → u.ui.readonly ≡ true
      → u.ui.execution_view ≡ no_marker
      → u.execution_view ≡ kept_graph id g
      → u.store.adapter.editor.node_registry ≡ g.registry
      → IsStale g u
  unfolding copy_execution_to_editor end_execution_view
  kept_graph-IsStale id u e m k r =
      let (a, q, w) = restored g whole id u.execution_view u r k in
      (
        e,
        m,
        leave_view (with_adapter a u),
        ap (λ (v : Kept). if v.active then end_execution_view true false u else done u) k
            ∙ ap (λ (x : Ran). x >>= λ t. done (clear_if false (leave_view t))) q,
        w,
      )

  -- Let a session view a run, with the graph `g` of a workflow kept, its nodes and connections as
  -- their classes make them. After `loadWorkflow` has loaded another workflow without an
  -- exception, the session is still read-only although no view is marked, and copying the run to
  -- the editor shows the graph `g` of the first workflow.
  pub load_workflow-IsStale :
      (id : Option ℕ) (d : WorkflowData) (workflow_id : ℕ) (version_hash : Text)
      (snapshot : Snapshot)
      → (s u : Session) → Represents g (viewing id d) s
      → load_workflow workflow_id version_hash snapshot s ≡ done u
      → IsStale g u
  unfolding load_workflow load load_metadata
  load_workflow-IsStale id d workflow_id version_hash snapshot s u (l, h) e =
      go (Adapter.from_json snapshot.graph s.store.adapter)
        (registry-from_json_adapter snapshot.graph s.store.adapter
          ∙ registry-IsLoaded g d s.store.adapter l)
        e
    where
      begun : Session
      begun = record s {
        store = record s.store { execution_progress = none };
        ui = record s.ui {
          panels = record s.ui.panels { execution_log_open = false };
          executing = false;
          execution_view = no_marker;
        };
      }

      ended : Session → Session
      ended v = record v {
        version_hash = some version_hash;
        workflow_id = some workflow_id;
        store = load_metadata snapshot.metadata v.store;
      }

      go :
          (l : Loading)
          → (adapter_of l).editor.node_registry ≡ g.registry
          → (elim l as (λ _. Ran) [
            | loaded_all a ↦ done (with_adapter a begun)
            | threw_error a ↦ threw (with_adapter a begun)
          ]
              >>= λ v. done (ended v))
            ≡ done u
          → IsStale g u
      go (loaded_all a) r e =
          let same : ended (with_adapter a begun) ≡ u = cc in
          subst (IsStale g) same
            (kept_graph-IsStale id (ended (with_adapter a begun)) h.readonly_is refl h.view_is r)
      go (threw_error a) r e = absurd (cc)
