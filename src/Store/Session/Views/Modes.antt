-- ===== src/Store/Session/Views/Modes.antt =====
-- store/workflow_store.js: the calls of the previews and views, and the steps of the mode and of the
-- editor's own graph that they stand for.
use open_workflow_studio.Prelude.{
  ℕ, ◌≡◌, sym, Bool, true, false, Option, none, some, List, [], ◌∷◌, subst,
}
use open_workflow_studio.Editor.Load.{WorkflowData}
use open_workflow_studio.Adapter.Reload.{Graph, IsWhole, saved_graph}
use open_workflow_studio.Progress.{Fields}
use open_workflow_studio.Store.Session.{Session, replace_result}
use open_workflow_studio.Store.Session.Views.{
  Ran, done, after, ◌>>=◌, id_or_null, end_history_preview, end_execution_view,
  start_history_preview, start_execution_view, copy_execution_to_editor, debug_execution,
}
use open_workflow_studio.Store.Session.Views.Refine.{
  Mode, editing, previewing, viewing, Represents, end_preview, end_view,
}
use open_workflow_studio.Store.Session.Views.Steps.{stop, previewed, viewed, view_left, progressed}
use open_workflow_studio.Store.Session.Views.Leaving.{
  end_preview_idle, end_view_idle, take_preview, take_view,
}

pub data ViewCall : Type 0 where
  start_preview : Option ℕ → Option WorkflowData → ViewCall
  stop_preview : Bool → ViewCall
  start_view : Option ℕ → Option WorkflowData → Option Fields → ViewCall
  stop_view : Bool → Bool → ViewCall
  copy : ViewCall
  debug : Option Fields → ViewCall

abbrev pub perform : ViewCall → Session → Ran
perform (start_preview id snapshot) s = start_history_preview id snapshot s
perform (stop_preview restores) s = end_history_preview restores s
perform (start_view id snapshot fields) s = start_execution_view id snapshot fields s
perform (stop_view restores clear_execution) s = end_execution_view restores clear_execution s
perform copy s = copy_execution_to_editor s
perform (debug fields) s = debug_execution fields s

-- The calls in order; an exception ends its call, and the next one follows.
abbrev pub perform_all : List ViewCall → Session → Session
perform_all [] s = s
perform_all (c ∷ cs) s = perform_all cs (after (perform c s))

-- What a call makes of the editor's own graph and the mode. A view is not ended as a preview, nor a
-- preview as a view. What ends without a restoration of the own graph leaves the shown one, whose
-- snapshot is that of a graph as its classes make it.
pub data Step : ViewCall → Graph → Mode → Graph → Mode → Type 0 where
  no_snapshot : (id : Option ℕ) (g : Graph) (m : Mode) → Step (start_preview id none) g m g m
  previews :
      (id : Option ℕ) (d : WorkflowData) (g : Graph) (m : Mode)
      → Step (start_preview id (some d)) g m g (previewing (id_or_null id) d)
  no_preview : (b : Bool) (g : Graph) → Step (stop_preview b) g editing g editing
  ends_preview :
      (id : Option ℕ) (d : WorkflowData) (g : Graph)
      → Step (stop_preview true) g (previewing id d) g editing
  takes_preview :
      (id : Option ℕ) (g h : Graph)
      → IsWhole h
      → h.registry ≡ g.registry
      → Step (stop_preview false) g (previewing id (saved_graph h)) h editing
  no_run :
      (id : Option ℕ) (o : Option Fields) (g : Graph) (m : Mode)
      → Step (start_view id none o) g m g m
  views :
      (id : Option ℕ) (d : WorkflowData) (o : Option Fields) (g : Graph) (m : Mode)
      → Step (start_view id (some d) o) g m g (viewing (id_or_null id) d)
  no_view : (b c : Bool) (g : Graph) → Step (stop_view b c) g editing g editing
  ends_view :
      (id : Option ℕ) (d : WorkflowData) (c : Bool) (g : Graph)
      → Step (stop_view true c) g (viewing id d) g editing
  takes_view :
      (id : Option ℕ) (c : Bool) (g h : Graph)
      → IsWhole h
      → h.registry ≡ g.registry
      → Step (stop_view false c) g (viewing id (saved_graph h)) h editing
  copies : (g : Graph) (m : Mode) → Step copy g m g (stop m)
  no_results : (g : Graph) (m : Mode) → Step (debug none) g m g m
  debugs : (f : Fields) (g : Graph) (m : Mode) → Step (debug (some f)) g m g (stop m)

pub data Steps : List ViewCall → Graph → Mode → Graph → Mode → Type 0 where
  stays : (g : Graph) (m : Mode) → Steps [] g m g m
  goes :
      {c : ViewCall} {cs : List ViewCall} {g h k : Graph} {m n o : Mode}
      → Step c g m h n
      → Steps cs h n k o
      → Steps (c ∷ cs) g m k o

-- A call that ends without an exception, in a session that represents the mode.
ended :
    (g : Graph) (m : Mode) (r : Ran)
    → (t : Session) × (r ≡ done t) × Represents g m t
    → Represents g m (after r)
ended g m r (t, e, k) = subst (λ (x : Ran). Represents g m (after x)) (sym e) k

perform-Represents :
    (c : ViewCall) (g h : Graph) (m n : Mode) (s : Session)
    → IsWhole g
    → Step c g m h n
    → Represents g m s
    → IsWhole h × Represents h n (after (perform c s))
unfolding copy_execution_to_editor debug_execution start_history_preview start_execution_view
perform-Represents _ _ _ _ _ s w (no_snapshot id g m) r = (w, r)
perform-Represents _ _ _ _ _ s w (previews id d g m) r = (w, previewed g w id d m s r)
perform-Represents _ _ _ _ _ s w (no_preview b g) r =
    (w, ended g editing _ (end_preview_idle g w b s r))
perform-Represents _ _ _ _ _ s w (ends_preview id d g) r =
    (w, ended g editing _ (end_preview g w id d s r))
perform-Represents _ _ _ _ _ s w (takes_preview id g h v e) r =
    (v, ended h editing _ (take_preview g w id h s v e r))
perform-Represents _ _ _ _ _ s w (no_run id o g m) r = (w, r)
perform-Represents _ _ _ _ _ s w (views id d o g m) r = (w, viewed g w id d o m s r)
perform-Represents _ _ _ _ _ s w (no_view b c g) r =
    (w, ended g editing _ (end_view_idle g w b c s r))
perform-Represents _ _ _ _ _ s w (ends_view id d c g) r =
    (w, ended g editing _ (end_view g w id d c s r))
perform-Represents _ _ _ _ _ s w (takes_view id c g h v e) r =
    (v, ended h editing _ (take_view g w id h c s v e r))
perform-Represents _ _ _ _ _ s w (copies g m) r =
    (w, ended g (stop m) _ (view_left g w false m s r))
perform-Represents _ _ _ _ _ s w (no_results g m) r = (w, r)
perform-Represents _ _ _ _ _ s w (debugs f g m) r =
    let (t, e, k) = view_left g w true m s r in
    (
      w,
      subst (λ (x : Ran). Represents g (stop m) (after (x >>= λ u. done (replace_result f u))))
          (sym e) (progressed g w (stop m) f t k),
    )

-- Let a session be in a mode: editing with its own graph shown, or read-only with that graph kept,
-- the revision or run marked, and shown what loading its snapshot gives, by an exception or not.
-- The nodes of the own graph stand under their ids and are, with the connections, as their classes
-- make them. After any sequence of previews, views, copies, debuggings and endings, with the own
-- graph restored or not, where no view is ended as a preview nor a preview as a view, the session
-- is in the mode that the steps lead to, with the own graph that they lead to. A graph is taken over
-- in place of the own one only where its snapshot is that of a graph as its classes make it.
pub perform_all-Represents :
    (cs : List ViewCall) (g h : Graph) (m n : Mode) (s : Session)
    → IsWhole g
    → Steps cs g m h n
    → Represents g m s
    → Represents h n (perform_all cs s)
perform_all-Represents _ _ _ _ _ s w (stays g m) r = r
perform_all-Represents _ _ _ _ _ s w (goes {c} {cs} {g} {h} {k} {m} {n} {o} x xs) r =
    let (v, q) = perform-Represents c g h m n s w x r in
    perform_all-Represents cs h k n o (after (perform c s)) v xs q
