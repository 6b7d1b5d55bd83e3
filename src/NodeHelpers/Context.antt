-- ===== src/NodeHelpers/Context.antt =====
-- The persistent contexts of the nodes of one execution.
use open_workflow_studio.Prelude.{
  ◌≡◌, ◌≢◌, refl, ◌∙◌, true, false, none, some, [], Option-cases, inl, inr,
}
use open_workflow_studio.Text.{Text, ==_refl, ==_ne}
use open_workflow_studio.Assoc
use open_workflow_studio.Assoc.{Assoc}
use open_workflow_studio.Assoc.Laws.{get-set, get-delete}
use open_workflow_studio.NodeHelpers.{NodeHelpers, get_context, clear_context, has_context}

-- Asking for the context twice gives the same one, and it exists from the first time; after it is
-- cleared it does not exist, and the next one is empty; the context of another node stays.
pub get_context-clear_context :
    (h : NodeHelpers) (k : Text)
    → k ≢ h.node_id
    → ((get_context (get_context h).0).1 ≡ (get_context h).1)
      × (has_context (get_context h).0 ≡ true)
      × (has_context (clear_context h) ≡ false)
      × ((get_context (clear_context h)).1 ≡ [])
      × (Assoc.get k (get_context h).0.node_context ≡ Assoc.get k h.node_context)
      × (Assoc.get k (clear_context h).node_context ≡ Assoc.get k h.node_context)
unfolding get_context clear_context
get_context-clear_context h k ne = (
  elim (Option-cases (Assoc.get h.node_id h.node_context)) [
    | inl e ↦ rw (e, get_context) (rw (made, get_context) refl)
    | inr (c, e) ↦ rw (e, get_context) (rw (e, get_context) refl)
  ],
  elim (Option-cases (Assoc.get h.node_id h.node_context)) [
    | inl e ↦ rw (e, get_context) (rw made refl)
    | inr (c, e) ↦ rw (e, get_context) (rw e refl)
  ],
  rw cleared refl,
  rw (cleared, get_context) refl,
  elim (Option-cases (Assoc.get h.node_id h.node_context)) [
    | inl e ↦
        rw (e, get_context) (get-set k h.node_id [] h.node_context ∙ rw (==_ne k h.node_id ne) refl)
    | inr (c, e) ↦ rw (e, get_context) refl
  ],
  get-delete k h.node_id h.node_context ∙ rw (==_ne k h.node_id ne) refl,
)
  where
    made : Assoc.get h.node_id (Assoc.set h.node_id [] h.node_context) ≡ some []
    made = get-set h.node_id h.node_id [] h.node_context ∙ rw (==_refl h.node_id) refl

    cleared : Assoc.get h.node_id (Assoc.delete h.node_id h.node_context) ≡ none
    cleared = get-delete h.node_id h.node_id h.node_context ∙ rw (==_refl h.node_id) refl
