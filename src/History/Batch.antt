-- ===== src/History/Batch.antt =====
-- A committed batch is one action: it does its actions in order, and takes them back in reverse.
use open_workflow_studio.Prelude.{
  Bool-cases, ◌<◌, ℕ, ◌≡◌, refl, ◌∙◌, sym, ap, none, some, List, [], ◌∷◌, ◌++◌, true, arith, inl,
  inr,
}
use open_workflow_studio.Text.{Text}
use open_workflow_studio.History.{
  drop_last, length, false, ltb, trim, Run, returns, throws, Action, History, push, run_all, redos,
  undos, batch_action, commit_batch,
}
use open_workflow_studio.History.Push.{push_plain, pushed}
use open_workflow_studio.History.Chain.{Between, Reverts, Between-Reverts}

module _ {ℓ} {S : Type ℓ} where
  -- The actions lead from `s` to `t`, each one back too.
  abbrev pub Leads : List (Action S) → S → S → Type ℓ
  Leads [] s t = s ≡ t
  Leads (a ∷ acts) s t = (u : S) × Between a s u × Leads acts u t

  run_all-append :
      (fs gs : List (S → Run S)) (s t : S)
      → run_all fs s ≡ returns t
      → run_all (fs ++ gs) s ≡ run_all gs t
  unfolding run_all
  run_all-append [] gs s t e = after e
    where
      after : returns s ≡ returns t → run_all gs s ≡ run_all gs t
      after e = cc
  run_all-append (f ∷ fs) gs s t e = after (f s) (λ u. run_all-append fs gs u t) e
    where
      after :
          (r : Run S)
          → ((u : S) → run_all fs u ≡ returns t → run_all (fs ++ gs) u ≡ run_all gs t)
          → (elim r as (λ _. Run S) [ returns u ↦ run_all fs u | throws u ↦ throws u ]) ≡ returns t
          → (elim r as (λ _. Run S) [ returns u ↦ run_all (fs ++ gs) u | throws u ↦ throws u ])
            ≡ run_all gs t
      after (returns u) ih h = ih u h
      after (throws u) ih h = cc

  run_all-redos :
      (acts : List (Action S)) (s t : S) → Leads acts s t → run_all (redos acts) s ≡ returns t
  unfolding run_all redos
  run_all-redos [] s t e = ap returns e
  run_all-redos (a ∷ acts) s t (u, b, l) = rw (b.forth, run_all) (run_all-redos acts u t l)

  run_all-undos :
      (acts : List (Action S)) (s t : S) → Leads acts s t → run_all (undos acts) t ≡ returns s
  unfolding undos run_all
  run_all-undos [] s t e = ap returns (sym e)
  run_all-undos (a ∷ acts) s t (u, b, l) =
      run_all-append (undos acts) (a.undo ∷ []) t u (run_all-undos acts u t l)
      ∙ rw (b.back, run_all) refl

  -- Undoing the batch takes back what its actions did, whatever their number.
  pub Between-batch_action :
      (description : Text) (acts : List (Action S)) (s t : S)
      → Leads acts s t
      → Between (batch_action description acts) s t
  unfolding batch_action
  Between-batch_action description acts s t l = record {
    forth = run_all-redos acts s t l;
    back = run_all-undos acts s t l;
  }

  trim-cons :
      (n : ℕ) (a : Action S) (acts : List (Action S))
      → 0 < n
      → (rest : List (Action S)) × (trim n (a ∷ acts) ≡ a ∷ rest)
  trim-cons n a [] p = ([], rw (ltb_one n p) refl)
    where
      ltb_one : (m : ℕ) → 0 < m → ltb m 1 ≡ false
      ltb_one m p = ground arith
  trim-cons n a (b ∷ acts) p = elim (Bool-cases (ltb n (length (a ∷ b ∷ acts)))) [
    | inl long ↦ (drop_last (b ∷ acts), rw long refl)
    | inr short ↦ (b ∷ acts, rw short refl)
  ]

  pub push-Reverts :
      (now : ℕ) (a : Action S) (h : History S) (s t : S)
      → h.recording ≡ true
      → h.current_batch ≡ none
      → 0 < h.max_size
      → Between a s t
      → Reverts (push now a h) s t
  push-Reverts now a h s t on e p b =
      let (rest, f) = trim-cons h.max_size (record a { timestamp = some now }) h.undo_stack p in
      rw (push_plain now a h on e) (
        Between-Reverts (pushed now a h) s t (record a { timestamp = some now }) rest f
          (record { forth = b.forth; back = b.back }))

  committed :
      (now : ℕ) (description : Text) (a : Action S) (acts : List (Action S)) (h : History S)
      → h.current_batch ≡ some (a ∷ acts)
      → commit_batch now description h
        ≡ push now (batch_action description (a ∷ acts)) (record h { current_batch = none })
  unfolding commit_batch
  committed now description a acts h e = simp (e, commit_batch)

  -- When recording is on, the maximum is not 0, a batch of at least one action is open, and its
  -- actions lead from one state to another and back, then after the commit one undo gives the first
  -- state back, a redo after it gives the second, and neither raises an exception.
  pub undo-commit_batch :
      (now : ℕ) (description : Text) (a : Action S) (acts : List (Action S)) (h : History S)
      (s t : S)
      → h.recording ≡ true
      → h.current_batch ≡ some (a ∷ acts)
      → 0 < h.max_size
      → Leads (a ∷ acts) s t
      → Reverts (commit_batch now description h) s t
  undo-commit_batch now description a acts h s t on e p l =
      rw (committed now description a acts h e) (
        push-Reverts now (batch_action description (a ∷ acts)) (record h { current_batch = none }) s
          t on refl p (Between-batch_action description (a ∷ acts) s t l))
