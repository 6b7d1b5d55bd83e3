-- ===== src/History/Chain.antt =====
-- Undo and redo over actions that undo each other's effect: no exception is raised, and what was
-- undone comes back by redo.
use open_workflow_studio.Prelude.{
  ◌≢◌, subst, ℕ, ◌≡◌, refl, sym, ap, ◌∙◌, true, none, some, List, [], ◌∷◌, length, List-cases, inl,
  inr, drop_last, ltb, Bool-cases,
}
use open_workflow_studio.History.{
  returns, Action, History, done, nothing, notify, trim, push, after_undo, undo, after_redo, redo,
}
use open_workflow_studio.History.Push.{push_plain}

module _ {ℓ} {S : Type ℓ} where
  -- The action takes `s` to `t`, and back.
  pub record Between (a : Action S) (s t : S) : Type ℓ where
    pub forth : a.redo s ≡ returns t
    pub back : a.undo t ≡ returns s

  -- The actions lead back from the state one by one, and forth from it.
  abbrev pub CanUndo : List (Action S) → S → Type ℓ
  CanUndo [] s = Unit
  CanUndo (a ∷ acts) s = (t : S) × Between a t s × CanUndo acts t

  abbrev pub CanRedo : List (Action S) → S → Type ℓ
  CanRedo [] s = Unit
  CanRedo (a ∷ acts) s = (t : S) × Between a s t × CanRedo acts t

  pub record IsConsistent (h : History S) (s : S) : Type ℓ where
    pub past : CanUndo h.undo_stack s
    pub future : CanRedo h.redo_stack s

  CanUndo-drop_last : (acts : List (Action S)) (s : S) → CanUndo acts s → CanUndo (drop_last acts) s
  CanUndo-drop_last [] s c = tt
  CanUndo-drop_last (a ∷ []) s c = tt
  CanUndo-drop_last (a ∷ b ∷ acts) s (t, p, c) = (t, p, CanUndo-drop_last (b ∷ acts) t c)

  CanUndo-trim : (n : ℕ) (acts : List (Action S)) (s : S) → CanUndo acts s → CanUndo (trim n acts) s
  CanUndo-trim n acts s c = elim (Bool-cases (ltb n (length acts))) [
    | inl long ↦ rw long (CanUndo-drop_last acts s c)
    | inr short ↦ rw short c
  ]

  -- After an action from `s` to `t` was done and pushed.
  pub push-IsConsistent :
      (now : ℕ) (a : Action S) (h : History S) (s t : S)
      → h.recording ≡ true
      → h.current_batch ≡ none
      → Between a s t
      → IsConsistent h s
      → IsConsistent (push now a h) t
  push-IsConsistent now a h s t on e b c = rw (push_plain now a h on e) (record {
    past =
        CanUndo-trim h.max_size (record a { timestamp = some now } ∷ h.undo_stack) t
          (s, record { forth = b.forth; back = b.back }, c.past);
    future = tt;
  })

  undo_nothing : (h : History S) (s : S) → h.undo_stack ≡ [] → undo h s ≡ (h, s, nothing)
  unfolding undo
  undo_nothing h s e = simp (e, undo)

  redo_nothing : (h : History S) (s : S) → h.redo_stack ≡ [] → redo h s ≡ (h, s, nothing)
  unfolding redo
  redo_nothing h s e = simp (e, redo)

  -- An undo with something to undo.
  pub undo_done :
      (h : History S) (s : S) (a : Action S) (rest : List (Action S))
      → h.undo_stack ≡ a ∷ rest
      → (t : S) → Between a t s
      → undo h s ≡ (
        notify (record h { undo_stack = rest; redo_stack = a ∷ h.redo_stack; recording = true }),
        t,
        done,
      )
  unfolding undo after_undo
  undo_done h s a rest e t b = simp (e, undo, b.back, after_undo)

  pub redo_done :
      (h : History S) (s : S) (a : Action S) (rest : List (Action S))
      → h.redo_stack ≡ a ∷ rest
      → (t : S) → Between a s t
      → redo h s ≡ (
        notify (record h { redo_stack = rest; undo_stack = a ∷ h.undo_stack; recording = true }),
        t,
        done,
      )
  unfolding redo after_redo
  redo_done h s a rest e t b = simp (e, redo, b.forth, after_redo)

  -- An undo leads from `t` back to `s`, and a redo after it to `t` again, without an exception.
  pub record Reverts (h : History S) (s t : S) : Type ℓ where
    pub undone : (undo h t).1 ≡ s
    pub undo_ended : (undo h t).2 ≡ done
    pub redone : (redo (undo h t).0 (undo h t).1).1 ≡ t
    pub redo_ended : (redo (undo h t).0 (undo h t).1).2 ≡ done

  pub Between-Reverts :
      (h : History S) (s t : S) (a : Action S) (rest : List (Action S))
      → h.undo_stack ≡ a ∷ rest
      → Between a s t
      → Reverts h s t
  Between-Reverts h s t a rest e b =
      let undone = undo_done h t a rest e s b in
      let again =
        redo_done
          (notify (record h { undo_stack = rest; redo_stack = a ∷ h.redo_stack; recording = true }))
          s a h.redo_stack refl t b in
      record {
        undone = ap (λ r. r.1) undone;
        undo_ended = ap (λ r. r.2) undone;
        redone = ap (λ r. (redo r.0 r.1).1) undone ∙ ap (λ r. r.1) again;
        redo_ended = ap (λ r. (redo r.0 r.1).2) undone ∙ ap (λ r. r.2) again;
      }

  -- An edit, an undo or a redo, as they come in a session.
  pub data Session (h : History S) (s : S) : History S → S → Type ℓ where
    start : Session h s h s
    edits :
        {k : History S} {t u : S} (now : ℕ) (a : Action S)
        → Session h s k t
        → k.recording ≡ true
        → k.current_batch ≡ none
        → Between a t u
        → Session h s (push now a k) u
    undoes : {k : History S} {t : S} → Session h s k t → Session h s (undo k t).0 (undo k t).1
    redoes : {k : History S} {t : S} → Session h s k t → Session h s (redo k t).0 (redo k t).1

  undo-IsConsistent :
      (h : History S) (s : S) → IsConsistent h s → IsConsistent (undo h s).0 (undo h s).1
  undo-IsConsistent h s c = elim (List-cases h.undo_stack) [
    | inl e ↦ rw (undo_nothing h s e) c
    | inr (a, rest, e) ↦
        let (t, b, past) : (t : S) × Between a t s × CanUndo rest t =
          subst (λ acts. CanUndo acts s) e c.past in
        rw (undo_done h s a rest e t b) (record { past = past; future = (s, b, c.future) })
  ]

  redo-IsConsistent :
      (h : History S) (s : S) → IsConsistent h s → IsConsistent (redo h s).0 (redo h s).1
  redo-IsConsistent h s c = elim (List-cases h.redo_stack) [
    | inl e ↦ rw (redo_nothing h s e) c
    | inr (a, rest, e) ↦
        let (t, b, future) : (t : S) × Between a s t × CanRedo rest t =
          subst (λ acts. CanRedo acts s) e c.future in
        rw (redo_done h s a rest e t b) (record { past = (s, b, c.past); future = future })
  ]

  Session-IsConsistent :
      {h : History S} {s : S} {k : History S} {t : S}
      → Session h s k t
      → IsConsistent h s
      → IsConsistent k t
  Session-IsConsistent start c = c
  Session-IsConsistent (edits {k} {t} {u} now a r on e b) c =
      push-IsConsistent now a k t u on e b (Session-IsConsistent r c)
  Session-IsConsistent (undoes {k} {t} r) c = undo-IsConsistent k t (Session-IsConsistent r c)
  Session-IsConsistent (redoes {k} {t} r) c = redo-IsConsistent k t (Session-IsConsistent r c)

  -- In a session of undos, redos and edits that can be taken back and are pushed while recording
  -- is on and no batch is open, started on a consistent history, an undo that has something to
  -- undo raises no exception, and the redo after it gives back the state and both stacks.
  pub redo-undo :
      {h k : History S} {s t : S}
      → IsConsistent h s
      → Session h s k t
      → k.undo_stack ≢ []
      → (let back = undo k t in
          let again = redo back.0 back.1 in
          (back.2 ≡ done)
          × (again.2 ≡ done)
          × (again.1 ≡ t)
          × (again.0.undo_stack ≡ k.undo_stack)
          × (again.0.redo_stack ≡ k.redo_stack))
  redo-undo {k} {t} c r ne = elim (List-cases k.undo_stack) [
    | inl e ↦ absurd (ne e)
    | inr (a, rest, e) ↦
        let (u, b, past) : (u : S) × Between a u t × CanUndo rest u =
          subst (λ acts. CanUndo acts t) e (Session-IsConsistent r c).past in
        rw (undo_done k t a rest e u b) (
          rw
            (redo_done
              (notify
                (record k { undo_stack = rest; redo_stack = a ∷ k.redo_stack; recording = true }))
              u a k.redo_stack refl t b)
            (refl, refl, refl, sym e, refl))
  ]
