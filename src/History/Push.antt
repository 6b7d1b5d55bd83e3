-- ===== src/History/Push.antt =====
-- What `push` does in each of the three modes of the manager.
use open_workflow_studio.Prelude.{ℕ, ◌≡◌, true, false, none, some, List, [], ◌∷◌, ◌++◌}
use open_workflow_studio.History.{Action, History, notify, trim, push}

module _ {ℓ} {S : Type ℓ} (now : ℕ) (a : Action S) (h : History S) where
  -- While recording is off a push is lost.
  pub push_paused : h.recording ≡ false → push now a h ≡ h
  unfolding push
  push_paused off = simp off

  pub push_batched :
      (batch : List (Action S))
      → h.recording ≡ true
      → h.current_batch ≡ some batch
      → push now a h ≡ record h { current_batch = some (batch ++ a ∷ []) }
  unfolding push
  push_batched batch on e = simp (on, e)

  abbrev pub pushed : History S
  pushed = notify (record h {
    undo_stack = trim h.max_size (record a { timestamp = some now } ∷ h.undo_stack);
    redo_stack = [];
  })

  pub push_plain : h.recording ≡ true → h.current_batch ≡ none → push now a h ≡ pushed
  unfolding push
  push_plain on e = simp (on, e)
