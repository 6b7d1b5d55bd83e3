-- ===== src/History.antt =====
-- core/history.js: `HistoryManager`, undo and redo over actions on a state `S`. The two stacks are
-- lists whose head is the end of the array there. An action may throw, and leaves a state then.
pub mod Push
pub mod Bounds
pub mod Chain
pub mod Batch
use open_workflow_studio.Prelude.{
  ℕ, zero, suc, ◌≡◌, Bool, true, false, not, Option, none, some, List, [], ◌∷◌, ◌++◌, length, ltb,
  if◌then◌else◌, eqb, drop_last,
}
use open_workflow_studio.Text.{Text}

-- How a call on the state ends.
pub data Run {ℓ} (S : Type ℓ) : Type ℓ where
  returns : S → Run S
  throws : S → Run S

pub record Action {ℓ} (S : Type ℓ) : Type ℓ where
  pub description : Text
  pub timestamp : Option ℕ
  pub undo : S → Run S
  pub redo : S → Run S

-- What a listener is told.
pub record Notice : Type 0 where
  pub can_undo : Bool
  pub can_redo : Bool

pub record History {ℓ} (S : Type ℓ) : Type ℓ where
  pub undo_stack : List (Action S)
  pub redo_stack : List (Action S)
  pub max_size : ℕ
  pub recording : Bool
  pub current_batch : Option (List (Action S))
  pub notices : List Notice

-- What `undo` and `redo` give back: true, false, or an exception of the action.
pub data Outcome : Type 0 where
  done nothing raised : Outcome

-- `options.maxSize || 50`
abbrev max_size_or : Option ℕ → ℕ
max_size_or none = 50
max_size_or (some zero) = 50
max_size_or (some (suc n)) = suc n

module _ {ℓ} {S : Type ℓ} where
  abbrev is_empty : List (Action S) → Bool
  is_empty [] = true
  is_empty (_ ∷ _) = false

  pub new_history : Option ℕ → History S
  new_history max_size = record {
    undo_stack = [];
    redo_stack = [];
    max_size = max_size_or max_size;
    recording = true;
    current_batch = none;
    notices = [];
  }

  abbrev pub can_undo : History S → Bool
  can_undo h = not (is_empty h.undo_stack)

  abbrev pub can_redo : History S → Bool
  can_redo h = not (is_empty h.redo_stack)

  -- `_notify`: the latest notice comes first.
  abbrev pub notify : History S → History S
  notify h = record h {
    notices = record { can_undo = can_undo h; can_redo = can_redo h } ∷ h.notices;
  }

  -- `if (this.undoStack.length > this.maxSize) this.undoStack.shift()`
  abbrev pub trim : ℕ → List (Action S) → List (Action S)
  trim n acts = if ltb n (length acts) then drop_last acts else acts

  -- `push`, at the time `now`.
  unfoldable pub push : ℕ → Action S → History S → History S
  push now a h = if not h.recording then h else elim h.current_batch [
    | some batch ↦ record h { current_batch = some (batch ++ a ∷ []) }
    | none ↦ notify (record h {
      undo_stack = trim h.max_size (record a { timestamp = some now } ∷ h.undo_stack);
      redo_stack = [];
    })
  ]

  pub start_batch : History S → History S
  start_batch h = record h { current_batch = some [] }

  -- The loops of a batch's two functions; an exception ends them.
  run_all : List (S → Run S) → S → Run S
  run_all [] s = returns s
  run_all (f ∷ fs) s = elim (f s) [ returns t ↦ run_all fs t | throws t ↦ throws t ]

  redos : List (Action S) → List (S → Run S)
  redos [] = []
  redos (a ∷ acts) = a.redo ∷ redos acts

  -- From the last action to the first.
  undos : List (Action S) → List (S → Run S)
  undos [] = []
  undos (a ∷ acts) = undos acts ++ a.undo ∷ []

  pub batch_action : Text → List (Action S) → Action S
  unfolding run_all redos undos
  batch_action description acts = record {
    description = description;
    timestamp = none;
    undo = run_all (undos acts);
    redo = run_all (redos acts);
  }

  pub commit_batch : ℕ → Text → History S → History S
  commit_batch now description h = elim h.current_batch [
    | none ↦ record h { current_batch = none }
    | some acts ↦ elim acts [
      | [] ↦ record h { current_batch = none }
      | b ∷ bs ↦ push now (batch_action description (b ∷ bs)) (record h { current_batch = none })
    ]
  ]

  -- The part of `undo` behind the action's own. Either way recording is on afterwards.
  pub after_undo : Action S → List (Action S) → History S → Run S → History S × S × Outcome
  after_undo a rest h (returns t) = (
    notify (record h { undo_stack = rest; redo_stack = a ∷ h.redo_stack; recording = true }),
    t,
    done,
  )
  after_undo a rest h (throws t) = (record h { undo_stack = rest; recording = true }, t, raised)

  pub undo : History S → S → History S × S × Outcome
  undo h s = elim h.undo_stack [ [] ↦ (h, s, nothing) | a ∷ rest ↦ after_undo a rest h (a.undo s) ]

  pub after_redo : Action S → List (Action S) → History S → Run S → History S × S × Outcome
  after_redo a rest h (returns t) = (
    notify (record h { redo_stack = rest; undo_stack = a ∷ h.undo_stack; recording = true }),
    t,
    done,
  )
  after_redo a rest h (throws t) = (record h { redo_stack = rest; recording = true }, t, raised)

  pub redo : History S → S → History S × S × Outcome
  redo h s = elim h.redo_stack [ [] ↦ (h, s, nothing) | a ∷ rest ↦ after_redo a rest h (a.redo s) ]

  pub clear : History S → History S
  clear h = notify (record h { undo_stack = []; redo_stack = [] })

  pub pause : History S → History S
  pause h = record h { recording = false }

  pub resume : History S → History S
  resume h = record h { recording = true }
