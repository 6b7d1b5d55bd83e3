-- ===== src/Tests/Undoing.antt =====
-- A history over a counter: one action adds one, and takes it back.
use open_workflow_studio.Prelude.{ap, ℕ, suc, ◌-◌, ◌≡◌, ◌≢◌, refl, none, some, [], ◌∷◌, true, arith}
use open_workflow_studio.Text.{codes}
use open_workflow_studio.History.{
  Action, History, returns, new_history, push, undo, redo, done, commit_batch,
}
use open_workflow_studio.History.Chain.{
  Reverts, Between, IsConsistent, Session, start, edits, redo-undo,
}
use open_workflow_studio.History.Bounds.{IsBounded, pushes, Step-IsBounded, new_history-IsBounded}
use open_workflow_studio.History.Batch.{Leads, undo-commit_batch}

abbrev increment : Action ℕ
increment = record {
  description = codes "Increment";
  timestamp = none;
  undo = λ n. returns (n - 1);
  redo = λ n. returns (suc n);
}

increment-Between : (n : ℕ) → Between increment n (suc n)
increment-Between n = record { forth = refl; back = ap returns (omega arith) }

abbrev empty : History ℕ
empty = record {
  undo_stack = [];
  redo_stack = [];
  max_size = 50;
  recording = true;
  current_batch = none;
  notices = [];
}

empty-IsConsistent : IsConsistent empty 0
empty-IsConsistent = record { past = tt; future = tt }

one_edit : Session empty 0 (push 7 increment empty) 1
one_edit = edits 7 increment start refl refl (increment-Between 0)

pushed_ne : (push 7 increment empty).undo_stack ≢ []
unfolding push
pushed_ne e = cc

redo-undo_example :
    let back = undo (push 7 increment empty) 1 in
    let again = redo back.0 back.1 in
    (back.2 ≡ done)
    × (again.2 ≡ done)
    × (again.1 ≡ 1)
    × (again.0.undo_stack ≡ (push 7 increment empty).undo_stack)
    × (again.0.redo_stack ≡ (push 7 increment empty).redo_stack)
redo-undo_example = redo-undo empty-IsConsistent one_edit pushed_ne

Step-IsBounded_example : IsBounded (push 7 increment (new_history (some 2)))
Step-IsBounded_example =
    Step-IsBounded (pushes 7 increment (new_history (some 2))) (new_history-IsBounded (some 2))

abbrev open_batch : History ℕ
open_batch = record empty { current_batch = some (increment ∷ increment ∷ []) }

increments-Leads : Leads (increment ∷ increment ∷ []) 3 5
increments-Leads = (4, increment-Between 3, (5, increment-Between 4, refl))

undo-commit_batch_example : Reverts (commit_batch 9 (codes "Twice") open_batch) 3 5
undo-commit_batch_example =
    undo-commit_batch 9 (codes "Twice") increment (increment ∷ []) open_batch 3 5 refl refl
      (omega arith) increments-Leads
