-- ===== src/Real.antt =====
-- JavaScript's numbers where they are no integers, as the operations that the program uses. They are
-- the host's: the definitions that compute with them take this record.
use open_workflow_studio.Prelude.{Bool}
use open_workflow_studio.Prelude.Int.{ℤ}

pub record Real : Type 1 where
  pub R : Type 0
  pub of_ℤ : ℤ → R
  pub add : R → R → R
  pub sub : R → R → R
  pub mul : R → R → R
  pub div : R → R → R
  pub neg : R → R
  pub lt : R → R → Bool
  pub round : R → ℤ
