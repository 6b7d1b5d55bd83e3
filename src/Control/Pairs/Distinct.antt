-- ===== src/Control/Pairs/Distinct.antt =====
-- Lists of pairs whose ids are distinct, or below a number, through each change of the list.
use open_workflow_studio.Prelude.{ℕ, zero, suc, ◌<◌, ◌≢◌, List, [], ◌∷◌, ◌++◌, arith}
use open_workflow_studio.Text.{Text}
use open_workflow_studio.Control.Pairs.{Pair, remove_at, set_at}

abbrev pub Absent : ℕ → List Pair → Type 0
Absent i [] = Unit
Absent i (p ∷ ps) = (i ≢ p.id) × Absent i ps

abbrev pub Below : ℕ → List Pair → Type 0
Below n [] = Unit
Below n (p ∷ ps) = (p.id < n) × Below n ps

abbrev pub Distinct : List Pair → Type 0
Distinct [] = Unit
Distinct (p ∷ ps) = Absent p.id ps × Distinct ps

pub Absent-Below : (n : ℕ) (ps : List Pair) → Below n ps → Absent n ps
Absent-Below n [] b = tt
Absent-Below n (p ∷ ps) (h, b) = (λ e. omega (arith, e, h), Absent-Below n ps b)

pub Below-up : (n : ℕ) (ps : List Pair) → Below n ps → Below (suc n) ps
Below-up n [] b = tt
Below-up n (p ∷ ps) (h, b) = (omega arith, Below-up n ps b)

pub Below-append :
    (n : ℕ) (p : Pair) (ps : List Pair) → Below n ps → p.id < n → Below n (ps ++ p ∷ [])
Below-append n p [] b h = (h, tt)
Below-append n p (q ∷ ps) (g, b) h = (g, Below-append n p ps b h)

pub Absent-append :
    (i : ℕ) (p : Pair) (ps : List Pair) → Absent i ps → i ≢ p.id → Absent i (ps ++ p ∷ [])
Absent-append i p [] a h = (h, tt)
Absent-append i p (q ∷ ps) (g, a) h = (g, Absent-append i p ps a h)

pub Distinct-append :
    (p : Pair) (ps : List Pair) → Distinct ps → Absent p.id ps → Distinct (ps ++ p ∷ [])
Distinct-append p [] d a = (tt, tt)
Distinct-append p (q ∷ ps) (b, d) (g, a) =
    (Absent-append q.id p ps b (λ e. omega (arith, e, g)), Distinct-append p ps d a)

pub Absent-remove_at : (j i : ℕ) (ps : List Pair) → Absent i ps → Absent i (remove_at j ps)
unfolding remove_at
Absent-remove_at zero i [] a = tt
Absent-remove_at (suc j) i [] a = tt
Absent-remove_at zero i (p ∷ ps) (h, a) = a
Absent-remove_at (suc j) i (p ∷ ps) (h, a) = (h, Absent-remove_at j i ps a)

pub Below-remove_at : (j n : ℕ) (ps : List Pair) → Below n ps → Below n (remove_at j ps)
unfolding remove_at
Below-remove_at zero n [] a = tt
Below-remove_at (suc j) n [] a = tt
Below-remove_at zero n (p ∷ ps) (h, a) = a
Below-remove_at (suc j) n (p ∷ ps) (h, a) = (h, Below-remove_at j n ps a)

pub Distinct-remove_at : (j : ℕ) (ps : List Pair) → Distinct ps → Distinct (remove_at j ps)
unfolding remove_at
Distinct-remove_at zero [] a = tt
Distinct-remove_at (suc j) [] a = tt
Distinct-remove_at zero (p ∷ ps) (h, a) = a
Distinct-remove_at (suc j) (p ∷ ps) (h, a) =
    (Absent-remove_at j p.id ps h, Distinct-remove_at j ps a)

module _ (k v : Text) where
  pub Absent-set_at : (j i : ℕ) (ps : List Pair) → Absent i ps → Absent i (set_at j k v ps)
  unfolding set_at
  Absent-set_at zero i [] a = tt
  Absent-set_at (suc j) i [] a = tt
  Absent-set_at zero i (p ∷ ps) (h, a) = (h, a)
  Absent-set_at (suc j) i (p ∷ ps) (h, a) = (h, Absent-set_at j i ps a)

  pub Below-set_at : (j n : ℕ) (ps : List Pair) → Below n ps → Below n (set_at j k v ps)
  unfolding set_at
  Below-set_at zero n [] a = tt
  Below-set_at (suc j) n [] a = tt
  Below-set_at zero n (p ∷ ps) (h, a) = (h, a)
  Below-set_at (suc j) n (p ∷ ps) (h, a) = (h, Below-set_at j n ps a)

  pub Distinct-set_at : (j : ℕ) (ps : List Pair) → Distinct ps → Distinct (set_at j k v ps)
  unfolding set_at
  Distinct-set_at zero [] a = tt
  Distinct-set_at (suc j) [] a = tt
  Distinct-set_at zero (p ∷ ps) (h, a) = (h, a)
  Distinct-set_at (suc j) (p ∷ ps) (h, a) = (Absent-set_at j p.id ps h, Distinct-set_at j ps a)
