-- ===== src/Control/Pairs/Numbered.antt =====
-- The ids of the pairs stay distinct, and below the next one to give.
use open_workflow_studio.Prelude.{
  sym, ◌⊎◌, ◌∙◌, subst, ℕ, zero, suc, ◌<◌, ◌≤◌, ◌≡◌, ◌≢◌, refl, Option, some, List, [], ◌∷◌, length,
  ltb, arith, Bool-cases, inl, inr,
}
use open_workflow_studio.Text.{Text}
use open_workflow_studio.Control.Pairs.{
  or_text, StoredPair, KeyValueControl, stored_id, max_id, number_pairs, new_key_value, add_pair,
  remove_pair, set_pair, PairCall, adds, removes, sets, call_all, initial_pairs,
}
use open_workflow_studio.Control.Pairs.Distinct.{
  Absent, Absent-Below, Below, Below-append, Below-remove_at, Below-set_at, Below-up, Distinct,
  Distinct-append, Distinct-remove_at, Distinct-set_at,
}

pub record IsNumbered (c : KeyValueControl) : Type 0 where
  pub distinct : Distinct c.value
  pub below : Below c.next_id c.value

add_pair-IsNumbered : (c : KeyValueControl) → IsNumbered c → IsNumbered (add_pair c)
unfolding add_pair
add_pair-IsNumbered c h = record {
  distinct = Distinct-append _ c.value h.distinct (Absent-Below c.next_id c.value h.below);
  below = Below-append _ _ c.value (Below-up c.next_id c.value h.below) (omega arith);
}

remove_pair-IsNumbered : (i : ℕ) (c : KeyValueControl) → IsNumbered c → IsNumbered (remove_pair i c)
unfolding remove_pair
remove_pair-IsNumbered i c h = elim (Bool-cases (ltb 1 (length c.value))) [
  | inl e ↦ rw e (record {
    distinct = Distinct-remove_at i c.value h.distinct;
    below = Below-remove_at i c.next_id c.value h.below;
  })
  | inr e ↦ rw e h
]

set_pair-IsNumbered :
    (i : ℕ) (k v : Text) (c : KeyValueControl) → IsNumbered c → IsNumbered (set_pair i k v c)
unfolding set_pair
set_pair-IsNumbered i k v c h = record {
  distinct = Distinct-set_at k v i c.value h.distinct;
  below = Below-set_at k v i c.next_id c.value h.below;
}

call_all-IsNumbered :
    (cs : List PairCall) (c : KeyValueControl) → IsNumbered c → IsNumbered (call_all cs c)
unfolding call_all
call_all-IsNumbered [] c h = h
call_all-IsNumbered (adds ∷ cs) c h = call_all-IsNumbered cs (add_pair c) (add_pair-IsNumbered c h)
call_all-IsNumbered (removes i ∷ cs) c h =
    call_all-IsNumbered cs (remove_pair i c) (remove_pair-IsNumbered i c h)
call_all-IsNumbered (sets i k v ∷ cs) c h =
    call_all-IsNumbered cs (set_pair i k v c) (set_pair-IsNumbered i k v c h)

-- No stored pair has the id `i`.
abbrev pub StoredAbsent : ℕ → List StoredPair → Type 0
StoredAbsent i [] = Unit
StoredAbsent i (p ∷ ps) = (i ≢ stored_id p) × StoredAbsent i ps

-- The ids that are given, and not 0, are distinct.
abbrev pub StoredDistinct : List StoredPair → Type 0
StoredDistinct [] = Unit
StoredDistinct (p ∷ ps) = (stored_id p ≢ 0 → StoredAbsent (stored_id p) ps) × StoredDistinct ps

abbrev pub StoredBelow : ℕ → List StoredPair → Type 0
StoredBelow n [] = Unit
StoredBelow n (p ∷ ps) = (stored_id p < n) × StoredBelow n ps

StoredBelow-up : (m n : ℕ) (ps : List StoredPair) → m ≤ n → StoredBelow m ps → StoredBelow n ps
StoredBelow-up m n [] h b = tt
StoredBelow-up m n (p ∷ ps) h (g, b) = (omega arith, StoredBelow-up m n ps h b)

StoredBelow-max_id : (ps : List StoredPair) → StoredBelow (suc (max_id ps)) ps
unfolding max_id
StoredBelow-max_id [] = tt
StoredBelow-max_id (p ∷ ps) =
    (omega arith, StoredBelow-up _ _ ps (omega arith) (StoredBelow-max_id ps))

StoredAbsent-StoredBelow : (n : ℕ) (ps : List StoredPair) → StoredBelow n ps → StoredAbsent n ps
StoredAbsent-StoredBelow n [] b = tt
StoredAbsent-StoredBelow n (p ∷ ps) (h, b) =
    (λ e. omega (arith, e, h), StoredAbsent-StoredBelow n ps b)

ℕ-cases : (n : ℕ) → (n ≡ 0) ⊎ ((m : ℕ) × (n ≡ suc m))
ℕ-cases zero = inl refl
ℕ-cases (suc m) = inr (m, refl)

number_pairs_zero :
    (n : ℕ) (p : StoredPair) (ps : List StoredPair)
    → stored_id p ≡ 0
    → number_pairs n (p ∷ ps) ≡ (
      record { id = n; key = or_text p.key []; value = or_text p.value [] }
          ∷ (number_pairs (suc n) ps).0,
      (number_pairs (suc n) ps).1,
    )
unfolding number_pairs
number_pairs_zero n p ps e = rw (e, number_pairs) refl

number_pairs-suc :
    (n i : ℕ) (p : StoredPair) (ps : List StoredPair)
    → stored_id p ≡ suc i
    → number_pairs n (p ∷ ps) ≡ (
      record { id = suc i; key = or_text p.key []; value = or_text p.value [] }
          ∷ (number_pairs n ps).0,
      (number_pairs n ps).1,
    )
unfolding number_pairs
number_pairs-suc n i p ps e = rw (e, number_pairs) refl

-- A number that neither is stored nor comes from the counter.
Absent-number_pairs :
    (j n : ℕ) (ps : List StoredPair) → j < n → StoredAbsent j ps → Absent j (number_pairs n ps).0
unfolding number_pairs
Absent-number_pairs j n [] h a = tt
Absent-number_pairs j n (p ∷ ps) h (g, a) = elim (ℕ-cases (stored_id p)) [
  | inl e ↦
      rw (number_pairs_zero n p ps e)
        (λ f. omega (arith, f, h), Absent-number_pairs j (suc n) ps (omega arith) a)
  | inr (i, e) ↦
      rw (number_pairs-suc n i p ps e) (λ f. g (f ∙ sym e), Absent-number_pairs j n ps h a)
]

Distinct-number_pairs :
    (n : ℕ) (ps : List StoredPair)
    → StoredBelow n ps
    → StoredDistinct ps
    → Distinct (number_pairs n ps).0
unfolding number_pairs
Distinct-number_pairs n [] b d = tt
Distinct-number_pairs n (p ∷ ps) (h, b) (g, d) = elim (ℕ-cases (stored_id p)) [
  | inl e ↦ rw (number_pairs_zero n p ps e) (
    Absent-number_pairs n (suc n) ps (omega arith) (StoredAbsent-StoredBelow n ps b),
    Distinct-number_pairs (suc n) ps (StoredBelow-up _ _ ps (omega arith) b) d,
  )
  | inr (i, e) ↦ rw (number_pairs-suc n i p ps e) (
    Absent-number_pairs (suc i) n ps (omega (arith, e, h))
        (subst (λ k. StoredAbsent k ps) e (g (λ z. omega (arith, e, z)))),
    Distinct-number_pairs n ps b d,
  )
]

number_pairs_grows : (n : ℕ) (ps : List StoredPair) → n ≤ (number_pairs n ps).1
unfolding number_pairs
number_pairs_grows n [] = omega arith
number_pairs_grows n (p ∷ ps) = elim (ℕ-cases (stored_id p)) [
  | inl e ↦ rw (number_pairs_zero n p ps e) (omega (arith, number_pairs_grows (suc n) ps))
  | inr (i, e) ↦ rw (number_pairs-suc n i p ps e) (number_pairs_grows n ps)
]

Below-number_pairs :
    (n : ℕ) (ps : List StoredPair)
    → StoredBelow n ps
    → Below (number_pairs n ps).1 (number_pairs n ps).0
unfolding number_pairs
Below-number_pairs n [] b = tt
Below-number_pairs n (p ∷ ps) (h, b) = elim (ℕ-cases (stored_id p)) [
  | inl e ↦ rw (number_pairs_zero n p ps e) (
    omega (arith, number_pairs_grows (suc n) ps),
    Below-number_pairs (suc n) ps (StoredBelow-up _ _ ps (omega arith) b),
  )
  | inr (i, e) ↦
      rw (number_pairs-suc n i p ps e)
        (omega (arith, number_pairs_grows n ps, e, h), Below-number_pairs n ps b)
]

-- When the ids that the default value gives, and are not 0, are distinct, the control that is made
-- from it and then changed by any sequence of added, removed and changed pairs has pairs with
-- distinct ids, all below the next one to give.
pub new_key_value-IsNumbered :
    (key : Text) (label key_placeholder value_placeholder : Option Text) (ps : List StoredPair)
    (cs : List PairCall)
    → StoredDistinct ps
    → IsNumbered (call_all cs (new_key_value key label key_placeholder value_placeholder (some ps)))
unfolding new_key_value initial_pairs
new_key_value-IsNumbered key label key_placeholder value_placeholder ps cs d =
    call_all-IsNumbered cs _ (record {
      distinct = Distinct-number_pairs (suc (max_id ps)) ps (StoredBelow-max_id ps) d;
      below = Below-number_pairs (suc (max_id ps)) ps (StoredBelow-max_id ps);
    })
