-- ===== src/Text/Decimal.antt =====
-- Numbers in ids: how a template literal prints a number, and `parseInt(s.replace(/\D/g, ""), 10)`.
-- Exact for the numbers that a JavaScript number holds exactly, those below 2^53.
use open_workflow_studio.Prelude.{
  ℕ, zero, suc, ◌+◌, ◌-◌, ◌*◌, ◌/◌, ◌%◌, ◌<◌, ◌≡◌, refl, Bool, true, ◌&&◌, Option, none, some, List,
  [], ◌∷◌, ◌++◌, arith, ltb, leb, if◌then◌else◌, filter, filter-append, Bool-cases, inl, inr, ◌∙◌,
  ap,
}

abbrev is_digit : ℕ → Bool
is_digit c = leb 48 c && leb c 57

-- The digits are found from the last one.
print_from : ℕ → ℕ → List ℕ → List ℕ
print_from zero n out = out
print_from (suc fuel) n out =
    let rest = print_from fuel (n / 10) ((48 + n % 10) ∷ out) in
    if ltb n 10 then (48 + n % 10) ∷ out else rest

-- `${n}`; a number has no more digits than its value and one.
unfoldable pub print : ℕ → List ℕ
unfolding print_from
print n = print_from (suc n) n []

value : ℕ → List ℕ → ℕ
value acc [] = acc
value acc (c ∷ s) = value (acc * 10 + (c - 48)) s

-- `s.replace(/\D/g, "")`
unfoldable pub only_digits : List ℕ → List ℕ
only_digits s = filter is_digit s

-- `none` is NaN, for a text without a digit.
unfoldable pub parse_digits : List ℕ → Option ℕ
unfolding value only_digits
parse_digits s = elim (only_digits s) [ [] ↦ none | c ∷ ds ↦ some (value 0 (c ∷ ds)) ]

value-print_from :
    (fuel n : ℕ) (out : List ℕ) → n < fuel → value 0 (print_from fuel n out) ≡ value n out
unfolding print_from value
value-print_from zero n out h = absurd (omega arith)
value-print_from (suc fuel) n out h = elim (Bool-cases (ltb n 10)) [
  | inl small ↦ rw small (ap (λ m. value m out) (ground arith))
  | inr large ↦
      let low : n / 10 * 10 + (48 + n % 10 - 48) ≡ n = omega arith in
      let less : n / 10 < fuel = ground arith in
      rw large
        (value-print_from fuel (n / 10) ((48 + n % 10) ∷ out) less ∙ ap (λ m. value m out) low)
]

only_digits-print_from :
    (fuel n : ℕ) (out : List ℕ)
    → only_digits out ≡ out
    → only_digits (print_from fuel n out) ≡ print_from fuel n out
unfolding print_from only_digits
only_digits-print_from zero n out h = h
only_digits-print_from (suc fuel) n out h = elim (Bool-cases (ltb n 10)) [
  | inl small ↦ rw small (longer n out h)
  | inr large ↦
      rw large (only_digits-print_from fuel (n / 10) ((48 + n % 10) ∷ out) (longer n out h))
]
  where
    longer :
        (n : ℕ) (out : List ℕ)
        → filter is_digit out ≡ out
        → filter is_digit ((48 + n % 10) ∷ out) ≡ (48 + n % 10) ∷ out
    longer n out h =
        let d : is_digit (48 + n % 10) ≡ true = ground arith in rw d (ap ((48 + n % 10) ∷◌) h)

print_from_ne :
    (fuel n : ℕ) (c : ℕ) (out : List ℕ)
    → (d : ℕ) × (rest : List ℕ) × (print_from fuel n (c ∷ out) ≡ d ∷ rest)
unfolding print_from
print_from_ne zero n c out = (c, out, refl)
print_from_ne (suc fuel) n c out = elim (Bool-cases (ltb n 10)) [
  | inl small ↦ (48 + n % 10, c ∷ out, rw small refl)
  | inr large ↦
      let (d, rest, e) = print_from_ne fuel (n / 10) (48 + n % 10) (c ∷ out) in
      (d, rest, rw large e)
]

print_ne : (n : ℕ) → (d : ℕ) × (rest : List ℕ) × (print n ≡ d ∷ rest)
unfolding print
print_ne n = elim (Bool-cases (ltb n 10)) [
  | inl small ↦ (48 + n % 10, [], rw small refl)
  | inr large ↦
      let (d, rest, e) = print_from_ne n (n / 10) (48 + n % 10) [] in (d, rest, rw large e)
]

-- The number in an id is read back, whatever text without digits stands in front of it.
pub parse_digits-append-print :
    (p : List ℕ) (n : ℕ) → only_digits p ≡ [] → parse_digits (p ++ print n) ≡ some n
unfolding parse_digits
parse_digits-append-print p n h =
    let (d, rest, e) = print_ne n in
    let digits : only_digits (p ++ print n) ≡ print n =
      unfold only_digits print in
      (filter-append is_digit p (print n) ∙ rw h (only_digits-print_from (suc n) n [] refl)) in
    let back : value 0 (d ∷ rest) ≡ n =
      rw (← e) (unfold print in value-print_from (suc n) n [] (omega arith)) in
    rw (digits ∙ e, parse_digits) (ap some back)

pub parse_digits-nil : parse_digits [] ≡ none
unfolding parse_digits
parse_digits-nil = refl
