-- ===== src/Text.antt =====
-- JavaScript strings, as their UTF-16 code units.
pub mod Decimal
pub mod Scan
use Prim.Native.Char.{code}
use Prim.Native.String.{String}
use open_workflow_studio.Prelude.{
  ℕ, ◌≡◌, refl, ◌↔◌, ◌≢◌, Bool, true, false, ◌&&◌, ◌||◌, List, [], ◌∷◌, ◌++◌, arith, eqb, eqb_iff,
  Bool-cases, inl, inr, length, if◌then◌else◌, In,
}

abbrev pub Text : Type 0
Text = List ℕ

-- A literal of the source. All of them are ASCII.
abbrev pub codes : String → Text
codes String.[] = []
codes (String.◌∷◌ c s) = code c ∷ codes s

-- `a === b` on strings.
infix 50 ◌==◌
unfoldable pub ◌==◌ : Text → Text → Bool
[] == [] = true
[] == (_ ∷ _) = false
(_ ∷ _) == [] = false
(a ∷ s) == (b ∷ t) = eqb a b && s == t

pub ==_iff : (s t : Text) → ((s == t) ≡ true) ↔ (s ≡ t)
unfolding ◌==◌
==_iff [] [] = (λ _. refl, λ _. refl)
==_iff [] (_ ∷ _) = (λ h. cc, λ h. cc)
==_iff (_ ∷ _) [] = (λ h. cc, λ h. cc)
==_iff (a ∷ s) (b ∷ t) = ground (arith, ==_iff s t)

pub ==_refl : (s : Text) → (s == s) ≡ true
==_refl s = (==_iff s s).1 refl

pub ==_ne : (s t : Text) → s ≢ t → (s == t) ≡ false
==_ne s t h = ground (arith, ==_iff s t)

-- Sets of strings (`Set`), in order of insertion, and `includes`.
unfoldable pub mem : Text → List Text → Bool
mem x [] = false
mem x (y ∷ ys) = x == y || mem x ys

unfoldable pub add : Text → List Text → List Text
add x xs = if mem x xs then xs else xs ++ x ∷ []

unfoldable pub delete : Text → List Text → List Text
delete x [] = []
delete x (y ∷ ys) = let rest = delete x ys in if x == y then rest else y ∷ rest

pub mem-append : (x : Text) (xs ys : List Text) → mem x (xs ++ ys) ≡ (mem x xs || mem x ys)
unfolding mem
mem-append x [] ys = refl
mem-append x (y ∷ xs) ys = ground (arith, mem-append x xs ys)

pub mem-add : (x y : Text) (xs : List Text) → mem x (add y xs) ≡ (x == y || mem x xs)
unfolding add mem
mem-add x y xs = ground (arith, mem-append x xs (y ∷ []), ==_iff x y)

pub mem-delete :
    (x y : Text) (xs : List Text) → mem x (delete y xs) ≡ (if y == x then false else mem x xs)
unfolding delete mem
mem-delete x y [] = ground arith
mem-delete x y (z ∷ xs) = ground (arith, mem-delete x y xs, ==_iff y x, ==_iff y z, ==_iff x z)

-- No text stands twice.
abbrev pub NoRepeat : List Text → Type 0
NoRepeat [] = Unit
NoRepeat (x ∷ xs) = (mem x xs ≡ false) × NoRepeat xs

pub NoRepeat-append :
    (y : Text) (xs : List Text) → NoRepeat xs → mem y xs ≡ false → NoRepeat (xs ++ y ∷ [])
unfolding mem
NoRepeat-append y [] h n = (refl, tt)
NoRepeat-append y (x ∷ xs) h n =
    ground (arith, NoRepeat-append y xs, mem-append x xs (y ∷ []), ==_iff x y, ==_iff y x)

pub mem-In : (x : Text) (xs : List Text) → (mem x xs ≡ true) ↔ In x xs
unfolding mem
mem-In x [] = (λ h. cc, λ h. absurd h)
mem-In x (y ∷ xs) = ground (arith, mem-In x xs, ==_iff x y)
