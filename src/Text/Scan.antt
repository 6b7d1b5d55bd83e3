-- ===== src/Text/Scan.antt =====
-- Scanning strings: character classes of the regular expressions, runs of a class, `trim`.
use open_workflow_studio.Prelude.{
  ℕ, ◌≡◌, refl, Bool, true, false, not, ◌&&◌, ◌||◌, [], ◌∷◌, ◌++◌, arith, eqb, leb, if◌then◌else◌,
  any,
}
use open_workflow_studio.Text.{Text}

abbrev pub is_digit : ℕ → Bool
is_digit c = leb b'0' c && leb c b'9'

-- `[a-zA-Z_]`
abbrev pub is_name_start : ℕ → Bool
is_name_start c = leb b'a' c && leb c b'z' || leb b'A' c && leb c b'Z' || eqb c b'_'

-- `\w`
abbrev pub is_word : ℕ → Bool
is_word c = is_name_start c || is_digit c

-- `\s`, which `trim` cuts.
abbrev pub is_space : ℕ → Bool
is_space c =
    leb 9 c && leb c 13
    || eqb c 32
    || eqb c 160
    || eqb c 5760
    || leb 8192 c && leb c 8202
    || eqb c 8232
    || eqb c 8233
    || eqb c 8239
    || eqb c 8287
    || eqb c 12288
    || eqb c 65279

-- What `.` does not match.
abbrev pub is_line_end : ℕ → Bool
is_line_end c = eqb c 10 || eqb c 13 || eqb c 8232 || eqb c 8233

unfoldable pub all : (ℕ → Bool) → Text → Bool
all p [] = true
all p (c ∷ s) = p c && all p s

-- The longest run at the front, and what is behind it.
unfoldable pub take_while : (ℕ → Bool) → Text → Text
take_while p [] = []
take_while p (c ∷ s) = if p c then c ∷ take_while p s else []

unfoldable pub drop_while : (ℕ → Bool) → Text → Text
drop_while p [] = []
drop_while p (c ∷ s) = elim (p c) [ true ↦ drop_while p s | false ↦ c ∷ s ]

unfoldable pub starts_with : Text → Text → Bool
starts_with [] s = true
starts_with (p ∷ ps) [] = false
starts_with (p ∷ ps) (c ∷ s) = eqb p c && starts_with ps s

-- `s.trim()`: the spaces behind the last other character go with it.
unfoldable pub trim_end : Text → Text
trim_end [] = []
trim_end (c ∷ s) =
    let rest = trim_end s in
    elim rest [ [] ↦ if is_space c then [] else c ∷ [] | d ∷ t ↦ c ∷ d ∷ t ]

abbrev pub trim : Text → Text
trim s = trim_end (drop_while is_space s)

-- The text does not begin with a character of the class.
abbrev pub Stops : (ℕ → Bool) → Text → Type 0
Stops p [] = Unit
Stops p (c ∷ s) = p c ≡ false

module _ (p : ℕ → Bool) where
  pub take_while-append :
      (s rest : Text) → all p s ≡ true → Stops p rest → take_while p (s ++ rest) ≡ s
  unfolding all take_while
  take_while-append [] [] h k = refl
  take_while-append [] (c ∷ rest) h k = rw k refl
  take_while-append (c ∷ s) rest h k = ground (arith, take_while-append s rest)

  pub drop_while-append :
      (s rest : Text) → all p s ≡ true → Stops p rest → drop_while p (s ++ rest) ≡ rest
  unfolding all drop_while
  drop_while-append [] [] h k = refl
  drop_while-append [] (c ∷ rest) h k = rw k refl
  drop_while-append (c ∷ s) rest h k = ground (arith, drop_while-append s rest)

pub all-any : (p : ℕ → Bool) (s : Text) → any (λ c. not (p c)) s ≡ not (all p s)
unfolding all
all-any p [] = refl
all-any p (c ∷ s) = ground (arith, all-any p s)
