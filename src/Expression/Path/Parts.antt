-- ===== src/Expression/Path/Parts.antt =====
-- utils/expression_utils.js: the parts that a path can be written from, and how they are scanned.
use open_workflow_studio.Prelude.{
  ℕ, suc, ◌+◌, ◌-◌, ◌≡◌, refl, ◌∙◌, sym, ap, Bool, true, false, not, ◌&&◌, List, [], ◌∷◌, ◌++◌, eqb,
  arith, length, length-append, some, any, All, Bool-cases, inl, inr, append_assoc, append-nil,
}
use open_workflow_studio.Text.{Text, codes}
use open_workflow_studio.Text.Scan.{
  is_digit, is_name_start, is_word, all, take_while, starts_with, Stops, take_while-append,
  drop_while-append, all-any,
}
use open_workflow_studio.Expression.Path.{
  part_path, extend_path, match_name, match_quoted, match_index, match_bracket, match_part,
  scan_parts, drop_dot,
}

-- `[a-zA-Z_][a-zA-Z0-9_]*`
abbrev pub is_name : Text → Bool
is_name [] = false
is_name (c ∷ s) = is_name_start c && all is_word s

abbrev pub lacks : ℕ → Text → Bool
lacks q s = all (λ c. not (eqb c q)) s

-- The parts that a path can be written from: an index, a name, or a text that is quoted for one of
-- its characters and holds no quote.
pub data IsPart : Text → Type 0 where
  index : (c : ℕ) (s : Text) → all is_digit (c ∷ s) ≡ true → IsPart (c ∷ s)
  name : (c : ℕ) (s : Text) → is_name_start c ≡ true → all is_word s ≡ true → IsPart (c ∷ s)
  quoted :
      (c : ℕ) (s : Text) → all is_word (c ∷ s) ≡ false → lacks b'\'' (c ∷ s) ≡ true → IsPart (c ∷ s)

scan_skip : (s rest : Text) → scan_parts (length s) (s ++ rest) ≡ scan_parts 0 rest
unfolding scan_parts
scan_skip [] rest = refl
scan_skip (c ∷ s) rest = scan_skip s rest

-- A match that takes one character and `s`.
scan_match :
    (c : ℕ) (s text rest part : Text) (n : ℕ)
    → text ≡ s ++ rest
    → match_part (c ∷ text) ≡ some (part, n)
    → n ≡ suc (length s)
    → scan_parts 0 (c ∷ text) ≡ part ∷ scan_parts 0 rest
unfolding scan_parts
scan_match c s text rest part n t e l =
    let less : n - 1 ≡ length s = omega (arith, l) in
    rw (e, scan_parts) (ap (part ∷◌) (rw (less, t) (scan_skip s rest)))

pub matched_index :
    (c : ℕ) (s rest : Text)
    → all is_digit (c ∷ s) ≡ true
    → match_index ((c ∷ s) ++ (b']' ∷ rest)) ≡ some (c ∷ s, length (c ∷ s) + 2)
unfolding match_index starts_with
matched_index c s rest h =
    rw (take_while-append is_digit (c ∷ s) (b']' ∷ rest) h refl, match_index)
      (rw (drop_while-append is_digit (c ∷ s) (b']' ∷ rest) h refl) refl)

pub matched_quoted :
    (q c : ℕ) (s rest : Text)
    → lacks q (c ∷ s) ≡ true
    → match_quoted q ((c ∷ s) ++ (q ∷ b']' ∷ rest)) ≡ some (c ∷ s, length (c ∷ s) + 4)
unfolding match_quoted starts_with
matched_quoted q c s rest h =
    let quote : not (eqb q q) ≡ false = ground arith in
    rw (take_while-append (λ d. not (eqb d q)) (c ∷ s) (q ∷ b']' ∷ rest) h quote, match_quoted)
      (rw (drop_while-append (λ d. not (eqb d q)) (c ∷ s) (q ∷ b']' ∷ rest) h quote) (ground arith))

module _ (rest : Text) where
  scan_index :
      (c : ℕ) (s : Text)
      → all is_digit (c ∷ s) ≡ true
      → scan_parts 0 (codes "[" ++ ((c ∷ s) ++ (codes "]" ++ rest))) ≡ (c ∷ s) ∷ scan_parts 0 rest
  unfolding match_part match_bracket all
  scan_index c s h =
      let single : eqb c b'\'' ≡ false = ground arith in
      let double : eqb c b'"' ≡ false = ground arith in
      scan_match b'[' ((c ∷ s) ++ b']' ∷ []) _ rest (c ∷ s) (length (c ∷ s) + 2)
        (sym (append_assoc (c ∷ s) (b']' ∷ []) rest))
        (rw (single, match_bracket) (rw double (matched_index c s rest h)))
        (omega (arith, length-append (c ∷ s) (b']' ∷ [])))

  scan_quoted :
      (c : ℕ) (s : Text)
      → lacks b'\'' (c ∷ s) ≡ true
      → scan_parts 0 (codes "['" ++ ((c ∷ s) ++ (codes "']" ++ rest))) ≡ (c ∷ s) ∷ scan_parts 0 rest
  unfolding match_part match_bracket
  scan_quoted c s h =
      scan_match b'[' (b'\'' ∷ ((c ∷ s) ++ codes "']")) _ rest (c ∷ s) (length (c ∷ s) + 4)
        (ap (b'\'' ∷◌) (sym (append_assoc (c ∷ s) (codes "']") rest)))
        (matched_quoted b'\'' c s rest h) (omega (arith, length-append (c ∷ s) (codes "']")))

  pub scan_double_quoted :
      (c : ℕ) (s : Text)
      → lacks b'"' (c ∷ s) ≡ true
      → scan_parts 0 (codes "[\"" ++ ((c ∷ s) ++ (codes "\"]" ++ rest)))
        ≡ (c ∷ s) ∷ scan_parts 0 rest
  unfolding match_part match_bracket
  scan_double_quoted c s h =
      scan_match b'[' (b'"' ∷ ((c ∷ s) ++ codes "\"]")) _ rest (c ∷ s) (length (c ∷ s) + 4)
        (ap (b'"' ∷◌) (sym (append_assoc (c ∷ s) (codes "\"]") rest)))
        (matched_quoted b'"' c s rest h) (omega (arith, length-append (c ∷ s) (codes "\"]")))

  pub scan_name :
      (c : ℕ) (s : Text)
      → is_name_start c ≡ true
      → all is_word s ≡ true
      → Stops is_word rest
      → (scan_parts 0 (codes "." ++ ((c ∷ s) ++ rest)) ≡ (c ∷ s) ∷ scan_parts 0 rest)
        × (scan_parts 0 ((c ∷ s) ++ rest) ≡ (c ∷ s) ∷ scan_parts 0 rest)
  unfolding match_part match_name
  scan_name c s h g k =
      let t : take_while is_word (s ++ rest) ≡ s = take_while-append is_word s rest g k in
      let plain : eqb c b'.' ≡ false = ground arith in
      let open_ : eqb c b'[' ≡ false = ground arith in
      (
        scan_match b'.' (c ∷ s) _ rest (c ∷ s) (1 + length (c ∷ s)) refl (rw (h, t) refl)
            (omega arith),
        scan_match c s _ rest (c ∷ s) (0 + length (c ∷ s)) refl (rw (plain, open_, h, t) refl)
            (omega arith),
      )

-- What `extend_path` adds.
abbrev pub paths : List Text → Text
paths [] = []
paths (part ∷ parts) = part_path part ++ paths parts

pub extend_path-paths :
    (parts : List Text) (path : Text) → extend_path path parts ≡ path ++ paths parts
unfolding extend_path
extend_path-paths [] path = sym (append-nil path)
extend_path-paths (part ∷ parts) path =
    extend_path-paths parts (path ++ part_path part)
    ∙ append_assoc path (part_path part) (paths parts)

index_path :
    (c : ℕ) (s : Text)
    → all is_digit (c ∷ s) ≡ true
    → part_path (c ∷ s) ≡ codes "[" ++ ((c ∷ s) ++ codes "]")
unfolding part_path
index_path c s h = rw h refl

name_path :
    (c : ℕ) (s : Text)
    → is_name_start c ≡ true
    → all is_word s ≡ true
    → part_path (c ∷ s) ≡ codes "." ++ (c ∷ s)
unfolding part_path all
name_path c s h g =
    let letter : is_digit c ≡ false = ground arith in
    let plain : any (λ d. not (is_word d)) s ≡ false = all-any is_word s ∙ rw g refl in
    rw (letter, h, plain) refl

digits-words : (s : Text) → all is_digit s ≡ true → all is_word s ≡ true
unfolding all
digits-words [] h = refl
digits-words (c ∷ s) h = ground (arith, digits-words s)

quoted_path :
    (c : ℕ) (s : Text)
    → all is_word (c ∷ s) ≡ false
    → part_path (c ∷ s) ≡ codes "['" ++ ((c ∷ s) ++ codes "']")
unfolding part_path
quoted_path c s h =
    let special : any (λ d. not (is_word d)) (c ∷ s) ≡ true = all-any is_word (c ∷ s) ∙ rw h refl in
    elim (Bool-cases (all is_digit (c ∷ s))) [
      | inl digits ↦ absurd (ground (arith, digits-words (c ∷ s) digits))
      | inr other ↦ rw (other, special) refl
    ]

pub paths-Stops : (parts : List Text) → All IsPart parts → Stops is_word (paths parts)
paths-Stops [] h = tt
paths-Stops (_ ∷ parts) (index c s d, h) = rw (index_path c s d) refl
paths-Stops (_ ∷ parts) (name c s d w, h) = rw (name_path c s d w) refl
paths-Stops (_ ∷ parts) (quoted c s d w, h) = rw (quoted_path c s d) refl

module _ (c : ℕ) (s rest : Text) where
  pub index_text :
      all is_digit (c ∷ s) ≡ true
      → part_path (c ∷ s) ++ rest ≡ codes "[" ++ ((c ∷ s) ++ (codes "]" ++ rest))
  index_text h = rw (index_path c s h) (ap (b'[' ∷◌) (append_assoc (c ∷ s) (codes "]") rest))

  pub name_text :
      is_name_start c ≡ true
      → all is_word s ≡ true
      → part_path (c ∷ s) ++ rest ≡ codes "." ++ ((c ∷ s) ++ rest)
  name_text h g = rw (name_path c s h g) refl

  pub quoted_text :
      all is_word (c ∷ s) ≡ false
      → part_path (c ∷ s) ++ rest ≡ codes "['" ++ ((c ∷ s) ++ (codes "']" ++ rest))
  quoted_text h =
      rw (quoted_path c s h) (ap (λ t. codes "['" ++ t) (append_assoc (c ∷ s) (codes "']") rest))

-- Every part is found, also where the dot in front of the first was dropped.
pub scan-paths :
    (parts : List Text)
    → All IsPart parts
    → (scan_parts 0 (paths parts) ≡ parts) × (scan_parts 0 (drop_dot (paths parts)) ≡ parts)
unfolding scan_parts drop_dot
scan-paths [] h = (refl, refl)
scan-paths (_ ∷ parts) (index c s d, h) =
    let found : scan_parts 0 (codes "[" ++ ((c ∷ s) ++ (codes "]" ++ paths parts)))
        ≡ (c ∷ s) ∷ parts =
      scan_index (paths parts) c s d ∙ ap ((c ∷ s) ∷◌) (scan-paths parts h).0 in
    rw (index_text c s (paths parts) d) (found, found)
scan-paths (_ ∷ parts) (name c s d w, h) =
    let (dotted, bare) = scan_name (paths parts) c s d w (paths-Stops parts h) in
    let behind : (c ∷ s) ∷ scan_parts 0 (paths parts) ≡ (c ∷ s) ∷ parts =
      ap ((c ∷ s) ∷◌) (scan-paths parts h).0 in
    rw (name_text c s (paths parts) d w) (dotted ∙ behind, bare ∙ behind)
scan-paths (_ ∷ parts) (quoted c s d w, h) =
    let found : scan_parts 0 (codes "['" ++ ((c ∷ s) ++ (codes "']" ++ paths parts)))
        ≡ (c ∷ s) ∷ parts =
      scan_quoted (paths parts) c s w ∙ ap ((c ∷ s) ∷◌) (scan-paths parts h).0 in
    rw (quoted_text c s (paths parts) d) (found, found)
