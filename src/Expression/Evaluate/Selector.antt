-- ===== src/Expression/Evaluate/Selector.antt =====
-- A path that is written from parts is a simple selector, and is trimmed already.
use open_workflow_studio.Prelude.{
  subst, ℕ, suc, ◌+◌, ◌-◌, ◌≡◌, refl, ◌∙◌, sym, ap, true, false, not, List, [], ◌∷◌, ◌++◌, eqb,
  arith, length, length-append, some, All, append_assoc, append-nil,
}
use open_workflow_studio.Text.{Text, codes}
use open_workflow_studio.Text.Scan.{
  is_digit, is_name_start, is_word, is_space, all, take_while-append, trim_end, Stops,
}
use open_workflow_studio.Expression.Path.{part_path, match_name, match_bracket}
use open_workflow_studio.Expression.Path.Parts.{
  IsPart, index, name, quoted, matched_index, matched_quoted, paths, paths-Stops, index_text,
  name_text, quoted_text,
}
use open_workflow_studio.Expression.Evaluate.{match_selector, are_selectors, strip_prefix}

selectors_skip : (s rest : Text) → are_selectors (length s) (s ++ rest) ≡ are_selectors 0 rest
unfolding are_selectors
selectors_skip [] rest = refl
selectors_skip (c ∷ s) rest = selectors_skip s rest

selectors_match :
    (c : ℕ) (s text rest part : Text) (n : ℕ)
    → text ≡ s ++ rest
    → match_selector (c ∷ text) ≡ some (part, n)
    → n ≡ suc (length s)
    → are_selectors 0 (c ∷ text) ≡ are_selectors 0 rest
unfolding are_selectors
selectors_match c s text rest part n t e l =
    let less : n - 1 ≡ length s = omega (arith, l) in
    rw (e, are_selectors) (rw (less, t) (selectors_skip s rest))

module _ (rest : Text) (c : ℕ) (s : Text) where
  selectors_index :
      all is_digit (c ∷ s) ≡ true
      → are_selectors 0 (codes "[" ++ ((c ∷ s) ++ (codes "]" ++ rest))) ≡ are_selectors 0 rest
  unfolding match_selector match_bracket all
  selectors_index h =
      let single : eqb c b'\'' ≡ false = ground arith in
      let double : eqb c b'"' ≡ false = ground arith in
      selectors_match b'[' ((c ∷ s) ++ b']' ∷ []) _ rest (c ∷ s) (length (c ∷ s) + 2)
        (sym (append_assoc (c ∷ s) (b']' ∷ []) rest))
        (rw (single, match_bracket) (rw double (matched_index c s rest h)))
        (omega (arith, length-append (c ∷ s) (b']' ∷ [])))

  selectors_quoted :
      all (λ d. not (eqb d b'\'')) (c ∷ s) ≡ true
      → are_selectors 0 (codes "['" ++ ((c ∷ s) ++ (codes "']" ++ rest))) ≡ are_selectors 0 rest
  unfolding match_selector match_bracket
  selectors_quoted h =
      selectors_match b'[' (b'\'' ∷ ((c ∷ s) ++ codes "']")) _ rest (c ∷ s) (length (c ∷ s) + 4)
        (ap (b'\'' ∷◌) (sym (append_assoc (c ∷ s) (codes "']") rest)))
        (matched_quoted b'\'' c s rest h) (omega (arith, length-append (c ∷ s) (codes "']")))

  selectors_name :
      is_name_start c ≡ true
      → all is_word s ≡ true
      → Stops is_word rest
      → are_selectors 0 (codes "." ++ ((c ∷ s) ++ rest)) ≡ are_selectors 0 rest
  unfolding match_selector match_name
  selectors_name h g k =
      selectors_match b'.' (c ∷ s) _ rest (c ∷ s) (1 + length (c ∷ s)) refl
        (rw (h, take_while-append is_word s rest g k) refl) (omega arith)

pub are_selectors-paths :
    (parts : List Text) → All IsPart parts → are_selectors 0 (paths parts) ≡ true
unfolding are_selectors
are_selectors-paths [] h = refl
are_selectors-paths (_ ∷ parts) (index c s d, h) =
    rw (index_text c s (paths parts) d)
      (selectors_index (paths parts) c s d ∙ are_selectors-paths parts h)
are_selectors-paths (_ ∷ parts) (name c s d w, h) =
    rw (name_text c s (paths parts) d w)
      (selectors_name (paths parts) c s d w (paths-Stops parts h) ∙ are_selectors-paths parts h)
are_selectors-paths (_ ∷ parts) (quoted c s d w, h) =
    rw (quoted_text c s (paths parts) d)
      (selectors_quoted (paths parts) c s w ∙ are_selectors-paths parts h)

pub strip_prefix-append : (p s : Text) → strip_prefix p (p ++ s) ≡ some s
unfolding strip_prefix
strip_prefix-append [] s = refl
strip_prefix-append (c ∷ p) s = ground (arith, strip_prefix-append p s)

-- Spaces in front of which nothing else stands.
module _ (r : Text) (blank : trim_end r ≡ []) where
  trim_end-cons : (c d : ℕ) (s t : Text) → trim_end s ≡ d ∷ t → trim_end (c ∷ s) ≡ c ∷ d ∷ t
  unfolding trim_end
  trim_end-cons c d s t e = rw (e, trim_end) refl

  trim_end_one : (c : ℕ) → is_space c ≡ false → trim_end (c ∷ r) ≡ c ∷ []
  unfolding trim_end
  trim_end_one c h = rw (blank, trim_end) (rw h refl)

  trim_end_word : (c : ℕ) (s : Text) → all is_word (c ∷ s) ≡ true → trim_end ((c ∷ s) ++ r) ≡ c ∷ s
  unfolding all
  trim_end_word c [] h = trim_end_one c (ground arith)
  trim_end_word c (d ∷ s) h = trim_end-cons c d _ s (trim_end_word d s (ground arith))

trim_end-append :
    (a b : Text) (d : ℕ) (t : Text) → trim_end b ≡ d ∷ t → trim_end (a ++ b) ≡ a ++ (d ∷ t)
unfolding trim_end
trim_end-append [] b d t e = e
trim_end-append (c ∷ []) b d t e = rw (e, trim_end) refl
trim_end-append (c ∷ x ∷ a) b d t e = rw (trim_end-append (x ∷ a) b d t e, trim_end) refl

-- A text that ends in no space, with its first character.
abbrev Solid : Text → Text → Type 0
Solid r s = (d : ℕ) × (t : Text) × (s ≡ d ∷ t) × (trim_end (s ++ r) ≡ s)

Solid-subst : (r s s' : Text) → s ≡ s' → Solid r s' → Solid r s
Solid-subst r s s' e h = subst (Solid r) (sym e) h

Solid-append : (r a b : Text) → Solid r b → Solid r (a ++ b)
Solid-append r [] b h = h
Solid-append r (c ∷ a) b (d, t, e, h) = (
  c,
  a ++ b,
  refl,
  ap trim_end (append_assoc (c ∷ a) b r)
      ∙ trim_end-append (c ∷ a) (b ++ r) d t (h ∙ e)
      ∙ ap (λ u. (c ∷ a) ++ u) (sym e),
)

module _ (r : Text) (blank : trim_end r ≡ []) where
  Solid-word_run : (c : ℕ) (s : Text) → all is_word (c ∷ s) ≡ true → Solid r (c ∷ s)
  Solid-word_run c s h = (c, s, refl, trim_end_word r blank c s h)

  Solid-single : (c : ℕ) → is_space c ≡ false → Solid r (c ∷ [])
  Solid-single c h = (c, [], refl, trim_end_one r blank c h)

  Solid-part_path : (part : Text) → IsPart part → Solid r (part_path part)
  unfolding all
  Solid-part_path _ (index c s d) =
      Solid-subst r _ _ (sym (append-nil _) ∙ index_text c s [] d)
        (Solid-append r (codes "[" ++ (c ∷ s)) (codes "]") (Solid-single b']' refl))
  Solid-part_path _ (name c s d w) =
      Solid-subst r _ _
        (sym (append-nil _) ∙ name_text c s [] d w ∙ ap (λ t. codes "." ++ t) (append-nil (c ∷ s)))
        (Solid-append r (codes ".") (c ∷ s) (Solid-word_run c s (ground arith)))
  Solid-part_path _ (quoted c s d w) =
      Solid-subst r _ _ (sym (append-nil _) ∙ quoted_text c s [] d) (
        Solid-append r (codes "['" ++ (c ∷ s)) (codes "']")
          (Solid-append r (codes "'") (codes "]") (Solid-single b']' refl)))

  Solid-paths :
      (part : Text) (parts : List Text) → All IsPart (part ∷ parts) → Solid r (paths (part ∷ parts))
  Solid-paths part [] (h, hs) =
      Solid-subst r _ _ (append-nil (part_path part)) (Solid-part_path part h)
  Solid-paths part (q ∷ parts) (h, hs) =
      Solid-append r (part_path part) (paths (q ∷ parts)) (Solid-paths q parts hs)

  pub trim_end-paths :
      (c : ℕ) (s : Text) (parts : List Text)
      → all is_word (c ∷ s) ≡ true
      → All IsPart parts
      → trim_end (((c ∷ s) ++ paths parts) ++ r) ≡ (c ∷ s) ++ paths parts
  trim_end-paths c s [] w h =
      let (d, t, e, k) = Solid-subst r _ _ (append-nil (c ∷ s)) (Solid-word_run c s w) in k
  trim_end-paths c s (part ∷ parts) w h =
      let (d, t, e, k) = Solid-append r (c ∷ s) (paths (part ∷ parts)) (Solid-paths part parts h) in
      k
