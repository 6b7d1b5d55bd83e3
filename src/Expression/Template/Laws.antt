-- ===== src/Expression/Template/Laws.antt =====
-- Where the templates of a text stand.
use open_workflow_studio.Prelude.{
  ℕ, zero, suc, ◌+◌, ◌-◌, ◌≡◌, ◌≢◌, ◌↔◌, refl, ◌∙◌, sym, ap, true, false, ◌&&◌, [], ◌∷◌, ◌++◌, eqb,
  arith, length, some, In, Bool-cases, Option-cases, inl, inr, append_assoc, ◌⊎◌,
}
use open_workflow_studio.Text.{Text, codes}
use open_workflow_studio.Text.Scan.{is_line_end, starts_with, trim}
use open_workflow_studio.Expression.Template.{
  match_content, match_template, has_expressions, Template, full_of, template_at, extract_from,
  extract_expressions,
}

starts_with-split : (p s : Text) → starts_with p s ≡ true → (rest : Text) × (s ≡ p ++ rest)
unfolding starts_with
starts_with-split [] s h = (s, refl)
starts_with-split (c ∷ p) [] h = cc
starts_with-split (c ∷ p) (d ∷ s) h =
    let (rest, e) = starts_with-split p s (ground arith) in
    (rest, ap (λ t. d ∷ t) e ∙ ap (λ x. x ∷ (p ++ rest)) (ground arith))

match_content-split :
    (s content : Text)
    → match_content s ≡ some content
    → (rest : Text) × (s ≡ content ++ (codes "}}" ++ rest))
unfolding match_content
match_content-split [] content e = cc
match_content-split (c ∷ s) content e = elim (Bool-cases (is_line_end c)) [
  | inl stop ↦ let f = rw stop at e in cc
  | inr go ↦ elim (Bool-cases (starts_with (codes "}}") s)) [
    | inl closes ↦
        let f : some (c ∷ []) ≡ some content = rw (go, closes) at e in
        let (rest, g) = starts_with-split (codes "}}") s closes in
        let h : c ∷ [] ≡ content = cc in (rest, rw (← h) (ap (c ∷◌) g))
    | inr on ↦ elim (Option-cases (match_content s)) [
      | inl n ↦ let f = rw (go, on, n) at e in cc
      | inr (t, m) ↦
          let f : some (c ∷ t) ≡ some content = rw (go, on, m) at e in
          let (rest, g) = match_content-split s t m in
          let h : c ∷ t ≡ content = cc in (rest, rw (← h) (ap (c ∷◌) g))
    ]
  ]
]

match_template-split :
    (s content : Text)
    → match_template s ≡ some content
    → (rest : Text) × (s ≡ full_of content ++ rest)
unfolding match_template
match_template-split [] content e = cc
match_template-split (c ∷ []) content e = cc
match_template-split (c ∷ d ∷ s) content e = elim (Bool-cases (eqb c b'{' && eqb d b'{')) [
  | inr apart ↦ let f = rw apart at e in cc
  | inl braces ↦
      let f : match_content s ≡ some content = rw braces at e in
      let (rest, g) = match_content-split s content f in
      let (p, q) : (c ≡ b'{') × (d ≡ b'{') = ground arith in
      (
        rest,
        rw (p, q, g) (ap (λ t. codes "{{" ++ t) (sym (append_assoc content (codes "}}") rest))),
      )
]

-- The template stands in the text between its positions, and its expression is what it encloses.
pub record StandsIn (s : Text) (i : ℕ) (t : Template) : Type 0 where
  pub before : Text
  pub content : Text
  pub after : Text
  pub text : s ≡ before ++ (t.full ++ after)
  pub encloses : t.full ≡ full_of content
  pub trimmed : t.expression ≡ trim content
  pub starts : t.start ≡ i + length before
  pub ends : t.end ≡ t.start + length t.full

StandsIn-later :
    (c : ℕ) (s : Text) (i : ℕ) (t : Template) → StandsIn s (suc i) t → StandsIn (c ∷ s) i t
StandsIn-later c s i t h = record {
  before = c ∷ h.before;
  content = h.content;
  after = h.after;
  text = ap (c ∷◌) h.text;
  encloses = h.encloses;
  trimmed = h.trimmed;
  starts = omega (arith, h.starts);
  ends = h.ends;
}

extract_from-StandsIn :
    (skip i : ℕ) (s : Text) (t : Template) → In t (extract_from skip i s) → StandsIn s i t
unfolding extract_from
extract_from-StandsIn zero i [] t h = absurd h
extract_from-StandsIn (suc skip) i [] t h = absurd h
extract_from-StandsIn (suc skip) i (c ∷ s) t h =
    StandsIn-later c s i t (extract_from-StandsIn skip (suc i) s t h)
extract_from-StandsIn zero i (c ∷ s) t h = elim (Option-cases (match_template (c ∷ s))) [
  | inl e ↦
      let later : In t (extract_from 0 (suc i) s) = rw (e, extract_from) at h in
      StandsIn-later c s i t (extract_from-StandsIn 0 (suc i) s t later)
  | inr (content, e) ↦
      let found : (t ≡ template_at i content)
          ⊎ In t (extract_from (length (full_of content) - 1) (suc i) s) =
        rw (e, extract_from) at h in
      elim found [
        | inl here ↦
            let (rest, f) = match_template-split (c ∷ s) content e in
            rw here (record {
              before = [];
              content = content;
              after = rest;
              text = f;
              encloses = refl;
              trimmed = refl;
              starts = omega arith;
              ends = refl;
            })
        | inr later ↦
            StandsIn-later c s i t
              (extract_from-StandsIn (length (full_of content) - 1) (suc i) s t later)
      ]
]

-- Each template that `extractExpressions` gives stands in the text from its start to its end, as two
-- braces, a content and two braces, and its expression is that content, trimmed.
pub extract_expressions-StandsIn :
    (value : Text) (t : Template) → In t (extract_expressions value) → StandsIn value 0 t
extract_expressions-StandsIn value t h = extract_from-StandsIn 0 0 value t h

has_expressions-extract_from :
    (i : ℕ) (s : Text)
    → (has_expressions s ≡ true → extract_from 0 i s ≢ [])
      × (has_expressions s ≡ false → extract_from 0 i s ≡ [])
unfolding has_expressions extract_from
has_expressions-extract_from i [] = (λ h. cc, λ h. refl)
has_expressions-extract_from i (c ∷ s) = elim (Option-cases (match_template (c ∷ s))) [
  | inl e ↦ rw (e, has_expressions, extract_from) (has_expressions-extract_from (suc i) s)
  | inr (content, e) ↦ rw (e, has_expressions, extract_from) (λ h f. cc, λ h. cc)
]

-- `hasExpressions` holds of a text just when `extractExpressions` gives some template of it.
pub has_expressions_iff :
    (value : Text) → (has_expressions value ≡ true) ↔ (extract_expressions value ≢ [])
has_expressions_iff value = (
  (has_expressions-extract_from 0 value).0,
  λ h. elim (Bool-cases (has_expressions value)) [
    | inl yes_ ↦ yes_
    | inr none_ ↦ absurd (h ((has_expressions-extract_from 0 value).1 none_))
  ],
)
