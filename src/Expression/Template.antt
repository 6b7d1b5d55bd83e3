-- ===== src/Expression/Template.antt =====
-- utils/expression_utils.js: the mark of expression mode, and the templates `{{ … }}` of a text.
pub mod Laws
use open_workflow_studio.Prelude.{
  ℕ, zero, suc, ◌+◌, ◌-◌, Bool, true, false, not, ◌&&◌, ◌||◌, List, [], ◌∷◌, ◌++◌, eqb, length,
  if◌then◌else◌, Option, none, some,
}
use open_workflow_studio.Text.{Text, codes}
use open_workflow_studio.Text.Scan.{is_line_end, starts_with, trim}

-- `value.startsWith('=')`
abbrev pub is_expression_mode : Text → Bool
is_expression_mode s = starts_with (codes "=") s

unfoldable pub strip_expression_prefix : Text → Text
strip_expression_prefix [] = []
strip_expression_prefix (c ∷ s) = if is_expression_mode (c ∷ s) then s else c ∷ s

-- An absent value gives the mark alone.
unfoldable pub ensure_expression_prefix : Option Text → Text
ensure_expression_prefix none = codes "="
ensure_expression_prefix (some text) = if is_expression_mode text then text else codes "=" ++ text

abbrev pub infer_expression_mode_from_value : Text → Bool
infer_expression_mode_from_value s = is_expression_mode s

-- What `(.+?)\}\}` takes in its group: at least one character, as few as possible, no line end.
unfoldable pub match_content : Text → Option Text
match_content [] = none
match_content (c ∷ s) =
    let rest = match_content s in
    if is_line_end c
    then none
    else if starts_with (codes "}}") s
    then some (c ∷ [])
    else elim rest [ none ↦ none | some t ↦ some (c ∷ t) ]

-- `/\{\{(.+?)\}\}/` at one position.
unfoldable pub match_template : Text → Option Text
match_template [] = none
match_template (c ∷ []) = none
match_template (c ∷ d ∷ s) = if eqb c b'{' && eqb d b'{' then match_content s else none

-- The regular expression finds a match somewhere.
unfoldable pub has_expressions : Text → Bool
has_expressions [] = false
has_expressions (c ∷ s) = elim (match_template (c ∷ s)) [
  | some content ↦ true
  | none ↦ has_expressions s
]

pub record Template : Type 0 where
  pub full : Text
  pub expression : Text
  pub start : ℕ
  pub end : ℕ

abbrev pub full_of : Text → Text
full_of content = codes "{{" ++ (content ++ codes "}}")

abbrev pub template_at : ℕ → Text → Template
template_at i content = record {
  full = full_of content;
  expression = trim content;
  start = i;
  end = i + length (full_of content);
}

-- The loop of `extractExpressions` from the position `i`. The first number counts the characters
-- of the last match that are still to be passed over.
unfoldable pub extract_from : ℕ → ℕ → Text → List Template
extract_from skip i [] = []
extract_from (suc skip) i (c ∷ s) = extract_from skip (suc i) s
extract_from zero i (c ∷ s) = elim (match_template (c ∷ s)) [
  | none ↦ extract_from zero (suc i) s
  | some content ↦ template_at i content ∷ extract_from (length (full_of content) - 1) (suc i) s
]

abbrev pub extract_expressions : Text → List Template
extract_expressions value = extract_from 0 0 value
