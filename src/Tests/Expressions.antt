-- ===== src/Tests/Expressions.antt =====
-- Paths and templates at concrete inputs.
use open_workflow_studio.Prelude.{◌≡◌, refl, ◌↔◌, ◌≢◌, true, some, inl, List, [], ◌∷◌, ◌++◌, All}
use open_workflow_studio.Text.{Text, codes}
use open_workflow_studio.Text.Scan.{all, starts_with}
use open_workflow_studio.Assoc.{Assoc}
use open_workflow_studio.Value.{Value, str, obj, field, end}
use open_workflow_studio.Expression.Path.{
  parse_expression_path, generate_expression_path, wrap_expression, part_path,
}
use open_workflow_studio.Expression.Path.Parts.{IsPart, index, name, quoted}
use open_workflow_studio.Expression.Path.RoundTrip.{
  parse_expression_path-generate_expression_path,
  parse_expression_path-generate_expression_path_digit,
}
use open_workflow_studio.Expression.Template.{
  extract_expressions, has_expressions, extract_from, match_template, match_content, template_at,
}
use open_workflow_studio.Expression.Template.Laws.{
  StandsIn, extract_expressions-StandsIn, has_expressions_iff,
}
use open_workflow_studio.Expression.Evaluate.{
  evaluate_expression, failed, succeeded, walk, source_of,
}
use open_workflow_studio.Expression.Evaluate.Preview.{evaluate_expression-wrap_expression}

abbrev parts : List Text
parts = codes "items" ∷ codes "0" ∷ codes "first name" ∷ []

parts-IsPart : All IsPart parts
unfolding all
parts-IsPart = (
  name b'i' (codes "tems") refl refl,
  (index b'0' [] refl, (quoted b'f' (codes "irst name") refl refl, tt)),
)

generate_expression_path_example :
    parse_expression_path (generate_expression_path (some parts) (codes "_json"))
    ≡ record { namespace = some (codes "_json"); parts = parts }
unfolding all
generate_expression_path_example =
    parse_expression_path-generate_expression_path b'j' (codes "son") parts refl parts-IsPart

-- A field named `2fa`.
generate_expression_path_digit_example :
    parse_expression_path (generate_expression_path (some (codes "2fa" ∷ [])) (codes "_json"))
    ≡ record { namespace = some (codes "_json"); parts = codes "fa" ∷ [] }
unfolding all
generate_expression_path_digit_example =
    parse_expression_path-generate_expression_path_digit b'j' (codes "son") b'2' b'f' (codes "a")
      refl refl refl refl

extract_expressions_example : StandsIn (codes "a {{ b }}") 0 (template_at 2 (codes " b "))
unfolding extract_from match_template match_content starts_with
extract_expressions_example =
    extract_expressions-StandsIn (codes "a {{ b }}") (template_at 2 (codes " b ")) (inl refl)

has_expressions_example :
    (has_expressions (codes "a {{ b }}") ≡ true) ↔ (extract_expressions (codes "a {{ b }}") ≢ [])
has_expressions_example = has_expressions_iff (codes "a {{ b }}")

abbrev sample : Assoc Value
sample = (codes "_json", obj (field (codes "items") (str (codes "xyz")) end)) ∷ []

evaluate_expression_example :
    evaluate_expression
      (λ e c. failed (codes "no host"))
      (codes "=" ++ wrap_expression (generate_expression_path (some parts) (codes "_json")))
      sample
    ≡ succeeded (walk parts (source_of (codes "_json") sample))
unfolding all part_path
evaluate_expression_example =
    evaluate_expression-wrap_expression parts parts-IsPart (λ e c. failed (codes "no host")) sample
      refl
