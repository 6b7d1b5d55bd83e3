-- ===== src/Expression/Evaluate/Preview.antt =====
-- The preview of a field that holds one wrapped path.
use open_workflow_studio.Assoc.{Assoc}
use open_workflow_studio.Expression.Evaluate.{
  succeeded, eqb, parse_expression_path, Resolved, evaluate_expression, evaluate_single,
  evaluate_templates, is_selector_of, is_simple_selector_expression, namespaces, resolve_expression,
  resolve_parsed, resolve_preview_template, resolved, source_of, walk,
}
use open_workflow_studio.Expression.Evaluate.Selector.{
  are_selectors-paths, strip_prefix-append, trim_end-paths,
}
use open_workflow_studio.Expression.Path.{generate_expression_path, wrap_expression}
use open_workflow_studio.Expression.Path.Parts.{IsPart, extend_path-paths, paths}
use open_workflow_studio.Expression.Path.RoundTrip.{parse_expression_path-generate_expression_path}
use open_workflow_studio.Expression.Template.{
  full_of, Template, extract_expressions, extract_from, match_content, match_template,
  strip_expression_prefix, template_at,
}
use open_workflow_studio.Prelude.{
  All, Bool, List, [], ap, append-nil, append_assoc, arith, length, not, refl, some, suc, sym, true,
  ℕ, ◌&&◌, ◌++◌, ◌-◌, ◌∙◌, ◌∷◌, ◌≡◌,
}
use open_workflow_studio.Text.{==_refl, Text, codes, mem, ◌==◌}
use open_workflow_studio.Text.Scan.{all, drop_while, is_line_end, starts_with, trim, trim_end}
use open_workflow_studio.Value.{Value}

-- What a template's content may hold: no line end and no closing brace.
abbrev pub is_content : ℕ → Bool
is_content c = not (is_line_end c) && not (eqb c b'}')

match_content-clean :
    (c : ℕ) (s : Text)
    → all is_content (c ∷ s) ≡ true
    → match_content ((c ∷ s) ++ codes "}}") ≡ some (c ∷ s)
unfolding match_content starts_with all
match_content-clean c [] h = ground arith
match_content-clean c (d ∷ s) h = ground (arith, match_content-clean d s)

extract_skip : (s : Text) (i : ℕ) → extract_from (length s) i s ≡ []
unfolding extract_from
extract_skip [] i = refl
extract_skip (c ∷ s) i = extract_skip s (suc i)

-- A text that is one template has that template and no other.
extract_one :
    (c : ℕ) (s : Text)
    → all is_content (c ∷ s) ≡ true
    → extract_expressions (full_of (c ∷ s)) ≡ template_at 0 (c ∷ s) ∷ []
unfolding extract_from match_template
extract_one c s h =
    let rest = codes "{" ++ ((c ∷ s) ++ codes "}}") in
    let less : length (full_of (c ∷ s)) - 1 ≡ length rest = omega arith in
    rw (match_content-clean c s h, extract_from)
      (ap (template_at 0 (c ∷ s) ∷◌) (ap (λ n. extract_from n 1 rest) less ∙ extract_skip rest 1))

all-append : (p : ℕ → Bool) (s t : Text) → all p (s ++ t) ≡ (all p s && all p t)
unfolding all
all-append p [] t = refl
all-append p (c ∷ s) t = ground (arith, all-append p s t)

resolve_expression-parsed :
    (expression namespace : Text) (parts : List Text) (context : Assoc Value)
    → parse_expression_path expression ≡ record { namespace = some namespace; parts = parts }
    → mem namespace namespaces ≡ true
    → resolve_expression expression context ≡ resolved (walk parts (source_of namespace context))
unfolding resolve_expression resolve_parsed
resolve_expression-parsed expression namespace parts context h m =
    ap (λ p. resolve_parsed p context) h ∙ rw m refl

module _ (parts : List Text) (h : All IsPart parts) where
  abbrev json_path : Text
  json_path = codes "_json" ++ paths parts

  generated : generate_expression_path (some parts) (codes "_json") ≡ json_path
  unfolding generate_expression_path
  generated = extend_path-paths parts (codes "_json")

  trimmed : trim json_path ≡ json_path
  unfolding drop_while all trim_end
  trimmed =
      ap trim_end (sym (append-nil json_path))
      ∙ trim_end-paths [] refl b'_' (codes "json") parts refl h

  trimmed_spaces : trim (codes " " ++ (json_path ++ codes " ")) ≡ json_path
  unfolding drop_while all trim_end
  trimmed_spaces = trim_end-paths (codes " ") refl b'_' (codes "json") parts refl h

  selector : is_selector_of json_path (codes "_json") ≡ true
  unfolding is_selector_of
  selector =
      rw (strip_prefix-append (codes "_json") (paths parts), is_selector_of)
        (are_selectors-paths parts h)

  simple : is_simple_selector_expression json_path ≡ true
  unfolding is_simple_selector_expression
  simple = rw trimmed (rw selector refl)

  resolved_path :
      (context : Assoc Value)
      → resolve_expression json_path context
        ≡ resolved (walk parts (source_of (codes "_json") context))
  unfolding all mem ◌==◌
  resolved_path context =
      resolve_expression-parsed json_path (codes "_json") parts context
        (ap parse_expression_path (sym generated)
          ∙ parse_expression_path-generate_expression_path b'j' (codes "son") parts refl h)
        refl

  wrapped :
      wrap_expression (generate_expression_path (some parts) (codes "_json"))
      ≡ full_of (codes " " ++ (json_path ++ codes " "))
  wrapped =
      ap wrap_expression generated
      ∙ ap (λ t. codes "{{ " ++ t) (sym (append_assoc json_path (codes " ") (codes "}}")))

  module _ (evaluate : Text → Assoc Value → Resolved) (context : Assoc Value) where
    evaluated :
        evaluate_single evaluate (trim (codes " " ++ (json_path ++ codes " "))) context
        ≡ succeeded (walk parts (source_of (codes "_json") context))
    unfolding evaluate_single resolve_preview_template
    evaluated = rw trimmed_spaces (rw (simple, evaluate_single) (rw (resolved_path context) refl))

    evaluate_one :
        (source : Text) (t : Template)
        → (t.full == source) ≡ true
        → evaluate_templates evaluate (t ∷ []) source context
          ≡ evaluate_single evaluate t.expression context
    unfolding evaluate_templates
    evaluate_one source t e = rw e refl

    -- For parts each of which is an index, a name, or a text that has a character other than word
    -- characters and no single quote, none of them with a line end or a closing brace, the preview of
    -- a field that holds the wrapped path of the parts under `_json` is the value found by walking
    -- along the parts from the context's `_json`, or from an empty object where that is falsy, with
    -- its type and no error. This is so whatever the host's evaluation of expressions does.
    pub evaluate_expression-wrap_expression :
        all is_content json_path ≡ true
        → evaluate_expression evaluate
            (codes "=" ++ wrap_expression (generate_expression_path (some parts) (codes "_json")))
            context
          ≡ succeeded (walk parts (source_of (codes "_json") context))
    unfolding evaluate_expression strip_expression_prefix starts_with all
    evaluate_expression-wrap_expression clean =
        let content = codes " " ++ (json_path ++ codes " ") in
        let one =
          extract_one b' ' (json_path ++ codes " ")
            (all-append is_content json_path (codes " ") ∙ rw clean refl) in
        ap (λ s. evaluate_templates evaluate (extract_expressions s) s context) wrapped
        ∙ ap (λ ts. evaluate_templates evaluate ts (full_of content) context) one
        ∙ evaluate_one (full_of content) (template_at 0 content) (==_refl (full_of content))
        ∙ evaluated
