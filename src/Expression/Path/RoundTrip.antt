-- ===== src/Expression/Path/RoundTrip.antt =====
-- utils/expression_utils.js: a path that is written from parts is parsed to them.
use open_workflow_studio.Prelude.{
  ℕ, ◌≡◌, refl, ◌∙◌, sym, ap, true, false, not, List, [], ◌∷◌, ◌++◌, eqb, arith, some, any, All,
  append_assoc, append-nil,
}
use open_workflow_studio.Text.{Text, codes}
use open_workflow_studio.Text.Scan.{
  is_digit, is_name_start, is_word, all, Stops, take_while-append, drop_while-append, all-any,
}
use open_workflow_studio.Expression.Path.{
  part_path, extend_path, generate_expression_path, generate_node_selector_expression_path,
  match_name, match_part, scan_parts, split_namespace, drop_dot, parse_expression_path,
}
use open_workflow_studio.Expression.Path.Parts.{
  lacks, IsPart, name, scan_double_quoted, scan_name, paths, extend_path-paths, paths-Stops,
  scan-paths,
}

split_namespace_lem :
    (c : ℕ) (s rest : Text)
    → all is_word (c ∷ s) ≡ true
    → Stops is_word rest
    → split_namespace (b'_' ∷ ((c ∷ s) ++ rest)) ≡ some (b'_' ∷ c ∷ s, rest)
unfolding split_namespace
split_namespace_lem c s rest h k =
    rw (take_while-append is_word (c ∷ s) rest h k, split_namespace)
      (rw (drop_while-append is_word (c ∷ s) rest h k) refl)

-- For a root of an underscore and at least one word character, and parts each of which is an index,
-- a name, or a text that has a character other than word characters and no single quote, the path
-- that `generateExpressionPath` writes is parsed to that namespace and to those parts.
pub parse_expression_path-generate_expression_path :
    (c : ℕ) (s : Text) (parts : List Text)
    → all is_word (c ∷ s) ≡ true
    → All IsPart parts
    → parse_expression_path (generate_expression_path (some parts) (b'_' ∷ c ∷ s))
      ≡ record { namespace = some (b'_' ∷ c ∷ s); parts = parts }
unfolding parse_expression_path generate_expression_path
parse_expression_path-generate_expression_path c s parts w h =
    rw
      (
        extend_path-paths parts (b'_' ∷ c ∷ s),
        split_namespace_lem c s (paths parts) w (paths-Stops parts h),
        parse_expression_path,
      )
      (ap (λ ps. record { namespace = some (b'_' ∷ c ∷ s); parts = ps }) (scan-paths parts h).1)

-- The text behind `_node`.
node_tail :
    (i : Text) (parts : List Text)
    → codes "_node[\"" ++ (i ++ codes "\"].json") ++ paths parts
      ≡ codes "_node" ++ (codes "[\"" ++ (i ++ (codes "\"]" ++ paths (codes "json" ∷ parts))))
unfolding part_path all
node_tail i parts =
    ap (λ t. codes "_node[\"" ++ t) (append_assoc i (codes "\"].json") (paths parts))

-- For a node's id that is not empty and has no double quote, and parts each of which is an index, a
-- name, or a text that has a character other than word characters and no single quote, the path that
-- `generateNodeSelectorExpressionPath` writes is parsed to the namespace `_node`, and to the id,
-- `json` and the parts.
pub parse_expression_path-generate_node_selector_expression_path :
    (c : ℕ) (i : Text) (parts : List Text)
    → lacks b'"' (c ∷ i) ≡ true
    → All IsPart parts
    → parse_expression_path (generate_node_selector_expression_path (some (c ∷ i)) (some parts))
      ≡ record { namespace = some (codes "_node"); parts = (c ∷ i) ∷ codes "json" ∷ parts }
unfolding parse_expression_path generate_expression_path generate_node_selector_expression_path
    drop_dot all
parse_expression_path-generate_node_selector_expression_path c i parts q h =
    let after : Text = codes "[\"" ++ ((c ∷ i) ++ (codes "\"]" ++ paths (codes "json" ∷ parts))) in
    let text : generate_node_selector_expression_path (some (c ∷ i)) (some parts)
        ≡ codes "_node" ++ after =
      extend_path-paths parts (codes "_node[\"" ++ ((c ∷ i) ++ codes "\"].json"))
      ∙ node_tail (c ∷ i) parts in
    let rest : scan_parts 0 (paths (codes "json" ∷ parts)) ≡ codes "json" ∷ parts =
      (scan-paths (codes "json" ∷ parts) (name b'j' (codes "son") refl refl, h)).0 in
    rw (text, split_namespace_lem b'n' (codes "ode") after refl refl, parse_expression_path)
      (ap (λ ps. record { namespace = some (codes "_node"); parts = ps })
        (scan_double_quoted (paths (codes "json" ∷ parts)) c i q ∙ ap ((c ∷ i) ∷◌) rest))

digit_path :
    (d c : ℕ) (s : Text)
    → is_digit d ≡ true
    → is_name_start c ≡ true
    → all is_word s ≡ true
    → part_path (d ∷ c ∷ s) ≡ codes "." ++ (d ∷ c ∷ s)
unfolding part_path all
digit_path d c s h g w =
    let letter : is_digit c ≡ false = ground arith in
    let plain : any (λ e. not (is_word e)) s ≡ false = all-any is_word s ∙ rw w refl in
    let start : is_name_start d ≡ false = ground arith in rw (start, h, letter, g, plain) refl

passed :
    (d c : ℕ) (s : Text)
    → is_digit d ≡ true
    → scan_parts 0 (drop_dot (codes "." ++ (d ∷ c ∷ s))) ≡ scan_parts 0 (c ∷ s)
unfolding scan_parts drop_dot match_part match_name
passed d c s h =
    let dot : eqb d b'.' ≡ false = ground arith in
    let bracket : eqb d b'[' ≡ false = ground arith in
    let start : is_name_start d ≡ false = ground arith in
    rw (dot, scan_parts) (rw (bracket) (rw start refl))

alone :
    (c : ℕ) (s : Text)
    → is_name_start c ≡ true
    → all is_word s ≡ true
    → scan_parts 0 (c ∷ s) ≡ (c ∷ s) ∷ []
unfolding scan_parts
alone c s g k = ap (λ t. scan_parts 0 (c ∷ t)) (sym (append-nil s)) ∙ (scan_name [] c s g k tt).1

-- For a root of an underscore and at least one word character, a part that is a digit with a name
-- behind it is parsed to the name alone: the digit is lost.
pub parse_expression_path-generate_expression_path_digit :
    (r : ℕ) (root : Text) (d c : ℕ) (s : Text)
    → all is_word (r ∷ root) ≡ true
    → is_digit d ≡ true
    → is_name_start c ≡ true
    → all is_word s ≡ true
    → parse_expression_path (generate_expression_path (some ((d ∷ c ∷ s) ∷ [])) (b'_' ∷ r ∷ root))
      ≡ record { namespace = some (b'_' ∷ r ∷ root); parts = (c ∷ s) ∷ [] }
unfolding parse_expression_path generate_expression_path extend_path
parse_expression_path-generate_expression_path_digit r root d c s w h g k =
    rw
      (
        digit_path d c s h g k,
        split_namespace_lem r root (codes "." ++ (d ∷ c ∷ s)) w refl,
        parse_expression_path,
      )
      (ap (λ ps. record { namespace = some (b'_' ∷ r ∷ root); parts = ps })
        (passed d c s h ∙ alone c s g k))
