-- ===== src/Expression/Path.antt =====
-- utils/expression_utils.js: writing a path into nested data as an expression, and parsing it.
pub mod Parts
pub mod RoundTrip
use open_workflow_studio.Prelude.{
  ℕ, zero, suc, ◌+◌, ◌-◌, ◌≡◌, refl, Bool, true, false, not, ◌&&◌, ◌||◌, List, [], ◌∷◌, ◌++◌, eqb,
  length, if◌then◌else◌, Option, none, some, any,
}
use open_workflow_studio.Text.{Text, codes}
use open_workflow_studio.Text.Scan.{
  is_digit, is_name_start, is_word, all, take_while, drop_while, starts_with,
}

-- `/^\d+$/`
abbrev pub is_index : Text → Bool
is_index [] = false
is_index (c ∷ s) = all is_digit (c ∷ s)

-- What one part adds to the path.
unfoldable pub part_path : Text → Text
part_path part =
    if is_index part
    then codes "[" ++ (part ++ codes "]")
    else if any (λ c. not (is_word c)) part
    then codes "['" ++ (part ++ codes "']")
    else codes "." ++ part

-- The loop of `generateExpressionPath`.
unfoldable pub extend_path : Text → List Text → Text
extend_path path [] = path
extend_path path (part ∷ parts) = extend_path (path ++ part_path part) parts

unfoldable pub generate_expression_path : Option (List Text) → Text → Text
generate_expression_path none root = root
generate_expression_path (some parts) root = extend_path root parts

-- `_node["…"].json`; the empty id is as none.
unfoldable pub generate_node_selector_expression_path : Option Text → Option (List Text) → Text
generate_node_selector_expression_path none parts = generate_expression_path parts (codes "_json")
generate_node_selector_expression_path (some []) parts =
    generate_expression_path parts (codes "_json")
generate_node_selector_expression_path (some (c ∷ i)) parts =
    generate_expression_path parts (codes "_node[\"" ++ ((c ∷ i) ++ codes "\"].json"))

abbrev pub wrap_expression : Text → Text
wrap_expression expression = codes "{{ " ++ (expression ++ codes " }}")

-- What a match of the regular expression takes: its part, and how long it is.
abbrev pub Match : Type 0
Match = Option (Text × ℕ)

-- `[a-zA-Z_][a-zA-Z0-9_]*`, behind `n` characters.
unfoldable pub match_name : ℕ → Text → Match
match_name n [] = none
match_name n (c ∷ s) =
    if is_name_start c
    then some (c ∷ take_while is_word s, n + length (c ∷ take_while is_word s))
    else none

-- `'([^']+)'\]` and `"([^"]+)"\]`, behind the bracket and the quote `q`.
unfoldable pub match_quoted : ℕ → Text → Match
match_quoted q s =
    let inside = take_while (λ c. not (eqb c q)) s in
    elim inside [
      | [] ↦ none
      | c ∷ t ↦
          if starts_with (q ∷ b']' ∷ []) (drop_while (λ c. not (eqb c q)) s)
          then some (c ∷ t, length (c ∷ t) + 4)
          else none
    ]

-- `(\d+)\]`, behind the bracket.
unfoldable pub match_index : Text → Match
match_index s =
    let digits = take_while is_digit s in
    elim digits [
      | [] ↦ none
      | c ∷ t ↦
          if starts_with (b']' ∷ []) (drop_while is_digit s)
          then some (c ∷ t, length (c ∷ t) + 2)
          else none
    ]

-- What stands behind `[`.
unfoldable pub match_bracket : Text → Match
match_bracket [] = none
match_bracket (c ∷ s) =
    if eqb c b'\''
    then match_quoted b'\'' s
    else if eqb c b'"'
    then match_quoted b'"' s
    else match_index (c ∷ s)

-- The regular expression of `parseExpressionPath` at one position.
unfoldable pub match_part : Text → Match
match_part [] = none
match_part (c ∷ s) =
    if eqb c b'.'
    then match_name 1 s
    else if eqb c b'['
    then match_bracket s
    else match_name 0 (c ∷ s)

-- The loop over the matches: the search goes on behind a match, or one character further. The
-- number counts the characters of the last match that are still to be passed over.
unfoldable pub scan_parts : ℕ → Text → List Text
scan_parts skip [] = []
scan_parts (suc skip) (c ∷ s) = scan_parts skip s
scan_parts zero (c ∷ s) = elim (match_part (c ∷ s)) [
  | none ↦ scan_parts zero s
  | some (part, n) ↦ part ∷ scan_parts (n - 1) s
]

-- `/^_(\w+)/`: the namespace with its underscore, and what is behind it.
unfoldable pub split_namespace : Text → Option (Text × Text)
split_namespace [] = none
split_namespace (c ∷ s) =
    if eqb c b'_'
    then elim (take_while is_word s) [
      | [] ↦ none
      | d ∷ t ↦ some (b'_' ∷ d ∷ t, drop_while is_word s)
    ]
    else none

-- `if (cleanPath.startsWith('.')) cleanPath = cleanPath.slice(1)`
unfoldable pub drop_dot : Text → Text
drop_dot [] = []
drop_dot (c ∷ s) = if eqb c b'.' then s else c ∷ s

pub record ParsedPath : Type 0 where
  pub namespace : Option Text
  pub parts : List Text

-- An absent path is as the empty one.
unfoldable pub parse_expression_path : Text → ParsedPath
parse_expression_path path = elim (split_namespace path) [
  | none ↦ record { namespace = none; parts = scan_parts 0 path }
  | some (namespace, rest) ↦ record {
    namespace = some namespace;
    parts = scan_parts 0 (drop_dot rest);
  }
]

abbrev pub parse_path_parts : Text → List Text
parse_path_parts path = (parse_expression_path path).parts
