-- ===== src/Expression/Evaluate.antt =====
-- utils/expression_utils.js: resolving a path in the context of an expression, and the preview of a
-- stored value. An expression that is no path is evaluated by the host, a parameter here.
pub mod Selector
pub mod Preview
use open_workflow_studio.Prelude.{
  ℕ, zero, suc, ◌+◌, ◌-◌, Bool, true, false, not, ◌&&◌, ◌||◌, List, [], ◌∷◌, ◌++◌, eqb, length,
  if◌then◌else◌, Option, none, some, any,
}
use open_workflow_studio.Prelude.Int.{ℤ, pos, negsuc}
use open_workflow_studio.Text.{Text, codes, ◌==◌, mem}
use open_workflow_studio.Text.Decimal.{print}
use open_workflow_studio.Text.Scan.{starts_with, trim, is_name_start}
use open_workflow_studio.Assoc
use open_workflow_studio.Assoc.{Assoc}
use open_workflow_studio.Value.{
  or_value, Value, undefined, null, bool, num, str, arr, obj, Items, nil, cons, Fields, end, truthy,
  or_undefined, entries,
}
use open_workflow_studio.Expression.Path.{
  ParsedPath, parse_expression_path, match_name, match_bracket, Match,
}
use open_workflow_studio.Expression.Template.{
  is_expression_mode, strip_expression_prefix, Template, extract_expressions,
}

-- `v[k]` on an array and on a string: by index, and the length. Inherited properties are left out.
unfoldable pub item_named : Text → ℕ → Items → Value
item_named k i nil = if k == codes "length" then num (pos i) else undefined
item_named k i (cons v vs) = let rest = item_named k (suc i) vs in if k == print i then v else rest

unfoldable pub char_named : Text → ℕ → Text → Value
char_named k i [] = if k == codes "length" then num (pos i) else undefined
char_named k i (c ∷ s) =
    let rest = char_named k (suc i) s in if k == print i then str (c ∷ []) else rest

unfoldable pub member : Text → Value → Value
member k (obj f) = or_undefined (Assoc.get k (entries f))
member k (arr vs) = item_named k 0 vs
member k (str s) = char_named k 0 s
member k _ = undefined

-- The loop over the parts: absent values have no members.
unfoldable pub walk : List Text → Value → Value
walk [] v = v
walk (part ∷ parts) undefined = undefined
walk (part ∷ parts) null = undefined
walk (part ∷ parts) v = walk parts (member part v)

unfoldable pub get_value_by_path : Value → Text → Value
get_value_by_path v path = walk (parse_expression_path path).parts v

-- `String(v)`, but for arrays.
unfoldable pub scalar_text : Value → Text
scalar_text undefined = codes "undefined"
scalar_text null = codes "null"
scalar_text (bool b) = if b then codes "true" else codes "false"
scalar_text (num (pos n)) = print n
scalar_text (num (negsuc n)) = codes "-" ++ print (suc n)
scalar_text (str s) = s
scalar_text (arr vs) = []
scalar_text (obj f) = codes "[object Object]"

-- The elements of an array are joined by commas, and absent ones are empty.
mutual
  pub item_text : Value → Text
  item_text undefined = []
  item_text null = []
  item_text (bool b) = scalar_text (bool b)
  item_text (num n) = scalar_text (num n)
  item_text (str s) = s
  item_text (obj f) = scalar_text (obj f)
  item_text (arr vs) = join_items vs

  pub join_items : Items → Text
  join_items nil = []
  join_items (cons v nil) = item_text v
  join_items (cons v (cons w vs)) = item_text v ++ (codes "," ++ join_items (cons w vs))

unfoldable pub to_text : Value → Text
to_text (arr vs) = join_items vs
to_text v = scalar_text v

abbrev pub namespaces : List Text
namespaces =
    codes "_json"
    ∷ codes "_vars"
    ∷ codes "_loop"
    ∷ codes "_node"
    ∷ codes "_input"
    ∷ codes "_execution"
    ∷ codes "_workflow"
    ∷ codes "_now"
    ∷ codes "_today"
    ∷ []

abbrev pub join_comma : List Text → Text
join_comma [] = []
join_comma (x ∷ []) = x
join_comma (x ∷ y ∷ ys) = x ++ (codes ", " ++ join_comma (y ∷ ys))

-- A value, or the message of an exception.
pub data Resolved : Type 0 where
  resolved : Value → Resolved
  failed : Text → Resolved

-- The switch over the namespaces, for one that is supported.
unfoldable pub source_of : Text → Assoc Value → Value
source_of namespace context =
    or_value (or_undefined (Assoc.get namespace context))
      (if namespace == codes "_now" || namespace == codes "_today" then null else obj end)

unfoldable pub resolve_parsed : ParsedPath → Assoc Value → Resolved
resolve_parsed parsed context = elim parsed.namespace [
  | none ↦ failed (codes "Invalid expression namespace. Use one of: " ++ join_comma namespaces)
  | some namespace ↦
      if mem namespace namespaces
      then resolved (walk parsed.parts (source_of namespace context))
      else failed (
          codes "Unsupported namespace "
          ++ (namespace ++ (codes ". Use one of: " ++ join_comma namespaces)))
]

unfoldable pub resolve_expression : Text → Assoc Value → Resolved
resolve_expression expression context = resolve_parsed (parse_expression_path expression) context

-- The selectors behind the namespace in `SIMPLE_SELECTOR_PATTERN`.
unfoldable pub match_selector : Text → Match
match_selector [] = none
match_selector (c ∷ s) =
    if eqb c b'.' then match_name 1 s else if eqb c b'[' then match_bracket s else none

unfoldable pub are_selectors : ℕ → Text → Bool
are_selectors skip [] = true
are_selectors (suc skip) (c ∷ s) = are_selectors skip s
are_selectors zero (c ∷ s) = elim (match_selector (c ∷ s)) [
  | none ↦ false
  | some (part, n) ↦ are_selectors (n - 1) s
]

-- What is behind the prefix, if it is one.
unfoldable pub strip_prefix : Text → Text → Option Text
strip_prefix [] s = some s
strip_prefix (p ∷ ps) [] = none
strip_prefix (p ∷ ps) (c ∷ s) = if eqb p c then strip_prefix ps s else none

unfoldable pub is_selector_of : Text → Text → Bool
is_selector_of s namespace = elim (strip_prefix namespace s) [
  | none ↦ false
  | some rest ↦ are_selectors 0 rest
]

unfoldable pub is_simple_selector_expression : Text → Bool
is_simple_selector_expression expression = any (is_selector_of (trim expression)) namespaces

unfoldable pub includes : Text → Text → Bool
includes t [] = starts_with t []
includes t (c ∷ s) = starts_with t (c ∷ s) || includes t s

abbrev pub contains_supported_namespace_reference : Text → Bool
contains_supported_namespace_reference expression = any (λ n. includes n expression) namespaces

-- The replacement text of `replace`, where `$$`, `$&` and the two quotes stand for something.
pub expand : Text → Text → Text → Text → Text
expand before matched after [] = []
expand before matched after (c ∷ []) = c ∷ []
expand before matched after (c ∷ d ∷ s) = elim (eqb c b'$') [
  | false ↦ c ∷ expand before matched after (d ∷ s)
  | true ↦ elim (eqb d b'$' || eqb d b'&' || eqb d b'`' || eqb d b'\'') [
    | false ↦ c ∷ expand before matched after (d ∷ s)
    | true ↦
        (if eqb d b'$'
          then codes "$"
          else if eqb d b'&'
          then matched
          else if eqb d b'`'
          then before
          else after)
        ++ expand before matched after s
  ]
]

-- `text.replace(pattern, replacement)`: the first place where the pattern stands.
pub replace_from : Text → Text → Text → Text → Text
replace_from before pattern_ replacement [] = before
replace_from before pattern_ replacement (c ∷ s) = elim (strip_prefix pattern_ (c ∷ s)) [
  | some after ↦ before ++ (expand before pattern_ after replacement ++ after)
  | none ↦ replace_from (before ++ c ∷ []) pattern_ replacement s
]

abbrev pub type_label : Value → Text
type_label undefined = codes "null"
type_label null = codes "null"
type_label (bool b) = codes "bool"
type_label (num n) = codes "int"
type_label (str s) = codes "str"
type_label (arr vs) = codes "list"
type_label (obj f) = codes "object"

pub record Evaluation : Type 0 where
  pub value : Value
  pub error : Option Text
  pub type : Option Text

abbrev pub succeeded : Value → Evaluation
succeeded v = record { value = v; error = none; type = some (type_label v) }

abbrev pub raised : Text → Evaluation
raised message = record { value = null; error = some message; type = none }

-- `evaluate` stands for `evaluatePreviewExpression`, which hands the text to the host's compiler.
module _ (evaluate : Text → Assoc Value → Resolved) where
  unfoldable pub resolve_preview_template : Text → Assoc Value → Resolved
  resolve_preview_template expression context =
      if is_simple_selector_expression expression
      then resolve_expression expression context
      else evaluate expression context

  -- The value of a text that is one template.
  unfoldable pub evaluate_single : Text → Assoc Value → Evaluation
  evaluate_single expression context = elim (resolve_preview_template expression context) [
    | resolved v ↦ succeeded v
    | failed message ↦
        if contains_supported_namespace_reference expression
        then record { value = undefined; error = none; type = none }
        else raised message
  ]

  abbrev pub shown : Value → Text
  shown undefined = []
  shown v = to_text v

  -- The loop over the templates of a mixed text.
  pub fill : List Template → Assoc Value → Text → Evaluation
  fill [] context result = succeeded (str result)
  fill (t ∷ ts) context result = elim (resolve_preview_template t.expression context) [
    | failed message ↦ raised message
    | resolved v ↦ fill ts context (replace_from [] t.full (shown v) result)
  ]

  unfoldable pub evaluate_templates : List Template → Text → Assoc Value → Evaluation
  unfolding fill
  evaluate_templates [] source context = succeeded (str (if trim source == [] then [] else source))
  evaluate_templates (t ∷ []) source context =
      if t.full == source
      then evaluate_single t.expression context
      else fill (t ∷ []) context source
  evaluate_templates (t ∷ u ∷ ts) source context = fill (t ∷ u ∷ ts) context source

  unfoldable pub evaluate_expression : Text → Assoc Value → Evaluation
  evaluate_expression raw context =
      if is_expression_mode raw
      then (let source = strip_expression_prefix raw in
          evaluate_templates (extract_expressions source) source context)
      else succeeded (str raw)
