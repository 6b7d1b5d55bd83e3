-- ===== src/ExecutionContext/Paths.antt =====
-- core/context.js, `_resolvePath` and `_setPath`: reading and writing along a dotted path. Values are
-- trees, of which no part is shared, and absent items of an array are its holes. What objects inherit
-- is no value here: a path that reaches it, for reading or for writing, gives none.
use open_workflow_studio.Prelude.{
  ℕ, zero, suc, Bool, true, false, Option, none, some, List, [], ◌∷◌, ◌++◌, ◌>>=◌, eqb, ltb, ◌||◌,
  is_some, if◌then◌else◌,
}
use open_workflow_studio.Text.{Text, codes, ◌==◌, mem}
use open_workflow_studio.Text.Decimal.{print, parse_digits}
use open_workflow_studio.Text.Scan.{is_digit, is_word, take_while, drop_while}
use open_workflow_studio.Assoc
use open_workflow_studio.Value.{
  Value, undefined, null, str, arr, obj, Items, nil, cons, end, truthy, or_undefined, entries,
  object,
}
use open_workflow_studio.Expression.Evaluate.{member}

-- `path.split('.')`
unfoldable pub split : Text → List Text
split [] = [] ∷ []
split (c ∷ s) =
    let rest = split s in
    if eqb c b'.'
    then [] ∷ rest
    else elim rest [ [] ↦ (c ∷ []) ∷ [] | part ∷ parts ↦ (c ∷ part) ∷ parts ]

-- `parts.join('.')`
abbrev pub join_dots : List Text → Text
join_dots [] = []
join_dots (part ∷ []) = part
join_dots (part ∷ next ∷ parts) = part ++ (codes "." ++ join_dots (next ∷ parts))

-- A part of a path: a key, or a key and an index behind it.
pub data Step : Type 0 where
  plain : Text → Step
  indexed : Text → ℕ → Step

-- `\[(\d+)\]$`
unfoldable pub bracketed : Text → Option ℕ
bracketed [] = none
bracketed (c ∷ s) =
    if eqb c b'['
    then elim (take_while is_digit s) [
      | [] ↦ none
      | d ∷ ds ↦ if drop_while is_digit s == codes "]" then parse_digits (d ∷ ds) else none
    ]
    else none

-- `part.match(/^(\w+)\[(\d+)\]$/)`
unfoldable pub read_step : Text → Step
read_step part = elim (take_while is_word part) [
  | [] ↦ plain part
  | c ∷ name ↦ elim (bracketed (drop_while is_word part)) [
    | none ↦ plain part
    | some n ↦ indexed (c ∷ name) n
  ]
]

abbrev pub read_steps : List Text → List Step
read_steps [] = []
read_steps (part ∷ parts) = read_step part ∷ read_steps parts

abbrev pub size : Items → ℕ
size nil = 0
size (cons v vs) = suc (size vs)

abbrev pub item_at : ℕ → Items → Value
item_at n nil = undefined
item_at zero (cons v vs) = v
item_at (suc n) (cons v vs) = item_at n vs

-- `xs[n] = v`: an array grows, with holes.
abbrev pub set_item : ℕ → Value → Items → Items
set_item zero v nil = cons v nil
set_item zero v (cons w ws) = cons v ws
set_item (suc n) v nil = cons undefined (set_item n v nil)
set_item (suc n) v (cons w ws) = cons w (set_item n v ws)

abbrev pub char_at : ℕ → Text → Value
char_at n [] = undefined
char_at zero (c ∷ s) = str (c ∷ [])
char_at (suc n) (c ∷ s) = char_at n s

-- `v?.[n]`
abbrev pub index_member : ℕ → Value → Value
index_member n (obj f) = or_undefined (Assoc.get (print n) (entries f))
index_member n (arr vs) = item_at n vs
index_member n (str s) = char_at n s
index_member n _ = undefined

abbrev pub is_absent : Value → Bool
is_absent undefined = true
is_absent null = true
is_absent _ = false

-- The index that a key of an array is, if it is one.
unfoldable pub if_printed : Text → Option ℕ → Option ℕ
if_printed key none = none
if_printed key (some n) = if key == print n then some n else none

abbrev pub index_of_key : Text → Option ℕ
index_of_key key = if_printed key (parse_digits key)

-- The names that every object inherits.
abbrev pub inherited_names : List Text
inherited_names =
    codes "__proto__"
    ∷ codes "constructor"
    ∷ codes "hasOwnProperty"
    ∷ codes "isPrototypeOf"
    ∷ codes "propertyIsEnumerable"
    ∷ codes "toString"
    ∷ codes "toLocaleString"
    ∷ codes "valueOf"
    ∷ codes "__defineGetter__"
    ∷ codes "__defineSetter__"
    ∷ codes "__lookupGetter__"
    ∷ codes "__lookupSetter__"
    ∷ []

-- A name that is inherited, as no member of the object's own has it.
abbrev pub is_inherited : Text → Option Value → Bool
is_inherited key none = mem key inherited_names
is_inherited key (some v) = false

-- A name that no array, string, number or truth value inherits.
abbrev pub is_own_name : Text → Bool
is_own_name key = key == codes "length" || is_some (index_of_key key)

-- `v[key]`. None is an inherited member. Other values than objects inherit many: each name that is
-- neither an index nor `length` is taken for one there.
unfoldable pub read_member : Text → Value → Option Value
read_member key (obj f) =
    let own = Assoc.get key (entries f) in
    if is_inherited key own then none else some (or_undefined own)
read_member key v = if is_own_name key then some (member key v) else none

abbrev pub step_into : Step → Value → Option Value
step_into (plain key) v = read_member key v
step_into (indexed name n) v = read_member name v >>= λ x. some (index_member n x)

-- The loop of `_resolvePath`.
unfoldable pub resolve_steps : List Step → Value → Option Value
resolve_steps [] v = some v
resolve_steps (s ∷ ss) v =
    let rest = step_into s v >>= λ x. resolve_steps ss x in
    if is_absent v then some undefined else rest

unfoldable pub resolve_path : Value → Text → Option Value
resolve_path v [] = some v
resolve_path v (x ∷ path) = resolve_steps (read_steps (split (x ∷ path))) v

-- `v[n] = w`, or an exception.
abbrev pub put_index : ℕ → Value → Value → Option Value
put_index n w (obj f) = some (obj (object (Assoc.set (print n) w (entries f))))
put_index n w (arr vs) = some (arr (set_item n w vs))
put_index n w _ = none

-- The name that sets the prototype of an object, unless the object has a member of that name.
abbrev pub sets_prototype : Text → Option Value → Bool
sets_prototype key none = key == codes "__proto__"
sets_prototype key (some v) = false

-- `v[key] = w`. None is an exception, or what values here do not hold: another prototype, or an
-- array with a member that is no item.
unfoldable pub put_member : Text → Value → Value → Option Value
put_member key w (obj f) =
    if sets_prototype key (Assoc.get key (entries f))
    then none
    else some (obj (object (Assoc.set key w (entries f))))
put_member key w (arr vs) = index_of_key key >>= λ n. some (arr (set_item n w vs))
put_member key w _ = none

-- `delete v[key]`; the length of an array cannot be deleted.
abbrev pub remove_member : Text → Value → Option Value
remove_member key (obj f) = some (obj (object (Assoc.delete key (entries f))))
remove_member key (arr vs) =
    if key == codes "length"
    then none
    else some (elim (index_of_key key) [
      | none ↦ arr vs
      | some n ↦ if ltb n (size vs) then arr (set_item n undefined vs) else arr vs
    ])
remove_member key v = some v

-- `v || {}`, and `v || []`
abbrev pub or_empty : Value → Value
or_empty v = if truthy v then v else obj end

abbrev pub or_list : Value → Value
or_list v = if truthy v then v else arr nil

-- `current[part]`, once it is made where it is missing or null; `in` raises an exception on what is
-- no object.
abbrev pub made : Option Value → Value
made none = obj end
made (some null) = obj end
made (some v) = v

abbrev pub made_item : Value → Value
made_item undefined = obj end
made_item null = obj end
made_item v = v

-- None is an inherited member, or an exception.
unfoldable pub child : Text → Value → Option Value
child key (obj f) =
    let own = Assoc.get key (entries f) in if is_inherited key own then none else some (made own)
child key (arr vs) = some (made_item (member key (arr vs)))
child key _ = none

-- `current[arrayName]`, once it is made where it is falsy. None is an inherited member.
unfoldable pub list_at : Text → Value → Option Value
list_at name (obj f) =
    let own = Assoc.get name (entries f) in
    if is_inherited name own then none else some (or_list (or_undefined own))
list_at name v = some (or_list (member name v))

-- `_setPath` from an object on, which it gives back as it is then. None is an exception, or that the
-- path reaches what values here do not hold.
unfoldable pub set_steps : Step → List Step → Value → Value → Option Value
set_steps (plain key) [] w v = put_member key w v
set_steps (indexed name n) [] w v =
    list_at name v >>= λ xs. put_index n w xs >>= λ ys. put_member name ys v
set_steps (plain key) (s ∷ ss) w v =
    child key v >>= λ x. set_steps s ss w x >>= λ y. put_member key y v
set_steps (indexed name n) (s ∷ ss) w v = list_at name v >>= λ xs.
    set_steps s ss w (or_empty (index_member n xs)) >>= λ y.
    put_index n y xs >>= λ ys. put_member name ys v

abbrev pub set_along : List Step → Value → Value → Option Value
set_along [] w v = none
set_along (s ∷ ss) w v = set_steps s ss w v

-- A path has one part at least.
abbrev pub set_path : Value → Text → Value → Option Value
set_path v path w = set_along (read_steps (split path)) w v
