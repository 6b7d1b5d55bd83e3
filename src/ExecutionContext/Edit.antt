-- ===== src/ExecutionContext/Edit.antt =====
-- core/context.js: appending, merging, incrementing and deleting a variable. None is an exception, or
-- a path that reaches what values here do not hold.
use open_workflow_studio.Prelude.{Option, none, some, List, [], ◌∷◌, ◌++◌, ◌>>=◌, if◌then◌else◌}
use open_workflow_studio.Prelude.Int.{ℤ, pos, ◌+ℤ◌}
use open_workflow_studio.Text.{Text}
use open_workflow_studio.Assoc
use open_workflow_studio.Assoc.{Assoc}
use open_workflow_studio.Value.{
  Value, undefined, bool, num, str, arr, obj, Items, nil, cons, truthy, entries, object, spread,
  assign,
}
use open_workflow_studio.Expression.Evaluate.{to_text, scalar_text}
use open_workflow_studio.ExecutionContext.Paths.{split, join_dots, remove_member}
use open_workflow_studio.ExecutionContext.{ExecutionContext, get_variable, set_variable}

abbrev pub push_item : Value → Items → Items
push_item v nil = cons v nil
push_item v (cons w ws) = cons w (push_item v ws)

-- `arr.push(value)` on the array that the path leads to is a write to the path.
abbrev pub append_variable : Text → Value → ExecutionContext → Option ExecutionContext
append_variable path v c = get_variable path c >>= λ x. elim x [
  | undefined ↦ set_variable path (arr (cons v nil)) c
  | arr vs ↦ set_variable path (arr (push_item v vs)) c
  | _ ↦ none
]

-- Writes to the object at a path; the empty path is that of all variables.
abbrev pub put_object : Text → Assoc Value → ExecutionContext → Option ExecutionContext
put_object [] m c = some (record c { vars = object m })
put_object (x ∷ path) m c = set_variable (x ∷ path) (obj (object m)) c

abbrev pub merge_variable : Text → Value → ExecutionContext → Option ExecutionContext
merge_variable path v c = get_variable path c >>= λ x. elim x [
  | undefined ↦ put_object path (assign [] (spread v)) c
  | obj f ↦ put_object path (assign (entries f) (spread v)) c
  | _ ↦ none
]

-- `v + amount`: text is appended to, and so is what text stands for.
abbrev pub plus : Value → ℤ → Value
plus (num n) amount = num (n +ℤ amount)
plus (bool b) amount = num (pos (if b then 1 else 0) +ℤ amount)
plus v amount = str (to_text v ++ scalar_text (num amount))

-- `getVariable(path) || 0`
abbrev pub or_zero : Value → Value
or_zero v = if truthy v then v else num (pos 0)

abbrev pub increment_variable : Text → ℤ → ExecutionContext → Option (ExecutionContext × Value)
increment_variable path amount c = get_variable path c >>= λ x.
    let value = plus (or_zero x) amount in set_variable path value c >>= λ d. some (d, value)

-- `parts.slice(0, -1)` and the last one.
abbrev pub split_last : Text → List Text → List Text × Text
split_last part [] = ([], part)
split_last part (next ∷ parts) = let (front, last) = split_last next parts in (part ∷ front, last)

abbrev pub put_parent : Text → Value → ExecutionContext → Option ExecutionContext
put_parent path (obj f) c = put_object path (entries f) c
put_parent path v c = set_variable path v c

-- `delete parent[key]`, on a parent that is an object.
abbrev pub delete_in : Text → Text → ExecutionContext → Option ExecutionContext
delete_in parent key c = get_variable parent c >>= λ x. elim x [
  | obj f ↦ remove_member key (obj f) >>= λ w. put_parent parent w c
  | arr vs ↦ remove_member key (arr vs) >>= λ w. put_parent parent w c
  | _ ↦ some c
]

abbrev pub delete_variable : Text → ExecutionContext → Option ExecutionContext
delete_variable [] c = some c
delete_variable (x ∷ path) c = elim (split (x ∷ path)) [
  | [] ↦ some c
  | part ∷ [] ↦ some (record c { vars = object (Assoc.delete (x ∷ path) (entries c.vars)) })
  | part ∷ next ∷ parts ↦
      let (front, key) = split_last part (next ∷ parts) in delete_in (join_dots front) key c
]
