-- ===== src/ExecutionContext.antt =====
-- core/context.js: `ExecutionContext`, the variables, outputs and loops of a workflow that runs.
pub mod Paths
pub mod Places
pub mod Variables
pub mod Loops
pub mod Edit
pub mod Serialize
use open_workflow_studio.Prelude.{
  ℕ, suc, ◌+◌, ◌-◌, Bool, true, false, not, Option, none, some, List, [], ◌∷◌, ◌++◌, ◌>>=◌, eqb,
  ltb, length, is_some, if◌then◌else◌,
}
use open_workflow_studio.Prelude.Int.{ℤ, pos, ◌+ℤ◌}
use open_workflow_studio.Text.{Text, codes}
use open_workflow_studio.Assoc
use open_workflow_studio.Assoc.{Assoc}
use open_workflow_studio.Value.{
  Value, undefined, null, bool, num, str, arr, obj, Items, nil, cons, Fields, end, field, truthy,
  or_undefined, entries, object, prop, spread, assign,
}
use open_workflow_studio.Expression.Evaluate.{to_text, scalar_text}
use open_workflow_studio.ExecutionContext.Paths.{
  split, join_dots, resolve_path, set_path, item_at, size, or_empty, remove_member,
}

-- An entry of the stack of loops.
pub record LoopState : Type 0 where
  pub collection : Items
  pub index : ℕ
  pub total : ℕ

-- The innermost loop is the first of the stack.
pub record ExecutionContext : Type 0 where
  pub vars : Fields
  pub node_outputs : Assoc Value
  pub current_node_id : Option Text
  pub loop_stack : List LoopState
  pub node_context : Assoc Value
  pub current_input : Value

abbrev pub new_context : ExecutionContext
new_context = record {
  vars = end;
  node_outputs = [];
  current_node_id = none;
  loop_stack = [];
  node_context = [];
  current_input = null;
}

-- None is a path that reaches what objects inherit.
abbrev pub get_variable : Text → ExecutionContext → Option Value
get_variable path c = resolve_path (obj c.vars) path

abbrev pub with_vars : Value → ExecutionContext → Option ExecutionContext
with_vars (obj f) c = some (record c { vars = f })
with_vars _ c = none

-- None is an exception, which leaves the context as it is, or a path that reaches what objects inherit
-- or makes what values here do not hold.
abbrev pub set_variable : Text → Value → ExecutionContext → Option ExecutionContext
set_variable [] v c = none
set_variable (x ∷ path) v c = set_path (obj c.vars) (x ∷ path) v >>= λ w. with_vars w c

abbrev pub is_undefined : Value → Bool
is_undefined undefined = true
is_undefined _ = false

abbrev pub has_variable : Text → ExecutionContext → Option Bool
has_variable path c = get_variable path c >>= λ v. some (not (is_undefined v))

abbrev pub set_node_output : Text → Value → ExecutionContext → ExecutionContext
set_node_output id output c = record c {
  node_outputs = Assoc.set id output c.node_outputs;
  current_node_id = some id;
}

abbrev pub get_node_output : Text → ExecutionContext → Value
get_node_output id c = or_undefined (Assoc.get id c.node_outputs)

-- The getter `_json`; the empty id is as none.
abbrev pub json : ExecutionContext → Value
json c = elim c.current_node_id [
  | none ↦ obj end
  | some [] ↦ obj end
  | some (x ∷ id) ↦
      let output = get_node_output (x ∷ id) c in
      let inner = prop (codes "json") output in if truthy inner then inner else or_empty output
]

abbrev pub set_current_input : Value → ExecutionContext → ExecutionContext
set_current_input v c = record c { current_input = v }

-- What the getter `_loop` gives in a loop.
pub record LoopView : Type 0 where
  pub item : Value
  pub index : ℕ
  pub total : ℕ
  pub is_first : Bool
  pub is_last : Bool

abbrev pub view : LoopState → LoopView
view l = record {
  item = item_at l.index l.collection;
  index = l.index;
  total = l.total;
  is_first = eqb l.index 0;
  is_last = eqb (suc l.index) l.total;
}

abbrev pub loop : ExecutionContext → Option LoopView
loop c = elim c.loop_stack [ [] ↦ none | l ∷ ls ↦ if eqb l.total 0 then none else some (view l) ]

-- `collection` is an array, or else an exception is raised.
abbrev pub push_loop : Value → ExecutionContext → Option ExecutionContext
push_loop (arr vs) c = some (record c {
  loop_stack = record { collection = vs; index = 0; total = size vs } ∷ c.loop_stack;
})
push_loop _ c = none

abbrev pub pop_loop : ExecutionContext → ExecutionContext × Option LoopState
pop_loop c = elim c.loop_stack [ [] ↦ (c, none) | l ∷ ls ↦ (record c { loop_stack = ls }, some l) ]

abbrev pub advance_loop : ExecutionContext → ExecutionContext × Bool
advance_loop c = elim c.loop_stack [
  | [] ↦ (c, false)
  | l ∷ ls ↦
      (record c { loop_stack = record l { index = suc l.index } ∷ ls }, ltb (suc l.index) l.total)
]

abbrev pub get_loop_depth : ExecutionContext → ℕ
get_loop_depth c = length c.loop_stack

-- The getter `_input`.
abbrev pub input : ExecutionContext → Value
input c = elim c.loop_stack [
  | [] ↦ obj (object ((codes "item", c.current_input) ∷ (codes "json", c.current_input) ∷ []))
  | l ∷ ls ↦ elim (loop c) [
    | none ↦ obj (
        object
          ((codes "item", undefined) ∷ (codes "json", undefined) ∷ (codes "index", undefined) ∷ []))
    | some v ↦ obj (
        object (
          (codes "item", v.item)
          ∷ (codes "json", v.item)
          ∷ (codes "index", num (pos v.index))
          ∷ []))
  ]
]

abbrev pub set_node_context : Text → Value → ExecutionContext → ExecutionContext
set_node_context id undefined c = record c { node_context = Assoc.delete id c.node_context }
set_node_context id null c = record c { node_context = Assoc.delete id c.node_context }
set_node_context id v c = record c { node_context = Assoc.set id v c.node_context }

abbrev pub get_node_context : Text → ExecutionContext → Value
get_node_context id c = or_undefined (Assoc.get id c.node_context)

abbrev pub loop_value : Option LoopView → Value
loop_value none = null
loop_value (some v) = obj (
    object (
      (codes "item", v.item)
      ∷ (codes "index", num (pos v.index))
      ∷ (codes "total", num (pos v.total))
      ∷ (codes "isFirst", bool v.is_first)
      ∷ (codes "isLast", bool v.is_last)
      ∷ []))

abbrev pub to_expression_context : ExecutionContext → Assoc Value
to_expression_context c =
    (codes "_vars", obj c.vars)
    ∷ (codes "_node", obj (object c.node_outputs))
    ∷ (codes "_json", json c)
    ∷ (codes "_loop", loop_value (loop c))
    ∷ (codes "_input", input c)
    ∷ []
