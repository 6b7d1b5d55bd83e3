-- ===== src/Tests/Contexts.antt =====
-- Variables that are set along paths, and a loop within a loop.
use open_workflow_studio.Prelude.{◌≡◌, refl, ap, some, ◌∷◌, arith, ℕ}
use open_workflow_studio.Prelude.Int.{pos}
use open_workflow_studio.Text.{Text, codes, ◌==◌, mem}
use open_workflow_studio.Text.Decimal.{parse_digits, only_digits}
use open_workflow_studio.Text.Scan.{take_while, drop_while}
use open_workflow_studio.Assoc
use open_workflow_studio.Value.{
  Value, undefined, str, num, arr, obj, nil, cons, end, field, Fields, Items,
}
use open_workflow_studio.ExecutionContext.{
  ExecutionContext, new_context, get_variable, set_variable,
}
use open_workflow_studio.Expression.Evaluate.{member}
use open_workflow_studio.ExecutionContext.Paths.{
  split, read_step, bracketed, set_steps, put_member, child, list_at,
}
use open_workflow_studio.ExecutionContext.Variables.{get_variable-set_variable, set_variable_new}
use open_workflow_studio.ExecutionContext.Loops.{for_each, views_from, KeepsLoops, for_each_views}

abbrev three : Value
three = num (pos 3)

abbrev context : ExecutionContext
context = record new_context { vars = field (codes "total") (num (pos 7)) end }

-- `lines` is made, with a hole and an object.
abbrev lines : Fields
lines = field (codes "total") (num (pos 7)) (
    field (codes "lines") (arr (cons undefined (cons (obj (field (codes "x") three end)) nil))) end)

set_lines : set_variable (codes "lines[1].x") three context ≡ some (record context { vars = lines })
unfolding split read_step bracketed set_steps put_member child list_at member mem Assoc.get
    Assoc.set ◌==◌ parse_digits only_digits take_while drop_while
set_lines = refl

abbrev second_code : Text → ℕ
second_code (a ∷ b ∷ s) = b
second_code _ = 0

get_variable-set_variable_example :
    (get_variable (codes "lines[1].x") (record context { vars = lines }) ≡ some three)
    × (get_variable (codes "total") (record context { vars = lines })
        ≡ get_variable (codes "total") context)
unfolding split read_step bracketed take_while drop_while parse_digits only_digits ◌==◌
get_variable-set_variable_example =
    get_variable-set_variable (codes "lines[1].x") (codes "total") three context
      (record context { vars = lines }) set_lines (λ e. cc) (λ e. omega (arith, ap second_code e))

set_variable_new_example :
    (d : ExecutionContext) × (set_variable (codes "lines[1].x") three context ≡ some d)
    × (get_variable (codes "lines[1].x") d ≡ some three)
unfolding split read_step bracketed take_while drop_while parse_digits only_digits ◌==◌ Assoc.get
    mem
set_variable_new_example =
    set_variable_new (codes "lines[1].x") three context (λ e. cc) (refl, (refl, tt)) refl

abbrev pair : Items
pair = cons (str (codes "a")) (cons (str (codes "b")) nil)

-- The context after a loop over two items.
abbrev after_pair : ExecutionContext → ExecutionContext
after_pair c = (for_each_views (λ d. d) (λ d. refl) pair c).0

after_pair-KeepsLoops : KeepsLoops after_pair
after_pair-KeepsLoops c = (for_each_views (λ d. d) (λ d. refl) pair c).2

for_each_views_example :
    (d : ExecutionContext) × (for_each after_pair pair context ≡ some (views_from 0 2 pair, d))
    × (d.loop_stack ≡ context.loop_stack)
for_each_views_example = for_each_views after_pair after_pair-KeepsLoops pair context
