-- ===== src/NodeHelpers.antt =====
-- core/node_helpers.js: `NodeHelpers`, what a node sees of the execution. The map of contexts is
-- shared by all nodes of an execution. The logging is not modelled.
pub mod Context
use open_workflow_studio.Prelude.{
  Bool, true, false, ◌||◌, Option, none, some, List, [], ◌∷◌, if◌then◌else◌,
}
use open_workflow_studio.Text.{Text, codes, ◌==◌}
use open_workflow_studio.Assoc
use open_workflow_studio.Assoc.{Assoc}
use open_workflow_studio.Value.{
  or_value, Value, undefined, null, bool, str, arr, obj, Items, nil, cons, Fields, end, truthy,
  prop, or_undefined, object,
}

-- The fields of a node's definition that are read.
pub record NodeDefinition : Type 0 where
  pub on_error : Value
  pub settings : Value
  pub continue_on_fail : Value

-- `variables` is what the service's `getAllVariables?.()` gives, if there is a service.
pub record NodeHelpers : Type 0 where
  pub input_data : Value
  pub node_context : Assoc (Assoc Value)
  pub node_id : Text
  pub config : Assoc Value
  pub expression_context : Assoc Value
  pub variables : Option Value
  pub node : Option NodeDefinition

abbrev pub get_input_data : NodeHelpers → Items
get_input_data h = elim h.input_data [ arr vs ↦ vs | v ↦ if truthy v then cons v nil else nil ]

-- `a ?? b`
abbrev pub coalesce : Value → Value → Value
coalesce undefined b = b
coalesce null b = b
coalesce a b = a

abbrev pub first_item : Items → Value
first_item nil = undefined
first_item (cons v vs) = v

abbrev pub get_input_json : NodeHelpers → Value
get_input_json h =
    let item = first_item (get_input_data h) in
    or_value (prop (codes "json") item) (or_value item (obj end))

-- The context is made when it is asked for first.
pub get_context : NodeHelpers → NodeHelpers × Assoc Value
get_context h = elim (Assoc.get h.node_id h.node_context) [
  | none ↦ (record h { node_context = Assoc.set h.node_id [] h.node_context }, [])
  | some c ↦ (h, c)
]

pub clear_context : NodeHelpers → NodeHelpers
clear_context h = record h { node_context = Assoc.delete h.node_id h.node_context }

abbrev pub has_context : NodeHelpers → Bool
has_context h = Assoc.has h.node_id h.node_context

abbrev pub get_node_parameter : Text → Value → NodeHelpers → Value
get_node_parameter name default_value h =
    coalesce (or_undefined (Assoc.get name h.config)) default_value

abbrev pub get_all_node_parameters : NodeHelpers → Assoc Value
get_all_node_parameters h = h.config

abbrev pub get_expression_context : NodeHelpers → Assoc Value
get_expression_context h = h.expression_context

abbrev pub get_expression_variable : Text → NodeHelpers → Value
get_expression_variable name h = or_undefined (Assoc.get name h.expression_context)

abbrev pub get_variables : NodeHelpers → Value
get_variables h = elim h.variables [
  | some v ↦ or_value v (obj end)
  | none ↦ or_value (get_expression_variable (codes "_vars") h) (obj end)
]

abbrev pub get_variable : Text → Value → NodeHelpers → Value
get_variable name default_value h = coalesce (prop name (get_variables h)) default_value

abbrev pub is_continuing : Value → Bool
is_continuing (str s) = s == codes "continueRegularOutput" || s == codes "continueErrorOutput"
is_continuing _ = false

abbrev pub is_true : Value → Bool
is_true (bool b) = b
is_true _ = false

-- The setting of the node itself counts before the one of its settings.
abbrev pub continue_on_fail : NodeHelpers → Bool
continue_on_fail h = elim h.node [
  | none ↦ false
  | some n ↦ elim (or_value n.on_error (prop (codes "onError") n.settings)) [
    | undefined ↦ is_true n.continue_on_fail
    | v ↦ is_continuing v
  ]
]
