-- ===== src/Suggestions/Context.antt =====
-- utils/input_suggestion_utils.js: the suggestions that a context of expressions gives.
use open_workflow_studio.Prelude.{List, [], ◌∷◌, ◌++◌, take}
use open_workflow_studio.Text.{Text, codes}
use open_workflow_studio.Assoc
use open_workflow_studio.Assoc.{Assoc}
use open_workflow_studio.Value.{
  Value, obj, arr, Items, nil, cons, end, field, str, entries, or_undefined, prop,
}
use open_workflow_studio.Suggestions.{Suggestion, merge_unique_suggestions}

abbrev pub suggest : Text → Text → Suggestion
suggest value description = record { value = value; label = value; description = description }

-- The keys of an object that is no array; there are none of anything else.
abbrev pub members : Value → Assoc Value
members (obj f) = entries f
members _ = []

abbrev pub dotted : Text → Text → Text
dotted path key = path ++ (codes "." ++ key)

abbrev pub child_suggestions : Text → Text → List Text → List Suggestion
child_suggestions path detail [] = []
child_suggestions path detail (key ∷ keys) =
    suggest (dotted path key) detail ∷ child_suggestions path detail keys

-- The loop over the keys of a namespace.
abbrev pub member_suggestions : Text → Assoc Value → List Suggestion
member_suggestions namespace [] = []
member_suggestions namespace ((key, child) ∷ m) =
    suggest (dotted namespace key) (namespace ++ codes " key")
    ∷ (child_suggestions (dotted namespace key) (namespace ++ codes " nested key")
          (take 10 (Assoc.keys (members child)))
        ++ member_suggestions namespace m)

abbrev pub add_namespace_suggestions : Assoc Value → Text → Text → List Suggestion
add_namespace_suggestions context namespace detail =
    suggest namespace detail
    ∷ member_suggestions namespace (take 30 (members (or_undefined (Assoc.get namespace context))))

abbrev pub node_base : Text → Text
node_base id = codes "_node[\"" ++ (id ++ codes "\"]")

-- The loop over the ids of the nodes.
abbrev pub output_suggestions : Assoc Value → List Suggestion
output_suggestions [] = []
output_suggestions ((id, data_) ∷ m) =
    let path = dotted (node_base id) (codes "json") in
    suggest (node_base id) (codes "Node output object")
    ∷ suggest path (codes "Node JSON output")
    ∷ (child_suggestions path (codes "Node JSON key")
          (take 10 (Assoc.keys (members (prop (codes "json") data_))))
        ++ output_suggestions m)

abbrev pub add_node_suggestions : Value → List Suggestion
add_node_suggestions nodes =
    suggest (codes "_node") (codes "Other node outputs")
    ∷ output_suggestions (take 20 (members nodes))

abbrev pub context_suggestions : Assoc Value → List Suggestion
context_suggestions context =
    add_namespace_suggestions context (codes "_json") (codes "Input data from previous node")
    ++ (add_namespace_suggestions context (codes "_input") (codes "Input alias object")
        ++ (add_namespace_suggestions context (codes "_vars") (codes "Workflow variables")
            ++ (add_namespace_suggestions context (codes "_execution") (codes "Execution metadata")
                ++ (add_namespace_suggestions context (codes "_workflow")
                      (codes "Workflow metadata")
                    ++ (suggest (codes "_loop") (codes "Loop context")
                        ∷ suggest (codes "_now") (codes "Current datetime")
                        ∷ suggest (codes "_today") (codes "Current date")
                        ∷ add_node_suggestions
                            (or_undefined (Assoc.get (codes "_node") context)))))))

-- A suggestion as the value that is merged.
abbrev pub suggestion_value : Suggestion → Value
suggestion_value s = obj (
    field (codes "value") (str s.value)
      (field (codes "label") (str s.label) (field (codes "description") (str s.description) end)))

abbrev pub suggestion_values : List Suggestion → Items
suggestion_values [] = nil
suggestion_values (s ∷ ss) = cons (suggestion_value s) (suggestion_values ss)

abbrev pub build_context_expression_suggestions : (Text → Text) → Value → List Suggestion
build_context_expression_suggestions to_lower_case context =
    merge_unique_suggestions to_lower_case
      (arr (suggestion_values (context_suggestions (members context))) ∷ [])
