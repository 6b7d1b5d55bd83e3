-- ===== src/Tests/Suggesting.antt =====
-- Suggestions from two lists, in ASCII, and the types of nodes that were used last.
use open_workflow_studio.Prelude.{
  ◌≡◌, refl, ◌+◌, ◌&&◌, true, List, [], ◌∷◌, map, leb, if◌then◌else◌, All, In, length,
}
use open_workflow_studio.Text.{Text, codes, mem, NoRepeat, ◌==◌}
use open_workflow_studio.Text.Scan.{trim_end, drop_while}
use open_workflow_studio.Assoc
use open_workflow_studio.Value.{Value, str, obj, arr, nil, cons, field, end}
use open_workflow_studio.Expression.Evaluate.{to_text, scalar_text}
use open_workflow_studio.Suggestions.{
  key_of, merge_unique_suggestions, merge_item, normalize_item, Suggestion,
}
use open_workflow_studio.Suggestions.Context.{build_context_expression_suggestions}
use open_workflow_studio.Suggestions.Merged.{all_suggestions, merge_unique_suggestions_lem}
use open_workflow_studio.Prelude.{some, ◌≤◌, get_elem?}
use open_workflow_studio.NodeRegistry.{
  RecentCall, track, prune, perform_all, track_node_usage, perform_all-IsRecent,
}

abbrev lower_ascii : Text → Text
lower_ascii = map (λ c. if leb 65 c && leb c 90 then c + 32 else c)

abbrev lists : List Value
lists =
    arr (cons (str (codes " Get ")) (cons (str (codes "post")) nil))
    ∷ arr (cons (obj (field (codes "value") (str (codes "GET")) end)) nil)
    ∷ []

abbrev get_post : List Suggestion
get_post =
    record { value = codes "Get"; label = codes "Get"; description = [] }
    ∷ record { value = codes "post"; label = codes "post"; description = [] }
    ∷ []

merged : merge_unique_suggestions lower_ascii lists ≡ get_post
unfolding merge_item normalize_item mem ◌==◌ trim_end drop_while Assoc.get to_text scalar_text
merged = refl

-- The eight namespaces and `_node`, and `_json` has one key.
context_suggested :
    length (
      build_context_expression_suggestions lower_ascii
        (obj (field (codes "_json") (obj (field (codes "a") (str []) end)) end)))
    ≡ 10
unfolding merge_item normalize_item mem ◌==◌ trim_end drop_while Assoc.get to_text scalar_text
context_suggested = refl

merge_unique_suggestions_example :
    NoRepeat (map (key_of lower_ascii) (merge_unique_suggestions lower_ascii lists))
    × All (λ s. In s (all_suggestions lists)) (merge_unique_suggestions lower_ascii lists)
    × All
        (λ s.
          mem
            (key_of lower_ascii s)
            (map (key_of lower_ascii) (merge_unique_suggestions lower_ascii lists))
          ≡ true)
        (all_suggestions lists)
merge_unique_suggestions_example = merge_unique_suggestions_lem lower_ascii lists

abbrev uses : List RecentCall
uses =
    track (codes "http")
    ∷ track (codes "loop")
    ∷ track (codes "http")
    ∷ prune (codes "loop" ∷ codes "http" ∷ [])
    ∷ []

perform_all-IsRecent_example :
    NoRepeat (perform_all uses [])
    × (length (perform_all uses []) ≤ 10)
    × (get_elem? (track_node_usage (codes "loop") (perform_all uses [])) 0 ≡ some (codes "loop"))
perform_all-IsRecent_example = perform_all-IsRecent uses (codes "loop")
