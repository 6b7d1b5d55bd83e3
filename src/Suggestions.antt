-- ===== src/Suggestions.antt =====
-- utils/input_suggestion_utils.js: the suggestions that an input offers. Lower case is the host's, a
-- parameter here.
pub mod Merged
pub mod Context
use open_workflow_studio.Prelude.{
  ℕ, Bool, true, false, ◌||◌, Option, none, some, List, [], ◌∷◌, ◌++◌, filter, take, if◌then◌else◌,
}
use open_workflow_studio.Text.{Text, codes, ◌==◌, mem}
use open_workflow_studio.Text.Scan.{trim}
use open_workflow_studio.Assoc
use open_workflow_studio.Assoc.{Assoc}
use open_workflow_studio.Value.{
  Value, undefined, null, str, arr, obj, Items, nil, cons, truthy, or_undefined, entries, prop,
}
use open_workflow_studio.Expression.Evaluate.{to_text, includes}

pub record Suggestion : Type 0 where
  pub value : Text
  pub label : Text
  pub description : Text

-- `v === undefined || v === null ? other : String(v)`
abbrev pub text_or : Text → Value → Text
text_or other undefined = other
text_or other null = other
text_or other v = to_text v

abbrev pub plain_suggestion : Text → Option Suggestion
plain_suggestion [] = none
plain_suggestion (c ∷ s) = some (record { value = c ∷ s; label = c ∷ s; description = [] })

-- An object's value, or its label where it has no member of that name.
abbrev pub raw_value : Assoc Value → Value
raw_value m = elim (Assoc.get (codes "value") m) [
  | none ↦ or_undefined (Assoc.get (codes "label") m)
  | some v ↦ v
]

abbrev pub described : Assoc Value → Text → Option Suggestion
described m [] = none
described m (c ∷ s) = some (record {
  value = c ∷ s;
  label = text_or (c ∷ s) (or_undefined (Assoc.get (codes "label") m));
  description = text_or [] (or_undefined (Assoc.get (codes "description") m));
})

abbrev pub object_suggestion : Assoc Value → Option Suggestion
object_suggestion m = described m (trim (text_or [] (raw_value m)))

-- One round of the loop; none is passed over.
unfoldable pub normalize_item : Value → Option Suggestion
normalize_item (str s) = plain_suggestion (trim s)
normalize_item (obj f) = object_suggestion (entries f)
normalize_item _ = none

abbrev pub push_some : Option Suggestion → List Suggestion → List Suggestion
push_some none ss = ss
push_some (some s) ss = s ∷ ss

abbrev pub normalize_items : Items → List Suggestion
normalize_items nil = []
normalize_items (cons v vs) = push_some (normalize_item v) (normalize_items vs)

abbrev pub normalize_suggestions : Value → List Suggestion
normalize_suggestions (arr vs) = normalize_items vs
normalize_suggestions _ = []

-- What `mergeUniqueSuggestions` fills.
pub record Merging : Type 0 where
  pub merged : List Suggestion
  pub seen : List Text

abbrev pub nothing_merged : Merging
nothing_merged = record { merged = []; seen = [] }

module _ (to_lower_case : Text → Text) where
  abbrev pub key_of : Suggestion → Text
  key_of s = to_lower_case s.value

  unfoldable pub merge_item : Suggestion → Merging → Merging
  merge_item s m =
      if mem (key_of s) m.seen
      then m
      else record { merged = m.merged ++ s ∷ []; seen = m.seen ++ key_of s ∷ [] }

  abbrev pub merge_items : List Suggestion → Merging → Merging
  merge_items [] m = m
  merge_items (s ∷ ss) m = merge_items ss (merge_item s m)

  abbrev pub merge_lists : List Value → Merging → Merging
  merge_lists [] m = m
  merge_lists (l ∷ ls) m = merge_lists ls (merge_items (normalize_suggestions l) m)

  abbrev pub merge_unique_suggestions : List Value → List Suggestion
  merge_unique_suggestions lists = (merge_lists lists nothing_merged).merged

  abbrev pub matches_query : Text → Suggestion → Bool
  matches_query q s =
      includes q (to_lower_case s.value)
      || includes q (to_lower_case s.label)
      || includes q (to_lower_case s.description)

  abbrev pub filter_suggestions : List Suggestion → Text → ℕ → List Suggestion
  filter_suggestions items query limit = elim (to_lower_case (trim query)) [
    | [] ↦ take limit items
    | c ∷ q ↦ take limit (filter (matches_query (c ∷ q)) items)
  ]

  -- The entry whose key is the given one in lower case.
  unfoldable pub find_lowered : Text → Assoc Value → Value
  find_lowered lowered [] = undefined
  find_lowered lowered ((k, v) ∷ m) =
      let rest = find_lowered lowered m in if to_lower_case k == lowered then v else rest

  abbrev pub suggestions_at : Text → Assoc Value → List Suggestion
  suggestions_at [] m = []
  suggestions_at (c ∷ k) m = elim (Assoc.get (c ∷ k) m) [
    | some v ↦ normalize_suggestions v
    | none ↦ normalize_suggestions (find_lowered (to_lower_case (c ∷ k)) m)
  ]

  abbrev pub get_suggestions_by_key : Value → Value → List Suggestion
  get_suggestions_by_key (obj f) key =
      suggestions_at (trim (if truthy key then to_text key else [])) (entries f)
  get_suggestions_by_key _ key = []
