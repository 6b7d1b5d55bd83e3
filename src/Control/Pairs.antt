-- ===== src/Control/Pairs.antt =====
-- core/control.js: `KeyValueControl`, the list of pairs with an id each, over ids that are natural
-- numbers and keys and values that are strings.
pub mod Distinct
pub mod Numbered
use open_workflow_studio.Prelude.{
  ℕ, zero, suc, max, Bool, true, false, not, Option, none, some, List, [], ◌∷◌, ◌++◌, length, ltb,
  if◌then◌else◌, is_some,
}
use open_workflow_studio.Text.{Text, codes}

-- A pair as an option or a saved workflow has it, where each of its fields may be missing.
pub record StoredPair : Type 0 where
  pub id : Option ℕ
  pub key : Option Text
  pub value : Option Text

pub record Pair : Type 0 where
  pub id : ℕ
  pub key : Text
  pub value : Text

pub record KeyValueControl : Type 0 where
  pub key : Text
  pub type : Text
  pub label : Text
  pub key_placeholder : Text
  pub value_placeholder : Text
  pub value : List Pair
  pub next_id : ℕ

-- `o || d`, for a string that may be missing.
abbrev pub or_text : Option Text → Text → Text
or_text none d = d
or_text (some []) d = d
or_text (some (c ∷ s)) d = c ∷ s

-- `p.id || 0`
abbrev pub stored_id : StoredPair → ℕ
stored_id p = elim p.id [ none ↦ 0 | some i ↦ i ]

pub max_id : List StoredPair → ℕ
max_id [] = 0
max_id (p ∷ ps) = max (stored_id p) (max_id ps)

-- The loop that gives an id to the pairs without one, with the next id to give.
pub number_pairs : ℕ → List StoredPair → List Pair × ℕ
number_pairs next [] = ([], next)
number_pairs next (p ∷ ps) = elim (stored_id p) [
  | zero ↦
      let (rest, next') = number_pairs (suc next) ps in
      (record { id = next; key = or_text p.key []; value = or_text p.value [] } ∷ rest, next')
  | suc i ↦
      let (rest, next') = number_pairs next ps in
      (record { id = suc i; key = or_text p.key []; value = or_text p.value [] } ∷ rest, next')
]

pub initial_pairs : Option (List StoredPair) → List Pair × ℕ
initial_pairs none = (record { id = 1; key = []; value = [] } ∷ [], 2)
initial_pairs (some ps) = number_pairs (suc (max_id ps)) ps

-- The constructor, with the options' `label`, placeholders and `default`, when that is a list.
pub new_key_value :
    Text → Option Text → Option Text → Option Text → Option (List StoredPair) → KeyValueControl
new_key_value key label key_placeholder value_placeholder default =
    let (pairs, next) = initial_pairs default in
    record {
      key = key;
      type = codes "keyvalue";
      label = or_text label key;
      key_placeholder = or_text key_placeholder (codes "Key");
      value_placeholder = or_text value_placeholder (codes "Value");
      value = pairs;
      next_id = next;
    }

pub add_pair : KeyValueControl → KeyValueControl
add_pair c = record c {
  value = c.value ++ record { id = c.next_id; key = []; value = [] } ∷ [];
  next_id = suc c.next_id;
}

-- `filter((_, i) => i !== index)`
pub remove_at : ℕ → List Pair → List Pair
remove_at i [] = []
remove_at zero (p ∷ ps) = ps
remove_at (suc i) (p ∷ ps) = p ∷ remove_at i ps

pub remove_pair : ℕ → KeyValueControl → KeyValueControl
remove_pair index c =
    if ltb 1 (length c.value) then record c { value = remove_at index c.value } else c

-- Out of range nothing changes.
pub set_at : ℕ → Text → Text → List Pair → List Pair
set_at i key value [] = []
set_at zero key value (p ∷ ps) = record p { key = key; value = value } ∷ ps
set_at (suc i) key value (p ∷ ps) = p ∷ set_at i key value ps

pub set_pair : ℕ → Text → Text → KeyValueControl → KeyValueControl
set_pair index key value c = record c { value = set_at index key value c.value }

-- `getPairs`: the pairs whose key is not empty.
abbrev pub get_pairs : List Pair → List Pair
get_pairs [] = []
get_pairs (p ∷ ps) = elim p.key [ [] ↦ get_pairs ps | _ ∷ _ ↦ p ∷ get_pairs ps ]

-- A call of one of the methods that change the list.
pub data PairCall : Type 0 where
  adds : PairCall
  removes : ℕ → PairCall
  sets : ℕ → Text → Text → PairCall

pub call_all : List PairCall → KeyValueControl → KeyValueControl
call_all [] c = c
call_all (adds ∷ cs) c = call_all cs (add_pair c)
call_all (removes i ∷ cs) c = call_all cs (remove_pair i c)
call_all (sets i k v ∷ cs) c = call_all cs (set_pair i k v c)
