-- ===== src/Value/Json.antt =====
-- `JSON.parse(JSON.stringify(v))`, by which core/context.js copies the variables and
-- store/workflow_store.js the metadata: a member that is undefined is left out, and an item that is
-- undefined becomes null.
use open_workflow_studio.Prelude.{
  ◌≡◌, refl, ◌∙◌, ap, ap₂, false, none, some, [], ◌∷◌, arith, Bool-cases, inl, inr,
}
use open_workflow_studio.Text.{Text, ◌==◌}
use open_workflow_studio.Assoc
use open_workflow_studio.Assoc.{Assoc}
use open_workflow_studio.Value.{
  Value, undefined, null, bool, num, str, arr, obj, Items, nil, cons, Fields, end, field, entries,
  object,
}

-- An object's member, with the others behind it.
abbrev pub json_member : Text → Value → Fields → Fields
json_member k undefined f = f
json_member k v f = field k v f

abbrev pub json_item : Value → Value
json_item undefined = null
json_item v = v

mutual
  pub json : Value → Value
  json (arr vs) = arr (json_items vs)
  json (obj f) = obj (json_fields f)
  json undefined = undefined
  json null = null
  json (bool b) = bool b
  json (num n) = num n
  json (str s) = str s

  pub json_items : Items → Items
  json_items nil = nil
  json_items (cons v vs) = cons (json_item (json v)) (json_items vs)

  pub json_fields : Fields → Fields
  json_fields end = end
  json_fields (field k v f) = json_member k (json v) (json_fields f)

-- The same on the entries of an object.
abbrev pub json_entry : Text → Value → Assoc Value → Assoc Value
json_entry k undefined m = m
json_entry k v m = (k, v) ∷ m

unfoldable pub json_entries : Assoc Value → Assoc Value
json_entries [] = []
json_entries ((k, v) ∷ m) = json_entry k (json v) (json_entries m)

entries-json_member :
    (k : Text) (v : Value) (f : Fields) → entries (json_member k v f) ≡ json_entry k v (entries f)
entries-json_member k undefined f = refl
entries-json_member k null f = refl
entries-json_member k (bool b) f = refl
entries-json_member k (num n) f = refl
entries-json_member k (str s) f = refl
entries-json_member k (arr vs) f = refl
entries-json_member k (obj g) f = refl

pub entries-json_fields : (m : Assoc Value) → entries (json_fields (object m)) ≡ json_entries m
unfolding json_fields json_entries
entries-json_fields [] = refl
entries-json_fields ((k, v) ∷ m) =
    entries-json_member k (json v) (json_fields (object m))
    ∙ ap (json_entry k (json v)) (entries-json_fields m)

json_fields-json_member :
    (k : Text) (v : Value) (f : Fields)
    → json v ≡ v
    → json_fields f ≡ f
    → json_fields (json_member k v f) ≡ json_member k v f
unfolding json_fields
json_fields-json_member k undefined f e h = h
json_fields-json_member k null f e h = rw (e, h) refl
json_fields-json_member k (bool b) f e h = rw (e, h) refl
json_fields-json_member k (num n) f e h = rw (e, h) refl
json_fields-json_member k (str s) f e h = rw (e, h) refl
json_fields-json_member k (arr vs) f e h = rw (e, h) refl
json_fields-json_member k (obj g) f e h = rw (e, h) refl

json-json_item : (v : Value) → json v ≡ v → json_item (json (json_item v)) ≡ json_item v
unfolding json
json-json_item undefined e = refl
json-json_item null e = refl
json-json_item (bool b) e = refl
json-json_item (num n) e = refl
json-json_item (str s) e = refl
json-json_item (arr vs) e = ap json_item e
json-json_item (obj g) e = ap json_item e

-- What came through JSON stays as it is.
mutual
  unfolding json json_items json_fields

  pub json_again : (v : Value) → json (json v) ≡ json v
  json_again (arr vs) = ap arr (json_items_again vs)
  json_again (obj f) = ap obj (json_fields_again f)
  json_again undefined = refl
  json_again null = refl
  json_again (bool b) = refl
  json_again (num n) = refl
  json_again (str s) = refl

  json_items_again : (vs : Items) → json_items (json_items vs) ≡ json_items vs
  json_items_again nil = refl
  json_items_again (cons v vs) =
      ap₂ cons (json-json_item (json v) (json_again v)) (json_items_again vs)

  json_fields_again : (f : Fields) → json_fields (json_fields f) ≡ json_fields f
  json_fields_again end = refl
  json_fields_again (field k v f) =
      json_fields-json_member k (json v) (json_fields f) (json_again v) (json_fields_again f)

json_entries-json_entry :
    (k : Text) (v : Value) (m : Assoc Value)
    → json v ≡ v
    → json_entries m ≡ m
    → json_entries (json_entry k v m) ≡ json_entry k v m
unfolding json_entries
json_entries-json_entry k undefined m e h = h
json_entries-json_entry k null m e h = rw (e, h) refl
json_entries-json_entry k (bool b) m e h = rw (e, h) refl
json_entries-json_entry k (num n) m e h = rw (e, h) refl
json_entries-json_entry k (str s) m e h = rw (e, h) refl
json_entries-json_entry k (arr vs) m e h = rw (e, h) refl
json_entries-json_entry k (obj g) m e h = rw (e, h) refl

pub json_entries_again : (m : Assoc Value) → json_entries (json_entries m) ≡ json_entries m
unfolding json_entries
json_entries_again [] = refl
json_entries_again ((k, v) ∷ m) =
    json_entries-json_entry k (json v) (json_entries m) (json_again v) (json_entries_again m)

-- A key that is not there, and one of an object.
pub get-json_entries-none :
    (k : Text) (m : Assoc Value) → Assoc.get k m ≡ none → Assoc.get k (json_entries m) ≡ none
unfolding Assoc.get json_entries
get-json_entries-none k [] e = refl
get-json_entries-none k ((j, v) ∷ m) e =
    get_entry (json v) (get-json_entries-none k m (ground arith)) (ground arith)
  where
    get_entry :
        (w : Value)
        → Assoc.get k (json_entries m) ≡ none
        → (k == j) ≡ false
        → Assoc.get k (json_entry j w (json_entries m)) ≡ none
    get_entry undefined h n = h
    get_entry null h n = rw n h
    get_entry (bool b) h n = rw n h
    get_entry (num x) h n = rw n h
    get_entry (str s) h n = rw n h
    get_entry (arr vs) h n = rw n h
    get_entry (obj f) h n = rw n h

pub get-json_entries_obj :
    (k : Text) (f : Fields) (m : Assoc Value)
    → Assoc.get k m ≡ some (obj f)
    → Assoc.get k (json_entries m) ≡ some (obj (json_fields f))
unfolding Assoc.get json_entries json
get-json_entries_obj k f [] e = cc
get-json_entries_obj k f ((j, v) ∷ m) e = elim (Bool-cases (k == j)) [
  | inl same ↦ let here : v ≡ obj f = ground arith in rw here (rw same refl)
  | inr other ↦ passed (json v) (get-json_entries_obj k f m (ground arith)) other
]
  where
    passed :
        (w : Value)
        → Assoc.get k (json_entries m) ≡ some (obj (json_fields f))
        → (k == j) ≡ false
        → Assoc.get k (json_entry j w (json_entries m)) ≡ some (obj (json_fields f))
    passed undefined h n = h
    passed null h n = rw n h
    passed (bool b) h n = rw n h
    passed (num x) h n = rw n h
    passed (str s) h n = rw n h
    passed (arr vs) h n = rw n h
    passed (obj g) h n = rw n h
