-- ===== src/Store/Pins/Saved.antt =====
-- Pins that are saved with the workflow and loaded again.
use open_workflow_studio.Prelude.{
  arith, ◌≡◌, refl, ◌∙◌, ap, false, none, some, List, [], ◌∷◌, if◌then◌else◌, Option-cases, inl,
  inr,
}
use open_workflow_studio.Text.{Text, codes, ◌==◌, ==_refl}
use open_workflow_studio.Assoc
use open_workflow_studio.Assoc.{Assoc, IsUnique}
use open_workflow_studio.Assoc.Laws.{get-set, get-delete, set-IsUnique, delete-IsUnique}
use open_workflow_studio.Value.{
  Value, undefined, null, bool, num, str, arr, obj, object, assign, or_undefined, truthy,
}
use open_workflow_studio.Value.Json.{
  json, json_entry, json_entries, entries-json_fields, json_entries_again, get-json_entries-none,
  get-json_entries_obj,
}
use open_workflow_studio.Value.Assign.{assign-Begins}
use open_workflow_studio.Store.{Store}
use open_workflow_studio.Store.Pins.{
  stored_value, pin_node_data, unpin_node_data, clear_all_pin_data, set_or_delete, restore_pins,
  snapshot_metadata, load_metadata,
}

pub data PinCall : Type 0 where
  pin : Text → Value → PinCall
  unpin : Text → PinCall
  clear_all : PinCall

-- A call that raises an exception has changed nothing.
abbrev pub call : PinCall → Store → Store
call (pin k v) st = elim (pin_node_data k v st) [ none ↦ st | some st' ↦ st' ]
call (unpin k) st = unpin_node_data k st
call clear_all st = clear_all_pin_data st

abbrev pub call_all : List PinCall → Store → Store
call_all [] st = st
call_all (c ∷ cs) st = call_all cs (call c st)

pin-IsUnique :
    (k : Text) (v : Value) (st : Store)
    → IsUnique st.pin_data
    → IsUnique (call (pin k v) st).pin_data
unfolding pin_node_data
pin-IsUnique [] v st u = u
pin-IsUnique (c ∷ k) v st u = elim (Option-cases (stored_value v)) [
  | inl e ↦ rw (e, call, pin_node_data) u
  | inr (w, e) ↦ rw (e, call, pin_node_data) (set-IsUnique (c ∷ k) w st.pin_data u)
]

call_all-IsUnique :
    (cs : List PinCall) (st : Store) → IsUnique st.pin_data → IsUnique (call_all cs st).pin_data
unfolding unpin_node_data clear_all_pin_data
call_all-IsUnique [] st u = u
call_all-IsUnique (pin k v ∷ cs) st u =
    call_all-IsUnique cs (call (pin k v) st) (pin-IsUnique k v st u)
call_all-IsUnique (unpin k ∷ cs) st u =
    call_all-IsUnique cs (unpin_node_data k st) (delete-IsUnique k st.pin_data u)
call_all-IsUnique (clear_all ∷ cs) st u = call_all-IsUnique cs (clear_all_pin_data st) tt

abbrev pin_key : Text
pin_key = codes "pin_data"

get-set_or_delete :
    (k : Text) (ps m : Assoc Value)
    → (k == pin_key) ≡ false
    → Assoc.get k (set_or_delete pin_key ps m) ≡ Assoc.get k m
get-set_or_delete k [] m h = get-delete k pin_key m ∙ rw h refl
get-set_or_delete k (p ∷ ps) m h = get-set k pin_key (obj (object (p ∷ ps))) m ∙ rw h refl

json_entries-IsUnique : (m : Assoc Value) → IsUnique m → IsUnique (json_entries m)
unfolding json_entries
json_entries-IsUnique [] u = tt
json_entries-IsUnique ((k, v) ∷ m) (new, u) =
    entry (json v) (get-json_entries-none k m (ground arith)) (json_entries-IsUnique m u)
  where
    entry :
        (w : Value)
        → Assoc.get k (json_entries m) ≡ none
        → IsUnique (json_entries m)
        → IsUnique (json_entry k w (json_entries m))
    entry undefined n h = h
    entry null n h = (rw n refl, h)
    entry (bool b) n h = (rw n refl, h)
    entry (num x) n h = (rw n refl, h)
    entry (str t) n h = (rw n refl, h)
    entry (arr vs) n h = (rw n refl, h)
    entry (obj f) n h = (rw n refl, h)

-- What `loadWorkflow` reads from the metadata that were saved.
restored :
    (ps m : Assoc Value)
    → IsUnique ps
    → Assoc.get (codes "pinData") m ≡ none
    → (let saved = json_entries (set_or_delete pin_key ps m) in
        let v = or_undefined (Assoc.get pin_key saved) in
        restore_pins (if truthy v then v else or_undefined (Assoc.get (codes "pinData") saved)))
      ≡ json_entries ps
unfolding ◌==◌ json_entries
restored [] m u h =
    let gone : Assoc.get pin_key (Assoc.delete pin_key m) ≡ none = get-delete pin_key pin_key m in
    let old : Assoc.get (codes "pinData") (Assoc.delete pin_key m) ≡ none =
      get-delete (codes "pinData") pin_key m ∙ h in
    let gone_json = get-json_entries-none pin_key (Assoc.delete pin_key m) gone in
    let old_json = get-json_entries-none (codes "pinData") (Assoc.delete pin_key m) old in
    rw gone_json (rw old_json refl)
restored (p ∷ ps) m u h =
    let there : Assoc.get pin_key (Assoc.set pin_key (obj (object (p ∷ ps))) m)
        ≡ some (obj (object (p ∷ ps))) =
      get-set pin_key pin_key (obj (object (p ∷ ps))) m in
    let there_json =
      get-json_entries_obj pin_key (object (p ∷ ps)) (Assoc.set pin_key (obj (object (p ∷ ps))) m)
        there in
    rw there_json (
      ap (assign []) (entries-json_fields (p ∷ ps))
      ∙ assign-Begins [] (json_entries (p ∷ ps)) tt (json_entries-IsUnique (p ∷ ps) u))

-- After any pins, unpins and clearings of pins whose keys do not repeat, the metadata that are
-- saved, sent through JSON and loaded give back the pins, each as JSON holds it: a member that is
-- undefined is left out, an item that is undefined is null, and what came through JSON before is as
-- it was.
pub pin_data-load_metadata :
    (cs : List PinCall) (st other : Store)
    → IsUnique st.pin_data
    → ((load_metadata (json_entries (snapshot_metadata (call_all cs st))) other).pin_data
        ≡ json_entries (call_all cs st).pin_data)
      × (json_entries (json_entries (call_all cs st).pin_data)
          ≡ json_entries (call_all cs st).pin_data)
unfolding load_metadata snapshot_metadata
pin_data-load_metadata cs st other u =
    let after = call_all cs st in
    let unique = call_all-IsUnique cs st u in
    let m = Assoc.delete (codes "pinData") (assign [] after.workflow_metadata) in
    let no_old : Assoc.get (codes "pinData") m ≡ none =
      get-delete (codes "pinData") (codes "pinData") (assign [] after.workflow_metadata)
      ∙ rw (==_refl (codes "pinData")) refl in
    (
      ap
            (λ saved.
              let v = or_undefined (Assoc.get pin_key saved) in
              restore_pins
                (if truthy v then v else or_undefined (Assoc.get (codes "pinData") saved)))
            (json_entries_again _)
          ∙ rw (assign-Begins [] after.pin_data tt unique)
              (restored after.pin_data m unique no_old),
      json_entries_again after.pin_data,
    )
