-- ===== src/Store/Pins.antt =====
-- store/workflow_store.js: pinning the data of nodes, and the snapshot that is saved. The events
-- on the bus are left out.
pub mod Saved
use open_workflow_studio.Prelude.{
  ℕ, zero, suc, Bool, true, false, ◌||◌, Option, none, some, List, [], ◌∷◌, eqb, if◌then◌else◌,
}
use open_workflow_studio.Prelude.Int.{ℤ, pos, negsuc}
use open_workflow_studio.Text.{Text, codes}
use open_workflow_studio.Text.Decimal.{parse_digits}
use open_workflow_studio.Text.Scan.{is_digit, is_space, take_while, drop_while}
use open_workflow_studio.Assoc
use open_workflow_studio.Assoc.{Assoc}
use open_workflow_studio.Value.{
  Value, undefined, null, bool, num, str, arr, obj, end, Fields, entries, object, spread, assign,
  truthy, or_undefined,
}
use open_workflow_studio.Value.Json.{json_entries}
use open_workflow_studio.Adapter.{Adapter}
use open_workflow_studio.Editor.Load
use open_workflow_studio.Editor.Load.{WorkflowData}
use open_workflow_studio.Connector.{sanitize_connector_request_snapshot}
use open_workflow_studio.Store.{Store}

-- `parseInt(text, 10)`, if it is a number above 0: spaces, a plus sign, and digits.
abbrev after_sign : Text → Text
after_sign [] = []
after_sign (c ∷ s) = if eqb c b'+' then s else c ∷ s

abbrev positive : Option ℕ → Option ℕ
positive none = none
positive (some zero) = none
positive (some (suc n)) = some (suc n)

abbrev pub parse_positive : Text → Option ℕ
parse_positive s =
    positive (parse_digits (take_while is_digit (after_sign (drop_while is_space s))))

-- What `pinNodeData` stores for a value; `none` is an exception.
unfoldable pub stored_value : Value → Option Value
stored_value undefined = none
stored_value null = none
stored_value (bool b) = none
stored_value (num (pos zero)) = none
stored_value (num (pos (suc n))) = some (num (pos (suc n)))
stored_value (num (negsuc n)) = none
stored_value (str s) = elim (parse_positive s) [ none ↦ none | some n ↦ some (num (pos n)) ]
stored_value (arr vs) = some (obj (object (assign [] (spread (arr vs)))))
stored_value (obj f) = some (obj (object (assign [] (entries f))))

-- `(state.workflowMetadata && state.workflowMetadata.pin_data) || {}`, spread.
abbrev pub old_pins : Assoc Value → Assoc Value
old_pins metadata = spread (or_undefined (Assoc.get (codes "pin_data") metadata))

-- `none` is the exception for an empty id or a value that cannot be pinned.
unfoldable pub pin_node_data : Text → Value → Store → Option Store
pin_node_data [] v st = none
pin_node_data (c ∷ k) v st = elim (stored_value v) [
  | none ↦ none
  | some w ↦ some (record st {
    pin_data = Assoc.set (c ∷ k) w st.pin_data;
    workflow_metadata =
        Assoc.set (codes "pin_data")
          (obj (object (Assoc.set (c ∷ k) w (assign [] (old_pins st.workflow_metadata)))))
          (assign [] st.workflow_metadata);
  })
]

-- `if (Object.keys(nextPinData).length) … else delete …`
abbrev pub set_or_delete : Text → Assoc Value → Assoc Value → Assoc Value
set_or_delete key [] m = Assoc.delete key m
set_or_delete key (p ∷ ps) m = Assoc.set key (obj (object (p ∷ ps))) m

unfoldable pub unpin_node_data : Text → Store → Store
unpin_node_data k st = record st {
  pin_data = Assoc.delete k st.pin_data;
  workflow_metadata = Assoc.delete (codes "pinData") (
      set_or_delete (codes "pin_data") (Assoc.delete k (assign [] (old_pins st.workflow_metadata)))
        (assign [] st.workflow_metadata));
}

-- The loop over the keys deletes them all.
unfoldable pub clear_all_pin_data : Store → Store
clear_all_pin_data st = record st {
  pin_data = [];
  workflow_metadata =
      Assoc.delete (codes "pinData")
        (Assoc.delete (codes "pin_data") (assign [] st.workflow_metadata));
}

abbrev pub is_node_pinned : Text → Store → Bool
is_node_pinned k st = Assoc.has k st.pin_data

-- What is saved: the graph and the metadata.
pub record Snapshot : Type 0 where
  pub graph : WorkflowData
  pub metadata : Assoc Value

unfoldable pub snapshot_metadata : Store → Assoc Value
snapshot_metadata st =
    set_or_delete (codes "pin_data") (assign [] st.pin_data)
      (Assoc.delete (codes "pinData") (assign [] st.workflow_metadata))

abbrev pub build_full_snapshot : Store → Snapshot
build_full_snapshot st = record {
  graph = sanitize_connector_request_snapshot (Load.to_json st.adapter.editor);
  metadata = snapshot_metadata st;
}

-- `if (savedPin && typeof savedPin === "object") Object.assign(state.pinData, savedPin)`, on pins
-- that were all deleted.
abbrev pub restore_pins : Value → Assoc Value
restore_pins (obj f) = assign [] (entries f)
restore_pins (arr vs) = assign [] (spread (arr vs))
restore_pins _ = []

-- The metadata of the snapshot that the server gives, copied through JSON, and the pins in them.
unfoldable pub load_metadata : Assoc Value → Store → Store
load_metadata given st =
    let metadata = json_entries given in
    let pin_data = or_undefined (Assoc.get (codes "pin_data") metadata) in
    let old_name = or_undefined (Assoc.get (codes "pinData") metadata) in
    record st {
      workflow_metadata = metadata;
      pin_data = restore_pins (if truthy pin_data then pin_data else old_name);
    }
