-- ===== src/GraphUtils/Results.antt =====
-- graph_utils.js: the latest results of nodes in an execution log.
pub mod Latest
use open_workflow_studio.Prelude.{
  ℕ, zero, suc, Bool, true, false, Option, none, some, List, [], ◌∷◌, length, get_elem?,
  if◌then◌else◌,
}
use open_workflow_studio.Text.{Text, mem, add}
use open_workflow_studio.Assoc
use open_workflow_studio.Assoc.{Assoc}

-- `node_id` is absent if it is null or undefined; the rest of the entry is not read.
pub record NodeResult (B : Type 0) : Type 0 where
  pub node_id : Option Text
  pub body : B

-- `nodeResults[index]`, which may be null.
abbrev pub Entry : Type 0 → Type 0
Entry B = Option (NodeResult B)

-- `new Set((nodeIds || []).map(String))`
set_of : List Text → List Text → List Text
set_of [] s = s
set_of (x ∷ xs) s = set_of xs (add x s)

abbrev pub allowed_ids : Option (List Text) → List Text
unfolding set_of
allowed_ids none = []
allowed_ids (some ids) = set_of ids []

module _ {B : Type 0} where
  -- The entry's node and result, if the entry is one of an allowed node.
  abbrev pub wanted : List Text → Entry B → Option (Text × NodeResult B)
  wanted allowed none = none
  wanted allowed (some r) = elim r.node_id [
    | none ↦ none
    | some n ↦ if mem n allowed then some (n, r) else none
  ]

  -- `if (m.has(k)) m.delete(k); m.set(k, r);`
  abbrev pub put_last : Text → NodeResult B → Assoc (NodeResult B) → Assoc (NodeResult B)
  put_last k r m = Assoc.set k r (if Assoc.has k m then Assoc.delete k m else m)

  pub record_entry : List Text → Entry B → Assoc (NodeResult B) → Assoc (NodeResult B)
  record_entry allowed e m = elim (wanted allowed e) [ none ↦ m | some (k, r) ↦ put_last k r m ]

  pub unique_by_node : List Text → List (Entry B) → Assoc (NodeResult B) → Assoc (NodeResult B)
  unique_by_node allowed [] m = m
  unique_by_node allowed (e ∷ es) m = unique_by_node allowed es (record_entry allowed e m)

  -- The loop `for (let index = n - 1; index >= 0; index--)`.
  pub scan_back : List Text → List (Entry B) → ℕ → Option (NodeResult B)
  scan_back allowed es zero = none
  scan_back allowed es (suc i) =
      let rest = scan_back allowed es i in
      elim (get_elem? es i) [
        | none ↦ rest
        | some e ↦ elim (wanted allowed e) [ none ↦ rest | some (k, r) ↦ some r ]
      ]

  pub get_latest_node_results_by_node_ids :
      Option (List (Entry B)) → Option (List Text) → List (NodeResult B)
  get_latest_node_results_by_node_ids none ids = []
  get_latest_node_results_by_node_ids (some []) ids = []
  get_latest_node_results_by_node_ids (some (e ∷ es)) ids = elim (allowed_ids ids) [
    | [] ↦ []
    | a ∷ as_set ↦ Assoc.values (unique_by_node (a ∷ as_set) (e ∷ es) [])
  ]

  pub get_latest_node_result_for_node_ids :
      Option (List (Entry B)) → Option (List Text) → Option (NodeResult B)
  get_latest_node_result_for_node_ids none ids = none
  get_latest_node_result_for_node_ids (some []) ids = none
  get_latest_node_result_for_node_ids (some (e ∷ es)) ids = elim (allowed_ids ids) [
    | [] ↦ none
    | a ∷ as_set ↦ scan_back (a ∷ as_set) (e ∷ es) (length (e ∷ es))
  ]
