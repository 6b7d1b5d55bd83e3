-- ===== src/Editor/Load.antt =====
-- core/editor.js, `toJSON` and `fromJSON`: saving a workflow and loading one.
pub mod Ends
pub mod RoundTrip
pub mod Registry
use open_workflow_studio.Prelude.{ℕ, Option, none, some, List, [], ◌∷◌, ◌++◌, map, max}
use open_workflow_studio.Text.{Text, codes}
use open_workflow_studio.Text.Decimal.{parse_digits}
use open_workflow_studio.Assoc
use open_workflow_studio.Assoc.{Assoc}
use open_workflow_studio.Connection
use open_workflow_studio.Connection.{ConnectionData}
use open_workflow_studio.Node
use open_workflow_studio.Node.{NodeData, BaseNode}
use open_workflow_studio.Editor.{Editor, emit, change, clear}

-- A serialized workflow; both lists may be missing.
pub record WorkflowData : Type 0 where
  pub version : Text
  pub nodes : Option (List NodeData)
  pub connections : Option (List ConnectionData)

abbrev pub to_json : Editor → WorkflowData
to_json ed = record {
  version = codes "1.0";
  nodes = some (map Node.to_json (Assoc.values ed.nodes));
  connections = some (map Connection.to_json ed.connections);
}

-- An exception leaves the editor as it is then.
pub data Outcome : Type 0 where
  loaded : Editor → Outcome
  threw : Editor → Outcome

abbrev pub list_or {ℓ} : {A : Type ℓ} → Option (List A) → List A
list_or none = []
list_or (some xs) = xs

-- `if (!isNaN(idNum) && idNum > maxId) maxId = idNum`
abbrev pub raise : Option ℕ → ℕ → ℕ
raise none m = m
raise (some n) m = max m n

-- `this._idCounter = maxId`, the connections, which are not checked, and the event. The maximum is
-- the double's where it is below 2^53.
abbrev pub finish_load : List ConnectionData → ℕ → Editor → Outcome
finish_load cs max_id ed = loaded (
    emit (change (codes "load")) (record ed {
      id_counter = max_id;
      connections = ed.connections ++ map Connection.from_json cs;
    }))

-- The loop over the nodes; `k` goes on after it. A node of an unknown type, and one without an id,
-- throw. (The entry that the map gets for the latter, under the key undefined, is not modelled.)
abbrev pub load_nodes : List NodeData → ℕ → (ℕ → Editor → Outcome) → Editor → Outcome
load_nodes [] max_id k ed = k max_id ed
load_nodes (d ∷ ds) max_id k ed =
    let go = λ (n : BaseNode) (t : Text).
      load_nodes ds (raise (parse_digits t) max_id) k
        (record ed { nodes = Assoc.set t n ed.nodes }) in
    elim (Node.from_json d ed.node_registry) [
      | none ↦ threw ed
      | some n ↦ elim n.id [ none ↦ threw ed | some t ↦ go n t ]
    ]

abbrev pub from_json : WorkflowData → Editor → Outcome
from_json d ed = load_nodes (list_or d.nodes) 0 (finish_load (list_or d.connections)) (clear ed)
