-- ===== src/GraphUtils/Predecessors.antt =====
-- graph_utils.js: the parents and the predecessors of a node in the structural graph.
pub mod Search
pub mod Reached
use open_workflow_studio.Prelude.{
  ℕ, zero, suc, ◌+◌, Option, none, some, List, [], ◌∷◌, ◌++◌, ◌>>=◌, length, if◌then◌else◌,
}
use open_workflow_studio.Text.{Text, mem, add}
use open_workflow_studio.Assoc.{Assoc}
use open_workflow_studio.GraphUtils.Connections.{
  RawConnection, RawConnections, array, bucket, build_reverse_adjacency,
}
use open_workflow_studio.GraphUtils.BackEdges.{get_structural_connections}

-- The part of a workflow that is read here.
pub record Workflow : Type 0 where
  pub connections : RawConnections

-- The variables of the loop.
pub record Sweep : Type 0 where
  pub visited : List Text
  pub predecessors : List Text
  pub queue : List Text

-- The body of the `for` loop.
unfoldable pub offer : Text → Sweep → Sweep
offer p s = if mem p s.visited then s else record {
  visited = add p s.visited;
  predecessors = s.predecessors ++ p ∷ [];
  queue = s.queue ++ p ∷ [];
}

pub offer_all : List Text → Sweep → Sweep
offer_all [] s = s
offer_all (p ∷ ps) s = offer_all ps (offer p s)

-- The `while` loop, on fuel; `none` means that the fuel ran out.
pub sweep : Assoc (List Text) → ℕ → Sweep → Option Sweep
sweep adj zero s = elim s.queue [ [] ↦ some s | _ ∷ _ ↦ none ]
sweep adj (suc fuel) s = elim s.queue [
  | [] ↦ some s
  | u ∷ rest ↦ sweep adj fuel (offer_all (bucket u adj) (record s { queue = rest }))
]

abbrev pub sweep_from : Text → Sweep
sweep_from n = record { visited = n ∷ []; predecessors = []; queue = n ∷ [] }

abbrev pub predecessors_of : Text → List RawConnection → Option (List Text)
predecessors_of n cs =
    sweep (build_reverse_adjacency (array cs)) (length cs + 1) (sweep_from n) >>= λ s.
    some s.predecessors

pub get_structural_parent_ids : Option Workflow → Option Text → Option (List Text)
get_structural_parent_ids none n = some []
get_structural_parent_ids (some w) none = some []
get_structural_parent_ids (some w) (some []) = some []
get_structural_parent_ids (some w) (some (c ∷ t)) =
    get_structural_connections w.connections >>= λ cs.
    some (bucket (c ∷ t) (build_reverse_adjacency (array cs)))

pub get_structural_predecessor_ids : Option Workflow → Option Text → Option (List Text)
get_structural_predecessor_ids none n = some []
get_structural_predecessor_ids (some w) none = some []
get_structural_predecessor_ids (some w) (some []) = some []
get_structural_predecessor_ids (some w) (some (c ∷ t)) =
    get_structural_connections w.connections >>= predecessors_of (c ∷ t)
