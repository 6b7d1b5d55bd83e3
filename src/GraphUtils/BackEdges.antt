-- ===== src/GraphUtils/BackEdges.antt =====
-- graph_utils.js, `getBackEdgeKeySet` and `getStructuralConnections`: a depth-first
-- search that marks the connections which lead back into its own stack.
pub mod Walks
pub mod Order
pub mod Invariant
pub mod Visit
pub mod Scope
pub mod Search
pub mod Structural
use open_workflow_studio.Prelude.{
  ℕ, zero, suc, ◌+◌, ◌≡◌, Bool, true, false, not, ◌&&◌, Option, none, some, List, [], ◌∷◌, ◌>>=◌,
  filter, length, if◌then◌else◌, eqb,
}
use open_workflow_studio.Text.{Text, ◌==◌, mem, add, delete}
use open_workflow_studio.Assoc
use open_workflow_studio.Assoc.{Assoc}
use open_workflow_studio.GraphUtils.Connections.{
  RawConnection, RawConnections, array, normalize_connections, get_connection_key, source_id,
  target_id, bucket, build_forward_adjacency,
}

-- The three sets that `visit` closes over.
pub record Dfs : Type 0 where
  pub visited : List Text
  pub in_stack : List Text
  pub back_edge_keys : List Text

abbrev pub enter : Text → Dfs → Dfs
enter n s = record s { visited = add n s.visited; in_stack = add n s.in_stack }

abbrev pub leave : Text → Dfs → Dfs
leave n s = record s { in_stack = delete n s.in_stack }

abbrev pub mark : RawConnection → Dfs → Dfs
mark c s = record s { back_edge_keys = add (get_connection_key c) s.back_edge_keys }

abbrev pub source_id_equals_target : Text → Text → Bool
source_id_equals_target s t = s == t

-- One round of the loop in `visit`, over a connection that leaves `n`.
unfoldable pub follow : (Text → Dfs → Option Dfs) → Text → RawConnection → Dfs → Option Dfs
follow visit n c s =
    if source_id_equals_target n (target_id c)
    then some (mark c s)
    else if mem (target_id c) s.in_stack
    then some (mark c s)
    else if not (mem (target_id c) s.visited)
    then visit (target_id c) s
    else some s

unfoldable pub scan : (Text → Dfs → Option Dfs) → Text → List RawConnection → Dfs → Option Dfs
scan visit n [] s = some s
scan visit n (c ∷ cs) s = follow visit n c s >>= λ s'. scan visit n cs s'

-- The depth of the recursion is the fuel; `none` is a search that goes deeper.
unfoldable pub visit : Assoc (List RawConnection) → ℕ → Text → Dfs → Option Dfs
visit adj zero n s = none
visit adj (suc fuel) n s =
    scan (visit adj fuel) n (bucket n adj) (enter n s) >>= λ s'. some (leave n s')

-- `for (const nodeId of ids) if (!visited.has(nodeId)) visit(nodeId);`
unfoldable pub visit_all : Assoc (List RawConnection) → ℕ → List Text → Dfs → Option Dfs
visit_all adj fuel [] s = some s
visit_all adj fuel (n ∷ ns) s =
    (if not (mem n s.visited) then visit adj fuel n s else some s) >>= λ s'.
    visit_all adj fuel ns s'

unfoldable pub node_ids : List RawConnection → List Text → List Text
node_ids [] ids = ids
node_ids (c ∷ cs) ids = node_ids cs (add (target_id c) (add (source_id c) ids))

-- `inDegree.get(id) || 0`
abbrev pub degree : Text → Assoc ℕ → ℕ
degree n m = elim (Assoc.get n m) [ none ↦ 0 | some d ↦ d ]

unfoldable pub in_degrees : List RawConnection → Assoc ℕ → Assoc ℕ
in_degrees [] m = m
in_degrees (c ∷ cs) m =
    let m' = Assoc.set (source_id c) (degree (source_id c) m) m in
    in_degrees cs (Assoc.set (target_id c) (degree (target_id c) m' + 1) m')

abbrev pub no_marks : Dfs
no_marks = record { visited = []; in_stack = []; back_edge_keys = [] }

-- The search over the normalized connections: first from the roots, then from what is left.
unfoldable pub search_back_edges : List RawConnection → Option Dfs
search_back_edges cs =
    let adj = build_forward_adjacency (array cs) in
    let ids = node_ids cs [] in
    let fuel = length ids in
    let roots = filter (λ n. eqb (degree n (in_degrees cs [])) 0) ids in
    visit_all adj fuel roots no_marks >>= λ s. visit_all adj fuel ids s

unfoldable pub get_back_edge_key_set : RawConnections → Option (List Text)
get_back_edge_key_set connections = elim (normalize_connections connections) [
  | [] ↦ some []
  | c ∷ cs ↦ search_back_edges (c ∷ cs) >>= λ s. some s.back_edge_keys
]

-- The filter of `getStructuralConnections`.
abbrev pub is_structural : List Text → RawConnection → Bool
is_structural ks c =
    if source_id_equals_target (source_id c) (target_id c)
    then false
    else not (mem (get_connection_key c) ks)

unfoldable pub get_structural_connections : RawConnections → Option (List RawConnection)
get_structural_connections connections = elim (normalize_connections connections) [
  | [] ↦ some []
  | c ∷ cs ↦
      get_back_edge_key_set (array (c ∷ cs)) >>= λ ks. some (filter (is_structural ks) (c ∷ cs))
]
