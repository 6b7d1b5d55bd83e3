-- ===== src/Tests/Graphs.antt =====
-- Concrete graphs: a cycle of three nodes, and a chain of two.
use open_workflow_studio.Prelude.{
  ℕ, ◌∙◌, ◌≡◌, refl, sym, ◌⊎◌, ◌↔◌, inl, inr, none, some, List, [], ◌∷◌, In, get_last?, true, false,
  arith, ap,
}
use open_workflow_studio.Text.{Text, codes, mem, NoRepeat, ◌==◌}
use open_workflow_studio.GraphUtils.Connections.{
  RawConnection, array, normalize_connections, get_connection_key, source_id, target_id,
}
use open_workflow_studio.Assoc
use open_workflow_studio.GraphUtils.Connections.{build_forward_adjacency, push_at}
use open_workflow_studio.GraphUtils.BackEdges.{
  get_structural_connections, get_back_edge_key_set, search_back_edges, visit, visit_all, scan,
  follow, node_ids, in_degrees,
}
use open_workflow_studio.Text.{add, delete}
use open_workflow_studio.GraphUtils.BackEdges.Walks.{IsAcyclic, ClosesCycle, Leads, edge, step}
use open_workflow_studio.GraphUtils.BackEdges.Structural.{
  get_structural_connections-IsAcyclic, get_structural_connections-removed,
  get_structural_connections-acyclic,
}
use open_workflow_studio.GraphUtils.Predecessors.{Workflow, get_structural_predecessor_ids}
use open_workflow_studio.GraphUtils.Predecessors.Reached.{get_structural_predecessor_ids_lem}
use open_workflow_studio.GraphUtils.Results.{
  Entry, get_latest_node_results_by_node_ids, get_latest_node_result_for_node_ids,
}
use open_workflow_studio.GraphUtils.Results.Latest.{get_last?-get_latest_node_results_by_node_ids}

abbrev wire : Text → Text → RawConnection
wire s t = record {
  id = none;
  source = some s;
  source_handle = some (codes "output");
  source_socket = none;
  target = some t;
  target_handle = some (codes "input");
  target_socket = none;
}

abbrev chain : List RawConnection
chain = wire (codes "a") (codes "b") ∷ wire (codes "b") (codes "c") ∷ []

abbrev cycle : List RawConnection
cycle =
    wire (codes "a") (codes "b") ∷ wire (codes "b") (codes "c") ∷ wire (codes "c") (codes "a") ∷ []

abbrev workflow : Workflow
workflow = record { connections = array cycle }

get_structural_connections-IsAcyclic_example :
    (kept : List RawConnection) × (get_structural_connections (array cycle) ≡ some kept)
    × IsAcyclic kept
    × ((c : RawConnection) → In c kept → In c (normalize_connections (array cycle)))
get_structural_connections-IsAcyclic_example = get_structural_connections-IsAcyclic (array cycle)

cycle_cut : get_structural_connections (array cycle) ≡ some chain
unfolding get_structural_connections get_back_edge_key_set search_back_edges visit visit_all scan
    follow node_ids in_degrees normalize_connections get_connection_key build_forward_adjacency
    push_at Assoc.get Assoc.set ◌==◌ mem add delete
cycle_cut = refl

get_structural_connections-removed_example :
    In (wire (codes "c") (codes "a")) chain
    ⊎ ((d : RawConnection) × In d (normalize_connections (array cycle))
        × (get_connection_key d ≡ get_connection_key (wire (codes "c") (codes "a")))
        × ClosesCycle (normalize_connections (array cycle)) d)
unfolding normalize_connections
get_structural_connections-removed_example =
    get_structural_connections-removed (array cycle) chain cycle_cut (wire (codes "c") (codes "a"))
      (inr (inr (inl refl)))

one_wire_ends :
    {u v : Text} → Leads (wire (codes "a") (codes "b") ∷ []) u v → (codes "a" ≡ u) × (codes "b" ≡ v)
one_wire_ends (edge c (inl i) p q) = (sym (ap source_id i) ∙ p, sym (ap target_id i) ∙ q)
one_wire_ends (edge c (inr i) p q) = absurd i
one_wire_ends (step w c (inr i) p q) = absurd i
one_wire_ends (step w c (inl i) p q) = ((one_wire_ends w).0, sym (ap target_id i) ∙ q)

abbrev first_code : Text → ℕ
first_code [] = 0
first_code (c ∷ s) = c

one_wire-IsAcyclic : IsAcyclic (normalize_connections (array (wire (codes "a") (codes "b") ∷ [])))
unfolding normalize_connections
one_wire-IsAcyclic u l = let (p, q) = one_wire_ends l in omega (arith, ap first_code (p ∙ sym q))

get_structural_connections-acyclic_example :
    get_structural_connections (array (wire (codes "a") (codes "b") ∷ []))
    ≡ some (normalize_connections (array (wire (codes "a") (codes "b") ∷ [])))
get_structural_connections-acyclic_example =
    get_structural_connections-acyclic (array (wire (codes "a") (codes "b") ∷ []))
      one_wire-IsAcyclic

get_structural_predecessor_ids_example :
    (kept : List RawConnection) × (ps : List Text) × (get_structural_connections (array cycle)
      ≡ some kept)
    × (get_structural_predecessor_ids (some workflow) (some (codes "c")) ≡ some ps)
    × NoRepeat ps
    × (mem (codes "c") ps ≡ false)
    × ((x : Text) → (mem x ps ≡ true) ↔ Leads kept x (codes "c"))
get_structural_predecessor_ids_example = get_structural_predecessor_ids_lem workflow b'c' []

abbrev log : List (Entry Text)
log =
    some (record { node_id = some (codes "a"); body = codes "first" })
    ∷ none
    ∷ some (record { node_id = some (codes "b"); body = codes "other" })
    ∷ some (record { node_id = some (codes "a"); body = codes "second" })
    ∷ []

get_last?-get_latest_node_results_by_node_ids_example :
    get_latest_node_result_for_node_ids (some log) (some (codes "a" ∷ codes "b" ∷ []))
    ≡ get_last? (get_latest_node_results_by_node_ids (some log) (some (codes "a" ∷ codes "b" ∷ [])))
get_last?-get_latest_node_results_by_node_ids_example =
    get_last?-get_latest_node_results_by_node_ids (some log) (some (codes "a" ∷ codes "b" ∷ []))
