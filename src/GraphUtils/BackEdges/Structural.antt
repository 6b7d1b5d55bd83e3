-- ===== src/GraphUtils/BackEdges/Structural.antt =====
-- `getStructuralConnections` always returns, and what it returns has no cycle.
use open_workflow_studio.Prelude.{
  ◌≢◌, filter_all, ap, ◌<◌, ◌≡◌, refl, ◌⊎◌, inl, inr, true, some, List, [], ◌∷◌, arith, In,
  In-filter, Bool-cases, List-cases, subst, sym, filter, ◌∙◌,
}
use open_workflow_studio.Text.{Text, ◌==◌, ==_iff, mem}
use open_workflow_studio.GraphUtils.Connections.{
  RawConnection, RawConnections, array, normalize_connections, get_connection_key, source_id,
  target_id,
}
use open_workflow_studio.GraphUtils.Connections.Adjacency.{normalize_connections_idem}
use open_workflow_studio.GraphUtils.BackEdges.{
  Dfs, search_back_edges, get_back_edge_key_set, is_structural, get_structural_connections,
}
use open_workflow_studio.GraphUtils.BackEdges.Walks.{
  Leads, edge, step, IsAcyclic, ClosesCycle, ClosesCycle-not-IsAcyclic,
}
use open_workflow_studio.GraphUtils.BackEdges.Order.{IsOrder, rank, rank-lt}
use open_workflow_studio.GraphUtils.BackEdges.Search.{search_ends}

-- What the filter of `getStructuralConnections` works with.
record Marked (cs : List RawConnection) (ks o : List Text) : Type 0 where
  ordered : IsOrder cs ks o
  finished : (c : RawConnection) → In c cs → mem (source_id c) o ≡ true
  sound :
      (k : Text)
      → mem k ks ≡ true
      → (c : RawConnection) × In c cs × (get_connection_key c ≡ k) × ClosesCycle cs c

structural_none :
    (connections : RawConnections)
    → normalize_connections connections ≡ []
    → get_structural_connections connections ≡ some []
unfolding get_structural_connections
structural_none connections e = ground arith

structural_some :
    (connections : RawConnections) (cs : List RawConnection) (t : Dfs)
    → normalize_connections connections ≡ cs
    → normalize_connections (array cs) ≡ cs
    → search_back_edges cs ≡ some t
    → cs ≢ []
    → get_structural_connections connections ≡ some (filter (is_structural t.back_edge_keys) cs)
unfolding get_structural_connections get_back_edge_key_set
structural_some connections [] t e idem r ne = absurd (ne refl)
structural_some connections (c ∷ cs) t e idem r ne =
    rw (e, get_structural_connections) (rw (idem, get_back_edge_key_set) (rw r refl))

-- It returns, whatever it is given.
structural_ends :
    (connections : RawConnections)
    → (ks : List Text) × (o : List Text) × (get_structural_connections connections
        ≡ some (filter (is_structural ks) (normalize_connections connections)))
      × Marked (normalize_connections connections) ks o
unfolding mem
structural_ends connections = elim (List-cases (normalize_connections connections)) [
  | inl e ↦ (
    [],
    [],
    structural_none connections e ∙ rw e refl,
    record { ordered = tt; finished = λ c i. absurd (subst (In c) e i); sound = λ k m. cc },
  )
  | inr (c, cs, e) ↦
      let idem = normalize_connections_idem connections in
      let (t, o, r, h, all) = search_ends (normalize_connections connections) idem in
      (
        t.back_edge_keys,
        o,
        structural_some connections (normalize_connections connections) t refl idem r (cc e),
        record { ordered = h.ordered; finished = all; sound = h.sound },
      )
]

-- A connection that is kept leads to a node of smaller rank.
rank-kept :
    (cs : List RawConnection) (ks o : List Text) (c : RawConnection)
    → Marked cs ks o
    → In c (filter (is_structural ks) cs)
    → rank (target_id c) o < rank (source_id c) o
rank-kept cs ks o c h i =
    let (j, p) = (In-filter (is_structural ks) c cs).0 i in
    (rank-lt cs ks o c h.ordered j (h.finished c j) (ground arith)).1

rank-Leads :
    (cs : List RawConnection) (ks o : List Text) {u v : Text}
    → Marked cs ks o
    → Leads (filter (is_structural ks) cs) u v
    → rank v o < rank u o
rank-Leads cs ks o {u} {v} h (edge c i p q) =
    omega (arith, rank-kept cs ks o c h i, ap (λ x. rank x o) p, ap (λ x. rank x o) q)
rank-Leads cs ks o {u} {v} h (step w c i p q) = omega (
  arith,
  rank-kept cs ks o c h i,
  rank-Leads cs ks o h w,
  ap (λ x. rank x o) p,
  ap (λ x. rank x o) q,
)

-- `getStructuralConnections` returns for every argument; what it returns are connections of the
-- argument, and no walk along them leads from a node back to itself.
pub get_structural_connections-IsAcyclic :
    (connections : RawConnections)
    → (kept : List RawConnection) × (get_structural_connections connections ≡ some kept)
      × IsAcyclic kept
      × ((c : RawConnection) → In c kept → In c (normalize_connections connections))
get_structural_connections-IsAcyclic connections =
    let (ks, o, r, h) = structural_ends connections in
    let cs = normalize_connections connections in
    (
      filter (is_structural ks) cs,
      r,
      λ u l. omega (arith, rank-Leads cs ks o h l),
      λ c i. ((In-filter (is_structural ks) c cs).0 i).0,
    )

-- Each connection of the argument is in the result of `getStructuralConnections`, or has the key
-- of a connection that closes a cycle: a loop, or one whose target leads back to its source.
pub get_structural_connections-removed :
    (connections : RawConnections) (kept : List RawConnection)
    → get_structural_connections connections ≡ some kept
    → (c : RawConnection) → In c (normalize_connections connections)
    → In c kept
      ⊎ ((d : RawConnection) × In d (normalize_connections connections)
          × (get_connection_key d ≡ get_connection_key c)
          × ClosesCycle (normalize_connections connections) d)
get_structural_connections-removed connections kept e c i =
    let (ks, o, r, h) = structural_ends connections in
    let cs = normalize_connections connections in
    let same : kept ≡ filter (is_structural ks) cs = cc (e, r) in
    elim (Bool-cases (source_id c == target_id c)) [
      | inl loop ↦ inr (c, i, refl, inl (ground (arith, ==_iff (source_id c) (target_id c))))
      | inr open_end ↦ elim (Bool-cases (mem (get_connection_key c) ks)) [
        | inl marked ↦ inr (h.sound (get_connection_key c) marked)
        | inr clear ↦ inl (
            subst (In c) (sym same)
              ((In-filter (is_structural ks) c cs).1 (i, rw (open_end, clear) refl)))
      ]
    ]

-- From connections without a cycle `getStructuralConnections` takes nothing away, and keeps the
-- order.
pub get_structural_connections-acyclic :
    (connections : RawConnections)
    → IsAcyclic (normalize_connections connections)
    → get_structural_connections connections ≡ some (normalize_connections connections)
get_structural_connections-acyclic connections a =
    let (ks, o, r, h) = structural_ends connections in
    let cs = normalize_connections connections in
    r ∙ ap some (filter_all (is_structural ks) cs (structural ks o h))
  where
    structural :
        (ks o : List Text)
        → Marked (normalize_connections connections) ks o
        → (c : RawConnection) → In c (normalize_connections connections)
        → is_structural ks c ≡ true
    structural ks o h c i = elim (Bool-cases (source_id c == target_id c)) [
      | inl loop ↦ absurd (
          ClosesCycle-not-IsAcyclic _ c a i
            (inl (ground (arith, ==_iff (source_id c) (target_id c)))))
      | inr open_end ↦ elim (Bool-cases (mem (get_connection_key c) ks)) [
        | inl marked ↦
            let (d, j, e, cycle) = h.sound (get_connection_key c) marked in
            absurd (ClosesCycle-not-IsAcyclic _ d a j cycle)
        | inr clear ↦ rw (open_end, clear) refl
      ]
    ]
