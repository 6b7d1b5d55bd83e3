-- ===== src/GraphUtils/Connections/Adjacency.antt =====
-- What normalising keeps, and what the adjacency maps hold.
use open_workflow_studio.Prelude.{
  ◌≡◌, refl, Option, none, some, List, [], ◌∷◌, ◌++◌, filter, map, arith, append_assoc, append-nil,
  if◌then◌else◌, ◌∙◌, In, Bool-cases, inl, inr, subst, sym, true,
}
use open_workflow_studio.Text.{Text, ◌==◌, ==_iff}
use open_workflow_studio.Assoc
use open_workflow_studio.Assoc.{Assoc}
use open_workflow_studio.Assoc.Laws.{get-set}
use open_workflow_studio.GraphUtils.Connections.{
  RawConnection, RawConnections, array, is_linked, compact, normalize_connections, source_id,
  target_id, bucket, push_at, forward_loop, build_forward_adjacency, reverse_loop,
  build_reverse_adjacency,
}

compact-array : (cs : List RawConnection) → compact (map some cs) ≡ filter is_linked cs
unfolding compact
compact-array [] = refl
compact-array (c ∷ cs) = ground (arith, compact-array cs)

pub normalize_connections-array :
    (cs : List RawConnection) → normalize_connections (array cs) ≡ filter is_linked cs
unfolding normalize_connections
normalize_connections-array cs = compact-array cs

filter-compact : (cs : List (Option RawConnection)) → filter is_linked (compact cs) ≡ compact cs
unfolding compact
filter-compact [] = refl
filter-compact (none ∷ cs) = filter-compact cs
filter-compact (some c ∷ cs) = ground (arith, filter-compact cs)

-- Normalising twice is normalising once.
pub normalize_connections_idem :
    (cs : RawConnections)
    → normalize_connections (array (normalize_connections cs)) ≡ normalize_connections cs
unfolding normalize_connections
normalize_connections_idem none = refl
normalize_connections_idem (some cs) = compact-array (compact cs) ∙ filter-compact cs

pub bucket-push_at {ℓ} :
    {A : Type ℓ} (j k : Text) (x : A) (m : Assoc (List A))
    → bucket j (push_at k x m) ≡ bucket j m ++ (if j == k then x ∷ [] else [])
unfolding push_at
bucket-push_at j k x m =
    ground (arith, get-set j k (bucket k m ++ x ∷ []) m, ==_iff j k, append-nil (bucket j m))

bucket-forward_loop :
    (k : Text) (cs : List RawConnection) (m : Assoc (List RawConnection))
    → bucket k (forward_loop cs m) ≡ bucket k m ++ filter (λ c. k == source_id c) cs
unfolding forward_loop
bucket-forward_loop k [] m = rw append-nil
bucket-forward_loop k (c ∷ cs) m =
    bucket-forward_loop k cs (push_at (source_id c) c m)
    ∙ rw (bucket-push_at k (source_id c) c m, append_assoc) (ground arith)

-- The bucket of a node holds the connections that leave it, in order.
pub bucket-build_forward_adjacency :
    (k : Text) (cs : RawConnections)
    → bucket k (build_forward_adjacency cs)
      ≡ filter (λ c. k == source_id c) (normalize_connections cs)
unfolding build_forward_adjacency Assoc.get
bucket-build_forward_adjacency k cs = bucket-forward_loop k (normalize_connections cs) []

bucket-reverse_loop :
    (k : Text) (cs : List RawConnection) (m : Assoc (List Text))
    → bucket k (reverse_loop cs m) ≡ bucket k m ++ map source_id (filter (λ c. k == target_id c) cs)
unfolding reverse_loop
bucket-reverse_loop k [] m = rw append-nil
bucket-reverse_loop k (c ∷ cs) m =
    bucket-reverse_loop k cs (push_at (target_id c) (source_id c) m)
    ∙ rw (bucket-push_at k (target_id c) (source_id c) m, append_assoc) (ground arith)

-- The bucket of a node holds the sources of the connections that enter it, in order.
pub bucket-build_reverse_adjacency :
    (k : Text) (cs : RawConnections)
    → bucket k (build_reverse_adjacency cs)
      ≡ map source_id (filter (λ c. k == target_id c) (normalize_connections cs))
unfolding build_reverse_adjacency Assoc.get
bucket-build_reverse_adjacency k cs = bucket-reverse_loop k (normalize_connections cs) []

compact-is_linked :
    (cs : List (Option RawConnection)) (c : RawConnection) → In c (compact cs) → is_linked c ≡ true
unfolding compact
compact-is_linked [] c i = absurd i
compact-is_linked (none ∷ cs) c i = compact-is_linked cs c i
compact-is_linked (some d ∷ cs) c i = elim (Bool-cases (is_linked d)) [
  | inl e ↦ elim (rw e at i) [
    | inl f ↦ subst (λ x. is_linked x ≡ true) (sym f) e
    | inr j ↦ compact-is_linked cs c j
  ]
  | inr e ↦ compact-is_linked cs c (rw e at i)
]

-- The connections that are kept have both ends.
pub normalize_connections-is_linked :
    (cs : RawConnections) (c : RawConnection) → In c (normalize_connections cs) → is_linked c ≡ true
unfolding normalize_connections
normalize_connections-is_linked none c i = absurd i
normalize_connections-is_linked (some cs) c i = compact-is_linked cs c i
