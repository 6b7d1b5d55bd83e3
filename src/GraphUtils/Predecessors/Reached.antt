-- ===== src/GraphUtils/Predecessors/Reached.antt =====
-- `getStructuralPredecessorIds` lists exactly the nodes that lead to the given one.
use open_workflow_studio.Prelude.{
  ℕ, ◌+◌, ◌≡◌, refl, inl, inr, ◌↔◌, true, false, some, List, [], ◌∷◌, ◌∙◌, arith, In, Bool-cases,
  length, length-map, map, filter, ap, subst, sym, filter_all,
}
use mathlib.Core.Bool.{false≢true}
use open_workflow_studio.Text.{Text, ◌==◌, ==_iff, ==_refl, mem, NoRepeat}
use open_workflow_studio.GraphUtils.Connections.{
  RawConnection, array, is_linked, source_id, target_id, bucket, build_reverse_adjacency,
}
use open_workflow_studio.GraphUtils.Connections.Adjacency.{
  bucket-build_reverse_adjacency, normalize_connections-array, normalize_connections-is_linked,
}
use open_workflow_studio.GraphUtils.BackEdges.{get_structural_connections}
use open_workflow_studio.GraphUtils.BackEdges.Walks.{Leads, edge, step, IsAcyclic}
use open_workflow_studio.GraphUtils.BackEdges.Scope.{unvisited-le}
use open_workflow_studio.GraphUtils.BackEdges.Structural.{get_structural_connections-IsAcyclic}
use open_workflow_studio.GraphUtils.Predecessors.{
  Workflow, Sweep, sweep_from, predecessors_of, get_structural_parent_ids,
  get_structural_predecessor_ids,
}
use open_workflow_studio.GraphUtils.Predecessors.Search.{Inv, Covered, sweep_ends}

source_seen :
    (cs : List RawConnection) (t : Sweep)
    → t.queue ≡ []
    → ((c : RawConnection) → In c cs → Covered t c)
    → (c : RawConnection) → In c cs
    → mem (target_id c) t.visited ≡ true
    → mem (source_id c) t.visited ≡ true
unfolding mem
source_seen cs t e cover c i m = elim (cover c i m) [
  | inl q ↦ absurd (false≢true (rw e at q))
  | inr k ↦ k
]

-- With an empty queue the visited nodes are closed under going back along connections.
closed :
    (cs : List RawConnection) (t : Sweep)
    → t.queue ≡ []
    → ((c : RawConnection) → In c cs → Covered t c)
    → {x v : Text} → Leads cs x v
    → mem v t.visited ≡ true
    → mem x t.visited ≡ true
closed cs t e cover (edge c i p q) m =
    subst (λ y. mem y t.visited ≡ true) p
      (source_seen cs t e cover c i (subst (λ y. mem y t.visited ≡ true) (sym q) m))
closed cs t e cover (step l c i p q) m = closed cs t e cover l (
    subst (λ y. mem y t.visited ≡ true) p
      (source_seen cs t e cover c i (subst (λ y. mem y t.visited ≡ true) (sym q) m)))

Inv-sweep_from : (n : Text) (cs : List RawConnection) → Inv n cs (sweep_from n)
unfolding mem
Inv-sweep_from n cs = record {
  listed = refl;
  distinct = (refl, tt);
  sound = λ x m. inl (ground (arith, ==_iff x n));
  queued = λ x m. m;
}

predecessors_of_lem :
    (n : Text) (cs : List RawConnection)
    → IsAcyclic cs
    → ((c : RawConnection) → In c cs → is_linked c ≡ true)
    → (ps : List Text) × (predecessors_of n cs ≡ some ps)
      × NoRepeat ps
      × ((x : Text) → (mem x ps ≡ true) ↔ Leads cs x n)
unfolding mem
predecessors_of_lem n cs a linked =
    let (t, r, h, empty, cover) =
      sweep_ends n cs (build_reverse_adjacency (array cs)) bucket_lem (length cs + 1) (sweep_from n)
        (omega (arith, unvisited-le (map source_id cs) (n ∷ []), length-map source_id cs))
        (Inv-sweep_from n cs) (λ c i m. inl m) in
    (
      t.predecessors,
      rw r refl,
      (rw h.listed at h.distinct).1,
      λ x. (
        λ m. leads t h x m,
        λ l. listed t h x l (closed cs t empty cover l (rw h.listed (ground (arith, ==_refl n)))),
      ),
    )
  where
    leads : (t : Sweep) → Inv n cs t → (x : Text) → mem x t.predecessors ≡ true → Leads cs x n
    leads t h x m = elim (h.sound x (rw h.listed (ground arith))) [
      | inr l ↦ l
      | inl e ↦ absurd (
          false≢true (
            sym (subst (λ y. mem y t.predecessors ≡ false) (sym e) (rw h.listed at h.distinct).0)
            ∙ m))
    ]

    listed :
        (t : Sweep)
        → Inv n cs t
        → (x : Text) → Leads cs x n
        → mem x t.visited ≡ true
        → mem x t.predecessors ≡ true
    listed t h x l m = elim (Bool-cases (x == n)) [
      | inl e ↦ absurd (a n (subst (λ y. Leads cs y n) ((==_iff x n).0 e) l))
      | inr e ↦ ground (arith, rw h.listed at m)
    ]

    bucket_lem :
        (k : Text)
        → bucket k (build_reverse_adjacency (array cs))
          ≡ map source_id (filter (λ c. k == target_id c) cs)
    bucket_lem k =
        bucket-build_reverse_adjacency k (array cs)
        ∙ rw (normalize_connections-array cs, filter_all is_linked cs linked) refl

-- Of a workflow and a node's id that is not empty, `getStructuralPredecessorIds` returns each node
-- once, and exactly those from which a walk along the structural connections leads to the node.
-- The node itself is not among them.
pub get_structural_predecessor_ids_lem :
    (w : Workflow) (c : ℕ) (t : Text)
    → (kept : List RawConnection) × (ps : List Text) × (get_structural_connections w.connections
        ≡ some kept)
      × (get_structural_predecessor_ids (some w) (some (c ∷ t)) ≡ some ps)
      × NoRepeat ps
      × (mem (c ∷ t) ps ≡ false)
      × ((x : Text) → (mem x ps ≡ true) ↔ Leads kept x (c ∷ t))
unfolding get_structural_predecessor_ids
get_structural_predecessor_ids_lem w c t =
    let (kept, r, acyclic, sub) = get_structural_connections-IsAcyclic w.connections in
    let (ps, q, distinct, iff) =
      predecessors_of_lem (c ∷ t) kept acyclic
        (λ d i. normalize_connections-is_linked w.connections d (sub d i)) in
    (
      kept,
      ps,
      r,
      rw r q,
      distinct,
      elim (Bool-cases (mem (c ∷ t) ps)) [
        | inl m ↦ absurd (acyclic (c ∷ t) ((iff (c ∷ t)).0 m))
        | inr m ↦ m
      ],
      iff,
    )

-- For a node's id that is not empty, the parents that `getStructuralParentIds` returns are the
-- sources of the structural connections that enter the node, one for each connection and in their
-- order.
pub get_structural_parent_ids_lem :
    (w : Workflow) (c : ℕ) (t : Text)
    → (kept : List RawConnection) × (get_structural_connections w.connections ≡ some kept)
      × (get_structural_parent_ids (some w) (some (c ∷ t))
          ≡ some (map source_id (filter (λ d. (c ∷ t) == target_id d) kept)))
unfolding get_structural_parent_ids
get_structural_parent_ids_lem w c t =
    let (kept, r, acyclic, sub) = get_structural_connections-IsAcyclic w.connections in
    let linked = λ (d : RawConnection) (i : In d kept).
      normalize_connections-is_linked w.connections d (sub d i) in
    (
      kept,
      r,
      rw r (
          ap some (
            bucket-build_reverse_adjacency (c ∷ t) (array kept)
            ∙ rw (normalize_connections-array kept, filter_all is_linked kept linked) refl)),
    )
