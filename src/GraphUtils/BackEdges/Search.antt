-- ===== src/GraphUtils/BackEdges/Search.antt =====
-- The whole search, from the roots and then from the other nodes: it ends, and all is finished.
use open_workflow_studio.Prelude.{
  ℕ, ◌≤◌, ◌≡◌, refl, inl, inr, Bool, true, false, not, some, List, [], ◌∷◌, ◌>>=◌, arith, In,
  In-filter, if◌then◌else◌, Bool-cases, ◌↔◌, filter, length, eqb,
}
use open_workflow_studio.Text.{Text, ◌==◌, ==_iff, ==_refl, mem, add, mem-add}
use open_workflow_studio.Assoc.{Assoc}
use open_workflow_studio.GraphUtils.Connections.{
  RawConnection, array, normalize_connections, source_id, target_id, bucket,
  build_forward_adjacency,
}
use open_workflow_studio.GraphUtils.Connections.Adjacency.{bucket-build_forward_adjacency}
use open_workflow_studio.GraphUtils.BackEdges.{
  Dfs, visit, visit_all, node_ids, in_degrees, degree, no_marks, search_back_edges,
}
use open_workflow_studio.GraphUtils.BackEdges.Invariant.{Inv, Extends-refl, Extends-trans}
use open_workflow_studio.GraphUtils.BackEdges.Scope.{unvisited-le}
use open_workflow_studio.GraphUtils.BackEdges.Visit.{Ends, visit_ends}

-- Every end of a connection is among the ids.
mem-node_ids_mono :
    (x : Text) (cs : List RawConnection) (ids : List Text)
    → mem x ids ≡ true
    → mem x (node_ids cs ids) ≡ true
unfolding node_ids
mem-node_ids_mono x [] ids h = h
mem-node_ids_mono x (c ∷ cs) ids h =
    mem-node_ids_mono x cs _
      (ground (arith, mem-add x (target_id c) (add (source_id c) ids), mem-add x (source_id c) ids))

mem-node_ids :
    (cs : List RawConnection) (ids : List Text) (c : RawConnection)
    → In c cs
    → (mem (source_id c) (node_ids cs ids) ≡ true) × (mem (target_id c) (node_ids cs ids) ≡ true)
unfolding node_ids
mem-node_ids [] ids c i = absurd i
mem-node_ids (d ∷ cs) ids c (inr i) = mem-node_ids cs _ c i
mem-node_ids (d ∷ cs) ids c (inl e) = rw e (
  mem-node_ids_mono (source_id d) cs _
      (entered (source_id d) (ground (arith, ==_refl (source_id d)))),
  mem-node_ids_mono (target_id d) cs _ (
      ground (
        arith,
        mem-add (target_id d) (target_id d) (add (source_id d) ids),
        ==_refl (target_id d),
      )),
)
  where
    entered :
        (x : Text)
        → (x == source_id d) ≡ true
        → mem x (add (target_id d) (add (source_id d) ids)) ≡ true
    entered x e =
        ground (arith, mem-add x (target_id d) (add (source_id d) ids), mem-add x (source_id d) ids)

module _ (cs : List RawConnection) (ids : List Text) (adj : Assoc (List RawConnection))
    (targets : (c : RawConnection) → In c cs → mem (target_id c) ids ≡ true)
    (bucket_lem : (n : Text) (c : RawConnection)
      → In c (bucket n adj) ↔ (In c cs × (source_id c ≡ n))) where
  abbrev NoStack : Dfs → Type 0
  NoStack s = (x : Text) → mem x s.in_stack ≡ false

  visit_all_ends :
      (fuel : ℕ) (ns : List Text) (s : Dfs) (o : List Text)
      → length ids ≤ fuel
      → ((x : Text) → mem x ns ≡ true → mem x ids ≡ true)
      → NoStack s
      → Inv cs s o
      → Ends cs
          (visit_all adj fuel ns s)
          s
          o
          (λ t p. (x : Text) → mem x ns ≡ true → mem x t.visited ≡ true)
  unfolding visit_all mem
  visit_all_ends fuel [] s o u known empty h =
      (s, o, refl, h, Extends-refl s o, λ x m. ground arith)
  visit_all_ends fuel (n ∷ ns) s o u known empty h =
      let (s1, o1, r1, h1, x1, seen) = first in
      let (t, p, r, ht, xt, rest) =
        visit_all_ends fuel ns s1 o1 u (λ x m. known x (ground arith))
          (λ x. ground (arith, x1.stack x, empty x)) h1 in
      (
        t,
        p,
        rw (r1, ◌>>=◌) r,
        ht,
        Extends-trans x1 xt,
        λ x m. ground (arith, rest x, ==_iff x n, xt.seen n),
      )
    where
      first :
          Ends cs
            (if not (mem n s.visited) then visit adj fuel n s else some s)
            s
            o
            (λ t p. mem n t.visited ≡ true)
      first = elim (Bool-cases (mem n s.visited)) [
        | inl old ↦ (s, o, rw old, h, Extends-refl s o, old)
        | inr new ↦
            let (t, p, r, ht, xt, done) =
              visit_ends cs ids targets adj bucket_lem fuel n s o
                (omega (arith, unvisited-le ids s.visited)) (known n (ground (arith, ==_refl n)))
                new (λ x m. ground (arith, empty x)) h in
            (t, p, rw new r, ht, xt, done.0)
      ]

Inv-no_marks : (cs : List RawConnection) → Inv cs no_marks []
unfolding mem
Inv-no_marks cs = record {
  placed = λ x m. cc;
  stacked = λ x m. cc;
  ordered = tt;
  sound = λ k m. cc;
}

mem-filter :
    (p : Text → Bool) (x : Text) (xs : List Text) → mem x (filter p xs) ≡ true → mem x xs ≡ true
unfolding mem
mem-filter p x [] h = h
mem-filter p x (y ∷ xs) h = ground (arith, mem-filter p x xs)

-- What the search over normalized connections ends with.
pub search_ends :
    (cs : List RawConnection)
    → normalize_connections (array cs) ≡ cs
    → (t : Dfs) × (o : List Text) × (search_back_edges cs ≡ some t)
      × Inv cs t o
      × ((c : RawConnection) → In c cs → mem (source_id c) o ≡ true)
unfolding search_back_edges mem
search_ends cs norm =
    let (s1, o1, r1, h1, x1, _) =
      visit_all_ends cs ids adj targets bucket_lem (length ids) roots no_marks [] (omega arith)
        (λ x m. mem-filter is_root x ids m) (λ x. refl) (Inv-no_marks cs) in
    let (t, o, r, h, x, all) =
      visit_all_ends cs ids adj targets bucket_lem (length ids) ids s1 o1 (omega arith) (λ x m. m)
        (λ x. x1.stack x) h1 in
    (
      t,
      o,
      rw (r1, ◌>>=◌) r,
      h,
      λ c i. ground (
        arith,
        h.placed (source_id c),
        all (source_id c),
        mem-node_ids cs [] c i,
        x.stack (source_id c),
        x1.stack (source_id c),
      ),
    )
  where
    ids : List Text
    ids = node_ids cs []

    is_root : Text → Bool
    is_root n = eqb (degree n (in_degrees cs [])) 0

    roots : List Text
    roots = filter is_root ids

    adj : Assoc (List RawConnection)
    adj = build_forward_adjacency (array cs)

    targets : (c : RawConnection) → In c cs → mem (target_id c) ids ≡ true
    targets c i = (mem-node_ids cs [] c i).1

    bucket_lem :
        (n : Text) (c : RawConnection) → In c (bucket n adj) ↔ (In c cs × (source_id c ≡ n))
    bucket_lem n c =
        rw (bucket-build_forward_adjacency n (array cs), norm)
          (ground (
            arith,
            In-filter (λ (c : RawConnection). n == source_id c) c cs,
            ==_iff n (source_id c),
          ))
