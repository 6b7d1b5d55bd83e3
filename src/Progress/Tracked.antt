-- ===== src/Progress/Tracked.antt =====
-- What holds of the progress of a run that events of the bus have filled.
use open_workflow_studio.Prelude.{
  ◌≡◌, refl, true, false, Option, none, some, List, [], ◌∷◌, ◌++◌, arith, ◌∙◌, ap, sym,
  Option-cases, Bool-cases, inl, inr, All, All-append, get_last?, append-nil,
}
use open_workflow_studio.Text.{Text, codes, ◌==◌, ==_refl}
use open_workflow_studio.Assoc
use open_workflow_studio.Assoc.{Assoc}
use open_workflow_studio.Assoc.Laws.{get-set}
use open_workflow_studio.Progress.{
  Progress, RoutedConnection, given, connection_ids, fresh_progress,
}
use open_workflow_studio.Progress.Bus.{
  Payload, CompletedNode, push_order, complete_node, complete_nodes, status_or_success,
  route_connection, route_connections, mark_running, conclude, of_other_run, on_execution_progress,
  list_of,
}

-- No text stands twice in a row.
abbrev pub NoStutter : List Text → Type 0
NoStutter [] = Unit
NoStutter (x ∷ []) = Unit
NoStutter (x ∷ y ∷ ys) = ((x == y) ≡ false) × NoStutter (y ∷ ys)

-- Each node that was executed has a status, none is listed twice in a row, and the ids are those of
-- the connections that have one.
pub record IsTracked (p : Progress) : Type 0 where
  pub statused : All (λ k. Assoc.has k p.node_statuses ≡ true) p.executed_order
  pub steady : NoStutter p.executed_order
  pub named : p.executed_connection_ids ≡ connection_ids p.executed_connections

-- The payload brings no lists of a run that has ended.
pub record IsPartial (payload : Payload) : Type 0 where
  pub no_order : payload.executed_order ≡ none
  pub no_ids : payload.executed_connection_ids ≡ none
  pub no_connections : payload.executed_connections ≡ none

NoStutter-end :
    (k : Text) (xs : List Text)
    → NoStutter xs
    → ((j : Text) → get_last? xs ≡ some j → (j == k) ≡ false)
    → NoStutter (xs ++ k ∷ [])
NoStutter-end k [] h f = tt
NoStutter-end k (x ∷ []) h f = (f x refl, tt)
NoStutter-end k (x ∷ y ∷ ys) (e, h) f = (e, NoStutter-end k (y ∷ ys) h f)

push_order-NoStutter : (k : Text) (xs : List Text) → NoStutter xs → NoStutter (push_order k xs)
unfolding push_order
push_order-NoStutter k xs h = elim (Option-cases (get_last? xs)) [
  | inl e ↦ rw (e, push_order) (NoStutter-end k xs h (λ j f. absurd (ground arith)))
  | inr (j, e) ↦ elim (Bool-cases (j == k)) [
    | inl same ↦ rw (e, push_order) (rw same h)
    | inr other ↦ rw (e, push_order) (rw other (NoStutter-end k xs h (λ i f. ground arith)))
  ]
]

module _ (k : Text) (v : Text) (m : Assoc Text) where
  has-set : (j : Text) → Assoc.has j m ≡ true → Assoc.has j (Assoc.set k v m) ≡ true
  has-set j h = ground (arith, get-set j k v m)

  All-has-set :
      (xs : List Text)
      → All (λ j. Assoc.has j m ≡ true) xs
      → All (λ j. Assoc.has j (Assoc.set k v m) ≡ true) xs
  All-has-set [] h = tt
  All-has-set (x ∷ xs) (h, hs) = (has-set x h, All-has-set xs hs)

  has-set_self : Assoc.has k (Assoc.set k v m) ≡ true
  has-set_self = ground (arith, get-set k k v m, ==_refl k)

  statused-push_order :
      (xs : List Text)
      → All (λ j. Assoc.has j m ≡ true) xs
      → All (λ j. Assoc.has j (Assoc.set k v m) ≡ true) (push_order k xs)
  unfolding push_order
  statused-push_order xs h =
      let longer = All-append _ xs (k ∷ []) (All-has-set xs h) (has-set_self, tt) in
      elim (Option-cases (get_last? xs)) [
        | inl e ↦ rw (e, push_order) longer
        | inr (j, e) ↦ elim (Bool-cases (j == k)) [
          | inl same ↦ rw (e, push_order) (rw same (All-has-set xs h))
          | inr other ↦ rw (e, push_order) (rw other longer)
        ]
      ]

complete_nodes-IsTracked :
    (ns : List (Option CompletedNode)) (p : Progress)
    → IsTracked p
    → IsTracked (complete_nodes ns p)
unfolding complete_nodes
complete_nodes-IsTracked [] p t = t
complete_nodes-IsTracked (none ∷ ns) p t = complete_nodes-IsTracked ns p t
complete_nodes-IsTracked (some n ∷ ns) p t = elim (Option-cases (given n.node_id)) [
  | inl e ↦ rw e (complete_nodes-IsTracked ns p t)
  | inr (k, e) ↦ rw e (
      complete_nodes-IsTracked ns (complete_node k n.status p) (record {
        statused =
            statused-push_order k (status_or_success n.status) p.node_statuses p.executed_order
              t.statused;
        steady = push_order-NoStutter k p.executed_order t.steady;
        named = t.named;
      }))
]

connection_ids-append :
    (xs ys : List (Option RoutedConnection))
    → connection_ids (xs ++ ys) ≡ connection_ids xs ++ connection_ids ys
unfolding connection_ids
connection_ids-append [] ys = refl
connection_ids-append (none ∷ xs) ys = connection_ids-append xs ys
connection_ids-append (some c ∷ xs) ys = elim (Option-cases (given c.connection_id)) [
  | inl e ↦ rw (e, connection_ids) (connection_ids-append xs ys)
  | inr (i, e) ↦ rw (e, connection_ids) (ap (i ∷◌) (connection_ids-append xs ys))
]

routed_named :
    (c : RoutedConnection) (p : Progress)
    → p.executed_connection_ids ≡ connection_ids p.executed_connections
    → (route_connection c p).executed_connection_ids
      ≡ connection_ids (p.executed_connections ++ some c ∷ [])
unfolding connection_ids
routed_named c p h = elim (Option-cases (given c.connection_id)) [
  | inl e ↦
      rw (connection_ids-append p.executed_connections (some c ∷ []))
        (rw (e, connection_ids, route_connection) (h ∙ sym (append-nil _)))
  | inr (i, e) ↦
      rw (connection_ids-append p.executed_connections (some c ∷ []))
        (rw (e, connection_ids, route_connection) (ap (λ x. x ++ i ∷ []) h))
]

route_connections-IsTracked :
    (cs : List (Option RoutedConnection)) (p : Progress)
    → IsTracked p
    → IsTracked (route_connections cs p)
unfolding route_connections
route_connections-IsTracked [] p t = t
route_connections-IsTracked (none ∷ cs) p t = route_connections-IsTracked cs p t
route_connections-IsTracked (some c ∷ cs) p t =
    route_connections-IsTracked cs (route_connection c p)
      (record { statused = t.statused; steady = t.steady; named = routed_named c p t.named })

mark_running-IsTracked :
    (o : Option Text) (p : Progress) → IsTracked p → IsTracked (mark_running o p)
mark_running-IsTracked o p t = elim (Option-cases (given o)) [
  | inl e ↦ rw (e, mark_running) t
  | inr (k, e) ↦
      rw (e, mark_running)
        (record {
          statused = All-has-set k (codes "running") p.node_statuses p.executed_order t.statused;
          steady = t.steady;
          named = t.named;
        })
]

conclude-IsTracked :
    (payload : Payload) (p : Progress)
    → IsPartial payload
    → IsTracked p
    → IsTracked (conclude payload p)
conclude-IsTracked payload p q t = elim (Option-cases (given payload.status)) [
  | inl e ↦ rw (e, conclude) t
  | inr (s, e) ↦
      rw (e, conclude)
        (record {
          statused = rw q.no_order t.statused;
          steady = rw q.no_order t.steady;
          named = rw q.no_ids (rw q.no_connections t.named);
        })
]

on_execution_progress-IsTracked :
    (payload : Payload) (p : Progress)
    → IsPartial payload
    → IsTracked p
    → IsTracked (on_execution_progress payload (some p))
unfolding on_execution_progress
on_execution_progress-IsTracked payload p q t =
    elim (Bool-cases (of_other_run p.run_id payload.run_id)) [
      | inl other ↦ rw other t
      | inr own ↦ rw own (
          conclude-IsTracked payload _ q (
            mark_running-IsTracked payload.next_running_node_id _ (
              route_connections-IsTracked (list_of payload.connections) _
                (complete_nodes-IsTracked (list_of payload.completed_nodes) p t))))
    ]

-- The events of the bus, in order.
abbrev pub on_all : List Payload → Progress → Progress
on_all [] p = p
on_all (payload ∷ payloads) p = on_all payloads (on_execution_progress payload (some p))

-- Of a run that starts fresh and takes any sequence of payloads without final lists, its own and
-- other runs', each executed node has a status, no node is listed twice in a row, and the ids of
-- the executed connections are those that `setExecutionResult` would derive from the connections.
pub on_all-IsTracked :
    (run_id : Option Text) (payloads : List Payload)
    → All IsPartial payloads
    → IsTracked (on_all payloads (fresh_progress run_id))
on_all-IsTracked run_id payloads h = go payloads (fresh_progress run_id) h start
  where
    start : IsTracked (fresh_progress run_id)
    start = unfold connection_ids in record { statused = tt; steady = tt; named = refl }

    go :
        (ps : List Payload) (p : Progress)
        → All IsPartial ps
        → IsTracked p
        → IsTracked (on_all ps p)
    go [] p q t = t
    go (payload ∷ ps) p (q, qs) t =
        go ps (on_execution_progress payload (some p)) qs
          (on_execution_progress-IsTracked payload p q t)
