-- ===== src/Progress/Bus.antt =====
-- store/workflow_store.js, `onExecutionProgress`: the progress that events of the bus fill.
use open_workflow_studio.Prelude.{
  Bool, false, not, Option, none, some, List, [], ◌∷◌, ◌++◌, if◌then◌else◌, get_last?,
}
use open_workflow_studio.Text.{Text, codes, ◌==◌}
use open_workflow_studio.Assoc
use open_workflow_studio.Assoc.{Assoc}
use open_workflow_studio.Progress.{Progress, RoutedConnection, given, or_old, progress_or_fresh}

-- A node of `completed_nodes`.
pub record CompletedNode : Type 0 where
  pub node_id : Option Text
  pub status : Option Text

pub record Payload : Type 0 where
  pub run_id : Option Text
  pub completed_nodes : Option (List (Option CompletedNode))
  pub connections : Option (List (Option RoutedConnection))
  pub next_running_node_id : Option Text
  pub status : Option Text
  pub error : Option Text
  pub executed_order : Option (List Text)
  pub executed_connection_ids : Option (List Text)
  pub executed_connections : Option (List (Option RoutedConnection))

-- `if (order[order.length - 1] !== node.node_id) order.push(node.node_id)`
unfoldable pub push_order : Text → List Text → List Text
push_order k order = elim (get_last? order) [
  | none ↦ order ++ k ∷ []
  | some j ↦ if j == k then order else order ++ k ∷ []
]

abbrev pub status_or_success : Option Text → Text
status_or_success s = elim (given s) [ none ↦ codes "success" | some t ↦ t ]

abbrev pub complete_node : Text → Option Text → Progress → Progress
complete_node k s p = record p {
  executed_order = push_order k p.executed_order;
  node_statuses = Assoc.set k (status_or_success s) p.node_statuses;
}

unfoldable pub complete_nodes : List (Option CompletedNode) → Progress → Progress
complete_nodes [] p = p
complete_nodes (none ∷ ns) p = complete_nodes ns p
complete_nodes (some n ∷ ns) p =
    complete_nodes ns (elim (given n.node_id) [ none ↦ p | some k ↦ complete_node k n.status p ])

abbrev pub route_connection : RoutedConnection → Progress → Progress
route_connection c p = record p {
  executed_connection_ids = elim (given c.connection_id) [
    | none ↦ p.executed_connection_ids
    | some i ↦ p.executed_connection_ids ++ i ∷ []
  ];
  executed_connections = p.executed_connections ++ some c ∷ [];
}

unfoldable pub route_connections : List (Option RoutedConnection) → Progress → Progress
route_connections [] p = p
route_connections (none ∷ cs) p = route_connections cs p
route_connections (some c ∷ cs) p = route_connections cs (route_connection c p)

abbrev pub list_of {ℓ} : {A : Type ℓ} → Option (List A) → List A
list_of none = []
list_of (some xs) = xs

abbrev pub mark_running : Option Text → Progress → Progress
mark_running o p = elim (given o) [
  | none ↦ p
  | some k ↦ record p { node_statuses = Assoc.set k (codes "running") p.node_statuses }
]

-- `if (payload.status) …`: the run has ended.
abbrev pub conclude : Payload → Progress → Progress
conclude payload p = elim (given payload.status) [
  | none ↦ p
  | some s ↦ record p {
    status = s;
    error = given payload.error;
    executed_order = or_old payload.executed_order p.executed_order;
    executed_connection_ids = or_old payload.executed_connection_ids p.executed_connection_ids;
    executed_connections = or_old payload.executed_connections p.executed_connections;
  }
]

-- `progress.runId && payload.run_id && progress.runId !== payload.run_id`
abbrev pub of_other_run : Option Text → Option Text → Bool
of_other_run a b = elim (given a) [
  | none ↦ false
  | some i ↦ elim (given b) [ none ↦ false | some j ↦ not (i == j) ]
]

abbrev pub advance : Payload → Progress → Progress
advance payload p = conclude payload (
    mark_running payload.next_running_node_id (
      route_connections (list_of payload.connections)
        (complete_nodes (list_of payload.completed_nodes) p)))

-- `onExecutionProgress`, of a payload that is there.
unfoldable pub on_execution_progress : Payload → Option Progress → Progress
on_execution_progress payload o =
    let p = progress_or_fresh o payload.run_id in
    if of_other_run p.run_id payload.run_id then p else advance payload p
