-- ===== src/Store.antt =====
-- store/workflow_store.js: the actions of the store that edit the graph, over the adapter and the
-- history of its actions. Store/Pins and Store/Session have its other actions.
pub mod Undo
pub mod Pins
pub mod Session
use open_workflow_studio.Prelude.{
  map, ℕ, Bool, true, false, ◌&&◌, ◌||◌, Option, none, some, List, [], ◌∷◌, ◌++◌, filter, find?,
  if◌then◌else◌,
}
use open_workflow_studio.Prelude.Int.{ℤ, pos, ◌+ℤ◌, eqb_ℤ}
use open_workflow_studio.Text.{Text, codes, ◌==◌}
use open_workflow_studio.Assoc
use open_workflow_studio.Assoc.{Assoc}
use open_workflow_studio.Value.{Value}
use open_workflow_studio.Node.{Position}
use open_workflow_studio.Connection.{Connection}
use open_workflow_studio.Adapter
use open_workflow_studio.Adapter.{Adapter, Registry, UiNode, UiConnection}
use open_workflow_studio.History
use open_workflow_studio.Progress.{Progress}
use open_workflow_studio.History.{History, Outcome, push, start_batch, commit_batch}
use open_workflow_studio.Commands.{
  NodeData, NodeMove, create_add_node_action, create_remove_node_action, create_move_node_action,
  create_move_nodes_action, create_add_connection_action, create_remove_connection_action,
}

pub record Store : Type 0 where
  pub adapter : Adapter
  pub history : History Adapter
  pub execution_progress : Option Progress
  pub pin_data : Assoc Value
  pub workflow_metadata : Assoc Value

abbrev pub clear_execution : Store → Store
clear_execution st = record st { execution_progress = none }

abbrev pub has_id : Text → UiNode → Bool
has_id k n = elim n.id [ none ↦ false | some i ↦ i == k ]

-- `getNode`
abbrev pub get_node : Text → Store → Option UiNode
get_node k st = find? (has_id k) st.adapter.state.nodes

-- `getConnection`
abbrev pub get_connection : Text → Store → Option UiConnection
get_connection i st = find? (λ c. c.id == i) st.adapter.state.connections

abbrev pub ui_position : UiNode → Position
ui_position n = record { x = n.x; y = n.y }

abbrev pub same_position : Position → Position → Bool
same_position p q = eqb_ℤ p.x q.x && eqb_ℤ p.y q.y

-- The fields of a connection that the actions read. The others are not read.
abbrev pub as_connection : UiConnection → Connection
as_connection c = record {
  id = c.id;
  source = c.source;
  source_handle = c.source_handle;
  target = c.target;
  target_handle = c.target_handle;
  meta = [];
}

-- `const conn = adapter.addConnection(…); if (conn) history.push(createAddConnectionAction(…));`
abbrev pub link_and_push : ℕ → Text → Text → Text → Text → Store → Store
link_and_push now s sh t th st =
    let (a, c) = Adapter.add_connection s sh t th st.adapter in
    elim c [
      | none ↦ record st { adapter = a }
      | some d ↦ record st {
        adapter = a;
        history = push now (create_add_connection_action d) st.history;
      }
    ]

-- `adapter.addNode(…)` and the push of its action, at a position.
abbrev pub push_added : ℕ → Registry → Text → Text → Position → Store → Store
push_added now registry k type p st = record st {
  history =
      push now
        (create_add_node_action registry (record {
          id = k;
          type = type;
          position = p;
          config = some (Adapter.get_node_config k st.adapter);
        }))
        st.history;
}

-- The placeholder of a loop, and the connections to it and back.
abbrev pub add_loop_body : ℕ → Registry → Text → Position → Store → Store
add_loop_body now registry k position st =
    let p : Position = record { x = position.x +ℤ pos 80; y = position.y +ℤ pos 160 } in
    let (a, noop) = Adapter.add_node registry (codes "noop") p st.adapter in
    elim noop [
      | none ↦ record st { adapter = a }
      | some j ↦ link_and_push now j (codes "result") k (codes "data") (
          link_and_push now k (codes "loop") j (codes "data")
            (push_added now registry j (codes "noop") p (record st { adapter = a })))
    ]

abbrev pub add_node : ℕ → Registry → Text → Position → Store → Store × Option Text
add_node now registry type position st =
    let (a, added) = Adapter.add_node registry type position st.adapter in
    elim added [
      | none ↦ (record st { adapter = a }, none)
      | some k ↦
          let pushed =
            push_added now registry k type position (clear_execution (record st { adapter = a })) in
          (
            if type == codes "loop" then add_loop_body now registry k position pushed else pushed,
            some k,
          )
    ]

-- A node that the interface does not show is moved too, but no action is pushed for it.
pub move_node : ℕ → Text → Position → Store → Store
move_node now k p st = elim (get_node k st) [
  | none ↦ record st { adapter = (Adapter.update_position k p st.adapter).0 }
  | some n ↦ if same_position (ui_position n) p then st else record st {
    adapter = (Adapter.update_position k p st.adapter).0;
    history = push now (create_move_node_action k (ui_position n) p) st.history;
  }
]

-- The loop of `moveNodes`, with the moves to record, the first one first.
abbrev pub move_entries : Assoc Position → Store → Store × List NodeMove
move_entries [] st = (st, [])
move_entries ((k, p) ∷ updates) st = elim (get_node k st) [
  | none ↦ move_entries updates st
  | some n ↦ elim (same_position (ui_position n) p) [
    | true ↦ move_entries updates st
    | false ↦
        let (st', moves) =
          move_entries updates
            (record st { adapter = (Adapter.update_position k p st.adapter).0 }) in
        (st', record { node_id = k; old_position = ui_position n; new_position = p } ∷ moves)
  ]
]

-- `recordMoveNodes`, which pushes nothing for no moves.
abbrev pub record_move_nodes : ℕ → List NodeMove → Store → Store
record_move_nodes now [] st = st
record_move_nodes now (m ∷ moves) st = record st {
  history = push now (create_move_nodes_action (m ∷ moves)) st.history;
}

abbrev pub move_nodes : ℕ → Assoc Position → Store → Store
move_nodes now updates st =
    let (st', moves) = move_entries updates st in record_move_nodes now moves st'

abbrev pub move_nodes_transient : Assoc Position → Store → Store
move_nodes_transient updates st = (move_entries updates st).0

abbrev pub remove_node : ℕ → Registry → Text → Store → Store × Bool
remove_node now registry k st = elim (get_node k st) [
  | none ↦ (st, false)
  | some n ↦
      let related = filter (λ c. c.source == k || c.target == k) st.adapter.state.connections in
      (
        record st {
          adapter = (Adapter.remove_node k st.adapter).0;
          history =
              push now
                (create_remove_node_action registry
                  (record {
                    id = k;
                    type = n.type;
                    position = ui_position n;
                    config = some (Adapter.get_node_config k st.adapter);
                  })
                  (map as_connection related))
                st.history;
          execution_progress = none;
          pin_data = Assoc.delete k st.pin_data;
        },
        true,
      )
]

unfoldable pub add_connection : ℕ → Text → Text → Text → Text → Store → Store × Option Text
add_connection now s sh t th st =
    let (a, c) = Adapter.add_connection s sh t th st.adapter in
    elim c [
      | none ↦ (record st { adapter = a }, none)
      | some d ↦ (
        clear_execution (record st {
          adapter = a;
          history = push now (create_add_connection_action d) st.history;
        }),
        some d.id,
      )
    ]

abbrev pub remove_connection : ℕ → Text → Store → Store × Bool
remove_connection now i st = elim (get_connection i st) [
  | none ↦ (st, false)
  | some c ↦ (
    clear_execution (record st {
      adapter = (Adapter.remove_connection i st.adapter).0;
      history = push now (create_remove_connection_action (as_connection c)) st.history;
    }),
    true,
  )
]

abbrev pub begin_batch : Store → Store
begin_batch st = record st { history = start_batch st.history }

abbrev pub end_batch : ℕ → Text → Store → Store
end_batch now description st = record st { history = commit_batch now description st.history }

abbrev pub undo : Store → Store × Outcome
undo st =
    let (h, a, r) = History.undo st.history st.adapter in
    (record st { adapter = a; history = h }, r)

abbrev pub redo : Store → Store × Outcome
redo st =
    let (h, a, r) = History.redo st.history st.adapter in
    (record st { adapter = a; history = h }, r)
