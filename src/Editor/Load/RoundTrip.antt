-- ===== src/Editor/Load/RoundTrip.antt =====
-- A workflow that is saved and loaded again.
use open_workflow_studio.Prelude.{
  ℕ, ◌≡◌, sym, ap, ◌∙◌, Option, none, some, [], ◌∷◌, ◌++◌, map, All, append-nil,
}
use open_workflow_studio.Text.{Text, codes}
use open_workflow_studio.Text.Decimal.{parse_digits}
use open_workflow_studio.Assoc
use open_workflow_studio.Assoc.{Assoc, IsUnique}
use open_workflow_studio.Assoc.Laws.{set_new}
use open_workflow_studio.Assoc.Middle.{fresh-middle, regroup}
use open_workflow_studio.Connection.Restore
use open_workflow_studio.Connection.Restore.{IsMade}
use open_workflow_studio.Connection
use open_workflow_studio.Connection.{Connection, ConnectionData, default_meta}
use open_workflow_studio.Node
use open_workflow_studio.Node.{NodeData, NodeClass, BaseNode}
use open_workflow_studio.Node.Restore.{IsInstance, from_json-to_json as node_restored}
use open_workflow_studio.Editor.{Editor, emit, change, clear}
use open_workflow_studio.Editor.Load.{
  Outcome, loaded, threw, raise, finish_load, load_nodes, to_json, from_json,
}

-- Each node stands under its id, and is as its class makes it; so are the connections.
pub record IsRestorable (ed : Editor) : Type 0 where
  pub unique : IsUnique ed.nodes
  pub nodes : All (λ e. (e.1.id ≡ some e.0) × IsInstance ed.node_registry e.1) ed.nodes
  pub connections : All IsMade ed.connections

-- The greatest number in an id.
abbrev pub max_id : ℕ → Assoc BaseNode → ℕ
max_id m [] = m
max_id m ((k, n) ∷ ns) = max_id (raise (parse_digits k) m) ns

load_nodes-to_json :
    (k : ℕ → Editor → Outcome) (ed : Editor) (p m : Assoc BaseNode) (n : ℕ)
    → All (λ e. (e.1.id ≡ some e.0) × IsInstance ed.node_registry e.1) m
    → IsUnique (p ++ m)
    → load_nodes (map Node.to_json (Assoc.values m)) n k (record ed { nodes = p })
      ≡ k (max_id n m) (record ed { nodes = p ++ m })
load_nodes-to_json k ed p [] n h u = ap (λ x. k n (record ed { nodes = x })) (sym (append-nil p))
load_nodes-to_json k ed p ((j, b) ∷ m) n ((e, i), h) u =
    let u' : IsUnique ((p ++ (j, b) ∷ []) ++ m) = rw (regroup p m (j, b)) u in
    let ih = load_nodes-to_json k ed (p ++ (j, b) ∷ []) m (raise (parse_digits j) n) h u' in
    let go_on = λ (o : Option BaseNode).
      let r : Outcome = elim o [
        | none ↦ threw (record ed { nodes = p })
        | some c ↦ elim c.id [
          | none ↦ threw (record ed { nodes = p })
          | some t ↦
              load_nodes (map Node.to_json (Assoc.values m)) (raise (parse_digits t) n) k
                (record ed { nodes = Assoc.set t c p })
        ]
      ] in
      r in
    let named = λ (o : Option Text).
      let r : Outcome = elim o [
        | none ↦ threw (record ed { nodes = p })
        | some t ↦
            load_nodes (map Node.to_json (Assoc.values m)) (raise (parse_digits t) n) k
              (record ed { nodes = Assoc.set t b p })
      ] in
      r in
    ap go_on (node_restored ed.node_registry b i)
    ∙ ap named e
    ∙ ap
        (λ x.
          load_nodes (map Node.to_json (Assoc.values m)) (raise (parse_digits j) n) k
            (record ed { nodes = x }))
        (set_new j b p (fresh-middle j b p m u))
    ∙ ih
    ∙ ap (λ x. k (max_id (raise (parse_digits j) n) m) (record ed { nodes = x }))
        (regroup p m (j, b))

-- The editor that loads what another one saved: the same graph, a counter at the greatest number in
-- an id, and the two events.
abbrev pub reloaded : Editor → Editor → Editor
reloaded ed into = emit (change (codes "load")) (record (clear into) {
  nodes = ed.nodes;
  connections = ed.connections;
  id_counter = max_id 0 ed.nodes;
})

-- Loading what `toJSON` gives of an editor, whose nodes and connections are as their classes make
-- them and whose registry the loading editor shares, leaves the loading editor with the same nodes
-- and connections, the greatest number in an id for the counter, and the events of a clear and a
-- load behind its own. No step of it throws.
pub from_json-to_json :
    (ed into : Editor)
    → IsRestorable ed
    → into.node_registry ≡ ed.node_registry
    → from_json (to_json ed) into ≡ loaded (reloaded ed into)
unfolding clear emit
from_json-to_json ed into h r =
    let at = record (clear into) { node_registry = ed.node_registry } in
    let cs = map Connection.to_json ed.connections in
    ap
      (λ x.
        load_nodes (map Node.to_json (Assoc.values ed.nodes)) 0 (finish_load cs)
          (record (clear into) { node_registry = x }))
      r
    ∙ load_nodes-to_json (finish_load cs) at [] ed.nodes 0 h.nodes h.unique
    ∙ ap
        (λ x. loaded (
          emit (change (codes "load"))
            (record at { nodes = ed.nodes; connections = x; id_counter = max_id 0 ed.nodes })))
        (Restore.from_json-to_json ed.connections h.connections)
    ∙ ap
        (λ x. loaded (
          emit (change (codes "load")) (record (clear into) {
            nodes = ed.nodes;
            connections = ed.connections;
            node_registry = x;
            id_counter = max_id 0 ed.nodes;
          })))
        (sym r)
