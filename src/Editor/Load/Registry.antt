-- ===== src/Editor/Load/Registry.antt =====
-- Loading leaves the registry of node types alone, however it ends.
use open_workflow_studio.Prelude.{
  ℕ, ◌≡◌, refl, Option, none, some, List, [], ◌∷◌, Option-cases, inl, inr,
}
use open_workflow_studio.Text.Decimal.{parse_digits}
use open_workflow_studio.Assoc
use open_workflow_studio.Assoc.{Assoc}
use open_workflow_studio.Connection.{ConnectionData}
use open_workflow_studio.Node
use open_workflow_studio.Node.{NodeData, NodeClass, BaseNode}
use open_workflow_studio.Editor.{Editor, emit, clear}
use open_workflow_studio.Editor.Load.{
  WorkflowData, Outcome, loaded, threw, list_or, raise, finish_load, load_nodes, from_json,
}

abbrev pub registry_of : Outcome → Assoc NodeClass
registry_of (loaded ed) = ed.node_registry
registry_of (threw ed) = ed.node_registry

load_nodes_registry :
    (cs : List ConnectionData) (ds : List NodeData) (m : ℕ) (ed : Editor)
    → registry_of (load_nodes ds m (finish_load cs) ed) ≡ ed.node_registry
unfolding emit
load_nodes_registry cs [] m ed = refl
load_nodes_registry cs (d ∷ ds) m ed =
    step (load_nodes_registry cs ds) (Node.from_json d ed.node_registry)
  where
    step :
        ((m' : ℕ) (ed' : Editor)
          → registry_of (load_nodes ds m' (finish_load cs) ed') ≡ ed'.node_registry)
        → (o : Option BaseNode)
        → registry_of (elim o as (λ _. Outcome) [
          | none ↦ threw ed
          | some n ↦ elim n.id as (λ _. Outcome) [
            | none ↦ threw ed
            | some t ↦
                load_nodes ds
                  (raise (parse_digits t) m)
                  (finish_load cs)
                  (record ed { nodes = Assoc.set t n ed.nodes })
          ]
        ])
          ≡ ed.node_registry
    step ih none = refl
    step ih (some n) = elim (Option-cases n.id) [
      | inl e ↦ rw e refl
      | inr (t, e) ↦
          rw e (ih (raise (parse_digits t) m) (record ed { nodes = Assoc.set t n ed.nodes }))
    ]

pub registry-from_json :
    (d : WorkflowData) (ed : Editor) → registry_of (from_json d ed) ≡ ed.node_registry
unfolding clear emit
registry-from_json d ed = load_nodes_registry (list_or d.connections) (list_or d.nodes) 0 (clear ed)
