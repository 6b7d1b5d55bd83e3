-- ===== src/Adapter/Reload.antt =====
-- Loading through the adapter: the interface shows a graph that was saved.
use open_workflow_studio.Prelude.{◌≡◌, refl, ap, some, List, [], All, map}
use open_workflow_studio.Text.{codes}
use open_workflow_studio.Assoc
use open_workflow_studio.Assoc.{Assoc, IsUnique}
use open_workflow_studio.Connection
use open_workflow_studio.Connection.{Connection}
use open_workflow_studio.Connection.Restore.{IsMade}
use open_workflow_studio.Node
use open_workflow_studio.Node.{BaseNode, NodeClass}
use open_workflow_studio.Node.Restore.{IsInstance}
use open_workflow_studio.Editor.{Editor, clear, emit, change}
use open_workflow_studio.Editor.Load
use open_workflow_studio.Editor.Load.{WorkflowData, Outcome, loaded, threw}
use open_workflow_studio.Editor.Load.RoundTrip.{IsRestorable, reloaded, max_id, from_json-to_json}
use open_workflow_studio.Editor.Load.Registry.{registry_of, registry-from_json}
use open_workflow_studio.Adapter.Sync.{absorb-emit}
use open_workflow_studio.Adapter.{
  Adapter, Loading, loaded_all, threw_error, absorb, from_json, state_of,
}

-- A graph, with the registry that its nodes are of.
pub record Graph : Type 0 where
  pub nodes : Assoc BaseNode
  pub connections : List Connection
  pub registry : Assoc NodeClass

-- The adapter holds the graph and shows it.
pub record Shows (g : Graph) (a : Adapter) : Type 0 where
  pub nodes : a.editor.nodes ≡ g.nodes
  pub connections : a.editor.connections ≡ g.connections
  pub registry : a.editor.node_registry ≡ g.registry
  pub shown : a.state ≡ state_of g.nodes g.connections

-- The graph as it is saved.
abbrev pub saved_graph : Graph → WorkflowData
saved_graph g = record {
  version = codes "1.0";
  nodes = some (map Node.to_json (Assoc.values g.nodes));
  connections = some (map Connection.to_json g.connections);
}

pub record IsWhole (g : Graph) : Type 0 where
  pub unique : IsUnique g.nodes
  pub nodes : All (λ e. (e.1.id ≡ some e.0) × IsInstance g.registry e.1) g.nodes
  pub connections : All IsMade g.connections

pub to_json-Shows : (g : Graph) (a : Adapter) → Shows g a → Load.to_json a.editor ≡ saved_graph g
to_json-Shows g a h = λ i. record {
  version = codes "1.0";
  nodes = some (map Node.to_json (Assoc.values (h.nodes i)));
  connections = some (map Connection.to_json (h.connections i));
}

abbrev pub adapter_of : Loading → Adapter
adapter_of (loaded_all a) = a
adapter_of (threw_error a) = a

pub registry-from_json_adapter :
    (d : WorkflowData) (a : Adapter)
    → (adapter_of (from_json d a)).editor.node_registry ≡ a.editor.node_registry
unfolding absorb
registry-from_json_adapter d a = go (Load.from_json d a.editor) (registry-from_json d a.editor)
  where
    go :
        (o : Outcome)
        → registry_of o ≡ a.editor.node_registry
        → (adapter_of (elim o as (λ _. Loading) [
          | loaded ed ↦ loaded_all (absorb ed a)
          | threw ed ↦ threw_error (absorb ed a)
        ])).editor.node_registry
          ≡ a.editor.node_registry
    go (loaded ed) e = e
    go (threw ed) e = e

graph_editor : Graph → Editor
graph_editor g = record {
  nodes = g.nodes;
  connections = g.connections;
  node_registry = g.registry;
  id_counter = 0;
  emitted = [];
}

-- A whole graph that was saved is loaded, from whatever the adapter holds, without an exception,
-- and shown.
pub from_json-saved_graph :
    (g : Graph) (a : Adapter)
    → IsWhole g
    → a.editor.node_registry ≡ g.registry
    → (b : Adapter) × (from_json (saved_graph g) a ≡ loaded_all b) × Shows g b
unfolding absorb graph_editor clear emit
from_json-saved_graph g a w r =
    let source = graph_editor g in
    let whole : IsRestorable source = record {
      unique = w.unique;
      nodes = w.nodes;
      connections = w.connections;
    } in
    let ended = λ (o : Outcome).
      let l : Loading = elim o [
        | loaded ed ↦ loaded_all (absorb ed a)
        | threw ed ↦ threw_error (absorb ed a)
      ] in
      l in
    (
      absorb (reloaded source a.editor) a,
      ap ended (from_json-to_json source a.editor whole r),
      record {
        nodes = refl;
        connections = refl;
        registry = r;
        shown =
            (absorb-emit (change (codes "load"))
              (record (clear a.editor) {
                nodes = g.nodes;
                connections = g.connections;
                id_counter = max_id 0 g.nodes;
              })
              a refl).shown;
      },
    )
