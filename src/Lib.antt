-- ===== src/Lib.antt =====
-- Open Workflow Studio: the core of the workflow editor, and its results.
--
-- A workflow is a graph of typed nodes on a canvas. `WorkflowEditor` owns the nodes and connections
-- and emits events; `WorkflowAdapter` listens to them and keeps the plain state that the interface
-- shows; the store calls the adapter and pushes an action for each edit onto `HistoryManager`, whose
-- undo and redo call the adapter again. Beside them stand queries on the graph of connections, which
-- the panels use to find what a node's input comes from.
--
-- Files, and the sources under workflow_studio/static/src that they model:
--   Socket, Connection   core/socket.js, core/connection.js
--   Control              core/control.js: the base control; Control/Pairs: `KeyValueControl`
--   Node                 core/node.js: `BaseNode`; a class is the node that its constructor makes
--   Editor               core/editor.js: a record of the maps, the counter and the events emitted;
--                        Editor/Load is toJSON and fromJSON, which may throw half-way
--   Adapter              core/adapter.js: an editor and the shown state; `absorb` lets the listener
--                        take the events in order. Adapter/Calls: its operations as calls;
--                        Adapter/Reload: the graph that an adapter shows, saved and loaded
--   History              core/history.js: `HistoryManager` over any state; an action may throw
--   Commands             core/history.js: the factories of actions over the adapter
--   Store                store/workflow_store.js: the actions that edit the graph, undo and redo;
--                        Store/Pins: pinned data and the snapshot that is saved; Store/Session: the
--                        state of the interface; Store/Session/Interface: selection, panels and
--                        menus; Store/Session/Views: previews of revisions, views of runs, loading
--                        and saving, any of which may raise an exception
--                        Store/Session/Execution: running the workflow, with the server as a
--                        parameter; Store/Session/RunData: what the server tells of a run
--   EditorCanvas         components/editor_canvas/hooks/use_multi_node_drag.js: Drag, and AutoScroll;
--                        events and frames are a list, in the order in which they happen
--   Progress             store/workflow_store.js: the progress of a run at its end; Progress/Bus: from
--                        the bus; Progress/Items: the result of one node
--   Connector            utils/connector_request_config.js: cleaning a request's configuration
--   NodeHelpers          core/node_helpers.js: contexts and parameters of a node that runs
--   ExecutionContext     core/context.js: Paths (reading and writing along dotted paths), the stack
--                        of loops; Edit, Serialize; Loops: the loop that the class's usage writes
--   Expression           utils/expression_utils.js: Path (writing and parsing a path), Template (the
--                        templates of a text), Evaluate (resolving a path, and the preview)
--   NodeRegistry         utils/node_registry.js: the types of nodes that were used last
--   Suggestions          utils/input_suggestion_utils.js; Suggestions/Context: those of a context
--   Geometry             components/editor_canvas/utils/geometry.js, over integers
--   GraphUtils           utils/graph_utils.js: Connections (keys and adjacency), BackEdges (the
--                        search for cycles), Predecessors, Results (the latest results of nodes)
--   Real                 the operations on JavaScript's numbers, where they are no integers
--   Value, Text, Assoc   JavaScript values, strings as UTF-16 code units, maps in insertion order
--                        Value/Json: what JSON makes of a value
--   Prelude              shared names and lemmas; Tests: the theorems at concrete inputs
--
-- An operation of a class is a function from the state to the state and the result. Mutation of an
-- object that is held in a map is a write to the map. Ids are strings; counters and other whole
-- numbers are natural numbers or integers, which is what JavaScript computes with below 2^53. Time
-- stamps are arguments. The registry of node types belongs to the host and is a parameter.
--
-- Fuel: the search for back edges and the sweep for predecessors run on fuel and return an option.
-- The search's fuel is the number of node ids, since each nested visit marks a new node; the sweep's
-- is the number of connections and one, since a node is queued once for a connection at most.
-- Printing a number has the number and one; a loop over a collection has its size and one.
--
-- Not modelled: rendering and DOM events, what the server does (it is a parameter, or its answer an
-- argument), the events on the store's own bus, the layout by the dagre library (`WorkflowGraph`),
-- expressions that are no paths, which the host compiles and which are a parameter, the classes of
-- nodes that are made at run time, dimensions, logging, distances, and zooming. Members that objects
-- inherit are no values here: ExecutionContext gives none for a path that reaches one.
pub mod Prelude
pub mod Text
pub mod Assoc
pub mod Value
pub mod Socket
pub mod Connection
pub mod Control
pub mod Node
pub mod Editor
pub mod Adapter
pub mod History
pub mod Commands
pub mod Store
pub mod NodeHelpers
pub mod Geometry
pub mod GraphUtils
pub mod Tests
pub mod Expression
pub mod Progress
pub mod Real
pub mod EditorCanvas
pub mod NodeRegistry
pub mod Suggestions
pub mod ExecutionContext
pub mod Connector
