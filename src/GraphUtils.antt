-- ===== src/GraphUtils.antt =====
-- utils/graph_utils.js: the structural graph of a workflow, without the edges that close a cycle.
pub mod Connections
pub mod BackEdges
pub mod Predecessors
pub mod Results
