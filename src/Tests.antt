-- ===== src/Tests.antt =====
-- The theorems at concrete inputs: graphs, editors, histories, sessions and runs.
mod Graphs
mod Canvas
mod Undoing
mod Elements
mod Loading
mod Expressions
mod Contexts
mod Suggesting
mod Sessions
mod Runs
mod Dragging
mod Executing
