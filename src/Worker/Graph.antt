-- ===== src/Worker/Graph.antt =====
-- bf_worker/graph: the LangGraph state machine that fixes one bug: its state, the routing functions,
-- the graph that joins them, the nodes, and runs of the graph.
pub mod State
pub mod Routing
pub mod Builder
pub mod ReactLoop
pub mod World
pub mod Nodes
pub mod Run
