-- ===== src/CallGraph.antt =====
-- The call graph of checker/src/call_graph.rs. Sets and Petgraph are what it stands on, Nodes and Graphs its
-- data, and Building, Folding, Reducing, Types and CallSites its operations; the other children hold the proofs.
pub mod Sets
pub mod Nodes
pub mod Petgraph
pub mod Filtering
pub mod Folding
pub mod Reaching
pub mod Condensing
pub mod Graphs
pub mod Building
pub mod Reducing
pub mod Marking
pub mod Walks
pub mod Folded
pub mod Deduplicated
pub mod Cleaned
pub mod Sliced
pub mod ListGraph
pub mod Invariant
pub mod Built
pub mod EdgeTypes
mod Tests
pub mod Types
pub mod Equivalence
pub mod Derived
pub mod Relations
pub mod CallSites
pub mod Indexed
pub mod Ranged
mod TypeTests
