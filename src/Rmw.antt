-- ===== src/Rmw.antt =====
-- The portable core of the RMW layer.
pub mod Context
pub mod Slots
pub mod Operations
pub mod Invariant
pub mod Preserved
pub mod Nodes
pub mod Runs
pub mod Graph
mod Tests
