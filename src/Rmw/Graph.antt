-- ===== src/Rmw/Graph.antt =====
-- The graph cache of the RMW layer: include/openrtdds/rmw/graph_cache.hpp and
-- src/rmw/graph_cache.cpp.
pub mod Tables
pub mod Records
pub mod Counts
pub mod Cache
pub mod Received
pub mod Remote
pub mod Sent
pub mod Owners
pub mod Incoming
pub mod Preserved
pub mod Endpoints
pub mod Foreign
pub mod Runs
pub mod Entries
pub mod Once
mod Tests
