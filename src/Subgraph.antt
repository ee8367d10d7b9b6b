-- ===== src/Subgraph.antt =====
-- subgraph/src: the event handlers that index the protocol's contracts.
pub mod Map
pub mod Index
pub mod Schema
pub mod Ilrm
pub mod Assets
pub mod Treasury
pub mod Oracle
pub mod Bridge
mod Tests
