-- ===== src/Siem.antt =====
-- sdk/security/boundary-siem.ts
pub mod Events
pub mod Cef
pub mod Queue
pub mod Post
pub mod Client
pub mod Connection
pub mod Runs
pub mod Batches
pub mod Bounds
pub mod Reconnects
mod Tests
