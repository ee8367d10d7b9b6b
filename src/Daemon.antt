-- ===== src/Daemon.antt =====
-- sdk/security/boundary-daemon.ts
pub mod Audit
pub mod Protocol
pub mod Connection
pub mod Policy
pub mod Framing
pub mod Pending
pub mod Settled
mod Tests
