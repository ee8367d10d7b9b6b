-- ===== src/Ecies.antt =====
-- sdk/ecies.ts
pub mod Crypto
pub mod Cipher
pub mod RoundTrip
pub mod Multi
pub mod StandIn
mod Tests
