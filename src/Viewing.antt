-- ===== src/Viewing.antt =====
-- sdk/viewing-keys.ts
pub mod Services
pub mod Escrow
pub mod Holders
pub mod Creation
pub mod Reveal
mod Tests
