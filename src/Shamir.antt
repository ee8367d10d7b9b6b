-- ===== src/Shamir.antt =====
-- sdk/shamir.ts
pub mod Result
pub mod Gf256
pub mod Scheme
pub mod Commitment
mod Bytes
mod Basis
mod Values
pub mod Dealt
pub mod RoundTrip
pub mod Checks
mod Tests
