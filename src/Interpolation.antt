-- ===== src/Interpolation.antt =====
-- Interpolation at 0 in a field: the mathematics that the secret sharing of sdk/shamir.ts and the
-- key reconstruction of sdk/threshold-bls.ts rest on. Nothing here models code.
pub mod Field
pub mod Weights
pub mod Lagrange
