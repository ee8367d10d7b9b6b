-- ===== src/Shamir/Result.antt =====
-- The errors that sdk/shamir.ts throws, and the result of a call that may throw.

pub data ShamirError : Type 0 where
  threshold_too_small threshold_exceeds_shares too_many_shares empty_secret : ShamirError
  too_few_shares length_mismatch duplicate_indices division_by_zero : ShamirError

pub data Result {ℓ} (A : Type ℓ) : Type ℓ where
  ok : A → Result A
  err : ShamirError → Result A

infixl 5 ◌>>=◌ ◌>>◌
abbrev pub ◌>>=◌ {ℓ κ} : {A : Type ℓ} {B : Type κ} → Result A → (A → Result B) → Result B
ok a >>= f = f a
err e >>= f = err e

abbrev pub ◌>>◌ {ℓ κ} : {A : Type ℓ} {B : Type κ} → Result A → Result B → Result B
m >> k = m >>= λ _. k
