-- ===== src/Bls.antt =====
-- The key sharing of sdk/threshold-bls.ts: numbers as bytes, modular powers, and the shares. An
-- exception is `none`. A bigint is a natural number here: none of the code's is negative.
mod Numbers
mod Power
mod Residues
mod Coefficient
mod Dealing
pub mod Codec
pub mod Reconstruct
pub mod Envelope
pub mod Feldman
pub mod Signing
pub mod Aggregate
pub mod Warrant
mod StandIn
mod Tests
mod SigningTests
use ilr_module.Prelude.{
  ℕ, zero, suc, ◌+◌, ◌-◌, ◌*◌, ◌/◌, ◌%◌, List, [], ◌∷◌, map, Bool, true, false, ◌||◌, Option, none,
  some, length, take, get_or, ltb, ◌==◌, if◌then◌else◌,
}

pub record KeyShare : Type 0 where
  pub index : ℕ
  pub secret_share : List ℕ
  pub public_key : List ℕ

pub record DkgOutput : Type 0 where
  pub threshold : ℕ
  pub total_participants : ℕ
  pub shares : List KeyShare
  pub aggregated_public_key : List ℕ
  pub commitments : List (List ℕ)

-- What the code takes from the curve library: the order of the scalars, and the multiple of the
-- base point as compressed bytes, which throws on a scalar outside its range.
pub record Curve : Type 0 where
  pub order : ℕ
  pub multiply_base : ℕ → Option (List ℕ)

infixl 5 ◌>>=◌
abbrev pub ◌>>=◌ {ℓ κ} : {A : Type ℓ} {B : Type κ} → Option A → (A → Option B) → Option B
none >>= f = none
some a >>= f = f a

abbrev pub bls_scalar_size : ℕ
bls_scalar_size = 32

-- bytesToBigInt: a shift by 8 bits is a product with 256.
unfoldable pub bytes_loop : ℕ → List ℕ → ℕ
bytes_loop result [] = result
bytes_loop result (byte ∷ bytes) = bytes_loop (result * 256 + byte) bytes

unfoldable pub bytes_to_big_int : List ℕ → ℕ
bytes_to_big_int bytes = bytes_loop 0 bytes

-- bigIntToBytes: positions length - 1 down to 0; `acc` holds the positions already written.
unfoldable pub digits_loop : ℕ → ℕ → List ℕ → List ℕ
digits_loop zero remaining acc = acc
digits_loop (suc i) remaining acc = digits_loop i (remaining / 256) (remaining % 256 ∷ acc)

unfoldable pub big_int_to_bytes : ℕ → ℕ → List ℕ
big_int_to_bytes value size = digits_loop size value []

-- The loop of modPow on fuel.
unfoldable pub mod_pow_loop : ℕ → ℕ → ℕ → ℕ → ℕ → ℕ
mod_pow_loop zero result base exp m = result
mod_pow_loop (suc fuel) result base zero m = result
mod_pow_loop (suc fuel) result base (suc e) m =
    mod_pow_loop fuel (if (suc e % 2) == 1 then (result * base) % m else result) ((base * base) % m)
      (suc e / 2) m

-- The exponent is halved at each turn, so it is fuel enough.
unfoldable pub mod_pow : ℕ → ℕ → ℕ → ℕ
mod_pow base exp m = mod_pow_loop exp 1 (base % m) exp m

unfoldable pub mod_inverse : ℕ → ℕ → ℕ
mod_inverse a m = mod_pow a (m - 2) m

unfoldable pub polynomial_loop : ℕ → ℕ → List ℕ → ℕ → ℕ → ℕ
polynomial_loop order x [] result power = result
polynomial_loop order x (coef ∷ coefs) result power =
    polynomial_loop order x coefs ((result + coef * power) % order) ((power * x) % order)

unfoldable pub evaluate_polynomial : ℕ → List ℕ → ℕ → ℕ
evaluate_polynomial order coefficients x = polynomial_loop order x coefficients 0 1

-- An index is a JavaScript number and so below `order`: the difference j - i + order is not
-- negative, and it is written j + order - i.
unfoldable pub lagrange_loop : ℕ → ℕ → List ℕ → ℕ → ℕ → (ℕ × ℕ)
lagrange_loop order i [] numerator denominator = (numerator, denominator)
lagrange_loop order i (j ∷ js) numerator denominator =
    if j == i
    then lagrange_loop order i js numerator denominator
    else lagrange_loop order i js ((numerator * j) % order)
        ((denominator * ((j + order - i) % order)) % order)

unfoldable pub compute_lagrange_coefficient : ℕ → ℕ → List ℕ → ℕ
compute_lagrange_coefficient order i all =
    let products = lagrange_loop order i all 1 1 in
    (products.0 * mod_inverse products.1 order) % order

-- `random k` is the k-th private key that the library draws.
unfoldable pub random_loop : (ℕ → List ℕ) → ℕ → ℕ → List ℕ
random_loop random i zero = []
random_loop random i (suc n) = bytes_to_big_int (random i) ∷ random_loop random (i + 1) n

abbrev first_of : (ℕ → List ℕ) → Option (List ℕ) → ℕ
first_of random none = bytes_to_big_int (random 0)
first_of random (some secret) = bytes_to_big_int secret

unfoldable pub generate_polynomial_coefficients : (ℕ → List ℕ) → ℕ → Option (List ℕ) → List ℕ
generate_polynomial_coefficients random threshold secret =
    first_of random secret ∷ random_loop random 1 (threshold - 1)

unfoldable pub commitments_of : Curve → List ℕ → Option (List (List ℕ))
commitments_of curve [] = some []
commitments_of curve (coef ∷ coefs) = curve.multiply_base coef >>= λ point.
    commitments_of curve coefs >>= λ points. some (point ∷ points)

-- The shares of participants i, i + 1, ...
unfoldable pub share_loop : Curve → List ℕ → ℕ → ℕ → Option (List KeyShare)
share_loop curve coefficients i zero = some []
share_loop curve coefficients i (suc n) =
    let value = evaluate_polynomial curve.order coefficients i in
    curve.multiply_base value >>= λ point. share_loop curve coefficients (i + 1) n >>= λ rest.
    some (
      record {
        index = i;
        secret_share = big_int_to_bytes value bls_scalar_size;
        public_key = point;
      }
      ∷ rest)

unfoldable pub generate_key_shares :
    Curve → (ℕ → List ℕ) → ℕ → ℕ → Option (List ℕ) → Option DkgOutput
generate_key_shares curve random threshold total master =
    if ltb threshold 1 || ltb total threshold
    then none
    else (let coefficients = generate_polynomial_coefficients random threshold master in
        commitments_of curve coefficients >>= λ commitments.
        share_loop curve coefficients 1 total >>= λ shares. some (record {
          threshold = threshold;
          total_participants = total;
          shares = shares;
          aggregated_public_key = get_or commitments 0 [];
          commitments = commitments;
        }))

unfoldable pub secret_loop : ℕ → List ℕ → List KeyShare → ℕ → ℕ
secret_loop order indices [] secret = secret
secret_loop order indices (share ∷ shares) secret = secret_loop order indices shares (
    (secret
      + compute_lagrange_coefficient order share.index indices
        * bytes_to_big_int share.secret_share)
    % order)

unfoldable pub reconstruct_secret : Curve → List KeyShare → ℕ → Option (List ℕ)
reconstruct_secret curve shares threshold =
    if ltb (length shares) threshold
    then none
    else (let chosen = take threshold shares in
        let secret = secret_loop curve.order (map (λ (s : KeyShare). s.index) chosen) chosen 0 in
        some (big_int_to_bytes secret bls_scalar_size))
