-- ===== src/Bls/Tests.antt =====
-- Runs of the key sharing over the residues of 7.
use mathlib.Core.List.{Memᴰ}
use native.Mathlib.Omega.{arith}
use ilr_module.Prelude.{ℕ, ◌≡◌, ◌^◌, ◌%◌, refl, List, [], ◌∷◌, replicate, some, false}
use ilr_module.Bls.{reconstruct_secret, mod_pow}
use ilr_module.Bls.Power.{mod_pow-eq}
use ilr_module.Bls.Envelope.{
  encrypt_viewing_key, decrypt_viewing_key, decrypt_viewing_key-encrypt_viewing_key,
}
use ilr_module.Ecies.StandIn.{libraries, libraries-Laws}
use ilr_module.Bls.Reconstruct.{reconstruct_secret-generate_key_shares}
use ilr_module.Bls.StandIn.{
  curve, curve-IsScalarOrder, random, bytes_of, share, dealing, generate_run, bytes_of-IsByte,
  secret_below,
}

reconstruct_secret-generate_key_shares_example :
    reconstruct_secret curve (share 4 2 ∷ share 1 1 ∷ []) 2 ≡ some (bytes_of 3)
reconstruct_secret-generate_key_shares_example =
    reconstruct_secret-generate_key_shares curve random 2 4 (bytes_of 3) dealing
      (share 4 2 ∷ share 1 1 ∷ []) curve-IsScalarOrder (omega arith)
      (bytes_of-IsByte 3 31 (omega arith)) refl secret_below generate_run
      (Memᴰ.tail (Memᴰ.tail (Memᴰ.tail (Memᴰ.head refl))), (Memᴰ.head refl, tt)) (omega arith)
      (((λ e. omega (arith, e)), tt), (tt, tt))

mod_pow-eq_example : mod_pow 12 45 97 ≡ (12 ^ 45) % 97
mod_pow-eq_example = mod_pow-eq 12 45 97 (omega arith)

sha256_of : List ℕ → List ℕ
sha256_of bytes = replicate 32 5

decrypt_viewing_key-encrypt_viewing_key_example :
    (encrypted : List ℕ) × (encrypt_viewing_key
        (libraries false)
        sha256_of
        (replicate 12 9)
        (1 ∷ 2 ∷ [])
        (bytes_of 3)
      ≡ some encrypted)
    × (decrypt_viewing_key
          (libraries false)
          sha256_of
          curve
          encrypted
          (share 4 2 ∷ share 1 1 ∷ [])
          2
        ≡ some (1 ∷ 2 ∷ []))
unfolding sha256_of
decrypt_viewing_key-encrypt_viewing_key_example =
    decrypt_viewing_key-encrypt_viewing_key (libraries false) sha256_of (libraries-Laws false) curve
      random 2 4 (bytes_of 3) dealing (share 4 2 ∷ share 1 1 ∷ []) (replicate 12 9) (1 ∷ 2 ∷ [])
      curve-IsScalarOrder (omega arith) (bytes_of-IsByte 3 31 (omega arith)) refl secret_below
      generate_run (Memᴰ.tail (Memᴰ.tail (Memᴰ.tail (Memᴰ.head refl))), (Memᴰ.head refl, tt))
      (omega arith) (((λ e. omega (arith, e)), tt), (tt, tt)) refl refl (omega arith)
