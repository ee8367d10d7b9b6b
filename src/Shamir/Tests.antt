-- ===== src/Shamir/Tests.antt =====
-- Runs of the secret sharing on a concrete secret.
use mathlib.Core.List.{Memᴰ}
use ilr_module.Prelude.{ℕ, ◌≡◌, ◌≤◌, ◌<◌, List, [], ◌∷◌, refl, arith, All, map, length}
use ilr_module.Shamir.Result.{ok}
use ilr_module.Shamir.Gf256.{
  construct, evaluate_polynomial, gf_multiply, gf_multiply_no_table, gf_divide,
}
use ilr_module.Shamir.Gf256.Equivalence.{gf_multiply-eq-no_table}
use ilr_module.Shamir.Gf256.Division.{gf_divide-gf_multiply}
use ilr_module.Shamir.Scheme.{Share, split, combine}
use ilr_module.Shamir.RoundTrip.{combine-split, DistinctIndices}
use ilr_module.Shamir.Checks.{combine-checks, split-indices, split-combine, indices_from}

abbrev secret : List ℕ
secret = 1 ∷ 250 ∷ 77 ∷ []

-- The bytes drawn for the byte at position `k`.
abbrev random : ℕ → ℕ → List ℕ
random k m = 99 ∷ 5 ∷ []

abbrev first : Share
first = record { index = 1; payload = 103 ∷ 156 ∷ 43 ∷ [] }

abbrev second : Share
second = record { index = 2; payload = 211 ∷ 40 ∷ 159 ∷ [] }

abbrev third : Share
third = record { index = 3; payload = 181 ∷ 78 ∷ 249 ∷ [] }

abbrev fourth : Share
fourth = record { index = 4; payload = 198 ∷ 61 ∷ 138 ∷ [] }

abbrev shares : List Share
shares = first ∷ second ∷ third ∷ fourth ∷ []

abbrev chosen : List Share
chosen = fourth ∷ first ∷ second ∷ []

split_run : split construct random secret 4 3 ≡ ok shares
unfolding split evaluate_polynomial gf_multiply construct
split_run = refl

combine_run : combine construct chosen ≡ ok secret
unfolding combine gf_divide gf_multiply construct
combine_run = refl

combine-split_example : combine construct chosen ≡ ok secret
combine-split_example =
    combine-split random secret 4 3 shares chosen (λ k m. (omega arith, (omega arith, tt)))
      (omega arith, (omega arith, (omega arith, tt))) split_run
      (
        Memᴰ.tail (Memᴰ.tail (Memᴰ.tail (Memᴰ.head refl))),
        (Memᴰ.head refl, (Memᴰ.tail (Memᴰ.head refl), tt)),
      )
      (
        ((λ e. omega (arith, e)), ((λ e. omega (arith, e)), tt)),
        (((λ e. omega (arith, e)), tt), (tt, tt)),
      )
      (omega arith)

gf_multiply-eq-no_table_example : gf_multiply construct 87 131 ≡ gf_multiply_no_table 87 131
gf_multiply-eq-no_table_example = gf_multiply-eq-no_table 87 131 (omega arith) (omega arith)

gf_divide-gf_multiply_example : gf_divide construct (gf_multiply construct 87 131) 131 ≡ ok 87
gf_divide-gf_multiply_example =
    gf_divide-gf_multiply 87 131 (omega arith) (omega arith) (omega arith)

combine-checks_example :
    (2 ≤ length chosen)
    × All (λ (s : Share). length s.payload ≡ length secret) chosen
    × DistinctIndices chosen
combine-checks_example = combine-checks construct chosen secret combine_run

split-indices_example :
    (2 ≤ 3)
    × (3 ≤ 4)
    × (4 ≤ 255)
    × (0 < length secret)
    × (map (λ (s : Share). s.index) shares ≡ indices_from 4 1)
split-indices_example = split-indices construct random secret 4 3 shares split_run

split-combine_example :
    (dealt : List Share) × ((split construct random secret 4 3 ≡ ok dealt)
      × ((length dealt ≡ 4) × (combine construct dealt ≡ ok secret)))
split-combine_example =
    split-combine random secret 4 3 (λ k m. (omega arith, (omega arith, tt)))
      (omega arith, (omega arith, (omega arith, tt))) (omega arith) (omega arith) (omega arith)
      (omega arith)
