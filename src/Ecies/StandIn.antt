-- ===== src/Ecies/StandIn.antt =====
-- Small stand-ins for the libraries that sdk/ecies.ts calls, which obey their laws.
use ilr_module.Prelude.{
  ℕ, zero, suc, ◌+◌, ◌-◌, ◌*◌, ◌%◌, ◌≡◌, refl, sym, subst, ap, ap₂, ◌∙◌, List, [], ◌∷◌, ◌++◌, map,
  Bool, Option, some, length, length-append, length-replicate, get_or, take, take-length-append,
  replicate, All-append, arith,
}
use ilr_module.Hex.RoundTrip.{IsByte}
use ilr_module.Ecies.Crypto.{Crypto, Random, IsRandom, Bytes, Laws}

abbrev pub total : List ℕ → ℕ
total [] = 0
total (x ∷ xs) = x + total xs

-- A shift of each byte by the first byte of the key stands for the encryption.
abbrev pub shifted : List ℕ → List ℕ → List ℕ
shifted key plain = map (λ b. (b + get_or key 0 0) % 256) plain

abbrev pub unshifted : List ℕ → List ℕ → List ℕ
unshifted key sealed = map (λ b. (b + 256 - get_or key 0 0 % 256) % 256) sealed

abbrev pub libraries : Bool → Crypto
libraries has_subtle = record {
  has_subtle = has_subtle;
  get_public_key = λ a. some (4 ∷ total a % 256 ∷ []);
  get_shared_secret = λ a pb. some (4 ∷ (total a % 256 + get_or pb 1 0) % 256 ∷ []);
  subtle_hkdf = λ s t i. replicate 32 (get_or s 0 0);
  node_hkdf = λ s t i. replicate 32 (get_or s 0 0);
  subtle_encrypt = λ key iv plain. some (shifted key plain ++ replicate 16 0);
  subtle_decrypt = λ key iv sealed. some (unshifted key (take (length sealed - 16) sealed));
  node_encrypt = λ key iv plain. some (shifted key plain, replicate 16 0);
  node_decrypt = λ key iv sealed tag. some (unshifted key sealed);
  text_encode = λ t. map (λ c. c % 256) t;
}

mod-Bytes : (xs : List ℕ) (f : ℕ → ℕ) → Bytes (map (λ x. f x % 256) xs)
mod-Bytes [] f = tt
mod-Bytes (x ∷ xs) f = (omega arith, mod-Bytes xs f)

unshifted-shifted : (key plain : List ℕ) → Bytes plain → unshifted key (shifted key plain) ≡ plain
unshifted-shifted key [] h = refl
unshifted-shifted key (b ∷ bs) h =
    ap₂ (λ (x : ℕ) (t : List ℕ). x ∷ t) (omega (arith, h.0)) (unshifted-shifted key bs h.1)

zeros : Bytes (replicate 16 0)
zeros = omega arith

tag_off : (xs : List ℕ) → take (length (xs ++ replicate 16 0) - 16) (xs ++ replicate 16 0) ≡ xs
tag_off xs =
    ap (λ n. take n (xs ++ replicate 16 0)) (omega (arith, length-append xs (replicate 16 0)))
    ∙ take-length-append xs (replicate 16 0)

pub some_inj : (a b : List ℕ) → ◌≡◌ {A = Option (List ℕ)} (some a) (some b) → a ≡ b
some_inj a b e = cc

pub libraries-Laws : (has_subtle : Bool) → Laws (libraries has_subtle)
libraries-Laws has_subtle = record {
  public_bytes = λ a pa e. subst Bytes (some_inj _ _ e) (omega arith);
  shared = λ a pa b pb ea eb. (
    4 ∷ (total a % 256 + total b % 256) % 256 ∷ [],
    ap (λ (t : List ℕ). some (4 ∷ (total a % 256 + get_or t 1 0) % 256 ∷ []))
        (sym (some_inj _ _ eb)),
    ap (λ (t : List ℕ). some (4 ∷ (total b % 256 + get_or t 1 0) % 256 ∷ []))
          (sym (some_inj _ _ ea))
        ∙ ap (λ (n : ℕ). some (4 ∷ n ∷ [])) (omega arith),
  );
  encoded_bytes = λ t. mod-Bytes t (λ c. c);
  subtle_hkdf_length = λ s t i. length-replicate 32 (get_or s 0 0);
  node_hkdf_length = λ s t i. length-replicate 32 (get_or s 0 0);
  subtle_gcm = λ key iv plain lk li b. (
    shifted key plain ++ replicate 16 0,
    refl,
    ap some (ap (unshifted key) (tag_off (shifted key plain)) ∙ unshifted-shifted key plain b),
    All-append IsByte (shifted key plain) (replicate 16 0)
        (mod-Bytes plain (λ x. x + get_or key 0 0)) zeros,
    omega (arith, length-append (shifted key plain) (replicate 16 0)),
  );
  node_gcm = λ key iv plain lk li b. (
    shifted key plain,
    replicate 16 0,
    refl,
    ap some (unshifted-shifted key plain b),
    mod-Bytes plain (λ x. x + get_or key 0 0),
    zeros,
    refl,
  );
}

abbrev pub random : Random
random k n = replicate n ((7 * k + 3) % 256)

replicate-Bytes : (n b : ℕ) → IsByte b → Bytes (replicate n b)
replicate-Bytes zero b h = tt
replicate-Bytes (suc n) b h = (h, replicate-Bytes n b h)

pub random-IsRandom : IsRandom random
random-IsRandom = record {
  drawn_length = λ k n. length-replicate n ((7 * k + 3) % 256);
  drawn_bytes = λ k n. replicate-Bytes n ((7 * k + 3) % 256) (omega arith);
}
