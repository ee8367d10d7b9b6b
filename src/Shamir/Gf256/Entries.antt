-- ===== src/Shamir/Gf256/Entries.antt =====
-- What the constructor's tables hold, by evaluation of each entry.
use Prim.Native.Nat.{bit_xor}
use ilr_module.Prelude.{
  ℕ, ◌+◌, ◌-◌, ◌%◌, ◌<◌, ◌≡◌, refl, Bool, true, ◌&&◌, ltb, ◌==◌, arith, every_below, every_below-at,
  subst,
}
use ilr_module.Prelude.Bits.{xor-lt_byte}
use ilr_module.Shamir.Gf256.{Tables, construct, log_of, exp_of, double}

-- Multiplication by the generator 3, as the constructor does it.
unfoldable pub triple : ℕ → ℕ
triple v = bit_xor v (double v)

sub_add : (a : ℕ) → 0 < a → a - 1 + 1 ≡ a
sub_add a p = omega arith

-- Row `a`: the entries at `a + 1` of the logarithms and at `a` of the powers.
row : Tables → ℕ → Bool
row t a =
    (exp_of t (log_of t (a + 1)) == a + 1)
    && ltb (log_of t (a + 1)) 255
    && (log_of t (exp_of t a) == a)
    && ltb 0 (exp_of t a)
    && ltb (exp_of t a) 256
    && (exp_of t ((a + 1) % 255) == triple (exp_of t a))

rows : Tables → Bool
rows t = every_below 255 (row t)

rows_hold : rows construct ≡ true
unfolding rows row construct every_below double triple
rows_hold = refl

row_holds : (a : ℕ) → a < 255 → row construct a ≡ true
unfolding rows
row_holds a h = every_below-at 255 (row construct) a rows_hold h

exp_log_next : (a : ℕ) → a < 255 → exp_of construct (log_of construct (a + 1)) ≡ a + 1
unfolding row
exp_log_next a h = ground (arith, row_holds a)

log-lt_next : (a : ℕ) → a < 255 → log_of construct (a + 1) < 255
unfolding row
log-lt_next a h = ground (arith, row_holds a)

pub exp_log : (a : ℕ) → 0 < a → a < 256 → exp_of construct (log_of construct a) ≡ a
exp_log a p h =
    subst (λ (x : ℕ). exp_of construct (log_of construct x) ≡ x) (sub_add a p)
      (exp_log_next (a - 1) (omega arith))

pub log-lt : (a : ℕ) → 0 < a → a < 256 → log_of construct a < 255
log-lt a p h =
    subst (λ (x : ℕ). log_of construct x < 255) (sub_add a p) (log-lt_next (a - 1) (omega arith))

pub log_exp : (a : ℕ) → a < 255 → log_of construct (exp_of construct a) ≡ a
unfolding row
log_exp a h = ground (arith, row_holds a)

pub exp_pos : (a : ℕ) → a < 255 → 0 < exp_of construct a
unfolding row
exp_pos a h = ground (arith, row_holds a)

pub exp-lt : (a : ℕ) → a < 255 → exp_of construct a < 256
unfolding row
exp-lt a h = ground (arith, row_holds a)

pub exp_next : (a : ℕ) → a < 255 → exp_of construct ((a + 1) % 255) ≡ triple (exp_of construct a)
unfolding row
exp_next a h = ground (arith, row_holds a)

pub exp_zero : exp_of construct 0 ≡ 1
unfolding construct
exp_zero = refl

double_row : ℕ → ℕ → Bool
double_row a b = double (bit_xor a b) == bit_xor (double a) (double b)

double_rows : every_below 256 (λ a. every_below 256 (double_row a)) ≡ true
unfolding every_below double double_row
double_rows = refl

-- Doubling is linear over the exclusive or.
pub double-xor :
    (a b : ℕ) → a < 256 → b < 256 → double (bit_xor a b) ≡ bit_xor (double a) (double b)
unfolding double_row
double-xor a b p q = ground (
  arith,
  every_below-at 256 (double_row a) b
      (every_below-at 256 (λ x. every_below 256 (double_row x)) a double_rows p) q,
)

double_bytes : every_below 256 (λ a. ltb (double a) 256) ≡ true
unfolding every_below double
double_bytes = refl

pub double-lt : (a : ℕ) → a < 256 → double a < 256
double-lt a p = ground (arith, every_below-at 256 (λ x. ltb (double x) 256) a double_bytes p)

pub triple-lt : (a : ℕ) → a < 256 → triple a < 256
unfolding triple
triple-lt a p = xor-lt_byte a (double a) p (double-lt a p)
