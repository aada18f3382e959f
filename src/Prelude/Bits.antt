-- ===== src/Prelude/Bits.antt =====
-- Shifts, masks and `|` of disjoint fields as arithmetic, at every width.
use Prim.Native.Nat.{
  ℕ, zero, suc, ◌+◌, ◌-◌, ◌*◌, ◌/◌, ◌%◌, ◌^◌, ◌≤◌, ◌<◌, min, max, bit_and, bit_or, bit_and-bitwise,
  bit_or-bitwise, ◌∣◌,
}
use mathlib.Core.Path.{◌≡◌, refl, sym, ap, ◌∙◌}
use native.Mathlib.Nat.{pow-suc, one-le-pow, mod-lt, div-add-mod', mod-mod_of_dvd}
use native.Mathlib.Omega.{arith}
use wire_bonding_ultra.Prelude.Digits.{bitwise_step}

pub zero-bit_or : (y : ℕ) → bit_or 0 y ≡ y
zero-bit_or y = bit_or-bitwise 0 y

-- `0 & y` is 0.
and_of_zero : (y : ℕ) → 0 ≡ bit_and 0 y
and_of_zero y = sym (bit_and-bitwise 0 y)

pub bit_and_step : (x y : ℕ) → bit_and x y ≡ bit_and (x / 2) (y / 2) * 2 + min (x % 2) (y % 2)
bit_and_step (suc x) y =
    bit_and-bitwise (suc x) y
    ∙ bitwise_step (λ t. zero) min x y
    ∙ ap (λ t. t * 2 + min (suc x % 2) (y % 2)) (sym (bit_and-bitwise (suc x / 2) (y / 2)))
bit_and_step zero y = omega (arith, and_of_zero (y / 2), and_of_zero y)

pub bit_or_step : (x y : ℕ) → bit_or x y ≡ bit_or (x / 2) (y / 2) * 2 + max (x % 2) (y % 2)
bit_or_step (suc x) y =
    bit_or-bitwise (suc x) y
    ∙ bitwise_step (λ t. t) max x y
    ∙ ap (λ t. t * 2 + max (suc x % 2) (y % 2)) (sym (bit_or-bitwise (suc x / 2) (y / 2)))
bit_or_step zero y = omega (arith, zero-bit_or (y / 2), zero-bit_or y)

-- `x & 0`, by halving `x`.
and_with_zero : (x k : ℕ) → x ≤ k → 0 ≡ bit_and x 0
and_with_zero zero k low = refl
and_with_zero (suc x) zero low = absurd (omega arith)
and_with_zero (suc x) (suc k) low =
    omega (and_with_zero (suc x / 2) k (omega arith), bit_and_step (suc x) 0, arith)

bit_or-zero_fuel : (n a : ℕ) → a ≤ n → bit_or a 0 ≡ a
bit_or-zero_fuel n zero h = refl
bit_or-zero_fuel zero (suc a) h = absurd (omega arith)
bit_or-zero_fuel (suc n) (suc a) h =
    omega (arith, bit_or_step (suc a) 0, bit_or-zero_fuel n (suc a / 2) (omega arith))

pub double_pow : (q k : ℕ) → q * 2 ^ suc k ≡ q * 2 ^ k * 2
double_pow q k = omega (arith, ap (λ (t : ℕ). q * t) (pow-suc 2 k))

and_low : (k q r : ℕ) → r < 2 ^ k → bit_and (q * 2 ^ k + r) (2 ^ k - 1) ≡ r
and_low zero q r h = omega (arith, and_with_zero (q * 1 + r) (q * 1 + r) (omega arith))
and_low (suc k) q r h = ground (
  arith,
  double_pow q k,
  pow-suc 2 k,
  one-le-pow k 2 (omega arith),
  bit_and_step (q * 2 ^ suc k + r) (2 ^ suc k - 1),
  and_low k q (r / 2) (omega (arith, pow-suc 2 k)),
)

-- `x & (2 ^ k - 1)` is the remainder.
pub bit_and-mask : (k a : ℕ) → bit_and a (2 ^ k - 1) ≡ a % 2 ^ k
bit_and-mask k a =
    ap (λ t. bit_and t (2 ^ k - 1)) (sym (div-add-mod' a (2 ^ k)))
    ∙ and_low k (a / 2 ^ k) (a % 2 ^ k) (mod-lt a (one-le-pow k 2 (omega arith)))

-- `(q << k) | r` is a sum where `r` fits in `k` bits.
pub bit_or-add : (k q r : ℕ) → r < 2 ^ k → bit_or (q * 2 ^ k) r ≡ q * 2 ^ k + r
bit_or-add zero q r h = ground (arith, bit_or-zero_fuel (q * 1) (q * 1))
bit_or-add (suc k) q r h = ground (
  arith,
  double_pow q k,
  pow-suc 2 k,
  bit_or_step (q * 2 ^ suc k) r,
  bit_or-add k q (r / 2) (omega (arith, pow-suc 2 k)),
)

-- A remainder by `2 ^ k` of a 64-bit remainder, for a ring size that divides `2 ^ 64`.
pub mod-mod64 : (c a : ℕ) → c ∣ 2 ^ 64 → a % 2 ^ 64 % c ≡ a % c
mod-mod64 c a d = mod-mod_of_dvd c a d

-- `|` keeps high bits apart from low ones, stays in range, and loses no bit.
pub bit_or-fields :
    (k q r s : ℕ) → r < 2 ^ k → s < 2 ^ k → bit_or (q * 2 ^ k + r) s ≡ q * 2 ^ k + bit_or r s
bit_or-fields zero q zero zero hr hs =
    omega (arith, bit_or-zero_fuel (q * 1 + 0) (q * 1 + 0) (omega arith))
bit_or-fields zero q (suc r) s hr hs = absurd (omega arith)
bit_or-fields zero q zero (suc s) hr hs = absurd (omega arith)
bit_or-fields (suc k) q r s hr hs = ground (
  arith,
  double_pow q k,
  bit_or_step (q * 2 ^ suc k + r) s,
  bit_or_step r s,
  bit_or-fields k q (r / 2) (s / 2) (omega (arith, pow-suc 2 k)) (omega (arith, pow-suc 2 k)),
)

pub bit_or-lt : (k r s : ℕ) → r < 2 ^ k → s < 2 ^ k → bit_or r s < 2 ^ k
bit_or-lt zero zero zero hr hs = omega arith
bit_or-lt zero (suc r) s hr hs = absurd (omega arith)
bit_or-lt zero zero (suc s) hr hs = absurd (omega arith)
bit_or-lt (suc k) r s hr hs = omega (
  arith,
  pow-suc 2 k,
  bit_or_step r s,
  bit_or-lt k (r / 2) (s / 2) (omega (arith, pow-suc 2 k)) (omega (arith, pow-suc 2 k)),
)

pub le-bit_or : (k r s : ℕ) → r < 2 ^ k → s < 2 ^ k → (r ≤ bit_or r s) × (s ≤ bit_or r s)
le-bit_or zero zero zero hr hs = omega arith
le-bit_or zero (suc r) s hr hs = absurd (omega arith)
le-bit_or zero zero (suc s) hr hs = absurd (omega arith)
le-bit_or (suc k) r s hr hs = omega (
  arith,
  pow-suc 2 k,
  bit_or_step r s,
  le-bit_or k (r / 2) (s / 2) (omega (arith, pow-suc 2 k)) (omega (arith, pow-suc 2 k)),
)

bit_or_comm_fuel : (n a b : ℕ) → a ≤ n → b ≤ n → bit_or a b ≡ bit_or b a
bit_or_comm_fuel zero zero zero p q = refl
bit_or_comm_fuel zero zero (suc b) p q = absurd (omega arith)
bit_or_comm_fuel zero (suc a) b p q = absurd (omega arith)
bit_or_comm_fuel (suc n) a b p q = omega (
  arith,
  bit_or_step a b,
  bit_or_step b a,
  bit_or_comm_fuel n (a / 2) (b / 2) (omega arith) (omega arith),
)

pub bit_or_comm : (a b : ℕ) → bit_or a b ≡ bit_or b a
bit_or_comm a b = bit_or_comm_fuel (a + b) a b (omega arith) (omega arith)
