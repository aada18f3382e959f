-- ===== src/Ringbuf/Tagged/Pow2.antt =====
-- roundUpPow2 gives the least power of two that is not below its argument.
use wire_bonding_ultra.Prelude.{
  ℕ, zero, suc, ◌+◌, ◌-◌, ◌*◌, ◌/◌, ◌%◌, ◌^◌, ◌≤◌, ◌<◌, bit_or, ◌≡◌, refl, sym, ap, ◌∙◌, arith,
  dec_le,
}
use wire_bonding_ultra.Prelude.Bits.{bit_or-fields, bit_or-lt, le-bit_or}
use wire_bonding_ultra.Ringbuf.Tagged.{add64, sub64, smear, round_up_pow2, ring_size}
use Prim.Native.Nat.{max}
use native.Mathlib.Nat.{
  pow-suc, mod-eq_of_lt, one-le-pow, div-add-mod', mod-lt, pow-le-pow_right, div-le_self,
  div-lt_iff_lt-mul, div-eq_of_lt-le,
}

-- The top `m` bits of an `n`-bit number are set.
record TopSet (m n v : ℕ) : Type 0 where
  below : v < 2 ^ n
  above : 2 ^ n ≤ v + 2 ^ (n - m)

pow-add : (a b : ℕ) → 2 ^ (a + b) ≡ 2 ^ a * 2 ^ b
pow-add zero b = ap (λ k. 2 ^ k) {y = b} (omega arith) ∙ omega arith
pow-add (suc a) b =
    ap (λ k. 2 ^ k) {y = suc (a + b)} (omega arith)
    ∙ omega (arith, pow-suc 2 (a + b), pow-suc 2 a, pow-add a b, ap (λ t. t * 2 ^ b) (pow-suc 2 a))

-- A quotient is at least what fits below it.
le-div : (a p x : ℕ) → 0 < p → p * x ≤ a → x ≤ a / p
le-div a p x pos h = grind arith

quotient_long : (p x y v : ℕ) → 0 < p → y + x ≡ p * x → p * (y + x) ≤ v + (y + x) → y ≤ v / p
quotient_long p x y v pos e h = le-div v p y pos (omega arith)

quotient_short : (p l v : ℕ) → 0 < l → l < p → p * l ≤ v + l → l ≤ v / p + 1
quotient_short p zero v h lt le = absurd (omega arith)
quotient_short p (suc l) v h lt le = omega (arith, le-div v p l (omega arith) (omega arith))

pow_pos : (k : ℕ) → 0 < 2 ^ k
pow_pos k = one-le-pow k 2 (omega arith)

-- Where the top `m` of `m + l` bits are set, the quotient by `2 ^ m` has the same of `l` bits.
quotient_top : (m l v : ℕ) → 2 ^ m * 2 ^ l ≤ v + 2 ^ l → 2 ^ l ≤ v / 2 ^ m + 2 ^ (l - m)
quotient_top m l v h = elim (dec_le m l) [
  | yes le ↦
      let e : 2 ^ l ≡ 2 ^ m * 2 ^ (l - m) =
        ap (λ k. 2 ^ k) {y = m + (l - m)} (omega arith) ∙ pow-add m (l - m) in
      let small : 2 ^ (l - m) ≤ 2 ^ l = pow-le-pow_right {n = 2} (omega arith) (omega arith) in
      let split : 2 ^ l - 2 ^ (l - m) + 2 ^ (l - m) ≡ 2 ^ l = omega arith in
      omega (
        arith,
        quotient_long (2 ^ m) (2 ^ (l - m)) (2 ^ l - 2 ^ (l - m)) v (pow_pos m) (split ∙ e)
            (rw split h),
      )
  | no gt ↦
      let e : 2 ^ (l - m) ≡ 1 = ap (λ k. 2 ^ k) {y = 0} (omega arith) in
      rw e (
        quotient_short (2 ^ m) (2 ^ l) v (pow_pos l)
          (omega (
            arith,
            pow-suc 2 l,
            pow-le-pow_right {n = 2} (omega arith) {i = suc l} {j = m} (omega arith),
            pow_pos l,
          ))
          h)
]

quotient_eq : (p l v : ℕ) → 0 < p → v < p * l → p * l ≤ v + l → v / l + 1 ≡ p
quotient_eq zero l v pos below above = absurd (omega arith)
quotient_eq (suc p) l v pos below above =
    omega (arith, div-eq_of_lt-le {k = p} l {m = v} (omega arith) (omega arith))

smear_short :
    (m l v : ℕ)
    → v < 2 ^ m * 2 ^ l
    → 2 ^ m * 2 ^ l ≤ v + 2 ^ l
    → (smear m v < 2 ^ m * 2 ^ l) × (2 ^ m * 2 ^ l ≤ smear m v + 2 ^ (l - m))
smear_short m l v below above = rw split (omega (arith, range, high, filled, whole))
  where
    top : v / 2 ^ l + 1 ≡ 2 ^ m
    top = quotient_eq (2 ^ m) (2 ^ l) v (pow_pos m) below above

    rest : v % 2 ^ l < 2 ^ l
    rest = mod-lt v (pow_pos l)

    shifted : v / 2 ^ m < 2 ^ l
    shifted = (div-lt_iff_lt-mul (pow_pos m)).1 (omega arith)

    whole : v / 2 ^ l * 2 ^ l + 2 ^ l ≡ 2 ^ m * 2 ^ l
    whole = omega (arith, ap (λ t. t * 2 ^ l) top)

    range : bit_or (v % 2 ^ l) (v / 2 ^ m) < 2 ^ l
    range = bit_or-lt l _ _ rest shifted

    high : v / 2 ^ m ≤ bit_or (v % 2 ^ l) (v / 2 ^ m)
    high = (le-bit_or l _ _ rest shifted).1

    filled : 2 ^ l ≤ v / 2 ^ m + 2 ^ (l - m)
    filled = quotient_top m l v above

    split : smear m v ≡ v / 2 ^ l * 2 ^ l + bit_or (v % 2 ^ l) (v / 2 ^ m)
    split =
        ap (λ t. bit_or t (v / 2 ^ m)) (sym (div-add-mod' v (2 ^ l)))
        ∙ bit_or-fields l (v / 2 ^ l) (v % 2 ^ l) (v / 2 ^ m) rest shifted

-- One smear doubles the number of set bits at the top.
smear-TopSet : (m n v : ℕ) → TopSet m n v → TopSet (m + m) n (smear m v)
smear-TopSet m n v t = elim (dec_le m n) [
  | yes le ↦
      let e : 2 ^ n ≡ 2 ^ m * 2 ^ (n - m) =
        ap (λ k. 2 ^ k) {y = m + (n - m)} (omega arith) ∙ pow-add m (n - m) in
      let (below, above) = smear_short m (n - m) v (omega arith) (omega arith) in
      record {
        below = omega arith;
        above =
            omega
              (arith, e, above, ap (λ k. 2 ^ k) {x = n - m - m} {y = n - (m + m)} (omega arith));
      }
  | no gt ↦ record {
    below = bit_or-lt n v (v / 2 ^ m) t.below (omega (arith, div-le_self v (2 ^ m)));
    above = omega (
      arith,
      ap (λ k. 2 ^ k) {x = n - m} {y = 0} (omega arith),
      (le-bit_or n v (v / 2 ^ m) t.below (omega (arith, t.below, div-le_self v (2 ^ m)))).0,
      pow_pos (n - (m + m)),
    );
  }
]

-- Every positive number has a length in bits.
bit_length : (f v : ℕ) → v < f → 0 < v → (n : ℕ) × (2 ^ n ≤ v) × (v < 2 ^ suc n)
bit_length zero v h pos = absurd (omega arith)
bit_length (suc f) v h pos = elim (dec_le v 1) [
  | yes one ↦ (0, omega arith, omega arith)
  | no more ↦
      let (n, lo, hi) = bit_length f (v / 2) (omega arith) (omega arith) in
      (suc n, omega (arith, pow-suc 2 n), omega (arith, pow-suc 2 (suc n)))
]

-- The six shifts of roundUpPow2 set every bit below the top one.
smear_all :
    (n v : ℕ)
    → n ≤ 64
    → TopSet 1 n v
    → smear 32 (smear 16 (smear 8 (smear 4 (smear 2 (smear 1 v))))) + 1 ≡ 2 ^ n
smear_all n v h t =
    let full : TopSet 64 n (smear 32 (smear 16 (smear 8 (smear 4 (smear 2 (smear 1 v)))))) =
      smear-TopSet 32 n _ (
        smear-TopSet 16 n _
          (smear-TopSet 8 n _ (smear-TopSet 4 n _ (smear-TopSet 2 n _ (smear-TopSet 1 n v t))))) in
    omega (arith, full.below, full.above, ap (λ k. 2 ^ k) {x = n - 64} {y = 0} (omega arith))

exponent_bound : (n u : ℕ) → 2 ^ n ≤ u → u < 2 ^ 63 → suc n ≤ 63
exponent_bound n u lo hi = elim (dec_le (suc n) 63) [
  | yes le ↦ le
  | no gt ↦
      absurd (omega (arith, pow-le-pow_right {n = 2} (omega arith) {i = 63} {j = n} (omega arith)))
]

round_up_at :
    (n u : ℕ)
    → 2 ^ n ≤ suc u
    → suc u < 2 ^ suc n
    → suc n ≤ 63
    → round_up_pow2 (suc (suc u)) ≡ 2 ^ suc n
unfolding round_up_pow2
round_up_at n u lo hi short =
    ap (λ t. add64 (smear 32 (smear 16 (smear 8 (smear 4 (smear 2 (smear 1 t)))))) 1)
      {x = sub64 (suc (suc u)) 1} {y = suc u} (omega (arith, small))
    ∙ ap (λ t. t % 2 ^ 64) (smear_all (suc n) (suc u) (omega arith) top)
    ∙ mod-eq_of_lt (omega (arith, small))
  where
    small : 2 ^ suc n ≤ 2 ^ 63
    small = pow-le-pow_right {n = 2} (omega arith) short

    top : TopSet 1 (suc n) (suc u)
    top = record {
      below = hi;
      above = omega (arith, lo, pow-suc 2 n, ap (λ k. 2 ^ k) {x = suc n - 1} {y = n} (omega arith));
    }

-- Between 1 and 2 ^ 63 the result is the least power of two that is not below the argument.
pub round_up_pow2_least :
    (v : ℕ)
    → 1 ≤ v
    → v ≤ 2 ^ 63
    → (n : ℕ) × (n ≤ 63) × (round_up_pow2 v ≡ 2 ^ n) × (v ≤ 2 ^ n) × (2 ^ n < 2 * v)
unfolding round_up_pow2
round_up_pow2_least zero lo hi = absurd (omega arith)
round_up_pow2_least (suc zero) lo hi = (0, omega arith, refl, omega arith, omega arith)
round_up_pow2_least (suc (suc u)) lo hi =
    let (n, below, above) = bit_length (suc (suc u)) (suc u) (omega arith) (omega arith) in
    let short : suc n ≤ 63 = exponent_bound n (suc u) below (omega arith) in
    (suc n, short, round_up_at n u below above short, above, omega (arith, pow-suc 2 n))

-- A ring is given the least power of two that is neither below 2 nor below the capacity.
pub ring_size_least :
    (c : ℕ)
    → c ≤ 2 ^ 63
    → (n : ℕ) × (1 ≤ n)
      × (n ≤ 63)
      × (ring_size c ≡ 2 ^ n)
      × (max c 2 ≤ 2 ^ n)
      × (2 ^ n < 2 * max c 2)
unfolding ring_size
ring_size_least zero h =
    (1, omega arith, omega arith, unfold round_up_pow2 in refl, omega arith, omega arith)
ring_size_least (suc c) h = size_cases (round_up_pow2_least (suc c) (omega arith) h)
  where
    size_cases :
        ((n : ℕ) × (n ≤ 63)
          × (round_up_pow2 (suc c) ≡ 2 ^ n)
          × (suc c ≤ 2 ^ n)
          × (2 ^ n < 2 * suc c))
        → (n : ℕ) × (1 ≤ n)
          × (n ≤ 63)
          × (ring_size (suc c) ≡ 2 ^ n)
          × (max (suc c) 2 ≤ 2 ^ n)
          × (2 ^ n < 2 * max (suc c) 2)
    size_cases (zero, few, eq, above, near) =
        (1, omega arith, omega arith, ground (arith, eq), omega arith, omega arith)
    size_cases (suc n, few, eq, above, near) = (
      suc n,
      omega arith,
      few,
      ground (arith, eq, pow-suc 2 n, pow_pos n),
      omega (arith, above, pow-suc 2 n, pow_pos n),
      omega (arith, near),
    )
