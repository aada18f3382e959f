-- ===== src/Prelude/Digits.antt =====
-- The recursion that the native `&`, `|` and `^` stand for, with one law for all three.
use Prim.Native.Nat.{ℕ, zero, suc, ◌+◌, ◌*◌, ◌/◌, ◌%◌, ◌≤◌, digits, bitwise}
use mathlib.Core.Path.{◌≡◌, refl, ap}
use native.Mathlib.Omega.{arith}

module _ (rest : ℕ → ℕ) (op : ℕ → ℕ → ℕ) where
  -- A first number that is not over the count has been read to its end.
  digits_enough :
      (x : ℕ) (k l : ℕ) (y : ℕ) → x ≤ k → x ≤ l → digits rest op k x y ≡ digits rest op l x y
  digits_enough zero zero zero y hk hl = refl
  digits_enough zero (suc k) zero y hk hl = refl
  digits_enough zero zero (suc l) y hk hl = refl
  digits_enough zero (suc k) (suc l) y hk hl = refl
  digits_enough (suc x) zero l y hk hl = absurd (omega arith)
  digits_enough (suc x) (suc k) zero y hk hl = absurd (omega arith)
  digits_enough (suc x) (suc k) (suc l) y hk hl =
      ap (λ t. t * 2 + op (suc x % 2) (y % 2))
        (digits_enough (suc x / 2) k l (y / 2) (omega arith) (omega arith))

  -- The lowest digit, of a first number that is not 0.
  pub bitwise_step :
      (x y : ℕ)
      → bitwise rest op (suc x) y ≡ bitwise rest op (suc x / 2) (y / 2) * 2 + op (suc x % 2) (y % 2)
  bitwise_step x y =
      ap (λ t. t * 2 + op (suc x % 2) (y % 2))
        (digits_enough (suc x / 2) x (suc x / 2) (y / 2) (omega arith) (omega arith))
