-- ===== src/Models/Arithmetic.antt =====
-- The machine's float64 for the signal path. The processor gives its operations, so they are a
-- parameter of the definitions that compute with floats; what a theorem relies on is its hypothesis.
use wire_bonding_ultra.Prelude.{ℕ, zero, suc, ◌*◌, ◌-◌, Bool}
use wire_bonding_ultra.Models.Float64.{Float64}

-- Go's `int`, for the one number of the signal path that can be negative.
pub data ℤ : Type 0 where
  pos : ℕ → ℤ
  negsuc : ℕ → ℤ

pub record Arithmetic {ℓ} : Type (ℓ + 1) where
  pub F : Type ℓ
  -- `float64(n)` of a number, and of the int32 that a bit pattern stands for.
  pub of_nat : ℕ → F
  pub of_int32 : ℕ → F
  -- See Float64.
  pub asdu_room : ℕ
  -- The literal `m * 10^-k`, rounded.
  pub literal : ℕ → ℕ → F
  pub pi : F
  -- The constant expression `12.0 * math.Pi / 180.0`.
  pub twelve_deg : F
  pub add : F → F → F
  pub sub : F → F → F
  pub mul : F → F → F
  pub div : F → F → F
  pub neg : F → F
  pub abs : F → F
  -- `a < b`, `a <= b` and `a == 0`, which are all false on a NaN.
  pub less : F → F → Bool
  pub at_most : F → F → Bool
  pub is_zero : F → Bool
  pub sqrt : F → F
  pub hypot : F → F → F
  pub atan2 : F → F → F
  pub cos : F → F
  pub sin : F → F
  pub exp : F → F
  -- `math.Round`, and the conversion to int.
  pub round : F → F
  pub to_int : F → ℤ

module _ {ℓ} (arithmetic : Arithmetic {ℓ}) where
  open arithmetic use {F, of_nat, of_int32, asdu_room, mul, neg}

  -- `float64(n)` of an int.
  unfoldable pub of_int : ℤ → F
  of_int (ℤ.pos n) = of_nat n
  of_int (ℤ.negsuc n) = neg (of_nat (suc n))

  -- What the decoder needs of the same processor.
  abbrev pub decoder_floats : Float64 {ℓ}
  decoder_floats = record { F = F; of_int32 = of_int32; mul = mul; asdu_room = asdu_room }

-- `k * n` of an int and a number.
unfoldable pub times : ℤ → ℕ → ℤ
times (ℤ.pos k) n = ℤ.pos (k * n)
times (ℤ.negsuc k) zero = ℤ.pos 0
times (ℤ.negsuc k) (suc n) = ℤ.negsuc (suc k * suc n - 1)
