-- ===== src/Models/Float64.antt =====
-- What the modelled code uses of the machine: its float64, which the processor gives, and its memory.
-- It is a parameter of the definitions that compute with floats.
use wire_bonding_ultra.Prelude.{ℕ}

pub record Float64 {ℓ} : Type (ℓ + 1) where
  pub F : Type ℓ
  -- `float64(int32(w))`, from the bit pattern `w` of the int32.
  pub of_int32 : ℕ → F
  pub mul : F → F → F
  -- The largest number of ASDUs for which `make` finds memory; for more it ends the program.
  pub asdu_room : ℕ
