-- ===== src/Pullstrength/Solve.antt =====
-- internal/pullstrength/meyer.go: solveMaxwellMeyer.
use wire_bonding_ultra.Prelude.{ℕ, if◌then◌else◌}
use wire_bonding_ultra.Models.Arithmetic.{Arithmetic}
use wire_bonding_ultra.Pullstrength.Config.{MaxwellMeyerConfig}

module _ {ℓ} (arithmetic : Arithmetic {ℓ}) where
  open arithmetic use {F, literal, pi, add, sub, mul, div, neg, abs, less, sqrt, cos, sin, exp}

  pub record BondingFeatureVector : Type ℓ where
    pub timestamp_ns : ℕ
    pub seq_no : ℕ
    pub hardness_ratio : F
    pub dissipation_j : F
    pub contact_area : F
    pub softening_deg : F
    pub phase_lag_rad : F
    pub energy_ratio : F

  abbrev pub zero_features : BondingFeatureVector
  zero_features = record {
    timestamp_ns = 0;
    seq_no = 0;
    hardness_ratio = literal 0 0;
    dissipation_j = literal 0 0;
    contact_area = literal 0 0;
    softening_deg = literal 0 0;
    phase_lag_rad = literal 0 0;
    energy_ratio = literal 0 0;
  }

  -- `if x < least { x = least }`, and `if x > most { x = most }`.
  abbrev pub floor_at : F → F → F
  floor_at least x = if less x least then least else x

  abbrev pub ceiling_at : F → F → F
  ceiling_at most x = if less most x then most else x

  -- The pressure, or the one that the dissipated energy gives where it is under 100000 Pa.
  abbrev pub lifted : MaxwellMeyerConfig arithmetic → F → F → F → F
  lifted cfg dissipation scale pa =
      let min_pa = literal 100000 0 in
      if less pa min_pa
      then add min_pa (mul (mul cfg.energy_coeff (sqrt (add dissipation (literal 1 9)))) scale)
      else pa

  abbrev pub grams : F → F → F
  grams pa area_m2 = mul (div (mul pa area_m2) (literal 980665 5)) (literal 1000 0)

  -- The pull and the shear strength and the confidence.
  unfoldable pub solve_maxwell_meyer :
      MaxwellMeyerConfig arithmetic → BondingFeatureVector → F × F × F
  solve_maxwell_meyer cfg f =
      let one = literal 1 0 in
      let tau = cfg.maxwell_tau_s in
      let omega_b = mul (mul (literal 2 0) pi) cfg.bonding_freq_hz in
      let cos_phase = cos f.phase_lag_rad in
      let sin_phase = abs (sin f.phase_lag_rad) in
      let dyn = div cfg.meyer_hardness_gpa (add one (mul (literal 1 3) (abs f.hardness_ratio))) in
      let soft = floor_at (literal 1 1) (sub one (mul cfg.yield_coeff f.softening_deg)) in
      let eta = div (mul omega_b tau) (sqrt (add one (mul (mul omega_b tau) (mul omega_b tau)))) in
      let loss = mul (mul dyn eta) sin_phase in
      let storage = floor_at (literal 1 2) (mul dyn (sub one (mul eta sin_phase))) in
      let area_m2 = mul f.contact_area (literal 1 12) in
      let giga = literal 1000000000 0 in
      let pull_pa = mul (mul (mul (mul storage giga) soft) cos_phase) f.energy_ratio in
      let shear_pa = mul (mul (mul loss giga) soft) (sub one cos_phase) in
      let pull = lifted cfg f.dissipation_j (literal 1000000 0) pull_pa in
      let shear = lifted cfg f.dissipation_j (literal 800000 0) shear_pa in
      let sigmoid =
        div one (add one (exp (mul (neg (sub f.softening_deg (literal 15 2))) (literal 8 0)))) in
      (
        floor_at (literal 5 1) (grams pull area_m2),
        floor_at (literal 5 1) (grams shear area_m2),
        ceiling_at (literal 99 2) (floor_at (literal 2 1) sigmoid),
      )
