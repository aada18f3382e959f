-- ===== src/Pullstrength/Config.antt =====
-- internal/pullstrength/meyer.go: MaxwellMeyerConfig and its defaults.
use wire_bonding_ultra.Prelude.{ℕ, ◌*◌, ◌/◌, ltb, ◌==◌, if◌then◌else◌}
use wire_bonding_ultra.Models.Arithmetic.{Arithmetic}

abbrev pub sample_interval_ns : ℕ
sample_interval_ns = 10_000

-- How many samples a window holds, at least `least`.
abbrev pub samples_of : ℕ → ℕ → ℕ
samples_of window_ns least =
    if ltb (window_ns / sample_interval_ns) least then least else window_ns / sample_interval_ns

module _ {ℓ} (arithmetic : Arithmetic {ℓ}) where
  open arithmetic use {F, literal, at_most}

  pub record MaxwellMeyerConfig : Type ℓ where
    pub maxwell_tau_s : F
    pub meyer_hardness_gpa : F
    pub bond_area_um2 : F
    pub energy_coeff : F
    pub yield_coeff : F
    pub redline_grams : F
    pub bonding_freq_hz : F
    pub softening_window_ns : ℕ
    pub energy_window_ns : ℕ

  unfoldable pub default_meyer_config : MaxwellMeyerConfig
  default_meyer_config = record {
    maxwell_tau_s = literal 25 6;
    meyer_hardness_gpa = literal 12 2;
    bond_area_um2 = literal 2500 0;
    energy_coeff = literal 185 2;
    yield_coeff = literal 62 2;
    redline_grams = literal 5 0;
    bonding_freq_hz = literal 40000 0;
    softening_window_ns = 500 * 1000;
    energy_window_ns = 2 * 1000 * 1000;
  }

  -- A value that is not positive is replaced by the default.
  abbrev pub or_default : F → F → F
  or_default default x = if at_most x (literal 0 0) then default else x

  unfoldable pub with_defaults : MaxwellMeyerConfig → MaxwellMeyerConfig
  unfolding default_meyer_config
  with_defaults cfg = record {
    maxwell_tau_s = or_default default_meyer_config.maxwell_tau_s cfg.maxwell_tau_s;
    meyer_hardness_gpa = or_default default_meyer_config.meyer_hardness_gpa cfg.meyer_hardness_gpa;
    bond_area_um2 = or_default default_meyer_config.bond_area_um2 cfg.bond_area_um2;
    energy_coeff = or_default default_meyer_config.energy_coeff cfg.energy_coeff;
    yield_coeff = or_default default_meyer_config.yield_coeff cfg.yield_coeff;
    redline_grams = or_default default_meyer_config.redline_grams cfg.redline_grams;
    bonding_freq_hz = or_default default_meyer_config.bonding_freq_hz cfg.bonding_freq_hz;
    softening_window_ns =
        if cfg.softening_window_ns == 0 then 500 * 1000 else cfg.softening_window_ns;
    energy_window_ns = if cfg.energy_window_ns == 0 then 2 * 1000 * 1000 else cfg.energy_window_ns;
  }
