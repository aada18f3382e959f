-- ===== src/Pullstrength.antt =====
-- internal/pullstrength/meyer.go: MeyerPredictor. Its two trackers are circular buffers; the last
-- impedance, which stays 0, is not kept.
pub mod Solve
pub mod Config
pub mod Runs
pub mod Fresh
pub mod Bounds
mod Tests
use wire_bonding_ultra.Prelude.{
  ℕ, zero, suc, ◌+◌, ◌-◌, ◌*◌, ◌/◌, ◌%◌, ◌^◌, List, [], ◌∷◌, Bool, true, false, ◌&&◌, ◌||◌, not,
  Option, none, some, get_or, take, ltb, ◌==◌, if◌then◌else◌,
}
use wire_bonding_ultra.Models.{Phasor, ImpedancePoint}
use wire_bonding_ultra.Models.Arithmetic.{Arithmetic}
use wire_bonding_ultra.Circle.{Circle, empty_circle, put, total}
use wire_bonding_ultra.Pullstrength.Config.{
  MaxwellMeyerConfig, with_defaults, samples_of, sample_interval_ns,
}
use wire_bonding_ultra.Pullstrength.Solve.{BondingFeatureVector, solve_maxwell_meyer, zero_features}

module _ {ℓ} (arithmetic : Arithmetic {ℓ}) where
  open arithmetic use {F, of_nat, literal, add, sub, mul, div, less, at_most, hypot}

  pub record PullStrengthPrediction : Type ℓ where
    pub timestamp_ns : ℕ
    pub seq_no : ℕ
    pub pull_grams : F
    pub shear_grams : F
    pub confidence : F
    pub below_redline : Bool
    pub features : BondingFeatureVector arithmetic

  pub record SofteningRow : Type ℓ where
    pub ts_ns : ℕ
    pub hard_rat : F
    pub phase : F

  pub record EnergyRow : Type ℓ where
    pub ts_ns : ℕ
    pub v_i : F
    pub q_i : F

  pub record EnergyTracker : Type ℓ where
    pub rows : Circle EnergyRow
    pub acc_j : F

  pub record MeyerPredictor : Type ℓ where
    pub cfg : MaxwellMeyerConfig arithmetic
    pub latest : PullStrengthPrediction
    pub soft_buf : Circle SofteningRow
    pub energy_buf : EnergyTracker
    pub total_predictions : ℕ
    pub redline_hits : ℕ
    pub last_ts_ns : ℕ
    pub started : Bool

  abbrev pub zero_prediction : PullStrengthPrediction
  zero_prediction = record {
    timestamp_ns = 0;
    seq_no = 0;
    pull_grams = literal 0 0;
    shear_grams = literal 0 0;
    confidence = literal 0 0;
    below_redline = false;
    features = zero_features arithmetic;
  }

  abbrev pub zero_softening : SofteningRow
  zero_softening = record { ts_ns = 0; hard_rat = literal 0 0; phase = literal 0 0 }

  abbrev pub zero_energy : EnergyRow
  zero_energy = record { ts_ns = 0; v_i = literal 0 0; q_i = literal 0 0 }

  unfoldable pub new_softening_tracker : ℕ → Circle SofteningRow
  unfolding empty_circle
  new_softening_tracker n = empty_circle zero_softening n

  unfoldable pub new_energy_tracker : ℕ → EnergyTracker
  unfolding empty_circle
  new_energy_tracker n = record { rows = empty_circle zero_energy n; acc_j = literal 0 0 }

  unfoldable pub new_meyer_predictor : MaxwellMeyerConfig arithmetic → MeyerPredictor
  unfolding new_softening_tracker new_energy_tracker with_defaults
  new_meyer_predictor asked =
      let cfg = with_defaults arithmetic asked in
      record {
        cfg = cfg;
        latest = zero_prediction;
        soft_buf = new_softening_tracker (samples_of cfg.softening_window_ns 16);
        energy_buf = new_energy_tracker (samples_of cfg.energy_window_ns 64);
        total_predictions = 0;
        redline_hits = 0;
        last_ts_ns = 0;
        started = false;
      }

  -- The sums of a tracker's rows that are in the window.
  pub record Stats : Type ℓ where
    pub valid : ℕ
    pub sum_h : F
    pub sum_p : F
    pub min_h : F
    pub max_h : F
    pub first : Bool

  -- A row that has a time, which is not more than the window before `now`.
  abbrev pub is_fresh : ℕ → ℕ → SofteningRow → Bool
  is_fresh window_ns now_ns r =
      not (r.ts_ns == 0)
      && not (ltb 0 now_ns && ltb window_ns ((now_ns + 2 ^ 64 - r.ts_ns) % 2 ^ 64))

  abbrev pub counted : SofteningRow → Stats → Stats
  counted r s = record {
    valid = s.valid + 1;
    sum_h = add s.sum_h r.hard_rat;
    sum_p = add s.sum_p r.phase;
    min_h = if s.first || less r.hard_rat s.min_h then r.hard_rat else s.min_h;
    max_h = if s.first || less s.max_h r.hard_rat then r.hard_rat else s.max_h;
    first = false;
  }

  unfoldable pub sum_rows : ℕ → ℕ → List SofteningRow → Stats → Stats
  sum_rows window_ns now_ns [] s = s
  sum_rows window_ns now_ns (r ∷ rows) s =
      sum_rows window_ns now_ns rows (if is_fresh window_ns now_ns r then counted r s else s)

  abbrev pub no_stats : Stats
  no_stats = record {
    valid = 0;
    sum_h = literal 0 0;
    sum_p = literal 0 0;
    min_h = literal 0 0;
    max_h = literal 0 0;
    first = true;
  }

  -- `stats`: the averages and the softening; `none` where the last result is false.
  unfoldable pub softening_stats : ℕ → ℕ → Circle SofteningRow → Option (F × F × F)
  unfolding sum_rows
  softening_stats window_ns now_ns c =
      let s = sum_rows window_ns now_ns (take (total c) c.slots) no_stats in
      if ltb s.valid 4
      then none
      else some (
        div s.sum_h (of_nat s.valid),
        div s.sum_p (of_nat s.valid),
        if less (literal 1 9) s.max_h then div (sub s.max_h s.min_h) s.max_h else literal 0 0,
      )

  -- `push` of the energy tracker; an index out of range does not occur.
  unfoldable pub push_energy : ℕ → F → F → F → EnergyTracker → EnergyTracker
  unfolding put
  push_energy ts_ns v_i q_i dt_ns e =
      let added = mul (hypot v_i q_i) (mul dt_ns (literal 1 9)) in
      let old = get_or e.rows.slots e.rows.idx zero_energy in
      let less_old =
        if ltb 0 old.ts_ns
        then sub e.acc_j (mul (hypot old.v_i old.q_i) (mul dt_ns (literal 1 9)))
        else e.acc_j in
      let acc = add less_old added in
      record {
        rows = put (record { ts_ns = ts_ns; v_i = v_i; q_i = q_i }) e.rows;
        acc_j = if less acc (literal 0 0) then literal 0 0 else acc;
      }

  -- The time since the last phasor.
  abbrev pub elapsed : ℕ → ℕ → F
  elapsed last_ts_ns ts_ns =
      if ltb 0 last_ts_ns && ltb last_ts_ns ts_ns
      then of_nat (ts_ns - last_ts_ns)
      else of_nat sample_interval_ns

  abbrev pub predict : ℕ → ℕ → F × F × F → MeyerPredictor → PullStrengthPrediction
  predict seq_no ts_ns (avg_hard, avg_phase, deg_soft) mp =
      let diss = mp.energy_buf.acc_j in
      let feat : BondingFeatureVector arithmetic = record {
        timestamp_ns = ts_ns;
        seq_no = seq_no;
        hardness_ratio = avg_hard;
        dissipation_j = diss;
        contact_area = mp.cfg.bond_area_um2;
        softening_deg = deg_soft;
        phase_lag_rad = avg_phase;
        energy_ratio =
            if less (literal 1 12) diss
            then div diss (add (literal 1 0) (mul avg_hard (literal 1 3)))
            else literal 0 0;
      } in
      let (pull, shear, conf) = solve_maxwell_meyer arithmetic mp.cfg feat in
      record {
        timestamp_ns = ts_ns;
        seq_no = seq_no;
        pull_grams = pull;
        shear_grams = shear;
        confidence = conf;
        below_redline = less pull mp.cfg.redline_grams;
        features = feat;
      }

  -- What PushPhasor does with the softening statistics.
  abbrev pub concluded :
      ℕ → ℕ → Option (F × F × F) → MeyerPredictor → MeyerPredictor × Option PullStrengthPrediction
  concluded seq_no ts_ns none mp = (mp, none)
  concluded seq_no ts_ns (some stats) mp =
      let pred = predict seq_no ts_ns stats mp in
      (
        record mp {
          latest = pred;
          total_predictions = (mp.total_predictions + 1) % 2 ^ 64;
          redline_hits =
              if pred.below_redline then (mp.redline_hits + 1) % 2 ^ 64 else mp.redline_hits;
        },
        some pred,
      )

  -- The state after the time and the energy, and after the impedance.
  abbrev pub timed : ℕ → MeyerPredictor → MeyerPredictor
  timed ts_ns mp = record mp { last_ts_ns = ts_ns }

  abbrev pub energised : ℕ → Phasor F → Phasor F → MeyerPredictor → MeyerPredictor
  energised ts_ns v i mp = record mp {
    last_ts_ns = ts_ns;
    energy_buf =
        push_energy ts_ns (add (mul v.real i.real) (mul v.imag i.imag))
          (sub (mul v.imag i.real) (mul v.real i.imag)) (elapsed mp.last_ts_ns ts_ns) mp.energy_buf;
  }

  abbrev pub softened : ℕ → ImpedancePoint F → MeyerPredictor → MeyerPredictor
  softened ts_ns z mp = record mp {
    soft_buf = put (record { ts_ns = ts_ns; hard_rat = z.magnitude; phase = z.phase }) mp.soft_buf;
  }

  -- `none` where the second result is false.
  unfoldable pub push_phasor :
      ℕ
      → ℕ
      → Phasor F
      → Phasor F
      → ImpedancePoint F
      → MeyerPredictor
      → MeyerPredictor × Option PullStrengthPrediction
  unfolding push_energy softening_stats solve_maxwell_meyer put
  push_phasor seq_no ts_ns v i z mp =
      let softer = softened ts_ns z (energised ts_ns v i mp) in
      if less (add (mul i.real i.real) (mul i.imag i.imag)) (literal 1 12)
      then (timed ts_ns mp, none)
      else if less z.magnitude (literal 1 9)
      then (energised ts_ns v i mp, none)
      else concluded seq_no ts_ns
          (softening_stats softer.cfg.softening_window_ns ts_ns softer.soft_buf) softer

  unfoldable pub latest_prediction : MeyerPredictor → Option PullStrengthPrediction
  latest_prediction mp =
      if not mp.started && mp.total_predictions == 0 then none else some mp.latest

  unfoldable pub set_redline : F → MeyerPredictor → MeyerPredictor
  set_redline grams mp =
      if less (literal 0 0) grams
      then record mp { cfg = record mp.cfg { redline_grams = grams } }
      else mp

  unfoldable pub reset_predictor : MeyerPredictor → MeyerPredictor
  unfolding new_softening_tracker new_energy_tracker
  reset_predictor mp = record mp {
    latest = zero_prediction;
    soft_buf = new_softening_tracker mp.soft_buf.capacity;
    energy_buf = new_energy_tracker mp.energy_buf.rows.capacity;
    total_predictions = 0;
    redline_hits = 0;
    last_ts_ns = 0;
    started = false;
  }
