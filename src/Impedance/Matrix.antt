-- ===== src/Impedance/Matrix.antt =====
-- internal/impedance/matrix.go: SpatiotemporalMatrix. Its eight column slices, which are always
-- indexed together, are one list of rows; the channel's name and frequency are not kept.
pub mod Latest
pub mod Snapshot
use wire_bonding_ultra.Prelude.{
  ℕ, zero, suc, ◌+◌, ◌-◌, ◌%◌, ◌^◌, List, [], ◌∷◌, Bool, true, false, not, ◌&&◌, ◌||◌, Option, none,
  some, get_or, set, replicate, length, ltb, leb, ◌==◌, if◌then◌else◌,
}
use wire_bonding_ultra.Models.{Phasor, ImpedancePoint}
use wire_bonding_ultra.Models.Arithmetic.{Arithmetic}
use wire_bonding_ultra.Circle.{Circle, recent}

abbrev pub default_matrix_rows : ℕ
default_matrix_rows = 2048

module _ {ℓ} (arithmetic : Arithmetic {ℓ}) where
  open arithmetic use {
    F, of_nat, literal, pi, twelve_deg, add, sub, mul, div, abs, less, is_zero, sqrt, atan2,
  }

  pub record Row : Type ℓ where
    pub timestamp : ℕ
    pub seq_no : ℕ
    pub vmag : F
    pub imag : F
    pub zreal : F
    pub zimag : F
    pub zmag : F
    pub zphase : F

  pub record Baseline : Type ℓ where
    pub z0_real : F
    pub z0_imag : F
    pub z0_mag : F
    pub locked : Bool
    pub samples : ℕ

  pub record SpatiotemporalMatrix : Type ℓ where
    pub rows : ℕ
    pub write_idx : ℕ
    pub full : Bool
    pub cells : List Row
    pub baseline : Baseline
    pub z_jump_threshold : F
    pub phase_threshold : F
    pub alarm_count : ℕ
    pub last_alarm_idx : ℕ
    pub smooth_alpha : F
    pub last_z : F × F

  abbrev pub zero_row : Row
  zero_row = record {
    timestamp = 0;
    seq_no = 0;
    vmag = of_nat 0;
    imag = of_nat 0;
    zreal = of_nat 0;
    zimag = of_nat 0;
    zmag = of_nat 0;
    zphase = of_nat 0;
  }

  abbrev pub zero_point : ImpedancePoint F
  zero_point = record {
    timestamp_ns = 0;
    resistance = of_nat 0;
    reactance = of_nat 0;
    magnitude = of_nat 0;
    phase = of_nat 0;
    seq_no = 0;
  }

  -- A number of rows that is not positive is 0 here.
  unfoldable pub new_matrix : ℕ → SpatiotemporalMatrix
  new_matrix asked =
      let rows = if asked == 0 then default_matrix_rows else asked in
      record {
        rows = rows;
        write_idx = 0;
        full = false;
        cells = replicate rows zero_row;
        baseline = record {
          z0_real = of_nat 0;
          z0_imag = of_nat 0;
          z0_mag = of_nat 0;
          locked = false;
          samples = 0;
        };
        z_jump_threshold = literal 15 2;
        phase_threshold = twelve_deg;
        alarm_count = 0;
        last_alarm_idx = 0;
        smooth_alpha = literal 625 4;
        last_z = (of_nat 0, of_nat 0);
      }

  -- The sums of the baseline and the index of the last alarm stay.
  unfoldable pub reset : SpatiotemporalMatrix → SpatiotemporalMatrix
  reset m = record m {
    write_idx = 0;
    full = false;
    cells = replicate m.rows zero_row;
    baseline = record m.baseline { locked = false; samples = 0 };
    alarm_count = 0;
    last_z = (of_nat 0, of_nat 0);
  }

  -- `prev + alpha*(z-prev)`, unless there is no last impedance.
  abbrev pub smoothed : SpatiotemporalMatrix → F × F → F × F
  smoothed m (zr, zi) =
      let (r, i) = m.last_z in
      if is_zero r && is_zero i
      then (zr, zi)
      else (add r (mul m.smooth_alpha (sub zr r)), add i (mul m.smooth_alpha (sub zi i)))

  -- The division by the number of samples, at the 256th, locks the baseline.
  abbrev pub locked_baseline : Baseline → Baseline
  locked_baseline b =
      if ltb b.samples 256
      then b
      else let inv_n = div (of_nat 1) (of_nat b.samples) in
        record b {
          z0_real = mul b.z0_real inv_n;
          z0_imag = mul b.z0_imag inv_n;
          z0_mag = mul b.z0_mag inv_n;
          locked = true;
        }

  abbrev pub learned : F → F → F → Baseline → Baseline
  learned zr zi mag b =
      if b.locked
      then b
      else locked_baseline (record b {
        z0_real = add b.z0_real zr;
        z0_imag = add b.z0_imag zi;
        z0_mag = add b.z0_mag mag;
        samples = b.samples + 1;
      })

  -- What SolveImpedance does with the smoothed impedance.
  abbrev pub solved :
      SpatiotemporalMatrix → F × F → SpatiotemporalMatrix × Option (ImpedancePoint F)
  solved m (zr, zi) =
      let m' = record m { last_z = (zr, zi) } in
      let mag = sqrt (add (mul zr zr) (mul zi zi)) in
      if less mag (literal 1 15) then (m', none) else (
        record m' { baseline = learned zr zi mag m.baseline },
        some (record zero_point {
          resistance = zr;
          reactance = zi;
          magnitude = mag;
          phase = atan2 zi zr;
        }),
      )

  -- `none` where the second result is false; what the first is then is not used.
  unfoldable pub solve_impedance :
      Phasor F → Phasor F → SpatiotemporalMatrix → SpatiotemporalMatrix × Option (ImpedancePoint F)
  solve_impedance v i m =
      let i_mag_sq = add (mul i.real i.real) (mul i.imag i.imag) in
      if less i_mag_sq (literal 1 12)
      then (m, none)
      else let inv = div (of_nat 1) i_mag_sq in
        let iv = add (mul v.real i.real) (mul v.imag i.imag) in
        let iq = sub (mul v.imag i.real) (mul v.real i.imag) in
        solved m (smoothed m (mul iv inv, mul iq inv))

  pub record AnomalyEvent : Type ℓ where
    pub timestamp_ns : ℕ
    pub seq_no : ℕ
    pub deviation_pct : F
    pub phase_shift_deg : F
    pub z_baseline : F × F
    pub z_measured : F × F
    pub alarm_id : ℕ

  -- How far a point is from the baseline.
  abbrev pub delta_r : Baseline → ImpedancePoint F → F
  delta_r b z = div (sub z.magnitude b.z0_mag) (add b.z0_mag (literal 1 18))

  abbrev pub delta_phase : Baseline → ImpedancePoint F → F
  delta_phase b z = abs (sub z.phase (atan2 b.z0_imag b.z0_real))

  abbrev pub is_anomalous : SpatiotemporalMatrix → ImpedancePoint F → Bool
  is_anomalous m z =
      less m.z_jump_threshold (abs (delta_r m.baseline z))
      || less m.phase_threshold (delta_phase m.baseline z)

  -- The alarm for the row that was written at `idx`.
  unfoldable pub raise_alarm :
      ℕ → ImpedancePoint F → SpatiotemporalMatrix → SpatiotemporalMatrix × Option AnomalyEvent
  raise_alarm idx z m =
      if m.baseline.locked && is_anomalous m z && not (idx == m.last_alarm_idx)
      then (let id = (m.alarm_count + 1) % 2 ^ 64 in
          (
            record m { alarm_count = id; last_alarm_idx = idx },
            some (record {
              timestamp_ns = z.timestamp_ns;
              seq_no = z.seq_no;
              deviation_pct = mul (delta_r m.baseline z) (of_nat 100);
              phase_shift_deg = div (mul (delta_phase m.baseline z) (of_nat 180)) pi;
              z_baseline = (m.baseline.z0_real, m.baseline.z0_imag);
              z_measured = (z.resistance, z.reactance);
              alarm_id = id;
            }),
          ))
      else (m, none)

  abbrev pub row_of : Phasor F → Phasor F → ImpedancePoint F → Row
  row_of v i z = record {
    timestamp = z.timestamp_ns;
    seq_no = z.seq_no;
    vmag = v.magnitude;
    imag = i.magnitude;
    zreal = z.resistance;
    zimag = z.reactance;
    zmag = z.magnitude;
    zphase = z.phase;
  }

  -- The write of a row and the step of the index.
  unfoldable pub write_row : Row → SpatiotemporalMatrix → SpatiotemporalMatrix
  write_row row m =
      let next = (m.write_idx + 1) % m.rows in
      record m {
        cells = set m.cells m.write_idx row;
        write_idx = next;
        full = if next == 0 then true else m.full;
      }

  abbrev pub appended :
      ℕ
      → ℕ
      → Phasor F
      → Phasor F
      → SpatiotemporalMatrix × Option (ImpedancePoint F)
      → SpatiotemporalMatrix × Option (ImpedancePoint F × Option AnomalyEvent)
  appended seq_no ts v i (m, none) = (m, none)
  appended seq_no ts v i (m, some z) =
      let zp = record z { seq_no = seq_no; timestamp_ns = ts } in
      let (m', event) = raise_alarm m.write_idx zp (write_row (row_of v i zp) m) in
      (m', some (zp, event))

  -- `none` where the third result is false.
  unfoldable pub append_row :
      ℕ
      → ℕ
      → Phasor F
      → Phasor F
      → SpatiotemporalMatrix
      → SpatiotemporalMatrix × Option (ImpedancePoint F × Option AnomalyEvent)
  unfolding solve_impedance raise_alarm write_row
  append_row seq_no ts v i m = appended seq_no ts v i (solve_impedance v i m)

  -- The magnitudes beside the point.
  unfoldable pub latest_row : SpatiotemporalMatrix → Option (ImpedancePoint F × F × F × ℕ)
  latest_row m =
      if not m.full && m.write_idx == 0
      then none
      else let idx = if m.write_idx == 0 then m.rows - 1 else m.write_idx - 1 in
        let row = get_or m.cells idx zero_row in
        some (
          record {
            timestamp_ns = row.timestamp;
            resistance = row.zreal;
            reactance = row.zimag;
            magnitude = row.zmag;
            phase = row.zphase;
            seq_no = row.seq_no;
          },
          row.vmag,
          row.imag,
          row.timestamp,
        )

  -- The rows with their index and flag.
  abbrev pub ring : SpatiotemporalMatrix → Circle Row
  ring m = record { slots = m.cells; capacity = m.rows; idx = m.write_idx; full = m.full }

  -- The five columns that the source copies are rows here; the channel and the time are not kept.
  pub record MatrixSnapshot : Type ℓ where
    pub rows : ℕ
    pub full : Bool
    pub entries : List Row
    pub baseline_locked : Bool
    pub baseline_z : F × F
    pub alarm_count : ℕ

  -- A number of rows that is not positive is 0 here.
  unfoldable pub snapshot_recent : ℕ → SpatiotemporalMatrix → MatrixSnapshot
  unfolding recent
  snapshot_recent last_n m =
      let entries = recent zero_row last_n (ring m) in
      record {
        rows = length entries;
        full = m.full;
        entries = entries;
        baseline_locked = m.baseline.locked;
        baseline_z = (m.baseline.z0_real, m.baseline.z0_imag);
        alarm_count = m.alarm_count;
      }

  unfoldable pub set_jump_threshold : F → SpatiotemporalMatrix → SpatiotemporalMatrix
  set_jump_threshold pct m = record m { z_jump_threshold = div pct (of_nat 100) }

  unfoldable pub set_phase_threshold : F → SpatiotemporalMatrix → SpatiotemporalMatrix
  set_phase_threshold deg m = record m { phase_threshold = div (mul deg pi) (of_nat 180) }
