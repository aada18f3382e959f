-- ===== src/Dsp/DualPhasor.antt =====
-- internal/dsp/dual_phasor.go: DualPhasorPipeline, two sliding windows that are fed in step.
pub mod Ready
pub mod Count
use wire_bonding_ultra.Prelude.{
  ℕ, zero, suc, ◌+◌, ◌%◌, ◌^◌, List, [], ◌∷◌, Bool, true, false, ◌&&◌, not, Option, none, some,
  length, set, ltb, if◌then◌else◌, refl,
}
use wire_bonding_ultra.Models.{WaveSample, Phasor}
use wire_bonding_ultra.Models.Arithmetic.{Arithmetic}
use wire_bonding_ultra.Dsp.{SlidingDft, WindowType, PhasorResult, new_sliding_dft, reset, update}

module _ {ℓ} (arithmetic : Arithmetic {ℓ}) where
  open arithmetic use {F, literal, add, sub, mul}

  pub record DualPhasorPipeline : Type ℓ where
    pub voltage_dft : SlidingDft arithmetic
    pub current_dft : SlidingDft arithmetic
    pub window_size : ℕ
    pub sample_idx : ℕ
    pub last_volt_ph : Option (PhasorResult arithmetic)
    pub last_curr_ph : Option (PhasorResult arithmetic)
    pub tracked_freq : F
    pub freq_lock : Bool
    pub freq_alpha : F

  unfoldable pub new_dual_phasor_pipeline : ℕ → F → F → DualPhasorPipeline
  unfolding new_sliding_dft
  new_dual_phasor_pipeline window_size target rate = record {
    voltage_dft = new_sliding_dft arithmetic window_size target rate WindowType.hann;
    current_dft = new_sliding_dft arithmetic window_size target rate WindowType.hann;
    window_size = window_size;
    sample_idx = 0;
    last_volt_ph = none;
    last_curr_ph = none;
    tracked_freq = target;
    freq_lock = false;
    freq_alpha = literal 125 3;
  }

  -- The tracked frequency stays.
  unfoldable pub reset_pipeline : DualPhasorPipeline → DualPhasorPipeline
  unfolding reset
  reset_pipeline dp = record dp {
    voltage_dft = reset arithmetic dp.voltage_dft;
    current_dft = reset arithmetic dp.current_dft;
    sample_idx = 0;
    last_volt_ph = none;
    last_curr_ph = none;
  }

  abbrev pub phasor_of : PhasorResult arithmetic → F → Phasor F
  phasor_of r freq = record {
    real = r.real;
    imag = r.imag;
    magnitude = r.magnitude;
    angle = r.angle;
    freq_hz = freq;
  }

  -- The state after both windows have taken the sample.
  abbrev pub taken : WaveSample F → DualPhasorPipeline → DualPhasorPipeline
  taken sample dp = record dp {
    sample_idx = (dp.sample_idx + 1) % 2 ^ 64;
    voltage_dft = (update arithmetic sample.voltage sample.timestamp_ns dp.voltage_dft).0;
    current_dft = (update arithmetic sample.current sample.timestamp_ns dp.current_dft).0;
  }

  -- What is done with two ready results.
  abbrev pub paired :
      PhasorResult arithmetic
      → PhasorResult arithmetic
      → DualPhasorPipeline
      → DualPhasorPipeline × Option (Phasor F × Phasor F)
  paired v i dp =
      let freq =
        if not dp.freq_lock
        then add (mul dp.tracked_freq (sub (literal 1 0) dp.freq_alpha))
            (mul v.freq_hz dp.freq_alpha)
        else dp.tracked_freq in
      (
        record dp { last_volt_ph = some v; last_curr_ph = some i; tracked_freq = freq },
        some (phasor_of v freq, phasor_of i freq),
      )

  -- `none` where the third result is false.
  unfoldable pub process_sample :
      WaveSample F → DualPhasorPipeline → DualPhasorPipeline × Option (Phasor F × Phasor F)
  unfolding update
  process_sample sample dp =
      let v = (update arithmetic sample.voltage sample.timestamp_ns dp.voltage_dft).1 in
      let i = (update arithmetic sample.current sample.timestamp_ns dp.current_dft).1 in
      if v.ready && i.ready then paired v i (taken sample dp) else (taken sample dp, none)

  -- The count of ProcessBatch and its two output slices, which are written at the sample's index.
  pub record Batch : Type ℓ where
    pub ready_count : ℕ
    pub volt_out : List (Phasor F)
    pub curr_out : List (Phasor F)

  abbrev pub written : ℕ → Option (Phasor F × Phasor F) → Batch → Batch
  written i none out = out
  written i (some (v, c)) out =
      if ltb i (length out.volt_out) && ltb i (length out.curr_out)
      then record {
        ready_count = out.ready_count + 1;
        volt_out = set out.volt_out i v;
        curr_out = set out.curr_out i c;
      }
      else out

  unfoldable pub process_from :
      List (WaveSample F) → ℕ → Batch → DualPhasorPipeline → DualPhasorPipeline × Batch
  unfolding process_sample
  process_from [] i out dp = (dp, out)
  process_from (s ∷ samples) i out dp =
      let (dp', pair) = process_sample s dp in process_from samples (i + 1) (written i pair out) dp'

  unfoldable pub process_batch :
      List (WaveSample F)
      → List (Phasor F)
      → List (Phasor F)
      → DualPhasorPipeline
      → DualPhasorPipeline × Batch
  unfolding process_from
  process_batch samples volt_out curr_out dp =
      process_from samples 0 (record { ready_count = 0; volt_out = volt_out; curr_out = curr_out })
        dp
