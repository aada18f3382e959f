-- ===== src/Dsp/DualPhasor/Ready.antt =====
-- When a pair of phasors comes out, and what Reset leaves.
use wire_bonding_ultra.Prelude.{
  ℕ, suc, ◌+◌, List, [], ◌∷◌, Bool, true, false, ◌&&◌, none, is_some, length, leb, ◌≡◌, refl, ap,
  ap₂, ◌∙◌, Bool-cases, inl, inr,
}
use wire_bonding_ultra.Models.{WaveSample}
use wire_bonding_ultra.Models.Arithmetic.{Arithmetic}
use wire_bonding_ultra.Dsp.{SlidingDft, WindowType, new_sliding_dft, reset, update}
use wire_bonding_ultra.Dsp.Spectrum.{feed, reset-feed, update-ready}
use wire_bonding_ultra.Dsp.DualPhasor.{
  DualPhasorPipeline, new_dual_phasor_pipeline, reset_pipeline, process_sample, taken,
}

module _ {ℓ} (arithmetic : Arithmetic {ℓ}) where
  open arithmetic use {F}

  abbrev Samples : Type ℓ
  Samples = List (WaveSample F)

  -- The samples of a log, one ProcessSample after another.
  unfoldable pub process_all :
      Samples → DualPhasorPipeline arithmetic → DualPhasorPipeline arithmetic
  unfolding process_sample
  process_all [] dp = dp
  process_all (s ∷ log) dp = process_all log (process_sample arithmetic s dp).0

  abbrev pub voltages : Samples → List (F × ℕ)
  voltages [] = []
  voltages (s ∷ log) = (s.voltage, s.timestamp_ns) ∷ voltages log

  abbrev pub currents : Samples → List (F × ℕ)
  currents [] = []
  currents (s ∷ log) = (s.current, s.timestamp_ns) ∷ currents log

  -- The fields that a sample changes in the same way whether or not a pair comes out, and the settings.
  pub record SameWindows (dp dp' : DualPhasorPipeline arithmetic) : Type ℓ where
    pub voltage : dp'.voltage_dft ≡ dp.voltage_dft
    pub current : dp'.current_dft ≡ dp.current_dft
    pub size : dp'.window_size ≡ dp.window_size
    pub lock : dp'.freq_lock ≡ dp.freq_lock
    pub alpha : dp'.freq_alpha ≡ dp.freq_alpha

  process_sample-SameWindows :
      (s : WaveSample F) (dp : DualPhasorPipeline arithmetic)
      → SameWindows (taken arithmetic s dp) (process_sample arithmetic s dp).0
  unfolding process_sample
  process_sample-SameWindows s dp =
      elim (Bool-cases (
        (update arithmetic s.voltage s.timestamp_ns dp.voltage_dft).1.ready
        && (update arithmetic s.current s.timestamp_ns dp.current_dft).1.ready)) [
          | inl e ↦
              rw e
                (record { voltage = refl; current = refl; size = refl; lock = refl; alpha = refl })
          | inr e ↦
              rw e
                (record { voltage = refl; current = refl; size = refl; lock = refl; alpha = refl })
        ]

  -- The windows after a log.
  pub record Fed (log : Samples) (dp dp' : DualPhasorPipeline arithmetic) : Type ℓ where
    pub voltage : dp'.voltage_dft ≡ feed arithmetic (voltages log) dp.voltage_dft
    pub current : dp'.current_dft ≡ feed arithmetic (currents log) dp.current_dft
    pub size : dp'.window_size ≡ dp.window_size
    pub lock : dp'.freq_lock ≡ dp.freq_lock
    pub alpha : dp'.freq_alpha ≡ dp.freq_alpha

  process_all-Fed :
      (log : Samples) (dp : DualPhasorPipeline arithmetic) → Fed log dp (process_all log dp)
  unfolding process_all feed
  process_all-Fed [] dp = record {
    voltage = refl;
    current = refl;
    size = refl;
    lock = refl;
    alpha = refl;
  }
  process_all-Fed (s ∷ log) dp =
      let first = process_sample-SameWindows s dp in
      let rest = process_all-Fed log (process_sample arithmetic s dp).0 in
      record {
        voltage = rest.voltage ∙ ap (feed arithmetic (voltages log)) first.voltage;
        current = rest.current ∙ ap (feed arithmetic (currents log)) first.current;
        size = rest.size ∙ first.size;
        lock = rest.lock ∙ first.lock;
        alpha = rest.alpha ∙ first.alpha;
      }

  -- Whatever a new pipeline has processed, Reset makes it a new one again, but for the tracked
  -- frequency, which stays what it was.
  pub reset_pipeline_lem :
      (asked : ℕ) (freq rate : F) (log : Samples)
      → reset_pipeline arithmetic
          (process_all log (new_dual_phasor_pipeline arithmetic asked freq rate))
        ≡ record (new_dual_phasor_pipeline arithmetic asked freq rate) {
          tracked_freq =
              (process_all log (new_dual_phasor_pipeline arithmetic asked freq rate)).tracked_freq;
        }
  unfolding reset_pipeline new_dual_phasor_pipeline new_sliding_dft reset
  reset_pipeline_lem asked freq rate log =
      let new = new_dual_phasor_pipeline arithmetic asked freq rate in
      let run = process_all log new in
      let h = process_all-Fed log new in
      let windows = λ (l : List (F × ℕ)). reset-feed arithmetic asked freq rate WindowType.hann l in
      let voltage = ap (reset arithmetic) h.voltage ∙ windows (voltages log) in
      let current = ap (reset arithmetic) h.current ∙ windows (currents log) in
      λ i. record {
        voltage_dft = voltage i;
        current_dft = current i;
        window_size = h.size i;
        sample_idx = 0;
        last_volt_ph = none;
        last_curr_ph = none;
        tracked_freq = run.tracked_freq;
        freq_lock = h.lock i;
        freq_alpha = h.alpha i;
      }

  length-voltages : (log : Samples) → length (voltages log) ≡ length log
  length-voltages [] = refl
  length-voltages (s ∷ log) = ap suc (length-voltages log)

  length-currents : (log : Samples) → length (currents log) ≡ length log
  length-currents [] = refl
  length-currents (s ∷ log) = ap suc (length-currents log)

  is_some-process_sample :
      (s : WaveSample F) (dp : DualPhasorPipeline arithmetic)
      → is_some (process_sample arithmetic s dp).1
        ≡ (update arithmetic s.voltage s.timestamp_ns dp.voltage_dft).1.ready
          && (update arithmetic s.current s.timestamp_ns dp.current_dft).1.ready
  unfolding process_sample
  is_some-process_sample s dp =
      elim (Bool-cases (
        (update arithmetic s.voltage s.timestamp_ns dp.voltage_dft).1.ready
        && (update arithmetic s.current s.timestamp_ns dp.current_dft).1.ready)) [
          | inl e ↦ rw e refl
          | inr e ↦ rw e refl
        ]

  and_self : (b : Bool) → (b && b) ≡ b
  and_self true = refl
  and_self false = refl

  pub process_sample-ready :
      (asked : ℕ) (freq rate : F) (log : Samples) (s : WaveSample F)
      → is_some
          (process_sample arithmetic s
            (process_all log (new_dual_phasor_pipeline arithmetic asked freq rate))).1
        ≡ leb
            (new_sliding_dft arithmetic asked freq rate WindowType.hann).window_size
            (length log + 1)
  unfolding new_dual_phasor_pipeline
  process_sample-ready asked freq rate log s =
      let new = new_dual_phasor_pipeline arithmetic asked freq rate in
      let n = (new_sliding_dft arithmetic asked freq rate WindowType.hann).window_size in
      let h = process_all-Fed log new in
      let ready =
        λ (sd : SlidingDft arithmetic) (x : F). (update arithmetic x s.timestamp_ns sd).1.ready in
      let voltage : ready (process_all log new).voltage_dft s.voltage ≡ leb n (length log + 1) =
        ap (λ (sd : SlidingDft arithmetic). ready sd s.voltage) h.voltage
        ∙ update-ready arithmetic asked freq rate WindowType.hann (voltages log) s.voltage
            s.timestamp_ns
        ∙ ap (λ k. leb n (k + 1)) (length-voltages log) in
      let current : ready (process_all log new).current_dft s.current ≡ leb n (length log + 1) =
        ap (λ (sd : SlidingDft arithmetic). ready sd s.current) h.current
        ∙ update-ready arithmetic asked freq rate WindowType.hann (currents log) s.current
            s.timestamp_ns
        ∙ ap (λ k. leb n (k + 1)) (length-currents log) in
      is_some-process_sample s (process_all log new)
      ∙ ap₂ (λ (a b : Bool). a && b) voltage current
      ∙ and_self (leb n (length log + 1))
