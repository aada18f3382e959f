-- ===== src/Impedance/Pipeline.antt =====
-- internal/impedance/pipeline.go: a sample goes through the two filters, the matrix and the predictor.
-- The channel's name is not kept.
pub mod Config
pub mod Logs
pub mod Steps
pub mod Recent
pub mod Batch
use wire_bonding_ultra.Prelude.{
  ℕ, zero, ◌+◌, ◌%◌, ◌^◌, List, [], ◌∷◌, Bool, true, Option, none, some, length, set, ltb,
  if◌then◌else◌,
}
use wire_bonding_ultra.Models.{WaveSample, Phasor, ImpedancePoint, PhasorFrame}
use wire_bonding_ultra.Models.Arithmetic.{Arithmetic}
use wire_bonding_ultra.Circle.{put, recent}
use wire_bonding_ultra.Dsp.DualPhasor.{process_sample}
use wire_bonding_ultra.Impedance.Matrix.{
  AnomalyEvent, MatrixSnapshot, append_row, snapshot_recent, set_jump_threshold,
  set_phase_threshold,
}
use wire_bonding_ultra.Pullstrength.{
  MeyerPredictor, PullStrengthPrediction, push_phasor, latest_prediction, set_redline,
}
use wire_bonding_ultra.Impedance.Pipeline.Config.{
  Pipeline, PullEvent, zero_anomaly, zero_pull_event,
}

-- `if x != nil && n < len(out) { out[n] = *x; n++ }`, with the count before its slice.
abbrev pub store {ℓ} : {A : Type ℓ} → Option A → ℕ × List A → ℕ × List A
store none (n, out) = (n, out)
store (some x) (n, out) = if ltb n (length out) then (n + 1, set out n x) else (n, out)

module _ {ℓ} (arithmetic : Arithmetic {ℓ}) where
  open arithmetic use {F}

  -- The three results of Process, each `none` where the source returns nil.
  pub record Outcome : Type ℓ where
    pub frame : Option (PhasorFrame F)
    pub anomaly : Option (AnomalyEvent arithmetic)
    pub pull_event : Option (PullEvent arithmetic)

  abbrev pub nothing : Outcome
  nothing = record { frame = none; anomaly = none; pull_event = none }

  abbrev pub keep_anomaly :
      Option (AnomalyEvent arithmetic) → Pipeline arithmetic → Pipeline arithmetic
  keep_anomaly none p = p
  keep_anomaly (some event) p = record p { anomalies = put event p.anomalies }

  -- What is done with a prediction under the redline.
  abbrev pub raise_pull :
      ℕ
      → PullStrengthPrediction arithmetic
      → Pipeline arithmetic
      → Pipeline arithmetic × Option (PullEvent arithmetic)
  raise_pull now pred p =
      let id = (p.pull_event_seq + 1) % 2 ^ 64 in
      let event : PullEvent arithmetic = record {
        prediction = pred;
        event_id = id;
        triggered_at = now;
      } in
      (
        record p { pull_ready = true; pull_event_seq = id; pull_events = put event p.pull_events },
        some event,
      )

  abbrev pub judged :
      ℕ
      → Option (PullStrengthPrediction arithmetic)
      → Pipeline arithmetic
      → Pipeline arithmetic × Option (PullEvent arithmetic)
  judged now none p = (p, none)
  judged now (some pred) p = if pred.below_redline then raise_pull now pred p else (p, none)

  -- The predictor's part of Process; `now` is `time.Now()`.
  abbrev pub predict_pull :
      ℕ
      → WaveSample F
      → Phasor F
      → Phasor F
      → ImpedancePoint F
      → Option (MeyerPredictor arithmetic)
      → Pipeline arithmetic
      → Pipeline arithmetic × Option (PullEvent arithmetic)
  predict_pull now s v i zp none p = (p, none)
  predict_pull now s v i zp (some mp) p =
      let r = push_phasor arithmetic s.seq_no s.timestamp_ns v i zp mp in
      judged now r.1 (record p { meyer = some r.0 })

  -- What follows a row that the matrix took, or did not take.
  abbrev pub measured :
      ℕ
      → WaveSample F
      → Phasor F
      → Phasor F
      → Option (ImpedancePoint F × Option (AnomalyEvent arithmetic))
      → Pipeline arithmetic
      → Pipeline arithmetic × Outcome
  measured now s v i none p = (p, nothing)
  measured now s v i (some (zp, event)) p =
      let frame : PhasorFrame F = record {
        seq_no = s.seq_no;
        timestamp_ns = s.timestamp_ns;
        voltage_phasor = v;
        current_phasor = i;
        impedance = zp;
      } in
      let q = keep_anomaly event (record p { latest_frame = frame }) in
      let r = predict_pull now s v i zp q.meyer q in
      (r.0, record { frame = some frame; anomaly = event; pull_event = r.1 })

  -- What follows a pair of phasors, or none.
  abbrev pub filtered :
      ℕ
      → WaveSample F
      → Option (Phasor F × Phasor F)
      → Pipeline arithmetic
      → Pipeline arithmetic × Outcome
  filtered now s none p = (p, nothing)
  filtered now s (some (v, i)) p =
      let r = append_row arithmetic s.seq_no s.timestamp_ns v i p.matrix in
      measured now s v i r.1
        (record p { total_ready = (p.total_ready + 1) % 2 ^ 64; started = true; matrix = r.0 })

  unfoldable pub process : ℕ → WaveSample F → Pipeline arithmetic → Pipeline arithmetic × Outcome
  unfolding process_sample append_row push_phasor put
  process now s p =
      let r = process_sample arithmetic s p.phasor in
      filtered now s r.1 (record p {
        total_in = (p.total_in + 1) % 2 ^ 64;
        init_samples = p.init_samples + 1;
        phasor = r.0;
      })

  -- The counts and the slices of ProcessBatch.
  pub record Outputs : Type ℓ where
    pub frames : ℕ × List (PhasorFrame F)
    pub anomalies : ℕ × List (AnomalyEvent arithmetic)
    pub pull_events : ℕ × List (PullEvent arithmetic)

  abbrev pub stored : Outcome → Outputs → Outputs
  stored o out = record {
    frames = store o.frame out.frames;
    anomalies = store o.anomaly out.anomalies;
    pull_events = store o.pull_event out.pull_events;
  }

  -- Each sample stands with the time at which it is processed.
  unfoldable pub process_from :
      List (ℕ × WaveSample F) → Outputs → Pipeline arithmetic → Pipeline arithmetic × Outputs
  unfolding process
  process_from [] out p = (p, out)
  process_from ((now, s) ∷ samples) out p =
      let r = process now s p in process_from samples (stored r.1 out) r.0

  unfoldable pub process_batch :
      List (ℕ × WaveSample F)
      → List (PhasorFrame F)
      → List (AnomalyEvent arithmetic)
      → List (PullEvent arithmetic)
      → Pipeline arithmetic
      → Pipeline arithmetic × Outputs
  unfolding process_from
  process_batch samples frame_out anom_out pull_out p =
      process_from samples
        (record { frames = (0, frame_out); anomalies = (0, anom_out); pull_events = (0, pull_out) })
        p

  -- `none` where the second result is false.
  unfoldable pub latest : Pipeline arithmetic → PhasorFrame F × Bool
  latest p = (p.latest_frame, p.started)

  unfoldable pub snapshot : ℕ → Pipeline arithmetic → PhasorFrame F × MatrixSnapshot arithmetic × ℕ
  unfolding snapshot_recent
  snapshot last_n p =
      (p.latest_frame, snapshot_recent arithmetic last_n p.matrix, p.matrix.alarm_count)

  -- A count that is not positive is 0 here.
  unfoldable pub recent_anomalies : ℕ → Pipeline arithmetic → List (AnomalyEvent arithmetic)
  unfolding recent
  recent_anomalies count p = recent (zero_anomaly arithmetic) count p.anomalies

  unfoldable pub recent_pull_events : ℕ → Pipeline arithmetic → List (PullEvent arithmetic)
  unfolding recent
  recent_pull_events count p = recent (zero_pull_event arithmetic) count p.pull_events

  unfoldable pub jump_threshold : F → Pipeline arithmetic → Pipeline arithmetic
  unfolding set_jump_threshold
  jump_threshold pct p = record p { matrix = set_jump_threshold arithmetic pct p.matrix }

  unfoldable pub phase_threshold : F → Pipeline arithmetic → Pipeline arithmetic
  unfolding set_phase_threshold
  phase_threshold deg p = record p { matrix = set_phase_threshold arithmetic deg p.matrix }

  abbrev pub predicted :
      Option (MeyerPredictor arithmetic) → Option (PullStrengthPrediction arithmetic)
  predicted none = none
  predicted (some mp) = latest_prediction arithmetic mp

  unfoldable pub pull_prediction : Pipeline arithmetic → Option (PullStrengthPrediction arithmetic)
  unfolding latest_prediction
  pull_prediction p = predicted p.meyer

  abbrev pub predictions_of : Option (MeyerPredictor arithmetic) → ℕ
  predictions_of none = 0
  predictions_of (some mp) = mp.total_predictions

  unfoldable pub pull_total : Pipeline arithmetic → ℕ
  pull_total p = predictions_of p.meyer

  abbrev pub hits_of : Option (MeyerPredictor arithmetic) → ℕ
  hits_of none = 0
  hits_of (some mp) = mp.redline_hits

  unfoldable pub pull_redline_hits : Pipeline arithmetic → ℕ
  pull_redline_hits p = hits_of p.meyer

  abbrev pub redlined : F → Option (MeyerPredictor arithmetic) → Option (MeyerPredictor arithmetic)
  redlined grams none = none
  redlined grams (some mp) = some (set_redline arithmetic grams mp)

  unfoldable pub set_pull_redline : F → Pipeline arithmetic → Pipeline arithmetic
  unfolding set_redline
  set_pull_redline grams p = record p { meyer = redlined grams p.meyer }
