-- ===== src/Impedance/Tests.antt =====
-- A few rows and samples. Numbers stand for floats.
use wire_bonding_ultra.Prelude.{ℕ, ◌*◌, List, [], ◌∷◌, ◌≡◌, refl, length, true}
use wire_bonding_ultra.Impedance.Matrix.{new_matrix, append_row}
use wire_bonding_ultra.Impedance.Matrix.Latest.{Appended, append_row_lem, new_matrix-IsValid}
use wire_bonding_ultra.Models.{Phasor}
use wire_bonding_ultra.Models.Arithmetic.{of_int, times}
use wire_bonding_ultra.Models.Whole.{whole}
use wire_bonding_ultra.Models.{WaveSample, PhasorFrame}
use wire_bonding_ultra.Circle.Log.{last}
use wire_bonding_ultra.Circle.Recent.{shown}
use wire_bonding_ultra.Impedance.Matrix.{snapshot_recent}
use wire_bonding_ultra.Impedance.Matrix.Snapshot.{
  Input, append_all, rows_taken, snapshot_recent_lem,
}
use wire_bonding_ultra.Impedance.Pipeline.{process_batch, recent_anomalies, recent_pull_events}
use wire_bonding_ultra.Impedance.Pipeline.Config.{
  PipelineConfig, new_pipeline, or_size, zero_frame, zero_anomaly, zero_pull_event,
}
use wire_bonding_ultra.Impedance.Pipeline.Logs.{Op, ids, ids_from, run}
use wire_bonding_ultra.Impedance.Pipeline.Recent.{
  start, recent_anomalies_lem, recent_pull_events_lem,
}
use wire_bonding_ultra.Impedance.Pipeline.Batch.{
  some_of, filled, outcomes, frames_of, anomalies_of, pulls_of, process_batch_lem,
}

abbrev voltage : Phasor ℕ
voltage = record { real = 6; imag = 0; magnitude = 6; angle = 0; freq_hz = 4 }

abbrev current : Phasor ℕ
current = record { real = 2; imag = 0; magnitude = 2; angle = 0; freq_hz = 4 }

append_row_lem_example :
    Appended whole voltage current 7 1000
      (new_matrix whole 4)
      (append_row whole 7 1000 voltage current (new_matrix whole 4))
append_row_lem_example =
    append_row_lem whole 7 1000 voltage current (new_matrix whole 4) (new_matrix-IsValid whole 4)

abbrev inputs : List (Input whole)
inputs =
    record { seq_no = 1; ts = 10; voltage = voltage; current = current }
    ∷ record { seq_no = 2; ts = 20; voltage = voltage; current = current }
    ∷ record { seq_no = 3; ts = 30; voltage = voltage; current = current }
    ∷ []

snapshot_recent_lem_example :
    (snapshot_recent whole 1 (append_all whole inputs (new_matrix whole 2))).entries
    ≡ last
        (shown 1 (new_matrix whole 2).rows (rows_taken whole inputs (new_matrix whole 2)))
        (rows_taken whole inputs (new_matrix whole 2))
snapshot_recent_lem_example = snapshot_recent_lem whole 2 1 inputs

abbrev sample : ℕ → WaveSample ℕ
sample n = record { timestamp_ns = n * 10_000; voltage = 6; current = 2; seq_no = n }

abbrev cfg : PipelineConfig whole
cfg = record {
  window_size = 4;
  target_hz = 1;
  sample_hz = 8;
  matrix_rows = 4;
  max_anomalies = 2;
  enable_pull_pred = true;
  max_pull_events = 2;
  pull_redline_g = 1_000_000_000_000_000_000;
}

abbrev ops : List (Op whole)
ops =
    Op.sample 1 (sample 1)
    ∷ Op.sample 2 (sample 2)
    ∷ Op.restart
    ∷ Op.sample 3 (sample 3)
    ∷ Op.sample 4 (sample 4)
    ∷ Op.sample 5 (sample 5)
    ∷ Op.sample 6 (sample 6)
    ∷ Op.sample 7 (sample 7)
    ∷ Op.sample 8 (sample 8)
    ∷ Op.sample 9 (sample 9)
    ∷ Op.sample 10 (sample 10)
    ∷ []

recent_anomalies_lem_example :
    recent_anomalies whole 1 (run whole ops (start whole cfg)).0
    ≡ last
        (shown 1 (or_size 1024 2) (run whole ops (start whole cfg)).1.anomalies)
        (run whole ops (start whole cfg)).1.anomalies
recent_anomalies_lem_example = recent_anomalies_lem whole cfg ops 1

recent_pull_events_lem_example :
    (recent_pull_events whole 1 (run whole ops (start whole cfg)).0
      ≡ last
          (shown 1 (or_size 1024 2) (run whole ops (start whole cfg)).1.pulls)
          (run whole ops (start whole cfg)).1.pulls)
    × (ids whole (run whole ops (start whole cfg)).1.pulls
        ≡ ids_from
            (run whole ops (start whole cfg)).1.base
            (length (run whole ops (start whole cfg)).1.pulls))
recent_pull_events_lem_example = recent_pull_events_lem whole cfg ops 1

abbrev timed : List (ℕ × WaveSample ℕ)
timed =
    (1, sample 1)
    ∷ (2, sample 2)
    ∷ (3, sample 3)
    ∷ (4, sample 4)
    ∷ (5, sample 5)
    ∷ (6, sample 6)
    ∷ (7, sample 7)
    ∷ (8, sample 8)
    ∷ []

abbrev two_frames : List (PhasorFrame ℕ)
two_frames = zero_frame whole ∷ zero_frame whole ∷ []

process_batch_lem_example :
    (let os = outcomes whole timed (new_pipeline whole cfg) in
      let r =
        (process_batch whole timed two_frames
          (zero_anomaly whole ∷ [])
          (zero_pull_event whole ∷ [])
          (new_pipeline whole cfg)).1 in
      (r.frames ≡ filled (some_of (frames_of whole os)) two_frames)
      × (r.anomalies ≡ filled (some_of (anomalies_of whole os)) (zero_anomaly whole ∷ []))
      × (r.pull_events ≡ filled (some_of (pulls_of whole os)) (zero_pull_event whole ∷ [])))
process_batch_lem_example =
    process_batch_lem whole timed two_frames (zero_anomaly whole ∷ []) (zero_pull_event whole ∷ [])
      (new_pipeline whole cfg)

-- How many pull events, rows and frames there are.
logged :
    (length (run whole ops (start whole cfg)).1.pulls ≡ 2)
    × (length (rows_taken whole inputs (new_matrix whole 2)) ≡ 3)
    × (length (some_of (frames_of whole (outcomes whole timed (new_pipeline whole cfg)))) ≡ 5)
unfolding outcomes new_pipeline rows_taken run of_int times
logged = (refl, refl, refl)
