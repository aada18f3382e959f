-- ===== src/Dsp/Tests.antt =====
-- A window of two samples. Numbers stand for floats.
use wire_bonding_ultra.Prelude.{ℕ, ◌-◌, List, [], ◌∷◌, ◌++◌, ◌≡◌, length, min}
use wire_bonding_ultra.Models.{WaveSample, Phasor}
use wire_bonding_ultra.Models.Whole.{whole}
use wire_bonding_ultra.Dsp.{WindowType, new_sliding_dft, update}
use wire_bonding_ultra.Dsp.Spectrum.{feed, values, spectrum, update_lem}
use wire_bonding_ultra.Dsp.DualPhasor.{new_dual_phasor_pipeline, reset_pipeline, process_batch}
use wire_bonding_ultra.Dsp.DualPhasor.Ready.{process_all, reset_pipeline_lem}
use wire_bonding_ultra.Dsp.DualPhasor.Count.{window, process_batch-count}

abbrev log : List (ℕ × ℕ)
log = (3, 10) ∷ (4, 20) ∷ []

update_lem_example :
    (update whole 5 30 (feed whole log (new_sliding_dft whole 2 1 8 WindowType.rectangular))).1
    ≡ spectrum whole WindowType.rectangular
        (new_sliding_dft whole 2 1 8 WindowType.rectangular)
        30
        (values whole log ++ (5 ∷ []))
update_lem_example = update_lem whole 2 1 8 WindowType.rectangular log 5 30

abbrev sample : ℕ → WaveSample ℕ
sample n = record { timestamp_ns = n; voltage = n; current = n; seq_no = n }

abbrev samples : List (WaveSample ℕ)
samples = sample 1 ∷ sample 2 ∷ sample 3 ∷ []

abbrev no_phasor : Phasor ℕ
no_phasor = record { real = 0; imag = 0; magnitude = 0; angle = 0; freq_hz = 0 }

abbrev room : List (Phasor ℕ)
room = no_phasor ∷ no_phasor ∷ no_phasor ∷ no_phasor ∷ []

process_batch-count_example :
    (process_batch whole samples room room (new_dual_phasor_pipeline whole 2 1 8)).1.ready_count
    ≡ min (length samples) (min (length room) (length room)) - (window whole 2 1 8 - 1)
process_batch-count_example = process_batch-count whole 2 1 8 samples room room

reset_pipeline_lem_example :
    reset_pipeline whole (process_all whole samples (new_dual_phasor_pipeline whole 2 1 8))
    ≡ record (new_dual_phasor_pipeline whole 2 1 8) {
      tracked_freq =
          (process_all whole samples (new_dual_phasor_pipeline whole 2 1 8)).tracked_freq;
    }
reset_pipeline_lem_example = reset_pipeline_lem whole 2 1 8 samples
