-- ===== src/Dsp/DualPhasor/Count.antt =====
-- How many pairs of phasors a batch comes to.
use wire_bonding_ultra.Prelude.{
  ℕ, ◌+◌, ◌-◌, ◌<◌, List, [], ◌∷◌, ◌++◌, Bool, ◌&&◌, Option, none, some, is_some, length,
  length-append, length-set, ltb, leb, if◌then◌else◌, ◌≡◌, refl, ap, ap₂, sym, ◌∙◌, arith, min,
  Bool-cases, inl, inr,
}
use wire_bonding_ultra.Models.{WaveSample, Phasor}
use wire_bonding_ultra.Models.Arithmetic.{Arithmetic}
use wire_bonding_ultra.Dsp.{WindowType, new_sliding_dft}
use wire_bonding_ultra.Dsp.Spectrum.{window_size_positive}
use wire_bonding_ultra.Dsp.DualPhasor.{
  DualPhasorPipeline, new_dual_phasor_pipeline, process_sample, process_from, process_batch, Batch,
  written,
}
use wire_bonding_ultra.Dsp.DualPhasor.Ready.{process_all, process_sample-ready}

ltb-min : (i a b : ℕ) → ltb i (min a b) ≡ (ltb i a && ltb i b)
ltb-min i a b = ground arith

-- How many pairs the first `i` samples have filled, for a window of `n` and slices of `m`.
abbrev filled : ℕ → ℕ → ℕ → ℕ
filled n m i = min i m - (n - 1)

filled_step :
    (n m i count count' : ℕ) (ready : Bool)
    → 0 < n
    → count ≡ filled n m i
    → ready ≡ leb n (i + 1)
    → count' ≡ (if ready && ltb i m then count + 1 else count)
    → count' ≡ filled n m (i + 1)
filled_step n m i count count' ready h e r c = ground (arith, r, c)

module _ {ℓ} (arithmetic : Arithmetic {ℓ}) where
  open arithmetic use {F}

  -- A batch's slices keep their lengths, and a pair that has room in both is counted.
  record Fills (out : Batch arithmetic) (counted : Bool) (out' : Batch arithmetic) : Type 0 where
    volt : length out'.volt_out ≡ length out.volt_out
    curr : length out'.curr_out ≡ length out.curr_out
    count : out'.ready_count ≡ (if counted then out.ready_count + 1 else out.ready_count)

  written-Fills :
      (i : ℕ) (pair : Option (Phasor F × Phasor F)) (out : Batch arithmetic)
      → Fills out
          (is_some pair && ltb i (min (length out.volt_out) (length out.curr_out)))
          (written arithmetic i pair out)
  written-Fills i none out = record { volt = refl; curr = refl; count = refl }
  written-Fills i (some (v, c)) out =
      let room = ltb-min i (length out.volt_out) (length out.curr_out) in
      elim (Bool-cases (ltb i (length out.volt_out) && ltb i (length out.curr_out))) [
        | inl e ↦
            rw (room, e)
              (record {
                volt = length-set out.volt_out i v;
                curr = length-set out.curr_out i c;
                count = refl;
              })
        | inr e ↦ rw (room, e) (record { volt = refl; curr = refl; count = refl })
      ]

  process_all-append :
      (log : List (WaveSample F)) (s : WaveSample F) (dp : DualPhasorPipeline arithmetic)
      → process_all arithmetic (log ++ (s ∷ [])) dp
        ≡ (process_sample arithmetic s (process_all arithmetic log dp)).0
  unfolding process_all
  process_all-append [] s dp = refl
  process_all-append (t ∷ log) s dp = process_all-append log s (process_sample arithmetic t dp).0

  -- The window and the pipeline that were made.
  abbrev pub window : ℕ → F → F → ℕ
  window asked freq rate = (new_sliding_dft arithmetic asked freq rate WindowType.hann).window_size

  process_from-count :
      (asked : ℕ) (freq rate : F) (log samples : List (WaveSample F)) (i : ℕ)
      (dp : DualPhasorPipeline arithmetic) (out : Batch arithmetic)
      → length log ≡ i
      → process_all arithmetic log (new_dual_phasor_pipeline arithmetic asked freq rate) ≡ dp
      → out.ready_count
        ≡ filled (window asked freq rate) (min (length out.volt_out) (length out.curr_out)) i
      → (process_from arithmetic samples i out dp).1.ready_count
        ≡ filled
            (window asked freq rate)
            (min (length out.volt_out) (length out.curr_out))
            (i + length samples)
  unfolding process_from
  process_from-count asked freq rate log [] i dp out at run e = e ∙ omega arith
  process_from-count asked freq rate log (s ∷ samples) i dp out at run e =
      let n = window asked freq rate in
      let m = min (length out.volt_out) (length out.curr_out) in
      let pair = (process_sample arithmetic s dp).1 in
      let out' = written arithmetic i pair out in
      let fills = written-Fills i pair out in
      let ready : is_some pair ≡ leb n (i + 1) =
        ap (λ (d : DualPhasorPipeline arithmetic). is_some (process_sample arithmetic s d).1)
          (sym run)
        ∙ process_sample-ready arithmetic asked freq rate log s
        ∙ ap (λ k. leb n (k + 1)) at in
      let room : min (length out'.volt_out) (length out'.curr_out) ≡ m =
        ap₂ (λ (a b : ℕ). min a b) fills.volt fills.curr in
      let next =
        filled_step n m i out.ready_count out'.ready_count (is_some pair)
          (window_size_positive arithmetic asked freq rate WindowType.hann) e ready fills.count in
      process_from-count asked freq rate (log ++ (s ∷ [])) samples (i + 1)
        (process_sample arithmetic s dp).0 out' (length-append log (s ∷ []) ∙ ap (λ k. k + 1) at)
        (process_all-append log s (new_dual_phasor_pipeline arithmetic asked freq rate)
          ∙ ap (λ (d : DualPhasorPipeline arithmetic). (process_sample arithmetic s d).0) run)
        (next ∙ ap (λ k. filled n k (i + 1)) (sym room))
      ∙ ap₂ (λ (a b : ℕ). filled n a b) room (omega arith)

  -- A new pipeline's ProcessBatch counts a pair for every sample from the one that fills the window on,
  -- as far as both output slices have room at the sample's index.
  pub process_batch-count :
      (asked : ℕ) (freq rate : F) (samples : List (WaveSample F))
      (volt_out curr_out : List (Phasor F))
      → (process_batch arithmetic samples volt_out curr_out
          (new_dual_phasor_pipeline arithmetic asked freq rate)).1.ready_count
        ≡ min (length samples) (min (length volt_out) (length curr_out))
          - (window asked freq rate - 1)
  unfolding process_batch process_all
  process_batch-count asked freq rate samples volt_out curr_out =
      process_from-count asked freq rate [] samples 0
        (new_dual_phasor_pipeline arithmetic asked freq rate)
        (record { ready_count = 0; volt_out = volt_out; curr_out = curr_out }) refl refl
        (omega arith)
      ∙ omega arith
