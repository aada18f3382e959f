-- ===== src/Impedance/Pipeline/Batch.antt =====
-- ProcessBatch: the three slices that it fills, and its counts.
use wire_bonding_ultra.Prelude.{
  ℕ, suc, ◌≤◌, ◌≡◌, refl, ap, ap₂, sym, ◌∙◌, arith, List, [], ◌∷◌, ◌++◌, append-nil, append_assoc,
  length, length-append, true, false, Option, none, some, ltb, set, min, dec_lt,
}
use wire_bonding_ultra.Models.{WaveSample, PhasorFrame}
use wire_bonding_ultra.Models.Arithmetic.{Arithmetic}
use wire_bonding_ultra.Impedance.Matrix.{AnomalyEvent}
use wire_bonding_ultra.Impedance.Pipeline.{
  Outcome, Outputs, process, store, stored, process_from, process_batch,
}
use wire_bonding_ultra.Impedance.Pipeline.Config.{Pipeline, PullEvent}

module _ {ℓ} {A : Type ℓ} where
  -- The values that are there.
  abbrev pub some_of : List (Option A) → List A
  some_of [] = []
  some_of (none ∷ xs) = some_of xs
  some_of (some x ∷ xs) = x ∷ some_of xs

  -- A slice with the values of a list over its first entries, as many as it has room for.
  abbrev pub overwrite : List A → List A → List A
  overwrite [] out = out
  overwrite (x ∷ xs) [] = []
  overwrite (x ∷ xs) (y ∷ out) = x ∷ overwrite xs out

  abbrev pub filled : List A → List A → ℕ × List A
  filled xs out = (min (length xs) (length out), overwrite xs out)

  pub length-overwrite : (xs out : List A) → length (overwrite xs out) ≡ length out
  length-overwrite [] out = refl
  length-overwrite (x ∷ xs) [] = refl
  length-overwrite (x ∷ xs) (y ∷ out) = ap suc (length-overwrite xs out)

  set-overwrite :
      (xs out : List A) (x : A)
      → set (overwrite xs out) (length xs) x ≡ overwrite (xs ++ (x ∷ [])) out
  set-overwrite [] [] x = refl
  set-overwrite [] (y ∷ out) x = refl
  set-overwrite (z ∷ xs) [] x = refl
  set-overwrite (z ∷ xs) (y ∷ out) x = ap (λ t. z ∷ t) (set-overwrite xs out x)

  overwrite_all :
      (xs out : List A) (x : A)
      → length out ≤ length xs
      → overwrite (xs ++ (x ∷ [])) out ≡ overwrite xs out
  overwrite_all [] [] x h = refl
  overwrite_all [] (y ∷ out) x h = absurd (omega arith)
  overwrite_all (z ∷ xs) [] x h = refl
  overwrite_all (z ∷ xs) (y ∷ out) x h = ap (λ t. z ∷ t) (overwrite_all xs out x (omega arith))

  store-filled :
      (xs out : List A) (o : Option A)
      → store o (filled xs out) ≡ filled (xs ++ some_of (o ∷ [])) out
  store-filled xs out none = ap (λ t. filled t out) (sym (append-nil xs))
  store-filled xs out (some x) =
      let size = length-overwrite xs out in
      let longer = length-append xs (x ∷ []) in
      elim (dec_lt (length xs) (length out)) [
        | yes room ↦
            let test : ltb (min (length xs) (length out)) (length (overwrite xs out)) ≡ true =
              ground (arith, size) in
            rw test (
              ap₂ (λ (n : ℕ) (t : List A). (n, t)) (omega (arith, longer))
                (ap (λ n. set (overwrite xs out) n x) (omega arith) ∙ set-overwrite xs out x))
        | no short ↦
            let test : ltb (min (length xs) (length out)) (length (overwrite xs out)) ≡ false =
              ground (arith, size) in
            rw test (
              ap₂ (λ (n : ℕ) (t : List A). (n, t)) (omega (arith, longer))
                (sym (overwrite_all xs out x (omega arith))))
      ]

  -- One value after another.
  abbrev store_all : List (Option A) → ℕ × List A → ℕ × List A
  store_all [] out = out
  store_all (o ∷ os) out = store_all os (store o out)

  some_of_one :
      (o : Option A) (os : List (Option A)) → some_of (o ∷ []) ++ some_of os ≡ some_of (o ∷ os)
  some_of_one none os = refl
  some_of_one (some x) os = refl

  store_all-filled :
      (xs out : List A) (os : List (Option A))
      → store_all os (filled xs out) ≡ filled (xs ++ some_of os) out
  store_all-filled xs out [] = ap (λ t. filled t out) (sym (append-nil xs))
  store_all-filled xs out (o ∷ os) =
      ap (store_all os) (store-filled xs out o)
      ∙ store_all-filled (xs ++ some_of (o ∷ [])) out os
      ∙ ap (λ t. filled t out)
          (append_assoc xs (some_of (o ∷ [])) (some_of os) ∙ ap (λ t. xs ++ t) (some_of_one o os))

  store_all_lem :
      (out : List A) (os : List (Option A)) → store_all os (0, out) ≡ filled (some_of os) out
  store_all_lem out os = ap (λ n. store_all os (n, out)) (omega arith) ∙ store_all-filled [] out os

module _ {ℓ} (arithmetic : Arithmetic {ℓ}) where
  open arithmetic use {F}

  -- What Process returns for each of the samples.
  unfoldable pub outcomes :
      List (ℕ × WaveSample F) → Pipeline arithmetic → List (Outcome arithmetic)
  unfolding process
  outcomes [] p = []
  outcomes ((now, s) ∷ samples) p = let r = process arithmetic now s p in r.1 ∷ outcomes samples r.0

  abbrev pub frames_of : List (Outcome arithmetic) → List (Option (PhasorFrame F))
  frames_of [] = []
  frames_of (o ∷ os) = o.frame ∷ frames_of os

  abbrev pub anomalies_of : List (Outcome arithmetic) → List (Option (AnomalyEvent arithmetic))
  anomalies_of [] = []
  anomalies_of (o ∷ os) = o.anomaly ∷ anomalies_of os

  abbrev pub pulls_of : List (Outcome arithmetic) → List (Option (PullEvent arithmetic))
  pulls_of [] = []
  pulls_of (o ∷ os) = o.pull_event ∷ pulls_of os

  process_from-store_all :
      (samples : List (ℕ × WaveSample F)) (out : Outputs arithmetic) (p : Pipeline arithmetic)
      → let os = outcomes samples p in
        let r = (process_from arithmetic samples out p).1 in
        (r.frames ≡ store_all (frames_of os) out.frames)
        × (r.anomalies ≡ store_all (anomalies_of os) out.anomalies)
        × (r.pull_events ≡ store_all (pulls_of os) out.pull_events)
  unfolding process_from outcomes
  process_from-store_all [] out p = (refl, refl, refl)
  process_from-store_all ((now, s) ∷ samples) out p =
      let r = process arithmetic now s p in
      process_from-store_all samples (stored arithmetic r.1 out) r.0

  -- ProcessBatch writes the frames, the anomalies and the pull events that Process returns for the
  -- samples one after another over the first entries of the three slices, each as far as its slice has
  -- room, and returns how many of each it wrote.
  pub process_batch_lem :
      (samples : List (ℕ × WaveSample F)) (frame_out : List (PhasorFrame F))
      (anom_out : List (AnomalyEvent arithmetic)) (pull_out : List (PullEvent arithmetic))
      (p : Pipeline arithmetic)
      → let os = outcomes samples p in
        let r = (process_batch arithmetic samples frame_out anom_out pull_out p).1 in
        (r.frames ≡ filled (some_of (frames_of os)) frame_out)
        × (r.anomalies ≡ filled (some_of (anomalies_of os)) anom_out)
        × (r.pull_events ≡ filled (some_of (pulls_of os)) pull_out)
  unfolding process_batch
  process_batch_lem samples frame_out anom_out pull_out p =
      let os = outcomes samples p in
      let (frames, anomalies, pulls) =
        process_from-store_all samples
          (record {
            frames = (0, frame_out);
            anomalies = (0, anom_out);
            pull_events = (0, pull_out);
          })
          p in
      (
        frames ∙ store_all_lem frame_out (frames_of os),
        anomalies ∙ store_all_lem anom_out (anomalies_of os),
        pulls ∙ store_all_lem pull_out (pulls_of os),
      )
