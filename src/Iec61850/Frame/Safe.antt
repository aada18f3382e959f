-- ===== src/Iec61850/Frame/Safe.antt =====
-- DecodeFull on any bytes, and what ExtractSamples makes of the sequence of data.
use wire_bonding_ultra.Prelude.{
  ℕ, zero, suc, ◌+◌, ◌*◌, ◌/◌, ◌%◌, ◌^◌, ◌<◌, ◌≡◌, refl, ap, ◌∙◌, ◌⊎◌, inl, inr, List, [], ◌∷◌,
  arith, Bool-cases, length, get_elem?, ltb, some,
}
use wire_bonding_ultra.Models.{WaveSample, RawFrame, ParsedAsdu, sample_interval_ns}
use wire_bonding_ultra.Models.Float64.{Float64}
use wire_bonding_ultra.Iec61850.Result.{Error, Result, ok, err}
use wire_bonding_ultra.Iec61850.Asdu.{Asdu}
use wire_bonding_ultra.Iec61850.Apdu.Safe.{ApduOverclaims}
use wire_bonding_ultra.Iec61850.Frame.{Decoder, be32, samples_from, extract_samples, elements_from}

-- A header field is read or refused, and does not panic.
abbrev IsErrOrOk {ℓ} : {A : Type ℓ} → Result A → Type ℓ
IsErrOrOk {A} r = ((e : Error) × (r ≡ err e)) ⊎ ((a : A) × (r ≡ ok a))

unfoldable HeaderReturns : RawFrame × Result ℕ → Type 0
HeaderReturns x = IsErrOrOk x.1

module _ {ℓ} (float : Float64 {ℓ}) where
  open float use {F, asdu_room, of_int32, mul}

  pub length-samples_from :
      (d : Decoder float) (asdu : Asdu) (rx n i : ℕ) → length (samples_from float d asdu rx n i) ≡ n
  unfolding samples_from
  length-samples_from d asdu rx zero i = refl
  length-samples_from d asdu rx (suc n) i = ap suc (length-samples_from d asdu rx n (i + 1))

  pub length-elements_from :
      (t : ℕ) (samples : List (WaveSample F)) (i : ℕ)
      → length (elements_from float t samples i) ≡ length samples
  unfolding elements_from
  length-elements_from t [] i = refl
  length-elements_from t (s ∷ samples) i = ap suc (length-elements_from t samples (i + 1))

  -- The sample that stands at number `i` of the data.
  abbrev pub sample_at : Decoder float → Asdu → ℕ → ℕ → WaveSample F
  sample_at d asdu rx i = record {
    timestamp_ns = (rx + i * sample_interval_ns) % 2 ^ 64;
    voltage = mul (of_int32 (be32 asdu.seq_data (i * 8 + 4))) d.voltage_scale;
    current = mul (of_int32 (be32 asdu.seq_data (i * 8))) d.current_scale;
    seq_no = (asdu.smp_cnt + i) % 2 ^ 32;
  }

  samples_from-at :
      (d : Decoder float) (asdu : Asdu) (rx n i k : ℕ)
      → k < n
      → get_elem? (samples_from float d asdu rx n i) k ≡ some (sample_at d asdu rx (i + k))
  unfolding samples_from
  samples_from-at d asdu rx zero i k h = absurd (omega arith)
  samples_from-at d asdu rx (suc n) i zero h =
      ap (λ j. some (sample_at d asdu rx j)) {x = i} {y = i + 0} (omega arith)
  samples_from-at d asdu rx (suc n) i (suc k) h =
      samples_from-at d asdu rx n (i + 1) k (omega arith)
      ∙ ap (λ j. some (sample_at d asdu rx j)) {x = i + 1 + k} {y = i + suc k} (omega arith)

  -- ExtractSamples gives one sample for every eight bytes of the data, leaving a shorter tail out.
  -- The k-th has the k-th pair of big-endian words, scaled, a time k sampling intervals behind the
  -- frame's and a number k behind the counter of the ASDU, which wraps at 2 ^ 32.
  pub extract_samples_at :
      (d : Decoder float) (asdu : Asdu) (rx k : ℕ)
      → (length (extract_samples float d asdu rx) ≡ length asdu.seq_data / 8)
        × (k < length asdu.seq_data / 8
            → get_elem? (extract_samples float d asdu rx) k ≡ some (sample_at d asdu rx k))
  unfolding extract_samples
  extract_samples_at d asdu rx k = elim (Bool-cases (ltb (length asdu.seq_data) 8)) [
    | inl short ↦ (rw short (ground arith), λ h. absurd (ground arith))
    | inr long ↦ (
      rw long (length-samples_from d asdu rx (length asdu.seq_data / 8) 0),
      λ h.
          rw long (samples_from-at d asdu rx (length asdu.seq_data / 8) 0 k h)
          ∙ ap (λ j. some (sample_at d asdu rx j)) {x = 0 + k} {y = k} (omega arith),
    )
  ]

  -- An error, or an ASDU with one data element for each sample.
  abbrev pub DecodeReturns : Result (ParsedAsdu F × List (WaveSample F)) → Type ℓ
  DecodeReturns r =
      ((e : Error) × (r ≡ err e))
      ⊎ ((parsed : ParsedAsdu F) × (samples : List (WaveSample F)) × (r ≡ ok (parsed, samples))
          × (length parsed.data_elements ≡ length samples))

  -- The APDU that starts somewhere in the payload claims more ASDUs than memory has room for.
  abbrev pub FrameOverclaims : List ℕ → Type 0
  FrameOverclaims payload = (start : ℕ) × ApduOverclaims asdu_room payload start
