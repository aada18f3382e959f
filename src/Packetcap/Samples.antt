-- ===== src/Packetcap/Samples.antt =====
-- The samples that DecodeFull finds in a frame that buildSVFramePureGo builds.
use wire_bonding_ultra.Prelude.{
  ℕ, ◌+◌, ◌*◌, ◌/◌, ◌%◌, ◌^◌, ◌≤◌, ◌<◌, ◌≡◌, refl, ◌∙◌, List, arith, length, get_elem?, some,
}
use wire_bonding_ultra.Models.{WaveSample, ParsedAsdu, sample_interval_ns}
use wire_bonding_ultra.Models.Float64.{Float64}
use wire_bonding_ultra.Iec61850.Result.{ok}
use wire_bonding_ultra.Iec61850.Frame.{
  Decoder, sv_header, decode_payload, decode_full, decoded, extract_samples,
}
use wire_bonding_ultra.Iec61850.Frame.Safe.{extract_samples_at}
use wire_bonding_ultra.Packetcap.{Waveform, build_asdu, build_apdu, build_sv_frame}
use wire_bonding_ultra.Packetcap.Roundtrip.{
  built_asdu, parse_sv_asdu-build_asdu, parse_apdu-build_apdu, length-seq_data_from,
  length-build_asdu,
}
use wire_bonding_ultra.Packetcap.Decode.{
  framed, build_sv_frame-frame, parse_ethernet_header-frame, parse_sv_header-frame, pair_at,
  seq_data_from-words,
}

module _ {ℓ} (float : Float64 {ℓ}) where
  open float use {F, asdu_room, of_int32, mul}

  decode_full-frame :
      (d : Decoder float) (now : ℕ) (wave : Waveform) (smpcnt n phase_acc rx : ℕ)
      → 1 ≤ asdu_room
      → smpcnt < 2 ^ 32
      → n ≤ 8000
      → (decode_full float d now (build_sv_frame wave smpcnt n phase_acc rx)).1
        ≡ ok (
            decoded float d now
              (sv_header (build_sv_frame wave smpcnt n phase_acc rx).payload 14)
              (built_asdu wave smpcnt n phase_acc)
              rx)
  unfolding decode_full decode_payload
  decode_full-frame d now wave smpcnt n phase_acc rx room hs hn =
      let raw = build_asdu wave smpcnt n phase_acc in
      let apdu = build_apdu raw in
      let hi = length apdu / 2 ^ 8 % 2 ^ 8 in
      let lo = length apdu % 2 ^ 8 in
      rw
        (
          build_sv_frame-frame wave smpcnt n phase_acc rx,
          parse_ethernet_header-frame hi lo apdu rx,
          parse_sv_header-frame hi lo apdu,
          parse_apdu-build_apdu asdu_room (framed hi lo apdu) 22 raw
              (built_asdu wave smpcnt n phase_acc) room
              (length-build_asdu wave smpcnt n phase_acc hn)
              (parse_sv_asdu-build_asdu wave smpcnt n phase_acc hs hn) refl,
        )
        refl

  -- Sample `k`, from the waveform.
  abbrev pub built_sample : Decoder float → Waveform → ℕ → ℕ → ℕ → ℕ → WaveSample F
  built_sample d wave smpcnt phase_acc rx k = record {
    timestamp_ns = (rx + k * sample_interval_ns) % 2 ^ 64;
    voltage = mul (of_int32 ((pair_at wave phase_acc k).1 % 2 ^ 32)) d.voltage_scale;
    current = mul (of_int32 ((pair_at wave phase_acc k).0 % 2 ^ 32)) d.current_scale;
    seq_no = (smpcnt + k) % 2 ^ 32;
  }

  -- DecodeFull, on a frame that buildSVFramePureGo builds of at most 8000 samples, gives that many
  -- samples under the frame's counter, a uint32, where memory has room for one ASDU. Sample k has the scaled current and voltage that the
  -- waveform gave for it, the frame's time and k sampling intervals, and the counter plus k.
  pub decode_full-build_sv_frame :
      (d : Decoder float) (now : ℕ) (wave : Waveform) (smpcnt n phase_acc rx : ℕ)
      → 1 ≤ asdu_room
      → smpcnt < 2 ^ 32
      → n ≤ 8000
      → (parsed : ParsedAsdu F) × (samples : List (WaveSample F)) × ((decode_full float d now
            (build_sv_frame wave smpcnt n phase_acc rx)).1
          ≡ ok (parsed, samples))
        × (parsed.seq_no ≡ smpcnt)
        × (length samples ≡ n)
        × ((k : ℕ) → k < n → get_elem? samples k ≡ some (built_sample d wave smpcnt phase_acc rx k))
  decode_full-build_sv_frame d now wave smpcnt n phase_acc rx room hs hn =
      let asdu = built_asdu wave smpcnt n phase_acc in
      let size = length-seq_data_from wave phase_acc n 0 in
      let header = sv_header (build_sv_frame wave smpcnt n phase_acc rx).payload 14 in
      (
        (decoded float d now header asdu rx).0,
        extract_samples float d asdu rx,
        decode_full-frame d now wave smpcnt n phase_acc rx room hs hn,
        refl,
        omega (arith, (extract_samples_at float d asdu rx 0).0, size),
        λ k h.
            let (current, voltage) = seq_data_from-words wave phase_acc n k h in
            (extract_samples_at float d asdu rx k).1 (omega (arith, size, h))
            ∙ rw (current, voltage) refl,
      )
