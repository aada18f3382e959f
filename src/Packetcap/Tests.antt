-- ===== src/Packetcap/Tests.antt =====
-- Concrete frames and TLVs, written and read back.
use wire_bonding_ultra.Prelude.{
  ℕ, ◌%◌, ◌^◌, ◌+◌, ◌*◌, ◌<◌, ◌≡◌, List, [], ◌∷◌, arith, length, get_elem?, some,
}
use wire_bonding_ultra.Models.{WaveSample, ParsedAsdu}
use wire_bonding_ultra.Models.Float64.{Float64}
use wire_bonding_ultra.Iec61850.Result.{ok}
use wire_bonding_ultra.Iec61850.Asdu.{empty_asdu, parse_sv_asdu}
use wire_bonding_ultra.Iec61850.Frame.{Decoder, decode_full}
use wire_bonding_ultra.Packetcap.{Waveform, build_sv_frame, new_packet_capture, simulate_batch}
use wire_bonding_ultra.Packetcap.Batch.{frame_at, simulate_batch_lem}
use wire_bonding_ultra.Packetcap.Parse.{Field, encoded, apply_all, parse_sv_asdu-encoded}
use wire_bonding_ultra.Packetcap.Samples.{built_sample, decode_full-build_sv_frame}

abbrev two_fields : List Field
two_fields = (0x82, 0 ∷ 0 ∷ 1 ∷ 0 ∷ []) ∷ (0x85, 2 ∷ []) ∷ []

parse_sv_asdu-encoded_example :
    parse_sv_asdu (encoded ((0x80, 0x41 ∷ []) ∷ two_fields))
    ≡ ok (apply_all two_fields (record empty_asdu { sv_id = 0x41 ∷ [] }))
parse_sv_asdu-encoded_example =
    parse_sv_asdu-encoded (0x41 ∷ []) two_fields (omega arith) (omega arith, (omega arith, tt))

-- A ramp in place of the sine, and bit patterns in place of floats.
abbrev ramp : Waveform
ramp phase = (phase, phase + 7)

abbrev bits : Float64 {0}
bits = record { F = ℕ; of_int32 = λ w. w; mul = λ a b. a * b; asdu_room = 64 }

abbrev decoder : Decoder bits
decoder = record { voltage_scale = 2; current_scale = 3 }

decode_full-build_sv_frame_example :
    (parsed : ParsedAsdu ℕ) × (samples : List (WaveSample ℕ)) × ((decode_full bits decoder 0
        (build_sv_frame ramp 500 80 0 1000)).1
      ≡ ok (parsed, samples))
    × (parsed.seq_no ≡ 500)
    × (length samples ≡ 80)
    × ((k : ℕ) → k < 80 → get_elem? samples k ≡ some (built_sample bits decoder ramp 500 0 1000 k))
decode_full-build_sv_frame_example =
    decode_full-build_sv_frame bits decoder 0 ramp 500 80 0 1000 (omega arith) (omega arith)
      (omega arith)

first_phase : new_packet_capture.phase_acc < 2 ^ 32
unfolding new_packet_capture
first_phase = omega arith

simulate_batch_lem_example :
    (let (frames, pc') = simulate_batch ramp 1000 3 0 4_294_967_295 new_packet_capture in
      (length frames ≡ 3)
      × (pc'.rx_packets % 2 ^ 64 ≡ (new_packet_capture.rx_packets + 3) % 2 ^ 64)
      × (pc'.base_smpcnt % 2 ^ 32 ≡ (4_294_967_295 + 3 * 80) % 2 ^ 32)
      × (get_elem? frames 1
          ≡ some (frame_at ramp 80 1000 4_294_967_295 new_packet_capture.phase_acc 1)))
simulate_batch_lem_example =
    simulate_batch_lem ramp 1000 3 0 4_294_967_295 1 new_packet_capture (omega arith) first_phase
      (omega arith)
