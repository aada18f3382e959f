-- ===== src/Iec61850/Tests.antt =====
-- Concrete runs of the decoder. A float is its bit pattern here.
use wire_bonding_ultra.Prelude.{
  ℕ, ◌*◌, ◌/◌, ◌<◌, ◌≡◌, refl, List, [], ◌∷◌, ◌++◌, take, length, get_elem?, some,
}
use wire_bonding_ultra.Models.{RawFrame}
use wire_bonding_ultra.Models.Float64.{Float64}
use wire_bonding_ultra.Iec61850.Result.{Error, ok, err, panic}
use wire_bonding_ultra.Iec61850.Ber.{
  read_tlv, read_ber_tag, read_ber_length, decode_integer32, decode_utc_time,
}
use wire_bonding_ultra.Iec61850.Asdu.{Asdu, empty_asdu}
use wire_bonding_ultra.Iec61850.Frame.{
  Decoder, extract_samples, decode_full, parse_ethernet_header, parse_sv_header,
}
use wire_bonding_ultra.Iec61850.Apdu.{parse_apdu}
use wire_bonding_ultra.Iec61850.Frame.Safe.{sample_at, extract_samples_at}

-- A TLV of two bytes, and one that claims more than there is.
abbrev bytes : List ℕ
bytes = 0x80 ∷ 2 ∷ 7 ∷ 8 ∷ 0x81 ∷ 9 ∷ []

read_tlv_first : read_tlv bytes 0 ≡ ok (0x80, 7 ∷ 8 ∷ [], 4)
unfolding read_tlv read_ber_tag read_ber_length
read_tlv_first = refl

read_tlv_short : read_tlv bytes 4 ≡ err Error.frame_too_short
unfolding read_tlv read_ber_tag read_ber_length
read_tlv_short = refl

-- A fraction of a second has 24 binary digits; decodeUtcTime takes it for microseconds, so half a
-- second is read as more than eight.
half_second : decode_utc_time (0 ∷ 0 ∷ 0 ∷ 0 ∷ 0x80 ∷ 0 ∷ 0 ∷ 0 ∷ []) ≡ ok 8_388_608_000
unfolding decode_utc_time
half_second = refl

abbrev bits : Float64 {0}
bits = record { F = ℕ; of_int32 = λ w. w; mul = λ a b. a * b; asdu_room = 64 }

abbrev decoder : Decoder bits
decoder = record { voltage_scale = 2; current_scale = 3 }

abbrev one_sample : Asdu
one_sample = record empty_asdu {
  smp_cnt = 4_294_967_295;
  seq_data = 0 ∷ 0 ∷ 1 ∷ 0 ∷ 0 ∷ 0 ∷ 0 ∷ 5 ∷ 9 ∷ [];
}

extract_samples_at_example :
    (length (extract_samples bits decoder one_sample 100) ≡ length one_sample.seq_data / 8)
    × (0 < length one_sample.seq_data / 8
        → get_elem? (extract_samples bits decoder one_sample 100) 0
          ≡ some (sample_at bits decoder one_sample 100 0))
extract_samples_at_example = extract_samples_at bits decoder one_sample 100 0

-- It claims one ASDU, whose fields are empty.
abbrev claiming_frame : RawFrame
claiming_frame = record {
  rx_time_ns = 0;
  payload =
      1 ∷ 2 ∷ 3 ∷ 4 ∷ 5 ∷ 6 ∷ 1 ∷ 2 ∷ 3 ∷ 4 ∷ 5 ∷ 6 ∷ 0x88 ∷ 0xba ∷ 0x40 ∷ 0 ∷ 0 ∷ 20 ∷ 0 ∷ 0 ∷ 0
      ∷ 0 ∷ 0x60 ∷ 8 ∷ 0x80 ∷ 1 ∷ 1 ∷ 0xa2 ∷ 3 ∷ 0x30 ∷ 1 ∷ 0 ∷ [];
  length = 32;
  ether_type = 0;
  src_mac = [];
  dst_mac = [];
}

-- Its neighbour claims 2^31 - 1.
abbrev overclaiming_frame : RawFrame
overclaiming_frame = record claiming_frame {
  payload =
      take 22 claiming_frame.payload ++ (0x60 ∷ 6 ∷ 0x80 ∷ 4 ∷ 0x7f ∷ 0xff ∷ 0xff ∷ 0xff ∷ []);
  length = 30;
}

overclaims : (decode_full bits decoder 0 overclaiming_frame).1 ≡ panic
unfolding decode_full parse_ethernet_header parse_sv_header parse_apdu read_tlv decode_integer32
overclaims = refl
