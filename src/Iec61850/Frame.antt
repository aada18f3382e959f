-- ===== src/Iec61850/Frame.antt =====
-- internal/iec61850/decoder.go: the headers, ExtractSamples and DecodeFull; types.go: Decoder.
pub mod Safe
use wire_bonding_ultra.Prelude.{
  ℕ, zero, suc, ◌+◌, ◌-◌, ◌*◌, ◌/◌, ◌%◌, ◌^◌, bit_and, bit_or, List, [], ◌∷◌, Bool, true, false,
  not, ◌&&◌, ◌||◌, Option, none, some, length, get_or, take, drop, ltb, leb, ◌==◌, if◌then◌else◌,
}
use wire_bonding_ultra.Models.{WaveSample, RawFrame, DataElement, ParsedAsdu, sample_interval_ns}
use wire_bonding_ultra.Models.Float64.{Float64}
use wire_bonding_ultra.Iec61850.Result.{Error, Result, ok, err, panic, stuck, ◌>>=◌, ◌>>◌, guard}
use wire_bonding_ultra.Iec61850.Asdu.{Asdu}
use wire_bonding_ultra.Iec61850.Apdu.{Payload, parse_apdu}

abbrev pub ether_type_sv : ℕ
ether_type_sv = 0x88ba

abbrev pub ether_type_goose : ℕ
ether_type_goose = 0x88b8

-- `binary.BigEndian`, at an offset.
abbrev pub be16 : List ℕ → ℕ → ℕ
be16 buf o = bit_or (get_or buf o 0 * 2 ^ 8) (get_or buf (o + 1) 0)

abbrev pub be32 : List ℕ → ℕ → ℕ
be32 buf o =
    bit_or
      (bit_or (bit_or (get_or buf o 0 * 2 ^ 24) (get_or buf (o + 1) 0 * 2 ^ 16))
        (get_or buf (o + 2) 0 * 2 ^ 8))
      (get_or buf (o + 3) 0)

abbrev pub check_ether_type : RawFrame → ℕ → RawFrame × Result ℕ
check_ether_type raw offset =
    if not (raw.ether_type == ether_type_sv) && not (raw.ether_type == ether_type_goose)
    then (raw, err Error.invalid_ether_type)
    else (raw, ok offset)

-- Behind the addresses: a VLAN tag moves the ether type by four bytes.
abbrev pub with_vlan : RawFrame → RawFrame × Result ℕ
with_vlan raw =
    if raw.ether_type == 0x8100
    then (if ltb raw.length 18
        then (raw, err Error.frame_too_short)
        else if ltb (length raw.payload) 18
        then (raw, panic)
        else check_ether_type (record raw { ether_type = be16 raw.payload 16 }) 18)
    else check_ether_type raw 14

-- What the header's fixed part writes to the frame.
abbrev pub with_addresses : RawFrame → RawFrame
with_addresses raw = record raw {
  dst_mac = take 6 raw.payload;
  src_mac = take 6 (drop 6 raw.payload);
  ether_type = be16 raw.payload 12;
}

-- The frame, which is written to, and the offset behind the header. A payload that is shorter than
-- the length field says makes the slices panic.
unfoldable pub parse_ethernet_header : RawFrame → RawFrame × Result ℕ
parse_ethernet_header raw =
    if ltb raw.length 14
    then (raw, err Error.frame_too_short)
    else if ltb (length raw.payload) 14
    then (raw, panic)
    else with_vlan (with_addresses raw)

-- `SVHeader`
pub record SvHeader : Type 0 where
  pub app_id : ℕ
  pub length : ℕ
  pub reserved1 : ℕ
  pub reserved2 : ℕ

abbrev pub sv_header : List ℕ → ℕ → SvHeader
sv_header payload offset = record {
  app_id = be16 payload offset;
  length = be16 payload (offset + 2);
  reserved1 = be16 payload (offset + 4);
  reserved2 = be16 payload (offset + 6);
}

unfoldable pub parse_sv_header : List ℕ → ℕ → Result (SvHeader × ℕ)
parse_sv_header payload offset = do
  guard (leb 8 (length payload - offset)) Error.frame_too_short
  ok (sv_header payload offset, offset + 8)

module _ {ℓ} (float : Float64 {ℓ}) where
  open float use {F, asdu_room, of_int32, mul}

  -- `Decoder`
  pub record Decoder : Type ℓ where
    pub voltage_scale : F
    pub current_scale : F

  pub set_scale : F → F → Decoder → Decoder
  set_scale voltage current d = record { voltage_scale = voltage; current_scale = current }

  -- `n` samples are left, from number `i` on.
  unfoldable pub samples_from : Decoder → Asdu → ℕ → ℕ → ℕ → List (WaveSample F)
  samples_from d asdu rx zero i = []
  samples_from d asdu rx (suc n) i =
      record {
        timestamp_ns = (rx + i * sample_interval_ns) % 2 ^ 64;
        voltage = mul (of_int32 (be32 asdu.seq_data (i * 8 + 4))) d.voltage_scale;
        current = mul (of_int32 (be32 asdu.seq_data (i * 8))) d.current_scale;
        seq_no = (asdu.smp_cnt + i) % 2 ^ 32;
      }
      ∷ samples_from d asdu rx n (i + 1)

  unfoldable pub extract_samples : Decoder → Asdu → ℕ → List (WaveSample F)
  unfolding samples_from
  extract_samples d asdu rx =
      if ltb (length asdu.seq_data) 8
      then []
      else samples_from d asdu rx (length asdu.seq_data / 8) 0

  -- The data elements of the samples, from number `i` on.
  unfoldable pub elements_from : ℕ → List (WaveSample F) → ℕ → List (DataElement F)
  elements_from refr_time [] i = []
  elements_from refr_time (s ∷ samples) i =
      record {
        timestamp = refr_time + i * sample_interval_ns;
        quality = 0;
        voltage = s.voltage;
        current = s.current;
        status_bits = 0;
      }
      ∷ elements_from refr_time samples (i + 1)

  abbrev pub time_or : ℕ → Option ℕ → ℕ
  time_or now none = now
  time_or now (some t) = t

  -- What DecodeFull makes of the first ASDU.
  abbrev pub decoded : Decoder → ℕ → SvHeader → Asdu → ℕ → ParsedAsdu F × List (WaveSample F)
  decoded d now header asdu rx =
      let samples = extract_samples d asdu rx in
      (
        record {
          type_id = header.app_id % 2 ^ 8;
          sqc = asdu.smp_synch;
          cot = asdu.conf_rev % 2 ^ 8;
          test = false;
          negative = false;
          addr = asdu.conf_rev;
          data_elements = elements_from (time_or now asdu.refr_tm) samples 0;
          seq_no = asdu.smp_cnt;
        },
        samples,
      )

  abbrev pub decode_first :
      Decoder → ℕ → SvHeader → ℕ → List Asdu → Result (ParsedAsdu F × List (WaveSample F))
  decode_first d now header rx [] = err Error.unsupported_asdu
  decode_first d now header rx (asdu ∷ asdus) = ok (decoded d now header asdu rx)

  unfoldable pub decode_payload :
      Decoder → ℕ → RawFrame → Result ℕ → Result (ParsedAsdu F × List (WaveSample F))
  unfolding extract_samples elements_from
  decode_payload d now raw eth = do
    eth_offset ← eth
    (header, apdu_offset) ← parse_sv_header raw.payload eth_offset
    (payload, end) ← parse_apdu asdu_room raw.payload apdu_offset
    decode_first d now header raw.rx_time_ns payload.asdus

  -- `now` is what `time.Now()` gives, for an ASDU with no reference time.
  unfoldable pub decode_full :
      Decoder → ℕ → RawFrame → RawFrame × Result (ParsedAsdu F × List (WaveSample F))
  unfolding decode_payload
  decode_full d now raw =
      let (raw', eth) = parse_ethernet_header raw in (raw', decode_payload d now raw' eth)
