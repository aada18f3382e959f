-- ===== src/Packetcap.antt =====
-- internal/packetcap/capture_nocgo.go: the capture that builds its frames itself. The waveform, from
-- `math.Sin` and the processor's conversion to int32, is a parameter.
mod Tests
pub mod Encode
pub mod Parse
pub mod Roundtrip
pub mod Decode
pub mod Samples
pub mod Batch
use wire_bonding_ultra.Prelude.{
  ℕ, zero, suc, ◌+◌, ◌*◌, ◌/◌, ◌%◌, ◌^◌, List, [], ◌∷◌, ◌++◌, length, ltb, ◌==◌, if◌then◌else◌,
  replicate, Bool, false, Option, none, some,
}
use wire_bonding_ultra.Models.{RawFrame, sample_interval_ns}

abbrev pub iec_type_sv : ℕ
iec_type_sv = 0x88ba

-- `berTLVLen` and `berLenBytes`; a length over 2 ^ 16 would lose its high bytes.
unfoldable pub ber_tlv_len : ℕ → List ℕ
ber_tlv_len n =
    if ltb n 0x80
    then n ∷ []
    else if ltb n 0x100
    then 0x81 ∷ n ∷ []
    else 0x82 ∷ n / 2 ^ 8 % 2 ^ 8 ∷ n % 2 ^ 8 ∷ []

-- The four bytes of a uint32 or an int32, the high one first.
abbrev pub word : ℕ → List ℕ
word n = n / 2 ^ 24 % 2 ^ 8 ∷ n / 2 ^ 16 % 2 ^ 8 ∷ n / 2 ^ 8 % 2 ^ 8 ∷ n % 2 ^ 8 ∷ []

-- "WBBOND01"
abbrev pub sv_id : List ℕ
sv_id = 0x57 ∷ 0x42 ∷ 0x42 ∷ 0x4f ∷ 0x4e ∷ 0x44 ∷ 0x30 ∷ 0x31 ∷ []

-- From a phase, the bit patterns of the int32 values `current` and `voltage`.
abbrev pub Waveform : Type 0
Waveform = ℕ → ℕ × ℕ

-- `n` samples are left, from number `i` on.
unfoldable pub seq_data_from : Waveform → ℕ → ℕ → ℕ → List ℕ
seq_data_from wave phase_acc zero i = []
seq_data_from wave phase_acc (suc n) i =
    let (current, voltage) = wave ((phase_acc + i * 169 % 2 ^ 32) % 2 ^ 32) in
    word current ++ word voltage ++ seq_data_from wave phase_acc n (i + 1)

unfoldable pub build_asdu : Waveform → ℕ → ℕ → ℕ → List ℕ
unfolding seq_data_from ber_tlv_len
build_asdu wave smpcnt num_samples phase_acc =
    let seq_data = seq_data_from wave phase_acc num_samples 0 in
    (0x80 ∷ length sv_id % 2 ^ 8 ∷ sv_id)
    ++ (0x82 ∷ 0x04 ∷ word smpcnt)
    ++ (0x83 ∷ 0x04 ∷ 0x00 ∷ 0x00 ∷ 0x00 ∷ 0x01 ∷ [])
    ++ (0x85 ∷ 0x01 ∷ 0x01 ∷ [])
    ++ (0x87 ∷ ber_tlv_len (length seq_data) ++ seq_data)

unfoldable pub build_apdu : List ℕ → List ℕ
unfolding ber_tlv_len
build_apdu asdu =
    let seq_asdu = 0x30 ∷ ber_tlv_len (length asdu) ++ asdu in
    let inner = 0x80 ∷ 0x01 ∷ 0x01 ∷ 0xa2 ∷ ber_tlv_len (length seq_asdu) ++ seq_asdu in
    0x60 ∷ ber_tlv_len (length inner) ++ inner

-- `buildSVFramePureGo`
unfoldable pub build_sv_frame : Waveform → ℕ → ℕ → ℕ → ℕ → RawFrame
unfolding build_asdu build_apdu
build_sv_frame wave smpcnt num_samples phase_acc rx_ns =
    let apdu = build_apdu (build_asdu wave smpcnt num_samples phase_acc) in
    let buf =
      replicate 6 0x01
      ++ replicate 6 0x02
      ++ (iec_type_sv / 2 ^ 8 ∷ iec_type_sv % 2 ^ 8 ∷ [])
      ++ (0x00 ∷ 0x01 ∷ [])
      ++ (length apdu / 2 ^ 8 % 2 ^ 8 ∷ length apdu % 2 ^ 8 ∷ [])
      ++ (0x00 ∷ 0x00 ∷ 0x00 ∷ 0x00 ∷ [])
      ++ apdu in
    record {
      rx_time_ns = rx_ns;
      payload = buf;
      length = length buf;
      ether_type = iec_type_sv;
      src_mac = replicate 6 0x02;
      dst_mac = replicate 6 0x01;
    }

-- `PacketCapture`, without the configuration that only the other build reads, and its statistics
-- without the fields that stay 0.
pub record PacketCapture : Type 0 where
  pub started : Bool
  pub base_smpcnt : ℕ
  pub phase_acc : ℕ
  pub rx_packets : ℕ
  pub rx_bytes : ℕ

unfoldable pub new_packet_capture : PacketCapture
new_packet_capture = record {
  started = false;
  base_smpcnt = 0;
  phase_acc = 0;
  rx_packets = 0;
  rx_bytes = 0;
}

-- The loop of SimulateBatch: `n` frames are left, from number `i` on, and `cur` is the counter. The
-- frames it writes to `dst`, and the capture.
unfoldable pub simulate_from :
    Waveform → ℕ → ℕ → ℕ → ℕ → ℕ → PacketCapture → List RawFrame × PacketCapture
unfolding build_sv_frame
simulate_from wave per_frame now zero i cur pc = ([], record pc { base_smpcnt = cur })
simulate_from wave per_frame now (suc n) i cur pc =
    let rf =
      build_sv_frame wave cur per_frame pc.phase_acc
        ((now + i * per_frame * sample_interval_ns) % 2 ^ 64) in
    let pc' = record pc {
      phase_acc = (pc.phase_acc + per_frame * 169 % 2 ^ 32) % 2 ^ 32;
      rx_packets = (pc.rx_packets + 1) % 2 ^ 64;
      rx_bytes = (pc.rx_bytes + rf.length) % 2 ^ 64;
    } in
    let (rest, pc'') =
      simulate_from wave per_frame now n (i + 1) ((cur + per_frame) % 2 ^ 32) pc' in
    (rf ∷ rest, pc'')

-- `n` is `len(dst)`; a number of samples that is not positive is 0 here.
unfoldable pub simulate_batch :
    Waveform → ℕ → ℕ → ℕ → ℕ → PacketCapture → List RawFrame × PacketCapture
unfolding simulate_from
simulate_batch wave now n samples_per_frame base_smpcnt pc =
    simulate_from wave (if samples_per_frame == 0 then 80 else samples_per_frame) now n 0
      base_smpcnt pc

unfoldable pub read_batch : Waveform → ℕ → ℕ → PacketCapture → List RawFrame × PacketCapture
unfolding simulate_batch
read_batch wave now n pc = simulate_batch wave now n 80 pc.base_smpcnt pc

-- The one frame of a batch of one; `none` is `ErrFrameRead`.
abbrev pub first_frame : List RawFrame → Option RawFrame
first_frame [] = none
first_frame (rf ∷ rest) = some rf

unfoldable pub read_next : Waveform → ℕ → PacketCapture → Option RawFrame × PacketCapture
unfolding simulate_batch
read_next wave now pc =
    let (frames, pc') = simulate_batch wave now 1 80 pc.base_smpcnt pc in (first_frame frames, pc')

unfoldable pub close : PacketCapture → PacketCapture
close pc = record pc { started = false }
