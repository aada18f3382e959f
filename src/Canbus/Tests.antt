-- ===== src/Canbus/Tests.antt =====
-- Concrete identifiers, CRCs and dispatches. A float is a number of hundredths here.
use wire_bonding_ultra.Prelude.{
  ℕ, ◌+◌, ◌%◌, ◌^◌, ◌≡◌, refl, List, [], ◌∷◌, arith, length, true, false,
}
use wire_bonding_ultra.Canbus.CanId.{
  pack_can_id, unpack_can_id, unpack_can_id-pack_can_id, pack_can_id-unpack_can_id,
}
use wire_bonding_ultra.Canbus.Crc.{crc16_fuse}
use wire_bonding_ultra.Canbus.Fuse.{
  Centi, FuseChannel, new_fuse_dispatcher, compose_emergency_stop, compose_quality_fail,
  payload_decode, dispatch_emergency,
}
use wire_bonding_ultra.Canbus.Fuse.Dispatch.{Dispatched, dispatch_emergency_lem}
use wire_bonding_ultra.Canbus.Fuse.Runs.{
  Request, decoded_payload, payload_decode-compose, new_fuse_dispatcher-IsRegistered, dispatch_all,
  calls_for, seq_of, dispatch_all_lem,
}

unpack_can_id-pack_can_id_example :
    unpack_can_id (pack_can_id 0 5 1 0x11 255)
    ≡ record { priority = 0; device = 5; cmd = 1; reason = 0x11; seq = 255 }
unpack_can_id-pack_can_id_example =
    unpack_can_id-pack_can_id 0 5 1 0x11 255 (omega arith) (omega arith) (omega arith) (omega arith)
      (omega arith)

pack_can_id-unpack_can_id_example :
    (let f = unpack_can_id 0x4501_11ff in pack_can_id f.priority f.device f.cmd f.reason f.seq)
    ≡ 0x4501_11ff
pack_can_id-unpack_can_id_example = pack_can_id-unpack_can_id 0x4501_11ff (omega arith)

-- The CRC of the bytes 1, 2, 3, 4.
crc_of_four : crc16_fuse (1 ∷ 2 ∷ 3 ∷ 4 ∷ []) ≡ 0x2ba1
unfolding crc16_fuse
crc_of_four = refl

-- The check value of the digits 1 to 9.
crc_check : crc16_fuse (0x31 ∷ 0x32 ∷ 0x33 ∷ 0x34 ∷ 0x35 ∷ 0x36 ∷ 0x37 ∷ 0x38 ∷ 0x39 ∷ []) ≡ 0x4b37
unfolding crc16_fuse
crc_check = refl

abbrev hundredths : Centi {0}
hundredths = record { F = ℕ; to_centi = λ n. n; of_centi = λ n. n }

abbrev channel : FuseChannel
channel = record { device_id = 5; seq = 255 }

payload_decode-compose_example :
    (payload_decode hundredths
        (compose_emergency_stop hundredths channel 100 0x11 300 70 500 1000).1
      ≡ decoded_payload hundredths ((channel.seq + 1) % 256) 100 0x11 300 70 1000 true)
    × (payload_decode hundredths
          (compose_quality_fail hundredths channel 100 0x11 300 70 500 1000).1
        ≡ decoded_payload hundredths ((channel.seq + 1) % 256) 100 0x11 300 70 1000 false)
payload_decode-compose_example =
    payload_decode-compose hundredths channel 100 0x11 300 70 500 1000 (omega arith) (omega arith)
      (omega arith)

dispatch_emergency_lem_example :
    (let (fd', frame) =
        dispatch_emergency hundredths 9 100 0x11 300 70 500 1000 69 (new_fuse_dispatcher true) in
      Dispatched 69 0x11 (new_fuse_dispatcher true) fd' frame)
dispatch_emergency_lem_example =
    dispatch_emergency_lem hundredths 9 100 0x11 300 70 500 1000 69 (new_fuse_dispatcher true)
      (omega arith) (new_fuse_dispatcher-IsRegistered true)

abbrev request : ℕ → Request ℕ
request device = record {
  now = 9;
  bond_id = 100;
  reason = 0x11;
  pull = 300;
  dev = 70;
  seq_no = 500;
  ts_ns = 1000;
  device = device;
}

abbrev requests : List (Request ℕ)
requests = request 5 ∷ request 6 ∷ request 5 ∷ []

dispatch_all_lem_example :
    (let fd = dispatch_all hundredths requests (new_fuse_dispatcher true) in
      (fd.stats.emergency_frames % 2 ^ 64 ≡ length requests % 2 ^ 64)
      × (fd.stats.quality_frames ≡ 0)
      × (seq_of 5 fd % 256 ≡ calls_for hundredths 5 requests % 256))
dispatch_all_lem_example =
    dispatch_all_lem hundredths true requests 5 (omega arith, (omega arith, (omega arith, tt)))
