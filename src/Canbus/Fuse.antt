-- ===== src/Canbus/Fuse.antt =====
-- internal/canbus/fuse.go: the frames, a channel per device, and the dispatcher that keeps them.
pub mod Dispatch
pub mod Channels
pub mod Runs
use wire_bonding_ultra.Prelude.{
  ℕ, ◌+◌, ◌*◌, ◌/◌, ◌%◌, ◌^◌, bit_and, bit_or, List, [], ◌∷◌, ◌++◌, Bool, true, false, not, Option,
  none, some, get_or, ltb, ◌==◌, if◌then◌else◌,
}
use wire_bonding_ultra.Canbus.CanId.{pack_can_id, unpack_can_id}

-- What fuse.go does with float32 values: `uint16(x * 100.0)` and `float32(n) / 100.0`, which the
-- processor computes.
pub record Centi {ℓ} : Type (ℓ + 1) where
  pub F : Type ℓ
  pub to_centi : F → ℕ
  pub of_centi : ℕ → F

-- `Frame20B`
pub record Frame20B : Type 0 where
  pub id : ℕ
  pub extended : Bool
  pub rtr : Bool
  pub dlc : ℕ
  pub bytes : List ℕ
  pub timestamp_ns : ℕ

pub record FuseStopPayload {ℓ} (F : Type ℓ) : Type ℓ where
  pub seq_no : ℕ
  pub timestamp_ns : ℕ
  pub bond_id : ℕ
  pub reason : ℕ
  pub pull_grams : F
  pub deviation_pct : F
  pub emergency_stop : Bool

-- The callback of a channel is the dispatcher's, `on_sent`.
pub record FuseChannel : Type 0 where
  pub device_id : ℕ
  pub seq : ℕ

unfoldable pub new_fuse_channel : ℕ → FuseChannel
new_fuse_channel device_id = record { device_id = bit_and device_id 0x3f; seq = 0 }

abbrev pub priority_emergency : ℕ
priority_emergency = 0x00

abbrev pub priority_high : ℕ
priority_high = 0x01

abbrev pub cmd_bonding_emergency_stop : ℕ
cmd_bonding_emergency_stop = 0x01

abbrev pub cmd_quality_fail_stop : ℕ
cmd_quality_fail_stop = 0x0b

-- `binary.LittleEndian` on two bytes of a frame.
abbrev pub le16 : List ℕ → ℕ → ℕ
le16 bytes i = bit_or (get_or bytes i 0) (get_or bytes (i + 1) 0 * 2 ^ 8)

module _ {ℓ} (centi : Centi {ℓ}) where
  open centi use {F, to_centi, of_centi}

  -- The sequence number it is given is not written.
  unfoldable pub build_frame : ℕ → ℕ → ℕ → F → F → ℕ → ℕ → Bool → Frame20B
  build_frame id bond_id reason pull_grams dev_pct seq_no ts_ns emergency = record {
    id = id;
    extended = true;
    rtr = false;
    dlc = 8;
    bytes =
        bond_id % 2 ^ 8
        ∷ bond_id / 2 ^ 8 % 2 ^ 8
        ∷ reason
        ∷ (if emergency then 1 else 0)
        ∷ to_centi pull_grams % 2 ^ 8
        ∷ to_centi pull_grams / 2 ^ 8 % 2 ^ 8
        ∷ to_centi dev_pct % 2 ^ 8
        ∷ to_centi dev_pct / 2 ^ 8 % 2 ^ 8
        ∷ [];
    timestamp_ns = ts_ns;
  }

  -- A short frame decodes to a zero payload: 0.0 is `of_centi 0`.
  unfoldable pub payload_decode : Frame20B → FuseStopPayload F
  payload_decode f =
      if ltb f.dlc 8
      then record {
        seq_no = 0;
        timestamp_ns = 0;
        bond_id = 0;
        reason = 0;
        pull_grams = of_centi 0;
        deviation_pct = of_centi 0;
        emergency_stop = false;
      }
      else record {
        seq_no = (unpack_can_id f.id).seq;
        timestamp_ns = f.timestamp_ns;
        bond_id = le16 f.bytes 0;
        reason = get_or f.bytes 2 0;
        pull_grams = of_centi (le16 f.bytes 4);
        deviation_pct = of_centi (le16 f.bytes 6);
        emergency_stop = not (get_or f.bytes 3 0 == 0);
      }

  -- `fc.seq++`, on a uint8.
  abbrev pub next_seq : FuseChannel → FuseChannel
  next_seq fc = record fc { seq = (fc.seq + 1) % 2 ^ 8 }

  unfoldable pub compose_emergency_stop :
      FuseChannel → ℕ → ℕ → F → F → ℕ → ℕ → FuseChannel × Frame20B
  unfolding build_frame
  compose_emergency_stop fc bond_id reason pull_grams dev_pct seq_no ts_ns =
      let fc' = next_seq fc in
      let id =
        pack_can_id priority_emergency fc'.device_id cmd_bonding_emergency_stop reason fc'.seq in
      (fc', build_frame id bond_id reason pull_grams dev_pct seq_no ts_ns true)

  unfoldable pub compose_quality_fail : FuseChannel → ℕ → ℕ → F → F → ℕ → ℕ → FuseChannel × Frame20B
  unfolding build_frame
  compose_quality_fail fc bond_id reason pull_grams dev_pct seq_no ts_ns =
      let fc' = next_seq fc in
      let id = pack_can_id priority_high fc'.device_id cmd_quality_fail_stop reason fc'.seq in
      (fc', build_frame id bond_id reason pull_grams dev_pct seq_no ts_ns false)

pub record FuseStats : Type 0 where
  pub emergency_frames : ℕ
  pub quality_frames : ℕ
  pub last_frame : Option Frame20B
  pub last_frame_time : ℕ

-- The map of channels as a list of pairs; `sent` is what the callback `sendAll` was handed, if there
-- is one.
pub record FuseDispatcher : Type 0 where
  pub channels : List (ℕ × FuseChannel)
  pub stats : FuseStats
  pub has_send_all : Bool
  pub sent : List Frame20B

unfoldable pub new_fuse_dispatcher : Bool → FuseDispatcher
new_fuse_dispatcher has_send_all = record {
  channels = [];
  stats = record {
    emergency_frames = 0;
    quality_frames = 0;
    last_frame = none;
    last_frame_time = 0;
  };
  has_send_all = has_send_all;
  sent = [];
}

unfoldable pub find_channel : List (ℕ × FuseChannel) → ℕ → Option FuseChannel
find_channel [] device = none
find_channel ((d, ch) ∷ channels) device =
    if d == device then some ch else find_channel channels device

-- `channels[device] = ch`, and a write through the pointer that is kept there.
unfoldable pub put_channel : List (ℕ × FuseChannel) → ℕ → FuseChannel → List (ℕ × FuseChannel)
put_channel [] device ch = (device, ch) ∷ []
put_channel ((d, old) ∷ channels) device ch =
    if d == device then (d, ch) ∷ channels else (d, old) ∷ put_channel channels device ch

unfoldable pub get_channel : ℕ → FuseDispatcher → FuseDispatcher × FuseChannel
unfolding find_channel put_channel new_fuse_channel
get_channel device fd = elim (find_channel fd.channels device) [
  | some ch ↦ (fd, ch)
  | none ↦
      let ch = new_fuse_channel device in
      (record fd { channels = put_channel fd.channels device ch }, ch)
]

abbrev pub counted : ℕ → FuseStats → FuseStats
counted cmd s =
    if cmd == cmd_bonding_emergency_stop
    then record s { emergency_frames = (s.emergency_frames + 1) % 2 ^ 64 }
    else if cmd == cmd_quality_fail_stop
    then record s { quality_frames = (s.quality_frames + 1) % 2 ^ 64 }
    else s

-- The callback of the dispatcher's channels; `now` is `time.Now()`.
unfoldable pub on_sent : ℕ → Frame20B → FuseDispatcher → FuseDispatcher
on_sent now f fd = record fd {
  sent = if fd.has_send_all then fd.sent ++ (f ∷ []) else fd.sent;
  stats =
      counted (unpack_can_id f.id).cmd
        (record fd.stats { last_frame = some f; last_frame_time = now });
}

-- `Send`: the channel's callback, where it has one.
unfoldable pub send {ℓ} : {S : Type ℓ} → Option (Frame20B → S → S) → Frame20B → S → S
send none f s = s
send (some cb) f s = cb f s

unfoldable pub dispatch_emergency {ℓ} :
    (centi : Centi {ℓ})
    → ℕ
    → ℕ
    → ℕ
    → centi.F
    → centi.F
    → ℕ
    → ℕ
    → ℕ
    → FuseDispatcher
    → FuseDispatcher × Frame20B
unfolding get_channel compose_emergency_stop on_sent send
dispatch_emergency centi now bond_id reason pull_grams dev_pct seq_no ts_ns device fd =
    let (fd', ch) = get_channel device fd in
    let (ch', frame) =
      compose_emergency_stop centi ch bond_id reason pull_grams dev_pct seq_no ts_ns in
    let kept = record fd' { channels = put_channel fd'.channels device ch' } in
    (send (some (on_sent now)) frame kept, frame)
