-- ===== src/Canbus/Fuse/Dispatch.antt =====
-- DispatchEmergency: what one call does to the dispatcher, and what a run of calls does.
use wire_bonding_ultra.Prelude.{
  ℕ, ◌+◌, ◌%◌, ◌^◌, ◌<◌, ◌≡◌, ◌≢◌, refl, sym, ap, List, [], ◌∷◌, ◌++◌, inl, inr, Option, none, some,
  arith, ◌==◌, if◌then◌else◌, Bool-cases, Option-cases,
}
use wire_bonding_ultra.Canbus.CanId.{pack_can_id, unpack_can_id, mask6, unpack_can_id-pack_can_id}
use wire_bonding_ultra.Canbus.Fuse.{
  Centi, Frame20B, FuseChannel, FuseDispatcher, new_fuse_channel, find_channel, put_channel,
  get_channel, dispatch_emergency,
}

pub find_channel-put_channel :
    (channels : List (ℕ × FuseChannel)) (device : ℕ) (ch : FuseChannel)
    → find_channel (put_channel channels device ch) device ≡ some ch
unfolding find_channel put_channel
find_channel-put_channel [] device ch = ground arith
find_channel-put_channel ((d, old) ∷ channels) device ch = elim (Bool-cases (d == device)) [
  | inl same ↦ rw (same, same) refl
  | inr other ↦ rw (other, other) (find_channel-put_channel channels device ch)
]

pub find_channel-put_ne :
    (channels : List (ℕ × FuseChannel)) (device other : ℕ) (ch : FuseChannel)
    → other ≢ device
    → find_channel (put_channel channels device ch) other ≡ find_channel channels other
unfolding find_channel put_channel
find_channel-put_ne [] device other ch h = ground (arith, h)
find_channel-put_ne ((d, old) ∷ channels) device other ch h = elim (Bool-cases (d == device)) [
  | inl same ↦ ground (arith, same, h)
  | inr differs ↦ elim (Bool-cases (d == other)) [
    | inl found ↦ ground (arith, differs, found)
    | inr past ↦ ground (arith, differs, past, find_channel-put_ne channels device other ch h)
  ]
]

put_channel-put_channel :
    (channels : List (ℕ × FuseChannel)) (device : ℕ) (old ch : FuseChannel)
    → put_channel (put_channel channels device old) device ch ≡ put_channel channels device ch
unfolding put_channel
put_channel-put_channel [] device old ch = ground arith
put_channel-put_channel ((d, x) ∷ channels) device old ch = elim (Bool-cases (d == device)) [
  | inl same ↦ ground (arith, same)
  | inr differs ↦ ground (arith, differs, put_channel-put_channel channels device old ch)
]

-- Every channel carries the low six bits of the device that it is kept under.
abbrev pub IsRegistered : FuseDispatcher → Type 0
IsRegistered fd =
    (device : ℕ) (ch : FuseChannel)
    → find_channel fd.channels device ≡ some ch
    → ch.device_id ≡ device % 64

-- The number of the last frame of a device; a device without a channel starts at 0.
abbrev pub last_seq : Option FuseChannel → ℕ
last_seq none = 0
last_seq (some ch) = ch.seq

-- GetChannel finds the device's channel, or puts a new one: the same channel is written to below.
record Got (device : ℕ) (fd : FuseDispatcher) : Type 0 where
  ch : FuseChannel
  channels : List (ℕ × FuseChannel)
  got : get_channel device fd ≡ (record fd { channels = channels }, ch)
  device_id : ch.device_id ≡ device % 64
  seq : ch.seq ≡ last_seq (find_channel fd.channels device)
  written : (x : FuseChannel) → put_channel channels device x ≡ put_channel fd.channels device x

get_channel-Got : (device : ℕ) (fd : FuseDispatcher) → IsRegistered fd → Got device fd
unfolding get_channel
get_channel-Got device fd h = elim (Option-cases (find_channel fd.channels device)) [
  | inl missing ↦ record {
    ch = new_fuse_channel device;
    channels = put_channel fd.channels device (new_fuse_channel device);
    got = rw (missing, get_channel);
    device_id = mask6 device;
    seq = ap last_seq (sym missing);
    written = λ x. put_channel-put_channel fd.channels device (new_fuse_channel device) x;
  }
  | inr (ch, found) ↦ record {
    ch = ch;
    channels = fd.channels;
    got = rw (found, get_channel);
    device_id = h device ch found;
    seq = ap last_seq (sym found);
    written = λ x. refl;
  }
]

-- A dispatched frame and the dispatcher behind it.
pub record Dispatched (device reason : ℕ) (fd fd' : FuseDispatcher) (frame : Frame20B)
    : Type 0 where
  pub can_id : unpack_can_id frame.id ≡ record {
    priority = 0;
    device = device % 64;
    cmd = 1;
    reason = reason;
    seq = (last_seq (find_channel fd.channels device) + 1) % 256;
  }
  pub kept :
      find_channel fd'.channels device
      ≡ some (record {
        device_id = device % 64;
        seq = (last_seq (find_channel fd.channels device) + 1) % 256;
      })
  pub others :
      (other : ℕ)
      → other ≢ device
      → find_channel fd'.channels other ≡ find_channel fd.channels other
  pub emergency : fd'.stats.emergency_frames ≡ (fd.stats.emergency_frames + 1) % 2 ^ 64
  pub quality : fd'.stats.quality_frames ≡ fd.stats.quality_frames
  pub last : fd'.stats.last_frame ≡ some frame
  pub same_callback : fd'.has_send_all ≡ fd.has_send_all
  pub handed_on : fd'.sent ≡ (if fd.has_send_all then fd.sent ++ (frame ∷ []) else fd.sent)

module _ {ℓ} (centi : Centi {ℓ}) where
  open centi use {F}

  abbrev sent_id : ℕ → ℕ → FuseChannel → ℕ
  sent_id device reason ch = pack_can_id 0 ch.device_id 1 reason ((ch.seq + 1) % 256)

  -- DispatchEmergency gives a frame of the top priority, whose identifier has the device's low six
  -- bits, the reason and the number behind the last one of the device, modulo 256. It keeps that
  -- number for the device, leaves the other devices' channels, counts one emergency frame and no
  -- quality frame, notes the frame as the last, and hands it to the callback where there is one.
  pub dispatch_emergency_lem :
      (now bond_id reason : ℕ) (pull dev : F) (seq_no ts_ns device : ℕ) (fd : FuseDispatcher)
      → reason < 256
      → IsRegistered fd
      → (let (fd', frame) =
            dispatch_emergency centi now bond_id reason pull dev seq_no ts_ns device fd in
          Dispatched device reason fd fd' frame)
  unfolding dispatch_emergency
  dispatch_emergency_lem now bond_id reason pull dev seq_no ts_ns device fd hr h =
      let g = get_channel-Got device fd h in
      let s = (last_seq (find_channel fd.channels device) + 1) % 256 in
      let read =
        unpack_can_id-pack_can_id 0 (device % 64) 1 reason s (omega arith) (omega arith)
          (omega arith) hr (omega arith) in
      rw (g.got, g.written, g.device_id, g.seq, read)
        (record {
          can_id = read;
          kept = find_channel-put_channel fd.channels device _;
          others = λ other ne. find_channel-put_ne fd.channels device other _ ne;
          emergency = refl;
          quality = refl;
          last = refl;
          same_callback = refl;
          handed_on = refl;
        })
