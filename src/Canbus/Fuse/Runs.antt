-- ===== src/Canbus/Fuse/Runs.antt =====
-- PayloadDecode of a composed frame, and runs of DispatchEmergency.
use wire_bonding_ultra.Prelude.{
  ℕ, suc, ◌+◌, ◌*◌, ◌/◌, ◌%◌, ◌^◌, ◌<◌, bit_or, ◌≡◌, refl, sym, subst, ap, ◌∙◌, List, [], ◌∷◌, Bool,
  true, false, inl, inr, length, All, arith, ◌==◌, if◌then◌else◌, Bool-cases, some-inj, ==_iff,
}
use wire_bonding_ultra.Prelude.Bits.{bit_or_comm, bit_or-add}
use wire_bonding_ultra.Canbus.CanId.{pack_can_id, unpack_can_id, unpack_can_id-pack_can_id}
use wire_bonding_ultra.Canbus.Fuse.{
  Centi, Frame20B, FuseChannel, FuseDispatcher, FuseStopPayload, new_fuse_dispatcher, find_channel,
  build_frame, compose_emergency_stop, compose_quality_fail, payload_decode, dispatch_emergency,
}
use wire_bonding_ultra.Canbus.Fuse.Dispatch.{
  IsRegistered, last_seq, Dispatched, dispatch_emergency_lem,
}

le16-put : (v : ℕ) → bit_or (v % 2 ^ 8) (v / 2 ^ 8 % 2 ^ 8 * 2 ^ 8) ≡ v % 2 ^ 16
le16-put v =
    bit_or_comm (v % 2 ^ 8) (v / 2 ^ 8 % 2 ^ 8 * 2 ^ 8)
    ∙ bit_or-add 8 (v / 2 ^ 8 % 2 ^ 8) (v % 2 ^ 8) (omega arith)
    ∙ omega arith

pub Dispatched-IsRegistered :
    (device reason : ℕ) (fd fd' : FuseDispatcher) (frame : Frame20B)
    → Dispatched device reason fd fd' frame
    → IsRegistered fd
    → IsRegistered fd'
Dispatched-IsRegistered device reason fd fd' frame d h at ch found =
    elim (Bool-cases (at == device)) [
      | inl same ↦
          let e : at ≡ device = (==_iff at device).0 same in
          let kept = ap (find_channel fd'.channels) e ∙ d.kept in
          ap (λ c. c.device_id) (some-inj (sym found ∙ kept)) ∙ ap (λ t. t % 64) (sym e)
      | inr other ↦ h at ch (sym (d.others at (ground (arith, other))) ∙ found)
    ]

pub new_fuse_dispatcher-IsRegistered : (has : Bool) → IsRegistered (new_fuse_dispatcher has)
unfolding new_fuse_dispatcher find_channel
new_fuse_dispatcher-IsRegistered has device ch found = absurd (cc)

module _ {ℓ} (centi : Centi {ℓ}) where
  open centi use {F, to_centi, of_centi}

  -- What a composed frame decodes to.
  abbrev pub decoded_payload : ℕ → ℕ → ℕ → F → F → ℕ → Bool → FuseStopPayload F
  decoded_payload seq bond_id reason pull dev ts_ns emergency = record {
    seq_no = seq;
    timestamp_ns = ts_ns;
    bond_id = bond_id;
    reason = reason;
    pull_grams = of_centi (to_centi pull % 2 ^ 16);
    deviation_pct = of_centi (to_centi dev % 2 ^ 16);
    emergency_stop = emergency;
  }

  payload_decode-build_frame :
      (id bond_id reason : ℕ) (pull dev : F) (seq_no ts_ns : ℕ) (emergency : Bool)
      → bond_id < 2 ^ 16
      → payload_decode centi (build_frame centi id bond_id reason pull dev seq_no ts_ns emergency)
        ≡ decoded_payload (unpack_can_id id).seq bond_id reason pull dev ts_ns emergency
  unfolding payload_decode build_frame
  payload_decode-build_frame id bond_id reason pull dev seq_no ts_ns true h =
      rw (le16-put bond_id, le16-put (to_centi pull), le16-put (to_centi dev))
        (ap (λ b. decoded_payload (unpack_can_id id).seq b reason pull dev ts_ns true)
          (omega arith))
  payload_decode-build_frame id bond_id reason pull dev seq_no ts_ns false h =
      rw (le16-put bond_id, le16-put (to_centi pull), le16-put (to_centi dev))
        (ap (λ b. decoded_payload (unpack_can_id id).seq b reason pull dev ts_ns false)
          (omega arith))

  -- PayloadDecode gives back what ComposeEmergencyStop and ComposeQualityFail were given, but for
  -- three things: the floats come back as their hundredths modulo 2 ^ 16, the sequence number is the
  -- channel's next one modulo 256 and not the one that was given, and the kind is a flag. The bond
  -- number is a uint16, the reason a byte, and the channel's device has six bits.
  pub payload_decode-compose :
      (fc : FuseChannel) (bond_id reason : ℕ) (pull dev : F) (seq_no ts_ns : ℕ)
      → fc.device_id < 64
      → bond_id < 2 ^ 16
      → reason < 256
      → (payload_decode centi
            (compose_emergency_stop centi fc bond_id reason pull dev seq_no ts_ns).1
          ≡ decoded_payload ((fc.seq + 1) % 256) bond_id reason pull dev ts_ns true)
        × (payload_decode centi
              (compose_quality_fail centi fc bond_id reason pull dev seq_no ts_ns).1
            ≡ decoded_payload ((fc.seq + 1) % 256) bond_id reason pull dev ts_ns false)
  unfolding compose_emergency_stop compose_quality_fail
  payload_decode-compose fc bond_id reason pull dev seq_no ts_ns hd hb hr =
      let s = (fc.seq + 1) % 256 in
      let seq_of = λ (priority cmd : ℕ) (hp : priority < 4) (hc : cmd < 256).
        ap (λ c. c.seq)
          (unpack_can_id-pack_can_id priority fc.device_id cmd reason s hp hd hc hr
            (omega arith)) in
      (
        payload_decode-build_frame (pack_can_id 0 fc.device_id 1 reason s) bond_id reason pull dev
              seq_no ts_ns true hb
            ∙ ap (λ q. decoded_payload q bond_id reason pull dev ts_ns true)
                (seq_of 0 1 (omega arith) (omega arith)),
        payload_decode-build_frame (pack_can_id 1 fc.device_id 11 reason s) bond_id reason pull dev
              seq_no ts_ns false hb
            ∙ ap (λ q. decoded_payload q bond_id reason pull dev ts_ns false)
                (seq_of 1 11 (omega arith) (omega arith)),
      )

abbrev pub seq_of : ℕ → FuseDispatcher → ℕ
seq_of device fd = last_seq (find_channel fd.channels device)

-- One call moves the number of its own device only.
Dispatched-seq :
    (device at reason : ℕ) (fd fd' : FuseDispatcher) (frame : Frame20B)
    → Dispatched at reason fd fd' frame
    → seq_of device fd' ≡ (if device == at then (seq_of device fd + 1) % 256 else seq_of device fd)
Dispatched-seq device at reason fd fd' frame d = elim (Bool-cases (device == at)) [
  | inl same ↦
      let e : at ≡ device = sym ((==_iff device at).0 same) in
      rw same (subst (λ t. seq_of t fd' ≡ (seq_of t fd + 1) % 256) e (ap last_seq d.kept))
  | inr other ↦ rw other (ap last_seq (d.others device (ground (arith, other))))
]

-- The arguments of one call.
pub record Request {ℓ} (F : Type ℓ) : Type ℓ where
  pub now : ℕ
  pub bond_id : ℕ
  pub reason : ℕ
  pub pull : F
  pub dev : F
  pub seq_no : ℕ
  pub ts_ns : ℕ
  pub device : ℕ

module _ {ℓ} (centi : Centi {ℓ}) where
  open centi use {F}

  unfoldable pub dispatch_request : Request F → FuseDispatcher → FuseDispatcher × Frame20B
  dispatch_request r fd =
      dispatch_emergency centi r.now r.bond_id r.reason r.pull r.dev r.seq_no r.ts_ns r.device fd

  unfoldable pub dispatch_all : List (Request F) → FuseDispatcher → FuseDispatcher
  unfolding dispatch_request
  dispatch_all [] fd = fd
  dispatch_all (r ∷ rs) fd = dispatch_all rs (dispatch_request r fd).0

  abbrev pub calls_for : ℕ → List (Request F) → ℕ
  calls_for device [] = 0
  calls_for device (r ∷ rs) =
      if device == r.device then suc (calls_for device rs) else calls_for device rs

  dispatch_all-counts :
      (rs : List (Request F)) (fd : FuseDispatcher)
      → All (λ r. r.reason < 256) rs
      → IsRegistered fd
      → ((dispatch_all rs fd).stats.emergency_frames % 2 ^ 64
          ≡ (fd.stats.emergency_frames + length rs) % 2 ^ 64)
        × ((dispatch_all rs fd).stats.quality_frames ≡ fd.stats.quality_frames)
        × ((device : ℕ)
            → seq_of device (dispatch_all rs fd) % 256
              ≡ (seq_of device fd + calls_for device rs) % 256)
  unfolding dispatch_all
  dispatch_all-counts [] fd hs h = (omega arith, refl, λ device. omega arith)
  dispatch_all-counts (r ∷ rs) fd (hr, hs) h =
      let (fd', frame) = dispatch_request r fd in
      let step =
        dispatch_emergency_lem centi r.now r.bond_id r.reason r.pull r.dev r.seq_no r.ts_ns r.device
          fd hr h in
      let (e, q, s) =
        dispatch_all-counts rs fd' hs
          (Dispatched-IsRegistered r.device r.reason fd fd' frame step h) in
      (
        omega (arith, e, step.emergency),
        q ∙ step.quality,
        λ device.
            ground (arith, s device, Dispatched-seq device r.device r.reason fd fd' frame step),
      )

  -- After any run of DispatchEmergency calls on a new dispatcher, the emergency counter is the number
  -- of calls modulo 2 ^ 64, no quality frame is counted, and the number in a device's channel is the
  -- number of calls for that device modulo 256. Reasons are bytes.
  pub dispatch_all_lem :
      (has_send_all : Bool) (rs : List (Request F)) (device : ℕ)
      → All (λ r. r.reason < 256) rs
      → (let fd = dispatch_all rs (new_fuse_dispatcher has_send_all) in
          (fd.stats.emergency_frames % 2 ^ 64 ≡ length rs % 2 ^ 64)
          × (fd.stats.quality_frames ≡ 0)
          × (seq_of device fd % 256 ≡ calls_for device rs % 256))
  unfolding new_fuse_dispatcher find_channel
  dispatch_all_lem has rs device hs =
      let (e, q, s) =
        dispatch_all-counts rs (new_fuse_dispatcher has) hs
          (new_fuse_dispatcher-IsRegistered has) in
      (omega (arith, e), q, omega (arith, s device))
