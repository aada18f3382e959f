-- ===== src/Gateway/Progress.antt =====
-- What the decode loop gets are frames that the simulated capture builds, and it decodes them.
use wire_bonding_ultra.Prelude.{
  ℕ, zero, suc, ◌≤◌, ◌<◌, ◌∙◌, ◌≡◌, ◌+◌, ◌%◌, ◌^◌, refl, ap, subst, sym, arith, List, [], ◌∷◌, ◌++◌,
  Option, none, some, length, take, drop, All, Bool-cases, inl, inr, some-inj, ◌==◌,
}
use wire_bonding_ultra.Models.{WaveSample, RawFrame, ParsedAsdu}
use wire_bonding_ultra.Models.Arithmetic.{Arithmetic, decoder_floats}
use wire_bonding_ultra.Ringbuf.Fifo.{push}
use wire_bonding_ultra.Packetcap.{
  Waveform, PacketCapture, build_sv_frame, simulate_from, simulate_batch, read_batch,
  new_packet_capture, close,
}
use wire_bonding_ultra.Iec61850.Frame.{Decoder, decode_full}
use wire_bonding_ultra.Packetcap.Samples.{decode_full-build_sv_frame}
use wire_bonding_ultra.Iec61850.Result.{Result, ok, err, panic, stuck}
use wire_bonding_ultra.Canbus.Fuse.{Centi}
use wire_bonding_ultra.Gateway.State.{Config, Gateway, FrameMsg, new_gateway}
use wire_bonding_ultra.Gateway.Loops.{
  batch_max, work_of, zero_frame_msg, forward, capture_batch, capture_frame, decode_batch, decoded,
  decode_frame, decode_done, dsp_begin, stop_event, measured, dsp_end, used_fuse, start, stop,
}
use wire_bonding_ultra.Gateway.Steps.{Step, Reachable}

-- The capture has built the frame.
abbrev pub IsBuilt : RawFrame → Type 0
IsBuilt f =
    (wave : Waveform) × (smpcnt : ℕ) × (phase : ℕ) × (rx : ℕ) × (smpcnt < 2 ^ 32)
    × (f ≡ build_sv_frame wave smpcnt 80 phase rx)

abbrev CarriesBuilt : FrameMsg → Type 0
CarriesBuilt m = IsBuilt m.frame

module _ {ℓ κ} {A : Type ℓ} (P : A → Type κ) where
  All-take : (n : ℕ) (xs : List A) → All P xs → All P (take n xs)
  All-take zero xs h = tt
  All-take (suc n) [] h = tt
  All-take (suc n) (x ∷ xs) (p, h) = (p, All-take n xs h)

  All-drop : (n : ℕ) (xs : List A) → All P xs → All P (drop n xs)
  All-drop zero xs h = h
  All-drop (suc n) [] h = tt
  All-drop (suc n) (x ∷ xs) (p, h) = All-drop n xs h

  All-snoc : (xs : List A) (x : A) → All P xs → P x → All P (xs ++ (x ∷ []))
  All-snoc [] x h p = (p, tt)
  All-snoc (y ∷ xs) x (q, h) p = (q, All-snoc xs x h p)

simulate_from-IsBuilt :
    (wave : Waveform) (now n i cur : ℕ) (pc : PacketCapture)
    → cur < 2 ^ 32
    → All IsBuilt (simulate_from wave 80 now n i cur pc).0
      × ((simulate_from wave 80 now n i cur pc).1.base_smpcnt < 2 ^ 32)
unfolding simulate_from
simulate_from-IsBuilt wave now zero i cur pc h = (tt, h)
simulate_from-IsBuilt wave now (suc n) i cur pc h =
    let (rest, base) =
      simulate_from-IsBuilt wave now n (i + 1) ((cur + 80) % 2 ^ 32) _ (omega arith) in
    ((((wave, cur, pc.phase_acc, _, h, refl)), rest), base)

module _ {ℓ} (arithmetic : Arithmetic {ℓ}) where
  open arithmetic use {F, asdu_room}

  pub record AllBuilt (gw : Gateway arithmetic) : Type 0 where
    pub pending : All IsBuilt gw.pending
    pub ring : All CarriesBuilt gw.frame_ring
    pub batch : All CarriesBuilt gw.batch
    pub base : gw.capture.base_smpcnt < 2 ^ 32

  same-AllBuilt :
      (gw gw' : Gateway arithmetic)
      → gw'.pending ≡ gw.pending
      → gw'.frame_ring ≡ gw.frame_ring
      → gw'.batch ≡ gw.batch
      → gw'.capture.base_smpcnt ≡ gw.capture.base_smpcnt
      → AllBuilt gw
      → AllBuilt gw'
  same-AllBuilt gw gw' p r b c h = record {
    pending = subst (All IsBuilt) (sym p) h.pending;
    ring = subst (All CarriesBuilt) (sym r) h.ring;
    batch = subst (All CarriesBuilt) (sym b) h.batch;
    base = omega (arith, h.base, c);
  }

  capture_batch-AllBuilt :
      (wave : Waveform) (now : ℕ) (gw : Gateway arithmetic)
      → AllBuilt gw
      → AllBuilt (capture_batch arithmetic wave now gw)
  unfolding capture_batch simulate_batch read_batch
  capture_batch-AllBuilt wave now gw h = elim (Bool-cases gw.cfg.simulate) [
    | inl e ↦
        let (frames, base) = simulate_from-IsBuilt wave now _ 0 _ gw.capture (omega arith) in
        rw e (record { pending = frames; ring = h.ring; batch = h.batch; base = base })
    | inr e ↦
        let (frames, base) = simulate_from-IsBuilt wave now _ 0 _ gw.capture h.base in
        rw e (record { pending = frames; ring = h.ring; batch = h.batch; base = base })
  ]

  push-AllBuilt :
      (cap : ℕ) (q : List FrameMsg) (m : FrameMsg)
      → All CarriesBuilt q
      → CarriesBuilt m
      → All CarriesBuilt (push zero_frame_msg cap q m).1
  unfolding push
  push-AllBuilt cap q m h p = elim (Bool-cases (length q == cap)) [
    | inl e ↦ rw e h
    | inr e ↦ rw e (All-snoc CarriesBuilt q m h p)
  ]

  capture_frame-AllBuilt :
      (now : ℕ) (frame : RawFrame) (rest : List RawFrame) (gw : Gateway arithmetic)
      → gw.pending ≡ frame ∷ rest
      → AllBuilt gw
      → AllBuilt (capture_frame arithmetic now frame rest gw)
  unfolding capture_frame
  capture_frame-AllBuilt now frame rest gw e h =
      let (whole, others) = subst (All IsBuilt) e h.pending in
      record {
        pending = others;
        ring =
            push-AllBuilt gw.ring_capacity gw.frame_ring (record { frame = frame; rx_ts = now })
              h.ring whole;
        batch = h.batch;
        base = h.base;
      }

  decoded-AllBuilt :
      (rx_ts : ℕ) (r : Result (ParsedAsdu F × List (WaveSample F))) (gw gw' : Gateway arithmetic)
      → AllBuilt gw
      → decoded arithmetic rx_ts r gw ≡ some gw'
      → AllBuilt gw'
  decoded-AllBuilt rx_ts (ok (asdu, [])) gw gw' h e = subst AllBuilt (some-inj e) h
  decoded-AllBuilt rx_ts (ok (asdu, s ∷ samples)) gw gw' h e =
      subst AllBuilt (some-inj e) (same-AllBuilt gw _ refl refl refl refl h)
  decoded-AllBuilt rx_ts (err reason) gw gw' h e =
      subst AllBuilt (some-inj e) (same-AllBuilt gw _ refl refl refl refl h)
  decoded-AllBuilt rx_ts panic gw gw' h e = absurd (cc)
  decoded-AllBuilt rx_ts stuck gw gw' h e = absurd (cc)

  stop-AllBuilt : (gw : Gateway arithmetic) → AllBuilt gw → AllBuilt (stop arithmetic gw)
  unfolding stop close
  stop-AllBuilt gw h = elim (Bool-cases gw.running) [
    | inl e ↦ rw e (same-AllBuilt gw _ refl refl refl refl h)
    | inr e ↦ rw e (same-AllBuilt gw _ refl refl refl refl h)
  ]

  -- A frame that the capture built is decoded.
  decoded_returns :
      (now rx_ts : ℕ) (frame : RawFrame) (decoder : Decoder (decoder_floats arithmetic))
      (gw : Gateway arithmetic)
      → 1 ≤ asdu_room
      → IsBuilt frame
      → (gw' : Gateway arithmetic) × (decoded arithmetic rx_ts
            (decode_full (decoder_floats arithmetic) decoder now frame).1
            gw
          ≡ some gw')
  decoded_returns now rx_ts frame decoder gw room (wave, smpcnt, phase, rx, h, built) =
      let (parsed, samples, was, seq_no, size, at) =
        decode_full-build_sv_frame (decoder_floats arithmetic) decoder now wave smpcnt 80 phase rx
          room h (omega arith) in
      (
        forward arithmetic rx_ts samples gw,
        ap
              (λ (f : RawFrame).
                decoded arithmetic rx_ts (decode_full (decoder_floats arithmetic) decoder now f).1
                  gw)
              built
            ∙ ap
                (λ (t : Result (ParsedAsdu F × List (WaveSample F))). decoded arithmetic rx_ts t gw)
                was,
      )

  dsp_end-AllBuilt :
      (m : Option (ℕ × ℕ)) (gw : Gateway arithmetic)
      → AllBuilt gw
      → AllBuilt (measured arithmetic m gw)
  dsp_end-AllBuilt none gw h = h
  dsp_end-AllBuilt (some (latency, work)) gw h = same-AllBuilt gw _ refl refl refl refl h

  dsp_begin-AllBuilt :
      (latency : ℕ) (clock : ℕ → ℕ) (gw : Gateway arithmetic)
      → AllBuilt gw
      → AllBuilt (dsp_begin arithmetic latency clock gw)
  unfolding dsp_begin
  dsp_begin-AllBuilt latency clock gw h =
      elim (Bool-cases (length (work_of arithmetic (take batch_max gw.samp_ring)) == 0)) [
        | inl e ↦ rw e (same-AllBuilt gw _ refl refl refl refl h)
        | inr e ↦ rw e (same-AllBuilt gw _ refl refl refl refl h)
      ]

  module _ (centi : Centi {ℓ}) (to_float32 : F → centi.F) where
    Step-AllBuilt :
        (gw gw' : Gateway arithmetic)
        → Step arithmetic centi to_float32 gw gw'
        → AllBuilt gw
        → AllBuilt gw'
    unfolding start decode_batch decode_frame decode_done stop_event dsp_end used_fuse
    Step-AllBuilt gw gw' Step.starts h = same-AllBuilt gw _ refl refl refl refl h
    Step-AllBuilt gw gw' Step.stops h = stop-AllBuilt gw h
    Step-AllBuilt gw gw' (Step.reads wave now r p) h = capture_batch-AllBuilt wave now gw h
    Step-AllBuilt gw gw' (Step.hands_on now frame rest p) h =
        capture_frame-AllBuilt now frame rest gw p h
    Step-AllBuilt gw gw' (Step.takes r b s) h = record {
      pending = h.pending;
      ring = All-drop CarriesBuilt batch_max gw.frame_ring h.ring;
      batch = All-take CarriesBuilt batch_max gw.frame_ring h.ring;
      base = h.base;
    }
    Step-AllBuilt gw gw' (Step.decodes now msg rest b e) h =
        let (whole, others) = subst (All CarriesBuilt) b h.batch in
        let left : Gateway arithmetic = record gw { batch = rest } in
        decoded-AllBuilt msg.rx_ts
          (decode_full (decoder_floats arithmetic) gw.decoder now msg.frame).1 left gw'
          (record { pending = h.pending; ring = h.ring; batch = others; base = h.base }) e
    Step-AllBuilt gw gw' (Step.counts b) h = same-AllBuilt gw _ refl refl refl refl h
    Step-AllBuilt gw gw' (Step.processes latency clock r e m) h =
        dsp_begin-AllBuilt latency clock gw h
    Step-AllBuilt gw gw' (Step.measures e) h = dsp_end-AllBuilt gw.measuring gw h
    Step-AllBuilt gw gw' (Step.stops_machine now e rest p) h =
        same-AllBuilt gw _ refl refl refl refl h
    Step-AllBuilt gw gw' Step.resets h = same-AllBuilt gw _ refl refl refl refl h
    Step-AllBuilt gw gw' (Step.feeds now s) h = same-AllBuilt gw _ refl refl refl refl h
    Step-AllBuilt gw gw' (Step.gets_channel fd device e) h =
        same-AllBuilt gw _ refl refl refl refl h
    Step-AllBuilt gw gw' (Step.composes fd device ch e found) h =
        same-AllBuilt gw _ refl refl refl refl h
    Step-AllBuilt gw gw' (Step.sends fd now frame e) h = same-AllBuilt gw _ refl refl refl refl h
    Step-AllBuilt gw gw' (Step.sets_redline grams) h = same-AllBuilt gw _ refl refl refl refl h
    Step-AllBuilt gw gw' (Step.sets_jump pct) h = same-AllBuilt gw _ refl refl refl refl h
    Step-AllBuilt gw gw' (Step.sets_phase deg) h = same-AllBuilt gw _ refl refl refl refl h

    Reachable-AllBuilt :
        (decoder : Decoder (decoder_floats arithmetic)) (cfg : Config arithmetic)
        (gw : Gateway arithmetic)
        → Reachable arithmetic centi to_float32 decoder cfg gw
        → AllBuilt gw
    unfolding new_gateway new_packet_capture
    Reachable-AllBuilt decoder cfg gw Reachable.made = record {
      pending = tt;
      ring = tt;
      batch = tt;
      base = omega arith;
    }
    Reachable-AllBuilt decoder cfg gw (Reachable.after {gw = before} r s) =
        Step-AllBuilt before gw s (Reachable-AllBuilt decoder cfg before r)

    -- In every reachable state with a frame in the decode loop's batch, decoding the frame does not end
    -- the program, and what it comes to is a reachable state again, where memory has room for one ASDU:
    -- no frame that the simulated capture makes lets the decoder panic or loop.
    pub decode_frame_continues :
        (decoder : Decoder (decoder_floats arithmetic)) (cfg : Config arithmetic)
        (gw : Gateway arithmetic) (now : ℕ) (msg : FrameMsg) (rest : List FrameMsg)
        → 1 ≤ asdu_room
        → Reachable arithmetic centi to_float32 decoder cfg gw
        → gw.batch ≡ msg ∷ rest
        → (gw' : Gateway arithmetic) × (decode_frame arithmetic now msg rest gw ≡ some gw')
          × Reachable arithmetic centi to_float32 decoder cfg gw'
    unfolding decode_frame
    decode_frame_continues decoder cfg gw now msg rest room r b =
        let h = Reachable-AllBuilt decoder cfg gw r in
        let (whole, others) = subst (All CarriesBuilt) b h.batch in
        let left : Gateway arithmetic = record gw { batch = rest } in
        let (gw', e) = decoded_returns now msg.rx_ts msg.frame gw.decoder left room whole in
        (gw', e, Reachable.after r (Step.decodes now msg rest b e))
