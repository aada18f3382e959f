-- ===== src/Gateway/Balance.antt =====
-- No frame gets lost unseen: in every reachable state the counted frames are accounted for.
use wire_bonding_ultra.Prelude.{
  ℕ, suc, ◌+◌, ◌≤◌, ◌≡◌, refl, ap, subst, arith, List, [], ◌∷◌, Option, none, some, length,
  length-append, length-drop, take, drop, ◌==◌, Bool-cases, inl, inr, some-inj, ℕ_discrete,
}
use wire_bonding_ultra.Models.{WaveSample, ParsedAsdu}
use wire_bonding_ultra.Models.Arithmetic.{Arithmetic, decoder_floats}
use wire_bonding_ultra.Ringbuf.Fifo.{push_room, push_full}
use wire_bonding_ultra.Iec61850.Frame.{Decoder, decode_full}
use wire_bonding_ultra.Iec61850.Result.{Result, ok, err, panic, stuck}
use wire_bonding_ultra.Canbus.Fuse.{Centi}
use wire_bonding_ultra.Gateway.State.{Config, Gateway, FrameMsg, SampleMsg, new_gateway}
use wire_bonding_ultra.Gateway.Loops.{
  batch_max, work_of, zero_sample_msg, forward, decoded, decode_frame, decode_done, dsp_begin,
  stop_event, dsp_end, measured, used_fuse, start, stop,
}
use wire_bonding_ultra.Gateway.Steps.{Step, Reachable}
use wire_bonding_ultra.Gateway.Conserve.{
  Account, same-Account, capture_batch-Account, capture_frame-Account, decode_batch-Account,
  handled_one, is_full_yes, is_full_no,
}
use wire_bonding_ultra.Gateway.Tally.{Tally, no_frames, is_full, tally_decoded, tally_step, tally}

module _ {ℓ} (arithmetic : Arithmetic {ℓ}) where
  open arithmetic use {F}

  abbrev A : Tally → Gateway arithmetic → Type 0
  A t gw = Account arithmetic t gw

  -- One frame of the batch is taken.
  abbrev left : List FrameMsg → Gateway arithmetic → Gateway arithmetic
  left rest gw = record gw { batch = rest }

  forward-Account :
      {t : Tally} (rx_ts : ℕ) (asdu : ParsedAsdu F) (samples : List (WaveSample F))
      (rest : List FrameMsg) (gw : Gateway arithmetic)
      → length gw.batch ≡ suc (length rest)
      → A t gw
      → A
          (tally_decoded arithmetic (ok (asdu, samples)) (is_full gw.samp_ring gw.ring_capacity) t)
          (forward arithmetic rx_ts samples (left rest gw))
  forward-Account {t} rx_ts asdu [] rest gw b a =
      handled_one arithmetic gw (left rest gw) 0 0 (omega arith)
        (refl, refl, refl, omega arith, omega arith) (refl, refl, refl)
        (omega (arith, a.parse_errors)) (omega (arith, a.enq_fails)) refl refl b a.samples_fit refl
        a
  forward-Account {t} rx_ts asdu (s ∷ samples) rest gw b a =
      let msg : SampleMsg F = record { samples = s ∷ samples; rx_ts = rx_ts } in
      elim (ℕ_discrete (length gw.samp_ring) gw.ring_capacity) [
        | yes full ↦
            rw
              (
                push_full zero_sample_msg gw.ring_capacity gw.samp_ring msg full,
                is_full_yes gw.samp_ring gw.ring_capacity full,
              )
              (handled_one arithmetic gw _ 0 1 (omega arith) (refl, refl, refl, omega arith, refl)
                (refl, refl, refl) (omega (arith, a.parse_errors)) refl refl refl b a.samples_fit
                refl a)
        | no room ↦
            rw
              (
                push_room zero_sample_msg gw.ring_capacity gw.samp_ring msg
                    (omega (arith, a.samples_fit, room)),
                is_full_no gw.samp_ring gw.ring_capacity room,
              )
              (handled_one arithmetic gw _ 0 0 (omega arith) (refl, refl, refl, omega arith, refl)
                (refl, refl, refl) (omega (arith, a.parse_errors)) (omega (arith, a.enq_fails)) refl
                refl b (omega (arith, a.samples_fit, room, length-append gw.samp_ring (msg ∷ [])))
                refl a)
      ]

  decoded-Account :
      {t : Tally} (rx_ts : ℕ) (r : Result (ParsedAsdu F × List (WaveSample F)))
      (rest : List FrameMsg) (gw gw' : Gateway arithmetic)
      → length gw.batch ≡ suc (length rest)
      → decoded arithmetic rx_ts r (left rest gw) ≡ some gw'
      → A t gw
      → A (tally_decoded arithmetic r (is_full gw.samp_ring gw.ring_capacity) t) gw'
  decoded-Account {t} rx_ts (ok (asdu, samples)) rest gw gw' b e a =
      subst
        (A
          (tally_decoded arithmetic (ok (asdu, samples)) (is_full gw.samp_ring gw.ring_capacity) t))
        (some-inj e) (forward-Account rx_ts asdu samples rest gw b a)
  decoded-Account {t} rx_ts (err reason) rest gw gw' b e a =
      subst (A (record t { handled = t.handled + 1; refused = t.refused + 1 })) (some-inj e) (
        handled_one arithmetic gw _ 1 0 (omega arith) (refl, refl, refl, refl, omega arith)
          (refl, refl, refl) refl (omega (arith, a.enq_fails)) refl refl b a.samples_fit refl a)
  decoded-Account rx_ts panic rest gw gw' b e a = absurd (cc)
  decoded-Account rx_ts stuck rest gw gw' b e a = absurd (cc)

  -- Where the account's fields are the same, with nothing taken from a ring.
  kept :
      {t : Tally} (gw gw' : Gateway arithmetic)
      → (gw'.stats.frames_rx ≡ gw.stats.frames_rx)
        × (gw'.stats.frames_dropped ≡ gw.stats.frames_dropped)
        × (gw'.stats.parse_errors ≡ gw.stats.parse_errors)
        × (gw'.stats.ring_enq_fails ≡ gw.stats.ring_enq_fails)
        × (gw'.stats.ring_deq_fails ≡ gw.stats.ring_deq_fails)
      → gw'.pending ≡ gw.pending
      → gw'.frame_ring ≡ gw.frame_ring
      → gw'.batch ≡ gw.batch
      → gw'.samp_ring ≡ gw.samp_ring
      → gw'.ring_capacity ≡ gw.ring_capacity
      → A t gw
      → A t gw'
  kept gw gw' s p f b r c a =
      same-Account arithmetic gw gw' s p f b (omega (arith, ap length r)) c a

  stop-Account : {t : Tally} (gw : Gateway arithmetic) → A t gw → A t (stop arithmetic gw)
  unfolding stop
  stop-Account gw a = elim (Bool-cases gw.running) [
    | inl e ↦ rw e (kept gw _ (refl, refl, refl, refl, refl) refl refl refl refl refl a)
    | inr e ↦ rw e (kept gw _ (refl, refl, refl, refl, refl) refl refl refl refl refl a)
  ]

  dsp_end-Account :
      {t : Tally} (m : Option (ℕ × ℕ)) (gw : Gateway arithmetic)
      → A t gw
      → A t (measured arithmetic m gw)
  dsp_end-Account none gw a = a
  dsp_end-Account (some (latency, work)) gw a =
      kept gw _ (refl, refl, refl, refl, refl) refl refl refl refl refl a

  module _ (centi : Centi {ℓ}) (to_float32 : F → centi.F) where
    dsp_begin-Account :
        {t : Tally} (latency : ℕ) (clock : ℕ → ℕ) (gw : Gateway arithmetic)
        → A t gw
        → A t (dsp_begin arithmetic latency clock gw)
    unfolding dsp_begin
    dsp_begin-Account latency clock gw a =
        let work = work_of arithmetic (take batch_max gw.samp_ring) in
        let fewer : length (drop batch_max gw.samp_ring) ≤ length gw.samp_ring =
          omega (arith, length-drop batch_max gw.samp_ring) in
        elim (Bool-cases (length work == 0)) [
          | inl e ↦ rw e (
              same-Account arithmetic gw _ (refl, refl, refl, refl, refl) refl refl refl fewer refl
                a)
          | inr e ↦ rw e (
              same-Account arithmetic gw _ (refl, refl, refl, refl, refl) refl refl refl fewer refl
                a)
        ]

    Step-Account :
        {t : Tally} (gw gw' : Gateway arithmetic) (s : Step arithmetic centi to_float32 gw gw')
        → A t gw
        → A (tally_step arithmetic centi to_float32 gw gw' s t) gw'
    unfolding tally_step start decode_frame decode_done stop_event dsp_end used_fuse
    Step-Account gw gw' (Step.reads wave now r p) a =
        capture_batch-Account arithmetic wave now gw p a
    Step-Account gw gw' (Step.hands_on now frame rest p) a =
        capture_frame-Account arithmetic now frame rest gw p a
    Step-Account gw gw' (Step.takes r b s) a = decode_batch-Account arithmetic gw b a
    Step-Account gw gw' (Step.decodes now msg rest b e) a =
        decoded-Account msg.rx_ts
          (decode_full (decoder_floats arithmetic) gw.decoder now msg.frame).1 rest gw gw'
          (ap length b) e a
    Step-Account gw gw' Step.stops a = stop-Account gw a
    Step-Account gw gw' (Step.processes latency clock r e m) a =
        dsp_begin-Account latency clock gw a
    Step-Account gw gw' (Step.measures e) a = dsp_end-Account gw.measuring gw a
    Step-Account gw gw' Step.starts a =
        kept gw _ (refl, refl, refl, refl, refl) refl refl refl refl refl a
    Step-Account gw gw' (Step.counts b) a =
        kept gw _ (refl, refl, refl, refl, refl) refl refl refl refl refl a
    Step-Account gw gw' (Step.stops_machine now e rest p) a =
        kept gw _ (refl, refl, refl, refl, refl) refl refl refl refl refl a
    Step-Account gw gw' (Step.sets_redline grams) a =
        kept gw _ (refl, refl, refl, refl, refl) refl refl refl refl refl a
    Step-Account gw gw' (Step.sets_jump pct) a =
        kept gw _ (refl, refl, refl, refl, refl) refl refl refl refl refl a
    Step-Account gw gw' (Step.sets_phase deg) a =
        kept gw _ (refl, refl, refl, refl, refl) refl refl refl refl refl a
    Step-Account gw gw' Step.resets a =
        kept gw _ (refl, refl, refl, refl, refl) refl refl refl refl refl a
    Step-Account gw gw' (Step.feeds now s) a =
        kept gw _ (refl, refl, refl, refl, refl) refl refl refl refl refl a
    Step-Account gw gw' (Step.gets_channel fd device e) a =
        kept gw _ (refl, refl, refl, refl, refl) refl refl refl refl refl a
    Step-Account gw gw' (Step.composes fd device ch e found) a =
        kept gw _ (refl, refl, refl, refl, refl) refl refl refl refl refl a
    Step-Account gw gw' (Step.sends fd now frame e) a =
        kept gw _ (refl, refl, refl, refl, refl) refl refl refl refl refl a

    made-Account :
        (decoder : Decoder (decoder_floats arithmetic)) (cfg : Config arithmetic)
        → A no_frames (new_gateway arithmetic decoder cfg)
    unfolding new_gateway
    made-Account decoder cfg = record {
      frames_rx = omega arith;
      frames_dropped = omega arith;
      parse_errors = omega arith;
      enq_fails = omega arith;
      deq_fails = refl;
      balance = omega arith;
      parts = omega arith;
      frames_fit = omega arith;
      samples_fit = omega arith;
    }

    -- Count, along the steps to a reachable state of the gateway, however its loops and the calls from
    -- outside came between one another, the frames that the capture gave, those that found the ring full,
    -- those that were decoded, those that did not parse, and those whose samples found the other ring
    -- full. Then every frame that was given found the ring full, waits in the capture loop's batch, in
    -- the ring or in the decode loop's batch, or was decoded. The counters of received and of dropped
    -- frames and of parse errors are those counts modulo 2^64, that of failed enqueues is the sum of the
    -- two for full rings, that of failed dequeues stays 0, and no ring holds more than it has room for.
    pub Reachable-Account :
        (decoder : Decoder (decoder_floats arithmetic)) (cfg : Config arithmetic)
        (gw : Gateway arithmetic)
        → (r : Reachable arithmetic centi to_float32 decoder cfg gw)
        → Account arithmetic (tally arithmetic centi to_float32 gw r) gw
    unfolding tally
    Reachable-Account decoder cfg gw Reachable.made = made-Account decoder cfg
    Reachable-Account decoder cfg gw (Reachable.after {gw = before} r s) =
        Step-Account before gw s (Reachable-Account decoder cfg before r)
