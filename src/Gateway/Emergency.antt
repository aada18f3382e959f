-- ===== src/Gateway/Emergency.antt =====
-- The counters of the emergency stops in the states that the gateway can reach, and the emergency stops
-- of a batch of the DSP loop.
use wire_bonding_ultra.Prelude.{
  ℕ, ◌+◌, ◌≡◌, refl, ap, subst, ◌∙◌, arith, List, [], ◌∷◌, ◌++◌, Bool, true, Option, none, some,
  length, length-append, length-replicate, if◌then◌else◌, Bool-cases, inl, inr, some-inj,
}
use wire_bonding_ultra.Models.{WaveSample, RawFrame, ParsedAsdu}
use wire_bonding_ultra.Models.Arithmetic.{Arithmetic, decoder_floats}
use wire_bonding_ultra.Ringbuf.Fifo.{push}
use wire_bonding_ultra.Iec61850.Frame.{Decoder, decode_full}
use wire_bonding_ultra.Iec61850.Result.{Result, ok, err, panic, stuck}
use wire_bonding_ultra.Canbus.Fuse.{
  Centi, Frame20B, FuseChannel, FuseDispatcher, new_fuse_dispatcher, find_channel, put_channel,
  get_channel, next_seq, on_sent,
}
use wire_bonding_ultra.Canbus.Fuse.Channels.{
  get_channel-keeps, get_channel-IsRegistered, next_seq-IsRegistered,
}
use wire_bonding_ultra.Canbus.Fuse.Runs.{new_fuse_dispatcher-IsRegistered}
use wire_bonding_ultra.Impedance.Pipeline.Config.{Pipeline, PullEvent, zero_pull_event}
use wire_bonding_ultra.Gateway.State.{Config, Gateway, new_gateway}
use wire_bonding_ultra.Gateway.Loops.{
  zero_frame_msg, zero_sample_msg, capture_batch, capture_frame, decode_batch, forward, decoded,
  decode_frame, decode_done, stop_event, measured, dsp_end, used_fuse, start, stop,
}
use wire_bonding_ultra.Gateway.Steps.{Step, Reachable}
use wire_bonding_ultra.Gateway.Tally.{outside_step, sent_outside}
use wire_bonding_ultra.Gateway.Dispatch.{
  Agrees, IsReady, Keeps, dsp_begin-Keeps, same_fuse, used_fuse-Keeps, fused-Agrees,
}

-- How many frames a dispatcher handed on.
abbrev pub sent_by : Option FuseDispatcher → ℕ
sent_by none = 0
sent_by (some fd) = length fd.sent

module _ {ℓ} (arithmetic : Arithmetic {ℓ}) (centi : Centi {ℓ})
    (to_float32 : arithmetic.F → centi.F) where
  open arithmetic use {F}

  abbrev K : ℕ → Gateway arithmetic → Type 0
  K n gw = Keeps arithmetic centi to_float32 n gw

  forward-Keeps :
      {n : ℕ} (rx_ts : ℕ) (samples : List (WaveSample F)) (gw : Gateway arithmetic)
      → K n gw
      → K n (forward arithmetic rx_ts samples gw)
  forward-Keeps rx_ts [] gw k = k
  forward-Keeps rx_ts (s ∷ samples) gw k =
      let sent =
        (push zero_sample_msg gw.ring_capacity gw.samp_ring
          (record { samples = s ∷ samples; rx_ts = rx_ts })).0 in
      elim (Bool-cases sent) [
        | inl e ↦
            same_fuse arithmetic centi to_float32 gw _ refl (rw e refl) (rw e refl) refl refl k
        | inr e ↦
            same_fuse arithmetic centi to_float32 gw _ refl (rw e refl) (rw e refl) refl refl k
      ]

  decoded-Keeps :
      {n : ℕ} (rx_ts : ℕ) (r : Result (ParsedAsdu F × List (WaveSample F)))
      (gw gw' : Gateway arithmetic)
      → K n gw
      → decoded arithmetic rx_ts r gw ≡ some gw'
      → K n gw'
  decoded-Keeps {n} rx_ts (ok (asdu, samples)) gw gw' k e =
      subst (K n) (some-inj e) (forward-Keeps rx_ts samples gw k)
  decoded-Keeps {n} rx_ts (err reason) gw gw' k e =
      subst (K n) (some-inj e)
        (same_fuse arithmetic centi to_float32 gw _ refl refl refl refl refl k)
  decoded-Keeps {n} rx_ts panic gw gw' k e = absurd (cc)
  decoded-Keeps {n} rx_ts stuck gw gw' k e = absurd (cc)

  capture_frame-Keeps :
      {n : ℕ} (now : ℕ) (frame : RawFrame) (rest : List RawFrame) (gw : Gateway arithmetic)
      → K n gw
      → K n (capture_frame arithmetic now frame rest gw)
  unfolding capture_frame
  capture_frame-Keeps now frame rest gw k =
      let sent =
        (push zero_frame_msg gw.ring_capacity gw.frame_ring
          (record { frame = frame; rx_ts = now })).0 in
      elim (Bool-cases sent) [
        | inl e ↦
            same_fuse arithmetic centi to_float32 gw _ refl (rw e refl) (rw e refl) refl refl k
        | inr e ↦
            same_fuse arithmetic centi to_float32 gw _ refl (rw e refl) (rw e refl) refl refl k
      ]

  stop-Keeps : {n : ℕ} (gw : Gateway arithmetic) → K n gw → K n (stop arithmetic gw)
  unfolding stop
  stop-Keeps gw k = elim (Bool-cases gw.running) [
    | inl e ↦
        same_fuse arithmetic centi to_float32 gw _ (rw e refl) (rw e refl) (rw e refl) (rw e refl)
          (rw e refl) k
    | inr e ↦
        same_fuse arithmetic centi to_float32 gw _ (rw e refl) (rw e refl) (rw e refl) (rw e refl)
          (rw e refl) k
  ]

  stop_event-Keeps :
      {n : ℕ} (now : ℕ) (e : PullEvent arithmetic) (rest : List (PullEvent arithmetic))
      (gw : Gateway arithmetic)
      → gw.events ≡ e ∷ rest
      → K n gw
      → K n (stop_event arithmetic centi to_float32 now e rest gw)
  unfolding stop_event
  stop_event-Keeps {n} now e rest gw here k =
      let pending : length gw.events ≡ length rest + 1 = ap length here ∙ omega arith in
      let (agrees, armed) =
        fused-Agrees arithmetic centi to_float32 now gw.cfg.pull_redline_g gw.cfg.can_device_id e
          (length rest) gw.fuse gw.stats.can_fuse_frames gw.stats.pull_redline_hits n k.ready.armed
          (subst (λ (p : ℕ). Agrees gw.fuse gw.stats.can_fuse_frames p gw.stats.pull_redline_hits n)
            pending k.agrees) in
      record { ready = record { armed = armed; room = k.ready.room }; agrees = agrees }

  dsp_end-Keeps :
      {n : ℕ} (m : Option (ℕ × ℕ)) (gw : Gateway arithmetic)
      → K n gw
      → K n (measured arithmetic m gw)
  dsp_end-Keeps none gw k = k
  dsp_end-Keeps (some (latency, work)) gw k =
      same_fuse arithmetic centi to_float32 gw _ refl refl refl refl refl k

  -- Calls from outside on the dispatcher.
  get_channel-Keeps :
      {n : ℕ} (device : ℕ) (fd : FuseDispatcher) (gw : Gateway arithmetic)
      → gw.fuse ≡ some fd
      → K n gw
      → K n (used_fuse arithmetic fd (get_channel device fd).0 gw)
  get_channel-Keeps {n} device fd gw e k =
      let (callback, sent) = get_channel-keeps device fd in
      subst (λ (o : ℕ). K o (used_fuse arithmetic fd (get_channel device fd).0 gw)) {x = n + 0}
        {y = n} (omega arith)
        (used_fuse-Keeps arithmetic centi to_float32 fd (get_channel device fd).0 0 gw e
          (λ armed. record {
            has_callback = callback ∙ armed.has_callback;
            registered = get_channel-IsRegistered device fd armed.registered;
          })
          (λ armed. ap length sent ∙ omega arith) k)

  compose-Keeps :
      {n : ℕ} (device : ℕ) (ch : FuseChannel) (fd : FuseDispatcher) (gw : Gateway arithmetic)
      → gw.fuse ≡ some fd
      → find_channel fd.channels device ≡ some ch
      → K n gw
      → K n (
          used_fuse arithmetic fd
            (record fd { channels = put_channel fd.channels device (next_seq centi ch) })
            gw)
  compose-Keeps {n} device ch fd gw e found k =
      let fd' : FuseDispatcher = record fd {
        channels = put_channel fd.channels device (next_seq centi ch);
      } in
      subst (λ (o : ℕ). K o (used_fuse arithmetic fd fd' gw)) {x = n + 0} {y = n} (omega arith)
        (used_fuse-Keeps arithmetic centi to_float32 fd fd' 0 gw e
          (λ armed. record {
            has_callback = armed.has_callback;
            registered = next_seq-IsRegistered centi device ch fd found armed.registered;
          })
          (λ armed. omega arith) k)

  send-Keeps :
      {n : ℕ} (now : ℕ) (frame : Frame20B) (fd : FuseDispatcher) (gw : Gateway arithmetic)
      → gw.fuse ≡ some fd
      → K n gw
      → K (n + 1) (used_fuse arithmetic fd (on_sent now frame fd) gw)
  unfolding on_sent
  send-Keeps now frame fd gw e k =
      used_fuse-Keeps arithmetic centi to_float32 fd (on_sent now frame fd) 1 gw e
        (λ armed. record { has_callback = armed.has_callback; registered = armed.registered })
        (λ armed.
          ap (λ (b : Bool). length (if b then fd.sent ++ (frame ∷ []) else fd.sent))
            armed.has_callback
          ∙ length-append fd.sent (frame ∷ []))
        k

  Step-Keeps :
      {n : ℕ} (gw gw' : Gateway arithmetic) (s : Step arithmetic centi to_float32 gw gw')
      → K n gw
      → K (outside_step arithmetic centi to_float32 gw gw' s n) gw'
  unfolding outside_step start capture_batch decode_batch decode_frame decode_done dsp_end
  Step-Keeps gw gw' Step.stops k = stop-Keeps gw k
  Step-Keeps gw gw' (Step.hands_on now frame rest p) k = capture_frame-Keeps now frame rest gw k
  Step-Keeps gw gw' (Step.decodes now msg rest b e) k =
      let left : Gateway arithmetic = record gw { batch = rest } in
      decoded-Keeps msg.rx_ts (decode_full (decoder_floats arithmetic) gw.decoder now msg.frame).1
        left gw' (same_fuse arithmetic centi to_float32 gw left refl refl refl refl refl k) e
  Step-Keeps gw gw' (Step.processes latency clock r e m) k =
      dsp_begin-Keeps arithmetic centi to_float32 latency clock gw e k
  Step-Keeps gw gw' (Step.stops_machine now e rest p) k = stop_event-Keeps now e rest gw p k
  Step-Keeps gw gw' (Step.measures e) k = dsp_end-Keeps gw.measuring gw k
  Step-Keeps gw gw' (Step.gets_channel fd device e) k = get_channel-Keeps device fd gw e k
  Step-Keeps gw gw' (Step.composes fd device ch e found) k = compose-Keeps device ch fd gw e found k
  Step-Keeps gw gw' (Step.sends fd now frame e) k = send-Keeps now frame fd gw e k
  Step-Keeps gw gw' Step.starts k =
      same_fuse arithmetic centi to_float32 gw _ refl refl refl refl refl k
  Step-Keeps gw gw' (Step.reads wave now r p) k =
      same_fuse arithmetic centi to_float32 gw _ refl refl refl refl refl k
  Step-Keeps gw gw' (Step.takes r b s) k =
      same_fuse arithmetic centi to_float32 gw _ refl refl refl refl refl k
  Step-Keeps gw gw' (Step.counts b) k =
      same_fuse arithmetic centi to_float32 gw _ refl refl refl refl refl k
  Step-Keeps gw gw' (Step.sets_redline grams) k =
      same_fuse arithmetic centi to_float32 gw _ refl refl refl refl refl k
  Step-Keeps gw gw' (Step.sets_jump pct) k =
      same_fuse arithmetic centi to_float32 gw _ refl refl refl refl refl k
  Step-Keeps gw gw' (Step.sets_phase deg) k =
      same_fuse arithmetic centi to_float32 gw _ refl refl refl refl refl k
  Step-Keeps gw gw' Step.resets k =
      same_fuse arithmetic centi to_float32 gw _ refl refl refl refl refl k
  Step-Keeps gw gw' (Step.feeds now s) k =
      same_fuse arithmetic centi to_float32 gw _ refl refl refl refl refl k

  made-Keeps :
      (decoder : Decoder (decoder_floats arithmetic)) (cfg : Config arithmetic)
      → K 0 (new_gateway arithmetic decoder cfg)
  unfolding new_gateway new_fuse_dispatcher
  made-Keeps decoder cfg = elim (Bool-cases cfg.enable_can_fuse) [
    | inl e ↦ rw e (record {
      ready = record {
        armed = record { has_callback = refl; registered = new_fuse_dispatcher-IsRegistered true };
        room = length-replicate 128 (zero_pull_event arithmetic);
      };
      agrees = (omega arith, omega arith);
    })
    | inr e ↦ rw e (record {
      ready = record { armed = tt; room = length-replicate 128 (zero_pull_event arithmetic) };
      agrees = refl;
    })
  ]

  Reachable-Keeps :
      (decoder : Decoder (decoder_floats arithmetic)) (cfg : Config arithmetic)
      (gw : Gateway arithmetic)
      → (r : Reachable arithmetic centi to_float32 decoder cfg gw)
      → K (sent_outside arithmetic centi to_float32 gw r) gw
  unfolding sent_outside
  Reachable-Keeps decoder cfg gw Reachable.made = made-Keeps decoder cfg
  Reachable-Keeps decoder cfg gw (Reachable.after {gw = before} r s) =
      Step-Keeps before gw s (Reachable-Keeps decoder cfg before r)

  pub Reachable-IsReady :
      (decoder : Decoder (decoder_floats arithmetic)) (cfg : Config arithmetic)
      (gw : Gateway arithmetic)
      → Reachable arithmetic centi to_float32 decoder cfg gw
      → IsReady arithmetic centi to_float32 gw
  Reachable-IsReady decoder cfg gw r = (Reachable-Keeps decoder cfg gw r).ready

  -- In every reachable state of the gateway, however the steps of its loops and the calls from outside
  -- came between one another, the count of CAN frames is the number of frames that the dispatcher handed
  -- on, and with the events that the DSP loop has still to send it is the count of redline hits with the
  -- frames that calls from outside sent, both modulo 2^64; without a dispatcher no CAN frame is counted.
  pub counters_agree :
      (decoder : Decoder (decoder_floats arithmetic)) (cfg : Config arithmetic)
      (gw : Gateway arithmetic)
      → (r : Reachable arithmetic centi to_float32 decoder cfg gw)
      → Agrees gw.fuse gw.stats.can_fuse_frames
          (length gw.events)
          gw.stats.pull_redline_hits
          (sent_outside arithmetic centi to_float32 gw r)
  counters_agree decoder cfg gw r = (Reachable-Keeps decoder cfg gw r).agrees
