-- ===== src/Gateway/Dispatch.antt =====
-- The DSP loop's emergency stops: how many there are, and what its steps keep of the counters.
use wire_bonding_ultra.Prelude.{
  ℕ, ◌+◌, ◌%◌, ◌^◌, ◌≡◌, refl, ap, subst, sym, ◌∙◌, arith, List, [], ◌∷◌, ◌++◌, Bool, true, Option,
  none, some, length, length-append, length-take, take, min, ◌==◌, if◌then◌else◌, Bool-cases, inl,
  inr,
}
use wire_bonding_ultra.Models.Arithmetic.{Arithmetic}
use wire_bonding_ultra.Canbus.Fuse.{Centi, Frame20B, FuseDispatcher}
use wire_bonding_ultra.Canbus.Fuse.Dispatch.{IsRegistered, Dispatched, dispatch_emergency_lem}
use wire_bonding_ultra.Canbus.Fuse.Runs.{Dispatched-IsRegistered}
use wire_bonding_ultra.Impedance.Pipeline.{process_batch}
use wire_bonding_ultra.Impedance.Pipeline.Config.{PullEvent}
use wire_bonding_ultra.Impedance.Pipeline.Batch.{
  some_of, length-overwrite, outcomes, pulls_of, process_batch_lem,
}
use wire_bonding_ultra.Gateway.State.{Gateway}
use wire_bonding_ultra.Gateway.Loops.{
  reason_pull_strength_below_redline, batch_max, work_of, timed, deviation, dispatch_event,
  stop_event, stop_events, fused, handed, dsp_begin, used_fuse, add64,
}

-- The dispatcher hands frames on, and its channels have their devices' numbers.
pub record IsArmed (fd : FuseDispatcher) : Type 0 where
  pub has_callback : fd.has_send_all ≡ true
  pub registered : IsRegistered fd

-- `n` emergency frames more.
pub record Stopped (n : ℕ) (fd fd' : FuseDispatcher) : Type 0 where
  pub armed : IsArmed fd'
  pub frames : length fd'.sent ≡ length fd.sent + n
  pub counted : fd'.stats.emergency_frames % 2 ^ 64 ≡ (fd.stats.emergency_frames + n) % 2 ^ 64

Dispatched-Stopped :
    (device reason : ℕ) (fd fd' : FuseDispatcher) (frame : Frame20B)
    → Dispatched device reason fd fd' frame
    → IsArmed fd
    → Stopped 1 fd fd'
Dispatched-Stopped device reason fd fd' frame d armed =
    let handed =
      d.handed_on
      ∙ ap (λ (b : Bool). if b then fd.sent ++ (frame ∷ []) else fd.sent) armed.has_callback in
    record {
      armed = record {
        has_callback = d.same_callback ∙ armed.has_callback;
        registered = Dispatched-IsRegistered device reason fd fd' frame d armed.registered;
      };
      frames = ap length handed ∙ length-append fd.sent (frame ∷ []);
      counted = omega (arith, d.emergency);
    }

-- The count of CAN frames is the dispatcher's own count; with the events that are still to be sent it is
-- the count of redline hits with the frames that calls from outside sent.
abbrev pub Agrees : Option FuseDispatcher → ℕ → ℕ → ℕ → ℕ → Type 0
Agrees none fused_frames pending hits outside = fused_frames ≡ 0
Agrees (some fd) fused_frames pending hits outside =
    (fused_frames ≡ length fd.sent % 2 ^ 64)
    × ((fused_frames + pending) % 2 ^ 64 ≡ (hits + outside) % 2 ^ 64)

abbrev pub AllArmed : Option FuseDispatcher → Type 0
AllArmed none = Unit {0}
AllArmed (some fd) = IsArmed fd

module _ {ℓ} (arithmetic : Arithmetic {ℓ}) (centi : Centi {ℓ})
    (to_float32 : arithmetic.F → centi.F) where
  open arithmetic use {F}

  dispatch_event-Stopped :
      (now : ℕ) (redline : F) (device : ℕ) (e : PullEvent arithmetic) (fd : FuseDispatcher)
      → IsArmed fd
      → Stopped 1 fd (dispatch_event arithmetic centi to_float32 now redline device e fd)
  unfolding dispatch_event
  dispatch_event-Stopped now redline device e fd armed =
      Dispatched-Stopped device reason_pull_strength_below_redline fd _ _
        (dispatch_emergency_lem centi now (e.prediction.seq_no % 2 ^ 16)
          reason_pull_strength_below_redline (to_float32 e.prediction.pull_grams)
          (deviation arithmetic centi to_float32 redline e.prediction.pull_grams)
          e.prediction.seq_no e.prediction.timestamp_ns device fd (omega arith) armed.registered)
        armed

  pub fused-Stopped :
      (now : ℕ) (redline : F) (device : ℕ) (e : PullEvent arithmetic) (fd : FuseDispatcher)
      (count : ℕ)
      → IsArmed fd
      → (fd' : FuseDispatcher) × ((fused arithmetic centi to_float32 now redline device e
            (some fd)
            count).0
          ≡ some fd')
        × Stopped 1 fd fd'
  fused-Stopped now redline device e fd count armed = (
    dispatch_event arithmetic centi to_float32 now redline device e fd,
    refl,
    dispatch_event-Stopped now redline device e fd armed,
  )

  -- The events of a batch, one after another.
  pub stop_events-Stopped :
      (now : ℕ) (events : List (PullEvent arithmetic)) (fd : FuseDispatcher)
      (gw : Gateway arithmetic)
      → gw.fuse ≡ some fd
      → IsArmed fd
      → (fd' : FuseDispatcher) × ((stop_events arithmetic centi to_float32 now events gw).fuse
          ≡ some fd')
        × Stopped (length events) fd fd'
  unfolding stop_events stop_event
  stop_events-Stopped now [] fd gw e armed =
      (fd, e, record { armed = armed; frames = omega arith; counted = omega arith })
  stop_events-Stopped now (event ∷ events) fd gw e armed =
      let redline = gw.cfg.pull_redline_g in
      let device = gw.cfg.can_device_id in
      let (fd1, sent, first) =
        fused-Stopped now redline device event fd gw.stats.can_fuse_frames armed in
      let here =
        ap
          (λ (f : Option FuseDispatcher).
            (fused arithmetic centi to_float32 now redline device event f
              gw.stats.can_fuse_frames).0)
          e
        ∙ sent in
      let (fd2, there, rest) =
        stop_events-Stopped now events fd1
          (stop_event arithmetic centi to_float32 now event events gw) here first.armed in
      (
        fd2,
        there,
        record {
          armed = rest.armed;
          frames = omega (arith, rest.frames, first.frames);
          counted = omega (arith, rest.counted, first.counted);
        },
      )

  -- `n` frames more, which were pending or come from outside.
  pub handed-Agrees :
      (fd fd' : FuseDispatcher) (n fused_frames pending pending' hits outside outside' : ℕ)
      → length fd'.sent ≡ length fd.sent + n
      → pending + outside' ≡ pending' + outside + n
      → Agrees (some fd) fused_frames pending hits outside
      → Agrees (some fd') (handed arithmetic fd fd' fused_frames) pending' hits outside'
  handed-Agrees fd fd' n fused_frames pending pending' hits outside outside' sent moved (e, c) =
      (omega (arith, sent, e), omega (arith, sent, moved, c))

  pub fused-Agrees :
      (now : ℕ) (redline : F) (device : ℕ) (e : PullEvent arithmetic) (pending : ℕ)
      (fuse : Option FuseDispatcher) (count hits outside : ℕ)
      → AllArmed fuse
      → Agrees fuse count (pending + 1) hits outside
      → (let (fuse', count') = fused arithmetic centi to_float32 now redline device e fuse count in
          Agrees fuse' count' pending hits outside × AllArmed fuse')
  fused-Agrees now redline device e pending none count hits outside armed h = (h, tt)
  fused-Agrees now redline device e pending (some fd) count hits outside armed h =
      let s = dispatch_event-Stopped now redline device e fd armed in
      (
        handed-Agrees fd (dispatch_event arithmetic centi to_float32 now redline device e fd) 1
            count (pending + 1) pending hits outside outside s.frames (omega arith) h,
        s.armed,
      )

  -- The dispatcher, if there is one, hands frames on, and the buffer of pull events has its length.
  pub record IsReady (gw : Gateway arithmetic) : Type 0 where
    pub armed : AllArmed gw.fuse
    pub room : length gw.pull_buf ≡ 128

  abbrev pub Counts : ℕ → Gateway arithmetic → Type 0
  Counts outside gw =
      Agrees gw.fuse gw.stats.can_fuse_frames (length gw.events) gw.stats.pull_redline_hits outside

  pub record Keeps (outside : ℕ) (gw : Gateway arithmetic) : Type 0 where
    pub ready : IsReady gw
    pub agrees : Counts outside gw

  -- The pull events that Process raises for the samples that are taken.
  abbrev pub raised : (ℕ → ℕ) → Gateway arithmetic → List (PullEvent arithmetic)
  raised clock gw = some_of (
      pulls_of arithmetic (
        outcomes arithmetic
          (timed arithmetic clock 0 (work_of arithmetic (take batch_max gw.samp_ring)))
          gw.pipeline))

  pub pulls_lem :
      (clock : ℕ → ℕ) (gw : Gateway arithmetic)
      → let out =
          (process_batch arithmetic
            (timed arithmetic clock 0 (work_of arithmetic (take batch_max gw.samp_ring)))
            gw.frame_buf
            gw.anom_buf
            gw.pull_buf
            gw.pipeline).1 in
        (out.pull_events.0 ≡ min (length (raised clock gw)) (length gw.pull_buf))
        × (length out.pull_events.1 ≡ length gw.pull_buf)
  pulls_lem clock gw =
      let work = timed arithmetic clock 0 (work_of arithmetic (take batch_max gw.samp_ring)) in
      let (frames, anomalies, pulls) =
        process_batch_lem arithmetic work gw.frame_buf gw.anom_buf gw.pull_buf gw.pipeline in
      (
        ap (λ (o : ℕ × List (PullEvent arithmetic)). o.0) pulls,
        ap (λ (o : ℕ × List (PullEvent arithmetic)). length o.1) pulls
            ∙ length-overwrite (raised clock gw) gw.pull_buf,
      )

  pub dsp_begin-Keeps :
      {outside : ℕ} (latency : ℕ) (clock : ℕ → ℕ) (gw : Gateway arithmetic)
      → gw.events ≡ []
      → Keeps outside gw
      → Keeps outside (dsp_begin arithmetic latency clock gw)
  unfolding dsp_begin
  dsp_begin-Keeps {outside} latency clock gw idle k =
      let work = work_of arithmetic (take batch_max gw.samp_ring) in
      let r =
        process_batch arithmetic (timed arithmetic clock 0 work) gw.frame_buf gw.anom_buf
          gw.pull_buf gw.pipeline in
      let (count, same) = pulls_lem clock gw in
      let nothing = ap (λ (es : List (PullEvent arithmetic)). length es) idle in
      let events : length (take r.1.pull_events.0 r.1.pull_events.1) ≡ r.1.pull_events.0 =
        length-take r.1.pull_events.0 r.1.pull_events.1 ∙ omega (arith, count, same) in
      elim (Bool-cases (length work == 0)) [
        | inl e ↦ rw e (record {
          ready = record { armed = k.ready.armed; room = k.ready.room };
          agrees =
              raise gw.fuse gw.stats.can_fuse_frames 0 gw.stats.pull_redline_hits
                gw.stats.pull_redline_hits (length gw.events) 0 nothing refl (omega arith) k.agrees;
        })
        | inr e ↦ rw e (record {
          ready = record { armed = k.ready.armed; room = same ∙ k.ready.room };
          agrees =
              raise gw.fuse gw.stats.can_fuse_frames r.1.pull_events.0 gw.stats.pull_redline_hits
                (add64 gw.stats.pull_redline_hits r.1.pull_events.0) (length gw.events) _ nothing
                events (omega arith) k.agrees;
        })
      ]
    where
      raise :
          (fuse : Option FuseDispatcher) (count n hits hits' pending pending' : ℕ)
          → pending ≡ 0
          → pending' ≡ n
          → hits' % 2 ^ 64 ≡ (hits + n) % 2 ^ 64
          → Agrees fuse count pending hits outside
          → Agrees fuse count pending' hits' outside
      raise none count n hits hits' pending pending' z p h a = a
      raise (some fd) count n hits hits' pending pending' z p h (e, c) =
          (e, omega (arith, z, p, h, c))

  -- A step that leaves the fuse, its counters, the events and the buffer alone.
  pub same_fuse :
      {outside : ℕ} (gw gw' : Gateway arithmetic)
      → gw'.fuse ≡ gw.fuse
      → gw'.stats.can_fuse_frames ≡ gw.stats.can_fuse_frames
      → gw'.stats.pull_redline_hits ≡ gw.stats.pull_redline_hits
      → gw'.pull_buf ≡ gw.pull_buf
      → gw'.events ≡ gw.events
      → Keeps outside gw
      → Keeps outside gw'
  same_fuse gw gw' f c h b e k = record {
    ready = record {
      armed = subst AllArmed (sym f) k.ready.armed;
      room = ap length b ∙ k.ready.room;
    };
    agrees = rw (f, c, h, e) k.agrees;
  }

  -- A call from outside.
  pub used_fuse-Keeps :
      {outside : ℕ} (fd fd' : FuseDispatcher) (n : ℕ) (gw : Gateway arithmetic)
      → gw.fuse ≡ some fd
      → (IsArmed fd → IsArmed fd')
      → (IsArmed fd → length fd'.sent ≡ length fd.sent + n)
      → Keeps outside gw
      → Keeps (outside + n) (used_fuse arithmetic fd fd' gw)
  unfolding used_fuse
  used_fuse-Keeps {outside} fd fd' n gw e still sent k =
      let armed = subst AllArmed e k.ready.armed in
      record {
        ready = record { armed = still armed; room = k.ready.room };
        agrees =
            handed-Agrees fd fd' n gw.stats.can_fuse_frames (length gw.events) (length gw.events)
              gw.stats.pull_redline_hits outside (outside + n) (sent armed) (omega arith)
              (subst
                (λ (f : Option FuseDispatcher).
                  Agrees f gw.stats.can_fuse_frames (length gw.events) gw.stats.pull_redline_hits
                    outside)
                e k.agrees);
      }
