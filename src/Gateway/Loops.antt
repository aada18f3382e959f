-- ===== src/Gateway/Loops.antt =====
-- internal/gateway/gateway.go: the bodies of captureLoop, decodeLoop and dspLoop, cut where another loop
-- can come between, and the calls from outside. A clock's readings are arguments.
use wire_bonding_ultra.Prelude.{
  ℕ, ◌+◌, ◌-◌, ◌/◌, ◌%◌, ◌^◌, List, [], ◌∷◌, ◌++◌, true, false, Option, none, some, length, take,
  drop, ltb, ◌==◌, if◌then◌else◌, max,
}
use wire_bonding_ultra.Models.{WaveSample, RawFrame, ParsedAsdu}
use wire_bonding_ultra.Models.Arithmetic.{Arithmetic, decoder_floats}
use wire_bonding_ultra.Ringbuf.Fifo.{push}
use wire_bonding_ultra.Packetcap.{PacketCapture, Waveform, simulate_batch, read_batch}
use wire_bonding_ultra.Packetcap as Packetcap
use wire_bonding_ultra.Iec61850.Result.{Result, ok, err, panic, stuck}
use wire_bonding_ultra.Iec61850.Frame.{decode_full}
use wire_bonding_ultra.Canbus.Fuse.{Centi, FuseDispatcher, dispatch_emergency}
use wire_bonding_ultra.Impedance.Pipeline.{Outputs, process_batch, pull_total}
use wire_bonding_ultra.Impedance.Pipeline.Config.{Pipeline, PullEvent}
use wire_bonding_ultra.Gateway.State.{Gateway, Stats, FrameMsg, SampleMsg}

-- `atomic.AddUint64`
abbrev pub add64 : ℕ → ℕ → ℕ
add64 a n = (a + n) % 2 ^ 64

abbrev pub reason_pull_strength_below_redline : ℕ
reason_pull_strength_below_redline = 0x01

-- How many messages a loop takes from its ring at once.
abbrev pub batch_max : ℕ
batch_max = 64

-- The rings' zero values.
abbrev pub zero_frame_msg : FrameMsg
zero_frame_msg = record {
  frame = record {
    rx_time_ns = 0;
    payload = [];
    length = 0;
    ether_type = 0;
    src_mac = [];
    dst_mac = [];
  };
  rx_ts = 0;
}

abbrev pub zero_sample_msg {ℓ} : {F : Type ℓ} → SampleMsg F
zero_sample_msg = record { samples = []; rx_ts = 0 }

module _ {ℓ} (arithmetic : Arithmetic {ℓ}) where
  open arithmetic use {F, literal, sub, mul, div, less}

  -- captureLoop reads a batch, when it has handed on the one before.
  unfoldable pub capture_batch : Waveform → ℕ → Gateway arithmetic → Gateway arithmetic
  unfolding simulate_batch read_batch
  capture_batch wave now gw =
      let (frames, capture) =
        if gw.cfg.simulate
        then simulate_batch wave now gw.cfg.batch_size 80 (gw.stats.samples_rx % 2 ^ 32) gw.capture
        else read_batch wave now gw.cfg.batch_size gw.capture in
      record gw {
        capture = capture;
        pending = frames;
        stats = record gw.stats { frames_rx = add64 gw.stats.frames_rx (length frames) };
      }

  abbrev pub dropped : Stats → Stats
  dropped s = record s {
    ring_enq_fails = add64 s.ring_enq_fails 1;
    frames_dropped = add64 s.frames_dropped 1;
  }

  -- It hands on one frame, or drops it.
  unfoldable pub capture_frame :
      ℕ → RawFrame → List RawFrame → Gateway arithmetic → Gateway arithmetic
  unfolding push
  capture_frame now frame rest gw =
      let counted : Stats = record gw.stats { bytes_rx = add64 gw.stats.bytes_rx frame.length } in
      let (sent, ring) =
        push zero_frame_msg gw.ring_capacity gw.frame_ring
          (record { frame = frame; rx_ts = now }) in
      record gw {
        pending = rest;
        frame_ring = ring;
        stats = if sent then counted else dropped counted;
      }

  -- decodeLoop takes a batch of frames.
  unfoldable pub decode_batch : Gateway arithmetic → Gateway arithmetic
  decode_batch gw = record gw {
    batch = take batch_max gw.frame_ring;
    frame_ring = drop batch_max gw.frame_ring;
    batch_samples = 0;
  }

  -- Samples go to the other ring, or are lost; they are counted in either case.
  abbrev pub forward : ℕ → List (WaveSample F) → Gateway arithmetic → Gateway arithmetic
  forward rx_ts [] gw = gw
  forward rx_ts (s ∷ samples) gw =
      let (sent, ring) =
        push zero_sample_msg gw.ring_capacity gw.samp_ring
          (record { samples = s ∷ samples; rx_ts = rx_ts }) in
      record gw {
        samp_ring = ring;
        stats =
            if sent
            then gw.stats
            else record gw.stats { ring_enq_fails = add64 gw.stats.ring_enq_fails 1 };
        batch_samples = gw.batch_samples + length (s ∷ samples);
      }

  -- What the decoder returned; a panic ends the program.
  abbrev pub decoded :
      ℕ
      → Result (ParsedAsdu F × List (WaveSample F))
      → Gateway arithmetic
      → Option (Gateway arithmetic)
  decoded rx_ts (ok (asdu, samples)) gw = some (forward rx_ts samples gw)
  decoded rx_ts (err e) gw =
      some (record gw { stats = record gw.stats { parse_errors = add64 gw.stats.parse_errors 1 } })
  decoded rx_ts panic gw = none
  decoded rx_ts stuck gw = none

  -- It decodes one frame of the batch.
  unfoldable pub decode_frame :
      ℕ → FrameMsg → List FrameMsg → Gateway arithmetic → Option (Gateway arithmetic)
  unfolding decode_full push
  decode_frame now msg rest gw =
      decoded msg.rx_ts (decode_full (decoder_floats arithmetic) gw.decoder now msg.frame).1
        (record gw { batch = rest })

  -- It counts the samples of the batch.
  unfoldable pub decode_done : Gateway arithmetic → Gateway arithmetic
  decode_done gw = record gw {
    batch_samples = 0;
    stats = record gw.stats { samples_rx = add64 gw.stats.samples_rx gw.batch_samples };
  }

  abbrev pub work_of : List (SampleMsg F) → List (WaveSample F)
  work_of [] = []
  work_of (m ∷ msgs) = m.samples ++ work_of msgs

  -- Each sample with the clock's reading while it is processed, from number `i` on.
  abbrev pub timed : (ℕ → ℕ) → ℕ → List (WaveSample F) → List (ℕ × WaveSample F)
  timed clock i [] = []
  timed clock i (s ∷ samples) = (clock i, s) ∷ timed clock (i + 1) samples

  -- The count of the dispatcher's callback, which runs for each frame that the dispatcher hands on.
  abbrev pub handed : FuseDispatcher → FuseDispatcher → ℕ → ℕ
  handed fd fd' count = add64 count (length fd'.sent - length fd.sent)

  -- A call from outside has changed the dispatcher.
  unfoldable pub used_fuse :
      FuseDispatcher → FuseDispatcher → Gateway arithmetic → Gateway arithmetic
  used_fuse fd fd' gw = record gw {
    fuse = some fd';
    stats = record gw.stats { can_fuse_frames = handed fd fd' gw.stats.can_fuse_frames };
  }

  -- dspLoop: what is done with the three counts and slices, up to the first event.
  abbrev pub reported :
      ℕ → ℕ → Pipeline arithmetic → Outputs arithmetic → Gateway arithmetic → Gateway arithmetic
  reported latency work pipeline out gw =
      let (fc, frame_buf) = out.frames in
      let (ac, anom_buf) = out.anomalies in
      let (pc, pull_buf) = out.pull_events in
      record gw {
        pipeline = pipeline;
        frame_buf = frame_buf;
        anom_buf = anom_buf;
        pull_buf = pull_buf;
        events = take pc pull_buf;
        measuring = some (latency, work);
        stats = record gw.stats {
          frames_ready = add64 gw.stats.frames_ready fc;
          anomalies = add64 gw.stats.anomalies ac;
          pull_redline_hits = add64 gw.stats.pull_redline_hits pc;
        };
      }

  -- It takes a batch of messages and processes their samples; `latency` is the time that takes.
  unfoldable pub dsp_begin : ℕ → (ℕ → ℕ) → Gateway arithmetic → Gateway arithmetic
  unfolding process_batch
  dsp_begin latency clock gw =
      let work = work_of (take batch_max gw.samp_ring) in
      let taken : Gateway arithmetic = record gw {
        samp_ring = drop batch_max gw.samp_ring;
        events = [];
        measuring = none;
      } in
      let (pipeline, out) =
        process_batch arithmetic (timed clock 0 work) gw.frame_buf gw.anom_buf gw.pull_buf
          gw.pipeline in
      if length work == 0 then taken else reported latency (length work) pipeline out taken

  -- It counts the predictions and the latency.
  abbrev pub measured : Option (ℕ × ℕ) → Gateway arithmetic → Gateway arithmetic
  measured none gw = gw
  measured (some (latency, work)) gw = record gw {
    measuring = none;
    stats = record gw.stats {
      pull_predictions = pull_total arithmetic gw.pipeline;
      avg_latency_ns = add64 gw.stats.avg_latency_ns (latency / max work 1);
      max_latency_ns =
          if ltb gw.stats.max_latency_ns latency then latency else gw.stats.max_latency_ns;
    };
  }

  unfoldable pub dsp_end : Gateway arithmetic → Gateway arithmetic
  unfolding pull_total
  dsp_end gw = measured gw.measuring gw

  module _ (centi : Centi {ℓ}) (to_float32 : F → centi.F) where
    -- How far under the redline of the settings the pull strength is, in percent.
    abbrev pub deviation : F → F → centi.F
    deviation redline pull =
        if less (literal 1 9) pull
        then to_float32 (mul (div (sub pull redline) pull) (literal 100 0))
        else to_float32 (literal 0 0)

    -- The emergency stop for an event.
    unfoldable pub dispatch_event :
        ℕ → F → ℕ → PullEvent arithmetic → FuseDispatcher → FuseDispatcher
    unfolding dispatch_emergency
    dispatch_event now redline device e fd =
        (dispatch_emergency centi now (e.prediction.seq_no % 2 ^ 16)
          reason_pull_strength_below_redline (to_float32 e.prediction.pull_grams)
          (deviation redline e.prediction.pull_grams) e.prediction.seq_no e.prediction.timestamp_ns
          device fd).0

    -- The dispatcher after the event, and the count of its callback.
    abbrev pub fused :
        ℕ → F → ℕ → PullEvent arithmetic → Option FuseDispatcher → ℕ → Option FuseDispatcher × ℕ
    fused now redline device e none count = (none, count)
    fused now redline device e (some fd) count =
        let fd' = dispatch_event now redline device e fd in (some fd', handed fd fd' count)

    -- It sends the emergency stop for one event.
    unfoldable pub stop_event :
        ℕ
        → PullEvent arithmetic
        → List (PullEvent arithmetic)
        → Gateway arithmetic
        → Gateway arithmetic
    unfolding dispatch_event
    stop_event now e rest gw =
        let (fuse, count) =
          fused now gw.cfg.pull_redline_g gw.cfg.can_device_id e gw.fuse gw.stats.can_fuse_frames in
        record gw {
          fuse = fuse;
          events = rest;
          stats = record gw.stats { can_fuse_frames = count };
        }

    unfoldable pub stop_events :
        ℕ → List (PullEvent arithmetic) → Gateway arithmetic → Gateway arithmetic
    unfolding stop_event
    stop_events now [] gw = gw
    stop_events now (e ∷ events) gw = stop_events now events (stop_event now e events gw)

    -- A batch from one end to the other.
    unfoldable pub dsp_batch : ℕ → ℕ → (ℕ → ℕ) → Gateway arithmetic → Gateway arithmetic
    unfolding dsp_begin stop_events dsp_end
    dsp_batch now latency clock gw =
        let begun = dsp_begin latency clock gw in dsp_end (stop_events now begun.events begun)

  -- `uptime` is the time since the start.
  unfoldable pub get_stats : ℕ → Gateway arithmetic → Stats
  get_stats uptime gw =
      let s = gw.stats in
      record s {
        uptime_ns = uptime;
        avg_latency_ns = if ltb 0 s.frames_ready then s.avg_latency_ns / s.frames_ready else 0;
      }

  -- A gateway that runs is left as it is; the loops start with nothing in hand.
  unfoldable pub start : Gateway arithmetic → Gateway arithmetic
  start gw = record gw { running = true }

  unfoldable pub stop : Gateway arithmetic → Gateway arithmetic
  unfolding Packetcap.close
  stop gw =
      if gw.running then record gw { running = false; capture = Packetcap.close gw.capture } else gw
