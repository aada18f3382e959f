-- ===== src/Gateway/State.antt =====
-- internal/gateway/gateway.go: Config, Stats, and the gateway with what its loops hold. Callbacks other
-- than the fuse's, the log and the names of the interface and the channel are not kept.
use wire_bonding_ultra.Prelude.{ℕ, ◌*◌, List, [], Bool, true, false, Option, none, some, replicate}
use wire_bonding_ultra.Models.{WaveSample, RawFrame, PhasorFrame}
use wire_bonding_ultra.Models.Arithmetic.{Arithmetic, decoder_floats}
use wire_bonding_ultra.Ringbuf.Tagged.{ring_size}
use wire_bonding_ultra.Packetcap.{PacketCapture, new_packet_capture}
use wire_bonding_ultra.Iec61850.Frame.{Decoder}
use wire_bonding_ultra.Canbus.Fuse.{FuseDispatcher, new_fuse_dispatcher}
use wire_bonding_ultra.Impedance.Matrix.{AnomalyEvent}
use wire_bonding_ultra.Impedance.Pipeline.Config.{
  Pipeline, PullEvent, default_config, new_pipeline, or_float, or_size, zero_frame, zero_anomaly,
  zero_pull_event,
}

pub record Stats : Type 0 where
  pub frames_rx : ℕ
  pub frames_dropped : ℕ
  pub bytes_rx : ℕ
  pub samples_rx : ℕ
  pub frames_ready : ℕ
  pub anomalies : ℕ
  pub parse_errors : ℕ
  pub avg_latency_ns : ℕ
  pub max_latency_ns : ℕ
  pub uptime_ns : ℕ
  pub ring_enq_fails : ℕ
  pub ring_deq_fails : ℕ
  pub pull_predictions : ℕ
  pub pull_redline_hits : ℕ
  pub can_fuse_frames : ℕ

abbrev pub zero_stats : Stats
zero_stats = record {
  frames_rx = 0;
  frames_dropped = 0;
  bytes_rx = 0;
  samples_rx = 0;
  frames_ready = 0;
  anomalies = 0;
  parse_errors = 0;
  avg_latency_ns = 0;
  max_latency_ns = 0;
  uptime_ns = 0;
  ring_enq_fails = 0;
  ring_deq_fails = 0;
  pull_predictions = 0;
  pull_redline_hits = 0;
  can_fuse_frames = 0;
}

-- The frame is never nil where it is sent.
pub record FrameMsg : Type 0 where
  pub frame : RawFrame
  pub rx_ts : ℕ

pub record SampleMsg {ℓ} (F : Type ℓ) : Type ℓ where
  pub samples : List (WaveSample F)
  pub rx_ts : ℕ

module _ {ℓ} (arithmetic : Arithmetic {ℓ}) where
  open arithmetic use {F, literal, of_nat}

  pub record Config : Type ℓ where
    pub target_hz : F
    pub window_size : ℕ
    pub matrix_rows : ℕ
    pub simulate : Bool
    pub batch_size : ℕ
    pub ring_cap : ℕ
    pub worker_count : ℕ
    pub pull_redline_g : F
    pub enable_can_fuse : Bool
    pub can_device_id : ℕ

  unfoldable pub default_gateway_config : Config
  default_gateway_config = record {
    target_hz = literal 40000 0;
    window_size = 512;
    matrix_rows = 2048;
    simulate = true;
    batch_size = 256;
    ring_cap = 65536;
    worker_count = 64;
    pull_redline_g = literal 5 0;
    enable_can_fuse = true;
    can_device_id = 0x01;
  }

  -- The two rings are queues with their capacity, which the ring's theorems allow. `pending` is what is
  -- left of the capture loop's batch, `batch` of the decode loop's, and `batch_samples` its local count;
  -- `events` are the pull events of the DSP loop's batch that are still to be sent, and `measuring` the
  -- latency and the size of the batch until they are counted.
  pub record Gateway : Type ℓ where
    pub cfg : Config
    pub capture : PacketCapture
    pub decoder : Decoder (decoder_floats arithmetic)
    pub pipeline : Pipeline arithmetic
    pub fuse : Option FuseDispatcher
    pub ring_capacity : ℕ
    pub frame_ring : List FrameMsg
    pub samp_ring : List (SampleMsg F)
    pub frame_buf : List (PhasorFrame F)
    pub anom_buf : List (AnomalyEvent arithmetic)
    pub pull_buf : List (PullEvent arithmetic)
    pub stats : Stats
    pub running : Bool
    pub pending : List RawFrame
    pub batch : List FrameMsg
    pub batch_samples : ℕ
    pub events : List (PullEvent arithmetic)
    pub measuring : Option (ℕ × ℕ)

  abbrev pub with_defaults : Config → Config
  with_defaults cfg = record cfg {
    window_size = or_size 512 cfg.window_size;
    batch_size = or_size 256 cfg.batch_size;
    target_hz = or_float arithmetic (literal 40000 0) cfg.target_hz;
    ring_cap = or_size 65536 cfg.ring_cap;
    worker_count = or_size 64 cfg.worker_count;
    pull_redline_g = or_float arithmetic (literal 5 0) cfg.pull_redline_g;
  }

  abbrev pub fuse_for : Bool → Option FuseDispatcher
  fuse_for false = none
  fuse_for true = some (new_fuse_dispatcher true)

  -- Sizes that are not positive are 0 here; the capture's constructor gives no error in this build.
  unfoldable pub new_gateway : Decoder (decoder_floats arithmetic) → Config → Gateway
  unfolding default_config new_pipeline new_fuse_dispatcher new_packet_capture
  new_gateway decoder asked =
      let cfg = with_defaults asked in
      record {
        cfg = cfg;
        capture = new_packet_capture;
        decoder = decoder;
        pipeline = new_pipeline arithmetic (record (default_config arithmetic) {
          window_size = cfg.window_size;
          target_hz = cfg.target_hz;
          sample_hz = of_nat 100000;
          matrix_rows = cfg.matrix_rows;
          pull_redline_g = cfg.pull_redline_g;
          enable_pull_pred = true;
        });
        fuse = fuse_for cfg.enable_can_fuse;
        ring_capacity = ring_size cfg.ring_cap;
        frame_ring = [];
        samp_ring = [];
        frame_buf = replicate (cfg.batch_size * 128) (zero_frame arithmetic);
        anom_buf = replicate 128 (zero_anomaly arithmetic);
        pull_buf = replicate 128 (zero_pull_event arithmetic);
        stats = zero_stats;
        running = false;
        pending = [];
        batch = [];
        batch_samples = 0;
        events = [];
        measuring = none;
      }
