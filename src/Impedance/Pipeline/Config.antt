-- ===== src/Impedance/Pipeline/Config.antt =====
-- internal/impedance/pipeline.go: Pipeline, PipelineConfig, NewPipeline and Reset.
use wire_bonding_ultra.Prelude.{ℕ, Bool, true, false, Option, none, some, ◌==◌, if◌then◌else◌}
use wire_bonding_ultra.Models.{Phasor, PhasorFrame}
use wire_bonding_ultra.Models.Arithmetic.{Arithmetic}
use wire_bonding_ultra.Circle.{Circle, empty_circle}
use wire_bonding_ultra.Dsp.DualPhasor.{DualPhasorPipeline, new_dual_phasor_pipeline, reset_pipeline}
use wire_bonding_ultra.Impedance.Matrix.{
  SpatiotemporalMatrix, AnomalyEvent, MatrixSnapshot, new_matrix, append_row, snapshot_recent,
  zero_point, set_jump_threshold, set_phase_threshold,
}
use wire_bonding_ultra.Impedance.Matrix as Matrix
use wire_bonding_ultra.Pullstrength.Config.{default_meyer_config}
use wire_bonding_ultra.Pullstrength.{
  MeyerPredictor, PullStrengthPrediction, zero_prediction, new_meyer_predictor, reset_predictor,
}

abbrev pub or_size : ℕ → ℕ → ℕ
or_size default n = if n == 0 then default else n

module _ {ℓ} (arithmetic : Arithmetic {ℓ}) where
  open arithmetic use {F, literal, at_most}

  -- pullstrength/meyer.go: PullEvent; `time.Now()` is nanoseconds.
  pub record PullEvent : Type ℓ where
    pub prediction : PullStrengthPrediction arithmetic
    pub event_id : ℕ
    pub triggered_at : ℕ

  pub record Pipeline : Type ℓ where
    pub phasor : DualPhasorPipeline arithmetic
    pub matrix : SpatiotemporalMatrix arithmetic
    pub meyer : Option (MeyerPredictor arithmetic)
    pub window_size : ℕ
    pub target_hz : F
    pub sample_hz : F
    pub started : Bool
    pub init_samples : ℕ
    pub total_in : ℕ
    pub total_ready : ℕ
    pub latest_frame : PhasorFrame F
    pub anomalies : Circle (AnomalyEvent arithmetic)
    pub pull_events : Circle PullEvent
    pub pull_event_seq : ℕ
    pub pull_ready : Bool

  pub record PipelineConfig : Type ℓ where
    pub window_size : ℕ
    pub target_hz : F
    pub sample_hz : F
    pub matrix_rows : ℕ
    pub max_anomalies : ℕ
    pub enable_pull_pred : Bool
    pub max_pull_events : ℕ
    pub pull_redline_g : F

  unfoldable pub default_config : PipelineConfig
  default_config = record {
    window_size = 512;
    target_hz = literal 40000 0;
    sample_hz = literal 100000 0;
    matrix_rows = 2048;
    max_anomalies = 1024;
    enable_pull_pred = true;
    max_pull_events = 1024;
    pull_redline_g = literal 5 0;
  }

  abbrev pub zero_anomaly : AnomalyEvent arithmetic
  zero_anomaly = record {
    timestamp_ns = 0;
    seq_no = 0;
    deviation_pct = literal 0 0;
    phase_shift_deg = literal 0 0;
    z_baseline = (literal 0 0, literal 0 0);
    z_measured = (literal 0 0, literal 0 0);
    alarm_id = 0;
  }

  abbrev pub zero_pull_event : PullEvent
  zero_pull_event = record {
    prediction = zero_prediction arithmetic;
    event_id = 0;
    triggered_at = 0;
  }

  abbrev pub zero_phasor : Phasor F
  zero_phasor = record {
    real = literal 0 0;
    imag = literal 0 0;
    magnitude = literal 0 0;
    angle = literal 0 0;
    freq_hz = literal 0 0;
  }

  abbrev pub zero_frame : PhasorFrame F
  zero_frame = record {
    seq_no = 0;
    timestamp_ns = 0;
    voltage_phasor = zero_phasor;
    current_phasor = zero_phasor;
    impedance = zero_point arithmetic;
  }

  abbrev pub or_float : F → F → F
  or_float default x = if at_most x (literal 0 0) then default else x

  -- The predictor, where it is enabled.
  abbrev pub predictor_for : Bool → F → F → Option (MeyerPredictor arithmetic)
  predictor_for false redline freq = none
  predictor_for true redline freq = some (
      new_meyer_predictor arithmetic (record (default_meyer_config arithmetic) {
        redline_grams = redline;
        bonding_freq_hz = freq;
      }))

  -- Sizes that are not positive are 0 here.
  unfoldable pub new_pipeline : PipelineConfig → Pipeline
  unfolding new_dual_phasor_pipeline new_matrix new_meyer_predictor default_meyer_config
      empty_circle
  new_pipeline cfg =
      let window = or_size 512 cfg.window_size in
      let target = or_float (literal 40000 0) cfg.target_hz in
      let rate = or_float (literal 100000 0) cfg.sample_hz in
      record {
        phasor = new_dual_phasor_pipeline arithmetic window target rate;
        matrix = new_matrix arithmetic cfg.matrix_rows;
        meyer =
            predictor_for cfg.enable_pull_pred (or_float (literal 5 0) cfg.pull_redline_g) target;
        window_size = window;
        target_hz = target;
        sample_hz = rate;
        started = false;
        init_samples = 0;
        total_in = 0;
        total_ready = 0;
        latest_frame = zero_frame;
        anomalies = empty_circle zero_anomaly (or_size 1024 cfg.max_anomalies);
        pull_events = empty_circle zero_pull_event (or_size 1024 cfg.max_pull_events);
        pull_event_seq = 0;
        pull_ready = false;
      }

  abbrev pub reset_meyer : Option (MeyerPredictor arithmetic) → Option (MeyerPredictor arithmetic)
  reset_meyer none = none
  reset_meyer (some mp) = some (reset_predictor arithmetic mp)

  -- The latest frame and the number of the last event stay.
  unfoldable pub reset : Pipeline → Pipeline
  unfolding reset_pipeline Matrix.reset reset_predictor empty_circle
  reset p = record p {
    phasor = reset_pipeline arithmetic p.phasor;
    matrix = Matrix.reset arithmetic p.matrix;
    meyer = reset_meyer p.meyer;
    init_samples = 0;
    started = false;
    total_in = 0;
    total_ready = 0;
    anomalies = empty_circle zero_anomaly p.anomalies.capacity;
    pull_events = empty_circle zero_pull_event p.pull_events.capacity;
    pull_ready = false;
  }
