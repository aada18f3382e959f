-- ===== src/Models.antt =====
-- pkg/models/sample.go: the values that the components hand to one another. A float64 is a value of
-- a type `F`; times and counters are numbers, with the wrap-around written where they are computed.
pub mod Float64
pub mod Arithmetic
pub mod Whole
use wire_bonding_ultra.Prelude.{ℕ, List, Bool}

abbrev pub sample_interval_ns : ℕ
sample_interval_ns = 10_000

pub record WaveSample {ℓ} (F : Type ℓ) : Type ℓ where
  pub timestamp_ns : ℕ
  pub voltage : F
  pub current : F
  pub seq_no : ℕ

-- `Interface` is not kept: nothing reads it.
pub record RawFrame : Type 0 where
  pub rx_time_ns : ℕ
  pub payload : List ℕ
  pub length : ℕ
  pub ether_type : ℕ
  pub src_mac : List ℕ
  pub dst_mac : List ℕ

-- `time.Time` values are nanoseconds since 1970.
pub record DataElement {ℓ} (F : Type ℓ) : Type ℓ where
  pub timestamp : ℕ
  pub quality : ℕ
  pub voltage : F
  pub current : F
  pub status_bits : ℕ

pub record ParsedAsdu {ℓ} (F : Type ℓ) : Type ℓ where
  pub type_id : ℕ
  pub sqc : ℕ
  pub cot : ℕ
  pub test : Bool
  pub negative : Bool
  pub addr : ℕ
  pub data_elements : List (DataElement F)
  pub seq_no : ℕ

pub record Phasor {ℓ} (F : Type ℓ) : Type ℓ where
  pub real : F
  pub imag : F
  pub magnitude : F
  pub angle : F
  pub freq_hz : F

pub record ImpedancePoint {ℓ} (F : Type ℓ) : Type ℓ where
  pub timestamp_ns : ℕ
  pub resistance : F
  pub reactance : F
  pub magnitude : F
  pub phase : F
  pub seq_no : ℕ

-- `Samples` is not kept: nothing writes or reads it.
pub record PhasorFrame {ℓ} (F : Type ℓ) : Type ℓ where
  pub seq_no : ℕ
  pub timestamp_ns : ℕ
  pub voltage_phasor : Phasor F
  pub current_phasor : Phasor F
  pub impedance : ImpedancePoint F
