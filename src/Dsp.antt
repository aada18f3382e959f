-- ===== src/Dsp.antt =====
-- internal/dsp/slidingdft.go: SlidingDFT. Its sample buffer, head and flag are a circular buffer.
pub mod Spectrum
pub mod DualPhasor
pub mod Goertzel
mod Tests
use wire_bonding_ultra.Prelude.{
  ℕ, zero, suc, ◌+◌, ◌-◌, ◌*◌, ◌/◌, ◌%◌, ◌^◌, ◌≤◌, ◌<◌, List, [], ◌∷◌, Bool, true, false, length,
  get_or, set, replicate, ltb, leb, ◌==◌, if◌then◌else◌, ◌≡◌, refl,
}
use wire_bonding_ultra.Models.{sample_interval_ns}
use wire_bonding_ultra.Models.Arithmetic.{Arithmetic, ℤ, of_int, times}
use wire_bonding_ultra.Circle.{Circle, empty_circle, put}

abbrev pub default_window_size : ℕ
default_window_size = 512

pub data WindowType : Type 0 where
  rectangular hann hamming blackman : WindowType

-- `if k < 1 { k = 1 }`, then `if k >= half { k = half - 1 }`.
abbrev pub at_least_one : ℤ → ℕ
at_least_one (ℤ.pos zero) = 1
at_least_one (ℤ.pos (suc k)) = suc k
at_least_one (ℤ.negsuc k) = 1

abbrev pub below_half : ℕ → ℕ → ℤ
below_half half k =
    if leb half k then (if half == 0 then ℤ.negsuc 0 else ℤ.pos (half - 1)) else ℤ.pos k

module _ {ℓ} (arithmetic : Arithmetic {ℓ}) where
  open arithmetic use {
    F, of_nat, literal, pi, add, sub, mul, div, at_most, sqrt, atan2, cos, sin, round, to_int,
  }

  pub record PhasorResult : Type ℓ where
    pub real : F
    pub imag : F
    pub magnitude : F
    pub angle : F
    pub freq_hz : F
    pub time_ns : ℕ
    pub ready : Bool
    pub window_sample : ℕ

  pub record SlidingDft : Type ℓ where
    pub window_size : ℕ
    pub target_freq_hz : F
    pub sample_rate_hz : F
    pub k : ℤ
    pub cos_table : List F
    pub sin_table : List F
    pub window_coeff : List F
    pub weighted_cos : List F
    pub weighted_sin : List F
    pub samples : Circle F
    pub sample_count : ℕ
    pub coherent_gain : F

  abbrev pub two_pi : F
  two_pi = mul (literal 2 0) pi

  -- The coefficient `i` of a window of `n`.
  unfoldable pub window_value : WindowType → ℕ → ℕ → F
  window_value WindowType.rectangular n i = literal 1 0
  window_value WindowType.hann n i =
      mul (literal 5 1) (sub (literal 1 0) (cos (div (mul two_pi (of_nat i)) (of_nat (n - 1)))))
  window_value WindowType.hamming n i =
      sub (literal 54 2) (mul (literal 46 2) (cos (div (mul two_pi (of_nat i)) (of_nat (n - 1)))))
  window_value WindowType.blackman n i =
      let x = div (mul two_pi (of_nat i)) (of_nat (n - 1)) in
      add (sub (literal 42 2) (mul (literal 5 1) (cos x)))
        (mul (literal 8 2) (cos (mul (literal 2 0) x)))

  -- `out[i] = f(i)` for the `n` indices from `i` on.
  unfoldable pub fill_from : (ℕ → F) → ℕ → ℕ → List F
  fill_from f zero i = []
  fill_from f (suc n) i = f i ∷ fill_from f n (i + 1)

  unfoldable pub build_window : WindowType → ℕ → List F
  unfolding window_value fill_from
  build_window wt n = fill_from (window_value wt n) n 0

  abbrev pub phase_of : ℤ → ℕ → ℕ → F
  phase_of k window_size n = div (mul two_pi (of_int arithmetic (times k n))) (of_nat window_size)

  unfoldable pub sum_from : F → List F → F
  sum_from acc [] = acc
  sum_from acc (w ∷ ws) = sum_from (add acc w) ws

  abbrev pub bin_of : ℕ → F → F → ℤ
  bin_of window_size target rate =
      below_half (window_size / 2)
        (at_least_one (to_int (round (div (mul target (of_nat window_size)) rate))))

  -- A window size that is not positive is 0 here.
  unfoldable pub new_sliding_dft : ℕ → F → F → WindowType → SlidingDft
  unfolding build_window fill_from sum_from empty_circle
  new_sliding_dft asked asked_freq asked_rate wt =
      let n = if asked == 0 then default_window_size else asked in
      let rate = if at_most asked_rate (literal 0 0) then of_nat 100000 else asked_rate in
      let target = if at_most asked_freq (literal 0 0) then literal 40000 0 else asked_freq in
      let k = bin_of n target rate in
      let coeff = build_window wt n in
      let weight = λ (i : ℕ). get_or coeff i (literal 0 0) in
      record {
        window_size = n;
        target_freq_hz = target;
        sample_rate_hz = rate;
        k = k;
        cos_table = fill_from (λ i. cos (phase_of k n i)) n 0;
        sin_table = fill_from (λ i. sin (phase_of k n i)) n 0;
        window_coeff = coeff;
        weighted_cos = fill_from (λ i. mul (weight i) (cos (phase_of k n i))) n 0;
        weighted_sin = fill_from (λ i. mul (weight i) (sin (phase_of k n i))) n 0;
        samples = empty_circle (literal 0 0) n;
        sample_count = 0;
        coherent_gain = div (literal 2 0) (sum_from (literal 0 0) coeff);
      }

  unfoldable pub reset : SlidingDft → SlidingDft
  unfolding empty_circle
  reset sd = record sd { samples = empty_circle (literal 0 0) sd.window_size; sample_count = 0 }

  -- The loop of Update: `n` samples are left, from `i` on.
  unfoldable pub accumulate : SlidingDft → ℕ → ℕ → F × F → F × F
  accumulate sd zero i (re, im) = (re, im)
  accumulate sd (suc n) i (re, im) =
      let x = get_or sd.samples.slots ((sd.samples.idx + i) % sd.window_size) (literal 0 0) in
      accumulate sd n (i + 1) (
        add re (mul x (get_or sd.weighted_cos i (literal 0 0))),
        sub im (mul x (get_or sd.weighted_sin i (literal 0 0))),
      )

  unfoldable pub effective_frequency : SlidingDft → F
  effective_frequency sd =
      div (mul (of_int arithmetic sd.k) sd.sample_rate_hz) (of_nat sd.window_size)

  -- The result before the window is full.
  abbrev pub waiting : ℕ → ℕ → PhasorResult
  waiting time_ns window_sample = record {
    real = literal 0 0;
    imag = literal 0 0;
    magnitude = literal 0 0;
    angle = literal 0 0;
    freq_hz = literal 0 0;
    time_ns = time_ns;
    ready = false;
    window_sample = window_sample;
  }

  -- The result of the two sums.
  abbrev pub scaled : SlidingDft → ℕ → ℕ → F × F → PhasorResult
  scaled sd time_ns window_sample (re, im) =
      let real = mul re sd.coherent_gain in
      let imag = mul im sd.coherent_gain in
      record {
        real = real;
        imag = imag;
        magnitude = sqrt (add (mul real real) (mul imag imag));
        angle = atan2 imag real;
        freq_hz = effective_frequency sd;
        time_ns = time_ns;
        ready = true;
        window_sample = window_sample;
      }

  -- The state after a sample.
  abbrev pub stored : F → SlidingDft → SlidingDft
  stored sample sd = record sd {
    samples = put sample sd.samples;
    sample_count = (sd.sample_count + 1) % 2 ^ 64;
  }

  unfoldable pub update : F → ℕ → SlidingDft → SlidingDft × PhasorResult
  unfolding put accumulate effective_frequency
  update sample time_ns sd =
      let sd' = stored sample sd in
      let at = sd'.sample_count % sd.window_size in
      (
        sd',
        if sd'.samples.full
            then scaled sd' time_ns at (accumulate sd' sd.window_size 0 (literal 0 0, literal 0 0))
            else waiting time_ns at,
      )

  -- The loop of UpdateBatch, from index `i` on: the count, the results and the state.
  abbrev pub store_result : ℕ → PhasorResult → ℕ × List PhasorResult → ℕ × List PhasorResult
  store_result i res (count, results) =
      if ltb i (length results)
      then (if res.ready then count + 1 else count, set results i res)
      else (count, results)

  unfoldable pub update_from :
      ℕ → List F → ℕ → ℕ × List PhasorResult → SlidingDft → SlidingDft × (ℕ × List PhasorResult)
  unfolding update
  update_from start [] i out sd = (sd, out)
  update_from start (s ∷ samples) i out sd =
      let (sd', res) = update s ((start + i * sample_interval_ns) % 2 ^ 64) sd in
      update_from start samples (i + 1) (store_result i res out) sd'

  unfoldable pub update_batch :
      List F → ℕ → List PhasorResult → SlidingDft → SlidingDft × (ℕ × List PhasorResult)
  unfolding update_from
  update_batch samples start results sd = update_from start samples 0 (0, results) sd
