-- ===== src/Pullstrength/Bounds.antt =====
-- The bounds of a prediction.
use wire_bonding_ultra.Prelude.{
  ℕ, ◌+◌, ◌%◌, ◌^◌, ◌≡◌, ◌⊎◌, refl, ap, Bool, true, false, Option, none, some, if◌then◌else◌,
  Bool-cases, inl, inr,
}
use wire_bonding_ultra.Models.{Phasor, ImpedancePoint}
use wire_bonding_ultra.Models.Arithmetic.{Arithmetic}
use wire_bonding_ultra.Pullstrength.Config.{MaxwellMeyerConfig}
use wire_bonding_ultra.Pullstrength.Solve.{
  BondingFeatureVector, floor_at, ceiling_at, solve_maxwell_meyer,
}
use wire_bonding_ultra.Pullstrength.{
  MeyerPredictor, PullStrengthPrediction, softening_stats, predict, concluded, timed, energised,
  softened, push_phasor,
}

-- What the bounds rely on: nothing is less than itself, a literal is a number, of two numbers of which
-- the first is not less the second is at most the first, and 0.99 is not less than 0.2. What is not a
-- number is not at most itself.
pub record Ordered {ℓ} (arithmetic : Arithmetic {ℓ}) : Type ℓ where
  pub irreflexive : (x : arithmetic.F) → arithmetic.less x x ≡ false
  pub literals :
      (m k : ℕ) → arithmetic.at_most (arithmetic.literal m k) (arithmetic.literal m k) ≡ true
  pub compares :
      (x y : arithmetic.F)
      → arithmetic.less x y ≡ false
      → (arithmetic.at_most x x ≡ false)
        ⊎ ((arithmetic.at_most y y ≡ false) ⊎ (arithmetic.at_most y x ≡ true))
  pub apart : arithmetic.less (arithmetic.literal 99 2) (arithmetic.literal 2 1) ≡ false

module _ {ℓ} (arithmetic : Arithmetic {ℓ}) where
  open arithmetic use {F, at_most}

  -- Not a number, or within the bound.
  abbrev pub AtLeast : F → F → Type 0
  AtLeast least x = (at_most x x ≡ false) ⊎ (at_most least x ≡ true)

  abbrev pub AtMost : F → F → Type 0
  AtMost most x = (at_most x x ≡ false) ⊎ (at_most x most ≡ true)

module _ {ℓ} (arithmetic : Arithmetic {ℓ}) (ordered : Ordered arithmetic) where
  open arithmetic use {F, literal, add, mul, less, at_most}

  AtLeast-literal :
      (m k : ℕ) (x : F) → less x (literal m k) ≡ false → AtLeast arithmetic (literal m k) x
  AtLeast-literal m k x h = elim (ordered.compares x (literal m k) h) [
    | inl nan ↦ inl nan
    | inr (inl nan) ↦ absurd (cc (ordered.literals m k))
    | inr (inr most) ↦ inr most
  ]

  AtMost-literal :
      (m k : ℕ) (x : F) → less (literal m k) x ≡ false → AtMost arithmetic (literal m k) x
  AtMost-literal m k x h = elim (ordered.compares (literal m k) x h) [
    | inl nan ↦ absurd (cc (ordered.literals m k))
    | inr (inl nan) ↦ inl nan
    | inr (inr most) ↦ inr most
  ]

  floor_at_lem : (least x : F) → less (floor_at arithmetic least x) least ≡ false
  floor_at_lem least x = elim (Bool-cases (less x least)) [
    | inl e ↦ rw e (ordered.irreflexive least)
    | inr e ↦ rw (e, e) refl
  ]

  ceiling_at_lem :
      (most least x : F)
      → less most least ≡ false
      → less x least ≡ false
      → (less (ceiling_at arithmetic most x) least ≡ false)
        × (less most (ceiling_at arithmetic most x) ≡ false)
  ceiling_at_lem most least x apart h = elim (Bool-cases (less most x)) [
    | inl e ↦ rw e (apart, ordered.irreflexive most)
    | inr e ↦ rw (e, e) (h, refl)
  ]

  -- The pull and the shear strength are 0.5 g at least and the confidence is from 0.2 to 0.99, or they
  -- are not numbers, and the flag says whether the pull strength is under the redline.
  pub record Bounded (redline : F) (p : PullStrengthPrediction arithmetic) : Type ℓ where
    pub pull : AtLeast arithmetic (literal 5 1) p.pull_grams
    pub shear : AtLeast arithmetic (literal 5 1) p.shear_grams
    pub confident : AtLeast arithmetic (literal 2 1) p.confidence
    pub not_certain : AtMost arithmetic (literal 99 2) p.confidence
    pub flag : p.below_redline ≡ less p.pull_grams redline

  -- What PushPhasor comes to: no prediction, and the counters and the latest prediction stay; or a
  -- prediction for this phasor, which is the latest one and is counted, as a hit too where it is flagged.
  unfoldable pub Predicts :
      ℕ
      → ℕ
      → MeyerPredictor arithmetic
      → MeyerPredictor arithmetic × Option (PullStrengthPrediction arithmetic)
      → Type ℓ
  Predicts seq_no ts_ns mp (mp', none) =
      (mp'.latest ≡ mp.latest)
      × (mp'.total_predictions ≡ mp.total_predictions)
      × (mp'.redline_hits ≡ mp.redline_hits)
  Predicts seq_no ts_ns mp (mp', some p) =
      Bounded mp.cfg.redline_grams p
      × (p.seq_no ≡ seq_no)
      × (p.timestamp_ns ≡ ts_ns)
      × (p.features.timestamp_ns ≡ ts_ns)
      × (mp'.latest ≡ p)
      × (mp'.total_predictions ≡ (mp.total_predictions + 1) % 2 ^ 64)
      × (mp'.redline_hits
          ≡ (if p.below_redline then (mp.redline_hits + 1) % 2 ^ 64 else mp.redline_hits))

  if-Predicts :
      (seq_no ts_ns : ℕ) (mp : MeyerPredictor arithmetic) (b : Bool)
      (x y : MeyerPredictor arithmetic × Option (PullStrengthPrediction arithmetic))
      → Predicts seq_no ts_ns mp x
      → Predicts seq_no ts_ns mp y
      → Predicts seq_no ts_ns mp (if b then x else y)
  if-Predicts seq_no ts_ns mp true x y hx hy = hx
  if-Predicts seq_no ts_ns mp false x y hx hy = hy

  -- The three results of the solver.
  solve_bounds :
      (cfg : MaxwellMeyerConfig arithmetic) (f : BondingFeatureVector arithmetic)
      → (let (pull, shear, confidence) = solve_maxwell_meyer arithmetic cfg f in
          AtLeast arithmetic (literal 5 1) pull
          × AtLeast arithmetic (literal 5 1) shear
          × AtLeast arithmetic (literal 2 1) confidence
          × AtMost arithmetic (literal 99 2) confidence)
  unfolding solve_maxwell_meyer
  solve_bounds cfg f =
      let clamped = λ (x : F).
        ceiling_at_lem (literal 99 2) (literal 2 1) (floor_at arithmetic (literal 2 1) x)
          ordered.apart (floor_at_lem (literal 2 1) x) in
      (
        AtLeast-literal 5 1 _ (floor_at_lem (literal 5 1) _),
        AtLeast-literal 5 1 _ (floor_at_lem (literal 5 1) _),
        AtLeast-literal 2 1 _ (clamped _).0,
        AtMost-literal 99 2 _ (clamped _).1,
      )

  concluded-Predicts :
      (seq_no ts_ns : ℕ) (stats : Option (F × F × F)) (mp mp' : MeyerPredictor arithmetic)
      → mp'.cfg ≡ mp.cfg
      → (mp'.latest ≡ mp.latest)
        × (mp'.total_predictions ≡ mp.total_predictions)
        × (mp'.redline_hits ≡ mp.redline_hits)
      → Predicts seq_no ts_ns mp (concluded arithmetic seq_no ts_ns stats mp')
  unfolding Predicts
  concluded-Predicts seq_no ts_ns none mp mp' c same = same
  concluded-Predicts seq_no ts_ns (some stats) mp mp' c (l, total, hits) =
      let p = predict arithmetic seq_no ts_ns stats mp' in
      let (pull, shear, low, high) = solve_bounds mp'.cfg p.features in
      (
        record {
          pull = pull;
          shear = shear;
          confident = low;
          not_certain = high;
          flag =
              ap (λ (cfg : MaxwellMeyerConfig arithmetic). less p.pull_grams cfg.redline_grams) c;
        },
        refl,
        refl,
        refl,
        refl,
        ap (λ (n : ℕ). (n + 1) % 2 ^ 64) total,
        ap (λ (n : ℕ). if p.below_redline then (n + 1) % 2 ^ 64 else n) hits,
      )

  -- PushPhasor either makes no prediction, and then the counters and the latest prediction stay, or its
  -- prediction carries the phasor's sequence number and time, is the latest one and is counted once, and
  -- once as a hit where it is flagged, which it is exactly where its pull strength is less than the
  -- redline. Its pull and shear strength are each 0.5 g at least or not a number, its confidence is from
  -- 0.2 to 0.99 or not a number.
  pub push_phasor-Predicts :
      (seq_no ts_ns : ℕ) (v i : Phasor F) (z : ImpedancePoint F) (mp : MeyerPredictor arithmetic)
      → Predicts seq_no ts_ns mp (push_phasor arithmetic seq_no ts_ns v i z mp)
  unfolding push_phasor Predicts
  push_phasor-Predicts seq_no ts_ns v i z mp =
      let timed_mp = timed arithmetic ts_ns mp in
      let energised_mp = energised arithmetic ts_ns v i mp in
      let softened_mp = softened arithmetic ts_ns z energised_mp in
      if-Predicts seq_no ts_ns mp
        (less (add (mul i.real i.real) (mul i.imag i.imag)) (literal 1 12)) (timed_mp, none) _
        (refl, refl, refl)
        (if-Predicts seq_no ts_ns mp (less z.magnitude (literal 1 9)) (energised_mp, none) _
          (refl, refl, refl)
          (concluded-Predicts seq_no ts_ns
            (softening_stats arithmetic softened_mp.cfg.softening_window_ns ts_ns
              softened_mp.soft_buf)
            mp softened_mp refl (refl, refl, refl)))
