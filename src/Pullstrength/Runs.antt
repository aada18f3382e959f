-- ===== src/Pullstrength/Runs.antt =====
-- A predictor over any sequence of phasors, changes of the redline, and resets.
use wire_bonding_ultra.Prelude.{
  ℕ, ◌+◌, ◌%◌, ◌^◌, ◌≡◌, refl, arith, List, [], ◌∷◌, Bool, true, false, Option, none, some, length,
  if◌then◌else◌, Bool-cases, inl, inr,
}
use wire_bonding_ultra.Models.{Phasor, ImpedancePoint}
use wire_bonding_ultra.Models.Arithmetic.{Arithmetic}
use wire_bonding_ultra.Circle.{put, empty_circle}
use wire_bonding_ultra.Pullstrength.Config.{MaxwellMeyerConfig}
use wire_bonding_ultra.Pullstrength.{
  MeyerPredictor, PullStrengthPrediction, zero_prediction, new_meyer_predictor,
  new_softening_tracker, new_energy_tracker, push_energy, softening_stats, predict, concluded,
  timed, energised, softened, push_phasor, set_redline, reset_predictor,
}

hits_lem :
    (b : Bool) (hits count : ℕ)
    → hits ≡ count % 2 ^ 64
    → (if b then (hits + 1) % 2 ^ 64 else hits) ≡ (if b then count + 1 else count) % 2 ^ 64
hits_lem true hits count e = omega (arith, e)
hits_lem false hits count e = e

module _ {ℓ} (arithmetic : Arithmetic {ℓ}) where
  open arithmetic use {F, literal, less, mul, add}

  pub record Reading : Type ℓ where
    pub seq_no : ℕ
    pub ts_ns : ℕ
    pub voltage : Phasor F
    pub current : Phasor F
    pub impedance : ImpedancePoint F

  pub data Op : Type ℓ where
    push : Reading → Op
    redline : F → Op
    reset : Op

  abbrev Predictions : Type ℓ
  Predictions = List (PullStrengthPrediction arithmetic)

  -- A predictor with the predictions since the last Reset, the newest first.
  abbrev pub Run : Type ℓ
  Run = MeyerPredictor arithmetic × Predictions

  abbrev pub recorded :
      MeyerPredictor arithmetic × Option (PullStrengthPrediction arithmetic) → Predictions → Run
  recorded (mp, none) preds = (mp, preds)
  recorded (mp, some pred) preds = (mp, pred ∷ preds)

  unfoldable pub apply : Op → Run → Run
  unfolding push_phasor set_redline reset_predictor
  apply (Op.push r) (mp, preds) =
      recorded (push_phasor arithmetic r.seq_no r.ts_ns r.voltage r.current r.impedance mp) preds
  apply (Op.redline grams) (mp, preds) = (set_redline arithmetic grams mp, preds)
  apply Op.reset (mp, preds) = (reset_predictor arithmetic mp, [])

  unfoldable pub run : List Op → Run → Run
  unfolding apply
  run [] s = s
  run (op ∷ ops) s = run ops (apply op s)

  -- How many predictions are below the redline.
  abbrev pub below : Predictions → ℕ
  below [] = 0
  below (p ∷ preds) = if p.below_redline then below preds + 1 else below preds

  abbrev pub newest : Predictions → PullStrengthPrediction arithmetic
  newest [] = zero_prediction arithmetic
  newest (p ∷ preds) = p

  -- The counters are those of the predictions, and the latest one is kept.
  pub record Tallies (preds : Predictions) (mp : MeyerPredictor arithmetic) : Type ℓ where
    pub total : mp.total_predictions ≡ length preds % 2 ^ 64
    pub hits : mp.redline_hits ≡ below preds % 2 ^ 64
    pub latest : mp.latest ≡ newest preds

  -- What a predictor keeps of the one that was made.
  pub record MadeBy (new mp : MeyerPredictor arithmetic) : Type ℓ where
    pub soft : mp.soft_buf.capacity ≡ new.soft_buf.capacity
    pub energy : mp.energy_buf.rows.capacity ≡ new.energy_buf.rows.capacity
    pub started : mp.started ≡ false

  -- Both, for the predictor of a step's result.
  abbrev Good : MeyerPredictor arithmetic → Run → Type ℓ
  Good new (mp, preds) = Tallies preds mp × MadeBy new mp

  unfoldable Steps :
      MeyerPredictor arithmetic
      → Predictions
      → MeyerPredictor arithmetic × Option (PullStrengthPrediction arithmetic)
      → Type ℓ
  Steps new preds r = Good new (recorded r preds)

  if-Steps :
      (new : MeyerPredictor arithmetic) (preds : Predictions) (b : Bool)
      (x y : MeyerPredictor arithmetic × Option (PullStrengthPrediction arithmetic))
      → Steps new preds x
      → Steps new preds y
      → Steps new preds (if b then x else y)
  if-Steps new preds true x y hx hy = hx
  if-Steps new preds false x y hx hy = hy

  concluded-Steps :
      (new : MeyerPredictor arithmetic) (preds : Predictions) (seq_no ts_ns : ℕ)
      (stats : Option (F × F × F)) (mp : MeyerPredictor arithmetic)
      → Tallies preds mp
      → MadeBy new mp
      → Steps new preds (concluded arithmetic seq_no ts_ns stats mp)
  unfolding Steps
  concluded-Steps new preds seq_no ts_ns none mp t m = (t, m)
  concluded-Steps new preds seq_no ts_ns (some stats) mp t m =
      let pred = predict arithmetic seq_no ts_ns stats mp in
      (
        record {
          total = omega (arith, t.total);
          hits = hits_lem pred.below_redline mp.redline_hits (below preds) t.hits;
          latest = refl;
        },
        record { soft = m.soft; energy = m.energy; started = m.started },
      )

  push_phasor-Steps :
      (new : MeyerPredictor arithmetic) (preds : Predictions) (seq_no ts_ns : ℕ) (v i : Phasor F)
      (z : ImpedancePoint F) (mp : MeyerPredictor arithmetic)
      → Tallies preds mp
      → MadeBy new mp
      → Steps new preds (push_phasor arithmetic seq_no ts_ns v i z mp)
  unfolding push_phasor push_energy put Steps
  push_phasor-Steps new preds seq_no ts_ns v i z mp t m =
      let timed_mp = timed arithmetic ts_ns mp in
      let energised_mp = energised arithmetic ts_ns v i mp in
      let softened_mp = softened arithmetic ts_ns z energised_mp in
      if-Steps new preds (less (add (mul i.real i.real) (mul i.imag i.imag)) (literal 1 12))
        (timed_mp, none) _
        (
          record { total = t.total; hits = t.hits; latest = t.latest },
          record { soft = m.soft; energy = m.energy; started = m.started },
        )
        (if-Steps new preds (less z.magnitude (literal 1 9)) (energised_mp, none) _
          (
            record { total = t.total; hits = t.hits; latest = t.latest },
            record { soft = m.soft; energy = m.energy; started = m.started },
          )
          (concluded-Steps new preds seq_no ts_ns
            (softening_stats arithmetic softened_mp.cfg.softening_window_ns ts_ns
              softened_mp.soft_buf)
            softened_mp (record { total = t.total; hits = t.hits; latest = t.latest })
            (record { soft = m.soft; energy = m.energy; started = m.started })))

  apply-Good :
      (new : MeyerPredictor arithmetic) (op : Op) (mp : MeyerPredictor arithmetic)
      (preds : Predictions)
      → Good new (mp, preds)
      → Good new (apply op (mp, preds))
  unfolding apply Steps set_redline reset_predictor new_softening_tracker new_energy_tracker
      empty_circle
  apply-Good new (Op.push r) mp preds (t, m) =
      push_phasor-Steps new preds r.seq_no r.ts_ns r.voltage r.current r.impedance mp t m
  apply-Good new (Op.redline grams) mp preds (t, m) = elim (Bool-cases (less (literal 0 0) grams)) [
    | inl e ↦ rw e (
      record { total = t.total; hits = t.hits; latest = t.latest },
      record { soft = m.soft; energy = m.energy; started = m.started },
    )
    | inr e ↦ rw e (t, m)
  ]
  apply-Good new Op.reset mp preds (t, m) = (
    record { total = omega arith; hits = omega arith; latest = refl },
    record { soft = m.soft; energy = m.energy; started = refl },
  )

  run-Good :
      (new : MeyerPredictor arithmetic) (ops : List Op) (mp : MeyerPredictor arithmetic)
      (preds : Predictions)
      → Good new (mp, preds)
      → Good new (run ops (mp, preds))
  unfolding run
  run-Good new [] mp preds h = h
  run-Good new (op ∷ ops) mp preds h =
      let s = apply op (mp, preds) in run-Good new ops s.0 s.1 (apply-Good new op mp preds h)

  -- A new predictor, with no predictions yet.
  abbrev pub start : MaxwellMeyerConfig arithmetic → Run
  start cfg = (new_meyer_predictor arithmetic cfg, [])

  start-Good : (cfg : MaxwellMeyerConfig arithmetic) → Good (start cfg).0 (start cfg)
  unfolding new_meyer_predictor
  start-Good cfg = (
    record { total = omega arith; hits = omega arith; latest = refl },
    record { soft = refl; energy = refl; started = refl },
  )

  -- Over any sequence of phasors, redline changes and resets, a predictor counts the predictions that
  -- it returned since the last Reset and those of them that are below the redline, modulo 2^64, and its
  -- latest prediction is the last of them.
  pub run-Tallies :
      (cfg : MaxwellMeyerConfig arithmetic) (ops : List Op)
      → Tallies (run ops (start cfg)).1 (run ops (start cfg)).0
  run-Tallies cfg ops = (run-Good (start cfg).0 ops (start cfg).0 [] (start-Good cfg)).0

  -- After any such sequence Reset makes the predictor a new one again, but for its settings, where a
  -- redline that was set stays.
  pub reset_predictor_lem :
      (cfg : MaxwellMeyerConfig arithmetic) (ops : List Op)
      → reset_predictor arithmetic (run ops (start cfg)).0
        ≡ record (new_meyer_predictor arithmetic cfg) { cfg = (run ops (start cfg)).0.cfg }
  unfolding reset_predictor new_meyer_predictor new_softening_tracker new_energy_tracker
  reset_predictor_lem cfg ops =
      let mp = (run ops (start cfg)).0 in
      let made = (run-Good (start cfg).0 ops (start cfg).0 [] (start-Good cfg)).1 in
      λ i. record {
        cfg = mp.cfg;
        latest = zero_prediction arithmetic;
        soft_buf = new_softening_tracker arithmetic (made.soft i);
        energy_buf = new_energy_tracker arithmetic (made.energy i);
        total_predictions = 0;
        redline_hits = 0;
        last_ts_ns = 0;
        started = false;
      }
