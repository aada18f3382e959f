-- ===== src/Pullstrength/Fresh.antt =====
-- When a prediction is made: at least four rows of the softening tracker are in its window.
use wire_bonding_ultra.Prelude.{
  ◌&&◌, ◌||◌, ◌==◌, ◌%◌, ◌^◌, ◌-◌, ℕ, ◌+◌, ◌<◌, ◌≡◌, refl, ap, ap₂, sym, ◌∙◌, arith, List, [], ◌∷◌,
  ◌++◌, Bool, true, false, not, Option, none, some, is_some, take, drop, take_all, take-append-drop,
  ltb, leb, All, if◌then◌else◌, Bool-cases, inl, inr,
}
use wire_bonding_ultra.Models.Arithmetic.{Arithmetic}
use wire_bonding_ultra.Circle.{Circle, IsValid, put, total, contents}
use wire_bonding_ultra.Circle.Log.{last, put_all, put_all-append, put_all-Logged}
use wire_bonding_ultra.Pullstrength.Config.{MaxwellMeyerConfig, samples_of, with_defaults}
use wire_bonding_ultra.Pullstrength.Runs.{Reading}
use wire_bonding_ultra.Pullstrength.{
  MeyerPredictor, PullStrengthPrediction, SofteningRow, Stats, zero_softening, is_fresh, counted,
  no_stats, sum_rows, new_meyer_predictor, new_softening_tracker, softening_stats, concluded,
  energised, softened, push_phasor,
}

is_some_unless {ℓ} : {A : Type ℓ} (b : Bool) (a : A) → is_some (if b then none else some a) ≡ not b
is_some_unless true a = refl
is_some_unless false a = refl

-- A time is in the window before `now`; where the clock is at 0, every time is.
abbrev pub in_window : ℕ → ℕ → ℕ → Bool
in_window window_ns now_ns ts_ns =
    ltb 0 ts_ns && (now_ns == 0 || leb ((now_ns + 2 ^ 64 - ts_ns) % 2 ^ 64) window_ns)

not-ltb : (a b : ℕ) → not (ltb a b) ≡ leb b a
not-ltb a b = ground arith

module _ {ℓ} (arithmetic : Arithmetic {ℓ}) where
  open arithmetic use {F, literal, less, mul, add}

  is_fresh-in_window :
      (window_ns now_ns : ℕ) (r : SofteningRow arithmetic)
      → is_fresh arithmetic window_ns now_ns r ≡ in_window window_ns now_ns r.ts_ns
  is_fresh-in_window window_ns now_ns r = ground arith

  -- The rows whose age, as a uint64, is within the window; a time of 0 marks a slot that was not written.
  unfoldable pub fresh : ℕ → ℕ → List (SofteningRow arithmetic) → ℕ
  fresh window_ns now_ns [] = 0
  fresh window_ns now_ns (r ∷ rows) =
      if in_window window_ns now_ns r.ts_ns
      then fresh window_ns now_ns rows + 1
      else fresh window_ns now_ns rows

  fresh-append :
      (window_ns now_ns : ℕ) (xs ys : List (SofteningRow arithmetic))
      → fresh window_ns now_ns (xs ++ ys) ≡ fresh window_ns now_ns xs + fresh window_ns now_ns ys
  unfolding fresh
  fresh-append window_ns now_ns [] ys = omega arith
  fresh-append window_ns now_ns (r ∷ xs) ys =
      let rest = fresh-append window_ns now_ns xs ys in
      elim (Bool-cases (in_window window_ns now_ns r.ts_ns)) [
        | inl e ↦ rw e (omega (arith, rest))
        | inr e ↦ rw e rest
      ]

  counted_lem :
      (b : Bool) (r : SofteningRow arithmetic) (s : Stats arithmetic) (n : ℕ)
      → (if b then counted arithmetic r s else s).valid + n ≡ s.valid + (if b then n + 1 else n)
  counted_lem true r s n = omega arith
  counted_lem false r s n = refl

  valid-sum_rows :
      (window_ns now_ns : ℕ) (rows : List (SofteningRow arithmetic)) (s : Stats arithmetic)
      → (sum_rows arithmetic window_ns now_ns rows s).valid ≡ s.valid + fresh window_ns now_ns rows
  unfolding sum_rows fresh
  valid-sum_rows window_ns now_ns [] s = omega arith
  valid-sum_rows window_ns now_ns (r ∷ rows) s =
      let b = is_fresh arithmetic window_ns now_ns r in
      valid-sum_rows window_ns now_ns rows (if b then counted arithmetic r s else s)
      ∙ counted_lem b r s (fresh window_ns now_ns rows)
      ∙ ap
          (λ (c : Bool).
            s.valid + (if c then fresh window_ns now_ns rows + 1 else fresh window_ns now_ns rows))
          (is_fresh-in_window window_ns now_ns r)

  -- The rows that are looked at are those that are held, in another order.
  fresh-held :
      (window_ns now_ns : ℕ) (c : Circle (SofteningRow arithmetic))
      → IsValid c
      → fresh window_ns now_ns (take (total c) c.slots) ≡ fresh window_ns now_ns (contents c)
  fresh-held window_ns now_ns c v = elim (Bool-cases c.full) [
    | inl e ↦
        let split = fresh-append window_ns now_ns (take c.idx c.slots) (drop c.idx c.slots) in
        let turned = fresh-append window_ns now_ns (drop c.idx c.slots) (take c.idx c.slots) in
        let whole =
          ap (fresh window_ns now_ns) (take_all c.capacity c.slots (omega (arith, v.sized)))
          ∙ ap (fresh window_ns now_ns) (sym (take-append-drop c.idx c.slots)) in
        rw e (omega (arith, split, turned, whole))
    | inr e ↦ rw e refl
  ]

  fresh-held_sum :
      (window_ns now_ns : ℕ) (c : Circle (SofteningRow arithmetic))
      → IsValid c
      → 0 + fresh window_ns now_ns (take (total c) c.slots) ≡ fresh window_ns now_ns (contents c)
  fresh-held_sum window_ns now_ns c v = omega (arith, fresh-held window_ns now_ns c v)

  is_some-softening_stats :
      (window_ns now_ns : ℕ) (c : Circle (SofteningRow arithmetic))
      → IsValid c
      → is_some (softening_stats arithmetic window_ns now_ns c)
        ≡ leb 4 (fresh window_ns now_ns (contents c))
  unfolding softening_stats
  is_some-softening_stats window_ns now_ns c v =
      let sums =
        sum_rows arithmetic window_ns now_ns (take (total c) c.slots) (no_stats arithmetic) in
      let valid : sums.valid ≡ fresh window_ns now_ns (contents c) =
        valid-sum_rows window_ns now_ns (take (total c) c.slots) (no_stats arithmetic)
        ∙ fresh-held_sum window_ns now_ns c v in
      is_some_unless (ltb sums.valid 4) _ ∙ not-ltb sums.valid 4 ∙ ap (leb 4) valid

  abbrev pub row_of : Reading arithmetic → SofteningRow arithmetic
  row_of r = record { ts_ns = r.ts_ns; hard_rat = r.impedance.magnitude; phase = r.impedance.phase }

  -- The current is not too small, nor is the impedance.
  abbrev pub Measurable : Reading arithmetic → Type 0
  Measurable r =
      (less (add (mul r.current.real r.current.real) (mul r.current.imag r.current.imag))
          (literal 1 12)
        ≡ false)
      × (less r.impedance.magnitude (literal 1 9) ≡ false)

  abbrev pub push :
      Reading arithmetic
      → MeyerPredictor arithmetic
      → MeyerPredictor arithmetic × Option (PullStrengthPrediction arithmetic)
  push r = push_phasor arithmetic r.seq_no r.ts_ns r.voltage r.current r.impedance

  unfoldable pub push_all :
      List (Reading arithmetic) → MeyerPredictor arithmetic → MeyerPredictor arithmetic
  unfolding push_phasor
  push_all [] mp = mp
  push_all (r ∷ readings) mp = push_all readings (push r mp).0

  abbrev pub rows_of : List (Reading arithmetic) → List (SofteningRow arithmetic)
  rows_of [] = []
  rows_of (r ∷ readings) = row_of r ∷ rows_of readings

  concluded_lem :
      (seq_no ts_ns : ℕ) (stats : Option (F × F × F)) (mp : MeyerPredictor arithmetic)
      → ((concluded arithmetic seq_no ts_ns stats mp).0.soft_buf ≡ mp.soft_buf)
        × ((concluded arithmetic seq_no ts_ns stats mp).0.cfg ≡ mp.cfg)
        × (is_some (concluded arithmetic seq_no ts_ns stats mp).1 ≡ is_some stats)
  concluded_lem seq_no ts_ns none mp = (refl, refl, refl)
  concluded_lem seq_no ts_ns (some stats) mp = (refl, refl, refl)

  push-Measurable :
      (r : Reading arithmetic) (mp : MeyerPredictor arithmetic)
      → Measurable r
      → ((push r mp).0.soft_buf ≡ put (row_of r) mp.soft_buf)
        × ((push r mp).0.cfg ≡ mp.cfg)
        × (is_some (push r mp).1
            ≡ is_some (
                softening_stats arithmetic mp.cfg.softening_window_ns r.ts_ns
                  (put (row_of r) mp.soft_buf)))
  unfolding push_phasor
  push-Measurable r mp (current, impedance) =
      let softer =
        softened arithmetic r.ts_ns r.impedance
          (energised arithmetic r.ts_ns r.voltage r.current mp) in
      rw (current, impedance)
        (concluded_lem r.seq_no r.ts_ns
          (softening_stats arithmetic softer.cfg.softening_window_ns r.ts_ns softer.soft_buf)
          softer)

  push_all_lem :
      (readings : List (Reading arithmetic)) (mp : MeyerPredictor arithmetic)
      → All Measurable readings
      → ((push_all readings mp).soft_buf ≡ put_all (rows_of readings) mp.soft_buf)
        × ((push_all readings mp).cfg ≡ mp.cfg)
  unfolding push_all put_all
  push_all_lem [] mp h = (refl, refl)
  push_all_lem (r ∷ readings) mp (h, hs) =
      let (soft, cfg, made) = push-Measurable r mp h in
      let (rest, kept) = push_all_lem readings (push r mp).0 hs in
      (rest ∙ ap (put_all (rows_of readings)) soft, kept ∙ cfg)

  -- The rows that the softening tracker of a new predictor has room for.
  abbrev pub softening_capacity : MaxwellMeyerConfig arithmetic → ℕ
  softening_capacity cfg = samples_of (with_defaults arithmetic cfg).softening_window_ns 16

  samples_of_positive : (window_ns : ℕ) → 0 < samples_of window_ns 16
  samples_of_positive window_ns = ground arith

  -- After any measurable phasors a new predictor makes a prediction for the next measurable one exactly
  -- if, among the last phasors that the softening tracker has room for, this one included, at least four
  -- have a time in the softening window.
  pub push_phasor-fresh :
      (cfg : MaxwellMeyerConfig arithmetic) (readings : List (Reading arithmetic))
      (r : Reading arithmetic)
      → All Measurable readings
      → Measurable r
      → is_some (push r (push_all readings (new_meyer_predictor arithmetic cfg))).1
        ≡ leb 4 (
            fresh
              (with_defaults arithmetic cfg).softening_window_ns
              r.ts_ns
              (last (softening_capacity cfg) (rows_of readings ++ (row_of r ∷ []))))
  unfolding new_meyer_predictor new_softening_tracker
  push_phasor-fresh cfg readings r hs h =
      let new = new_meyer_predictor arithmetic cfg in
      let mp = push_all readings new in
      let (soft, kept) = push_all_lem readings new hs in
      let (next, settings, made) = push-Measurable r mp h in
      let window = (with_defaults arithmetic cfg).softening_window_ns in
      let rows = rows_of readings ++ (row_of r ∷ []) in
      let logged =
        put_all-Logged (zero_softening arithmetic) (softening_capacity cfg) rows
          (samples_of_positive window) in
      let buffer : put (row_of r) mp.soft_buf ≡ put_all rows new.soft_buf =
        ap (put (row_of r)) soft
        ∙ sym (put_all-append (rows_of readings) (row_of r) new.soft_buf) in
      made
      ∙ ap₂
          (λ (c : MaxwellMeyerConfig arithmetic) (b : Circle (SofteningRow arithmetic)).
            is_some (softening_stats arithmetic c.softening_window_ns r.ts_ns b))
          kept buffer
      ∙ is_some-softening_stats window r.ts_ns (put_all rows new.soft_buf) logged.valid
      ∙ ap (λ l. leb 4 (fresh window r.ts_ns l)) logged.holds
