-- ===== src/Dsp/Spectrum.antt =====
-- The sliding window's result is the weighted Fourier sum of the last samples.
use wire_bonding_ultra.Prelude.{
  ℕ, zero, suc, ◌+◌, ◌%◌, ◌^◌, ◌≤◌, ◌<◌, List, [], ◌∷◌, ◌++◌, length, get_or, length-append, leb,
  if◌then◌else◌, ◌≡◌, refl, sym, ap, ap₂, ◌∙◌, arith, Bool-cases, inl, inr,
}
use wire_bonding_ultra.Models.Arithmetic.{Arithmetic, ℤ}
use wire_bonding_ultra.Circle.{Circle, read_from}
use wire_bonding_ultra.Circle.Log.{last, put_all, put_all-append, put_all-Logged}
use wire_bonding_ultra.Circle.Recent.{read_all}
use wire_bonding_ultra.Dsp.{
  SlidingDft, WindowType, PhasorResult, window_value, fill_from, build_window, phase_of,
  new_sliding_dft, accumulate, scaled, waiting, stored, reset, update,
}

module _ {ℓ} (arithmetic : Arithmetic {ℓ}) where
  open arithmetic use {F, literal, add, sub, mul, cos, sin}

  get_or-fill_from :
      (f : ℕ → F) (n i j : ℕ) (d : F) → j < n → get_or (fill_from arithmetic f n i) j d ≡ f (i + j)
  unfolding fill_from
  get_or-fill_from f zero i j d h = absurd (omega arith)
  get_or-fill_from f (suc n) i zero d h = ap f (omega arith)
  get_or-fill_from f (suc n) i (suc j) d h =
      get_or-fill_from f n (i + 1) j d (omega arith) ∙ ap f (omega arith)

  -- The two sums over a window's samples, oldest first, from their definition: the weight of sample `i`
  -- is the window's value there, times the cosine or the sine of its phase.
  unfoldable pub fourier_sum : WindowType → ℤ → ℕ → List F → ℕ → F × F → F × F
  fourier_sum wt k n [] i acc = acc
  fourier_sum wt k n (x ∷ xs) i (re, im) =
      let w = window_value arithmetic wt n i in
      let phase = phase_of arithmetic k n i in
      fourier_sum wt k n xs (i + 1)
        (add re (mul x (mul w (cos phase))), sub im (mul x (mul w (sin phase))))

  -- The samples of a log, one Update after another, each with its time.
  unfoldable pub feed : List (F × ℕ) → SlidingDft arithmetic → SlidingDft arithmetic
  unfolding update
  feed [] sd = sd
  feed ((x, t) ∷ log) sd = feed log (update arithmetic x t sd).0

  abbrev pub values : List (F × ℕ) → List F
  values [] = []
  values ((x, t) ∷ log) = x ∷ values log

  -- What is in a state after a log.
  abbrev pub fed : List F → SlidingDft arithmetic → SlidingDft arithmetic
  fed log sd = record sd {
    samples = put_all log sd.samples;
    sample_count = (sd.sample_count + length log) % 2 ^ 64;
  }

  feed_lem :
      (log : List (F × ℕ)) (sd : SlidingDft arithmetic)
      → sd.sample_count < 2 ^ 64
      → feed log sd ≡ fed (values log) sd
  unfolding feed put_all update
  feed_lem [] sd h =
      ap (λ (n : ℕ). record sd { sample_count = n }) {x = sd.sample_count} (omega arith)
  feed_lem ((x, t) ∷ log) sd h =
      feed_lem log (stored arithmetic x sd) (omega arith)
      ∙ ap
          (λ (n : ℕ). record sd { samples = put_all (x ∷ values log) sd.samples; sample_count = n })
          (omega arith)

  -- The tables hold the weights.
  pub record HasTables (wt : WindowType) (sd : SlidingDft arithmetic) : Type ℓ where
    pub cosines :
        (i : ℕ)
        → i < sd.window_size
        → get_or sd.weighted_cos i (literal 0 0)
          ≡ mul
              (window_value arithmetic wt sd.window_size i)
              (cos (phase_of arithmetic sd.k sd.window_size i))
    pub sines :
        (i : ℕ)
        → i < sd.window_size
        → get_or sd.weighted_sin i (literal 0 0)
          ≡ mul
              (window_value arithmetic wt sd.window_size i)
              (sin (phase_of arithmetic sd.k sd.window_size i))

  accumulate_lem :
      (wt : WindowType) (sd : SlidingDft arithmetic) (n i : ℕ) (re im : F)
      → HasTables wt sd
      → sd.samples.capacity ≡ sd.window_size
      → i + n ≤ sd.window_size
      → accumulate arithmetic sd n i (re, im)
        ≡ fourier_sum wt sd.k sd.window_size
            (read_from (literal 0 0) sd.samples sd.samples.idx n i)
            i
            (re, im)
  unfolding accumulate fourier_sum read_from
  accumulate_lem wt sd zero i re im tables cap h = refl
  accumulate_lem wt sd (suc n) i re im tables cap h =
      rw (tables.cosines i (omega arith), tables.sines i (omega arith), cap)
        (accumulate_lem wt sd n (i + 1) _ _ tables cap (omega arith))

  weight_lem :
      (wt : WindowType) (k : ℤ) (n : ℕ) (trig : F → F) (i : ℕ)
      → i < n
      → get_or
          (fill_from arithmetic
            (λ (j : ℕ).
              mul
                (get_or (build_window arithmetic wt n) j (literal 0 0))
                (trig (phase_of arithmetic k n j)))
            n
            0)
          i
          (literal 0 0)
        ≡ mul (window_value arithmetic wt n i) (trig (phase_of arithmetic k n i))
  unfolding build_window
  weight_lem wt k n trig i h =
      let weighted = λ (j : ℕ).
        mul (get_or (build_window arithmetic wt n) j (literal 0 0))
          (trig (phase_of arithmetic k n j)) in
      get_or-fill_from weighted n 0 i (literal 0 0) h
      ∙ ap weighted {x = 0 + i} {y = i} (omega arith)
      ∙ ap (λ w. mul w (trig (phase_of arithmetic k n i)))
          (get_or-fill_from (window_value arithmetic wt n) n 0 i (literal 0 0) h
            ∙ ap (window_value arithmetic wt n) {x = 0 + i} {y = i} (omega arith))

  new_sliding_dft-HasTables :
      (asked : ℕ) (freq rate : F) (wt : WindowType)
      → HasTables wt (new_sliding_dft arithmetic asked freq rate wt)
  unfolding new_sliding_dft
  new_sliding_dft-HasTables asked freq rate wt =
      let sd = new_sliding_dft arithmetic asked freq rate wt in
      record {
        cosines = weight_lem wt sd.k sd.window_size cos;
        sines = weight_lem wt sd.k sd.window_size sin;
      }

  pub window_size_positive :
      (asked : ℕ) (freq rate : F) (wt : WindowType)
      → 0 < (new_sliding_dft arithmetic asked freq rate wt).window_size
  unfolding new_sliding_dft
  window_size_positive asked freq rate wt = ground arith

  abbrev shown : ℕ → SlidingDft arithmetic → PhasorResult arithmetic
  shown t sd =
      let at = sd.sample_count % sd.window_size in
      if sd.samples.full
      then scaled arithmetic sd t at
          (accumulate arithmetic sd sd.window_size 0 (literal 0 0, literal 0 0))
      else waiting arithmetic t at

  stored-fed :
      (xs : List F) (x : F) (sd : SlidingDft arithmetic)
      → stored arithmetic x (fed xs sd) ≡ fed (xs ++ (x ∷ [])) sd
  stored-fed xs x sd =
      ap₂ (λ (c : Circle F) (n : ℕ). record sd { samples = c; sample_count = n })
        (sym (put_all-append xs x sd.samples)) (omega (arith, length-append xs (x ∷ [])))

  -- The result for a window of samples.
  abbrev pub spectrum : WindowType → SlidingDft arithmetic → ℕ → List F → PhasorResult arithmetic
  spectrum wt new t xs =
      let n = new.window_size in
      let at = length xs % 2 ^ 64 % n in
      if leb n (length xs)
      then scaled arithmetic new t at
          (fourier_sum wt new.k n (last n xs) 0 (literal 0 0, literal 0 0))
      else waiting arithmetic t at

  spectrum-ready :
      (wt : WindowType) (new : SlidingDft arithmetic) (t : ℕ) (xs : List F)
      → (spectrum wt new t xs).ready ≡ leb new.window_size (length xs)
  spectrum-ready wt new t xs = elim (Bool-cases (leb new.window_size (length xs))) [
    | inl e ↦ rw e refl
    | inr e ↦ rw e refl
  ]

  -- After any log of samples, Update's result is that of the weighted Fourier sum over the last window
  -- of samples, the new one included, as soon as there are that many, and not ready before.
  pub update_lem :
      (asked : ℕ) (freq rate : F) (wt : WindowType) (log : List (F × ℕ)) (x : F) (t : ℕ)
      → (update arithmetic x t (feed log (new_sliding_dft arithmetic asked freq rate wt))).1
        ≡ spectrum wt (new_sliding_dft arithmetic asked freq rate wt) t (values log ++ (x ∷ []))
  unfolding update new_sliding_dft
  update_lem asked freq rate wt log x t =
      let new = new_sliding_dft arithmetic asked freq rate wt in
      let n = new.window_size in
      let xs = values log ++ (x ∷ []) in
      let state = fed xs new in
      let logged = put_all-Logged (literal 0 0) n xs (window_size_positive asked freq rate wt) in
      let fed_now : stored arithmetic x (feed log new) ≡ state =
        ap (stored arithmetic x) (feed_lem log new (omega arith)) ∙ stored-fed (values log) x new in
      let count : state.sample_count ≡ length xs % 2 ^ 64 = ap (λ j. j % 2 ^ 64) (omega arith) in
      let at = ap (λ j. j % n) count in
      let tables = new_sliding_dft-HasTables asked freq rate wt in
      let kept : HasTables wt state = record { cosines = tables.cosines; sines = tables.sines } in
      ap (shown t) fed_now ∙ elim (Bool-cases (leb n (length xs))) [
        | inl e ↦
            let window =
              ap (λ j. read_from (literal 0 0) state.samples state.samples.idx j 0)
                (sym logged.same_capacity)
              ∙ read_all (literal 0 0) state.samples logged.valid (logged.full_iff ∙ e)
              ∙ logged.holds in
            let sums =
              accumulate_lem wt state n 0 (literal 0 0) (literal 0 0) kept logged.same_capacity
                (omega arith)
              ∙ ap (λ w. fourier_sum wt new.k n w 0 (literal 0 0, literal 0 0)) window in
            rw (logged.full_iff ∙ e, e) (ap₂ (scaled arithmetic new t) at sums)
        | inr e ↦ rw (logged.full_iff ∙ e, e) (ap (waiting arithmetic t) at)
      ]

  length-values : (log : List (F × ℕ)) → length (values log) ≡ length log
  length-values [] = refl
  length-values ((x, t) ∷ log) = ap suc (length-values log)

  pub update-ready :
      (asked : ℕ) (freq rate : F) (wt : WindowType) (log : List (F × ℕ)) (x : F) (t : ℕ)
      → (update arithmetic x t (feed log (new_sliding_dft arithmetic asked freq rate wt))).1.ready
        ≡ leb (new_sliding_dft arithmetic asked freq rate wt).window_size (length log + 1)
  update-ready asked freq rate wt log x t =
      let new = new_sliding_dft arithmetic asked freq rate wt in
      let xs = values log ++ (x ∷ []) in
      let size : length xs ≡ length log + 1 =
        omega (arith, length-append (values log) (x ∷ []), length-values log) in
      ap (λ (r : PhasorResult arithmetic). r.ready) (update_lem asked freq rate wt log x t)
      ∙ spectrum-ready wt new t xs
      ∙ ap (leb new.window_size) size

  -- Whatever a new window was fed, Reset makes it a new one again.
  pub reset-feed :
      (asked : ℕ) (freq rate : F) (wt : WindowType) (log : List (F × ℕ))
      → reset arithmetic (feed log (new_sliding_dft arithmetic asked freq rate wt))
        ≡ new_sliding_dft arithmetic asked freq rate wt
  unfolding reset new_sliding_dft
  reset-feed asked freq rate wt log =
      ap (reset arithmetic)
        (feed_lem log (new_sliding_dft arithmetic asked freq rate wt) (omega arith))
