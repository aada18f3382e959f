-- ===== src/Dsp/Goertzel.antt =====
-- internal/dsp/dual_phasor.go: Goertzel, the filter for one frequency.
use wire_bonding_ultra.Prelude.{
  ℕ, ◌+◌, ◌≡◌, refl, ap₂, ◌∙◌, arith, List, [], ◌∷◌, ◌++◌, Bool, true, false, not, inl, inr,
  Bool-cases, length, ltb, ◌==◌, if◌then◌else◌,
}
use wire_bonding_ultra.Models.Arithmetic.{Arithmetic}
use wire_bonding_ultra.Dsp.{default_window_size}

module _ {ℓ} (arithmetic : Arithmetic {ℓ}) where
  open arithmetic use {F, of_nat, literal, pi, add, sub, mul, div, at_most, sqrt, atan2, cos, round}

  pub record Goertzel : Type ℓ where
    pub target_freq : F
    pub sample_rate : F
    pub n : ℕ
    pub coef : F
    pub count : ℕ
    pub s1 : F
    pub s2 : F

  -- A number of samples that is not positive is 0 here.
  unfoldable pub new_goertzel : F → F → ℕ → Goertzel
  new_goertzel target asked_rate asked =
      let n = if asked == 0 then default_window_size else asked in
      let rate = if at_most asked_rate (literal 0 0) then of_nat 100000 else asked_rate in
      let k = round (div (mul target (of_nat n)) rate) in
      let omega_k = div (mul (mul (literal 2 0) pi) k) (of_nat n) in
      record {
        target_freq = target;
        sample_rate = rate;
        n = n;
        coef = mul (literal 2 0) (cos omega_k);
        count = 0;
        s1 = literal 0 0;
        s2 = literal 0 0;
      }

  unfoldable pub reset : Goertzel → Goertzel
  reset g = record g { count = 0; s1 = literal 0 0; s2 = literal 0 0 }

  unfoldable pub add_sample : F → Goertzel → Goertzel
  add_sample x g = record g {
    s2 = g.s1;
    s1 = sub (add x (mul g.coef g.s1)) g.s2;
    count = g.count + 1;
  }

  unfoldable pub add_batch : List F → Goertzel → Goertzel
  unfolding add_sample
  add_batch [] g = g
  add_batch (x ∷ xs) g = add_batch xs (add_sample x g)

  unfoldable pub magnitude_squared : Goertzel → F
  magnitude_squared g = sub (add (mul g.s1 g.s1) (mul g.s2 g.s2)) (mul (mul g.coef g.s1) g.s2)

  pub record GoertzelResult : Type ℓ where
    pub real : F
    pub imag : F
    pub magnitude : F
    pub angle : F
    pub freq_hz : F
    pub complete : Bool

  unfoldable pub result : Goertzel → GoertzelResult
  result g =
      if ltb g.count g.n
      then record {
        real = literal 0 0;
        imag = literal 0 0;
        magnitude = literal 0 0;
        angle = literal 0 0;
        freq_hz = literal 0 0;
        complete = false;
      }
      else let real = sub (mul (mul (literal 5 1) g.coef) g.s1) g.s2 in
        let imag = mul (sqrt (sub (literal 1 0) (mul (mul (literal 25 2) g.coef) g.coef))) g.s1 in
        let norm = div (literal 2 0) (of_nat g.n) in
        record {
          real = mul real norm;
          imag = mul imag norm;
          magnitude = mul (sqrt (add (mul real real) (mul imag imag))) norm;
          angle = atan2 imag real;
          freq_hz = g.target_freq;
          complete = true;
        }

  -- The state and the settings after a batch.
  add_batch-count : (xs : List F) (g : Goertzel) → (add_batch xs g).count ≡ g.count + length xs
  unfolding add_batch
  add_batch-count [] g = omega arith
  add_batch-count (x ∷ xs) g = add_batch-count xs (add_sample x g) ∙ omega arith

  add_batch-n : (xs : List F) (g : Goertzel) → (add_batch xs g).n ≡ g.n
  unfolding add_batch
  add_batch-n [] g = refl
  add_batch-n (x ∷ xs) g = add_batch-n xs (add_sample x g)

  add_batch-append :
      (xs ys : List F) (g : Goertzel) → add_batch (xs ++ ys) g ≡ add_batch ys (add_batch xs g)
  unfolding add_batch
  add_batch-append [] ys g = refl
  add_batch-append (x ∷ xs) ys g = add_batch-append xs ys (add_sample x g)

  complete_lem : (g : Goertzel) → (result g).complete ≡ not (ltb g.count g.n)
  unfolding result
  complete_lem g = elim (Bool-cases (ltb g.count g.n)) [ inl e ↦ rw e refl | inr e ↦ rw e refl ]

  -- However long the filter has run, after Reset a batch makes its result complete exactly when it has
  -- as many samples as the filter's length, and a batch in two parts comes to the same as in one.
  pub result-complete :
      (g : Goertzel) (xs ys : List F)
      → ((result (add_batch xs (reset g))).complete ≡ not (ltb (length xs) g.n))
        × (add_batch (xs ++ ys) g ≡ add_batch ys (add_batch xs g))
  unfolding reset
  result-complete g xs ys = (
    complete_lem (add_batch xs (reset g))
        ∙ ap₂ (λ (a b : ℕ). not (ltb a b)) (add_batch-count xs (reset g) ∙ omega arith)
            (add_batch-n xs (reset g)),
    add_batch-append xs ys g,
  )
