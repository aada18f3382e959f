-- ===== src/Circle/Window.antt =====
-- A circular buffer is a sliding window over what is put into it.
use wire_bonding_ultra.Prelude.{
  ℕ, zero, suc, ◌+◌, ◌%◌, ◌<◌, ◌≡◌, ◌≢◌, refl, sym, ap, ap₂, ◌∙◌, List, [], ◌∷◌, ◌++◌, append_assoc,
  append-nil, arith, Bool, true, false, length, length-append, length-set, length-drop, length-take,
  set, take, drop, drop_all, take_all, ltb, ◌==◌, if◌then◌else◌, ℕ_discrete,
}
use native.Mathlib.Nat.{mod-eq_of_lt, mod_self}
use wire_bonding_ultra.Circle.{Circle, put, held, contents, IsValid}

module _ {ℓ} {A : Type ℓ} where
  -- What a window of `capacity` entries is after one more.
  abbrev pub slide : ℕ → List A → A → List A
  slide capacity w x = (if ltb (length w) capacity then w else drop 1 w) ++ (x ∷ [])

  take-set :
      (xs : List A) (i : ℕ) (x : A)
      → i < length xs
      → take (suc i) (set xs i x) ≡ take i xs ++ (x ∷ [])
  take-set [] i x h = absurd (omega arith)
  take-set (y ∷ xs) zero x h = refl
  take-set (y ∷ xs) (suc i) x h = ap (λ t. y ∷ t) (take-set xs i x (omega arith))

  drop-set : (xs : List A) (i : ℕ) (x : A) → drop (suc i) (set xs i x) ≡ drop (suc i) xs
  drop-set [] i x = refl
  drop-set (y ∷ xs) zero x = refl
  drop-set (y ∷ xs) (suc i) x = drop-set xs i x

  drop_one-append :
      (i : ℕ) (xs ys : List A) → i < length xs → drop 1 (drop i xs ++ ys) ≡ drop (suc i) xs ++ ys
  drop_one-append i [] ys h = absurd (omega arith)
  drop_one-append zero (x ∷ xs) ys h = refl
  drop_one-append (suc i) (x ∷ xs) ys h = drop_one-append i xs ys (omega arith)

  next_last : (c : Circle A) → c.idx + 1 ≡ c.capacity → (c.idx + 1) % c.capacity ≡ 0
  next_last c last = ap (λ t. t % c.capacity) last ∙ mod_self c.capacity

  next_short :
      (c : Circle A) → IsValid c → c.idx + 1 ≢ c.capacity → (c.idx + 1) % c.capacity ≡ suc c.idx
  next_short c v short = mod-eq_of_lt (omega (arith, v.inside)) ∙ omega arith

  pub put-IsValid : (x : A) (c : Circle A) → IsValid c → IsValid (put x c)
  unfolding put
  put-IsValid x c v =
      let size = length-set c.slots c.idx x ∙ v.sized in
      elim (ℕ_discrete (c.idx + 1) c.capacity) [
        | yes last ↦ record { inside = omega (arith, next_last c last, v.inside); sized = size }
        | no short ↦ record { inside = omega (arith, next_short c v short, v.inside); sized = size }
      ]

  length-held :
      (full : Bool) (idx : ℕ) (slots : List A)
      → idx < length slots
      → length (held full idx slots) ≡ (if full then length slots else idx)
  length-held true idx slots h = omega (
    arith,
    length-append (drop idx slots) (take idx slots),
    length-drop idx slots,
    length-take idx slots,
  )
  length-held false idx slots h = omega (arith, length-take idx slots)

  pub length-contents :
      (c : Circle A) → IsValid c → length (contents c) ≡ (if c.full then c.capacity else c.idx)
  length-contents c v =
      length-held c.full c.idx c.slots (omega (arith, v.inside, v.sized))
      ∙ ap (λ (n : ℕ). if c.full then n else c.idx) v.sized

  pub slide_full :
      (capacity : ℕ) (w : List A) (x : A)
      → length w ≡ capacity
      → slide capacity w x ≡ drop 1 w ++ (x ∷ [])
  slide_full capacity w x h = ground (arith, h)

  pub slide_short :
      (capacity : ℕ) (w : List A) (x : A) → length w < capacity → slide capacity w x ≡ w ++ (x ∷ [])
  slide_short capacity w x h = ground (arith, h)

  -- What is left of the first lap behind the written slot.
  abbrev old : Bool → ℕ → List A → List A
  old full idx slots = if full then drop (suc idx) slots else []

  slide-held :
      (full : Bool) (idx : ℕ) (slots : List A) (x : A)
      → idx < length slots
      → slide (length slots) (held full idx slots) x
        ≡ old full idx slots ++ (take idx slots ++ (x ∷ []))
  slide-held true idx slots x h =
      slide_full (length slots) (held true idx slots) x (length-held true idx slots h)
      ∙ ap (λ t. t ++ (x ∷ [])) (drop_one-append idx slots (take idx slots) h)
      ∙ append_assoc (drop (suc idx) slots) (take idx slots) (x ∷ [])
  slide-held false idx slots x h =
      slide_short (length slots) (held false idx slots) x
        (omega (arith, length-held false idx slots h))

  -- Before the end of a lap, and at it.
  held-set_short :
      (full : Bool) (idx : ℕ) (slots : List A) (x : A)
      → idx < length slots
      → held full (suc idx) (set slots idx x) ≡ old full idx slots ++ (take idx slots ++ (x ∷ []))
  held-set_short true idx slots x h =
      ap₂ (λ (a b : List A). a ++ b) (drop-set slots idx x) (take-set slots idx x h)
  held-set_short false idx slots x h = take-set slots idx x h

  held-set_last :
      (full : Bool) (idx : ℕ) (slots : List A) (x : A)
      → suc idx ≡ length slots
      → held true 0 (set slots idx x) ≡ old full idx slots ++ (take idx slots ++ (x ∷ []))
  held-set_last full idx slots x h =
      let all = take_all (suc idx) (set slots idx x) (omega (arith, length-set slots idx x)) in
      let gone = drop_all (suc idx) slots (omega arith) in
      append-nil (set slots idx x)
      ∙ sym all
      ∙ take-set slots idx x (omega arith)
      ∙ ap (λ t. t ++ (take idx slots ++ (x ∷ []))) (nothing full gone)
    where
      nothing : (full : Bool) → drop (suc idx) slots ≡ [] → [] ≡ old full idx slots
      nothing true gone = sym gone
      nothing false gone = refl

  -- What a valid buffer holds after a write is what it held, less the oldest entry if it was full, and
  -- the new entry behind it.
  pub contents-put :
      (x : A) (c : Circle A) → IsValid c → contents (put x c) ≡ slide c.capacity (contents c) x
  unfolding put
  contents-put x c v =
      let inside : c.idx < length c.slots = omega (arith, v.inside, v.sized) in
      let before =
        ap (λ n. slide n (contents c) x) (sym v.sized) ∙ slide-held c.full c.idx c.slots x inside in
      elim (ℕ_discrete (c.idx + 1) c.capacity) [
        | yes last ↦
            rw (next_last c last)
              (held-set_last c.full c.idx c.slots x (omega (arith, last, v.sized)) ∙ sym before)
        | no short ↦
            let later : (suc c.idx == 0) ≡ false = ground arith in
            rw (next_short c v short, later)
              (held-set_short c.full c.idx c.slots x inside ∙ sym before)
      ]
