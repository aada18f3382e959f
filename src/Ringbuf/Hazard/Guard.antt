-- ===== src/Ringbuf/Hazard/Guard.antt =====
-- The life of a guard: which slot Acquire takes, and what Clear and Release put back.
use wire_bonding_ultra.Prelude.{
  ◌⊎◌, ℕ, zero, suc, ◌+◌, ◌<◌, ◌≡◌, ◌≢◌, refl, sym, ap, ap₂, subst, some-inj, ◌∙◌, List, [], ◌∷◌,
  arith, Bool, true, false, none, some, length, get_or, set, All, get_or-set_self, get_or-set_ne,
  Option-cases, inl, inr,
}
use wire_bonding_ultra.Ringbuf.Hazard.{
  HazardDomain, HazardGuard, first_free, acquire, protect, clear, release,
}

first_free-some :
    (used : List Bool) (i j : ℕ)
    → first_free used i ≡ some j
    → (k : ℕ) × (j ≡ i + k) × (k < length used) × (get_or used k false ≡ false)
unfolding first_free
first_free-some [] i j e = absurd (cc)
first_free-some (false ∷ used) i j e = (0, ground (arith, e), omega arith, refl)
first_free-some (true ∷ used) i j e =
    let (k, at, short, free) = first_free-some used (i + 1) j e in
    (suc k, omega arith, omega arith, free)

first_free-none : (used : List Bool) (i : ℕ) → first_free used i ≡ none → All (λ u. u ≡ true) used
unfolding first_free
first_free-none [] i e = tt
first_free-none (false ∷ used) i e = absurd (cc)
first_free-none (true ∷ used) i e = (refl, first_free-none used (i + 1) e)

set-set {ℓ} : {A : Type ℓ} (xs : List A) (i : ℕ) (a b : A) → set (set xs i a) i b ≡ set xs i b
set-set [] i a b = refl
set-set (x ∷ xs) zero a b = refl
set-set (x ∷ xs) (suc i) a b = ap (λ t. x ∷ t) (set-set xs i a b)

set-get_or {ℓ} :
    {A : Type ℓ} (xs : List A) (i : ℕ) (a d : A)
    → i < length xs
    → get_or xs i d ≡ a
    → set xs i a ≡ xs
set-get_or [] i a d h e = refl
set-get_or (x ∷ xs) zero a d h e = ap (λ t. t ∷ xs) (sym e)
set-get_or (x ∷ xs) (suc i) a d h e = ap (λ t. x ∷ t) (set-get_or xs i a d (omega arith) e)

module _ {ℓ} {C : Type ℓ} where
  -- What Acquire did where it returned.
  pub record Acquired (hd : HazardDomain C) (hg : HazardGuard) (hd' : HazardDomain C) : Type ℓ where
    pub in_range : hg.slot < length hd.in_use
    pub was_free : get_or hd.in_use hg.slot false ≡ false
    pub is_taken : get_or hd'.in_use hg.slot false ≡ true
    pub others_kept : (j : ℕ) → j ≢ hg.slot → get_or hd'.in_use j false ≡ get_or hd.in_use j false
    pub no_prev : hg.prev ≡ 0
    pub rest_kept : hd' ≡ record hd { in_use = set hd.in_use hg.slot true }

  acquired :
      (hd : HazardDomain C) (i : ℕ)
      → first_free hd.in_use 0 ≡ some i
      → Acquired hd (record { slot = i; prev = 0 }) (record hd { in_use = set hd.in_use i true })
  acquired hd i e =
      let (k, at, short, free) = first_free-some hd.in_use 0 i e in
      let here : i ≡ k = omega arith in
      record {
        in_range = omega arith;
        was_free = rw here free;
        is_taken = get_or-set_self hd.in_use i true false (omega arith);
        others_kept = λ j ne. get_or-set_ne hd.in_use i j true false (λ p. ne (sym p));
        no_prev = refl;
        rest_kept = refl;
      }

  -- Acquire returns a guard for a slot that was free, marks that slot and no other, and leaves the
  -- pointers alone; it panics exactly where every slot is in use.
  pub acquire_cases :
      (hd : HazardDomain C)
      → ((acquire hd ≡ none) × All (λ u. u ≡ true) hd.in_use)
        ⊎ ((hg : HazardGuard) × (hd' : HazardDomain C) × (acquire hd ≡ some (hg, hd'))
            × Acquired hd hg hd')
  unfolding acquire
  acquire_cases hd = elim (Option-cases (first_free hd.in_use 0)) [
    | inl e ↦ inl (rw (e, acquire), first_free-none hd.in_use 0 e)
    | inr (i, e) ↦ inr (_, _, rw (e, acquire), acquired hd i e)
  ]

  pub acquire-Acquired :
      (hd : HazardDomain C) {hg : HazardGuard} {hd' : HazardDomain C}
      → acquire hd ≡ some (hg, hd')
      → Acquired hd hg hd'
  acquire-Acquired hd {hg} {hd'} e = elim (acquire_cases hd) [
    | inl (p, full) ↦ absurd (cc (e, p))
    | inr (g, d, p, a) ↦ subst (λ w. Acquired hd w.0 w.1) (some-inj (sym p ∙ e)) a
  ]

  -- Guards that are held together have different slots.
  pub acquire_distinct :
      (hd : HazardDomain C) {g h : HazardGuard} {hd' hd'' : HazardDomain C}
      → acquire hd ≡ some (g, hd')
      → acquire hd' ≡ some (h, hd'')
      → g.slot ≢ h.slot
  acquire_distinct hd {g} {h} {hd'} e f same =
      let a = acquire-Acquired hd e in
      let b = acquire-Acquired hd' f in
      cc (ap (λ j. get_or hd'.in_use j false) same, a.is_taken, b.was_free)

  -- A guard that is released gives the domain back as Acquire found it, if the free slot held nil.
  pub release-acquire :
      (hd : HazardDomain C) {hg : HazardGuard} {hd' : HazardDomain C}
      → length hd.hz_ptrs ≡ length hd.in_use
      → acquire hd ≡ some (hg, hd')
      → get_or hd.hz_ptrs hg.slot 0 ≡ 0
      → release hg hd' ≡ hd
  unfolding release
  release-acquire hd {hg} {hd'} len e nil =
      let a = acquire-Acquired hd e in
      ap (release hg) a.rest_kept
      ∙ ap₂ (λ ptrs used. record hd { hz_ptrs = ptrs; in_use = used })
          (set-get_or hd.hz_ptrs hg.slot 0 0 (omega (arith, a.in_range, len)) nil)
          (set-set hd.in_use hg.slot true false
            ∙ set-get_or hd.in_use hg.slot false false a.in_range a.was_free)

  -- A guard that protected a pointer and is released gives the domain back as Acquire found it, if the
  -- free slot held nil.
  pub release-protect :
      (hd : HazardDomain C) (p : ℕ) {hg : HazardGuard} {hd' : HazardDomain C}
      → length hd.hz_ptrs ≡ length hd.in_use
      → acquire hd ≡ some (hg, hd')
      → get_or hd.hz_ptrs hg.slot 0 ≡ 0
      → release (protect hg p hd').0 (protect hg p hd').1 ≡ hd
  unfolding release protect
  release-protect hd p {hg} {hd'} len e nil =
      ap (λ t. record hd' { hz_ptrs = t; in_use = set hd'.in_use hg.slot false })
        (set-set hd'.hz_ptrs hg.slot p 0)
      ∙ release-acquire hd len e nil

  -- Clear behind Protect gives the domain back: it puts back the pointer that the slot held before.
  pub clear-protect :
      (hd : HazardDomain C) (hg : HazardGuard) (p : ℕ)
      → hg.slot < length hd.hz_ptrs
      → (clear (protect hg p hd).0 (protect hg p hd).1).1 ≡ hd
  unfolding clear protect
  clear-protect hd hg p h =
      ap (λ t. record hd { hz_ptrs = t })
        (set-set hd.hz_ptrs hg.slot p _ ∙ set-get_or hd.hz_ptrs hg.slot _ 0 h refl)
