-- ===== src/Ringbuf/Hazard/Scan.antt =====
-- Scan and Retire: what is reclaimed and what stays.
use wire_bonding_ultra.Prelude.{
  ◌⊎◌, ℕ, zero, suc, ◌+◌, ◌%◌, ◌^◌, ◌<◌, ◌≡◌, ◌≢◌, refl, sym, ap, List, [], ◌∷◌, ◌++◌, arith, Bool,
  true, false, Option, none, some, length, get_or, All, ◌==◌, if◌then◌else◌, Bool-cases, inl, inr,
  length-append, leb,
}
use wire_bonding_ultra.Ringbuf.Hazard.{
  HazardDomain, RetiredNode, Call, hazard_set, contains, reclaim_call, sweep, scan, enlist, retire,
  retire_batch_size,
}

-- A slot in use that holds a pointer puts it into the hazard set.
contains-hazard_set :
    (used : List Bool) (ptrs : List ℕ) (i p : ℕ)
    → get_or used i false ≡ true
    → get_or ptrs i 0 ≡ p
    → p ≢ 0
    → contains (hazard_set used ptrs) p ≡ true
unfolding contains hazard_set
contains-hazard_set [] ptrs i p u e ne = absurd (cc)
contains-hazard_set (u ∷ used) [] i p h e ne = absurd (ne (sym e))
contains-hazard_set (u ∷ used) (q ∷ ptrs) zero p h e ne = ground arith
contains-hazard_set (u ∷ used) (q ∷ ptrs) (suc i) p h e ne =
    ground (arith, contains-hazard_set used ptrs i p h e ne)

-- No call of the list is for the pointer.
abbrev pub Spares {ℓ} : {C : Type ℓ} → ℕ → List (Call C) → Type 0
Spares p [] = Unit
Spares p (c ∷ calls) = (c.1 ≢ p) × Spares p calls

-- How often a pointer is among the retired nodes, and among the calls.
abbrev pub retired_times {ℓ} : {C : Type ℓ} → ℕ → List (RetiredNode C) → ℕ
retired_times p [] = 0
retired_times p (node ∷ nodes) = (if node.ptr == p then 1 else 0) + retired_times p nodes

abbrev pub called_times {ℓ} : {C : Type ℓ} → ℕ → List (Call C) → ℕ
called_times p [] = 0
called_times p (c ∷ calls) = (if c.1 == p then 1 else 0) + called_times p calls

module _ {ℓ} {C : Type ℓ} where
  Spares-append : (p : ℕ) (xs ys : List (Call C)) → Spares p xs → Spares p ys → Spares p (xs ++ ys)
  Spares-append p [] ys hx hy = hy
  Spares-append p (x ∷ xs) ys hx hy = (hx.0, Spares-append p xs ys hx.1 hy)

  Spares-reclaim_call :
      (p : ℕ) (reclaim : Option C) (q : ℕ) → q ≢ p → Spares p (reclaim_call reclaim q)
  Spares-reclaim_call p none q ne = tt
  Spares-reclaim_call p (some c) q ne = (ne, tt)

  sweep-Spares :
      (hazards : List ℕ) (p : ℕ) (nodes : List (RetiredNode C))
      → contains hazards p ≡ true
      → Spares p (sweep hazards nodes).1
  unfolding sweep
  sweep-Spares hazards p [] h = tt
  sweep-Spares hazards p (node ∷ nodes) h = elim (Bool-cases (contains hazards node.ptr)) [
    | inl e ↦ rw e (sweep-Spares hazards p nodes h)
    | inr e ↦ rw e (
        Spares-append p (reclaim_call node.reclaim node.ptr) _
          (Spares-reclaim_call p node.reclaim node.ptr (λ q. cc (ap (contains hazards) q, e, h)))
          (sweep-Spares hazards p nodes h))
  ]

  -- A pointer that is not nil and that a guard in use protects is not reclaimed by Scan.
  pub scan-Spares :
      (hd : HazardDomain C) (slot p : ℕ)
      → get_or hd.in_use slot false ≡ true
      → get_or hd.hz_ptrs slot 0 ≡ p
      → p ≢ 0
      → Spares p (scan hd).1
  unfolding scan
  scan-Spares hd slot p used held ne =
      sweep-Spares (hazard_set hd.in_use hd.hz_ptrs) p hd.retired
        (contains-hazard_set hd.in_use hd.hz_ptrs slot p used held ne)

  -- A pointer that is not nil and that a guard in use protects is not reclaimed by Retire, whatever is
  -- retired, that pointer itself included.
  pub retire-Spares :
      (hd : HazardDomain C) (ptr : ℕ) (reclaim : Option C) (slot p : ℕ)
      → get_or hd.in_use slot false ≡ true
      → get_or hd.hz_ptrs slot 0 ≡ p
      → p ≢ 0
      → Spares p (retire ptr reclaim hd).1
  unfolding retire
  retire-Spares hd ptr reclaim slot p used held ne =
      elim (Bool-cases (leb retire_batch_size (hd.count + 1))) [
        | inl e ↦ rw e (scan-Spares (enlist ptr reclaim hd) slot p used held ne)
        | inr e ↦ rw e tt
      ]

  abbrev pub HasReclaim : RetiredNode C → Type ℓ
  HasReclaim node = (c : C) × (node.reclaim ≡ some c)

  called_times-append :
      (p : ℕ) (xs ys : List (Call C))
      → called_times p (xs ++ ys) ≡ called_times p xs + called_times p ys
  called_times-append p [] ys = omega arith
  called_times-append p (x ∷ xs) ys = omega (arith, called_times-append p xs ys)

  called_times-reclaim_call :
      (p q : ℕ) (reclaim : Option C) {c : C}
      → reclaim ≡ some c
      → called_times p (reclaim_call reclaim q) ≡ (if q == p then 1 else 0)
  called_times-reclaim_call p q none e = absurd (cc)
  called_times-reclaim_call p q (some c) e = omega arith

  sweep_conserves :
      (hazards : List ℕ) (p : ℕ) (nodes : List (RetiredNode C))
      → All HasReclaim nodes
      → retired_times p (sweep hazards nodes).0 + called_times p (sweep hazards nodes).1
        ≡ retired_times p nodes
  unfolding sweep
  sweep_conserves hazards p [] h = refl
  sweep_conserves hazards p (node ∷ nodes) (here, rest) =
      elim (Bool-cases (contains hazards node.ptr)) [
        | inl e ↦ rw e (omega (arith, sweep_conserves hazards p nodes rest))
        | inr e ↦ rw e (
            omega (
              arith,
              sweep_conserves hazards p nodes rest,
              called_times-append p (reclaim_call node.reclaim node.ptr) (sweep hazards nodes).1,
              called_times-reclaim_call p node.ptr node.reclaim here.1,
            ))
      ]

  -- Where every retired node has a reclaim function, every retired pointer is reclaimed or kept, as
  -- often as it was retired: Scan loses none and reclaims none twice.
  pub scan_conserves :
      (hd : HazardDomain C) (p : ℕ)
      → All HasReclaim hd.retired
      → retired_times p (scan hd).0.retired + called_times p (scan hd).1
        ≡ retired_times p hd.retired
  unfolding scan
  scan_conserves hd p h = sweep_conserves (hazard_set hd.in_use hd.hz_ptrs) p hd.retired h

  abbrev pub IsHazardous : HazardDomain C → RetiredNode C → Type 0
  IsHazardous hd node = contains (hazard_set hd.in_use hd.hz_ptrs) node.ptr ≡ true

  sweep_keeps :
      (hazards : List ℕ) (nodes : List (RetiredNode C))
      → All (λ node. contains hazards node.ptr ≡ true) (sweep hazards nodes).0
  unfolding sweep
  sweep_keeps hazards [] = tt
  sweep_keeps hazards (node ∷ nodes) = elim (Bool-cases (contains hazards node.ptr)) [
    | inl e ↦ rw e (e, sweep_keeps hazards nodes)
    | inr e ↦ rw e (sweep_keeps hazards nodes)
  ]

  -- Where the count was the length of the list, after Retire it is again the length of the list, and either the list is shorter than a batch
  -- or every node that is left in it is protected.
  pub retire_backlog :
      (hd : HazardDomain C) (ptr : ℕ) (reclaim : Option C)
      → hd.count ≡ length hd.retired
      → ((retire ptr reclaim hd).0.count ≡ length (retire ptr reclaim hd).0.retired)
        × (((retire ptr reclaim hd).0.count < retire_batch_size)
            ⊎ All (IsHazardous hd) (retire ptr reclaim hd).0.retired)
  unfolding retire scan
  retire_backlog hd ptr reclaim h = elim (Bool-cases (leb retire_batch_size (hd.count + 1))) [
    | inl e ↦ rw e (refl, inr (sweep_keeps _ (hd.retired ++ _)))
    | inr e ↦ rw e (
      omega (
        arith,
        length-append hd.retired
            (record { ptr = ptr; reclaim = reclaim; seq = (hd.global_seq + 1) % 2 ^ 64 } ∷ []),
      ),
      inl (ground arith),
    )
  ]
