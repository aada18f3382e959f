-- ===== src/Ringbuf/SafeQueue.antt =====
-- internal/ringbuf/hazard.go: SafeQueue, a VersionedRingBuffer of pointers beside a HazardDomain.
-- Capacity forwards to the ring.
use wire_bonding_ultra.Prelude.{
  ℕ, ◌≡◌, ◌≢◌, refl, ap, ◌∙◌, List, [], arith, Bool, true, false, Option, none, some, length,
  get_or, Option-cases, inl, inr,
}
use wire_bonding_ultra.Ringbuf.Versioned.{
  VersionedRing, new_versioned, enqueue_versioned, dequeue_versioned,
}
use wire_bonding_ultra.Ringbuf.Hazard.{
  HazardDomain, HazardGuard, Call, acquire, protect, clear, release, retire, reclaim_call,
}
use wire_bonding_ultra.Ringbuf.Hazard.Guard.{acquire-Acquired, release-acquire, clear-protect}

pub record SafeQueue {ℓ} (C : Type ℓ) : Type ℓ where
  pub vb : VersionedRing ℕ
  pub domain : HazardDomain C

-- Acquire may panic, and the ring's loop may still spin when its fuel is used up.
pub data Outcome {ℓ} (A : Type ℓ) : Type ℓ where
  panicked spinning : Outcome A
  returned : A → Outcome A

module _ {ℓ} {C : Type ℓ} where
  -- EnqueueSafe, with the calls of the reclaim function; Enqueue passes no function.
  unfoldable pub enqueue_safe :
      ℕ → SafeQueue C → ℕ → Option C → Outcome (Bool × List (Call C) × SafeQueue C)
  enqueue_safe fuel sq ptr reclaim = elim (enqueue_versioned 0 fuel sq.vb ptr) [
    | none ↦ spinning
    | some (true, vb') ↦ returned (true, [], record sq { vb = vb' })
    | some (false, vb') ↦ returned (false, reclaim_call reclaim ptr, record sq { vb = vb' })
  ]

  -- `domain` is the global one.
  unfoldable pub new_safe_queue : ℕ → HazardDomain C → SafeQueue C
  new_safe_queue capacity domain = record { vb = new_versioned 0 capacity; domain = domain }

  abbrev with_ring {κ} :
      {B : Type κ} → SafeQueue C → Option (B × VersionedRing ℕ) → Outcome (B × SafeQueue C)
  with_ring sq none = spinning
  with_ring sq (some (b, vb')) = returned (b, record sq { vb = vb' })

  unfoldable pub enqueue : ℕ → SafeQueue C → ℕ → Outcome (Bool × SafeQueue C)
  enqueue fuel sq ptr = with_ring sq (enqueue_versioned 0 fuel sq.vb ptr)

  unfoldable pub dequeue_safe : ℕ → SafeQueue C → Outcome (ℕ × Bool × SafeQueue C)
  dequeue_safe fuel sq = elim (dequeue_versioned 0 fuel sq.vb) [
    | none ↦ spinning
    | some (ptr, found, vb') ↦ returned (ptr, found, record sq { vb = vb' })
  ]

  unfoldable pub retire_node : ℕ → Option C → SafeQueue C → SafeQueue C × List (Call C)
  retire_node ptr reclaim sq =
      let (domain, calls) = retire ptr reclaim sq.domain in (record sq { domain = domain }, calls)

  -- What Dequeue does with the guard once the ring has answered.
  abbrev finish_dequeue :
      HazardGuard
      → HazardDomain C
      → Option (ℕ × Bool × VersionedRing ℕ)
      → Outcome (ℕ × Bool × SafeQueue C)
  finish_dequeue hg hd none = spinning
  finish_dequeue hg hd (some (ptr, false, vb')) =
      returned (0, false, record { vb = vb'; domain = release hg hd })
  finish_dequeue hg hd (some (ptr, true, vb')) =
      let (hg', hd') = protect hg ptr hd in
      let (hg'', hd'') = clear hg' hd' in
      returned (ptr, true, record { vb = vb'; domain = release hg'' hd'' })

  unfoldable pub dequeue : ℕ → SafeQueue C → Outcome (ℕ × Bool × SafeQueue C)
  dequeue fuel sq = elim (acquire sq.domain) [
    | none ↦ panicked
    | some (hg, hd) ↦ finish_dequeue hg hd (dequeue_versioned 0 fuel sq.vb)
  ]

  -- A slot that is free holds nil.
  pub record IsTidy (hd : HazardDomain C) : Type ℓ where
    pub same_length : length hd.hz_ptrs ≡ length hd.in_use
    pub free_is_nil : (i : ℕ) → get_or hd.in_use i false ≡ false → get_or hd.hz_ptrs i 0 ≡ 0

  -- The part of the answer that does not depend on the domain.
  abbrev pub ring_answer :
      Option (ℕ × Bool × VersionedRing ℕ) → HazardDomain C → Outcome (ℕ × Bool × SafeQueue C)
  ring_answer none hd = spinning
  ring_answer (some (ptr, false, vb')) hd = returned (0, false, record { vb = vb'; domain = hd })
  ring_answer (some (ptr, true, vb')) hd = returned (ptr, true, record { vb = vb'; domain = hd })

  finish_dequeue_lem :
      (hd : HazardDomain C) {hg : HazardGuard} {hd' : HazardDomain C}
      (out : Option (ℕ × Bool × VersionedRing ℕ))
      → IsTidy hd
      → acquire hd ≡ some (hg, hd')
      → finish_dequeue hg hd' out ≡ ring_answer out hd
  unfolding clear protect release
  finish_dequeue_lem hd none t e = refl
  finish_dequeue_lem hd {hg} {hd'} (some (ptr, false, vb')) t e =
      let a = acquire-Acquired hd e in
      ap (λ d. returned (0, false, record { vb = vb'; domain = d }))
        (release-acquire hd t.same_length e (t.free_is_nil hg.slot a.was_free))
  finish_dequeue_lem hd {hg} {hd'} (some (ptr, true, vb')) t e =
      let a = acquire-Acquired hd e in
      ap (λ d. returned (ptr, true, record { vb = vb'; domain = d }))
        (ap (release hg) (
            clear-protect hd' hg ptr
              (omega (arith, a.in_range, t.same_length, ap (λ d. length d.hz_ptrs) a.rest_kept)))
          ∙ release-acquire hd t.same_length e (t.free_is_nil hg.slot a.was_free))

  -- Where a slot is free, and every free slot holds nil, Dequeue answers what the ring answers and
  -- leaves the domain as it found it: nothing stays protected once it has returned.
  pub dequeue_leaves_domain :
      (fuel : ℕ) (sq : SafeQueue C)
      → IsTidy sq.domain
      → acquire sq.domain ≢ none
      → dequeue fuel sq ≡ ring_answer (dequeue_versioned 0 fuel sq.vb) sq.domain
  unfolding dequeue
  dequeue_leaves_domain fuel sq t free = elim (Option-cases (acquire sq.domain)) [
    | inl e ↦ absurd (free e)
    | inr ((hg, hd), e) ↦ rw (e, dequeue) (finish_dequeue_lem sq.domain _ t e)
  ]
