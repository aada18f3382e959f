-- ===== src/Ringbuf/Versioned/OneSlot.antt =====
-- A new VersionedRingBuffer is stuck after its first pointer: its cells start at version 1, where
-- the loops look for `pos + 1` and `pos + 2`.
use wire_bonding_ultra.Prelude.{
  ℕ, zero, suc, ◌+◌, ◌-◌, ◌^◌, ◌≤◌, ◌<◌, bit_and, ◌≡◌, refl, ap, ◌∙◌, List, [], ◌∷◌, arith, Bool,
  true, false, some, get_or, set, if◌then◌else◌,
}
use wire_bonding_ultra.Prelude.Bits.{bit_and-mask}
use wire_bonding_ultra.Ringbuf.Fifo.{Op, enqueue, dequeue}
use wire_bonding_ultra.Ringbuf.Tagged.{add64, ring_size}
use wire_bonding_ultra.Ringbuf.Tagged.Pow2.{ring_size_least}
use wire_bonding_ultra.Ringbuf.Versioned.{
  TaggedCell, VersionedRing, cell_at, store_enqueued, first_cells, new_versioned, enqueue_versioned,
  dequeue_versioned, run, one_slot,
}
use native.Mathlib.Nat.{mod-lt}

module _ {ℓ} {P : Type ℓ} (nil : P) where
  -- Both cells that the loops look at are at version 1, and nothing was dequeued.
  record IsStuck (vb : VersionedRing P) (used : Bool) : Type ℓ where
    at_zero : (cell_at nil vb 0).version ≡ 1
    at_one : (cell_at nil vb 1).version ≡ 1
    not_dequeued : vb.deq_idx ≡ 0
    enqueued : vb.enq_idx ≡ (if used then 1 else 0)

  dequeue_stuck :
      (fuel : ℕ) (vb : VersionedRing P) (used : Bool)
      → IsStuck vb used
      → dequeue_versioned nil (suc fuel) vb ≡ some (nil, false, vb)
  unfolding dequeue_versioned
  dequeue_stuck fuel vb used s =
      ground
        (arith, s.not_dequeued, ap (λ p. (cell_at nil vb p).version) s.not_dequeued ∙ s.at_zero)

  enqueue_used :
      (fuel : ℕ) (vb : VersionedRing P) (x : P)
      → IsStuck vb true
      → enqueue_versioned nil (suc fuel) vb x ≡ some (false, vb)
  unfolding enqueue_versioned
  enqueue_used fuel vb x s =
      ground (arith, s.enqueued, ap (λ p. (cell_at nil vb p).version) s.enqueued ∙ s.at_one)

  enqueue_first :
      (fuel : ℕ) (vb : VersionedRing P) (x : P)
      → IsStuck vb false
      → enqueue_versioned nil (suc fuel) vb x ≡ some (true, store_enqueued nil vb x vb.enq_idx)
  unfolding enqueue_versioned
  enqueue_first fuel vb x s =
      ground (arith, s.enqueued, ap (λ p. (cell_at nil vb p).version) s.enqueued ∙ s.at_zero)

  version-set :
      (cells : List (TaggedCell P)) (i j : ℕ) (c d : TaggedCell P)
      → c.version ≡ 1
      → (get_or cells j d).version ≡ 1
      → (get_or (set cells i c) j d).version ≡ 1
  version-set [] i j c d e h = h
  version-set (b ∷ cells) zero zero c d e h = e
  version-set (b ∷ cells) zero (suc j) c d e h = h
  version-set (b ∷ cells) (suc i) zero c d e h = h
  version-set (b ∷ cells) (suc i) (suc j) c d e h = version-set cells i j c d e h

  first-IsStuck :
      (vb : VersionedRing P) (x : P)
      → IsStuck vb false
      → IsStuck (store_enqueued nil vb x vb.enq_idx) true
  first-IsStuck vb x s = record {
    at_zero = version-set vb.cells _ _ _ _ fresh s.at_zero;
    at_one = version-set vb.cells _ _ _ _ fresh s.at_one;
    not_dequeued = s.not_dequeued;
    enqueued = fresh;
  }
    where
      fresh : add64 vb.enq_idx 1 ≡ 1
      fresh = omega (arith, s.enqueued)

  run_stuck :
      (fuel : ℕ) (used : Bool) (vb : VersionedRing P) (ops : List (Op P))
      → IsStuck vb used
      → run nil (suc fuel) vb ops ≡ some (one_slot nil used ops)
  unfolding run one_slot
  run_stuck fuel used vb [] s = refl
  run_stuck fuel used vb (dequeue ∷ ops) s =
      ground (arith, dequeue_stuck fuel vb used s, run_stuck fuel used vb ops s)
  run_stuck fuel true vb (enqueue x ∷ ops) s =
      ground (arith, enqueue_used fuel vb x s, run_stuck fuel true vb ops s)
  run_stuck fuel false vb (enqueue x ∷ ops) s = ground (
    arith,
    enqueue_first fuel vb x s,
    run_stuck fuel true (store_enqueued nil vb x vb.enq_idx) ops (first-IsStuck vb x s),
  )

  version-first_cells :
      (n i j : ℕ) (d : TaggedCell P) → j < n → (get_or (first_cells nil n i) j d).version ≡ 1
  version-first_cells zero i j d h = absurd (omega arith)
  version-first_cells (suc n) i zero d h = refl
  version-first_cells (suc n) i (suc j) d h = version-first_cells n (i + 1) j d (omega arith)

  new-IsStuck : (c : ℕ) → c ≤ 2 ^ 63 → IsStuck (new_versioned nil c) false
  unfolding new_versioned
  new-IsStuck c h =
      let (n, some_bits, few, e, above, near) = ring_size_least c h in
      let at : (i : ℕ) → i < 2 → bit_and i (ring_size c - 1) < ring_size c = λ i small. omega (
        arith,
        e,
        above,
        ap (λ t. bit_and i (t - 1)) e ∙ bit_and-mask n i,
        mod-lt i {m = 2 ^ n} (omega (arith, above)),
      ) in
      record {
        at_zero = version-first_cells (ring_size c) 0 _ _ (at 0 (omega arith));
        at_one = version-first_cells (ring_size c) 0 _ _ (at 1 (omega arith));
        not_dequeued = refl;
        enqueued = refl;
      }

  -- A new VersionedRingBuffer takes one pointer: in every sequence of calls the first enqueue
  -- answers true and every later one false, and every dequeue answers nil and false.
  pub versioned_takes_one :
      (fuel c : ℕ) (ops : List (Op P))
      → c ≤ 2 ^ 63
      → run nil (suc fuel) (new_versioned nil c) ops ≡ some (one_slot nil false ops)
  versioned_takes_one fuel c ops h =
      run_stuck fuel false (new_versioned nil c) ops (new-IsStuck c h)
