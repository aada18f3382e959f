-- ===== src/Ringbuf/Tests.antt =====
-- Concrete runs of the rings, the hazard pointers and the pool.
use wire_bonding_ultra.Prelude.{
  ℕ, zero, suc, ◌+◌, ◌-◌, ◌*◌, ◌≤◌, ◌<◌, min, ◌≡◌, ◌≢◌, refl, ◌⊎◌, List, [], ◌∷◌, ◌++◌, arith, Bool,
  true, false, none, some, length, max, get_or, take, drop, All,
}
use wire_bonding_ultra.Ringbuf.Fifo
use wire_bonding_ultra.Ringbuf.Fifo.{Op, enqueue, dequeue}
use wire_bonding_ultra.Ringbuf.Tagged.{new_cell, TaggedRing, new_tagged, try_enqueue, run}
use wire_bonding_ultra.Ringbuf.Tagged.Inv.{Represents}
use wire_bonding_ultra.Ringbuf.Tagged.Refine.{Enqueued, try_enqueue_refines, run_refines}
use wire_bonding_ultra.Ringbuf.Tagged.Init.{new_tagged-Represents}
use wire_bonding_ultra.Ringbuf.Batch.{
  BatchDone, BatchTaken, enqueue_batch, dequeue_batch, intact, validate_integrity,
  enqueue_batch_refines, dequeue_batch_refines, validate_integrity_blind,
}
use wire_bonding_ultra.Ringbuf.Versioned
use wire_bonding_ultra.Ringbuf.Versioned.OneSlot.{versioned_takes_one}
use wire_bonding_ultra.Ringbuf.Hazard.{
  HazardDomain, HazardGuard, first_free, acquire, scan, retire, retire_batch_size,
}
use wire_bonding_ultra.Ringbuf.Hazard.Guard.{Acquired, acquire_cases}
use wire_bonding_ultra.Ringbuf.Hazard.Scan.{
  Spares, retired_times, called_times, IsHazardous, scan-Spares, scan_conserves, retire_backlog,
}
use wire_bonding_ultra.Ringbuf.Hazard.Pool.{
  into_pool, HazardPool, alloc, apply_calls, free, times, free_spares, alloc-reclaimed,
}
use wire_bonding_ultra.Ringbuf.SafeQueue.{SafeQueue, IsTidy, ring_answer, dequeue_leaves_domain}
use wire_bonding_ultra.Ringbuf.SafeQueue as Safe

abbrev two_slots : TaggedRing ℕ
two_slots = new_tagged 0 2

two_slots-Represents : Represents 0 two_slots 0 []
two_slots-Represents = (new_tagged-Represents 0 2 (omega arith)).0

abbrev calls : List (Op ℕ)
calls = enqueue 7 ∷ enqueue 8 ∷ enqueue 9 ∷ dequeue ∷ dequeue ∷ dequeue ∷ []

run_refines_example : run 0 1 two_slots calls ≡ some (Fifo.run 0 (two_slots.mask + 1) [] calls)
run_refines_example = run_refines 0 calls [] two_slots-Represents

-- The queue's own answers to these calls.
answers :
    Fifo.run 0 2 [] calls
    ≡ (0, true) ∷ (0, true) ∷ (0, false) ∷ (7, true) ∷ (8, true) ∷ (0, false) ∷ []
unfolding Fifo.run Fifo.push Fifo.pop
answers = refl

one_queued :
    Enqueued 0 two_slots 0 (try_enqueue 0 1 two_slots 7) (Fifo.push 0 (two_slots.mask + 1) [] 7)
one_queued = try_enqueue_refines 0 7 two_slots-Represents

abbrev queued : List ℕ
queued = (Fifo.push 0 (two_slots.mask + 1) [] 7).1

abbrev five_asked : TaggedRing ℕ
five_asked = new_tagged 0 5

new_tagged-Represents_example :
    Represents 0 five_asked 0 []
    × (max 5 2 ≤ five_asked.mask + 1)
    × (five_asked.mask + 1 < 2 * max 5 2)
new_tagged-Represents_example = new_tagged-Represents 0 5 (omega arith)

enqueue_batch_refines_example :
    BatchDone 0 two_slots
      (enqueue_batch 0 1 two_slots (7 ∷ 8 ∷ 9 ∷ []))
      (min 3 (two_slots.mask + 1 - 0))
      ([] ++ take (two_slots.mask + 1 - 0) (7 ∷ 8 ∷ 9 ∷ []))
enqueue_batch_refines_example = enqueue_batch_refines 0 (7 ∷ 8 ∷ 9 ∷ []) [] two_slots-Represents

dequeue_batch_refines_example :
    (let q = queued in
      BatchTaken 0 one_queued.after
        (dequeue_batch 0 1 one_queued.after (1 ∷ 2 ∷ []))
        (min 2 (length q))
        (take 2 q ++ drop (length q) (1 ∷ 2 ∷ []))
        (drop 2 q))
dequeue_batch_refines_example = dequeue_batch_refines 0 (1 ∷ 2 ∷ []) queued one_queued.holds

-- No call sequence leads to these sequence numbers.
abbrev broken : TaggedRing ℕ
broken = record { mask = 1; cells = new_cell 9 0 ∷ new_cell 9 0 ∷ []; enq_pos = 1; deq_pos = 0 }

validate_integrity_blind_example : validate_integrity broken ≡ intact
validate_integrity_blind_example = validate_integrity_blind broken (omega arith) (omega arith)

versioned_takes_one_example :
    Versioned.run 0 1 (Versioned.new_versioned 0 4) calls ≡ some (Versioned.one_slot 0 false calls)
versioned_takes_one_example = versioned_takes_one 0 0 4 calls (omega arith)

ne5 : ◌≢◌ {A = ℕ} 5 0
ne5 e = omega (arith, e)

-- Slot 0 protects 5; both 5 and 6 are retired.
abbrev busy : HazardDomain ℕ
busy = record {
  hz_ptrs = 5 ∷ 0 ∷ [];
  in_use = true ∷ false ∷ [];
  global_seq = 2;
  retired =
      record { ptr = 5; reclaim = some 1; seq = 1 }
      ∷ record { ptr = 6; reclaim = some 2; seq = 2 }
      ∷ [];
  count = 2;
}

scan-Spares_example : Spares 5 (scan busy).1
scan-Spares_example = scan-Spares busy 0 5 refl refl ne5

scan_conserves_example :
    retired_times 6 (scan busy).0.retired + called_times 6 (scan busy).1
    ≡ retired_times 6 busy.retired
scan_conserves_example = scan_conserves busy 6 ((1, refl), ((2, refl), tt))

retire_backlog_example :
    ((retire 7 none busy).0.count ≡ length (retire 7 none busy).0.retired)
    × (((retire 7 none busy).0.count < retire_batch_size)
        ⊎ All (IsHazardous busy) (retire 7 none busy).0.retired)
retire_backlog_example = retire_backlog busy 7 none refl

acquire_cases_example :
    ((acquire busy ≡ none) × All (λ u. u ≡ true) busy.in_use)
    ⊎ ((hg : HazardGuard) × (hd' : HazardDomain ℕ) × (acquire busy ≡ some (hg, hd'))
        × Acquired busy hg hd')
acquire_cases_example = acquire_cases busy

-- Two free slots.
abbrev idle : List Bool → HazardDomain ℕ
idle used = record { hz_ptrs = 0 ∷ 0 ∷ []; in_use = used; global_seq = 0; retired = []; count = 0 }

abbrev guard_of : ℕ → HazardGuard
guard_of i = record { slot = i; prev = 0 }

acquire_first : acquire (idle (false ∷ false ∷ [])) ≡ some (guard_of 0, idle (true ∷ false ∷ []))
unfolding acquire first_free
acquire_first = refl

acquire_second : acquire (idle (true ∷ false ∷ [])) ≡ some (guard_of 1, idle (true ∷ true ∷ []))
unfolding acquire first_free
acquire_second = refl

abbrev pool : HazardPool
pool = record {
  pools = λ s. [];
  domain = record {
    hz_ptrs = 5 ∷ [];
    in_use = true ∷ [];
    global_seq = 0;
    retired = record { ptr = 5; reclaim = some (into_pool 16); seq = 1 } ∷ [];
    count = 1;
  };
}

free_spares_example : times 5 ((free 6 16 pool).pools 16) ≡ times 5 (pool.pools 16)
free_spares_example = free_spares pool 6 16 0 5 16 refl refl ne5

alloc-reclaimed_example :
    (after : HazardPool) × (alloc 9 16
        (record pool { pools = apply_calls pool.pools ((into_pool 16, 6) ∷ []) })
      ≡ some (6, after))
    × (after.pools 16 ≡ pool.pools 16)
alloc-reclaimed_example = alloc-reclaimed 9 16 6 16 pool

nil_slots : (i : ℕ) → get_or {A = ℕ} (0 ∷ 0 ∷ []) i 0 ≡ 0
nil_slots zero = refl
nil_slots (suc zero) = refl
nil_slots (suc (suc i)) = refl

abbrev safe_queue : SafeQueue ℕ
safe_queue = record { vb = Versioned.new_versioned 0 2; domain = idle (false ∷ false ∷ []) }

safe_queue-IsTidy : IsTidy safe_queue.domain
safe_queue-IsTidy = record { same_length = refl; free_is_nil = λ i h. nil_slots i }

slot_is_free : acquire safe_queue.domain ≢ none
slot_is_free e = absurd (cc (acquire_first, e))

dequeue_leaves_domain_example :
    Safe.dequeue 1 safe_queue
    ≡ ring_answer (Versioned.dequeue_versioned 0 1 safe_queue.vb) safe_queue.domain
dequeue_leaves_domain_example = dequeue_leaves_domain 1 safe_queue safe_queue-IsTidy slot_is_free
