-- ===== src/Ringbuf/Versioned.antt =====
-- internal/ringbuf/tagged.go: VersionedRingBuffer, run by one goroutine at a time. A cell's
-- TaggedCell is never written after it is stored, so the slot holds it by value.
pub mod OneSlot
use wire_bonding_ultra.Prelude.{
  ℕ, zero, suc, ◌+◌, ◌-◌, ◌%◌, ◌^◌, ◌≤◌, ◌<◌, bit_and, ◌≡◌, ◌≢◌, refl, sym, ap, ◌∙◌, List, [], ◌∷◌,
  arith, Bool, true, false, not, Option, none, some, length, get_or, set, ltb, ◌==◌, if◌then◌else◌,
  All, replicate,
}
use wire_bonding_ultra.Ringbuf.Fifo.{Op, enqueue, dequeue}
use wire_bonding_ultra.Ringbuf.Tagged.{add64, ring_size}

-- `TaggedCell`. A pointer is a value of `P`.
pub record TaggedCell {ℓ} (P : Type ℓ) : Type ℓ where
  pub version : ℕ
  pub pointer : P
  pub reserved : ℕ

pub record VersionedRing {ℓ} (P : Type ℓ) : Type ℓ where
  pub cells : List (TaggedCell P)
  pub mask : ℕ
  pub enq_ver : ℕ
  pub enq_idx : ℕ
  pub deq_ver : ℕ
  pub deq_idx : ℕ

-- `int64(a) < int64(b)` for bit patterns `a` and `b`.
abbrev pub lt_int64 : ℕ → ℕ → Bool
lt_int64 a b = ltb ((a + 2 ^ 63) % 2 ^ 64) ((b + 2 ^ 63) % 2 ^ 64)

module _ {ℓ} {P : Type ℓ} (nil : P) where
  abbrev pub first_cells : ℕ → ℕ → List (TaggedCell P)
  first_cells zero i = []
  first_cells (suc n) i =
      record { version = 1; pointer = nil; reserved = i } ∷ first_cells n (i + 1)

  unfoldable pub new_versioned : ℕ → VersionedRing P
  new_versioned capacity =
      let sz = ring_size capacity in
      record {
        cells = first_cells sz 0;
        mask = sz - 1;
        enq_ver = 1;
        enq_idx = 0;
        deq_ver = 1;
        deq_idx = 0;
      }

  abbrev pub cell_at : VersionedRing P → ℕ → TaggedCell P
  cell_at vb pos =
      get_or vb.cells (bit_and pos vb.mask) (record { version = 0; pointer = nil; reserved = 0 })

  -- The store and the counter's step, once the compare-and-swap has succeeded.
  abbrev pub store_enqueued : VersionedRing P → P → ℕ → VersionedRing P
  store_enqueued vb ptr pos = record vb {
    cells =
        set vb.cells (bit_and pos vb.mask)
          (record { version = add64 pos 1; pointer = ptr; reserved = 0 });
    enq_idx = add64 pos 1;
  }

  abbrev pub store_dequeued : VersionedRing P → ℕ → VersionedRing P
  store_dequeued vb pos = record vb {
    cells =
        set vb.cells (bit_and pos vb.mask)
          (record { version = add64 (add64 pos vb.mask) 2; pointer = nil; reserved = 0 });
    deq_idx = add64 pos 1;
  }

  -- The `for` loops; `none` means that the fuel ran out.
  enqueue_versioned_loop : ℕ → VersionedRing P → P → ℕ → Option (Bool × VersionedRing P)
  enqueue_versioned_loop zero vb ptr pos = none
  enqueue_versioned_loop (suc fuel) vb ptr pos =
      let tc = cell_at vb pos in
      let again = enqueue_versioned_loop fuel vb ptr pos in
      let reload = enqueue_versioned_loop fuel vb ptr vb.enq_idx in
      if tc.version == add64 pos 1
      then (if vb.enq_idx == pos then some (true, store_enqueued vb ptr pos) else again)
      else if lt_int64 tc.version (add64 pos 1)
      then some (false, vb)
      else reload

  dequeue_versioned_loop : ℕ → VersionedRing P → ℕ → Option (P × Bool × VersionedRing P)
  dequeue_versioned_loop zero vb pos = none
  dequeue_versioned_loop (suc fuel) vb pos =
      let tc = cell_at vb pos in
      let again = dequeue_versioned_loop fuel vb pos in
      let reload = dequeue_versioned_loop fuel vb vb.deq_idx in
      if tc.version == add64 pos 2
      then (if vb.deq_idx == pos then some (tc.pointer, true, store_dequeued vb pos) else again)
      else if lt_int64 tc.version (add64 pos 2)
      then some (nil, false, vb)
      else reload

  unfoldable pub enqueue_versioned : ℕ → VersionedRing P → P → Option (Bool × VersionedRing P)
  unfolding enqueue_versioned_loop
  enqueue_versioned fuel vb ptr = enqueue_versioned_loop fuel vb ptr vb.enq_idx

  unfoldable pub dequeue_versioned : ℕ → VersionedRing P → Option (P × Bool × VersionedRing P)
  unfolding dequeue_versioned_loop
  dequeue_versioned fuel vb = dequeue_versioned_loop fuel vb vb.deq_idx

  -- A client's calls in order, with what each returns.
  unfoldable pub run : ℕ → VersionedRing P → List (Op P) → Option (List (P × Bool))
  run fuel vb [] = some []
  run fuel vb (enqueue x ∷ ops) = elim (enqueue_versioned fuel vb x) [
    | none ↦ none
    | some (done, vb') ↦ elim (run fuel vb' ops) [
      | none ↦ none
      | some out ↦ some ((nil, done) ∷ out)
    ]
  ]
  run fuel vb (dequeue ∷ ops) = elim (dequeue_versioned fuel vb) [
    | none ↦ none
    | some (x, done, vb') ↦ elim (run fuel vb' ops) [
      | none ↦ none
      | some out ↦ some ((x, done) ∷ out)
    ]
  ]

  -- The answers of a slot that takes one pointer and never gives it back.
  unfoldable pub one_slot : Bool → List (Op P) → List (P × Bool)
  one_slot used [] = []
  one_slot used (enqueue x ∷ ops) = (nil, not used) ∷ one_slot true ops
  one_slot used (dequeue ∷ ops) = (nil, false) ∷ one_slot used ops
