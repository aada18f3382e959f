-- ===== src/Ringbuf/Batch.antt =====
-- internal/ringbuf/tagged.go: BatchRingBuffer, whose one field is the ring that it forwards to, and
-- ValidateIntegrity.
use wire_bonding_ultra.Prelude.{
  ℕ, zero, suc, ◌+◌, ◌-◌, ◌≤◌, ◌≡◌, refl, List, [], ◌∷◌, ◌++◌, arith, true, false, ◌&&◌, Option,
  none, some, length, take, drop, min, get_elem?, ltb, if◌then◌else◌, append-nil, append_assoc,
  length-append, ◌∙◌, inl, inr, Option-cases, get_elem?-ne-none, take-nil, drop-nil, subst,
}
use native.Mathlib.Nat.{zero-add}
use wire_bonding_ultra.Ringbuf.Fifo
use wire_bonding_ultra.Ringbuf.Tagged.{Cell, TaggedRing, try_enqueue, try_dequeue, add64}
use wire_bonding_ultra.Ringbuf.Tagged.Inv.{Represents}
use wire_bonding_ultra.Ringbuf.Tagged.Refine.{Enqueued, try_enqueue_refines, try_dequeue_refines}

module _ {ℓ} {A : Type ℓ} (z : A) where
  -- EnqueueBatch: the list is `vals` from index `i` on; the count comes first.
  enqueue_batch_from : ℕ → TaggedRing A → List A → ℕ → Option (ℕ × TaggedRing A)
  enqueue_batch_from fuel rb [] i = some (i, rb)
  enqueue_batch_from fuel rb (v ∷ vals) i = elim (try_enqueue z fuel rb v) [
    | none ↦ none
    | some (false, rb') ↦ some (i, rb')
    | some (true, rb') ↦ enqueue_batch_from fuel rb' vals (i + 1)
  ]

  unfoldable pub enqueue_batch : ℕ → TaggedRing A → List A → Option (ℕ × TaggedRing A)
  unfolding enqueue_batch_from
  enqueue_batch fuel rb vals = enqueue_batch_from fuel rb vals 0

  -- What DequeueBatch leaves in `dst` from the index on, with the count and the ring.
  abbrev put_first : A → Option (ℕ × List A × TaggedRing A) → Option (ℕ × List A × TaggedRing A)
  put_first x none = none
  put_first x (some (n, dst, rb)) = some (n, x ∷ dst, rb)

  dequeue_batch_from : ℕ → TaggedRing A → List A → ℕ → Option (ℕ × List A × TaggedRing A)
  dequeue_batch_from fuel rb [] i = some (i, [], rb)
  dequeue_batch_from fuel rb (d ∷ dst) i = elim (try_dequeue z fuel rb) [
    | none ↦ none
    | some (x, false, rb') ↦ some (i, d ∷ dst, rb')
    | some (x, true, rb') ↦ put_first x (dequeue_batch_from fuel rb' dst (i + 1))
  ]

  unfoldable pub dequeue_batch : ℕ → TaggedRing A → List A → Option (ℕ × List A × TaggedRing A)
  unfolding dequeue_batch_from
  dequeue_batch fuel rb dst = dequeue_batch_from fuel rb dst 0

-- The result of ValidateIntegrity: nil, or the error with the cell's index and sequence number.
pub data Integrity : Type 0 where
  intact out_of_range : Integrity
  corrupted : ℕ → ℕ → Integrity

module _ {ℓ} {A : Type ℓ} where
  -- `n` cells are left to look at, from index `i` on.
  validate_from : ℕ → ℕ → List (Cell A) → ℕ → ℕ → Integrity
  validate_from enq deq cells zero i = intact
  validate_from enq deq cells (suc n) i =
      let rest = validate_from enq deq cells n (i + 1) in
      elim (get_elem? cells i) [
        | none ↦ out_of_range
        | some c ↦ if ltb c.sequence deq && ltb enq c.sequence then corrupted i c.sequence else rest
      ]

  unfoldable pub validate_integrity : TaggedRing A → Integrity
  unfolding validate_from
  validate_integrity rb = validate_from rb.enq_pos rb.deq_pos rb.cells (add64 rb.mask 1) 0

-- What a batch did, from a state of the ring that holds `q`.
pub record BatchDone {ℓ} {A : Type ℓ} (z : A) (rb : TaggedRing A) (out : Option (ℕ × TaggedRing A))
    (count : ℕ) (q : List A) : Type ℓ where
  pub after : TaggedRing A
  pub head' : ℕ
  pub answer : out ≡ some (count, after)
  pub holds : Represents z after head' q
  pub same_mask : after.mask ≡ rb.mask

pub record BatchTaken {ℓ} {A : Type ℓ} (z : A) (rb : TaggedRing A)
    (out : Option (ℕ × List A × TaggedRing A)) (count : ℕ) (dst q : List A) : Type ℓ where
  pub after : TaggedRing A
  pub head' : ℕ
  pub answer : out ≡ some (count, dst, after)
  pub holds : Represents z after head' q
  pub same_mask : after.mask ≡ rb.mask

-- The scan finds nothing where the dequeue position is not past the enqueue position.
validate_from_blind {ℓ} :
    {A : Type ℓ} (enq deq : ℕ) (cells : List (Cell A)) (n i : ℕ)
    → deq ≤ enq
    → n + i ≤ length cells
    → validate_from enq deq cells n i ≡ intact
unfolding validate_from
validate_from_blind enq deq cells zero i h le = refl
validate_from_blind {A} enq deq cells (suc n) i h le = elim (Option-cases (get_elem? cells i)) [
  | inl e ↦ absurd (get_elem?-ne-none cells i (omega arith) e)
  | inr (c, e) ↦ ground (arith, e, validate_from_blind enq deq cells n (i + 1) h (omega arith))
]

module _ {ℓ} {A : Type ℓ} {z : A} where
  -- `room` is the number of free cells.
  enqueue_batch_from_lem :
      (fuel : ℕ) (vals : List A) (i room : ℕ) {rb : TaggedRing A} {head : ℕ} (q : List A)
      → Represents z rb head q
      → length q + room ≡ rb.mask + 1
      → BatchDone z rb
          (enqueue_batch_from z (suc fuel) rb vals i)
          (i + min (length vals) room)
          (q ++ take room vals)
  unfolding enqueue_batch_from
  enqueue_batch_from_lem fuel [] i room {rb} {head} q v e = record {
    after = rb;
    head' = head;
    answer = ground arith;
    holds = rw (take-nil room, append-nil) v;
    same_mask = refl;
  }
  enqueue_batch_from_lem fuel (x ∷ vals) i zero {rb} {head} q v e =
      let r =
        subst (λ w. Enqueued z rb head (try_enqueue z (suc fuel) rb x) w)
          (Fifo.push_full z (rb.mask + 1) q x (omega arith)) (try_enqueue_refines fuel x v) in
      record {
        after = r.after;
        head' = head;
        answer = ground (arith, r.answer);
        holds = rw append-nil r.holds;
        same_mask = r.same_mask;
      }
  enqueue_batch_from_lem fuel (x ∷ vals) i (suc room) {rb} {head} q v e =
      let r =
        subst (λ w. Enqueued z rb head (try_enqueue z (suc fuel) rb x) w)
          (Fifo.push_room z (rb.mask + 1) q x (omega arith)) (try_enqueue_refines fuel x v) in
      let rest =
        enqueue_batch_from_lem fuel vals (i + 1) room (q ++ (x ∷ [])) r.holds
          (omega (arith, r.same_mask, length-append q (x ∷ []))) in
      record {
        after = rest.after;
        head' = rest.head';
        answer = ground (arith, r.answer, rest.answer);
        holds = rw (← append_assoc q (x ∷ []) (take room vals)) rest.holds;
        same_mask = rest.same_mask ∙ r.same_mask;
      }

  dequeue_batch_from_lem :
      (fuel : ℕ) (dst : List A) (i : ℕ) {rb : TaggedRing A} {head : ℕ} (q : List A)
      → Represents z rb head q
      → BatchTaken z rb
          (dequeue_batch_from z (suc fuel) rb dst i)
          (i + min (length dst) (length q))
          (take (length dst) q ++ drop (length q) dst)
          (drop (length dst) q)
  unfolding dequeue_batch_from Fifo.pop
  dequeue_batch_from_lem fuel [] i {rb} {head} q v = record {
    after = rb;
    head' = head;
    answer = rw (drop-nil (length q)) (ground arith);
    holds = v;
    same_mask = refl;
  }
  dequeue_batch_from_lem fuel (d ∷ dst) i {rb} {head} [] v =
      let r = try_dequeue_refines fuel [] v in
      record {
        after = r.after;
        head' = r.head';
        answer = ground (arith, r.answer);
        holds = r.holds;
        same_mask = r.same_mask;
      }
  dequeue_batch_from_lem fuel (d ∷ dst) i {rb} {head} (x ∷ q) v =
      let r = try_dequeue_refines fuel (x ∷ q) v in
      let rest = dequeue_batch_from_lem fuel dst (i + 1) q r.holds in
      record {
        after = rest.after;
        head' = rest.head';
        answer = ground (arith, r.answer, rest.answer);
        holds = rest.holds;
        same_mask = rest.same_mask ∙ r.same_mask;
      }

  -- On a valid ring EnqueueBatch appends as many of the values as there are free cells, in order, and returns their
  -- number.
  pub enqueue_batch_refines :
      (fuel : ℕ) (vals : List A) {rb : TaggedRing A} {head : ℕ} (q : List A)
      → Represents z rb head q
      → BatchDone z rb
          (enqueue_batch z (suc fuel) rb vals)
          (min (length vals) (rb.mask + 1 - length q))
          (q ++ take (rb.mask + 1 - length q) vals)
  unfolding enqueue_batch
  enqueue_batch_refines fuel vals {rb} q v =
      rw (← zero-add (min (length vals) (rb.mask + 1 - length q)))
        (enqueue_batch_from_lem fuel vals 0 (rb.mask + 1 - length q) q v (omega arith))

  -- On a valid ring DequeueBatch moves as many values as fit into the front of `dst`, oldest first, keeps the rest
  -- of `dst`, and returns their number.
  pub dequeue_batch_refines :
      (fuel : ℕ) (dst : List A) {rb : TaggedRing A} {head : ℕ} (q : List A)
      → Represents z rb head q
      → BatchTaken z rb
          (dequeue_batch z (suc fuel) rb dst)
          (min (length dst) (length q))
          (take (length dst) q ++ drop (length q) dst)
          (drop (length dst) q)
  unfolding dequeue_batch
  dequeue_batch_refines fuel dst q v =
      rw (← zero-add (min (length dst) (length q))) (dequeue_batch_from_lem fuel dst 0 q v)

-- While the dequeue position is not past the enqueue position and the ring has its cells,
-- ValidateIntegrity answers nil, whatever sequence numbers the cells hold.
pub validate_integrity_blind {ℓ} :
    {A : Type ℓ} (rb : TaggedRing A)
    → rb.deq_pos ≤ rb.enq_pos
    → add64 rb.mask 1 ≤ length rb.cells
    → validate_integrity rb ≡ intact
unfolding validate_integrity
validate_integrity_blind rb h le =
    validate_from_blind rb.enq_pos rb.deq_pos rb.cells (add64 rb.mask 1) 0 h (omega arith)
