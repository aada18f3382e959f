-- ===== src/Ringbuf/Tagged/Refine.antt =====
-- A valid ring answers as the bounded queue of the values that it holds.
use wire_bonding_ultra.Prelude.{
  ℕ, suc, ◌+◌, ◌^◌, ◌≤◌, ◌<◌, ◌≡◌, refl, sym, ap, List, [], ◌∷◌, ◌++◌, arith, Bool, Option, some,
  length, ==_iff, dec_lt, subst,
}
use wire_bonding_ultra.Ringbuf.Fifo
use wire_bonding_ultra.Ringbuf.Fifo.{Op, enqueue, dequeue}
use wire_bonding_ultra.Ringbuf.Tagged.{
  TaggedRing, cell_of, add64, sub64, publish, release, enqueue_loop, dequeue_loop, try_enqueue,
  try_dequeue, run,
}
use wire_bonding_ultra.Prelude.{ne→==false}
use wire_bonding_ultra.Ringbuf.Tagged.Inv.{
  Represents, index_round, front_cell, publish-Represents, release-Represents,
}
use native.Mathlib.Nat.{pow-le-pow_right, add-zero}

-- What a call of the ring did, against what it should answer.
pub record Enqueued {ℓ} {A : Type ℓ} (z : A) (rb : TaggedRing A) (head : ℕ)
    (out : Option (Bool × TaggedRing A)) (want : Bool × List A) : Type ℓ where
  pub after : TaggedRing A
  pub answer : out ≡ some (want.0, after)
  pub holds : Represents z after head want.1
  pub same_mask : after.mask ≡ rb.mask

pub record Dequeued {ℓ} {A : Type ℓ} (z : A) (rb : TaggedRing A)
    (out : Option (A × Bool × TaggedRing A)) (want : A × Bool × List A) : Type ℓ where
  pub after : TaggedRing A
  pub head' : ℕ
  pub answer : out ≡ some (want.0, want.1, after)
  pub holds : Represents z after head' want.2
  pub same_mask : after.mask ≡ rb.mask

module _ {ℓ} {A : Type ℓ} {z : A} where
  pub size_small :
      {rb : TaggedRing A} {head : ℕ} {q : List A}
      → Represents z rb head q
      → (2 ≤ rb.mask + 1) × (rb.mask + 1 ≤ 2 ^ 63)
  size_small v = (
    omega (arith, v.size, pow-le-pow_right {n = 2} (omega arith) {i = 1} v.some_bits),
    omega (arith, v.size, pow-le-pow_right {n = 2} (omega arith) v.few_bits),
  )

  -- The test of Enqueue's loop at the tail.
  enqueue_diff_room :
      {rb : TaggedRing A} {head : ℕ} {q : List A}
      → Represents z rb head q
      → length q < rb.mask + 1
      → sub64 (cell_of z rb rb.enq_pos).sequence rb.enq_pos ≡ 0
  enqueue_diff_room {rb} {head} {q} v room =
      rw v.enq (omega (arith, v.free_cells (length q) (omega arith) room))

  enqueue_diff_full :
      {rb : TaggedRing A} {head : ℕ} {q : List A}
      → Represents z rb head q
      → length q ≡ rb.mask + 1
      → 2 ^ 63 ≤ sub64 (cell_of z rb rb.enq_pos).sequence rb.enq_pos
  enqueue_diff_full {rb} {head} {q} v full =
      rw (v.enq, full)
        (rw (index_round v head)
          (omega (arith, ap (λ c. c.sequence) (front_cell v (omega arith)), size_small v)))

  -- Enqueue on a valid ring returns in its first round what the bounded queue answers.
  pub try_enqueue_refines :
      (fuel : ℕ) (x : A) {rb : TaggedRing A} {head : ℕ} {q : List A}
      → Represents z rb head q
      → Enqueued z rb head (try_enqueue z (suc fuel) rb x) (Fifo.push z (rb.mask + 1) q x)
  unfolding try_enqueue enqueue_loop Fifo.push
  try_enqueue_refines fuel x {rb} {head} {q} v = elim (dec_lt (length q) (rb.mask + 1)) [
    | yes room ↦ record {
      after = publish z rb x rb.enq_pos;
      answer = ground (arith, enqueue_diff_room v room);
      holds = rw (ne→==false (length q) (rb.mask + 1) (omega arith)) (
          subst (λ p. Represents z (publish z rb x p) head (q ++ (x ∷ []))) (sym v.enq)
            (publish-Represents v x room));
      same_mask = refl;
    }
    | no full ↦ record {
      after = rb;
      answer = ground (arith, enqueue_diff_full v (omega arith));
      holds = rw ((==_iff (length q) (rb.mask + 1)).1 (omega arith)) v;
      same_mask = refl;
    }
  ]

  dequeue_diff_empty :
      {rb : TaggedRing A} {head : ℕ}
      → Represents z rb head []
      → 2 ^ 63 ≤ sub64 (cell_of z rb rb.deq_pos).sequence (add64 rb.deq_pos 1)
  dequeue_diff_empty {rb} {head} v =
      rw (v.deq, ← add-zero head) (omega (arith, v.free_cells 0 (omega arith) (omega arith)))

  dequeue_diff_front :
      {rb : TaggedRing A} {head : ℕ} {x : A} {q : List A}
      → Represents z rb head (x ∷ q)
      → (sub64 (cell_of z rb rb.deq_pos).sequence (add64 rb.deq_pos 1) ≡ 0)
        × ((cell_of z rb rb.deq_pos).value ≡ x)
  dequeue_diff_front {rb} {head} v = rw v.deq (
    omega (arith, ap (λ c. c.sequence) (front_cell v (omega arith))),
    ap (λ c. c.value) (front_cell v (omega arith)),
  )

  -- Dequeue on a valid ring returns in its first round what the bounded queue answers.
  pub try_dequeue_refines :
      (fuel : ℕ) {rb : TaggedRing A} {head : ℕ} (q : List A)
      → Represents z rb head q
      → Dequeued z rb (try_dequeue z (suc fuel) rb) (Fifo.pop z q)
  unfolding try_dequeue dequeue_loop Fifo.pop
  try_dequeue_refines fuel {rb} {head} [] v = record {
    after = rb;
    head' = head;
    answer = ground (arith, dequeue_diff_empty v);
    holds = v;
    same_mask = refl;
  }
  try_dequeue_refines fuel {rb} {head} (x ∷ q) v = record {
    after = release z rb rb.deq_pos;
    head' = head + 1;
    answer = ground (arith, dequeue_diff_front v);
    holds =
        subst (λ p. Represents z (release z rb p) (head + 1) q) (sym v.deq) (release-Represents v);
    same_mask = refl;
  }

  -- No sequence of calls tells a valid ring from the bounded queue of its contents, and no call
  -- spins.
  pub run_refines :
      (fuel : ℕ) (ops : List (Op A)) {rb : TaggedRing A} {head : ℕ} (q : List A)
      → Represents z rb head q
      → run z (suc fuel) rb ops ≡ some (Fifo.run z (rb.mask + 1) q ops)
  unfolding run Fifo.run
  run_refines fuel [] q v = refl
  run_refines fuel (enqueue x ∷ ops) {rb} q v =
      let e = try_enqueue_refines fuel x v in
      let rest = run_refines fuel ops (Fifo.push z (rb.mask + 1) q x).1 e.holds in
      ground (arith, e.answer, e.same_mask, rest)
  run_refines fuel (dequeue ∷ ops) {rb} q v =
      let d = try_dequeue_refines fuel q v in
      let rest = run_refines fuel ops (Fifo.pop z q).2 d.holds in
      ground (arith, d.answer, d.same_mask, rest)
