-- ===== src/Ringbuf/Tagged.antt =====
-- internal/ringbuf/tagged.go: TaggedRingBuffer, run by one goroutine at a time.
-- A uint64 is a number below 2 ^ 64 with its wrap-around written out.
pub mod Pow2
pub mod Inv
pub mod Refine
pub mod Init
use wire_bonding_ultra.Prelude.{ℕ, zero, suc, ◌+◌, ◌-◌, ◌/◌, ◌%◌, ◌^◌, bit_and, bit_or}
use wire_bonding_ultra.Prelude.{List, [], ◌∷◌, Bool, true, false, Option, none, some}
use wire_bonding_ultra.Prelude.{length, get_or, set, ltb, leb, ◌==◌, if◌then◌else◌}
use wire_bonding_ultra.Ringbuf.Fifo.{Op, enqueue, dequeue}

-- uint64 addition and subtraction. The sign of an int64 difference is its top bit.
abbrev pub add64 : ℕ → ℕ → ℕ
add64 a b = (a + b) % 2 ^ 64

abbrev pub sub64 : ℕ → ℕ → ℕ
sub64 a b = (a + 2 ^ 64 - b) % 2 ^ 64

abbrev pub is_negative64 : ℕ → Bool
is_negative64 d = leb (2 ^ 63) d

-- `v |= v >> m`
abbrev pub smear : ℕ → ℕ → ℕ
smear m v = bit_or v (v / 2 ^ m)

pub round_up_pow2 : ℕ → ℕ
round_up_pow2 v = add64 (smear 32 (smear 16 (smear 8 (smear 4 (smear 2 (smear 1 (sub64 v 1))))))) 1

-- `cell[T]`
pub record Cell {ℓ} (A : Type ℓ) : Type ℓ where
  pub sequence : ℕ
  pub value : A

abbrev pub new_cell {ℓ} : {A : Type ℓ} → ℕ → A → Cell A
new_cell s x = record { sequence = s; value = x }

-- `TaggedRingBuffer[T]`, without the padding.
pub record TaggedRing {ℓ} (A : Type ℓ) : Type ℓ where
  pub mask : ℕ
  pub cells : List (Cell A)
  pub enq_pos : ℕ
  pub deq_pos : ℕ

-- The size that NewTagged and NewVersioned allocate.
pub ring_size : ℕ → ℕ
ring_size capacity = let sz = round_up_pow2 capacity in if ltb sz 2 then 2 else sz

-- The index of `&rb.cells[pos&rb.mask]`; `Inv.in_bounds` shows that it is in range.
abbrev pub cell_index {ℓ} : {A : Type ℓ} → TaggedRing A → ℕ → ℕ
cell_index rb pos = bit_and pos rb.mask

module _ {ℓ} {A : Type ℓ} (zero_value : A) where
  -- The cells from index `i` on, each with its index for a sequence.
  abbrev pub fresh_cells : ℕ → ℕ → List (Cell A)
  fresh_cells zero i = []
  fresh_cells (suc n) i = new_cell i zero_value ∷ fresh_cells n (i + 1)

  -- `capacity` is the uint64 that the int is converted to.
  pub new_tagged : ℕ → TaggedRing A
  new_tagged capacity =
      let sz = ring_size capacity in
      record { mask = sz - 1; cells = fresh_cells sz 0; enq_pos = 0; deq_pos = 0 }

  abbrev pub cell_of : TaggedRing A → ℕ → Cell A
  cell_of rb pos = get_or rb.cells (cell_index rb pos) (new_cell 0 zero_value)

  -- What follows the successful compare-and-swap of Enqueue, and of Dequeue.
  abbrev pub publish : TaggedRing A → A → ℕ → TaggedRing A
  publish rb v pos = record rb {
    cells = set rb.cells (cell_index rb pos) (new_cell (add64 pos 1) v);
    enq_pos = add64 pos 1;
  }

  abbrev pub release : TaggedRing A → ℕ → TaggedRing A
  release rb pos = record rb {
    cells = set rb.cells (cell_index rb pos) (new_cell (add64 (add64 pos rb.mask) 1) zero_value);
    deq_pos = add64 pos 1;
  }

  -- The `for` loop of Enqueue. `none`: the fuel ran out, that is, the loop still spins.
  pub enqueue_loop : ℕ → TaggedRing A → A → ℕ → Option (Bool × TaggedRing A)
  enqueue_loop zero rb v pos = none
  enqueue_loop (suc fuel) rb v pos =
      let diff = sub64 (cell_of rb pos).sequence pos in
      let again = enqueue_loop fuel rb v pos in
      let reload = enqueue_loop fuel rb v rb.enq_pos in
      if diff == 0
      then (if rb.enq_pos == pos then some (true, publish rb v pos) else again)
      else if is_negative64 diff
      then some (false, rb)
      else reload

  -- The `for` loop of Dequeue.
  pub dequeue_loop : ℕ → TaggedRing A → ℕ → Option (A × Bool × TaggedRing A)
  dequeue_loop zero rb pos = none
  dequeue_loop (suc fuel) rb pos =
      let diff = sub64 (cell_of rb pos).sequence (add64 pos 1) in
      let again = dequeue_loop fuel rb pos in
      let reload = dequeue_loop fuel rb rb.deq_pos in
      if diff == 0
      then (if rb.deq_pos == pos
          then some ((cell_of rb pos).value, true, release rb pos)
          else again)
      else if is_negative64 diff
      then some (zero_value, false, rb)
      else reload

  -- TryEnqueue and TryDequeue are these two.
  pub try_enqueue : ℕ → TaggedRing A → A → Option (Bool × TaggedRing A)
  try_enqueue fuel rb v = enqueue_loop fuel rb v rb.enq_pos

  pub try_dequeue : ℕ → TaggedRing A → Option (A × Bool × TaggedRing A)
  try_dequeue fuel rb = dequeue_loop fuel rb rb.deq_pos

  pub capacity : TaggedRing A → ℕ
  capacity rb = add64 rb.mask 1

  pub approx_len : TaggedRing A → ℕ
  approx_len rb =
      let diff = sub64 rb.enq_pos rb.deq_pos in
      if ltb (add64 rb.mask 1) diff then add64 rb.mask 1 else diff

  -- A client's calls in order, with what each returns; `none` if one of them spins.
  pub run : ℕ → TaggedRing A → List (Op A) → Option (List (A × Bool))
  run fuel rb [] = some []
  run fuel rb (enqueue x ∷ ops) = elim (try_enqueue fuel rb x) [
    | none ↦ none
    | some (done, rb') ↦ elim (run fuel rb' ops) [
      | none ↦ none
      | some out ↦ some ((zero_value, done) ∷ out)
    ]
  ]
  run fuel rb (dequeue ∷ ops) = elim (try_dequeue fuel rb) [
    | none ↦ none
    | some (x, done, rb') ↦ elim (run fuel rb' ops) [
      | none ↦ none
      | some out ↦ some ((x, done) ∷ out)
    ]
  ]
