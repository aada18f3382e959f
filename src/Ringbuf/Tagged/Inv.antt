-- ===== src/Ringbuf/Tagged/Inv.antt =====
-- What a valid ring holds: each cell's sequence number says whether its value is published.
use wire_bonding_ultra.Prelude.{
  ℕ, zero, suc, ◌+◌, ◌-◌, ◌%◌, ◌^◌, ◌≤◌, ◌<◌, bit_and, ◌≡◌, ◌≢◌, refl, sym, ap, ◌∙◌, List, [], ◌∷◌,
  ◌++◌, arith, length, get_or, set, length-set, get_or-set_self, get_or-set_ne, length-append,
  get_or-append_left, get_or-append_length, dec_lt,
}
use wire_bonding_ultra.Prelude.Bits.{bit_and-mask, mod-mod64}
use wire_bonding_ultra.Ringbuf.Tagged.{
  Cell, new_cell, TaggedRing, add64, cell_index, cell_of, publish, release,
}
use Prim.Native.Nat.{◌∣◌}
use Prim.Native.Nat.add
use native.Mathlib.Nat.{
  mod-lt, mod-eq_of_lt, mod-eq-sub-mod, mod-add-mod, dvd_refl, dvd-mul_right_of_dvd, pow-suc,
  add-zero,
}

-- Two positions less than a round apart fall on different cells.
mod-ne_near : {cap h k : ℕ} → h < cap → 0 < k → k < cap → (h + k) % cap ≢ h
mod-ne_near {cap} {h} {k} hh pos hk = elim (dec_lt (h + k) cap) [
  | yes p ↦ omega (arith, mod-eq_of_lt p)
  | no p ↦ omega (
    arith,
    mod-eq-sub-mod {n = h + k} {m = cap} (omega arith),
    mod-eq_of_lt {n = h + k - cap} {m = cap} (omega arith),
  )
]

pub mod-ne : (cap a b : ℕ) → a < b → b < a + cap → a % cap ≢ b % cap
mod-ne cap a b lo hi e =
    mod-ne_near {cap = cap} {h = a % cap} {k = b - a} (mod-lt a (omega arith)) (omega arith)
      (omega arith) (mod-add-mod a cap (b - a) ∙ ap (λ t. t % cap) (omega arith) ∙ sym e)

mod-add_self : (a m : ℕ) → (a + m) % m ≡ a % m
mod-add_self a m = mod-eq-sub-mod {n = a + m} {m = m} (omega arith) ∙ ap (λ t. t % m) (omega arith)

pow-dvd : (j k n : ℕ) → n ≡ j + k → 2 ^ k ∣ 2 ^ n
pow-dvd zero k n e = rw (e ∙ add.zero k) (dvd_refl (2 ^ k))
pow-dvd (suc j) k n e =
    rw (e ∙ add.suc j k, pow-suc) (dvd-mul_right_of_dvd (2 ^ k) (pow-dvd j k (j + k) refl) 2)

pub pow-dvd_word : (k : ℕ) → k ≤ 64 → 2 ^ k ∣ 2 ^ 64
pow-dvd_word k h = pow-dvd (64 - k) k 64 (omega arith)

-- `head` counts the dequeues and `head + length q` the enqueues since the start, without wrapping.
pub record Represents {ℓ} {A : Type ℓ} (zero_value : A) (rb : TaggedRing A) (head : ℕ) (q : List A)
    : Type ℓ where
  pub bits : ℕ
  pub some_bits : 1 ≤ bits
  pub few_bits : bits ≤ 63
  pub size : rb.mask + 1 ≡ 2 ^ bits
  pub storage : length rb.cells ≡ rb.mask + 1
  pub enq : rb.enq_pos ≡ (head + length q) % 2 ^ 64
  pub deq : rb.deq_pos ≡ head % 2 ^ 64
  pub fits : length q ≤ rb.mask + 1
  pub full_cells :
      (i : ℕ)
      → i < length q
      → cell_of zero_value rb ((head + i) % 2 ^ 64)
        ≡ new_cell ((head + i + 1) % 2 ^ 64) (get_or q i zero_value)
  pub free_cells :
      (i : ℕ)
      → length q ≤ i
      → i < rb.mask + 1
      → (cell_of zero_value rb ((head + i) % 2 ^ 64)).sequence ≡ (head + i) % 2 ^ 64

module _ {ℓ} {A : Type ℓ} {zero_value : A} {rb : TaggedRing A} {head : ℕ} {q : List A}
    (v : Represents zero_value rb head q) where
  open v use {bits, some_bits, few_bits, size, storage, enq, deq, fits, full_cells, free_cells}

  -- `pos & mask` is the position modulo the size, also after the position has wrapped.
  pub index : (p : ℕ) → cell_index rb (p % 2 ^ 64) ≡ p % (rb.mask + 1)
  index p =
      ap (bit_and (p % 2 ^ 64)) (omega (arith, size))
      ∙ bit_and-mask bits (p % 2 ^ 64)
      ∙ mod-mod64 (2 ^ bits) p (pow-dvd_word bits (omega arith))
      ∙ ap (λ t. p % t) (sym size)

  -- No operation reads or writes outside the cells.
  pub in_bounds : (p : ℕ) → cell_index rb (p % 2 ^ 64) < length rb.cells
  in_bounds p = rw (index p) (omega (arith, mod-lt p {m = rb.mask + 1}))

  -- A round further on is the same cell.
  pub index_round :
      (p : ℕ) → cell_index rb ((p + (rb.mask + 1)) % 2 ^ 64) ≡ cell_index rb (p % 2 ^ 64)
  index_round p = index (p + (rb.mask + 1)) ∙ mod-add_self p (rb.mask + 1) ∙ sym (index p)

  -- A write at one position leaves the cell of another alone, less than a round away.
  pub cell-set_ne :
      (c d : Cell A) (i j : ℕ)
      → i < j
      → j < i + (rb.mask + 1)
      → (get_or (set rb.cells (cell_index rb (i % 2 ^ 64)) c) (cell_index rb (j % 2 ^ 64)) d
          ≡ get_or rb.cells (cell_index rb (j % 2 ^ 64)) d)
        × (get_or (set rb.cells (cell_index rb (j % 2 ^ 64)) c) (cell_index rb (i % 2 ^ 64)) d
            ≡ get_or rb.cells (cell_index rb (i % 2 ^ 64)) d)
  cell-set_ne c d i j lo hi = (
    get_or-set_ne rb.cells _ _ c d (λ e. apart (sym (index i) ∙ e ∙ index j)),
    get_or-set_ne rb.cells _ _ c d (λ e. apart (sym (index i) ∙ sym e ∙ index j)),
  )
    where
      apart : i % (rb.mask + 1) ≢ j % (rb.mask + 1)
      apart = mod-ne (rb.mask + 1) i j lo hi

  pub cell-set_self :
      (c d : Cell A) (i : ℕ)
      → get_or (set rb.cells (cell_index rb (i % 2 ^ 64)) c) (cell_index rb (i % 2 ^ 64)) d ≡ c
  cell-set_self c d i = get_or-set_self rb.cells _ c d (in_bounds i)

  add-zero_word : (k : ℕ) → (head + 0 + k) % 2 ^ 64 ≡ (head + k) % 2 ^ 64
  add-zero_word k = omega arith

  pub front_cell :
      0 < length q
      → cell_of zero_value rb (head % 2 ^ 64)
        ≡ new_cell ((head + 1) % 2 ^ 64) (get_or q 0 zero_value)
  front_cell h =
      ap (λ t. cell_of zero_value rb (t % 2 ^ 64)) (sym (add-zero head))
      ∙ full_cells 0 h
      ∙ ap (λ t. new_cell t (get_or q 0 zero_value)) (add-zero_word 1)

  abbrev tail_pos : ℕ
  tail_pos = (head + length q) % 2 ^ 64

  pub publish-Represents :
      (x : A)
      → length q < rb.mask + 1
      → Represents zero_value (publish zero_value rb x tail_pos) head (q ++ (x ∷ []))
  publish-Represents x room = record {
    bits = bits;
    some_bits = some_bits;
    few_bits = few_bits;
    size = size;
    storage = length-set rb.cells (cell_index rb tail_pos) _ ∙ storage;
    enq = rw length-append (omega arith);
    deq = deq;
    fits = rw length-append (omega arith);
    full_cells = full;
    free_cells = free;
  }
    where
      full :
          (i : ℕ)
          → i < length (q ++ (x ∷ []))
          → cell_of zero_value (publish zero_value rb x tail_pos) ((head + i) % 2 ^ 64)
            ≡ new_cell ((head + i + 1) % 2 ^ 64) (get_or (q ++ (x ∷ [])) i zero_value)
      full i h = elim (dec_lt i (length q)) [
        | yes old ↦
            (cell-set_ne _ _ (head + i) (head + length q) (omega arith) (omega arith)).1
            ∙ full_cells i old
            ∙ ap (new_cell _) (sym (get_or-append_left q (x ∷ []) i zero_value old))
        | no new ↦
            let e : i ≡ length q = omega (arith, length-append q (x ∷ [])) in
            rw (e, get_or-append_length q [] x zero_value)
              (cell-set_self _ _ (head + length q) ∙ ap (λ t. new_cell t x) (omega arith))
      ]

      free :
          (i : ℕ)
          → length (q ++ (x ∷ [])) ≤ i
          → i < rb.mask + 1
          → (cell_of zero_value (publish zero_value rb x tail_pos) ((head + i) % 2 ^ 64)).sequence
            ≡ (head + i) % 2 ^ 64
      free i lo hi =
          ap (λ c. c.sequence)
            (cell-set_ne _ _ (head + length q) (head + i) (omega (arith, length-append q (x ∷ [])))
              (omega arith)).0
          ∙ free_cells i (omega (arith, length-append q (x ∷ []))) hi

-- Dequeue takes the front of a queue that has one.
pub release-Represents {ℓ} :
    {A : Type ℓ} {zero_value x : A} {rb : TaggedRing A} {head : ℕ} {q : List A}
    → Represents zero_value rb head (x ∷ q)
    → Represents zero_value (release zero_value rb (head % 2 ^ 64)) (head + 1) q
release-Represents {A} {zero_value} {x} {rb} {head} {q} v = record {
  bits = bits;
  some_bits = some_bits;
  few_bits = few_bits;
  size = size;
  storage = length-set rb.cells (cell_index rb (head % 2 ^ 64)) _ ∙ storage;
  enq = omega arith;
  deq = omega arith;
  fits = omega arith;
  full_cells = full;
  free_cells = free;
}
  where
    open v use {bits, some_bits, few_bits, size, storage, enq, deq, fits, full_cells, free_cells}

    ahead : (i : ℕ) → head + 1 + i ≡ head + suc i
    ahead i = omega arith

    to_round : {i : ℕ} → i ≡ rb.mask → head + 1 + i ≡ head + (rb.mask + 1)
    to_round e = omega arith

    wrap_sum :
        {i : ℕ} → i ≡ rb.mask → add64 (add64 (head % 2 ^ 64) rb.mask) 1 ≡ (head + 1 + i) % 2 ^ 64
    wrap_sum e = omega arith

    full :
        (i : ℕ)
        → i < length q
        → cell_of zero_value (release zero_value rb (head % 2 ^ 64)) ((head + 1 + i) % 2 ^ 64)
          ≡ new_cell ((head + 1 + i + 1) % 2 ^ 64) (get_or q i zero_value)
    full i h = rw (ahead i) (
        (cell-set_ne v _ _ head (head + suc i) (omega arith) (omega arith)).0
        ∙ full_cells (suc i) (omega arith))

    free :
        (i : ℕ)
        → length q ≤ i
        → i < rb.mask + 1
        → (cell_of zero_value
            (release zero_value rb (head % 2 ^ 64))
            ((head + 1 + i) % 2 ^ 64)).sequence
          ≡ (head + 1 + i) % 2 ^ 64
    free i lo hi = elim (dec_lt i rb.mask) [
      | yes near ↦ rw (ahead i) (
          ap (λ c. c.sequence) (cell-set_ne v _ _ head (head + suc i) (omega arith) (omega arith)).0
          ∙ free_cells (suc i) (omega arith) (omega arith))
      | no last ↦
          let e : i ≡ rb.mask = omega arith in
          ap
            (λ j.
              (get_or (release zero_value rb (head % 2 ^ 64)).cells j
                (new_cell 0 zero_value)).sequence)
            (ap (λ t. cell_index rb (t % 2 ^ 64)) (to_round e) ∙ index_round v head)
          ∙ ap (λ c. c.sequence) (cell-set_self v _ _ head)
          ∙ wrap_sum e
    ]
