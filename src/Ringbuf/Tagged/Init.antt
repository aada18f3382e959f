-- ===== src/Ringbuf/Tagged/Init.antt =====
-- NewTagged, Capacity and ApproxLen.
use wire_bonding_ultra.Prelude.{
  ℕ, zero, suc, ◌+◌, ◌-◌, ◌*◌, ◌%◌, ◌^◌, ◌≤◌, ◌<◌, ◌≡◌, refl, sym, ap, ◌∙◌, List, [], arith, length,
  get_or, ap₂, bit_and,
}
use wire_bonding_ultra.Prelude.Bits.{bit_and-mask}
use wire_bonding_ultra.Ringbuf.Tagged.{
  Cell, new_cell, TaggedRing, ring_size, fresh_cells, new_tagged, capacity, approx_len,
}
use wire_bonding_ultra.Ringbuf.Tagged.Pow2.{ring_size_least}
use wire_bonding_ultra.Ringbuf.Tagged.Inv.{Represents}
use wire_bonding_ultra.Ringbuf.Tagged.Refine.{size_small}
use native.Mathlib.Nat.{mod-eq_of_lt, pow-le-pow_right}
use Prim.Native.Nat.{max}

module _ {ℓ} {A : Type ℓ} (z : A) where
  length-fresh_cells : (n i : ℕ) → length (fresh_cells z n i) ≡ n
  length-fresh_cells zero i = refl
  length-fresh_cells (suc n) i = ap suc (length-fresh_cells n (i + 1))

  get_or-fresh_cells :
      (n i j : ℕ) (d : Cell A) → j < n → get_or (fresh_cells z n i) j d ≡ new_cell (i + j) z
  get_or-fresh_cells zero i j d h = absurd (omega arith)
  get_or-fresh_cells (suc n) i zero d h = ap (λ t. new_cell t z) (omega arith)
  get_or-fresh_cells (suc n) i (suc j) d h =
      get_or-fresh_cells n (i + 1) j d (omega arith) ∙ ap (λ t. new_cell t z) (omega arith)

  sized-Represents :
      (n sz : ℕ)
      → 1 ≤ n
      → n ≤ 63
      → sz ≡ 2 ^ n
      → Represents z
          (record { mask = sz - 1; cells = fresh_cells z sz 0; enq_pos = 0; deq_pos = 0 })
          0
          []
  sized-Represents n sz some few e = record {
    bits = n;
    some_bits = some;
    few_bits = few;
    size = omega (arith, e, one);
    storage = omega (arith, e, one, length-fresh_cells sz 0);
    enq = refl;
    deq = refl;
    fits = omega arith;
    full_cells = λ i h. absurd (omega arith);
    free_cells = λ i lo hi. free i (omega (arith, one, hi));
  }
    where
      one : 1 ≤ sz
      one = omega (arith, e, pow-le-pow_right {n = 2} (omega arith) {i = 0} {j = n} (omega arith))

      free :
          (i : ℕ)
          → i < sz
          → (get_or
              (fresh_cells z sz 0)
              (bit_and ((0 + i) % 2 ^ 64) (sz - 1))
              (new_cell 0 z)).sequence
            ≡ (0 + i) % 2 ^ 64
      free i h =
          ap (λ t. (get_or (fresh_cells z sz 0) t (new_cell 0 z)).sequence) at_index
          ∙ ap (λ c. c.sequence) (get_or-fresh_cells sz 0 i (new_cell 0 z) h)
          ∙ sym (mod-eq_of_lt (omega (arith, few_cells, h)))
        where
          few_cells : sz ≤ 2 ^ 63
          few_cells = omega (arith, e, pow-le-pow_right {n = 2} (omega arith) few)

          at_index : bit_and ((0 + i) % 2 ^ 64) (sz - 1) ≡ i
          at_index =
              ap₂ bit_and {y = i} (omega (arith, few_cells, h)) (omega (arith, e))
              ∙ bit_and-mask n i
              ∙ mod-eq_of_lt (omega (arith, e, h))

  -- NewTagged, for a capacity of at most 2 ^ 63, returns an empty valid ring. Its size is neither below
  -- 2 nor below the capacity, and less than twice the larger of the two.
  pub new_tagged-Represents :
      (c : ℕ)
      → c ≤ 2 ^ 63
      → Represents z (new_tagged z c) 0 []
        × (max c 2 ≤ (new_tagged z c).mask + 1)
        × ((new_tagged z c).mask + 1 < 2 * max c 2)
  unfolding new_tagged
  new_tagged-Represents c h =
      let (n, some, few, e, above, near) = ring_size_least c h in
      (sized-Represents n (ring_size c) some few e, omega (arith, e, above), omega (arith, e, near))

  -- On a valid ring Capacity is the number of cells, and ApproxLen the number of queued values.
  pub approx_len-Represents :
      {rb : TaggedRing A} {head : ℕ} {q : List A}
      → Represents z rb head q
      → (capacity z rb ≡ length rb.cells) × (approx_len z rb ≡ length q)
  unfolding capacity approx_len
  approx_len-Represents v = ground (arith, size_small v, v.storage, v.enq, v.deq, v.fits)
