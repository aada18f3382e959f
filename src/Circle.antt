-- ===== src/Circle.antt =====
-- The circular buffers of internal/impedance, internal/dsp and internal/pullstrength: a slice of
-- slots, the index of the next write, and a flag that the first lap is over. The components wrap
-- `put` and `recent` where the source writes the same lines out.
pub mod Window
pub mod Log
pub mod Recent
use wire_bonding_ultra.Prelude.{
  ℕ, zero, suc, ◌+◌, ◌-◌, ◌%◌, List, [], ◌∷◌, ◌++◌, Bool, true, false, ◌||◌, length, get_or, set,
  take, drop, replicate, ltb, ◌==◌, if◌then◌else◌, ◌<◌, ◌≡◌,
}

pub record Circle {ℓ} (A : Type ℓ) : Type ℓ where
  pub slots : List A
  pub capacity : ℕ
  pub idx : ℕ
  pub full : Bool

module _ {ℓ} {A : Type ℓ} where
  -- `make([]A, capacity)`, with the zero value of the type.
  unfoldable pub empty_circle : A → ℕ → Circle A
  empty_circle zero_value capacity = record {
    slots = replicate capacity zero_value;
    capacity = capacity;
    idx = 0;
    full = false;
  }

  -- `slots[idx] = x; idx = (idx + 1) % capacity; if idx == 0 { full = true }`
  unfoldable pub put : A → Circle A → Circle A
  put x c =
      let next = (c.idx + 1) % c.capacity in
      record c {
        slots = set c.slots c.idx x;
        idx = next;
        full = if next == 0 then true else c.full;
      }

  -- `n` slots are left to read, `slots[(start + i) % capacity]` being the next.
  unfoldable pub read_from : A → Circle A → ℕ → ℕ → ℕ → List A
  read_from d c start zero i = []
  read_from d c start (suc n) i =
      get_or c.slots ((start + i) % c.capacity) d ∷ read_from d c start n (i + 1)

  abbrev pub total : Circle A → ℕ
  total c = if c.full then c.capacity else c.idx

  -- The last `count` entries; 0, for a count that is not positive, stands for all.
  unfoldable pub recent : A → ℕ → Circle A → List A
  unfolding read_from
  recent d count c =
      let n = if count == 0 || ltb (total c) count then total c else count in
      let start = if ltb c.idx n then c.idx + c.capacity - n else c.idx - n in
      read_from d c start n 0

  -- What it holds, oldest first.
  abbrev pub held : Bool → ℕ → List A → List A
  held full idx slots = if full then drop idx slots ++ take idx slots else take idx slots

  abbrev pub contents : Circle A → List A
  contents c = held c.full c.idx c.slots

  pub record IsValid (c : Circle A) : Type ℓ where
    pub inside : c.idx < c.capacity
    pub sized : length c.slots ≡ c.capacity
