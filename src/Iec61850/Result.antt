-- ===== src/Iec61850/Result.antt =====
-- internal/iec61850/types.go: the errors, and what a call can come to.
use wire_bonding_ultra.Prelude.{
  ℕ, ◌-◌, List, Bool, ◌&&◌, none, some, length, get_elem?, take, drop, leb, if◌then◌else◌,
}

pub data Error : Type 0 where
  frame_too_short invalid_ether_type tag_mismatch invalid_tlv_length : Error
  unsupported_asdu seq_data_too_short : Error

-- A Go value, an error value, a run-time panic (an index out of range), or a loop whose fuel is used
-- up.
pub data Result {ℓ} (A : Type ℓ) : Type ℓ where
  ok : A → Result A
  err : Error → Result A
  panic stuck : Result A

infixl 5 ◌>>=◌ ◌>>◌
-- What is not a value is passed on.
abbrev pub ◌>>=◌ {ℓ ℓ'} : {S : Type ℓ} {T : Type ℓ'} → Result S → (S → Result T) → Result T
panic >>= k = panic
stuck >>= k = stuck
ok v >>= k = k v
err reason >>= k = err reason

abbrev pub ◌>>◌ {ℓ} : {T : Type ℓ} → Result (Unit {0}) → Result T → Result T
first >> next = first >>= λ _. next

-- `if !holds { return ..., reason }`
abbrev pub guard : Bool → Error → Result (Unit {0})
guard holds reason = if holds then ok tt else err reason

-- `buf[i]`
abbrev pub index : List ℕ → ℕ → Result ℕ
index buf i = elim (get_elem? buf i) [ none ↦ panic | some b ↦ ok b ]

-- `buf[lo:hi]`; the source never slices past the length of a buffer.
abbrev pub slice : List ℕ → ℕ → ℕ → Result (List ℕ)
slice buf lo hi =
    if leb lo hi && leb hi (length buf) then ok (take (hi - lo) (drop lo buf)) else panic
