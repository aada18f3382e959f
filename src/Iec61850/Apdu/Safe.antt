-- ===== src/Iec61850/Apdu/Safe.antt =====
-- ParseAPDU on any bytes.
use wire_bonding_ultra.Prelude.{
  ℕ, zero, suc, ◌+◌, ◌-◌, ◌≤◌, ◌<◌, ◌≡◌, refl, ◌⊎◌, inl, inr, List, [], ◌∷◌, arith, ◌&&◌, ◌||◌,
  length, ltb, leb, ◌==◌, if◌then◌else◌, Bool-cases, length-append, take, drop,
}
use wire_bonding_ultra.Iec61850.Result.{Error, Result, ok, err, panic}
use wire_bonding_ultra.Iec61850.Ber.{read_tlv, decode_integer32}
use wire_bonding_ultra.Iec61850.Ber.Safe.{read_tlv_cases}
use wire_bonding_ultra.Iec61850.Asdu.{Asdu, parse_sv_asdu}
use wire_bonding_ultra.Iec61850.Asdu.Safe.{parse_sv_asdu_returns}
use wire_bonding_ultra.Iec61850.Apdu.{
  Payload, next_is, count_of, claimed_count, open_sequence, guess_end, next_asdu, add_asdu,
  after_asdu, asdu_loop, with_fallback, parse_inner, parse_apdu,
}

guess_end_bounds :
    (inner : List ℕ) (offset count i : ℕ)
    → offset < length inner
    → (offset < guess_end inner offset count i) × (guess_end inner offset count i ≤ length inner)
unfolding guess_end
guess_end_bounds inner offset count i h = ground arith

-- The next ASDU breaks the loop, or takes a byte at least.
next_asdu_cases :
    (inner : List ℕ) (offset count i : ℕ)
    → offset < length inner
    → ((e : Error) × (next_asdu inner offset count i ≡ err e))
      ⊎ ((raw : List ℕ) × (after : ℕ) × (next_asdu inner offset count i ≡ ok (raw, after))
          × (offset < after))
unfolding next_asdu
next_asdu_cases inner offset count i h = elim (Bool-cases (next_is inner offset (λ b. b == 0x30))) [
  | inl tagged ↦ elim (read_tlv_cases inner offset) [
    | inl (e, refused) ↦ inl (e, ground (arith, tagged, refused))
    | inr (tag, contents, after, was_read, r) ↦
        inr (
          contents,
          after,
          ground (arith, tagged, was_read),
          omega (arith, r.behind_header, r.ends),
        )
  ]
  | inr guessed ↦
      let (past, short) = guess_end_bounds inner offset count i h in
      inr (
        take (guess_end inner offset count i - offset) (drop offset inner),
        guess_end inner offset count i,
        ground (arith, guessed, past, short),
        past,
      )
]

add_asdu_cases :
    (raw : List ℕ) (asdus : List Asdu)
    → length (add_asdu asdus (parse_sv_asdu raw)) ≤ length asdus + 1
add_asdu_cases raw asdus = elim (parse_sv_asdu_returns raw) [
  | inl (e, refused) ↦ rw refused (omega arith)
  | inr (asdu, parsed) ↦ rw parsed (omega (arith, length-append asdus (asdu ∷ [])))
]

after_asdu_lem {ℓ} :
    {A : Type ℓ} (raw : List ℕ) (r : Result A) → after_asdu (parse_sv_asdu raw) r ≡ r
after_asdu_lem raw r = elim (parse_sv_asdu_returns raw) [
  | inl (e, refused) ↦ rw refused
  | inr (asdu, parsed) ↦ rw parsed
]

asdu_loop_returns :
    (fuel : ℕ) (inner : List ℕ) (offset count i : ℕ) (asdus : List Asdu)
    → length inner ≤ offset + fuel
    → (out : List Asdu) × (asdu_loop fuel inner offset count i asdus ≡ ok out)
      × (length out ≤ length asdus + (count - i))
unfolding asdu_loop
asdu_loop_returns zero inner offset count i asdus h = (asdus, ground arith, omega arith)
asdu_loop_returns (suc fuel) inner offset count i asdus h =
    elim (Bool-cases (ltb i count && ltb offset (length inner))) [
      | inr done ↦ (asdus, ground (arith, done), omega arith)
      | inl more ↦ elim (next_asdu_cases inner offset count i (ground (arith, more))) [
        | inl (e, refused) ↦ (asdus, ground (arith, more, refused), omega arith)
        | inr (raw, after, was_next, past) ↦
            let (out, e, few) =
              asdu_loop_returns fuel inner after count (i + 1) (add_asdu asdus (parse_sv_asdu raw))
                (omega arith) in
            let left : i < count = ground (arith, more) in
            (
              out,
              ground (
                arith,
                more,
                was_next,
                e,
                after_asdu_lem raw
                    (asdu_loop fuel inner after count (i + 1) (add_asdu asdus (parse_sv_asdu raw))),
              ),
              omega (arith, few, add_asdu_cases raw asdus),
            )
      ]
    ]

claimed_count_returns :
    (inner : List ℕ) → (count : ℕ) × (o : ℕ) × (claimed_count inner ≡ ok (count, o))
unfolding claimed_count
claimed_count_returns inner = elim (Bool-cases (next_is inner 0 (λ b. b == 0x80))) [
  | inr other ↦ (1, 0, ground (arith, other))
  | inl counted ↦ elim (read_tlv_cases inner 0) [
    | inl (e, refused) ↦ (1, 0, ground (arith, counted, refused))
    | inr (tag, contents, after, was_read, r) ↦ (
      (if tag == 0x80 then count_of (decode_integer32 contents) else 1),
      (if tag == 0x80 then after else 0),
      ground (arith, counted, was_read),
    )
  ]
]

open_sequence_returns :
    (inner : List ℕ) (o : ℕ)
    → (bytes : List ℕ) × (start : ℕ) × (open_sequence inner o ≡ ok (bytes, start))
unfolding open_sequence
open_sequence_returns inner o = elim (Bool-cases (next_is inner o (λ b. b == 0xa2 || b == 0x30))) [
  | inr other ↦ (inner, o, ground (arith, other))
  | inl opened ↦ elim (read_tlv_cases inner o) [
    | inl (e, refused) ↦ (inner, o, ground (arith, opened, refused))
    | inr (tag, contents, after, was_read, r) ↦ (contents, 0, ground (arith, opened, was_read))
  ]
]

with_fallback_returns :
    (count : ℕ) (inner : List ℕ) (asdus : List Asdu)
    → length asdus ≤ count
    → (p : Payload) × (with_fallback count inner asdus ≡ ok p) × (length p.asdus ≤ p.asdu_count)
with_fallback_returns count inner (asdu ∷ asdus) few =
    (record { asdu_count = count; asdus = asdu ∷ asdus }, refl, few)
with_fallback_returns count inner [] few = elim (parse_sv_asdu_returns inner) [
  | inl (e, refused) ↦ (record { asdu_count = count; asdus = [] }, rw refused, omega arith)
  | inr (asdu, parsed) ↦ elim (Bool-cases (ltb 0 asdu.num_samples)) [
    | inl sampled ↦
        (record { asdu_count = 1; asdus = asdu ∷ [] }, rw (parsed, sampled), omega arith)
    | inr empty ↦ (record { asdu_count = count; asdus = [] }, rw (parsed, empty), omega arith)
  ]
]

-- The bytes claim more ASDUs than memory has room for.
abbrev pub Overclaims : ℕ → List ℕ → Type 0
Overclaims room inner =
    (count : ℕ) × (o : ℕ) × (claimed_count inner ≡ ok (count, o)) × (room < count)

parse_inner_returns :
    (room : ℕ) (apdu : List ℕ)
    → ((p : Payload) × (parse_inner room apdu ≡ ok p) × (length p.asdus ≤ p.asdu_count))
      ⊎ (Overclaims room apdu × (parse_inner room apdu ≡ panic))
unfolding parse_inner
parse_inner_returns room apdu =
    let (count, o, counted) = claimed_count_returns apdu in
    let (inner, start, opened) = open_sequence_returns apdu o in
    let (asdus, looped, few) =
      asdu_loop_returns (length inner) inner start count 0 [] (omega arith) in
    let (p, finished, fits) = with_fallback_returns count inner asdus (omega arith) in
    elim (Bool-cases (leb count room)) [
      | inl there ↦ inl (p, rw (counted, opened, there, looped, finished) refl, fits)
      | inr missing ↦
          inr ((count, o, counted, ground (arith, missing)), rw (counted, opened, missing) refl)
    ]

-- The contents of the outer TLV do.
abbrev pub ApduOverclaims : ℕ → List ℕ → ℕ → Type 0
ApduOverclaims room buf offset =
    (tag : ℕ) × (contents : List ℕ) × (end : ℕ) × (read_tlv buf offset ≡ ok (tag, contents, end))
    × Overclaims room contents

-- ParseAPDU's loops end, and it panics only where the bytes claim more ASDUs than memory has room for:
-- else the outer TLV does not read and its error is returned, or a payload is, with no more ASDUs than
-- its count says, and the offset behind the TLV, which is inside the buffer.
pub parse_apdu_returns :
    (room : ℕ) (buf : List ℕ) (offset : ℕ)
    → ((e : Error) × (read_tlv buf offset ≡ err e) × (parse_apdu room buf offset ≡ err e))
      ⊎ (((p : Payload) × (end : ℕ) × (parse_apdu room buf offset ≡ ok (p, end))
            × (length p.asdus ≤ p.asdu_count)
            × (offset + 2 ≤ end)
            × (end ≤ length buf))
          ⊎ (ApduOverclaims room buf offset × (parse_apdu room buf offset ≡ panic)))
unfolding parse_apdu
parse_apdu_returns room buf offset = elim (read_tlv_cases buf offset) [
  | inl (e, refused) ↦ inl (e, refused, ground (arith, refused))
  | inr (tag, contents, end, was_read, r) ↦ elim (parse_inner_returns room contents) [
    | inl (p, parsed, fits) ↦ inr (
        inl (
          p,
          end,
          ground (arith, was_read, parsed),
          fits,
          omega (arith, r.behind_header, r.ends),
          r.inside,
        ))
    | inr (over, panics) ↦
        inr (inr ((tag, contents, end, was_read, over), rw (was_read, panics) refl))
  ]
]
