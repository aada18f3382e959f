-- ===== src/Iec61850/Ber/Safe.antt =====
-- The readers of ber.go on any bytes: they return, and stay inside the buffer.
use wire_bonding_ultra.Prelude.{
  ℕ, zero, suc, ◌+◌, ◌-◌, ◌*◌, ◌^◌, ◌≤◌, ◌<◌, bit_and, bit_or, ◌≡◌, refl, sym, ap, ◌⊎◌, inl, inr,
  List, arith, ◌||◌, length, get_or, take, drop, ltb, ◌==◌, Bool-cases, dec_le, get_elem?-eq-get_or,
  length-take, length-drop,
}
use wire_bonding_ultra.Iec61850.Result.{Error, Result, ok, err, index}
use wire_bonding_ultra.Iec61850.Ber.{read_ber_tag, length_bytes, read_ber_length, read_tlv}

pub index_ok : (buf : List ℕ) (i : ℕ) → i < length buf → index buf i ≡ ok (get_or buf i 0)
index_ok buf i h = rw (get_elem?-eq-get_or buf i 0 h, index)

length_bytes_ok :
    (buf : List ℕ) (offset n acc : ℕ)
    → offset + n ≤ length buf
    → (v : ℕ) × (length_bytes buf offset n acc ≡ ok v)
unfolding length_bytes
length_bytes_ok buf offset zero acc h = (acc, refl)
length_bytes_ok buf offset (suc n) acc h =
    let (v, e) =
      length_bytes_ok buf (offset + 1) n (bit_or (acc * 2 ^ 8) (get_or buf offset 0))
        (omega arith) in
    (v, rw (index_ok buf offset (omega arith)) e)

-- A header field is refused, or is read and ends inside the buffer.
abbrev pub HeaderRead : List ℕ → ℕ → Result (ℕ × ℕ) → Type 0
HeaderRead buf offset r =
    ((e : Error) × (r ≡ err e))
    ⊎ ((n : ℕ) × (after : ℕ) × (r ≡ ok (n, after)) × (offset < after) × (after ≤ length buf))

pub read_ber_tag_cases :
    (buf : List ℕ) (offset : ℕ) → HeaderRead buf offset (read_ber_tag buf offset)
unfolding read_ber_tag
read_ber_tag_cases buf offset = elim (Bool-cases (ltb offset (length buf))) [
  | inl inside ↦ inr (
    get_or buf offset 0,
    offset + 1,
    ground (arith, inside, index_ok buf offset),
    omega arith,
    ground (arith, inside),
  )
  | inr outside ↦ inl (Error.frame_too_short, ground (arith, outside))
]

pub read_ber_length_cases :
    (buf : List ℕ) (offset : ℕ) → HeaderRead buf offset (read_ber_length buf offset)
unfolding read_ber_length
read_ber_length_cases buf offset = elim (Bool-cases (ltb offset (length buf))) [
  | inr outside ↦ inl (Error.frame_too_short, ground (arith, outside))
  | inl inside ↦ elim (Bool-cases (ltb b 0x80)) [
    | inl short ↦ inr (
      b,
      offset + 1,
      ground (arith, inside, short, index_ok buf offset),
      omega arith,
      ground (arith, inside),
    )
    | inr long ↦ elim (Bool-cases (n == 0 || ltb 4 n)) [
      | inl bad ↦
          inl (Error.invalid_tlv_length, ground (arith, inside, long, bad, index_ok buf offset))
      | inr good ↦ elim (dec_le (offset + 1 + n) (length buf)) [
        | no wide ↦
            inl
              (Error.frame_too_short, ground (arith, inside, long, good, wide, index_ok buf offset))
        | yes fits ↦
            let (v, e) = length_bytes_ok buf (offset + 1) n 0 fits in
            inr (
              v,
              offset + 1 + n,
              ground (arith, inside, long, good, fits, e, index_ok buf offset),
              omega arith,
              fits,
            )
      ]
    ]
  ]
]
  where
    b : ℕ
    b = get_or buf offset 0

    n : ℕ
    n = bit_and b 0x7f

-- A TLV is refused, or its contents are the bytes of the buffer behind a header of two bytes or
-- more, and the next offset is just behind them.
pub record TlvRead (buf : List ℕ) (offset : ℕ) (contents : List ℕ) (after : ℕ) : Type 0 where
  pub start : ℕ
  pub behind_header : offset + 2 ≤ start
  pub ends : after ≡ start + length contents
  pub inside : after ≤ length buf
  pub copied : contents ≡ take (length contents) (drop start buf)

-- ReadTLV on any bytes and offset returns: an error, or a tag, contents and the next offset, where the
-- contents stand in the buffer behind a header of two bytes or more and just before that offset.
pub read_tlv_cases :
    (buf : List ℕ) (offset : ℕ)
    → ((e : Error) × (read_tlv buf offset ≡ err e))
      ⊎ ((tag : ℕ) × (contents : List ℕ) × (after : ℕ) × (read_tlv buf offset
            ≡ ok (tag, contents, after))
          × TlvRead buf offset contents after)
unfolding read_tlv
read_tlv_cases buf offset = elim (read_ber_tag_cases buf offset) [
  | inl (e, refused) ↦ inl (e, ground (arith, refused))
  | inr (tag, o, was_tag, past, tag_fits) ↦ elim (read_ber_length_cases buf o) [
    | inl (e, refused) ↦ inl (e, ground (arith, was_tag, refused))
    | inr (n, start, was_length, past', length_fits) ↦ elim (dec_le (start + n) (length buf)) [
      | no wide ↦ inl (Error.frame_too_short, ground (arith, was_tag, was_length, wide))
      | yes fits ↦
          let size : length (take n (drop start buf)) ≡ n =
            omega (arith, length-take n (drop start buf), length-drop start buf) in
          inr (
            tag,
            take n (drop start buf),
            start + n,
            ground (
              arith,
              was_tag,
              was_length,
              fits,
              ap (λ k. take k (drop start buf)) {x = start + n - start} {y = n} (omega arith),
            ),
            record {
              start = start;
              behind_header = omega arith;
              ends = omega (arith, size);
              inside = fits;
              copied = ap (λ k. take k (drop start buf)) (sym size);
            },
          )
    ]
  ]
]
