-- ===== src/Packetcap/Encode.antt =====
-- What ber.go reads of the lengths, words and TLVs that capture_nocgo.go writes.
use wire_bonding_ultra.Prelude.{
  ℕ, ◌+◌, ◌-◌, ◌*◌, ◌/◌, ◌%◌, ◌^◌, ◌≤◌, ◌<◌, bit_or, ◌≡◌, sym, ap, ap₂, ◌∙◌, inl, inr, List, ◌∷◌,
  ◌++◌, append_assoc, arith, length, length-append, get_elem?, some, take, drop, drop_cons,
  drop_append, ltb, leb, true, ltb→lt, lt→ltb, Bool-cases,
}
use wire_bonding_ultra.Prelude.Bits.{zero-bit_or, bit_or-add}
use wire_bonding_ultra.Iec61850.Result.{ok, index}
use wire_bonding_ultra.Iec61850.Ber.{
  read_ber_tag, length_bytes, read_ber_length, read_tlv, shift_in, decode_integer32,
}
use wire_bonding_ultra.Packetcap.{ber_tlv_len, word}

-- A tag, a length and contents.
abbrev pub tlv : ℕ → List ℕ → List ℕ
tlv tag contents = tag ∷ ber_tlv_len (length contents) ++ contents

index-some : (buf : List ℕ) (i b : ℕ) → get_elem? buf i ≡ some b → index buf i ≡ ok b
index-some buf i b e = rw (e, index)

short_length :
    (buf : List ℕ) (o n : ℕ) (rest : List ℕ)
    → n < 0x80
    → drop o buf ≡ n ∷ rest
    → read_ber_length buf o ≡ ok (n, o + 1)
unfolding read_ber_length
short_length buf o n rest h e =
    let (at, behind, inside) = drop_cons buf o n rest e in
    rw (lt→ltb o (length buf) inside, index-some buf o n at, lt→ltb n 0x80 h)

byte_length :
    (buf : List ℕ) (o n : ℕ) (rest : List ℕ)
    → drop o buf ≡ 0x81 ∷ n ∷ rest
    → read_ber_length buf o ≡ ok (n, o + 2)
unfolding read_ber_length length_bytes
byte_length buf o n rest e =
    let (at, behind, inside) = drop_cons buf o 0x81 (n ∷ rest) e in
    let (at', behind', inside') = drop_cons buf (o + 1) n rest behind in
    let room : leb (o + 1 + 1) (length buf) ≡ true = ground arith in
    rw
      (
        lt→ltb o (length buf) inside,
        index-some buf o 0x81 at,
        room,
        index-some buf (o + 1) n at',
        zero-bit_or n,
      )
      (ap (λ k. ok (n, k)) {x = o + 1 + 1} {y = o + 2} (omega arith))

word_length :
    (buf : List ℕ) (o n : ℕ) (rest : List ℕ)
    → n < 2 ^ 16
    → drop o buf ≡ 0x82 ∷ n / 2 ^ 8 % 2 ^ 8 ∷ n % 2 ^ 8 ∷ rest
    → read_ber_length buf o ≡ ok (n, o + 3)
unfolding read_ber_length length_bytes
word_length buf o n rest h e =
    let hi = n / 2 ^ 8 % 2 ^ 8 in
    let lo = n % 2 ^ 8 in
    let (at, behind, inside) = drop_cons buf o 0x82 (hi ∷ lo ∷ rest) e in
    let (at1, behind1, inside1) = drop_cons buf (o + 1) hi (lo ∷ rest) behind in
    let (at2, behind2, inside2) = drop_cons buf (o + 1 + 1) lo rest behind1 in
    let room : leb (o + 1 + 2) (length buf) ≡ true = ground arith in
    let joined : bit_or (hi * 2 ^ 8) lo ≡ n = bit_or-add 8 hi lo (omega arith) ∙ omega arith in
    rw
      (
        lt→ltb o (length buf) inside,
        index-some buf o 0x82 at,
        room,
        index-some buf (o + 1) hi at1,
        zero-bit_or hi,
        index-some buf (o + 1 + 1) lo at2,
        joined,
      )
      (ap (λ k. ok (n, k)) {x = o + 1 + 2} {y = o + 3} (omega arith))

-- ReadBERLength reads what berTLVLen writes, for a length that fits in two bytes.
read_ber_length-ber_tlv_len :
    (buf : List ℕ) (o n : ℕ) (rest : List ℕ)
    → n < 2 ^ 16
    → drop o buf ≡ ber_tlv_len n ++ rest
    → read_ber_length buf o ≡ ok (n, o + length (ber_tlv_len n))
unfolding ber_tlv_len
read_ber_length-ber_tlv_len buf o n rest h e = elim (Bool-cases (ltb n 0x80)) [
  | inl short ↦ rw short (short_length buf o n rest (ltb→lt n 0x80 short) (rw short at e))
  | inr long ↦ elim (Bool-cases (ltb n 0x100)) [
    | inl byte ↦ rw (long, byte) (byte_length buf o n rest (rw (long, byte) at e))
    | inr wide ↦ rw (long, wide) (word_length buf o n rest h (rw (long, wide) at e))
  ]
]

read_ber_tag_ok :
    (buf : List ℕ) (o tag : ℕ) (rest : List ℕ)
    → drop o buf ≡ tag ∷ rest
    → (read_ber_tag buf o ≡ ok (tag, o + 1)) × (drop (o + 1) buf ≡ rest) × (o < length buf)
unfolding read_ber_tag
read_ber_tag_ok buf o tag rest e =
    let (at, behind, inside) = drop_cons buf o tag rest e in
    (rw (lt→ltb o (length buf) inside, index-some buf o tag at), behind, inside)

-- ReadTLV, at the front of an encoded TLV whose contents are shorter than 2 ^ 16 bytes, gives its tag
-- and its contents, and the offset of what stands behind it.
pub read_tlv-tlv :
    (buf : List ℕ) (o tag : ℕ) (contents rest : List ℕ)
    → length contents < 2 ^ 16
    → drop o buf ≡ tlv tag contents ++ rest
    → (read_tlv buf o ≡ ok (tag, contents, o + length (tlv tag contents)))
      × (drop (o + length (tlv tag contents)) buf ≡ rest)
      × (o + length (tlv tag contents) ≤ length buf)
unfolding read_tlv
read_tlv-tlv buf o tag contents rest h e =
    let n = length contents in
    let header = ber_tlv_len n in
    let (was_tag, behind, inside) =
      read_ber_tag_ok buf o tag (header ++ (contents ++ rest))
        (e ∙ ap (λ t. tag ∷ t) (append_assoc header contents rest)) in
    let was_length = read_ber_length-ber_tlv_len buf (o + 1) n (contents ++ rest) h behind in
    let (cut, after, fits) =
      drop_append buf (o + 1) header (contents ++ rest) (omega arith) behind in
    let start = o + 1 + length header in
    let (cut', after', fits') = drop_append buf start contents rest fits after in
    let end : start + n ≡ o + length (tlv tag contents) =
      omega (arith, length-append header contents) in
    let inside' : leb (start + n) (length buf) ≡ true = ground (arith, fits') in
    let ordered : leb start (start + n) ≡ true = ground arith in
    (
      rw (was_tag, was_length, inside', ordered)
          (ap₂ (λ (c : List ℕ) (k : ℕ). ok (tag, c, k))
            (ap (λ k. take k (drop start buf)) {x = start + n - start} {y = n} (omega arith) ∙ cut')
            end),
      ap (λ k. drop k buf) (sym end) ∙ after',
      omega (arith, end, fits'),
    )

shift_in_step : (v b : ℕ) → b < 256 → bit_or (v * 2 ^ 8 % 2 ^ 32) b ≡ v % 2 ^ 24 * 256 + b
shift_in_step v b h =
    ap (λ t. bit_or t b) {x = v * 2 ^ 8 % 2 ^ 32} {y = v % 2 ^ 24 * 2 ^ 8} (omega arith)
    ∙ bit_or-add 8 (v % 2 ^ 24) b h

shift_in-word : (v n : ℕ) → shift_in v (word n) ≡ n % 2 ^ 32
unfolding shift_in
shift_in-word v n =
    rw
      (
        shift_in_step v (n / 2 ^ 24 % 2 ^ 8) (omega arith),
        shift_in_step _ (n / 2 ^ 16 % 2 ^ 8) (omega arith),
        shift_in_step _ (n / 2 ^ 8 % 2 ^ 8) (omega arith),
        shift_in_step _ (n % 2 ^ 8) (omega arith),
      )
      (omega arith)

-- DecodeInteger32 reads the four bytes of a uint32.
pub decode_integer32-word : (n : ℕ) → n < 2 ^ 32 → decode_integer32 (word n) ≡ ok n
unfolding decode_integer32
decode_integer32-word n h = ap ok (shift_in-word _ n ∙ omega arith)

length-ber_tlv_len : (n : ℕ) → length (ber_tlv_len n) ≤ 3
unfolding ber_tlv_len
length-ber_tlv_len n = elim (Bool-cases (ltb n 0x80)) [
  | inl short ↦ rw short (omega arith)
  | inr long ↦ elim (Bool-cases (ltb n 0x100)) [
    | inl byte ↦ rw (long, byte) (omega arith)
    | inr wide ↦ rw (long, wide) (omega arith)
  ]
]

-- A header of two to four bytes.
pub length-tlv : (tag : ℕ) (contents : List ℕ) → length (tlv tag contents) ≤ length contents + 4
length-tlv tag contents = omega (
  arith,
  length-ber_tlv_len (length contents),
  length-append (ber_tlv_len (length contents)) contents,
)
