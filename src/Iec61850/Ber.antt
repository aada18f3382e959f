-- ===== src/Iec61850/Ber.antt =====
-- internal/iec61850/ber.go: tags, lengths and primitive values. A byte slice is a list of numbers
-- below 256, and an int is a number: the source adds at most 2 ^ 32 to an offset.
pub mod Safe
use wire_bonding_ultra.Prelude.{
  ℕ, zero, suc, ◌+◌, ◌*◌, ◌%◌, ◌^◌, bit_and, bit_or, List, [], ◌∷◌, not, ◌||◌, length, get_or, ltb,
  leb, ◌==◌, if◌then◌else◌,
}
use wire_bonding_ultra.Iec61850.Result.{Error, Result, ok, ◌>>=◌, ◌>>◌, guard, index, slice}

abbrev pub ber_long_form : ℕ
ber_long_form = 0x80

unfoldable pub read_ber_tag : List ℕ → ℕ → Result (ℕ × ℕ)
read_ber_tag buf offset = do
  guard (ltb offset (length buf)) Error.frame_too_short
  tag ← index buf offset
  ok (tag, offset + 1)

-- `n` bytes are left to read from `offset` on; at most four, so the shift cannot overflow an int.
unfoldable pub length_bytes : List ℕ → ℕ → ℕ → ℕ → Result ℕ
length_bytes buf offset zero acc = ok acc
length_bytes buf offset (suc n) acc = do
  b ← index buf offset
  length_bytes buf (offset + 1) n (bit_or (acc * 2 ^ 8) b)

unfoldable pub read_ber_length : List ℕ → ℕ → Result (ℕ × ℕ)
unfolding length_bytes
read_ber_length buf offset = do
  guard (ltb offset (length buf)) Error.frame_too_short
  b ← index buf offset
  let num_bytes = bit_and b 0x7f
  let long = do
    guard (not (num_bytes == 0 || ltb 4 num_bytes)) Error.invalid_tlv_length
    guard (leb (offset + 1 + num_bytes) (length buf)) Error.frame_too_short
    n ← length_bytes buf (offset + 1) num_bytes 0
    ok (n, offset + 1 + num_bytes)
  if ltb b ber_long_form then ok (b, offset + 1) else long

-- The tag, the contents and the offset behind them. A length is never negative.
unfoldable pub read_tlv : List ℕ → ℕ → Result (ℕ × List ℕ × ℕ)
unfolding read_ber_tag read_ber_length
read_tlv buf offset = do
  (tag, after_tag) ← read_ber_tag buf offset
  (n, after_length) ← read_ber_length buf after_tag
  guard (leb (after_length + n) (length buf)) Error.frame_too_short
  contents ← slice buf after_length (after_length + n)
  ok (tag, contents, after_length + n)

unfoldable pub expect_tag : List ℕ → ℕ → ℕ → Result (List ℕ × ℕ)
unfolding read_tlv
expect_tag buf offset expected = do
  (tag, contents, after) ← read_tlv buf offset
  guard (tag == expected) Error.tag_mismatch
  ok (contents, after)

-- `v = (v << 8) | uint32(b)` for each byte.
unfoldable pub shift_in : ℕ → List ℕ → ℕ
shift_in v [] = v
shift_in v (b ∷ buf) = shift_in (bit_or (v * 2 ^ 8 % 2 ^ 32) b) buf

-- The bit pattern of the uint32, or of the int32 of decodeIntegerSigned32.
unfoldable pub decode_integer32 : List ℕ → Result ℕ
unfolding shift_in
decode_integer32 buf = do
  guard (not (length buf == 0 || ltb 4 (length buf))) Error.invalid_tlv_length
  let first = if bit_and (get_or buf 0 0) 0x80 == 0 then 0 else 0xffff_ffff
  ok (shift_in first buf)

-- Nanoseconds since 1970: `time.Unix(seconds, fraction * 1000)`.
unfoldable pub decode_utc_time : List ℕ → Result ℕ
decode_utc_time contents = do
  guard (leb 8 (length contents)) Error.frame_too_short
  let byte = λ (i : ℕ). get_or contents i 0
  let seconds =
      bit_or (bit_or (bit_or (byte 0 * 2 ^ 24) (byte 1 * 2 ^ 16)) (byte 2 * 2 ^ 8)) (byte 3)
  let fraction = bit_or (bit_or (byte 4 * 2 ^ 16) (byte 5 * 2 ^ 8)) (byte 6)
  ok (seconds * 1_000_000_000 + fraction * 1000)

-- The loop over at most two bytes behind the first.
unfoldable pub decode_bit_string : List ℕ → Result ℕ
decode_bit_string contents = do
  guard (leb 2 (length contents)) Error.frame_too_short
  let high = get_or contents 1 0
  if ltb 2 (length contents)
      then ok (bit_or (high * 2 ^ 8 % 2 ^ 16) (get_or contents 2 0))
      else ok high
