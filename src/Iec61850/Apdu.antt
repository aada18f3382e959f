-- ===== src/Iec61850/Apdu.antt =====
-- internal/iec61850/decoder.go: ParseAPDU.
pub mod Safe
use wire_bonding_ultra.Prelude.{
  ℕ, zero, suc, ◌+◌, ◌-◌, ◌/◌, List, [], ◌∷◌, ◌++◌, Bool, true, false, ◌&&◌, ◌||◌, length, take,
  drop, get_or, ltb, leb, ◌==◌, if◌then◌else◌,
}
use wire_bonding_ultra.Iec61850.Result.{Error, Result, ok, err, panic, stuck, slice, ◌>>=◌}
use wire_bonding_ultra.Iec61850.Ber.{read_tlv, decode_integer32}
use wire_bonding_ultra.Iec61850.Asdu.{Asdu, parse_sv_asdu}

-- `SVPayload`, without the header, which ParseAPDU leaves zero.
pub record Payload : Type 0 where
  pub asdu_count : ℕ
  pub asdus : List Asdu

abbrev pub max_int : ℕ → ℕ → ℕ
max_int a b = if ltb b a then a else b

-- The byte at `offset` is there and satisfies the test.
abbrev pub next_is : List ℕ → ℕ → (ℕ → Bool) → Bool
next_is buf offset test = ltb offset (length buf) && test (get_or buf offset 0)

abbrev pub count_of : Result ℕ → ℕ
count_of (ok v) = v
count_of _ = 1

-- The claimed number of ASDUs, and the offset behind it.
abbrev pub with_count : Result (ℕ × List ℕ × ℕ) → Result (ℕ × ℕ)
with_count (ok (tag, contents, after)) =
    if tag == 0x80 then ok (count_of (decode_integer32 contents), after) else ok (1, 0)
with_count (err e) = ok (1, 0)
with_count panic = panic
with_count stuck = stuck

unfoldable pub claimed_count : List ℕ → Result (ℕ × ℕ)
claimed_count inner =
    if next_is inner 0 (λ b. b == 0x80) then with_count (read_tlv inner 0) else ok (1, 0)

-- The sequence of ASDUs: its bytes and the offset in them.
abbrev pub with_sequence : List ℕ → ℕ → Result (ℕ × List ℕ × ℕ) → Result (List ℕ × ℕ)
with_sequence inner offset (ok (tag, contents, after)) = ok (contents, 0)
with_sequence inner offset (err e) = ok (inner, offset)
with_sequence inner offset panic = panic
with_sequence inner offset stuck = stuck

unfoldable pub open_sequence : List ℕ → ℕ → Result (List ℕ × ℕ)
open_sequence inner offset =
    if next_is inner offset (λ b. b == 0xa2 || b == 0x30)
    then with_sequence inner offset (read_tlv inner offset)
    else ok (inner, offset)

-- Where an ASDU without a tag of its own is taken to end.
unfoldable pub guess_end : List ℕ → ℕ → ℕ → ℕ → ℕ
guess_end inner offset count i =
    let remaining = length inner - offset in
    let share = remaining / max_int (count - i) 1 in
    let guess_len = if ltb share 16 then remaining else share in
    let end = offset + guess_len in if ltb (length inner) end then length inner else end

-- The bytes of the next ASDU and the offset behind them; `err` is the loop's break.
abbrev pub tagged_asdu : Result (ℕ × List ℕ × ℕ) → Result (List ℕ × ℕ)
tagged_asdu (ok (tag, contents, after)) = ok (contents, after)
tagged_asdu (err e) = err e
tagged_asdu panic = panic
tagged_asdu stuck = stuck

abbrev pub guessed_asdu : Result (List ℕ) → ℕ → Result (List ℕ × ℕ)
guessed_asdu (ok raw) end = ok (raw, end)
guessed_asdu (err e) end = err e
guessed_asdu panic end = panic
guessed_asdu stuck end = stuck

unfoldable pub next_asdu : List ℕ → ℕ → ℕ → ℕ → Result (List ℕ × ℕ)
next_asdu inner offset count i =
    let end = guess_end inner offset count i in
    if next_is inner offset (λ b. b == 0x30)
    then tagged_asdu (read_tlv inner offset)
    else guessed_asdu (slice inner offset end) end

abbrev pub add_asdu : List Asdu → Result Asdu → List Asdu
add_asdu asdus (ok asdu) = asdus ++ (asdu ∷ [])
add_asdu asdus _ = asdus

-- A panic or a spinning loop of ParseSVASDU would be one of ParseAPDU.
abbrev pub after_asdu {ℓ} : {A : Type ℓ} → Result Asdu → Result A → Result A
after_asdu panic r = panic
after_asdu stuck r = stuck
after_asdu _ r = r

unfoldable pub asdu_loop : ℕ → List ℕ → ℕ → ℕ → ℕ → List Asdu → Result (List Asdu)
asdu_loop zero inner offset count i asdus =
    if ltb i count && ltb offset (length inner) then stuck else ok asdus
asdu_loop (suc fuel) inner offset count i asdus = elim (ltb i count && ltb offset (length inner)) [
  | false ↦ ok asdus
  | true ↦ elim (next_asdu inner offset count i) [
    | err e ↦ ok asdus
    | panic ↦ panic
    | stuck ↦ stuck
    | ok (raw, after) ↦
        after_asdu (parse_sv_asdu raw)
          (asdu_loop fuel inner after count (i + 1) (add_asdu asdus (parse_sv_asdu raw)))
  ]
]

-- Where no ASDU was found, the inner bytes are tried as one.
abbrev pub try_fallback : ℕ → Result Asdu → Result Payload
try_fallback count (ok asdu) =
    if ltb 0 asdu.num_samples
    then ok (record { asdu_count = 1; asdus = asdu ∷ [] })
    else ok (record { asdu_count = count; asdus = [] })
try_fallback count (err e) = ok (record { asdu_count = count; asdus = [] })
try_fallback count panic = panic
try_fallback count stuck = stuck

abbrev pub with_fallback : ℕ → List ℕ → List Asdu → Result Payload
with_fallback count inner [] = try_fallback count (parse_sv_asdu inner)
with_fallback count inner (asdu ∷ asdus) = ok (record { asdu_count = count; asdus = asdu ∷ asdus })

-- `make([]SVASDU, 0, n)`, for an `int` of 64 bits, where memory has room for that many ASDUs.
abbrev pub make_asdus : ℕ → ℕ → Result (List Asdu)
make_asdus room n = if leb n room then ok [] else panic

-- Each round takes a byte at least, so `length inner` rounds are enough.
unfoldable pub parse_inner : ℕ → List ℕ → Result Payload
unfolding claimed_count open_sequence asdu_loop next_asdu
parse_inner room apdu = do
  (count, offset) ← claimed_count apdu
  (inner, start) ← open_sequence apdu offset
  none_yet ← make_asdus room count
  asdus ← asdu_loop (length inner) inner start count 0 none_yet
  with_fallback count inner asdus

unfoldable pub parse_apdu : ℕ → List ℕ → ℕ → Result (Payload × ℕ)
unfolding parse_inner
parse_apdu room buf offset = do
  (tag, contents, end) ← read_tlv buf offset
  payload ← parse_inner room contents
  ok (payload, end)
