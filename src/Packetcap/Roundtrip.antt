-- ===== src/Packetcap/Roundtrip.antt =====
-- The decoder on the frames that capture_nocgo.go builds.
use wire_bonding_ultra.Prelude.{
  true, leb, ℕ, zero, suc, ◌+◌, ◌*◌, ◌^◌, ◌≤◌, ◌<◌, ◌≡◌, refl, sym, ap, ◌∙◌, List, [], ◌∷◌, ◌++◌,
  append-nil, arith, length, length-append, none, drop, append-nil,
}
use wire_bonding_ultra.Iec61850.Result.{ok}
use wire_bonding_ultra.Iec61850.Ber.{read_tlv, decode_integer32, shift_in}
use wire_bonding_ultra.Iec61850.Asdu.{Asdu, apply_field, parse_sv_asdu}
use wire_bonding_ultra.Iec61850.Apdu.{
  claimed_count, open_sequence, next_asdu, asdu_loop, parse_inner, parse_apdu,
}
use wire_bonding_ultra.Packetcap.{
  Waveform, ber_tlv_len, word, sv_id, seq_data_from, build_asdu, build_apdu,
}
use wire_bonding_ultra.Packetcap.Encode.{tlv, length-tlv, read_tlv-tlv, decode_integer32-word}
use wire_bonding_ultra.Packetcap.Parse.{Field, encoded, parse_sv_asdu-encoded}

pub length-seq_data_from :
    (wave : Waveform) (phase_acc n i : ℕ) → length (seq_data_from wave phase_acc n i) ≡ n * 8
unfolding seq_data_from
length-seq_data_from wave phase_acc zero i = refl
length-seq_data_from wave phase_acc (suc n) i =
    omega (arith, length-seq_data_from wave phase_acc n (i + 1))

-- The fields that the frame's ASDU has.
abbrev fields : ℕ → List ℕ → List Field
fields smpcnt seq_data =
    (0x82, word smpcnt)
    ∷ (0x83, 0x00 ∷ 0x00 ∷ 0x00 ∷ 0x01 ∷ [])
    ∷ (0x85, 0x01 ∷ [])
    ∷ (0x87, seq_data)
    ∷ []

build_asdu-encoded :
    (wave : Waveform) (smpcnt n phase_acc : ℕ)
    → build_asdu wave smpcnt n phase_acc
      ≡ encoded ((0x80, sv_id) ∷ fields smpcnt (seq_data_from wave phase_acc n 0))
unfolding build_asdu ber_tlv_len
build_asdu-encoded wave smpcnt n phase_acc =
    ap
      (λ t.
        0x80 ∷ 8 ∷ sv_id
        ++ (0x82 ∷ 4 ∷ word smpcnt)
        ++ (0x83 ∷ 4 ∷ 0 ∷ 0 ∷ 0 ∷ 1 ∷ [])
        ++ (0x85 ∷ 1 ∷ 1 ∷ [])
        ++ (0x87 ∷ t))
      (sym (append-nil _))

-- The ASDU of a built frame.
abbrev pub built_asdu : Waveform → ℕ → ℕ → ℕ → Asdu
built_asdu wave smpcnt n phase_acc = record {
  sv_id = sv_id;
  smp_cnt = smpcnt;
  conf_rev = 1;
  smp_synch = 1;
  seq_data = seq_data_from wave phase_acc n 0;
  smp_rate = 0;
  refr_tm = none;
  num_samples = n;
}

pub parse_sv_asdu-build_asdu :
    (wave : Waveform) (smpcnt n phase_acc : ℕ)
    → smpcnt < 2 ^ 32
    → n ≤ 8000
    → parse_sv_asdu (build_asdu wave smpcnt n phase_acc) ≡ ok (built_asdu wave smpcnt n phase_acc)
unfolding apply_field
parse_sv_asdu-build_asdu wave smpcnt n phase_acc hs hn =
    let size = length-seq_data_from wave phase_acc n 0 in
    let one = decode_integer32-word 1 (omega arith) in
    rw (build_asdu-encoded wave smpcnt n phase_acc) (
      parse_sv_asdu-encoded sv_id (fields smpcnt (seq_data_from wave phase_acc n 0)) (omega arith)
        (omega arith, (omega arith, (omega arith, (omega (arith, size), tt))))
      ∙ rw (decode_integer32-word smpcnt hs, one)
          (ap (λ k. ok (record (built_asdu wave smpcnt n phase_acc) { num_samples = k }))
            (omega (arith, size))))

-- The loop has nothing left to do behind the last of the ASDUs that are claimed.
asdu_loop-done :
    (fuel : ℕ) (inner : List ℕ) (o : ℕ) (asdus : List Asdu)
    → asdu_loop fuel inner o 1 1 asdus ≡ ok asdus
unfolding asdu_loop
asdu_loop-done zero inner o asdus = refl
asdu_loop-done (suc fuel) inner o asdus = refl

next_asdu-tlv :
    (raw : List ℕ)
    → length raw < 2 ^ 16
    → (let seq = tlv 0x30 raw in next_asdu seq 0 1 0 ≡ ok (raw, 0 + length seq))
unfolding next_asdu
next_asdu-tlv raw h =
    let seq = tlv 0x30 raw in
    let (was_read, behind, fits) = read_tlv-tlv seq 0 0x30 raw [] h (sym (append-nil seq)) in
    ground (arith, was_read)

one_asdu_loop :
    (raw : List ℕ) (asdu : Asdu)
    → length raw < 2 ^ 16
    → parse_sv_asdu raw ≡ ok asdu
    → (let seq = tlv 0x30 raw in asdu_loop (length seq) seq 0 1 0 [] ≡ ok (asdu ∷ []))
unfolding asdu_loop
one_asdu_loop raw asdu h parsed =
    let seq = tlv 0x30 raw in
    let next = next_asdu-tlv raw h in
    let done =
      asdu_loop-done (length (ber_tlv_len (length raw) ++ raw)) seq (0 + length seq) (asdu ∷ []) in
    ground (arith, next, parsed, done)

decode_one : decode_integer32 (1 ∷ []) ≡ ok 1
unfolding decode_integer32 shift_in
decode_one = refl

claimed_count-one : (rest : List ℕ) → claimed_count (0x80 ∷ 0x01 ∷ 0x01 ∷ rest) ≡ ok (1, 3)
unfolding claimed_count ber_tlv_len
claimed_count-one rest =
    let inner = 0x80 ∷ 0x01 ∷ 0x01 ∷ rest in
    let was_read : read_tlv inner 0 ≡ ok (0x80, 1 ∷ [], 3) =
      (read_tlv-tlv inner 0 0x80 (1 ∷ []) rest (omega arith) refl).0 in
    ground (arith, was_read, decode_one)

open_sequence-tlv :
    (raw : List ℕ)
    → length raw < 2 ^ 16
    → open_sequence (0x80 ∷ 0x01 ∷ 0x01 ∷ tlv 0xa2 raw) 3 ≡ ok (raw, 0)
unfolding open_sequence
open_sequence-tlv raw h =
    let inner = 0x80 ∷ 0x01 ∷ 0x01 ∷ tlv 0xa2 raw in
    let (was_read, behind, fits) =
      read_tlv-tlv inner 3 0xa2 raw [] h (sym (append-nil (tlv 0xa2 raw))) in
    ground (arith, was_read)

le→leb_one : (room : ℕ) → 1 ≤ room → leb 1 room ≡ true
le→leb_one room h = ground arith

parse_inner-one :
    (room : ℕ) (raw : List ℕ) (asdu : Asdu)
    → 1 ≤ room
    → length (tlv 0x30 raw) < 2 ^ 16
    → parse_sv_asdu raw ≡ ok asdu
    → parse_inner room (0x80 ∷ 0x01 ∷ 0x01 ∷ tlv 0xa2 (tlv 0x30 raw))
      ≡ ok (record { asdu_count = 1; asdus = asdu ∷ [] })
unfolding parse_inner
parse_inner-one room raw asdu some_room h parsed = rw (
  claimed_count-one (tlv 0xa2 (tlv 0x30 raw)),
  open_sequence-tlv (tlv 0x30 raw) h,
  le→leb_one room some_room,
  one_asdu_loop raw asdu (omega (arith, length-append (ber_tlv_len (length raw)) raw)) parsed,
)

-- The contents of the outer TLV.
abbrev inner_of : List ℕ → List ℕ
inner_of raw = 0x80 ∷ 0x01 ∷ 0x01 ∷ tlv 0xa2 (tlv 0x30 raw)

build_apdu-tlv : (raw : List ℕ) → build_apdu raw ≡ tlv 0x60 (inner_of raw)
unfolding build_apdu
build_apdu-tlv raw = refl

pub parse_apdu-build_apdu :
    (room : ℕ) (buf : List ℕ) (o : ℕ) (raw : List ℕ) (asdu : Asdu)
    → 1 ≤ room
    → length raw ≤ 65000
    → parse_sv_asdu raw ≡ ok asdu
    → drop o buf ≡ build_apdu raw
    → parse_apdu room buf o
      ≡ ok (record { asdu_count = 1; asdus = asdu ∷ [] }, o + length (tlv 0x60 (inner_of raw)))
unfolding parse_apdu
parse_apdu-build_apdu room buf o raw asdu some_room h parsed e =
    let inner = inner_of raw in
    let small : length (tlv 0x30 raw) ≤ 65004 = omega (arith, length-tlv 0x30 raw) in
    let fits : length inner < 2 ^ 16 = omega (arith, small, length-tlv 0xa2 (tlv 0x30 raw)) in
    let (was_read, behind, inside) =
      read_tlv-tlv buf o 0x60 inner [] fits
        (e ∙ build_apdu-tlv raw ∙ sym (append-nil (tlv 0x60 inner))) in
    rw (was_read, parse_inner-one room raw asdu some_room (omega (arith, small)) parsed)

pub length-build_asdu :
    (wave : Waveform) (smpcnt n phase_acc : ℕ)
    → n ≤ 8000
    → length (build_asdu wave smpcnt n phase_acc) ≤ 65000
unfolding build_asdu
length-build_asdu wave smpcnt n phase_acc h =
    let seq = seq_data_from wave phase_acc n 0 in
    omega (arith, length-seq_data_from wave phase_acc n 0, length-tlv 0x87 seq)
