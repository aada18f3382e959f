-- ===== src/Packetcap/Parse.antt =====
-- ParseSVASDU on fields that stand one behind another as encoded TLVs.
use wire_bonding_ultra.Prelude.{
  ℕ, zero, suc, ◌+◌, ◌^◌, ◌≤◌, ◌<◌, ◌≡◌, refl, ap, List, [], ◌∷◌, ◌++◌, arith, length,
  length-append, All, drop, length-drop, ne→==false, ltb, lt→ltb, true, false,
}
use wire_bonding_ultra.Iec61850.Result.{ok}
use wire_bonding_ultra.Iec61850.Ber.{read_tlv}
use wire_bonding_ultra.Iec61850.Asdu.{
  Asdu, empty_asdu, apply_field, field_loop, read_first, parse_sv_asdu,
}
use wire_bonding_ultra.Packetcap.{ber_tlv_len}
use wire_bonding_ultra.Packetcap.Encode.{tlv, read_tlv-tlv}

abbrev pub Field : Type 0
Field = ℕ × List ℕ

-- The fields, encoded.
abbrev pub encoded : List Field → List ℕ
encoded [] = []
encoded ((tag, contents) ∷ fields) = tlv tag contents ++ encoded fields

-- The fields, taken over one after another.
abbrev pub apply_all : List Field → Asdu → Asdu
apply_all [] asdu = asdu
apply_all ((tag, contents) ∷ fields) asdu = apply_all fields (apply_field tag contents asdu)

abbrev pub IsShort : Field → Type 0
IsShort f = length (f.1) < 2 ^ 16

length-encoded : (fields : List Field) → length fields ≤ length (encoded fields)
length-encoded [] = omega arith
length-encoded ((tag, contents) ∷ fields) =
    omega (arith, length-append (tlv tag contents) (encoded fields), length-encoded fields)

at_end : (buf : List ℕ) (o : ℕ) → drop o buf ≡ [] → ltb o (length buf) ≡ false
at_end buf o e = ground (arith, ap length e, length-drop o buf)

field_loop-encoded :
    (fuel : ℕ) (buf : List ℕ) (o : ℕ) (fields : List Field) (asdu : Asdu)
    → All IsShort fields
    → length fields ≤ fuel
    → o ≤ length buf
    → drop o buf ≡ encoded fields
    → field_loop fuel buf o asdu ≡ ok (apply_all fields asdu)
unfolding field_loop
field_loop-encoded zero buf o [] asdu hs enough inside e = ground (arith, at_end buf o e)
field_loop-encoded (suc fuel) buf o [] asdu hs enough inside e = ground (arith, at_end buf o e)
field_loop-encoded zero buf o (f ∷ fields) asdu hs enough inside e = absurd (omega arith)
field_loop-encoded (suc fuel) buf o ((tag, contents) ∷ fields) asdu (h, hs) enough inside e =
    let (was_read, behind, fits) = read_tlv-tlv buf o tag contents (encoded fields) h e in
    let left : ltb o (length buf) ≡ true = ground (arith, fits) in
    let rest =
      field_loop-encoded fuel buf (o + length (tlv tag contents)) fields
        (apply_field tag contents asdu) hs (omega arith) fits behind in
    ground (arith, left, was_read, rest)

first_encoded :
    (t id : List ℕ) (after : ℕ)
    → read_tlv (0x80 ∷ t) 0 ≡ ok (0x80, id, after)
    → read_first (0x80 ∷ t) ≡ ok (after, record empty_asdu { sv_id = id })
unfolding read_first
first_encoded t id after e = rw (lt→ltb 0 (suc (length t)) (omega arith), e)

parse_encoded :
    (t id : List ℕ) (after : ℕ) (fields : List Field)
    → read_tlv (0x80 ∷ t) 0 ≡ ok (0x80, id, after)
    → All IsShort fields
    → after ≤ suc (length t)
    → length fields ≤ suc (length t)
    → drop after (0x80 ∷ t) ≡ encoded fields
    → parse_sv_asdu (0x80 ∷ t) ≡ ok (apply_all fields (record empty_asdu { sv_id = id }))
unfolding parse_sv_asdu
parse_encoded t id after fields was_read hs inside enough e =
    rw
      (
        ne→==false (suc (length t)) 0 (λ e. absurd (omega (arith, e))),
        first_encoded t id after was_read,
      )
      (field_loop-encoded (suc (length t)) (0x80 ∷ t) after fields
        (record empty_asdu { sv_id = id }) hs enough inside e)

-- ParseSVASDU on an identifier and further fields, all shorter than 2 ^ 16 bytes, ends with the fields taken over
-- in their order.
pub parse_sv_asdu-encoded :
    (id : List ℕ) (fields : List Field)
    → length id < 2 ^ 16
    → All IsShort fields
    → parse_sv_asdu (encoded ((0x80, id) ∷ fields))
      ≡ ok (apply_all fields (record empty_asdu { sv_id = id }))
parse_sv_asdu-encoded id fields h hs =
    let buf = encoded ((0x80, id) ∷ fields) in
    let (was_read, behind, fits) = read_tlv-tlv buf 0 0x80 id (encoded fields) h refl in
    let size = length-append (ber_tlv_len (length id) ++ id) (encoded fields) in
    parse_encoded ((ber_tlv_len (length id) ++ id) ++ encoded fields) id (0 + length (tlv 0x80 id))
      fields was_read hs fits (omega (arith, size, length-encoded fields)) behind
