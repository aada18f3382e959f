-- ===== src/Iec61850/Asdu.antt =====
-- internal/iec61850/decoder.go: ParseSVASDU, and types.go: SVASDU.
pub mod Safe
use wire_bonding_ultra.Prelude.{
  ℕ, zero, suc, ◌+◌, ◌-◌, ◌/◌, ◌%◌, ◌^◌, List, [], ◌∷◌, Bool, true, false, ◌&&◌, ◌||◌, Option, none,
  some, length, get_elem?, get_or, ltb, leb, ◌==◌, if◌then◌else◌,
}
use wire_bonding_ultra.Iec61850.Result.{Error, Result, ok, err, panic, stuck}
use wire_bonding_ultra.Iec61850.Ber.{read_tlv, decode_integer32, decode_utc_time, decode_bit_string}

-- `SVASDU`. A string is its bytes; `none` is the zero time.
pub record Asdu : Type 0 where
  pub sv_id : List ℕ
  pub smp_cnt : ℕ
  pub conf_rev : ℕ
  pub smp_synch : ℕ
  pub seq_data : List ℕ
  pub smp_rate : ℕ
  pub refr_tm : Option ℕ
  pub num_samples : ℕ

abbrev pub empty_asdu : Asdu
empty_asdu = record {
  sv_id = [];
  smp_cnt = 0;
  conf_rev = 0;
  smp_synch = 0;
  seq_data = [];
  smp_rate = 0;
  refr_tm = none;
  num_samples = 0;
}

-- The cases of the switch on the tag.
abbrev pub is_integer : ℕ → Bool
is_integer tag = tag == 0x02 || tag == 0x82 || tag == 0x83 || tag == 0x86

abbrev pub is_seq_data : ℕ → Bool
is_seq_data tag = tag == 0x04 || tag == 0x87

abbrev pub is_id : ℕ → Bool
is_id tag = tag == 0x1a || tag == 0x80 || tag == 0x81

abbrev pub is_time : ℕ → Bool
is_time tag = tag == 0x23 || tag == 0x84

abbrev pub is_synch : ℕ → Bool
is_synch tag = tag == 0x03 || tag == 0x85

-- The inner switch, for a decoded integer.
abbrev pub set_integer : ℕ → ℕ → Asdu → Asdu
set_integer tag v asdu =
    if tag == 0x82
    then record asdu { smp_cnt = v }
    else if tag == 0x83
    then record asdu { conf_rev = v }
    else if tag == 0x86
    then record asdu { smp_rate = v }
    else if asdu.smp_cnt == 0
    then record asdu { smp_cnt = v }
    else if asdu.conf_rev == 0
    then record asdu { conf_rev = v }
    else record asdu { smp_rate = v }

abbrev pub set_id : List ℕ → List ℕ → Asdu → Asdu
set_id [] contents asdu = record asdu { sv_id = contents }
set_id (c ∷ old) contents asdu = asdu

abbrev pub with_integer : ℕ → Asdu → Result ℕ → Asdu
with_integer tag asdu (ok v) = set_integer tag v asdu
with_integer tag asdu _ = asdu

-- A time that does not decode is the zero time.
abbrev pub time_of : Result ℕ → Option ℕ
time_of (ok t) = some t
time_of _ = none

abbrev pub with_bits : Asdu → Result ℕ → Asdu
with_bits asdu (ok bs) = record asdu { smp_synch = bs % 2 ^ 8 }
with_bits asdu _ = asdu

abbrev pub set_synch : List ℕ → Asdu → Asdu
set_synch contents asdu =
    if leb 1 (length contents)
    then record asdu { smp_synch = get_or contents (length contents - 1) 0 }
    else with_bits asdu (decode_bit_string contents)

-- One round of the switch.
unfoldable pub apply_field : ℕ → List ℕ → Asdu → Asdu
apply_field tag contents asdu =
    if is_integer tag
    then with_integer tag asdu (decode_integer32 contents)
    else if is_seq_data tag
    then record asdu { seq_data = contents; num_samples = length contents / 8 }
    else if is_id tag
    then set_id asdu.sv_id contents asdu
    else if is_time tag
    then record asdu { refr_tm = time_of (decode_utc_time contents) }
    else if is_synch tag
    then set_synch contents asdu
    else asdu

-- The loop over the fields; it breaks at the first TLV that does not read.
unfoldable pub field_loop : ℕ → List ℕ → ℕ → Asdu → Result Asdu
field_loop zero buf offset asdu = if ltb offset (length buf) then stuck else ok asdu
field_loop (suc fuel) buf offset asdu = elim (ltb offset (length buf)) [
  | false ↦ ok asdu
  | true ↦ elim (read_tlv buf offset) [
    | ok (tag, contents, after) ↦ field_loop fuel buf after (apply_field tag contents asdu)
    | err e ↦ ok asdu
    | panic ↦ panic
    | stuck ↦ stuck
  ]
]

-- The first field, where it is an identifier: the offset behind it, and the ASDU with it.
abbrev pub first_id : List ℕ → Result (ℕ × List ℕ × ℕ) → Result (ℕ × Asdu)
first_id buf (ok (tag, contents, after)) = ok (
  after,
  if tag == 0x1a || tag == 0x80 then record empty_asdu { sv_id = contents } else empty_asdu,
)
first_id buf (err e) = ok (0, empty_asdu)
first_id buf panic = panic
first_id buf stuck = stuck

unfoldable pub read_first : List ℕ → Result (ℕ × Asdu)
read_first buf =
    let b = get_or buf 0 0 in
    if ltb 0 (length buf) && (b == 0x1a || b == 0x80)
    then first_id buf (read_tlv buf 0)
    else ok (0, empty_asdu)

-- Each field takes two bytes at least, so `length buf` rounds are enough.
unfoldable pub parse_sv_asdu : List ℕ → Result Asdu
unfolding read_first field_loop
parse_sv_asdu buf =
    if length buf == 0 then err Error.seq_data_too_short else elim (read_first buf) [
      | ok (offset, asdu) ↦ field_loop (length buf) buf offset asdu
      | err e ↦ err e
      | panic ↦ panic
      | stuck ↦ stuck
    ]
