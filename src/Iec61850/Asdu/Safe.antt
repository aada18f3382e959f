-- ===== src/Iec61850/Asdu/Safe.antt =====
-- ParseSVASDU on any bytes: it fails only on an empty buffer, and its loop ends.
use wire_bonding_ultra.Prelude.{
  ℕ, zero, suc, ◌+◌, ◌≤◌, ◌≡◌, refl, ◌⊎◌, inl, inr, List, [], ◌∷◌, arith, ◌&&◌, ◌||◌, length,
  get_or, ltb, ◌==◌, if◌then◌else◌, Bool-cases,
}
use wire_bonding_ultra.Iec61850.Result.{Error, ok, err}
use wire_bonding_ultra.Iec61850.Ber.Safe.{read_tlv_cases}
use wire_bonding_ultra.Iec61850.Asdu.{
  Asdu, empty_asdu, apply_field, field_loop, read_first, parse_sv_asdu,
}

field_loop_returns :
    (fuel : ℕ) (buf : List ℕ) (offset : ℕ) (asdu : Asdu)
    → length buf ≤ offset + fuel
    → (out : Asdu) × (field_loop fuel buf offset asdu ≡ ok out)
unfolding field_loop
field_loop_returns zero buf offset asdu h = (asdu, ground arith)
field_loop_returns (suc fuel) buf offset asdu h = elim (Bool-cases (ltb offset (length buf))) [
  | inr outside ↦ (asdu, ground (arith, outside))
  | inl inside ↦ elim (read_tlv_cases buf offset) [
    | inl (e, refused) ↦ (asdu, ground (arith, inside, refused))
    | inr (tag, contents, after, was_read, r) ↦
        let (out, e) =
          field_loop_returns fuel buf after (apply_field tag contents asdu)
            (omega (arith, r.behind_header, r.ends)) in
        (out, ground (arith, inside, was_read, e))
  ]
]

read_first_returns : (buf : List ℕ) → (o : ℕ) × (asdu : Asdu) × (read_first buf ≡ ok (o, asdu))
unfolding read_first
read_first_returns buf =
    elim (Bool-cases (ltb 0 (length buf) && (get_or buf 0 0 == 0x1a || get_or buf 0 0 == 0x80))) [
      | inr other ↦ (0, empty_asdu, ground (arith, other))
      | inl id ↦ elim (read_tlv_cases buf 0) [
        | inl (e, refused) ↦ (0, empty_asdu, ground (arith, id, refused))
        | inr (tag, contents, after, was_read, r) ↦ (
          after,
          (if tag == 0x1a || tag == 0x80
              then record empty_asdu { sv_id = contents }
              else empty_asdu),
          ground (arith, id, was_read),
        )
      ]
    ]

-- ParseSVASDU never panics and its loop ends: it fails exactly on an empty buffer.
pub parse_sv_asdu_returns :
    (buf : List ℕ)
    → ((buf ≡ []) × (parse_sv_asdu buf ≡ err Error.seq_data_too_short))
      ⊎ ((asdu : Asdu) × (parse_sv_asdu buf ≡ ok asdu))
unfolding parse_sv_asdu
parse_sv_asdu_returns [] = inl (refl, refl)
parse_sv_asdu_returns (b ∷ buf) =
    let (o, asdu, first) = read_first_returns (b ∷ buf) in
    let (out, e) = field_loop_returns (length (b ∷ buf)) (b ∷ buf) o asdu (omega arith) in
    inr (out, ground (arith, first, e))
