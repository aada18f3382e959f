-- ===== src/Packetcap/Decode.antt =====
-- DecodeFull on a frame that buildSVFramePureGo builds, down to its samples.
use wire_bonding_ultra.Prelude.{
  ℕ, zero, suc, ◌+◌, ◌*◌, ◌/◌, ◌%◌, ◌^◌, ◌<◌, bit_or, ◌≡◌, refl, sym, ap, ◌∙◌, List, [], ◌∷◌, ◌++◌,
  arith, length, get_or, ◌-◌, drop, drop-drop, get_or-drop, ltb, leb, true, false,
}
use wire_bonding_ultra.Prelude.Bits.{bit_or-add}
use wire_bonding_ultra.Models.{RawFrame}
use wire_bonding_ultra.Iec61850.Result.{ok}
use wire_bonding_ultra.Iec61850.Frame.{be32, sv_header, parse_ethernet_header, parse_sv_header}
use wire_bonding_ultra.Packetcap.{
  Waveform, word, seq_data_from, build_asdu, build_apdu, build_sv_frame,
}

-- A frame with the fixed header of the built ones.
abbrev pub framed : ℕ → ℕ → List ℕ → List ℕ
framed hi lo apdu =
    1 ∷ 1 ∷ 1 ∷ 1 ∷ 1 ∷ 1 ∷ 2 ∷ 2 ∷ 2 ∷ 2 ∷ 2 ∷ 2 ∷ 0x88 ∷ 0xba ∷ 0 ∷ 1 ∷ hi ∷ lo ∷ 0 ∷ 0 ∷ 0 ∷ 0
    ∷ apdu

abbrev pub frame : ℕ → ℕ → List ℕ → ℕ → RawFrame
frame hi lo apdu rx = record {
  rx_time_ns = rx;
  payload = framed hi lo apdu;
  length = length (framed hi lo apdu);
  ether_type = 0x88ba;
  src_mac = 2 ∷ 2 ∷ 2 ∷ 2 ∷ 2 ∷ 2 ∷ [];
  dst_mac = 1 ∷ 1 ∷ 1 ∷ 1 ∷ 1 ∷ 1 ∷ [];
}

pub build_sv_frame-frame :
    (wave : Waveform) (smpcnt n phase_acc rx : ℕ)
    → (let apdu = build_apdu (build_asdu wave smpcnt n phase_acc) in
        build_sv_frame wave smpcnt n phase_acc rx
        ≡ frame (length apdu / 2 ^ 8 % 2 ^ 8) (length apdu % 2 ^ 8) apdu rx)
unfolding build_sv_frame
build_sv_frame-frame wave smpcnt n phase_acc rx = refl

pub parse_ethernet_header-frame :
    (hi lo : ℕ) (apdu : List ℕ) (rx : ℕ)
    → parse_ethernet_header (frame hi lo apdu rx) ≡ (frame hi lo apdu rx, ok 14)
unfolding parse_ethernet_header
parse_ethernet_header-frame hi lo apdu rx =
    let long : ltb (length (framed hi lo apdu)) 14 ≡ false = ground arith in rw long

pub parse_sv_header-frame :
    (hi lo : ℕ) (apdu : List ℕ)
    → parse_sv_header (framed hi lo apdu) 14 ≡ ok (sv_header (framed hi lo apdu) 14, 22)
unfolding parse_sv_header
parse_sv_header-frame hi lo apdu =
    let room : leb 8 (length (framed hi lo apdu) - 14) ≡ true = ground arith in rw room

joined :
    (a b c d : ℕ)
    → b < 256
    → c < 256
    → d < 256
    → bit_or (bit_or (bit_or (a * 2 ^ 24) (b * 2 ^ 16)) (c * 2 ^ 8)) d
      ≡ ((a * 256 + b) * 256 + c) * 256 + d
joined a b c d hb hc hd =
    ap (λ t. bit_or (bit_or t (c * 2 ^ 8)) d)
      (bit_or-add 24 a (b * 2 ^ 16) (omega arith) ∙ omega arith)
    ∙ ap (λ t. bit_or t d) (bit_or-add 16 (a * 256 + b) (c * 2 ^ 8) (omega arith) ∙ omega arith)
    ∙ bit_or-add 8 ((a * 256 + b) * 256 + c) d (omega arith)
    ∙ omega arith

-- A word that stands at an offset is read back.
be32-word :
    (buf : List ℕ) (o n : ℕ) (rest : List ℕ) → drop o buf ≡ word n ++ rest → be32 buf o ≡ n % 2 ^ 32
be32-word buf o n rest e =
    let byte : (j : ℕ) → get_or buf (o + j) 0 ≡ get_or (word n ++ rest) j 0 =
      λ j. get_or-drop o j buf 0 ∙ ap (λ t. get_or t j 0) e in
    let first : get_or buf o 0 ≡ n / 2 ^ 24 % 2 ^ 8 =
      ap (λ k. get_or buf k 0) {x = o} {y = o + 0} (omega arith) ∙ byte 0 in
    rw (first, byte 1, byte 2, byte 3)
      (joined (n / 2 ^ 24 % 2 ^ 8) (n / 2 ^ 16 % 2 ^ 8) (n / 2 ^ 8 % 2 ^ 8) (n % 2 ^ 8)
          (omega arith) (omega arith) (omega arith)
        ∙ omega arith)

-- The phase of sample `i`, and the pair of words that the waveform gives for it.
abbrev pub pair_at : Waveform → ℕ → ℕ → ℕ × ℕ
pair_at wave phase_acc i = wave ((phase_acc + i * 169 % 2 ^ 32) % 2 ^ 32)

seq_data_from-drop :
    (wave : Waveform) (phase_acc n i k : ℕ)
    → k < n
    → (rest : List ℕ) × (drop (k * 8) (seq_data_from wave phase_acc n i)
        ≡ word ((pair_at wave phase_acc (i + k)).0)
          ++ (word ((pair_at wave phase_acc (i + k)).1) ++ rest))
unfolding seq_data_from
seq_data_from-drop wave phase_acc zero i k h = absurd (omega arith)
seq_data_from-drop wave phase_acc (suc n) i zero h = (
  seq_data_from wave phase_acc n (i + 1),
  ap
      (λ j.
        word ((pair_at wave phase_acc j).0)
        ++ (word ((pair_at wave phase_acc j).1) ++ seq_data_from wave phase_acc n (i + 1)))
      {x = i} {y = i + 0} (omega arith),
)
seq_data_from-drop wave phase_acc (suc n) i (suc k) h =
    let (rest, e) = seq_data_from-drop wave phase_acc n (i + 1) k (omega arith) in
    let all = seq_data_from wave phase_acc (suc n) i in
    (
      rest,
      ap (λ t. drop t all) {x = suc k * 8} {y = 8 + k * 8} (omega arith)
          ∙ sym (drop-drop (k * 8) 8 all)
          ∙ e
          ∙ ap
              (λ j.
                word ((pair_at wave phase_acc j).0)
                ++ (word ((pair_at wave phase_acc j).1) ++ rest))
              {x = i + 1 + k} {y = i + suc k} (omega arith),
    )

pub seq_data_from-words :
    (wave : Waveform) (phase_acc n k : ℕ)
    → k < n
    → (let seq = seq_data_from wave phase_acc n 0 in
        (be32 seq (k * 8) ≡ (pair_at wave phase_acc k).0 % 2 ^ 32)
        × (be32 seq (k * 8 + 4) ≡ (pair_at wave phase_acc k).1 % 2 ^ 32))
seq_data_from-words wave phase_acc n k h =
    let seq = seq_data_from wave phase_acc n 0 in
    let (rest, e) = seq_data_from-drop wave phase_acc n 0 k h in
    let c = (pair_at wave phase_acc (0 + k)).0 in
    let v = (pair_at wave phase_acc (0 + k)).1 in
    let same = ap (pair_at wave phase_acc) {x = 0 + k} {y = k} (omega arith) in
    (
      be32-word seq (k * 8) c (word v ++ rest) e ∙ ap (λ p. p.0 % 2 ^ 32) same,
      be32-word seq (k * 8 + 4) v rest (sym (drop-drop 4 (k * 8) seq) ∙ ap (drop 4) e)
          ∙ ap (λ p. p.1 % 2 ^ 32) same,
    )
