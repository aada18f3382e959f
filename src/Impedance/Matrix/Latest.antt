-- ===== src/Impedance/Matrix/Latest.antt =====
-- AppendRow and LatestRow: the row that was appended last is the one that is read.
use wire_bonding_ultra.Prelude.{
  ℕ, ◌+◌, ◌-◌, ◌%◌, ◌<◌, ◌≡◌, refl, sym, ap, ◌∙◌, inl, inr, arith, Bool, true, false, not, ◌&&◌,
  Option, none, some, length, length-set, get_or-set_self, ◌==◌, if◌then◌else◌, Bool-cases,
  ℕ_discrete, length-replicate,
}
use native.Mathlib.Nat.{mod-eq_of_lt, mod_self}
use wire_bonding_ultra.Models.{Phasor, ImpedancePoint}
use wire_bonding_ultra.Models.Arithmetic.{Arithmetic}
use wire_bonding_ultra.Impedance.Matrix.{
  Row, AnomalyEvent, SpatiotemporalMatrix, zero_row, new_matrix, solved, solve_impedance,
  is_anomalous, raise_alarm, row_of, write_row, appended, append_row, latest_row,
}

module _ {ℓ} (arithmetic : Arithmetic {ℓ}) where
  open arithmetic use {F, literal, add, mul, less, sqrt}

  abbrev pub Matrix : Type ℓ
  Matrix = SpatiotemporalMatrix arithmetic

  -- The index is inside the columns, which have as many entries as the matrix has rows.
  abbrev pub IsValid : Matrix → Type 0
  IsValid m = (m.write_idx < m.rows) × (length m.cells ≡ m.rows)

  -- The rows and the index are the same.
  abbrev pub SameRows : Matrix → Matrix → Type ℓ
  SameRows m m' =
      (m'.rows ≡ m.rows) × (m'.write_idx ≡ m.write_idx) × (m'.full ≡ m.full) × (m'.cells ≡ m.cells)

  unfoldable pub Keeps {κ} : {A : Type κ} → Matrix → Matrix × Option A → Type ℓ
  Keeps m x = SameRows m x.0

  same-Keeps {κ} : {A : Type κ} (m m' : Matrix) (o : Option A) → SameRows m m' → Keeps m (m', o)
  unfolding Keeps
  same-Keeps m m' o h = h

  if-Keeps {κ} :
      {A : Type κ} (m : Matrix) (b : Bool) (x y : Matrix × Option A)
      → Keeps m x
      → Keeps m y
      → Keeps m (if b then x else y)
  if-Keeps m true x y hx hy = hx
  if-Keeps m false x y hx hy = hy

  solved-Keeps : (m : Matrix) (zr zi : F) → Keeps m (solved arithmetic m (zr, zi))
  solved-Keeps m zr zi =
      if-Keeps m (less (sqrt (add (mul zr zr) (mul zi zi))) (literal 1 15)) _ _
        (same-Keeps m _ _ (refl, refl, refl, refl)) (same-Keeps m _ _ (refl, refl, refl, refl))

  pub solve_impedance-Keeps :
      (v i : Phasor F) (m : Matrix) → Keeps m (solve_impedance arithmetic v i m)
  unfolding solve_impedance
  solve_impedance-Keeps v i m =
      if-Keeps m (less (add (mul i.real i.real) (mul i.imag i.imag)) (literal 1 12)) _ _
        (same-Keeps m m none (refl, refl, refl, refl)) (solved-Keeps m _ _)

  pub raise_alarm-Keeps :
      (idx : ℕ) (z : ImpedancePoint F) (m : Matrix) → Keeps m (raise_alarm arithmetic idx z m)
  unfolding raise_alarm
  raise_alarm-Keeps idx z m =
      if-Keeps m (m.baseline.locked && is_anomalous arithmetic m z && not (idx == m.last_alarm_idx))
        _ _ (same-Keeps m _ _ (refl, refl, refl, refl))
        (same-Keeps m m none (refl, refl, refl, refl))

  -- What LatestRow makes of a row.
  abbrev pub read_row : Row arithmetic → ImpedancePoint F × F × F × ℕ
  read_row row = (
    record {
      timestamp_ns = row.timestamp;
      resistance = row.zreal;
      reactance = row.zimag;
      magnitude = row.zmag;
      phase = row.zphase;
      seq_no = row.seq_no;
    },
    row.vmag,
    row.imag,
    row.timestamp,
  )

  latest_row-SameRows :
      (m m' : Matrix) → SameRows m m' → latest_row arithmetic m' ≡ latest_row arithmetic m
  unfolding latest_row
  latest_row-SameRows m m' (rows, idx, full, cells) = rw (rows, idx, full, cells) refl

  latest_row-write_row :
      (row : Row arithmetic) (m : Matrix)
      → IsValid m
      → (latest_row arithmetic (write_row arithmetic row m) ≡ some (read_row row))
        × IsValid (write_row arithmetic row m)
  unfolding latest_row write_row
  latest_row-write_row row m (inside, size) =
      let at =
        get_or-set_self m.cells m.write_idx row (zero_row arithmetic)
          (omega (arith, inside, size)) in
      let kept = length-set m.cells m.write_idx row in
      elim (ℕ_discrete (m.write_idx + 1) m.rows) [
        | yes last ↦
            let next : (m.write_idx + 1) % m.rows ≡ 0 =
              ap (λ t. t % m.rows) last ∙ mod_self m.rows in
            let idx : m.rows - 1 ≡ m.write_idx = omega arith in
            (rw (next, idx, at), (omega (arith, next, inside), omega (arith, kept, size)))
        | no short ↦
            let next : (m.write_idx + 1) % m.rows ≡ m.write_idx + 1 = mod-eq_of_lt (omega arith) in
            (ground (arith, next, at), (omega (arith, next, inside), omega (arith, kept, size)))
      ]

  IsValid-SameRows : (m m' : Matrix) → SameRows m m' → IsValid m → IsValid m'
  IsValid-SameRows m m' (rows, idx, full, cells) (inside, size) =
      (omega (arith, rows, idx, inside), ap length cells ∙ size ∙ sym rows)

  -- What AppendRow comes to: nothing is written, or the row is the latest one.
  abbrev pub Appended :
      Phasor F
      → Phasor F
      → ℕ
      → ℕ
      → Matrix
      → Matrix × Option (ImpedancePoint F × Option (AnomalyEvent arithmetic))
      → Type ℓ
  Appended v i seq_no ts m (m', none) = SameRows m m'
  Appended v i seq_no ts m (m', some (zp, event)) =
      (latest_row arithmetic m' ≡ some (zp, v.magnitude, i.magnitude, ts))
      × (zp.seq_no ≡ seq_no)
      × IsValid m'

  appended_lem :
      (v i : Phasor F) (seq_no ts : ℕ) (m m' : Matrix) (o : Option (ImpedancePoint F))
      → SameRows m m'
      → IsValid m
      → Appended v i seq_no ts m (appended arithmetic seq_no ts v i (m', o))
  unfolding Keeps
  appended_lem v i seq_no ts m m' none same h = same
  appended_lem v i seq_no ts m m' (some z) same h =
      let zp = record z { seq_no = seq_no; timestamp_ns = ts } in
      let w = write_row arithmetic (row_of arithmetic v i zp) m' in
      let (latest, valid) =
        latest_row-write_row (row_of arithmetic v i zp) m' (IsValid-SameRows m m' same h) in
      let kept = raise_alarm-Keeps m'.write_idx zp w in
      let r = (raise_alarm arithmetic m'.write_idx zp w).0 in
      (latest_row-SameRows w r kept ∙ latest, refl, IsValid-SameRows w r kept valid)

  -- On a valid matrix AppendRow either reports that the impedance is not solvable and leaves the rows
  -- and the index, or the matrix is valid again and LatestRow gives the point that AppendRow returned,
  -- under its sequence number, with the magnitudes and the time that it was given.
  pub append_row_lem :
      (seq_no ts : ℕ) (v i : Phasor F) (m : Matrix)
      → IsValid m
      → Appended v i seq_no ts m (append_row arithmetic seq_no ts v i m)
  unfolding append_row Keeps
  append_row_lem seq_no ts v i m h =
      let solution = solve_impedance arithmetic v i m in
      appended_lem v i seq_no ts m solution.0 solution.1 (solve_impedance-Keeps v i m) h

  -- A new matrix is valid.
  pub new_matrix-IsValid : (asked : ℕ) → IsValid (new_matrix arithmetic asked)
  unfolding new_matrix
  new_matrix-IsValid asked = elim (Bool-cases (asked == 0)) [
    | inl e ↦ rw e (omega arith, length-replicate 2048 (zero_row arithmetic))
    | inr e ↦ rw e (ground (arith, e), length-replicate asked (zero_row arithmetic))
  ]
