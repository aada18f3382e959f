-- ===== src/Impedance/Matrix/Snapshot.antt =====
-- SnapshotRecent: the rows that were appended last, in order.
use wire_bonding_ultra.Prelude.{ℕ, ◌≡◌, refl, ap, ◌∙◌, arith, List, [], ◌∷◌, Option, none, some}
use wire_bonding_ultra.Models.{Phasor, ImpedancePoint}
use wire_bonding_ultra.Models.Arithmetic.{Arithmetic}
use wire_bonding_ultra.Circle.{empty_circle, put, recent}
use wire_bonding_ultra.Circle.Log.{last, put_all}
use wire_bonding_ultra.Circle.Recent.{shown, recent-put_all}
use wire_bonding_ultra.Impedance.Matrix.{
  Row, AnomalyEvent, zero_row, new_matrix, solve_impedance, raise_alarm, row_of, write_row,
  appended, append_row, ring, snapshot_recent,
}
use wire_bonding_ultra.Impedance.Matrix.Latest.{
  Matrix, Keeps, SameRows, solve_impedance-Keeps, raise_alarm-Keeps,
}

module _ {ℓ} (arithmetic : Arithmetic {ℓ}) where
  open arithmetic use {F}

  pub record Input : Type ℓ where
    pub seq_no : ℕ
    pub ts : ℕ
    pub voltage : Phasor F
    pub current : Phasor F

  abbrev Result : Type ℓ
  Result = Option (ImpedancePoint F × Option (AnomalyEvent arithmetic))

  abbrev pub append : Input → Matrix arithmetic → Matrix arithmetic × Result
  append x = append_row arithmetic x.seq_no x.ts x.voltage x.current

  -- The row that a result stands for, in front of the rows of the later ones.
  abbrev pub row_before : Input → Result → List (Row arithmetic) → List (Row arithmetic)
  row_before x none rows = rows
  row_before x (some (zp, event)) rows = row_of arithmetic x.voltage x.current zp ∷ rows

  -- The matrix after a log of inputs, and the rows of those that AppendRow took.
  unfoldable pub append_all : List Input → Matrix arithmetic → Matrix arithmetic
  unfolding append_row
  append_all [] m = m
  append_all (x ∷ xs) m = append_all xs (append x m).0

  unfoldable pub rows_taken : List Input → Matrix arithmetic → List (Row arithmetic)
  unfolding append_row
  rows_taken [] m = []
  rows_taken (x ∷ xs) m = row_before x (append x m).1 (rows_taken xs (append x m).0)

  ring-SameRows :
      (m m' : Matrix arithmetic) → SameRows arithmetic m m' → ring arithmetic m' ≡ ring arithmetic m
  ring-SameRows m m' (rows, idx, full, cells) =
      λ i. record { slots = cells i; capacity = rows i; idx = idx i; full = full i }

  appended-ring :
      (x : Input) (m m' : Matrix arithmetic) (z : Option (ImpedancePoint F))
      (rows : List (Row arithmetic))
      → SameRows arithmetic m m'
      → put_all rows
          (ring arithmetic (appended arithmetic x.seq_no x.ts x.voltage x.current (m', z)).0)
        ≡ put_all
            (row_before x (appended arithmetic x.seq_no x.ts x.voltage x.current (m', z)).1 rows)
            (ring arithmetic m)
  unfolding put_all write_row put Keeps
  appended-ring x m m' none rows same = ap (put_all rows) (ring-SameRows m m' same)
  appended-ring x m m' (some z) rows same =
      let zp : ImpedancePoint F = record z { seq_no = x.seq_no; timestamp_ns = x.ts } in
      let row = row_of arithmetic x.voltage x.current zp in
      let w = write_row arithmetic row m' in
      let kept = raise_alarm-Keeps arithmetic m'.write_idx zp w in
      let r = (raise_alarm arithmetic m'.write_idx zp w).0 in
      ap (put_all rows) (ring-SameRows w r kept)
      ∙ ap (λ c. put_all rows (put row c)) (ring-SameRows m m' same)

  append-ring :
      (x : Input) (m : Matrix arithmetic) (rows : List (Row arithmetic))
      → put_all rows (ring arithmetic (append x m).0)
        ≡ put_all (row_before x (append x m).1 rows) (ring arithmetic m)
  unfolding append_row Keeps
  append-ring x m rows =
      let solution = solve_impedance arithmetic x.voltage x.current m in
      appended-ring x m solution.0 solution.1 rows
        (solve_impedance-Keeps arithmetic x.voltage x.current m)

  append_all-ring :
      (xs : List Input) (m : Matrix arithmetic)
      → ring arithmetic (append_all xs m) ≡ put_all (rows_taken xs m) (ring arithmetic m)
  unfolding append_all rows_taken put_all
  append_all-ring [] m = refl
  append_all-ring (x ∷ xs) m =
      append_all-ring xs (append x m).0 ∙ append-ring x m (rows_taken xs (append x m).0)

  -- After any log of phasors into a new matrix, a snapshot has the last rows that AppendRow took, as
  -- many as were asked for, are there and fit, oldest first.
  pub snapshot_recent_lem :
      (asked last_n : ℕ) (xs : List Input)
      → let new = new_matrix arithmetic asked in
        (snapshot_recent arithmetic last_n (append_all xs new)).entries
        ≡ last (shown last_n new.rows (rows_taken xs new)) (rows_taken xs new)
  unfolding snapshot_recent new_matrix empty_circle
  snapshot_recent_lem asked last_n xs =
      let new = new_matrix arithmetic asked in
      ap (recent (zero_row arithmetic) last_n) (append_all-ring xs new)
      ∙ recent-put_all (zero_row arithmetic) last_n new.rows (rows_taken xs new) (ground arith)
