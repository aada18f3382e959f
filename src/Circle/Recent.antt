-- ===== src/Circle/Recent.antt =====
-- Reading back the last entries of a circular buffer.
use wire_bonding_ultra.Prelude.{
  ℕ, zero, suc, ◌+◌, ◌-◌, ◌%◌, ◌<◌, ◌≤◌, ◌≡◌, refl, sym, ap, ap₂, subst, ◌∙◌, List, [], ◌∷◌, ◌++◌,
  arith, Bool, true, false, ◌||◌, length, length-drop, get_or, get_or-drop, get_or-append_left,
  drop-append_length, drop_all, drop-drop, take, drop, ltb, ◌==◌, if◌then◌else◌, dec_lt, min,
}
use native.Mathlib.Nat.{mod-eq_of_lt, add-mod_right}
use wire_bonding_ultra.Circle.{
  Circle, empty_circle, read_from, total, recent, held, contents, IsValid,
}
use wire_bonding_ultra.Circle.Window.{length-contents}
use wire_bonding_ultra.Circle.Log.{last, put_all, put_all-Logged, length-last}

-- Indices around the end of the slots.
wrap : (a b : ℕ) → b ≤ a → a - b < b → a % b ≡ a - b
wrap a b h s =
    ap (λ t. t % b) {y = a - b + b} (omega arith) ∙ add-mod_right (a - b) b ∙ mod-eq_of_lt s

start_lem :
    (full : Bool) (idx capacity size n j : ℕ)
    → idx < capacity
    → size ≡ (if full then capacity else idx)
    → n ≤ size
    → ((if ltb idx n then idx + capacity - n else idx - n) + j) % capacity
      ≡ (if full then idx + (size - n + j) else size - n + j) % capacity
start_lem true idx capacity size n j h e s = elim (dec_lt idx n) [
  | yes less ↦
      let test : ltb idx n ≡ true = ground arith in rw test (ap (λ t. t % capacity) (omega arith))
  | no more ↦
      let test : ltb idx n ≡ false = ground arith in
      rw test (sym (add-mod_right (idx - n + j) capacity) ∙ ap (λ t. t % capacity) (omega arith))
]
start_lem false idx capacity size n j h e s =
    let test : ltb idx n ≡ false = ground arith in rw test (ap (λ t. t % capacity) (omega arith))

module _ {ℓ} {A : Type ℓ} where
  get_or-take : (n i : ℕ) (xs : List A) (d : A) → i < n → get_or (take n xs) i d ≡ get_or xs i d
  get_or-take zero i xs d h = absurd (omega arith)
  get_or-take (suc n) i [] d h = refl
  get_or-take (suc n) zero (x ∷ xs) d h = refl
  get_or-take (suc n) (suc i) (x ∷ xs) d h = get_or-take n i xs d (omega arith)

  get_or-append_right :
      (xs ys : List A) (i : ℕ) (d : A) → get_or (xs ++ ys) (length xs + i) d ≡ get_or ys i d
  get_or-append_right xs ys i d =
      get_or-drop (length xs) i (xs ++ ys) d ∙ ap (λ t. get_or t i d) (drop-append_length xs ys)

  -- The entry `j` of what a buffer holds, in the slots.
  get_or-held :
      (full : Bool) (idx : ℕ) (slots : List A) (j : ℕ) (d : A)
      → idx < length slots
      → j < (if full then length slots else idx)
      → get_or (held full idx slots) j d
        ≡ get_or slots ((if full then idx + j else j) % length slots) d
  get_or-held true idx slots j d h i =
      let behind = length-drop idx slots in
      elim (dec_lt j (length slots - idx)) [
        | yes near ↦
            get_or-append_left (drop idx slots) (take idx slots) j d (omega (arith, behind))
            ∙ sym (get_or-drop idx j slots d)
            ∙ ap (λ k. get_or slots k d) (sym (mod-eq_of_lt (omega arith)))
        | no far ↦
            let k = j - (length slots - idx) in
            ap (λ t. get_or (held true idx slots) t d) {y = length (drop idx slots) + k}
              (omega (arith, behind))
            ∙ get_or-append_right (drop idx slots) (take idx slots) k d
            ∙ get_or-take idx k slots d (omega arith)
            ∙ ap (λ t. get_or slots t d) {y = (idx + j) % length slots}
                (sym (wrap (idx + j) (length slots) (omega arith) (omega arith) ∙ omega arith))
      ]
  get_or-held false idx slots j d h i =
      get_or-take idx j slots d i ∙ ap (λ k. get_or slots k d) (sym (mod-eq_of_lt (omega arith)))

  drop-get_or :
      (k : ℕ) (xs : List A) (d : A) → k < length xs → drop k xs ≡ get_or xs k d ∷ drop (suc k) xs
  drop-get_or k [] d h = absurd (omega arith)
  drop-get_or zero (x ∷ xs) d h = refl
  drop-get_or (suc k) (x ∷ xs) d h = drop-get_or k xs d (omega arith)

  -- Reading entry by entry gives the end of the list that has these entries.
  read_from-drop :
      (d : A) (c : Circle A) (start n i : ℕ) (xs : List A) (k : ℕ)
      → k + n ≡ length xs
      → ((j : ℕ) → j < n → get_or c.slots ((start + (i + j)) % c.capacity) d ≡ get_or xs (k + j) d)
      → read_from d c start n i ≡ drop k xs
  unfolding read_from
  read_from-drop d c start zero i xs k size same = sym (drop_all k xs (omega arith))
  read_from-drop d c start (suc n) i xs k size same =
      let here : get_or c.slots ((start + i) % c.capacity) d ≡ get_or xs k d =
        ap (λ t. get_or c.slots ((start + t) % c.capacity) d) {y = i + 0} (omega arith)
        ∙ same 0 (omega arith)
        ∙ ap (λ t. get_or xs t d) (omega arith) in
      let rest = read_from-drop d c start n (i + 1) xs (suc k) (omega arith) (λ (j : ℕ) (h : j < n).
        ap (λ t. get_or c.slots ((start + t) % c.capacity) d) {y = i + suc j} (omega arith)
        ∙ same (suc j) (omega arith)
        ∙ ap (λ t. get_or xs t d) (omega arith)) in
      ap₂ (λ (y : A) (ys : List A). y ∷ ys) here rest ∙ sym (drop-get_or k xs d (omega arith))

  -- How many entries are read.
  abbrev pub asked : ℕ → Circle A → ℕ
  asked count c = if count == 0 || ltb (total c) count then total c else count

  asked-le_total : (count : ℕ) (c : Circle A) → asked count c ≤ total c
  asked-le_total count c = ground arith

  -- What is read from a valid buffer is the end of what it holds, oldest entry first.
  pub recent_lem :
      (d : A) (count : ℕ) (c : Circle A)
      → IsValid c
      → recent d count c ≡ last (asked count c) (contents c)
  unfolding recent
  recent_lem d count c v =
      let size = length-contents c v in
      let n = asked count c in
      let few : n ≤ length (contents c) = omega (arith, asked-le_total count c, size) in
      let start = if ltb c.idx n then c.idx + c.capacity - n else c.idx - n in
      let k = length (contents c) - n in
      let inside : c.idx < length c.slots = omega (arith, v.inside, v.sized) in
      read_from-drop d c start n 0 (contents c) k (omega (arith, few)) (λ (j : ℕ) (h : j < n).
        ap (λ t. get_or c.slots ((start + t) % c.capacity) d) {x = 0 + j} {y = j} (omega arith)
        ∙ ap (λ t. get_or c.slots t d)
            (start_lem c.full c.idx c.capacity (length (contents c)) n j v.inside size few)
        ∙ ap (λ t. get_or c.slots ((if c.full then c.idx + (k + j) else k + j) % t) d) (sym v.sized)
        ∙ sym (
            get_or-held c.full c.idx c.slots (k + j) d inside (
              subst (λ t. k + j < (if c.full then t else c.idx)) (sym v.sized)
                (omega (arith, size, few, h)))))

  -- Once around from the next slot to write, a full buffer is read as a whole.
  pub read_all :
      (d : A) (c : Circle A)
      → IsValid c
      → c.full ≡ true
      → read_from d c c.idx c.capacity 0 ≡ contents c
  read_all d c v e =
      let size : length (contents c) ≡ c.capacity =
        length-contents c v ∙ ap (λ b. if b then c.capacity else c.idx) e in
      read_from-drop d c c.idx c.capacity 0 (contents c) 0 (omega (arith, size))
        (λ (j : ℕ) (h : j < c.capacity).
          let inside : c.idx < length c.slots = omega (arith, v.inside, v.sized) in
          let near : j < (if c.full then length c.slots else c.idx) =
            subst (λ b. j < (if b then length c.slots else c.idx)) (sym e)
              (omega (arith, h, v.sized)) in
          ap (λ t. get_or c.slots ((c.idx + t) % c.capacity) d) {x = 0 + j} {y = j} (omega arith)
          ∙ ap (λ b. get_or c.slots ((if b then c.idx + j else j) % c.capacity) d) (sym e)
          ∙ ap (λ t. get_or c.slots ((if c.full then c.idx + j else j) % t) d) (sym v.sized)
          ∙ sym (get_or-held c.full c.idx c.slots j d inside near)
          ∙ ap (λ t. get_or (contents c) t d) {x = j} {y = 0 + j} (omega arith))

  last-last : (n m : ℕ) (xs : List A) → n ≤ min m (length xs) → last n (last m xs) ≡ last n xs
  last-last n m xs h =
      let size = length-last m xs in
      drop-drop (length (last m xs) - n) (length xs - m) xs
      ∙ ap (λ k. drop k xs) {y = length xs - n} (omega (arith, size))

  -- How many entries are read after a log of writes.
  abbrev pub shown : ℕ → ℕ → List A → ℕ
  shown count capacity log =
      let kept = min (length log) capacity in if count == 0 then kept else min count kept

  asked-shown :
      (count capacity : ℕ) (log : List A) (c : Circle A)
      → total c ≡ min (length log) capacity
      → asked count c ≡ shown count capacity log
  asked-shown count capacity log c h = ground (arith, h)

  -- After any log of writes into a new buffer, the last `count` entries are read, or as many of them as
  -- there are and as the buffer has slots: the end of the log, oldest entry first.
  pub recent-put_all :
      (d : A) (count capacity : ℕ) (log : List A)
      → 0 < capacity
      → recent d count (put_all log (empty_circle d capacity)) ≡ last (shown count capacity log) log
  recent-put_all d count capacity log h =
      let c = put_all log (empty_circle d capacity) in
      let logged = put_all-Logged d capacity log h in
      let sum : total c ≡ min (length log) capacity =
        sym (length-contents c logged.valid)
        ∙ ap length logged.holds
        ∙ length-last capacity log
        ∙ omega arith in
      recent_lem d count c logged.valid
      ∙ ap (λ k. last k (contents c)) (asked-shown count capacity log c sum)
      ∙ ap (last (shown count capacity log)) logged.holds
      ∙ last-last (shown count capacity log) capacity log (ground arith)
