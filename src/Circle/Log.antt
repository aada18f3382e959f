-- ===== src/Circle/Log.antt =====
-- A circular buffer after a log of writes holds the end of the log.
use wire_bonding_ultra.Prelude.{
  ℕ, zero, suc, ◌-◌, ◌<◌, ◌≤◌, ◌≡◌, refl, sym, ap, ◌∙◌, List, [], ◌∷◌, ◌++◌, append_assoc,
  append-nil, arith, Bool, true, false, inl, inr, length, length-append, length-replicate,
  length-drop, drop, drop-drop, leb, drop-nil, if◌then◌else◌, Bool-cases, dec_lt, min,
}
use wire_bonding_ultra.Circle.{Circle, empty_circle, put, contents, IsValid}
use wire_bonding_ultra.Circle.Window.{
  slide, slide_full, slide_short, put-IsValid, contents-put, length-contents,
}

le→leb : (a b : ℕ) → a ≤ b → leb a b ≡ true
le→leb a b h = ground arith

lt→leb_false : (a b : ℕ) → a < b → leb b a ≡ false
lt→leb_false a b h = ground arith

module _ {ℓ} {A : Type ℓ} where
  -- The entries of a log, one after another.
  unfoldable pub put_all : List A → Circle A → Circle A
  unfolding put
  put_all [] c = c
  put_all (x ∷ xs) c = put_all xs (put x c)

  pub put-capacity : (x : A) (c : Circle A) → (put x c).capacity ≡ c.capacity
  unfolding put
  put-capacity x c = refl

  -- The last `n` entries of a list.
  abbrev pub last : ℕ → List A → List A
  last n xs = drop (length xs - n) xs

  drop_one-drop_short : (k : ℕ) (xs : List A) → drop 1 (drop k xs) ≡ drop (suc k) xs
  drop_one-drop_short k xs = drop-drop 1 k xs ∙ ap (λ j. drop j xs) {y = suc k} (omega arith)

  drop-append_short : (k : ℕ) (xs ys : List A) → k ≤ length xs → drop k (xs ++ ys) ≡ drop k xs ++ ys
  drop-append_short zero xs ys h = refl
  drop-append_short (suc k) [] ys h = absurd (omega arith)
  drop-append_short (suc k) (x ∷ xs) ys h = drop-append_short k xs ys (omega arith)

  pub length-last : (n : ℕ) (xs : List A) → length (last n xs) ≡ min n (length xs)
  length-last n xs = omega (arith, length-drop (length xs - n) xs)

  -- A window that is the end of a log slides to the end of the longer log.
  slide-last :
      (capacity : ℕ) (log : List A) (x : A)
      → 0 < capacity
      → slide capacity (last capacity log) x ≡ last capacity (log ++ (x ∷ []))
  slide-last capacity log x h =
      let size = length-last capacity log in
      let longer = length-append log (x ∷ []) in
      elim (dec_lt (length log) capacity) [
        | yes short ↦
            let all : length log - capacity ≡ 0 = omega arith in
            let all' : length (log ++ (x ∷ [])) - capacity ≡ 0 = omega (arith, longer) in
            slide_short capacity (last capacity log) x (omega (arith, size)) ∙ rw (all, all') refl
        | no long ↦
            let k = length log - capacity in
            let next : length (log ++ (x ∷ [])) - capacity ≡ suc k = omega (arith, longer) in
            slide_full capacity (last capacity log) x (omega (arith, size))
            ∙ ap (λ t. t ++ (x ∷ [])) (drop_one-drop_short k log)
            ∙ sym (drop-append_short (suc k) log (x ∷ []) (omega arith))
            ∙ ap (λ j. drop j (log ++ (x ∷ []))) (sym next)
      ]

  pub contents-put_all :
      (log xs : List A) (c : Circle A)
      → IsValid c
      → contents c ≡ last c.capacity log
      → contents (put_all xs c) ≡ last c.capacity (log ++ xs)
  unfolding put_all
  contents-put_all log [] c v e = e ∙ ap (last c.capacity) (sym (append-nil log))
  contents-put_all log (x ∷ xs) c v e =
      contents-put_all (log ++ (x ∷ [])) xs (put x c) (put-IsValid x c v) (
        contents-put x c v
        ∙ ap (λ w. slide c.capacity w x) e
        ∙ slide-last c.capacity log x (omega (arith, v.inside)))
      ∙ ap (last c.capacity) (append_assoc log (x ∷ []) xs)

  pub empty_circle-IsValid :
      (d : A) (capacity : ℕ) → 0 < capacity → IsValid (empty_circle d capacity)
  unfolding empty_circle
  empty_circle-IsValid d capacity h = record { inside = h; sized = length-replicate capacity d }

  pub put_all-IsValid : (xs : List A) (c : Circle A) → IsValid c → IsValid (put_all xs c)
  unfolding put_all
  put_all-IsValid [] c v = v
  put_all-IsValid (x ∷ xs) c v = put_all-IsValid xs (put x c) (put-IsValid x c v)

  pub put_all-append :
      (xs : List A) (x : A) (c : Circle A) → put_all (xs ++ (x ∷ [])) c ≡ put x (put_all xs c)
  unfolding put_all
  put_all-append [] x c = refl
  put_all-append (y ∷ xs) x c = put_all-append xs x (put y c)

  pub put_all-capacity : (xs : List A) (c : Circle A) → (put_all xs c).capacity ≡ c.capacity
  unfolding put_all
  put_all-capacity [] c = refl
  put_all-capacity (x ∷ xs) c = put_all-capacity xs (put x c) ∙ put-capacity x c

  -- After a log into a new buffer: what it holds, its capacity, and whether the first lap is over.
  pub record Logged (log : List A) (capacity : ℕ) (c : Circle A) : Type ℓ where
    pub valid : IsValid c
    pub same_capacity : c.capacity ≡ capacity
    pub holds : contents c ≡ last capacity log
    pub full_iff : c.full ≡ leb capacity (length log)

  pub put_all-Logged :
      (d : A) (capacity : ℕ) (log : List A)
      → 0 < capacity
      → Logged log capacity (put_all log (empty_circle d capacity))
  unfolding empty_circle
  put_all-Logged d capacity log h =
      let empty = empty_circle d capacity in
      let c = put_all log empty in
      let valid = empty_circle-IsValid d capacity h in
      let v = put_all-IsValid log empty valid in
      let same : c.capacity ≡ capacity = put_all-capacity log empty in
      let holds : contents c ≡ last capacity log =
        contents-put_all [] log empty valid (sym (drop-nil (0 - capacity))) in
      let size : length (contents c) ≡ min capacity (length log) =
        ap length holds ∙ length-last capacity log in
      let sum = length-contents c v in
      record {
        valid = v;
        same_capacity = same;
        holds = holds;
        full_iff = elim (Bool-cases c.full) [
          | inl e ↦
              let all : length (contents c) ≡ c.capacity =
                sum ∙ ap (λ (b : Bool). if b then c.capacity else c.idx) e in
              e ∙ sym (le→leb capacity (length log) (omega (arith, all, size, same)))
          | inr e ↦
              let some_only : length (contents c) ≡ c.idx =
                sum ∙ ap (λ (b : Bool). if b then c.capacity else c.idx) e in
              e
              ∙ sym (
                  lt→leb_false (length log) capacity
                    (omega (arith, some_only, size, same, v.inside)))
        ];
      }

  pub empty_circle-capacity : (d : A) (capacity : ℕ) → (empty_circle d capacity).capacity ≡ capacity
  unfolding empty_circle
  empty_circle-capacity d capacity = refl
