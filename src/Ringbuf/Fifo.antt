-- ===== src/Ringbuf/Fifo.antt =====
-- The contract of a ring: a queue of at most `cap` items, oldest first.
use wire_bonding_ultra.Prelude.{ℕ, ◌<◌, ◌≡◌, arith, List, [], ◌∷◌, ◌++◌, Bool, true, false}
use wire_bonding_ultra.Prelude.{length, ◌==◌, if◌then◌else◌}

-- A client's calls, and what it sees of each: the value (the zero value where there is none) and
-- the Boolean that the call returns.
pub data Op {ℓ} (A : Type ℓ) : Type ℓ where
  enqueue : A → Op A
  dequeue : Op A

module _ {ℓ} {A : Type ℓ} (zero_value : A) where
  unfoldable pub push : ℕ → List A → A → Bool × List A
  push cap q x = if length q == cap then (false, q) else (true, q ++ (x ∷ []))

  unfoldable pub pop : List A → A × Bool × List A
  pop [] = (zero_value, false, [])
  pop (x ∷ q) = (x, true, q)

  -- The queue's answers to a sequence of calls.
  unfoldable pub run : ℕ → List A → List (Op A) → List (A × Bool)
  run cap q [] = []
  run cap q (enqueue x ∷ ops) = let (done, q') = push cap q x in (zero_value, done) ∷ run cap q' ops
  run cap q (dequeue ∷ ops) = let (x, done, q') = pop q in (x, done) ∷ run cap q' ops

  pub push_room :
      (cap : ℕ) (q : List A) (x : A) → length q < cap → push cap q x ≡ (true, q ++ (x ∷ []))
  unfolding push
  push_room cap q x h = ground arith

  pub push_full : (cap : ℕ) (q : List A) (x : A) → length q ≡ cap → push cap q x ≡ (false, q)
  unfolding push
  push_full cap q x h = ground arith
