-- ===== src/Ringbuf/Hazard/Pool.antt =====
-- internal/ringbuf/hazard.go: HazardPool, whose Free gives a pointer back through the domain.
use wire_bonding_ultra.Prelude.{
  ℕ, ◌+◌, ◌-◌, ◌≡◌, ◌≢◌, refl, ap, ◌∙◌, List, [], ◌∷◌, ◌++◌, arith, true, false, Option, none, some,
  get_or, length, take, ◌==◌, if◌then◌else◌, ==_iff, ne→==false, length-append, take-append_length,
  get_or-append_length,
}
use wire_bonding_ultra.Ringbuf.Hazard.{HazardDomain, Call, retire}
use wire_bonding_ultra.Ringbuf.Hazard.Scan.{Spares, retire-Spares}

-- The function that Free hands to Retire, for its size, and those of the domain's other users.
pub data Reclaim : Type 0 where
  into_pool : ℕ → Reclaim
  user : ℕ → Reclaim

-- `map[int][]unsafe.Pointer`; a size that is not in the map has no pointers.
abbrev pub Pools : Type 0
Pools = ℕ → List ℕ

abbrev pub update : Pools → ℕ → List ℕ → Pools
update pools size ptrs s = if s == size then ptrs else pools s

pub record HazardPool : Type 0 where
  pub pools : Pools
  pub domain : HazardDomain Reclaim

-- `slice[:len(slice)-1]` and its last entry.
abbrev pub last_or : List ℕ → ℕ
last_or ptrs = get_or ptrs (length ptrs - 1) 0

-- `fresh` is the address that the runtime gives to `make([]byte, size)`. `none` is the panic of
-- `&buf[0]` on an empty buffer.
unfoldable pub alloc : ℕ → ℕ → HazardPool → Option (ℕ × HazardPool)
alloc fresh size hp =
    let slice = hp.pools size in
    if length slice == 0
    then (if size == 0 then none else some (fresh, hp))
    else some
        (last_or slice, record hp { pools = update hp.pools size (take (length slice - 1) slice) })

-- What the calls of Scan do to the pools.
unfoldable pub apply_calls : Pools → List (Call Reclaim) → Pools
apply_calls pools [] = pools
apply_calls pools ((into_pool size, p) ∷ calls) =
    apply_calls (update pools size (pools size ++ (p ∷ []))) calls
apply_calls pools ((user u, p) ∷ calls) = apply_calls pools calls

unfoldable pub free : ℕ → ℕ → HazardPool → HazardPool
free ptr size hp =
    let (domain, calls) = retire ptr (some (into_pool size)) hp.domain in
    record { pools = apply_calls hp.pools calls; domain = domain }

-- How often a pointer stands in a pool.
abbrev pub times : ℕ → List ℕ → ℕ
times p [] = 0
times p (q ∷ ptrs) = (if q == p then 1 else 0) + times p ptrs

times-append : (p : ℕ) (xs ys : List ℕ) → times p (xs ++ ys) ≡ times p xs + times p ys
times-append p [] ys = omega arith
times-append p (x ∷ xs) ys = omega (arith, times-append p xs ys)

apply_calls-Spares :
    (p s : ℕ) (pools : Pools) (calls : List (Call Reclaim))
    → Spares p calls
    → times p (apply_calls pools calls s) ≡ times p (pools s)
unfolding apply_calls
apply_calls-Spares p s pools [] h = refl
apply_calls-Spares p s pools ((into_pool size, q) ∷ calls) (ne, h) =
    apply_calls-Spares p s (update pools size (pools size ++ (q ∷ []))) calls h
    ∙ ground (
      arith,
      ap (λ t. times p (pools t)) {x = s} {y = size},
      times-append p (pools size) (q ∷ []),
      ne→==false q p ne,
    )
apply_calls-Spares p s pools ((user u, q) ∷ calls) (ne, h) = apply_calls-Spares p s pools calls h

-- While a guard in use protects a pointer that is not nil, no Free puts it into a pool, from which Alloc could hand
-- it out again.
pub free_spares :
    (hp : HazardPool) (ptr size slot p s : ℕ)
    → get_or hp.domain.in_use slot false ≡ true
    → get_or hp.domain.hz_ptrs slot 0 ≡ p
    → p ≢ 0
    → times p ((free ptr size hp).pools s) ≡ times p (hp.pools s)
unfolding free
free_spares hp ptr size slot p s used held ne =
    apply_calls-Spares p s hp.pools _
      (retire-Spares hp.domain ptr (some (into_pool size)) slot p used held ne)

take-last : (xs : List ℕ) (p : ℕ) → take (length (xs ++ (p ∷ [])) - 1) (xs ++ (p ∷ [])) ≡ xs
take-last xs p =
    ap (λ n. take n (xs ++ (p ∷ []))) {y = length xs} (omega (arith, length-append xs (p ∷ [])))
    ∙ take-append_length xs (p ∷ [])

last_or-append : (xs : List ℕ) (p : ℕ) → last_or (xs ++ (p ∷ [])) ≡ p
last_or-append xs p =
    ap (λ n. get_or (xs ++ (p ∷ [])) n 0) {y = length xs} (omega (arith, length-append xs (p ∷ [])))
    ∙ get_or-append_length xs [] p 0

-- A pointer that was reclaimed into a pool is the next one that Alloc returns for its size, and
-- Alloc leaves the pool as it was before.
pub alloc-reclaimed :
    (fresh size p s : ℕ) (hp : HazardPool)
    → (after : HazardPool) × (alloc fresh size
          (record hp { pools = apply_calls hp.pools ((into_pool size, p) ∷ []) })
        ≡ some (p, after))
      × (after.pools s ≡ hp.pools s)
unfolding alloc apply_calls
alloc-reclaimed fresh size p s hp = (
  record hp {
    pools =
        update (update hp.pools size (hp.pools size ++ (p ∷ []))) size
          (take (length (hp.pools size ++ (p ∷ [])) - 1) (hp.pools size ++ (p ∷ [])));
  },
  ground (
    arith,
    (==_iff size size).1 refl,
    last_or-append (hp.pools size) p,
    length-append (hp.pools size) (p ∷ []),
  ),
  ground (arith, ap hp.pools {x = s} {y = size}, take-last (hp.pools size) p),
)
