-- ===== src/Ringbuf/Hazard.antt =====
-- internal/ringbuf/hazard.go: HazardDomain, HazardGuard and HazardPool. A pointer is its address,
-- and nil is 0; `C` is the type of the reclaim functions, whose calls are listed in order.
pub mod Guard
pub mod Scan
pub mod Pool
use wire_bonding_ultra.Prelude.{
  ℕ, zero, suc, ◌+◌, ◌%◌, ◌^◌, List, [], ◌∷◌, ◌++◌, Bool, true, false, not, ◌&&◌, ◌||◌, Option,
  none, some, length, get_or, set, replicate, leb, ◌==◌, if◌then◌else◌,
}

abbrev pub hazard_ptr_slots : ℕ
hazard_ptr_slots = 128

abbrev pub retire_batch_size : ℕ
retire_batch_size = 64

pub record RetiredNode {ℓ} (C : Type ℓ) : Type ℓ where
  pub ptr : ℕ
  pub reclaim : Option C
  pub seq : ℕ

-- `inUse` and `hzPtrs` have an entry for each slot.
pub record HazardDomain {ℓ} (C : Type ℓ) : Type ℓ where
  pub hz_ptrs : List ℕ
  pub in_use : List Bool
  pub global_seq : ℕ
  pub retired : List (RetiredNode C)
  pub count : ℕ

pub record HazardGuard : Type 0 where
  pub slot : ℕ
  pub prev : ℕ

-- A call of a reclaim function with its pointer.
abbrev pub Call {ℓ} : Type ℓ → Type ℓ
Call C = C × ℕ

-- The first slot whose compare-and-swap from false succeeds, from index `i` on.
unfoldable pub first_free : List Bool → ℕ → Option ℕ
first_free [] i = none
first_free (false ∷ used) i = some i
first_free (true ∷ used) i = first_free used (i + 1)

-- The pointers that Scan collects from the slots in use.
unfoldable pub hazard_set : List Bool → List ℕ → List ℕ
hazard_set [] ptrs = []
hazard_set (u ∷ used) [] = []
hazard_set (u ∷ used) (p ∷ ptrs) =
    let rest = hazard_set used ptrs in if u && not (p == 0) then p ∷ rest else rest

unfoldable pub contains : List ℕ → ℕ → Bool
contains [] p = false
contains (q ∷ set) p = q == p || contains set p

module _ {ℓ} {C : Type ℓ} where
  unfoldable pub new_hazard_domain : HazardDomain C
  new_hazard_domain = record {
    hz_ptrs = replicate hazard_ptr_slots 0;
    in_use = replicate hazard_ptr_slots false;
    global_seq = 0;
    retired = [];
    count = 0;
  }

  -- `none` is the panic "all hazard pointer slots exhausted".
  unfoldable pub acquire : HazardDomain C → Option (HazardGuard × HazardDomain C)
  acquire hd = elim (first_free hd.in_use 0) [
    | none ↦ none
    | some i ↦ some (record { slot = i; prev = 0 }, record hd { in_use = set hd.in_use i true })
  ]

  unfoldable pub protect : HazardGuard → ℕ → HazardDomain C → HazardGuard × HazardDomain C
  protect hg ptr hd = (
    record hg { prev = get_or hd.hz_ptrs hg.slot 0 },
    record hd { hz_ptrs = set hd.hz_ptrs hg.slot ptr },
  )

  unfoldable pub clear : HazardGuard → HazardDomain C → HazardGuard × HazardDomain C
  clear hg hd = (record hg { prev = 0 }, record hd { hz_ptrs = set hd.hz_ptrs hg.slot hg.prev })

  unfoldable pub release : HazardGuard → HazardDomain C → HazardDomain C
  release hg hd = record hd {
    hz_ptrs = set hd.hz_ptrs hg.slot 0;
    in_use = set hd.in_use hg.slot false;
  }

  -- `if node.reclaim != nil { node.reclaim(node.ptr) }`
  abbrev pub reclaim_call : Option C → ℕ → List (Call C)
  reclaim_call none ptr = []
  reclaim_call (some c) ptr = (c, ptr) ∷ []

  -- The loop of Scan over the retired nodes: those that stay, and the calls made for the others.
  unfoldable pub sweep : List ℕ → List (RetiredNode C) → List (RetiredNode C) × List (Call C)
  sweep hazards [] = ([], [])
  sweep hazards (node ∷ nodes) =
      let (keep, calls) = sweep hazards nodes in
      if contains hazards node.ptr
      then (node ∷ keep, calls)
      else (keep, reclaim_call node.reclaim node.ptr ++ calls)

  unfoldable pub scan : HazardDomain C → HazardDomain C × List (Call C)
  scan hd =
      let (remaining, calls) = sweep (hazard_set hd.in_use hd.hz_ptrs) hd.retired in
      (record hd { retired = remaining; count = length remaining }, calls)

  -- What Retire has done before it looks at the count.
  abbrev pub enlist : ℕ → Option C → HazardDomain C → HazardDomain C
  enlist ptr reclaim hd =
      let seq = (hd.global_seq + 1) % 2 ^ 64 in
      record hd {
        global_seq = seq;
        retired = hd.retired ++ (record { ptr = ptr; reclaim = reclaim; seq = seq } ∷ []);
        count = hd.count + 1;
      }

  unfoldable pub retire : ℕ → Option C → HazardDomain C → HazardDomain C × List (Call C)
  retire ptr reclaim hd =
      let hd' = enlist ptr reclaim hd in
      if leb retire_batch_size hd'.count then scan hd' else (hd', [])
