-- ===== src/Frames/Remaining.antt =====
-- What the bump allocator may still hand out, and that a block it hands out is taken from there.
use kados_ng.Base.{ℕ, ◌+◌, ◌*◌, ◌%◌, ◌^◌, ◌≤◌, ◌<◌, ◌≡◌, ◌⊎◌, refl, arith, inl, inr, All}
use kados_ng.Base.{List, [], ◌∷◌, Bool-cases, false, ltb}
use kados_ng.Arch.{page_size, wrapping_add, wrapping_sub}
use kados_ng.Mem.Outcome.{Outcome, ok, err, panic, MemError}
use kados_ng.Mem.Canonical.{canonicalize_physaddr-eq-mod}
use kados_ng.Mem.PhysAddr
use kados_ng.Mem.PhysAddr.{PhysAddr}
use kados_ng.Mem.VirtAddr
use kados_ng.Mem.FrameCount.{to_bytes}
use kados_ng.Frames.Bump.{MemMapEntry, find_block}

abbrev pub end_of : MemMapEntry → PhysAddr
end_of a = a.base + a.size * page_size

-- An area of whole pages, above the first page and below `MAX_LOW`.
abbrev pub IsArea : MemMapEntry → Type 0
IsArea a = (a.base % page_size ≡ 0) × (page_size ≤ a.base) × (end_of a ≤ VirtAddr.max_low)

abbrev pub Apart : MemMapEntry → MemMapEntry → Type 0
Apart a b = (end_of a ≤ b.base) ⊎ (end_of b ≤ a.base)

-- Areas that do not overlap.
abbrev pub IsMap : List MemMapEntry → Type 0
IsMap [] = Unit
IsMap (a ∷ rest) = IsArea a × All (Apart a) rest × IsMap rest

-- The bump is a whole number of pages within the first area.
abbrev pub IsBump : List MemMapEntry → ℕ → Type 0
IsBump [] bump = bump ≡ 0
IsBump (a ∷ rest) bump = (bump ≤ a.size * page_size) × (bump % page_size ≡ 0)

-- The address `x` has not been handed out, and lies in an area that has not been dropped.
abbrev pub Remaining : List MemMapEntry → ℕ → PhysAddr → Type 0
Remaining [] bump x = ⊥
Remaining (a ∷ rest) bump x = ((a.base + bump ≤ x) × (x < end_of a)) ⊎ Remaining rest 0 x

Remaining-Apart :
    (a : MemMapEntry) (rest : List MemMapEntry) (x : PhysAddr)
    → All (Apart a) rest
    → Remaining rest 0 x
    → a.base ≤ x
    → x < end_of a
    → ⊥
Remaining-Apart a [] x h r lo hi = r
Remaining-Apart a (b ∷ rest) x h (inl r) lo hi = ground (arith, h.0)
Remaining-Apart a (b ∷ rest) x h (inr r) lo hi = Remaining-Apart a rest x h.1 r lo hi

-- A block of `size_bytes` from `p` was free, and what remains is free still and not in the block.
pub record Takes (areas : List MemMapEntry) (bump size_bytes : ℕ) (p : PhysAddr)
    (areas' : List MemMapEntry) (bump' : ℕ) : Type 0 where
  pub was : (x : PhysAddr) → p ≤ x → x < p + size_bytes → Remaining areas bump x
  pub not_after : (x : PhysAddr) → p ≤ x → x < p + size_bytes → ¬ (Remaining areas' bump' x)
  pub shrinks : (x : PhysAddr) → Remaining areas' bump' x → Remaining areas bump x
  pub map : IsMap areas'
  pub in_area : IsBump areas' bump'
  pub whole : p % page_size ≡ 0
  pub above : page_size ≤ p
  pub low : p + size_bytes ≤ VirtAddr.max_low

-- No area has room for the block.
abbrev pub TooSmall : List MemMapEntry → ℕ → ℕ → Type 0
TooSmall [] bump size_bytes = Unit
TooSmall (a ∷ rest) bump size_bytes =
    (a.size * page_size < bump + size_bytes) × TooSmall rest 0 size_bytes

-- No area was large enough, and none is kept.
pub record Exhausts (areas : List MemMapEntry) (bump size_bytes : ℕ) (areas' : List MemMapEntry)
    (bump' : ℕ) : Type 0 where
  pub none_left : areas' ≡ []
  pub reset : bump' ≡ 0
  pub small : TooSmall areas bump size_bytes

abbrev pub Found : List MemMapEntry → ℕ → ℕ → Outcome PhysAddr × List MemMapEntry × ℕ → Type 0
Found areas bump size_bytes (ok p, areas', bump') = Takes areas bump size_bytes p areas' bump'
Found areas bump size_bytes (err e, areas', bump') =
    (e ≡ MemError.out_of_memory) × Exhausts areas bump size_bytes areas' bump'
Found areas bump size_bytes (panic, areas', bump') = ⊥

skip :
    (a : MemMapEntry) (rest : List MemMapEntry) (bump size_bytes : ℕ)
    → a.size * page_size < bump + size_bytes
    → (r : Outcome PhysAddr × List MemMapEntry × ℕ) → Found rest 0 size_bytes r
    → Found (a ∷ rest) bump size_bytes r
skip a rest bump size_bytes lt (ok p, areas', bump') t = record {
  was = λ x lo hi. inr (t.was x lo hi);
  not_after = t.not_after;
  shrinks = λ x r. inr (t.shrinks x r);
  map = t.map;
  in_area = t.in_area;
  whole = t.whole;
  above = t.above;
  low = t.low;
}
skip a rest bump size_bytes lt (err e, areas', bump') (e', x) =
    (e', record { none_left = x.none_left; reset = x.reset; small = (lt, x.small) })
skip a rest bump size_bytes lt (panic, areas', bump') h = h

take_here :
    (a : MemMapEntry) (rest : List MemMapEntry) (bump size_bytes : ℕ)
    → IsMap (a ∷ rest)
    → IsBump (a ∷ rest) bump
    → size_bytes % page_size ≡ 0
    → bump + size_bytes ≤ a.size * page_size
    → Takes (a ∷ rest) bump size_bytes (a.base + bump) (a ∷ rest) (bump + size_bytes)
take_here a rest bump size_bytes hm hb whole room = record {
  was = λ x lo hi. inl (omega arith);
  not_after = λ x lo hi. outside x lo hi;
  shrinks = λ x r. keep x r;
  map = hm;
  in_area = omega arith;
  whole = omega arith;
  above = omega arith;
  low = omega arith;
}
  where
    outside :
        (x : PhysAddr)
        → a.base + bump ≤ x
        → x < a.base + bump + size_bytes
        → ¬ (Remaining (a ∷ rest) (bump + size_bytes) x)
    outside x lo hi (inl r) = omega arith
    outside x lo hi (inr r) = Remaining-Apart a rest x hm.1 r (omega arith) (omega arith)

    keep : (x : PhysAddr) → Remaining (a ∷ rest) (bump + size_bytes) x → Remaining (a ∷ rest) bump x
    keep x (inl r) = inl (omega arith)
    keep x (inr r) = inr r

-- `find_block` takes a block from what remains, or finds that no area is large enough.
pub find_block-Found :
    (areas : List MemMapEntry) (bump size_bytes : ℕ)
    → IsMap areas
    → IsBump areas bump
    → size_bytes % page_size ≡ 0
    → size_bytes < 2 ^ 63
    → Found areas bump size_bytes (find_block areas bump size_bytes)
unfolding find_block to_bytes
find_block-Found [] bump size_bytes hm hb whole fits =
    (refl, record { none_left = refl; reset = hb; small = tt })
find_block-Found (a ∷ rest) bump size_bytes hm hb whole fits =
    elim (Bool-cases (ltb (wrapping_sub (to_bytes a.size) bump) size_bytes)) [
      | inl e ↦ rw e (
          skip a rest bump size_bytes (ground arith) _
            (find_block-Found rest 0 size_bytes hm.2 (start rest) whole fits))
      | inr e ↦
          rw (e, start_of (room e), bump_of (room e))
            (take_here a rest bump size_bytes hm hb whole (room e))
    ]
  where
    room :
        ltb (wrapping_sub (to_bytes a.size) bump) size_bytes ≡ false
        → bump + size_bytes ≤ a.size * page_size
    room e = ground arith

    start : (areas : List MemMapEntry) → IsBump areas 0
    start [] = refl
    start (b ∷ bs) = omega arith

    start_of :
        bump + size_bytes ≤ a.size * page_size → PhysAddr.add_bytes a.base bump ≡ a.base + bump
    start_of r = omega (arith, canonicalize_physaddr-eq-mod (wrapping_add a.base bump))

    bump_of :
        bump + size_bytes ≤ a.size * page_size → wrapping_add bump size_bytes ≡ bump + size_bytes
    bump_of r = omega arith
