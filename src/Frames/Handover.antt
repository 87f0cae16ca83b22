-- ===== src/Frames/Handover.antt =====
-- `convert_post_heap`: the buddy allocator is given the frames that the boot allocator had left, and
-- no others.
use mathlib.Core.Path.{subst, ap, sym, ◌∙◌}
use kados_ng.Base.{ℕ, ◌+◌, ◌*◌, ◌/◌, ◌%◌, ◌^◌, ◌≤◌, ◌<◌, ◌≡◌, ◌⊎◌, ◌↔◌, refl, arith, inl, inr}
use kados_ng.Base.{List, [], ◌∷◌}
use kados_ng.Arch.{page_size, wrapping_add, wrapping_sub}
use kados_ng.Mem.Outcome.{Outcome, ok}
use kados_ng.Mem.Canonical.{canonicalize_physaddr-eq-mod}
use kados_ng.Mem.PhysAddr
use kados_ng.Mem.FrameCount.{to_bytes, from_bytes, frame_index}
use kados_ng.Frames.Bump.{MemMapEntry, BumpFrameAllocator}
use kados_ng.Frames.Remaining.{Remaining, IsMap, IsBump}
use kados_ng.Frames.Allocator.{Buddy, FrameAllocator, boot, post_heap, add_areas, convert_post_heap}

-- A range of frame numbers that `add_frame` is called with, its end excluded.
abbrev pub Range : Type 0
Range = ℕ × ℕ

abbrev pub InRanges : List Range → ℕ → Type 0
InRanges [] n = ⊥
InRanges ((lo, hi) ∷ rest) n = ((lo ≤ n) × (n < hi)) ⊎ InRanges rest n

module _ (buddy : Buddy) where
  -- The heap after a list of calls of `add_frame`.
  abbrev pub add_ranges : List Range → buddy.Heap → buddy.Heap
  add_ranges [] h = h
  add_ranges ((lo, hi) ∷ rest) h = add_ranges rest (buddy.add_frame lo hi h)

abbrev pub area_ranges : List MemMapEntry → List Range
area_ranges [] = []
area_ranges (a ∷ rest) = (a.base / page_size, a.base / page_size + a.size) ∷ area_ranges rest

abbrev pub left_ranges : List MemMapEntry → ℕ → List Range
left_ranges [] bump = []
left_ranges (a ∷ rest) bump =
    ((a.base + bump) / page_size, a.base / page_size + a.size) ∷ area_ranges rest

add_areas_lem :
    (buddy : Buddy) (areas : List MemMapEntry) (h : buddy.Heap)
    → IsMap areas
    → add_areas buddy areas h ≡ add_ranges buddy (area_ranges areas) h
unfolding add_areas frame_index from_bytes
add_areas_lem buddy [] h m = refl
add_areas_lem buddy (a ∷ rest) h m = rw (first, last) (add_areas_lem buddy rest _ m.2)
  where
    first : (a.base + 4095) / 4096 ≡ a.base / 4096
    first = omega arith

    last : wrapping_add (a.base / 4096) a.size ≡ a.base / 4096 + a.size
    last = omega arith

-- The first range is the part of the first area from the bump on.
range_step :
    (a : MemMapEntry) (rest : List MemMapEntry) (bump n : ℕ)
    → IsMap (a ∷ rest)
    → IsBump (a ∷ rest) bump
    → (InRanges (area_ranges rest) n ↔ Remaining rest 0 (n * page_size))
    → InRanges (left_ranges (a ∷ rest) bump) n ↔ Remaining (a ∷ rest) bump (n * page_size)
range_step a rest bump n m hb ih = (there, back)
  where
    there : InRanges (left_ranges (a ∷ rest) bump) n → Remaining (a ∷ rest) bump (n * page_size)
    there (inl h) = inl (omega (arith, m.0))
    there (inr h) = inr (ih.0 h)

    back : Remaining (a ∷ rest) bump (n * page_size) → InRanges (left_ranges (a ∷ rest) bump) n
    back (inl h) = inl (omega (arith, m.0))
    back (inr h) = inr (ih.1 h)

area_step :
    (a : MemMapEntry) (rest : List MemMapEntry) (n : ℕ)
    → IsMap (a ∷ rest)
    → (InRanges (area_ranges rest) n ↔ Remaining rest 0 (n * page_size))
    → InRanges (area_ranges (a ∷ rest)) n ↔ Remaining (a ∷ rest) 0 (n * page_size)
area_step a rest n m ih = (there, back)
  where
    there : InRanges (area_ranges (a ∷ rest)) n → Remaining (a ∷ rest) 0 (n * page_size)
    there (inl h) = inl (omega (arith, m.0))
    there (inr h) = inr (ih.0 h)

    back : Remaining (a ∷ rest) 0 (n * page_size) → InRanges (area_ranges (a ∷ rest)) n
    back (inl h) = inl (omega (arith, m.0))
    back (inr h) = inr (ih.1 h)

InRanges-areas :
    (areas : List MemMapEntry) (n : ℕ)
    → IsMap areas
    → InRanges (area_ranges areas) n ↔ Remaining areas 0 (n * page_size)
InRanges-areas [] n m = (λ h. h, λ h. h)
InRanges-areas (a ∷ rest) n m = area_step a rest n m (InRanges-areas rest n m.2)

convert_areas :
    (buddy : Buddy) (b : BumpFrameAllocator) (a : MemMapEntry) (rest : List MemMapEntry)
    → b.areas ≡ a ∷ rest
    → IsMap (a ∷ rest)
    → IsBump (a ∷ rest) b.bump
    → convert_post_heap buddy (boot b)
      ≡ (ok tt, post_heap (add_ranges buddy (left_ranges (a ∷ rest) b.bump) buddy.empty))
unfolding convert_post_heap frame_index from_bytes to_bytes
convert_areas buddy b a rest e m hb =
    rw (e, convert_post_heap, start, lo, hi) (rw (add_areas_lem buddy rest _ m.2))
  where
    start : PhysAddr.add_bytes a.base b.bump ≡ a.base + b.bump
    start = omega (arith, canonicalize_physaddr-eq-mod (wrapping_add a.base b.bump))

    lo : (a.base + b.bump + 4095) / 4096 ≡ (a.base + b.bump) / 4096
    lo = omega arith

    hi :
        wrapping_add
          ((a.base + b.bump) / 4096)
          ((wrapping_sub (a.size * 4096 % 2 ^ 64) b.bump + 4095) / 4096)
        ≡ a.base / 4096 + a.size
    hi = omega arith

-- For a valid memory map with an area left, `convert_post_heap` hands the buddy allocator ranges of
-- frame numbers that hold exactly the frames that the areas in use still hold: those of the first
-- area from the bump on, and those of the areas behind it.
pub convert_post_heap-left :
    (buddy : Buddy) (b : BumpFrameAllocator) (a : MemMapEntry) (rest : List MemMapEntry) (n : ℕ)
    → b.areas ≡ a ∷ rest
    → IsMap b.areas
    → IsBump b.areas b.bump
    → (convert_post_heap buddy (boot b)
        ≡ (ok tt, post_heap (add_ranges buddy (left_ranges b.areas b.bump) buddy.empty)))
      × (InRanges (left_ranges b.areas b.bump) n ↔ Remaining b.areas b.bump (n * page_size))
convert_post_heap-left buddy b a rest n e m hb = (
  convert_areas buddy b a rest e m' hb' ∙ ap result (sym e),
  subst goal (sym e) (range_step a rest b.bump n m' hb' (InRanges-areas rest n m'.2)),
)
  where
    result : List MemMapEntry → Outcome (Unit {0}) × FrameAllocator buddy.Heap
    result l = (ok tt, post_heap (add_ranges buddy (left_ranges l b.bump) buddy.empty))

    goal : List MemMapEntry → Type 0
    goal l = InRanges (left_ranges l b.bump) n ↔ Remaining l b.bump (n * page_size)

    m' : IsMap (a ∷ rest)
    m' = subst IsMap e m

    hb' : IsBump (a ∷ rest) b.bump
    hb' = subst (λ l. IsBump l b.bump) e hb
