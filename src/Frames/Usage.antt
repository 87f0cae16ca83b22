-- ===== src/Frames/Usage.antt =====
-- `usage` and what it leaves out.
use kados_ng.Base.{
  ℕ, ◌+◌, ◌-◌, ◌*◌, ◌/◌, ◌%◌, ◌^◌, ◌≤◌, ◌<◌, ◌≡◌, refl, sym, ◌∙◌, append_assoc, arith, ap, inl, inr,
}
use kados_ng.Base.{List, [], ◌∷◌, ◌++◌, Bool-cases, length, length-append, take, ltb}
use kados_ng.Arch.{page_size, wrapping_sub}
use kados_ng.Mem.Outcome.{Outcome}
use kados_ng.Mem.PhysAddr.{PhysAddr}
use kados_ng.Mem.FrameCount.{to_bytes, from_bytes}
use kados_ng.Mem.Memory.{Memory}
use kados_ng.Frames.Remaining.{IsBump}
use kados_ng.Frames.Bump.{
  MemMapEntry, BumpFrameAllocator, bump_allocate, find_block, sum_bytes, usage,
}

-- The number of frames of a memory map.
abbrev pub frames_in : List MemMapEntry → ℕ
frames_in [] = 0
frames_in (a ∷ rest) = a.size + frames_in rest

-- The areas in use are the last ones of the map, and the bump lies in the first of them.
pub record IsSuffix (b : BumpFrameAllocator) : Type 0 where
  pub used : List MemMapEntry
  pub split : b.original ≡ used ++ b.areas
  pub fits : frames_in b.original < 2 ^ 40
  pub in_area : IsBump b.areas b.bump

bump_of_IsBump :
    (areas : List MemMapEntry) (bump : ℕ)
    → IsBump areas bump
    → (bump % page_size ≡ 0) × (bump ≤ frames_in areas * page_size)
bump_of_IsBump [] bump h = omega arith
bump_of_IsBump (a ∷ rest) bump h = omega arith

frames_in-append : (xs ys : List MemMapEntry) → frames_in (xs ++ ys) ≡ frames_in xs + frames_in ys
frames_in-append [] ys = omega arith
frames_in-append (x ∷ xs) ys = omega (arith, frames_in-append xs ys)

take-append : (xs ys : List MemMapEntry) → take (length (xs ++ ys) - length ys) (xs ++ ys) ≡ xs
take-append xs ys = rw (length-append xs ys, drop_right (length xs) (length ys)) (prefix xs ys)
  where
    drop_right : (m n : ℕ) → m + n - n ≡ m
    drop_right m n = omega arith

    prefix : (us vs : List MemMapEntry) → take (length us) (us ++ vs) ≡ us
    prefix [] vs = refl
    prefix (u ∷ us) vs = ap (λ l. u ∷ l) (prefix us vs)

sum_bytes-eq :
    (xs : List MemMapEntry) → frames_in xs < 2 ^ 40 → sum_bytes xs ≡ frames_in xs * page_size
unfolding sum_bytes to_bytes
sum_bytes-eq [] h = refl
sum_bytes-eq (x ∷ xs) h = omega (arith, sum_bytes-eq xs (omega arith))

-- While the areas in use are a suffix of a memory map of fewer than 2 ^ 40 frames, `usage` and the
-- frames that can still be handed out add up to the whole map: `usage` counts every frame of the
-- areas that were passed over, whether it was handed out or not.
pub usage-add-left :
    (b : BumpFrameAllocator)
    → IsSuffix b
    → usage b + (frames_in b.areas * page_size - b.bump) / page_size ≡ frames_in b.original
unfolding usage from_bytes
usage-add-left b v = omega (
  arith,
  consumed,
  ap frames_in v.split,
  frames_in-append v.used b.areas,
  sum_bytes-eq v.used (omega (arith, ap frames_in v.split, frames_in-append v.used b.areas)),
  bump_of_IsBump b.areas b.bump v.in_area,
)
  where
    consumed : sum_bytes (take (length b.original - length b.areas) b.original) ≡ sum_bytes v.used
    consumed = rw v.split (ap sum_bytes (take-append v.used b.areas))

-- What `find_block` leaves is the end of what it was given, with the bump in its first area.
pub record Leaves (areas : List MemMapEntry) (r : Outcome PhysAddr × List MemMapEntry × ℕ)
    : Type 0 where
  pub dropped : List MemMapEntry
  pub split : areas ≡ dropped ++ r.1
  pub in_area : IsBump r.1 r.2

find_block-Leaves :
    (areas : List MemMapEntry) (bump size_bytes : ℕ)
    → frames_in areas < 2 ^ 40
    → size_bytes % page_size ≡ 0
    → size_bytes < 2 ^ 63
    → IsBump areas bump
    → Leaves areas (find_block areas bump size_bytes)
unfolding find_block to_bytes
find_block-Leaves [] bump size_bytes h w small hb = record {
  dropped = [];
  split = refl;
  in_area = hb;
}
find_block-Leaves (a ∷ rest) bump size_bytes h w small hb =
    elim (Bool-cases (ltb (wrapping_sub (to_bytes a.size) bump) size_bytes)) [
      | inl e ↦
          let l = find_block-Leaves rest 0 size_bytes (omega arith) w small (start rest) in
          rw e (record {
            dropped = a ∷ l.dropped;
            split = ap (λ t. a ∷ t) l.split;
            in_area = l.in_area;
          })
      | inr e ↦ rw e (record { dropped = []; split = refl; in_area = ground arith })
    ]
  where
    start : (areas : List MemMapEntry) → IsBump areas 0
    start [] = refl
    start (b ∷ bs) = omega arith

IsSuffix-find :
    (b : BumpFrameAllocator) (r : Outcome PhysAddr × List MemMapEntry × ℕ)
    → IsSuffix b
    → Leaves b.areas r
    → IsSuffix (record b { areas = r.1; bump = r.2 })
IsSuffix-find b r v l = record {
  used = v.used ++ l.dropped;
  split = v.split ∙ ap (λ t. v.used ++ t) l.split ∙ sym (append_assoc v.used l.dropped r.1);
  fits = v.fits;
  in_area = l.in_area;
}

allocate_state :
    (b : BumpFrameAllocator) (count : ℕ) (m : Memory)
    → (bump_allocate b count m).1 ≡ record b {
      areas = (find_block b.areas b.bump (to_bytes count)).1;
      bump = (find_block b.areas b.bump (to_bytes count)).2;
    }
unfolding bump_allocate
allocate_state b count m = ground arith

whole_pages :
    (count : ℕ) → count < 2 ^ 51 → (to_bytes count % page_size ≡ 0) × (to_bytes count < 2 ^ 63)
unfolding to_bytes
whole_pages count h = omega arith

-- An allocation of fewer than 2 ^ 51 frames, whether it succeeds or not, keeps the areas in use a
-- suffix of the memory map, with the bump inside the first of them.
pub bump_allocate-IsSuffix :
    (b : BumpFrameAllocator) (count : ℕ) (m : Memory)
    → IsSuffix b
    → count < 2 ^ 51
    → IsSuffix (bump_allocate b count m).1
bump_allocate-IsSuffix b count m v h = rw (allocate_state b count m) (
    IsSuffix-find b (find_block b.areas b.bump (to_bytes count)) v (
      find_block-Leaves b.areas b.bump (to_bytes count) total (whole_pages count h).0
        (whole_pages count h).1 v.in_area))
  where
    total : frames_in b.areas < 2 ^ 40
    total = omega (arith, ap frames_in v.split, frames_in-append v.used b.areas, v.fits)
