-- ===== src/Frames/Bump.antt =====
-- `MemMapEntry` and `BumpFrameAllocator`.
use kados_ng.Base.{ℕ, ◌-◌, List, [], ◌∷◌, length, take, ltb, if◌then◌else◌}
use kados_ng.Arch.{wrapping_add, wrapping_sub}
use kados_ng.Mem.Outcome.{Outcome, ok, err, panic, MemError}
use kados_ng.Mem.PhysAddr
use kados_ng.Mem.PhysAddr.{PhysAddr}
use kados_ng.Mem.Hhdm.{as_hhdm_virt}
use kados_ng.Mem.FrameCount.{to_bytes, from_bytes}
use kados_ng.Mem.Memory.{Memory, fill}

pub record MemMapEntry : Type 0 where
  pub base : PhysAddr
  pub size : ℕ

pub record BumpFrameAllocator : Type 0 where
  pub original : List MemMapEntry
  pub areas : List MemMapEntry
  pub bump : ℕ

unfoldable pub bump_new : List MemMapEntry → BumpFrameAllocator
bump_new areas = record { original = areas; areas = areas; bump = 0 }

-- The loop of `allocate`: areas that are too small are dropped for good.
unfoldable pub find_block : List MemMapEntry → ℕ → ℕ → Outcome PhysAddr × List MemMapEntry × ℕ
find_block [] bump size_bytes = (err MemError.out_of_memory, [], bump)
find_block (area ∷ rest) bump size_bytes =
    if ltb (wrapping_sub (to_bytes area.size) bump) size_bytes
    then find_block rest 0 size_bytes
    else (ok (PhysAddr.add_bytes area.base bump), area ∷ rest, wrapping_add bump size_bytes)

-- The block is filled with zeros through the direct map.
abbrev pub zero_block : {A : Type 0} → PhysAddr → ℕ → A → Memory → Outcome PhysAddr × A × Memory
zero_block block size_bytes a m =
    let (o, m') = fill (as_hhdm_virt block) 0 size_bytes m in
    elim o [ ok _ ↦ (ok block, a, m') | err e ↦ (err e, a, m') | panic ↦ (panic, a, m') ]

unfoldable pub bump_allocate :
    BumpFrameAllocator → ℕ → Memory → Outcome PhysAddr × BumpFrameAllocator × Memory
bump_allocate b count m =
    let size_bytes = to_bytes count in
    let (o, areas, bump) = find_block b.areas b.bump size_bytes in
    let b' : BumpFrameAllocator = record b { areas = areas; bump = bump } in
    elim o [
      | ok block ↦ zero_block block size_bytes b' m
      | err e ↦ (err e, b', m)
      | panic ↦ (panic, b', m)
    ]

unfoldable pub sum_bytes : List MemMapEntry → ℕ
sum_bytes [] = 0
sum_bytes (area ∷ rest) = wrapping_add (to_bytes area.size) (sum_bytes rest)

unfoldable pub usage : BumpFrameAllocator → ℕ
usage b =
    let num_consumed = length b.original - length b.areas in
    from_bytes (wrapping_add (sum_bytes (take num_consumed b.original)) b.bump)
