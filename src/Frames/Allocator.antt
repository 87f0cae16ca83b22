-- ===== src/Frames/Allocator.antt =====
-- `FrameAllocator`: the bump allocator before there is a heap, the buddy allocator afterwards.
-- `buddy_system_allocator` is another package: its operations are the record `Buddy`.
use kados_ng.Base.{ℕ, List, [], ◌∷◌, Option, none, some}
use kados_ng.Arch.{wrapping_add, wrapping_sub}
use kados_ng.Mem.Outcome.{Outcome, ok, err, MemError}
use kados_ng.Mem.PhysAddr
use kados_ng.Mem.PhysAddr.{PhysAddr}
use kados_ng.Mem.FrameCount.{to_bytes, from_bytes, frame_index}
use kados_ng.Mem.Memory.{Memory}
use kados_ng.Frames.Bump
use kados_ng.Frames.Bump.{MemMapEntry, BumpFrameAllocator, bump_new, bump_allocate, zero_block}

pub record Buddy : Type 1 where
  pub Heap : Type 0
  pub empty : Heap
  pub add_frame : ℕ → ℕ → Heap → Heap
  pub alloc : ℕ → Heap → Option ℕ × Heap
  pub dealloc : ℕ → ℕ → Heap → Heap

pub data FrameAllocator (Heap : Type 0) : Type 0 where
  boot : BumpFrameAllocator → FrameAllocator Heap
  post_heap : Heap → FrameAllocator Heap

module _ (buddy : Buddy) where
  open buddy use {Heap, empty, add_frame, alloc, dealloc}

  -- `FrameAllocator::boot`.
  unfoldable pub boot_new : List MemMapEntry → FrameAllocator Heap
  boot_new areas = boot (bump_new areas)

  -- The areas but the first, handed over whole.
  unfoldable pub add_areas : List MemMapEntry → Heap → Heap
  add_areas [] h = h
  add_areas (area ∷ rest) h =
      let index = frame_index area.base in
      add_areas rest (add_frame index (wrapping_add index area.size) h)

  unfoldable pub convert_post_heap : FrameAllocator Heap → Outcome (Unit {0}) × FrameAllocator Heap
  convert_post_heap (post_heap h) = (ok tt, post_heap h)
  convert_post_heap (boot b) = elim (b.areas) [
    | [] ↦ (err MemError.out_of_memory, boot b)
    | first ∷ rest ↦
        let first_base = PhysAddr.add_bytes first.base b.bump in
        let first_size = wrapping_sub (to_bytes first.size) b.bump in
        let index = frame_index first_base in
        let count = from_bytes first_size in
        (ok tt, post_heap (add_areas rest (add_frame index (wrapping_add index count) empty)))
  ]

  unfoldable pub buddy_allocate : Heap → ℕ → Memory → Outcome PhysAddr × Heap × Memory
  buddy_allocate h count m =
      let (o, h') = alloc count h in
      elim o [
        | none ↦ (err MemError.out_of_memory, h', m)
        | some frame ↦ zero_block (PhysAddr.new_canonical (to_bytes frame)) (to_bytes count) h' m
      ]

  unfoldable pub buddy_free : PhysAddr → ℕ → Heap → Heap
  buddy_free start count h = dealloc (frame_index start) count h

  unfoldable pub allocate :
      FrameAllocator Heap → ℕ → Memory → Outcome PhysAddr × FrameAllocator Heap × Memory
  allocate (boot b) count m = let (o, b', m') = bump_allocate b count m in (o, boot b', m')
  allocate (post_heap h) count m =
      let (o, h', m') = buddy_allocate h count m in (o, post_heap h', m')

  unfoldable pub free :
      FrameAllocator Heap → PhysAddr → ℕ → Outcome (Unit {0}) × FrameAllocator Heap
  free (boot b) start count = (ok tt, boot b)
  free (post_heap h) start count = (ok tt, post_heap (buddy_free start count h))

  unfoldable pub usage : FrameAllocator Heap → Option ℕ
  usage (boot b) = some (Bump.usage b)
  usage (post_heap h) = none
