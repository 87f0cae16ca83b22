-- ===== src/Frames/Tests.antt =====
-- The allocators on a small memory map.
use kados_ng.Base.{◌+◌, ◌-◌, ◌*◌, ◌/◌, ◌≡◌, ◌↔◌, refl, arith, List, [], ◌∷◌, none}
use kados_ng.Arch.{page_size}
use kados_ng.Mem.Outcome.{ok}
use kados_ng.Mem.FrameCount.{to_bytes}
use kados_ng.Mem.Memory.{Memory}
use kados_ng.Frames.Bump.{MemMapEntry, BumpFrameAllocator, bump_allocate, usage}
use kados_ng.Frames.Remaining.{Remaining}
use kados_ng.Frames.Allocator.{Buddy, boot, post_heap, convert_post_heap}
use kados_ng.Frames.Source.{IsValid, Served, bump_allocate-Served}
use kados_ng.Frames.Usage.{IsSuffix, frames_in, usage-add-left, bump_allocate-IsSuffix}
use kados_ng.Frames.Handover.{Range, InRanges, left_ranges, add_ranges, convert_post_heap-left}

abbrev low : MemMapEntry
low = record { base = 0x10000; size = 2 }

abbrev high : MemMapEntry
high = record { base = 0x40000; size = 16 }

-- One page of the first area is in use.
abbrev used_one : BumpFrameAllocator
used_one = record { original = low ∷ high ∷ []; areas = low ∷ high ∷ []; bump = 4096 }

used_one-IsValid : IsValid used_one
used_one-IsValid = (
  ((refl, omega arith, omega arith), (omega arith, tt), ((refl, omega arith, omega arith), tt, tt)),
  (omega arith, refl),
)

used_one-IsSuffix : IsSuffix used_one
used_one-IsSuffix = record {
  used = [];
  split = refl;
  fits = omega arith;
  in_area = (omega arith, refl);
}

memory : Memory
memory _ = 7

bump_allocate-Served_example : Served (to_bytes 3) used_one memory (bump_allocate used_one 3 memory)
bump_allocate-Served_example = bump_allocate-Served used_one 3 memory used_one-IsValid (omega arith)

-- A heap that records the ranges it is given.
abbrev recorder : Buddy
recorder = record {
  Heap = List Range;
  empty = [];
  add_frame = λ lo hi h. (lo, hi) ∷ h;
  alloc = λ n h. (none, h);
  dealloc = λ a n h. h;
}

usage-add-left_example :
    usage used_one + (frames_in used_one.areas * page_size - used_one.bump) / page_size ≡ 18
usage-add-left_example = usage-add-left used_one used_one-IsSuffix

bump_allocate-IsSuffix_example : IsSuffix (bump_allocate used_one 3 memory).1
bump_allocate-IsSuffix_example =
    bump_allocate-IsSuffix used_one 3 memory used_one-IsSuffix (omega arith)

convert_post_heap-left_example :
    (convert_post_heap recorder (boot used_one)
      ≡ (ok tt, post_heap (add_ranges recorder (left_ranges used_one.areas 4096) [])))
    × (InRanges (left_ranges used_one.areas 4096) 17
        ↔ Remaining used_one.areas 4096 (17 * page_size))
convert_post_heap-left_example =
    convert_post_heap-left recorder used_one low (high ∷ []) 17 refl used_one-IsValid.0
      used_one-IsValid.1
