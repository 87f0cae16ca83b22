-- ===== src/Frames/Source.antt =====
-- `FrameAllocator::allocate` at boot: the block is zeroed, taken from what remains, and no other
-- memory changes. With it the boot allocator fills the interface that the page tables ask for.
use kados_ng.Base.{ℕ, ◌+◌, ◌*◌, ◌^◌, ◌≤◌, ◌<◌, ◌≡◌, refl, sym, arith}
use mathlib.Core.Path.{subst}
use kados_ng.Base.{List, ◌==◌, if◌then◌else◌}
use kados_ng.Arch.{page_size, page_entries, hhdm_physical_offset}
use kados_ng.Mem.Outcome.{Outcome, ok, err, panic, MemError}
use kados_ng.Mem.PhysAddr.{PhysAddr}
use kados_ng.Mem.VirtAddr
use kados_ng.Mem.FrameCount.{to_bytes}
use kados_ng.Mem.Memory.{Memory, fill_words}
use kados_ng.Mem.Fill.{fill-as_hhdm_virt}
use kados_ng.Paging.FrameSource.{FrameSource, Allocated, IsTableFrame, slot}
use kados_ng.Frames.Bump.{MemMapEntry, BumpFrameAllocator, bump_allocate, find_block, zero_block}
use kados_ng.Frames.Remaining.{Remaining, IsMap, IsBump, Takes, Exhausts, Found, find_block-Found}

-- The areas left are a memory map, and the bump is in order.
abbrev pub IsValid : BumpFrameAllocator → Type 0
IsValid b = IsMap b.areas × IsBump b.areas b.bump

abbrev pub Left : BumpFrameAllocator → PhysAddr → Type 0
Left b x = Remaining b.areas b.bump x

-- What an allocation of `size_bytes` bytes ends in.
abbrev pub Served :
    ℕ → BumpFrameAllocator → Memory → Outcome PhysAddr × BumpFrameAllocator × Memory → Type 0
Served size_bytes b m (ok p, b', m') =
    Takes b.areas b.bump size_bytes p b'.areas b'.bump
    × (m' ≡ fill_words (p + hhdm_physical_offset) 0 size_bytes m)
Served size_bytes b m (err e, b', m') =
    (e ≡ MemError.out_of_memory) × Exhausts b.areas b.bump size_bytes b'.areas b'.bump × (m' ≡ m)
Served size_bytes b m (panic, b', m') = ⊥

zero_block_lem :
    {A : Type 0} (p size_bytes : ℕ) (a : A) (m : Memory)
    → p + size_bytes ≤ VirtAddr.max_low
    → zero_block p size_bytes a m ≡ (ok p, a, fill_words (p + hhdm_physical_offset) 0 size_bytes m)
zero_block_lem p size_bytes a m h =
    let e = fill-as_hhdm_virt p size_bytes 0 m h in rw (zero_block, e) (rw e)

served :
    (b : BumpFrameAllocator) (size_bytes : ℕ) (m : Memory)
    (r : Outcome PhysAddr × List MemMapEntry × ℕ)
    → Found b.areas b.bump size_bytes r
    → Served size_bytes b m (elim (r.0) [
      | ok block ↦ zero_block block size_bytes (record b { areas = r.1; bump = r.2 }) m
      | err e ↦ (err e, record b { areas = r.1; bump = r.2 }, m)
      | panic ↦ (panic, record b { areas = r.1; bump = r.2 }, m)
    ])
served b size_bytes m (ok p, areas', bump') t =
    subst (Served size_bytes b m)
      (sym (zero_block_lem p size_bytes (record b { areas = areas'; bump = bump' }) m t.low))
      (t, refl)
served b size_bytes m (err e, areas', bump') t = (t.0, t.1, refl)
served b size_bytes m (panic, areas', bump') t = t

bytes_of : (count : ℕ) → count < 2 ^ 51 → to_bytes count ≡ count * page_size
unfolding to_bytes
bytes_of count h = omega arith

-- An allocation of fewer than 2 ^ 51 frames before the heap, from a valid memory map, returns a
-- block of whole pages that was free and is not free any more, with the block zeroed and no other
-- memory written; or it returns `out_of_memory` because no area had room, leaves no area, and
-- writes nothing. It does not panic.
pub bump_allocate-Served :
    (b : BumpFrameAllocator) (count : ℕ) (m : Memory)
    → IsValid b
    → count < 2 ^ 51
    → Served (to_bytes count) b m (bump_allocate b count m)
unfolding bump_allocate
bump_allocate-Served b count m v h =
    served b (to_bytes count) m (find_block b.areas b.bump (to_bytes count)) (
      find_block-Found b.areas b.bump (to_bytes count) v.0 v.1 (omega (arith, bytes_of count h))
        (omega (arith, bytes_of count h)))

zeroed_slots :
    (p : PhysAddr) (m : Memory) (g : PhysAddr) (i : ℕ)
    → IsTableFrame p
    → IsTableFrame g
    → i < page_entries
    → fill_words (p + hhdm_physical_offset) 0 page_size m (slot g i)
      ≡ (if g == p then 0 else m (slot g i))
zeroed_slots p m g i hp hg hi = ground arith

allocated :
    (b : BumpFrameAllocator) (m : Memory) (r : Outcome PhysAddr × BumpFrameAllocator × Memory)
    → Served page_size b m r
    → Allocated IsValid Left b m r
allocated b m (ok p, b', m') (t, e) = record {
  is_frame = (t.whole, t.above, omega (arith, t.low));
  was_free = t.was p (omega arith) (omega arith);
  taken = t.not_after p (omega arith) (omega arith);
  shrinks = t.shrinks;
  valid = (t.map, t.in_area);
  zeroed = λ g i hg hi. rw e (zeroed_slots p m g i (t.whole, t.above, omega (arith, t.low)) hg hi);
}
allocated b m (err e, b', m') (why, x, same) = record {
  why = why;
  shrinks = λ g left. absurd (subst (λ l. Remaining l b'.bump g) x.none_left left);
  valid = subst (λ l. IsMap l × IsBump l b'.bump) (sym x.none_left) (tt, x.reset);
  same = same;
}
allocated b m (panic, b', m') h = h

pub allocates_one :
    (b : BumpFrameAllocator) (m : Memory)
    → IsValid b
    → Allocated IsValid Left b m (bump_allocate b 1 m)
allocates_one b m v = allocated b m (bump_allocate b 1 m) (
    subst (λ n. Served n b m (bump_allocate b 1 m)) (bytes_of 1 (omega arith))
      (bump_allocate-Served b 1 m v (omega arith)))

-- The boot allocator as the source of frames for page tables.
abbrev pub boot_source : FrameSource
boot_source = record {
  Alloc = BumpFrameAllocator;
  allocate_one = λ b m. bump_allocate b 1 m;
  IsValid = IsValid;
  Free = Left;
  allocates = allocates_one;
}
