-- ===== src/Paging/FrameSource.antt =====
-- What page tables ask of the frame allocator: a zeroed frame that nothing else holds. The boot
-- allocator fills this interface in `Frames.Source`.
use kados_ng.Base.{ℕ, ◌+◌, ◌*◌, ◌%◌, ◌≤◌, ◌<◌, ◌≡◌, ◌==◌, if◌then◌else◌}
use kados_ng.Arch.{page_size, page_entries, hhdm_physical_offset}
use kados_ng.Mem.Outcome.{Outcome, ok, err, panic, MemError}
use kados_ng.Mem.PhysAddr.{PhysAddr}
use kados_ng.Mem.VirtAddr
use kados_ng.Mem.VirtAddr.{VirtAddr}
use kados_ng.Mem.Memory.{Memory}

-- A frame that can hold a table.
abbrev pub IsTableFrame : PhysAddr → Type 0
IsTableFrame f = (f % page_size ≡ 0) × (page_size ≤ f) × (f < VirtAddr.max_low)

-- The address of entry `i` of the table in frame `f`, in the direct map.
abbrev pub slot : PhysAddr → ℕ → VirtAddr
slot f i = f + i * 8 + hhdm_physical_offset

module _ {Alloc : Type 0} (IsValid : Alloc → Type 0) (Free : Alloc → PhysAddr → Type 0) where
  -- What a call of the allocator may end in, from `a` and `m`.
  pub record Granted (a a' : Alloc) (m m' : Memory) (f : PhysAddr) : Type 0 where
    pub is_frame : IsTableFrame f
    pub was_free : Free a f
    pub taken : ¬ (Free a' f)
    pub shrinks : (g : PhysAddr) → Free a' g → Free a g
    pub valid : IsValid a'
    pub zeroed :
        (g : PhysAddr) (i : ℕ)
        → IsTableFrame g
        → i < page_entries
        → m' (slot g i) ≡ (if g == f then 0 else m (slot g i))

  pub record Refused (a a' : Alloc) (m m' : Memory) (e : MemError) : Type 0 where
    pub why : e ≡ MemError.out_of_memory
    pub shrinks : (g : PhysAddr) → Free a' g → Free a g
    pub valid : IsValid a'
    pub same : m' ≡ m

  abbrev pub Allocated : Alloc → Memory → Outcome PhysAddr × Alloc × Memory → Type 0
  Allocated a m (ok f, a', m') = Granted a a' m m' f
  Allocated a m (err e, a', m') = Refused a a' m m' e
  Allocated a m (panic, a', m') = ⊥

pub record FrameSource : Type 1 where
  pub Alloc : Type 0
  pub allocate_one : Alloc → Memory → Outcome PhysAddr × Alloc × Memory
  pub IsValid : Alloc → Type 0
  pub Free : Alloc → PhysAddr → Type 0
  pub allocates :
      (a : Alloc) (m : Memory) → IsValid a → Allocated IsValid Free a m (allocate_one a m)
