-- ===== src/Paging/Table.antt =====
-- `PageTable` of crates/kernel/src/mem/paging/table.rs over an explicit machine: the memory behind
-- the direct map, the frame allocator and the two registers that hold the current tables.
pub mod Access
pub mod Invariant
pub mod Create
pub mod Grow
pub mod Walk
pub mod Leaf
pub mod Map
pub mod Mapping
pub mod Range
pub mod Sequence
mod Tests
use kados_ng.Base.{ℕ, ◌+◌, ◌*◌, Option, none, some, Bool, true, false, ◌||◌, ◌==◌, if◌then◌else◌}
use kados_ng.Arch.{page_flag_non_block, page_flag_huge}
use kados_ng.Mem.Outcome.{Outcome, ok, err, panic, unwrap, ok_or, MemError}
use kados_ng.Mem.Canonical.{canonicalize_physaddr}
use kados_ng.Mem.PhysAddr
use kados_ng.Mem.PhysAddr.{PhysAddr}
use kados_ng.Mem.VirtAddr.{VirtAddr}
use kados_ng.Mem.Hhdm.{as_hhdm_virt}
use kados_ng.Mem.Memory.{Memory, read_volatile, write_volatile, word_size}
use kados_ng.Paging.Level.{Level, level1, level2, level3, level4, next_down, page_table_index}
use kados_ng.Paging.BlockSize.{BlockSize, page4_kib, block2_mib, block1_gib}
use kados_ng.Paging.Flags.{PageFlags, with_flag, new_table}
use kados_ng.Paging.Entry.{PageTableEntry, entry_new, is_unused, addr, is_table, insert_flags}
use kados_ng.Paging.Monad.{M, ◌>>=◌, ◌>>◌, pure, throw, lift}
use kados_ng.Paging.FrameSource.{FrameSource}

pub data TableKind : Type 0 where
  user kernel : TableKind

pub record PageTable : Type 0 where
  pub frame : PhysAddr
  pub level : Level
  pub kind : TableKind

-- A `PageFlush` names the address whose translation is stale.
abbrev pub PageFlush : Type 0
PageFlush = VirtAddr

pub record Machine (Alloc : Type 0) : Type 0 where
  pub memory : Memory
  pub frames : Alloc
  pub ttbr0 : ℕ
  pub ttbr1 : ℕ

module _ (src : FrameSource) where
  open src use {Alloc, allocate_one as allocate_frame}

  abbrev pub State : Type 0
  State = Machine Alloc

  -- `KernelFrameAllocator.allocate_one`.
  pub allocate_one : M State PhysAddr
  allocate_one s =
      let (o, a, m) = allocate_frame s.frames s.memory in (o, record s { memory = m; frames = a })

  pub create : TableKind → M State PageTable
  create kind s =
      let (o, s') = allocate_one s in
      elim (unwrap o) [
        | ok frame ↦ (ok (record { frame = frame; level = level4; kind = kind }), s')
        | err e ↦ (err e, s')
        | panic ↦ (panic, s')
      ]

  -- `Arch::current_page_table` and `Arch::set_current_page_table`.
  unfoldable pub current_page_table : TableKind → State → PhysAddr
  current_page_table kernel s = PhysAddr.new_canonical s.ttbr1
  current_page_table user s = PhysAddr.new_canonical s.ttbr0

  pub set_current_page_table : PhysAddr → TableKind → State → State
  set_current_page_table frame kernel s = record s { ttbr1 = frame }
  set_current_page_table frame user s = record s { ttbr0 = frame }

  unfoldable pub current : TableKind → State → PageTable
  current kind s = record { frame = current_page_table kind s; level = level4; kind = kind }

  pub is_current : PageTable → State → Bool
  is_current t s = t.frame == current_page_table t.kind s

  pub make_current : PageTable → State → State
  make_current t s = set_current_page_table t.frame t.kind s

  abbrev entry_addr : PageTable → ℕ → VirtAddr
  entry_addr t index = as_hhdm_virt (PhysAddr.add_bytes t.frame (index * word_size))

  unfoldable pub entry : PageTable → ℕ → M State PageTableEntry
  entry t index s = (unwrap (read_volatile (entry_addr t index) s.memory), s)

  pub set_entry : PageTable → ℕ → PageTableEntry → M State (Unit {0})
  set_entry t index e s =
      let (o, m) = write_volatile (entry_addr t index) e s.memory in
      (unwrap o, record s { memory = m })

  abbrev next_level : PageTable → Outcome Level
  next_level t = ok_or (next_down t.level) MemError.no_next_table

  abbrev below : PageTable → Level → PhysAddr → PageTable
  below t l frame = record { frame = frame; level = l; kind = t.kind }

  unfoldable pub next_table : PageTable → ℕ → M State PageTable
  next_table t index = do
    l ← lift (next_level t)
    e ← entry t index
    if is_table e
        then lift (addr e) >>= (λ frame. pure (below t l frame))
        else throw MemError.no_next_table

  pub next_table_create : PageTable → ℕ → PageFlags → M State PageTable
  next_table_create t index fl = do
    l ← lift (next_level t)
    old ← entry t index
    if is_table old
        then set_entry t index (insert_flags old fl)
        else allocate_one >>= (λ frame. set_entry t index (entry_new frame fl))
    e ← entry t index
    frame ← lift (addr e)
    pure (below t l frame)

  -- The walk that `translate` and `with_frame_mut` begin with.
  unfoldable pub translate : PageTable → VirtAddr → M State PageTableEntry
  translate t page = do
    p3 ← next_table t (page_table_index page level4)
    p2 ← next_table p3 (page_table_index page level3)
    p1 ← next_table p2 (page_table_index page level2)
    entry p1 (page_table_index page level1)

  pub with_frame_mut : PageTable → VirtAddr → (PageTableEntry → PageTableEntry) → M State PageFlush
  with_frame_mut t page f = do
    p3 ← next_table t (page_table_index page level4)
    p2 ← next_table p3 (page_table_index page level3)
    p1 ← next_table p2 (page_table_index page level2)
    e ← entry p1 (page_table_index page level1)
    set_entry p1 (page_table_index page level1) (f e)
    pure page

  -- The end of each mapping function: a used entry is overwritten only when remapping.
  pub put_leaf : PageTable → ℕ → VirtAddr → PageTableEntry → Bool → M State PageFlush
  put_leaf p index page new remap = do
    e ← entry p index
    if is_unused e || remap
        then set_entry p index new
        else throw (MemError.page_already_mapped page e)
    pure page

  -- A block has the bit cleared that makes an entry a table.
  abbrev block_entry : PhysAddr → PageFlags → PageTableEntry
  block_entry frame fl =
      entry_new frame (with_flag (with_flag fl page_flag_non_block false) page_flag_huge true)

  pub map_to_1gib :
      PageTable → VirtAddr → PhysAddr → PageFlags → PageFlags → Bool → M State PageFlush
  map_to_1gib t page frame fl insert remap = do
    p3 ← next_table_create t (page_table_index page level4) insert
    put_leaf p3 (page_table_index page level3) page (block_entry frame fl) remap

  pub map_to_2mib :
      PageTable → VirtAddr → PhysAddr → PageFlags → PageFlags → Bool → M State PageFlush
  map_to_2mib t page frame fl insert remap = do
    p3 ← next_table_create t (page_table_index page level4) insert
    p2 ← next_table_create p3 (page_table_index page level3) insert
    put_leaf p2 (page_table_index page level2) page (block_entry frame fl) remap

  pub map_to_4kib :
      PageTable → VirtAddr → PhysAddr → PageFlags → PageFlags → Bool → M State PageFlush
  map_to_4kib t page frame fl insert remap = do
    p3 ← next_table_create t (page_table_index page level4) insert
    p2 ← next_table_create p3 (page_table_index page level3) insert
    p1 ← next_table_create p2 (page_table_index page level2) insert
    put_leaf p1 (page_table_index page level1) page (entry_new frame fl) remap

  abbrev map_with :
      Bool → PageTable → VirtAddr → PhysAddr → BlockSize → PageFlags → M State PageFlush
  map_with remap t page frame block1_gib fl = map_to_1gib t page frame fl new_table remap
  map_with remap t page frame block2_mib fl = map_to_2mib t page frame fl new_table remap
  map_with remap t page frame page4_kib fl = map_to_4kib t page frame fl new_table remap

  pub map_to : PageTable → VirtAddr → PhysAddr → BlockSize → PageFlags → M State PageFlush
  map_to = map_with false

  pub remap_to : PageTable → VirtAddr → PhysAddr → BlockSize → PageFlags → M State PageFlush
  remap_to = map_with true
