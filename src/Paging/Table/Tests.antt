-- ===== src/Paging/Table/Tests.antt =====
-- Mapping pages from an empty root table, with the boot allocator.
use kados_ng.Base.{ℕ, ◌<◌, ◌≡◌, ◌≢◌, refl, arith}
use kados_ng.Base.{List, [], ◌∷◌, none, some, true, false, ◌==◌, if◌then◌else◌}
use kados_ng.Mem.Outcome.{Outcome, ok, MemError}
use kados_ng.Paging.Level.{next_down, Level, level1, level2, level3, level4, page_table_index}
use kados_ng.Paging.Entry.{
  entry_new, is_table_iff, addr, flags, IsPage, IsFlags, frame_of, is_table,
}
use kados_ng.Mem.PhysAddr
use kados_ng.Mem.PhysAddr.{PhysAddr}
use kados_ng.Mem.VirtAddr
use kados_ng.Mem.Hhdm.{as_hhdm_virt}
use kados_ng.Mem.Canonical.{canonicalize_virtaddr, canonicalize_physaddr}
use kados_ng.Mem.Memory.{Memory, read_volatile}
use kados_ng.Paging.FrameSource.{slot}
use kados_ng.Paging.Flags.{new_table, has_flags, is_present, is_writable, PageFlags}
use kados_ng.Paging.Monad.{Ensures}
use kados_ng.Paging.Table.{PageTable, TableKind, State, map_to_4kib, translate, next_table, entry}
use kados_ng.Paging.Table.{map_to, remap_to}
use kados_ng.Base.{◌/◌, inl}
use kados_ng.Paging.Table.Range.{
  IsRange, RunsOver, kernel_map_range, kernel_remap_range, kernel_map_range-Tiles,
}
use kados_ng.Paging.Table.Invariant.{Ranks, IsTree}
use kados_ng.Base.{All, false}
use kados_ng.Paging.Table.Sequence.{map_pages, Grows, Finds, Refusal}
use kados_ng.Paging.MapMemory.{KernelLayout, map_kernel}
use kados_ng.Paging.MapMemory.Segments.{unwrap_first, kernel_pages, map_kernel-Finds}
use kados_ng.Paging.Table.Mapping.{
  map_to_4kib-Ensures, translate-map_to_4kib, IsMapped, HasFailed, translate-map_to_4kib_other,
}
use kados_ng.Frames.Bump.{MemMapEntry}
use kados_ng.Frames.Source.{boot_source}

abbrev areas : List MemMapEntry
areas = record { base = 0x10000; size = 16 } ∷ []

-- Tables of four levels in the frames 0x2000 to 0x5000, which map the page 0 to the frame 0x8000.
abbrev words : Memory
words a =
    if a == slot 0x2000 0
    then 0x3003
    else if a == slot 0x3000 0
    then 0x4003
    else if a == slot 0x4000 0
    then 0x5003
    else if a == slot 0x5000 0
    then 0x8401
    else 0

abbrev start : State boot_source
start = record {
  memory = words;
  frames = record { original = areas; areas = areas; bump = 0 };
  ttbr0 = 0;
  ttbr1 = 0x2000;
}

abbrev root : PageTable
root = record { frame = 0x2000; level = level4; kind = TableKind.kernel }

abbrev rank : Ranks
rank f =
    if f == 0x2000
    then some (level4, [])
    else if f == 0x3000
    then some (level3, 0 ∷ [])
    else if f == 0x4000
    then some (level2, 0 ∷ 0 ∷ [])
    else if f == 0x5000
    then some (level1, 0 ∷ 0 ∷ 0 ∷ [])
    else none

descends :
    (f : PhysAddr) (l l' : Level) (p : List ℕ) (i : ℕ)
    → rank f ≡ some (l, p)
    → i < 512
    → next_down l ≡ some l'
    → is_table (words (slot f i)) ≡ true
    → rank (frame_of (words (slot f i))) ≡ some (l', i ∷ p)
descends f l l' p i h lt n t = ground (arith, is_table_iff (words (slot f i)))

start-IsTree : IsTree boot_source rank start
start-IsTree = record {
  valid = ((((refl, omega arith, omega arith), tt, tt)), (omega arith, refl));
  is_frame = λ f w h. ground arith;
  held = λ f w h r. ground arith;
  word = λ f w i h lt. ground arith;
  descends = descends;
}

found : translate boot_source root 0 start ≡ (ok 0x8401, start)
unfolding translate next_table entry page_table_index read_volatile is_table addr VirtAddr.align_ok
    as_hhdm_virt canonicalize_virtaddr canonicalize_physaddr VirtAddr.is_aligned has_flags flags
    PhysAddr.new is_present is_writable
found = refl

-- The page at 0x1000 is mapped to the frame 0x9000.
abbrev page : ℕ
page = 0x1000

abbrev frame : PhysAddr
frame = 0x9000

abbrev page_flags : PageFlags
page_flags = 0x403

frame-IsPage : IsPage frame
frame-IsPage = (refl, omega arith)

page_flags-IsFlags : IsFlags page_flags
page_flags-IsFlags = (omega arith, refl)

other_index : page_table_index 0 level1 ≢ page_table_index page level1
unfolding page_table_index
other_index e = omega (arith, e)

abbrev mapping : Outcome ℕ × State boot_source
mapping = map_to_4kib boot_source root page frame page_flags new_table false start

abbrev Fails : MemError → State boot_source → Type 0
Fails =
    HasFailed boot_source rank start start-IsTree root refl refl page frame page_flags frame-IsPage
      page_flags-IsFlags false

map_to_4kib-Ensures_example :
    Ensures
      (IsMapped boot_source rank start start-IsTree root refl refl page frame page_flags
        frame-IsPage page_flags-IsFlags false)
      Fails
      mapping
map_to_4kib-Ensures_example =
    map_to_4kib-Ensures boot_source rank start start-IsTree root refl refl page frame page_flags
      frame-IsPage page_flags-IsFlags false

translate-map_to_4kib_example :
    Ensures
      (λ u s'. translate boot_source root page s' ≡ (ok (entry_new frame page_flags), s'))
      Fails
      mapping
translate-map_to_4kib_example =
    translate-map_to_4kib boot_source rank start start-IsTree root refl refl page frame page_flags
      frame-IsPage page_flags-IsFlags false

translate-map_to_4kib_other_example :
    Ensures (λ u s'. translate boot_source root 0 s' ≡ (ok 0x8401, s')) Fails mapping
translate-map_to_4kib_other_example =
    translate-map_to_4kib_other boot_source rank start start-IsTree root refl refl page frame
      page_flags frame-IsPage page_flags-IsFlags false start 0 0x8401 level1 other_index found

whole_pages : IsRange 0x1ff000 0x5ff000 0x202000
whole_pages = (refl, refl, refl, inl (omega arith), omega arith)

kernel_map_range-Tiles_example :
    RunsOver boot_source
      (map_to boot_source)
      root
      0x403
      0x1ff000
      0x5ff000
      0x202000
      (kernel_map_range boot_source (0x202000 / 4096) root 0x1ff000 0x5ff000 0x202000 0x403)
    × RunsOver boot_source
        (remap_to boot_source)
        root
        0x403
        0x1ff000
        0x5ff000
        0x202000
        (kernel_remap_range boot_source (0x202000 / 4096) root 0x1ff000 0x5ff000 0x202000 0x403)
kernel_map_range-Tiles_example =
    kernel_map_range-Tiles boot_source root 0x403 0x1ff000 0x5ff000 0x202000 whole_pages

-- Two frames of a kernel, the first of code.
abbrev layout : KernelLayout
layout = record {
  phys_start = 0x80000;
  phys_end = 0x82000;
  text_start = 0xffff_ffff_8000_0000;
  text_end = 0xffff_ffff_8000_1000;
  rodata_start = 0;
  rodata_end = 0;
}

map_kernel-Finds_example :
    (map_kernel boot_source false layout root 0 2 start
      ≡ unwrap_first (map_pages boot_source root refl (kernel_pages false layout 0 2) start))
    × Ensures
        (λ u s'.
          Grows boot_source root refl s'
          × All (Finds boot_source root refl s') (kernel_pages false layout 0 2))
        (λ e s'. Refusal e)
        (map_pages boot_source root refl (kernel_pages false layout 0 2) start)
map_kernel-Finds_example =
    map_kernel-Finds boot_source false layout root refl 2 start
      (record { page = refl; low = omega arith; room = omega arith }) (rank, start-IsTree, refl)
