-- ===== src/Panicking/Tests.antt =====
-- The backtrace of two frame records in the first page, and a name that the host sends.
use kados_ng.Base.{Option, none, ◌+◌, ℕ, ◌≡◌, refl, List, [], ◌∷◌, some, ◌==◌, if◌then◌else◌}
use kados_ng.Mem.PhysAddr
use kados_ng.Mem.VirtAddr
use kados_ng.Mem.Memory.{Memory}
use kados_ng.Frames.Bump.{MemMapEntry}
use kados_ng.Frames.Source.{boot_source}
use kados_ng.Paging.FrameSource.{slot}
use kados_ng.Paging.Table.{current, PageTable, TableKind, State}
use kados_ng.Panicking.{read_name}

abbrev areas : List MemMapEntry
areas = record { base = 0x10000; size = 16 } ∷ []

-- The stack lies in the page at `base`, whose indices are 511 at each level.
abbrev base : ℕ
base = 0xffff_ffff_ffff_f000

-- The page is mapped to the frame 0x8000. The record at 16 in it names the one at 32, which is the
-- last.
abbrev words : Memory
words a =
    if a == slot 0x2000 511
    then 0x3003
    else if a == slot 0x3000 511
    then 0x4003
    else if a == slot 0x4000 511
    then 0x5003
    else if a == slot 0x5000 511
    then 0x8403
    else if a == base + 16
    then base + 32
    else if a == base + 24
    then 0x80123
    else 0

abbrev stopped : State boot_source
stopped = record {
  memory = words;
  frames = record { original = areas; areas = areas; bump = 0 };
  ttbr0 = 0;
  ttbr1 = 0x2000;
}

abbrev root : PageTable
root = current boot_source TableKind.kernel stopped

abbrev no_low : State boot_source → ℕ → Option ℕ
no_low s a = none

name_test : read_name 2048 (109 ∷ 97 ∷ 10 ∷ 7 ∷ []) ≡ some (109 ∷ 97 ∷ [], 7 ∷ [])
unfolding read_name
name_test = refl
