-- ===== src/Paging/Entry/Word.antt =====
-- The operations of `PageTableEntry`.
use kados_ng.Base.{ℕ, ◌*◌, ◌/◌, ◌%◌, ◌^◌, Bool, true, false, bit_and, bit_or}
use kados_ng.Base.{◌==◌, leb, ltb, ◌&&◌, ◌||◌, not, if◌then◌else◌}
use kados_ng.Arch.{
  page_shift, page_size, page_entry_addr_mask, page_entry_addr_shift, page_entry_flags_mask,
  page_flag_huge, page_flag_non_block,
}
use kados_ng.Mem.Outcome.{Outcome, err, is_ok_and, MemError}
use kados_ng.Mem.PhysAddr
use kados_ng.Mem.PhysAddr.{PhysAddr}
use kados_ng.Mem.VirtAddr
use kados_ng.Paging.Flags.{PageFlags, has_flags, is_present, is_writable}

abbrev pub PageTableEntry : Type 0
PageTableEntry = ℕ

abbrev pub unused : PageTableEntry
unused = 0

-- `PageTableEntry::new`.
unfoldable pub entry_new : PhysAddr → PageFlags → PageTableEntry
entry_new address fl =
    bit_or
      (bit_and (address / 2 ^ page_shift) page_entry_addr_mask * 2 ^ page_entry_addr_shift % 2 ^ 64)
      fl

unfoldable pub is_unused : PageTableEntry → Bool
is_unused e = e == unused

unfoldable pub flags : PageTableEntry → PageFlags
flags e = bit_and e page_entry_flags_mask

unfoldable pub addr : PageTableEntry → Outcome PhysAddr
addr e =
    if has_flags (flags e) page_flag_huge
    then err MemError.huge_page
    else PhysAddr.new
        (bit_and (e / 2 ^ page_entry_addr_shift) page_entry_addr_mask * 2 ^ page_shift % 2 ^ 64)

unfoldable pub is_table : PageTableEntry → Bool
is_table e =
    if not (is_ok_and (addr e) (λ a. leb page_size a && ltb a VirtAddr.max_low))
    then false
    else if not (is_present (flags e)) || not (is_writable (flags e))
    then false
    else if not (has_flags (flags e) page_flag_non_block)
    then false
    else true

unfoldable pub insert_flags : PageTableEntry → PageFlags → PageTableEntry
insert_flags e fl = bit_or e fl
