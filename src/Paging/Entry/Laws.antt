-- ===== src/Paging/Entry/Laws.antt =====
-- The fields of an entry as numbers: bits 12 to 51 hold the frame, the others the flags.
use kados_ng.Base.{◌+◌, ◌*◌, ◌/◌, ◌%◌, ◌^◌, ◌≤◌, ◌<◌, ◌≡◌, ◌↔◌, arith}
use kados_ng.Base.{true, ◌==◌}
use kados_ng.Arch.{page_size}
use kados_ng.Bits.{
  bit_and_split, bit_or_split, bit_and_mask, bit_and_flag, bit_and-zero, bit_or-zero, zero-bit_or,
}
use kados_ng.Mem.Outcome.{ok}
use kados_ng.Mem.Canonical.{canonicalize_physaddr-eq-mod}
use kados_ng.Mem.PhysAddr
use kados_ng.Mem.PhysAddr.{PhysAddr}
use kados_ng.Mem.VirtAddr
use kados_ng.Paging.Flags.{PageFlags, has_flags, is_present, is_writable}
use kados_ng.Paging.Entry.Word.{PageTableEntry, entry_new, flags, addr, is_table, insert_flags}

-- The frame that an entry points to.
abbrev pub frame_of : PageTableEntry → PhysAddr
frame_of e = e / 2 ^ 12 % 2 ^ 40 * 2 ^ 12

-- A word of flags leaves the bits of the frame alone.
abbrev pub IsFlags : PageFlags → Type 0
IsFlags fl = (fl < 2 ^ 64) × (fl / 2 ^ 12 % 2 ^ 40 ≡ 0)

-- A frame begins at a multiple of the page size and has a canonical address.
abbrev pub IsPage : PhysAddr → Type 0
IsPage f = (f % 2 ^ 12 ≡ 0) × (f < 2 ^ 52)

-- The flags are the word without the bits of the frame.
pub flags-eq : (e : PageTableEntry) → e < 2 ^ 64 → flags e ≡ e / 2 ^ 52 * 2 ^ 52 + e % 2 ^ 12
unfolding flags
flags-eq e h = ground (
  arith,
  bit_and_split 52 (e / 2 ^ 52) 4095 (e % 2 ^ 52) 4095 (omega arith) (omega arith),
  bit_and_mask 12 (e / 2 ^ 52),
  bit_and_mask 12 (e % 2 ^ 52),
)

-- `PAGE_FLAG_HUGE` is 0 on this architecture, so no entry is taken for a huge page.
pub addr-eq-frame_of : (e : PageTableEntry) → addr e ≡ ok (frame_of e)
unfolding addr has_flags PhysAddr.new
addr-eq-frame_of e = ground (
  arith,
  bit_and-zero (flags e),
  bit_and_mask 40 (e / 2 ^ 12),
  canonicalize_physaddr-eq-mod (frame_of e),
)

pub is_present-flags : (e : PageTableEntry) → e < 2 ^ 64 → is_present (flags e) ≡ (e % 2 == 1)
unfolding is_present
is_present-flags e h = ground (arith, flags-eq e h, bit_and_flag 0 (flags e))

pub is_writable-flags :
    (e : PageTableEntry) → e < 2 ^ 64 → is_writable (flags e) ≡ (e / 2 ^ 7 % 2 == 0)
unfolding is_writable
is_writable-flags e h = ground (arith, flags-eq e h, bit_and_flag 7 (flags e))

pub is_non_block-flags :
    (e : PageTableEntry) → e < 2 ^ 64 → has_flags (flags e) 2 ≡ (e / 2 % 2 == 1)
unfolding has_flags
is_non_block-flags e h = ground (arith, flags-eq e h, bit_and_flag 1 (flags e))

-- A word of 64 bits is taken for a table exactly when it is present, writable, no block, and its
-- frame is above the first page and below `MAX_LOW`.
pub is_table_iff :
    (e : PageTableEntry)
    → e < 2 ^ 64
    → (is_table e ≡ true) ↔ (
        (e % 4 ≡ 3)
        × (e / 2 ^ 7 % 2 ≡ 0)
        × (page_size ≤ frame_of e)
        × (frame_of e < VirtAddr.max_low))
unfolding is_table
is_table_iff e h = (
  λ t. ground (
    arith,
    addr-eq-frame_of e,
    is_present-flags e h,
    is_writable-flags e h,
    is_non_block-flags e h,
  ),
  λ t. ground (
    arith,
    addr-eq-frame_of e,
    is_present-flags e h,
    is_writable-flags e h,
    is_non_block-flags e h,
  ),
)

-- The word of a new entry.
pub entry_new-eq :
    (f : PhysAddr) (fl : PageFlags)
    → IsPage f
    → IsFlags fl
    → entry_new f fl ≡ fl / 2 ^ 52 * 2 ^ 52 + f + fl % 2 ^ 12
unfolding entry_new
entry_new-eq f fl hf hfl = ground (
  arith,
  bit_and_mask 40 (f / 2 ^ 12),
  bit_or_split 52 0 (fl / 2 ^ 52) f (fl % 2 ^ 12) (omega arith) (omega arith),
  zero-bit_or (fl / 2 ^ 52),
  bit_or_split 12 (f / 2 ^ 12) 0 0 (fl % 2 ^ 12) (omega arith) (omega arith),
  bit_or-zero (f / 2 ^ 12),
  zero-bit_or (fl % 2 ^ 12),
)

-- An entry made from a page-aligned canonical frame and from flags outside the frame's bits gives
-- its frame and its flags back, and is a word of 64 bits.
pub addr-entry_new :
    (f : PhysAddr) (fl : PageFlags)
    → IsPage f
    → IsFlags fl
    → (addr (entry_new f fl) ≡ ok f) × (flags (entry_new f fl) ≡ fl) × (entry_new f fl < 2 ^ 64)
addr-entry_new f fl hf hfl =
    ground (
      arith,
      entry_new-eq f fl hf hfl,
      addr-eq-frame_of (entry_new f fl),
      flags-eq (entry_new f fl),
    )

-- The flags of a table are already set in an entry that is taken for a table.
pub insert_flags-is_table :
    (e : PageTableEntry) → e < 2 ^ 64 → is_table e ≡ true → insert_flags e 3 ≡ e
unfolding insert_flags
insert_flags-is_table e h t = ground (
  arith,
  (is_table_iff e h).0 t,
  bit_or_split 2 (e / 4) 0 3 3 (omega arith) (omega arith),
  bit_or-zero (e / 4),
)
