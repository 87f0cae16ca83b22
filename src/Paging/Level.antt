-- ===== src/Paging/Level.antt =====
-- `PageTableLevel` of crates/kernel/src/mem/paging/table.rs, and the index that an address has in a
-- table of each level (`page_table_index` of crates/kernel/src/mem/units.rs).
use kados_ng.Base.{ℕ, ◌+◌, ◌-◌, ◌*◌, ◌/◌, ◌%◌, ◌^◌, ◌<◌, ◌≡◌, bit_and, arith, Option, none, some}
use kados_ng.Arch.{page_shift, page_entry_shift, page_entry_mask, page_entries, page_size}
use kados_ng.Bits.{bit_and_mask}
use kados_ng.Mem.VirtAddr.{VirtAddr}
use kados_ng.Mem.Canonical.{IsCanonicalVirt}

pub data Level : Type 0 where
  level1 level2 level3 level4 : Level

abbrev pub number : Level → ℕ
number level1 = 1
number level2 = 2
number level3 = 3
number level4 = 4

abbrev pub next_down : Level → Option Level
next_down level4 = some level3
next_down level3 = some level2
next_down level2 = some level1
next_down level1 = none

abbrev pub shift : Level → ℕ
shift l = (number l - 1) * page_entry_shift + page_shift

unfoldable pub page_table_index : VirtAddr → Level → ℕ
page_table_index addr l = bit_and (addr / 2 ^ shift l) page_entry_mask

pub page_table_index-eq-mod :
    (addr : VirtAddr) (l : Level) → page_table_index addr l ≡ addr / 2 ^ shift l % page_entries
unfolding page_table_index
page_table_index-eq-mod addr l = bit_and_mask 9 (addr / 2 ^ shift l)

pub page_table_index-lt : (addr : VirtAddr) (l : Level) → page_table_index addr l < page_entries
page_table_index-lt addr l = omega (arith, page_table_index-eq-mod addr l)

-- Two canonical addresses that have the same index at every level lie in the same page.
pub page_table_index_injective :
    (a b : VirtAddr)
    → a < 2 ^ 64
    → b < 2 ^ 64
    → IsCanonicalVirt a
    → IsCanonicalVirt b
    → ((l : Level) → page_table_index a l ≡ page_table_index b l)
    → a / page_size ≡ b / page_size
page_table_index_injective a b ha hb ca cb same = ground (
  arith,
  same level1,
  same level2,
  same level3,
  same level4,
  page_table_index-eq-mod a level1,
  page_table_index-eq-mod a level2,
  page_table_index-eq-mod a level3,
  page_table_index-eq-mod a level4,
  page_table_index-eq-mod b level1,
  page_table_index-eq-mod b level2,
  page_table_index-eq-mod b level3,
  page_table_index-eq-mod b level4,
)
