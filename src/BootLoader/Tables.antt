-- ===== src/BootLoader/Tables.antt =====
-- crates/bootloader/src/lib.rs: the bump allocator of tables, `next_table`, `map_range` and the three
-- sizes of mappings. The MMU is off, so a `&mut Table` is the physical address of the table.
use kados_ng.Base.{
  ℕ, zero, suc, ◌+◌, ◌-◌, ◌*◌, ◌/◌, ◌%◌, ◌^◌, bit_and, bit_or, Bool, ◌&&◌, ◌||◌, leb, ltb,
}
use kados_ng.Base.{◌==◌, if◌then◌else◌, Option, none, some}
use kados_ng.Arch.{
  wrapping_add, hhdm_physical_offset, bit_not, page_flag_present, page_flag_non_block,
  page_flag_access, page_flag_normal,
}
use kados_ng.Arch.{page_flag_inner_shareable, page_flag_outer_shareable, page_flag_non_executable}

abbrev kb : ℕ
kb = 1024

abbrev pub four_kb : ℕ
four_kb = kb * 4

abbrev mb : ℕ
mb = kb * 1024

abbrev pub two_mb : ℕ
two_mb = mb * 2

abbrev pub gb : ℕ
gb = mb * 1024

abbrev pub page_flag_device : ℕ
page_flag_device =
    bit_or
      (bit_or
        (bit_or (bit_or (bit_or (bit_or page_flag_present page_flag_non_block) page_flag_access) 0)
          0)
        page_flag_outer_shareable)
      page_flag_non_executable

abbrev page_entry_addr_mask : ℕ
page_entry_addr_mask = 2 ^ 40 - 1

abbrev pub page_entry_flags_mask : ℕ
page_entry_flags_mask = bit_not (page_entry_addr_mask * 2 ^ 12)

-- The words of physical memory by their addresses, and where the next table goes.
pub record Boot : Type 0 where
  pub memory : ℕ → ℕ
  pub off : ℕ

abbrev pub word_at : ℕ → ℕ → ℕ
word_at table index = table + 8 * index

abbrev pub write : Boot → ℕ → ℕ → Boot
write s a v = record s { memory = λ b. if a == b then v else s.memory b }

-- The size of a `Table` is 4096.
unfoldable pub alloc_table : Boot → Boot × ℕ
alloc_table s = (record s { off = s.off + 4096 }, s.off)

unfoldable pub l0_index : ℕ → ℕ
l0_index addr = bit_and (addr / 2 ^ 39) 0x1ff

unfoldable pub l1_index : ℕ → ℕ
l1_index addr = bit_and (addr / 2 ^ 30) 0x1ff

unfoldable pub l2_index : ℕ → ℕ
l2_index addr = bit_and (addr / 2 ^ 21) 0x1ff

unfoldable pub l3_index : ℕ → ℕ
l3_index addr = bit_and (addr / 2 ^ 12) 0x1ff

-- The entry that `set_entry` writes.
unfoldable pub set_entry : ℕ → ℕ → ℕ
set_entry addr flags = bit_or addr flags

unfoldable pub entry_addr : ℕ → ℕ
entry_addr entry = bit_and entry 0x0000_ffff_ffff_f000

unfoldable pub entry_flags : ℕ → ℕ
entry_flags entry = bit_and entry page_entry_flags_mask

abbrev pub table_flags : ℕ
table_flags = bit_or (bit_or page_flag_access page_flag_non_block) page_flag_present

-- What `next_table` does with an index that is in the table.
unfoldable pub next_table_at : Boot → ℕ → ℕ → ℕ → Boot × ℕ
next_table_at s table index insert_flags =
    let entry = s.memory (word_at table index) in
    let table_addr = entry_addr entry in
    if table_addr == 0
    then (let (s', new_table) = alloc_table s in
        (
          write s' (word_at table index)
              (set_entry (entry_addr new_table) (bit_or table_flags insert_flags)),
          new_table,
        ))
    else (
      write s (word_at table index)
          (set_entry table_addr (bit_or (entry_flags entry) insert_flags)),
      table_addr,
    )

-- `none` stands for the panic of `table.0[index]` behind the 512 entries.
unfoldable pub next_table : Boot → ℕ → ℕ → ℕ → Option (Boot × ℕ)
next_table s table index insert_flags =
    if ltb index 512 then some (next_table_at s table index insert_flags) else none

-- `table.0[index]` as a place to write to.
unfoldable pub write_entry : Boot → ℕ → ℕ → ℕ → Option Boot
write_entry s table index v = if ltb index 512 then some (write s (word_at table index) v) else none

abbrev pub into_table : {A : Type 0} → Option (Boot × ℕ) → (Boot → ℕ → Option A) → Option A
into_table none f = none
into_table (some (s, t)) f = f s t

unfoldable pub is_aligned : ℕ → ℕ → Bool
is_aligned x align = x % align == 0 || bit_and x (align - 1) == 0

unfoldable pub largest_aligned_block_size : ℕ → ℕ → ℕ → ℕ
largest_aligned_block_size phys virt size =
    if is_aligned phys gb && is_aligned virt gb && leb gb size
    then gb
    else if is_aligned phys two_mb && is_aligned virt two_mb && leb two_mb size
    then two_mb
    else four_kb

unfoldable pub map_to_1gib : Boot → ℕ → ℕ → ℕ → ℕ → Option Boot
map_to_1gib s table phys virt flags =
    let flags' = bit_and flags (bit_not page_flag_non_block) in
    into_table (next_table s table (l0_index virt) 0)
      λ s1 l1. write_entry s1 l1 (l1_index virt) (set_entry phys flags')

unfoldable pub map_to_2mib : Boot → ℕ → ℕ → ℕ → ℕ → Option Boot
map_to_2mib s table phys virt flags =
    let flags' = bit_and flags (bit_not page_flag_non_block) in
    into_table (next_table s table (l0_index virt) 0) λ s1 l1.
      into_table (next_table s1 l1 (l1_index virt) 0)
        λ s2 l2. write_entry s2 l2 (l2_index virt) (set_entry phys flags')

unfoldable pub map_to_4kib : Boot → ℕ → ℕ → ℕ → ℕ → Option Boot
map_to_4kib s table phys virt flags =
    let flags' = bit_or flags page_flag_non_block in
    into_table (next_table s table (l0_index virt) 0) λ s1 l1.
      into_table (next_table s1 l1 (l1_index virt) 0) λ s2 l2.
        into_table (next_table s2 l2 (l2_index virt) 0)
          λ s3 l3. write_entry s3 l3 (l3_index virt) (set_entry phys flags')

-- The `match` on the block size. `none` stands for `unreachable!`, too.
unfoldable pub map_block : Boot → ℕ → ℕ → ℕ → ℕ → ℕ → Option Boot
map_block s table block_size phys virt flags =
    if block_size == gb
    then map_to_1gib s table phys virt flags
    else if block_size == two_mb
    then map_to_2mib s table phys virt flags
    else if block_size == four_kb
    then map_to_4kib s table phys virt flags
    else none

abbrev pub continue_with : {A : Type 0} → Option Boot → (Boot → Option A) → Option A
continue_with none f = none
continue_with (some s) f = f s

-- `while mapped < size`; the fuel bounds the rounds. The sums wrap as in a release build.
unfoldable pub map_range_from : ℕ → Boot → ℕ → ℕ → ℕ → ℕ → ℕ → ℕ → Option Boot
map_range_from zero s table phys virt size flags mapped = if ltb mapped size then none else some s
map_range_from (suc fuel) s table phys virt size flags mapped =
    let phys' = wrapping_add phys mapped in
    let virt' = wrapping_add virt mapped in
    let block_size = largest_aligned_block_size phys' virt' (size - mapped) in
    if ltb mapped size
    then (continue_with (map_block s table block_size phys' virt' flags)
        λ s'. map_range_from fuel s' table phys virt size flags (wrapping_add mapped block_size))
    else some s

unfoldable pub map_range : ℕ → Boot → ℕ → ℕ → ℕ → ℕ → ℕ → Option Boot
map_range fuel s table phys virt size flags = map_range_from fuel s table phys virt size flags 0

-- The linker's symbols that `boot_el2` reads, and the address of the device tree.
pub record Symbols : Type 0 where
  pub boot_table : ℕ
  pub kernel_phys_start : ℕ
  pub kernel_phys_end : ℕ
  pub kernel_virt_start : ℕ
  pub boot_start : ℕ
  pub boot_end : ℕ
  pub dtb_ptr : ℕ

abbrev peripheral_base : ℕ
peripheral_base = 0xFE00_0000

abbrev pub boot_flags : ℕ
boot_flags =
    bit_or
      (bit_or (bit_or (bit_or page_flag_access page_flag_inner_shareable) page_flag_non_block)
        page_flag_normal)
      page_flag_present

-- The tables that `boot_el2` builds before it turns the MMU on. The linker script places the ends of
-- the kernel and of the boot code after their starts.
unfoldable pub boot_tables : ℕ → (ℕ → ℕ) → Symbols → Option Boot
boot_tables fuel memory sym =
    let (s0, l0) = alloc_table (record { memory = memory; off = sym.boot_table }) in
    let kernel_size = sym.kernel_phys_end - sym.kernel_phys_start in
    let boot_size = sym.boot_end - sym.boot_start in
    continue_with (map_range fuel s0 l0 0 hhdm_physical_offset 0x1_0000_0000 boot_flags) λ s1.
      continue_with
        (map_range fuel s1 l0 sym.kernel_phys_start sym.kernel_virt_start kernel_size boot_flags)
        λ s2.
          continue_with (map_range fuel s2 l0 sym.boot_start sym.boot_start boot_size boot_flags)
            λ s3.
              continue_with
                (map_range fuel s3 l0 peripheral_base peripheral_base 0x200_0000 page_flag_device)
                λ s4. map_range fuel s4 l0 sym.dtb_ptr sym.dtb_ptr (32 * 1024 * 1024) boot_flags
