-- ===== src/Arch.antt =====
-- The constants of the `Architecture` trait (crates/kernel/src/arch/mod.rs) for AArch64
-- (crates/kernel/src/arch/aarch64/mod.rs) and the machine word `usize` with its wrapping operations.
use kados_ng.Base.{ℕ, ◌+◌, ◌-◌, ◌*◌, ◌%◌, ◌^◌, bit_or}

-- A release build wraps where a debug build panics.
abbrev pub wrapping_add : ℕ → ℕ → ℕ
wrapping_add a b = (a + b) % 2 ^ 64

abbrev pub wrapping_sub : ℕ → ℕ → ℕ
wrapping_sub a b = (a + 2 ^ 64 - b) % 2 ^ 64

abbrev pub wrapping_mul : ℕ → ℕ → ℕ
wrapping_mul a b = a * b % 2 ^ 64

-- `!a` on a `usize`.
abbrev pub bit_not : ℕ → ℕ
bit_not a = 2 ^ 64 - 1 - a

abbrev pub page_shift : ℕ
page_shift = 12

abbrev pub page_entry_shift : ℕ
page_entry_shift = 9

abbrev pub page_entry_addr_width : ℕ
page_entry_addr_width = 40

abbrev pub page_size : ℕ
page_size = 2 ^ page_shift

abbrev pub page_entry_addr_shift : ℕ
page_entry_addr_shift = page_shift

abbrev pub page_entries : ℕ
page_entries = 2 ^ page_entry_shift

abbrev pub page_entry_mask : ℕ
page_entry_mask = page_entries - 1

abbrev pub page_entry_addr_size : ℕ
page_entry_addr_size = 2 ^ page_entry_addr_width

abbrev pub page_entry_addr_mask : ℕ
page_entry_addr_mask = page_entry_addr_size - 1

abbrev pub page_entry_flags_mask : ℕ
page_entry_flags_mask = bit_not (page_entry_addr_mask * 2 ^ page_entry_addr_shift)

abbrev pub page_flag_present : ℕ
page_flag_present = 2 ^ 0

abbrev pub page_flag_non_block : ℕ
page_flag_non_block = 2 ^ 1

abbrev pub page_flag_access : ℕ
page_flag_access = 2 ^ 10

abbrev pub page_flag_normal : ℕ
page_flag_normal = 2 ^ 2

abbrev pub page_flag_inner_shareable : ℕ
page_flag_inner_shareable = 0b11 * 2 ^ 8

abbrev pub page_flag_outer_shareable : ℕ
page_flag_outer_shareable = 0b10 * 2 ^ 8

abbrev pub page_flag_readonly : ℕ
page_flag_readonly = 2 ^ 7

abbrev pub page_flag_readwrite : ℕ
page_flag_readwrite = 0

abbrev pub page_flag_executable : ℕ
page_flag_executable = 0

abbrev pub page_flag_non_executable : ℕ
page_flag_non_executable = 0b11 * 2 ^ 53

abbrev pub page_flag_non_global : ℕ
page_flag_non_global = 2 ^ 11

abbrev pub page_flag_huge : ℕ
page_flag_huge = 0

abbrev pub page_flag_table_defaults : ℕ
page_flag_table_defaults = bit_or page_flag_present page_flag_non_block

abbrev pub page_flag_page_defaults : ℕ
page_flag_page_defaults =
    bit_or
      (bit_or (bit_or (bit_or page_flag_present page_flag_non_block) page_flag_access)
        page_flag_normal)
      page_flag_inner_shareable

abbrev pub page_flag_device : ℕ
page_flag_device =
    bit_or
      (bit_or (bit_or (bit_or page_flag_present page_flag_non_block) page_flag_access)
        page_flag_outer_shareable)
      page_flag_non_executable

-- `HHDM_PHYSICAL_OFFSET` of crates/kernel/src/main.rs.
abbrev pub hhdm_physical_offset : ℕ
hhdm_physical_offset = 0xffff_8000_0000_0000
