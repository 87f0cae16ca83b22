-- ===== src/Paging/Flags.antt =====
-- `PageFlags` of crates/kernel/src/mem/paging/table.rs, as the raw word.
use kados_ng.Base.{ℕ, Bool, true, false, bit_and, bit_or, ◌==◌, ◌&&◌, not, if◌then◌else◌}
use kados_ng.Arch.{
  bit_not, page_flag_present, page_flag_readonly, page_flag_readwrite, page_flag_executable,
  page_flag_non_executable, page_flag_non_global, page_flag_page_defaults, page_flag_table_defaults,
  page_flag_device,
}

abbrev pub PageFlags : Type 0
PageFlags = ℕ

abbrev pub new : PageFlags
new =
    bit_or (bit_or (bit_or page_flag_page_defaults page_flag_readonly) page_flag_non_executable)
      page_flag_non_global

abbrev pub empty : PageFlags
empty = 0

abbrev pub new_table : PageFlags
new_table = page_flag_table_defaults

unfoldable pub has_flags : PageFlags → ℕ → Bool
has_flags flags flag = (bit_and flags flag == flag) && not (flag == 0)

unfoldable pub with_flag : PageFlags → ℕ → Bool → PageFlags
with_flag flags flag true = bit_or flags flag
with_flag flags flag false = bit_and flags (bit_not flag)

unfoldable pub is_present : PageFlags → Bool
unfolding has_flags
is_present flags = has_flags flags page_flag_present

unfoldable pub is_executable : PageFlags → Bool
is_executable flags =
    bit_and flags (bit_or page_flag_executable page_flag_non_executable) == page_flag_executable

unfoldable pub executable : PageFlags → PageFlags
executable flags =
    with_flag (with_flag flags page_flag_executable true) page_flag_non_executable false

unfoldable pub is_writable : PageFlags → Bool
is_writable flags =
    bit_and flags (bit_or page_flag_readonly page_flag_readwrite) == page_flag_readwrite

unfoldable pub writable : PageFlags → PageFlags
writable flags =
    with_flag (with_flag flags (bit_or page_flag_readonly page_flag_readwrite) false)
      page_flag_readwrite true

-- `debug` stands for `cfg!(debug_assertions)`.
unfoldable pub new_for_text_segment : Bool → PageFlags
new_for_text_segment debug = if debug then writable (executable new) else executable new

unfoldable pub new_for_rodata_segment : PageFlags
new_for_rodata_segment = new

unfoldable pub new_for_data_segment : PageFlags
new_for_data_segment = writable new

unfoldable pub new_device : PageFlags
new_device = page_flag_device
