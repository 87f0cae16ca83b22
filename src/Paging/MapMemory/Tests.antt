-- ===== src/Paging/MapMemory/Tests.antt =====
-- Flags of the kernel's segments (crates/kernel/src/mem/paging/mod.rs).
use kados_ng.Base.{◌≡◌, refl, ◌&&◌, true, false}
use kados_ng.Paging.Flags.{
  new_for_text_segment, is_writable, is_executable, executable, writable, with_flag,
}
use kados_ng.Paging.MapMemory.{KernelLayout, kernel_virt, segment_flags}
use kados_ng.Paging.MapMemory.Segments.{segment_flags-safe}

-- Two pages of code, then one of constants, then data.
abbrev small_kernel : KernelLayout
small_kernel = record {
  phys_start = 0x80000;
  phys_end = 0x85000;
  text_start = kernel_virt 0;
  text_end = kernel_virt 2;
  rodata_start = kernel_virt 2;
  rodata_end = kernel_virt 3;
}

segment_flags-safe_example :
    (is_writable (segment_flags false small_kernel (kernel_virt 1))
      && is_executable (segment_flags false small_kernel (kernel_virt 1)))
    ≡ false
segment_flags-safe_example = segment_flags-safe small_kernel (kernel_virt 1)

-- Code can be executed in any build, and written in a debug build.
text_is_executable : is_executable (new_for_text_segment false) ≡ true
unfolding is_executable new_for_text_segment executable with_flag
text_is_executable = refl

debug_text_is_writable : is_writable (new_for_text_segment true) ≡ true
unfolding is_writable new_for_text_segment executable writable with_flag
debug_text_is_writable = refl
