-- ===== src/Paging/MapMemory.antt =====
-- `map_memory` of crates/kernel/src/mem/paging/mod.rs, with `init_mem` of arch/aarch64/mod.rs and
-- `dma_init` of arch/aarch64/drivers/mod.rs. Loops over a range of bytes take fuel, and `none` says
-- that it ran out. The addresses of the linker script and the frame allocator are arguments.
pub mod Segments
mod Tests
use kados_ng.Base.{
  ℕ, zero, suc, ◌+◌, ◌-◌, ◌*◌, ◌/◌, Bool, ◌&&◌, List, [], ◌∷◌, Option, none, some, ltb, leb, ◌==◌,
  if◌then◌else◌,
}
use kados_ng.Arch.{page_size, wrapping_add, wrapping_sub, wrapping_mul}
use kados_ng.Mem.Outcome.{Outcome, unwrap}
use kados_ng.Mem.PhysAddr
use kados_ng.Mem.PhysAddr.{PhysAddr}
use kados_ng.Mem.VirtAddr
use kados_ng.Mem.VirtAddr.{VirtAddr}
use kados_ng.Mem.Hhdm.{as_hhdm_virt, as_identity_virt}
use kados_ng.Mem.FrameCount.{from_bytes, to_bytes}
use kados_ng.Frames.Bump.{MemMapEntry}
use kados_ng.Paging.BlockSize.{BlockSize, page4_kib, size}
use kados_ng.Paging.Flags.{
  PageFlags, new_for_text_segment, new_for_rodata_segment, new_for_data_segment, new_device,
}
use kados_ng.Paging.Monad.{M, ◌>>=◌, ◌>>◌, pure, lift}
use kados_ng.Paging.FrameSource.{FrameSource}
use kados_ng.Paging.Table.{
  PageTable, PageFlush, State, TableKind, kernel, create, map_to, make_current,
}
use kados_ng.Paging.Table.Range.{kernel_map_range}

abbrev pub kernel_offset : ℕ
kernel_offset = 0xffff_ffff_8000_0000

abbrev pub kernel_heap_start : ℕ
kernel_heap_start = 0xFFFF_FE80_0000_0000

abbrev pub kernel_heap_size : ℕ
kernel_heap_size = 1024 * 1024 * 64

abbrev pub peripheral_base : ℕ
peripheral_base = 0xFE00_0000

abbrev pub peripheral_size : ℕ
peripheral_size = 0x200_0000

abbrev pub dma_size : ℕ
dma_size = page_size * 32

-- What the linker script says of the kernel.
pub record KernelLayout : Type 0 where
  pub phys_start : ℕ
  pub phys_end : ℕ
  pub text_start : ℕ
  pub text_end : ℕ
  pub rodata_start : ℕ
  pub rodata_end : ℕ

abbrev pub within : ℕ → ℕ → ℕ → Bool
within start end addr = leb start addr && ltb addr end

-- `debug` stands for `cfg!(debug_assertions)`.
unfoldable pub segment_flags : Bool → KernelLayout → VirtAddr → PageFlags
segment_flags debug k virt =
    if within k.text_start k.text_end virt
    then new_for_text_segment debug
    else if within k.rodata_start k.rodata_end virt
    then new_for_rodata_segment
    else new_for_data_segment

-- The addresses of the frame `i` of the kernel.
abbrev pub kernel_phys : KernelLayout → ℕ → PhysAddr
kernel_phys k i = PhysAddr.new_canonical (wrapping_add k.phys_start (wrapping_mul i page_size))

abbrev pub kernel_virt : ℕ → VirtAddr
kernel_virt i = VirtAddr.new_canonical (wrapping_add kernel_offset (wrapping_mul i page_size))

abbrev pub unwrapped : {S A : Type 0} → M S A → M S A
unwrapped m s = let (o, s') = m s in (unwrap o, s')

-- The next step, unless fuel ran out.
abbrev pub after :
    {S : Type 0} → Option (Unit {0}) → M S (Option (Unit {0})) → M S (Option (Unit {0}))
after none m = pure none
after (some u) m = m

module _ (src : FrameSource) where
  abbrev pub Computation : Type 0
  Computation = M (State src) (Option (Unit {0}))

  pub map_range_with_block_size :
      ℕ → PageTable → VirtAddr → PhysAddr → ℕ → BlockSize → PageFlags → Computation
  map_range_with_block_size zero t page frame bytes b fl =
      if bytes == 0 then pure (some tt) else pure none
  map_range_with_block_size (suc n) t page frame bytes b fl =
      let rest =
        map_range_with_block_size n t (VirtAddr.add_bytes page (size b))
          (PhysAddr.add_bytes frame (size b)) (wrapping_sub bytes (size b)) b fl in
      if bytes == 0 then pure (some tt) else (map_to src t page frame b fl >>= λ _. rest)

  -- The memory map's areas in the direct map.
  pub map_areas : PageTable → List MemMapEntry → Computation
  map_areas t [] = pure (some tt)
  map_areas t (entry ∷ entries) =
      unwrapped (
        kernel_map_range src (to_bytes entry.size / page_size) t (as_hhdm_virt entry.base)
          entry.base (to_bytes entry.size) new_for_data_segment)
      >>= λ o. after o (map_areas t entries)

  -- The body of the loop over the kernel's frames, then the loop over `n` of them from `i` on.
  pub map_frame : Bool → KernelLayout → PageTable → ℕ → M (State src) (Unit {0})
  map_frame debug k t i = do
    let phys = kernel_phys k i
    let fl = segment_flags debug k (kernel_virt i)
    _ ← unwrapped (map_to src t (kernel_virt i) phys page4_kib fl)
    _ ← unwrapped (map_to src t (as_hhdm_virt phys) phys page4_kib fl)
    pure tt

  pub map_kernel : Bool → KernelLayout → PageTable → ℕ → ℕ → M (State src) (Unit {0})
  map_kernel debug k t i zero = pure tt
  map_kernel debug k t i (suc n) = map_frame debug k t i >>= λ _. map_kernel debug k t (i + 1) n

  -- The loop of `init_mem` from `bytes_mapped` on, for at most `n` rounds.
  pub map_peripherals : ℕ → PageTable → ℕ → Computation
  map_peripherals zero t bytes_mapped =
      if ltb bytes_mapped peripheral_size then pure none else pure (some tt)
  map_peripherals (suc n) t bytes_mapped =
      let frame = PhysAddr.new_canonical peripheral_base in
      let rest = map_peripherals n t (bytes_mapped + size page4_kib) in
      if ltb bytes_mapped peripheral_size
      then (unwrapped (
            map_to src t (VirtAddr.add_bytes (as_hhdm_virt frame) bytes_mapped)
              (PhysAddr.add_bytes frame bytes_mapped) page4_kib new_device)
          >>= λ _. rest)
      else pure (some tt)

module _ (src : FrameSource) (allocate : ℕ → M (State src) PhysAddr) where
  pub map_heap : PageTable → Computation src
  map_heap t = do
    frames ← unwrapped (allocate (from_bytes kernel_heap_size))
    unwrapped (
        kernel_map_range src (kernel_heap_size / page_size) t
          (VirtAddr.new_canonical kernel_heap_start) frames kernel_heap_size new_for_data_segment)

  -- `dma_init` up to the call of the heap package.
  pub dma_init : PageTable → Computation src
  dma_init t = do
    base ← unwrapped (allocate (from_bytes dma_size))
    unwrapped (
        map_range_with_block_size src (dma_size / page_size) t (as_identity_virt base) base dma_size
          page4_kib new_for_data_segment)

  pub init_mem : PageTable → Computation src
  init_mem t = map_peripherals src (peripheral_size / page_size) t 0 >>= λ o. after o (dma_init t)

  pub map_memory : Bool → KernelLayout → List MemMapEntry → Computation src
  map_memory debug k usable = do
    t ← create src kernel
    o ← map_areas src t usable
    after o (
        map_kernel src debug k t 0 (from_bytes (wrapping_sub k.phys_end k.phys_start)) >>= λ _.
        map_heap t >>= λ o₁.
        after o₁
          (init_mem t >>= λ o₂. after o₂ (λ s. (Outcome.ok (some tt), make_current src t s))))
