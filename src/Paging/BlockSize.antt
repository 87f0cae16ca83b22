-- ===== src/Paging/BlockSize.antt =====
-- `BlockSize` of crates/kernel/src/mem/paging/table.rs.
use kados_ng.Base.{ℕ, ◌+◌, ◌-◌, ◌*◌, ◌%◌, ◌^◌, ◌≤◌, ◌≡◌, leb, ◌&&◌, if◌then◌else◌, arith}
use kados_ng.Arch.{page_shift, page_entry_shift}
use kados_ng.Mem.PhysAddr
use kados_ng.Mem.PhysAddr.{PhysAddr}
use kados_ng.Mem.VirtAddr
use kados_ng.Mem.VirtAddr.{VirtAddr}
use kados_ng.Mem.Align.{is_aligned_pow, is_aligned_phys_pow}

pub data BlockSize : Type 0 where
  page4_kib block2_mib block1_gib : BlockSize

abbrev pub shift_of : BlockSize → ℕ
shift_of page4_kib = page_shift
shift_of block2_mib = page_shift + page_entry_shift
shift_of block1_gib = page_shift + page_entry_shift * 2

abbrev pub size : BlockSize → ℕ
size b = 2 ^ shift_of b

abbrev pub mask : BlockSize → ℕ
mask b = size b - 1

unfoldable pub largest_aligned : VirtAddr → PhysAddr → ℕ → BlockSize
largest_aligned page frame bytes =
    if VirtAddr.is_aligned page (size block1_gib)
      && PhysAddr.is_aligned frame (size block1_gib)
      && leb (size block1_gib) bytes
    then block1_gib
    else if VirtAddr.is_aligned page (size block2_mib)
        && PhysAddr.is_aligned frame (size block2_mib)
        && leb (size block2_mib) bytes
    then block2_mib
    else page4_kib

-- A block fits at a page and a frame if both are aligned to it and the bytes left fill it.
abbrev pub Fits : VirtAddr → PhysAddr → ℕ → BlockSize → Type 0
Fits page frame bytes b = (page % size b ≡ 0) × (frame % size b ≡ 0) × (size b ≤ bytes)

-- For a page and a frame that are aligned to 4 KiB, with at least 4 KiB left, the block that
-- `largest_aligned` chooses is aligned at both and fills no more than what is left, and no larger
-- block does.
pub largest_aligned-Fits :
    (page : VirtAddr) (frame : PhysAddr) (bytes : ℕ)
    → Fits page frame bytes page4_kib
    → Fits page frame bytes (largest_aligned page frame bytes)
      × ((b : BlockSize)
          → Fits page frame bytes b
          → size b ≤ size (largest_aligned page frame bytes))
unfolding largest_aligned
largest_aligned-Fits page frame bytes h = (
  ground (
    arith,
    is_aligned_pow page 30 (omega arith),
    is_aligned_pow page 21 (omega arith),
    is_aligned_phys_pow frame 30 (omega arith),
    is_aligned_phys_pow frame 21 (omega arith),
  ),
  λ b fits. largest b fits,
)
  where
    largest :
        (b : BlockSize) → Fits page frame bytes b → size b ≤ size (largest_aligned page frame bytes)
    largest page4_kib fits = ground arith
    largest block2_mib fits =
        ground
          (arith, is_aligned_pow page 21 (omega arith), is_aligned_phys_pow frame 21 (omega arith))
    largest block1_gib fits =
        ground
          (arith, is_aligned_pow page 30 (omega arith), is_aligned_phys_pow frame 30 (omega arith))
