-- ===== src/Mem/Fill.antt =====
-- Zeroing a block of physical memory through the direct map does not fail below `MAX_LOW`.
use kados_ng.Base.{ℕ, ◌+◌, ◌≤◌, ◌≡◌, arith, inr}
use kados_ng.Arch.{hhdm_physical_offset}
use kados_ng.Mem.Outcome.{ok}
use kados_ng.Mem.Canonical.{canonicalize_virtaddr-eq_iff}
use kados_ng.Mem.PhysAddr.{PhysAddr}
use kados_ng.Mem.VirtAddr
use kados_ng.Mem.VirtAddr.{VirtAddr}
use kados_ng.Mem.Hhdm.{as_hhdm_virt, as_hhdm_virt-eq-add}
use kados_ng.Mem.Align.{align_ok-eq-ok_iff}
use kados_ng.Mem.Memory.{Memory, fill, fill_words}

high_ok :
    (p : PhysAddr) → p ≤ VirtAddr.max_low → VirtAddr.align_ok (p + hhdm_physical_offset) 1 ≡ ok tt
high_ok p h =
    (align_ok-eq-ok_iff (p + hhdm_physical_offset) 0 (omega arith) (omega arith)).1
      (omega arith, omega arith, inr (omega arith))

end_of_block :
    (p len : ℕ)
    → p + len ≤ VirtAddr.max_low
    → VirtAddr.add_bytes (p + hhdm_physical_offset) len ≡ p + len + hhdm_physical_offset
end_of_block p len h = ground (arith, canonicalize_virtaddr-eq_iff (p + len + hhdm_physical_offset))

fill_high :
    (p len val : ℕ) (m : Memory)
    → p + len ≤ VirtAddr.max_low
    → fill (p + hhdm_physical_offset) val len m
      ≡ (ok len, fill_words (p + hhdm_physical_offset) val len m)
unfolding fill
fill_high p len val m h =
    rw (high_ok p (omega arith), fill, end_of_block p len h, high_ok (p + len) h)

-- Filling a block of physical memory that ends at or below `MAX_LOW` through the direct map passes
-- the address checks at both ends, and writes exactly its bytes.
pub fill-as_hhdm_virt :
    (p len val : ℕ) (m : Memory)
    → p + len ≤ VirtAddr.max_low
    → fill (as_hhdm_virt p) val len m ≡ (ok len, fill_words (p + hhdm_physical_offset) val len m)
fill-as_hhdm_virt p len val m h = rw (as_hhdm_virt-eq-add p (omega arith)) (fill_high p len val m h)
