-- ===== src/Mem/Hhdm.antt =====
-- The direct map of physical memory in the high half of virtual memory, and the identity map
-- (`as_hhdm_virt`, `as_identity_virt`, `as_hhdm_phys` of crates/kernel/src/mem/units.rs).
use kados_ng.Base.{◌+◌, ◌^◌, ◌<◌, ◌≤◌, ◌≡◌, arith}
use kados_ng.Arch.{wrapping_add, wrapping_sub, hhdm_physical_offset}
use kados_ng.Mem.Canonical.{canonicalize_virtaddr, canonicalize_physaddr-eq-mod}
use kados_ng.Mem.PhysAddr
use kados_ng.Mem.PhysAddr.{PhysAddr}
use kados_ng.Mem.VirtAddr
use kados_ng.Mem.VirtAddr.{VirtAddr}

unfoldable pub as_hhdm_virt : PhysAddr → VirtAddr
as_hhdm_virt addr = VirtAddr.new_canonical (wrapping_add addr hhdm_physical_offset)

unfoldable pub as_identity_virt : PhysAddr → VirtAddr
as_identity_virt addr = VirtAddr.new_canonical addr

unfoldable pub as_hhdm_phys : VirtAddr → PhysAddr
as_hhdm_phys addr = PhysAddr.new_canonical (wrapping_sub addr hhdm_physical_offset)

-- Below 2 ^ 47 the direct map adds its offset.
pub as_hhdm_virt-eq-add : (p : PhysAddr) → p < 2 ^ 47 → as_hhdm_virt p ≡ p + hhdm_physical_offset
unfolding as_hhdm_virt canonicalize_virtaddr
as_hhdm_virt-eq-add p h = ground arith

-- A physical address below 2 ^ 47 comes back from the direct map, and its image is a canonical
-- address of the high half.
pub as_hhdm_phys-as_hhdm_virt :
    (p : PhysAddr)
    → p < 2 ^ 47
    → (as_hhdm_phys (as_hhdm_virt p) ≡ p)
      × (canonicalize_virtaddr (as_hhdm_virt p) ≡ as_hhdm_virt p)
      × (hhdm_physical_offset ≤ as_hhdm_virt p)
unfolding as_hhdm_phys canonicalize_virtaddr
as_hhdm_phys-as_hhdm_virt p h = ground (
  arith,
  as_hhdm_virt-eq-add p h,
  canonicalize_physaddr-eq-mod (wrapping_sub (as_hhdm_virt p) hhdm_physical_offset),
)
