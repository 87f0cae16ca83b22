-- ===== src/Fdt.antt =====
-- `get_mmio_addr` of crates/kernel/src/fdt.rs. The region and the ranges of `/soc` are what the device tree
-- package reads: `none` where there is no such node, with `none` inside where it has no `ranges`.
use kados_ng.Base.{
  ℕ, ◌+◌, ◌-◌, ◌^◌, ◌<◌, ◌≤◌, ◌≡◌, refl, arith, min, List, [], ◌∷◌, Option, none, some, ltb, leb,
  ◌&&◌, if◌then◌else◌, Bool, true, false, leb→le,
}
use kados_ng.Mem.Outcome.{Outcome, ok, err, panic}
use kados_ng.Mem.PhysAddr
use kados_ng.Mem.PhysAddr.{PhysAddr}
mod Tests

pub record MemoryRegion : Type 0 where
  pub starting_address : ℕ
  pub size : Option ℕ

pub record MemoryRange : Type 0 where
  pub child_bus_address : ℕ
  pub parent_bus_address : ℕ
  pub size : ℕ

abbrev saturating_add : ℕ → ℕ → ℕ
saturating_add a b = min (a + b) (2 ^ 64 - 1)

abbrev checked_add : ℕ → ℕ → Option ℕ
checked_add a b = if ltb (a + b) (2 ^ 64) then some (a + b) else none

abbrev unwrap_or_zero : Option ℕ → ℕ
unwrap_or_zero none = 0
unwrap_or_zero (some n) = n

-- `find` with its closure. Where the first test holds, the subtraction does not underflow.
unfoldable find_range : ℕ → ℕ → List MemoryRange → Option MemoryRange
find_range mapped_addr last_addr [] = none
find_range mapped_addr last_addr (x ∷ xs) =
    if leb x.child_bus_address mapped_addr && leb (last_addr - x.child_bus_address) x.size
    then some x
    else find_range mapped_addr last_addr xs

abbrev fits_after : ℕ → Option ℕ → Option ℕ
fits_after size none = none
fits_after size (some a) = if ltb (a + size) (2 ^ 64) then some a else none

abbrev through : ℕ → ℕ → Option MemoryRange → Option ℕ
through mapped_addr size none = none
through mapped_addr size (some x) =
    fits_after size (checked_add x.parent_bus_address (mapped_addr - x.child_bus_address))

abbrev translate : ℕ → ℕ → ℕ → Option (Option (List MemoryRange)) → Option ℕ
translate mapped_addr last_addr size none = some mapped_addr
translate mapped_addr last_addr size (some none) = none
translate mapped_addr last_addr size (some (some [])) = some mapped_addr
translate mapped_addr last_addr size (some (some (x ∷ xs))) =
    through mapped_addr size (find_range mapped_addr last_addr (x ∷ xs))

abbrev to_phys : Option ℕ → Option PhysAddr
to_phys none = none
to_phys (some a) = elim (PhysAddr.new a) [ ok p ↦ some p | err e ↦ none | panic ↦ none ]

pub get_mmio_addr : Option (Option (List MemoryRange)) → MemoryRegion → Option PhysAddr
get_mmio_addr soc region =
    let mapped_addr = region.starting_address in
    let size = unwrap_or_zero region.size - 1 in
    let last_addr = saturating_add mapped_addr size in
    to_phys (translate mapped_addr last_addr size soc)

-- The range that is found holds the first address, and the last one lies at most one past its end.
find_range_lem :
    (mapped_addr last_addr : ℕ) (xs : List MemoryRange) (r : MemoryRange)
    → find_range mapped_addr last_addr xs ≡ some r
    → (r.child_bus_address ≤ mapped_addr) × (last_addr ≤ r.child_bus_address + r.size)
unfolding find_range
find_range_lem a l [] r h = ground arith
find_range_lem a l (x ∷ xs) r h = ground (arith, find_range_lem a l xs r)
