-- ===== src/Fdt/Tests.antt =====
-- Tests of `get_mmio_addr` of crates/kernel/src/fdt.rs, on the bus of a Raspberry Pi 4.
use kados_ng.Base.{◌≡◌, refl, List, [], ◌∷◌, none, some}
use kados_ng.Mem.Canonical.{canonicalize_physaddr}
use kados_ng.Mem.PhysAddr.{new}
use kados_ng.Fdt.{MemoryRange, MemoryRegion, find_range, get_mmio_addr}

abbrev soc_ranges : List MemoryRange
soc_ranges =
    record { child_bus_address = 0x7E00_0000; parent_bus_address = 0xFE00_0000; size = 0x0180_0000 }
    ∷ []

abbrev uart : MemoryRegion
uart = record { starting_address = 0x7E20_1000; size = some 512 }

uart_is_mapped : get_mmio_addr (some (some soc_ranges)) uart ≡ some 0xFE20_1000
unfolding get_mmio_addr find_range new canonicalize_physaddr
uart_is_mapped = refl

without_ranges : get_mmio_addr (some none) uart ≡ none
unfolding get_mmio_addr
without_ranges = refl

-- The last byte lies one past the range, which is found all the same.
past_the_end :
    get_mmio_addr
      (some (some soc_ranges))
      (record { starting_address = 0x7F7F_FFFF; size = some 2 })
    ≡ some 0xFF7F_FFFF
unfolding get_mmio_addr find_range new canonicalize_physaddr
past_the_end = refl
