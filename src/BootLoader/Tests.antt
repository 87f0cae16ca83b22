-- ===== src/BootLoader/Tests.antt =====
-- Concrete tables of the boot loader.
use kados_ng.BootLoader.Tables.{
  Boot, l0_index, l1_index, l2_index, l3_index, largest_aligned_block_size,
}
use kados_ng.BootLoader.Tables.{next_table, map_range, alloc_table, gb, boot_flags}
use kados_ng.BootLoader.Laws.{boot_agrees, next_table-IsInstalled, IsInstalled}
use kados_ng.BootLoader.Range.{Tiles, map_range-Tiles}
use kados_ng.BootLoader.Walk.{walk, walk-map_range}
use kados_ng.Arch.{hhdm_physical_offset}
use kados_ng.Paging.Level.{page_table_index, level1, level2, level3, level4}
use kados_ng.Paging.BlockSize
use kados_ng.Paging.BlockSize.{largest_aligned}
use kados_ng.Base.{ℕ, ◌+◌, ◌*◌, ◌≡◌, refl, arith, some}

abbrev zeroed : ℕ → ℕ
zeroed _ = 0

abbrev empty_boot : Boot
empty_boot = record { memory = zeroed; off = 0x9_1000 }

boot_agrees_example :
    (l0_index hhdm_physical_offset ≡ page_table_index hhdm_physical_offset level4)
    × (l1_index hhdm_physical_offset ≡ page_table_index hhdm_physical_offset level3)
    × (l2_index hhdm_physical_offset ≡ page_table_index hhdm_physical_offset level2)
    × (l3_index hhdm_physical_offset ≡ page_table_index hhdm_physical_offset level1)
    × (largest_aligned_block_size 0 hhdm_physical_offset gb
        ≡ BlockSize.size (largest_aligned hhdm_physical_offset 0 gb))
boot_agrees_example = boot_agrees 0 hhdm_physical_offset gb

next_table-IsInstalled_example :
    (r : Boot × ℕ) × (next_table empty_boot 0x9_0000 256 0 ≡ some r)
    × IsInstalled empty_boot 0x9_0000 256 r
next_table-IsInstalled_example =
    next_table-IsInstalled empty_boot 0x9_0000 256 (omega arith) (omega arith) refl (omega arith)
      (omega arith)

map_range-Tiles_example :
    (t : Boot) × (map_range 3 empty_boot 0x9_0000 0x8_0000 0x8_0000 0x2800 0x707 ≡ some t)
    × Tiles 0x9_0000 0x8_0000 0x8_0000 0x2800 0x707 t 0 empty_boot
map_range-Tiles_example =
    map_range-Tiles 3 empty_boot 0x9_0000 0x8_0000 0x8_0000 0x2800 0x707 (omega arith) (omega arith)
      (omega arith) (omega arith)

walk-map_range_example :
    (s : Boot) × (map_range 4
        (alloc_table (record { memory = zeroed; off = 0x9_0000 })).0
        0x9_0000
        0
        hhdm_physical_offset
        (4 * gb)
        boot_flags
      ≡ some s)
    × (walk s.memory 0x9_0000 (hhdm_physical_offset + 0x1234_5678) ≡ some 0x1234_5678)
walk-map_range_example =
    walk-map_range 4 zeroed 0x9_0000 0x1234_5678 (omega arith) refl (omega arith) refl (omega arith)
