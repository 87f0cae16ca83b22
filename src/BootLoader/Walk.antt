-- ===== src/BootLoader/Walk.antt =====
-- The direct map that `boot_el2` makes first, as the MMU reads it.
use native.Mathlib.Nat.{zero-add}
use kados_ng.BootLoader.Tables.{Boot, word_at, alloc_table, gb, map_range}
use kados_ng.BootLoader.Tables.{map_range_from, map_block, table_flags, boot_flags}
use kados_ng.BootLoader.Tables.{largest_aligned_block_size}
use kados_ng.BootLoader.Laws.{is_aligned_lem}
use kados_ng.BootLoader.Range.{no_wrap}
use kados_ng.Arch.{hhdm_physical_offset}
use kados_ng.Base.{
  ℕ, zero, suc, ◌+◌, ◌-◌, ◌*◌, ◌/◌, ◌%◌, ◌^◌, ◌<◌, ◌≤◌, ◌≡◌, refl, ◌∙◌, arith, lt→ltb, ltb_of_le,
}
use kados_ng.Base.{Option, some, none, ◌==◌, if◌then◌else◌}
use kados_ng.BootLoader.Blocks.{put_1gib, map_to_1gib-some, HasBlocks, first_block, next_block}

-- The table, or the memory, that a descriptor points to.
abbrev pub output : ℕ → ℕ → ℕ
output e k = e / 2 ^ k % 2 ^ (48 - k) * 2 ^ k

-- A walk of the tables for addresses of 48 bits and pages of 4 KiB, as the architecture defines it:
-- at the first level only tables count, at the last only pages, in between both tables (3 in the two
-- lowest bits) and blocks (1).
last_level : (ℕ → ℕ) → ℕ → ℕ → Option ℕ
last_level m v e = if e % 4 == 3 then some (output e 12 + v % 2 ^ 12) else none

second_level : (ℕ → ℕ) → ℕ → ℕ → Option ℕ
unfolding last_level
second_level m v e =
    if e % 4 == 3
    then last_level m v (m (output e 12 + 8 * (v / 2 ^ 12 % 512)))
    else if e % 4 == 1
    then some (output e 21 + v % 2 ^ 21)
    else none

first_level : (ℕ → ℕ) → ℕ → ℕ → Option ℕ
unfolding second_level
first_level m v e =
    if e % 4 == 3
    then second_level m v (m (output e 12 + 8 * (v / 2 ^ 21 % 512)))
    else if e % 4 == 1
    then some (output e 30 + v % 2 ^ 30)
    else none

pub walk : (ℕ → ℕ) → ℕ → ℕ → Option ℕ
unfolding first_level
walk m root v =
    let e = m (root + 8 * (v / 2 ^ 39 % 512)) in
    if e % 4 == 3 then first_level m v (m (output e 12 + 8 * (v / 2 ^ 30 % 512))) else none

hhdm_size :
    (k : ℕ)
    → k < 4
    → largest_aligned_block_size (k * gb) (hhdm_physical_offset + k * gb) (4 * gb - k * gb) ≡ gb
unfolding largest_aligned_block_size
hhdm_size k h =
    ground (arith, is_aligned_lem (k * gb) 30, is_aligned_lem (hhdm_physical_offset + k * gb) 30)

map_block-gb :
    (s : Boot) (root phys virt flags : ℕ)
    → map_block s root gb phys virt flags ≡ some (put_1gib s root phys virt flags)
unfolding map_block
map_block-gb s root phys virt flags = map_to_1gib-some s root phys virt flags

-- One round of `map_range` in the direct map.
hhdm_round :
    (fuel : ℕ) (s : Boot) (root k k' : ℕ)
    → k < 4
    → k' ≡ (k + 1) * gb
    → map_range_from (suc fuel) s root 0 hhdm_physical_offset (4 * gb) boot_flags (k * gb)
      ≡ map_range_from fuel
          (put_1gib s root (k * gb) (hhdm_physical_offset + k * gb) boot_flags)
          root
          0
          hhdm_physical_offset
          (4 * gb)
          boot_flags
          k'
unfolding map_range_from
hhdm_round fuel s root k k' h e =
    let e' : k * gb + gb ≡ k' = omega arith in
    rw
      (
        lt→ltb (k * gb) (4 * gb) (omega arith),
        no_wrap 0 (k * gb) (omega arith),
        zero-add (k * gb),
        no_wrap hhdm_physical_offset (k * gb) (omega arith),
        hhdm_size k h,
        map_block-gb,
        no_wrap (k * gb) gb (omega arith),
        e',
      )
      refl

range_over :
    (fuel : ℕ) (s : Boot) (root phys virt size flags : ℕ)
    → map_range_from fuel s root phys virt size flags size ≡ some s
unfolding map_range_from
range_over zero s root phys virt size flags = rw (ltb_of_le size size (omega arith)) refl
range_over (suc fuel) s root phys virt size flags = rw (ltb_of_le size size (omega arith)) refl

walk_hhdm :
    (s : Boot) (root p : ℕ)
    → root % 2 ^ 12 ≡ 0
    → root + 8192 ≤ 2 ^ 48
    → p < 4 * gb
    → HasBlocks root 4 s
    → walk s.memory root (hhdm_physical_offset + p) ≡ some p
unfolding walk first_level
walk_hhdm s root p ha hb hp b =
    let v = hhdm_physical_offset + p in
    let i0 : v / 2 ^ 39 % 512 ≡ 256 = omega arith in
    let i1 : v / 2 ^ 30 % 512 ≡ p / 2 ^ 30 = omega arith in
    let to : output (root + 4096 + table_flags) 12 ≡ root + 4096 = omega arith in
    let found = b.blocks (p / 2 ^ 30) (omega arith) in rw (i0, b.link, to, i1, found) (ground arith)

-- From a root table whose entry 256 is 0, the first `map_range` of `boot_el2` needs 4 rounds, and a
-- walk of its tables as the MMU makes it translates the image of every physical address below 4 GiB
-- in the direct map to this address. The root must be aligned to a page and lie, with the page
-- behind it, below 2 ^ 48.
pub walk-map_range :
    (fuel : ℕ) (memory : ℕ → ℕ) (root p : ℕ)
    → 4 ≤ fuel
    → root % 2 ^ 12 ≡ 0
    → root + 8192 ≤ 2 ^ 48
    → memory (word_at root 256) ≡ 0
    → p < 4 * gb
    → (s : Boot) × (map_range fuel
          (alloc_table (record { memory = memory; off = root })).0
          root
          0
          hhdm_physical_offset
          (4 * gb)
          boot_flags
        ≡ some s)
      × (walk s.memory root (hhdm_physical_offset + p) ≡ some p)
unfolding map_range alloc_table
walk-map_range (suc (suc (suc (suc fuel)))) memory root p hf ha hb hz hp =
    let go =
      λ (s : Boot) (k : ℕ). put_1gib s root (k * gb) (hhdm_physical_offset + k * gb) boot_flags in
    let s0 : Boot = record { memory = memory; off = root + 4096 } in
    let b1 = first_block s0 root ha hb refl hz in
    let b2 = next_block (go s0 0) root 1 ha hb (omega arith) b1 in
    let b3 = next_block (go (go s0 0) 1) root 2 ha hb (omega arith) b2 in
    let b4 = next_block (go (go (go s0 0) 1) 2) root 3 ha hb (omega arith) b3 in
    (
      go (go (go (go s0 0) 1) 2) 3,
      hhdm_round (suc (suc (suc fuel))) s0 root 0 (1 * gb) (omega arith) (omega arith)
          ∙ hhdm_round (suc (suc fuel)) (go s0 0) root 1 (2 * gb) (omega arith) (omega arith)
          ∙ hhdm_round (suc fuel) (go (go s0 0) 1) root 2 (3 * gb) (omega arith) (omega arith)
          ∙ hhdm_round fuel (go (go (go s0 0) 1) 2) root 3 (4 * gb) (omega arith) (omega arith)
          ∙ range_over fuel (go (go (go (go s0 0) 1) 2) 3) root 0 hhdm_physical_offset (4 * gb)
              boot_flags,
      walk_hhdm (go (go (go (go s0 0) 1) 2) 3) root p ha hb hp b4,
    )
walk-map_range fuel memory root p hf ha hb hz hp = absurd (omega arith)
