-- ===== src/BootLoader/Range.antt =====
-- How `map_range` divides a range into mappings.
use native.Mathlib.Nat.{mod-eq_of_lt}
use kados_ng.BootLoader.Tables.{Boot, largest_aligned_block_size, gb, two_mb}
use kados_ng.BootLoader.Tables.{
  four_kb, map_block, map_range, map_range_from, map_to_1gib, map_to_2mib,
}
use kados_ng.BootLoader.Tables.{map_to_4kib}
use kados_ng.BootLoader.Tables.{
  next_table_at, next_table, into_table, write_entry, set_entry, l0_index, l1_index, l2_index,
  l3_index,
}
use kados_ng.BootLoader.Blocks.{put_1gib, map_to_1gib-some}
use kados_ng.Arch.{wrapping_add, bit_not, page_flag_non_block}
use kados_ng.BootLoader.Laws.{
  is_aligned_lem, next_table-some, write_entry-some, l0_index-lt, l1_index-lt, l2_index-lt,
  l3_index-lt,
}
use kados_ng.Base.{ℕ, zero, suc, ◌+◌, ◌-◌, ◌*◌, ◌%◌, ◌<◌, ◌≤◌, ◌≡◌, ◌⊎◌, inl, inr, refl, arith}
use kados_ng.Base.{bit_and, ◌^◌, some, ltb, Bool-cases, ltb→lt, ltb_of_le}

-- The size of a mapping, with the alignment and the room that it asks for.
abbrev pub IsBlock : ℕ → ℕ → ℕ → ℕ → Type 0
IsBlock phys virt left b =
    ((b ≡ four_kb) ⊎ (((b ≡ gb) ⊎ (b ≡ two_mb)) × (phys % b ≡ 0) × (virt % b ≡ 0) × (b ≤ left)))

-- From one state to another by mappings that follow one another, from `mapped` bytes into the range to
-- its end or, by less than a page, beyond it.
pub data Tiles (table phys virt size flags : ℕ) (t : Boot) : ℕ → Boot → Type 0 where
  filled :
      (mapped : ℕ)
      → size ≤ mapped
      → mapped < size + four_kb
      → Tiles table phys virt size flags t mapped t
  block :
      (mapped b : ℕ) (s s' : Boot)
      → mapped < size
      → IsBlock (phys + mapped) (virt + mapped) (size - mapped) b
      → map_block s table b (phys + mapped) (virt + mapped) flags ≡ some s'
      → Tiles table phys virt size flags t (mapped + b) s'
      → Tiles table phys virt size flags t mapped s

largest_aligned_block_size-IsBlock :
    (phys virt left : ℕ) → IsBlock phys virt left (largest_aligned_block_size phys virt left)
unfolding largest_aligned_block_size
largest_aligned_block_size-IsBlock phys virt left = ground (
  arith,
  is_aligned_lem phys 30,
  is_aligned_lem virt 30,
  is_aligned_lem phys 21,
  is_aligned_lem virt 21,
)

-- The indices of an address are all in their tables.
map_to_1gib_total :
    (s : Boot) (table phys virt flags : ℕ)
    → (s' : Boot) × (map_to_1gib s table phys virt flags ≡ some s')
map_to_1gib_total s table phys virt flags =
    (put_1gib s table phys virt flags, map_to_1gib-some s table phys virt flags)

map_to_2mib_total :
    (s : Boot) (table phys virt flags : ℕ)
    → (s' : Boot) × (map_to_2mib s table phys virt flags ≡ some s')
unfolding map_to_2mib
map_to_2mib_total s table phys virt flags =
    rw (next_table-some s table (l0_index virt) 0 (l0_index-lt virt))
      (inner (next_table_at s table (l0_index virt) 0))
  where
    e : ℕ
    e = set_entry phys (bit_and flags (bit_not page_flag_non_block))

    inner :
        (r : Boot × ℕ)
        → (s' : Boot) × (into_table (some r) (λ s1 l1.
              into_table
                (next_table s1 l1 (l1_index virt) 0)
                λ s2 l2. write_entry s2 l2 (l2_index virt) e)
            ≡ some s')
    inner (s1, l1) =
        rw (next_table-some s1 l1 (l1_index virt) 0 (l1_index-lt virt))
          (_, write_entry-some _ _ (l2_index virt) _ (l2_index-lt virt))

map_to_4kib_total :
    (s : Boot) (table phys virt flags : ℕ)
    → (s' : Boot) × (map_to_4kib s table phys virt flags ≡ some s')
unfolding map_to_4kib
map_to_4kib_total s table phys virt flags =
    rw
      (
        next_table-some s table (l0_index virt) 0 (l0_index-lt virt),
        next_table-some _ _ (l1_index virt) 0 (l1_index-lt virt),
        next_table-some _ _ (l2_index virt) 0 (l2_index-lt virt),
      )
      (_, write_entry-some _ _ (l3_index virt) _ (l3_index-lt virt))

-- The `match` in `map_range` knows every size that it is given.
map_block_total :
    (s : Boot) (table b phys virt left flags : ℕ)
    → IsBlock phys virt left b
    → (s' : Boot) × (map_block s table b phys virt flags ≡ some s')
unfolding map_block
map_block_total s table b phys virt left flags (inl e) =
    rw e (map_to_4kib_total s table phys virt flags)
map_block_total s table b phys virt left flags (inr (inl e, h, h', h'')) =
    rw e (map_to_1gib_total s table phys virt flags)
map_block_total s table b phys virt left flags (inr (inr e, h, h', h'')) =
    rw e (map_to_2mib_total s table phys virt flags)

pub no_wrap : (a b : ℕ) → a + b < 2 ^ 64 → wrapping_add a b ≡ a + b
no_wrap a b h = mod-eq_of_lt h

block_bounds :
    (phys virt left b : ℕ)
    → 0 < left
    → IsBlock phys virt left b
    → (four_kb ≤ b) × (b < left + four_kb)
block_bounds phys virt left b h (inl e) = omega arith
block_bounds phys virt left b h (inr (inl e, k, k', k'')) = omega arith
block_bounds phys virt left b h (inr (inr e, k, k', k'')) = omega arith

map_range_from-Tiles :
    (fuel : ℕ) (s : Boot) (table phys virt size flags mapped : ℕ)
    → size + four_kb ≤ 2 ^ 64
    → phys + size ≤ 2 ^ 64
    → virt + size ≤ 2 ^ 64
    → size ≤ mapped + four_kb * fuel
    → mapped < size + four_kb
    → (t : Boot) × (map_range_from fuel s table phys virt size flags mapped ≡ some t)
      × Tiles table phys virt size flags t mapped s
unfolding map_range_from
map_range_from-Tiles zero s table phys virt size flags mapped fs fp fv h k =
    (s, rw (ltb_of_le mapped size (omega arith)) refl, filled mapped (omega arith) k)
map_range_from-Tiles (suc fuel) s table phys virt size flags mapped fs fp fv h k =
    elim (Bool-cases (ltb mapped size)) [
      | inr over ↦ (s, rw over refl, filled mapped (ground arith) k)
      | inl more ↦
          let b = largest_aligned_block_size (phys + mapped) (virt + mapped) (size - mapped) in
          let is_block =
            largest_aligned_block_size-IsBlock (phys + mapped) (virt + mapped) (size - mapped) in
          let lt : mapped < size = ltb→lt mapped size more in
          let (s', e) =
            map_block_total s table b (phys + mapped) (virt + mapped) (size - mapped) flags
              is_block in
          let bounds =
            block_bounds (phys + mapped) (virt + mapped) (size - mapped) b (omega arith) is_block in
          let (t, run, tiles) =
            map_range_from-Tiles fuel s' table phys virt size flags (mapped + b) fs fp fv
              (omega arith) (omega arith) in
          (
            t,
            rw
                (
                  more,
                  no_wrap phys mapped (omega arith),
                  no_wrap virt mapped (omega arith),
                  e,
                  no_wrap mapped b (omega arith),
                )
                run,
            block mapped b s s' lt is_block e tiles,
          )
    ]

-- For a range whose size is at most 2 ^ 64 - 4096, and that neither its physical nor its virtual
-- address takes beyond 2 ^ 64, as many rounds as it has pages of 4 KiB, a part of a page counted as
-- one, are enough for `map_range`, which does not panic: it makes mappings that follow one another
-- from the start of the range, each of 4 KiB, or of 2 MiB or 1 GiB where both addresses are aligned
-- to it and it fits in what is left, and ends less than a page behind the end of the range.
pub map_range-Tiles :
    (fuel : ℕ) (s : Boot) (table phys virt size flags : ℕ)
    → size + four_kb ≤ 2 ^ 64
    → phys + size ≤ 2 ^ 64
    → virt + size ≤ 2 ^ 64
    → size ≤ four_kb * fuel
    → (t : Boot) × (map_range fuel s table phys virt size flags ≡ some t)
      × Tiles table phys virt size flags t 0 s
unfolding map_range
map_range-Tiles fuel s table phys virt size flags fs fp fv h =
    map_range_from-Tiles fuel s table phys virt size flags 0 fs fp fv (omega arith) (omega arith)
