-- ===== src/BootLoader/Laws.antt =====
-- What the entries of the boot loader hold, and how its arithmetic compares with the kernel's
-- (crates/kernel/src/mem/paging/table.rs and crates/kernel/src/mem/units.rs).
use kados_ng.BootLoader.Tables.{Boot, word_at, write, alloc_table, l0_index, l1_index, l2_index}
use kados_ng.BootLoader.Tables.{
  l3_index, set_entry, entry_addr, entry_flags, table_flags, next_table_at, next_table, write_entry,
}
use kados_ng.BootLoader.Tables.{is_aligned, largest_aligned_block_size}
use kados_ng.Base.{
  ℕ, ◌+◌, ◌-◌, ◌*◌, ◌/◌, ◌%◌, ◌^◌, ◌<◌, ◌≡◌, ◌≢◌, ◌⊎◌, inl, inr, refl, ap, ◌∙◌, arith, bit_or,
}
use kados_ng.Base.{some, lt→ltb, ◌==◌, if◌then◌else◌, ℕ-cases, ==_refl, ==_of_ne}
use kados_ng.Bits.{
  bit_and_split, bit_or_split, bit_and_mask, bit_or-lt, bit_or-zero, bit_and-zero, zero-bit_or,
}
use kados_ng.Mem.Align.{is_aligned_pow, is_aligned_phys_pow}
use kados_ng.Paging.Level.{page_table_index, level1, level2, level3, level4}
use kados_ng.Paging.BlockSize
use kados_ng.Paging.BlockSize.{largest_aligned}

pub entry_addr-eq : (e : ℕ) → entry_addr e ≡ e / 2 ^ 12 % 2 ^ 36 * 2 ^ 12
unfolding entry_addr
entry_addr-eq e = ground (
  arith,
  bit_and_split 12 (e / 2 ^ 12) (2 ^ 36 - 1) (e % 2 ^ 12) 0,
  bit_and_mask 36 (e / 2 ^ 12),
  bit_and-zero (e % 2 ^ 12),
)

pub entry_flags-eq : (e : ℕ) → e < 2 ^ 64 → entry_flags e ≡ e / 2 ^ 52 * 2 ^ 52 + e % 2 ^ 12
unfolding entry_flags
entry_flags-eq e h = ground (
  arith,
  bit_and_split 52 (e / 2 ^ 52) 4095 (e % 2 ^ 52) 4095 (omega arith) (omega arith),
  bit_and_mask 12 (e / 2 ^ 52),
  bit_and_mask 12 (e % 2 ^ 52),
)

-- Flags in the lowest 12 bits and those from bit 52 on are set beside a page's address.
pub set_entry_page :
    (q flags : ℕ)
    → q < 2 ^ 40
    → flags / 2 ^ 12 % 2 ^ 40 ≡ 0
    → set_entry (q * 2 ^ 12) flags ≡ q * 2 ^ 12 + flags
unfolding set_entry
set_entry_page q flags hq hf = ground (
  arith,
  bit_or_split 12 q (flags / 2 ^ 52 * 2 ^ 40) 0 (flags % 2 ^ 12),
  bit_or_split 40 0 (flags / 2 ^ 52) q 0,
  zero-bit_or (flags / 2 ^ 52),
  zero-bit_or (flags % 2 ^ 12),
  bit_or-zero q,
)

pub is_aligned_lem : (x k : ℕ) → is_aligned x (2 ^ k) ≡ (x % 2 ^ k == 0)
unfolding is_aligned
is_aligned_lem x k = rw (bit_and_mask k x) (ground arith)

pub block_size-eq :
    (phys virt size : ℕ)
    → largest_aligned_block_size phys virt size ≡ BlockSize.size (largest_aligned virt phys size)
unfolding largest_aligned_block_size largest_aligned
block_size-eq phys virt size = ground (
  arith,
  is_aligned_lem phys 30,
  is_aligned_lem virt 30,
  is_aligned_lem phys 21,
  is_aligned_lem virt 21,
  is_aligned_pow virt 30,
  is_aligned_pow virt 21,
  is_aligned_phys_pow phys 30,
  is_aligned_phys_pow phys 21,
)

-- The boot loader's four indices of an address are the kernel's page table indices of the four
-- levels, and its block size for a range is the size of the block that the kernel's
-- `largest_aligned` chooses.
pub boot_agrees :
    (phys virt size : ℕ)
    → (l0_index virt ≡ page_table_index virt level4)
      × (l1_index virt ≡ page_table_index virt level3)
      × (l2_index virt ≡ page_table_index virt level2)
      × (l3_index virt ≡ page_table_index virt level1)
      × (largest_aligned_block_size phys virt size
          ≡ BlockSize.size (largest_aligned virt phys size))
unfolding l0_index l1_index l2_index l3_index page_table_index
boot_agrees phys virt size = (refl, refl, refl, refl, block_size-eq phys virt size)

-- The low bits of an address that is not that of a page end up among the flags of its entry.
pub entry_flags-set_entry :
    (phys flags : ℕ)
    → phys < 2 ^ 48
    → flags < 2 ^ 12
    → (entry_addr (set_entry phys flags) ≡ phys / 2 ^ 12 * 2 ^ 12)
      × (entry_flags (set_entry phys flags) ≡ bit_or (phys % 2 ^ 12) flags)
unfolding set_entry
entry_flags-set_entry phys flags hp hf = ground (
  arith,
  bit_or_split 12 (phys / 2 ^ 12) 0 (phys % 2 ^ 12) flags,
  bit_or-zero (phys / 2 ^ 12),
  bit_or-lt 12 (phys % 2 ^ 12) flags,
  entry_addr-eq (phys / 2 ^ 12 * 2 ^ 12 + bit_or (phys % 2 ^ 12) flags),
  entry_flags-eq (phys / 2 ^ 12 * 2 ^ 12 + bit_or (phys % 2 ^ 12) flags),
)

new_entry :
    (off : ℕ)
    → off % 2 ^ 12 ≡ 0
    → off < 2 ^ 48
    → set_entry (entry_addr off) table_flags ≡ off + table_flags
new_entry off h hb =
    ap (λ t. set_entry t table_flags) (ground (arith, entry_addr-eq off))
    ∙ set_entry_page (off / 2 ^ 12) table_flags (omega arith) refl
    ∙ omega arith

new_addr : (off : ℕ) → off % 2 ^ 12 ≡ 0 → off < 2 ^ 48 → entry_addr (off + table_flags) ≡ off
new_addr off h hb = ground (arith, entry_addr-eq (off + table_flags))

pub next_table_new :
    (s : Boot) (table index : ℕ)
    → entry_addr (s.memory (word_at table index)) ≡ 0
    → s.off % 2 ^ 12 ≡ 0
    → s.off < 2 ^ 48
    → next_table_at s table index 0
      ≡ (write (record s { off = s.off + 4096 }) (word_at table index) (s.off + table_flags), s.off)
unfolding next_table_at alloc_table
next_table_new s table index e h hb = rw (e, new_entry s.off h hb) refl

old_entry :
    (e : ℕ)
    → e < 2 ^ 64
    → set_entry (entry_addr e) (bit_or (entry_flags e) 0) ≡ entry_addr e + entry_flags e
old_entry e h = ground (
  arith,
  bit_or-zero (entry_flags e),
  entry_addr-eq e,
  entry_flags-eq e h,
  set_entry_page (e / 2 ^ 12 % 2 ^ 36) (entry_flags e),
)

pub next_table_old :
    (s : Boot) (table index : ℕ)
    → entry_addr (s.memory (word_at table index)) ≢ 0
    → s.memory (word_at table index) < 2 ^ 64
    → next_table_at s table index 0 ≡ (
      write s (word_at table index) (
          entry_addr (s.memory (word_at table index))
          + entry_flags (s.memory (word_at table index))),
      entry_addr (s.memory (word_at table index)),
    )
unfolding next_table_at alloc_table
next_table_old s table index e h =
    rw (==_of_ne _ 0 e, old_entry (s.memory (word_at table index)) h) refl

kept_addr : (e : ℕ) → e < 2 ^ 64 → entry_addr (entry_addr e + entry_flags e) ≡ entry_addr e
kept_addr e h =
    ground
      (arith, entry_addr-eq e, entry_flags-eq e h, entry_addr-eq (entry_addr e + entry_flags e))

kept_flags : (e : ℕ) → e < 2 ^ 64 → entry_flags (entry_addr e + entry_flags e) ≡ entry_flags e
kept_flags e h =
    ground
      (arith, entry_addr-eq e, entry_flags-eq e h, entry_flags-eq (entry_addr e + entry_flags e))

abbrev pub IsInstalled : Boot → ℕ → ℕ → Boot × ℕ → Type 0
IsInstalled s table index r =
    (entry_addr (r.0.memory (word_at table index)) ≡ r.1)
    × ((a : ℕ) → a ≢ word_at table index → r.0.memory a ≡ s.memory a)
    × (((entry_addr (s.memory (word_at table index)) ≡ 0)
          × (r.1 ≡ s.off)
          × (r.0.off ≡ s.off + 4096)
          × (r.0.memory (word_at table index) ≡ s.off + table_flags))
        ⊎ ((entry_addr (s.memory (word_at table index)) ≡ r.1)
            × (r.1 ≢ 0)
            × (r.0.off ≡ s.off)
            × (entry_flags (r.0.memory (word_at table index))
                ≡ entry_flags (s.memory (word_at table index)))))

-- A word that was written is read back, and no other is changed.
pub if_self : (a x y : ℕ) → (if a == a then x else y) ≡ x
if_self a x y = rw (==_refl a) refl

pub if_ne : (a b x y : ℕ) → b ≢ a → (if a == b then x else y) ≡ y
if_ne a b x y h = ground arith

pub next_table-some :
    (s : Boot) (table index fl : ℕ)
    → index < 512
    → next_table s table index fl ≡ some (next_table_at s table index fl)
unfolding next_table
next_table-some s table index fl h = rw (lt→ltb index 512 h) refl

pub write_entry-some :
    (s : Boot) (table index v : ℕ)
    → index < 512
    → write_entry s table index v ≡ some (write s (word_at table index) v)
unfolding write_entry
write_entry-some s table index v h = rw (lt→ltb index 512 h) refl

pub l0_index-lt : (v : ℕ) → l0_index v < 512
unfolding l0_index
l0_index-lt v = omega (arith, bit_and_mask 9 (v / 2 ^ 39))

pub l1_index-lt : (v : ℕ) → l1_index v < 512
unfolding l1_index
l1_index-lt v = omega (arith, bit_and_mask 9 (v / 2 ^ 30))

pub l2_index-lt : (v : ℕ) → l2_index v < 512
unfolding l2_index
l2_index-lt v = omega (arith, bit_and_mask 9 (v / 2 ^ 21))

pub l3_index-lt : (v : ℕ) → l3_index v < 512
unfolding l3_index
l3_index-lt v = omega (arith, bit_and_mask 9 (v / 2 ^ 12))

next_table_at-IsInstalled :
    (s : Boot) (table index : ℕ)
    → s.memory (word_at table index) < 2 ^ 64
    → s.off % 2 ^ 12 ≡ 0
    → 0 < s.off
    → s.off < 2 ^ 48
    → IsInstalled s table index (next_table_at s table index 0)
next_table_at-IsInstalled s table index he ho hp hb =
    let w = word_at table index in
    elim (ℕ-cases (entry_addr (s.memory w)) 0) [
      | inl e ↦ rw (next_table_new s table index e ho hb) (
        ap entry_addr (if_self w _ _) ∙ new_addr s.off ho hb,
        λ a h. if_ne w a _ _ h,
        inl (e, refl, refl, if_self w _ _),
      )
      | inr e ↦ rw (next_table_old s table index e he) (
        ap entry_addr (if_self w _ _) ∙ kept_addr (s.memory w) he,
        λ a h. if_ne w a _ _ h,
        inr (refl, e, refl, ap entry_flags (if_self w _ _) ∙ kept_flags (s.memory w) he),
      )
    ]

-- `next_table` for an index below 512, with no extra flags, does not panic. It returns the table
-- that the entry then points to, and changes no other word. If the entry pointed nowhere, this is
-- the next free table, which is taken; otherwise it is the table the entry pointed to, and the
-- entry keeps its flags. The entry must be a word of 64 bits, and the next free table must be
-- aligned to a page and lie above 0 and below 2 ^ 48.
pub next_table-IsInstalled :
    (s : Boot) (table index : ℕ)
    → index < 512
    → s.memory (word_at table index) < 2 ^ 64
    → s.off % 2 ^ 12 ≡ 0
    → 0 < s.off
    → s.off < 2 ^ 48
    → (r : Boot × ℕ) × (next_table s table index 0 ≡ some r) × IsInstalled s table index r
next_table-IsInstalled s table index h he ho hp hb = (
  next_table_at s table index 0,
  next_table-some s table index 0 h,
  next_table_at-IsInstalled s table index he ho hp hb,
)
