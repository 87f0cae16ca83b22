-- ===== src/BootLoader/Blocks.antt =====
-- The blocks that `map_to_1gib` puts into the direct map, one after the other.
use kados_ng.BootLoader.Tables.{Boot, word_at, write, set_entry, gb, next_table_at}
use kados_ng.BootLoader.Tables.{map_to_1gib, l0_index, l1_index, table_flags, boot_flags}
use kados_ng.BootLoader.Tables.{entry_addr, entry_flags}
use kados_ng.BootLoader.Laws.{
  next_table-some, write_entry-some, l0_index-lt, l1_index-lt, next_table_new, next_table_old,
  set_entry_page, entry_addr-eq, entry_flags-eq, if_self, if_ne,
}
use kados_ng.Bits.{bit_and_mask}
use kados_ng.Arch.{hhdm_physical_offset, bit_not, page_flag_non_block}
use kados_ng.Base.{
  ℕ, suc, ◌+◌, ◌*◌, ◌/◌, ◌%◌, ◌^◌, ◌<◌, ◌≤◌, ◌≡◌, refl, ap, ◌∙◌, arith, ℕ-cases, inl, inr,
}
use kados_ng.Base.{bit_and, some}

-- The first `k` blocks of the direct map are in place.
pub record HasBlocks (root k : ℕ) (s : Boot) : Type 0 where
  pub next_off : s.off ≡ root + 8192
  pub link : s.memory (word_at root 256) ≡ root + 4096 + table_flags
  pub blocks : (i : ℕ) → i < k → s.memory (word_at (root + 4096) i) ≡ i * gb + 0x705

-- What `map_to_1gib` leaves, since its indices are in the tables.
abbrev put_into : Boot × ℕ → ℕ → ℕ → ℕ → Boot
put_into (s1, l1) phys virt flags =
    write s1 (word_at l1 (l1_index virt))
      (set_entry phys (bit_and flags (bit_not page_flag_non_block)))

unfoldable pub put_1gib : Boot → ℕ → ℕ → ℕ → ℕ → Boot
unfolding put_into
put_1gib s root phys virt flags = put_into (next_table_at s root (l0_index virt) 0) phys virt flags

pub map_to_1gib-some :
    (s : Boot) (root phys virt flags : ℕ)
    → map_to_1gib s root phys virt flags ≡ some (put_1gib s root phys virt flags)
unfolding map_to_1gib put_1gib
map_to_1gib-some s root phys virt flags =
    rw (next_table-some s root (l0_index virt) 0 (l0_index-lt virt))
      (write_entry-some _ _ (l1_index virt) _ (l1_index-lt virt))

put_1gib_lem :
    (s s1 : Boot) (root l1 phys virt flags : ℕ)
    → next_table_at s root (l0_index virt) 0 ≡ (s1, l1)
    → put_1gib s root phys virt flags
      ≡ write s1
          (word_at l1 (l1_index virt))
          (set_entry phys (bit_and flags (bit_not page_flag_non_block)))
unfolding put_1gib
put_1gib_lem s s1 root l1 phys virt flags e = rw e refl

hhdm_l0 : (k : ℕ) → k < 4 → l0_index (hhdm_physical_offset + k * gb) ≡ 256
unfolding l0_index
hhdm_l0 k h = bit_and_mask 9 ((hhdm_physical_offset + k * gb) / 2 ^ 39) ∙ omega arith

hhdm_l1 : (k : ℕ) → k < 4 → l1_index (hhdm_physical_offset + k * gb) ≡ k
unfolding l1_index
hhdm_l1 k h = bit_and_mask 9 ((hhdm_physical_offset + k * gb) / 2 ^ 30) ∙ omega arith

block_entry :
    (k : ℕ)
    → k < 4
    → set_entry (k * gb) (bit_and boot_flags (bit_not page_flag_non_block)) ≡ k * gb + 0x705
block_entry k h =
    ap (λ t. set_entry t 0x705) (omega arith)
    ∙ set_entry_page (k * 2 ^ 18) 0x705 (omega arith) refl
    ∙ omega arith

-- Whatever made the table of the direct map, the next block goes into it.
add_block :
    (s s1 : Boot) (root l1 k : ℕ)
    → k < 4
    → l1 ≡ root + 4096
    → next_table_at s root 256 0 ≡ (s1, l1)
    → HasBlocks root k s1
    → HasBlocks root (suc k) (put_1gib s root (k * gb) (hhdm_physical_offset + k * gb) boot_flags)
add_block s s1 root l1 k h l e b =
    rw
      (
        put_1gib_lem s s1 root (root + 4096) (k * gb) (hhdm_physical_offset + k * gb) boot_flags
            (ap (λ t. next_table_at s root t 0) (hhdm_l0 k h) ∙ e ∙ ap (λ t. (s1, t)) l),
        hhdm_l1 k h,
        block_entry k h,
      )
      (record {
        next_off = b.next_off;
        link = if_ne _ (word_at root 256) _ _ (omega arith) ∙ b.link;
        blocks = λ i hi. elim (ℕ-cases i k) [
          | inl same ↦ rw same (if_self (word_at (root + 4096) k) _ _)
          | inr other ↦
              if_ne _ (word_at (root + 4096) i) _ _ (omega arith) ∙ b.blocks i (omega arith)
        ];
      })

pub first_block :
    (s : Boot) (root : ℕ)
    → root % 2 ^ 12 ≡ 0
    → root + 8192 ≤ 2 ^ 48
    → s.off ≡ root + 4096
    → s.memory (word_at root 256) ≡ 0
    → HasBlocks root 1 (put_1gib s root (0 * gb) (hhdm_physical_offset + 0 * gb) boot_flags)
first_block s root ha hb ho hz =
    let s1 = write (record s { off = s.off + 4096 }) (word_at root 256) (s.off + table_flags) in
    add_block s s1 root s.off 0 (omega arith) ho
      (next_table_new s root 256 (ap entry_addr hz ∙ entry_addr-eq 0) (omega arith) (omega arith))
      (record {
        next_off = omega arith;
        link = if_self (word_at root 256) _ _ ∙ omega arith;
        blocks = λ i hi. absurd (omega arith);
      })

link_addr :
    (root : ℕ)
    → root % 2 ^ 12 ≡ 0
    → root + 8192 ≤ 2 ^ 48
    → entry_addr (root + 4096 + table_flags) ≡ root + 4096
link_addr root ha hb = ground (arith, entry_addr-eq (root + 4096 + table_flags))

link_flags :
    (root : ℕ)
    → root % 2 ^ 12 ≡ 0
    → root + 8192 ≤ 2 ^ 48
    → entry_flags (root + 4096 + table_flags) ≡ table_flags
link_flags root ha hb = ground (arith, entry_flags-eq (root + 4096 + table_flags) (omega arith))

pub next_block :
    (s : Boot) (root k : ℕ)
    → root % 2 ^ 12 ≡ 0
    → root + 8192 ≤ 2 ^ 48
    → k < 4
    → HasBlocks root k s
    → HasBlocks root (suc k) (put_1gib s root (k * gb) (hhdm_physical_offset + k * gb) boot_flags)
next_block s root k ha hb h b =
    let e = s.memory (word_at root 256) in
    let addr : entry_addr e ≡ root + 4096 = ap entry_addr b.link ∙ link_addr root ha hb in
    let flags : entry_flags e ≡ table_flags = ap entry_flags b.link ∙ link_flags root ha hb in
    let s1 = write s (word_at root 256) (entry_addr e + entry_flags e) in
    add_block s s1 root (entry_addr e) k h addr
      (next_table_old s root 256 (omega arith) (omega (arith, b.link)))
      (record {
        next_off = b.next_off;
        link = if_self (word_at root 256) _ _ ∙ omega arith;
        blocks = λ i hi.
            if_ne (word_at root 256) (word_at (root + 4096) i) _ _ (omega arith) ∙ b.blocks i hi;
      })
