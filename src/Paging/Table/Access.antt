-- ===== src/Paging/Table/Access.antt =====
-- Reading and writing an entry of a table whose frame is in order: neither panics.
use kados_ng.Base.{ℕ, ◌+◌, ◌*◌, ◌<◌, ◌≡◌, arith, inr}
use kados_ng.Arch.{page_entries, wrapping_add}
use kados_ng.Mem.Outcome.{ok}
use kados_ng.Mem.Canonical.{canonicalize_physaddr-eq-mod}
use kados_ng.Mem.PhysAddr
use kados_ng.Mem.PhysAddr.{PhysAddr}
use kados_ng.Mem.VirtAddr
use kados_ng.Mem.Hhdm.{as_hhdm_virt, as_hhdm_virt-eq-add}
use kados_ng.Mem.Align.{align_ok-eq-ok_iff}
use kados_ng.Mem.Memory.{Memory, update, read_volatile, write_volatile}
use kados_ng.Paging.FrameSource.{FrameSource, IsTableFrame, slot}
use kados_ng.Paging.Entry.{PageTableEntry}
use kados_ng.Paging.Table.{PageTable, State, entry, set_entry}

entry_addr-eq-slot :
    (t : PageTable) (i : ℕ)
    → IsTableFrame t.frame
    → i < page_entries
    → as_hhdm_virt (PhysAddr.add_bytes t.frame (i * 8)) ≡ slot t.frame i
entry_addr-eq-slot t i f h = ground (
  arith,
  canonicalize_physaddr-eq-mod (wrapping_add t.frame (i * 8)),
  as_hhdm_virt-eq-add (t.frame + i * 8),
)

align_ok-slot :
    (f : PhysAddr) (i : ℕ)
    → IsTableFrame f
    → i < page_entries
    → VirtAddr.align_ok (slot f i) 8 ≡ ok tt
align_ok-slot f i h lt =
    (align_ok-eq-ok_iff (slot f i) 3 (omega arith) (omega arith)).1
      (omega arith, omega arith, inr (omega arith))

-- Different entries of tables have different addresses.
pub slot_injective :
    (f g : PhysAddr) (i j : ℕ)
    → IsTableFrame f
    → IsTableFrame g
    → i < page_entries
    → j < page_entries
    → slot f i ≡ slot g j
    → (f ≡ g) × (i ≡ j)
slot_injective f g i j hf hg hi hj e = (omega arith, omega arith)

read_slot :
    (f : PhysAddr) (i : ℕ) (m : Memory)
    → IsTableFrame f
    → i < page_entries
    → read_volatile (slot f i) m ≡ ok (m (slot f i))
unfolding read_volatile
read_slot f i m h lt = rw (align_ok-slot f i h lt, read_volatile)

write_slot :
    (f : PhysAddr) (i e : ℕ) (m : Memory)
    → IsTableFrame f
    → i < page_entries
    → write_volatile (slot f i) e m ≡ (ok tt, update m (slot f i) e)
unfolding write_volatile
write_slot f i e m h lt = rw (align_ok-slot f i h lt, write_volatile)

module _ (src : FrameSource) (t : PageTable) (i : ℕ) (f : IsTableFrame t.frame)
    (h : i < page_entries) where
  pub entry_lem : (s : State src) → entry src t i s ≡ (ok (s.memory (slot t.frame i)), s)
  unfolding entry
  entry_lem s = rw (entry_addr-eq-slot t i f h, read_slot t.frame i s.memory f h)

  pub set_entry_lem :
      (e : PageTableEntry) (s : State src)
      → set_entry src t i e s ≡ (ok tt, record s { memory = update s.memory (slot t.frame i) e })
  unfolding set_entry
  set_entry_lem e s = rw (entry_addr-eq-slot t i f h, write_slot t.frame i e s.memory f h)
