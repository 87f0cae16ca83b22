-- ===== src/Paging/Table/Leaf.antt =====
-- The write that ends each mapping function.
use kados_ng.Base.{ℕ, ◌<◌, ◌≡◌, ◌≢◌, refl, arith, inl, inr}
use kados_ng.Base.{Bool, false, ◌||◌, Bool-cases}
use kados_ng.Arch.{page_entries}
use kados_ng.Mem.Outcome.{MemError}
use kados_ng.Mem.VirtAddr.{VirtAddr}
use kados_ng.Mem.Memory.{update}
use kados_ng.Paging.Entry.{PageTableEntry, is_unused}
use kados_ng.Paging.Monad.{Ensures}
use kados_ng.Paging.FrameSource.{FrameSource, IsTableFrame, slot}
use kados_ng.Paging.Table.{PageTable, PageFlush, State, put_leaf}
use kados_ng.Paging.Table.Access.{entry_lem, set_entry_lem}

module _ (src : FrameSource) (t : PageTable) (i : ℕ) (page : VirtAddr) (new : PageTableEntry)
    (f : IsTableFrame t.frame) (h : i < page_entries) (s : State src) where
  -- The machine with the new entry written.
  abbrev pub written : State src
  written = record s { memory = update s.memory (slot t.frame i) new }

  -- An unused entry is written, and so is any when remapping; any other is refused and kept.
  pub put_leaf-Ensures :
      (remap : Bool)
      → Ensures
          (λ (u : PageFlush) s'. (u ≡ page) × (s' ≡ written))
          (λ e s'.
            (s' ≡ s)
            × (remap ≡ false)
            × (s.memory (slot t.frame i) ≢ 0)
            × (e ≡ MemError.page_already_mapped page (s.memory (slot t.frame i))))
          (put_leaf src t i page new remap s)
  unfolding put_leaf is_unused
  put_leaf-Ensures remap =
      rw (entry_lem src t i f h s)
        (elim (Bool-cases (is_unused (s.memory (slot t.frame i)) || remap)) [
          | inl e ↦ rw (e, set_entry_lem src t i f h new s) (refl, refl)
          | inr e ↦ rw e (refl, ground arith, ground arith, refl)
        ])
