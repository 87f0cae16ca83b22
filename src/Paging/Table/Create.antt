-- ===== src/Paging/Table/Create.antt =====
-- `next_table_create` on a table of the tree: it follows the entry that is there, or hangs a zeroed
-- frame below it.
use mathlib.Core.Path.{fun_ext}
use kados_ng.Base.{ℕ, ◌^◌, ◌<◌, ◌≡◌, arith, inl, inr, ap}
use kados_ng.Base.{some, true, false, ◌==◌, ==_iff, ==_refl, Bool-cases}
use kados_ng.Arch.{page_entries}
use kados_ng.Mem.Outcome.{ok, err, MemError}
use kados_ng.Mem.PhysAddr.{PhysAddr}
use kados_ng.Mem.VirtAddr.{VirtAddr}
use kados_ng.Mem.Memory.{Memory, update}
use kados_ng.Paging.Level.{Level, next_down}
use kados_ng.Paging.Flags.{new_table}
use kados_ng.Paging.Entry.{
  is_table, frame_of, insert_flags-is_table, addr-eq-frame_of, entry_new, addr-entry_new,
}
use kados_ng.Paging.FrameSource.{FrameSource, IsTableFrame, slot}
use kados_ng.Paging.Table.{PageTable, State, next_table_create, allocate_one}
use kados_ng.Paging.Table.Access.{entry_lem, set_entry_lem}

update_self : (m : Memory) (p : VirtAddr) → update m p (m p) ≡ m
update_self m p =
    fun_ext
      λ q. elim (Bool-cases (p == q)) [ inl e ↦ rw e (ap m ((==_iff p q).0 e)) | inr e ↦ rw e ]

module _ (src : FrameSource) (t : PageTable) (i : ℕ) (l : Level) (down : next_down t.level ≡ some l)
    (f : IsTableFrame t.frame) (h : i < page_entries) where
  -- An entry that leads to a table is followed, and nothing changes.
  pub next_table_create_follow :
      (s : State src)
      → s.memory (slot t.frame i) < 2 ^ 64
      → is_table (s.memory (slot t.frame i)) ≡ true
      → next_table_create src t i new_table s ≡ (
        ok (record { frame = frame_of (s.memory (slot t.frame i)); level = l; kind = t.kind }),
        s,
      )
  unfolding next_table_create
  next_table_create_follow s w tab = rw (
    down,
    entry_lem src t i f h s,
    tab,
    insert_flags-is_table (s.memory (slot t.frame i)) w tab,
    set_entry_lem src t i f h (s.memory (slot t.frame i)) s,
    update_self s.memory (slot t.frame i),
    entry_lem src t i f h s,
    addr-eq-frame_of (s.memory (slot t.frame i)),
  )

  -- The machine after a fresh table in frame `g` is hung into the slot.
  abbrev pub hung : State src → src.Alloc → Memory → PhysAddr → State src
  hung s a m g = record s { memory = update m (slot t.frame i) (entry_new g new_table); frames = a }

  -- Where no table is, a frame is allocated for one.
  pub next_table_create_fresh :
      (s : State src) (a : src.Alloc) (m : Memory) (g : PhysAddr)
      → is_table (s.memory (slot t.frame i)) ≡ false
      → src.allocate_one s.frames s.memory ≡ (ok g, a, m)
      → IsTableFrame g
      → next_table_create src t i new_table s
        ≡ (ok (record { frame = g; level = l; kind = t.kind }), hung s a m g)
  unfolding next_table_create allocate_one
  next_table_create_fresh s a m g tab got fg = rw (
    down,
    entry_lem src t i f h s,
    tab,
    got,
    set_entry_lem src t i f h (entry_new g new_table) (record s { memory = m; frames = a }),
    entry_lem src t i f h (hung s a m g),
    ==_refl (slot t.frame i),
    (addr-entry_new g 3 (omega arith) (omega arith)).0,
  )

  pub next_table_create_starved :
      (s : State src) (a : src.Alloc) (m : Memory) (e : MemError)
      → is_table (s.memory (slot t.frame i)) ≡ false
      → src.allocate_one s.frames s.memory ≡ (err e, a, m)
      → next_table_create src t i new_table s ≡ (err e, record s { memory = m; frames = a })
  unfolding next_table_create allocate_one
  next_table_create_starved s a m e tab got = rw (down, entry_lem src t i f h s, tab, got)
