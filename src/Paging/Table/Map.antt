-- ===== src/Paging/Table/Map.antt =====
-- `map_to_4kib` on a tree of tables: what it returns, and what is mapped afterwards.
pub mod Chain
use mathlib.Core.Path.{subst}
use kados_ng.Base.{
  ℕ, ◌+◌, ◌*◌, ◌%◌, ◌^◌, ◌≤◌, ◌<◌, ◌≡◌, ◌≢◌, ◌⊎◌, refl, sym, ◌∙◌, arith, inl, inr, ap,
}
use kados_ng.Base.{List, ◌∷◌, Option, none, some, Bool, true, false, Bool-cases, ==_refl}
use kados_ng.Arch.{page_entries}
use kados_ng.Mem.Outcome.{Outcome, ok, err, panic, MemError}
use kados_ng.Mem.PhysAddr.{PhysAddr}
use kados_ng.Mem.VirtAddr.{VirtAddr}
use kados_ng.Mem.Memory.{Memory}
use kados_ng.Paging.Level.{Level, level1, level2, level3, level4, next_down}
use kados_ng.Paging.Flags.{new_table}
use kados_ng.Paging.Entry.{PageTableEntry, is_table, frame_of}
use kados_ng.Paging.Monad.{Ensures}
use kados_ng.Paging.FrameSource.{FrameSource, IsTableFrame, slot, Allocated, Granted, Refused}
use kados_ng.Paging.Table.{PageTable, State, next_table_create}
use kados_ng.Paging.Table.Create.{
  next_table_create_follow, next_table_create_fresh, next_table_create_starved, hung,
}
use kados_ng.Paging.Table.Grow.{grown, grown-IsTree, grown-Extends, grown_slot, table_entry}
use kados_ng.Paging.Table.Invariant.{Place, Ranks, IsTree, Extends, Extends-refl, Extends-trans}

module _ (src : FrameSource) where
  -- `t'` is the table at entry `i` of `t`, in a tree that extends the one before.
  pub record Created (rank : Ranks) (s : State src) (t : PageTable) (w : Place) (i : ℕ)
      (t' : PageTable) (s' : State src) : Type 0 where
    pub rank' : Ranks
    pub tree : IsTree src rank' s'
    pub extends : Extends src rank rank' s s'
    pub ranked : rank' t'.frame ≡ some w
    pub level : t'.level ≡ w.0
    pub leads : is_table (s'.memory (slot t.frame i)) ≡ true
    pub leads_to : frame_of (s'.memory (slot t.frame i)) ≡ t'.frame

  -- The mapping failed: memory ran out, or the page is mapped. The tables may have grown.
  pub record Failed (rank : Ranks) (s : State src) (page : VirtAddr) (remap : Bool) (e : MemError)
      (s' : State src) : Type 0 where
    pub rank' : Ranks
    pub tree : IsTree src rank' s'
    pub extends : Extends src rank rank' s s'
    pub why :
        (e ≡ MemError.out_of_memory)
        ⊎ ((old : PageTableEntry) × (remap ≡ false)
            × (old ≢ 0)
            × (e ≡ MemError.page_already_mapped page old))

  pub Failed-before :
      (p q : Ranks) (s t : State src) (page : VirtAddr) (remap : Bool) (e : MemError)
      (u : State src)
      → Extends src p q s t
      → Failed q t page remap e u
      → Failed p s page remap e u
  Failed-before p q s t page remap e u x f = record {
    rank' = f.rank';
    tree = f.tree;
    extends = Extends-trans src p q f.rank' s t u x f.extends;
    why = f.why;
  }

  IsTree-same :
      (rank : Ranks) (s : State src) (a : src.Alloc) (m : Memory)
      → m ≡ s.memory
      → src.IsValid a
      → ((g : PhysAddr) → src.Free a g → src.Free s.frames g)
      → IsTree src rank s
      → IsTree src rank (record s { memory = m; frames = a })
  IsTree-same rank s a m e v sh tree = rw e (record {
    valid = v;
    is_frame = tree.is_frame;
    held = λ f w r free. tree.held f w r (sh f free);
    word = tree.word;
    descends = tree.descends;
  })

  Extends-same :
      (rank : Ranks) (s : State src) (a : src.Alloc) (m : Memory)
      → m ≡ s.memory
      → Extends src rank rank s (record s { memory = m; frames = a })
  Extends-same rank s a m e =
      rw e (record { keeps = λ f w r. r; tables = λ f w i r h t. refl; leaves = λ f p i r h. refl })

  module _ (rank : Ranks) (s : State src) (tree : IsTree src rank s) (t : PageTable) (path : List ℕ)
      (i : ℕ) (l : Level) (down : next_down t.level ≡ some l)
      (ranked : rank t.frame ≡ some (t.level, path)) (h : i < page_entries) (page : VirtAddr)
      (remap : Bool) where
    inner : {k : Level} → t.level ≡ k → k ≢ level1
    inner e e' = cc (ap next_down (e ∙ e'))

    create_new :
        is_table (s.memory (slot t.frame i)) ≡ false
        → (r : Outcome PhysAddr × src.Alloc × Memory) → src.allocate_one s.frames s.memory ≡ r
        → Allocated src.IsValid src.Free s.frames s.memory r
        → Ensures
            (Created rank s t (l, i ∷ path) i)
            (Failed rank s page remap)
            (next_table_create src t i new_table s)
    create_new off (ok g, a, m) e gr =
        rw
          (next_table_create_fresh src t i l down (tree.is_frame t.frame (t.level, path) ranked) h s
            a m g off e gr.is_frame)
          (record {
            rank' = grown rank g (l, i ∷ path);
            tree = grown-IsTree src rank s tree t path i l down ranked h a m g gr;
            extends =
                grown-Extends src rank s tree t path i l down ranked h a m g gr off (inner refl);
            ranked = rw (==_refl g);
            level = refl;
            leads = rw (==_refl (slot t.frame i)) (table_entry g gr.is_frame).0;
            leads_to = rw (==_refl (slot t.frame i)) (table_entry g gr.is_frame).1;
          })
    create_new off (err er, a, m) e rf =
        rw
          (next_table_create_starved src t i l down (tree.is_frame t.frame (t.level, path) ranked) h
            s a m er off e)
          (record {
            rank' = rank;
            tree = IsTree-same rank s a m rf.same rf.valid rf.shrinks tree;
            extends = Extends-same rank s a m rf.same;
            why = inl rf.why;
          })
    create_new off (panic, a, m) e no_panic = absurd no_panic

    pub create-Ensures :
        Ensures
          (Created rank s t (l, i ∷ path) i)
          (Failed rank s page remap)
          (next_table_create src t i new_table s)
    create-Ensures = elim (Bool-cases (is_table (s.memory (slot t.frame i)))) [
      | inl on ↦
          rw
            (next_table_create_follow src t i l down (tree.is_frame t.frame (t.level, path) ranked)
              h s (tree.word t.frame (t.level, path) i ranked h) on)
            (record {
              rank' = rank;
              tree = tree;
              extends = Extends-refl src rank s;
              ranked = tree.descends t.frame t.level l path i ranked h down on;
              level = refl;
              leads = on;
              leads_to = refl;
            })
      | inr off ↦
          create_new off (src.allocate_one s.frames s.memory) refl
            (src.allocates s.frames s.memory tree.valid)
    ]
