-- ===== src/Paging/Table/Invariant.antt =====
-- The invariant of a tree of page tables. Each frame that holds a table has one place in the tree, so
-- no write to one table touches another, and no table is a frame that the allocator may hand out.
use kados_ng.Base.{ℕ, ◌^◌, ◌<◌, ◌≡◌, refl, ◌∙◌}
use kados_ng.Base.{Option, some, true, List, ◌∷◌}
use kados_ng.Arch.{page_entries}
use kados_ng.Mem.PhysAddr.{PhysAddr}
use kados_ng.Paging.Level.{Level, level1, next_down}
use kados_ng.Paging.Entry.{is_table, frame_of}
use kados_ng.Paging.FrameSource.{FrameSource, IsTableFrame, slot}
use kados_ng.Paging.Table.{State}

-- The place of a table in the tree: its level, and the indices that lead to it, the last one first.
abbrev pub Place : Type 0
Place = Level × List ℕ

-- Which frames hold tables, and where.
abbrev pub Ranks : Type 0
Ranks = PhysAddr → Option Place

module _ (src : FrameSource) where
  pub record IsTree (rank : Ranks) (s : State src) : Type 0 where
    pub valid : src.IsValid s.frames
    pub is_frame : (f : PhysAddr) (w : Place) → rank f ≡ some w → IsTableFrame f
    pub held : (f : PhysAddr) (w : Place) → rank f ≡ some w → ¬ (src.Free s.frames f)
    pub word :
        (f : PhysAddr) (w : Place) (i : ℕ)
        → rank f ≡ some w
        → i < page_entries
        → s.memory (slot f i) < 2 ^ 64
    pub descends :
        (f : PhysAddr) (l l' : Level) (p : List ℕ) (i : ℕ)
        → rank f ≡ some (l, p)
        → i < page_entries
        → next_down l ≡ some l'
        → is_table (s.memory (slot f i)) ≡ true
        → rank (frame_of (s.memory (slot f i))) ≡ some (l', i ∷ p)

  -- The tables of `rank` are still there, with every entry that leads to a table and every entry
  -- of a table of level 1 unchanged.
  pub record Extends (rank rank' : Ranks) (s s' : State src) : Type 0 where
    pub keeps : (f : PhysAddr) (w : Place) → rank f ≡ some w → rank' f ≡ some w
    pub tables :
        (f : PhysAddr) (w : Place) (i : ℕ)
        → rank f ≡ some w
        → i < page_entries
        → is_table (s.memory (slot f i)) ≡ true
        → s'.memory (slot f i) ≡ s.memory (slot f i)
    pub leaves :
        (f : PhysAddr) (p : List ℕ) (i : ℕ)
        → rank f ≡ some (level1, p)
        → i < page_entries
        → s'.memory (slot f i) ≡ s.memory (slot f i)

  pub Extends-refl : (rank : Ranks) (s : State src) → Extends rank rank s s
  Extends-refl rank s = record {
    keeps = λ f l h. h;
    tables = λ f l i h lt t. refl;
    leaves = λ f p i h lt. refl;
  }

  pub Extends-trans :
      (p q r : Ranks) (s t u : State src) → Extends p q s t → Extends q r t u → Extends p r s u
  Extends-trans p q r s t u a b = record {
    keeps = λ f l h. b.keeps f l (a.keeps f l h);
    tables = λ f l i h lt e.
        let same = a.tables f l i h lt e in b.tables f l i (a.keeps f l h) lt (rw same e) ∙ same;
    leaves = λ f x i h lt. b.leaves f x i (a.keeps f (level1, x) h) lt ∙ a.leaves f x i h lt;
  }
