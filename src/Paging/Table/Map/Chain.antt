-- ===== src/Paging/Table/Map/Chain.antt =====
-- The three tables of a mapping one after the other, and the entry that ends it.
use kados_ng.Base.{ℕ, ◌^◌, ◌<◌, ◌≡◌, ◌≢◌, ◌⊎◌, ◌∙◌, arith, inl, inr, ap}
use kados_ng.Base.{List, [], some, Bool, true, false, Bool-cases, ==_refl, ◌==◌}
use kados_ng.Arch.{page_entries}
use kados_ng.Mem.Outcome.{MemError}
use kados_ng.Mem.PhysAddr.{PhysAddr}
use kados_ng.Mem.VirtAddr.{VirtAddr}
use kados_ng.Paging.Level.{level1, level2, level3, level4, page_table_index, page_table_index-lt}
use kados_ng.Paging.Entry.{PageTableEntry, is_table}
use kados_ng.Paging.Monad.{Ensures, Ensures-map}
use kados_ng.Paging.FrameSource.{FrameSource, IsTableFrame, slot}
use kados_ng.Paging.Table.{PageTable, PageFlush, State, put_leaf}
use kados_ng.Paging.Table.Access.{slot_injective}
use kados_ng.Paging.Table.Leaf.{written, put_leaf-Ensures}
use kados_ng.Paging.Table.Walk.{Path3, place3, place2, place1}
use kados_ng.Paging.Table.Map.{Created, Failed}
use kados_ng.Paging.Table.Invariant.{Place, Ranks, IsTree, Extends, Extends-trans}

module _ (src : FrameSource) where
  -- A write to an entry of a table of level 1 keeps the tree.
  module _ (rank : Ranks) (s : State src) (tree : IsTree src rank s) (t : PageTable) (path : List ℕ)
      (i : ℕ) (ranked : rank t.frame ≡ some (level1, path)) (h : i < page_entries) (page : VirtAddr)
      (new : PageTableEntry) (fits : new < 2 ^ 64) where
    abbrev after : State src
    after = written src t i page new (tree.is_frame t.frame (level1, path) ranked) h s

    pub written_lem :
        (f : PhysAddr) (j : ℕ)
        → IsTableFrame f
        → j < page_entries
        → ((f ≡ t.frame) × (j ≡ i) × (after.memory (slot f j) ≡ new))
          ⊎ (((f ≢ t.frame) ⊎ (j ≢ i)) × (after.memory (slot f j) ≡ s.memory (slot f j)))
    written_lem f j hf hj = elim (Bool-cases (f == t.frame)) [
      | inr e ↦ inr (inl (ground arith), ground (arith, same))
      | inl e ↦ elim (Bool-cases (j == i)) [
        | inr e' ↦ inr (inr (ground arith), ground (arith, same))
        | inl e' ↦ inl (ground arith, ground arith, ground arith)
      ]
    ]
      where
        same : slot t.frame i ≡ slot f j → (t.frame ≡ f) × (i ≡ j)
        same = slot_injective t.frame f i j (tree.is_frame t.frame (level1, path) ranked) hf h hj

    pub written-IsTree : IsTree src rank after
    written-IsTree = record {
      valid = tree.valid;
      is_frame = tree.is_frame;
      held = tree.held;
      word = λ f w j r hj.
          ground (arith, written_lem f j (tree.is_frame f w r) hj, tree.word f w j r hj);
      descends = λ f l l' p j r hj dn tab. ground (
        arith,
        written_lem f j (tree.is_frame f (l, p) r) hj,
        tree.descends f l l' p j r hj dn,
        ranked,
        r,
      );
    }

    -- Entries of other tables are the same, and so are the other entries of this one.
    pub written_other :
        (f : PhysAddr) (w : Place) (j : ℕ)
        → rank f ≡ some w
        → j < page_entries
        → (w ≢ (level1, path)) ⊎ (j ≢ i)
        → after.memory (slot f j) ≡ s.memory (slot f j)
    written_other f w j r hj away =
        ground (arith, written_lem f j (tree.is_frame f w r) hj, ranked, r)

  -- The page has the entry `new`, and every other entry of the old tables that is in use is kept.
  pub record Mapped (rank : Ranks) (s : State src) (root : PageTable) (page : VirtAddr)
      (new : PageTableEntry) (s' : State src) : Type 0 where
    pub rank' : Ranks
    pub tree : IsTree src rank' s'
    pub keeps : (f : PhysAddr) (w : Place) → rank f ≡ some w → rank' f ≡ some w
    pub p3 : PhysAddr
    pub p2 : PhysAddr
    pub p1 : PhysAddr
    pub path : Path3 src root.frame page s' p3 p2 p1
    pub leaf : s'.memory (slot p1 (page_table_index page level1)) ≡ new
    pub tables :
        (f : PhysAddr) (w : Place) (i : ℕ)
        → rank f ≡ some w
        → w.0 ≢ level1
        → i < page_entries
        → is_table (s.memory (slot f i)) ≡ true
        → s'.memory (slot f i) ≡ s.memory (slot f i)
    pub leaves :
        (f : PhysAddr) (p : List ℕ) (i : ℕ)
        → rank f ≡ some (level1, p)
        → i < page_entries
        → (p ≢ place1 page) ⊎ (i ≢ page_table_index page level1)
        → s'.memory (slot f i) ≡ s.memory (slot f i)

  module _ (rank : Ranks) (s : State src) (tree : IsTree src rank s) (root : PageTable)
      (top : root.level ≡ level4) (ranked : rank root.frame ≡ some (level4, [])) (page : VirtAddr)
      (new : PageTableEntry) (fits : new < 2 ^ 64) where
    abbrev i4 : ℕ
    i4 = page_table_index page level4

    abbrev i3 : ℕ
    i3 = page_table_index page level3

    abbrev i2 : ℕ
    i2 = page_table_index page level2

    abbrev i1 : ℕ
    i1 = page_table_index page level1

    module _ (p3 : PageTable) (s3 : State src)
        (c3 : Created src rank s root (level3, place3 page) i4 p3 s3) (p2 : PageTable)
        (s2 : State src) (c2 : Created src c3.rank' s3 p3 (level2, place2 page) i3 p2 s2)
        (p1 : PageTable) (s1 : State src)
        (c1 : Created src c2.rank' s2 p2 (level1, place1 page) i2 p1 s1) where
      abbrev mapped : State src
      mapped =
          after c1.rank' s1 c1.tree p1 (place1 page) i1 c1.ranked (page_table_index-lt page level1)
            page new fits

      untouched :
          (f : PhysAddr) (w : Place) (j : ℕ)
          → c1.rank' f ≡ some w
          → j < page_entries
          → (w ≢ (level1, place1 page)) ⊎ (j ≢ i1)
          → mapped.memory (slot f j) ≡ s1.memory (slot f j)
      untouched =
          written_other c1.rank' s1 c1.tree p1 (place1 page) i1 c1.ranked
            (page_table_index-lt page level1) page new fits

      entry2 : mapped.memory (slot p2.frame i2) ≡ s1.memory (slot p2.frame i2)
      entry2 =
          untouched p2.frame (level2, place2 page) i2 (c1.extends.keeps p2.frame _ c2.ranked)
            (page_table_index-lt page level2) (inl cc)

      entry3 : mapped.memory (slot p3.frame i3) ≡ s2.memory (slot p3.frame i3)
      entry3 =
          let r = c2.extends.keeps p3.frame (level3, place3 page) c3.ranked in
          untouched p3.frame (level3, place3 page) i3 (c1.extends.keeps p3.frame _ r)
            (page_table_index-lt page level3) (inl cc)
          ∙ c1.extends.tables p3.frame (level3, place3 page) i3 r (page_table_index-lt page level3)
              c2.leads

      entry4 : mapped.memory (slot root.frame i4) ≡ s3.memory (slot root.frame i4)
      entry4 =
          let r3 = c3.extends.keeps root.frame (level4, []) ranked in
          let r2 = c2.extends.keeps root.frame (level4, []) r3 in
          let same2 =
            c2.extends.tables root.frame (level4, []) i4 r3 (page_table_index-lt page level4)
              c3.leads in
          untouched root.frame (level4, []) i4 (c1.extends.keeps root.frame _ r2)
            (page_table_index-lt page level4) (inl cc)
          ∙ (c1.extends.tables root.frame (level4, []) i4 r2 (page_table_index-lt page level4)
                (rw same2 c3.leads)
              ∙ same2)

      extends : Extends src rank c1.rank' s s1
      extends =
          Extends-trans src rank c3.rank' c1.rank' s s3 s1 c3.extends
            (Extends-trans src c3.rank' c2.rank' c1.rank' s3 s2 s1 c2.extends c1.extends)

      pub finish : Mapped rank s root page new mapped
      finish = record {
        rank' = c1.rank';
        tree =
            written-IsTree c1.rank' s1 c1.tree p1 (place1 page) i1 c1.ranked
              (page_table_index-lt page level1) page new fits;
        keeps = extends.keeps;
        p3 = p3.frame;
        p2 = p2.frame;
        p1 = p1.frame;
        path = record {
          tab4 = rw entry4 c3.leads;
          to3 = rw entry4 c3.leads_to;
          tab3 = rw entry3 c2.leads;
          to2 = rw entry3 c2.leads_to;
          tab2 = rw entry2 c1.leads;
          to1 = rw entry2 c1.leads_to;
        };
        leaf = rw (==_refl (slot p1.frame i1));
        tables = λ f w i r ne h on.
            untouched f w i (extends.keeps f w r) h (inl (λ e. ne (ap (λ (v : Place). v.0) e)))
            ∙ extends.tables f w i r h on;
        leaves = λ f p i r h away.
            untouched f (level1, p) i (extends.keeps f (level1, p) r) h (differs p i away)
            ∙ extends.leaves f p i r h;
      }
        where
          differs :
              (p : List ℕ) (i : ℕ)
              → (p ≢ place1 page) ⊎ (i ≢ i1)
              → (◌≢◌ {A = Place} (level1, p) (level1, place1 page)) ⊎ (i ≢ i1)
          differs p i (inl ne) = inl (λ e. ne (ap (λ (v : Place). v.1) e))
          differs p i (inr ne) = inr ne

      -- The write that ends the mapping, seen from its beginning.
      pub leaf-Ensures :
          (remap : Bool)
          → Ensures
              (λ (u : PageFlush) s'. Mapped rank s root page new s')
              (Failed src rank s page remap)
              (put_leaf src p1 i1 page new remap s1)
      leaf-Ensures remap =
          Ensures-map (λ (u : PageFlush) s'. (u ≡ page) × (s' ≡ mapped))
            (λ (u : PageFlush) s'. Mapped rank s root page new s')
            (λ e s'.
              (s' ≡ s1)
              × (remap ≡ false)
              × (s1.memory (slot p1.frame i1) ≢ 0)
              × (e ≡ MemError.page_already_mapped page (s1.memory (slot p1.frame i1))))
            (Failed src rank s page remap) (put_leaf src p1 i1 page new remap s1)
            (put_leaf-Ensures src p1 i1 page new
              (c1.tree.is_frame p1.frame (level1, place1 page) c1.ranked)
              (page_table_index-lt page level1) s1 remap)
            (λ u s' h. rw (h.1) finish)
            λ e s' h. rw (h.0) (record {
              rank' = c1.rank';
              tree = c1.tree;
              extends = extends;
              why = inr (s1.memory (slot p1.frame i1), h.1, h.2, h.3);
            })
