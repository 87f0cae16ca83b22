-- ===== src/Paging/Table/Mapping.antt =====
-- What a caller of `map_to` and `remap_to` with 4 KiB pages may rely on.
use kados_ng.Base.{◌≡◌, ◌≢◌, ◌⊎◌, sym, ◌∙◌, inl, inr, ap}
use kados_ng.Base.{[], some, Bool}
use kados_ng.Mem.Outcome.{Outcome, ok, err, panic, MemError}
use kados_ng.Mem.PhysAddr.{PhysAddr}
use kados_ng.Mem.VirtAddr.{VirtAddr}
use kados_ng.Paging.Level.{
  Level, level1, level2, level3, level4, page_table_index, page_table_index-lt,
}
use kados_ng.Paging.Flags.{PageFlags, new_table}
use kados_ng.Paging.Entry.{PageTableEntry, entry_new, addr-entry_new, IsPage, IsFlags}
use kados_ng.Paging.Monad.{Ensures, Ensures-map, bind-Ensures, ◌>>=◌}
use kados_ng.Paging.FrameSource.{FrameSource}
use kados_ng.Paging.Table.{
  PageTable, PageFlush, State, next_table_create, put_leaf, map_to_4kib, translate,
}
use kados_ng.Paging.Table.Walk.{
  place3, place2, place1, translate_path, translate-ok, Path3-ranks, Path3-same,
}
use kados_ng.Paging.Table.Map.{Created, Failed, Failed-before, create-Ensures}
use kados_ng.Paging.Table.Map.Chain.{Mapped, leaf-Ensures}
use kados_ng.Paging.Table.Invariant.{Ranks, IsTree, Extends, Extends-trans}

module _ (src : FrameSource) (rank : Ranks) (s : State src) (tree : IsTree src rank s)
    (root : PageTable) (top : root.level ≡ level4) (ranked : rank root.frame ≡ some (level4, []))
    (page : VirtAddr) where
  weaken :
      {A : Type 0} (P : A → State src → Type 0) (q : Ranks) (t : State src) (remap : Bool)
      → Extends src rank q s t
      → (r : Outcome A × State src) → Ensures P (Failed src q t page remap) r
      → Ensures P (Failed src rank s page remap) r
  weaken P q t remap x (ok a, u) h = h
  weaken P q t remap x (err e, u) h = Failed-before src rank q s t page remap e u x h
  weaken P q t remap x (panic, u) h = h

  module _ (frame : PhysAddr) (fl : PageFlags) (hf : IsPage frame) (hfl : IsFlags fl)
      (remap : Bool) where
    abbrev pub new : PageTableEntry
    new = entry_new frame fl

    abbrev pub IsMapped : PageFlush → State src → Type 0
    IsMapped u s' = Mapped src rank s root page new s'

    abbrev pub HasFailed : MemError → State src → Type 0
    HasFailed = Failed src rank s page remap

    from_level2 :
        (p3 : PageTable) (s3 : State src)
        (c3 : Created src rank s root (level3, place3 page) (page_table_index page level4) p3 s3)
        (p2 : PageTable) (s2 : State src)
        (c2 : Created src c3.rank' s3 p3 (level2, place2 page) (page_table_index page level3) p2 s2)
        → Ensures IsMapped HasFailed (
            (next_table_create src p2 (page_table_index page level2) new_table >>= λ p1.
            put_leaf src p1 (page_table_index page level1) page new remap)
              s2)
    from_level2 p3 s3 c3 p2 s2 c2 =
        bind-Ensures
          (Created src c2.rank' s2 p2 (level1, place1 page) (page_table_index page level2)) IsMapped
          HasFailed (next_table_create src p2 (page_table_index page level2) new_table s2) _
          (weaken (Created src c2.rank' s2 p2 (level1, place1 page) (page_table_index page level2))
            c2.rank' s2 remap
            (Extends-trans src rank c3.rank' c2.rank' s s3 s2 c3.extends c2.extends)
            (next_table_create src p2 (page_table_index page level2) new_table s2)
            (create-Ensures src c2.rank' s2 c2.tree p2 (place2 page) (page_table_index page level2)
              level1 (rw (c2.level)) (rw (c2.level) (c2.ranked)) (page_table_index-lt page level2)
              page remap))
          λ p1 s1 c1.
            leaf-Ensures src rank s tree root top ranked page new (addr-entry_new frame fl hf hfl).2
              p3 s3 c3 p2 s2 c2 p1 s1 c1 remap

    from_level3 :
        (p3 : PageTable) (s3 : State src)
        (c3 : Created src rank s root (level3, place3 page) (page_table_index page level4) p3 s3)
        → Ensures IsMapped HasFailed (
            (next_table_create src p3 (page_table_index page level3) new_table >>= λ p2.
            next_table_create src p2 (page_table_index page level2) new_table >>= λ p1.
            put_leaf src p1 (page_table_index page level1) page new remap)
              s3)
    from_level3 p3 s3 c3 =
        bind-Ensures
          (Created src c3.rank' s3 p3 (level2, place2 page) (page_table_index page level3)) IsMapped
          HasFailed (next_table_create src p3 (page_table_index page level3) new_table s3) _
          (weaken (Created src c3.rank' s3 p3 (level2, place2 page) (page_table_index page level3))
            c3.rank' s3 remap c3.extends
            (next_table_create src p3 (page_table_index page level3) new_table s3)
            (create-Ensures src c3.rank' s3 c3.tree p3 (place3 page) (page_table_index page level3)
              level2 (rw (c3.level)) (rw (c3.level) (c3.ranked)) (page_table_index-lt page level3)
              page remap))
          (from_level2 p3 s3 c3)

    -- `map_to_4kib` on a well-formed tree does not panic, and the tables form a tree again whether
    -- it succeeds or fails: every table has one place, the tables that were there keep theirs, and
    -- no table is a frame that the allocator may still hand out.
    pub map_to_4kib-Ensures :
        Ensures IsMapped HasFailed (map_to_4kib src root page frame fl new_table remap s)
    unfolding map_to_4kib
    map_to_4kib-Ensures =
        bind-Ensures (Created src rank s root (level3, place3 page) (page_table_index page level4))
          IsMapped HasFailed (next_table_create src root (page_table_index page level4) new_table s)
          _
          (create-Ensures src rank s tree root [] (page_table_index page level4) level3 (rw top)
            (rw top ranked) (page_table_index-lt page level4) page remap)
          from_level3

    pub found :
        (u : PageFlush) (s' : State src) → IsMapped u s' → translate src root page s' ≡ (ok new, s')
    found u s' m =
        translate_path src m.rank' s' m.tree root top (m.keeps root.frame (level4, []) ranked) page
          m.path
        ∙ ap (λ (v : PageTableEntry). (ok v, s')) m.leaf

    -- On a well-formed tree of page tables, mapping a page of 4 KiB with `map_to_4kib` ends in one
    -- of two ways, never in a panic. Either it succeeds, and `translate` then finds the entry with
    -- the page's frame and flags; or it fails, because memory has run out or, unless it remaps,
    -- because the page is mapped already.
    pub translate-map_to_4kib :
        Ensures
          (λ u s'. translate src root page s' ≡ (ok new, s'))
          HasFailed
          (map_to_4kib src root page frame fl new_table remap s)
    translate-map_to_4kib =
        Ensures-map IsMapped _ HasFailed HasFailed _ map_to_4kib-Ensures found (λ e s' h. h)

    pub other :
        (u : PageFlush) (s' t : State src) (q : VirtAddr) (e : PageTableEntry) (l : Level)
        → page_table_index q l ≢ page_table_index page l
        → translate src root q s ≡ (ok e, t)
        → IsMapped u s'
        → translate src root q s' ≡ (ok e, s')
    other u s' t q e l away before m =
        let old = translate-ok src rank s tree root top ranked q e t before in
        let ranks = Path3-ranks src rank s tree root top ranked q old.3 in
        let same4 = m.tables root.frame _ _ ranked (cc) (page_table_index-lt q level4) old.3.tab4 in
        let same3 = m.tables old.0 _ _ ranks.0 (cc) (page_table_index-lt q level3) old.3.tab3 in
        let same2 = m.tables old.1 _ _ ranks.1 (cc) (page_table_index-lt q level2) old.3.tab2 in
        let same1 = m.leaves old.2 _ _ ranks.2 (page_table_index-lt q level1) (elsewhere l away) in
        translate_path src m.rank' s' m.tree root top (m.keeps root.frame (level4, []) ranked) q
          (Path3-same src root.frame q s s' old.0 old.1 old.2 same4 same3 same2 old.3)
        ∙ ap (λ (v : PageTableEntry). (ok v, s')) (same1 ∙ sym (old.4))
      where
        elsewhere :
            (l : Level)
            → page_table_index q l ≢ page_table_index page l
            → (place1 q ≢ place1 page) ⊎ (page_table_index q level1 ≢ page_table_index page level1)
        elsewhere level1 ne = inr ne
        elsewhere level2 ne = inl (λ e. ne (cc))
        elsewhere level3 ne = inl (λ e. ne (cc))
        elsewhere level4 ne = inl (λ e. ne (cc))

    -- On a well-formed tree, mapping a page of 4 KiB leaves the translation of every other page as
    -- it was: an address that `translate` found an entry for, and that has another index than the
    -- mapped page at some level, has the same entry after a mapping that succeeds.
    pub translate-map_to_4kib_other :
        (t : State src) (q : VirtAddr) (e : PageTableEntry) (l : Level)
        → page_table_index q l ≢ page_table_index page l
        → translate src root q s ≡ (ok e, t)
        → Ensures
            (λ u s'. translate src root q s' ≡ (ok e, s'))
            HasFailed
            (map_to_4kib src root page frame fl new_table remap s)
    translate-map_to_4kib_other t q e l away before =
        Ensures-map IsMapped _ HasFailed HasFailed _ map_to_4kib-Ensures
          (λ u s' m. other u s' t q e l away before m) (λ e s' h. h)
