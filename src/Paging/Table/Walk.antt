-- ===== src/Paging/Table/Walk.antt =====
-- The walk of `translate`: when it succeeds, and what it finds then.
use kados_ng.Base.{ℕ, ◌<◌, ◌≡◌, refl, inl, inr}
use kados_ng.Base.{List, ◌∷◌, [], some, true, false, Bool-cases}
use kados_ng.Arch.{page_entries}
use kados_ng.Mem.Outcome.{ok, err, MemError}
use kados_ng.Mem.PhysAddr.{PhysAddr}
use kados_ng.Mem.VirtAddr.{VirtAddr}
use kados_ng.Paging.Level.{
  Level, level1, level2, level3, level4, next_down, page_table_index, page_table_index-lt,
}
use kados_ng.Paging.Entry.{PageTableEntry, is_table, frame_of, addr-eq-frame_of}
use kados_ng.Paging.FrameSource.{FrameSource, IsTableFrame, slot}
use kados_ng.Paging.Table.{PageTable, State, next_table, translate}
use kados_ng.Paging.Table.Access.{entry_lem}
use kados_ng.Paging.Table.Invariant.{Ranks, IsTree}

abbrev pub place3 : VirtAddr → List ℕ
place3 page = page_table_index page level4 ∷ []

abbrev pub place2 : VirtAddr → List ℕ
place2 page = page_table_index page level3 ∷ place3 page

abbrev pub place1 : VirtAddr → List ℕ
place1 page = page_table_index page level2 ∷ place2 page

module _ (src : FrameSource) where
  module _ (t : PageTable) (i : ℕ) (l : Level) (down : next_down t.level ≡ some l)
      (f : IsTableFrame t.frame) (h : i < page_entries) (s : State src) where
    pub next_table_ok :
        is_table (s.memory (slot t.frame i)) ≡ true
        → next_table src t i s ≡ (
          ok (record { frame = frame_of (s.memory (slot t.frame i)); level = l; kind = t.kind }),
          s,
        )
    unfolding next_table
    next_table_ok tab =
        rw (down, entry_lem src t i f h s, tab, addr-eq-frame_of (s.memory (slot t.frame i)))

    pub next_table_err :
        is_table (s.memory (slot t.frame i)) ≡ false
        → next_table src t i s ≡ (err MemError.no_next_table, s)
    unfolding next_table
    next_table_err tab = rw (down, entry_lem src t i f h s, tab)

  -- The three tables between the root and the entry of a page.
  pub record Path3 (root : PhysAddr) (page : VirtAddr) (s : State src) (p3 p2 p1 : PhysAddr)
      : Type 0 where
    pub tab4 : is_table (s.memory (slot root (page_table_index page level4))) ≡ true
    pub to3 : frame_of (s.memory (slot root (page_table_index page level4))) ≡ p3
    pub tab3 : is_table (s.memory (slot p3 (page_table_index page level3))) ≡ true
    pub to2 : frame_of (s.memory (slot p3 (page_table_index page level3))) ≡ p2
    pub tab2 : is_table (s.memory (slot p2 (page_table_index page level2))) ≡ true
    pub to1 : frame_of (s.memory (slot p2 (page_table_index page level2))) ≡ p1

  -- A path whose entries are the same in another machine is a path there.
  pub Path3-same :
      (root : PhysAddr) (page : VirtAddr) (s s' : State src) (p3 p2 p1 : PhysAddr)
      → s'.memory (slot root (page_table_index page level4))
        ≡ s.memory (slot root (page_table_index page level4))
      → s'.memory (slot p3 (page_table_index page level3))
        ≡ s.memory (slot p3 (page_table_index page level3))
      → s'.memory (slot p2 (page_table_index page level2))
        ≡ s.memory (slot p2 (page_table_index page level2))
      → Path3 root page s p3 p2 p1
      → Path3 root page s' p3 p2 p1
  Path3-same root page s s' p3 p2 p1 e4 e3 e2 path = record {
    tab4 = rw e4 (path.tab4);
    to3 = rw e4 (path.to3);
    tab3 = rw e3 (path.tab3);
    to2 = rw e3 (path.to2);
    tab2 = rw e2 (path.tab2);
    to1 = rw e2 (path.to1);
  }

  module _ (rank : Ranks) (s : State src) (tree : IsTree src rank s) (root : PageTable)
      (top : root.level ≡ level4) (ranked : rank root.frame ≡ some (level4, []))
      (page : VirtAddr) where
    -- The tables on the path have the places that the indices say.
    pub Path3-ranks :
        {p3 p2 p1 : PhysAddr}
        → Path3 root.frame page s p3 p2 p1
        → (rank p3 ≡ some (level3, place3 page))
          × (rank p2 ≡ some (level2, place2 page))
          × (rank p1 ≡ some (level1, place1 page))
    Path3-ranks {p3} {p2} {p1} path = (r3, r2, r1)
      where
        r3 : rank p3 ≡ some (level3, place3 page)
        r3 = rw path.to3 at (
            tree.descends root.frame level4 level3 [] (page_table_index page level4) ranked
              (page_table_index-lt page level4) refl path.tab4)

        r2 : rank p2 ≡ some (level2, place2 page)
        r2 = rw path.to2 at (
            tree.descends p3 level3 level2 (place3 page) (page_table_index page level3) r3
              (page_table_index-lt page level3) refl path.tab3)

        r1 : rank p1 ≡ some (level1, place1 page)
        r1 = rw path.to1 at (
            tree.descends p2 level2 level1 (place2 page) (page_table_index page level2) r2
              (page_table_index-lt page level2) refl path.tab2)

    down4 : next_down root.level ≡ some level3
    down4 = rw top

    table3 : PhysAddr → PageTable
    table3 f = record { frame = f; level = level3; kind = root.kind }

    table2 : PhysAddr → PageTable
    table2 f = record { frame = f; level = level2; kind = root.kind }

    table1 : PhysAddr → PageTable
    table1 f = record { frame = f; level = level1; kind = root.kind }

    -- Along such a path `translate` reads the entry of the page.
    pub translate_path :
        {p3 p2 p1 : PhysAddr}
        → Path3 root.frame page s p3 p2 p1
        → translate src root page s ≡ (ok (s.memory (slot p1 (page_table_index page level1))), s)
    unfolding translate table3 table2 table1
    translate_path {p3} {p2} {p1} path =
        let ranks = Path3-ranks path in
        rw (
          next_table_ok root (page_table_index page level4) level3 down4
              (tree.is_frame root.frame (level4, []) ranked) (page_table_index-lt page level4) s
              path.tab4,
          path.to3,
          next_table_ok (table3 p3) (page_table_index page level3) level2 refl
              (tree.is_frame p3 (level3, place3 page) ranks.0) (page_table_index-lt page level3) s
              path.tab3,
          path.to2,
          next_table_ok (table2 p2) (page_table_index page level2) level1 refl
              (tree.is_frame p2 (level2, place2 page) ranks.1) (page_table_index-lt page level2) s
              path.tab2,
          path.to1,
          entry_lem src (table1 p1) (page_table_index page level1)
              (tree.is_frame p1 (level1, place1 page) ranks.2) (page_table_index-lt page level1) s,
        )

    -- `translate` succeeds only along such a path.
    pub translate-ok :
        (e : PageTableEntry) (s' : State src)
        → translate src root page s ≡ (ok e, s')
        → (p3 p2 p1 : PhysAddr) × Path3 root.frame page s p3 p2 p1
          × (e ≡ s.memory (slot p1 (page_table_index page level1)))
    unfolding translate table3 table2 table1
    translate-ok e s' done = elim (Bool-cases (is_table (s.memory (slot root.frame i4)))) [
      | inr off4 ↦ cc (rw (next_table_err root i4 level3 down4 f4 lt4 s off4) at done)
      | inl on4 ↦
          let p3 = frame_of (s.memory (slot root.frame i4)) in
          let r3 = tree.descends root.frame level4 level3 [] i4 ranked lt4 refl on4 in
          let f3 = tree.is_frame p3 (level3, place3 page) r3 in
          let done3 = rw (next_table_ok root i4 level3 down4 f4 lt4 s on4) at done in
          elim (Bool-cases (is_table (s.memory (slot p3 i3)))) [
            | inr off3 ↦ cc (rw (next_table_err (table3 p3) i3 level2 refl f3 lt3 s off3) at done3)
            | inl on3 ↦
                let p2 = frame_of (s.memory (slot p3 i3)) in
                let r2 = tree.descends p3 level3 level2 (place3 page) i3 r3 lt3 refl on3 in
                let f2 = tree.is_frame p2 (level2, place2 page) r2 in
                let done2 = rw (next_table_ok (table3 p3) i3 level2 refl f3 lt3 s on3) at done3 in
                elim (Bool-cases (is_table (s.memory (slot p2 i2)))) [
                  | inr off2 ↦
                      cc (rw (next_table_err (table2 p2) i2 level1 refl f2 lt2 s off2) at done2)
                  | inl on2 ↦
                      let p1 = frame_of (s.memory (slot p2 i2)) in
                      let r1 = tree.descends p2 level2 level1 (place2 page) i2 r2 lt2 refl on2 in
                      let f1 = tree.is_frame p1 (level1, place1 page) r1 in
                      let done1 =
                        rw (next_table_ok (table2 p2) i2 level1 refl f2 lt2 s on2) at done2 in
                      let last = rw (entry_lem src (table1 p1) i1 f1 lt1 s) at done1 in
                      (
                        p3,
                        p2,
                        p1,
                        record {
                          tab4 = on4;
                          to3 = refl;
                          tab3 = on3;
                          to2 = refl;
                          tab2 = on2;
                          to1 = refl;
                        },
                        cc last,
                      )
                ]
          ]
    ]
      where
        i4 : ℕ
        i4 = page_table_index page level4

        i3 : ℕ
        i3 = page_table_index page level3

        i2 : ℕ
        i2 = page_table_index page level2

        i1 : ℕ
        i1 = page_table_index page level1

        lt1 : i1 < page_entries
        lt1 = page_table_index-lt page level1

        lt4 : i4 < page_entries
        lt4 = page_table_index-lt page level4

        lt3 : i3 < page_entries
        lt3 = page_table_index-lt page level3

        lt2 : i2 < page_entries
        lt2 = page_table_index-lt page level2

        f4 : IsTableFrame root.frame
        f4 = tree.is_frame root.frame (level4, []) ranked
