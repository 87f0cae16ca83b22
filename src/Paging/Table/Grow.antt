-- ===== src/Paging/Table/Grow.antt =====
-- A fresh table keeps the tree a tree.
use kados_ng.Base.{ℕ, ◌+◌, ◌^◌, ◌<◌, ◌≡◌, ◌≢◌, ◌⊎◌, sym, arith, inl, inr, ap}
use mathlib.Core.Path.{subst}
use kados_ng.Base.{List, ◌∷◌, some, true, false, ◌==◌, ==_iff, ==_of_ne, Bool-cases}
use kados_ng.Base.{if◌then◌else◌, ◌&&◌}
use kados_ng.Arch.{page_entries}
use kados_ng.Mem.PhysAddr.{PhysAddr}
use kados_ng.Mem.Memory.{Memory}
use kados_ng.Paging.Level.{Level, level1, next_down}
use kados_ng.Paging.Flags.{new_table}
use kados_ng.Paging.Entry.{is_table, frame_of, entry_new, is_table_iff, entry_new-eq}
use kados_ng.Paging.FrameSource.{FrameSource, IsTableFrame, slot, Granted}
use kados_ng.Paging.Table.{PageTable, State}
use kados_ng.Paging.Table.Access.{slot_injective}
use kados_ng.Paging.Table.Create.{hung}
use kados_ng.Paging.Table.Invariant.{Place, Ranks, IsTree, Extends}

abbrev pub grown : Ranks → PhysAddr → Place → Ranks
grown rank g w f = if f == g then some w else rank f

-- The entry for a new table is taken for one, and leads to its frame.
pub table_entry :
    (g : PhysAddr)
    → IsTableFrame g
    → (is_table (entry_new g new_table) ≡ true)
      × (frame_of (entry_new g new_table) ≡ g)
      × (entry_new g new_table < 2 ^ 64)
table_entry g h =
    ((is_table_iff (entry_new g 3) fits).1 (omega (arith, word)), omega (arith, word), fits)
  where
    word : entry_new g 3 ≡ g + 3
    word = omega (arith, entry_new-eq g 3 (omega arith) (omega arith))

    fits : entry_new g 3 < 2 ^ 64
    fits = omega (arith, word)

pub is_table-zero : is_table 0 ≡ false
is_table-zero = elim (Bool-cases (is_table 0)) [
  | inl e ↦ absurd (omega (arith, (is_table_iff 0 (omega arith)).0 e))
  | inr e ↦ e
]

module _ (src : FrameSource) (rank : Ranks) (s : State src) (tree : IsTree src rank s)
    (t : PageTable) (path : List ℕ) (i : ℕ) (l : Level) (down : next_down t.level ≡ some l)
    (ranked : rank t.frame ≡ some (t.level, path)) (h : i < page_entries) (a : src.Alloc)
    (m : Memory) (g : PhysAddr)
    (granted : Granted src.IsValid src.Free s.frames a s.memory m g) where
  -- The entries of the machine with the new table.
  hung_lem :
      (f : PhysAddr) (j : ℕ)
      → IsTableFrame f
      → j < page_entries
      → (hung src t i l down (tree.is_frame t.frame (t.level, path) ranked) h s a m g).memory
          (slot f j)
        ≡ (if f == t.frame && j == i
            then entry_new g new_table
            else if f == g
            then 0
            else s.memory (slot f j))
  hung_lem f j hf hj = ground (
    arith,
    slot_injective f t.frame j i hf (tree.is_frame t.frame (t.level, path) ranked) hj h,
    granted.zeroed f j hf hj,
  )

  unranked : (f : PhysAddr) (w : Place) → rank f ≡ some w → f ≢ g
  unranked f w r e = tree.held f w r (subst (λ x. src.Free s.frames x) (sym e) granted.was_free)

  grown_keeps : (f : PhysAddr) (w : Place) → rank f ≡ some w → grown rank g (l, i ∷ path) f ≡ some w
  grown_keeps f w r = rw (==_of_ne f g (unranked f w r)) r

  grown_cases :
      (f : PhysAddr) (w : Place)
      → grown rank g (l, i ∷ path) f ≡ some w
      → ((f ≡ g) × (◌≡◌ {A = Place} (l, i ∷ path) w)) ⊎ ((f ≢ g) × (rank f ≡ some w))
  grown_cases f w r = elim (Bool-cases (f == g)) [
    | inl e ↦ inl ((==_iff f g).0 e, ground arith)
    | inr e ↦ inr (ground arith, ground arith)
  ]

  abbrev after : State src
  after = hung src t i l down (tree.is_frame t.frame (t.level, path) ranked) h s a m g

  grown_is_frame :
      (f : PhysAddr) (w : Place) → grown rank g (l, i ∷ path) f ≡ some w → IsTableFrame f
  grown_is_frame f w r = elim (grown_cases f w r) [
    | inl (e, _) ↦ subst IsTableFrame (sym e) granted.is_frame
    | inr (_, r') ↦ tree.is_frame f w r'
  ]

  grown_held : (f : PhysAddr) (w : Place) → grown rank g (l, i ∷ path) f ≡ some w → ¬ (src.Free a f)
  grown_held f w r free = elim (grown_cases f w r) [
    | inl (e, _) ↦ granted.taken (subst (λ x. src.Free a x) e free)
    | inr (_, r') ↦ tree.held f w r' (granted.shrinks f free)
  ]

  grown_word :
      (f : PhysAddr) (w : Place) (j : ℕ)
      → grown rank g (l, i ∷ path) f ≡ some w
      → j < page_entries
      → after.memory (slot f j) < 2 ^ 64
  grown_word f w j r hj = elim (grown_cases f w r) [
    | inl (e, _) ↦
        ground (arith, hung_lem f j (grown_is_frame f w r) hj, (table_entry g granted.is_frame).2)
    | inr (ne, r') ↦ ground (
      arith,
      hung_lem f j (grown_is_frame f w r) hj,
      (table_entry g granted.is_frame).2,
      tree.word f w j r' hj,
    )
  ]

  grown_descends :
      (f : PhysAddr) (l0 l' : Level) (p : List ℕ) (j : ℕ)
      → grown rank g (l, i ∷ path) f ≡ some (l0, p)
      → j < page_entries
      → next_down l0 ≡ some l'
      → is_table (after.memory (slot f j)) ≡ true
      → grown rank g (l, i ∷ path) (frame_of (after.memory (slot f j))) ≡ some (l', j ∷ p)
  grown_descends f l0 l' p j r hj dn tab = elim (Bool-cases (f == t.frame && j == i)) [
    | inl new ↦ ground (
      arith,
      hung_lem f j (grown_is_frame f (l0, p) r) hj,
      table_entry g granted.is_frame,
      unranked t.frame (t.level, path) ranked,
      ranks_agree new,
      ap next_down (ranks_agree new).0,
    )
    | inr old ↦ elim (grown_cases f (l0, p) r) [
      | inl (e, _) ↦ ground (arith, hung_lem f j (grown_is_frame f (l0, p) r) hj, is_table-zero)
      | inr (ne, r') ↦ ground (
        arith,
        hung_lem f j (grown_is_frame f (l0, p) r) hj,
        tree.descends f l0 l' p j r' hj dn,
        grown_keeps (frame_of (s.memory (slot f j))) (l', j ∷ p),
      )
    ]
  ]
    where
      ranks_agree : (f == t.frame && j == i) ≡ true → (t.level ≡ l0) × (path ≡ p)
      ranks_agree new = ground (arith, unranked t.frame (t.level, path) ranked, ranked, r)

  pub grown-IsTree : IsTree src (grown rank g (l, i ∷ path)) after
  grown-IsTree = record {
    valid = granted.valid;
    is_frame = grown_is_frame;
    held = grown_held;
    word = grown_word;
    descends = grown_descends;
  }

  pub grown-Extends :
      is_table (s.memory (slot t.frame i)) ≡ false
      → t.level ≢ level1
      → Extends src rank (grown rank g (l, i ∷ path)) s after
  grown-Extends tab inner = record {
    keeps = grown_keeps;
    tables = λ f w j r hj e. ground (arith, hung_lem f j (tree.is_frame f w r) hj, unranked f w r);
    leaves = λ f p j r hj.
        ground (
          arith,
          hung_lem f j (tree.is_frame f (level1, p) r) hj,
          unranked f (level1, p) r,
          ranked,
        );
  }

  pub grown_slot : after.memory (slot t.frame i) ≡ entry_new g new_table
  grown_slot = ground (arith, hung_lem t.frame i (tree.is_frame t.frame (t.level, path) ranked) h)
