-- ===== src/Paging/Table/Sequence.antt =====
-- Several calls of `map_to` with 4 KiB pages, one after the other (crates/kernel/src/mem/paging/table.rs).
use kados_ng.Base.{◌≡◌, ◌≢◌, ◌⊎◌, inl, inr, List, [], ◌∷◌, some, All, false}
use kados_ng.Mem.Outcome.{ok, MemError}
use kados_ng.Mem.PhysAddr.{PhysAddr}
use kados_ng.Mem.VirtAddr.{VirtAddr}
use kados_ng.Paging.Level.{Level, level4, page_table_index}
use kados_ng.Paging.BlockSize.{page4_kib}
use kados_ng.Paging.Flags.{PageFlags}
use kados_ng.Paging.Entry.{PageTableEntry, entry_new, IsPage, IsFlags}
use kados_ng.Paging.Monad.{M, ◌>>=◌, pure, Ensures, Ensures-map, bind-Ensures}
use kados_ng.Paging.FrameSource.{FrameSource}
use kados_ng.Paging.Table.{PageTable, State, map_to, translate}
use kados_ng.Paging.Table.Invariant.{Ranks, IsTree}
use kados_ng.Paging.Table.Mapping.{map_to_4kib-Ensures, found, other, IsMapped, HasFailed}

-- A page, its frame and its flags.
abbrev pub Request : Type 0
Request = VirtAddr × PhysAddr × PageFlags

abbrev pub IsRequest : Request → Type 0
IsRequest (page, frame, fl) = IsPage frame × IsFlags fl

-- The two pages have different indices at some level.
abbrev pub Apart : Request → Request → Type 0
Apart a b = (l : Level) × (page_table_index a.0 l ≢ page_table_index b.0 l)

-- Each request is apart from those that come after it.
abbrev pub AllApart : List Request → Type 0
AllApart [] = Unit
AllApart (r ∷ rs) = All (Apart r) rs × AllApart rs

-- Why a mapping can fail: memory has run out, or a page has an entry.
abbrev pub Refusal : MemError → Type 0
Refusal e =
    (e ≡ MemError.out_of_memory)
    ⊎ ((page : VirtAddr) × (old : PageTableEntry) × (old ≢ 0)
        × (e ≡ MemError.page_already_mapped page old))

module _ (src : FrameSource) (root : PageTable) (top : root.level ≡ level4) where
  unfoldable pub map_pages : List Request → M (State src) (Unit {0})
  map_pages [] = pure tt
  map_pages ((page, frame, fl) ∷ rs) = map_to src root page frame page4_kib fl >>= λ _. map_pages rs

  -- The tables form a tree under the root.
  abbrev pub Grows : State src → Type 0
  Grows s = (rank : Ranks) × IsTree src rank s × (rank root.frame ≡ some (level4, []))

  -- `translate` finds the entry that was asked for.
  abbrev pub Finds : State src → Request → Type 0
  Finds s (page, frame, fl) = translate src root page s ≡ (ok (entry_new frame fl), s)

  abbrev pub Kept : Request → State src → State src → Type 0
  Kept r s s' = (q : Request) → Apart q r → Finds s q → Finds s' q

  one :
      (r : Request) (s : State src)
      → IsRequest r
      → Grows s
      → Ensures
          (λ u s'. Grows s' × Finds s' r × Kept r s s')
          (λ e s'. Refusal e)
          (map_to src root r.0 r.1 page4_kib r.2 s)
  unfolding map_to
  one (page, frame, fl) s (hf, hfl) (rank, tree, ranked) =
      Ensures-map (IsMapped src rank s tree root top ranked page frame fl hf hfl false) _
        (HasFailed src rank s tree root top ranked page frame fl hf hfl false) _ _
        (map_to_4kib-Ensures src rank s tree root top ranked page frame fl hf hfl false)
        (λ u s' m. (
          (m.rank', m.tree, m.keeps root.frame (level4, []) ranked),
          found src rank s tree root top ranked page frame fl hf hfl false u s' m,
          λ q apart before.
              other src rank s tree root top ranked page frame fl hf hfl false u s' s q.0
                (entry_new q.1 q.2) apart.0 apart.1 before m,
        ))
        (λ e s' f. why page e f.why)
    where
      why :
          (page : VirtAddr) (e : MemError)
          → (e ≡ MemError.out_of_memory)
            ⊎ ((old : PageTableEntry) × (false ≡ false)
                × (old ≢ 0)
                × (e ≡ MemError.page_already_mapped page old))
          → Refusal e
      why page e (inl p) = inl p
      why page e (inr (old, _, n, p)) = inr (page, old, n, p)

  carried :
      (r : Request) (s s' : State src) (old : List Request)
      → Kept r s s'
      → All (λ q. Apart q r) old
      → All (Finds s) old
      → All (Finds s') old
  carried r s s' [] k a f = tt
  carried r s s' (q ∷ old) k (a, rest) (f, fs) = (k q a f, carried r s s' old k rest fs)

  with_next :
      (r : Request) (rs old : List Request)
      → All (λ q. All (Apart q) (r ∷ rs)) old
      → All (Apart r) rs
      → All (λ q. All (Apart q) rs) (r ∷ old)
  with_next r rs old a b = (b, later old a)
    where
      later :
          (old : List Request)
          → All (λ q. All (Apart q) (r ∷ rs)) old
          → All (λ q. All (Apart q) rs) old
      later [] a = tt
      later (q ∷ old) (a, rest) = (a.1, later old rest)

  before_next :
      (r : Request) (rs old : List Request)
      → All (λ q. All (Apart q) (r ∷ rs)) old
      → All (λ q. Apart q r) old
  before_next r rs [] a = tt
  before_next r rs (q ∷ old) (a, rest) = (a.0, before_next r rs old rest)

  -- What `map_pages` leaves: the requests of before and all that were made are found.
  abbrev Done : List Request → List Request → Unit {0} → State src → Type 0
  Done old rs u s' = Grows s' × All (Finds s') old × All (Finds s') rs

  map_pages-Done :
      (rs old : List Request) (s : State src)
      → All IsRequest rs
      → AllApart rs
      → All (λ q. All (Apart q) rs) old
      → Grows s
      → All (Finds s) old
      → Ensures (Done old rs) (λ e s'. Refusal e) (map_pages rs s)
  unfolding map_pages
  map_pages-Done [] old s v a o g f = (g, f, tt)
  map_pages-Done (r ∷ rs) old s (v, vs) (a, rest) o g f =
      bind-Ensures (λ u s'. Grows s' × Finds s' r × Kept r s s') (Done old (r ∷ rs))
        (λ e s'. Refusal e) (map_to src root r.0 r.1 page4_kib r.2 s) _ (one r s v g)
        (λ u s' d.
          Ensures-map (Done (r ∷ old) rs) (Done old (r ∷ rs)) (λ e t. Refusal e) (λ e t. Refusal e)
            _
            (map_pages-Done rs (r ∷ old) s' vs rest (with_next r rs old o a) d.0
              (d.1, carried r s s' old d.2 (before_next r rs old o) f))
            (λ w t x. (x.0, x.1.1, (x.1.0, x.2))) (λ e t x. x))

  -- Mapping pages that are apart from one another, on a well-formed tree, ends in one of two ways:
  -- all of them are found by `translate` at their frames and with their flags; or a mapping is
  -- refused, because memory has run out or because its page has an entry.
  pub map_pages-Finds :
      (rs : List Request) (s : State src)
      → All IsRequest rs
      → AllApart rs
      → Grows s
      → Ensures (λ u s'. Grows s' × All (Finds s') rs) (λ e s'. Refusal e) (map_pages rs s)
  map_pages-Finds rs s v a g =
      Ensures-map (Done [] rs) (λ u s'. Grows s' × All (Finds s') rs) (λ e t. Refusal e)
        (λ e t. Refusal e) _ (map_pages-Done rs [] s v a tt g tt) (λ w t x. (x.0, x.2)) (λ e t x. x)
