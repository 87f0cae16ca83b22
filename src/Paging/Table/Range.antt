-- ===== src/Paging/Table/Range.antt =====
-- `kernel_map_range` and `kernel_remap_range` of crates/kernel/src/mem/paging/table.rs. The loops
-- take fuel, and `none` says that it ran out.
use kados_ng.Base.{
  ℕ, suc, zero, ◌+◌, ◌-◌, ◌*◌, ◌/◌, ◌%◌, ◌^◌, ◌≤◌, ◌<◌, ◌≡◌, ◌≢◌, ◌⊎◌, refl, arith, inl, inr,
}
use kados_ng.Base.{
  List, [], ◌∷◌, Option, none, some, ◌==◌, if◌then◌else◌, ℕ-cases, ==_iff, ==_of_ne,
}
use kados_ng.Mem.Outcome.{Outcome, ok, err, panic}
use kados_ng.Mem.Canonical.{canonicalize_virtaddr-eq_iff, canonicalize_physaddr-eq-mod}
use kados_ng.Arch.{wrapping_add}
use kados_ng.Mem.PhysAddr
use kados_ng.Mem.PhysAddr.{PhysAddr}
use kados_ng.Mem.VirtAddr
use kados_ng.Mem.VirtAddr.{VirtAddr}
use kados_ng.Paging.BlockSize.{
  BlockSize, size, page4_kib, block2_mib, block1_gib, largest_aligned, Fits, largest_aligned-Fits,
}
use kados_ng.Paging.Flags.{PageFlags}
use kados_ng.Paging.Monad.{M, bind, ◌>>=◌, pure}
use kados_ng.Paging.FrameSource.{FrameSource}
use kados_ng.Paging.Table.{PageTable, PageFlush, State, map_to, remap_to}

-- A page, the frame it is mapped to, and how much of both.
abbrev pub Block : Type 0
Block = VirtAddr × PhysAddr × BlockSize

-- Blocks that lie one after the other, fit, and fill the range.
abbrev pub Tiles : List Block → VirtAddr → PhysAddr → ℕ → Type 0
Tiles [] page frame bytes = bytes ≡ 0
Tiles ((p, f, b) ∷ rest) page frame bytes =
    (p ≡ page)
    × (f ≡ frame)
    × Fits page frame bytes b
    × Tiles rest (page + size b) (frame + size b) (bytes - size b)

-- A range of whole pages that stays in one half of virtual memory.
abbrev pub IsRange : VirtAddr → PhysAddr → ℕ → Type 0
IsRange page frame bytes =
    (page % 4096 ≡ 0)
    × (frame % 4096 ≡ 0)
    × (bytes % 4096 ≡ 0)
    × ((page + bytes < 2 ^ 47) ⊎ ((2 ^ 64 - 2 ^ 47 ≤ page) × (page + bytes < 2 ^ 64)))
    × (frame + bytes < 2 ^ 52)

module _ (src : FrameSource)
    (map_block : PageTable → VirtAddr → PhysAddr → BlockSize → PageFlags → M (State src) PageFlush)
    (t : PageTable) (fl : PageFlags) where
  abbrev pub range_loop : ℕ → VirtAddr → PhysAddr → ℕ → M (State src) (Option (Unit {0}))
  range_loop zero page frame bytes = if bytes == 0 then pure (some tt) else pure none
  range_loop (suc n) page frame bytes =
      let b = largest_aligned page frame bytes in
      let rest =
        range_loop n (VirtAddr.add_bytes page (size b)) (PhysAddr.add_bytes frame (size b))
          (bytes - size b) in
      if bytes == 0 then pure (some tt) else (map_block t page frame b fl >>= λ _. rest)

  -- The blocks of a list, mapped in turn up to the first error.
  abbrev pub map_blocks : List Block → M (State src) (Option (Unit {0}))
  map_blocks [] = pure (some tt)
  map_blocks ((p, f, b) ∷ rest) = map_block t p f b fl >>= λ _. map_blocks rest

  bind_same :
      {A B : Type 0} (r : Outcome A × State src) (f g : A → M (State src) B)
      → ((a : A) (s : State src) → f a s ≡ g a s)
      → bind r f ≡ bind r g
  bind_same (ok a, s) f g h = h a s
  bind_same (err e, s) f g h = refl
  bind_same (panic, s) f g h = refl

  block_bytes : (b : BlockSize) → (size b % 4096 ≡ 0) × (4096 ≤ size b)
  block_bytes page4_kib = (refl, omega arith)
  block_bytes block2_mib = (refl, omega arith)
  block_bytes block1_gib = (refl, omega arith)

  next_page :
      (page frame bytes n : ℕ)
      → IsRange page frame bytes
      → n ≤ bytes
      → (VirtAddr.add_bytes page n ≡ page + n) × (PhysAddr.add_bytes frame n ≡ frame + n)
  next_page page frame bytes n r h = (
    ground (arith, r, h, canonicalize_virtaddr-eq_iff (page + n)),
    ground (arith, r, h, canonicalize_physaddr-eq-mod (wrapping_add frame n)),
  )

  Tiled : ℕ → VirtAddr → PhysAddr → ℕ → Type 0
  Tiled n page frame bytes =
      (bs : List Block) × Tiles bs page frame bytes
      × ((s : State src) → range_loop n page frame bytes s ≡ map_blocks bs s)

  no_bytes :
      (n : ℕ) (page : VirtAddr) (frame : PhysAddr) (bytes : ℕ)
      → bytes ≡ 0
      → Tiled n page frame bytes
  unfolding Tiled
  no_bytes zero page frame bytes e = ([], e, λ s. rw ((==_iff bytes 0).1 e) refl)
  no_bytes (suc n) page frame bytes e = ([], e, λ s. rw ((==_iff bytes 0).1 e) refl)

  -- One round, before which there are bytes left.
  one_block :
      (n : ℕ) (page : VirtAddr) (frame : PhysAddr) (bytes : ℕ)
      → IsRange page frame bytes
      → bytes ≢ 0
      → Fits page frame bytes (largest_aligned page frame bytes)
      → Tiled n
          (page + size (largest_aligned page frame bytes))
          (frame + size (largest_aligned page frame bytes))
          (bytes - size (largest_aligned page frame bytes))
      → Tiled (suc n) page frame bytes
  unfolding Tiled
  one_block n page frame bytes r ne fits (bs, tiles, same) =
      ((page, frame, largest_aligned page frame bytes) ∷ bs, (refl, refl, fits, tiles), round)
    where
      round :
          (s : State src)
          → range_loop (suc n) page frame bytes s
            ≡ map_blocks ((page, frame, largest_aligned page frame bytes) ∷ bs) s
      round s =
          rw
            (
              ==_of_ne bytes 0 ne,
              (next_page page frame bytes (size (largest_aligned page frame bytes)) r fits.2).0,
              (next_page page frame bytes (size (largest_aligned page frame bytes)) r fits.2).1,
            )
            (bind_same (map_block t page frame (largest_aligned page frame bytes) fl s) _ _
              (λ u s'. same s'))

  rest_IsRange :
      (page frame bytes n : ℕ)
      → IsRange page frame bytes
      → n % 4096 ≡ 0
      → n ≤ bytes
      → IsRange (page + n) (frame + n) (bytes - n)
  rest_IsRange page frame bytes n r w h =
      (omega (arith, r), omega (arith, r), omega (arith, r), omega (arith, r), omega (arith, r))

  pub range_loop-Tiles :
      (n : ℕ) (page : VirtAddr) (frame : PhysAddr) (bytes : ℕ)
      → IsRange page frame bytes
      → bytes ≤ n * 4096
      → (bs : List Block) × Tiles bs page frame bytes
        × ((s : State src) → range_loop n page frame bytes s ≡ map_blocks bs s)
  unfolding Tiled
  range_loop-Tiles zero page frame bytes r h = no_bytes zero page frame bytes (omega arith)
  range_loop-Tiles (suc n) page frame bytes r h = elim (ℕ-cases bytes 0) [
    | inl e ↦ no_bytes (suc n) page frame bytes e
    | inr ne ↦
        let fits = (largest_aligned-Fits page frame bytes (r.0, r.1, omega (arith, r.2))).0 in
        one_block n page frame bytes r ne fits (
          range_loop-Tiles n (page + size (largest_aligned page frame bytes))
            (frame + size (largest_aligned page frame bytes))
            (bytes - size (largest_aligned page frame bytes))
            (rest_IsRange page frame bytes _ r (block_bytes (largest_aligned page frame bytes)).0
              fits.2)
            (omega (arith, block_bytes (largest_aligned page frame bytes))))
  ]

module _ (src : FrameSource) where
  pub kernel_map_range :
      ℕ → PageTable → VirtAddr → PhysAddr → ℕ → PageFlags → M (State src) (Option (Unit {0}))
  kernel_map_range n t page frame bytes fl = range_loop src (map_to src) t fl n page frame bytes

  pub kernel_remap_range :
      ℕ → PageTable → VirtAddr → PhysAddr → ℕ → PageFlags → M (State src) (Option (Unit {0}))
  kernel_remap_range n t page frame bytes fl = range_loop src (remap_to src) t fl n page frame bytes

  -- The loop is a run of `map_block` over blocks that tile the range.
  abbrev pub RunsOver :
      (PageTable → VirtAddr → PhysAddr → BlockSize → PageFlags → M (State src) PageFlush)
      → PageTable
      → PageFlags
      → VirtAddr
      → PhysAddr
      → ℕ
      → M (State src) (Option (Unit {0}))
      → Type 0
  RunsOver map_block t fl page frame bytes loop =
      (bs : List Block) × Tiles bs page frame bytes
      × ((s : State src) → loop s ≡ map_blocks src map_block t fl bs s)

  -- For a range of whole pages that stays in one half of virtual memory, and in 52 bits of physical
  -- memory, as many rounds as the range has pages of 4 KiB are enough for `kernel_map_range` and
  -- `kernel_remap_range`: each is a run of `map_to` or `remap_to`, up to the first error, over
  -- blocks that fit where they lie, follow one another and fill the range exactly.
  pub kernel_map_range-Tiles :
      (t : PageTable) (fl : PageFlags) (page : VirtAddr) (frame : PhysAddr) (bytes : ℕ)
      → IsRange page frame bytes
      → RunsOver
          (map_to src)
          t
          fl
          page
          frame
          bytes
          (kernel_map_range (bytes / 4096) t page frame bytes fl)
        × RunsOver
            (remap_to src)
            t
            fl
            page
            frame
            bytes
            (kernel_remap_range (bytes / 4096) t page frame bytes fl)
  unfolding kernel_map_range kernel_remap_range
  kernel_map_range-Tiles t fl page frame bytes r = (
    range_loop-Tiles src (map_to src) t fl (bytes / 4096) page frame bytes r (omega (arith, r)),
    range_loop-Tiles src (remap_to src) t fl (bytes / 4096) page frame bytes r (omega (arith, r)),
  )
