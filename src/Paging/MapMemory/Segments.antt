-- ===== src/Paging/MapMemory/Segments.antt =====
-- The mapping of the kernel's own frames by `map_memory` (crates/kernel/src/mem/paging/mod.rs).
use kados_ng.Base.{
  ℕ, zero, suc, ◌+◌, ◌*◌, ◌%◌, ◌^◌, ◌<◌, ◌≤◌, ◌≡◌, ◌≢◌, inl, inr, refl, sym, ap, ◌∙◌, arith, Bool,
  true, false, ◌&&◌, Bool-cases, ℕ-cases, List, [], ◌∷◌, All,
}
use kados_ng.Arch.{hhdm_physical_offset, wrapping_add, wrapping_mul}
use kados_ng.Mem.Outcome.{Outcome, ok, err, panic, unwrap}
use kados_ng.Mem.VirtAddr.{VirtAddr}
use kados_ng.Mem.Canonical.{
  IsCanonicalVirt, canonicalize_virtaddr-eq_iff, canonicalize_physaddr-eq-mod,
}
use kados_ng.Mem.Hhdm.{as_hhdm_virt, as_hhdm_virt-eq-add}
use kados_ng.Paging.Level.{
  Level, level1, level2, level3, level4, page_table_index, page_table_index_injective,
}
use kados_ng.Paging.BlockSize.{page4_kib}
use kados_ng.Paging.Flags.{
  new_for_text_segment, new_for_rodata_segment, new_for_data_segment, is_writable, is_executable,
  executable, writable, with_flag,
}
use kados_ng.Paging.Entry.{IsPage, IsFlags}
use kados_ng.Paging.Monad.{M, bind, pure, Ensures}
use kados_ng.Paging.FrameSource.{FrameSource}
use kados_ng.Paging.Table.{PageTable, PageFlush, State, map_to}
use kados_ng.Paging.Table.Sequence.{
  Request, IsRequest, Apart, AllApart, Refusal, map_pages, Grows, Finds, map_pages-Finds,
}
use kados_ng.Paging.MapMemory.{
  KernelLayout, kernel_offset, kernel_phys, kernel_virt, segment_flags, within, unwrapped,
  map_frame, map_kernel,
}

-- In a release build, no page of the kernel can be both written and executed, whatever the
-- addresses of its segments are.
pub segment_flags-safe :
    (k : KernelLayout) (virt : VirtAddr)
    → (is_writable (segment_flags false k virt) && is_executable (segment_flags false k virt))
      ≡ false
unfolding segment_flags new_for_text_segment new_for_rodata_segment new_for_data_segment is_writable
    is_executable executable writable with_flag
segment_flags-safe k virt = elim (Bool-cases (within k.text_start k.text_end virt)) [
  | inl text ↦ rw text refl
  | inr other ↦ elim (Bool-cases (within k.rodata_start k.rodata_end virt)) [
    | inl rodata ↦ rw (other, rodata) refl
    | inr data_segment ↦ rw (other, data_segment) refl
  ]
]

segment_flags-IsFlags :
    (debug : Bool) (k : KernelLayout) (virt : VirtAddr) → IsFlags (segment_flags debug k virt)
unfolding segment_flags new_for_text_segment new_for_rodata_segment new_for_data_segment executable
    writable with_flag
segment_flags-IsFlags debug k virt = elim (Bool-cases (within k.text_start k.text_end virt)) [
  | inl text ↦ rw text (text_flags debug)
  | inr other ↦ elim (Bool-cases (within k.rodata_start k.rodata_end virt)) [
    | inl rodata ↦ rw (other, rodata) (omega arith, refl)
    | inr data_segment ↦ rw (other, data_segment) (omega arith, refl)
  ]
]
  where
    text_flags : (debug : Bool) → IsFlags (new_for_text_segment debug)
    text_flags true = (omega arith, refl)
    text_flags false = (omega arith, refl)

-- The requests for `n` frames from `i` on: each in the kernel's segment and in the direct map.
abbrev pub kernel_pages : Bool → KernelLayout → ℕ → ℕ → List Request
kernel_pages debug k i zero = []
kernel_pages debug k i (suc n) =
    let fl = segment_flags debug k (kernel_virt i) in
    (kernel_virt i, kernel_phys k i, fl)
    ∷ (as_hhdm_virt (kernel_phys k i), kernel_phys k i, fl)
    ∷ kernel_pages debug k (i + 1) n

-- The kernel's frames lie in low memory and its segment in the last 2 GiB.
pub record IsLayout (k : KernelLayout) (n : ℕ) : Type 0 where
  pub page : k.phys_start % 4096 ≡ 0
  pub low : k.phys_start + n * 4096 ≤ 0x7fff_0000_0000
  pub room : n * 4096 ≤ 0x8000_0000

-- A multiple of the page size that is canonical.
abbrev IsPageAddress : VirtAddr → Type 0
IsPageAddress a = (a % 4096 ≡ 0) × (a < 2 ^ 64) × IsCanonicalVirt a

apart_pages :
    (a b : VirtAddr)
    → IsPageAddress a
    → IsPageAddress b
    → a ≢ b
    → (l : Level) × (page_table_index a l ≢ page_table_index b l)
apart_pages a b (ma, la, ca) (mb, lb, cb) ne =
    at level4
      (λ e4. at level3 (λ e3. at level2 (λ e2. at level1 (λ e1. absurd (ne (same e4 e3 e2 e1))))))
  where
    at :
        (l : Level)
        → (page_table_index a l ≡ page_table_index b l
            → (m : Level) × (page_table_index a m ≢ page_table_index b m))
        → (m : Level) × (page_table_index a m ≢ page_table_index b m)
    at l k = elim (ℕ-cases (page_table_index a l) (page_table_index b l)) [
      | inl e ↦ k e
      | inr d ↦ (l, d)
    ]

    same :
        page_table_index a level4 ≡ page_table_index b level4
        → page_table_index a level3 ≡ page_table_index b level3
        → page_table_index a level2 ≡ page_table_index b level2
        → page_table_index a level1 ≡ page_table_index b level1
        → a ≡ b
    same e4 e3 e2 e1 = omega (
      arith,
      page_table_index_injective a b la lb ca cb (λ l.
          elim l as (λ l. page_table_index a l ≡ page_table_index b l) [
            | level1 ↦ e1
            | level2 ↦ e2
            | level3 ↦ e3
            | level4 ↦ e4
          ]),
    )

module _ (k : KernelLayout) (n : ℕ) (l : IsLayout k n) where
  kernel_phys-eq : (i : ℕ) → i < n → kernel_phys k i ≡ k.phys_start + i * 4096
  kernel_phys-eq i h =
      ground
        (arith, l, canonicalize_physaddr-eq-mod (wrapping_add k.phys_start (wrapping_mul i 4096)))

  kernel_virt-eq : (i : ℕ) → i < n → kernel_virt i ≡ kernel_offset + i * 4096
  kernel_virt-eq i h = ground (arith, l, canonicalize_virtaddr-eq_iff (kernel_offset + i * 4096))

  hhdm-eq :
      (i : ℕ)
      → i < n
      → as_hhdm_virt (kernel_phys k i) ≡ k.phys_start + i * 4096 + hhdm_physical_offset
  hhdm-eq i h =
      ap as_hhdm_virt (kernel_phys-eq i h)
      ∙ as_hhdm_virt-eq-add (k.phys_start + i * 4096) (omega (arith, l.low))

  virt-IsPageAddress : (i : ℕ) → i < n → IsPageAddress (kernel_virt i)
  virt-IsPageAddress i h =
      rw (kernel_virt-eq i h) (omega arith, omega (arith, l.room), inr (omega arith))

  hhdm-IsPageAddress : (i : ℕ) → i < n → IsPageAddress (as_hhdm_virt (kernel_phys k i))
  hhdm-IsPageAddress i h =
      rw (hhdm-eq i h) (omega (arith, l.page), omega (arith, l.low), inr (omega arith))

  -- A page that differs from those of the frames from `i` on is apart from them.
  away_from :
      (debug : Bool) (x : Request) (i m : ℕ)
      → i + m ≤ n
      → IsPageAddress x.0
      → ((j : ℕ) → i ≤ j → j < n → (x.0 ≢ kernel_virt j) × (x.0 ≢ as_hhdm_virt (kernel_phys k j)))
      → All (Apart x) (kernel_pages debug k i m)
  away_from debug x i zero h a d = tt
  away_from debug x i (suc m) h a d = (
    apart_pages x.0 (kernel_virt i) a (virt-IsPageAddress i (omega arith))
        (d i (omega arith) (omega arith)).0,
    (
      apart_pages x.0 (as_hhdm_virt (kernel_phys k i)) a (hhdm-IsPageAddress i (omega arith))
          (d i (omega arith) (omega arith)).1,
      away_from debug x (i + 1) m (omega arith) a (λ j b c. d j (omega arith) c),
    ),
  )

  kernel_pages-AllApart : (debug : Bool) (i m : ℕ) → i + m ≤ n → AllApart (kernel_pages debug k i m)
  kernel_pages-AllApart debug i zero h = tt
  kernel_pages-AllApart debug i (suc m) h = (
    (
      apart_pages (kernel_virt i) (as_hhdm_virt (kernel_phys k i))
          (virt-IsPageAddress i (omega arith)) (hhdm-IsPageAddress i (omega arith))
          (λ e. omega (arith, e, kernel_virt-eq i (omega arith), hhdm-eq i (omega arith), l.low)),
      away_from debug (kernel_virt i, kernel_phys k i, 0) (i + 1) m (omega arith)
          (virt-IsPageAddress i (omega arith))
          (λ j b c. (
            λ e. omega (arith, e, kernel_virt-eq i (omega arith), kernel_virt-eq j c),
            λ e. omega (arith, e, kernel_virt-eq i (omega arith), hhdm-eq j c, l.low),
          )),
    ),
    (
      away_from debug (as_hhdm_virt (kernel_phys k i), kernel_phys k i, 0) (i + 1) m (omega arith)
          (hhdm-IsPageAddress i (omega arith))
          (λ j b c. (
            λ e. omega (arith, e, hhdm-eq i (omega arith), kernel_virt-eq j c, l.low),
            λ e. omega (arith, e, hhdm-eq i (omega arith), hhdm-eq j c),
          )),
      kernel_pages-AllApart debug (i + 1) m (omega arith),
    ),
  )

  phys-IsPage : (i : ℕ) → i < n → IsPage (kernel_phys k i)
  phys-IsPage i h = rw (kernel_phys-eq i h) (omega (arith, l.page), omega (arith, l.low))

  kernel_pages-IsRequest :
      (debug : Bool) (i m : ℕ) → i + m ≤ n → All IsRequest (kernel_pages debug k i m)
  kernel_pages-IsRequest debug i zero h = tt
  kernel_pages-IsRequest debug i (suc m) h = (
    (phys-IsPage i (omega arith), segment_flags-IsFlags debug k (kernel_virt i)),
    (
      (phys-IsPage i (omega arith), segment_flags-IsFlags debug k (kernel_virt i)),
      kernel_pages-IsRequest debug (i + 1) m (omega arith),
    ),
  )

abbrev pub unwrap_first : {S A : Type 0} → Outcome A × S → Outcome A × S
unwrap_first (o, s) = (unwrap o, s)

unwrap_bind :
    {S A B : Type 0} (r : Outcome A × S) (f g : A → M S B)
    → ((a : A) (s : S) → unwrapped (f a) s ≡ g a s)
    → unwrap_first (bind r f) ≡ bind (unwrap_first r) g
unwrap_bind (ok a, s) f g h = h a s
unwrap_bind (err e, s) f g h = refl
unwrap_bind (panic, s) f g h = refl

two_steps :
    {S A B : Type 0} (r : Outcome A × S) (m : M S B) (rest : M S (Unit {0}))
    → bind (bind r (λ a s. bind (m s) (λ b. pure tt))) (λ u. rest)
      ≡ bind r (λ a s. bind (m s) (λ b. rest))
two_steps {S} {A} {B} (ok a, s) m rest = last (m s)
  where
    last : (q : Outcome B × S) → bind (bind q (λ b. pure tt)) (λ u. rest) ≡ bind q (λ b. rest)
    last (ok b, t) = refl
    last (err e, t) = refl
    last (panic, t) = refl
two_steps (err e, s) m rest = refl
two_steps (panic, s) m rest = refl

module _ (src : FrameSource) (debug : Bool) (k : KernelLayout) (t : PageTable)
    (top : t.level ≡ level4) where
  map_kernel-eq :
      (n i : ℕ) (s : State src)
      → unwrap_first (map_pages src t top (kernel_pages debug k i n) s)
        ≡ map_kernel src debug k t i n s
  unfolding map_kernel map_frame map_pages
  map_kernel-eq zero i s = refl
  map_kernel-eq (suc n) i s =
      let fl = segment_flags debug k (kernel_virt i) in
      let first : M (State src) PageFlush =
        map_to src t (kernel_virt i) (kernel_phys k i) page4_kib fl in
      let second : M (State src) PageFlush =
        map_to src t (as_hhdm_virt (kernel_phys k i)) (kernel_phys k i) page4_kib fl in
      unwrap_bind (first s) _
        (λ u s'. bind (unwrapped second s') (λ v. map_kernel src debug k t (i + 1) n))
        (λ u s'.
          unwrap_bind (second s') _ (λ v. map_kernel src debug k t (i + 1) n)
            (λ v s''. map_kernel-eq n (i + 1) s''))
      ∙ sym (two_steps (unwrapped first s) (unwrapped second) (map_kernel src debug k t (i + 1) n))

  -- On a well-formed tree of page tables, for a kernel of `n` frames that begins at a page in low
  -- memory and fits the last 2 GiB of virtual memory, the loop of `map_memory` over its frames does
  -- what `map_to` does for these pages in order, each frame at its address in the kernel's segment
  -- and then in the direct map, with the flags of its segment, and panics where one of these
  -- mappings fails. The mappings end in one of two ways: `translate` finds every page with its
  -- frame and flags; or one is refused, because memory has run out or because its page has an
  -- entry.
  pub map_kernel-Finds :
      (n : ℕ) (s : State src)
      → IsLayout k n
      → Grows src t top s
      → (map_kernel src debug k t 0 n s
          ≡ unwrap_first (map_pages src t top (kernel_pages debug k 0 n) s))
        × Ensures
            (λ u s'. Grows src t top s' × All (Finds src t top s') (kernel_pages debug k 0 n))
            (λ e s'. Refusal e)
            (map_pages src t top (kernel_pages debug k 0 n) s)
  map_kernel-Finds n s l g =
      let rs = kernel_pages debug k 0 n in
      (
        sym (map_kernel-eq n 0 s),
        map_pages-Finds src t top rs s (kernel_pages-IsRequest k n l debug 0 n (omega arith))
            (kernel_pages-AllApart k n l debug 0 n (omega arith)) g,
      )
