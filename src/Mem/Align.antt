-- ===== src/Mem/Align.antt =====
-- Alignment of addresses: the tests, the rounding, and what an access checks first.
use native.Mathlib.Nat.{one-le-pow, div-add-mod, div-add-mod', mod-lt, mul-mod_left}
use kados_ng.Base.{ℕ, ◌+◌, ◌-◌, ◌*◌, ◌/◌, ◌%◌, ◌^◌, ◌≤◌, ◌<◌, ◌≡◌, ◌≢◌, ◌↔◌, ◌==◌, arith}
use kados_ng.Arch.{wrapping_sub}
use kados_ng.Bits.{bit_and_mask}
use kados_ng.Mem.Outcome.{Outcome, ok}
use kados_ng.Mem.Canonical.{
  IsCanonicalVirt, canonicalize_virtaddr-eq_iff, canonicalize_physaddr-eq-mod,
}
use kados_ng.Mem.PhysAddr
use kados_ng.Mem.PhysAddr.{PhysAddr}
use kados_ng.Mem.VirtAddr
use kados_ng.Mem.VirtAddr.{VirtAddr}

mask_of_align : (k : ℕ) → 2 ^ k < 2 ^ 64 → wrapping_sub (2 ^ k) 1 ≡ 2 ^ k - 1
mask_of_align k h = omega (arith, one-le-pow k 2)

-- The test by the remainder and the test by the mask agree at every power of two.
pub is_aligned_pow :
    (addr k : ℕ) → 2 ^ k < 2 ^ 64 → VirtAddr.is_aligned addr (2 ^ k) ≡ (addr % 2 ^ k == 0)
unfolding VirtAddr.is_aligned
is_aligned_pow addr k h = rw (mask_of_align k h, bit_and_mask k addr) (ground arith)

pub is_aligned_phys_pow :
    (addr k : ℕ) → 2 ^ k < 2 ^ 64 → PhysAddr.is_aligned addr (2 ^ k) ≡ (addr % 2 ^ k == 0)
unfolding PhysAddr.is_aligned
is_aligned_phys_pow addr k h = rw (mask_of_align k h, bit_and_mask k addr) (ground arith)

-- For an address of 64 bits and an alignment that is a power of two, `align_ok` lets the address
-- through exactly when it is not null, aligned and canonical.
pub align_ok-eq-ok_iff :
    (addr k : ℕ)
    → addr < 2 ^ 64
    → 2 ^ k < 2 ^ 64
    → (VirtAddr.align_ok addr (2 ^ k) ≡ ok tt)
      ↔ ((addr ≢ 0) × (addr % 2 ^ k ≡ 0) × IsCanonicalVirt addr)
unfolding VirtAddr.align_ok
align_ok-eq-ok_iff addr k ha hk = (
  λ e. ground (arith, is_aligned_pow addr k hk, canonicalize_virtaddr-eq_iff addr ha),
  λ c. ground (arith, is_aligned_pow addr k hk, canonicalize_virtaddr-eq_iff addr ha),
)

-- The multiples of `align` on either side of `v`.
pub record Rounds (v align : ℕ) (down up : Outcome PhysAddr) : Type 0 where
  pub d : ℕ
  pub u : ℕ
  pub down_ok : down ≡ ok d
  pub up_ok : up ≡ ok u
  pub below : (d ≤ v) × (v < d + align)
  pub above : (v ≤ u) × (u < v + align)
  pub whole : (d % align ≡ 0) × (u % align ≡ 0)

-- Rounding a physical address down and up to a nonzero alignment succeeds and gives the multiples
-- of the alignment on either side of it, each less than one alignment away, if address and
-- alignment together stay within 52 bits.
pub align-Rounds :
    (v align : ℕ)
    → 0 < align
    → v + align ≤ 2 ^ 52
    → Rounds v align (PhysAddr.align_down v align) (PhysAddr.align_up v align)
unfolding PhysAddr.align_down PhysAddr.align_up
align-Rounds v align pos fits = record {
  d = v / align * align;
  u = (v + (align - 1)) / align * align;
  down_ok = ground (arith, div-add-mod v align, canonicalize_physaddr-eq-mod (v / align * align));
  up_ok = ground (arith, rounded, canonicalize_physaddr-eq-mod ((v + (align - 1)) / align * align));
  below = grind (arith, div-add-mod);
  above = rounded;
  whole = (mul-mod_left (v / align) align, mul-mod_left ((v + (align - 1)) / align) align);
}
  where
    rounded :
        (v ≤ (v + (align - 1)) / align * align) × ((v + (align - 1)) / align * align < v + align)
    rounded = omega (arith, div-add-mod' (v + (align - 1)) align, mod-lt (v + (align - 1)) pos)
