-- ===== src/Mem/Canonical.antt =====
-- `canonicalize_physaddr` and `canonicalize_virtaddr` of crates/kernel/src/mem/units.rs.
use kados_ng.Base.{ℕ, ◌+◌, ◌-◌, ◌*◌, ◌/◌, ◌%◌, ◌^◌, ◌<◌, ◌≤◌, bit_and, ltb, if◌then◌else◌}
use kados_ng.Base.{◌≡◌, ◌⊎◌, ◌↔◌, arith}
use kados_ng.Bits.{bit_and_mask}

unfoldable pub canonicalize_physaddr : ℕ → ℕ
canonicalize_physaddr addr = bit_and addr 0x000F_FFFF_FFFF_FFFF

-- The shift to the left drops the high bits, and the one to the right, on an `i64`, repeats bit 47.
unfoldable pub canonicalize_virtaddr : ℕ → ℕ
canonicalize_virtaddr addr =
    let shifted = addr * 2 ^ 16 % 2 ^ 64 in
    if ltb shifted (2 ^ 63) then shifted / 2 ^ 16 else shifted / 2 ^ 16 + (2 ^ 64 - 2 ^ 48)

-- A physical address keeps its low 52 bits.
pub canonicalize_physaddr-eq-mod : (addr : ℕ) → canonicalize_physaddr addr ≡ addr % 2 ^ 52
unfolding canonicalize_physaddr
canonicalize_physaddr-eq-mod addr = bit_and_mask 52 addr

-- The canonical virtual addresses are the lowest and the highest 2 ^ 47 ones.
abbrev pub IsCanonicalVirt : ℕ → Type 0
IsCanonicalVirt addr = (addr < 2 ^ 47) ⊎ (2 ^ 64 - 2 ^ 47 ≤ addr)

-- A virtual address of 64 bits is left alone by `canonicalize_virtaddr` exactly when it is among
-- the lowest or the highest 2 ^ 47 addresses.
pub canonicalize_virtaddr-eq_iff :
    (addr : ℕ) → addr < 2 ^ 64 → (canonicalize_virtaddr addr ≡ addr) ↔ IsCanonicalVirt addr
unfolding canonicalize_virtaddr
canonicalize_virtaddr-eq_iff addr h = (λ e. ground arith, λ c. ground arith)

pub canonicalize_virtaddr-lt : (addr : ℕ) → canonicalize_virtaddr addr < 2 ^ 64
unfolding canonicalize_virtaddr
canonicalize_virtaddr-lt addr = ground arith

-- The low 48 bits survive.
pub canonicalize_virtaddr-mod : (addr : ℕ) → canonicalize_virtaddr addr % 2 ^ 48 ≡ addr % 2 ^ 48
unfolding canonicalize_virtaddr
canonicalize_virtaddr-mod addr = ground arith

pub canonicalize_virtaddr-IsCanonicalVirt :
    (addr : ℕ) → IsCanonicalVirt (canonicalize_virtaddr addr)
unfolding canonicalize_virtaddr
canonicalize_virtaddr-IsCanonicalVirt addr = ground arith
