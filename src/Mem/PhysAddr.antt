-- ===== src/Mem/PhysAddr.antt =====
-- `PhysAddr` of crates/kernel/src/mem/units.rs. An address is its number, below 2 ^ 64.
use kados_ng.Base.{ℕ, ◌+◌, ◌-◌, ◌/◌, ◌%◌, bit_and, ◌==◌, if◌then◌else◌}
use kados_ng.Base.{Bool, ◌||◌}
use kados_ng.Arch.{wrapping_add, wrapping_sub, wrapping_mul}
use kados_ng.Mem.Outcome.{Outcome, ok, err, panic, MemError}
use kados_ng.Mem.Canonical.{canonicalize_physaddr}

abbrev pub PhysAddr : Type 0
PhysAddr = ℕ

abbrev pub new_canonical : ℕ → PhysAddr
new_canonical addr = canonicalize_physaddr addr

unfoldable pub new : ℕ → Outcome PhysAddr
new addr =
    if canonicalize_physaddr addr == addr
    then ok addr
    else err (MemError.non_canonical_phys_addr addr)

unfoldable pub is_aligned : PhysAddr → ℕ → Bool
is_aligned addr align = addr % align == 0 || bit_and addr (wrapping_sub align 1) == 0

abbrev pub add_bytes : PhysAddr → ℕ → PhysAddr
add_bytes addr offset = new_canonical (wrapping_add addr offset)

-- A division by zero panics.
unfoldable pub align_down : PhysAddr → ℕ → Outcome PhysAddr
align_down addr align =
    if align == 0 then panic else ok (new_canonical (wrapping_mul (addr / align) align))

unfoldable pub align_up : PhysAddr → ℕ → Outcome PhysAddr
align_up addr align =
    if align == 0
    then panic
    else ok (new_canonical (wrapping_mul ((addr + (align - 1)) / align) align))
