-- ===== src/Mem/VirtAddr.antt =====
-- `VirtAddr` of crates/kernel/src/mem/units.rs. An address is its number, below 2 ^ 64.
use kados_ng.Base.{ℕ, ◌+◌, ◌-◌, ◌/◌, ◌%◌, bit_and, ◌==◌, if◌then◌else◌}
use kados_ng.Base.{Bool, ◌||◌, not}
use kados_ng.Arch.{wrapping_add, wrapping_sub, wrapping_mul}
use kados_ng.Mem.Outcome.{Outcome, ok, err, panic, MemError}
use kados_ng.Mem.Canonical.{canonicalize_virtaddr}

abbrev pub VirtAddr : Type 0
VirtAddr = ℕ

abbrev pub max_low : VirtAddr
max_low = 0x0000_7000_0000_0000

abbrev pub new_canonical : ℕ → VirtAddr
new_canonical addr = canonicalize_virtaddr addr

unfoldable pub new : ℕ → Outcome VirtAddr
new addr =
    if canonicalize_virtaddr addr == addr
    then ok addr
    else err (MemError.non_canonical_virt_addr addr)

abbrev pub is_null : VirtAddr → Bool
is_null addr = addr == 0

abbrev pub is_canonical : VirtAddr → Bool
is_canonical addr = addr == canonicalize_virtaddr addr

unfoldable pub is_aligned : VirtAddr → ℕ → Bool
is_aligned addr align = addr % align == 0 || bit_and addr (wrapping_sub align 1) == 0

-- The alignment of the type that is accessed is an argument.
unfoldable pub align_ok : VirtAddr → ℕ → Outcome (Unit {0})
align_ok addr align =
    if is_null addr
    then err MemError.null_virt_addr
    else if not (is_aligned addr align)
    then err (MemError.unaligned_virt_addr addr align)
    else if not (is_canonical addr)
    then err (MemError.non_canonical_virt_addr addr)
    else ok tt

abbrev pub add_bytes : VirtAddr → ℕ → VirtAddr
add_bytes addr offset = new_canonical (wrapping_add addr offset)

-- A division by zero panics.
unfoldable pub align_down : VirtAddr → ℕ → Outcome VirtAddr
align_down addr align =
    if align == 0 then panic else ok (new_canonical (wrapping_mul (addr / align) align))

unfoldable pub align_up : VirtAddr → ℕ → Outcome VirtAddr
align_up addr align =
    if align == 0
    then panic
    else ok (new_canonical (wrapping_mul ((addr + (align - 1)) / align) align))
