-- ===== src/Mem/FrameCount.antt =====
-- `FrameCount` of crates/kernel/src/mem/units.rs, as its number of frames.
use kados_ng.Base.{ℕ, ◌+◌, ◌-◌, ◌/◌, ◌^◌, ◌≤◌, ◌<◌, ◌≡◌, ◌↔◌, arith}
use kados_ng.Arch.{wrapping_mul, page_size}
use kados_ng.Mem.PhysAddr.{PhysAddr}

-- `usize::div_ceil`, which does not overflow.
abbrev pub div_ceil : ℕ → ℕ → ℕ
div_ceil a b = (a + (b - 1)) / b

unfoldable pub from_bytes : ℕ → ℕ
from_bytes bytes = div_ceil bytes page_size

unfoldable pub to_bytes : ℕ → ℕ
to_bytes count = wrapping_mul count page_size

-- `PhysAddr::frame_index`.
unfoldable pub frame_index : PhysAddr → ℕ
frame_index addr = from_bytes addr

-- For fewer than 2 ^ 63 bytes, `from_bytes` is the least count of frames that holds them: it is at
-- most a count below 2 ^ 52 exactly if that count's bytes suffice, its own bytes suffice, and they
-- exceed the bytes by less than a page.
pub from_bytes-le_iff :
    (bytes count : ℕ)
    → bytes < 2 ^ 63
    → count < 2 ^ 52
    → (from_bytes bytes ≤ count ↔ bytes ≤ to_bytes count)
      × (bytes ≤ to_bytes (from_bytes bytes))
      × (to_bytes (from_bytes bytes) < bytes + page_size)
unfolding from_bytes to_bytes
from_bytes-le_iff bytes count hb hc =
    ((λ h. omega arith, λ h. omega arith), omega arith, omega arith)

pub from_bytes-to_bytes : (count : ℕ) → count < 2 ^ 52 → from_bytes (to_bytes count) ≡ count
unfolding from_bytes to_bytes
from_bytes-to_bytes count h = omega arith
