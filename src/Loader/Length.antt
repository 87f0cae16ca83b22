-- ===== src/Loader/Length.antt =====
-- The length of the kernel on the line: the little-endian bytes of `to_le_bytes`, and how `recv` puts
-- them together.
use native.Mathlib.Nat.{one-le-pow}
use kados_ng.Loader.Chainloader.{kernel_len_of}
use kados_ng.Base.{ℕ, ◌+◌, ◌*◌, ◌/◌, ◌%◌, ◌^◌, ◌<◌, bit_or, ◌≡◌, arith}
use kados_ng.Bits.{bit_or_split, bit_or-zero, zero-bit_or}

or_shifted : (k a b : ℕ) → a < 2 ^ k → bit_or a (b * 2 ^ k) ≡ b * 2 ^ k + a
or_shifted k a b h =
    ground (arith, bit_or_split k 0 b a 0, zero-bit_or b, bit_or-zero a, one-le-pow k 2)

pub kernel_len_of-le_bytes :
    (n : ℕ)
    → n < 2 ^ 32
    → kernel_len_of (n % 2 ^ 8) (n / 2 ^ 8 % 2 ^ 8) (n / 2 ^ 16 % 2 ^ 8) (n / 2 ^ 24 % 2 ^ 8) ≡ n
unfolding kernel_len_of
kernel_len_of-le_bytes n h = ground (
  arith,
  zero-bit_or (n % 2 ^ 8),
  or_shifted 8 (n % 2 ^ 8) (n / 2 ^ 8 % 2 ^ 8),
  or_shifted 16 (n % 2 ^ 16) (n / 2 ^ 16 % 2 ^ 8),
  or_shifted 24 (n % 2 ^ 24) (n / 2 ^ 24 % 2 ^ 8),
)
