-- ===== src/Bits.antt =====
-- The bit operations of the source on machine words, as arithmetic: a word splits at any bit, and
-- masks, single flags and disjoint fields are read off the two halves.
mod Step
use Step.{low_digit_of_and, low_digit_of_or, bit_and-zero, bit_or-zero, zero-bit_and, zero-bit_or}
pub use Step.{bit_and-zero, bit_or-zero, zero-bit_and, zero-bit_or}
use native.Mathlib.Nat.{pow-suc, one-le-pow}
use kados_ng.Base.{ℕ, zero, suc, ◌+◌, ◌-◌, ◌*◌, ◌/◌, ◌%◌, ◌^◌, ◌≤◌, ◌<◌, bit_and, bit_or}
use kados_ng.Base.{◌≡◌, refl, ap, arith}

double_field : (q k : ℕ) → q * 2 ^ suc k ≡ 2 * (q * 2 ^ k)
double_field q k = omega (arith, ap (λ (t : ℕ). q * t) (pow-suc 2 k))

-- `|` acts on the bits from `k` on and on those below `k` apart.
pub bit_or_split :
    (k a b c d : ℕ)
    → c < 2 ^ k
    → d < 2 ^ k
    → bit_or (a * 2 ^ k + c) (b * 2 ^ k + d) ≡ bit_or a b * 2 ^ k + bit_or c d
bit_or_split zero a b zero zero hc hd = ground arith
bit_or_split zero a b c d hc hd = absurd (omega arith)
bit_or_split (suc k) a b c d hc hd = ground (
  arith,
  low_digit_of_or (a * 2 ^ suc k + c) (b * 2 ^ suc k + d),
  low_digit_of_or c d,
  double_field a k,
  double_field b k,
  double_field (bit_or a b) k,
  pow-suc 2 k,
  bit_or_split k a b (c / 2) (d / 2) (omega (arith, pow-suc 2 k)) (omega (arith, pow-suc 2 k)),
)

-- `&` does so too.
pub bit_and_split :
    (k a b c d : ℕ)
    → c < 2 ^ k
    → d < 2 ^ k
    → bit_and (a * 2 ^ k + c) (b * 2 ^ k + d) ≡ bit_and a b * 2 ^ k + bit_and c d
bit_and_split zero a b zero zero hc hd = ground arith
bit_and_split zero a b c d hc hd = absurd (omega arith)
bit_and_split (suc k) a b c d hc hd = ground (
  arith,
  low_digit_of_and (a * 2 ^ suc k + c) (b * 2 ^ suc k + d),
  low_digit_of_and c d,
  double_field a k,
  double_field b k,
  double_field (bit_and a b) k,
  pow-suc 2 k,
  bit_and_split k a b (c / 2) (d / 2) (omega (arith, pow-suc 2 k)) (omega (arith, pow-suc 2 k)),
)

pub bit_or-lt : (k a b : ℕ) → a < 2 ^ k → b < 2 ^ k → bit_or a b < 2 ^ k
bit_or-lt zero zero zero ha hb = omega (arith, bit_or-zero 0)
bit_or-lt zero a b ha hb = absurd (omega arith)
bit_or-lt (suc k) a b ha hb = omega (
  arith,
  low_digit_of_or a b,
  pow-suc 2 k,
  bit_or-lt k (a / 2) (b / 2) (omega (arith, pow-suc 2 k)) (omega (arith, pow-suc 2 k)),
)

pub bit_and-le : (n a b : ℕ) → a ≤ n → bit_and a b ≤ a
bit_and-le n zero b h = omega (arith, zero-bit_and b)
bit_and-le zero (suc a) b h = absurd (omega arith)
bit_and-le (suc n) (suc a) b h =
    omega (arith, low_digit_of_and (suc a) b, bit_and-le n (suc a / 2) (b / 2) (omega arith))

bit_and_comm_below : (n a b : ℕ) → a ≤ n → bit_and a b ≡ bit_and b a
bit_and_comm_below n zero b h = omega (arith, zero-bit_and b, bit_and-zero b)
bit_and_comm_below zero (suc a) b h = absurd (omega arith)
bit_and_comm_below (suc n) (suc a) b h = omega (
  arith,
  low_digit_of_and (suc a) b,
  low_digit_of_and b (suc a),
  bit_and_comm_below n (suc a / 2) (b / 2) (omega arith),
)

pub bit_and_comm : (a b : ℕ) → bit_and a b ≡ bit_and b a
bit_and_comm a b = bit_and_comm_below a a b (omega arith)

all_ones : (k r : ℕ) → r < 2 ^ k → bit_and r (2 ^ k - 1) ≡ r
all_ones zero r h = omega (arith, bit_and-zero r)
all_ones (suc k) r h = ground (
  arith,
  low_digit_of_and r (2 ^ suc k - 1),
  pow-suc 2 k,
  one-le-pow k 2,
  all_ones k (r / 2) (omega (arith, pow-suc 2 k)),
)

-- A mask of `k` ones keeps the low `k` bits.
pub bit_and_mask : (k a : ℕ) → bit_and a (2 ^ k - 1) ≡ a % 2 ^ k
bit_and_mask k a = ground (
  arith,
  one-le-pow k 2,
  bit_and_split k (a / 2 ^ k) 0 (a % 2 ^ k) (2 ^ k - 1),
  bit_and-zero (a / 2 ^ k),
  all_ones k (a % 2 ^ k),
)

-- The word with only bit `k` of `a`, and the word `a` with bit `k` set.
pub bit_and_flag : (k a : ℕ) → bit_and a (2 ^ k) ≡ a / 2 ^ k % 2 * 2 ^ k
bit_and_flag k a = ground (
  arith,
  one-le-pow k 2,
  bit_and_split k (a / 2 ^ k) 1 (a % 2 ^ k) 0,
  bit_and-zero (a % 2 ^ k),
  bit_and_mask 1 (a / 2 ^ k),
)

bit_or-one : (a : ℕ) → bit_or a 1 ≡ a / 2 * 2 + 1
bit_or-one a = omega (arith, low_digit_of_or a 1, bit_or-zero (a / 2))

pub bit_or_flag : (k a : ℕ) → bit_or a (2 ^ k) ≡ (a / 2 ^ k / 2 * 2 + 1) * 2 ^ k + a % 2 ^ k
bit_or_flag k a = ground (
  arith,
  one-le-pow k 2,
  bit_or_split k (a / 2 ^ k) 1 (a % 2 ^ k) 0,
  bit_or-zero (a % 2 ^ k),
  bit_or-one (a / 2 ^ k),
)
