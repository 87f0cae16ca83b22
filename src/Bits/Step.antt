-- ===== src/Bits/Step.antt =====
-- One equation of `&` and `|` for the lowest digit, from the recursion that they stand for.
use Prim.Native.Nat.{digits, bit_and-bitwise, bit_or-bitwise}
use kados_ng.Base.{ℕ, zero, suc, ◌+◌, ◌*◌, ◌/◌, ◌%◌, ◌≤◌, min, max, bit_and, bit_or}
use kados_ng.Base.{◌≡◌, refl, arith}

module _ (rest : ℕ → ℕ) (op : ℕ → ℕ → ℕ) where
  -- More fuel than the first word makes no difference.
  fuel_irrelevant : (k l x y : ℕ) → x ≤ k → x ≤ l → digits rest op k x y ≡ digits rest op l x y
  fuel_irrelevant (suc k) (suc l) (suc x) y le le' =
      rw (fuel_irrelevant k l (suc x / 2) (y / 2) (omega arith) (omega arith))
  fuel_irrelevant (suc k) (suc l) zero y le le' = refl
  fuel_irrelevant (suc k) zero zero y le le' = refl
  fuel_irrelevant (suc k) zero (suc x) y le le' = absurd (omega arith)
  fuel_irrelevant zero zero x y le le' = refl
  fuel_irrelevant zero (suc l) zero y le le' = refl
  fuel_irrelevant zero (suc l) (suc x) y le le' = absurd (omega arith)

pub zero-bit_and : (b : ℕ) → bit_and 0 b ≡ 0
zero-bit_and b = bit_and-bitwise 0 b

pub zero-bit_or : (b : ℕ) → bit_or 0 b ≡ b
zero-bit_or b = bit_or-bitwise 0 b

-- The lowest digits of two words, and the rest of them.
pub low_digit_of_and : (x y : ℕ) → bit_and x y ≡ 2 * bit_and (x / 2) (y / 2) + min (x % 2) (y % 2)
low_digit_of_and zero y = omega (arith, zero-bit_and (y / 2), zero-bit_and y)
low_digit_of_and (suc x) y =
    let shorter = fuel_irrelevant (λ _. 0) min x (suc x / 2) (suc x / 2) (y / 2) in
    omega (
      arith,
      shorter (omega arith) (omega arith),
      bit_and-bitwise (suc x / 2) (y / 2),
      bit_and-bitwise (suc x) y,
    )

pub low_digit_of_or : (x y : ℕ) → bit_or x y ≡ 2 * bit_or (x / 2) (y / 2) + max (x % 2) (y % 2)
low_digit_of_or zero y = omega (arith, zero-bit_or (y / 2), zero-bit_or y)
low_digit_of_or (suc x) y =
    let shorter = fuel_irrelevant (λ z. z) max x (suc x / 2) (suc x / 2) (y / 2) in
    omega (
      arith,
      shorter (omega arith) (omega arith),
      bit_or-bitwise (suc x / 2) (y / 2),
      bit_or-bitwise (suc x) y,
    )

-- By induction on a bound, since the recursion halves the word.
and_nothing : (bound x : ℕ) → x ≤ bound → bit_and x 0 ≡ 0
and_nothing bound zero le = zero-bit_and 0
and_nothing zero (suc x) le = absurd (omega arith)
and_nothing (suc bound) (suc x) le =
    let half = and_nothing bound (suc x / 2) (omega arith) in
    omega (arith, half, low_digit_of_and (suc x) 0)

or_nothing : (bound x : ℕ) → x ≤ bound → bit_or x 0 ≡ x
or_nothing bound zero le = zero-bit_or 0
or_nothing zero (suc x) le = absurd (omega arith)
or_nothing (suc bound) (suc x) le =
    let half = or_nothing bound (suc x / 2) (omega arith) in
    omega (arith, half, low_digit_of_or (suc x) 0)

pub bit_and-zero : (x : ℕ) → bit_and x 0 ≡ 0
bit_and-zero x = and_nothing x x (omega arith)

pub bit_or-zero : (x : ℕ) → bit_or x 0 ≡ x
bit_or-zero x = or_nothing x x (omega arith)
