-- ===== src/Base/Bits.antt =====
-- `&` and `|` at variables: the step on the lowest digit, and the laws that masks and fields need.
use Prim.Native.Nat.{
  ℕ, zero, suc, ◌+◌, ◌-◌, ◌*◌, ◌/◌, ◌%◌, ◌^◌, ◌≤◌, ◌<◌, min, max, bit_and, bit_or, digits, bitwise,
  bit_and-bitwise, bit_or-bitwise,
}
use mathlib.Core.Path.{◌≡◌, refl, ap, ap₂, ◌∙◌}
use native.Mathlib.Nat.{pow-suc, one-le-pow, div-div-eq-div-mul}
use native.Mathlib.Omega.{arith}

module _ (z : ℕ → ℕ) (f : ℕ → ℕ → ℕ) where
  -- One unit of fuel above the first argument adds nothing, so no surplus of it does.
  spare_unit : (left x y : ℕ) → x ≤ left → digits z f (suc left) x y ≡ digits z f left x y
  spare_unit zero zero y below = refl
  spare_unit zero (suc x) y below = absurd (omega arith)
  spare_unit (suc left) zero y below = refl
  spare_unit (suc left) (suc x) y below = rw (spare_unit left (suc x / 2) (y / 2) (omega arith))

  surplus : (spare left x y : ℕ) → left ≡ spare + x → digits z f left x y ≡ digits z f x x y
  surplus zero left x y e = let same : left ≡ x = omega arith in rw same
  surplus (suc spare) zero x y e = absurd (omega arith)
  surplus (suc spare) (suc left) x y e =
      spare_unit left x y (omega arith) ∙ surplus spare left x y (omega arith)

  lowest_digit :
      (x y : ℕ)
      → bitwise z f (suc x) y ≡ bitwise z f (suc x / 2) (y / 2) * 2 + f (suc x % 2) (y % 2)
  lowest_digit x y = omega (arith, surplus (x - suc x / 2) x (suc x / 2) (y / 2) (omega arith))

pub zero-bit_and : (b : ℕ) → bit_and 0 b ≡ 0
zero-bit_and b = bit_and-bitwise 0 b

pub bit_and_step : (x y : ℕ) → bit_and x y ≡ bit_and (x / 2) (y / 2) * 2 + min (x % 2) (y % 2)
bit_and_step zero y = ground (arith, zero-bit_and y, zero-bit_and (y / 2))
bit_and_step (suc x) y = simp bit_and-bitwise (lowest_digit (λ rest. 0) min x y)

pub zero-bit_or : (b : ℕ) → bit_or 0 b ≡ b
zero-bit_or b = bit_or-bitwise 0 b

pub bit_or_step : (x y : ℕ) → bit_or x y ≡ bit_or (x / 2) (y / 2) * 2 + max (x % 2) (y % 2)
bit_or_step zero y = ground (arith, zero-bit_or y, zero-bit_or (y / 2))
bit_or_step (suc x) y = simp bit_or-bitwise (lowest_digit (λ rest. rest) max x y)

-- Induction on a bound `n` of the digits that are left.
and_zero_below : (left x : ℕ) → x ≤ left → bit_and x 0 ≡ 0
and_zero_below zero x below = ground (arith, zero-bit_and 0)
and_zero_below (suc left) zero below = refl
and_zero_below (suc left) (suc x) below =
    ground (arith, and_zero_below left (suc x / 2) (omega arith), bit_and_step (suc x) 0)

pub bit_and-zero : (a : ℕ) → bit_and a 0 ≡ 0
bit_and-zero a = and_zero_below a a (omega arith)

or_zero_below : (left x : ℕ) → x ≤ left → bit_or x 0 ≡ x
or_zero_below zero x below = let none_left : x ≡ 0 = omega arith in rw none_left
or_zero_below (suc left) zero below = refl
or_zero_below (suc left) (suc x) below =
    ground (arith, or_zero_below left (suc x / 2) (omega arith), bit_or_step (suc x) 0)

pub bit_or-zero : (a : ℕ) → bit_or a 0 ≡ a
bit_or-zero a = or_zero_below a a (omega arith)

times_pow-suc : (q k : ℕ) → q * 2 ^ suc k ≡ 2 * (q * 2 ^ k)
times_pow-suc q k = omega (arith, ap (λ (t : ℕ). q * t) (pow-suc 2 k))

halve_div : (a k : ℕ) → a / 2 / 2 ^ k ≡ a / 2 ^ suc k
halve_div a k = div-div-eq-div-mul a 2 (2 ^ k) ∙ ap (λ (t : ℕ). a / t) (omega (arith, pow-suc 2 k))

-- A mask whose low `k` digits are 0 cuts the low digits off and masks the rest.
pub bit_and_shifted : (k a m : ℕ) → bit_and a (m * 2 ^ k) ≡ bit_and (a / 2 ^ k) m * 2 ^ k
bit_and_shifted zero a m = ground arith
bit_and_shifted (suc k) a m = ground (
  arith,
  bit_and_step a (m * 2 ^ suc k),
  times_pow-suc m k,
  times_pow-suc (bit_and (a / 2 ^ suc k) m) k,
  bit_and_shifted k (a / 2) m,
  halve_div a k,
)

below_half : (k r : ℕ) → r < 2 ^ suc k → r / 2 < 2 ^ k
below_half k r fits = omega (arith, pow-suc 2 k)

and_low : (k high low : ℕ) → low < 2 ^ k → bit_and (high * 2 ^ k + low) (2 ^ k - 1) ≡ low
and_low zero high low fits = ground (arith, bit_and-zero (high * 1 + low))
and_low (suc k) high low fits = ground (
  arith,
  and_low k high (low / 2) (below_half k low fits),
  one-le-pow k 2,
  pow-suc 2 k,
  times_pow-suc high k,
  bit_and_step (high * 2 ^ suc k + low) (2 ^ suc k - 1),
)

-- A mask of `k` ones is the remainder by `2 ^ k`.
pub bit_and_mask : (k a : ℕ) → bit_and a (2 ^ k - 1) ≡ a % 2 ^ k
bit_and_mask k a = ground (arith, one-le-pow k 2, and_low k (a / 2 ^ k) (a % 2 ^ k))

or_half : (a b : ℕ) → bit_or a b / 2 ≡ bit_or (a / 2) (b / 2)
or_half a b = omega (arith, bit_or_step a b)

and_half : (a b : ℕ) → bit_and a b / 2 ≡ bit_and (a / 2) (b / 2)
and_half a b = omega (arith, bit_and_step a b)

distrib_below :
    (n a b m : ℕ) → a ≤ n → b ≤ n → bit_and (bit_or a b) m ≡ bit_or (bit_and a m) (bit_and b m)
distrib_below zero zero zero m p q = ground (arith, zero-bit_or 0, zero-bit_and m)
distrib_below zero (suc a) b m p q = absurd (omega arith)
distrib_below zero zero (suc b) m p q = absurd (omega arith)
distrib_below (suc n) a b m p q = omega (
  arith,
  bit_or_step a b,
  bit_and_step (bit_or a b) m,
  bit_and_step a m,
  bit_and_step b m,
  bit_or_step (bit_and a m) (bit_and b m),
  ap (λ (t : ℕ). bit_and t (m / 2)) (or_half a b),
  ap₂ bit_or (and_half a m) (and_half b m),
  distrib_below n (a / 2) (b / 2) (m / 2) (omega arith) (omega arith),
)

pub bit_and-bit_or : (a b m : ℕ) → bit_and (bit_or a b) m ≡ bit_or (bit_and a m) (bit_and b m)
bit_and-bit_or a b m = distrib_below (max a b) a b m (omega arith) (omega arith)
