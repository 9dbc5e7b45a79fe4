-- ===== src/Prelude/Bits.antt =====
-- The bit operations on 64-bit words that the proof-of-work loop uses, as arithmetic.
use Prim.Native.Nat.{
  ℕ, zero, suc, ◌+◌, ◌*◌, ◌/◌, ◌%◌, ◌^◌, ◌≤◌, ◌<◌, min, max, digits, bit_and, bit_or,
  bit_and-bitwise, bit_or-bitwise,
}
use mathlib.Core.Path.{◌≡◌, refl, ◌∙◌, sym, ap}
use native.Mathlib.Nat.{pow-suc, pow-succ', mul_assoc, div-div-eq-div-mul, mod-add-div}
use native.Mathlib.Omega.{arith}

-- The recursion on binary digits does not depend on its fuel, once there is enough.
module _ (last : ℕ → ℕ) (join : ℕ → ℕ → ℕ) where
  fuel_irrelevant : (f g x y : ℕ) → x ≤ f → x ≤ g → digits last join f x y ≡ digits last join g x y
  fuel_irrelevant zero zero zero y p q = refl
  fuel_irrelevant zero (suc g) zero y p q = refl
  fuel_irrelevant (suc f) zero zero y p q = refl
  fuel_irrelevant (suc f) (suc g) zero y p q = refl
  fuel_irrelevant zero g (suc x) y p q = absurd (omega arith)
  fuel_irrelevant (suc f) zero (suc x) y p q = absurd (omega arith)
  fuel_irrelevant (suc f) (suc g) (suc x) y p q =
      rw (fuel_irrelevant f g (suc x / 2) (y / 2) (omega arith) (omega arith))

abbrev and_with : ℕ → ℕ → ℕ → ℕ
and_with = digits (λ y. 0) min

abbrev or_with : ℕ → ℕ → ℕ → ℕ
or_with = digits (λ y. y) max

and-digit : (x y : ℕ) → bit_and x y ≡ bit_and (x / 2) (y / 2) * 2 + min (x % 2) (y % 2)
and-digit zero y = omega (arith, bit_and-bitwise 0 y, bit_and-bitwise 0 (y / 2))
and-digit (suc x) y =
    let same =
      fuel_irrelevant (λ y. 0) min x (suc x / 2) (suc x / 2) (y / 2) (omega arith) (omega arith) in
    omega (arith, bit_and-bitwise (suc x) y, bit_and-bitwise (suc x / 2) (y / 2), same)

or-digit : (x y : ℕ) → bit_or x y ≡ bit_or (x / 2) (y / 2) * 2 + max (x % 2) (y % 2)
or-digit zero y = omega (arith, bit_or-bitwise 0 y, bit_or-bitwise 0 (y / 2))
or-digit (suc x) y =
    let same =
      fuel_irrelevant (λ y. y) max x (suc x / 2) (suc x / 2) (y / 2) (omega arith) (omega arith) in
    omega (arith, bit_or-bitwise (suc x) y, bit_or-bitwise (suc x / 2) (y / 2), same)

and-zero_below : (n x : ℕ) → x ≤ n → bit_and x 0 ≡ 0
and-zero_below n zero h = bit_and-bitwise 0 0
and-zero_below zero (suc x) h = absurd (omega arith)
and-zero_below (suc n) (suc x) h =
    omega (arith, and-digit (suc x) 0, and-zero_below n (suc x / 2) (omega arith))

and-odd : (x m : ℕ) → bit_and x (m * 2 + 1) ≡ bit_and (x / 2) m * 2 + x % 2
and-odd x m =
    let half : (m * 2 + 1) / 2 ≡ m = omega arith in
    let low : min (x % 2) ((m * 2 + 1) % 2) ≡ x % 2 = omega arith in
    and-digit x (m * 2 + 1) ∙ rw (half, low)

and-even : (x m : ℕ) → bit_and x (m * 2) ≡ bit_and (x / 2) m * 2
and-even x m =
    let half : m * 2 / 2 ≡ m = omega arith in
    let low : min (x % 2) (m * 2 % 2) ≡ 0 = omega arith in
    and-digit x (m * 2) ∙ rw (half, low) (omega arith)

and-nibble : (x : ℕ) → bit_and x 15 ≡ x % 16
and-nibble x = omega (
  arith,
  and-odd x 7,
  and-odd (x / 2) 3,
  and-odd (x / 2 / 2) 1,
  and-odd (x / 2 / 2 / 2) 0,
  and-zero_below (x / 2 / 2 / 2 / 2) (x / 2 / 2 / 2 / 2) (omega arith),
)

-- x & 0xff
pub and-byte : (x : ℕ) → bit_and x 255 ≡ x % 256
and-byte x = omega (
  arith,
  and-odd x 127,
  and-odd (x / 2) 63,
  and-odd (x / 2 / 2) 31,
  and-odd (x / 2 / 2 / 2) 15,
  and-nibble (x / 2 / 2 / 2 / 2),
)

-- A mask that is shifted left by k places.
mod_double : (x p : ℕ) → x / 2 % p * 2 + x % 2 ≡ x % (2 * p)
mod_double x p = omega (
  arith,
  mod-add-div x (2 * p),
  mod-add-div (x / 2) p,
  div-div-eq-div-mul x 2 p,
  mul_assoc 2 p (x / 2 / p),
  ap (λ q. 2 * p * q) (div-div-eq-div-mul x 2 p),
)

-- The mask of the low k bits is the remainder by 2 ^ k.
pub and-mask : (k x m : ℕ) → m + 1 ≡ 2 ^ k → bit_and x m ≡ x % 2 ^ k
and-mask zero x m low =
    let none : m ≡ 0 = omega arith in rw (none, and-zero_below x x (omega arith)) (omega arith)
and-mask (suc k) x m low =
    let half : m / 2 + 1 ≡ 2 ^ k = omega (arith, low, pow-succ' 2 k) in
    let odd : m ≡ m / 2 * 2 + 1 = omega (arith, low, pow-succ' 2 k) in
    rw (odd, and-odd x (m / 2), and-mask k (x / 2) (m / 2) half, pow-succ' 2 k)
      (mod_double x (2 ^ k))

pub and-shifted : (k x m : ℕ) → bit_and x (m * 2 ^ k) ≡ bit_and (x / 2 ^ k) m * 2 ^ k
and-shifted zero x m =
    let whole : x / 1 ≡ x = omega arith in
    let same : m * 1 ≡ m = omega arith in rw (whole, same) (omega arith)
and-shifted (suc k) x m =
    let shape : m * 2 ^ suc k ≡ m * 2 ^ k * 2 = rw (pow-suc 2 k) (sym (mul_assoc m (2 ^ k) 2)) in
    let halves : x / 2 / 2 ^ k ≡ x / 2 ^ suc k =
      rw (pow-succ' 2 k) (div-div-eq-div-mul x 2 (2 ^ k)) in
    rw shape (
      and-even x (m * 2 ^ k)
      ∙ rw (and-shifted k (x / 2) m, halves, pow-suc 2 k) (mul_assoc _ (2 ^ k) 2))

-- An operand below 2 ^ k and a multiple of 2 ^ k have no digit in common.
pub or-disjoint : (k x q : ℕ) → x < 2 ^ k → bit_or x (q * 2 ^ k) ≡ x + q * 2 ^ k
or-disjoint zero x q h =
    let none_left : x ≡ 0 = omega arith in rw none_left (bit_or-bitwise 0 (q * 1) ∙ omega arith)
or-disjoint (suc k) x q h =
    let shape : q * 2 ^ suc k ≡ q * 2 ^ k * 2 = rw (pow-suc 2 k) (sym (mul_assoc q (2 ^ k) 2)) in
    let half : q * 2 ^ k * 2 / 2 ≡ q * 2 ^ k = omega arith in
    let low : max (x % 2) (q * 2 ^ k * 2 % 2) ≡ x % 2 = omega arith in
    let ih = or-disjoint k (x / 2) q (omega (arith, pow-suc 2 k)) in
    rw shape (or-digit x (q * 2 ^ k * 2) ∙ rw (half, low, ih) (omega arith))
