-- ===== src/Base/Bits.antt =====
-- `&` with a shifted mask and `|` of disjoint fields, as arithmetic, at every width.
use Prim.Native.Nat.{digits, bitwise, bit_and, bit_or, bit_and-bitwise, bit_or-bitwise}
use native.Mathlib.Nat.{
  zero-add, pow-suc, one-le-pow, div-div-eq-div-mul, mod-add-div, mul-div_cancel,
  mul-add-mod_self_left, mul-add-div, mul-le-mul_left, mod-lt, mod-eq_of_lt, div-eq_of_lt,
}
use pictus.Base.{
  ℕ, zero, suc, ◌+◌, ◌-◌, ◌*◌, ◌/◌, ◌%◌, ◌^◌, ◌≤◌, ◌<◌, ◌≡◌, refl, sym, ap, ◌∙◌, arith, min, max,
}

-- The fuel of the digit recursion does not matter, once it is the number itself.
module _ (z : ℕ → ℕ) (op : ℕ → ℕ → ℕ) where
  digits-agree : (n m x y : ℕ) → x ≤ n → x ≤ m → digits z op n x y ≡ digits z op m x y
  digits-agree n zero zero y h k = only_zero n
    where
      only_zero : (n : ℕ) → digits z op n 0 y ≡ z y
      only_zero zero = refl
      only_zero (suc n) = refl
  digits-agree zero (suc m) zero y h k = refl
  digits-agree (suc n) (suc m) zero y h k = refl
  digits-agree zero m (suc x) y h k = elim h [ ]
  digits-agree (suc n) zero (suc x) y h k = elim k [ ]
  digits-agree (suc n) (suc m) (suc x) y h k =
      ap (λ (d : ℕ). d * 2 + op (suc x % 2) (y % 2))
        (digits-agree n m (suc x / 2) (y / 2) (omega arith) (omega arith))

  lowest_digit :
      (x y : ℕ)
      → bitwise z op (suc x) y ≡ bitwise z op (suc x / 2) (y / 2) * 2 + op (suc x % 2) (y % 2)
  lowest_digit x y =
      ap (λ (d : ℕ). d * 2 + op (suc x % 2) (y % 2))
        (digits-agree x (suc x / 2) (suc x / 2) (y / 2) (omega arith) (omega arith))

or_digit : (x y : ℕ) → bit_or x y ≡ bit_or (x / 2) (y / 2) * 2 + max (x % 2) (y % 2)
or_digit zero y = omega (arith, bit_or-bitwise 0 y, bit_or-bitwise 0 (y / 2))
or_digit (suc x) y = omega (
  arith,
  bit_or-bitwise (suc x) y,
  bit_or-bitwise (suc x / 2) (y / 2),
  lowest_digit (λ d. d) max x y,
)

and_digit : (x y : ℕ) → bit_and x y ≡ bit_and (x / 2) (y / 2) * 2 + min (x % 2) (y % 2)
and_digit zero y = omega (arith, bit_and-bitwise 0 y, bit_and-bitwise 0 (y / 2))
and_digit (suc x) y = omega (
  arith,
  bit_and-bitwise (suc x) y,
  bit_and-bitwise (suc x / 2) (y / 2),
  lowest_digit (λ d. 0) min x y,
)

double_power : (y k : ℕ) → y * 2 ^ suc k ≡ 2 * (y * 2 ^ k)
double_power y k = omega (arith, ap (λ (p : ℕ). y * p) (pow-suc 2 k))

zero-bit_or : (y : ℕ) → bit_or 0 y ≡ y
zero-bit_or y = bit_or-bitwise 0 y

-- A field above the bits in use: `x | (y << k)` is a sum.
pub bit_or-shifted : (k x y : ℕ) → x < 2 ^ k → bit_or x (y * 2 ^ k) ≡ x + y * 2 ^ k
bit_or-shifted zero x y h = let e : x ≡ 0 = omega arith in rw e (omega (arith, zero-bit_or (y * 1)))
bit_or-shifted (suc k) x y h =
    ground
      (arith, or_digit x (y * 2 ^ suc k), double_power y k, pow-suc 2 k, bit_or-shifted k (x / 2) y)

bit_or-zero : (n x : ℕ) → x ≤ n → bit_or x 0 ≡ x
bit_or-zero n zero h = refl
bit_or-zero zero (suc x) h = elim h [ ]
bit_or-zero (suc n) (suc x) h =
    omega (arith, or_digit (suc x) 0, bit_or-zero n (suc x / 2) (omega arith))

-- A field below the bits in use: `x << k | y` is a sum.
pub bit_or-below : (k x y : ℕ) → y < 2 ^ k → bit_or (x * 2 ^ k) y ≡ x * 2 ^ k + y
bit_or-below zero x y h =
    let e : y ≡ 0 = omega arith in rw e (omega (arith, bit_or-zero (x * 1) (x * 1) (omega arith)))
bit_or-below (suc k) x y h =
    ground
      (arith, or_digit (x * 2 ^ suc k) y, double_power x k, pow-suc 2 k, bit_or-below k x (y / 2))

and_zero_fuel : (n x : ℕ) → x ≤ n → bit_and x 0 ≡ 0
and_zero_fuel n zero h = refl
and_zero_fuel zero (suc x) h = elim h [ ]
and_zero_fuel (suc n) (suc x) h =
    omega (arith, and_digit (suc x) 0, and_zero_fuel n (suc x / 2) (omega arith))

pub mod_unique : (x n q r : ℕ) → r < n → x ≡ n * q + r → x % n ≡ r
mod_unique x n q r h e = rw e (mul-add-mod_self_left n q r ∙ mod-eq_of_lt h)

pub div_unique : (x n q r : ℕ) → r < n → x ≡ n * q + r → x / n ≡ q
div_unique x n q r h e =
    rw e (mul-add-div {m = n} (omega arith) q r ∙ omega (arith, div-eq_of_lt h))

-- The lower digit in base `a`, then the one in base `b`.
pub mod-mul : (x a b : ℕ) → 0 < a → 0 < b → x % (a * b) ≡ x % a + a * (x / a % b)
mod-mul x a b ha hb =
    mod_unique x (a * b) (x / a / b) (x % a + a * (x / a % b))
      (fits (x % a) (x / a % b) (mod-lt x ha) (mod-lt (x / a) hb))
      (omega (arith, sym (mod-add-div x a), ap (λ (t : ℕ). a * t) (sym (mod-add-div (x / a) b))))
  where
    fits : (r s : ℕ) → r < a → s < b → r + a * s < a * b
    fits r s hr hs = omega (arith, mul-le-mul_left {m = suc s} {n = b} a hs)

half_mod : (x m : ℕ) → 0 < m → x % (2 * m) ≡ x / 2 % m * 2 + x % 2
half_mod x m h = omega (arith, mod-mul x 2 m (omega arith) h)

-- `x & ((1 << t) - 1)`
pub bit_and-mask : (t x : ℕ) → bit_and x (2 ^ t - 1) ≡ x % 2 ^ t
bit_and-mask zero x = omega (arith, and_zero_fuel x x (omega arith))
bit_and-mask (suc t) x = ground (
  arith,
  and_digit x (2 ^ suc t - 1),
  pow-suc 2 t,
  one-le-pow t 2,
  bit_and-mask t (x / 2),
  half_mod x (2 ^ t) (one-le-pow t 2 (omega arith)),
)

pub pow-pos : (k : ℕ) → 0 < 2 ^ k
pow-pos k = one-le-pow k 2 (omega arith)

pub pow-add : (j k : ℕ) → 2 ^ (j + k) ≡ 2 ^ j * 2 ^ k
pow-add zero k = rw zero-add (omega arith)
pow-add (suc j) k =
    let e : suc j + k ≡ suc (j + k) = omega arith in
    rw e (
      omega (
        arith,
        pow-suc 2 (j + k),
        pow-suc 2 j,
        pow-add j k,
        ap (λ (p : ℕ). p * 2 ^ k) (pow-suc 2 j),
      ))

and_shifted : (p t x : ℕ) → bit_and x ((2 ^ t - 1) * 2 ^ p) ≡ x / 2 ^ p % 2 ^ t * 2 ^ p
and_shifted zero t x = ground (arith, bit_and-mask t x)
and_shifted (suc p) t x = ground (
  arith,
  and_digit x ((2 ^ t - 1) * 2 ^ suc p),
  double_power (2 ^ t - 1) p,
  double_power (x / 2 ^ suc p % 2 ^ t) p,
  and_shifted p t (x / 2),
  pow-suc 2 p,
  div-div-eq-div-mul x 2 (2 ^ p),
)

-- `(x & (((1 << t) - 1) << p)) >> p`
pub bit_and-field : (p t x : ℕ) → bit_and x ((2 ^ t - 1) * 2 ^ p) / 2 ^ p ≡ x / 2 ^ p % 2 ^ t
bit_and-field p t x = rw shifted (mul-div_cancel (x / 2 ^ p % 2 ^ t) (pow-pos p))
  where
    shifted : bit_and x ((2 ^ t - 1) * 2 ^ p) ≡ x / 2 ^ p % 2 ^ t * 2 ^ p
    shifted = and_shifted p t x
