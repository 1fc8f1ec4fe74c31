-- ===== src/Orz/StreamConverter/High.antt =====
-- One round of `GetWordMsbToLsb`: the bits that it takes from the top of the front byte, and what
-- is left.
use Prim.Native.Nat.{bit_and}
use native.Mathlib.Nat.{
  pow-le-pow_right, mod-eq_of_lt, mod-lt, mul-le-mul_right, mod-add-div, div-div-eq-div-mul,
  mod-one,
}
use pictus.Base.{
  ℕ, suc, ◌+◌, ◌-◌, ◌*◌, ◌/◌, ◌%◌, ◌^◌, ◌<◌, ◌≤◌, ◌≡◌, refl, sym, ap, arith, List, [], ◌∷◌, ltb,
  length, Bool-cases, inl, inr,
}
use pictus.Base.Bits.{bit_and-field, pow-pos, pow-add, mod-mul, mod_unique, div_unique}
use pictus.Orz.StreamConverter.{Cursor, advance}
use pictus.Orz.StreamConverter.Round.{AllBytes, left}

-- The bytes as one number, the first byte highest.
abbrev pub high_value : List ℕ → ℕ
high_value [] = 0
high_value (b ∷ bs) = b * 2 ^ (8 * length bs) + high_value bs

-- The bits that are left, the next one highest: those of the front byte, then the other bytes.
abbrev pub high_remaining : List ℕ → ℕ → ℕ
high_remaining [] src_pos = 0
high_remaining (b ∷ bs) src_pos = b % 2 ^ (8 - src_pos) * 2 ^ (8 * length bs) + high_value bs

pub step_below : (b v p q : ℕ) → b < p → v < q → b * q + v < p * q
step_below b v p q hb hv = omega (arith, mul-le-mul_right {m = suc b} {n = p} q hb)

pub high_value-below : (bs : List ℕ) → AllBytes bs → high_value bs < 2 ^ (8 * length bs)
high_value-below [] h = omega arith
high_value-below (b ∷ bs) (hb, hs) =
    let e : 8 * suc (length bs) ≡ 8 + 8 * length bs = omega arith in
    rw (e, pow-add 8 (8 * length bs))
      (step_below b (high_value bs) 256 (2 ^ (8 * length bs)) hb (high_value-below bs hs))

-- A number of two parts, cut inside the upper one.
upper : (a v low k : ℕ) → v < 2 ^ k → (a * 2 ^ k + v) / 2 ^ (low + k) ≡ a / 2 ^ low
upper a v low k h = rw pow-add (
    div_unique (a * 2 ^ k + v) (2 ^ low * 2 ^ k) (a / 2 ^ low) (a % 2 ^ low * 2 ^ k + v)
      (step_below (a % 2 ^ low) v (2 ^ low) (2 ^ k) (mod-lt a (pow-pos low)) h)
      (omega (arith, ap (λ (t : ℕ). t * 2 ^ k) (sym (mod-add-div a (2 ^ low))))))

lower : (a v low k : ℕ) → v < 2 ^ k → (a * 2 ^ k + v) % 2 ^ (low + k) ≡ a % 2 ^ low * 2 ^ k + v
lower a v low k h = rw pow-add (
    mod_unique (a * 2 ^ k + v) (2 ^ low * 2 ^ k) (a / 2 ^ low) (a % 2 ^ low * 2 ^ k + v)
      (step_below (a % 2 ^ low) v (2 ^ low) (2 ^ k) (mod-lt a (pow-pos low)) h)
      (omega (arith, ap (λ (t : ℕ). t * 2 ^ k) (sym (mod-add-div a (2 ^ low))))))

mod-high : (x a b : ℕ) → x % 2 ^ (a + b) ≡ x % 2 ^ a + 2 ^ a * (x / 2 ^ a % 2 ^ b)
mod-high x a b = rw pow-add (mod-mul x (2 ^ a) (2 ^ b) (pow-pos a) (pow-pos b))

field : (x a b : ℕ) → x % 2 ^ (a + b) / 2 ^ a ≡ x / 2 ^ a % 2 ^ b
field x a b =
    div_unique (x % 2 ^ (a + b)) (2 ^ a) (x / 2 ^ a % 2 ^ b) (x % 2 ^ a) (mod-lt x (pow-pos a))
      (omega (arith, mod-high x a b))

pub under : (x a b : ℕ) → x % 2 ^ (a + b) % 2 ^ a ≡ x % 2 ^ a
under x a b =
    mod_unique (x % 2 ^ (a + b)) (2 ^ a) (x / 2 ^ a % 2 ^ b) (x % 2 ^ a) (mod-lt x (pow-pos a))
      (omega (arith, mod-high x a b))

-- Two cuts are one.
pub joined : (x a k : ℕ) → x / 2 ^ (a + k) * 2 ^ k + x % 2 ^ (a + k) / 2 ^ a ≡ x / 2 ^ a
joined x a k =
    omega (
      arith,
      field x a k,
      mod-add-div (x / 2 ^ a) (2 ^ k),
      ap (λ (t : ℕ). t * 2 ^ k) (shifts x a k),
    )
  where
    shifts : (x a k : ℕ) → x / 2 ^ (a + k) ≡ x / 2 ^ a / 2 ^ k
    shifts x a k = rw pow-add (sym (div-div-eq-div-mul x (2 ^ a) (2 ^ k)))

power_below : (n : ℕ) → n ≤ 8 → 2 ^ n ≤ 256
power_below n h = pow-le-pow_right {n = 2} (omega arith) {i = n} {j = 8} h

-- The part of the byte that a round takes.
pub part_msb :
    (p n byte : ℕ)
    → p + n ≤ 8
    → bit_and byte ((2 ^ n - 1) * 2 ^ (8 - (n + p)) % 2 ^ 16) / 2 ^ (8 - (n + p)) % 2 ^ 8
      ≡ byte / 2 ^ (8 - (n + p)) % 2 ^ n
part_msb p n byte h =
    rw (mod-eq_of_lt fits, bit_and-field (8 - (n + p)) n byte)
      (mod-eq_of_lt
        (omega (arith, mod-lt (byte / 2 ^ (8 - (n + p))) (pow-pos n), power_below n (omega arith))))
  where
    product : 2 ^ n * 2 ^ (8 - (n + p)) ≤ 256
    product = omega (arith, pow-add n (8 - (n + p)), power_below (n + (8 - (n + p))) (omega arith))

    fits : (2 ^ n - 1) * 2 ^ (8 - (n + p)) < 2 ^ 16
    fits = omega (
      arith,
      product,
      mul-le-mul_right {m = 2 ^ n - 1} {n = 2 ^ n} (2 ^ (8 - (n + p))) (omega arith),
    )

-- The next `n` bits are those of the front byte.
pub next_high :
    (p n byte : ℕ) (rest : List ℕ)
    → p + n ≤ 8
    → AllBytes rest
    → high_remaining (byte ∷ rest) p / 2 ^ (left (byte ∷ rest) p - n)
      ≡ byte / 2 ^ (8 - (n + p)) % 2 ^ n
next_high p n byte rest h hs =
    rw
      (
        above,
        upper (byte % 2 ^ (8 - p)) (high_value rest) (8 - (n + p)) (8 * length rest)
            (high_value-below rest hs),
        around,
      )
      (field byte (8 - (n + p)) n)
  where
    above : left (byte ∷ rest) p - n ≡ 8 - (n + p) + 8 * length rest
    above = omega arith

    around : 8 - p ≡ 8 - (n + p) + n
    around = omega arith

none_kept : (x p v : ℕ) → v ≡ x % 2 ^ 0 * p + v
none_kept x p v = omega (arith, ap (λ (t : ℕ). t * p) (mod-one x))

pub bytes_left : (rest : List ℕ) → AllBytes rest → high_remaining rest 0 ≡ high_value rest
bytes_left [] h = refl
bytes_left (b ∷ bs) (hb, hs) =
    ap (λ (t : ℕ). t * 2 ^ (8 * length bs) + high_value bs) (mod-eq_of_lt hb)

-- What is left after `n` bits.
pub high_remaining-advance :
    (n byte : ℕ) (rest : List ℕ) (c : Cursor)
    → AllBytes rest
    → c.src_pos < 8
    → c.src_pos + n ≤ 8
    → high_remaining (advance n byte rest c).source (advance n byte rest c).src_pos
      ≡ high_remaining (byte ∷ rest) c.src_pos % 2 ^ (left (byte ∷ rest) c.src_pos - n)
unfolding advance
high_remaining-advance n byte rest c hs hp h =
    rw
      (
        above,
        lower (byte % 2 ^ (8 - c.src_pos)) (high_value rest) (8 - (n + c.src_pos)) (8 * length rest)
            (high_value-below rest hs),
        around,
        under byte (8 - (n + c.src_pos)) n,
      )
      (elim (Bool-cases (ltb 7 (c.src_pos + n))) [
        | inl y ↦
            let none : 8 - (n + c.src_pos) ≡ 0 = ground arith in
            rw (y, advance, none)
              (rw (bytes_left rest hs) (none_kept byte (2 ^ (8 * length rest)) (high_value rest)))
        | inr y ↦
            rw (y, advance)
              (ap (λ (k : ℕ). byte % 2 ^ (8 - k) * 2 ^ (8 * length rest) + high_value rest) turned)
      ])
  where
    above : left (byte ∷ rest) c.src_pos - n ≡ 8 - (n + c.src_pos) + 8 * length rest
    above = omega arith

    around : 8 - c.src_pos ≡ 8 - (n + c.src_pos) + n
    around = omega arith

    turned : c.src_pos + n ≡ n + c.src_pos
    turned = omega arith
