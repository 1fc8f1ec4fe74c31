-- ===== src/Orz/StreamConverter/Round.antt =====
-- One round of the loops: the bits that it takes from the front byte, and what is left of the
-- stream.
use Prim.Native.Nat.{bit_and}
use native.Mathlib.Nat.{
  pow-le-pow_right, div-div-eq-div-mul, add-mul-div_left, add-mul-mod_self_left, mod-eq_of_lt,
  mod-lt, mul-le-mul_right,
}
use pictus.Base.{
  ℕ, ◌+◌, ◌-◌, ◌*◌, ◌/◌, ◌%◌, ◌^◌, ◌<◌, ◌≤◌, ◌≡◌, refl, sym, ap, ◌∙◌, arith, List, [], ◌∷◌, ltb,
  length, Bool-cases, inl, inr, ◌⊎◌,
}
use pictus.Base.Bits.{bit_and-field, pow-pos, pow-add, div_unique}
use pictus.Orz.StreamConverter.{Cursor, advance}

-- The bytes as one number, the first byte lowest.
abbrev pub value : List ℕ → ℕ
value [] = 0
value (b ∷ bs) = b + 256 * value bs

abbrev pub AllBytes : List ℕ → Type 0
AllBytes [] = Unit
AllBytes (b ∷ bs) = (b < 256) × AllBytes bs

-- The bits that are left, the next one lowest, and their number.
abbrev pub remaining : List ℕ → ℕ → ℕ
remaining source src_pos = value source / 2 ^ src_pos

abbrev pub left : List ℕ → ℕ → ℕ
left source src_pos = 8 * length source - src_pos

power_below : (n : ℕ) → n ≤ 8 → 2 ^ n ≤ 256
power_below n h = pow-le-pow_right {n = 2} (omega arith) {i = n} {j = 8} h

-- A mask of `n` bits at `p` fits the byte.
mask_fits : (p n : ℕ) → p + n ≤ 8 → (2 ^ n - 1) % 2 ^ 16 * 2 ^ p % 2 ^ 16 ≡ (2 ^ n - 1) * 2 ^ p
mask_fits p n h = rw inner (mod-eq_of_lt outer)
  where
    inner : (2 ^ n - 1) % 2 ^ 16 ≡ 2 ^ n - 1
    inner = mod-eq_of_lt (omega (arith, power_below n (omega arith)))

    product : 2 ^ n * 2 ^ p ≤ 256
    product = omega (arith, pow-add n p, power_below (n + p) (omega arith))

    outer : (2 ^ n - 1) * 2 ^ p < 2 ^ 16
    outer =
        omega (arith, product, mul-le-mul_right {m = 2 ^ n - 1} {n = 2 ^ n} (2 ^ p) (omega arith))

-- The part of the byte that a round of `GetWord` takes.
pub part_lsb :
    (p n byte : ℕ)
    → p + n ≤ 8
    → bit_and byte ((2 ^ n - 1) % 2 ^ 16 * 2 ^ p % 2 ^ 16) / 2 ^ p % 2 ^ 8 ≡ byte / 2 ^ p % 2 ^ n
part_lsb p n byte h =
    rw (mask_fits p n h, bit_and-field p n byte)
      (mod-eq_of_lt (omega (arith, mod-lt (byte / 2 ^ p) (pow-pos n), power_below n (omega arith))))

byte_power : (p n : ℕ) → p + n ≤ 8 → 256 ≡ 2 ^ p * (2 ^ n * 2 ^ (8 - (p + n)))
byte_power p n h =
    let e : p + (n + (8 - (p + n))) ≡ 8 = omega arith in
    sym (ap (λ (k : ℕ). 2 ^ k) e)
    ∙ pow-add p (n + (8 - (p + n)))
    ∙ ap (λ (t : ℕ). 2 ^ p * t) (pow-add n (8 - (p + n)))

-- The next `n` bits are those of the front byte.
pub next_bits :
    (p n byte : ℕ) (rest : List ℕ)
    → p + n ≤ 8
    → remaining (byte ∷ rest) p % 2 ^ n ≡ byte / 2 ^ p % 2 ^ n
next_bits p n byte rest h = rw above (
    rw (add-mul-div_left byte (2 ^ n * (2 ^ (8 - (p + n)) * value rest)) (pow-pos p))
      (add-mul-mod_self_left (byte / 2 ^ p) (2 ^ n) (2 ^ (8 - (p + n)) * value rest)))
  where
    above : byte + 256 * value rest ≡ byte + 2 ^ p * (2 ^ n * (2 ^ (8 - (p + n)) * value rest))
    above = omega (arith, ap (λ (t : ℕ). t * value rest) (byte_power p n h))

whole_byte :
    (p n byte v : ℕ) → byte < 256 → p + n ≡ 8 → v / 2 ^ 0 ≡ (byte + 256 * v) / 2 ^ p / 2 ^ n
whole_byte p n byte v hb h = omega (
  arith,
  div-div-eq-div-mul (byte + 256 * v) (2 ^ p) (2 ^ n),
  div_unique (byte + 256 * v) (2 ^ p * 2 ^ n) v byte (omega (arith, all))
      (omega (arith, ap (λ (t : ℕ). t * v) all)),
)
  where
    all : 2 ^ p * 2 ^ n ≡ 256
    all = sym (pow-add p n) ∙ ap (λ (k : ℕ). 2 ^ k) h

part_byte : (p n x : ℕ) → x / 2 ^ (p + n) ≡ x / 2 ^ p / 2 ^ n
part_byte p n x = rw pow-add (sym (div-div-eq-div-mul x (2 ^ p) (2 ^ n)))

-- What is left after `n` bits.
pub remaining-advance :
    (n byte : ℕ) (rest : List ℕ) (c : Cursor)
    → byte < 256
    → c.src_pos < 8
    → c.src_pos + n ≤ 8
    → remaining (advance n byte rest c).source (advance n byte rest c).src_pos
      ≡ remaining (byte ∷ rest) c.src_pos / 2 ^ n
unfolding advance
remaining-advance n byte rest c hb hp h = elim (Bool-cases (ltb 7 (c.src_pos + n))) [
  | inl y ↦ rw (y, advance) (whole_byte c.src_pos n byte (value rest) hb (ground arith))
  | inr y ↦ rw (y, advance) (part_byte c.src_pos n (byte + 256 * value rest))
]

pub left-advance :
    (n byte : ℕ) (rest : List ℕ) (c : Cursor)
    → c.src_pos < 8
    → c.src_pos + n ≤ 8
    → left (advance n byte rest c).source (advance n byte rest c).src_pos + n
      ≡ left (byte ∷ rest) c.src_pos
unfolding advance
left-advance n byte rest c hp h = ground arith

pub advance-bytes :
    (n byte : ℕ) (rest : List ℕ) (c : Cursor)
    → (byte < 256) × AllBytes rest
    → AllBytes (advance n byte rest c).source
unfolding advance
advance-bytes n byte rest c h = ground arith

pub advance-in_byte :
    (n byte : ℕ) (rest : List ℕ) (c : Cursor) → (advance n byte rest c).src_pos < 8
unfolding advance
advance-in_byte n byte rest c = ground arith

pub List-cases : (l : List ℕ) → (l ≡ []) ⊎ (b : ℕ) × (bs : List ℕ) × (l ≡ b ∷ bs)
List-cases [] = inl refl
List-cases (b ∷ bs) = inr (b, bs, refl)

pub left-nonempty :
    (source : List ℕ) (p k : ℕ)
    → k ≤ left source p
    → 0 < k
    → (b : ℕ) × (bs : List ℕ) × (source ≡ b ∷ bs)
left-nonempty [] p k h some_bits = absurd (omega arith)
left-nonempty (b ∷ bs) p k h some_bits = (b, bs, refl)
