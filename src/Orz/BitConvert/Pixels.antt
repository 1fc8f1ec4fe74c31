-- ===== src/Orz/BitConvert/Pixels.antt =====
-- The pixels of packed bytes.
use Prim.Native.Nat.{bit_and}
use pictus.Base.{
  ℕ, zero, suc, ◌+◌, ◌*◌, ◌/◌, ◌%◌, ◌^◌, ◌<◌, ◌≤◌, ◌≡◌, refl, sym, ap, ◌∙◌, arith, Option, none,
  some, List, [], ◌∷◌, ◌++◌, length, take,
}
use mathlib.Core.Path.{ap₂}
use pictus.Base.Bits.{bit_and-field, bit_and-mask}
use pictus.Orz.StreamConverter.Round.{AllBytes}
use pictus.Orz.BitConvert.{
  bits_of, crumbs_of, whole_crumbs, whole_nibbles, whole_bytes, extra_byte, extra_nibble,
  bits_to_bytes, crumbs_to_bytes, nibbles_to_bytes, shift_byte,
}

-- The pixels of a byte, highest first, by division.
abbrev pub bit_pixels : ℕ → List ℕ
bit_pixels b =
    b / 128 ∷ b / 64 % 2 ∷ b / 32 % 2 ∷ b / 16 % 2 ∷ b / 8 % 2 ∷ b / 4 % 2 ∷ b / 2 % 2 ∷ b % 2 ∷ []

abbrev pub crumb_pixels : ℕ → List ℕ
crumb_pixels b = b / 64 ∷ b / 16 % 4 ∷ b / 4 % 4 ∷ b % 4 ∷ []

abbrev pub nibble_pixels : ℕ → List ℕ
nibble_pixels b = b / 16 ∷ b % 16 ∷ []

abbrev pub pixels : (ℕ → List ℕ) → List ℕ → List ℕ
pixels split [] = []
pixels split (b ∷ bs) = split b ++ pixels split bs

top_bit : (b : ℕ) → b < 256 → bit_and b 0x80 / 2 ^ 7 ≡ b / 128
top_bit b h = omega (arith, bit_and-field 7 1 b)

top_crumb : (b : ℕ) → b < 256 → bit_and b 0xc0 / 2 ^ 6 ≡ b / 64
top_crumb b h = omega (arith, bit_and-field 6 2 b)

take_within : (n : ℕ) (xs ys : List ℕ) → n ≤ length xs → take n (xs ++ ys) ≡ take n xs
take_within zero xs ys h = refl
take_within (suc n) [] ys h = absurd (omega arith)
take_within (suc n) (x ∷ xs) ys h = ap (λ (l : List ℕ). x ∷ l) (take_within n xs ys (omega arith))

take_past : (n : ℕ) (xs ys : List ℕ) → take (length xs + n) (xs ++ ys) ≡ xs ++ take n ys
take_past n [] ys = ap (λ (k : ℕ). take k ys) (omega arith)
take_past n (x ∷ xs) ys =
    ap (λ (k : ℕ). take k (x ∷ xs ++ ys)) (later n (length xs))
    ∙ ap (λ (l : List ℕ). x ∷ l) (take_past n xs ys)
  where
    later : (n k : ℕ) → suc k + n ≡ suc (k + n)
    later n k = omega arith

-- The pixels of a byte that has been shifted: the first one is gone.
shifted_bits :
    (b : ℕ)
    → b < 256
    → bit_pixels (shift_byte 1 b)
      ≡ (b / 64 % 2 ∷ b / 32 % 2 ∷ b / 16 % 2 ∷ b / 8 % 2 ∷ b / 4 % 2 ∷ b / 2 % 2 ∷ b % 2 ∷ [])
        ++ 0 ∷ []
shifted_bits b h = ap₂ ◌∷◌ (omega arith) (
    ap₂ ◌∷◌ (omega arith) (
      ap₂ ◌∷◌ (omega arith) (
        ap₂ ◌∷◌ (omega arith) (
          ap₂ ◌∷◌ (omega arith)
            (ap₂ ◌∷◌ (omega arith) (ap₂ ◌∷◌ (omega arith) (ap₂ ◌∷◌ (omega arith) refl)))))))

shifted_crumbs :
    (b : ℕ)
    → b < 256
    → crumb_pixels (shift_byte 2 b) ≡ (b / 16 % 4 ∷ b / 4 % 4 ∷ b % 4 ∷ []) ++ 0 ∷ []
shifted_crumbs b h =
    ap₂ ◌∷◌ (omega arith)
      (ap₂ ◌∷◌ (omega arith) (ap₂ ◌∷◌ (omega arith) (ap₂ ◌∷◌ (omega arith) refl)))

bits_of-take : (n b : ℕ) → n ≤ 8 → b < 256 → bits_of n b ≡ take n (bit_pixels b)
unfolding bits_of
bits_of-take zero b hn hb = refl
bits_of-take (suc n) b hn hb = ap₂ ◌∷◌ (top_bit b hb) (
    bits_of-take n (shift_byte 1 b) (omega arith) (omega arith)
    ∙ ap (take n) (shifted_bits b hb)
    ∙ take_within n _ (0 ∷ []) (omega arith))

crumbs_of-take : (n b : ℕ) → n ≤ 4 → b < 256 → crumbs_of n b ≡ take n (crumb_pixels b)
unfolding crumbs_of
crumbs_of-take zero b hn hb = refl
crumbs_of-take (suc n) b hn hb = ap₂ ◌∷◌ (top_crumb b hb) (
    crumbs_of-take n (shift_byte 2 b) (omega arith) (omega arith)
    ∙ ap (take n) (shifted_crumbs b hb)
    ∙ take_within n _ (0 ∷ []) (omega arith))

whole_crumbs_lem : (b : ℕ) → b < 256 → whole_crumbs b ≡ crumb_pixels b
unfolding whole_crumbs
whole_crumbs_lem b h = ap₂ ◌∷◌ (top_crumb b h) (
    ap₂ ◌∷◌ (omega (arith, bit_and-field 4 2 b)) (
      ap₂ ◌∷◌ (omega (arith, bit_and-field 2 2 b))
        (ap₂ ◌∷◌ (omega (arith, bit_and-mask 2 b)) refl)))

whole_nibbles_lem : (b : ℕ) → b < 256 → whole_nibbles b ≡ nibble_pixels b
unfolding whole_nibbles
whole_nibbles_lem b h =
    ap₂ ◌∷◌ (omega (arith, bit_and-field 4 4 b)) (ap₂ ◌∷◌ (omega (arith, bit_and-mask 4 b)) refl)

-- The loop over the whole bytes, with `k` pixels behind them that need `need` more bytes.
module _ (expand split : ℕ → List ℕ) (per k need : ℕ) (rest : List ℕ → Option (List ℕ))
    (same : (b : ℕ) → b < 256 → expand b ≡ split b) (count : (b : ℕ) → length (split b) ≡ per)
    (ends : (source : List ℕ)
      → AllBytes source
      → need ≤ length source
      → rest source ≡ some (take k (pixels split source))) where
  whole_bytes-pixels :
      (n : ℕ) (source : List ℕ)
      → AllBytes source
      → n + need ≤ length source
      → whole_bytes expand rest n source ≡ some (take (per * n + k) (pixels split source))
  unfolding whole_bytes
  whole_bytes-pixels zero source v h =
      ends source v (omega arith)
      ∙ ap (λ (j : ℕ). some (take j (pixels split source))) (omega arith)
  whole_bytes-pixels (suc n) [] v h = absurd (omega arith)
  whole_bytes-pixels (suc n) (b ∷ source) v h =
      rw (whole_bytes-pixels n source v.1 (omega arith), whole_bytes)
        (ap some (
          ap (λ (l : List ℕ). l ++ take (per * n + k) (pixels split source)) (same b v.0)
          ∙ sym (counted n b)))
    where
      counted :
          (n b : ℕ)
          → take (per * suc n + k) (split b ++ pixels split source)
            ≡ split b ++ take (per * n + k) (pixels split source)
      counted n b =
          ap (λ (j : ℕ). take j (split b ++ pixels split source)) (omega (arith, count b))
          ∙ take_past (per * n + k) (split b) (pixels split source)

extra_bits :
    (k : ℕ) (source : List ℕ)
    → k ≤ 8
    → AllBytes source
    → 1 ≤ length source
    → extra_byte bits_of k source ≡ some (take k (pixels bit_pixels source))
unfolding extra_byte
extra_bits k [] hk v h = absurd (omega arith)
extra_bits k (b ∷ source) hk v h = ap some (
    bits_of-take k b hk v.0
    ∙ sym (take_within k (bit_pixels b) (pixels bit_pixels source) (omega arith)))

extra_crumbs :
    (k : ℕ) (source : List ℕ)
    → k ≤ 4
    → AllBytes source
    → 1 ≤ length source
    → extra_byte crumbs_of k source ≡ some (take k (pixels crumb_pixels source))
unfolding extra_byte
extra_crumbs k [] hk v h = absurd (omega arith)
extra_crumbs k (b ∷ source) hk v h = ap some (
    crumbs_of-take k b hk v.0
    ∙ sym (take_within k (crumb_pixels b) (pixels crumb_pixels source) (omega arith)))

extra_nibbles :
    (k : ℕ) (source : List ℕ)
    → k ≤ 1
    → AllBytes source
    → k ≤ length source
    → extra_nibble k source ≡ some (take k (pixels nibble_pixels source))
unfolding extra_nibble
extra_nibbles zero source hk v h = refl
extra_nibbles (suc k) [] hk v h = absurd (omega arith)
extra_nibbles (suc zero) (b ∷ source) hk v h =
    ap some (ap₂ ◌∷◌ (omega (arith, bit_and-field 4 4 b, v.0)) refl)
extra_nibbles (suc (suc k)) (b ∷ source) hk v h = absurd (omega arith)

-- BitsToBytes, for a source with a byte behind the whole ones: one pixel for each of the first
-- `num_bits` bits, the highest bit of each byte first.
pub bits_to_bytes-pixels :
    (num_bits : ℕ) (source : List ℕ)
    → AllBytes source
    → num_bits / 8 < length source
    → bits_to_bytes num_bits source ≡ some (take num_bits (pixels bit_pixels source))
unfolding bits_to_bytes
bits_to_bytes-pixels num_bits source v h = rw (bit_and-mask 3 num_bits) (
    whole_bytes-pixels (bits_of 8) bit_pixels 8 (num_bits % 8) 1 (extra_byte bits_of (num_bits % 8))
      (λ b hb. bits_of-take 8 b (omega arith) hb) (λ b. refl)
      (λ s vs hs. extra_bits (num_bits % 8) s (omega arith) vs hs) (num_bits / 8) source v
      (omega arith)
    ∙ ap (λ (j : ℕ). some (take j (pixels bit_pixels source))) (omega arith))

-- CrumbsToBytes, for a source with a byte behind the whole ones: one pixel for each of the first
-- `num_crumbs` pairs of bits, the highest pair of each byte first.
pub crumbs_to_bytes-pixels :
    (num_crumbs : ℕ) (source : List ℕ)
    → AllBytes source
    → num_crumbs / 4 < length source
    → crumbs_to_bytes num_crumbs source ≡ some (take num_crumbs (pixels crumb_pixels source))
unfolding crumbs_to_bytes
crumbs_to_bytes-pixels num_crumbs source v h = rw (bit_and-mask 2 num_crumbs) (
    whole_bytes-pixels whole_crumbs crumb_pixels 4 (num_crumbs % 4) 1
      (extra_byte crumbs_of (num_crumbs % 4)) whole_crumbs_lem (λ b. refl)
      (λ s vs hs. extra_crumbs (num_crumbs % 4) s (omega arith) vs hs) (num_crumbs / 4) source v
      (omega arith)
    ∙ ap (λ (j : ℕ). some (take j (pixels crumb_pixels source))) (omega arith))

-- NibblesToBytes, for a source with as many nibbles: one pixel for each of the first `num_nibbles`
-- nibbles, the high one of each byte first.
pub nibbles_to_bytes-pixels :
    (num_nibbles : ℕ) (source : List ℕ)
    → AllBytes source
    → num_nibbles ≤ 2 * length source
    → nibbles_to_bytes num_nibbles source ≡ some (take num_nibbles (pixels nibble_pixels source))
unfolding nibbles_to_bytes
nibbles_to_bytes-pixels num_nibbles source v h = rw (bit_and-mask 1 num_nibbles) (
    whole_bytes-pixels whole_nibbles nibble_pixels 2 (num_nibbles % 2) (num_nibbles % 2)
      (extra_nibble (num_nibbles % 2)) whole_nibbles_lem (λ b. refl)
      (λ s vs hs. extra_nibbles (num_nibbles % 2) s (omega arith) vs hs) (num_nibbles / 2) source v
      (omega arith)
    ∙ ap (λ (j : ℕ). some (take j (pixels nibble_pixels source))) (omega arith))

exhausted :
    (expand : ℕ → List ℕ) (rest : List ℕ → Option (List ℕ)) (source : List ℕ)
    → rest [] ≡ none
    → whole_bytes expand rest (length source) source ≡ none
unfolding whole_bytes
exhausted expand rest [] h = h
exhausted expand rest (b ∷ source) h = rw (exhausted expand rest source h, whole_bytes) refl

-- BitsToBytes of all the bits of a source reads a byte behind its end.
pub bits_to_bytes-all : (source : List ℕ) → bits_to_bytes (8 * length source) source ≡ none
unfolding bits_to_bytes extra_byte
bits_to_bytes-all source = rw (whole, bits_to_bytes) (exhausted (bits_of 8) _ source refl)
  where
    whole : 8 * length source / 8 ≡ length source
    whole = omega arith
