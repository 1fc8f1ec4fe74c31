-- ===== src/Orz/StreamConverter/Lsb/Rounds.antt =====
-- One round of `GetWord` (source/deps/orz/streamconv.cpp).
use Prim.Native.Nat.{bit_and, bit_or}
use native.Mathlib.Nat.{mod-lt, mul-le-mul_left}
use pictus.Base.{
  ℕ, suc, ◌+◌, ◌-◌, ◌*◌, ◌/◌, ◌%◌, ◌^◌, ◌<◌, ◌≤◌, ◌≡◌, refl, sym, ap, subst, arith, List, ◌∷◌, min,
}
use pictus.Base.Bits.{bit_or-shifted, pow-pos, pow-add}
use pictus.Orz.StreamConverter.{Cursor, round_lsb, to_copy}
use pictus.Orz.StreamConverter.Round.{
  AllBytes, remaining, left, part_lsb, next_bits, advance-bytes, advance-in_byte, remaining-advance,
  left-advance,
}

-- What holds between two rounds of a word of `w` bits.
pub record IsReading (w : ℕ) (c : Cursor) : Type 0 where
  pub bytes : AllBytes c.source
  pub in_byte : c.src_pos < 8
  pub together : c.dst_pos ≡ c.copied
  pub below : c.copied ≤ w
  pub fits : c.currchar < 2 ^ c.copied

abbrev bits_taken : ℕ → Cursor → ℕ
bits_taken w c = min (8 - c.src_pos) (w - c.copied)

to_copy_lem : (w : ℕ) (c : Cursor) → w < 256 → to_copy w c ≡ bits_taken w c
to_copy_lem w c h = omega arith

grows : (x y k n : ℕ) → x < 2 ^ k → y < 2 ^ n → x + y * 2 ^ k < 2 ^ (k + n)
grows x y k n hx hy = omega (arith, pow-add k n, mul-le-mul_left {m = suc y} {n = 2 ^ n} (2 ^ k) hy)

-- One round, where the front byte is `byte`.
pub record Took (w byte : ℕ) (rest : List ℕ) (c d : Cursor) : Type 0 where
  pub n : ℕ
  pub at_most : c.copied + n ≤ w
  pub progress : (c.copied < w) → 0 < n
  pub copied : d.copied ≡ c.copied + n
  pub word : d.currchar ≡ c.currchar + remaining (byte ∷ rest) c.src_pos % 2 ^ n * 2 ^ c.copied
  pub shifted : remaining d.source d.src_pos ≡ remaining (byte ∷ rest) c.src_pos / 2 ^ n
  pub shorter : left d.source d.src_pos + n ≡ left (byte ∷ rest) c.src_pos
  pub reading : IsReading w d

-- The accumulated word after `n` more bits.
word_lsb :
    (n byte : ℕ) (rest : List ℕ) (c : Cursor)
    → c.src_pos + n ≤ 8
    → c.dst_pos ≡ c.copied
    → c.currchar < 2 ^ c.copied
    → bit_or c.currchar (
        bit_and byte ((2 ^ n - 1) % 2 ^ 16 * 2 ^ c.src_pos % 2 ^ 16)
        / 2 ^ c.src_pos
        % 2 ^ 8
        * 2 ^ c.dst_pos)
      ≡ c.currchar + remaining (byte ∷ rest) c.src_pos % 2 ^ n * 2 ^ c.copied
word_lsb n byte rest c h together fits =
    rw (part_lsb c.src_pos n byte h, sym (next_bits c.src_pos n byte rest h), together)
      (bit_or-shifted c.copied c.currchar (remaining (byte ∷ rest) c.src_pos % 2 ^ n) fits)

pub round_lsb-Took :
    (w byte : ℕ) (rest : List ℕ) (c : Cursor)
    → w < 256
    → c.source ≡ byte ∷ rest
    → IsReading w c
    → Took w byte rest c (round_lsb w byte rest c)
unfolding round_lsb
round_lsb-Took w byte rest c small e v = record {
  n = n;
  at_most = omega (arith, v.below);
  progress = λ h. omega (arith, v.in_byte);
  copied = refl;
  word = word;
  shifted = remaining-advance n byte rest c bytes.0 v.in_byte room;
  shorter = left-advance n byte rest c v.in_byte room;
  reading = record {
    bytes = advance-bytes n byte rest c bytes;
    in_byte = advance-in_byte n byte rest c;
    together = ap (λ (k : ℕ). k + n) v.together;
    below = omega (arith, v.below);
    fits = rw word (
        grows c.currchar (remaining (byte ∷ rest) c.src_pos % 2 ^ n) c.copied n v.fits
          (mod-lt _ (pow-pos n)));
  };
}
  where
    n : ℕ
    n = to_copy w c

    room : c.src_pos + n ≤ 8
    room = omega (arith, v.in_byte)

    bytes : (byte < 256) × AllBytes rest
    bytes = subst AllBytes e v.bytes

    word :
        (round_lsb w byte rest c).currchar
        ≡ c.currchar + remaining (byte ∷ rest) c.src_pos % 2 ^ n * 2 ^ c.copied
    word = word_lsb n byte rest c room v.together v.fits
