-- ===== src/Orz/StreamConverter/Msb/Rounds.antt =====
-- One round of `GetWordMsbToLsb` (source/deps/orz/streamconv.cpp).
use Prim.Native.Nat.{bit_and, bit_or}
use native.Mathlib.Nat.{mod-lt, mul-lt-mul_of_pos_right}
use pictus.Base.{
  ℕ, ◌+◌, ◌-◌, ◌*◌, ◌/◌, ◌%◌, ◌^◌, ◌<◌, ◌≤◌, ◌≡◌, refl, ap, subst, ◌∙◌, arith, List, ◌∷◌,
}
use pictus.Base.Bits.{bit_or-below, pow-pos, pow-add}
use pictus.Orz.StreamConverter.{Cursor, round_msb, to_copy}
use pictus.Orz.StreamConverter.Round.{AllBytes, left, left-advance, advance-bytes, advance-in_byte}
use pictus.Orz.StreamConverter.High.{high_remaining, part_msb, next_high, high_remaining-advance}

-- What holds between two rounds of a word of `w` bits, of which `high` are there.
pub record IsReading (w : ℕ) (c : Cursor) : Type 0 where
  pub bytes : AllBytes c.source
  pub in_byte : c.src_pos < 8
  pub together : c.dst_pos ≡ c.copied
  pub below : c.copied ≤ w
  pub high : ℕ
  pub aligned : c.currchar ≡ high * 2 ^ (w - c.copied)

-- One round, where the front byte is `byte`.
pub record Took (w byte : ℕ) (rest : List ℕ) (c d : Cursor) : Type 0 where
  pub n : ℕ
  pub at_most : c.copied + n ≤ w
  pub progress : (c.copied < w) → 0 < n
  pub copied : d.copied ≡ c.copied + n
  pub word :
      d.currchar
      ≡ c.currchar
        + high_remaining (byte ∷ rest) c.src_pos
          / 2 ^ (left (byte ∷ rest) c.src_pos - n)
          * 2 ^ (w - (n + c.copied))
  pub shifted :
      high_remaining d.source d.src_pos
      ≡ high_remaining (byte ∷ rest) c.src_pos % 2 ^ (left (byte ∷ rest) c.src_pos - n)
  pub shorter : left d.source d.src_pos + n ≡ left (byte ∷ rest) c.src_pos
  pub reading : IsReading w d

-- The accumulated word after `n` more bits.
word_msb :
    (n w byte high : ℕ) (rest : List ℕ) (c : Cursor)
    → c.src_pos + n ≤ 8
    → AllBytes rest
    → c.copied + n ≤ w
    → c.dst_pos ≡ c.copied
    → c.currchar ≡ high * 2 ^ (w - c.copied)
    → bit_or c.currchar (
        bit_and byte ((2 ^ n - 1) * 2 ^ (8 - (n + c.src_pos)) % 2 ^ 16)
        / 2 ^ (8 - (n + c.src_pos))
        % 2 ^ 8
        * 2 ^ (w - (n + c.dst_pos)))
      ≡ c.currchar
        + high_remaining (byte ∷ rest) c.src_pos
          / 2 ^ (left (byte ∷ rest) c.src_pos - n)
          * 2 ^ (w - (n + c.copied))
word_msb n w byte high rest c h bytes fits together aligned =
    rw (part_msb c.src_pos n byte h, next_high c.src_pos n byte rest h bytes, together, aligned)
      (bit_or-below (w - c.copied) high part_at below)
  where
    part : ℕ
    part = byte / 2 ^ (8 - (n + c.src_pos)) % 2 ^ n

    part_at : ℕ
    part_at = part * 2 ^ (w - (n + c.copied))

    split : w - c.copied ≡ n + (w - (n + c.copied))
    split = omega arith

    below : part_at < 2 ^ (w - c.copied)
    below =
        rw (split, pow-add n (w - (n + c.copied)))
          (mul-lt-mul_of_pos_right {m = part} {n = 2 ^ n} {k = 2 ^ (w - (n + c.copied))}
            (mod-lt _ (pow-pos n)) (pow-pos (w - (n + c.copied))))

aligned_after : (x n k a m : ℕ) → n + k ≡ m → x * 2 ^ m + a * 2 ^ k ≡ (x * 2 ^ n + a) * 2 ^ k
aligned_after x n k a m h = rw (← h, pow-add n k) (omega arith)

pub round_msb-Took :
    (w byte : ℕ) (rest : List ℕ) (c : Cursor)
    → w < 256
    → c.source ≡ byte ∷ rest
    → IsReading w c
    → Took w byte rest c (round_msb w byte rest c)
unfolding round_msb
round_msb-Took w byte rest c small e v = record {
  n = n;
  at_most = omega (arith, v.below);
  progress = λ h. omega (arith, v.in_byte);
  copied = refl;
  word = word;
  shifted = high_remaining-advance n byte rest c bytes.1 v.in_byte room;
  shorter = left-advance n byte rest c v.in_byte room;
  reading = record {
    bytes = advance-bytes n byte rest c bytes;
    in_byte = advance-in_byte n byte rest c;
    together = ap (λ (k : ℕ). k + n) v.together;
    below = omega (arith, v.below);
    high = v.high * 2 ^ n + taken;
    aligned =
        word
        ∙ rw (v.aligned, turned)
            (aligned_after v.high n (w - (n + c.copied)) taken (w - c.copied)
              (omega (arith, v.below)));
  };
}
  where
    n : ℕ
    n = to_copy w c

    room : c.src_pos + n ≤ 8
    room = omega (arith, v.in_byte)

    bytes : (byte < 256) × AllBytes rest
    bytes = subst AllBytes e v.bytes

    taken : ℕ
    taken = high_remaining (byte ∷ rest) c.src_pos / 2 ^ (left (byte ∷ rest) c.src_pos - n)

    turned : w - (c.copied + n) ≡ w - (n + c.copied)
    turned = omega arith

    word : (round_msb w byte rest c).currchar ≡ c.currchar + taken * 2 ^ (w - (n + c.copied))
    word =
        word_msb n w byte v.high rest c room bytes.1 (omega (arith, v.below)) v.together v.aligned
