-- ===== src/Orz/StreamConverter/Bytes.antt =====
-- `GetWordsAsByteMsbToLsb`: the words of the stream, one after the other.
use native.Mathlib.Nat.{pow-le-pow_right, mod-lt, div-lt_iff_lt-mul}
use pictus.Base.{
  ℕ, zero, suc, ◌+◌, ◌-◌, ◌*◌, ◌/◌, ◌%◌, ◌^◌, ◌<◌, ◌≤◌, ◌≡◌, refl, ap, subst, ◌∙◌, arith, List, [],
  ◌∷◌, length,
}
use mathlib.Core.Path.{ap₂}
use pictus.Base.Bits.{pow-pos, pow-add}
use pictus.Orz.StreamConverter.{
  StreamConverter, ok, ◌>>=◌, to_short, to_byte, get_bytes, get_words_as_byte_msb_to_lsb,
}
use pictus.Orz.StreamConverter.Round.{AllBytes, left}
use pictus.Orz.StreamConverter.High.{high_remaining, high_value, high_value-below, step_below}
use pictus.Orz.StreamConverter.Lsb.{IsValid}
use pictus.Orz.StreamConverter.Msb.{HighWordRead, get_word_msb_to_lsb_lem}

-- The first `num` digits of a number of `total` bits, `width` bits each, the highest first.
abbrev pub digits : ℕ → ℕ → ℕ → ℕ → List ℕ
digits width zero number total = []
digits width (suc num) number total =
    number / 2 ^ (total - width) ∷ digits width num (number % 2 ^ (total - width)) (total - width)

high_remaining-below :
    (source : List ℕ) (p : ℕ)
    → AllBytes source
    → p < 8
    → high_remaining source p < 2 ^ left source p
high_remaining-below [] p v h = pow-pos (left [] p)
high_remaining-below (b ∷ bs) p v h =
    rw (split, pow-add (8 - p) (8 * length bs))
      (step_below (b % 2 ^ (8 - p)) (high_value bs) (2 ^ (8 - p)) (2 ^ (8 * length bs))
        (mod-lt b (pow-pos (8 - p))) (high_value-below bs v.1))
  where
    split : left (b ∷ bs) p ≡ 8 - p + 8 * length bs
    split = omega arith

top_digit :
    (x total width : ℕ) → x < 2 ^ total → width ≤ total → x / 2 ^ (total - width) < 2 ^ width
top_digit x total width h k =
    (div-lt_iff_lt-mul {k = 2 ^ (total - width)} {x = x} {y = 2 ^ width}
        (pow-pos (total - width))).1
      (subst (λ (t : ℕ). x < t) (ap (λ (t : ℕ). 2 ^ t) parts ∙ pow-add width (total - width)) h)
  where
    parts : total ≡ width + (total - width)
    parts = omega arith

byte_of_short : (n : ℕ) → n < 256 → to_byte (to_short n) ≡ n
unfolding to_byte to_short
byte_of_short n h = ground arith

-- The words that are read from `s`: the digits of what is left in it.
abbrev pub BytesRead : ℕ → StreamConverter → Type 0
BytesRead num s =
    (t : StreamConverter) × (get_words_as_byte_msb_to_lsb num s
      ≡ ok
          (digits s.word_size num (high_remaining s.source s.src_pos) (left s.source s.src_pos), t))
    × (left t.source t.src_pos + num * s.word_size ≡ left s.source s.src_pos)
    × IsValid t

word_byte :
    (s : StreamConverter)
    → IsValid s
    → s.word_size ≤ 8
    → s.word_size ≤ left s.source s.src_pos
    → to_byte
        (to_short (high_remaining s.source s.src_pos / 2 ^ (left s.source s.src_pos - s.word_size)))
      ≡ high_remaining s.source s.src_pos / 2 ^ (left s.source s.src_pos - s.word_size)
word_byte s v small enough = byte_of_short _ (
    omega (
      arith,
      top_digit (high_remaining s.source s.src_pos) (left s.source s.src_pos) s.word_size
          (high_remaining-below s.source s.src_pos v.bytes v.in_byte) enough,
      pow-le-pow_right {n = 2} (omega arith) {i = s.word_size} {j = 8} small,
    ))

-- One word, and then the others.
next_bytes :
    (num : ℕ) (s : StreamConverter)
    → IsValid s
    → s.word_size ≤ 8
    → s.word_size ≤ left s.source s.src_pos
    → (w : HighWordRead s) → BytesRead num w.0
    → BytesRead (suc num) s
unfolding get_words_as_byte_msb_to_lsb get_bytes
next_bytes num s v small enough (t, got, rest, fewer, size, vt) (u, more, less, vu) =
    (u, reads, omega (arith, less, fewer, ap (λ (k : ℕ). num * k) size), vu)
  where
    word : ℕ
    word = high_remaining s.source s.src_pos / 2 ^ (left s.source s.src_pos - s.word_size)

    gone : left t.source t.src_pos ≡ left s.source s.src_pos - s.word_size
    gone = omega (arith, fewer)

    same :
        digits t.word_size num (high_remaining t.source t.src_pos) (left t.source t.src_pos)
        ≡ digits s.word_size num
            (high_remaining s.source s.src_pos % 2 ^ (left s.source s.src_pos - s.word_size))
            (left s.source s.src_pos - s.word_size)
    same = simp (size, rest, gone) refl

    reads :
        get_words_as_byte_msb_to_lsb (suc num) s
        ≡ ok (
          digits s.word_size
              (suc num)
              (high_remaining s.source s.src_pos)
              (left s.source s.src_pos),
          u,
        )
    reads =
        rw (got, ◌>>=◌)
          (rw (more, ◌>>=◌)
            (ap (λ (l : List ℕ). ok (l, u)) (ap₂ ◌∷◌ (word_byte s v small enough) same)))

one_more : (num w : ℕ) → suc num * w ≡ num * w + w
one_more num w = omega arith

-- GetWordsAsByteMsbToLsb, for words of one to eight bits and a stream with as many: it ends, and
-- the bytes are the digits, of the word size, of what is left in the stream, taken as one number,
-- the highest first; the stream is left valid with the other bits.
pub get_words_as_byte_msb_to_lsb-digits :
    (num : ℕ) (s : StreamConverter)
    → IsValid s
    → 0 < s.word_size
    → s.word_size ≤ 8
    → num * s.word_size ≤ left s.source s.src_pos
    → BytesRead num s
unfolding get_words_as_byte_msb_to_lsb get_bytes
get_words_as_byte_msb_to_lsb-digits zero s v positive small enough = (s, refl, omega arith, v)
get_words_as_byte_msb_to_lsb-digits (suc num) s v positive small enough =
    let sum = one_more num s.word_size in
    let one : s.word_size ≤ left s.source s.src_pos = omega (arith, sum) in
    let (t, got, rest, fewer, size, vt) = get_word_msb_to_lsb_lem s v positive (omega arith) one in
    next_bytes num s v small one (t, got, rest, fewer, size, vt)
      (get_words_as_byte_msb_to_lsb-digits num t vt (rw size positive) (rw size small)
        (omega (arith, sum, fewer, ap (λ (k : ℕ). num * k) size)))
