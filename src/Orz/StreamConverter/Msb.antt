-- ===== src/Orz/StreamConverter/Msb.antt =====
-- `GetWordMsbToLsb` and the bits of the stream, highest first.
pub mod Rounds
use Prim.Native.Nat.{bit_and, bit_or}
use native.Mathlib.Nat.{mod-lt, mul-lt-mul_of_pos_right}
use pictus.Base.{
  ℕ, zero, suc, ◌+◌, ◌-◌, ◌*◌, ◌/◌, ◌%◌, ◌^◌, ◌<◌, ◌≤◌, ◌≡◌, refl, ap, subst, ◌∙◌, arith, true,
  false, List, ◌∷◌, ltb, Bool-cases, inl, inr,
}
use pictus.Base.Bits.{bit_or-below, pow-pos, pow-add}
use pictus.Orz.StreamConverter.{
  StreamConverter, Cursor, ok, round_msb, loop, to_copy, get_word_msb_to_lsb, start, to_short,
}
use pictus.Orz.StreamConverter.Round.{
  AllBytes, left, left-advance, advance-bytes, advance-in_byte, left-nonempty,
}
use pictus.Orz.StreamConverter.High.{
  high_remaining, part_msb, next_high, high_remaining-advance, under, joined,
}
use pictus.Orz.StreamConverter.Lsb.{IsValid}
use pictus.Orz.StreamConverter.Msb.Rounds.{IsReading, Took, round_msb-Took}

-- The loop from `c`: the word with all its bits, and what is left.
record Reads (w : ℕ) (c d : Cursor) : Type 0 where
  word :
      d.currchar
      ≡ c.currchar
        + high_remaining c.source c.src_pos / 2 ^ (left c.source c.src_pos - (w - c.copied))
  rest :
      high_remaining d.source d.src_pos
      ≡ high_remaining c.source c.src_pos % 2 ^ (left c.source c.src_pos - (w - c.copied))
  fewer : left d.source d.src_pos + (w - c.copied) ≡ left c.source c.src_pos
  bytes : AllBytes d.source
  in_byte : d.src_pos < 8

-- What a run of the loop from `c` is to do.
abbrev Runs : ℕ → ℕ → Cursor → Type 0
Runs fuel w c = (d : Cursor) × (loop round_msb fuel w c ≡ ok d) × Reads w c d

-- The round that ends the word.
last_round :
    (fuel w byte : ℕ) (bs : List ℕ) (c d : Cursor)
    → c.source ≡ byte ∷ bs
    → round_msb w byte bs c ≡ d
    → Took w byte bs c d
    → ltb d.copied w ≡ false
    → Runs (suc fuel) w c
unfolding loop
last_round fuel w byte bs c d e r t ends = (d, runs, reads)
  where
    all : w - c.copied ≡ t.n
    all = ground (arith, t.at_most, t.copied)

    none : w - (t.n + c.copied) ≡ 0
    none = ground (arith, t.at_most, t.copied)

    runs : loop round_msb (suc fuel) w c ≡ ok d
    runs = rw (e, loop, r, ends) refl

    reads : Reads w c d
    reads = record {
      word = rw (e, all) (rw none at t.word ∙ omega arith);
      rest = rw (e, all) t.shifted;
      fewer = rw (e, all) t.shorter;
      bytes = t.reading.bytes;
      in_byte = t.reading.in_byte;
    }

-- A round before the last one.
more_rounds :
    (fuel w byte : ℕ) (bs : List ℕ) (c d : Cursor)
    → c.source ≡ byte ∷ bs
    → round_msb w byte bs c ≡ d
    → w - c.copied ≤ left (byte ∷ bs) c.src_pos
    → Took w byte bs c d
    → ltb d.copied w ≡ true
    → Runs fuel w d
    → Runs (suc fuel) w c
unfolding loop
more_rounds fuel w byte bs c d e r enough t goes (f, runs, reads) = (
  f,
  now,
  record {
    word = rw e (
        reads.word
        ∙ rw (t.word, t.shifted, cut, between)
            (word_joined c.currchar all above k (w - (t.n + c.copied)) same));
    rest = rw e (reads.rest ∙ rw (t.shifted, cut, between) (under all above k));
    fewer = rw e (omega (arith, reads.fewer, t.shorter, sum));
    bytes = reads.bytes;
    in_byte = reads.in_byte;
  },
)
  where
    all : ℕ
    all = high_remaining (byte ∷ bs) c.src_pos

    above : ℕ
    above = left (byte ∷ bs) c.src_pos - (w - c.copied)

    k : ℕ
    k = w - d.copied

    sum : t.n + (w - d.copied) ≡ w - c.copied
    sum = omega (arith, t.at_most, t.copied)

    same : w - (t.n + c.copied) ≡ k
    same = omega (arith, t.copied)

    cut : left d.source d.src_pos - (w - d.copied) ≡ above
    cut = omega (arith, sum, t.shorter)

    between : left (byte ∷ bs) c.src_pos - t.n ≡ above + k
    between = omega (arith, sum, enough)

    word_joined :
        (x r a k m : ℕ)
        → m ≡ k
        → x + r / 2 ^ (a + k) * 2 ^ m + r % 2 ^ (a + k) / 2 ^ a ≡ x + r / 2 ^ a
    word_joined x r a k m h = rw h (omega (arith, joined r a k))

    now : loop round_msb (suc fuel) w c ≡ ok f
    now = rw (e, loop, r, goes) runs

loop-Reads :
    (fuel w : ℕ) (c : Cursor)
    → w < 256
    → IsReading w c
    → c.copied < w
    → w - c.copied < fuel
    → w - c.copied ≤ left c.source c.src_pos
    → Runs fuel w c
loop-Reads zero w c small v more room enough = absurd (omega arith)
loop-Reads (suc fuel) w c small v more room enough =
    let (byte, bs, e) = left-nonempty c.source c.src_pos (w - c.copied) enough (omega arith) in
    let d = round_msb w byte bs c in
    let t = round_msb-Took w byte bs c small e v in
    let shorter = subst (λ (s : List ℕ). w - c.copied ≤ left s c.src_pos) e enough in
    elim (Bool-cases (ltb d.copied w)) [
      | inl goes ↦ more_rounds fuel w byte bs c d e refl shorter t goes (
          loop-Reads fuel w d small t.reading (ground arith)
            (omega (arith, t.progress more, t.copied)) (omega (arith, t.shorter, t.copied)))
      | inr ends ↦ last_round fuel w byte bs c d e refl t ends
    ]

abbrev pub HighWordRead : StreamConverter → Type 0
HighWordRead s =
    (t : StreamConverter) × (get_word_msb_to_lsb s
      ≡ ok (
        to_short (high_remaining s.source s.src_pos / 2 ^ (left s.source s.src_pos - s.word_size)),
        t,
      ))
    × (high_remaining t.source t.src_pos
        ≡ high_remaining s.source s.src_pos % 2 ^ (left s.source s.src_pos - s.word_size))
    × (left t.source t.src_pos + s.word_size ≡ left s.source s.src_pos)
    × (t.word_size ≡ s.word_size)
    × IsValid t

word_read :
    (s : StreamConverter) (d : Cursor)
    → loop round_msb (s.word_size + 1) s.word_size (start s) ≡ ok d
    → Reads s.word_size (start s) d
    → HighWordRead s
unfolding get_word_msb_to_lsb
word_read s d runs reads = (
  record s { source = d.source; src_pos = d.src_pos },
  rw runs (
      ap (λ (n : ℕ). ok (to_short n, record s { source = d.source; src_pos = d.src_pos }))
        (rw (reads.word, whole) (omega arith))),
  rw whole at reads.rest,
  rw whole at reads.fewer,
  refl,
  record { bytes = reads.bytes; in_byte = reads.in_byte },
)
  where
    whole : s.word_size - 0 ≡ s.word_size
    whole = omega arith

-- GetWordMsbToLsb, with the bits left in the stream as one number, the next bit highest: for a word
-- size from 1 to 16 and as many bits left, it ends (it needs no more rounds than the word has
-- bits), its result is the highest bits of that number, as a short, and the stream is left with the
-- other bits, valid again, the word size as it was.
pub get_word_msb_to_lsb_lem :
    (s : StreamConverter)
    → IsValid s
    → 0 < s.word_size
    → s.word_size ≤ 16
    → s.word_size ≤ left s.source s.src_pos
    → HighWordRead s
get_word_msb_to_lsb_lem s v positive small enough =
    let (d, runs, reads) =
      loop-Reads (s.word_size + 1) s.word_size (start s) (omega arith) first positive (omega arith)
        (omega arith) in
    word_read s d runs reads
  where
    first : IsReading s.word_size (start s)
    first = record {
      bytes = v.bytes;
      in_byte = v.in_byte;
      together = refl;
      below = omega arith;
      high = 0;
      aligned = omega arith;
    }
