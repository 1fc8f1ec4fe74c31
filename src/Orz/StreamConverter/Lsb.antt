-- ===== src/Orz/StreamConverter/Lsb.antt =====
-- `GetWord` and the bits of the stream, lowest first.
pub mod Rounds
use Prim.Native.Nat.{bit_and, bit_or}
use native.Mathlib.Nat.{div-div-eq-div-mul, mod-lt, mul-le-mul_left}
use pictus.Base.{
  ℕ, zero, suc, ◌+◌, ◌-◌, ◌*◌, ◌/◌, ◌%◌, ◌^◌, ◌<◌, ◌≤◌, ◌≡◌, refl, sym, ap, subst, arith, true,
  false, List, ◌∷◌, ltb, min, Bool-cases, inl, inr,
}
use pictus.Base.Bits.{bit_or-shifted, pow-pos, pow-add, mod-mul}
use pictus.Orz.StreamConverter.{
  StreamConverter, Cursor, ok, err, out_of_data, round_lsb, loop, to_copy, get_word, start,
  to_short,
}
use pictus.Orz.StreamConverter.Round.{
  AllBytes, remaining, left, part_lsb, next_bits, advance-bytes, advance-in_byte, List-cases,
  left-nonempty, remaining-advance, left-advance,
}
use pictus.Orz.StreamConverter.Lsb.Rounds.{IsReading, Took, round_lsb-Took}

-- The loop from `c`: the word with all its bits, and what is left.
record Reads (w : ℕ) (c d : Cursor) : Type 0 where
  word : d.currchar ≡ c.currchar + remaining c.source c.src_pos % 2 ^ (w - c.copied) * 2 ^ c.copied
  rest : remaining d.source d.src_pos ≡ remaining c.source c.src_pos / 2 ^ (w - c.copied)
  fewer : left d.source d.src_pos + (w - c.copied) ≡ left c.source c.src_pos
  bytes : AllBytes d.source
  in_byte : d.src_pos < 8

-- Two reads of `n` and `k` bits are one of `n + k`.
two_reads :
    (x r n k m a : ℕ)
    → n + k ≡ m
    → x + r % 2 ^ n * 2 ^ a + r / 2 ^ n % 2 ^ k * 2 ^ (a + n) ≡ x + r % 2 ^ m * 2 ^ a
two_reads x r n k m a h = rw (← h) (
    omega (
      arith,
      ap (λ (t : ℕ). t * 2 ^ a) (split),
      ap (λ (t : ℕ). r / 2 ^ n % 2 ^ k * t) (pow-add a n),
    ))
  where
    split : r % 2 ^ (n + k) ≡ r % 2 ^ n + 2 ^ n * (r / 2 ^ n % 2 ^ k)
    split = rw pow-add (mod-mul r (2 ^ n) (2 ^ k) (pow-pos n) (pow-pos k))

two_shifts : (r n k m : ℕ) → n + k ≡ m → r / 2 ^ n / 2 ^ k ≡ r / 2 ^ m
two_shifts r n k m h = rw (← h, pow-add) (div-div-eq-div-mul r (2 ^ n) (2 ^ k))

-- What a run of the loop from `c` is to do.
abbrev Runs : ℕ → ℕ → Cursor → Type 0
Runs fuel w c = (d : Cursor) × (loop round_lsb fuel w c ≡ ok d) × Reads w c d

-- The round that ends the word.
last_round :
    (fuel w byte : ℕ) (bs : List ℕ) (c d : Cursor)
    → c.source ≡ byte ∷ bs
    → round_lsb w byte bs c ≡ d
    → Took w byte bs c d
    → ltb d.copied w ≡ false
    → Runs (suc fuel) w c
unfolding loop
last_round fuel w byte bs c d e r t ends = (d, runs, reads)
  where
    all : w - c.copied ≡ t.n
    all = ground (arith, t.at_most, t.copied)

    runs : loop round_lsb (suc fuel) w c ≡ ok d
    runs = rw (e, loop, r, ends) refl

    reads : Reads w c d
    reads = record {
      word = rw (e, all) t.word;
      rest = rw (e, all) t.shifted;
      fewer = rw (e, all) t.shorter;
      bytes = t.reading.bytes;
      in_byte = t.reading.in_byte;
    }

-- A round before the last one.
more_rounds :
    (fuel w byte : ℕ) (bs : List ℕ) (c d : Cursor)
    → c.source ≡ byte ∷ bs
    → round_lsb w byte bs c ≡ d
    → Took w byte bs c d
    → ltb d.copied w ≡ true
    → Runs fuel w d
    → Runs (suc fuel) w c
unfolding loop
more_rounds fuel w byte bs c d e r t goes (f, runs, reads) = (
  f,
  now,
  record {
    word =
        rw (reads.word, t.word, t.copied, t.shifted, e)
          (two_reads c.currchar (remaining (byte ∷ bs) c.src_pos) t.n (w - (c.copied + t.n))
            (w - c.copied) c.copied (omega (arith, t.at_most)));
    rest =
        rw (reads.rest, t.shifted, e)
          (two_shifts (remaining (byte ∷ bs) c.src_pos) t.n (w - d.copied) (w - c.copied) sum);
    fewer = rw e (omega (arith, reads.fewer, t.shorter, sum));
    bytes = reads.bytes;
    in_byte = reads.in_byte;
  },
)
  where
    sum : t.n + (w - d.copied) ≡ w - c.copied
    sum = omega (arith, t.at_most, t.copied)

    now : loop round_lsb (suc fuel) w c ≡ ok f
    now = rw (e, loop, r, goes) runs

loop-Reads :
    (fuel w : ℕ) (c : Cursor)
    → w < 256
    → IsReading w c
    → c.copied < w
    → w - c.copied < fuel
    → w - c.copied ≤ left c.source c.src_pos
    → Runs fuel w c
loop-Reads zero w c small v more room enough = absurd (omega arith)
loop-Reads (suc fuel) w c small v more room enough =
    let (byte, bs, e) = left-nonempty c.source c.src_pos (w - c.copied) enough (omega arith) in
    let d = round_lsb w byte bs c in
    let t = round_lsb-Took w byte bs c small e v in
    let shorter = subst (λ (s : List ℕ). w - c.copied ≤ left s c.src_pos) e enough in
    elim (Bool-cases (ltb d.copied w)) [
      | inl goes ↦ more_rounds fuel w byte bs c d e refl t goes (
          loop-Reads fuel w d small t.reading (ground arith)
            (omega (arith, t.progress more, t.copied)) (omega (arith, t.shorter, t.copied)))
      | inr ends ↦ last_round fuel w byte bs c d e refl t ends
    ]

-- With too few bits left, the loop runs out of bytes.
loop-short :
    (fuel w : ℕ) (c : Cursor)
    → w < 256
    → IsReading w c
    → w - c.copied < fuel
    → left c.source c.src_pos < w - c.copied
    → loop round_lsb fuel w c ≡ err out_of_data
unfolding loop
loop-short zero w c small v room short = absurd (omega arith)
loop-short (suc fuel) w c small v room short = elim (List-cases c.source) [
  | inl e ↦ rw (e, loop) refl
  | inr (byte, bs, e) ↦
      let d = round_lsb w byte bs c in
      let t = round_lsb-Took w byte bs c small e v in
      let less = subst (λ (s : List ℕ). left s c.src_pos < w - c.copied) e short in
      elim (Bool-cases (ltb d.copied w)) [
        | inl goes ↦
            rw (e, loop, goes)
              (loop-short fuel w d small t.reading
                (omega (arith, t.progress (omega arith), t.copied))
                (omega (arith, t.shorter, t.copied, less)))
        | inr ends ↦ absurd (ground (arith, t.at_most, t.copied, t.shorter))
      ]
]

-- A stream as `GetWord` leaves it and is to find it.
pub record IsValid (s : StreamConverter) : Type 0 where
  pub bytes : AllBytes s.source
  pub in_byte : s.src_pos < 8

abbrev pub WordRead : StreamConverter → Type 0
WordRead s =
    (t : StreamConverter) × (get_word s
      ≡ ok (to_short (remaining s.source s.src_pos % 2 ^ s.word_size), t))
    × (remaining t.source t.src_pos ≡ remaining s.source s.src_pos / 2 ^ s.word_size)
    × (left t.source t.src_pos + s.word_size ≡ left s.source s.src_pos)
    × (t.word_size ≡ s.word_size)
    × IsValid t

word_read :
    (s : StreamConverter) (d : Cursor)
    → loop round_lsb (s.word_size + 1) s.word_size (start s) ≡ ok d
    → Reads s.word_size (start s) d
    → WordRead s
unfolding get_word
word_read s d runs reads = (
  record s { source = d.source; src_pos = d.src_pos },
  rw runs (
      ap (λ (n : ℕ). ok (to_short n, record s { source = d.source; src_pos = d.src_pos }))
        (rw (reads.word, whole) (omega arith))),
  rw whole at reads.rest,
  rw whole at reads.fewer,
  refl,
  record { bytes = reads.bytes; in_byte = reads.in_byte },
)
  where
    whole : s.word_size - 0 ≡ s.word_size
    whole = omega arith

-- GetWord, with the bits of the stream as one number, the next bit lowest: for a word size from 1
-- to 16 and as many bits left, it ends (it needs no more rounds than the word has bits), its result
-- is the lowest bits of that number, as a short, and the stream is left with the other bits, valid
-- again, the word size as it was.
pub get_word_lem :
    (s : StreamConverter)
    → IsValid s
    → 0 < s.word_size
    → s.word_size ≤ 16
    → s.word_size ≤ left s.source s.src_pos
    → WordRead s
get_word_lem s v positive small enough =
    let (d, runs, reads) =
      loop-Reads (s.word_size + 1) s.word_size (start s) (omega arith) first positive (omega arith)
        (omega arith) in
    word_read s d runs reads
  where
    first : IsReading s.word_size (start s)
    first = record {
      bytes = v.bytes;
      in_byte = v.in_byte;
      together = refl;
      below = omega arith;
      fits = omega arith;
    }

-- GetWord of a word of 16 bits at most with fewer bits left than the word has: Err::CriticalError,
-- "Out of data!".
pub get_word-out_of_data :
    (s : StreamConverter)
    → IsValid s
    → s.word_size ≤ 16
    → left s.source s.src_pos < s.word_size
    → get_word s ≡ err out_of_data
unfolding get_word
get_word-out_of_data s v small short =
    rw
      (loop-short (s.word_size + 1) s.word_size (start s) (omega arith) first (omega arith)
        (omega arith))
      refl
  where
    first : IsReading s.word_size (start s)
    first = record {
      bytes = v.bytes;
      in_byte = v.in_byte;
      together = refl;
      below = omega arith;
      fits = omega arith;
    }
