-- ===== src/Illa/Decompress/Pieces.antt =====
-- The pieces of a turn of `Decompress` (source/deps/illa/gif_stringtable.cpp), from a valid state.
use native.Mathlib.Nat.{pow-le-pow_right, mod-lt}
use pictus.Base.{ℕ, zero, suc, ◌%◌, ◌^◌, ◌<◌, ◌≤◌, ◌≡◌, arith, true, false, ltb}
use pictus.Base.Int.{ℤ, pos, negsuc, eqb_ℤ}
use pictus.Base.Bits.{pow-pos}
use pictus.Orz.StreamConverter
use pictus.Orz.StreamConverter.{StreamConverter, is_words_left, get_word, to_short, add_bytes}
use pictus.Orz.StreamConverter.Round.{left}
use pictus.Orz.StreamConverter.Lsb.{IsValid, get_word_lem}
use pictus.Illa.CodeTable.{CodeTable}
use pictus.Illa.CodeTable.Growth.{IsTable}
use pictus.Illa.Decompress.{
  Gif, Fault, codec_error, Step, goes, ended, raises, ◌>>=◌, words_left, with_stream, write_code,
  put_last,
}
use pictus.Illa.Decompress.Tables.{SameStream, IsCode, string_at-IsCode}

-- The last code is -1, or a code with a string.
abbrev pub IsLast : ℤ → Type 0
IsLast (pos n) = n < 4096
IsLast (negsuc zero) = Unit {0}
IsLast (negsuc (suc n)) = ⊥

abbrev pub bits : Gif → ℕ
bits g = left g.codes.stream.source g.codes.stream.src_pos

-- A state of the decoder as the constructor and `Decompress` leave it.
pub record IsGif (g : Gif) : Type 0 where
  pub table : IsTable g.codes
  pub stream : IsValid g.codes.stream
  pub initial : g.codes.initial_code_size ≤ 11
  pub wide : g.codes.initial_code_size < g.codes.stream.word_size
  pub last : IsLast g.last_code

-- A codec error is raised for a file that is broken; the other faults are none of the file's.
abbrev pub IsCodecError : Fault → Type 0
IsCodecError codec_error = Unit {0}
IsCodecError _ = ⊥

-- A piece of a turn, that leaves at most `n` bits.
abbrev pub Turns : ℕ → Step → Type 0
Turns n (goes g) = IsGif g × (bits g ≤ n)
Turns n (ended g) = IsGif g
Turns n (raises e) = IsCodecError e

pub bind_Turns :
    (n k : ℕ) (s : Step) (f : Gif → Step)
    → Turns n s
    → ((g : Gif) → IsGif g → bits g ≤ n → Turns k (f g))
    → Turns k (s >>= f)
bind_Turns n k (goes g) f (v, h) next = next g v h
bind_Turns n k (ended g) f v next = v
bind_Turns n k (raises e) f v next = v

-- What one read of a code gives.
abbrev CodeRead : Gif → Type 0
CodeRead g =
    (code : ℤ) × (s : StreamConverter) × (get_word g.codes.stream ≡ StreamConverter.ok (code, s))
    × IsCode code
    × IsGif (with_stream g s)
    × (bits (with_stream g s) < bits g)

to_short-IsCode : (n w : ℕ) → w ≤ 12 → IsCode (to_short (n % 2 ^ w))
unfolding to_short
to_short-IsCode n w h =
    let small : 2 ^ w ≤ 2 ^ 12 = pow-le-pow_right {n = 2} (omega arith) {i = w} {j = 12} h in
    let low : n % 2 ^ w % 2 ^ 16 < 4096 = omega (arith, mod-lt n {m = 2 ^ w} (pow-pos w)) in
    let short : ltb (n % 2 ^ w % 2 ^ 16) (2 ^ 15) ≡ true = ground arith in rw short low

pub enough : (g : Gif) → words_left g ≡ true → g.codes.stream.word_size ≤ bits g
unfolding is_words_left
enough g h = ground arith

pub read : (g : Gif) → IsGif g → g.codes.stream.word_size ≤ bits g → CodeRead g
read g v h =
    let (t, runs, others, taken, same, valid) =
      get_word_lem g.codes.stream v.stream (omega (arith, v.wide))
        (omega (arith, v.table.code_size)) h in
    (
      _,
      t,
      runs,
      to_short-IsCode _ g.codes.stream.word_size v.table.code_size,
      record {
        table = record {
          entries = v.table.entries;
          room = v.table.room;
          code_size = rw same v.table.code_size;
        };
        stream = valid;
        initial = v.initial;
        wide = rw same v.wide;
        last = v.last;
      },
      omega (arith, taken, v.wide),
    )

pub with_codes-IsGif :
    (g : Gif) (u : CodeTable)
    → IsGif g
    → IsTable u
    → SameStream g.codes u
    → IsGif (record g { codes = u }) × (bits (record g { codes = u }) ≤ bits g)
with_codes-IsGif g u v t s = (
  record {
    table = t;
    stream = record { bytes = rw s.source v.stream.bytes; in_byte = rw s.src_pos v.stream.in_byte };
    initial = rw s.initial v.initial;
    wide = s.wide;
    last = v.last;
  },
  rw (s.source, s.src_pos) (omega arith),
)

pub last-IsCode : (c : ℤ) → IsLast c → eqb_ℤ c (negsuc 0) ≡ false → IsCode c
last-IsCode (pos n) h e = h
last-IsCode (negsuc zero) h e = absurd (ground arith)
last-IsCode (negsuc (suc n)) h e = h

code-IsLast : (c : ℤ) → IsCode c → IsLast c
code-IsLast (pos n) h = h
code-IsLast (negsuc n) h = absurd h

pub put_last-IsGif : (c : ℤ) (g : Gif) → IsCode c → IsGif g → IsGif (put_last c g)
put_last-IsGif c g h v = record {
  table = v.table;
  stream = v.stream;
  initial = v.initial;
  wide = v.wide;
  last = code-IsLast c h;
}

pub write_code-Turns : (c : ℤ) (g : Gif) → IsCode c → IsGif g → Turns (bits g) (write_code c g)
write_code-Turns c g h v =
    let (l, e) = string_at-IsCode g.codes c v.table h in
    rw e (
      record {
        table = v.table;
        stream = v.stream;
        initial = v.initial;
        wide = v.wide;
        last = v.last;
      },
      omega arith,
    )
