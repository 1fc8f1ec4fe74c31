-- ===== src/Illa/Decompress/Total.antt =====
-- `Decompress` of a valid state and any buffer.
use pictus.Base.{
  ℕ, zero, suc, ◌<◌, ◌≤◌, ◌≡◌, refl, ap, arith, Bool, true, false, ◌&&◌, Bool-cases, inl, inr, List,
  [], ◌∷◌, ◌++◌, ltb, if◌then◌else◌, length, length-replicate, le→ltb_not,
}
use pictus.Base.Int.{negsuc}
use pictus.Orz.StreamConverter.{is_words_left, add_bytes}
use pictus.Orz.StreamConverter.Round.{AllBytes}
use pictus.Illa.StringTable.{Writer}
use pictus.Illa.CodeTable
use pictus.Illa.CodeTable.{
  CodeTable, invalid_param, string_at, reset_table, add_string, new_table, empty_table,
}
use pictus.Illa.CodeTable.Growth.{IsTable}
use pictus.Illa.Decompress.{
  Gif, Step, goes, ended, raises, ◌>>=◌, words_left, with_stream, first_code, use_code, loop,
  started, start, fuel_for, decompress_stream, decompress, decompress_all, new_gif, with_table,
}
use pictus.Illa.Decompress.Tables.{reset_table-keeps}
use pictus.Illa.Decompress.Pieces.{IsGif, IsCodecError, Turns, bind_Turns, read, bits, enough}
use pictus.Illa.Decompress.Turns.{first_code-Turns, use_code-Turns}

-- Where `Decompress` may end: in a valid state in which the buffer is used up, behind the end code,
-- or with a codec error.
abbrev pub Decompressed : Step → Type 0
Decompressed (goes g) = IsGif g × (words_left g ≡ false)
Decompressed (ended g) = IsGif g
Decompressed (raises e) = IsCodecError e

then_Decompressed :
    (n : ℕ) (s : Step) (f : Gif → Step)
    → Turns n s
    → ((g : Gif) → IsGif g → bits g ≤ n → Decompressed (f g))
    → Decompressed (s >>= f)
then_Decompressed n (goes g) f (v, h) next = next g v h
then_Decompressed n (ended g) f v next = v
then_Decompressed n (raises e) f v next = v

loop-Decompressed : (fuel : ℕ) (g : Gif) → IsGif g → bits g < fuel → Decompressed (loop fuel g)
unfolding loop
loop-Decompressed zero g v h = absurd (omega arith)
loop-Decompressed (suc fuel) g v h = elim (Bool-cases (words_left g)) [
  | inr empty ↦ rw (empty, loop) (v, empty)
  | inl more ↦
      let (c, s, runs, hc, w, less) = read g v (enough g more) in
      rw (more, loop, runs)
        (then_Decompressed (bits (with_stream g s)) (use_code c (with_stream g s)) (loop fuel)
          (use_code-Turns c (with_stream g s) hc w)
          (λ k w' fewer. loop-Decompressed fuel k w' (omega arith)))
]

second : (a b : Bool) → (a && b) ≡ true → b ≡ true
second a b h = ground arith

start-Turns : (g : Gif) → IsGif g → Turns (bits g) (start g)
unfolding start
start-Turns g v = elim (Bool-cases (g.start_with_clear && words_left g)) [
  | inr no_clear ↦ rw no_clear (v, omega arith)
  | inl clear ↦ rw clear (
      bind_Turns (bits g) (bits g) (first_code g) (λ h. goes (started h))
        (first_code-Turns g v (enough g (second g.start_with_clear (words_left g) clear)))
        (λ h w fewer. (
          record {
            table = w.table;
            stream = w.stream;
            initial = w.initial;
            wide = w.wide;
            last = w.last;
          },
          fewer,
        )))
]

AllBytes-append : (a b : List ℕ) → AllBytes a → AllBytes b → AllBytes (a ++ b)
AllBytes-append [] b ha hb = hb
AllBytes-append (x ∷ xs) b ha hb = (ha.0, AllBytes-append xs b ha.1 hb)

-- One buffer.
decompress-Decompressed :
    (source : List ℕ) (g : Gif) → IsGif g → AllBytes source → Decompressed (decompress source g)
unfolding decompress decompress_stream add_bytes
decompress-Decompressed source g v h =
    then_Decompressed (bits filled) (start filled) _ (start-Turns filled w)
      (λ k w' fewer. loop-Decompressed (fuel_for k) k w' (omega arith))
  where
    filled : Gif
    filled = with_stream g (record g.codes.stream { source = g.codes.stream.source ++ source })

    w : IsGif filled
    w = record {
      table = record {
        entries = v.table.entries;
        room = v.table.room;
        code_size = v.table.code_size;
      };
      stream = record {
        bytes = AllBytes-append g.codes.stream.source source v.stream.bytes h;
        in_byte = v.stream.in_byte;
      };
      initial = v.initial;
      wide = v.wide;
      last = v.last;
    }

abbrev pub AllChunks : List (List ℕ) → Type 0
AllChunks [] = Unit
AllChunks (c ∷ cs) = AllBytes c × AllChunks cs

more_chunks :
    (s : Step) (f : Gif → Step)
    → Decompressed s
    → ((g : Gif) → IsGif g → words_left g ≡ false → Decompressed (f g))
    → Decompressed (s >>= f)
more_chunks (goes g) f (v, empty) next = next g v empty
more_chunks (ended g) f v next = v
more_chunks (raises e) f v next = v

chunks-Decompressed :
    (chunks : List (List ℕ)) (g : Gif)
    → AllChunks chunks
    → IsGif g
    → words_left g ≡ false
    → Decompressed (decompress_all chunks g)
unfolding decompress_all
chunks-Decompressed [] g h v empty = (v, empty)
chunks-Decompressed ([] ∷ chunks) g h v empty = v
chunks-Decompressed ((b ∷ bs) ∷ chunks) g h v empty =
    more_chunks (decompress (b ∷ bs) g) (decompress_all chunks)
      (decompress-Decompressed (b ∷ bs) g v h.0)
      (λ k w done. chunks-Decompressed chunks k h.1 w done)

no_bits :
    (g : Gif)
    → g.codes.stream.source ≡ []
    → g.codes.initial_code_size < g.codes.stream.word_size
    → words_left g ≡ false
unfolding is_words_left
no_bits g e h =
    let none_left : length g.codes.stream.source ≡ 0 = ap length e in ground (arith, none_left)

accepted :
    (b : Bool) (w : Writer) (t : CodeTable)
    → b ≡ false
    → with_table w (if b then CodeTable.err invalid_param else CodeTable.ok t)
      ≡ CodeTable.ok
          (record { writer = w; codes = t; last_code = negsuc 0; start_with_clear = false })
accepted b w t h = rw h refl

-- A decoder that was made for a code size up to 11 decompresses any chunks of bytes to an end: with
-- too few bits left for a code, behind the end code or an empty chunk, or with a codec error. It
-- reads nothing beyond the stream and no entry beyond the table, and the fuel of the model does not
-- run out.
pub decompress_all-Decompressed :
    (min_code_size : ℕ) (w : Writer) (chunks : List (List ℕ))
    → min_code_size ≤ 11
    → AllChunks chunks
    → (g : Gif) × (new_gif min_code_size w ≡ CodeTable.ok g)
      × Decompressed (decompress_all chunks g)
unfolding new_gif new_table
decompress_all-Decompressed n w chunks small h =
    let (table, same) = reset_table-keeps (empty_table n) empty small in
    let g : Gif = record {
      writer = w;
      codes = reset_table (empty_table n);
      last_code = negsuc 0;
      start_with_clear = false;
    } in
    let v : IsGif g = record {
      table = table;
      stream = record { bytes = tt; in_byte = omega arith };
      initial = rw same.initial small;
      wide = same.wide;
      last = tt;
    } in
    (
      g,
      accepted (ltb 11 n) w (reset_table (empty_table n)) (le→ltb_not 11 n small),
      chunks-Decompressed chunks g h v (no_bits g same.source same.wide),
    )
  where
    empty : IsTable (empty_table n)
    empty = record {
      entries = length-replicate {A = List ℕ} 4096 [];
      room = omega arith;
      code_size = omega arith;
    }
