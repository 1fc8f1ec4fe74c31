-- ===== src/Illa/Decompress.antt =====
-- gif_stringtable.cpp: `Decompress`, which reads the codes of a buffer from the bit stream, writes
-- their strings and extends the table.
pub mod Tables
pub mod Pieces
pub mod Turns
pub mod Total
use pictus.Base.{
  ℕ, zero, suc, ◌+◌, ◌*◌, Bool, true, false, ◌&&◌, Option, none, some, List, [], ◌∷◌, if◌then◌else◌,
  length,
}
use pictus.Base.Int.{ℤ, pos, negsuc, eqb_ℤ, ltb_ℤ}
use pictus.Orz.StreamConverter
use pictus.Orz.StreamConverter.{StreamConverter, add_bytes, is_words_left, get_word}
use pictus.Illa.StringTable.{Writer, write_string}
use pictus.Illa.CodeTable
use pictus.Illa.CodeTable.{CodeTable, reset_table, add_string, string_at, new_table}

-- The fields of `StringTable`, those of the codes with the bit stream.
pub record Gif : Type 0 where
  pub writer : Writer
  pub codes : CodeTable
  pub last_code : ℤ
  pub start_with_clear : Bool

-- `out_of_range` is an access beyond the table, `no_fuel` a loop that the model has cut off.
pub data Fault : Type 0 where
  codec_error out_of_range out_of_data no_fuel : Fault

-- Decompress goes on, returns false at the end code, or raises.
pub data Step : Type 0 where
  goes : Gif → Step
  ended : Gif → Step
  raises : Fault → Step

infixl 5 ◌>>=◌
abbrev pub ◌>>=◌ : Step → (Gif → Step) → Step
goes g >>= f = f g
ended g >>= f = ended g
raises e >>= f = raises e

abbrev pub words_left : Gif → Bool
words_left g = is_words_left g.codes.stream

abbrev pub with_stream : Gif → StreamConverter → Gif
with_stream g s = record g { codes = record g.codes { stream = s } }

-- GetWord, and what is done with the code.
abbrev pub after_word : Gif → StreamConverter.Result (ℤ × StreamConverter) → (ℤ → Gif → Step) → Step
after_word g (StreamConverter.ok (code, s)) f = f code (with_stream g s)
after_word g (StreamConverter.err e) f = raises out_of_data

abbrev pub read_code : Gif → (ℤ → Gif → Step) → Step
read_code g f = after_word g (get_word g.codes.stream) f

abbrev pub write_entry : Option (List ℕ) → Gif → Step
write_entry none g = raises out_of_range
write_entry (some l) g = goes (record g { writer = write_string l g.writer })

-- writeString of a code.
abbrev pub write_code : ℤ → Gif → Step
write_code code g = write_entry (string_at code g.codes) g

abbrev pub fault_of : CodeTable.Error → Fault
fault_of CodeTable.codec_error = codec_error
fault_of CodeTable.invalid_param = codec_error
fault_of CodeTable.out_of_range = out_of_range

abbrev pub after_add : CodeTable.Result (ℤ × CodeTable) → Gif → (ℤ → Gif → Step) → Step
after_add (CodeTable.ok (code, t)) g f = f code (record g { codes = t })
after_add (CodeTable.err e) g f = raises (fault_of e)

-- The code behind a clear code.
unfoldable pub first_code : Gif → Step
unfolding reset_table
first_code g =
    read_code (record g { codes = reset_table g.codes })
      (λ code h. write_code code (record h { last_code = code }))

abbrev pub put_last : ℤ → Gif → Gif
put_last code g = record g { last_code = code }

-- A code of the table.
unfoldable pub known_code : ℤ → Gif → Step
unfolding add_string
known_code code g = write_code code g >>= λ h.
    if eqb_ℤ h.last_code (negsuc 0)
    then goes (put_last code h)
    else after_add (add_string h.last_code code h.codes) h (λ added k. goes (put_last code k))

-- A code that the table does not have yet.
unfoldable pub new_code : ℤ → Gif → Step
unfolding add_string
new_code code g =
    after_add (add_string g.last_code g.last_code g.codes) g
      (λ added h. write_code added h >>= λ k. goes (put_last code k))

unfoldable pub use_code : ℤ → Gif → Step
unfolding first_code known_code new_code
use_code code g =
    if eqb_ℤ code (pos g.codes.end_code)
    then ended g
    else if eqb_ℤ code (pos g.codes.clear_code)
    then (if words_left g then first_code g else goes (record g { start_with_clear = true }))
    else if ltb_ℤ code (pos g.codes.num_codes)
    then known_code code g
    else new_code code g

-- The loop.
unfoldable pub loop : ℕ → Gif → Step
unfolding use_code
loop zero g = raises no_fuel
loop (suc fuel) g =
    let next = read_code g use_code >>= loop fuel in if words_left g then next else goes g

-- Each turn reads a bit at least.
abbrev pub fuel_for : Gif → ℕ
fuel_for g = 8 * length g.codes.stream.source + 1

abbrev pub started : Gif → Gif
started g = record g { start_with_clear = false }

-- What is done before the loop.
unfoldable pub start : Gif → Step
unfolding first_code
start g =
    if g.start_with_clear && words_left g then (first_code g >>= λ h. goes (started h)) else goes g

unfoldable pub decompress_stream : Gif → Step
unfolding start loop
decompress_stream g = start g >>= λ h. loop (fuel_for h) h

unfoldable pub decompress : List ℕ → Gif → Step
unfolding add_bytes decompress_stream
decompress source g = decompress_stream (with_stream g (add_bytes g.codes.stream source))

abbrev pub with_table : Writer → CodeTable.Result CodeTable → CodeTable.Result Gif
with_table w (CodeTable.ok t) =
    CodeTable.ok (record { writer = w; codes = t; last_code = negsuc 0; start_with_clear = false })
with_table w (CodeTable.err e) = CodeTable.err e

-- The constructor, with the fields that are written to.
unfoldable pub new_gif : ℕ → Writer → CodeTable.Result Gif
unfolding new_table
new_gif min_code_size w = with_table w (new_table min_code_size)

-- The chunks of an image, in CodecGIF::PerformLoadImageData: an empty one ends it.
unfoldable pub decompress_all : List (List ℕ) → Gif → Step
unfolding decompress
decompress_all [] g = goes g
decompress_all ([] ∷ chunks) g = ended g
decompress_all ((b ∷ bs) ∷ chunks) g = decompress (b ∷ bs) g >>= decompress_all chunks
