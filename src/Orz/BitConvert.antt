-- ===== src/Orz/BitConvert.antt =====
-- bitconvert.cpp: packed pixels of one, two or four bits, one to a byte.
pub mod Pixels
pub mod Words
use Prim.Native.Nat.{bit_and}
use pictus.Base.{
  ℕ, zero, suc, ◌+◌, ◌*◌, ◌/◌, ◌%◌, ◌^◌, ◌==◌, Bool, ◌&&◌, Option, none, some, List, [], ◌∷◌, ◌++◌,
  leb, if◌then◌else◌, take, length,
}
use pictus.Orz.StreamConverter.{
  StreamConverter, Result, ok, err, Error, init, change_word_size, add_bytes,
  get_words_as_byte_msb_to_lsb,
}

-- `b <<= 1` of a byte.
abbrev pub shift_byte : ℕ → ℕ → ℕ
shift_byte n b = b * 2 ^ n % 2 ^ 8

-- `n` turns of the loop over the bits of a byte.
unfoldable pub bits_of : ℕ → ℕ → List ℕ
bits_of zero b = []
bits_of (suc n) b = bit_and b 0x80 / 2 ^ 7 ∷ bits_of n (shift_byte 1 b)

unfoldable pub crumbs_of : ℕ → ℕ → List ℕ
crumbs_of zero b = []
crumbs_of (suc n) b = bit_and b 0xc0 / 2 ^ 6 ∷ crumbs_of n (shift_byte 2 b)

-- The four writes of `CrumbsToBytes`, and the two of `NibblesToBytes`.
unfoldable pub whole_crumbs : ℕ → List ℕ
whole_crumbs b =
    bit_and b 0xc0 / 2 ^ 6 ∷ bit_and b 0x30 / 2 ^ 4 ∷ bit_and b 0x0c / 2 ^ 2 ∷ bit_and b 0x03 ∷ []

unfoldable pub whole_nibbles : ℕ → List ℕ
whole_nibbles b = bit_and b 0xf0 / 2 ^ 4 ∷ bit_and b 0x0f ∷ []

-- Reads beyond the end of the source are undefined: the result is `none`. A function `rest` does
-- what follows the loop over the whole bytes.
unfoldable pub whole_bytes :
    (ℕ → List ℕ) → (List ℕ → Option (List ℕ)) → ℕ → List ℕ → Option (List ℕ)
whole_bytes expand rest zero source = rest source
whole_bytes expand rest (suc n) [] = none
whole_bytes expand rest (suc n) (b ∷ source) = elim (whole_bytes expand rest n source) [
  | none ↦ none
  | some pixels ↦ some (expand b ++ pixels)
]

-- The byte behind the whole ones is read in any case.
unfoldable pub extra_byte : (ℕ → ℕ → List ℕ) → ℕ → List ℕ → Option (List ℕ)
extra_byte expand n [] = none
extra_byte expand n (b ∷ source) = some (expand n b)

unfoldable pub bits_to_bytes : ℕ → List ℕ → Option (List ℕ)
unfolding whole_bytes extra_byte bits_of
bits_to_bytes num_bits source =
    whole_bytes (bits_of 8) (extra_byte bits_of (bit_and num_bits 7)) (num_bits / 2 ^ 3) source

unfoldable pub crumbs_to_bytes : ℕ → List ℕ → Option (List ℕ)
unfolding whole_bytes extra_byte crumbs_of whole_crumbs
crumbs_to_bytes num_crumbs source =
    whole_bytes whole_crumbs (extra_byte crumbs_of (bit_and num_crumbs 3)) (num_crumbs / 2 ^ 2)
      source

unfoldable pub extra_nibble : ℕ → List ℕ → Option (List ℕ)
extra_nibble zero source = some []
extra_nibble (suc n) [] = none
extra_nibble (suc n) (b ∷ source) = some (bit_and b 0xf0 / 2 ^ 4 ∷ [])

unfoldable pub nibbles_to_bytes : ℕ → List ℕ → Option (List ℕ)
unfolding whole_bytes extra_nibble whole_nibbles
nibbles_to_bytes num_nibbles source =
    whole_bytes whole_nibbles (extra_nibble (bit_and num_nibbles 1)) (num_nibbles / 2) source

-- What `ConvertToBytes` does: it writes pixels or raises; `out_of_range` is a read beyond the
-- source.
pub data Converted : Type 0 where
  written : List ℕ → Converted
  critical_error unsupported out_of_range : Converted

abbrev of_option : Option (List ℕ) → Converted
of_option none = out_of_range
of_option (some pixels) = written pixels

abbrev of_result : Result (List ℕ × StreamConverter) → Converted
of_result (ok (pixels, s)) = written pixels
of_result (err e) = critical_error

-- `(numSourceWords * sourceBitDepth + 7) / 8`, with 32 bits.
abbrev pub byte_count : ℕ → ℕ → ℕ
byte_count source_bit_depth num_source_words =
    (num_source_words * source_bit_depth % 2 ^ 32 + 7) % 2 ^ 32 / 8

unfoldable pub filled : ℕ → List ℕ → StreamConverter
unfolding init change_word_size add_bytes
filled source_bit_depth bytes = add_bytes (change_word_size (init 8) source_bit_depth) bytes

unfoldable pub convert_by_stream : ℕ → ℕ → List ℕ → Converted
unfolding filled get_words_as_byte_msb_to_lsb
convert_by_stream source_bit_depth num_source_words source =
    let count = byte_count source_bit_depth num_source_words in
    if leb count (length source)
    then of_result (
        get_words_as_byte_msb_to_lsb num_source_words (filled source_bit_depth (take count source)))
    else out_of_range

unfoldable pub convert_to_bytes : ℕ → ℕ → List ℕ → Converted
unfolding bits_to_bytes crumbs_to_bytes nibbles_to_bytes convert_by_stream
convert_to_bytes source_bit_depth num_source_words source =
    if source_bit_depth == 1
    then of_option (bits_to_bytes num_source_words source)
    else if source_bit_depth == 2
    then of_option (crumbs_to_bytes num_source_words source)
    else if source_bit_depth == 4
    then of_option (nibbles_to_bytes num_source_words source)
    else if leb 1 source_bit_depth && leb source_bit_depth 8
    then convert_by_stream source_bit_depth num_source_words source
    else unsupported
