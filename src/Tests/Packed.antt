-- ===== src/Tests/Packed.antt =====
-- The conversion of packed pixels (source/deps/orz/bitconvert.cpp) and the writing of decoded
-- strings
-- (source/deps/illa/gif_stringtable.cpp).
use pictus.Base.{ℕ, ◌≡◌, ◌≤◌, refl, arith, inl, true, false, none, List, [], ◌∷◌, length}
use pictus.Orz.StreamConverter.{StreamConverter}
use pictus.Orz.StreamConverter.Lsb.{IsValid}
use pictus.Orz.StreamConverter.Round.{AllBytes}
use pictus.Orz.BitConvert.{bits_to_bytes, convert_to_bytes, written}
use pictus.Orz.BitConvert.Pixels.{bits_to_bytes-all}
use pictus.Orz.BitConvert.Words.{word_pixels, convert_to_bytes-words}
use pictus.Illa.StringTable.{Writer, write_string, new_writer}
use pictus.Illa.StringTable.Raster.{IsAt, write_string-raster}
use pictus.Illa.StringTable.Interlaced.{AllInside, write_string-AllInside}
use pictus.Illa.StringTable.FewRows.{write_string-few_rows}

abbrev two_bytes : List ℕ
two_bytes = 0xa5 ∷ 0x3c ∷ []

two_bytes-AllBytes : AllBytes two_bytes
two_bytes-AllBytes = (omega arith, (omega arith, tt))

bits_to_bytes-reads_behind : bits_to_bytes 16 two_bytes ≡ none
bits_to_bytes-reads_behind = bits_to_bytes-all two_bytes

abbrev three_bits : StreamConverter
three_bits = record { source = two_bytes; word_size = 3; src_pos = 2 }

three_bits-IsValid : IsValid three_bits
three_bits-IsValid = record { bytes = two_bytes-AllBytes; in_byte = omega arith }

convert_to_bytes-words_example :
    convert_to_bytes 3 5 two_bytes ≡ written (word_pixels 3 5 two_bytes)
convert_to_bytes-words_example =
    convert_to_bytes-words 3 5 two_bytes (inl refl) two_bytes-AllBytes (omega arith) (omega arith)

-- The second row of a surface with a longer stride.
abbrev writer : Writer
writer = record {
  x = 1;
  y = 1;
  width = 3;
  height = 2;
  stride = 4;
  pass = 0;
  interlace = false;
  dest = (0, 7) ∷ [];
}

abbrev string : List ℕ
string = 1 ∷ 2 ∷ 3 ∷ []

writer-IsAt : IsAt 4 writer
writer-IsAt = record { plain = refl; in_row = omega arith; pixel = omega arith }

write_string-raster_example : (write_string string writer).dest ≡ (0, 7) ∷ (5, 1) ∷ (6, 2) ∷ []
write_string-raster_example = write_string-raster string 4 writer writer-IsAt

first_write : AllInside 3 2 4 writer.dest
first_write = ((0, 0, omega arith, omega arith, omega arith), tt)

write_string-AllInside_example : AllInside 3 2 4 (write_string string writer).dest
write_string-AllInside_example = write_string-AllInside string writer first_write

write_string-few_rows_example : length (write_string string (new_writer 2 3 2 true)).dest ≤ 2
write_string-few_rows_example =
    write_string-few_rows 2 3 2 string (omega arith) (omega arith) (omega arith)
