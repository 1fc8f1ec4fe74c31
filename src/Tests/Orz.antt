-- ===== src/Tests/Orz.antt =====
-- The bit stream (source/deps/orz/streamconv.cpp) with three bytes.
use pictus.Base.{[], ◌∷◌, arith}
use pictus.Orz.StreamConverter.{StreamConverter}
use pictus.Orz.StreamConverter.Lsb.{IsValid, WordRead, get_word_lem}
use pictus.Orz.StreamConverter.Msb.{HighWordRead, get_word_msb_to_lsb_lem}

abbrev nine_bits : StreamConverter
nine_bits = record { source = 0xa5 ∷ 0x3c ∷ 0x0f ∷ []; word_size = 9; src_pos = 0 }

nine_bits-IsValid : IsValid nine_bits
nine_bits-IsValid = record {
  bytes = (omega arith, (omega arith, (omega arith, tt)));
  in_byte = omega arith;
}

abbrev one_byte : StreamConverter
one_byte = record nine_bits { source = 0xa5 ∷ [] }

one_byte-IsValid : IsValid one_byte
one_byte-IsValid = record { bytes = (omega arith, tt); in_byte = omega arith }

get_word_lem_example : WordRead nine_bits
get_word_lem_example =
    get_word_lem nine_bits nine_bits-IsValid (omega arith) (omega arith) (omega arith)

get_word_msb_to_lsb_lem_example : HighWordRead nine_bits
get_word_msb_to_lsb_lem_example =
    get_word_msb_to_lsb_lem nine_bits nine_bits-IsValid (omega arith) (omega arith) (omega arith)
