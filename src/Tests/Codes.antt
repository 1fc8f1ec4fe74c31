-- ===== src/Tests/Codes.antt =====
-- The table of the LZW codes (source/deps/illa/gif_stringtable.cpp) for codes of three bits.
use pictus.Base.{ℕ, ◌≡◌, refl, arith, List, [], ◌∷◌, replicate, length-replicate, false}
use pictus.Base.Int.{pos, negsuc}
use pictus.Illa.CodeTable.{CodeTable, ok, add_string}
use pictus.Illa.CodeTable.Growth.{IsTable, Added, add_string-Added}
use pictus.Illa.StringTable.{new_writer, write_string}
use pictus.Orz.StreamConverter.{is_words_left, get_word, to_short}
use pictus.Illa.Decompress.{Gif, Step, goes, ended, raises, decompress, decompress_all, new_gif}
use pictus.Illa.Decompress.Total.{Decompressed, decompress_all-Decompressed}

-- Two roots, and the other codes still empty.
abbrev two_roots : CodeTable
two_roots = record {
  initial_code_size = 2;
  clear_code = 4;
  end_code = 5;
  max_code = 4;
  num_codes = 7;
  table = (1 ∷ []) ∷ (2 ∷ []) ∷ replicate 4094 [];
  stream = record { source = []; word_size = 3; src_pos = 0 };
}

two_roots-IsTable : IsTable two_roots
two_roots-IsTable = record {
  entries = omega (arith, length-replicate {A = List ℕ} 4094 []);
  room = omega arith;
  code_size = omega arith;
}

add_string-Added_example :
    (u : CodeTable) × (add_string (pos 0) (pos 1) two_roots ≡ ok (pos 7, u))
    × IsTable u
    × Added two_roots (1 ∷ []) (2 ∷ []) 1 u
add_string-Added_example =
    add_string-Added two_roots 0 1 (1 ∷ []) (2 ∷ []) 1 two_roots-IsTable (omega arith) refl refl
      (omega arith)

abbrev decoder : Gif
decoder = record {
  writer = new_writer 2 1 2 false;
  codes = two_roots;
  last_code = negsuc 0;
  start_with_clear = false;
}

abbrev written : Step → List (ℕ × ℕ)
written (goes g) = []
written (ended g) = g.writer.dest
written (raises e) = []

-- The codes 0 and 1, and the end code 5.
two_codes : written (decompress (0x48 ∷ 0x01 ∷ []) decoder) ≡ (0, 1) ∷ (1, 2) ∷ []
unfolding decompress is_words_left get_word to_short write_string new_writer
two_codes = refl

decompress_all-Decompressed_example :
    (g : Gif) × (new_gif 2 (new_writer 2 1 2 false) ≡ ok g)
    × Decompressed (decompress_all ((0x44 ∷ 0x01 ∷ []) ∷ [] ∷ []) g)
decompress_all-Decompressed_example =
    decompress_all-Decompressed 2 (new_writer 2 1 2 false) ((0x44 ∷ 0x01 ∷ []) ∷ [] ∷ [])
      (omega arith) ((omega arith, (omega arith, tt)), (tt, tt))
