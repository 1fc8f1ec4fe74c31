-- ===== src/Illa/CodeTable.antt =====
-- gif_stringtable.cpp: the table of the LZW codes, `resetTable` and `addString`.
pub mod Growth
use pictus.Base.{
  ℕ, zero, suc, ◌+◌, ◌-◌, ◌*◌, ◌%◌, ◌^◌, ◌==◌, Bool, true, false, ◌&&◌, ◌||◌, Option, none, some,
  List, [], ◌∷◌, ◌++◌, ltb, leb, if◌then◌else◌, get_elem?, set, replicate,
}
use pictus.Base.Int.{ℤ, pos, negsuc}
use pictus.Orz.StreamConverter.{StreamConverter, change_word_size}

abbrev pub lzw_table_size : ℕ
lzw_table_size = 4096

-- The fields of `StringTable` that hold codes. A string is a list of bytes.
pub record CodeTable : Type 0 where
  pub initial_code_size : ℕ
  pub clear_code : ℕ
  pub end_code : ℕ
  pub max_code : ℕ
  pub num_codes : ℕ
  pub table : List (List ℕ)
  pub stream : StreamConverter

-- `codec_error` is Err::CodecError, `invalid_param` is Err::InvalidParam; `out_of_range` is an
-- access beyond the table.
pub data Error : Type 0 where
  codec_error invalid_param out_of_range : Error

pub data Result {ℓ} (A : Type ℓ) : Type ℓ where
  ok : A → Result A
  err : Error → Result A

-- `resize(1, i)`: a string that has bytes keeps its first one.
abbrev pub reset_entry : ℕ → List ℕ → List ℕ
reset_entry i [] = i % 2 ^ 8 ∷ []
reset_entry i (b ∷ bs) = b ∷ []

unfoldable pub reset_entries : ℕ → List (List ℕ) → List (List ℕ)
reset_entries i [] = []
reset_entries i (e ∷ es) = reset_entry i e ∷ reset_entries (i + 1) es

unfoldable pub reset_table : CodeTable → CodeTable
unfolding reset_entries change_word_size
reset_table t = record t {
  max_code = 2 ^ t.initial_code_size;
  num_codes = 2 ^ t.initial_code_size + 2;
  table = reset_entries 0 t.table;
  stream = change_word_size t.stream (t.initial_code_size + 1);
}

-- The fields before the constructor resets the table: the strings are empty.
abbrev pub empty_table : ℕ → CodeTable
empty_table min_code_size = record {
  initial_code_size = min_code_size;
  clear_code = 2 ^ min_code_size;
  end_code = 2 ^ min_code_size + 1;
  max_code = 0;
  num_codes = 0;
  table = replicate lzw_table_size [];
  stream = record { source = []; word_size = 8; src_pos = 0 };
}

unfoldable pub new_table : ℕ → Result CodeTable
unfolding reset_table
new_table min_code_size =
    if ltb 11 min_code_size then err invalid_param else ok (reset_table (empty_table min_code_size))

-- `m_table[code][0]`, which is 0 in an empty string.
abbrev pub first_byte : List ℕ → ℕ
first_byte [] = 0
first_byte (b ∷ bs) = b

-- The code size grows with the number of codes, up to 12 bits.
unfoldable pub grow : CodeTable → CodeTable
unfolding change_word_size
grow t =
    let code_size = t.stream.word_size in
    if leb (2 ^ code_size) t.num_codes && ltb code_size 12
    then record t { stream = change_word_size t.stream (code_size + 1); max_code = t.max_code * 2 }
    else t

unfoldable pub append_string :
    Option (List ℕ) → Option (List ℕ) → CodeTable → Result (ℤ × CodeTable)
unfolding grow
append_string none current t = err out_of_range
append_string (some l) none t = err out_of_range
append_string (some l) (some c) t = ok (
  pos t.num_codes,
  grow (record t {
    table = set t.table t.num_codes (l ++ first_byte c ∷ []);
    num_codes = t.num_codes + 1;
  }),
)

abbrev pub string_at : ℤ → CodeTable → Option (List ℕ)
string_at (pos n) t = get_elem? t.table n
string_at (negsuc n) t = none

abbrev pub is_negative : ℤ → Bool
is_negative (pos n) = false
is_negative (negsuc n) = true

unfoldable pub add_string : ℤ → ℤ → CodeTable → Result (ℤ × CodeTable)
unfolding append_string
add_string last_code current_code t =
    if t.num_codes == lzw_table_size
    then ok (pos t.num_codes, t)
    else if ltb 4095 t.num_codes
    then err codec_error
    else if is_negative last_code || is_negative current_code
    then err codec_error
    else append_string (string_at last_code t) (string_at current_code t) t
