-- ===== src/Orz/StreamConverter.antt =====
-- streamconv.cpp: words of a chosen number of bits, read from a queue of bytes.
pub mod Round
pub mod Lsb
pub mod High
pub mod Msb
pub mod Bytes
use Prim.Native.Nat.{bit_and, bit_or}
use pictus.Base.{
  ℕ, zero, suc, ◌+◌, ◌-◌, ◌*◌, ◌/◌, ◌%◌, ◌^◌, ◌<◌, ◌≤◌, Bool, List, [], ◌∷◌, ◌++◌, ltb, leb,
  if◌then◌else◌, length, min,
}
use pictus.Base.Int.{ℤ, pos, negsuc}

-- `source` is `m_source`, its front first.
pub record StreamConverter : Type 0 where
  pub source : List ℕ
  pub word_size : ℕ
  pub src_pos : ℕ

-- `out_of_data` is Err::CriticalError; `no_fuel` stands for a loop that has not ended.
pub data Error : Type 0 where
  out_of_data no_fuel : Error

pub data Result {ℓ} (A : Type ℓ) : Type ℓ where
  ok : A → Result A
  err : Error → Result A

infixl 5 ◌>>=◌
abbrev pub ◌>>=◌ {ℓ κ} : {A : Type ℓ} {B : Type κ} → Result A → (A → Result B) → Result B
ok a >>= f = f a
err e >>= f = err e

unfoldable pub init : ℕ → StreamConverter
init dest_bit_count = record { source = []; word_size = dest_bit_count; src_pos = 0 }

unfoldable pub add_byte : StreamConverter → ℕ → StreamConverter
add_byte s b = record s { source = s.source ++ b ∷ [] }

-- The pointer is never null here, so `AddBytes` returns true.
unfoldable pub add_bytes : StreamConverter → List ℕ → StreamConverter
add_bytes s bytes = record s { source = s.source ++ bytes }

unfoldable pub change_word_size : StreamConverter → ℕ → StreamConverter
change_word_size s new_bit_count = record s { word_size = new_bit_count }

unfoldable pub is_words_left : StreamConverter → Bool
is_words_left s = leb s.word_size ((8 * length s.source - s.src_pos) % 2 ^ 32)

-- The variables of the loop of `GetWord`, and the two fields that it changes.
pub record Cursor : Type 0 where
  pub source : List ℕ
  pub src_pos : ℕ
  pub currchar : ℕ
  pub dst_pos : ℕ
  pub copied : ℕ

abbrev pub to_copy : ℕ → Cursor → ℕ
to_copy word_size c = min ((8 - c.src_pos) % 2 ^ 8) ((word_size - c.copied) % 2 ^ 8)

-- `m_srcPos += toCopy; if (m_srcPos > 7) { m_srcPos = 0; m_source.pop_front(); }`
unfoldable pub advance : ℕ → ℕ → List ℕ → Cursor → Cursor
advance n byte rest c =
    if ltb 7 (c.src_pos + n)
    then record c { source = rest; src_pos = 0 }
    else record c { source = byte ∷ rest; src_pos = c.src_pos + n }

unfoldable pub round_lsb : ℕ → ℕ → List ℕ → Cursor → Cursor
unfolding advance
round_lsb word_size byte rest c =
    let n = to_copy word_size c in
    let mask = (2 ^ n - 1) % 2 ^ 16 * 2 ^ c.src_pos % 2 ^ 16 in
    let part = bit_and byte mask / 2 ^ c.src_pos % 2 ^ 8 in
    let d = advance n byte rest c in
    record d {
      currchar = bit_or c.currchar (part * 2 ^ c.dst_pos);
      dst_pos = c.dst_pos + n;
      copied = c.copied + n;
    }

unfoldable pub round_msb : ℕ → ℕ → List ℕ → Cursor → Cursor
unfolding advance
round_msb word_size byte rest c =
    let n = to_copy word_size c in
    let low = 8 - (n + c.src_pos) in
    let mask = (2 ^ n - 1) * 2 ^ low % 2 ^ 16 in
    let part = bit_and byte mask / 2 ^ low % 2 ^ 8 in
    let d = advance n byte rest c in
    record d {
      currchar = bit_or c.currchar (part * 2 ^ (word_size - (n + c.dst_pos)));
      dst_pos = c.dst_pos + n;
      copied = c.copied + n;
    }

-- `do { … } while (copied < m_wordSize)`, over one of the two rounds.
unfoldable pub loop : (ℕ → ℕ → List ℕ → Cursor → Cursor) → ℕ → ℕ → Cursor → Result Cursor
loop round zero word_size c = err no_fuel
loop round (suc fuel) word_size c = elim c.source [
  | [] ↦ err out_of_data
  | byte ∷ rest ↦
      let d = round word_size byte rest c in
      let more = loop round fuel word_size d in if ltb d.copied word_size then more else ok d
]

abbrev pub start : StreamConverter → Cursor
start s = record { source = s.source; src_pos = s.src_pos; currchar = 0; dst_pos = 0; copied = 0 }

-- static_cast<short>
unfoldable pub to_short : ℕ → ℤ
to_short n = let w = n % 2 ^ 16 in if ltb w (2 ^ 15) then pos w else negsuc (2 ^ 16 - w - 1)

abbrev finish : StreamConverter → Cursor → ℤ × StreamConverter
finish s c = (to_short c.currchar, record s { source = c.source; src_pos = c.src_pos })

-- One round copies a bit at least, and there is one round at least.
abbrev pub fuel_for : ℕ → ℕ
fuel_for word_size = word_size + 1

unfoldable pub get_word : StreamConverter → Result (ℤ × StreamConverter)
unfolding loop round_lsb
get_word s = loop round_lsb (fuel_for s.word_size) s.word_size (start s) >>= λ c. ok (finish s c)

unfoldable pub get_word_msb_to_lsb : StreamConverter → Result (ℤ × StreamConverter)
unfolding loop round_msb
get_word_msb_to_lsb s =
    loop round_msb (fuel_for s.word_size) s.word_size (start s) >>= λ c. ok (finish s c)

-- static_cast<uint8_t>
unfoldable pub to_byte : ℤ → ℕ
to_byte (pos n) = n % 2 ^ 8
to_byte (negsuc n) = 2 ^ 8 - 1 - n % 2 ^ 8

-- `num` words, each cut to a byte, by one of the two readers.
unfoldable pub get_bytes :
    (StreamConverter → Result (ℤ × StreamConverter))
    → ℕ
    → StreamConverter
    → Result (List ℕ × StreamConverter)
unfolding to_byte
get_bytes get zero s = ok ([], s)
get_bytes get (suc num) s = do
  (word, t) ← get s
  (bytes, u) ← get_bytes get num t
  ok (to_byte word ∷ bytes, u)

unfoldable pub get_words_as_byte : ℕ → StreamConverter → Result (List ℕ × StreamConverter)
unfolding get_bytes get_word
get_words_as_byte = get_bytes get_word

unfoldable pub get_words_as_byte_msb_to_lsb :
    ℕ → StreamConverter → Result (List ℕ × StreamConverter)
unfolding get_bytes get_word_msb_to_lsb
get_words_as_byte_msb_to_lsb = get_bytes get_word_msb_to_lsb
