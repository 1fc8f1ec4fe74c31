-- ===== src/Orz/FileReader.antt =====
-- orz/stream.cpp, stream_mem.cpp, file_reader.cpp and file_cache.cpp: a reader of a stream in memory,
-- and the byte streamer on top of it. Reading returns the bytes that the code writes to the buffer.
pub mod Streamer
pub mod Seeking
use pictus.Base.{
  ℕ, zero, suc, ◌+◌, ◌-◌, ◌*◌, ◌/◌, ◌%◌, ◌^◌, min, ◌==◌, Bool, true, false, not, ◌&&◌, Option, none,
  some, List, [], ◌∷◌, ◌++◌, ltb, if◌then◌else◌, length, take, drop, get_elem?,
}
use pictus.Base.Int.{ℤ, pos, negsuc, ◌+ℤ◌, ◌-ℤ◌, ltb_ℤ, leb_ℤ}

-- The exceptions; `out_of_bounds` is an access outside of the buffer.
pub data Error : Type 0 where
  file_not_open file_already_open end_of_file invalid_param critical_error eof_encountered
        out_of_bounds :
      Error

pub data Result {ℓ} (A : Type ℓ) : Type ℓ where
  ok : A → Result A
  err : Error → Result A

infixl 5 ◌>>=◌
abbrev pub ◌>>=◌ {ℓ κ} : {A : Type ℓ} {B : Type κ} → Result A → (A → Result B) → Result B
ok a >>= f = f a
err e >>= f = err e

pub data SeekMethod : Type 0 where
  begin current end : SeekMethod

-- `StreamMemory`. Without a buffer `source` is `none`.
pub record StreamMemory : Type 0 where
  pub source : Option (List ℕ)
  pub position : ℤ
  pub is_open : Bool

abbrev pub bytes : StreamMemory → List ℕ
bytes s = elim s.source [ none ↦ [] | some bs ↦ bs ]

abbrev pub is_some : {A : Type 0} → Option A → Bool
is_some none = false
is_some (some a) = true

unfoldable pub perform_open : StreamMemory → StreamMemory
perform_open s = record s { is_open = is_some s.source; position = pos 0 }

unfoldable pub close : StreamMemory → StreamMemory
close s = record { source = none; position = pos 0; is_open = false }

unfoldable pub open_stream : StreamMemory → Result StreamMemory
unfolding perform_open
open_stream s = if s.is_open then err file_already_open else ok (perform_open s)

-- `memcpy` from a position, in items of `size` bytes.
unfoldable pub read_at : ℤ → ℕ → ℕ → StreamMemory → Result ((ℕ × List ℕ) × StreamMemory)
read_at (negsuc n) size items s = err out_of_bounds
read_at (pos n) zero items s = err out_of_bounds
read_at (pos n) (suc m) items s =
    let num_items = min items ((length (bytes s) - n) / suc m) in
    ok (
      (num_items, take (suc m * num_items) (drop n (bytes s))),
      record s { position = pos n +ℤ pos (suc m * num_items) },
    )

unfoldable pub perform_read : ℕ → ℕ → StreamMemory → Result ((ℕ × List ℕ) × StreamMemory)
unfolding read_at
perform_read size items s =
    if leb_ℤ (pos (length (bytes s))) s.position
    then err critical_error
    else read_at s.position size items s

unfoldable pub read : ℕ → ℕ → StreamMemory → Result ((ℕ × List ℕ) × StreamMemory)
unfolding perform_read
read size items s = if s.is_open then perform_read size items s else err file_not_open

abbrev target_of : SeekMethod → ℤ → StreamMemory → ℤ
target_of begin p s = p
target_of current p s = s.position +ℤ p
target_of end p s = pos (length (bytes s))

unfoldable pub perform_seek : SeekMethod → ℤ → StreamMemory → StreamMemory
unfolding ◌+ℤ◌
perform_seek m p s =
    let target = target_of m p s in
    let size = pos (length (bytes s)) in
    record s { position = if ltb_ℤ size target then size else target }

-- Stream::Seek, behind the checks of FileReader::Seek: is the argument refused?
unfoldable pub refuses : SeekMethod → ℤ → StreamMemory → Bool
unfolding ◌+ℤ◌ ◌-ℤ◌
refuses begin p s = ltb_ℤ (pos (length (bytes s))) p
refuses end p s = if ltb_ℤ (pos 0) p then true else ltb_ℤ (pos (length (bytes s))) (pos 0 -ℤ p)
refuses current p s = ltb_ℤ (pos (length (bytes s))) (p +ℤ s.position)

unfoldable pub seek : SeekMethod → ℤ → StreamMemory → Result StreamMemory
unfolding refuses perform_seek
seek m p s =
    if not s.is_open
    then err file_not_open
    else if refuses m p s
    then err invalid_param
    else ok (perform_seek m p s)

abbrev full : (ℕ × List ℕ) × StreamMemory → Error → Result (List ℕ × StreamMemory)
full ((n, bs), s) e = if n == 1 then ok (bs, s) else err e

unfoldable pub read_full : ℕ → StreamMemory → Result (List ℕ × StreamMemory)
unfolding read
read_full size s =
    if not s.is_open
    then err file_not_open
    else if ltb 0 size
    then (read size 1 s >>= λ r. full r end_of_file)
    else ok ([], s)

-- The four words, from one item of their size.
unfoldable pub read_word : ℕ → StreamMemory → Result (List ℕ × StreamMemory)
unfolding read
read_word size s = read size 1 s >>= λ r. full r eof_encountered

unfoldable pub little_endian : List ℕ → ℕ
little_endian [] = 0
little_endian (b ∷ bs) = b + 2 ^ 8 * little_endian bs

unfoldable pub big_endian : ℕ → List ℕ → ℕ
big_endian n [] = n
big_endian n (b ∷ bs) = big_endian (n * 2 ^ 8 + b) bs

unfoldable pub read_le_16 : StreamMemory → Result (ℕ × StreamMemory)
unfolding read_word little_endian
read_le_16 s = read_word 2 s >>= λ (bs, t). ok (little_endian bs, t)

unfoldable pub read_le_32 : StreamMemory → Result (ℕ × StreamMemory)
unfolding read_word little_endian
read_le_32 s = read_word 4 s >>= λ (bs, t). ok (little_endian bs, t)

unfoldable pub read_net_16 : StreamMemory → Result (ℕ × StreamMemory)
unfolding read_word big_endian
read_net_16 s = read_word 2 s >>= λ (bs, t). ok (big_endian 0 bs, t)

unfoldable pub read_net_32 : StreamMemory → Result (ℕ × StreamMemory)
unfolding read_word big_endian
read_net_32 s = read_word 4 s >>= λ (bs, t). ok (big_endian 0 bs, t)

-- `FileReaderByteStreamer`. The cache has the bytes of the last read: `m_cacheSize` is its length.
pub record FileReaderByteStreamer : Type 0 where
  pub cache : List ℕ
  pub position : ℕ
  pub bytes_left : ℕ
  pub reader : StreamMemory

abbrev pub distance : ℤ → ℕ → Result ℕ
distance (negsuc n) size = ok (size + n + 1)
distance (pos n) size = if ltb size n then err critical_error else ok (size - n)

unfoldable pub set_file_reader : StreamMemory → Result FileReaderByteStreamer
set_file_reader r =
    if not r.is_open
    then err file_not_open
    else (distance r.position (length (bytes r)) >>= λ left.
        ok (record { cache = []; position = 0; bytes_left = left; reader = r }))

unfoldable pub refill : ℕ → FileReaderByteStreamer → Result FileReaderByteStreamer
unfolding read
refill capacity s =
    if s.position == length s.cache
    then (read 1 capacity s.reader >>= λ ((n, bs), r).
        ok (record s { cache = bs; position = 0; reader = r }))
    else ok s

abbrev fetch : FileReaderByteStreamer → Option ℕ → Result (ℕ × FileReaderByteStreamer)
fetch s none = err out_of_bounds
fetch s (some b) = ok (b, record s { position = s.position + 1; bytes_left = s.bytes_left - 1 })

unfoldable pub read_byte_by : ℕ → FileReaderByteStreamer → Result (ℕ × FileReaderByteStreamer)
unfolding refill
read_byte_by capacity s =
    if s.bytes_left == 0
    then err critical_error
    else (refill capacity s >>= λ t. fetch t (get_elem? t.cache t.position))

-- `CacheSize`
abbrev pub cache_size : ℕ
cache_size = 4096

unfoldable pub read_byte : FileReaderByteStreamer → Result (ℕ × FileReaderByteStreamer)
unfolding read_byte_by
read_byte s = read_byte_by cache_size s

unfoldable pub skip_bytes : ℕ → FileReaderByteStreamer → Result FileReaderByteStreamer
unfolding read_byte
skip_bytes zero s = ok s
skip_bytes (suc num_to_skip) s = read_byte s >>= λ (b, t). skip_bytes num_to_skip t

unfoldable pub virtual_file_position : FileReaderByteStreamer → ℤ
unfolding ◌-ℤ◌
virtual_file_position s = s.reader.position -ℤ pos (length s.cache - s.position)
