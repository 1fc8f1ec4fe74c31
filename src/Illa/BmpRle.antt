-- ===== src/Illa/BmpRle.antt =====
-- c_bmp_rle.cpp, c_bmp_rle_8.cpp, c_bmp_rle_4.cpp and GetScanlinePtr of c_bmp_decoder.cpp: bitmaps
-- with run lengths, on a surface of the size that the header gives. The reader is the list of the
-- bytes that are left.
pub mod Inside
pub mod Chunks
pub mod Process
use Prim.Native.Nat.{bit_and}
use pictus.Base.{
  ℕ, zero, suc, ◌+◌, ◌-◌, ◌*◌, ◌/◌, ◌%◌, ◌^◌, ◌==◌, Bool, true, false, not, ◌||◌, List, [], ◌∷◌,
  ltb, leb, if◌then◌else◌,
}
use pictus.Base.Int.{ℤ, pos, ◌-ℤ◌, pos_part}
use pictus.Orz.Geom.Size.{size}
use pictus.Orz.Geom.Point.{point, origin}
use pictus.Orz.Geom.Rect.{Rect, rect, contains_rect}

pub record Bitmap : Type 0 where
  pub width : ℕ
  pub height : ℕ
  pub flip_vertical : Bool

-- A byte that is written to the surface.
pub record Write : Type 0 where
  pub column : ℕ
  pub line : ℕ
  pub value : ℕ

-- The fields of the decoder, two of type `int` that are never negative, the row of the surface that is locked, the bytes that are left, and the
-- bytes that were written, newest first.
pub record RleDecoder : Type 0 where
  pub curr_pix : ℕ
  pub row : ℕ
  pub area : ℕ
  pub source : List ℕ
  pub writes : List Write

-- Err::EndOfFile of ReadFull, Err::InvalidParam of Seek and of LockSurface.
pub data Error : Type 0 where
  end_of_file invalid_param : Error

-- What a piece of the loop's body does: it falls through, it returns true, it raises, or it adds to an
-- `int` what does not fit, which is undefined and is the end of the model; the decoder is the one
-- before.
pub data Step : Type 0 where
  goes : RleDecoder → Step
  finished : RleDecoder → Step
  raises : Error → Step
  overflows : RleDecoder → Step

infixl 5 ◌>>=◌
abbrev pub ◌>>=◌ : Step → (RleDecoder → Step) → Step
goes d >>= f = f d
finished d >>= f = finished d
raises e >>= f = raises e
overflows d >>= f = overflows d

-- ReadFull of one byte, and what is done with it.
abbrev pub read_from : List ℕ → RleDecoder → (ℕ → RleDecoder → Step) → Step
read_from [] d f = raises end_of_file
read_from (b ∷ rest) d f = f b (record d { source = rest })

abbrev pub read_byte : RleDecoder → (ℕ → RleDecoder → Step) → Step
read_byte d f = read_from d.source d f

-- Seek(1, IO::SeekMethod::Current)
abbrev pub skip_from : List ℕ → RleDecoder → Step
skip_from [] d = raises invalid_param
skip_from (b ∷ rest) d = goes (record d { source = rest })

abbrev pub skip_byte : RleDecoder → Step
skip_byte d = skip_from d.source d

module _ (bitmap : Bitmap) where
  -- The row that GetScanlinePtr asks for.
  unfoldable pub scanline : ℕ → ℤ
  scanline row = if bitmap.flip_vertical then pos bitmap.height -ℤ pos row -ℤ pos 1 else pos row

  unfoldable pub move_to : ℕ → ℕ → RleDecoder → Step
  unfolding scanline
  move_to curr_pix row d =
      if contains_rect (rect origin (size (pos bitmap.width) (pos bitmap.height)))
        (rect (point (pos 0) (scanline row)) (size (pos bitmap.width) (pos 1)))
      then goes (record d { curr_pix = curr_pix; row = row; area = pos_part (scanline row) })
      else raises invalid_param

  -- The new values of `m_currPix` and `m_row` are of type `int`, with 32 bits.
  unfoldable pub advance_to : ℕ → ℕ → RleDecoder → Step
  unfolding move_to
  advance_to curr_pix row d =
      if leb (2 ^ 31) curr_pix || leb (2 ^ 31) row then overflows d else move_to curr_pix row d

  unfoldable pub add_pixel_rle : ℕ → RleDecoder → RleDecoder
  add_pixel_rle val d = if leb bitmap.width d.curr_pix then d else record d {
    curr_pix = d.curr_pix + 1;
    writes = record { column = d.curr_pix; line = d.area; value = val } ∷ d.writes;
  }

  -- `n` times the same pixel, and `n` times a pair of pixels.
  unfoldable pub run_8 : ℕ → ℕ → RleDecoder → RleDecoder
  unfolding add_pixel_rle
  run_8 zero val d = d
  run_8 (suc n) val d = run_8 n val (add_pixel_rle val d)

  unfoldable pub run_4 : ℕ → ℕ → ℕ → RleDecoder → RleDecoder
  unfolding add_pixel_rle
  run_4 zero pix1 pix2 d = d
  run_4 (suc n) pix1 pix2 d = run_4 n pix1 pix2 (add_pixel_rle pix2 (add_pixel_rle pix1 d))

  abbrev pub high : ℕ → ℕ
  high val = bit_and val 0xf0 / 2 ^ 4

  abbrev pub low : ℕ → ℕ
  low val = bit_and val 0x0f

  -- `n` bytes of an absolute run.
  unfoldable pub absolute_8 : ℕ → RleDecoder → Step
  unfolding add_pixel_rle
  absolute_8 zero d = goes d
  absolute_8 (suc n) d = read_byte d (λ val e. absolute_8 n (add_pixel_rle val e))

  unfoldable pub absolute_4 : ℕ → RleDecoder → Step
  unfolding add_pixel_rle
  absolute_4 zero d = goes d
  absolute_4 (suc n) d =
      read_byte d (λ val e. absolute_4 n (add_pixel_rle (low val) (add_pixel_rle (high val) e)))

  abbrev pub skip_if : Bool → RleDecoder → Step
  skip_if true d = skip_byte d
  skip_if false d = goes d

  abbrev pub last_nibble : Bool → RleDecoder → Step
  last_nibble true d = read_byte d (λ val e. goes (add_pixel_rle (high val) e))
  last_nibble false d = goes d

  -- What the two decoders do with a run, and with absolute pixels.
  unfoldable pub encoded_8 : ℕ → ℕ → RleDecoder → RleDecoder
  unfolding run_8
  encoded_8 b1 b2 d = run_8 b1 b2 d

  unfoldable pub encoded_4 : ℕ → ℕ → RleDecoder → RleDecoder
  unfolding run_4 add_pixel_rle
  encoded_4 b1 b2 d =
      let pix1 = high b2 in
      let e = run_4 (b1 / 2) pix1 (low b2) d in
      if bit_and b1 0x01 == 0 then e else add_pixel_rle pix1 e

  unfoldable pub pixels_8 : ℕ → RleDecoder → Step
  unfolding absolute_8
  pixels_8 b2 d = absolute_8 b2 d >>= skip_if (not (bit_and b2 0x1 == 0))

  unfoldable pub pixels_4 : ℕ → RleDecoder → Step
  unfolding absolute_4
  pixels_4 b2 d =
      let num_bytes = b2 / 2 in
      let odd = bit_and b2 0x1 in
      absolute_4 num_bytes d
      >>= last_nibble (not (odd == 0))
      >>= skip_if (not (bit_and (num_bytes + odd) 0x1 == 0))

  unfoldable pub end_of_line : RleDecoder → Step
  unfolding advance_to
  end_of_line d = if d.curr_pix == 0 then goes d else advance_to 0 (d.row + 1) d

  unfoldable pub delta : RleDecoder → Step
  unfolding advance_to
  delta d = read_byte d (λ dx e. read_byte e (λ dy f. advance_to (f.curr_pix + dx) (f.row + dy) f))

  module _ (encoded : ℕ → ℕ → RleDecoder → RleDecoder) (pixels : ℕ → RleDecoder → Step) where
    unfoldable pub special : ℕ → RleDecoder → Step
    unfolding end_of_line delta
    special b2 d =
        if b2 == 0
        then end_of_line d
        else if b2 == 1
        then finished d
        else if b2 == 2
        then delta d
        else pixels b2 d

    -- One turn of the loop.
    unfoldable pub chunk : RleDecoder → Step
    unfolding special
    chunk d =
        read_byte d
          (λ b1 e. read_byte e (λ b2 f. if b1 == 0 then special b2 f else goes (encoded b1 b2 f)))

    unfoldable pub chunks : ℕ → RleDecoder → Step
    unfolding chunk
    chunks zero d = goes d
    chunks (suc n) d = chunk d >>= chunks n

    -- OnProcess with `n` turns, from the lock of the current row: it returns true where it finishes.
    unfoldable pub process_by : ℕ → RleDecoder → Step
    unfolding chunks move_to
    process_by n d = move_to d.curr_pix d.row d >>= chunks n >>= λ e.
        if e.row == bitmap.height then finished e else goes e

    -- `RLEChunks` turns.
    unfoldable pub on_process : RleDecoder → Step
    unfolding process_by
    on_process d = process_by 64 d
