-- ===== src/Illa/BmpRle/Process.antt =====
-- `OnProcess` as a whole, and the end of the last line.
use pictus.Base.{
  ℕ, ◌+◌, ◌<◌, ◌^◌, leb, ◌||◌, ◌≡◌, ◌≢◌, refl, arith, ◌==◌, false, Bool-cases, inl, inr,
  if◌then◌else◌, ne→==_not,
}
use pictus.Orz.Geom.Rect.{contains_rect}
use pictus.Illa.BmpRle.{
  Bitmap, RleDecoder, Step, goes, finished, raises, overflows, advance_to, ◌>>=◌, move_to, scanline,
  encoded_8, encoded_4, pixels_8, pixels_4, end_of_line, chunks, process_by, on_process,
  invalid_param,
}
use pictus.Illa.BmpRle.Inside.{
  AllInside, Ends, KeepsInside, bind_Ends, move_to-Ends, scanline_inside, line, whole,
  rle_8-KeepsInside, rle_4-KeepsInside,
}
use pictus.Illa.BmpRle.Chunks.{chunks-Ends}

module _ (bitmap : Bitmap) where
  -- The test of the row at the end of the loop.
  last_test :
      (s : Step)
      → Ends bitmap s
      → (s >>= λ e. if e.row == bitmap.height then finished e else goes e) ≡ s
  last_test (goes e) v =
      let h : (e.row == bitmap.height) ≡ false = ground (arith, v.row) in rw h refl
  last_test (finished e) v = refl
  last_test (raises e) v = refl
  last_test (overflows d) v = refl

  module _ (encoded : ℕ → ℕ → RleDecoder → RleDecoder) (pixels : ℕ → RleDecoder → Step)
      (small : bitmap.width < 2 ^ 31) (keeps : KeepsInside bitmap encoded pixels) where
    turns_Ends :
        (n : ℕ) (d : RleDecoder)
        → d.curr_pix < 2 ^ 31
        → AllInside bitmap d.writes
        → Ends bitmap (move_to bitmap d.curr_pix d.row d >>= chunks bitmap encoded pixels n)
    turns_Ends n d p w =
        bind_Ends bitmap _ _ (move_to-Ends bitmap d.curr_pix d.row d p w)
          (chunks-Ends bitmap encoded pixels keeps n)

    process_by_lem :
        (n : ℕ) (d : RleDecoder)
        → d.curr_pix < 2 ^ 31
        → AllInside bitmap d.writes
        → process_by bitmap encoded pixels n d
          ≡ (move_to bitmap d.curr_pix d.row d >>= chunks bitmap encoded pixels n)
    unfolding process_by
    process_by_lem n d p w = last_test _ (turns_Ends n d p w)

    process_by-Ends :
        (n : ℕ) (d : RleDecoder)
        → d.curr_pix < 2 ^ 31
        → AllInside bitmap d.writes
        → Ends bitmap (process_by bitmap encoded pixels n d)
    process_by-Ends n d p w = rw (process_by_lem n d p w) (turns_Ends n d p w)

-- Both decoders keep to the bitmap, whose width fits in an `int`: for any bytes, wherever OnProcess
-- returns, every byte that was written is in a column and a row of the bitmap, and so is the current
-- row. The same holds where it adds to m_currPix or m_row what does not fit in an `int`, just before it
-- does so; nothing is said of what comes behind.
pub on_process-inside :
    (bitmap : Bitmap) (d : RleDecoder)
    → bitmap.width < 2 ^ 31
    → d.curr_pix < 2 ^ 31
    → AllInside bitmap d.writes
    → Ends bitmap (on_process bitmap (encoded_8 bitmap) (pixels_8 bitmap) d)
      × Ends bitmap (on_process bitmap (encoded_4 bitmap) (pixels_4 bitmap) d)
unfolding on_process
on_process-inside bitmap d small p w = (
  process_by-Ends bitmap _ _ small (rle_8-KeepsInside bitmap small) 64 d p w,
  process_by-Ends bitmap _ _ small (rle_4-KeepsInside bitmap small) 64 d p w,
)

-- An end of line in the last row, behind a pixel, raises, whichever way the rows run; and the test
-- of the row with which OnProcess ends is never true, so that only the end of the bitmap ends it.
pub last_line-raises :
    (bitmap : Bitmap) (d : RleDecoder)
    → bitmap.width < 2 ^ 31
    → bitmap.height < 2 ^ 31
    → d.curr_pix < 2 ^ 31
    → AllInside bitmap d.writes
    → d.curr_pix ≢ 0
    → d.row + 1 ≡ bitmap.height
    → (end_of_line bitmap d ≡ raises invalid_param)
      × ((n : ℕ)
          → process_by bitmap (encoded_8 bitmap) (pixels_8 bitmap) n d ≡ (
              move_to bitmap d.curr_pix d.row d
              >>= chunks bitmap (encoded_8 bitmap) (pixels_8 bitmap) n))
unfolding end_of_line advance_to move_to
last_line-raises bitmap d small short p w nz e =
    let fits : (leb (2 ^ 31) 0 || leb (2 ^ 31) (d.row + 1)) ≡ false = ground arith in
    (
      rw (ne→==_not d.curr_pix 0 nz, end_of_line, fits)
          (elim (Bool-cases
            (contains_rect (whole bitmap) (line bitmap (scanline bitmap (d.row + 1))))) [
              | inl held ↦ absurd (omega (arith, e, (scanline_inside bitmap (d.row + 1) held).0))
              | inr out ↦ rw out refl
            ]),
      λ n. process_by_lem bitmap _ _ small (rle_8-KeepsInside bitmap small) n d p w,
    )
