-- ===== src/Illa/TgaDecoder.antt =====
-- c_tga_decoder.cpp and the loop of c_tga.cpp: the batches of rows of a TGA file, over the decoder of run
-- lengths.
pub mod Scanlines
pub mod Image
use Prim.Native.Nat.{bit_and}
use pictus.Base.{
  ℕ, zero, suc, ◌+◌, ◌-◌, ◌*◌, ◌/◌, ◌%◌, map, set, get_elem?, ◌^◌, ◌==◌, min, Bool, true, false,
  ◌&&◌, ◌||◌, not, Option, none, some, List, [], ◌∷◌, ◌++◌, ltb, if◌then◌else◌, replicate, length,
}
use pictus.Illa.Headers.Tga.{at_undefined_ignore, at_no_alpha}
use pictus.Illa.TgaRle.{Reader, Decoder, Rows, perform_on_process, ◌>>=◌}

-- How a line is finished behind its batch, as the header says; `blank` is the pixel of a cleared surface.
pub record Finish : Type 0 where
  pub flip_horizontal : Bool
  pub color_depth : ℕ
  pub attributes_type : ℕ
  pub blank : ℕ

pub record Job : Type 0 where
  pub dimensions_width : ℕ
  pub dimensions_height : ℕ
  pub flip_vertical : Bool
  pub finish : Finish

pub record Batch : Type 0 where
  pub start_scan : ℕ
  pub num_rows : ℕ

abbrev pub rows_per_batch : ℕ
rows_per_batch = 64

-- SetSource
unfoldable pub first_scanline : Job → ℕ
first_scanline j = if j.flip_vertical then j.dimensions_height else 0

unfoldable pub prepare_batch : Job → ℕ → ℕ → Batch
prepare_batch j rows_to_process current_scanline =
    if j.flip_vertical
    then (record {
      num_rows = min rows_to_process current_scanline;
      start_scan = current_scanline - min rows_to_process current_scanline;
    })
    else (record {
      num_rows = min rows_to_process (j.dimensions_height - current_scanline);
      start_scan = current_scanline;
    })

-- The row that the destination points to at first, and the rows that it gets to from there.
unfoldable pub first_row : Bool → Batch → ℕ
first_row true b = b.start_scan + b.num_rows - 1
first_row false b = b.start_scan

unfoldable pub put_rows : Bool → ℕ → List (List ℕ) → List (ℕ × List ℕ)
put_rows flips y [] = []
put_rows flips y (ps ∷ rows) = (y, ps) ∷ put_rows flips (if flips then y - 1 else y + 1) rows

unfoldable pub scanline_behind : Job → Batch → ℕ → ℕ
scanline_behind j b current_scanline =
    if j.flip_vertical then current_scanline - b.num_rows else current_scanline + b.num_rows

unfoldable pub is_last_scanline : Job → ℕ → Bool
is_last_scanline j current_scanline =
    (current_scanline == j.dimensions_height && not j.flip_vertical)
    || (current_scanline == 0 && j.flip_vertical)

-- `std::swap` of two pixels of a line, and the first `n` turns of FlipHorizontalBatch.
unfoldable pub swap_at : ℕ → ℕ → List ℕ → List ℕ
swap_at i k ps = elim (get_elem? ps i) [
  | none ↦ ps
  | some p ↦ elim (get_elem? ps k) [ none ↦ ps | some q ↦ set (set ps i q) k p ]
]

unfoldable pub flip_loop : ℕ → ℕ → List ℕ → List ℕ
unfolding swap_at
flip_loop zero width ps = ps
flip_loop (suc n) width ps = swap_at n (width - 1 - n) (flip_loop n width ps)

unfoldable pub reset_alpha : Finish → List ℕ → List ℕ
reset_alpha f ps =
    if f.color_depth == 32
      && (f.attributes_type == at_undefined_ignore || f.attributes_type == at_no_alpha)
    then map (λ p. 255 * 2 ^ 24 + p % 2 ^ 24) ps
    else ps

-- FinalizeBatch on one line. A line that the file did not fill is blank behind its pixels; the lines of
-- the batch behind it are blank, and stay as they are.
unfoldable pub finish_line : Finish → ℕ → List ℕ → List ℕ
unfolding flip_loop reset_alpha
finish_line f width ps =
    let line = ps ++ replicate (width - length ps) f.blank in
    reset_alpha f (if f.flip_horizontal then flip_loop (width / 2) width line else line)

-- Process: the rows that it writes, each with its place, and the state behind it.
pub record Processed : Type 0 where
  pub is_done : Bool
  pub writes : List (ℕ × List ℕ)
  pub scanline : ℕ
  pub state : Decoder

-- FinalizeBatch, and what Process returns.
unfoldable pub finalize_batch : Job → ℕ → Batch → Rows → Processed
unfolding scanline_behind is_last_scanline put_rows first_row finish_line
finalize_batch j current_scanline b t = record {
  is_done = is_last_scanline j (scanline_behind j b current_scanline) || t.is_finished;
  writes =
      put_rows j.flip_vertical (first_row j.flip_vertical b)
        (map (finish_line j.finish j.dimensions_width) t.rows);
  scanline = scanline_behind j b current_scanline;
  state = t.decoder;
}

unfoldable pub process : Reader → Job → ℕ → Decoder → Option Processed
unfolding prepare_batch perform_on_process finalize_batch
process r j current_scanline d =
    let b = prepare_batch j rows_per_batch current_scanline in
    perform_on_process r j.dimensions_width b.num_rows d >>= λ t.
    some (finalize_batch j current_scanline b t)

-- PerformLoadImageData of c_tga.cpp, if nobody terminates it, with fuel for its loop.
unfoldable pub load_image_data : Reader → Job → ℕ → ℕ → Decoder → Option (List (ℕ × List ℕ))
unfolding process
load_image_data r j zero current_scanline d = none
load_image_data r j (suc fuel) current_scanline d = process r j current_scanline d >>= λ t.
    elim t.is_done [
      | true ↦ some t.writes
      | false ↦ load_image_data r j fuel t.scanline t.state >>= λ rest. some (t.writes ++ rest)
    ]
