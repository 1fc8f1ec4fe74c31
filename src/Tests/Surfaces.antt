-- ===== src/Tests/Surfaces.antt =====
-- Surfaces (source/deps/illa/surface.cpp), and the run lengths of BMP and PCX, at small images.
use pictus.Base.{
  ℕ, ◌+◌, ◌*◌, ◌≡◌, ◌≤◌, ◌<◌, refl, arith, true, false, some, List, [], ◌∷◌, take, length,
}
use pictus.Base.Int.{pos}
use pictus.Orz.Geom.Size.{size}
use pictus.Orz.Geom.Point.{point}
use pictus.Orz.Geom.Rect.{Rect, rect, contains_rect}
use pictus.Illa.Types.{xrgb8888}
use pictus.Illa.SurfaceLock.{lock_read_write}
use pictus.Illa.Surface.{
  Surface, LockedArea, ok, locked, null, waits, new_surface, create_surface, begin_surface,
  lock_surface,
}
use pictus.Illa.Surface.Areas.{HasPixels, lock_surface-in_buffer}
use pictus.Illa.Surface.Unfinished.{create_surface-HasPixels, lock_surface-leak}
use pictus.Illa.BmpRle.{
  Bitmap, RleDecoder, on_process, process_by, end_of_line, move_to, chunks, encoded_8, pixels_8,
  delta, overflows, encoded_4, pixels_4, finished, raises, invalid_param, ◌>>=◌,
}
use pictus.Illa.BmpRle.Inside.{Ends}
use pictus.Illa.BmpRle.Process.{on_process-inside, last_line-raises}
use pictus.Illa.Pcx.{Layout, decode_scanline, scan_buffer}
use pictus.Illa.Pcx.Lines.{decode_scanline-expanded, expanded}

abbrev screen : Surface
screen = record {
  format = xrgb8888;
  dimensions = size (pos 10) (pos 5);
  pixel_size = 4;
  is_dirty = true;
  is_created = true;
  buffer = some 200;
  is_write_locked = false;
}

screen_created : create_surface (size (pos 10) (pos 5)) xrgb8888 new_surface ≡ ok screen
unfolding create_surface
screen_created = refl

screen-HasPixels :
    HasPixels screen
    × (screen.dimensions ≡ size (pos 10) (pos 5))
    × (screen.format ≡ xrgb8888)
    × (screen.is_created ≡ true)
screen-HasPixels =
    create_surface-HasPixels (size (pos 10) (pos 5)) xrgb8888 new_surface screen screen_created

abbrev corner : Rect
corner = rect (point (pos 7) (pos 3)) (size (pos 3) (pos 2))

abbrev corner_area : LockedArea
corner_area = record {
  region = corner;
  offset = 148;
  stride = 40;
  method = lock_read_write;
  is_locked = true;
}

corner_locked :
    lock_surface corner lock_read_write screen
    ≡ locked corner_area (record screen { is_write_locked = true })
unfolding lock_surface contains_rect
corner_locked = refl

-- The last byte.
lock_surface-in_buffer_example : 148 + 1 * 40 + 11 < 200
lock_surface-in_buffer_example =
    lock_surface-in_buffer corner lock_read_write screen (record screen { is_write_locked = true })
      corner_area 1 11 (record { size = 200; allocated = refl; all = refl }) refl refl corner_locked
      (omega arith) (omega arith)

unfinished_locked :
    (t : Surface) × (lock_surface corner lock_read_write
        (begin_surface (size (pos 10) (pos 5)) xrgb8888 new_surface)
      ≡ null t)
    × (lock_surface corner lock_read_write t ≡ waits)
unfolding begin_surface contains_rect
unfinished_locked =
    lock_surface-leak (size (pos 10) (pos 5)) xrgb8888 new_surface corner corner refl refl refl

abbrev strip : Bitmap
strip = record { width = 3; height = 2; flip_vertical = true }

abbrev strip_start : RleDecoder
strip_start = record {
  curr_pix = 0;
  row = 0;
  area = 0;
  source = 5 ∷ 7 ∷ 0 ∷ 0 ∷ 2 ∷ 9 ∷ 0 ∷ 1 ∷ [];
  writes = [];
}

-- Five pixels of 7 in a row of three, the next row, two pixels of 9, the end.
strip_done :
    on_process strip (encoded_8 strip) (pixels_8 strip) strip_start
    ≡ finished (record {
      curr_pix = 2;
      row = 1;
      area = 0;
      source = [];
      writes =
          record { column = 1; line = 0; value = 9 }
          ∷ record { column = 0; line = 0; value = 9 }
          ∷ record { column = 2; line = 1; value = 7 }
          ∷ record { column = 1; line = 1; value = 7 }
          ∷ record { column = 0; line = 1; value = 7 }
          ∷ [];
    })
unfolding on_process contains_rect encoded_8
strip_done = refl

on_process-inside_example :
    Ends strip (on_process strip (encoded_8 strip) (pixels_8 strip) strip_start)
    × Ends strip (on_process strip (encoded_4 strip) (pixels_4 strip) strip_start)
on_process-inside_example = on_process-inside strip strip_start (ground arith) (ground arith) tt

-- A delta to the right by 255, behind the last column that an `int` counts but 254.
abbrev far_right : RleDecoder
far_right = record { curr_pix = 2147483393; row = 1; area = 0; source = 255 ∷ 0 ∷ []; writes = [] }

far_right_overflows : delta strip far_right ≡ overflows (record far_right { source = [] })
unfolding delta
far_right_overflows = refl

abbrev last_row : RleDecoder
last_row = record { curr_pix = 3; row = 1; area = 0; source = 0 ∷ 1 ∷ []; writes = [] }

last_line-error :
    (end_of_line strip last_row ≡ raises invalid_param)
    × ((n : ℕ)
        → process_by strip (encoded_8 strip) (pixels_8 strip) n last_row
          ≡ (move_to strip 3 1 last_row >>= chunks strip (encoded_8 strip) (pixels_8 strip) n))
last_line-error =
    last_line-raises strip last_row (ground arith) (ground arith) (ground arith) tt (omega arith)
      refl

abbrev layout : Layout
layout = record { width = 4; color_planes = 1; plane_depth = 8; bytes_per_line = 4 }

abbrev runs : List ℕ
runs = 7 ∷ 197 ∷ 5 ∷ 1 ∷ []

-- A run of five at the end of the line.
cut_run : decode_scanline layout 4 runs ≡ (7 ∷ 5 ∷ 5 ∷ 5 ∷ [], 1 ∷ [])
unfolding decode_scanline
cut_run = refl

decode_scanline-expanded_example :
    ((decode_scanline layout 4 runs).0 ≡ take 4 (expanded runs))
    × (length (decode_scanline layout 4 runs).0 ≤ 4)
    × (length (scan_buffer layout runs).0 ≡ 4)
decode_scanline-expanded_example =
    decode_scanline-expanded layout runs
      (omega arith, (omega arith, (omega arith, (omega arith, tt))))
