-- ===== src/Tests/Pictures.antt =====
-- Runs of TGA files (source/deps/illa/c_tga_rle.cpp) and fixed rotations
-- (source/deps/illa/filter_rotatefixed.cpp), and lines of PSD files.
use pictus.Base.{arith, false, ◌⊎◌, ◌≤◌, length, ℕ, ◌+◌, ◌*◌, ◌≡◌, refl, true, some, List, [], ◌∷◌}
use pictus.Illa.Types.{rotate_90}
use pictus.Illa.TgaRle.{read_8, Rows, on_source, perform_on_process}
use pictus.Illa.TgaRle.Batches.{perform_on_process-pixels, IsBatch}
use pictus.Illa.TgaDecoder.Scanlines.{job}
use pictus.Illa.TgaDecoder.{load_image_data, first_scanline, Finish}
use pictus.Illa.TgaDecoder.Image.{load_image_data-IsImage, IsImage}
use pictus.Illa.PackBits.{Lines, load_rle_stream}
use pictus.Illa.PackBits.Packets.{
  Packet, run, padding, literal, loaded, load_rle_stream-encoded, load_rle_stream-bounded,
}
use pictus.Illa.Rotate.{Buffer, Region, apart}
use pictus.Illa.Rotate.Placed.{rotate_fixed-IsPlaced, IsDone}

-- Five times 7, and then 1, 2 and 3: an image of four columns and two rows.
abbrev runs : List ℕ
runs = 132 ∷ 7 ∷ 2 ∷ 1 ∷ 2 ∷ 3 ∷ []

abbrev as_read : Finish
as_read = record { flip_horizontal = true; color_depth = 8; attributes_type = 0; blank = 255 }

upside_down :
    load_image_data read_8
      (job 4 2 true as_read)
      3
      (first_scanline (job 4 2 true as_read))
      (on_source runs)
    ≡ some ((1, 7 ∷ 7 ∷ 7 ∷ 7 ∷ []) ∷ (0, 3 ∷ 2 ∷ 1 ∷ 7 ∷ []) ∷ [])
unfolding load_image_data first_scanline on_source
upside_down = refl

perform_on_process-pixels_example :
    (t : Rows) × (perform_on_process read_8 4 2 (on_source runs) ≡ some t)
    × IsBatch read_8 4 2 (on_source runs) t
perform_on_process-pixels_example = perform_on_process-pixels read_8 4 2 (on_source runs)

load_image_data-IsImage_example :
    (writes : List (ℕ × List ℕ)) × (load_image_data read_8
        (job 4 2 true as_read)
        (2 + 1)
        (first_scanline (job 4 2 true as_read))
        (on_source runs)
      ≡ some writes)
    × IsImage read_8 4 2 true as_read 0 2 (on_source runs) writes
load_image_data-IsImage_example = load_image_data-IsImage read_8 4 2 true as_read (on_source runs)

abbrev shades : Buffer
shades = λ x y. 10 * y + x

abbrev corner : Region
corner = record { left = 1; top = 2; width = 3; height = 2 }

rotate_fixed-IsPlaced_example : IsDone (apart shades (λ x y. 0)) corner 5 6 rotate_90
rotate_fixed-IsPlaced_example =
    rotate_fixed-IsPlaced (apart shades (λ x y. 0)) corner 5 6 rotate_90 refl

-- A line of a PSD file (source/deps/illa/c_psd.cpp): three times 7, a padding byte, and 1 and 2.
abbrev packets : List Packet
packets = run 3 7 ∷ padding ∷ literal (1 ∷ 2 ∷ []) ∷ []

abbrev line : Lines
line = record {
  rle_scanline_length = 6 ∷ 6 ∷ [];
  current_rle_stream_index = 1;
  file = 254 ∷ 7 ∷ 128 ∷ 1 ∷ 1 ∷ 2 ∷ 99 ∷ [];
}

load_rle_stream-encoded_example : load_rle_stream 5 line ≡ (
  loaded (7 ∷ 7 ∷ 7 ∷ 1 ∷ 2 ∷ []),
  record line { current_rle_stream_index = 1 + 1; file = 99 ∷ [] },
)
load_rle_stream-encoded_example =
    load_rle_stream-encoded packets (99 ∷ []) line (omega arith) refl refl

-- A line that ends too early.
load_rle_stream-bounded_example :
    (length (load_rle_stream 9 line).0.dest ≤ 9)
    × (((load_rle_stream 9 line).0.is_loaded ≡ false)
        ⊎ (length (load_rle_stream 9 line).0.dest ≡ 9))
load_rle_stream-bounded_example = load_rle_stream-bounded 9 line
