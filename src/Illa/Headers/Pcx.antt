-- ===== src/Illa/Headers/Pcx.antt =====
-- pcx_header.cpp, and the choice of the surface format in c_pcx.cpp.
use pictus.Base.{
  ℕ, ◌*◌, ◌%◌, ◌^◌, ◌==◌, ◌&&◌, ◌||◌, not, List, [], ◌∷◌, ◌++◌, ltb, leb, if◌then◌else◌,
}
use pictus.Base.Int.{pos, ◌+ℤ◌, ◌-ℤ◌, ◌*ℤ◌, ltb_ℤ}
use pictus.Orz.Geom.Size.{Size, size}
use pictus.Illa.Types.{Format, undefined, index8, rgb565, xrgb8888}
use pictus.Illa.Headers.{
  M, ◌>>=◌, ◌>>◌, return, check, read_number, to_signed, skip, go_to, position, file_size, Color,
  load_rgb, load_palette,
}

pub record PcxHeader : Type 0 where
  pub version : ℕ
  pub compression : ℕ
  pub plane_depth : ℕ
  pub dimensions : Size
  pub color_planes : ℕ
  pub bytes_per_line : ℕ
  pub palette_type : ℕ
  pub tot_color_depth : ℕ
  pub palette : List (ℕ × Color)

abbrev black : Color
black = record { alpha = 255; red = 0; green = 0; blue = 0 }

abbrev white : Color
white = record { alpha = 255; red = 255; green = 255; blue = 255 }

-- The palette behind the pixels, of 256 colours, or that of the header, of 16.
unfoldable pub read_palette : ℕ → ℕ → M (List (ℕ × Color))
unfolding read_number load_palette load_rgb go_to
read_palette version depth =
    if depth == 8 && version == 5
    then (do
      size ← file_size
      go_to (pos size -ℤ pos 769)
      ver ← read_number 1
      if ver == 12 then load_palette 0 256 load_rgb else return [])
    else if leb depth 8 && (version == 0 || version == 2 || version == 5)
    then load_palette 0 16 load_rgb
    else return []

abbrev monochrome : ℕ → List (ℕ × Color)
monochrome depth = if depth == 1 then (0, black) ∷ (1, white) ∷ [] else []

-- PCXHeader::Load. Bit depths are bytes, so that a product of two wraps where it is stored.
unfoldable pub load : M PcxHeader
unfolding read_number skip go_to read_palette ◌-ℤ◌ ◌+ℤ◌ ◌*ℤ◌
load = do
  size_of_file ← file_size
  check (not (ltb size_of_file 130))
  manufacturer ← read_number 1
  check (manufacturer == 10)
  version ← read_number 1
  check (version == 0 || version == 2 || version == 3 || version == 5)
  compression ← read_number 1
  check (compression == 0 || compression == 1)
  plane_depth ← read_number 1
  minx ← read_number 2
  miny ← read_number 2
  maxx ← read_number 2
  maxy ← read_number 2
  let width = to_signed 16 maxx -ℤ to_signed 16 minx +ℤ pos 1
  let height = to_signed 16 maxy -ℤ to_signed 16 miny +ℤ pos 1
  skip 4
  palpos ← position
  skip 48
  skip 1
  color_planes ← read_number 1
  check (color_planes == 1 || color_planes == 3 || color_planes == 4)
  bytes_per_line ← read_number 2
  palette_type ← read_number 2
  go_to palpos
  let depth = plane_depth * color_planes % 2 ^ 8
  palette ← read_palette version depth
  check (not (ltb_ℤ (pos (8 * color_planes * bytes_per_line)) (width *ℤ pos depth)))
  go_to (pos 128)
  return (record {
    version = version;
    compression = compression;
    plane_depth = plane_depth;
    dimensions = size width height;
    color_planes = color_planes;
    bytes_per_line = bytes_per_line;
    palette_type = palette_type;
    tot_color_depth = depth;
    palette = palette ++ monochrome depth;
  })

unfoldable pub determine_surface_format : ℕ → Format
determine_surface_format color_depth =
    if leb color_depth 8
    then index8
    else if color_depth == 16
    then rgb565
    else if color_depth == 24
    then xrgb8888
    else undefined
