-- ===== src/Illa/Headers/Tga.antt =====
-- c_tga_header.cpp.
use Prim.Native.Nat.{bit_and}
use pictus.Base.{ℕ, ◌==◌, Bool, ◌&&◌, not, ltb, if◌then◌else◌, take, drop}
use pictus.Base.Int.{pos, ◌-ℤ◌, ltb_ℤ}
use pictus.Base.Text.{codes, text_eq}
use pictus.Orz.Geom.Size.{Size, size}
use pictus.Illa.Types.{Format, undefined, index8, argb1555, xrgb1555, xrgb8888, argb8888}
use pictus.Illa.Headers.{
  M, ◌>>=◌, ◌>>◌, return, check, read_number, read_buffer, skip, go_to, position, file_size,
}

abbrev pub at_no_alpha : ℕ
at_no_alpha = 0

abbrev pub at_undefined_ignore : ℕ
at_undefined_ignore = 1

abbrev pub at_alpha : ℕ
at_alpha = 3

pub record TgaHeader : Type 0 where
  pub id_size : ℕ
  pub color_map_type : ℕ
  pub image_type : ℕ
  pub color_map_start : ℕ
  pub color_map_length : ℕ
  pub color_map_bits : ℕ
  pub dimensions : Size
  pub color_depth : ℕ
  pub alpha_bits : ℕ
  pub attributes_type : ℕ
  pub flip_horizontal : Bool
  pub flip_vertical : Bool

-- ReadExtensionArea: the attributes.
unfoldable pub read_extension_area : ℕ → M ℕ
unfolding read_number skip
read_extension_area alpha_bits = do
  size ← read_number 2
  check (not (ltb size 495))
  skip 492
  attributes ← read_number 1
  return (if attributes == at_no_alpha && not (alpha_bits == 0) then at_alpha else attributes)

-- The extension area, if the footer has the signature of the new format.
unfoldable pub read_footer : ℕ → ℕ → M ℕ
unfolding read_number go_to read_buffer read_extension_area text_eq ◌-ℤ◌
read_footer alpha_bits attributes = do
  size ← file_size
  go_to (pos size -ℤ pos 26)
  footer ← read_buffer 26
  if text_eq (take 16 (drop 8 footer)) (codes "TRUEVISION-XFILE")
      then (do
        go_to (pos size -ℤ pos 26)
        offset ← read_number 4
        if offset == 0
            then return at_undefined_ignore
            else (do go_to (pos offset); read_extension_area alpha_bits))
      else return attributes

-- TGAHeader::LoadHeader
unfoldable pub load_header : M TgaHeader
unfolding read_number skip go_to read_footer ◌-ℤ◌
load_header = do
  size_of_file ← file_size
  start ← position
  check (not (ltb_ℤ (pos size_of_file -ℤ start) (pos 19)))
  id_size ← read_number 1
  color_map_type ← read_number 1
  image_type ← read_number 1
  color_map_start ← read_number 2
  color_map_length ← read_number 2
  color_map_bits ← read_number 1
  skip 4
  width ← read_number 2
  height ← read_number 2
  color_depth ← read_number 1
  desc ← read_number 1
  let alpha_bits = bit_and desc 0x0f
  header_end ← position
  attributes ← read_footer alpha_bits (if alpha_bits == 0 then at_undefined_ignore else at_alpha)
  go_to header_end
  return (record {
    id_size = id_size;
    color_map_type = color_map_type;
    image_type = image_type;
    color_map_start = color_map_start;
    color_map_length = color_map_length;
    color_map_bits = color_map_bits;
    dimensions = size (pos width) (pos height);
    color_depth = color_depth;
    alpha_bits = alpha_bits;
    attributes_type = attributes;
    flip_horizontal = not (bit_and desc 0x10 == 0);
    flip_vertical = bit_and desc 0x20 == 0;
  })

unfoldable pub surface_format : TgaHeader → Format
surface_format h =
    if h.color_depth == 8
    then index8
    else if h.color_depth == 16
    then (if h.attributes_type == at_alpha then argb1555 else xrgb1555)
    else if h.color_depth == 24
    then xrgb8888
    else if h.color_depth == 32
    then (if h.attributes_type == at_alpha then argb8888 else xrgb8888)
    else undefined
