-- ===== src/Illa/Headers/Bmp.antt =====
-- bmp_fileheader.cpp and bmp_header.cpp, and how c_bmp.cpp chooses a decoder. A `long` has 64 bits, as
-- on the platforms that are not Windows.
pub mod Shift
use Prim.Native.Nat.{bit_and}
use pictus.Base.{
  ℕ, zero, suc, ◌+◌, ◌-◌, ◌*◌, ◌/◌, ◌%◌, ◌^◌, ◌==◌, Bool, true, false, ◌&&◌, ◌||◌, not, Option,
  none, some, List, [], ◌∷◌, ◌++◌, ltb, leb, if◌then◌else◌,
}
use pictus.Base.Int.{ℤ, pos, negsuc, ◌+ℤ◌}
use pictus.Orz.Geom.Size.{Size, size}
use pictus.Illa.Types.{Format, index8, rgb565, xrgb1555, xrgb8888}
use pictus.Illa.Headers.{
  M, ◌>>=◌, ◌>>◌, return, demand, raise, read_number, to_signed, skip, go_to, position, Color,
  load_bgr, load_bgrx, load_palette, invalid_header, codec_error, no_fuel, Failure,
}

abbrev pub compress_rgb : ℕ
compress_rgb = 0

abbrev pub compress_rle8 : ℕ
compress_rle8 = 1

abbrev pub compress_rle4 : ℕ
compress_rle4 = 2

abbrev pub compress_bitfields : ℕ
compress_bitfields = 3

pub record BmpHeader : Type 0 where
  pub dimensions : Size
  pub color_depth : ℕ
  pub flip_vertical : Bool
  pub compression : ℕ
  pub num_colors : ℕ
  pub red_mask : ℕ
  pub green_mask : ℕ
  pub blue_mask : ℕ
  pub red_shift_right : ℕ
  pub green_shift_right : ℕ
  pub blue_shift_right : ℕ
  pub scan_padding : ℕ
  pub palette : List (ℕ × Color)

-- BMPFileHeader::Load: the offset of the pixels.
unfoldable pub load_file_header : M ℕ
unfolding read_number skip
load_file_header = do
  type ← read_number 2
  file_length ← read_number 4
  skip 4
  offset ← read_number 4
  demand (type == 0x4d42) invalid_header
  return offset

-- The compressions that a depth may have.
unfoldable pub allowed : ℕ → ℕ → Bool
allowed depth compression =
    not (depth == 1 && not (compression == compress_rgb))
    && not (not (compression == compress_rgb) && not (compression == compress_rle4) && depth == 4)
    && not (not (compression == compress_rgb) && not (compression == compress_rle8) && depth == 8)
    && not (
        depth == 16 && not (compression == compress_rgb) && not (compression == compress_bitfields))
    && not (not (compression == compress_rgb) && depth == 24)
    && not (
        depth == 32 && not (compression == compress_rgb) && not (compression == compress_bitfields))

-- The loop of `calcShift`: a number of 32 bits has a bit within 32 rounds, unless it is 0.
unfoldable pub shift_loop : ℕ → ℕ → ℕ → M ℕ
shift_loop zero mask shift = raise no_fuel
shift_loop (suc fuel) mask shift =
    let more = shift_loop fuel (mask / 2) (shift + 1) in
    if bit_and mask 1 == 0 then more else return shift

unfoldable pub calc_shift : ℕ → M ℕ
unfolding shift_loop
calc_shift mask = if mask == 0 then raise invalid_header else shift_loop 33 mask 0

-- Compression and number of colours, with the depth.
unfoldable pub read_compression : ℕ → ℕ → M (ℕ × ℕ)
unfolding read_number skip allowed
read_compression bi_size depth = if bi_size == 12 then return (compress_rgb, 0) else (do
  compression ← read_number 4
  demand (allowed depth compression) invalid_header
  skip 12
  num ← read_number 4
  let none_given = compression == compress_rgb || compression == compress_bitfields || ltb 256 num
  skip 4
  return (compression, if none_given then 0 else num))

abbrev pub Masks : Type 0
Masks = ℕ × ℕ × ℕ × List (ℕ × Color)

-- The masks, or the palette.
unfoldable pub read_masks : ℕ → ℕ → ℕ → M Masks
unfolding read_number load_palette load_bgr load_bgrx
read_masks bi_size compression num_colors =
    if compression == compress_bitfields
    then (do
      red ← read_number 4
      green ← read_number 4
      blue ← read_number 4
      return (red, green, blue, []))
    else if bi_size == 12
    then (do palette ← load_palette 0 num_colors load_bgr; return (0xff0000, 0xff00, 0xff, palette))
    else if bi_size == 40
    then (do
      palette ← load_palette 0 num_colors load_bgrx
      return (0xff0000, 0xff00, 0xff, palette))
    else return (0xff0000, 0xff00, 0xff, [])

abbrev stride_of : ℕ → ℕ → ℕ
stride_of width depth = if leb 8 depth then width * depth / 8 else (7 + width * depth) / 8

-- The rest of a negative `int` is not positive.
unfoldable pub padding_of : ℤ → ℕ
padding_of (pos stride) = if stride % 4 == 0 then 0 else 4 - stride % 4
padding_of (negsuc n) = if (n + 1) % 4 == 0 then 0 else 4 + (n + 1) % 4

-- BMPHeader::Load. The height is read into a `long` of 64 bits that is 0, so it is not negative
-- there; the `int` of the size has its sign.
unfoldable pub load : M BmpHeader
unfolding read_number read_compression read_masks calc_shift go_to padding_of ◌+ℤ◌
load = do
  start ← position
  bi_size ← read_number 4
  demand (bi_size == 12 || bi_size == 40 || bi_size == 56 || bi_size == 108 || bi_size == 124)
      invalid_header
  let bytes_of_side = if bi_size == 12 then 2 else 4
  width ← read_number bytes_of_side
  height ← read_number bytes_of_side
  planes ← read_number 2
  demand (planes == 1) invalid_header
  depth ← read_number 2
  (compression, num) ← read_compression bi_size depth
  let num_colors = if (num == 0) && leb depth 8 then 2 ^ depth else num
  (red, green, blue, palette) ← read_masks bi_size compression num_colors
  red_shift ← calc_shift red
  green_shift ← calc_shift green
  blue_shift ← calc_shift blue
  go_to (start +ℤ pos bi_size)
  return (record {
    dimensions = size (to_signed 32 width) (to_signed 32 height);
    color_depth = depth;
    flip_vertical = true;
    compression = compression;
    num_colors = num_colors;
    red_mask = red;
    green_mask = green;
    blue_mask = blue;
    red_shift_right = red_shift;
    green_shift_right = green_shift;
    blue_shift_right = blue_shift;
    scan_padding = padding_of (to_signed 32 (stride_of width depth % 2 ^ 32));
    palette = palette;
  })

-- Math::Bit::CountSet, in 32 bits.
unfoldable pub count_set : ℕ → ℕ
count_set u =
    let thirds = (bit_and (u / 2) 0xdb6db6db + bit_and (u / 4) 0x49249249) % 2 ^ 32 in
    let count = (u + 2 ^ 32 - thirds) % 2 ^ 32 in
    bit_and ((count + count / 8) % 2 ^ 32) 0xc71c71c7 % 63

unfoldable pub surface_format : BmpHeader → Option Format
unfolding count_set
surface_format h =
    let depth = h.color_depth in
    if depth == 1 || depth == 4 || depth == 8
    then some index8
    else if depth == 16
    then (if count_set h.green_mask == 6 then some rgb565 else some xrgb1555)
    else if depth == 24 || depth == 32
    then some xrgb8888
    else none

pub data Decoder : Type 0 where
  raw_4 raw_8 raw_16 raw_24 rle_4 rle_8 : Decoder

-- The last part of CodecBMP::PerformLoadHeader.
unfoldable pub choose_decoder : ℕ → ℕ → Option Decoder
choose_decoder compression depth =
    if compression == compress_rgb || compression == compress_bitfields
    then if depth == 1 || depth == 4
      then some raw_4
      else if depth == 8
      then some raw_8
      else if depth == 16
      then some raw_16
      else if depth == 24 || depth == 32
      then some raw_24
      else none
    else if compression == compress_rle4
    then (if depth == 4 then some rle_4 else none)
    else if compression == compress_rle8
    then (if depth == 8 then some rle_8 else none)
    else none

pub record BmpCodec : Type 0 where
  pub header : BmpHeader
  pub format : Format
  pub decoder : Decoder

abbrev or_raise : {A : Type 0} → Failure → Option A → M A
or_raise e none = raise e
or_raise e (some a) = return a

-- CodecBMP::PerformLoadHeader
unfoldable pub load_codec : M BmpCodec
unfolding load_file_header load surface_format go_to choose_decoder
load_codec = do
  offset ← load_file_header
  header ← load
  format ← or_raise invalid_header (surface_format header)
  go_to (pos offset)
  decoder ← or_raise codec_error (choose_decoder header.compression header.color_depth)
  return (record { header = header; format = format; decoder = decoder })
