-- ===== src/Illa/Pcx.antt =====
-- c_pcx.cpp: the scan lines of a PCX file, from `DecodeScanline` to the rows of the surface. The byte
-- streamer is the list of the bytes that are left.
pub mod Lines
use Prim.Native.Nat.{bit_and, bit_or}
use pictus.Base.{
  ℕ, zero, suc, ◌+◌, ◌-◌, ◌*◌, ◌/◌, ◌%◌, ◌^◌, ◌==◌, Bool, true, false, ◌&&◌, not, Option, none,
  some, List, [], ◌∷◌, ◌++◌, ltb, leb, if◌then◌else◌, replicate, length, take, set, get_elem?,
}
use pictus.Orz.BitConvert.{bits_to_bytes, nibbles_to_bytes}

-- The bytes that one turn feeds: the rest of the line bounds them.
abbrev pub bounded : ℕ → ℕ → ℕ → ℕ
bounded max_bytes bytes_written count =
    if ltb max_bytes (count + bytes_written) then (max_bytes - bytes_written) % 2 ^ 8 else count

-- The loop of DecodeScanline from `curr_byte` and `bytes_written`: the bytes that it writes, and
-- those that are left.
unfoldable pub decode : ℕ → ℕ → ℕ → ℕ → List ℕ → List ℕ × List ℕ
decode num_bytes max_bytes curr_byte bytes_written [] = ([], [])
decode num_bytes max_bytes curr_byte bytes_written (b ∷ []) =
    let n = bounded max_bytes bytes_written 1 in
    if not (ltb curr_byte num_bytes)
    then ([], b ∷ [])
    else if leb 192 b
    then ([], [])
    else (replicate n b, [])
decode num_bytes max_bytes curr_byte bytes_written (b ∷ c ∷ rest) =
    let m = bounded max_bytes bytes_written (b - 192) in
    let run = decode num_bytes max_bytes (curr_byte + m) (bytes_written + m) rest in
    let n = bounded max_bytes bytes_written 1 in
    let raw = decode num_bytes max_bytes (curr_byte + n) (bytes_written + n) (c ∷ rest) in
    if not (ltb curr_byte num_bytes)
    then ([], b ∷ c ∷ rest)
    else if leb 192 b
    then (replicate m c ++ run.0, run.1)
    else (replicate n b ++ raw.0, raw.1)

-- The part of the header that the transfers use.
pub record Layout : Type 0 where
  pub width : ℕ
  pub color_planes : ℕ
  pub plane_depth : ℕ
  pub bytes_per_line : ℕ

abbrev pub num_bytes : Layout → ℕ
num_bytes l = l.color_planes * l.bytes_per_line

unfoldable pub decode_scanline : Layout → ℕ → List ℕ → List ℕ × List ℕ
unfolding decode
decode_scanline l max_bytes source = decode (num_bytes l) max_bytes 0 0 source

-- The buffer of a scan line, which starts with zeros, after DecodeScanline.
unfoldable pub scan_buffer : Layout → List ℕ → List ℕ × List ℕ
unfolding decode_scanline
scan_buffer l source =
    let (written, rest) = decode_scanline l (num_bytes l) source in
    (written ++ replicate (num_bytes l - length written) 0, rest)

-- Err::CriticalError of transferNonPlanar, and a read beyond a buffer.
pub data Error : Type 0 where
  critical_error out_of_range : Error

pub data Result {ℓ} (A : Type ℓ) : Type ℓ where
  ok : A → Result A
  err : Error → Result A

abbrev or_range : Option (List ℕ) → Result (List ℕ)
or_range none = err out_of_range
or_range (some bs) = ok bs

unfoldable pub transfer_non_planar : Layout → List ℕ → Result (List ℕ)
unfolding bits_to_bytes nibbles_to_bytes
transfer_non_planar l source =
    if l.plane_depth == 1
    then or_range (bits_to_bytes l.width source)
    else if l.plane_depth == 4
    then or_range (nibbles_to_bytes l.width source)
    else if l.plane_depth == 8
    then (if leb l.width (length source) then ok (take l.width source) else err out_of_range)
    else err critical_error

-- `destination[ofs] |= pixbit`
unfoldable pub or_at : ℕ → ℕ → List ℕ → List ℕ
or_at ofs bit [] = []
or_at zero bit (d ∷ ds) = bit_or d bit ∷ ds
or_at (suc ofs) bit (d ∷ ds) = d ∷ or_at ofs bit ds

-- The loop over the `n` bits of a byte that are left, the mask at `2 ^ (n - 1)`.
unfoldable pub plane_bits : ℕ → ℕ → ℕ → ℕ → ℕ → List ℕ → List ℕ
unfolding or_at
plane_bits max_offset pixbit w zero ofs destination = destination
plane_bits max_offset pixbit w (suc n) ofs destination =
    plane_bits max_offset pixbit w n (ofs + 1) (
      if ltb ofs max_offset && not (bit_and w (2 ^ n) == 0)
      then or_at ofs pixbit destination
      else destination)

-- The bytes of one plane, and what is left of the source.
unfoldable pub plane : ℕ → ℕ → ℕ → ℕ → List ℕ → List ℕ → Option (List ℕ × List ℕ)
unfolding plane_bits
plane max_offset pixbit zero ofs source destination = some (destination, source)
plane max_offset pixbit (suc n) ofs [] destination = none
plane max_offset pixbit (suc n) ofs (w ∷ source) destination =
    plane max_offset pixbit n (ofs + 8) source (plane_bits max_offset pixbit w 8 ofs destination)

unfoldable pub planes_from : Layout → ℕ → ℕ → List ℕ → List ℕ → Option (List ℕ)
unfolding plane
planes_from l zero index source destination = some destination
planes_from l (suc n) index source destination =
    elim (plane l.width (2 ^ index) l.bytes_per_line 0 source destination) [
      | none ↦ none
      | some r ↦ planes_from l n (index + 1) r.1 r.0
    ]

unfoldable pub transfer_planar_4 : Layout → List ℕ → List ℕ → Option (List ℕ)
unfolding planes_from
transfer_planar_4 l destination source = planes_from l 4 0 source destination

-- One plane of three: the alpha byte and the channel of each pixel.
unfoldable pub channel : ℕ → ℕ → ℕ → ℕ → List ℕ → List ℕ → Option (List ℕ)
channel index zero total_ofs i source destination = some destination
channel index (suc n) total_ofs i source destination = elim (get_elem? source i) [
  | none ↦ none
  | some c ↦
      channel index n (total_ofs + 4) (i + 1) source
        (set (set destination (total_ofs + 3) 255) (total_ofs + 2 - index) c)
]

unfoldable pub channels_from : Layout → ℕ → ℕ → List ℕ → List ℕ → Option (List ℕ)
unfolding channel
channels_from l zero index source destination = some destination
channels_from l (suc n) index source destination =
    elim (channel index l.width 0 (l.bytes_per_line * index) source destination) [
      | none ↦ none
      | some d ↦ channels_from l n (index + 1) source d
    ]

unfoldable pub transfer_planar_38 : Layout → List ℕ → List ℕ → Option (List ℕ)
unfolding channels_from
transfer_planar_38 l destination source = channels_from l 3 0 source destination

-- Other numbers of planes are left alone.
unfoldable pub transfer_planar : Layout → List ℕ → List ℕ → Result (List ℕ)
unfolding transfer_planar_4 transfer_planar_38
transfer_planar l destination source =
    if l.color_planes == 4
    then or_range (transfer_planar_4 l destination source)
    else if l.color_planes == 3 && l.plane_depth == 8
    then or_range (transfer_planar_38 l destination source)
    else ok destination

abbrev with_rest : List ℕ → Result (List ℕ) → Result (List ℕ × List ℕ)
with_rest rest (ok line) = ok (line, rest)
with_rest rest (err e) = err e

-- One row of the loop in PerformLoadImageData, for a compressed file, on a row of the surface that was
-- cleared.
unfoldable pub load_row : Layout → List ℕ → List ℕ → Result (List ℕ × List ℕ)
unfolding scan_buffer transfer_planar transfer_non_planar
load_row l cleared source =
    let (line, rest) = scan_buffer l source in
    if l.color_planes == 1
    then with_rest rest (transfer_non_planar l line)
    else with_rest rest (transfer_planar l cleared line)
