-- ===== src/Illa/TgaRle.antt =====
-- c_tga_rle.cpp: the rows of a TGA file with run lengths. The byte streamer is the list of the bytes
-- that are left; a run may go on in the next row and in the next batch.
pub mod Pixels
pub mod Batches
use Prim.Native.Nat.{bit_and}
use pictus.Base.{
  ℕ, zero, suc, ◌+◌, ◌-◌, ◌*◌, ◌%◌, ◌^◌, ◌==◌, min, Bool, true, false, ◌&&◌, ◌||◌, not, Option,
  none, some, List, [], ◌∷◌, ◌++◌, ltb, if◌then◌else◌, replicate, length,
}

-- The four readers, which OnProcess chooses by the depth of the colours.
pub data Reader : Type 0 where
  read_argb read_rgb read_16 read_8 : Reader

unfoldable pub pixel_size : Reader → ℕ
pixel_size read_argb = 4
pixel_size read_rgb = 3
pixel_size read_16 = 2
pixel_size read_8 = 1

abbrev pub to_argb_dword : ℕ → ℕ → ℕ → ℕ → ℕ
to_argb_dword a r g b = (a * 2 ^ 24 + r * 2 ^ 16 + g * 2 ^ 8 + b) % 2 ^ 32

-- One pixel, and the bytes behind it; `none` is the exception of ReadByte at the end of the file.
unfoldable pub read_pixel : Reader → List ℕ → Option (ℕ × List ℕ)
read_pixel read_argb (b ∷ g ∷ r ∷ a ∷ rest) = some (to_argb_dword a r g b, rest)
read_pixel read_argb _ = none
read_pixel read_rgb (b ∷ g ∷ r ∷ rest) = some (to_argb_dword 255 r g b, rest)
read_pixel read_rgb _ = none
read_pixel read_16 (x ∷ y ∷ rest) = some ((y * 2 ^ 8 + x) % 2 ^ 16, rest)
read_pixel read_16 _ = none
read_pixel read_8 (x ∷ rest) = some (x, rest)
read_pixel read_8 [] = none

-- The state that a decoder keeps from batch to batch; `pix` is the value of the current run.
pub record Decoder : Type 0 where
  pub num_rle_pixels : ℕ
  pub is_rle_block : Bool
  pub pix : ℕ
  pub stream : List ℕ

infixl 5 ◌>>=◌
abbrev pub ◌>>=◌ {ℓ κ} : {A : Type ℓ} {B : Type κ} → Option A → (A → Option B) → Option B
none >>= f = none
some a >>= f = f a

-- The repetition field of a new block, and the pixel of a run.
unfoldable pub next_block : Reader → Decoder → Option Decoder
unfolding read_pixel
next_block r d = elim d.stream [
  | [] ↦ none
  | rep_field ∷ rest ↦
      let num = bit_and rep_field 0x7f + 1 in
      elim (not (bit_and rep_field 0x80 == 0)) [
        | true ↦ read_pixel r rest >>= λ (p, behind).
            some (record { num_rle_pixels = num; is_rle_block = true; pix = p; stream = behind })
        | false ↦ some (record d { num_rle_pixels = num; is_rle_block = false; stream = rest })
      ]
]

-- Too few bytes for a block where one begins.
unfoldable pub is_starved : Reader → Decoder → Bool
unfolding pixel_size
is_starved r d = d.num_rle_pixels == 0 && ltb (length d.stream) (1 + pixel_size r)

unfoldable pub open_block : Reader → Decoder → Option Decoder
unfolding next_block
open_block r d = elim (d.num_rle_pixels == 0) [ true ↦ next_block r d | false ↦ some d ]

unfoldable pub read_pixels : Reader → ℕ → List ℕ → Option (List ℕ × List ℕ)
unfolding read_pixel
read_pixels r zero bs = some ([], bs)
read_pixels r (suc n) bs =
    read_pixel r bs >>= λ (p, rest). read_pixels r n rest >>= λ (ps, behind). some (p ∷ ps, behind)

-- The pixels written to a row, and whether the row is full: if not, OnProcess returns true.
pub record Row : Type 0 where
  pub full : Bool
  pub written : List ℕ
  pub decoder : Decoder

abbrev before : List ℕ → Row → Option Row
before ps t = some (record t { written = ps ++ t.written })

-- The transfer of the pixels that the block and the row have in common; `rest` is the next turn of the
-- loop, from a column on.
unfoldable pub transfer : Reader → ℕ → ℕ → (ℕ → Decoder → Option Row) → Decoder → Option Row
unfolding read_pixels pixel_size
transfer r width curr_x rest d =
    let n = min (width - curr_x) d.num_rle_pixels in
    let e : Decoder = record d { num_rle_pixels = d.num_rle_pixels - n } in
    elim d.is_rle_block [
      | true ↦ rest (curr_x + n) e >>= before (replicate n d.pix)
      | false ↦ elim (ltb (length d.stream) (n * pixel_size r)) [
        | true ↦ some (record { full = false; written = []; decoder = e })
        | false ↦ read_pixels r n d.stream >>= λ (ps, behind).
            rest (curr_x + n) (record e { stream = behind }) >>= before ps
      ]
    ]

-- A turn of the loop over a row, in front of `rest`.
unfoldable pub turn : Reader → ℕ → (ℕ → Decoder → Option Row) → ℕ → Decoder → Option Row
unfolding is_starved open_block transfer
turn r width rest curr_x d = elim (ltb curr_x width) [
  | false ↦ some (record { full = true; written = []; decoder = d })
  | true ↦ elim (is_starved r d) [
    | true ↦ some (record { full = false; written = []; decoder = d })
    | false ↦ open_block r d >>= transfer r width curr_x rest
  ]
]

-- Each turn moves the column, so the width is fuel enough.
unfoldable pub row : Reader → ℕ → ℕ → ℕ → Decoder → Option Row
unfolding turn
row r zero width = turn r width (λ curr_x d. none)
row r (suc fuel) width = turn r width (row r fuel width)

-- The rows of a batch in the order in which they are decoded; the Boolean is the result of OnProcess.
pub record Rows : Type 0 where
  pub is_finished : Bool
  pub rows : List (List ℕ)
  pub decoder : Decoder

unfoldable pub perform_on_process : Reader → ℕ → ℕ → Decoder → Option Rows
unfolding row
perform_on_process r width zero d = some (record { is_finished = false; rows = []; decoder = d })
perform_on_process r width (suc num_rows) d = row r width width 0 d >>= λ t. elim t.full [
  | false ↦ some (record { is_finished = true; rows = t.written ∷ []; decoder = t.decoder })
  | true ↦ perform_on_process r width num_rows t.decoder >>= λ s.
      some (record s { rows = t.written ∷ s.rows })
]

-- OnProcess. Another depth is done at once.
unfoldable pub on_process : ℕ → ℕ → ℕ → Decoder → Option Rows
unfolding perform_on_process
on_process color_depth width num_rows d =
    if color_depth == 32
    then perform_on_process read_argb width num_rows d
    else if color_depth == 24
    then perform_on_process read_rgb width num_rows d
    else if color_depth == 16
    then perform_on_process read_16 width num_rows d
    else if color_depth == 8
    then perform_on_process read_8 width num_rows d
    else some (record { is_finished = true; rows = []; decoder = d })

unfoldable pub on_source : List ℕ → Decoder
on_source bytes = record {
  num_rle_pixels = 0;
  is_rle_block = false;
  pix = 0xffffffff;
  stream = bytes;
}
