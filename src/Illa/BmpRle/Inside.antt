-- ===== src/Illa/BmpRle/Inside.antt =====
-- The writes of the decoders are inside of the bitmap, and so is the current row.
use Prim.Native.Nat.{bit_and}
use pictus.Base.{
  ℕ, zero, suc, ◌/◌, ◌<◌, ◌≡◌, refl, arith, ◌==◌, Bool, true, false, ◌&&◌, ◌||◌, ◌^◌, Bool-cases,
  inl, inr, List, [], ◌∷◌, leb, if◌then◌else◌,
}
use pictus.Base.Int.{ℤ, pos, ◌+ℤ◌, ◌-ℤ◌, pos_part, leb_ℤ, ltb_ℤ, +ℤ_parts, -ℤ_parts}
use pictus.Orz.Geom.Size.{size}
use pictus.Orz.Geom.Point.{point, origin}
use pictus.Orz.Geom.Rect.{Rect, rect, contains, contains_rect}
use pictus.Orz.Geom.Clip.{inside_axes}
use pictus.Illa.BmpRle.{
  Bitmap, Write, RleDecoder, Step, goes, finished, raises, overflows, advance_to, ◌>>=◌, read_from,
  skip_from, skip_if, last_nibble, scanline, move_to, add_pixel_rle, run_8, run_4, absolute_8,
  absolute_4, encoded_8, encoded_4, pixels_8, pixels_4, high, low,
}

module _ (bitmap : Bitmap) where
  abbrev pub AllInside : List Write → Type 0
  AllInside [] = Unit {0}
  AllInside (w ∷ ws) = (w.column < bitmap.width) × (w.line < bitmap.height) × AllInside ws

  pub record IsInside (d : RleDecoder) : Type 0 where
    pub pix : d.curr_pix < 2 ^ 31
    pub row : d.row < bitmap.height
    pub area : d.area < bitmap.height
    pub writes : AllInside d.writes

  -- Where a step goes on or ends, the decoder is inside, and so it is before an overflow.
  abbrev pub Ends : Step → Type 0
  Ends (goes d) = IsInside d
  Ends (finished d) = IsInside d
  Ends (raises e) = Unit {0}
  Ends (overflows d) = IsInside d

  pub bind_Ends :
      (s : Step) (f : RleDecoder → Step)
      → Ends s
      → ((d : RleDecoder) → IsInside d → Ends (f d))
      → Ends (s >>= f)
  bind_Ends (goes d) f h k = k d h
  bind_Ends (finished d) f h k = h
  bind_Ends (raises e) f h k = tt
  bind_Ends (overflows d) f h k = h

  pub read_from-Ends :
      (l : List ℕ) (d : RleDecoder) (f : ℕ → RleDecoder → Step)
      → IsInside d
      → ((b : ℕ) (e : RleDecoder) → IsInside e → Ends (f b e))
      → Ends (read_from l d f)
  read_from-Ends [] d f v k = tt
  read_from-Ends (b ∷ rest) d f v k =
      k b (record d { source = rest })
        (record { pix = v.pix; row = v.row; area = v.area; writes = v.writes })

  skip_from-Ends : (l : List ℕ) (d : RleDecoder) → IsInside d → Ends (skip_from l d)
  skip_from-Ends [] d v = tt
  skip_from-Ends (b ∷ rest) d v = record {
    pix = v.pix;
    row = v.row;
    area = v.area;
    writes = v.writes;
  }

  first : (a b : Bool) → (a && b) ≡ true → a ≡ true
  first a b h = ground arith

  row_inside :
      (h row : ℕ) (flip : Bool) (z : ℤ)
      → z ≡ (if flip then pos h -ℤ pos row -ℤ pos 1 else pos row)
      → leb_ℤ (pos 0) z ≡ true
      → ltb_ℤ z (pos 0 +ℤ pos h) ≡ true
      → (row < h) × (pos_part z < h)
  row_inside h row true z e a b = ground (
    arith,
    -ℤ_parts (pos h) (pos row),
    -ℤ_parts (pos h -ℤ pos row) (pos 1),
    +ℤ_parts (pos 0) (pos h),
  )
  row_inside h row false z e a b = ground (arith, +ℤ_parts (pos 0) (pos h))

  abbrev pub line : ℤ → Rect
  line z = rect (point (pos 0) z) (size (pos bitmap.width) (pos 1))

  abbrev pub whole : Rect
  whole = rect origin (size (pos bitmap.width) (pos bitmap.height))

  line_parts :
      (z : ℤ)
      → contains_rect whole (line z) ≡ true
      → (leb_ℤ (pos 0) z ≡ true) × (ltb_ℤ z (pos 0 +ℤ pos bitmap.height) ≡ true)
  unfolding contains_rect contains
  line_parts z h =
      let (l, r, t, b) =
        inside_axes (pos 0) (pos 0) (pos 0 +ℤ pos bitmap.width) (pos 0) z
          (pos 0 +ℤ pos bitmap.height) (first (contains whole (point (pos 0) z)) _ h) in
      (t, b)

  pub scanline_inside :
      (row : ℕ)
      → contains_rect whole (line (scanline bitmap row)) ≡ true
      → (row < bitmap.height) × (pos_part (scanline bitmap row) < bitmap.height)
  unfolding scanline
  scanline_inside row h =
      let (a, b) = line_parts (scanline bitmap row) h in
      row_inside bitmap.height row bitmap.flip_vertical (scanline bitmap row) refl a b

  pub move_to-Ends :
      (c row : ℕ) (d : RleDecoder) → c < 2 ^ 31 → AllInside d.writes → Ends (move_to bitmap c row d)
  unfolding move_to
  move_to-Ends c row d p v = elim (Bool-cases (contains_rect whole (line (scanline bitmap row)))) [
    | inl held ↦
        let (a, b) = scanline_inside row held in
        rw held (record { pix = p; row = a; area = b; writes = v })
    | inr out ↦ rw out tt
  ]

  pub advance_to-Ends : (c row : ℕ) (d : RleDecoder) → IsInside d → Ends (advance_to bitmap c row d)
  unfolding advance_to
  advance_to-Ends c row d v = elim (Bool-cases (leb (2 ^ 31) c || leb (2 ^ 31) row)) [
    | inl over ↦ rw over v
    | inr fits ↦ rw fits (move_to-Ends c row d (ground arith) v.writes)
  ]

  -- What the decoders give for a run and for absolute pixels.
  abbrev pub KeepsInside : (ℕ → ℕ → RleDecoder → RleDecoder) → (ℕ → RleDecoder → Step) → Type 0
  KeepsInside encoded pixels =
      ((b1 b2 : ℕ) (d : RleDecoder) → IsInside d → IsInside (encoded b1 b2 d))
      × ((b2 : ℕ) (d : RleDecoder) → IsInside d → Ends (pixels b2 d))

  module _ (small : bitmap.width < 2 ^ 31) where
    add_pixel_rle-IsInside :
        (val : ℕ) (d : RleDecoder) → IsInside d → IsInside (add_pixel_rle bitmap val d)
    unfolding add_pixel_rle
    add_pixel_rle-IsInside val d v = elim (Bool-cases (leb bitmap.width d.curr_pix)) [
      | inl full ↦ rw (full, add_pixel_rle) v
      | inr more ↦
          rw (more, add_pixel_rle)
            (record {
              pix = ground (arith, small);
              row = v.row;
              area = v.area;
              writes = (ground arith, v.area, v.writes);
            })
    ]

    run_8-IsInside : (n val : ℕ) (d : RleDecoder) → IsInside d → IsInside (run_8 bitmap n val d)
    unfolding run_8
    run_8-IsInside zero val d v = v
    run_8-IsInside (suc n) val d v =
        run_8-IsInside n val (add_pixel_rle bitmap val d) (add_pixel_rle-IsInside val d v)

    run_4-IsInside :
        (n pix1 pix2 : ℕ) (d : RleDecoder) → IsInside d → IsInside (run_4 bitmap n pix1 pix2 d)
    unfolding run_4
    run_4-IsInside zero pix1 pix2 d v = v
    run_4-IsInside (suc n) pix1 pix2 d v =
        run_4-IsInside n pix1 pix2 _
          (add_pixel_rle-IsInside pix2 _ (add_pixel_rle-IsInside pix1 d v))

    absolute_8-Ends : (n : ℕ) (d : RleDecoder) → IsInside d → Ends (absolute_8 bitmap n d)
    unfolding absolute_8
    absolute_8-Ends zero d v = v
    absolute_8-Ends (suc n) d v =
        read_from-Ends d.source d _ v
          (λ val e w. absolute_8-Ends n _ (add_pixel_rle-IsInside val e w))

    absolute_4-Ends : (n : ℕ) (d : RleDecoder) → IsInside d → Ends (absolute_4 bitmap n d)
    unfolding absolute_4
    absolute_4-Ends zero d v = v
    absolute_4-Ends (suc n) d v = read_from-Ends d.source d _ v (λ val e w.
        absolute_4-Ends n _ (
          add_pixel_rle-IsInside (low bitmap val) _ (add_pixel_rle-IsInside (high bitmap val) e w)))

    skip_if-Ends : (b : Bool) (d : RleDecoder) → IsInside d → Ends (skip_if bitmap b d)
    skip_if-Ends true d v = skip_from-Ends d.source d v
    skip_if-Ends false d v = v

    last_nibble-Ends : (b : Bool) (d : RleDecoder) → IsInside d → Ends (last_nibble bitmap b d)
    last_nibble-Ends true d v =
        read_from-Ends d.source d _ v (λ val e w. add_pixel_rle-IsInside (high bitmap val) e w)
    last_nibble-Ends false d v = v

    pub rle_8-KeepsInside : KeepsInside (encoded_8 bitmap) (pixels_8 bitmap)
    unfolding encoded_8 pixels_8
    rle_8-KeepsInside = (
      λ b1 b2 d v. run_8-IsInside b1 b2 d v,
      λ b2 d v.
          bind_Ends (absolute_8 bitmap b2 d) _ (absolute_8-Ends b2 d v) (λ e w. skip_if-Ends _ e w),
    )

    run_4_odd : (b1 b2 : ℕ) (d : RleDecoder) → IsInside d → IsInside (encoded_4 bitmap b1 b2 d)
    unfolding encoded_4
    run_4_odd b1 b2 d v = elim (Bool-cases (bit_and b1 0x01 == 0)) [
      | inl even ↦
          rw (even, encoded_4) (run_4-IsInside (b1 / 2) (high bitmap b2) (low bitmap b2) d v)
      | inr odd ↦
          rw (odd, encoded_4)
            (add_pixel_rle-IsInside (high bitmap b2) _
              (run_4-IsInside (b1 / 2) (high bitmap b2) (low bitmap b2) d v))
    ]

    pub rle_4-KeepsInside : KeepsInside (encoded_4 bitmap) (pixels_4 bitmap)
    unfolding pixels_4
    rle_4-KeepsInside = (
      run_4_odd,
      λ b2 d v.
          bind_Ends _ _
            (bind_Ends (absolute_4 bitmap (b2 / 2) d) _ (absolute_4-Ends (b2 / 2) d v)
              (λ e w. last_nibble-Ends _ e w))
            (λ e w. skip_if-Ends _ e w),
    )
