-- ===== src/Illa/BmpRle/Chunks.antt =====
-- The turns of the loops of OnProcess (source/deps/illa/c_bmp_rle_8.cpp, c_bmp_rle_4.cpp) keep the
-- decoders inside.
use pictus.Base.{ℕ, zero, suc, ◌+◌, ◌==◌, Bool-cases, inl, inr, if◌then◌else◌}
use pictus.Illa.BmpRle.{Bitmap, RleDecoder, Step, goes, end_of_line, delta, special, chunk, chunks}
use pictus.Illa.BmpRle.Inside.{
  Ends, IsInside, KeepsInside, read_from-Ends, advance_to-Ends, bind_Ends,
}

module _ (bitmap : Bitmap) where
  end_of_line-Ends : (d : RleDecoder) → IsInside bitmap d → Ends bitmap (end_of_line bitmap d)
  unfolding end_of_line
  end_of_line-Ends d v = elim (Bool-cases (d.curr_pix == 0)) [
    | inl start ↦ rw (start, end_of_line) v
    | inr more ↦ rw (more, end_of_line) (advance_to-Ends bitmap 0 (d.row + 1) d v)
  ]

  delta-Ends : (d : RleDecoder) → IsInside bitmap d → Ends bitmap (delta bitmap d)
  unfolding delta
  delta-Ends d v = read_from-Ends bitmap d.source d _ v (λ dx e w.
      read_from-Ends bitmap e.source e _ w
        (λ dy f x. advance_to-Ends bitmap (f.curr_pix + dx) (f.row + dy) f x))

  module _ (encoded : ℕ → ℕ → RleDecoder → RleDecoder) (pixels : ℕ → RleDecoder → Step)
      (keeps : KeepsInside bitmap encoded pixels) where
    special-Ends :
        (b2 : ℕ) (d : RleDecoder)
        → IsInside bitmap d
        → Ends bitmap (special bitmap encoded pixels b2 d)
    unfolding special
    special-Ends b2 d v = elim (Bool-cases (b2 == 0)) [
      | inl z ↦ rw (z, special) (end_of_line-Ends d v)
      | inr nz ↦ elim (Bool-cases (b2 == 1)) [
        | inl o ↦ rw (nz, special, o) v
        | inr not_one ↦ elim (Bool-cases (b2 == 2)) [
          | inl t ↦ rw (nz, special, not_one, t) (delta-Ends d v)
          | inr nt ↦ rw (nz, special, not_one, nt) (keeps.1 b2 d v)
        ]
      ]
    ]

    run_or_special :
        (b1 b2 : ℕ) (d : RleDecoder)
        → IsInside bitmap d
        → Ends bitmap
            (if b1 == 0 then special bitmap encoded pixels b2 d else goes (encoded b1 b2 d))
    run_or_special b1 b2 d v = elim (Bool-cases (b1 == 0)) [
      | inl z ↦ rw z (special-Ends b2 d v)
      | inr nz ↦ rw nz (keeps.0 b1 b2 d v)
    ]

    chunk-Ends : (d : RleDecoder) → IsInside bitmap d → Ends bitmap (chunk bitmap encoded pixels d)
    unfolding chunk
    chunk-Ends d v =
        read_from-Ends bitmap d.source d _ v
          (λ b1 e w. read_from-Ends bitmap e.source e _ w (λ b2 f x. run_or_special b1 b2 f x))

    pub chunks-Ends :
        (n : ℕ) (d : RleDecoder)
        → IsInside bitmap d
        → Ends bitmap (chunks bitmap encoded pixels n d)
    unfolding chunks
    chunks-Ends zero d v = v
    chunks-Ends (suc n) d v = bind_Ends bitmap _ _ (chunk-Ends d v) (chunks-Ends n)
