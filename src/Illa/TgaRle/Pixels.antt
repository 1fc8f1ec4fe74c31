-- ===== src/Illa/TgaRle/Pixels.antt =====
-- The rows of a TGA file against a decoder of c_tga_rle.cpp that gives one pixel at a time.
use pictus.Base.{
  ℕ, zero, suc, ◌+◌, ◌*◌, ◌≤◌, ◌<◌, ◌≡◌, refl, ap, ◌∙◌, sym, arith, ◌==◌, Bool, true, false, not,
  Option, none, some, List, [], ◌∷◌, ◌++◌, replicate, length, ◌⊎◌, inl, inr, ne→==_not,
}
use Prim.Native.Nat.{bit_and}
use native.Mathlib.Decide.{ℕ_discrete}
use mathlib.Core.Logic.{◌≢◌}
use mathlib.Core.List.{append_assoc}
use pictus.Illa.TgaRle.{
  Reader, pixel_size, read_pixel, Decoder, ◌>>=◌, next_block, is_starved, open_block, read_pixels,
  read_argb, read_rgb, read_16, read_8,
}

-- One pixel of an open block, and of the stream.
unfoldable pub take_pixel : Reader → Decoder → Option (ℕ × Decoder)
unfolding read_pixel
take_pixel r d = elim d.num_rle_pixels [
  | zero ↦ none
  | suc m ↦ elim d.is_rle_block [
    | true ↦ some (d.pix, record d { num_rle_pixels = m })
    | false ↦ read_pixel r d.stream >>= λ (p, rest).
        some (p, record d { num_rle_pixels = m; stream = rest })
  ]
]

unfoldable pub next_pixel : Reader → Decoder → Option (ℕ × Decoder)
unfolding is_starved open_block take_pixel
next_pixel r d = elim (is_starved r d) [ true ↦ none | false ↦ open_block r d >>= take_pixel r ]

abbrev pub join : List ℕ → Option (List ℕ × Decoder) → Option (List ℕ × Decoder)
join ps none = none
join ps (some (qs, e)) = some (ps ++ qs, e)

-- The next `k` pixels of the file, wherever the rows end.
unfoldable pub pixels : Reader → ℕ → Decoder → Option (List ℕ × Decoder)
unfolding next_pixel
pixels r zero d = some ([], d)
pixels r (suc k) d = next_pixel r d >>= λ (p, e). join (p ∷ []) (pixels r k e)

join-join :
    (ps qs : List ℕ) (o : Option (List ℕ × Decoder)) → join ps (join qs o) ≡ join (ps ++ qs) o
join-join ps qs none = refl
join-join ps qs (some (rs, e)) = ap (λ ts. some (ts, e)) (sym (append_assoc ps qs rs))

join-nil : (o : Option (List ℕ × Decoder)) → join [] o ≡ o
join-nil none = refl
join-nil (some (qs, e)) = refl

abbrev pub block : Bool → ℕ → ℕ → List ℕ → Decoder
block b p m s = record { num_rle_pixels = m; is_rle_block = b; pix = p; stream = s }

next_pixel-starved : (r : Reader) (d : Decoder) → is_starved r d ≡ true → next_pixel r d ≡ none
unfolding next_pixel
next_pixel-starved r d h = rw (next_pixel, h) refl

next_pixel-opened :
    (r : Reader) (d e : Decoder)
    → is_starved r d ≡ false
    → open_block r d ≡ some e
    → next_pixel r d ≡ take_pixel r e
unfolding next_pixel
next_pixel-opened r d e h o = rw (next_pixel, h, o) refl

next_pixel-open :
    (r : Reader) (d : Decoder) → d.num_rle_pixels ≢ 0 → next_pixel r d ≡ take_pixel r d
unfolding is_starved open_block
next_pixel-open r d z = next_pixel-opened r d d started opened
  where
    none_left : (d.num_rle_pixels == 0) ≡ false
    none_left = ne→==_not d.num_rle_pixels 0 z

    started : is_starved r d ≡ false
    started = rw (is_starved, none_left) refl

    opened : open_block r d ≡ some d
    opened = rw (open_block, none_left) refl

next_pixel-suc :
    (r : Reader) (b : Bool) (p c : ℕ) (s : List ℕ)
    → next_pixel r (block b p (suc c) s) ≡ take_pixel r (block b p (suc c) s)
next_pixel-suc r b p c s = next_pixel-open r (block b p (suc c) s) (λ z. absurd (omega arith))

-- In an open run the next pixels are its value.
pub run-pixels :
    (r : Reader) (n k m j c p : ℕ) (s : List ℕ)
    → j ≡ n + k
    → c ≡ n + m
    → pixels r j (block true p c s) ≡ join (replicate n p) (pixels r k (block true p m s))
unfolding pixels take_pixel
run-pixels r zero k m j c p s h e =
    let i : j ≡ k = omega arith in let f : c ≡ m = omega arith in rw (i, f, join-nil) refl
run-pixels r (suc n) k m zero c p s h e = absurd (omega arith)
run-pixels r (suc n) k m (suc j) zero p s h e = absurd (omega arith)
run-pixels r (suc n) k m (suc j) (suc c) p s h e =
    rw (next_pixel-suc r true p c s, run-pixels r n k m j c p s (omega arith) (omega arith))
      (join-join (p ∷ []) _ _)

-- In an open block without a run they are read from the stream.
pub raw-pixels :
    (r : Reader) (n k m j c p : ℕ) (s : List ℕ)
    → j ≡ n + k
    → c ≡ n + m
    → pixels r j (block false p c s)
      ≡ (read_pixels r n s >>= λ (ps, rest). join ps (pixels r k (block false p m rest)))
unfolding pixels take_pixel read_pixels
raw-pixels r zero k m j c p s h e =
    let i : j ≡ k = omega arith in let f : c ≡ m = omega arith in rw (i, f, join-nil) refl
raw-pixels r (suc n) k m zero c p s h e = absurd (omega arith)
raw-pixels r (suc n) k m (suc j) zero p s h e = absurd (omega arith)
raw-pixels r (suc n) k m (suc j) (suc c) p s h e =
    rw (next_pixel-suc r false p c s) (
      at_pixel (read_pixel r s) (λ rest. raw-pixels r n k m j c p rest (omega arith) (omega arith)))
  where
    at_rest :
        (x : ℕ) (o : Option (List ℕ × List ℕ))
        → join (x ∷ []) (o >>= λ (ps, rest). join ps (pixels r k (block false p m rest))) ≡ (
            (o >>= λ (ps, rest). some (x ∷ ps, rest)) >>= λ (ps, rest).
            join ps (pixels r k (block false p m rest)))
    at_rest x none = refl
    at_rest x (some (ps, rest)) = join-join (x ∷ []) ps _

    at_pixel :
        (o : Option (ℕ × List ℕ))
        → ((rest : List ℕ)
            → pixels r j (block false p c rest) ≡ (
                read_pixels r n rest >>= λ (ps, behind).
                join ps (pixels r k (block false p m behind))))
        → (o >>= (λ (x, rest). some (x, block false p c rest)) >>= λ (x, d).
            join (x ∷ []) (pixels r j d))
          ≡ ((o >>= λ (x, rest). read_pixels r n rest >>= λ (ps, behind). some (x ∷ ps, behind))
              >>= λ (ps, rest). join ps (pixels r k (block false p m rest)))
    at_pixel none ih = refl
    at_pixel (some (x, rest)) ih = rw (ih rest) (at_rest x (read_pixels r n rest))

-- A block that begins, and one that does not.
pub pixels-opened :
    (r : Reader) (k : ℕ) (d e : Decoder)
    → 0 < k
    → is_starved r d ≡ false
    → open_block r d ≡ some e
    → e.num_rle_pixels ≢ 0
    → pixels r k d ≡ pixels r k e
unfolding pixels
pixels-opened r zero d e l h o z = absurd (omega arith)
pixels-opened r (suc k) d e l h o z = rw (next_pixel-opened r d e h o, next_pixel-open r e z) refl

pub pixels-starved :
    (r : Reader) (k : ℕ) (d : Decoder) → 0 < k → is_starved r d ≡ true → pixels r k d ≡ none
unfolding pixels
pixels-starved r zero d l h = absurd (omega arith)
pixels-starved r (suc k) d l h = rw (next_pixel-starved r d h) refl

read_pixel-cases :
    (r : Reader) (s : List ℕ)
    → ((length s < pixel_size r) × (read_pixel r s ≡ none))
      ⊎ ((p : ℕ) × (rest : List ℕ) × (read_pixel r s ≡ some (p, rest))
          × (length s ≡ pixel_size r + length rest))
unfolding read_pixel pixel_size
read_pixel-cases read_argb [] = inl (omega arith, refl)
read_pixel-cases read_argb (a ∷ []) = inl (omega arith, refl)
read_pixel-cases read_argb (a ∷ b ∷ []) = inl (omega arith, refl)
read_pixel-cases read_argb (a ∷ b ∷ c ∷ []) = inl (omega arith, refl)
read_pixel-cases read_argb (a ∷ b ∷ c ∷ d ∷ rest) = inr (_, rest, refl, omega arith)
read_pixel-cases read_rgb [] = inl (omega arith, refl)
read_pixel-cases read_rgb (a ∷ []) = inl (omega arith, refl)
read_pixel-cases read_rgb (a ∷ b ∷ []) = inl (omega arith, refl)
read_pixel-cases read_rgb (a ∷ b ∷ c ∷ rest) = inr (_, rest, refl, omega arith)
read_pixel-cases read_16 [] = inl (omega arith, refl)
read_pixel-cases read_16 (a ∷ []) = inl (omega arith, refl)
read_pixel-cases read_16 (a ∷ b ∷ rest) = inr (_, rest, refl, omega arith)
read_pixel-cases read_8 [] = inl (omega arith, refl)
read_pixel-cases read_8 (a ∷ rest) = inr (_, rest, refl, omega arith)

pub read_pixels-short :
    (r : Reader) (n : ℕ) (s : List ℕ) → length s < n * pixel_size r → read_pixels r n s ≡ none
unfolding read_pixels
read_pixels-short r zero s h = absurd (omega arith)
read_pixels-short r (suc n) s h = elim (read_pixel-cases r s) [
  | inl (l, e) ↦ rw e refl
  | inr (p, rest, e, l) ↦ rw (e, read_pixels-short r n rest (omega arith)) refl
]

pub read_pixels-enough :
    (r : Reader) (n : ℕ) (s : List ℕ)
    → n * pixel_size r ≤ length s
    → (ps : List ℕ) × (rest : List ℕ) × (read_pixels r n s ≡ some (ps, rest)) × (length ps ≡ n)
unfolding read_pixels
read_pixels-enough r zero s h = ([], s, refl, refl)
read_pixels-enough r (suc n) s h = elim (read_pixel-cases r s) [
  | inl (l, e) ↦ absurd (omega arith)
  | inr (p, rest, e, l) ↦
      let (ps, behind, f, c) = read_pixels-enough r n rest (omega arith) in
      (p ∷ ps, behind, rw (e, f) refl, omega arith)
]

next_block-Opens :
    (r : Reader) (b : Bool) (p c : ℕ) (s : List ℕ)
    → pixel_size r < length s
    → (e : Decoder) × (next_block r (block b p c s) ≡ some e) × (e.num_rle_pixels ≢ 0)
unfolding next_block
next_block-Opens r b p c [] h = absurd (omega arith)
next_block-Opens r b p c (x ∷ rest) h = by_mark (not (bit_and x 0x80 == 0)) refl
  where
    by_mark :
        (t : Bool)
        → not (bit_and x 0x80 == 0) ≡ t
        → (e : Decoder) × (next_block r (block b p c (x ∷ rest)) ≡ some e) × (e.num_rle_pixels ≢ 0)
    by_mark true q = elim (read_pixel-cases r rest) [
      | inl (l, e) ↦ absurd (omega arith)
      | inr (v, behind, e, l) ↦ (
        block true v (bit_and x 0x7f + 1) behind,
        rw (next_block, q, e) refl,
        λ z. absurd (omega arith),
      )
    ]
    by_mark false q = (
      block false p (bit_and x 0x7f + 1) rest,
      rw (next_block, q) refl,
      λ z. absurd (omega arith),
    )

open_block-begins :
    (r : Reader) (d : Decoder) → d.num_rle_pixels ≡ 0 → open_block r d ≡ next_block r d
unfolding open_block
open_block-begins r d z = ground arith

-- A block opens where there are bytes enough, and has a pixel at least.
pub open_block-Opens :
    (r : Reader) (d : Decoder)
    → is_starved r d ≡ false
    → (e : Decoder) × (open_block r d ≡ some e) × (e.num_rle_pixels ≢ 0)
unfolding is_starved open_block
open_block-Opens r d h = elim (ℕ_discrete d.num_rle_pixels 0) [
  | no z ↦ (d, rw (open_block, ne→==_not d.num_rle_pixels 0 z) refl, z)
  | yes z ↦
      let (e, o, n) =
        next_block-Opens r d.is_rle_block d.pix d.num_rle_pixels d.stream (ground arith) in
      (e, open_block-begins r d z ∙ o, n)
]

pub pixels-add :
    (r : Reader) (m k j : ℕ) (d : Decoder)
    → j ≡ m + k
    → pixels r j d ≡ (pixels r m d >>= λ (ps, e). join ps (pixels r k e))
unfolding pixels
pixels-add r zero k j d h = let i : j ≡ k = omega arith in rw (i, join-nil) refl
pixels-add r (suc m) k zero d h = absurd (omega arith)
pixels-add r (suc m) k (suc j) d h =
    at_pixel (next_pixel r d) (λ e. pixels-add r m k j e (omega arith))
  where
    at_rest :
        (x : ℕ) (o : Option (List ℕ × Decoder))
        → join (x ∷ []) (o >>= λ (ps, e). join ps (pixels r k e))
          ≡ (join (x ∷ []) o >>= λ (ps, e). join ps (pixels r k e))
    at_rest x none = refl
    at_rest x (some (ps, e)) = join-join (x ∷ []) ps (pixels r k e)

    at_pixel :
        (o : Option (ℕ × Decoder))
        → ((e : Decoder) → pixels r j e ≡ (pixels r m e >>= λ (ps, f). join ps (pixels r k f)))
        → (o >>= λ (x, e). join (x ∷ []) (pixels r j e))
          ≡ ((o >>= λ (x, e). join (x ∷ []) (pixels r m e)) >>= λ (ps, e). join ps (pixels r k e))
    at_pixel none ih = refl
    at_pixel (some (x, e)) ih = rw (ih e) (at_rest x (pixels r m e))
