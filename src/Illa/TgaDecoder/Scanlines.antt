-- ===== src/Illa/TgaDecoder/Scanlines.antt =====
-- The rows of the image at which the batches of source/deps/illa/c_tga_decoder.cpp are.
use pictus.Base.{
  ℕ, zero, suc, ◌+◌, ◌-◌, ◌≤◌, ◌<◌, ◌≡◌, refl, ap, sym, arith, ◌==◌, min, Bool, true, false, List,
  [], ◌∷◌, ◌++◌, map, length,
}
use mathlib.Core.List.{append_assoc}
use pictus.Illa.TgaDecoder.{
  Job, Finish, Batch, rows_per_batch, prepare_batch, first_row, put_rows, scanline_behind,
  is_last_scanline,
}
use pictus.Illa.TgaRle.Batches.{joined}

-- The row of the image that the `k`-th row of the file is, and those from `k` on.
abbrev pub place : Bool → ℕ → ℕ → ℕ
place true height k = height - 1 - k
place false height k = k

abbrev pub places : Bool → ℕ → ℕ → ℕ → List ℕ
places flips height zero k = []
places flips height (suc n) k = place flips height k ∷ places flips height n (k + 1)

-- The scanline at which the decoder stands behind `k` rows.
abbrev pub scanline_at : Bool → ℕ → ℕ → ℕ
scanline_at true height k = height - k
scanline_at false height k = k

pub put_rows-places :
    (flips : Bool) (height n k y : ℕ) (rows : List (List ℕ))
    → length rows ≡ n
    → k + n ≤ height
    → (0 < n → y ≡ place flips height k)
    → map (λ w. w.0) (put_rows flips y rows) ≡ places flips height n k
unfolding put_rows
put_rows-places flips height zero k y [] h l p = refl
put_rows-places flips height zero k y (ps ∷ rows) h l p = absurd (omega arith)
put_rows-places flips height (suc n) k y [] h l p = absurd (omega arith)
put_rows-places true height (suc n) k y (ps ∷ rows) h l p =
    let e = p (omega arith) in
    rw
      (
        put_rows-places true height n (k + 1) (y - 1) rows (omega arith) (omega arith)
            (λ z. omega arith),
        e,
      )
      refl
put_rows-places false height (suc n) k y (ps ∷ rows) h l p =
    let e = p (omega arith) in
    rw
      (
        put_rows-places false height n (k + 1) (y + 1) rows (omega arith) (omega arith)
            (λ z. omega arith),
        e,
      )
      refl

pub put_rows-rows :
    (flips : Bool) (rows : List (List ℕ)) (y : ℕ) → map (λ w. w.1) (put_rows flips y rows) ≡ rows
unfolding put_rows
put_rows-rows flips [] y = refl
put_rows-rows flips (ps ∷ rows) y = ap (◌∷◌ ps) (put_rows-rows flips rows _)

pub joined-append : (xs ys : List (List ℕ)) → joined (xs ++ ys) ≡ joined xs ++ joined ys
joined-append [] ys = refl
joined-append (x ∷ xs) ys = rw (joined-append xs ys) (sym (append_assoc x (joined xs) (joined ys)))

pub places-add :
    (flips : Bool) (height m n k j : ℕ)
    → j ≡ m + n
    → places flips height j k ≡ places flips height m k ++ places flips height n (k + m)
places-add flips height zero n k j h =
    let e : j ≡ n = omega arith in let f : k + 0 ≡ k = omega arith in rw (e, f) refl
places-add flips height (suc m) n k zero h = absurd (omega arith)
places-add flips height (suc m) n k (suc j) h =
    let e : k + suc m ≡ (k + 1) + m = omega arith in
    rw (e, places-add flips height m n (k + 1) j (omega arith)) refl

abbrev pub job : ℕ → ℕ → Bool → Finish → Job
job width height flips g = record {
  dimensions_width = width;
  dimensions_height = height;
  flip_vertical = flips;
  finish = g;
}

abbrev pub batch_at : ℕ → ℕ → Bool → Finish → ℕ → Batch
batch_at width height flips g k =
    prepare_batch (job width height flips g) rows_per_batch (scanline_at flips height k)

pub num_rows-batch_at :
    (width height : ℕ) (flips : Bool) (g : Finish) (k : ℕ)
    → k ≤ height
    → (batch_at width height flips g k).num_rows ≡ min 64 (height - k)
unfolding prepare_batch
num_rows-batch_at width height true g k h = refl
num_rows-batch_at width height false g k h = refl

pub first_row-batch_at :
    (width height : ℕ) (flips : Bool) (g : Finish) (k : ℕ)
    → k < height
    → first_row flips (batch_at width height flips g k) ≡ place flips height k
unfolding prepare_batch first_row
first_row-batch_at width height true g k h = omega arith
first_row-batch_at width height false g k h = refl

pub scanline_behind-batch_at :
    (width height : ℕ) (flips : Bool) (g : Finish) (k : ℕ)
    → k ≤ height
    → scanline_behind
        (job width height flips g)
        (batch_at width height flips g k)
        (scanline_at flips height k)
      ≡ scanline_at flips height (k + min 64 (height - k))
unfolding prepare_batch scanline_behind
scanline_behind-batch_at width height true g k h = omega arith
scanline_behind-batch_at width height false g k h = refl

pub is_last-at :
    (width height : ℕ) (flips : Bool) (g : Finish) (k : ℕ)
    → k ≤ height
    → is_last_scanline (job width height flips g) (scanline_at flips height k) ≡ (k == height)
unfolding is_last_scanline
is_last-at width height true g k h = ground arith
is_last-at width height false g k h = ground arith
