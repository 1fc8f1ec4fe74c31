-- ===== src/Illa/TgaDecoder/Image.antt =====
-- The loop of c_tga.cpp over the batches of a TGA file with run lengths: every row of the image gets its
-- pixels.
use pictus.Base.{
  ℕ, zero, suc, ◌+◌, ◌-◌, ◌*◌, ◌≤◌, ◌<◌, ◌≡◌, refl, ap, ◌∙◌, ◌≢◌, sym, arith, ◌==◌, ◌||◌, min, Bool,
  true, false, none, some, List, ◌++◌, map, length, length-map, ◌⊎◌, inl, inr, Bool-cases,
}
use native.Mathlib.Nat.{add-mul}
use mathlib.Core.List.{map-append}
use pictus.Illa.TgaRle.{Reader, Decoder, ◌>>=◌, Rows, perform_on_process}
use pictus.Illa.TgaDecoder.{
  first_scanline, first_row, put_rows, finalize_batch, finish_line, Finish, process,
  load_image_data,
}
use pictus.Illa.TgaRle.Pixels.{pixels, pixels-add, join}
use pictus.Illa.TgaRle.Batches.{perform_on_process-pixels, joined, IsBatch}
use pictus.Illa.TgaDecoder.Scanlines.{
  places, scanline_at, put_rows-places, put_rows-rows, joined-append, places-add, job, batch_at,
  num_rows-batch_at, first_row-batch_at, scanline_behind-batch_at, is_last-at,
}

-- What the decoder writes for the `m` rows that are left behind `k` rows: the file has too few pixels, or
-- its next pixels are those of rows that are written, finished, to the rows of the image.
abbrev pub IsImage : Reader → ℕ → ℕ → Bool → Finish → ℕ → ℕ → Decoder → List (ℕ × List ℕ) → Type 0
IsImage r width height flips g k m d writes =
    (pixels r (m * width) d ≡ none)
    ⊎ ((rows : List (List ℕ)) × (e : Decoder) × (pixels r (m * width) d ≡ some (joined rows, e))
        × (map (λ w. w.1) writes ≡ map (finish_line g width) rows)
        × (map (λ w. w.0) writes ≡ places flips height m k))

finalize_batch-at :
    (width height : ℕ) (flips : Bool) (g : Finish) (k n : ℕ) (t : Rows)
    → k ≤ height
    → n ≡ min 64 (height - k)
    → finalize_batch
        (job width height flips g)
        (scanline_at flips height k)
        (batch_at width height flips g k)
        t
      ≡ record {
        is_done = (k + n == height) || t.is_finished;
        writes =
            put_rows flips
              (first_row flips (batch_at width height flips g k))
              (map (finish_line g width) t.rows);
        scanline = scanline_at flips height (k + n);
        state = t.decoder;
      }
unfolding finalize_batch put_rows
finalize_batch-at width height flips g k n t h c =
    rw
      (
        finalize_batch,
        scanline_behind-batch_at width height flips g k h,
        ← c,
        is_last-at width height flips g (k + n) (omega arith),
      )
      refl

process-IsBatch :
    (r : Reader) (width height : ℕ) (flips : Bool) (g : Finish) (k n : ℕ) (d : Decoder)
    → k ≤ height
    → n ≡ min 64 (height - k)
    → (t : Rows) × (process r (job width height flips g) (scanline_at flips height k) d
        ≡ some (record {
          is_done = (k + n == height) || t.is_finished;
          writes =
              put_rows flips
                (first_row flips (batch_at width height flips g k))
                (map (finish_line g width) t.rows);
          scanline = scanline_at flips height (k + n);
          state = t.decoder;
        }))
      × IsBatch r width n d t
unfolding process
process-IsBatch r width height flips g k n d h c =
    let (t, e, i) = perform_on_process-pixels r width n d in
    let rows : (batch_at width height flips g k).num_rows ≡ n =
      num_rows-batch_at width height flips g k h ∙ sym c in
    let runs : perform_on_process r width (batch_at width height flips g k).num_rows d ≡ some t =
      ap (λ x. perform_on_process r width x d) rows ∙ e in
    (
      t,
      ap
            (λ o. o >>= λ s. some (
              finalize_batch (job width height flips g) (scanline_at flips height k)
                (batch_at width height flips g k) s))
            runs
          ∙ ap some (finalize_batch-at width height flips g k n t h c),
      i,
    )

split_rows : (width n q m : ℕ) → m ≡ n + q → m * width ≡ n * width + q * width
split_rows width n q m h = rw h (add-mul n q width)

after_batch :
    (r : Reader) (width height : ℕ) (flips : Bool) (g : Finish) (fuel k m n : ℕ) (d : Decoder)
    (t : Rows)
    → process r (job width height flips g) (scanline_at flips height k) d
      ≡ some (record {
        is_done = (k + n == height) || t.is_finished;
        writes =
            put_rows flips
              (first_row flips (batch_at width height flips g k))
              (map (finish_line g width) t.rows);
        scanline = scanline_at flips height (k + n);
        state = t.decoder;
      })
    → k + m ≡ height
    → n ≡ min 64 m
    → ((t.is_finished ≡ false)
        × (pixels r (n * width) d ≡ some (joined t.rows, t.decoder))
        × (length t.rows ≡ n))
      ⊎ ((t.is_finished ≡ true) × (pixels r (n * width) d ≡ none))
    → ((k + n == height) ≡ false
        → (writes : List (ℕ × List ℕ)) × (load_image_data r
              (job width height flips g)
              fuel
              (scanline_at flips height (k + n))
              t.decoder
            ≡ some writes)
          × IsImage r width height flips g (k + n) (m - n) t.decoder writes)
    → (writes : List (ℕ × List ℕ)) × (load_image_data r
          (job width height flips g)
          (suc fuel)
          (scanline_at flips height k)
          d
        ≡ some writes)
      × IsImage r width height flips g k m d writes
unfolding load_image_data
after_batch r width height flips g fuel k m n d t e h c o rest =
    by_test (Bool-cases (k + n == height)) o
  where
    ws : List (ℕ × List ℕ)
    ws =
        put_rows flips (first_row flips (batch_at width height flips g k))
          (map (finish_line g width) t.rows)

    split :
        pixels r (m * width) d
        ≡ (pixels r (n * width) d >>= λ (ps, e). join ps (pixels r ((m - n) * width) e))
    split =
        pixels-add r (n * width) ((m - n) * width) (m * width) d
          (split_rows width n (m - n) m (omega arith))

    put : length t.rows ≡ n → map (λ w. w.0) ws ≡ places flips height n k
    put l =
        put_rows-places flips height n k (first_row flips (batch_at width height flips g k))
          (map (finish_line g width) t.rows) (length-map (finish_line g width) t.rows ∙ l)
          (omega arith) (λ z. first_row-batch_at width height flips g k (omega arith))

    by_test :
        ((k + n == height) ≡ true) ⊎ ((k + n == height) ≡ false)
        → ((t.is_finished ≡ false)
            × (pixels r (n * width) d ≡ some (joined t.rows, t.decoder))
            × (length t.rows ≡ n))
          ⊎ ((t.is_finished ≡ true) × (pixels r (n * width) d ≡ none))
        → (writes : List (ℕ × List ℕ)) × (load_image_data r
              (job width height flips g)
              (suc fuel)
              (scanline_at flips height k)
              d
            ≡ some writes)
          × IsImage r width height flips g k m d writes
    by_test (inl z) (inr (f, p)) = (ws, rw (load_image_data, e, z) refl, inl (split ∙ rw p refl))
    by_test (inr z) (inr (f, p)) = (ws, rw (load_image_data, e, z, f) refl, inl (split ∙ rw p refl))
    by_test (inl z) (inl (f, p, l)) =
        let q : m ≡ n = ground arith in
        (
          ws,
          rw (load_image_data, e, z) refl,
          inr (t.rows, t.decoder, rw q p, put_rows-rows flips _ _, rw q (put l)),
        )
    by_test (inr z) (inl (f, p, l)) =
        let (vs, s, i) = rest z in (ws ++ vs, rw (load_image_data, e, z, f, s) refl, both vs i)
      where
        both :
            (vs : List (ℕ × List ℕ))
            → IsImage r width height flips g (k + n) (m - n) t.decoder vs
            → IsImage r width height flips g k m d (ws ++ vs)
        both vs (inl q) = inl (split ∙ rw (p, q) refl)
        both vs (inr (rows, x, q, v, u)) = inr (
          t.rows ++ rows,
          x,
          split ∙ rw (p, q, joined-append) refl,
          rw (map-append, put_rows-rows, v, map-append) refl,
          rw (map-append, put l, u) (sym (places-add flips height n (m - n) k m (omega arith))),
        )

-- The batches in turn, `m` rows at the scanline behind `k`.
batches-IsImage :
    (r : Reader) (width height : ℕ) (flips : Bool) (g : Finish) (fuel k m : ℕ) (d : Decoder)
    → k + m ≡ height
    → m < fuel
    → (writes : List (ℕ × List ℕ)) × (load_image_data r
          (job width height flips g)
          fuel
          (scanline_at flips height k)
          d
        ≡ some writes)
      × IsImage r width height flips g k m d writes
unfolding load_image_data
batches-IsImage r width height flips g zero k m d h l = absurd (omega arith)
batches-IsImage r width height flips g (suc fuel) k m d h l =
    let n : ℕ = min 64 (height - k) in
    let (t, e, (a, o)) = process-IsBatch r width height flips g k n d (omega arith) refl in
    after_batch r width height flips g fuel k m n d t e h (omega arith) o (λ z.
      let more : k + n ≢ height = ground arith in
      batches-IsImage r width height flips g fuel (k + n) (m - n) t.decoder (omega arith)
        (omega arith))

first_scanline-at :
    (width height : ℕ) (flips : Bool) (g : Finish)
    → first_scanline (job width height flips g) ≡ scanline_at flips height 0
unfolding first_scanline
first_scanline-at width height true g = omega arith
first_scanline-at width height false g = refl

-- The loop of CodecTGA over the batches ends, for any size of the image and any bytes. Then either the file
-- has too few pixels for the image, or every row of the image gets a row of the file, from the top
-- or from the bottom and finished as the header says, and the rows of the file have its pixels in
-- order.
pub load_image_data-IsImage :
    (r : Reader) (width height : ℕ) (flips : Bool) (g : Finish) (d : Decoder)
    → (writes : List (ℕ × List ℕ)) × (load_image_data r
          (job width height flips g)
          (height + 1)
          (first_scanline (job width height flips g))
          d
        ≡ some writes)
      × IsImage r width height flips g 0 height d writes
load_image_data-IsImage r width height flips g d =
    rw (first_scanline-at width height flips g)
      (batches-IsImage r width height flips g (height + 1) 0 height d (omega arith) (omega arith))
