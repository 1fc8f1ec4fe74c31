-- ===== src/Illa/TgaRle/Batches.antt =====
-- The loops of PerformOnProcess of c_tga_rle.cpp give the pixels of the file one after the other.
use pictus.Base.{
  ℕ, zero, suc, ◌+◌, ◌-◌, ◌*◌, ◌≤◌, ◌<◌, ◌≡◌, refl, ap, ◌∙◌, arith, min, Bool, true, false, Option,
  none, some, List, [], ◌∷◌, ◌++◌, ltb, replicate, length, length-append, length-replicate, ◌⊎◌,
  inl, inr, Bool-cases,
}
use mathlib.Core.Logic.{◌≢◌}
use pictus.Illa.TgaRle.{
  Reader, pixel_size, Decoder, ◌>>=◌, is_starved, read_pixels, Row, transfer, turn, row, Rows,
  perform_on_process,
}
use pictus.Illa.TgaRle.Pixels.{
  pixels, pixels-add, join, block, run-pixels, raw-pixels, pixels-opened, pixels-starved,
  read_pixels-short, read_pixels-enough, open_block-Opens,
}

-- A full row has the next `k` pixels; any other ends with the file, in its bounds.
abbrev pub IsRow : Reader → ℕ → Decoder → Row → Type 0
IsRow r k d t =
    ((t.full ≡ true) × (pixels r k d ≡ some (t.written, t.decoder)) × (length t.written ≡ k))
    ⊎ ((t.full ≡ false) × (pixels r k d ≡ none) × (length t.written ≤ k))

before-IsRow :
    (r : Reader) (n k j : ℕ) (d e : Decoder) (ps : List ℕ) (t : Row)
    → j ≡ n + k
    → length ps ≡ n
    → pixels r j d ≡ join ps (pixels r k e)
    → IsRow r k e t
    → IsRow r j d (record t { written = ps ++ t.written })
before-IsRow r n k j d e ps t h l p (inl (f, q, c)) =
    inl (f, p ∙ ap (join ps) q, length-append ps t.written ∙ omega arith)
before-IsRow r n k j d e ps t h l p (inr (f, q, c)) =
    inr (f, p ∙ ap (join ps) q, rw (length-append ps t.written) (omega arith))

transfer-IsRow :
    (r : Reader) (width x : ℕ) (rest : ℕ → Decoder → Option Row) (b : Bool) (p c : ℕ) (s : List ℕ)
    → x < width
    → c ≢ 0
    → ((y : ℕ) (e : Decoder) → x < y → (t : Row) × (rest y e ≡ some t) × IsRow r (width - y) e t)
    → (t : Row) × (transfer r width x rest (block b p c s) ≡ some t)
      × IsRow r (width - x) (block b p c s) t
unfolding transfer
transfer-IsRow r width x rest true p c s h z ih =
    let n : ℕ = min (width - x) c in
    let (t, e, i) = ih (x + n) (block true p (c - n) s) (omega arith) in
    (
      record t { written = replicate n p ++ t.written },
      rw e refl,
      before-IsRow r n (width - (x + n)) (width - x) (block true p c s) (block true p (c - n) s)
          (replicate n p) t (omega arith) (length-replicate n p)
          (run-pixels r n (width - (x + n)) (c - n) (width - x) c p s (omega arith) (omega arith))
          i,
    )
transfer-IsRow r width x rest false p c s h z ih = by_bytes (ltb (length s) (n * pixel_size r)) refl
  where
    n : ℕ
    n = min (width - x) c

    steps : pixels r (width - x) (block false p c s) ≡ (
        read_pixels r n s >>= λ (ps, behind).
        join ps (pixels r (width - (x + n)) (block false p (c - n) behind)))
    steps = raw-pixels r n (width - (x + n)) (c - n) (width - x) c p s (omega arith) (omega arith)

    by_bytes :
        (w : Bool)
        → ltb (length s) (n * pixel_size r) ≡ w
        → (t : Row) × (transfer r width x rest (block false p c s) ≡ some t)
          × IsRow r (width - x) (block false p c s) t
    by_bytes true q =
        let short : length s < n * pixel_size r = ground arith in
        (
          record { full = false; written = []; decoder = block false p (c - n) s },
          rw (transfer, q) refl,
          inr (refl, rw (read_pixels-short r n s short) at steps, omega arith),
        )
    by_bytes false q =
        let enough : n * pixel_size r ≤ length s = ground arith in
        let (ps, behind, e, l) = read_pixels-enough r n s enough in
        let (t, f, i) = ih (x + n) (block false p (c - n) behind) (omega arith) in
        (
          record t { written = ps ++ t.written },
          rw (transfer, q, e, f) refl,
          before-IsRow r n (width - (x + n)) (width - x) (block false p c s)
              (block false p (c - n) behind) ps t (omega arith) l (rw e at steps) i,
        )

full-IsRow :
    (r : Reader) (width x : ℕ) (rest : ℕ → Decoder → Option Row) (d : Decoder)
    → ltb x width ≡ false
    → (t : Row) × (turn r width rest x d ≡ some t) × IsRow r (width - x) d t
unfolding turn pixels
full-IsRow r width x rest d q =
    let e : width - x ≡ 0 = ground arith in
    (
      record { full = true; written = []; decoder = d },
      rw (turn, q) refl,
      inl (refl, rw e refl, rw e refl),
    )

turn-IsRow :
    (r : Reader) (width x : ℕ) (rest : ℕ → Decoder → Option Row) (d : Decoder)
    → ((y : ℕ) (e : Decoder) → x < y → (t : Row) × (rest y e ≡ some t) × IsRow r (width - y) e t)
    → (t : Row) × (turn r width rest x d ≡ some t) × IsRow r (width - x) d t
unfolding turn
turn-IsRow r width x rest d ih = elim (Bool-cases (ltb x width)) [
  | inr q ↦ full-IsRow r width x rest d q
  | inl q ↦
      let l : x < width = ground arith in
      elim (Bool-cases (is_starved r d)) [
        | inl w ↦ (
          record { full = false; written = []; decoder = d },
          rw (turn, q, w) refl,
          inr (refl, pixels-starved r (width - x) d (omega arith) w, omega arith),
        )
        | inr w ↦
            let (e, o, z) = open_block-Opens r d w in
            let (t, f, i) =
              transfer-IsRow r width x rest e.is_rle_block e.pix e.num_rle_pixels e.stream l z ih in
            (
              t,
              rw (turn, q, w, o) f,
              moved e t (pixels-opened r (width - x) d e (omega arith) w o z) i,
            )
      ]
]
  where
    moved :
        (e : Decoder) (t : Row)
        → pixels r (width - x) d ≡ pixels r (width - x) e
        → IsRow r (width - x) e t
        → IsRow r (width - x) d t
    moved e t p (inl (f, q, c)) = inl (f, p ∙ q, c)
    moved e t p (inr (f, q, c)) = inr (f, p ∙ q, c)

row-IsRow :
    (r : Reader) (fuel width x : ℕ) (d : Decoder)
    → width - x ≤ fuel
    → (t : Row) × (row r fuel width x d ≡ some t) × IsRow r (width - x) d t
unfolding row
row-IsRow r zero width x d h = full-IsRow r width x (λ y e. none) d (ground arith)
row-IsRow r (suc fuel) width x d h =
    turn-IsRow r width x (row r fuel width) d (λ y e l. row-IsRow r fuel width y e (omega arith))

abbrev pub joined : List (List ℕ) → List ℕ
joined [] = []
joined (ps ∷ rows) = ps ++ joined rows

abbrev pub AllWithin : ℕ → List (List ℕ) → Type 0
AllWithin width [] = Unit
AllWithin width (ps ∷ rows) = (length ps ≤ width) × AllWithin width rows

-- What a batch of `n` rows is in terms of the pixels of the file.
abbrev pub IsBatch : Reader → ℕ → ℕ → Decoder → Rows → Type 0
IsBatch r width n d t =
    AllWithin width t.rows
    × (((t.is_finished ≡ false)
          × (pixels r (n * width) d ≡ some (joined t.rows, t.decoder))
          × (length t.rows ≡ n))
        ⊎ ((t.is_finished ≡ true) × (pixels r (n * width) d ≡ none)))

row-IsBatch :
    (r : Reader) (width n : ℕ) (d : Decoder) (t : Row)
    → row r width width 0 d ≡ some t
    → IsRow r width d t
    → ((e : Decoder)
        → (s : Rows) × (perform_on_process r width n e ≡ some s) × IsBatch r width n e s)
    → (s : Rows) × (perform_on_process r width (suc n) d ≡ some s) × IsBatch r width (suc n) d s
unfolding perform_on_process
row-IsBatch r width n d t e (inr (f, q, c)) ih = (
  record { is_finished = true; rows = t.written ∷ []; decoder = t.decoder },
  rw (e, f) refl,
  ((c, tt), inr (refl, pixels-add r width (n * width) (suc n * width) d (omega arith) ∙ rw q refl)),
)
row-IsBatch r width n d t e (inl (f, q, c)) ih = behind (ih t.decoder)
  where
    split :
        pixels r (suc n * width) d
        ≡ (pixels r width d >>= λ (ps, e). join ps (pixels r (n * width) e))
    split = pixels-add r width (n * width) (suc n * width) d (omega arith)

    both :
        (s : Rows)
        → ((s.is_finished ≡ false)
            × (pixels r (n * width) t.decoder ≡ some (joined s.rows, s.decoder))
            × (length s.rows ≡ n))
          ⊎ ((s.is_finished ≡ true) × (pixels r (n * width) t.decoder ≡ none))
        → ((s.is_finished ≡ false)
            × (pixels r (suc n * width) d ≡ some (t.written ++ joined s.rows, s.decoder))
            × (suc (length s.rows) ≡ suc n))
          ⊎ ((s.is_finished ≡ true) × (pixels r (suc n * width) d ≡ none))
    both s (inr (j, p)) = inr (j, split ∙ rw (q, p) refl)
    both s (inl (j, p, l)) = inl (j, split ∙ rw (q, p) refl, omega arith)

    behind :
        (s : Rows) × (perform_on_process r width n t.decoder ≡ some s)
          × IsBatch r width n t.decoder s
        → (s : Rows) × (perform_on_process r width (suc n) d ≡ some s) × IsBatch r width (suc n) d s
    behind (s, g, (a, o)) =
        (record s { rows = t.written ∷ s.rows }, rw (e, f, g) refl, ((omega arith, a), both s o))

-- A batch of PerformOnProcess, of any width and number of rows, raises nothing and writes no row beyond
-- its width. It goes on just where the file has pixels for all of its rows, and they then have the
-- next pixels of the file in order, whichever blocks they come from.
pub perform_on_process-pixels :
    (r : Reader) (width num_rows : ℕ) (d : Decoder)
    → (t : Rows) × (perform_on_process r width num_rows d ≡ some t) × IsBatch r width num_rows d t
unfolding perform_on_process
perform_on_process-pixels r width zero d = (
  record { is_finished = false; rows = []; decoder = d },
  refl,
  (tt, inl (refl, let e : 0 * width ≡ 0 = omega arith in rw e (unfold pixels in refl), refl)),
)
perform_on_process-pixels r width (suc n) d =
    let (t, e, i) = row-IsRow r width width 0 d (omega arith) in
    row-IsBatch r width n d t e (rw width-0 at i) (perform_on_process-pixels r width n)
  where
    width-0 : width - 0 ≡ width
    width-0 = omega arith
