-- ===== src/Illa/StringTable/FewRows.antt =====
-- Interlaced images of at most four rows.
use pictus.Base.{
  ℕ, ◌+◌, ◌*◌, ◌<◌, ◌≤◌, ◌≡◌, refl, arith, ◌==◌, ◌||◌, true, false, inl, inr, some, List, [], ◌∷◌,
  ◌++◌, leb, Bool-cases, length, length-append,
}
use pictus.Illa.StringTable.{
  Writer, new_writer, write_string, put, put_interlaced, write_byte, next_row, next_pass,
}

-- Below the last row nothing is written.
stopped : (values : List ℕ) (t : Writer) → t.height ≤ t.y → write_string values t ≡ t
unfolding write_string put
stopped [] t h = refl
stopped (value ∷ values) t h =
    let full : (leb t.width t.x || leb t.height t.y) ≡ true = ground arith in
    rw (full, write_string) refl

goes_on :
    (value : ℕ) (values : List ℕ) (t u : Writer)
    → put value t ≡ some u
    → write_string (value ∷ values) t ≡ write_string values u
unfolding write_string
goes_on value values t u e = rw (e, write_string) refl

module _ (width height stride : ℕ) (some_rows : 0 < height) (few : height ≤ 4) where
  -- The writer in the first row.
  abbrev first_row : ℕ → List (ℕ × ℕ) → Writer
  first_row x dest = record {
    x = x;
    y = 0;
    width = width;
    height = height;
    stride = stride;
    pass = 0;
    interlace = true;
    dest = dest;
  }

  -- The writer at the start of the second pass.
  abbrev second_pass : List (ℕ × ℕ) → Writer
  second_pass dest = record (first_row 0 dest) { y = 4; pass = 1 }

  in_image : (x : ℕ) → x < width → (leb width x || leb height 0) ≡ false
  in_image x h = ground arith

  is_end : (x : ℕ) → x + 1 ≡ width → (x + 1 == width) ≡ true
  is_end x e = ground arith

  beyond : leb height 8 ≡ true
  beyond = ground arith

  put_ends :
      (value x : ℕ) (dest : List (ℕ × ℕ))
      → x < width
      → x + 1 ≡ width
      → put value (first_row x dest) ≡ some (second_pass (dest ++ (x + 0 * stride, value) ∷ []))
  unfolding put put_interlaced write_byte next_row next_pass
  put_ends value x dest h e = rw (in_image x h) (rw (is_end x e) (rw beyond refl))

  put_goes :
      (value x : ℕ) (dest : List (ℕ × ℕ))
      → x < width
      → (x + 1 == width) ≡ false
      → put value (first_row x dest)
        ≡ some (first_row (x + 1) (dest ++ (x + 0 * stride, value) ∷ []))
  unfolding put put_interlaced write_byte next_row next_pass
  put_goes value x dest h e = rw (in_image x h) (rw e refl)

  short :
      (x : ℕ) (dest : List (ℕ × ℕ))
      → x < width
      → length dest ≡ x
      → length (write_string [] (first_row x dest)).dest ≤ width
  unfolding write_string
  short x dest h e = omega arith

  row_by_row :
      (values : List ℕ) (x : ℕ) (dest : List (ℕ × ℕ))
      → x < width
      → length dest ≡ x
      → length (write_string values (first_row x dest)).dest ≤ width
  row_by_row [] x dest h e = short x dest h e
  row_by_row (value ∷ values) x dest h e = elim (Bool-cases (x + 1 == width)) [
    | inl y ↦
        let last : x + 1 ≡ width = ground arith in
        rw (goes_on value values _ _ (put_ends value x dest h last)) (
          rw (stopped values (second_pass (dest ++ (x + 0 * stride, value) ∷ [])) few)
            (omega (arith, length-append dest ((x + 0 * stride, value) ∷ []))))
    | inr y ↦ rw (goes_on value values _ _ (put_goes value x dest h y)) (
        row_by_row values (x + 1) (dest ++ (x + 0 * stride, value) ∷ []) (ground arith)
          (omega (arith, length-append dest ((x + 0 * stride, value) ∷ []))))
  ]

-- An interlaced image of one to four rows, whatever is decoded for it: no more bytes are written
-- than its first row has, so the other rows stay empty.
pub write_string-few_rows :
    (width height stride : ℕ) (values : List ℕ)
    → 0 < width
    → 0 < height
    → height ≤ 4
    → length (write_string values (new_writer width height stride true)).dest ≤ width
unfolding new_writer
write_string-few_rows width height stride values some_columns some_rows few =
    row_by_row width height stride some_rows few values 0 [] some_columns refl
