-- ===== src/Illa/StringTable/Raster.antt =====
-- Images that are not interlaced: the order of the writes.
use native.Mathlib.Nat.{mul-le-mul_right}
use pictus.Base.{
  ℕ, ◌+◌, ◌*◌, ◌/◌, ◌%◌, ◌<◌, ◌≡◌, refl, sym, ap, ◌∙◌, arith, ◌==◌, ◌||◌, true, false, inl, inr,
  List, [], ◌∷◌, ◌++◌, ltb, leb, if◌then◌else◌, Bool-cases, lt→ltb, le→ltb_not,
}
use mathlib.Core.List.{append-nil, append_assoc}
use pictus.Base.Bits.{div_unique, mod_unique}
use pictus.Illa.StringTable.{Writer, write_string, put, put_plain, write_byte}

-- The writes of `values` from the `k`th pixel on, until the image is full.
abbrev pub raster : ℕ → ℕ → ℕ → ℕ → List ℕ → List (ℕ × ℕ)
raster width height stride k [] = []
raster width height stride k (value ∷ values) =
    let rest = raster width height stride (k + 1) values in
    if ltb k (height * width) then (k % width + k / width * stride, value) ∷ rest else []

-- The writer is at the `k`th pixel.
pub record IsAt (k : ℕ) (t : Writer) : Type 0 where
  pub plain : t.interlace ≡ false
  pub in_row : t.x < t.width
  pub pixel : t.y * t.width + t.x ≡ k

column : (k : ℕ) (t : Writer) → IsAt k t → k % t.width ≡ t.x
column k t a = mod_unique k t.width t.y t.x a.in_row (omega (arith, a.pixel))

row : (k : ℕ) (t : Writer) → IsAt k t → k / t.width ≡ t.y
row k t a = div_unique k t.width t.y t.x a.in_row (omega (arith, a.pixel))

one_row : (y w : ℕ) → (y + 1) * w ≡ y * w + w
one_row y w = omega arith

put_plain-IsAt : (value k : ℕ) (t : Writer) → IsAt k t → IsAt (k + 1) (put_plain value t)
unfolding put_plain write_byte
put_plain-IsAt value k t a = elim (Bool-cases (t.x + 1 == t.width)) [
  | inl y ↦
      rw (y, put_plain)
        (record {
          plain = a.plain;
          in_row = omega (arith, a.in_row);
          pixel = ground (arith, a.pixel, one_row t.y t.width);
        })
  | inr y ↦
      rw (y, put_plain)
        (record {
          plain = a.plain;
          in_row = ground (arith, a.in_row);
          pixel = omega (arith, a.pixel);
        })
]

pub put_plain-dest :
    (value : ℕ) (t : Writer)
    → (put_plain value t).dest ≡ t.dest ++ (t.x + t.y * t.stride, value) ∷ []
unfolding put_plain write_byte
put_plain-dest value t = elim (Bool-cases (t.x + 1 == t.width)) [
  | inl y ↦ rw (y, put_plain) refl
  | inr y ↦ rw (y, put_plain) refl
]

abbrev pub SameSize : Writer → Writer → Type 0
SameSize t u = (u.width ≡ t.width) × (u.height ≡ t.height) × (u.stride ≡ t.stride)

pub put_plain-SameSize : (value : ℕ) (t : Writer) → SameSize t (put_plain value t)
unfolding put_plain write_byte
put_plain-SameSize value t = elim (Bool-cases (t.x + 1 == t.width)) [
  | inl y ↦ rw (y, put_plain) (refl, refl, refl)
  | inr y ↦ rw (y, put_plain) (refl, refl, refl)
]

-- The image is full where the pixels end.
inside :
    (k : ℕ) (t : Writer)
    → IsAt k t
    → (leb t.width t.x || leb t.height t.y) ≡ false
    → ltb k (t.height * t.width) ≡ true
inside k t a h = lt→ltb k (t.height * t.width) (
    ground (
      arith,
      a.pixel,
      a.in_row,
      one_row t.y t.width,
      mul-le-mul_right {m = t.y + 1} {n = t.height} t.width,
    ))

outside :
    (k : ℕ) (t : Writer)
    → IsAt k t
    → (leb t.width t.x || leb t.height t.y) ≡ true
    → ltb k (t.height * t.width) ≡ false
outside k t a h =
    le→ltb_not k (t.height * t.width)
      (ground (arith, a.pixel, a.in_row, mul-le-mul_right {m = t.height} {n = t.y} t.width))

-- One write, and those of the other bytes.
plain_step :
    (values : List ℕ) (value k : ℕ) (t : Writer)
    → IsAt k t
    → (leb t.width t.x || leb t.height t.y) ≡ false
    → (write_string values (put_plain value t)).dest
      ≡ (put_plain value t).dest
        ++ raster
            (put_plain value t).width
            (put_plain value t).height
            (put_plain value t).stride
            (k + 1)
            values
    → (write_string (value ∷ values) t).dest
      ≡ t.dest ++ raster t.width t.height t.stride k (value ∷ values)
unfolding write_string put
plain_step values value k t a y h = ap (λ (u : Writer). u.dest) goes ∙ h ∙ regrouped
  where
    goes : write_string (value ∷ values) t ≡ write_string values (put_plain value t)
    goes = rw (y, write_string) (simp (a.plain) refl)

    later : List (ℕ × ℕ)
    later = raster t.width t.height t.stride (k + 1) values

    resized :
        (w hh st : ℕ) (ds : List (ℕ × ℕ))
        → w ≡ t.width
        → hh ≡ t.height
        → st ≡ t.stride
        → ds ≡ t.dest ++ (t.x + t.y * t.stride, value) ∷ []
        → ds ++ raster w hh st (k + 1) values
          ≡ t.dest ++ (t.x + t.y * t.stride, value) ∷ [] ++ later
    resized w hh st ds e f g d = rw (e, f, g, d) refl

    one :
        (t.x + t.y * t.stride, value) ∷ later ≡ raster t.width t.height t.stride k (value ∷ values)
    one = rw (inside k t a y, column k t a, row k t a) refl

    regrouped :
        (put_plain value t).dest
          ++ raster
              (put_plain value t).width
              (put_plain value t).height
              (put_plain value t).stride
              (k + 1)
              values
        ≡ t.dest ++ raster t.width t.height t.stride k (value ∷ values)
    regrouped =
        let (w, hh, st) = put_plain-SameSize value t in
        resized _ _ _ _ w hh st (put_plain-dest value t)
        ∙ append_assoc t.dest ((t.x + t.y * t.stride, value) ∷ []) later
        ∙ ap (λ (l : List (ℕ × ℕ)). t.dest ++ l) one

-- The writes of a string on an image that is not interlaced: one byte for each pixel from the
-- position on, row by row, until the image is full.
pub write_string-raster :
    (values : List ℕ) (k : ℕ) (t : Writer)
    → IsAt k t
    → (write_string values t).dest ≡ t.dest ++ raster t.width t.height t.stride k values
unfolding write_string put
write_string-raster [] k t a = sym (append-nil t.dest)
write_string-raster (value ∷ values) k t a =
    elim (Bool-cases (leb t.width t.x || leb t.height t.y)) [
      | inl y ↦
          rw (y, write_string)
            (sym (append-nil t.dest)
              ∙ ap (λ (l : List (ℕ × ℕ)). t.dest ++ l) (rw (outside k t a y) refl))
      | inr y ↦
          plain_step values value k t a y
            (write_string-raster values (k + 1) (put_plain value t) (put_plain-IsAt value k t a))
    ]
