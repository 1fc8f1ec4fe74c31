-- ===== src/Illa/StringTable/Interlaced.antt =====
-- Interlaced images: where the bytes go.
use pictus.Base.{
  ℕ, ◌+◌, ◌*◌, ◌<◌, ◌≡◌, refl, sym, subst, arith, ◌==◌, ◌||◌, ◌⊎◌, Bool, true, false, inl, inr,
  Option, none, some, List, [], ◌∷◌, ◌++◌, leb, if◌then◌else◌, Bool-cases,
}
use pictus.Illa.StringTable.{
  Writer, write_string, put, put_plain, put_interlaced, write_byte, next_row, next_pass,
}
use pictus.Illa.StringTable.Raster.{SameSize, put_plain-SameSize, put_plain-dest}

-- Every write is to a pixel of the image.
abbrev pub AllInside : ℕ → ℕ → ℕ → List (ℕ × ℕ) → Type 0
AllInside width height stride [] = Unit
AllInside width height stride ((offset, value) ∷ ws) =
    ((x : ℕ) × (y : ℕ) × (x < width) × (y < height) × (offset ≡ x + y * stride))
    × AllInside width height stride ws

AllInside-append_one :
    (w h s : ℕ) (ws : List (ℕ × ℕ)) (x y value : ℕ)
    → AllInside w h s ws
    → x < w
    → y < h
    → AllInside w h s (ws ++ (x + y * s, value) ∷ [])
AllInside-append_one w h s [] x y value a i j = ((x, y, i, j, refl), tt)
AllInside-append_one w h s (o ∷ ws) x y value a i j =
    (a.0, AllInside-append_one w h s ws x y value a.1 i j)

-- The next row changes the row and the pass only.
abbrev SameWrites : Writer → Writer → Type 0
SameWrites t u = SameSize t u × (u.dest ≡ t.dest)

next_pass-SameWrites : (step start : ℕ) (t : Writer) → SameWrites t (next_pass step start t)
unfolding next_pass
next_pass-SameWrites step start t = elim (Bool-cases (leb t.height (t.y + step))) [
  | inl y ↦ rw (y, next_pass) ((refl, refl, refl), refl)
  | inr y ↦ rw (y, next_pass) ((refl, refl, refl), refl)
]

next_row-SameWrites : (t : Writer) → SameWrites t (next_row t)
unfolding next_row
next_row-SameWrites t = elim (Bool-cases (t.pass == 0)) [
  | inl y ↦ rw (y, next_row) (next_pass-SameWrites 8 4 _)
  | inr y ↦ elim (Bool-cases (t.pass == 1)) [
    | inl z ↦ simp (y, z, next_row) (next_pass-SameWrites 8 2 t)
    | inr z ↦ elim (Bool-cases (t.pass == 2)) [
      | inl u ↦ simp (y, z, u, next_row) (next_pass-SameWrites 4 1 t)
      | inr u ↦ elim (Bool-cases (t.pass == 3)) [
        | inl v ↦ simp (y, z, u, v, next_row) ((refl, refl, refl), refl)
        | inr v ↦ simp (y, z, u, v, next_row) ((refl, refl, refl), refl)
      ]
    ]
  ]
]

-- A turn writes the byte at the position or nothing.
Wrote : ℕ → Writer → Writer → Type 0
Wrote value t u =
    SameSize t u × ((u.dest ≡ t.dest) ⊎ (u.dest ≡ t.dest ++ (t.x + t.y * t.stride, value) ∷ []))

row_end : (v : Writer) → SameWrites v (if v.x == v.width then next_row (record v { x = 0 }) else v)
row_end v = elim (Bool-cases (v.x == v.width)) [
  | inl y ↦ rw y (next_row-SameWrites (record v { x = 0 }))
  | inr y ↦ rw y ((refl, refl, refl), refl)
]

put_interlaced-Wrote : (value : ℕ) (t : Writer) → Wrote value t (put_interlaced value t)
unfolding put_interlaced Wrote write_byte
put_interlaced-Wrote value t = elim (Bool-cases (leb t.pass 4)) [
  | inl y ↦
      let h = row_end (record (write_byte value t) { x = t.x + 1 }) in
      simp (y, put_interlaced) (h.0, inr h.1)
  | inr y ↦ let h = row_end (record t { x = t.x + 1 }) in simp (y, put_interlaced) (h.0, inl h.1)
]

-- A turn ends the string, or it is inside the image and writes there.
Turn : ℕ → Writer → Option Writer → Type 0
Turn value t o =
    (o ≡ none)
    ⊎ (u : Writer) × (o ≡ some u) × ((t.x < t.width) × (t.y < t.height)) × Wrote value t u

not_full :
    (t : Writer)
    → (leb t.width t.x || leb t.height t.y) ≡ false
    → (t.x < t.width) × (t.y < t.height)
not_full t h = (ground arith, ground arith)

one_of_two :
    (value : ℕ) (t a b : Writer) (full i : Bool)
    → (full ≡ false → (t.x < t.width) × (t.y < t.height))
    → Wrote value t a
    → Wrote value t b
    → Turn value t (if full then none else if i then some a else some b)
unfolding Turn
one_of_two value t a b true i h c d = inl refl
one_of_two value t a b false true h c d = inr (a, refl, h refl, c)
one_of_two value t a b false false h c d = inr (b, refl, h refl, d)

plain-Wrote : (value : ℕ) (t : Writer) → Wrote value t (put_plain value t)
unfolding Wrote
plain-Wrote value t = (put_plain-SameSize value t, inr (put_plain-dest value t))

put-Turn : (value : ℕ) (t : Writer) → Turn value t (put value t)
unfolding put
put-Turn value t =
    one_of_two value t (put_interlaced value t) (put_plain value t)
      (leb t.width t.x || leb t.height t.y) t.interlace (not_full t) (put_interlaced-Wrote value t)
      (plain-Wrote value t)

resized :
    {w h s w' h' s' : ℕ} (ws : List (ℕ × ℕ))
    → w' ≡ w
    → h' ≡ h
    → s' ≡ s
    → AllInside w' h' s' ws
    → AllInside w h s ws
resized {w} {h} {s} {w'} {h'} {s'} ws e f g a =
    subst (λ (n : ℕ). AllInside n h s ws) e
      (subst (λ (n : ℕ). AllInside w' n s ws) f (subst (λ (n : ℕ). AllInside w' h' n ws) g a))

Wrote-AllInside :
    (value : ℕ) (t u : Writer)
    → (t.x < t.width) × (t.y < t.height)
    → Wrote value t u
    → AllInside t.width t.height t.stride t.dest
    → AllInside u.width u.height u.stride u.dest
unfolding Wrote
Wrote-AllInside value t u i ((w, h, s), inl e) a =
    resized u.dest (sym w) (sym h) (sym s) (subst (AllInside t.width t.height t.stride) (sym e) a)
Wrote-AllInside value t u i ((w, h, s), inr e) a = resized u.dest (sym w) (sym h) (sym s) (
    subst (AllInside t.width t.height t.stride) (sym e)
      (AllInside-append_one t.width t.height t.stride t.dest t.x t.y value a i.0 i.1))

-- Whatever the string, the size of the image and its pass, interlaced or not: every write, also of
-- those before, is at a column and a row of the image, if those before were.
pub write_string-AllInside :
    (values : List ℕ) (t : Writer)
    → AllInside t.width t.height t.stride t.dest
    → AllInside t.width t.height t.stride (write_string values t).dest
unfolding write_string Turn Wrote
write_string-AllInside [] t a = a
write_string-AllInside (value ∷ values) t a = elim (put-Turn value t) [
  | inl e ↦ rw (e, write_string) a
  | inr (u, e, i, c) ↦
      simp (e, write_string)
        (back u c (write_string-AllInside values u (Wrote-AllInside value t u i c a)))
]
  where
    back :
        (u : Writer)
        → Wrote value t u
        → AllInside u.width u.height u.stride (write_string values u).dest
        → AllInside t.width t.height t.stride (write_string values u).dest
    back u ((w, h, s), _) a = resized (write_string values u).dest w h s a
