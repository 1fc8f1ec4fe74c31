-- ===== src/Illa/Rotate/Placed.antt =====
-- What RotateFixed of filter_rotatefixed.cpp does to every pixel of the destination.
use pictus.Base.{
  ℕ, ◌+◌, ◌-◌, ◌/◌, ◌<◌, ◌≡◌, refl, ◌∙◌, subst, arith, ◌==◌, Bool, true, false, ◌&&◌, ltb, leb,
}
use pictus.Illa.Types.{
  RotationAngle, rotate_default, flip_x, flip_y, rotate_90, rotate_90_flip_y, rotate_180,
  rotate_270, rotate_270_flip_y, rotate_undefined,
}
use pictus.Illa.Types.Angles.{Pixel, place}
use pictus.Illa.Rotate.{
  Buffer, Region, ok, Buffers, same, apart, rotate_fixed, query_size, is_inplace, mirror, flip,
  mirror_in_place, mirror_between, flip_in_place, flip_between, rot90, rot270, is_at,
}
use pictus.Illa.Rotate.Loops.{
  mirrored, flipped, turned_right, turned_left, mirrored_in_place, flipped_in_place,
}

-- The pixels of the source before the call, and those of the destination.
abbrev pub source : Buffers → Buffer
source (same c) = c
source (apart s d) = s

abbrev pub destination : Buffers → Buffer
destination (same c) = c
destination (apart s d) = d

abbrev pub pixel : Region → ℕ → ℕ → Pixel
pixel r x y = record { width = r.width; height = r.height; x = x; y = y }

-- Every pixel of the region is where the angle takes it, and all pixels outside of the area at the
-- position that has the size of QuerySizeRotateFixed are as before.
pub record IsPlaced (angle : RotationAngle) (r : Region) (dx dy : ℕ) (bs : Buffers) (c : Buffer)
    : Type 0 where
  pub inside :
      (x y : ℕ)
      → x < r.width
      → y < r.height
      → c (dx + (place angle (pixel r x y)).x) (dy + (place angle (pixel r x y)).y)
        ≡ source bs (r.left + x) (r.top + y)
  pub outside :
      (a b : ℕ)
      → (leb dx a
          && ltb a (dx + (query_size angle r.width r.height).0)
          && leb dy b
          && ltb b (dy + (query_size angle r.width r.height).1))
        ≡ false
      → c a b ≡ destination bs a b

mirror_between-IsPlaced :
    (r : Region) (dx dy : ℕ) (s d : Buffer)
    → IsPlaced flip_x r dx dy (apart s d) (mirror_between r dx dy s d)
unfolding mirror_between
mirror_between-IsPlaced r dx dy s d = record {
  inside = λ x y h k.
      let e = mirrored r.width r.height r.left r.top dx dy s d (dx + (r.width - 1 - x)) (dy + y) in
      ground arith;
  outside = λ a b o. let e = mirrored r.width r.height r.left r.top dx dy s d a b in ground arith;
}

mirror_in_place-IsPlaced :
    (r : Region) (c : Buffer) → IsPlaced flip_x r r.left r.top (same c) (mirror_in_place r c)
unfolding mirror_in_place
mirror_in_place-IsPlaced r c = record {
  inside = λ x y h k.
      let e =
        mirrored_in_place r.width (r.width / 2) r.height r.left r.top c (r.left + (r.width - 1 - x))
          (r.top + y) refl in
      ground arith;
  outside = λ a b o.
      let e = mirrored_in_place r.width (r.width / 2) r.height r.left r.top c a b refl in
      ground arith;
}

flip_between-IsPlaced :
    (r : Region) (dx dy : ℕ) (s d : Buffer)
    → IsPlaced flip_y r dx dy (apart s d) (flip_between r dx dy s d)
unfolding flip_between
flip_between-IsPlaced r dx dy s d = record {
  inside = λ x y h k.
      let e =
        flipped r.width r.height r.height r.left r.top dx dy s d (dx + x) (dy + (r.height - 1 - y))
          (omega arith) in
      ground arith;
  outside = λ a b o.
      let e = flipped r.width r.height r.height r.left r.top dx dy s d a b (omega arith) in
      ground arith;
}

flip_in_place-IsPlaced :
    (r : Region) (c : Buffer) → IsPlaced flip_y r r.left r.top (same c) (flip_in_place r c)
unfolding flip_in_place
flip_in_place-IsPlaced r c = record {
  inside = λ x y h k.
      let e =
        flipped_in_place r (r.height / 2) c (r.left + x) (r.top + (r.height - 1 - y))
          (omega arith) in
      ground arith;
  outside = λ a b o. let e = flipped_in_place r (r.height / 2) c a b (omega arith) in ground arith;
}

rot90-IsPlaced :
    (r : Region) (dx dy : ℕ) (s d : Buffer)
    → IsPlaced rotate_90 r dx dy (apart s d) (rot90 r dx dy s d)
unfolding rot90
rot90-IsPlaced r dx dy s d = record {
  inside = λ x y h k.
      let e =
        turned_right r.width r.height r.height r.left r.top dx dy s d (dx + (r.height - 1 - y))
          (dy + x) (omega arith) in
      ground arith;
  outside = λ a b o.
      let e = turned_right r.width r.height r.height r.left r.top dx dy s d a b (omega arith) in
      ground arith;
}

rot270-IsPlaced :
    (r : Region) (dx dy : ℕ) (s d : Buffer)
    → IsPlaced rotate_270 r dx dy (apart s d) (rot270 r dx dy s d)
unfolding rot270
rot270-IsPlaced r dx dy s d = record {
  inside = λ x y h k.
      let e =
        turned_left r.width r.height r.left r.top dx dy s d (dx + y) (dy + (r.width - 1 - x)) in
      ground arith;
  outside =
      λ a b o. let e = turned_left r.width r.height r.left r.top dx dy s d a b in ground arith;
}

-- A mirrored region that is then flipped where it is.
both-IsPlaced :
    (r : Region) (dx dy : ℕ) (bs : Buffers) (c : Buffer)
    → IsPlaced flip_x r dx dy bs c
    → IsPlaced rotate_180 r dx dy bs (flip_in_place (record r { left = dx; top = dy }) c)
both-IsPlaced r dx dy bs c m =
    let f = flip_in_place-IsPlaced (record r { left = dx; top = dy }) c in
    record {
      inside = λ x y h k. f.inside (r.width - 1 - x) y (omega arith) k ∙ m.inside x y h k;
      outside = λ a b o. f.outside a b o ∙ m.outside a b o;
    }

-- The calls that RotateFixed carries out: in place, those that IsInplace names, where the region is.
abbrev pub is_supported : Buffers → Region → ℕ → ℕ → RotationAngle → Bool
is_supported (same c) r dx dy angle = is_inplace angle && is_at r dx dy
is_supported (apart s d) r dx dy flip_x = true
is_supported (apart s d) r dx dy flip_y = true
is_supported (apart s d) r dx dy rotate_90 = true
is_supported (apart s d) r dx dy rotate_180 = true
is_supported (apart s d) r dx dy rotate_270 = true
is_supported _ r dx dy _ = false

refl_at : (dx dy : ℕ) → ((dx == dx) && (dy == dy)) ≡ true
refl_at dx dy = ground arith

moved :
    (angle : RotationAngle) (r : Region) (dx dy : ℕ) (bs : Buffers) (c : Buffer)
    → is_at r dx dy ≡ true
    → IsPlaced angle r r.left r.top bs c
    → IsPlaced angle r dx dy bs c
moved angle r dx dy bs c e p =
    let x : r.left ≡ dx = ground arith in
    let y : r.top ≡ dy = ground arith in
    subst (λ u. IsPlaced angle r u dy bs c) x (subst (λ v. IsPlaced angle r r.left v bs c) y p)

abbrev pub IsDone : Buffers → Region → ℕ → ℕ → RotationAngle → Type 0
IsDone bs r dx dy angle =
    (c : Buffer) × (rotate_fixed bs r dx dy angle ≡ ok c) × IsPlaced angle r dx dy bs c

-- For any region of any buffers, at any position: where the call is supported, RotateFixed raises nothing,
-- takes every pixel of the region to where the angle takes it, and keeps all pixels outside of the
-- area at the position that has the size of QuerySizeRotateFixed.
pub rotate_fixed-IsPlaced :
    (bs : Buffers) (r : Region) (dx dy : ℕ) (angle : RotationAngle)
    → is_supported bs r dx dy angle ≡ true
    → IsDone bs r dx dy angle
unfolding rotate_fixed mirror flip
rotate_fixed-IsPlaced (same c) r dx dy rotate_default h =
    (c, refl, record { inside = λ x y i j. ground arith; outside = λ a b o. refl })
rotate_fixed-IsPlaced (same c) r dx dy flip_x h = (
  mirror_in_place r c,
  rw h refl,
  moved flip_x r dx dy (same c) (mirror_in_place r c) h (mirror_in_place-IsPlaced r c),
)
rotate_fixed-IsPlaced (same c) r dx dy flip_y h = (
  flip_in_place r c,
  rw h refl,
  moved flip_y r dx dy (same c) (flip_in_place r c) h (flip_in_place-IsPlaced r c),
)
rotate_fixed-IsPlaced (same c) r dx dy rotate_180 h = (
  flip_in_place (record r { left = dx; top = dy }) (mirror_in_place r c),
  rw (h, refl_at dx dy) refl,
  both-IsPlaced r dx dy (same c) (mirror_in_place r c)
      (moved flip_x r dx dy (same c) (mirror_in_place r c) h (mirror_in_place-IsPlaced r c)),
)
rotate_fixed-IsPlaced (same c) r dx dy rotate_90 h = absurd (ground arith)
rotate_fixed-IsPlaced (same c) r dx dy rotate_270 h = absurd (ground arith)
rotate_fixed-IsPlaced (same c) r dx dy rotate_90_flip_y h = absurd (ground arith)
rotate_fixed-IsPlaced (same c) r dx dy rotate_270_flip_y h = absurd (ground arith)
rotate_fixed-IsPlaced (same c) r dx dy rotate_undefined h = absurd (ground arith)
rotate_fixed-IsPlaced (apart s d) r dx dy flip_x h =
    (mirror_between r dx dy s d, refl, mirror_between-IsPlaced r dx dy s d)
rotate_fixed-IsPlaced (apart s d) r dx dy flip_y h =
    (flip_between r dx dy s d, refl, flip_between-IsPlaced r dx dy s d)
rotate_fixed-IsPlaced (apart s d) r dx dy rotate_90 h =
    (rot90 r dx dy s d, refl, rot90-IsPlaced r dx dy s d)
rotate_fixed-IsPlaced (apart s d) r dx dy rotate_180 h = (
  flip_in_place (record r { left = dx; top = dy }) (mirror_between r dx dy s d),
  rw (refl_at dx dy) refl,
  both-IsPlaced r dx dy (apart s d) (mirror_between r dx dy s d)
      (mirror_between-IsPlaced r dx dy s d),
)
rotate_fixed-IsPlaced (apart s d) r dx dy rotate_270 h =
    (rot270 r dx dy s d, refl, rot270-IsPlaced r dx dy s d)
rotate_fixed-IsPlaced (apart s d) r dx dy rotate_default h = absurd (ground arith)
rotate_fixed-IsPlaced (apart s d) r dx dy rotate_90_flip_y h = absurd (ground arith)
rotate_fixed-IsPlaced (apart s d) r dx dy rotate_270_flip_y h = absurd (ground arith)
rotate_fixed-IsPlaced (apart s d) r dx dy rotate_undefined h = absurd (ground arith)
