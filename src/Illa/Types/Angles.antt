-- ===== src/Illa/Types/Angles.antt =====
-- What an angle does to the pixels of an image.
use pictus.Base.{ℕ, ◌-◌, ◌<◌, ◌≡◌, refl, ap, ◌∙◌, arith, Option, some, Bool, true, false}
use pictus.Illa.Types.{
  RotationAngle, rotate_default, flip_x, flip_y, rotate_90, rotate_90_flip_y, rotate_180,
  rotate_270, rotate_270_flip_y, rotate_undefined, rotate_right, rotate_left, mirror, flip,
  angle_for, ◌>>=◌,
}

-- An image with the size that an angle gives it, and a pixel of it.
pub record Pixel : Type 0 where
  pub width : ℕ
  pub height : ℕ
  pub x : ℕ
  pub y : ℕ

-- Where a pixel of an image is, after the image was turned or flipped.
abbrev pub place : RotationAngle → Pixel → Pixel
place rotate_default p = p
place flip_x p = record p { x = p.width - 1 - p.x }
place flip_y p = record p { y = p.height - 1 - p.y }
place rotate_90 p = record { width = p.height; height = p.width; x = p.height - 1 - p.y; y = p.x }
place rotate_90_flip_y p = record {
  width = p.height;
  height = p.width;
  x = p.height - 1 - p.y;
  y = p.width - 1 - p.x;
}
place rotate_180 p = record p { x = p.width - 1 - p.x; y = p.height - 1 - p.y }
place rotate_270 p = record { width = p.height; height = p.width; x = p.y; y = p.width - 1 - p.x }
place rotate_270_flip_y p = record { width = p.height; height = p.width; x = p.y; y = p.x }
place rotate_undefined p = p

abbrev pub IsInside : Pixel → Type 0
IsInside p = (p.x < p.width) × (p.y < p.height)

abbrev pub is_defined : RotationAngle → Bool
is_defined rotate_default = true
is_defined flip_x = true
is_defined flip_y = true
is_defined rotate_90 = true
is_defined rotate_90_flip_y = true
is_defined rotate_180 = true
is_defined rotate_270 = true
is_defined rotate_270_flip_y = true
is_defined rotate_undefined = false

-- The result of `f` at `m` is the angle that first does `m` and then `g`.
abbrev Composes : (RotationAngle → Option RotationAngle) → (Pixel → Pixel) → RotationAngle → Type 0
Composes f g m =
    (a : RotationAngle) × (f m ≡ some a)
    × (is_defined a ≡ true)
    × ((p : Pixel) → IsInside p → place a p ≡ g (place m p))

rotate_right-Composes :
    (m : RotationAngle) → is_defined m ≡ true → Composes rotate_right (place rotate_90) m
unfolding rotate_right
rotate_right-Composes rotate_default h = (rotate_90, refl, refl, λ p i. ground arith)
rotate_right-Composes flip_x h = (rotate_90_flip_y, refl, refl, λ p i. ground arith)
rotate_right-Composes flip_y h = (rotate_270_flip_y, refl, refl, λ p i. ground arith)
rotate_right-Composes rotate_90 h = (rotate_180, refl, refl, λ p i. ground arith)
rotate_right-Composes rotate_90_flip_y h = (flip_y, refl, refl, λ p i. ground arith)
rotate_right-Composes rotate_180 h = (rotate_270, refl, refl, λ p i. ground arith)
rotate_right-Composes rotate_270 h = (rotate_default, refl, refl, λ p i. ground arith)
rotate_right-Composes rotate_270_flip_y h = (flip_x, refl, refl, λ p i. ground arith)
rotate_right-Composes rotate_undefined h = cc

mirror-Composes : (m : RotationAngle) → is_defined m ≡ true → Composes mirror (place flip_x) m
unfolding mirror
mirror-Composes rotate_default h = (flip_x, refl, refl, λ p i. ground arith)
mirror-Composes flip_x h = (rotate_default, refl, refl, λ p i. ground arith)
mirror-Composes flip_y h = (rotate_180, refl, refl, λ p i. ground arith)
mirror-Composes rotate_90 h = (rotate_270_flip_y, refl, refl, λ p i. ground arith)
mirror-Composes rotate_90_flip_y h = (rotate_270, refl, refl, λ p i. ground arith)
mirror-Composes rotate_180 h = (flip_y, refl, refl, λ p i. ground arith)
mirror-Composes rotate_270 h = (rotate_90_flip_y, refl, refl, λ p i. ground arith)
mirror-Composes rotate_270_flip_y h = (rotate_90, refl, refl, λ p i. ground arith)
mirror-Composes rotate_undefined h = cc

flip-Composes : (m : RotationAngle) → is_defined m ≡ true → Composes flip (place flip_y) m
unfolding flip
flip-Composes rotate_default h = (flip_y, refl, refl, λ p i. ground arith)
flip-Composes flip_x h = (rotate_180, refl, refl, λ p i. ground arith)
flip-Composes flip_y h = (rotate_default, refl, refl, λ p i. ground arith)
flip-Composes rotate_90 h = (rotate_90_flip_y, refl, refl, λ p i. ground arith)
flip-Composes rotate_90_flip_y h = (rotate_90, refl, refl, λ p i. ground arith)
flip-Composes rotate_180 h = (flip_x, refl, refl, λ p i. ground arith)
flip-Composes rotate_270 h = (rotate_270_flip_y, refl, refl, λ p i. ground arith)
flip-Composes rotate_270_flip_y h = (rotate_270, refl, refl, λ p i. ground arith)
flip-Composes rotate_undefined h = cc

-- Two steps, one behind the other.
then_Composes :
    (f k : RotationAngle → Option RotationAngle) (g j : Pixel → Pixel) (m : RotationAngle)
    → Composes f g m
    → ((a : RotationAngle) → is_defined a ≡ true → Composes k j a)
    → Composes (λ a. f a >>= k) (λ p. j (g p)) m
then_Composes f k g j m (a, e, d, h) next =
    let (b, e', d', h') = next a d in (b, rw e e', d', λ p i. h' p i ∙ ap j (h p i))

place-IsInside : (m : RotationAngle) (p : Pixel) → IsInside p → IsInside (place m p)
place-IsInside rotate_default p i = i
place-IsInside flip_x p i = omega arith
place-IsInside flip_y p i = omega arith
place-IsInside rotate_90 p i = omega arith
place-IsInside rotate_90_flip_y p i = omega arith
place-IsInside rotate_180 p i = omega arith
place-IsInside rotate_270 p i = omega arith
place-IsInside rotate_270_flip_y p i = omega arith
place-IsInside rotate_undefined p i = i

three_turns :
    (p : Pixel)
    → IsInside p
    → place rotate_90 (place rotate_90 (place rotate_90 p)) ≡ place rotate_270 p
three_turns p i = ground arith

fourth_flip :
    (p : Pixel) → IsInside p → place flip_y (place rotate_270 p) ≡ place rotate_270_flip_y p
fourth_flip p i = ground arith

rotate_left-Composes :
    (m : RotationAngle) → is_defined m ≡ true → Composes rotate_left (place rotate_270) m
unfolding rotate_left
rotate_left-Composes m h =
    let (a, e, d, s) =
      then_Composes (λ (k : RotationAngle). rotate_right k >>= rotate_right) rotate_right
        (λ p. place rotate_90 (place rotate_90 p)) (place rotate_90) m
        (then_Composes rotate_right rotate_right (place rotate_90) (place rotate_90) m
          (rotate_right-Composes m h) rotate_right-Composes)
        rotate_right-Composes in
    (a, e, d, λ p i. s p i ∙ three_turns (place m p) (place-IsInside m p i))

-- The angle that the code finds for a requested angle and that of the metadata is the one that
-- turns as the metadata says and then as requested, for every pixel of every image.
pub angle_for-Composes :
    (r m : RotationAngle)
    → is_defined r ≡ true
    → is_defined m ≡ true
    → Composes (angle_for r) (place r) m
unfolding angle_for
angle_for-Composes rotate_default m h k = (m, refl, k, λ p i. refl)
angle_for-Composes flip_x m h k = mirror-Composes m k
angle_for-Composes flip_y m h k = flip-Composes m k
angle_for-Composes rotate_90 m h k = rotate_right-Composes m k
angle_for-Composes rotate_90_flip_y m h k =
    then_Composes rotate_right flip (place rotate_90) (place flip_y) m (rotate_right-Composes m k)
      flip-Composes
angle_for-Composes rotate_180 m h k =
    let (a, e, d, s) =
      then_Composes rotate_right rotate_right (place rotate_90) (place rotate_90) m
        (rotate_right-Composes m k) rotate_right-Composes in
    (a, e, d, λ p i. s p i)
angle_for-Composes rotate_270 m h k = rotate_left-Composes m k
angle_for-Composes rotate_270_flip_y m h k =
    let (a, e, d, s) =
      then_Composes rotate_left flip (place rotate_270) (place flip_y) m (rotate_left-Composes m k)
        flip-Composes in
    (a, e, d, λ p i. s p i ∙ fourth_flip (place m p) (place-IsInside m p i))
angle_for-Composes rotate_undefined m h k = cc
