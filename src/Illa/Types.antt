-- ===== src/Illa/Types.antt =====
-- illa/types.cpp: surface formats, and the rotation angles with their composition. A result `none`
-- is an exception.
pub mod Angles
use pictus.Base.{ℕ, Bool, true, false, Option, none, some}
use pictus.Orz.Geom.Size
use pictus.Orz.Geom.Size.{Size}

pub data Format : Type 0 where
  undefined argb8888 xrgb8888 argb1555 xrgb1555 rgb565 index8 num : Format

unfoldable pub estimate_pixel_size : Format → ℕ
estimate_pixel_size argb8888 = 4
estimate_pixel_size xrgb8888 = 4
estimate_pixel_size argb1555 = 2
estimate_pixel_size xrgb1555 = 2
estimate_pixel_size rgb565 = 2
estimate_pixel_size index8 = 1
estimate_pixel_size undefined = 0
estimate_pixel_size num = 0

unfoldable pub has_alpha : Format → Bool
has_alpha argb1555 = true
has_alpha argb8888 = true
has_alpha index8 = true
has_alpha undefined = false
has_alpha xrgb8888 = false
has_alpha xrgb1555 = false
has_alpha rgb565 = false
has_alpha num = false

pub data RotationAngle : Type 0 where
  rotate_default flip_x flip_y rotate_90 rotate_90_flip_y rotate_180 rotate_270 rotate_270_flip_y
        rotate_undefined :
      RotationAngle

unfoldable pub calculate_unzoomed_size : Size → RotationAngle → Size
unfolding Size.flipped
calculate_unzoomed_size dims rotate_90 = Size.flipped dims
calculate_unzoomed_size dims rotate_90_flip_y = Size.flipped dims
calculate_unzoomed_size dims rotate_270 = Size.flipped dims
calculate_unzoomed_size dims rotate_270_flip_y = Size.flipped dims
calculate_unzoomed_size dims rotate_default = dims
calculate_unzoomed_size dims flip_x = dims
calculate_unzoomed_size dims flip_y = dims
calculate_unzoomed_size dims rotate_180 = dims
calculate_unzoomed_size dims rotate_undefined = dims

infixl 5 ◌>>=◌
abbrev pub ◌>>=◌ {ℓ κ} : {A : Type ℓ} {B : Type κ} → Option A → (A → Option B) → Option B
none >>= f = none
some a >>= f = f a

unfoldable pub rotate_right : RotationAngle → Option RotationAngle
rotate_right rotate_default = some rotate_90
rotate_right flip_x = some rotate_90_flip_y
rotate_right flip_y = some rotate_270_flip_y
rotate_right rotate_90 = some rotate_180
rotate_right rotate_90_flip_y = some flip_y
rotate_right rotate_180 = some rotate_270
rotate_right rotate_270 = some rotate_default
rotate_right rotate_270_flip_y = some flip_x
rotate_right rotate_undefined = none

unfoldable pub rotate_left : RotationAngle → Option RotationAngle
unfolding rotate_right
rotate_left angle = rotate_right angle >>= rotate_right >>= rotate_right

unfoldable pub mirror : RotationAngle → Option RotationAngle
mirror rotate_default = some flip_x
mirror flip_x = some rotate_default
mirror flip_y = some rotate_180
mirror rotate_90 = some rotate_270_flip_y
mirror rotate_90_flip_y = some rotate_270
mirror rotate_180 = some flip_y
mirror rotate_270 = some rotate_90_flip_y
mirror rotate_270_flip_y = some rotate_90
mirror rotate_undefined = none

unfoldable pub flip : RotationAngle → Option RotationAngle
flip rotate_default = some flip_y
flip flip_x = some rotate_180
flip flip_y = some rotate_default
flip rotate_90 = some rotate_90_flip_y
flip rotate_90_flip_y = some rotate_90
flip rotate_180 = some flip_x
flip rotate_270 = some rotate_270_flip_y
flip rotate_270_flip_y = some rotate_270
flip rotate_undefined = none

-- The two angles of `Properties`.
pub record Properties : Type 0 where
  pub requested_angle : RotationAngle
  pub meta_angle : RotationAngle

unfoldable pub angle_for : RotationAngle → RotationAngle → Option RotationAngle
unfolding rotate_right rotate_left mirror flip
angle_for rotate_default m = some m
angle_for flip_x m = mirror m
angle_for flip_y m = flip m
angle_for rotate_90 m = rotate_right m
angle_for rotate_90_flip_y m = rotate_right m >>= flip
angle_for rotate_180 m = rotate_right m >>= rotate_right
angle_for rotate_270 m = rotate_left m
angle_for rotate_270_flip_y m = rotate_left m >>= flip
angle_for rotate_undefined m = none

unfoldable pub final_angle : Properties → Option RotationAngle
unfolding angle_for
final_angle p = angle_for p.requested_angle p.meta_angle
