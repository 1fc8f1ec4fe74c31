-- ===== src/Illa/Rotate.antt =====
-- filter_rotatefixed.cpp: the fixed rotations of a region of a buffer into a buffer. A buffer is the
-- function from the column and the row to the pixel; the strides keep the rows apart. Source and
-- destination are one buffer (in place), or share no pixel.
pub mod Loops
pub mod Placed
use pictus.Base.{
  ℕ, zero, suc, ◌+◌, ◌-◌, ◌/◌, ◌==◌, Bool, true, false, ◌&&◌, not, ltb, leb, if◌then◌else◌,
}
use pictus.Illa.Types.{
  RotationAngle, rotate_default, flip_x, flip_y, rotate_90, rotate_90_flip_y, rotate_180,
  rotate_270, rotate_270_flip_y, rotate_undefined,
}

abbrev pub Buffer : Type 0
Buffer = ℕ → ℕ → ℕ

unfoldable pub put : ℕ → ℕ → ℕ → Buffer → Buffer
put x y v c = λ a b. if a == x && b == y then v else c a b

-- The turns 0, 1, …, n - 1 of a loop.
unfoldable pub for_each : ℕ → (ℕ → Buffer → Buffer) → Buffer → Buffer
for_each zero body c = c
for_each (suc n) body c = body n (for_each n body c)

pub record Region : Type 0 where
  pub left : ℕ
  pub top : ℕ
  pub width : ℕ
  pub height : ℕ

-- `std::swap` of two pixels.
unfoldable pub swap : ℕ → ℕ → ℕ → Buffer → Buffer
unfolding put
swap x z y c = put z y (c x y) (put x y (c z y) c)

unfoldable pub mirror_in_place : Region → Buffer → Buffer
unfolding for_each swap
mirror_in_place r =
    for_each r.height
      (λ y. for_each (r.width / 2) (λ x. swap (r.left + x) (r.left + r.width - 1 - x) (r.top + y)))

unfoldable pub mirror_between : Region → ℕ → ℕ → Buffer → Buffer → Buffer
unfolding for_each put
mirror_between r dest_x dest_y source = for_each r.height (λ y.
    for_each r.width
      (λ x. put (dest_x + r.width - 1 - x) (dest_y + y) (source (r.left + x) (r.top + y))))

-- `memcpy` of the `n` pixels from a column of a row on, to a row of a buffer.
unfoldable pub copy_row : ℕ → ℕ → ℕ → ℕ → ℕ → Buffer → Buffer → Buffer
copy_row n from_x from_y to_x to_y source c = λ a b.
    if b == to_y && leb to_x a && ltb a (to_x + n)
    then source (from_x + (a - to_x)) from_y
    else c a b

-- The two rows change places by way of `pRow`.
unfoldable pub swap_rows : Region → ℕ → ℕ → Buffer → Buffer
unfolding copy_row
swap_rows r y z c = copy_row r.width r.left y r.left z c (copy_row r.width r.left z r.left y c c)

unfoldable pub flip_in_place : Region → Buffer → Buffer
unfolding for_each swap_rows
flip_in_place r = for_each (r.height / 2) (λ i. swap_rows r (r.top + i) (r.top + r.height - 1 - i))

unfoldable pub flip_between : Region → ℕ → ℕ → Buffer → Buffer → Buffer
unfolding for_each copy_row
flip_between r dest_x dest_y source =
    for_each r.height
      (λ y. copy_row r.width r.left (r.top + y) dest_x (dest_y + r.height - 1 - y) source)

unfoldable pub rot90 : Region → ℕ → ℕ → Buffer → Buffer → Buffer
unfolding for_each put
rot90 r dest_x dest_y source = for_each r.height (λ y.
    for_each r.width
      (λ x. put (dest_x + (r.height - y - 1)) (dest_y + x) (source (r.left + x) (r.top + y))))

unfoldable pub rot270 : Region → ℕ → ℕ → Buffer → Buffer → Buffer
unfolding for_each put
rot270 r dest_x dest_y source = for_each r.height (λ y.
    for_each r.width
      (λ x. put (dest_x + y) (dest_y + (r.width - x - 1)) (source (r.left + x) (r.top + y))))

-- The destination afterwards, or Err::InvalidParam.
pub data Result : Type 0 where
  ok : Buffer → Result
  invalid_param : Result

abbrev then_do : Result → (Buffer → Result) → Result
then_do (ok c) f = f c
then_do invalid_param f = invalid_param

-- The buffers are one, or two; if they are one, the source is what the destination holds.
pub data Buffers : Type 0 where
  same : Buffer → Buffers
  apart : Buffer → Buffer → Buffers

abbrev pub is_at : Region → ℕ → ℕ → Bool
is_at r dest_x dest_y = r.left == dest_x && r.top == dest_y

unfoldable pub mirror : Buffers → Region → ℕ → ℕ → Result
unfolding mirror_in_place mirror_between
mirror (same c) r dest_x dest_y =
    if is_at r dest_x dest_y then ok (mirror_in_place r c) else invalid_param
mirror (apart source dest) r dest_x dest_y = ok (mirror_between r dest_x dest_y source dest)

unfoldable pub flip : Buffers → Region → ℕ → ℕ → Result
unfolding flip_in_place flip_between
flip (same c) r dest_x dest_y =
    if is_at r dest_x dest_y then ok (flip_in_place r c) else invalid_param
flip (apart source dest) r dest_x dest_y = ok (flip_between r dest_x dest_y source dest)

abbrev between : (Buffer → Buffer → Buffer) → Buffers → Result
between f (same c) = invalid_param
between f (apart source dest) = ok (f source dest)

-- RotateFixed, of buffers that are not null.
unfoldable pub rotate_fixed : Buffers → Region → ℕ → ℕ → RotationAngle → Result
unfolding mirror flip rot90 rot270
rotate_fixed (same c) r dest_x dest_y rotate_default = ok c
rotate_fixed (apart source dest) r dest_x dest_y rotate_default = invalid_param
rotate_fixed bs r dest_x dest_y flip_x = mirror bs r dest_x dest_y
rotate_fixed bs r dest_x dest_y flip_y = flip bs r dest_x dest_y
rotate_fixed bs r dest_x dest_y rotate_90 = between (rot90 r dest_x dest_y) bs
rotate_fixed bs r dest_x dest_y rotate_180 =
    then_do (mirror bs r dest_x dest_y)
      (λ c. flip (same c) (record r { left = dest_x; top = dest_y }) dest_x dest_y)
rotate_fixed bs r dest_x dest_y rotate_270 = between (rot270 r dest_x dest_y) bs
rotate_fixed bs r dest_x dest_y rotate_90_flip_y = invalid_param
rotate_fixed bs r dest_x dest_y rotate_270_flip_y = invalid_param
rotate_fixed bs r dest_x dest_y rotate_undefined = invalid_param

abbrev pub is_inplace : RotationAngle → Bool
is_inplace rotate_default = true
is_inplace flip_x = true
is_inplace flip_y = true
is_inplace rotate_180 = true
is_inplace _ = false

-- QuerySizeRotateFixed: the width and the height that the destination needs, and whether it may be the
-- source.
abbrev pub query_size : RotationAngle → ℕ → ℕ → ℕ × ℕ × Bool
query_size rotate_default width height = (width, height, true)
query_size flip_x width height = (width, height, true)
query_size flip_y width height = (width, height, true)
query_size rotate_180 width height = (width, height, true)
query_size _ width height = (height, width, false)
