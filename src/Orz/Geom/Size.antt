-- ===== src/Orz/Geom/Size.antt =====
-- The class `Size` of orz/geom.h, and the free functions on sizes.
use pictus.Base.{Bool, ◌&&◌, not}
use pictus.Base.Int.{ℤ, pos, ◌+ℤ◌, ◌-ℤ◌, ◌*ℤ◌, leb_ℤ, ltb_ℤ, min_ℤ, max_ℤ, eqb_ℤ}

pub record Size : Type 0 where
  pub width : ℤ
  pub height : ℤ

abbrev pub size : ℤ → ℤ → Size
size w h = record { width = w; height = h }

-- Size()
abbrev pub no_size : Size
no_size = size (pos 0) (pos 0)

unfoldable pub flipped : Size → Size
flipped s = size s.height s.width

unfoldable pub negated : Size → Size
unfolding ◌-ℤ◌
negated s = size (pos 0 -ℤ s.width) (pos 0 -ℤ s.height)

unfoldable pub add : Size → Size → Size
unfolding ◌+ℤ◌
add a b = size (a.width +ℤ b.width) (a.height +ℤ b.height)

unfoldable pub sub : Size → Size → Size
unfolding ◌-ℤ◌
sub a b = size (a.width -ℤ b.width) (a.height -ℤ b.height)

unfoldable pub scale : Size → ℤ → Size
unfolding ◌*ℤ◌
scale a k = size (a.width *ℤ k) (a.height *ℤ k)

unfoldable pub times : Size → Size → Size
unfolding ◌*ℤ◌
times a b = size (a.width *ℤ b.width) (a.height *ℤ b.height)

unfoldable pub eqb : Size → Size → Bool
eqb a b = eqb_ℤ a.width b.width && eqb_ℤ a.height b.height

unfoldable pub neb : Size → Size → Bool
unfolding eqb
neb a b = not (eqb a b)

unfoldable pub at_least_exclusive : Size → Size → Bool
at_least_exclusive s border = ltb_ℤ border.width s.width && ltb_ℤ border.height s.height

unfoldable pub at_least_inclusive : Size → Size → Bool
at_least_inclusive s border = leb_ℤ border.width s.width && leb_ℤ border.height s.height

unfoldable pub at_most : Size → Size → Bool
at_most a border = ltb_ℤ a.width border.width && ltb_ℤ a.height border.height

unfoldable pub maximum : Size → Size → Size
unfolding max_ℤ
maximum a b = size (max_ℤ a.width b.width) (max_ℤ a.height b.height)

unfoldable pub minimum : Size → Size → Size
unfolding min_ℤ
minimum a b = size (min_ℤ a.width b.width) (min_ℤ a.height b.height)

unfoldable pub constrain : Size → Size → Size → Size
unfolding maximum minimum
constrain lower x upper = minimum (maximum lower x) upper

unfoldable pub is_positive : Size → Bool
unfolding at_least_exclusive
is_positive s = at_least_exclusive s no_size

unfoldable pub is_zero_or_positive : Size → Bool
unfolding at_least_inclusive
is_zero_or_positive s = at_least_inclusive s no_size

unfoldable pub area : Size → ℤ
unfolding ◌*ℤ◌
area s = s.width *ℤ s.height

unfoldable pub area_non_zero : Size → Bool
area_non_zero s = ltb_ℤ (pos 0) s.width && ltb_ℤ (pos 0) s.height
