-- ===== src/Orz/Geom/Point.antt =====
-- The class `Point` of orz/geom.h, and the free functions on points.
use pictus.Base.{Bool, ◌&&◌, not}
use pictus.Base.Int.{ℤ, pos, ◌+ℤ◌, ◌-ℤ◌, ◌*ℤ◌, leb_ℤ, ltb_ℤ, min_ℤ, max_ℤ, eqb_ℤ}
use pictus.Orz.Geom.Size.{Size, size}

pub record Point : Type 0 where
  pub x : ℤ
  pub y : ℤ

abbrev pub point : ℤ → ℤ → Point
point x y = record { x = x; y = y }

-- Point()
abbrev pub origin : Point
origin = point (pos 0) (pos 0)

unfoldable pub flipped : Point → Point
flipped p = point p.y p.x

unfoldable pub scale : Point → ℤ → Point
unfolding ◌*ℤ◌
scale p k = point (p.x *ℤ k) (p.y *ℤ k)

unfoldable pub times : Point → Size → Point
unfolding ◌*ℤ◌
times p s = point (p.x *ℤ s.width) (p.y *ℤ s.height)

unfoldable pub add : Point → Point → Point
unfolding ◌+ℤ◌
add p q = point (p.x +ℤ q.x) (p.y +ℤ q.y)

unfoldable pub add_size : Point → Size → Point
unfolding ◌+ℤ◌
add_size p s = point (p.x +ℤ s.width) (p.y +ℤ s.height)

-- The difference of two points is a size.
unfoldable pub sub : Point → Point → Size
unfolding ◌-ℤ◌
sub p q = size (p.x -ℤ q.x) (p.y -ℤ q.y)

unfoldable pub sub_size : Point → Size → Point
unfolding ◌-ℤ◌
sub_size p s = point (p.x -ℤ s.width) (p.y -ℤ s.height)

unfoldable pub negated : Point → Point
unfolding ◌-ℤ◌
negated p = point (pos 0 -ℤ p.x) (pos 0 -ℤ p.y)

unfoldable pub eqb : Point → Point → Bool
eqb p q = eqb_ℤ p.x q.x && eqb_ℤ p.y q.y

unfoldable pub neb : Point → Point → Bool
unfolding eqb
neb p q = not (eqb p q)

unfoldable pub at_least_exclusive : Point → Point → Bool
at_least_exclusive p border = ltb_ℤ border.x p.x && ltb_ℤ border.y p.y

unfoldable pub at_least_inclusive : Point → Point → Bool
at_least_inclusive p border = leb_ℤ border.x p.x && leb_ℤ border.y p.y

unfoldable pub at_most_exclusive : Point → Point → Bool
at_most_exclusive p border = ltb_ℤ p.x border.x && ltb_ℤ p.y border.y

unfoldable pub at_most_inclusive : Point → Point → Bool
at_most_inclusive p border = leb_ℤ p.x border.x && leb_ℤ p.y border.y

unfoldable pub maximum : Point → Point → Point
unfolding max_ℤ
maximum p q = point (max_ℤ p.x q.x) (max_ℤ p.y q.y)

unfoldable pub minimum : Point → Point → Point
unfolding min_ℤ
minimum p q = point (min_ℤ p.x q.x) (min_ℤ p.y q.y)

unfoldable pub constrain : Point → Point → Point → Point
unfolding maximum minimum
constrain lower p upper = minimum (maximum lower p) upper
