-- ===== src/Orz/Geom/Rect.antt =====
-- The class `Rect` of orz/geom.h, and `ClipSource`.
use pictus.Base.{Bool, ◌&&◌}
use pictus.Base.Int.{ℤ, pos, ◌+ℤ◌, ◌-ℤ◌, leb_ℤ, ltb_ℤ, min_ℤ, abs_ℤ}
use pictus.Orz.Geom.Size
use pictus.Orz.Geom.Size.{Size, size}
use pictus.Orz.Geom.Point
use pictus.Orz.Geom.Point.{Point, point, origin}

pub record Rect : Type 0 where
  pub top_left : Point
  pub dimensions : Size

abbrev pub rect : Point → Size → Rect
rect tl dims = record { top_left = tl; dimensions = dims }

-- Rect(Point, Point)
unfoldable pub between : Point → Point → Rect
unfolding ◌-ℤ◌ min_ℤ abs_ℤ
between p q =
    rect (point (min_ℤ p.x q.x) (min_ℤ p.y q.y)) (size (abs_ℤ (p.x -ℤ q.x)) (abs_ℤ (p.y -ℤ q.y)))

abbrev pub left : Rect → ℤ
left r = r.top_left.x

abbrev pub top : Rect → ℤ
top r = r.top_left.y

unfoldable pub right : Rect → ℤ
unfolding ◌+ℤ◌
right r = r.top_left.x +ℤ r.dimensions.width

unfoldable pub bottom : Rect → ℤ
unfolding ◌+ℤ◌
bottom r = r.top_left.y +ℤ r.dimensions.height

-- The setters move one edge: those of the left and the top move the whole rectangle.
unfoldable pub set_left : ℤ → Rect → Rect
set_left x r = record r { top_left = point x r.top_left.y }

unfoldable pub set_top : ℤ → Rect → Rect
set_top y r = record r { top_left = point r.top_left.x y }

unfoldable pub set_right : ℤ → Rect → Rect
unfolding ◌-ℤ◌
set_right nr r = record r { dimensions = size (nr -ℤ r.top_left.x) r.dimensions.height }

unfoldable pub set_bottom : ℤ → Rect → Rect
unfolding ◌-ℤ◌
set_bottom nb r = record r { dimensions = size r.dimensions.width (nb -ℤ r.top_left.y) }

unfoldable pub set_top_left : Point → Rect → Rect
set_top_left tl r = record r { top_left = tl }

unfoldable pub set_dimensions : Size → Rect → Rect
set_dimensions sz r = record r { dimensions = sz }

unfoldable pub top_right : Rect → Point
unfolding right
top_right r = point (right r) (top r)

unfoldable pub bottom_left : Rect → Point
unfolding bottom
bottom_left r = point (left r) (bottom r)

unfoldable pub bottom_right : Rect → Point
unfolding right bottom
bottom_right r = point (right r) (bottom r)

unfoldable pub set_bottom_right : Point → Rect → Rect
unfolding set_right set_bottom
set_bottom_right br r = set_right br.x (set_bottom br.y r)

unfoldable pub contains : Rect → Point → Bool
unfolding right bottom
contains r p =
    leb_ℤ (left r) p.x && ltb_ℤ p.x (right r) && leb_ℤ (top r) p.y && ltb_ℤ p.y (bottom r)

-- Contains(Rect)
unfoldable pub contains_rect : Rect → Rect → Bool
unfolding contains bottom_right Point.sub_size
contains_rect r q =
    contains r q.top_left && contains r (Point.sub_size (bottom_right q) (size (pos 1) (pos 1)))

unfoldable pub crop : Rect → Rect → Rect
unfolding set_bottom_right set_top_left bottom_right Point.maximum Point.minimum
crop r to_crop =
    set_bottom_right (Point.minimum (bottom_right to_crop) (bottom_right r))
      (set_top_left (Point.maximum to_crop.top_left r.top_left) to_crop)

unfoldable pub eqb : Rect → Rect → Bool
unfolding Size.eqb Point.eqb
eqb a b = Size.eqb a.dimensions b.dimensions && Point.eqb a.top_left b.top_left

-- The part of ClipSource that looks at the destination.
unfoldable pub clipped_source : Rect → Point → Point → Size → Rect
unfolding between bottom_right crop Point.sub Point.add_size Size.sub Point.sub_size
clipped_source destination_canvas destination_top_left source_top_left dims =
    let unclipped = rect destination_top_left dims in
    let clipper = between destination_top_left (bottom_right destination_canvas) in
    let clipped = crop clipper unclipped in
    let delta =
      rect (Point.add_size origin (Point.sub unclipped.top_left clipped.top_left))
        (Size.sub unclipped.dimensions clipped.dimensions) in
    rect (Point.add_size origin (Point.sub source_top_left delta.top_left))
      (Size.sub dims delta.dimensions)

unfoldable pub clip_source : Rect → Point → Rect → Point → Size → Rect
unfolding clipped_source crop
clip_source destination_canvas destination_top_left source_canvas source_top_left dims =
    crop (clipped_source destination_canvas destination_top_left source_top_left dims) source_canvas
