-- ===== src/Orz/Geom/Clip.antt =====
-- What is in a cropped rectangle, and where the points of a clipped source land.
use pictus.Base.{Bool, true, ◌&&◌, ◌≡◌, refl, ap, arith, ◌∙◌, sym}
use pictus.Base.Int.{
  ℤ, pos, ◌+ℤ◌, ◌-ℤ◌, leb_ℤ, ltb_ℤ, min_ℤ, max_ℤ, abs_ℤ, max_ℤ_le, lt_min_ℤ, add_sub_cancel,
  int_laws, +ℤ_parts, -ℤ_parts,
}
use pictus.Orz.Geom.Size
use pictus.Orz.Geom.Size.{Size, size}
use pictus.Orz.Geom.Point
use pictus.Orz.Geom.Point.{Point, point}
use pictus.Orz.Geom.Rect
use pictus.Orz.Geom.Rect.{Rect, rect}

-- The tests on the edges of two rectangles, edge by edge or rectangle by rectangle.
by_rect :
    (a b c d e f g h : Bool)
    → ((a && b) && (c && d) && (e && f) && (g && h)) ≡ ((b && d && f && h) && (a && c && e && g))
by_rect a b c d e f g h = ground arith

-- Crop is the intersection: it contains the points that both rectangles contain, and no others.
pub contains-crop :
    (r q : Rect) (p : Point)
    → Rect.contains (Rect.crop r q) p ≡ (Rect.contains r p && Rect.contains q p)
unfolding Rect.contains Rect.crop Rect.right Rect.bottom Rect.bottom_right Rect.set_bottom_right
    Rect.set_right Rect.set_bottom Rect.set_top_left Point.maximum Point.minimum
contains-crop r q p =
    simp (add_sub_cancel, max_ℤ_le, lt_min_ℤ)
      (by_rect (leb_ℤ (Rect.left q) p.x) (leb_ℤ (Rect.left r) p.x) (ltb_ℤ p.x (Rect.right q))
        (ltb_ℤ p.x (Rect.right r)) (leb_ℤ (Rect.top q) p.y) (leb_ℤ (Rect.top r) p.y)
        (ltb_ℤ p.y (Rect.bottom q)) (ltb_ℤ p.y (Rect.bottom r)))

max-min : (a b : ℤ) → max_ℤ a (min_ℤ a b) ≡ a
unfolding max_ℤ min_ℤ
max-min a b = ground arith

far_edge : (a b : ℤ) → min_ℤ a b +ℤ abs_ℤ (a -ℤ b) ≡ max_ℤ a b
unfolding max_ℤ min_ℤ abs_ℤ
far_edge a b = ground (arith, -ℤ_parts a b, +ℤ_parts (min_ℤ a b) (abs_ℤ (a -ℤ b)))

no_move : (a b : ℤ) → pos 0 +ℤ (a -ℤ (pos 0 +ℤ (b -ℤ b))) ≡ a
no_move a b = omega int_laws

sub-sub : (a b : ℤ) → a -ℤ (a -ℤ b) ≡ b
sub-sub a b = omega int_laws

-- The far edge of the part that is left, seen from its near edge `d`.
abbrev room : ℤ → ℤ → ℤ → ℤ
room d far w = min_ℤ (d +ℤ w) (max_ℤ d far) -ℤ d

-- Before the source canvas is looked at, only the far edges have moved.
clipped_source_lem :
    (c : Rect) (d s : Point) (dims : Size)
    → Rect.clipped_source c d s dims
      ≡ rect s (size (room d.x (Rect.right c) dims.width) (room d.y (Rect.bottom c) dims.height))
unfolding Rect.clipped_source Rect.crop Rect.between Rect.right Rect.bottom Rect.bottom_right
    Rect.set_bottom_right Rect.set_right Rect.set_bottom Rect.set_top_left Point.maximum
    Point.minimum Point.sub Point.add_size Point.sub_size Size.sub
clipped_source_lem c d s dims = simp (max-min, far_edge, no_move, sub-sub) refl

-- Where a point of the source is placed in the destination.
abbrev pub landing : Point → Point → Point → Point
landing d s p = Point.add_size d (Point.sub p s)

-- One axis: from the near edge `s`, a part of the length that is left.
lands :
    (d far w s p : ℤ)
    → ltb_ℤ d far ≡ true
    → leb_ℤ s p ≡ true
    → ltb_ℤ p (s +ℤ room d far w) ≡ true
    → (leb_ℤ d (d +ℤ (p -ℤ s)) ≡ true) × (ltb_ℤ (d +ℤ (p -ℤ s)) far ≡ true)
unfolding max_ℤ min_ℤ
lands d far w s p h near below = ground (
  arith,
  +ℤ_parts s (room d far w),
  -ℤ_parts (min_ℤ (d +ℤ w) (max_ℤ d far)) d,
  +ℤ_parts d w,
  +ℤ_parts d (p -ℤ s),
  -ℤ_parts p s,
)

and_split : (a b : Bool) → (a && b) ≡ true → (a ≡ true) × (b ≡ true)
and_split a b h = ground arith

pub inside_axes :
    (l x r t y b : ℤ)
    → (leb_ℤ l x && ltb_ℤ x r && leb_ℤ t y && ltb_ℤ y b) ≡ true
    → (leb_ℤ l x ≡ true) × (ltb_ℤ x r ≡ true) × (leb_ℤ t y ≡ true) × (ltb_ℤ y b ≡ true)
inside_axes l x r t y b h = ground arith

le_trans_ℤ : (a b c : ℤ) → leb_ℤ a b ≡ true → leb_ℤ b c ≡ true → leb_ℤ a c ≡ true
le_trans_ℤ a b c h k = ground arith

contains_parts :
    (s p : Point) (w h : ℤ)
    → Rect.contains (rect s (size w h)) p
      ≡ (leb_ℤ s.x p.x && ltb_ℤ p.x (s.x +ℤ w) && leb_ℤ s.y p.y && ltb_ℤ p.y (s.y +ℤ h))
unfolding Rect.contains Rect.right Rect.bottom
contains_parts s p w h = refl

lands_inside :
    (c : Rect) (d s : Point) (dims : Size) (p : Point)
    → Rect.contains c d ≡ true
    → Rect.contains (Rect.clipped_source c d s dims) p ≡ true
    → Rect.contains c (landing d s p) ≡ true
unfolding Rect.contains Point.add_size Point.sub
lands_inside c d s dims p h k =
    let (l, r, t, b) =
      inside_axes (Rect.left c) d.x (Rect.right c) (Rect.top c) d.y (Rect.bottom c) h in
    let (near_x, far_x, near_y, far_y) = part in
    let (x, x') = lands d.x (Rect.right c) dims.width s.x p.x r near_x far_x in
    let (y, y') = lands d.y (Rect.bottom c) dims.height s.y p.y b near_y far_y in
    rw
      (
        le_trans_ℤ (Rect.left c) d.x (d.x +ℤ (p.x -ℤ s.x)) l x,
        x',
        le_trans_ℤ (Rect.top c) d.y (d.y +ℤ (p.y -ℤ s.y)) t y,
        y',
      )
      refl
  where
    part :
        (leb_ℤ s.x p.x ≡ true)
        × (ltb_ℤ p.x (s.x +ℤ room d.x (Rect.right c) dims.width) ≡ true)
        × (leb_ℤ s.y p.y ≡ true)
        × (ltb_ℤ p.y (s.y +ℤ room d.y (Rect.bottom c) dims.height) ≡ true)
    part =
        inside_axes s.x p.x (s.x +ℤ room d.x (Rect.right c) dims.width) s.y p.y
          (s.y +ℤ room d.y (Rect.bottom c) dims.height)
          (sym (contains_parts s p _ _)
            ∙ ap (λ (r : Rect). Rect.contains r p) (sym (clipped_source_lem c d s dims))
            ∙ k)

-- If the destination position is in its canvas, every point of the rectangle that ClipSource gives
-- is in the source canvas, and lands in the destination canvas.
pub clip_source-lands :
    (c : Rect) (d : Point) (canvas : Rect) (s : Point) (dims : Size) (p : Point)
    → Rect.contains c d ≡ true
    → Rect.contains (Rect.clip_source c d canvas s dims) p ≡ true
    → (Rect.contains canvas p ≡ true) × (Rect.contains c (landing d s p) ≡ true)
unfolding Rect.clip_source
clip_source-lands c d canvas s dims p h k =
    let (within, in_canvas) =
      and_split (Rect.contains (Rect.clipped_source c d s dims) p) (Rect.contains canvas p)
        (sym (contains-crop _ _ p) ∙ k) in
    (in_canvas, lands_inside c d s dims p h within)

keeps_edge :
    (d far w s : ℤ)
    → ltb_ℤ d far ≡ true
    → ltb_ℤ (pos 0) w ≡ true
    → (leb_ℤ s s ≡ true) × (ltb_ℤ s (s +ℤ room d far w) ≡ true)
unfolding max_ℤ min_ℤ
keeps_edge d far w s h k =
    ground
      (arith, +ℤ_parts s (room d far w), -ℤ_parts (min_ℤ (d +ℤ w) (max_ℤ d far)) d, +ℤ_parts d w)

add_sub_self : (a b : ℤ) → a +ℤ (b -ℤ b) ≡ a
add_sub_self a b = omega int_laws

-- The near edges are not clipped: for a destination position that is left of the far corner of its
-- canvas and above it, and for positive dimensions, a source position in the source canvas is in
-- the rectangle that ClipSource gives, and it lands at the destination position, which may lie
-- outside of the canvas.
pub clip_source-near_edges :
    (c : Rect) (d : Point) (canvas : Rect) (s : Point) (dims : Size)
    → Point.at_most_exclusive d (Rect.bottom_right c) ≡ true
    → Size.is_positive dims ≡ true
    → Rect.contains canvas s ≡ true
    → (Rect.contains (Rect.clip_source c d canvas s dims) s ≡ true) × (landing d s s ≡ d)
unfolding Rect.clip_source Rect.bottom_right Point.at_most_exclusive Size.is_positive
    Size.at_least_exclusive Point.add_size Point.sub
clip_source-near_edges c d canvas s dims before positive known =
    let (x, y) = and_split (ltb_ℤ d.x (Rect.right c)) (ltb_ℤ d.y (Rect.bottom c)) before in
    let (w, h) = and_split (ltb_ℤ (pos 0) dims.width) (ltb_ℤ (pos 0) dims.height) positive in
    let (x', x'') = keeps_edge d.x (Rect.right c) dims.width s.x x w in
    let (y', y'') = keeps_edge d.y (Rect.bottom c) dims.height s.y y h in
    (
      contains-crop _ canvas s
          ∙ rw (known, clipped_source_lem c d s dims, contains_parts, x', x'', y', y'') refl,
      simp (add_sub_self) refl,
    )
