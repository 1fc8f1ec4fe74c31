-- ===== src/Tests/Shapes.antt =====
-- Rectangles and clipping (source/deps/orz/geom.h) and rotations (source/deps/illa/types.cpp) at
-- concrete sizes.
use pictus.Base.{◌≡◌, ◌&&◌, refl, true, some}
use pictus.Base.Int.{pos, negsuc}
use pictus.Orz.Geom.Size.{size, is_positive}
use pictus.Orz.Geom.Point.{point, at_most_exclusive}
use pictus.Orz.Geom.Rect.{Rect, rect, contains, crop, bottom_right, clip_source}
use pictus.Orz.Geom.Clip.{contains-crop, clip_source-lands, clip_source-near_edges, landing}
use pictus.Illa.Types.{RotationAngle, rotate_90, flip_x, rotate_90_flip_y, final_angle, angle_for}
use pictus.Illa.Types.Angles.{angle_for-Composes, is_defined, place, Pixel, IsInside}

abbrev view : Rect
view = rect (point (pos 0) (pos 0)) (size (pos 100) (pos 80))

abbrev picture : Rect
picture = rect (point (pos 10) (negsuc 4)) (size (pos 60) (pos 120))

crop-view : crop view picture ≡ rect (point (pos 10) (pos 0)) (size (pos 60) (pos 80))
unfolding crop
crop-view = refl

contains-crop_example :
    contains (crop view picture) (point (pos 20) (pos 79))
    ≡ (contains view (point (pos 20) (pos 79)) && contains picture (point (pos 20) (pos 79)))
contains-crop_example = contains-crop view picture (point (pos 20) (pos 79))

clip_source-lands_example :
    (contains picture (point (pos 30) (pos 20)) ≡ true)
    × (contains view
          (landing (point (pos 50) (pos 60)) (point (pos 15) (pos 15)) (point (pos 30) (pos 20)))
        ≡ true)
unfolding contains clip_source
clip_source-lands_example =
    clip_source-lands view (point (pos 50) (pos 60)) picture (point (pos 15) (pos 15))
      (size (pos 90) (pos 90)) (point (pos 30) (pos 20)) refl refl

-- A destination left of its canvas.
clip_source-left :
    (contains
        (clip_source view
          (point (negsuc 9) (pos 0))
          picture
          (point (pos 10) (pos 0))
          (size (pos 20) (pos 20)))
        (point (pos 10) (pos 0))
      ≡ true)
    × (landing (point (negsuc 9) (pos 0)) (point (pos 10) (pos 0)) (point (pos 10) (pos 0))
        ≡ point (negsuc 9) (pos 0))
unfolding contains at_most_exclusive bottom_right is_positive
clip_source-left =
    clip_source-near_edges view (point (negsuc 9) (pos 0)) picture (point (pos 10) (pos 0))
      (size (pos 20) (pos 20)) refl refl refl

turned_mirror :
    final_angle (record { requested_angle = rotate_90; meta_angle = flip_x })
    ≡ some rotate_90_flip_y
unfolding final_angle
turned_mirror = refl

angle_for-Composes_example :
    (a : RotationAngle) × (angle_for rotate_90 flip_x ≡ some a)
    × (is_defined a ≡ true)
    × ((p : Pixel) → IsInside p → place a p ≡ place rotate_90 (place flip_x p))
angle_for-Composes_example = angle_for-Composes rotate_90 flip_x refl refl
