-- ===== src/Illa/Surface/Areas.antt =====
-- The bytes of a locked area are bytes of the surface.
use native.Mathlib.Nat.{mul-le-mul_right}
use pictus.Base.{
  ℕ, ◌+◌, ◌*◌, ◌<◌, ◌≤◌, ◌≡◌, arith, Bool, true, ◌&&◌, Option, none, some, inl, inr, Option-cases,
}
use pictus.Base.Int.{ℤ, pos, pos_part, ◌+ℤ◌, ◌-ℤ◌, leb_ℤ, ltb_ℤ, +ℤ_parts, -ℤ_parts}
use pictus.Orz.Geom.Rect.{Rect, left, top, contains_rect}
use pictus.Illa.SurfaceLock.{LockMethod, acquire_swmr}
use pictus.Illa.Surface.{
  Surface, LockedArea, locked, lock_surface, lock_region, with_flag, stride_of, whole,
}

-- A surface with its pixels.
pub record HasPixels (s : Surface) : Type 0 where
  pub size : ℕ
  pub allocated : s.buffer ≡ some size
  pub all : size ≡ pos_part s.dimensions.width * pos_part s.dimensions.height * s.pixel_size

-- A range of one axis, inside of another that starts at 0.
inside :
    (l w far : ℤ)
    → leb_ℤ (pos 0) l ≡ true
    → ltb_ℤ (l +ℤ w -ℤ pos 1) (pos 0 +ℤ far) ≡ true
    → leb_ℤ (pos 1) w ≡ true
    → pos_part l + pos_part w ≤ pos_part far
inside l w far h k p = ground (arith, +ℤ_parts l w, -ℤ_parts (l +ℤ w) (pos 1), +ℤ_parts (pos 0) far)

-- Column `j` of the bytes of row `i` of a region in `w` by `h` pixels of `p` bytes.
in_buffer :
    (l t rw' rh w h p i j : ℕ)
    → l + rw' ≤ w
    → t + rh ≤ h
    → i < rh
    → j < rw' * p
    → l * p + t * (w * p) + i * (w * p) + j < w * h * p
in_buffer l t rw' rh w h p i j hx hy hi hj = omega (
  arith,
  mul-le-mul_right {m = l + rw'} {n = w} p hx,
  mul-le-mul_right {m = t + i + 1} {n = h} (w * p) (omega arith),
)

abbrev IsArea : Rect → LockMethod → Surface → LockedArea → Type 0
IsArea region m s a =
    (contains_rect (whole s) region ≡ true)
    × (a.offset ≡ pos_part (left region) * s.pixel_size + pos_part (top region) * stride_of s)
    × (a.stride ≡ stride_of s)

-- What an area that was locked is.
lock_region-IsArea :
    (region : Rect) (m : LockMethod) (s t : Surface) (a : LockedArea)
    → lock_region region m s ≡ locked a t
    → IsArea region m s a
unfolding lock_region
lock_region-IsArea region m s t a e = elim (Option-cases s.buffer) [
  | inl empty ↦ ground arith
  | inr (n, full) ↦ ground arith
]

with_flag-IsArea :
    (region : Rect) (m : LockMethod) (s t : Surface) (a : LockedArea) (flag : Option Bool)
    → with_flag region m s flag ≡ locked a t
    → IsArea region m s a
with_flag-IsArea region m s t a none e = ground arith
with_flag-IsArea region m s t a (some flag) e =
    lock_region-IsArea region m (record s { is_write_locked = flag }) t a e

lock_surface-IsArea :
    (region : Rect) (m : LockMethod) (s t : Surface) (a : LockedArea)
    → lock_surface region m s ≡ locked a t
    → IsArea region m s a
unfolding lock_surface
lock_surface-IsArea region m s t a e =
    with_flag-IsArea region m s t a (acquire_swmr m s.is_write_locked) e

eight :
    (a b c d e f g h : Bool)
    → ((a && b && c && d) && (e && f && g && h)) ≡ true
    → (a ≡ true) × (c ≡ true) × (f ≡ true) × (h ≡ true)
eight a b c d e f g h k = ground arith

axes :
    (s : Surface) (r : Rect)
    → contains_rect (whole s) r ≡ true
    → leb_ℤ (pos 1) r.dimensions.width ≡ true
    → leb_ℤ (pos 1) r.dimensions.height ≡ true
    → (pos_part (left r) + pos_part r.dimensions.width ≤ pos_part s.dimensions.width)
      × (pos_part (top r) + pos_part r.dimensions.height ≤ pos_part s.dimensions.height)
unfolding contains_rect
axes s r c w h =
    let (l, t, far_x, far_y) = eight _ _ _ _ _ _ _ _ c in
    (
      inside (left r) r.dimensions.width s.dimensions.width l far_x w,
      inside (top r) r.dimensions.height s.dimensions.height t far_y h,
    )

-- Every byte of every row of a locked area is in the buffer of the surface, if the region is not
-- empty and the surface has its pixels.
pub lock_surface-in_buffer :
    (region : Rect) (m : LockMethod) (s t : Surface) (a : LockedArea) (i j : ℕ)
    → (p : HasPixels s) → leb_ℤ (pos 1) region.dimensions.width ≡ true
    → leb_ℤ (pos 1) region.dimensions.height ≡ true
    → lock_surface region m s ≡ locked a t
    → i < pos_part region.dimensions.height
    → j < pos_part region.dimensions.width * s.pixel_size
    → a.offset + i * a.stride + j < p.size
lock_surface-in_buffer region m s t a i j p w h e hi hj =
    let (held, offset, stride) = lock_surface-IsArea region m s t a e in
    let (x, y) = axes s region held w h in
    rw (p.all, offset, stride)
      (in_buffer (pos_part (left region)) (pos_part (top region)) (pos_part region.dimensions.width)
        (pos_part region.dimensions.height) (pos_part s.dimensions.width)
        (pos_part s.dimensions.height) s.pixel_size i j x y hi hj)
