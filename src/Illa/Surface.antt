-- ===== src/Illa/Surface.antt =====
-- surface.cpp, swsurface.cpp and surface_locked_area.cpp: a surface in memory, its creation and its
-- locked areas. The copies between surfaces, which run through filters, are left out.
pub mod Areas
pub mod Unfinished
use pictus.Base.{
  ℕ, ◌+◌, ◌-◌, ◌*◌, ◌^◌, ◌==◌, Bool, true, false, ◌||◌, not, Option, none, some, ltb, if◌then◌else◌,
}
use pictus.Base.Int.{ℤ, pos, pos_part, leb_ℤ, ltb_ℤ}
use pictus.Orz.Geom.Size.{Size, size}
use pictus.Orz.Geom.Point.{origin}
use pictus.Orz.Geom.Rect.{Rect, rect, left, top, contains_rect}
use pictus.Illa.Types.{Format, undefined, num, estimate_pixel_size}
use pictus.Illa.SurfaceLock.{LockMethod, lock_read, lock_read_write, acquire_swmr, release_swmr}

-- `buffer` is the length of the pixel data, `none` while `m_activeBufferPtr` is null.
pub record Surface : Type 0 where
  pub format : Format
  pub dimensions : Size
  pub pixel_size : ℕ
  pub is_dirty : Bool
  pub is_created : Bool
  pub buffer : Option ℕ
  pub is_write_locked : Bool

pub data Error : Type 0 where
  critical_error invalid_param bad_alloc : Error

pub data Result {ℓ} (A : Type ℓ) : Type ℓ where
  ok : A → Result A
  err : Error → Result A

-- Surface()
abbrev pub new_surface : Surface
new_surface = record {
  format = undefined;
  dimensions = size (pos 0) (pos 0);
  pixel_size = 0;
  is_dirty = true;
  is_created = false;
  buffer = none;
  is_write_locked = false;
}

abbrev pub max_surface_dim : ℕ
max_surface_dim = 100000

abbrev pub max_surface_bytes : ℕ
max_surface_bytes = 1024 * 1024 * 1024

abbrev pub is_num : Format → Bool
is_num num = true
is_num _ = false

abbrev pub bytes_for : Size → Format → ℕ
bytes_for sz format = pos_part sz.width * pos_part sz.height * estimate_pixel_size format

unfoldable pub force_dirty : Surface → Surface
force_dirty s = record s { is_dirty = true }

-- The checks of CreateSurface.
unfoldable pub refusal : Size → Format → Surface → Option Error
unfolding estimate_pixel_size
refusal sz format s =
    if s.is_created
    then some critical_error
    else if leb_ℤ sz.width (pos 0) || leb_ℤ sz.height (pos 0)
    then some invalid_param
    else if ltb_ℤ (pos max_surface_dim) sz.width || ltb_ℤ (pos max_surface_dim) sz.height
    then some bad_alloc
    else if is_num format
    then some invalid_param
    else if ltb max_surface_bytes (bytes_for sz format)
    then some bad_alloc
    else none

-- CreateSurface up to the call of onCreateSurface: another thread sees the size, and no buffer.
unfoldable pub begin_surface : Size → Format → Surface → Surface
unfolding force_dirty estimate_pixel_size
begin_surface sz format s =
    force_dirty
      (record s { format = format; dimensions = sz; pixel_size = estimate_pixel_size format })

-- onCreateSurface of the software surface, and the end of CreateSurface.
unfoldable pub finish_surface : Surface → Surface
finish_surface s = record s {
  buffer = some (pos_part s.dimensions.width * pos_part s.dimensions.height * s.pixel_size);
  is_created = true;
}

abbrev pub or_create : Size → Format → Surface → Option Error → Result Surface
or_create sz format s (some e) = err e
or_create sz format s none = ok (finish_surface (begin_surface sz format s))

unfoldable pub create_surface : Size → Format → Surface → Result Surface
unfolding refusal begin_surface finish_surface
create_surface sz format s = or_create sz format s (refusal sz format s)

unfoldable pub deallocate : Surface → Surface
deallocate s = record s {
  buffer = none;
  is_created = false;
  dimensions = size (pos 0) (pos 0);
  format = undefined;
  pixel_size = 0;
}

-- IsDirty, which forgets it.
unfoldable pub take_dirty : Surface → Bool × Surface
take_dirty s = (s.is_dirty, record s { is_dirty = false })

pub record LockedArea : Type 0 where
  pub region : Rect
  pub offset : ℕ
  pub stride : ℕ
  pub method : LockMethod
  pub is_locked : Bool

-- What LockSurface does: it waits, it returns an area or a null pointer, or it raises.
pub data Locking : Type 0 where
  waits : Locking
  locked : LockedArea → Surface → Locking
  null : Surface → Locking
  raises : Error → Surface → Locking

abbrev pub stride_of : Surface → ℕ
stride_of s = pos_part s.dimensions.width * s.pixel_size

abbrev pub whole : Surface → Rect
whole s = rect origin s.dimensions

-- `ReleaseLock` of a lock that this call has taken.
abbrev let_go : LockMethod → Surface → Surface
let_go method s = elim (release_swmr method s.is_write_locked) [
  | none ↦ s
  | some flag ↦ record s { is_write_locked = flag }
]

abbrev dirty_for : LockMethod → Surface → Surface
dirty_for lock_read s = s
dirty_for lock_read_write s = force_dirty s

-- The body of the `try` block and its handler, with the lock taken.
unfoldable pub lock_region : Rect → LockMethod → Surface → Locking
unfolding release_swmr force_dirty
lock_region region method s =
    if not (contains_rect (whole s) region)
    then raises invalid_param (let_go method s)
    else elim s.buffer [
      | none ↦ null s
      | some n ↦
          if stride_of s == 0
          then raises invalid_param (let_go method (dirty_for method s))
          else locked
              (record {
                region = region;
                offset =
                    pos_part (left region) * s.pixel_size + pos_part (top region) * stride_of s;
                stride = stride_of s;
                method = method;
                is_locked = true;
              })
              (dirty_for method s)
    ]

abbrev pub with_flag : Rect → LockMethod → Surface → Option Bool → Locking
with_flag region method s none = waits
with_flag region method s (some flag) =
    lock_region region method (record s { is_write_locked = flag })

unfoldable pub lock_surface : Rect → LockMethod → Surface → Locking
unfolding acquire_swmr lock_region
lock_surface region method s = with_flag region method s (acquire_swmr method s.is_write_locked)

unfoldable pub lock_whole : LockMethod → Surface → Locking
unfolding lock_surface
lock_whole method s = lock_surface (whole s) method s

unfoldable pub unlock_surface : LockMethod → Surface → Result Surface
unfolding release_swmr
unlock_surface method s = elim (release_swmr method s.is_write_locked) [
  | none ↦ err critical_error
  | some flag ↦ ok (record s { is_write_locked = flag })
]

-- LockedArea::Unlock
unfoldable pub unlock : LockedArea → Surface → Result (LockedArea × Surface)
unfolding unlock_surface
unlock a s = if not a.is_locked then err critical_error else elim (unlock_surface a.method s) [
  | err e ↦ err e
  | ok t ↦ ok (record a { is_locked = false }, t)
]

unfoldable pub area_size : LockedArea → ℕ
area_size a = pos_part a.region.dimensions.height * a.stride
