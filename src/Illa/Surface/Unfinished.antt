-- ===== src/Illa/Surface/Unfinished.antt =====
-- Creating a surface, and locking it while it is created.
use pictus.Base.{◌≡◌, refl, arith, ◌||◌, true, false, Option, none, some}
use pictus.Base.Int.{pos, leb_ℤ}
use pictus.Orz.Geom.Size.{Size}
use pictus.Orz.Geom.Rect.{Rect, contains_rect}
use pictus.Illa.Types.{Format}
use pictus.Illa.SurfaceLock.{lock_read_write}
use pictus.Illa.Surface.{
  Surface, Error, or_create, ok, err, invalid_param, create_surface, refusal, begin_surface,
  finish_surface, lock_surface, null, waits, whole,
}
use pictus.Illa.Surface.Areas.{HasPixels}

created :
    (sz : Size) (format : Format) (s t : Surface) (refused : Option Error)
    → or_create sz format s refused ≡ ok t
    → HasPixels t × (t.dimensions ≡ sz) × (t.format ≡ format) × (t.is_created ≡ true)
unfolding finish_surface begin_surface
created sz format s t (some bad) e = ground arith
created sz format s t none e =
    let q : finish_surface (begin_surface sz format s) ≡ t = cc in
    rw (← q) (record { size = _; allocated = refl; all = refl }, refl, refl, refl)

-- A surface that CreateSurface has made has a pixel buffer of its size, and its format.
pub create_surface-HasPixels :
    (sz : Size) (format : Format) (s t : Surface)
    → create_surface sz format s ≡ ok t
    → HasPixels t × (t.dimensions ≡ sz) × (t.format ≡ format) × (t.is_created ≡ true)
unfolding create_surface
create_surface-HasPixels sz format s t e = created sz format s t (refusal sz format s) e

-- The second thread of a race: it locks a surface for writing after CreateSurface has set the size and
-- before there is a buffer. LockSurface returns a null pointer and keeps the lock, and the next lock
-- for writing waits.
pub lock_surface-leak :
    (sz : Size) (format : Format) (s : Surface) (region later : Rect)
    → s.buffer ≡ none
    → s.is_write_locked ≡ false
    → contains_rect (whole (begin_surface sz format s)) region ≡ true
    → (t : Surface) × (lock_surface region lock_read_write (begin_surface sz format s) ≡ null t)
      × (lock_surface later lock_read_write t ≡ waits)
unfolding lock_surface begin_surface
lock_surface-leak sz format s region later empty free held = (
  record (begin_surface sz format s) { is_write_locked = true; buffer = none },
  simp (empty, free, held) refl,
  refl,
)

-- CreateSurface refuses a size that is not positive on both axes, for a surface that is new.
pub create_surface-not_positive :
    (sz : Size) (format : Format) (s : Surface)
    → s.is_created ≡ false
    → (leb_ℤ sz.width (pos 0) || leb_ℤ sz.height (pos 0)) ≡ true
    → create_surface sz format s ≡ err invalid_param
unfolding create_surface refusal
create_surface-not_positive sz format s new bad = rw (new, refusal, bad) refl
