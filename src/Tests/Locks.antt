-- ===== src/Tests/Locks.antt =====
-- The locks of a surface (source/deps/illa/surface_lock_swmr.cpp, surface_lock_exclusive.cpp) with
-- two
-- readers and a writer.
use pictus.Base.{◌≤◌, refl, true, false, List, [], ◌∷◌}
use pictus.Illa.SurfaceLock.{
  LockMethod, lock_read, lock_read_write, acquire_swmr, release_swmr, acquire_exclusive,
  release_exclusive,
}
use pictus.Illa.SurfaceLock.Holders.{Reached, unlocked, stepped, acquires, writers, swmr-one_writer}

abbrev mixed : List LockMethod
mixed = lock_read ∷ lock_read_write ∷ lock_read ∷ []

mixed-Reached : Reached acquire_swmr release_swmr true mixed
unfolding acquire_swmr
mixed-Reached =
    stepped true true (lock_read_write ∷ lock_read ∷ []) mixed
      (stepped false true (lock_read ∷ []) (lock_read_write ∷ lock_read ∷ [])
        (stepped false false [] (lock_read ∷ []) unlocked (acquires lock_read false false [] refl))
        (acquires lock_read_write false true (lock_read ∷ []) refl))
      (acquires lock_read true true (lock_read_write ∷ lock_read ∷ []) refl)

one_reader-Reached : Reached acquire_exclusive release_exclusive true (lock_read ∷ [])
unfolding acquire_exclusive
one_reader-Reached =
    stepped false true [] (lock_read ∷ []) unlocked (acquires lock_read false true [] refl)

swmr-one_writer_example : writers mixed ≤ 1
swmr-one_writer_example = swmr-one_writer true mixed mixed-Reached
