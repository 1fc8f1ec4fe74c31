-- ===== src/Illa/SurfaceLock.antt =====
-- surface_lock_swmr.cpp and surface_lock_exclusive.cpp: the two ways of locking a surface. Each
-- method holds the mutex of the strategy but while it waits, so it is one step; `none` is a wait.
pub mod Holders
use pictus.Base.{Bool, true, false, Option, none, some, List, [], ◌∷◌, ◌++◌, if◌then◌else◌}

pub data LockMethod : Type 0 where
  lock_read lock_read_write : LockMethod

-- LockStrategySingleWriterMultipleReaders, on `m_isWriteLocked`.
unfoldable pub acquire_swmr : LockMethod → Bool → Option Bool
acquire_swmr lock_read is_write_locked = some is_write_locked
acquire_swmr lock_read_write is_write_locked = if is_write_locked then none else some true

-- Here `none` is Err::CriticalError.
unfoldable pub release_swmr : LockMethod → Bool → Option Bool
release_swmr lock_read is_write_locked = some is_write_locked
release_swmr lock_read_write is_write_locked = if is_write_locked then some false else none

-- LockStrategyExclusive, on `m_isLocked`.
unfoldable pub acquire_exclusive : LockMethod → Bool → Option Bool
acquire_exclusive method is_locked = if is_locked then none else some true

unfoldable pub release_exclusive : LockMethod → Bool → Option Bool
release_exclusive method is_locked = some false
