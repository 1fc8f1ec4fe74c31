-- ===== src/Illa/SurfaceLock/Holders.antt =====
-- Who holds a lock, in any order of the threads' calls.
use pictus.Base.{
  ℕ, ◌+◌, ◌≤◌, ◌<◌, ◌≡◌, ◌⊎◌, inl, inr, refl, arith, Bool, true, false, Option, none, some, List,
  [], ◌∷◌, ◌++◌, length, length-append,
}
use pictus.Illa.SurfaceLock.{
  LockMethod, lock_read, lock_read_write, acquire_swmr, release_swmr, acquire_exclusive,
  release_exclusive,
}

-- One call of some thread, over a strategy: the lock is taken, or a holder gives it back.
pub data Steps (acquire release : LockMethod → Bool → Option Bool)
    : Bool → List LockMethod → Bool → List LockMethod → Type 0 where
  acquires :
      (m : LockMethod) (b c : Bool) (holders : List LockMethod)
      → acquire m b ≡ some c
      → Steps acquire release b holders c (m ∷ holders)
  releases :
      (m : LockMethod) (b c : Bool) (before after : List LockMethod)
      → release m b ≡ some c
      → Steps acquire release b (before ++ m ∷ after) c (before ++ after)

-- The flag and the holders that calls lead to, from a new lock.
pub data Reached (acquire release : LockMethod → Bool → Option Bool)
    : Bool → List LockMethod → Type 0 where
  unlocked : Reached acquire release false []
  stepped :
      (b c : Bool) (hs ks : List LockMethod)
      → Reached acquire release b hs
      → Steps acquire release b hs c ks
      → Reached acquire release c ks

abbrev pub weight : LockMethod → ℕ
weight lock_read = 0
weight lock_read_write = 1

abbrev pub writers : List LockMethod → ℕ
writers [] = 0
writers (m ∷ ms) = weight m + writers ms

abbrev pub flag : Bool → ℕ
flag false = 0
flag true = 1

writers-append : (hs ks : List LockMethod) → writers (hs ++ ks) ≡ writers hs + writers ks
writers-append [] ks = omega arith
writers-append (h ∷ hs) ks = omega (arith, writers-append hs ks)

acquire_swmr-weight :
    (m : LockMethod) (b c : Bool) → acquire_swmr m b ≡ some c → flag c ≡ weight m + flag b
unfolding acquire_swmr
acquire_swmr-weight m b c e = ground arith

release_swmr-weight :
    (m : LockMethod) (b c : Bool) → release_swmr m b ≡ some c → flag b ≡ weight m + flag c
unfolding release_swmr
release_swmr-weight m b c e = ground arith

swmr_step :
    {b c : Bool} {hs ks : List LockMethod}
    → Steps acquire_swmr release_swmr b hs c ks
    → writers hs ≡ flag b
    → writers ks ≡ flag c
swmr_step (acquires m b c holders e) h = omega (arith, acquire_swmr-weight m b c e)
swmr_step (releases m b c before after e) h = omega (
  arith,
  release_swmr-weight m b c e,
  writers-append before (m ∷ after),
  writers-append before after,
)

swmr_writers :
    {b : Bool} {hs : List LockMethod} → Reached acquire_swmr release_swmr b hs → writers hs ≡ flag b
swmr_writers unlocked = refl
swmr_writers (stepped b c hs ks r s) = swmr_step s (swmr_writers r)

flag_small : (b : Bool) → flag b ≤ 1
flag_small false = omega arith
flag_small true = omega arith

-- A surface with one writer and many readers, whatever the order of the calls: at most one holder
-- of the lock is a writer.
pub swmr-one_writer :
    (b : Bool) (hs : List LockMethod) → Reached acquire_swmr release_swmr b hs → writers hs ≤ 1
swmr-one_writer b hs r = omega (arith, swmr_writers r, flag_small b)

flagged : (b : Bool) → 0 < flag b → b ≡ true
flagged b h = ground arith

-- In the same lock, with any other holders: a writer that gives it back raises nothing, and the
-- lock is open for the next writer.
pub release_swmr-held :
    (b : Bool) (before after : List LockMethod)
    → Reached acquire_swmr release_swmr b (before ++ lock_read_write ∷ after)
    → (release_swmr lock_read_write b ≡ some false)
      × (acquire_swmr lock_read_write false ≡ some true)
unfolding release_swmr acquire_swmr
release_swmr-held b before after r = (
  rw (flagged b (omega (arith, swmr_writers r, writers-append before (lock_read_write ∷ after))))
      refl,
  refl,
)

exclusive_step :
    {b c : Bool} {hs ks : List LockMethod}
    → Steps acquire_exclusive release_exclusive b hs c ks
    → length hs ≡ flag b
    → length ks ≡ flag c
unfolding acquire_exclusive release_exclusive
exclusive_step (acquires m b c holders e) h = ground arith
exclusive_step (releases m b c before after e) h =
    ground (arith, length-append before (m ∷ after), length-append before after, flag_small b)

exclusive_holders :
    {b : Bool} {hs : List LockMethod}
    → Reached acquire_exclusive release_exclusive b hs
    → length hs ≡ flag b
exclusive_holders unlocked = refl
exclusive_holders (stepped b c hs ks r s) = exclusive_step s (exclusive_holders r)

-- A surface with exclusive locking, whatever the order of the calls: the lock has at most one
-- holder, and if it has one, every other thread waits, reader or writer.
pub exclusive-one_holder :
    (b : Bool) (hs : List LockMethod) (method : LockMethod)
    → Reached acquire_exclusive release_exclusive b hs
    → (length hs ≤ 1) × ((hs ≡ []) ⊎ (acquire_exclusive method b ≡ none))
unfolding acquire_exclusive
exclusive-one_holder b hs method r =
    (omega (arith, exclusive_holders r, flag_small b), blocked b hs (exclusive_holders r))
  where
    blocked :
        (b : Bool) (hs : List LockMethod)
        → length hs ≡ flag b
        → (hs ≡ []) ⊎ (acquire_exclusive method b ≡ none)
    blocked b [] h = inl refl
    blocked b (m ∷ ms) h = inr (rw (flagged b (omega (arith, h))) refl)
