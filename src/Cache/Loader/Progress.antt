-- ===== src/Cache/Loader/Progress.antt =====
-- How far each `Load` brings a loader.
use Prim.Native.String.{String}
use pictus.Base.{ℕ, ◌<◌, ◌≡◌, ◌≢◌, Option, none, some, List, [], ◌∷◌}
use pictus.Cache.Loader.{
  ImageLoader, InternalLoadState, LoadEvent, il_unprocessed, il_loaded_header, il_loading_fast,
  il_done_fast, il_loading_full, il_done_full, il_error, aborted, Replies, get_state,
  load_state_done, load, codec_status,
}

-- How far a loader has come.
abbrev pub rank : InternalLoadState → ℕ
rank il_unprocessed = 0
rank il_loaded_header = 1
rank il_loading_fast = 2
rank il_done_fast = 3
rank il_loading_full = 4
rank il_done_full = 5
rank il_error = 6

-- Where there is a loader, it is further than a rank.
abbrev Beyond : ℕ → Option ImageLoader → Type 0
Beyond k none = Unit
Beyond k (some l) = k < rank l.state

-- The loader that a `Load` leaves is further than a rank.
abbrev Further : ℕ → Option (Option LoadEvent × ImageLoader) → Type 0
Further k none = Unit
Further k (some p) = k < rank p.1.state

-- One `Load` after another; an exception leaves the loader as its handler does, and `none` is the
-- use of a null pointer.
abbrev pub load_each :
    (ImageLoader → Option ImageLoader)
    → Option (Option LoadEvent × ImageLoader)
    → Option ImageLoader
load_each f none = none
load_each f (some p) = f p.1

pub load_all : List Replies → ImageLoader → Option ImageLoader
load_all [] l = some l
load_all (r ∷ rs) l = load_each (load_all rs) (load r l)

-- No codec gives up because it was told to.
abbrev pub Unaborted : List Replies → Type 0
Unaborted [] = Unit
Unaborted (r ∷ rs) = (codec_status r.perform_load ≢ aborted) × Unaborted rs

-- There is a codec for the extension whenever one is asked for.
abbrev pub HaveOwn : List Replies → Type 0
HaveOwn [] = Unit
HaveOwn (r ∷ rs) = (r.own ≢ none) × HaveOwn rs

-- The calls come back with a loader at its end.
abbrev pub IsDone : Option ImageLoader → Type 0
IsDone o = (m : ImageLoader) × (o ≡ some m) × (get_state m ≡ load_state_done)
