-- ===== src/Cache/Loader/Reach.antt =====
-- What any calls of a loader's methods lead to.
use Prim.Native.String.{String}
use pictus.Base.{ℕ, ◌≡◌, ◌≢◌, refl, arith, Bool, true, false, Option, none, some}
use pictus.Cache.Loader.{
  ImageLoader, Codec, LoadEvent, InternalLoadState, il_unprocessed, il_loaded_header,
  il_loading_fast, il_done_fast, il_loading_full, il_done_full, il_error, Replies, get_state,
  load_state_unprocessed, load, purge, deallocate, abort, reset_abort, allow_fast_skip,
  memory_requirements, memory_in, estimate_memory, new_loader, set_abort,
}
use pictus.Cache.Loader.States.{IsValid, HasCodec}
use pictus.Cache.Loader.Outcome.{load-Outcome, Outcome, Outcome-IsValid}

-- One call of a method of the loader that comes back, with what the rest of the program answers.
pub data Steps : ImageLoader → ImageLoader → Type 0 where
  loads :
      (r : Replies) (l m : ImageLoader) (event : Option LoadEvent)
      → load r l ≡ some (event, m)
      → Steps l m
  deallocates : (l : ImageLoader) → Steps l (deallocate l)
  aborts : (l : ImageLoader) → Steps l (abort l)
  resets : (l : ImageLoader) → Steps l (reset_abort l)
  allows : (b : Bool) (l : ImageLoader) → Steps l (allow_fast_skip b l)

-- The loaders that calls of the methods lead to.
pub data Reached (image : Option ℕ) (filename : String) : ImageLoader → Type 0 where
  created : Reached image filename (new_loader image filename)
  stepped : (l m : ImageLoader) → Reached image filename l → Steps l m → Reached image filename m

set_abort-HasCodec :
    (b : Bool) (s : InternalLoadState) (c : Option Codec) (o : Bool)
    → HasCodec s c o
    → HasCodec s (set_abort b c) o
set_abort-HasCodec b s none o h = h
set_abort-HasCodec b il_unprocessed (some c) o h = ground arith
set_abort-HasCodec b il_error (some c) o h = ground arith
set_abort-HasCodec b il_done_full (some c) o h = ground arith
set_abort-HasCodec b il_loaded_header (some c) o h = (ground arith, h.1)
set_abort-HasCodec b il_loading_fast (some c) o h = (ground arith, h.1)
set_abort-HasCodec b il_done_fast (some c) o h = (ground arith, h.1)
set_abort-HasCodec b il_loading_full (some c) o h = (ground arith, h.1)

pub Steps-IsValid : {l m : ImageLoader} → Steps l m → IsValid l → IsValid m
unfolding deallocate purge abort reset_abort allow_fast_skip
Steps-IsValid (loads r l m e q) v =
    Outcome-IsValid (get_state l) r (load r l) (load-Outcome r l v) q
Steps-IsValid (deallocates l) v = refl
Steps-IsValid (aborts l) v = set_abort-HasCodec true l.state l.codec l.reader_open v
Steps-IsValid (resets l) v = set_abort-HasCodec false l.state l.codec l.reader_open v
Steps-IsValid (allows b l) v = v

pub Reached-IsValid :
    {image : Option ℕ} {filename : String} {l : ImageLoader} → Reached image filename l → IsValid l
unfolding new_loader
Reached-IsValid created = refl
Reached-IsValid (stepped l m h s) = Steps-IsValid s (Reached-IsValid h)

estimated : (c : Option Codec) → c ≢ none → estimate_memory c ≢ none
estimated none h = absurd (h refl)
estimated (some c) h = ground arith

-- With a codec where the state asks for one, the memory is known.
memory_in-HasCodec :
    (s : InternalLoadState) (c : Option Codec) (o : Bool)
    → HasCodec s c o
    → s ≢ il_unprocessed
    → memory_in s c ≢ none
unfolding memory_in
memory_in-HasCodec il_unprocessed c o h k = absurd (k refl)
memory_in-HasCodec il_error c o h k = ground arith
memory_in-HasCodec il_done_full c o h k = estimated c h
memory_in-HasCodec il_loaded_header c o h k = estimated c h.0
memory_in-HasCodec il_loading_fast c o h k = estimated c h.0
memory_in-HasCodec il_done_fast c o h k = estimated c h.0
memory_in-HasCodec il_loading_full c o h k = estimated c h.0

pub memory_requirements-IsValid :
    (l : ImageLoader)
    → IsValid l
    → get_state l ≢ load_state_unprocessed
    → memory_requirements l ≢ none
unfolding get_state memory_requirements
memory_requirements-IsValid l v k =
    memory_in-HasCodec l.state l.codec l.reader_open v (λ e. k (rw (e, get_state) refl))
