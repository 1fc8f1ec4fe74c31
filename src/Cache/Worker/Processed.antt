-- ===== src/Cache/Worker/Processed.antt =====
-- The part of a turn of the background thread without the lock (source/Pictus/ic_workerthread.cpp),
-- during which other threads may call Abort.
use pictus.Base.{
  ℕ, ◌≡◌, ◌≢◌, refl, arith, true, Option, none, some, ◌++◌, get_elem?, get_elem?-lt, subst, ◌⊎◌,
  inl, inr, Bool-cases,
}
use pictus.Cache.Loader.{
  ImageLoader, LoadEvent, load_event_none, load_event_header_loaded, load_event_allocated,
  load_event_done, InternalLoadState, il_unprocessed, il_loaded_header, il_loading_fast,
  il_done_fast, il_loading_full, il_done_full, il_error, Codec, Replies, load, get_state,
}
use pictus.Cache.Loader.States.{IsValid}
use pictus.Cache.Loader.Outcome.{Outcome, load-Outcome, meets_null-none}
use pictus.Cache.WorkList.{operation, WorkOperation, wo_load_image, wo_done, wo_undefined}
use pictus.Cache.Worker.{
  Worker, State, st_stopped, Place, at_lock, with_package, in_load, interrupted_load, after_load,
  ended, begin_load, endangered, behind_load, process_loaded, on_package, process, process_in,
  process_image, process_at, event_messages, error_messages,
}
use pictus.Cache.Worker.Invariant.{
  is_loading, NoneCritical, InList, Fitting, IsAlive, AllValid-get, change-AllValid, change-InList,
  NoneCritical-append,
}

event_messages-NoneCritical : (e : Option LoadEvent) → NoneCritical (event_messages e)
unfolding event_messages
event_messages-NoneCritical none = (refl, tt)
event_messages-NoneCritical (some load_event_none) = tt
event_messages-NoneCritical (some load_event_header_loaded) = (refl, tt)
event_messages-NoneCritical (some load_event_allocated) = (refl, tt)
event_messages-NoneCritical (some load_event_done) = (refl, tt)

error_messages-NoneCritical :
    (e : Option LoadEvent) (s : InternalLoadState) → NoneCritical (error_messages e s)
unfolding error_messages
error_messages-NoneCritical none s = tt
error_messages-NoneCritical (some e) il_error = (refl, tt)
error_messages-NoneCritical (some e) il_unprocessed = tt
error_messages-NoneCritical (some e) il_loaded_header = tt
error_messages-NoneCritical (some e) il_loading_fast = tt
error_messages-NoneCritical (some e) il_done_fast = tt
error_messages-NoneCritical (some e) il_loading_full = tt
error_messages-NoneCritical (some e) il_done_full = tt

-- Another thread has called Abort during the Load of the package in hand, which may have deleted the
-- codec.
abbrev pub IsEndangered : Replies → Worker → Type 0
IsEndangered r w =
    (i : ℕ) × (l m : ImageLoader) × (event : Option LoadEvent) × (w.current ≡ some i)
    × (get_elem? w.work_list.packages i ≡ some l)
    × (load r l ≡ some (event, m))
    × (endangered w.place r l.codec m.codec ≡ true)

-- The package is processed, unless there is no codec for the extension, or the codec may be gone.
abbrev pub Processed : Replies → Worker → Option Worker → Type 0
Processed r w none = (r.own ≡ none) ⊎ IsEndangered r w
Processed r w (some v) = IsAlive v × (v.state ≡ w.state) × (v.place ≡ after_load)

pub endangered-interrupted_load :
    (p : Place) (r : Replies) (a b : Option Codec)
    → endangered p r a b ≡ true
    → p ≡ interrupted_load
unfolding endangered
endangered-interrupted_load interrupted_load r a b h = refl
endangered-interrupted_load at_lock r a b h = absurd (ground arith)
endangered-interrupted_load with_package r a b h = absurd (ground arith)
endangered-interrupted_load in_load r a b h = absurd (ground arith)
endangered-interrupted_load after_load r a b h = absurd (ground arith)
endangered-interrupted_load ended r a b h = absurd (ground arith)

-- Nothing but the place changes.
unloaded :
    (w : Worker)
    → IsAlive w
    → (w.state ≢ st_stopped) × (w.current ≢ none)
    → IsAlive (record w { place = after_load })
unloaded w v f = record {
  valid = v.valid;
  store = v.store;
  held = v.held;
  fitting = f;
  quiet = v.quiet;
}

module _ (r : Replies) (i : ℕ) (l : ImageLoader) (w : Worker) (alive : IsAlive w)
    (fits : (w.state ≢ st_stopped) × (w.current ≢ none)) (c : w.current ≡ some i)
    (g : get_elem? w.work_list.packages i ≡ some l) where
  loaded-IsAlive :
      (e : Option LoadEvent) (m : ImageLoader)
      → IsValid m
      → IsAlive (record (on_package (λ _. m) (some i) w) {
        messages = w.messages ++ event_messages e ++ error_messages e m.state;
        place = after_load;
      })
  loaded-IsAlive e m h = record {
    valid = change-AllValid (λ _. m) (some i) w.work_list.packages (λ k u. h) alive.valid;
    store = alive.store;
    held = change-InList (λ _. m) (some i) w.current w.work_list.packages alive.held;
    fitting = fits;
    quiet =
        NoneCritical-append (w.messages ++ event_messages e) _
          (NoneCritical-append w.messages _ alive.quiet (event_messages-NoneCritical e))
          (error_messages-NoneCritical e m.state);
  }

  loaded-Processed :
      (o : Option (Option LoadEvent × ImageLoader))
      → load r l ≡ o
      → Outcome (get_state l) r o
      → Processed r w (behind_load (process_loaded r i l w o))
  loaded-Processed none q h = inl (meets_null-none (get_state l) r h)
  loaded-Processed (some (e, m)) q h = elim (Bool-cases (endangered w.place r l.codec m.codec)) [
    | inl gone ↦ rw gone (inr (i, l, m, e, c, g, q, gone))
    | inr kept ↦ rw kept (loaded-IsAlive e m h.0.0, refl, refl)
  ]

  process_in-Processed : (o : WorkOperation) → Processed r w (behind_load (process_in o r i l w))
  unfolding process_image
  process_in-Processed wo_done = (unloaded w alive fits, refl, refl)
  process_in-Processed wo_undefined = (unloaded w alive fits, refl, refl)
  process_in-Processed wo_load_image =
      loaded-Processed (load r l) refl
        (load-Outcome r l (AllValid-get w.work_list.packages i l g alive.valid))

fits_loading :
    (p : Place) (s : State) (c : Option ℕ)
    → is_loading p ≡ true
    → Fitting p s c
    → (s ≢ st_stopped) × (c ≢ none)
fits_loading in_load s c e f = f
fits_loading interrupted_load s c e f = f
fits_loading at_lock s c e f = absurd (ground arith)
fits_loading with_package s c e f = absurd (ground arith)
fits_loading after_load s c e f = absurd (ground arith)
fits_loading ended s c e f = absurd (ground arith)

pub process-Processed :
    (w : Worker) (r : Replies) → IsAlive w → is_loading w.place ≡ true → Processed r w (process r w)
unfolding process
process-Processed w r v e =
    at w.current refl (fits_loading w.place w.state w.current e v.fitting) v.held
  where
    at :
        (c : Option ℕ)
        → w.current ≡ c
        → (w.state ≢ st_stopped) × (w.current ≢ none)
        → InList c w.work_list.packages
        → Processed r w (process_at r c w)
    at none q f h = absurd (f.1 q)
    at (some i) q f h =
        let (l, g) = get_elem?-lt w.work_list.packages i h in
        rw g (process_in-Processed r i l w v f q g (operation l))

pub Processed-IsAlive :
    (r : Replies) (w : Worker) (o : Option Worker) {v : Worker}
    → Processed r w o
    → o ≡ some v
    → IsAlive v
Processed-IsAlive r w none h e = absurd (ground arith)
Processed-IsAlive r w (some u) {v} h e = let same : u ≡ v = cc in rw (← same) h.0

pub begin_load-IsAlive : (w : Worker) → IsAlive w → w.place ≡ with_package → IsAlive (begin_load w)
begin_load-IsAlive w v e = record {
  valid = v.valid;
  store = v.store;
  held = v.held;
  fitting = subst (λ (p : Place). Fitting p w.state w.current) e v.fitting;
  quiet = v.quiet;
}
