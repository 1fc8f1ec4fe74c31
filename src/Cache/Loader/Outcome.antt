-- ===== src/Cache/Loader/Outcome.antt =====
-- What one `Load` of a loader comes to (source/Pictus/ic_imageloader.cpp).
use pictus.Base.{◌≡◌, ◌≢◌, refl, arith, true, false, Option, none, some, inl, inr, Option-cases}
use pictus.Cache.Loader.{
  ImageLoader, LoadState, data_event, InternalLoadState, LoadEvent, il_unprocessed,
  il_loaded_header, il_loading_fast, il_done_fast, il_loading_full, il_done_full, il_error, Replies,
  get_state, load_state_unprocessed, load_state_header, load_state_loading, load_state_done, load,
  load_header, header_event, allocate, allocated_event, load_image_data, codec_status,
  load_event_none,
}
use pictus.Cache.Loader.States.{
  IsValid, HasCodec, Fine, meets_null, Tried, load_header-Tried, header_allocate-Fine,
  fast_data-Fine, full_data-Fine, done_fast-Fine, data_of_codec, allocate_at_state,
}

module _ (r : Replies) (l : ImageLoader) where
  load_at_start : get_state l ≡ load_state_unprocessed → load r l ≡ header_event (load_header r l)
  unfolding load
  load_at_start e = rw (e, load) refl

  load_at_header :
      get_state l ≡ load_state_header → load r l ≡ some (allocated_event (allocate r l))
  unfolding load
  load_at_header e = rw (e, load) refl

  load_at_data : get_state l ≡ load_state_loading → load r l ≡ data_event (load_image_data r l)
  unfolding load
  load_at_data e = rw (e, load) refl

  load_at_end : get_state l ≡ load_state_done → load r l ≡ some (some load_event_none, l)
  unfolding load
  load_at_end e = rw (e, load) refl

-- What a `Load` in a state comes to: it uses a null pointer where it meets an extension without a
-- codec, and there only; else it gives a valid loader, and an event, or an exception if the full
-- allocation is not supported.
abbrev pub Outcome : LoadState → Replies → Option (Option LoadEvent × ImageLoader) → Type 0
Outcome s r none = meets_null s r ≡ true
Outcome s r (some p) = Fine r.allocate_full p × (meets_null s r ≡ false)

header_event-Outcome :
    (r : Replies) (o : Option ImageLoader)
    → Tried r o
    → Outcome load_state_unprocessed r (header_event o)
unfolding header_event
header_event-Outcome r none h = h
header_event-Outcome r (some l) h = ((h.0, inl (ground arith)), h.1)

abbrev load_state_of : InternalLoadState → LoadState
load_state_of il_unprocessed = load_state_unprocessed
load_state_of il_loaded_header = load_state_header
load_state_of il_loading_fast = load_state_loading
load_state_of il_done_fast = load_state_header
load_state_of il_loading_full = load_state_loading
load_state_of il_done_full = load_state_done
load_state_of il_error = load_state_done

get_state_of :
    (l : ImageLoader) (s : InternalLoadState) → l.state ≡ s → get_state l ≡ load_state_of s
unfolding get_state
get_state_of l il_unprocessed e = rw (e, get_state) refl
get_state_of l il_loaded_header e = rw (e, get_state) refl
get_state_of l il_loading_fast e = rw (e, get_state) refl
get_state_of l il_done_fast e = rw (e, get_state) refl
get_state_of l il_loading_full e = rw (e, get_state) refl
get_state_of l il_done_full e = rw (e, get_state) refl
get_state_of l il_error e = rw (e, get_state) refl

load_in-Outcome :
    (r : Replies) (l : ImageLoader) (s : InternalLoadState)
    → l.state ≡ s
    → HasCodec s l.codec l.reader_open
    → get_state l ≡ load_state_of s
    → Outcome (load_state_of s) r (load r l)
load_in-Outcome r l il_unprocessed e h q =
    rw (load_at_start r l q) (header_event-Outcome r (load_header r l) (load_header-Tried r l))
load_in-Outcome r l il_loaded_header e h q =
    rw (load_at_header r l q, allocate_at_state r l il_loaded_header e h.0)
      (header_allocate-Fine r l h, refl)
load_in-Outcome r l il_loading_fast e h q =
    rw (load_at_data r l q, data_of_codec r l h)
      (fast_data-Fine (codec_status r.perform_load) l r.allocate_full h e, refl)
load_in-Outcome r l il_done_fast e h q =
    rw (load_at_header r l q, allocate_at_state r l il_done_fast e h.0) (done_fast-Fine r l h, refl)
load_in-Outcome r l il_loading_full e h q =
    rw (load_at_data r l q, data_of_codec r l h)
      (full_data-Fine (codec_status r.perform_load) l r.allocate_full h e, refl)
load_in-Outcome r l il_done_full e h q = rw (load_at_end r l q) ((rw e h, inl (ground arith)), refl)
load_in-Outcome r l il_error e h q = rw (load_at_end r l q) ((rw e h, inl (ground arith)), refl)

pub load-Outcome : (r : Replies) (l : ImageLoader) → IsValid l → Outcome (get_state l) r (load r l)
load-Outcome r l v =
    let q : get_state l ≡ load_state_of l.state = get_state_of l l.state refl in
    rw q (load_in-Outcome r l l.state refl v q)

pub Outcome-IsValid :
    (s : LoadState) (r : Replies) (o : Option (Option LoadEvent × ImageLoader))
    {e : Option LoadEvent} {m : ImageLoader}
    → Outcome s r o
    → o ≡ some (e, m)
    → IsValid m
Outcome-IsValid s r none h q = absurd (ground arith)
Outcome-IsValid s r (some (d, k)) {m} h q = let same : k ≡ m = cc in rw (← same) h.0.0

meets_null-own : (s : LoadState) (r : Replies) → r.own ≢ none → meets_null s r ≡ false
meets_null-own load_state_unprocessed r h = elim (Option-cases r.own) [
  | inl e ↦ absurd (h e)
  | inr (c, e) ↦ rw e (ground arith)
]
meets_null-own load_state_header r h = refl
meets_null-own load_state_loading r h = refl
meets_null-own load_state_done r h = refl

pub meets_null-none : (s : LoadState) (r : Replies) → meets_null s r ≡ true → r.own ≡ none
meets_null-none s r h = elim (Option-cases r.own) [
  | inl e ↦ e
  | inr (c, e) ↦
      let nowhere : meets_null s r ≡ false = meets_null-own s r (ground arith) in
      absurd (ground arith)
]

-- With a codec for the extension, a `Load` comes back.
pub Outcome-comes_back :
    (s : LoadState) (r : Replies) (o : Option (Option LoadEvent × ImageLoader))
    → r.own ≢ none
    → Outcome s r o
    → (p : Option LoadEvent × ImageLoader) × (o ≡ some p) × IsValid p.1
Outcome-comes_back s r none h v =
    let nowhere : meets_null s r ≡ false = meets_null-own s r h in absurd (ground arith)
Outcome-comes_back s r (some p) h v = (p, refl, v.0.0)
