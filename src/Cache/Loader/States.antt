-- ===== src/Cache/Loader/States.antt =====
-- The states of a loader, and what holds in each of them.
use pictus.Base.{
  ℕ, ◌≡◌, ◌≢◌, refl, ap, arith, Bool, true, false, Option, none, some, ◌⊎◌, inl, inr, Bool-cases,
  Option-cases, not, ◌&&◌,
}
use pictus.Cache.Loader.{
  ImageLoader, Codec, Candidate, LoadState, header_detected, detect_from, InternalLoadState,
  LoadEvent, il_unprocessed, il_loaded_header, il_loading_fast, il_done_fast, il_loading_full,
  il_done_full, il_error, LoadStatus, finished, aborted, failed, AllocationStatus, allocated,
  allocation_failed, not_supported, Replies, load_state_unprocessed, load_header, header_found,
  allocate, allocate_all, allocate_in, allocate_hinted, skip_fast, allocated_event, load_image_data,
  loaded_event, fail_state, detect_and_load_header, codec_status, data_loaded, is_aborted,
  is_loading_full, after_data, purge,
}

-- Where there is a codec, and where the file is open for it.
abbrev pub HasCodec : InternalLoadState → Option Codec → Bool → Type 0
HasCodec il_unprocessed c o = c ≡ none
HasCodec il_error c o = c ≡ none
HasCodec il_done_full c o = c ≢ none
HasCodec _ c o = (c ≢ none) × (o ≡ true)

abbrev pub IsValid : ImageLoader → Type 0
IsValid l = HasCodec l.state l.codec l.reader_open

fail_state-IsValid : (l : ImageLoader) → IsValid (fail_state l)
unfolding fail_state purge
fail_state-IsValid l = refl

header_found-IsValid :
    (b : Bool) (found : Option ℕ) (l : ImageLoader)
    → l.reader_open ≡ true
    → IsValid (header_found b found l)
unfolding header_found fail_state purge
header_found-IsValid true found l o = refl
header_found-IsValid false none l o = refl
header_found-IsValid false (some e) l o = (ground arith, o)

abbrev pub is_null : Option Candidate → Bool
is_null none = true
is_null (some c) = false

-- Whether a `Load` meets an extension without a codec: only where it reads the header of a file that
-- is open.
abbrev pub meets_null : LoadState → Replies → Bool
meets_null load_state_unprocessed r = r.opens && r.is_open && is_null r.own
meets_null _ r = false

-- The header is tried, and the loader is valid, unless a null pointer is used.
abbrev pub Tried : Replies → Option ImageLoader → Type 0
Tried r none = meets_null load_state_unprocessed r ≡ true
Tried r (some l) = IsValid l × (meets_null load_state_unprocessed r ≡ false)

header_detected-Tried :
    (r : Replies) (own : Option Candidate) (l : ImageLoader)
    → r.own ≡ own
    → r.opens ≡ true
    → r.is_open ≡ true
    → l.reader_open ≡ true
    → Tried r (header_detected r.header_raises (detect_from own r.others) l)
header_detected-Tried r none l e y z o = rw (e, y, z) refl
header_detected-Tried r (some c) l e y z o =
    (header_found-IsValid r.header_raises _ l o, rw (e, y, z) refl)

pub load_header-Tried : (r : Replies) (l : ImageLoader) → Tried r (load_header r l)
unfolding load_header detect_and_load_header
load_header-Tried r l = elim (Bool-cases r.opens) [
  | inr y ↦ simp (y, load_header) (fail_state-IsValid l, refl)
  | inl y ↦ elim (Bool-cases r.is_open) [
    | inr z ↦ simp (y, z, load_header) (fail_state-IsValid l, refl)
    | inl z ↦
        simp (y, z, load_header)
          (header_detected-Tried r r.own (record l { reader_open = true }) refl y z refl)
  ]
]

-- The loader has a codec with an open file.
abbrev Ready : ImageLoader → Type 0
Ready l = (l.codec ≢ none) × (l.reader_open ≡ true)

-- An event, and a valid loader. Only an unsupported full allocation raises.
abbrev pub Fine : AllocationStatus → Option LoadEvent × ImageLoader → Type 0
Fine s (e, l) = IsValid l × ((e ≢ none) ⊎ (s ≡ not_supported))

allocate_all-Fine :
    (s : AllocationStatus) (l : ImageLoader) → Ready l → Fine s (allocated_event (allocate_all s l))
unfolding allocate_all allocated_event fail_state purge
allocate_all-Fine not_supported l h = (refl, inr refl)
allocate_all-Fine allocated l h = (h, inl (ground arith))
allocate_all-Fine allocation_failed l h = (refl, inl (ground arith))

skip_fast-Fine :
    (r : Replies) (l : ImageLoader)
    → Ready l
    → Fine r.allocate_full (allocated_event (skip_fast r l))
unfolding skip_fast allocated_event
skip_fast-Fine r l h = elim (Bool-cases l.may_skip_fast) [
  | inl y ↦ simp (y, skip_fast) (allocate_all-Fine r.allocate_full l h)
  | inr y ↦ simp (y, skip_fast) (h, inl (ground arith))
]

allocate_hinted-Fine :
    (s : AllocationStatus) (r : Replies) (l : ImageLoader)
    → Ready l
    → Fine r.allocate_full (allocated_event (allocate_hinted s r l))
unfolding allocate_hinted allocated_event fail_state purge
allocate_hinted-Fine not_supported r l h = skip_fast-Fine r l h
allocate_hinted-Fine allocated r l h = (h, inl (ground arith))
allocate_hinted-Fine allocation_failed r l h = (refl, inl (ground arith))

pub done_fast-Fine :
    (r : Replies) (l : ImageLoader)
    → Ready l
    → Fine r.allocate_full (allocated_event (allocate_in il_done_fast r l))
unfolding allocate_in
done_fast-Fine r l h = allocate_all-Fine r.allocate_full l h

pub header_allocate-Fine :
    (r : Replies) (l : ImageLoader)
    → Ready l
    → Fine r.allocate_full (allocated_event (allocate_in il_loaded_header r l))
unfolding allocate_in
header_allocate-Fine r l h = elim (Bool-cases (not r.has_hint)) [
  | inl y ↦ rw (y, allocate_in) (skip_fast-Fine r l h)
  | inr y ↦ rw (y, allocate_in) (allocate_hinted-Fine r.allocate_hint r l h)
]

-- With a codec, `Allocate` does what its state says.
pub allocate_at_state :
    (r : Replies) (l : ImageLoader) (s : InternalLoadState)
    → l.state ≡ s
    → l.codec ≢ none
    → allocate r l ≡ allocate_in s r l
unfolding allocate
allocate_at_state r l s e h = elim (Option-cases l.codec) [
  | inl y ↦ absurd (h y)
  | inr (c, y) ↦ simp (y, allocate) (ap (λ (t : InternalLoadState). allocate_in t r l) e)
]

-- The loader as `AbstractCodec::LoadImageData` leaves it.
abbrev closed : LoadStatus → ImageLoader → ImageLoader
closed t l = record l { reader_open = not (not (is_aborted t) && is_loading_full l.state) }

pub fast_data-Fine :
    (t : LoadStatus) (l : ImageLoader) (a : AllocationStatus)
    → Ready l
    → l.state ≡ il_loading_fast
    → Fine a (loaded_event (some t, data_loaded t (closed t l)))
unfolding data_loaded loaded_event after_data is_aborted is_loading_full
fast_data-Fine finished l a h e = (rw e (h.0, refl), inl (ground arith))
fast_data-Fine failed l a h e = (rw e (h.0, refl), inl (ground arith))
fast_data-Fine aborted l a h e = (rw e (h.0, refl), inl (ground arith))

pub full_data-Fine :
    (t : LoadStatus) (l : ImageLoader) (a : AllocationStatus)
    → Ready l
    → l.state ≡ il_loading_full
    → Fine a (loaded_event (some t, data_loaded t (closed t l)))
unfolding data_loaded loaded_event after_data is_aborted is_loading_full
full_data-Fine finished l a h e = (rw e h.0, inl (ground arith))
full_data-Fine failed l a h e = (rw e h.0, inl (ground arith))
full_data-Fine aborted l a h e = (rw e (h.0, refl), inl (ground arith))

-- With a codec and an open file, the codec is asked.
pub data_of_codec :
    (r : Replies) (l : ImageLoader)
    → Ready l
    → load_image_data r l
      ≡ some (
        some (codec_status r.perform_load),
        data_loaded (codec_status r.perform_load) (closed (codec_status r.perform_load) l),
      )
unfolding load_image_data
data_of_codec r l h = elim (Option-cases l.codec) [
  | inl e ↦ absurd (h.0 e)
  | inr (c, e) ↦ simp (e, h.1, load_image_data) refl
]
