-- ===== src/Cache/Loader.antt =====
-- ic_imageloader.cpp and the parts of codec.cpp that it calls: how one image is decoded, step by
-- step.
pub mod States
pub mod Outcome
pub mod Reach
pub mod Progress
use Prim.Native.String.{String}
use pictus.Base.{
  ℕ, Bool, true, false, ◌&&◌, not, Option, none, some, List, [], ◌∷◌, ◌++◌, ltb, if◌then◌else◌,
}

pub data InternalLoadState : Type 0 where
  il_unprocessed il_loaded_header il_loading_fast il_done_fast il_loading_full il_done_full
        il_error :
      InternalLoadState

pub data LoadState : Type 0 where
  load_state_unprocessed load_state_header load_state_loading load_state_done : LoadState

pub data LoadEvent : Type 0 where
  load_event_none load_event_header_loaded load_event_allocated load_event_done : LoadEvent

pub data LoadStatus : Type 0 where
  finished aborted failed : LoadStatus

pub data AllocationStatus : Type 0 where
  allocated allocation_failed not_supported : AllocationStatus

-- The calls of the `Image` that shows the progress.
pub data ImageCall : Type 0 where
  set_header_data finish_image deallocate_image : ImageCall

-- A codec whose `LoadHeader` has succeeded: what `EstimateMemory` gives, and `m_doAbort`.
pub record Codec : Type 0 where
  pub memory : ℕ
  pub do_abort : Bool

-- `reader_open` is the state of `m_reader`, which the codec uses, too.
pub record ImageLoader : Type 0 where
  pub image : Option ℕ
  pub filename : String
  pub codec : Option Codec
  pub may_skip_fast : Bool
  pub state : InternalLoadState
  pub reader_open : Bool
  pub image_calls : List ImageCall

-- A codec before its `LoadHeader` is called.
pub record Candidate : Type 0 where
  pub estimate : ℕ
  pub can_detect : Bool
  pub loads_header : Bool

-- What the file, the codec and the settings answer while one `Load` runs: `Open` and `IsOpen` of
-- the reader; the codec for the extension, where `none` is a null pointer, and those of the factory
-- store, in order; whether `Seek` or `SetHeaderData` and its arguments raise; whether there is a
-- resolution hint; the two `Allocate`s; and `PerformLoadImageData`, where `none` is an exception.
pub record Replies : Type 0 where
  pub opens : Bool
  pub is_open : Bool
  pub own : Option Candidate
  pub others : List (Option Candidate)
  pub header_raises : Bool
  pub has_hint : Bool
  pub allocate_hint : AllocationStatus
  pub allocate_full : AllocationStatus
  pub perform_load : Option LoadStatus

unfoldable pub get_state : ImageLoader → LoadState
get_state l = elim l.state [
  | il_error ↦ load_state_done
  | il_unprocessed ↦ load_state_unprocessed
  | il_loaded_header ↦ load_state_header
  | il_loading_fast ↦ load_state_loading
  | il_done_fast ↦ load_state_header
  | il_loading_full ↦ load_state_loading
  | il_done_full ↦ load_state_done
]

-- `new ImageLoader(cfs, image, filename)`, with a factory store.
unfoldable pub new_loader : Option ℕ → String → ImageLoader
new_loader image filename = record {
  image = image;
  filename = filename;
  codec = none;
  may_skip_fast = false;
  state = il_unprocessed;
  reader_open = false;
  image_calls = [];
}

abbrev pub call : ImageCall → ImageLoader → ImageLoader
call k l = record l { image_calls = l.image_calls ++ k ∷ [] }

unfoldable pub purge : ImageLoader → ImageLoader
purge l = record l { codec = none; state = il_unprocessed; reader_open = false }

unfoldable pub fail_state : ImageLoader → ImageLoader
unfolding purge
fail_state l = record (call finish_image (purge l)) { state = il_error }

unfoldable pub deallocate : ImageLoader → ImageLoader
unfolding purge
deallocate l = purge (call deallocate_image l)

abbrev set_abort : Bool → Option Codec → Option Codec
set_abort b none = none
set_abort b (some c) = some (record c { do_abort = b })

unfoldable pub abort : ImageLoader → ImageLoader
abort l = record l { codec = set_abort true l.codec }

unfoldable pub reset_abort : ImageLoader → ImageLoader
reset_abort l = record l { codec = set_abort false l.codec }

unfoldable pub allow_fast_skip : Bool → ImageLoader → ImageLoader
allow_fast_skip b l = record l { may_skip_fast = b }

-- The loop of `DetectAndLoadHeader`.
unfoldable pub detect_among : List (Option Candidate) → Option ℕ
detect_among [] = none
detect_among (none ∷ cs) = detect_among cs
detect_among (some c ∷ cs) =
    if c.can_detect && c.loads_header then some c.estimate else detect_among cs

-- From the codec for the extension; `none` is the use of a null pointer.
abbrev pub detect_from : Option Candidate → List (Option Candidate) → Option (Option ℕ)
detect_from none others = none
detect_from (some own) others =
    some (if own.loads_header then some own.estimate else detect_among others)

unfoldable pub detect_and_load_header : Replies → Option (Option ℕ)
unfolding detect_among
detect_and_load_header r = detect_from r.own r.others

unfoldable pub header_found : Bool → Option ℕ → ImageLoader → ImageLoader
unfolding fail_state
header_found true found l = fail_state l
header_found false none l = fail_state l
header_found false (some estimate) l = record (call set_header_data l) {
  codec = some (record { memory = estimate; do_abort = false });
  state = il_loaded_header;
}

abbrev pub header_detected : Bool → Option (Option ℕ) → ImageLoader → Option ImageLoader
header_detected raises none l = none
header_detected raises (some found) l = some (header_found raises found l)

-- The exceptions of `LoadHeader` end in `FailState`; `none` is the use of a null pointer, which no
-- handler sees.
unfoldable pub load_header : Replies → ImageLoader → Option ImageLoader
unfolding fail_state header_found detect_and_load_header
load_header r l =
    if not r.opens
    then some (fail_state l)
    else if not r.is_open
    then some (fail_state l)
    else header_detected r.header_raises (detect_and_load_header r)
        (record l { reader_open = true })

-- A result `false` is an exception.
unfoldable pub allocate_all : AllocationStatus → ImageLoader → Bool × ImageLoader
unfolding fail_state
allocate_all not_supported l = (false, fail_state l)
allocate_all allocated l = (true, record l { state = il_loading_full })
allocate_all allocation_failed l = (true, fail_state l)

-- Without a fast pass: the full one at once, if it may be skipped.
unfoldable pub skip_fast : Replies → ImageLoader → Bool × ImageLoader
unfolding allocate_all
skip_fast r l =
    if l.may_skip_fast
    then allocate_all r.allocate_full l
    else (true, record l { state = il_done_fast })

unfoldable pub allocate_hinted : AllocationStatus → Replies → ImageLoader → Bool × ImageLoader
unfolding skip_fast fail_state
allocate_hinted not_supported r l = skip_fast r l
allocate_hinted allocated r l = (true, record l { state = il_loading_fast })
allocate_hinted allocation_failed r l = (true, fail_state l)

unfoldable pub allocate_in : InternalLoadState → Replies → ImageLoader → Bool × ImageLoader
unfolding skip_fast allocate_hinted allocate_all
allocate_in il_loaded_header r l =
    if not r.has_hint then skip_fast r l else allocate_hinted r.allocate_hint r l
allocate_in il_done_fast r l = allocate_all r.allocate_full l
allocate_in _ r l = (false, l)

unfoldable pub allocate : Replies → ImageLoader → Bool × ImageLoader
unfolding allocate_in
allocate r l = elim l.codec [ none ↦ (false, l) | some c ↦ allocate_in l.state r l ]

-- AbstractCodec::LoadImageData: an exception of the codec counts as the end of the image.
unfoldable pub codec_status : Option LoadStatus → LoadStatus
codec_status none = finished
codec_status (some s) = s

unfoldable pub is_aborted : LoadStatus → Bool
is_aborted aborted = true
is_aborted finished = false
is_aborted failed = false

unfoldable pub is_loading_full : InternalLoadState → Bool
is_loading_full il_loading_full = true
is_loading_full _ = false

-- The state after a codec that has finished or failed.
unfoldable pub after_data : InternalLoadState → InternalLoadState
after_data il_loading_fast = il_done_fast
after_data il_loading_full = il_done_full
after_data s = s

unfoldable pub data_loaded : LoadStatus → ImageLoader → ImageLoader
unfolding after_data
data_loaded aborted l = l
data_loaded finished l = record (call finish_image l) { state = after_data l.state }
data_loaded failed l = record (call finish_image l) { state = after_data l.state }

-- ImageLoader::LoadImageData; without a codec it uses a null pointer, which is `none`.
unfoldable pub load_image_data : Replies → ImageLoader → Option (Option LoadStatus × ImageLoader)
unfolding codec_status is_aborted is_loading_full data_loaded
load_image_data r l = elim l.codec [
  | none ↦ none
  | some c ↦
      if not l.reader_open
      then some (none, l)
      else let s = codec_status r.perform_load in
        let closed = not (is_aborted s) && is_loading_full l.state in
        some (some s, data_loaded s (record l { reader_open = not closed }))
]

unfoldable pub header_event : Option ImageLoader → Option (Option LoadEvent × ImageLoader)
header_event none = none
header_event (some l) = some (some load_event_header_loaded, l)

-- The handler of `Load` for all exceptions.
unfoldable pub allocated_event : Bool × ImageLoader → Option LoadEvent × ImageLoader
unfolding fail_state
allocated_event (true, l) = (some load_event_allocated, l)
allocated_event (false, l) = (none, fail_state l)

unfoldable pub loaded_event : Option LoadStatus × ImageLoader → Option LoadEvent × ImageLoader
unfolding fail_state
loaded_event (none, l) = (none, fail_state l)
loaded_event (some finished, l) = (some load_event_done, l)
loaded_event (some aborted, l) = (some load_event_none, l)
loaded_event (some failed, l) = (some load_event_none, l)

abbrev pub data_event :
    Option (Option LoadStatus × ImageLoader) → Option (Option LoadEvent × ImageLoader)
data_event none = none
data_event (some loaded) = some (loaded_event loaded)

-- `none` is the use of a null pointer; an event `none` is an exception that leaves `Load`.
unfoldable pub load : Replies → ImageLoader → Option (Option LoadEvent × ImageLoader)
unfolding get_state load_header header_event allocate allocated_event load_image_data loaded_event
load r l = elim (get_state l) [
  | load_state_unprocessed ↦ header_event (load_header r l)
  | load_state_header ↦ some (allocated_event (allocate r l))
  | load_state_loading ↦ data_event (load_image_data r l)
  | load_state_done ↦ some (some load_event_none, l)
]

-- `codec->EstimateMemory()`; `none` is Err::InvalidCall.
abbrev pub estimate_memory : Option Codec → Option ℕ
estimate_memory none = none
estimate_memory (some c) = some c.memory

unfoldable pub memory_in : InternalLoadState → Option Codec → Option ℕ
memory_in il_error c = some 0
memory_in il_unprocessed c = none
memory_in il_loaded_header c = estimate_memory c
memory_in il_loading_fast c = estimate_memory c
memory_in il_done_fast c = estimate_memory c
memory_in il_loading_full c = estimate_memory c
memory_in il_done_full c = estimate_memory c

unfoldable pub memory_requirements : ImageLoader → Option ℕ
unfolding memory_in
memory_requirements l = memory_in l.state l.codec

unfoldable pub fast_pass_finished : ImageLoader → Bool
fast_pass_finished l = elim l.state [
  | il_unprocessed ↦ false
  | il_loaded_header ↦ false
  | il_loading_fast ↦ false
  | _ ↦ true
]
