-- ===== src/Cache/Worker.antt =====
-- ic_workerthread.cpp, with FetchPackage and ReturnPackage of ic_worklist.cpp: the background thread
-- between its locks, and the calls of the other threads. The loader of the package that the thread
-- holds is one of the work list, by its position: both share one object.

pub mod Fetch
pub mod Invariant
pub mod Turn
pub mod Processed
pub mod Alive
pub mod Served
use pictus.Base.{
  ℕ, zero, suc, ◌+◌, ◌%◌, Bool, true, false, ◌||◌, Option, none, some, List, [], ◌∷◌, ◌++◌,
  if◌then◌else◌, get_elem?,
}
use pictus.Cache.Queue.{WorkRequest}
use pictus.Cache.Cacher.{size_mod}
use pictus.Cache.Loader.{
  ImageLoader, Codec, InternalLoadState, il_error, LoadEvent, load_event_none,
  load_event_header_loaded, load_event_allocated, load_event_done, Replies, load, abort,
  reset_abort,
}
use pictus.Cache.WorkList.{
  WorkList, ◌>>=◌, suitable_work_package, memory_usage, operation, WorkOperation, wo_load_image,
  wo_undefined, wo_done, rebuild,
}

-- DecoderWorkerThread::State
pub data State : Type 0 where
  st_stopped st_running st_updating st_resuming st_terminating : State

-- Where the thread is: at the lock of its loop, behind it with a package, in Load, in a Load during
-- which another thread has called Abort, behind Load, or at its end.
pub data Place : Type 0 where
  at_lock with_package in_load interrupted_load after_load ended : Place

pub data LoadMessage : Type 0 where
  msg_load_header msg_load_allocated msg_load_done msg_load_error_image msg_load_error_critical :
      LoadMessage

-- `current` is `m_package.Loader`, `has_current` whether `m_currPackage` is set (it then points to
-- `m_package`), `waits` whether a call of `Update(true)` waits on `m_cdUpdated`; `messages` are those
-- that the receiver has got, newest last.
pub record Worker : Type 0 where
  pub state : State
  pub place : Place
  pub work_list : WorkList
  pub current : Option ℕ
  pub has_current : Bool
  pub queue : List WorkRequest
  pub waits : Bool
  pub messages : List LoadMessage

-- The loop of `ScanForPackage`, with the position of the package that it finds.
unfoldable pub scan_index : ℕ → Bool → ℕ → ℕ → List ImageLoader → Option (Option ℕ)
unfolding suitable_work_package memory_usage
scan_index limit fast curr_used i [] = some none
scan_index limit fast curr_used i (p ∷ ps) =
    suitable_work_package p curr_used fast limit >>= λ suits. elim suits [
      | true ↦ some (some i)
      | false ↦ memory_usage p >>= λ usage.
          scan_index limit fast ((curr_used + usage) % size_mod) (i + 1) ps
    ]

unfoldable pub scan_again : WorkList → Option ℕ → Option (Option ℕ)
unfolding scan_index
scan_again w (some i) = some (some i)
scan_again w none = scan_index w.memory_limit false 0 0 w.packages

unfoldable pub locate_index : WorkList → Option (Option ℕ)
unfolding scan_index scan_again
locate_index w = scan_index w.memory_limit true 0 0 w.packages >>= scan_again w

abbrev pub keep_found : Option ℕ → Worker → Bool × Worker
keep_found none w = (false, record w { has_current = true })
keep_found (some i) w = (true, record w { current = some i; has_current = true })

-- `none` is an exception.
unfoldable pub fetch_package : Worker → Option (Bool × Worker)
unfolding locate_index
fetch_package w = locate_index w.work_list >>= λ found. some (keep_found found w)

abbrev pub update_at : ℕ → (ImageLoader → ImageLoader) → List ImageLoader → List ImageLoader
update_at i f [] = []
update_at zero f (p ∷ ps) = f p ∷ ps
update_at (suc i) f (p ∷ ps) = p ∷ update_at i f ps

abbrev pub change : (ImageLoader → ImageLoader) → Option ℕ → List ImageLoader → List ImageLoader
change f none ps = ps
change f (some i) ps = update_at i f ps

abbrev pub on_package : (ImageLoader → ImageLoader) → Option ℕ → Worker → Worker
on_package f c w = record w {
  work_list = record w.work_list { packages = change f c w.work_list.packages };
}

abbrev pub send : LoadMessage → Worker → Worker
send m w = record w { messages = w.messages ++ m ∷ [] }

-- The handlers of ThreadMain.
unfoldable pub die : Worker → Worker
die w = record (send msg_load_error_critical w) { state = st_stopped; place = ended }

-- PerformUpdate and the rest of the update, for the result of `Rebuild`: the state is running again,
-- and who waits is notified.
abbrev pub after_update : Option WorkList → Worker → Worker
after_update none w = die w
after_update (some wl) w = record w {
  work_list = wl;
  current = none;
  state = st_running;
  waits = false;
}

-- Behind the loop of the wait, at the states that end it; the last two wait, or go on with a package.
unfoldable pub after_wait : State → Bool → Worker → Worker
unfolding rebuild die
after_wait st_updating found w = after_update (rebuild w.queue w.work_list) w
after_wait st_terminating found w = record w { state = st_stopped; place = ended }
after_wait st_running true w = record w { place = with_package }
after_wait st_stopped true w = record w { place = with_package }
after_wait st_resuming true w = record w { place = with_package }
after_wait _ false w = w

abbrev pub fetched_turn : Option (Bool × Worker) → Worker → Worker
fetched_turn none w = die w
fetched_turn (some (found, v)) w = after_wait v.state found v

-- The locked part of one turn of ThreadMain, up to the next wait or the end of the block.
unfoldable pub turn : Worker → Worker
unfolding fetch_package after_wait die
turn w = fetched_turn (fetch_package w) w

-- DetermineNotification, behind the test for LoadEventNone; an exception of Load is reported.
unfoldable pub event_messages : Option LoadEvent → List LoadMessage
event_messages none = msg_load_error_image ∷ []
event_messages (some load_event_none) = []
event_messages (some load_event_header_loaded) = msg_load_header ∷ []
event_messages (some load_event_allocated) = msg_load_allocated ∷ []
event_messages (some load_event_done) = msg_load_done ∷ []

-- `image->Error()`, which is not asked behind an exception.
unfoldable pub error_messages : Option LoadEvent → InternalLoadState → List LoadMessage
error_messages none s = []
error_messages (some e) il_error = msg_load_error_image ∷ []
error_messages (some e) _ = []

-- The thread enters Load.
abbrev pub begin_load : Worker → Worker
begin_load w = record w { place = in_load }

-- Whether Load may have deleted a codec, which it had before or made for the header, while Abort of
-- another thread used it.
unfoldable pub endangered : Place → Replies → Option Codec → Option Codec → Bool
endangered interrupted_load r (some c) none = true
endangered interrupted_load r none none = r.header_raises
endangered _ _ _ _ = false

abbrev pub process_loaded :
    Replies → ℕ → ImageLoader → Worker → Option (Option LoadEvent × ImageLoader) → Option Worker
process_loaded r i l w none = none
process_loaded r i l w (some (event, loaded)) =
    if endangered w.place r l.codec loaded.codec
    then none
    else some (record (on_package (λ _. loaded) (some i) w) {
      messages = w.messages ++ event_messages event ++ error_messages event loaded.state;
    })

unfoldable pub process_image : Replies → ℕ → ImageLoader → Worker → Option Worker
unfolding load event_messages error_messages endangered
process_image r i l w = process_loaded r i l w (load r l)

abbrev pub process_in : WorkOperation → Replies → ℕ → ImageLoader → Worker → Option Worker
process_in wo_load_image r i l w = process_image r i l w
process_in wo_done r i l w = some w
process_in wo_undefined r i l w = some w

abbrev pub behind_load : Option Worker → Option Worker
behind_load none = none
behind_load (some w) = some (record w { place = after_load })

abbrev pub process_found : Replies → ℕ → Option ImageLoader → Worker → Option Worker
process_found r i none w = some (die w)
process_found r i (some l) w = behind_load (process_in (operation l) r i l w)

abbrev pub process_at : Replies → Option ℕ → Worker → Option Worker
process_at r none w = some (die w)
process_at r (some i) w = process_found r i (get_elem? w.work_list.packages i) w

-- Lines 46 and 47, outside of the lock, to the end of Load. Without a loader `Operation` raises;
-- `none` is the use of a null pointer, or of a codec that may be gone.
unfoldable pub process : Replies → Worker → Option Worker
unfolding process_image operation die
process r w = process_at r w.current w

abbrev pub is_empty : List ImageLoader → Bool
is_empty [] = true
is_empty (p ∷ ps) = false

abbrev pub give_back : Option ℕ → Worker → Option Worker
give_back none w = none
give_back (some i) w = some (record (on_package reset_abort (some i) w) { place = at_lock })

-- ReturnPackage, outside of the lock; `none` is the use of a null pointer.
unfoldable pub return_package : Worker → Option Worker
unfolding reset_abort
return_package w =
    if is_empty w.work_list.packages
    then some (record w { place = at_lock })
    else if w.has_current
    then give_back w.current w
    else some (record w { place = at_lock })

abbrev pub interrupted : Place → Place
interrupted in_load = interrupted_load
interrupted p = p

-- The call of Abort, and a new state.
unfoldable pub interrupt : State → Worker → Worker
unfolding abort
interrupt s w = record (on_package abort w.current w) { state = s; place = interrupted w.place }

abbrev pub update_in : State → Bool → Worker → Worker
update_in st_stopped wait w = w
update_in _ wait w = record (interrupt st_updating w) { waits = wait || w.waits }

-- Update, by another thread.
unfoldable pub update : Bool → Worker → Worker
unfolding interrupt
update wait w = update_in w.state wait w

abbrev pub terminate_in : State → Worker → Worker
terminate_in st_stopped w = w
terminate_in _ w = interrupt st_terminating w

-- Terminate, up to the join.
unfoldable pub terminate : Worker → Worker
unfolding interrupt
terminate w = terminate_in w.state w

-- Start, with a work list that has no packages yet.
unfoldable pub start : Bool → ℕ → List WorkRequest → Worker
start has_store limit queue = record {
  state = st_running;
  place = at_lock;
  work_list = record {
    packages = [];
    memory_limit = 0;
    new_memory_limit = limit;
    has_store = has_store;
  };
  current = none;
  has_current = false;
  queue = queue;
  waits = false;
  messages = [];
}
