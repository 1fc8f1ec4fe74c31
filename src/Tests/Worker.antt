-- ===== src/Tests/Worker.antt =====
-- The background thread (source/Pictus/ic_workerthread.cpp) with an image to load.
use pictus.Base.{◌≡◌, refl, arith, true, false, some, none, Option, ◌⊎◌, List, [], ◌∷◌}
use pictus.Cache.Queue
use pictus.Cache.Queue.{WorkRequest}
use pictus.Cache.Loader.{
  new_loader, allow_fast_skip, get_state, Replies, allocated, not_supported, finished,
}
use pictus.Cache.WorkList.{rebuild}
use pictus.Cache.Worker.{
  Worker, start, update, turn, process, st_updating, locate_index, msg_load_header, LoadMessage,
  begin_load,
}
use pictus.Cache.Worker.Invariant.{
  Reached, started, stepped, turns, begins, updates, queues, IsAlive,
}
use pictus.Cache.Worker.Alive.{Reached-IsAlive}
use pictus.Cache.Worker.Processed.{IsEndangered}
use pictus.Cache.Worker.Served.{
  serve_in, IsServed, update-IsServed, IsStuck, here, more, failed_update-IsStuck,
}

abbrev wanted_image : List WorkRequest
wanted_image = record { image = some 3; filename = "a.png" } ∷ []

abbrev at_start : Worker
at_start = start true 100 []

-- The queue has an image, and `Update(true)` was called.
abbrev asked : Worker
asked = update true (record at_start { queue = Queue.step [] (Queue.cache_image wanted_image) })

asked-Reached : Reached 100 [] asked
unfolding start
asked-Reached =
    stepped (record at_start { queue = Queue.step [] (Queue.cache_image wanted_image) }) asked
      (stepped at_start (record at_start { queue = Queue.step [] (Queue.cache_image wanted_image) })
        started (queues at_start (Queue.cache_image wanted_image)))
      (updates (record at_start { queue = Queue.step [] (Queue.cache_image wanted_image) }) true)

abbrev all_fine : Replies
all_fine = record {
  opens = true;
  is_open = true;
  own = some (record { estimate = 100; can_detect = true; loads_header = true });
  others = [];
  header_raises = false;
  has_hint = true;
  allocate_hint = not_supported;
  allocate_full = allocated;
  perform_load = some finished;
}

asked_state : asked.state ≡ st_updating
unfolding start update
asked_state = refl

messages_of : Option Worker → List LoadMessage
messages_of none = []
messages_of (some w) = w.messages

-- The update, the choice of the package and its header.
header_read : messages_of (process all_fine (turn (turn asked))) ≡ msg_load_header ∷ []
unfolding messages_of start update turn process Queue.step allow_fast_skip new_loader
header_read = refl

-- The extension has no codec.
null_used : process (record all_fine { own = none }) (turn (turn asked)) ≡ none
unfolding start update turn process Queue.step allow_fast_skip new_loader
null_used = refl

abbrev first_turn : Worker
first_turn = turn asked

abbrev in_hand : Worker
in_hand = turn first_turn

-- The thread is in Load, and an update is asked for.
abbrev asked_in_load : Worker
asked_in_load = update true (begin_load in_hand)

asked_in_load-Reached : Reached 100 [] asked_in_load
unfolding start update turn Queue.step allow_fast_skip new_loader get_state
asked_in_load-Reached =
    stepped (begin_load in_hand) asked_in_load
      (stepped in_hand (begin_load in_hand)
        (stepped first_turn in_hand (stepped asked first_turn asked-Reached (turns asked refl))
          (turns first_turn refl))
        (begins in_hand refl))
      (updates (begin_load in_hand) true)

Reached-IsAlive_example : IsAlive asked_in_load
Reached-IsAlive_example = Reached-IsAlive 100 [] asked_in_load asked_in_load-Reached

asked_in_load_state : asked_in_load.state ≡ st_updating
unfolding start update turn Queue.step allow_fast_skip new_loader get_state
asked_in_load_state = refl

update-IsServed_example :
    ((v : Worker) × (serve_in asked_in_load.place all_fine asked_in_load ≡ some v) × IsServed v)
    ⊎ IsEndangered all_fine asked_in_load
update-IsServed_example =
    update-IsServed 100 [] asked_in_load all_fine asked_in_load-Reached (ground arith)
      asked_in_load_state

-- The same without a factory store.
abbrev without_store : Worker
without_store = record (start false 100 wanted_image) { state = st_updating; waits = true }

nothing_located : locate_index without_store.work_list ≡ some none
unfolding start locate_index
nothing_located = refl

rebuild_raises : rebuild without_store.queue without_store.work_list ≡ none
unfolding start rebuild
rebuild_raises = refl

failed_update-IsStuck_example : IsStuck (update true (turn without_store))
failed_update-IsStuck_example =
    failed_update-IsStuck without_store none refl refl nothing_located rebuild_raises
      (update true (turn without_store))
      (more (turn without_store) (update true (turn without_store))
        (update true (turn without_store)) (updates (turn without_store) true)
        (here (update true (turn without_store))))
