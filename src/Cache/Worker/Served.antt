-- ===== src/Cache/Worker/Served.antt =====
-- An update of the background thread, and one that fails.
use pictus.Base.{
  ℕ, ◌≡◌, refl, ◌∙◌, arith, Bool, true, false, ◌≢◌, ◌⊎◌, inl, inr, ◌+◌, Option, none, some, List,
  subst,
}
use pictus.Cache.Queue.{WorkRequest}
use pictus.Cache.Loader.{Replies}
use pictus.Cache.WorkList.{◌>>=◌, rebuild}
use pictus.Cache.WorkList.Choice.{AllValid}
use pictus.Cache.WorkList.Rebuilt.{rebuild-Follows, images, wanted}
use pictus.Cache.Worker.{
  Worker, State, st_stopped, st_running, st_updating, st_resuming, st_terminating, Place, at_lock,
  with_package, in_load, interrupted_load, after_load, ended, begin_load, fetch_package,
  locate_index, after_wait, after_update, turn, process, return_package, update, update_in,
  terminate, terminate_in, die,
}
use pictus.Cache.Worker.Fetch.{locate_index-Positioned}
use pictus.Cache.Worker.Invariant.{
  IsAlive, Fitting, Reached, Step, is_loading, begins, turns, processes, returns, updates,
  terminates, limits, queues,
}
use pictus.Cache.Worker.Alive.{Reached-IsAlive, return_package-Returns}
use pictus.Cache.Worker.Processed.{
  process-Processed, Processed, IsEndangered, begin_load-IsAlive, endangered-interrupted_load,
}

-- The rest of a turn from Load on, and the next turn at the lock.
unfoldable pub go_round : Replies → Worker → Option Worker
unfolding return_package turn process
go_round r w = process r w >>= λ u. return_package u >>= λ v. some (turn v)

-- The thread's own steps from its place, up to the next turn at the lock and with it; `none` is the
-- use of a null pointer, or of a codec that may be gone.
unfoldable pub serve_in : Place → Replies → Worker → Option Worker
unfolding return_package turn go_round
serve_in at_lock r w = some (turn w)
serve_in with_package r w = go_round r (begin_load w)
serve_in in_load r w = go_round r w
serve_in interrupted_load r w = go_round r w
serve_in after_load r w = return_package w >>= λ v. some (turn v)
serve_in ended r w = none

-- The update is done: the thread runs and holds no package, who waited is notified, and the packages
-- are those of the queue, in its order, within the new limit.
pub record IsServed (v : Worker) : Type 0 where
  pub running : v.state ≡ st_running
  pub notified : v.waits ≡ false
  pub free : v.current ≡ none
  pub follows : images v.work_list.packages ≡ wanted v.queue

after_update-IsServed :
    (w : Worker)
    → w.work_list.has_store ≡ true
    → AllValid w.work_list.packages
    → IsServed (after_update (rebuild w.queue w.work_list) w)
after_update-IsServed w store valid =
    let (x, runs, (same, _, _, _, _)) = rebuild-Follows w.queue w.work_list store valid in
    rw runs (record { running = refl; notified = refl; free = refl; follows = same })

turn-IsServed : (w : Worker) → IsAlive w → w.state ≡ st_updating → IsServed (turn w)
unfolding turn fetch_package after_wait
turn-IsServed w v e = elim (locate_index-Positioned w.work_list v.valid) [
  | inl none_left ↦
      rw (none_left, turn, e)
        (after_update-IsServed (record w { state = st_updating; has_current = true }) v.store
          v.valid)
  | inr (k, found, h) ↦
      rw (found, turn, e)
        (after_update-IsServed
          (record w { state = st_updating; current = some (0 + k); has_current = true }) v.store
          v.valid)
]

returned :
    (w : Worker)
    → IsAlive w
    → w.place ≡ after_load
    → w.state ≡ st_updating
    → (v : Worker) × ((return_package w >>= λ u. some (turn u)) ≡ some v) × IsServed v
returned w a e s =
    let (u, runs, alive, _, same) = return_package-Returns w a e in
    (turn u, rw runs refl, turn-IsServed u alive (same ∙ s))

-- The update is done, or the codec of an interrupted Load may be gone.
abbrev Serves : Replies → Worker → Option Worker → Type 0
Serves r w o = ((v : Worker) × (o ≡ some v) × IsServed v) ⊎ IsEndangered r w

go_round-Serves :
    (r : Replies) (w : Worker)
    → IsAlive w
    → r.own ≢ none
    → is_loading w.place ≡ true
    → w.state ≡ st_updating
    → Serves r w (go_round r w)
unfolding go_round
go_round-Serves r w a own e s = at (process r w) (process-Processed w r a e)
  where
    at :
        (o : Option Worker)
        → Processed r w o
        → Serves r w (o >>= λ u. return_package u >>= λ v. some (turn v))
    at none (inl null) = absurd (own null)
    at none (inr lost) = inr lost
    at (some u) (alive, same, behind) = inl (returned u alive behind (same ∙ s))

serve_in-Serves :
    (p : Place) (r : Replies) (w : Worker)
    → w.place ≡ p
    → IsAlive w
    → r.own ≢ none
    → w.state ≡ st_updating
    → Serves r w (serve_in p r w)
unfolding serve_in
serve_in-Serves at_lock r w e a own s = inl (turn w, refl, turn-IsServed w a s)
serve_in-Serves after_load r w e a own s = inl (returned w a e s)
serve_in-Serves in_load r w e a own s = go_round-Serves r w a own (rw e refl) s
serve_in-Serves interrupted_load r w e a own s = go_round-Serves r w a own (rw e refl) s
serve_in-Serves with_package r w e a own s =
    elim (go_round-Serves r (begin_load w) (begin_load-IsAlive w a e) own refl s) [
      | inl done ↦ inl done
      | inr (i, l, m, event, c, g, q, gone) ↦
          let away : in_load ≡ interrupted_load =
            endangered-interrupted_load in_load r l.codec m.codec gone in
          absurd (ground arith)
    ]
serve_in-Serves ended r w e a own s =
    let over : w.state ≡ st_stopped =
      subst (λ (p : Place). Fitting p w.state w.current) e a.fitting in
    absurd (ground arith)

-- In every state that is reached and that asks for an update, with a codec for the extension of the
-- file in hand: the thread's own next steps, with the package that it has in hand, use no null
-- pointer and end with the update done, unless another thread has called Abort during this Load and
-- Load may have deleted the codec.
pub update-IsServed :
    (limit : ℕ) (queue : List WorkRequest) (w : Worker) (r : Replies)
    → Reached limit queue w
    → r.own ≢ none
    → w.state ≡ st_updating
    → ((v : Worker) × (serve_in w.place r w ≡ some v) × IsServed v) ⊎ IsEndangered r w
update-IsServed limit queue w r h own s =
    serve_in-Serves w.place r w refl (Reached-IsAlive limit queue w h) own s

-- The thread is over, and a call of `Update(true)` waits.
abbrev pub IsStuck : Worker → Type 0
IsStuck w = (w.place ≡ ended) × (w.state ≡ st_stopped) × (w.waits ≡ true)

-- A call that finds the thread stopped does nothing.
stopped_call :
    (s : State) (wait : Bool) (w : Worker)
    → s ≡ st_stopped
    → IsStuck w
    → IsStuck (update_in s wait w) × IsStuck (terminate_in s w)
stopped_call st_stopped wait w e h = (h, h)
stopped_call st_running wait w e h = absurd (ground arith)
stopped_call st_updating wait w e h = absurd (ground arith)
stopped_call st_resuming wait w e h = absurd (ground arith)
stopped_call st_terminating wait w e h = absurd (ground arith)

-- No step of the thread or of others changes that.
pub Step-IsStuck : {w v : Worker} → Step w v → IsStuck w → IsStuck v
unfolding update terminate
Step-IsStuck (turns w e) h = absurd (ground arith)
Step-IsStuck (begins w e) h = absurd (ground arith)
Step-IsStuck (processes w v r e q) h =
    let elsewhere : is_loading w.place ≡ false = rw h.0 refl in absurd (ground arith)
Step-IsStuck (returns w u e q) h = absurd (ground arith)
Step-IsStuck (updates w wait) h = (stopped_call w.state wait w h.1 h).0
Step-IsStuck (terminates w) h = (stopped_call w.state false w h.1 h).1
Step-IsStuck (limits w n) h = h
Step-IsStuck (queues w c) h = h

pub data Steps : Worker → Worker → Type 0 where
  here : (w : Worker) → Steps w w
  more : (w u v : Worker) → Step w u → Steps u v → Steps w v

stays-IsStuck : {w v : Worker} → Steps w v → IsStuck w → IsStuck v
stays-IsStuck (here w) h = h
stays-IsStuck (more w u v s ss) h = stays-IsStuck ss (Step-IsStuck s h)

-- If `Rebuild` raises in an update, for which a call of `Update(true)` waits, the thread ends without
-- a notice, and the call waits after any further steps.
pub failed_update-IsStuck :
    (w : Worker) (found : Option ℕ)
    → w.state ≡ st_updating
    → w.waits ≡ true
    → locate_index w.work_list ≡ some found
    → rebuild w.queue w.work_list ≡ none
    → (v : Worker) → Steps (turn w) v
    → IsStuck v
unfolding turn fetch_package after_wait die
failed_update-IsStuck w none s waits located fails v steps =
    stays-IsStuck steps (rw (located, turn, s) (rw fails (refl, refl, waits)))
failed_update-IsStuck w (some i) s waits located fails v steps =
    stays-IsStuck steps (rw (located, turn, s) (rw fails (refl, refl, waits)))
