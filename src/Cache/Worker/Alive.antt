-- ===== src/Cache/Worker/Alive.antt =====
-- The steps of the background thread.
use pictus.Base.{
  ℕ, ◌≡◌, refl, arith, Bool, true, false, Option, none, some, List, subst, if◌then◌else◌,
}
use pictus.Cache.Queue.{WorkRequest}
use pictus.Cache.Loader.{reset_abort}
use pictus.Cache.Loader.Reach.{Steps-IsValid, resets}
use pictus.Cache.WorkList.{set_memory_limit}
use pictus.Cache.Worker.{
  Worker, Place, at_lock, after_load, process, is_empty, give_back, return_package, update,
  terminate, start,
}
use pictus.Cache.Worker.Invariant.{
  Step, begins, turns, processes, returns, updates, terminates, limits, queues, Reached, started,
  stepped, Fitting, IsAlive, change-AllValid, change-InList, update_in-IsAlive,
  terminate_in-IsAlive,
}
use pictus.Cache.Worker.Turn.{turn-IsAlive}
use pictus.Cache.Worker.Processed.{process-Processed, Processed-IsAlive, begin_load-IsAlive}

-- What ReturnPackage does.
abbrev pub Returns : Worker → Option Worker → Type 0
Returns w o = (u : Worker) × (o ≡ some u) × IsAlive u × (u.place ≡ at_lock) × (u.state ≡ w.state)

pub return_package-Returns :
    (w : Worker) → IsAlive w → w.place ≡ after_load → Returns w (return_package w)
unfolding return_package
return_package-Returns w v e =
    let fits : Fitting after_load w.state w.current =
      subst (λ (p : Place). Fitting p w.state w.current) e v.fitting in
    at (is_empty w.work_list.packages) w.has_current w.current refl fits
  where
    at :
        (a b : Bool) (c : Option ℕ)
        → w.current ≡ c
        → Fitting after_load w.state w.current
        → Returns w (
            if a
            then some (record w { place = at_lock })
            else if b
            then give_back c w
            else some (record w { place = at_lock }))
    at true b c q f = (
      _,
      refl,
      record { valid = v.valid; store = v.store; held = v.held; fitting = f.0; quiet = v.quiet },
      refl,
      refl,
    )
    at false false c q f = (
      _,
      refl,
      record { valid = v.valid; store = v.store; held = v.held; fitting = f.0; quiet = v.quiet },
      refl,
      refl,
    )
    at false true none q f = absurd (f.1 q)
    at false true (some i) q f = (
      _,
      refl,
      record {
        valid =
            change-AllValid reset_abort (some i) w.work_list.packages
              (λ l. Steps-IsValid (resets l)) v.valid;
        store = v.store;
        held = change-InList reset_abort (some i) w.current w.work_list.packages v.held;
        fitting = f.0;
        quiet = v.quiet;
      },
      refl,
      refl,
    )

Step-IsAlive : {w v : Worker} → Step w v → IsAlive w → IsAlive v
unfolding update terminate set_memory_limit
Step-IsAlive (turns w e) h = turn-IsAlive w h e
Step-IsAlive (begins w e) h = begin_load-IsAlive w h e
Step-IsAlive (processes w v r e q) h =
    Processed-IsAlive r w (process r w) (process-Processed w r h e) q
Step-IsAlive (returns w u e q) h =
    let (x, runs, alive, _, _) = return_package-Returns w h e in
    let same : x ≡ u = cc in rw (← same) alive
Step-IsAlive (updates w wait) h = update_in-IsAlive w.state wait w refl h
Step-IsAlive (terminates w) h = terminate_in-IsAlive w.state w refl h
Step-IsAlive (limits w n) h = record {
  valid = h.valid;
  store = h.store;
  held = h.held;
  fitting = h.fitting;
  quiet = h.quiet;
}
Step-IsAlive (queues w c) h = record {
  valid = h.valid;
  store = h.store;
  held = h.held;
  fitting = h.fitting;
  quiet = h.quiet;
}

-- From the start with a factory store, in every state that the thread and the calls of other threads
-- reach in any order, the calls that come while the thread is in Load included, as long as no step
-- uses a null pointer for want of a codec for an extension or a codec that Load may have deleted: the
-- loaders are valid, the package that the thread holds is one of the work list, the thread has a
-- package wherever it uses one, it ends only where it was stopped, and no exception has ended it.
pub Reached-IsAlive :
    (limit : ℕ) (queue : List WorkRequest) (w : Worker) → Reached limit queue w → IsAlive w
unfolding start
Reached-IsAlive limit queue w started = record {
  valid = tt;
  store = refl;
  held = tt;
  fitting = ground arith;
  quiet = tt;
}
Reached-IsAlive limit queue w (stepped u v h s) = Step-IsAlive s (Reached-IsAlive limit queue u h)
