-- ===== src/Cache/Worker/Turn.antt =====
-- A turn of the loop of the background thread (source/Pictus/ic_workerthread.cpp) keeps it alive.
use pictus.Base.{
  ℕ, ◌+◌, ◌≡◌, ◌≢◌, refl, ◌∙◌, arith, Bool, true, false, inl, inr, Option, none, some,
}
use pictus.Cache.WorkList.{rebuild}
use pictus.Cache.WorkList.Rebuilt.{rebuild-Follows}
use pictus.Cache.Worker.{
  Worker, State, st_stopped, st_running, st_updating, st_resuming, st_terminating, Place, at_lock,
  with_package, in_load, interrupted_load, after_load, ended, fetch_package, after_wait,
  after_update, turn,
}
use pictus.Cache.Worker.Fetch.{locate_index-Positioned}
use pictus.Cache.Worker.Invariant.{InList, Fitting, IsAlive}

after_update-IsAlive :
    (w : Worker)
    → IsAlive w
    → w.place ≡ at_lock
    → IsAlive (after_update (rebuild w.queue w.work_list) w)
after_update-IsAlive w v e =
    let (x, runs, (_, valid, _, _, same)) = rebuild-Follows w.queue w.work_list v.store v.valid in
    rw runs (record {
      valid = valid;
      store = same ∙ v.store;
      held = tt;
      fitting = rw e (ground arith);
      quiet = v.quiet;
    })

at_lock_running : (w : Worker) → IsAlive w → w.place ≡ at_lock → w.state ≢ st_stopped
at_lock_running w v e = fit w.place e v.fitting
  where
    fit : (p : Place) → p ≡ at_lock → Fitting p w.state w.current → w.state ≢ st_stopped
    fit at_lock q f = f
    fit with_package q f = f.0
    fit in_load q f = f.0
    fit interrupted_load q f = f.0
    fit after_load q f = f.0
    fit ended q f = absurd (ground arith)

gone_on :
    (w : Worker)
    → IsAlive w
    → w.state ≢ st_stopped
    → w.current ≢ none
    → IsAlive (record w { place = with_package })
gone_on w v h k = record {
  valid = v.valid;
  store = v.store;
  held = v.held;
  fitting = (h, k);
  quiet = v.quiet;
}

-- A worker at the lock goes on.
after_wait-IsAlive :
    (s : State) (found : Bool) (w : Worker)
    → w.state ≡ s
    → w.place ≡ at_lock
    → (found ≡ true → w.current ≢ none)
    → IsAlive w
    → IsAlive (after_wait s found w)
unfolding after_wait
after_wait-IsAlive st_updating found w e p h v = after_update-IsAlive w v p
after_wait-IsAlive st_terminating found w e p h v = record {
  valid = v.valid;
  store = v.store;
  held = v.held;
  fitting = refl;
  quiet = v.quiet;
}
after_wait-IsAlive st_running true w e p h v = gone_on w v (ground arith) (h refl)
after_wait-IsAlive st_resuming true w e p h v = gone_on w v (ground arith) (h refl)
after_wait-IsAlive st_stopped true w e p h v = absurd (at_lock_running w v p e)
after_wait-IsAlive st_running false w e p h v = v
after_wait-IsAlive st_resuming false w e p h v = v
after_wait-IsAlive st_stopped false w e p h v = v

set_current :
    (w : Worker) (c : Option ℕ)
    → IsAlive w
    → w.place ≡ at_lock
    → InList c w.work_list.packages
    → IsAlive (record w { current = c; has_current = true })
set_current w c v e h = record {
  valid = v.valid;
  store = v.store;
  held = h;
  fitting = rw e (at_lock_running w v e);
  quiet = v.quiet;
}

pub turn-IsAlive : (w : Worker) → IsAlive w → w.place ≡ at_lock → IsAlive (turn w)
unfolding turn fetch_package
turn-IsAlive w v e = elim (locate_index-Positioned w.work_list v.valid) [
  | inl none_left ↦
      rw (none_left, turn)
        (after_wait-IsAlive w.state false (record w { has_current = true }) refl e
          (λ h. absurd (ground arith)) (set_current w w.current v e v.held))
  | inr (k, found, h) ↦
      rw (found, turn)
        (after_wait-IsAlive w.state true (record w { current = some (0 + k); has_current = true })
          refl e (λ h. ground arith) (set_current w (some (0 + k)) v e (omega arith)))
]
