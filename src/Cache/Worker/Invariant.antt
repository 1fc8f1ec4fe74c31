-- ===== src/Cache/Worker/Invariant.antt =====
-- The steps of the background thread and of other threads, what holds between them, and the calls of
-- other threads.
use pictus.Base.{
  ℕ, zero, suc, ◌<◌, ◌≡◌, ◌≢◌, refl, ap, arith, Bool, true, false, ◌||◌, Option, none, some, List,
  [], ◌∷◌, ◌++◌, length, get_elem?,
}
use pictus.Cache.Queue
use pictus.Cache.Queue.{WorkRequest}
use pictus.Cache.Loader.{ImageLoader, Replies, abort}
use pictus.Cache.Loader.States.{IsValid}
use pictus.Cache.Loader.Reach.{Steps-IsValid, aborts}
use pictus.Cache.WorkList.{set_memory_limit}
use pictus.Cache.WorkList.Choice.{AllValid}
use pictus.Cache.Worker.{
  Worker, State, st_stopped, st_running, st_updating, st_resuming, st_terminating, Place, at_lock,
  with_package, in_load, interrupted_load, after_load, begin_load, interrupted, ended, LoadMessage,
  msg_load_error_critical, update_at, turn, process, return_package, update, update_in, terminate,
  terminate_in, interrupt, change, start,
}

abbrev pub is_loading : Place → Bool
is_loading in_load = true
is_loading interrupted_load = true
is_loading _ = false

-- What one thread or the other does next, while the thread is at its place; the steps of others may
-- come while the thread is in Load. A step that would use a pointer that is null, or that may be
-- gone, leads nowhere.
pub data Step : Worker → Worker → Type 0 where
  turns : (w : Worker) → w.place ≡ at_lock → Step w (turn w)
  begins : (w : Worker) → w.place ≡ with_package → Step w (begin_load w)
  processes :
      (w v : Worker) (r : Replies) → is_loading w.place ≡ true → process r w ≡ some v → Step w v
  returns : (w v : Worker) → w.place ≡ after_load → return_package w ≡ some v → Step w v
  updates : (w : Worker) (wait : Bool) → Step w (update wait w)
  terminates : (w : Worker) → Step w (terminate w)
  limits : (w : Worker) (n : ℕ) → Step w (record w { work_list = set_memory_limit n w.work_list })
  queues : (w : Worker) (c : Queue.Call) → Step w (record w { queue = Queue.step w.queue c })

pub data Reached (limit : ℕ) (queue : List WorkRequest) : Worker → Type 0 where
  started : Reached limit queue (start true limit queue)
  stepped : (w v : Worker) → Reached limit queue w → Step w v → Reached limit queue v

abbrev pub is_critical : LoadMessage → Bool
is_critical msg_load_error_critical = true
is_critical _ = false

abbrev pub NoneCritical : List LoadMessage → Type 0
NoneCritical [] = Unit
NoneCritical (m ∷ ms) = (is_critical m ≡ false) × NoneCritical ms

abbrev pub InList : Option ℕ → List ImageLoader → Type 0
InList none ps = Unit
InList (some i) ps = i < length ps

-- The thread has a package where it needs one, and is at its end only where it is stopped.
abbrev pub Fitting : Place → State → Option ℕ → Type 0
Fitting at_lock s c = s ≢ st_stopped
Fitting with_package s c = (s ≢ st_stopped) × (c ≢ none)
Fitting in_load s c = (s ≢ st_stopped) × (c ≢ none)
Fitting interrupted_load s c = (s ≢ st_stopped) × (c ≢ none)
Fitting after_load s c = (s ≢ st_stopped) × (c ≢ none)
Fitting ended s c = s ≡ st_stopped

pub record IsAlive (w : Worker) : Type 0 where
  pub valid : AllValid w.work_list.packages
  pub store : w.work_list.has_store ≡ true
  pub held : InList w.current w.work_list.packages
  pub fitting : Fitting w.place w.state w.current
  pub quiet : NoneCritical w.messages

update_at-AllValid :
    (f : ImageLoader → ImageLoader) (i : ℕ) (ps : List ImageLoader)
    → ((l : ImageLoader) → get_elem? ps i ≡ some l → IsValid l → IsValid (f l))
    → AllValid ps
    → AllValid (update_at i f ps)
update_at-AllValid f i [] h v = tt
update_at-AllValid f zero (p ∷ ps) h v = (h p refl v.0, v.1)
update_at-AllValid f (suc i) (p ∷ ps) h v = (v.0, update_at-AllValid f i ps h v.1)

length-update_at :
    (f : ImageLoader → ImageLoader) (i : ℕ) (ps : List ImageLoader)
    → length (update_at i f ps) ≡ length ps
length-update_at f i [] = refl
length-update_at f zero (p ∷ ps) = refl
length-update_at f (suc i) (p ∷ ps) = ap suc (length-update_at f i ps)

pub NoneCritical-append :
    (ms ns : List LoadMessage) → NoneCritical ms → NoneCritical ns → NoneCritical (ms ++ ns)
NoneCritical-append [] ns h k = k
NoneCritical-append (m ∷ ms) ns h k = (h.0, NoneCritical-append ms ns h.1 k)

pub AllValid-get :
    (ps : List ImageLoader) (i : ℕ) (l : ImageLoader)
    → get_elem? ps i ≡ some l
    → AllValid ps
    → IsValid l
AllValid-get [] i l e v = absurd (ground arith)
AllValid-get (p ∷ ps) zero l e v = let q : p ≡ l = cc in rw (← q) v.0
AllValid-get (p ∷ ps) (suc i) l e v = AllValid-get ps i l e v.1

pub change-AllValid :
    (f : ImageLoader → ImageLoader) (c : Option ℕ) (ps : List ImageLoader)
    → ((l : ImageLoader) → IsValid l → IsValid (f l))
    → AllValid ps
    → AllValid (change f c ps)
change-AllValid f none ps h v = v
change-AllValid f (some i) ps h v = update_at-AllValid f i ps (λ l e. h l) v

pub change-InList :
    (f : ImageLoader → ImageLoader) (c d : Option ℕ) (ps : List ImageLoader)
    → InList d ps
    → InList d (change f c ps)
change-InList f none d ps h = h
change-InList f (some i) none ps h = tt
change-InList f (some i) (some k) ps h = rw (length-update_at f i ps) h

refit :
    (p : Place) (s t : State) (c : Option ℕ)
    → s ≢ st_stopped
    → t ≢ st_stopped
    → Fitting p s c
    → Fitting (interrupted p) t c
refit at_lock s t c h k v = k
refit with_package s t c h k v = (k, v.1)
refit in_load s t c h k v = (k, v.1)
refit interrupted_load s t c h k v = (k, v.1)
refit after_load s t c h k v = (k, v.1)
refit ended s t c h k v = absurd (h v)

interrupt-IsAlive :
    (s : State) (w : Worker)
    → w.state ≢ st_stopped
    → s ≢ st_stopped
    → IsAlive w
    → IsAlive (interrupt s w)
unfolding interrupt
interrupt-IsAlive s w h k v = record {
  valid =
      change-AllValid abort w.current w.work_list.packages (λ l. Steps-IsValid (aborts l)) v.valid;
  store = v.store;
  held = change-InList abort w.current w.current w.work_list.packages v.held;
  fitting = refit w.place w.state s w.current h k v.fitting;
  quiet = v.quiet;
}

waiting :
    (wait : Bool) (w : Worker)
    → {u : Worker} → IsAlive u
    → IsAlive (record u { waits = wait || w.waits })
waiting wait w v = record {
  valid = v.valid;
  store = v.store;
  held = v.held;
  fitting = v.fitting;
  quiet = v.quiet;
}

pub update_in-IsAlive :
    (s : State) (wait : Bool) (w : Worker) → w.state ≡ s → IsAlive w → IsAlive (update_in s wait w)
update_in-IsAlive st_stopped wait w e v = v
update_in-IsAlive st_running wait w e v =
    waiting wait w (interrupt-IsAlive st_updating w (ground arith) (ground arith) v)
update_in-IsAlive st_updating wait w e v =
    waiting wait w (interrupt-IsAlive st_updating w (ground arith) (ground arith) v)
update_in-IsAlive st_resuming wait w e v =
    waiting wait w (interrupt-IsAlive st_updating w (ground arith) (ground arith) v)
update_in-IsAlive st_terminating wait w e v =
    waiting wait w (interrupt-IsAlive st_updating w (ground arith) (ground arith) v)

pub terminate_in-IsAlive :
    (s : State) (w : Worker) → w.state ≡ s → IsAlive w → IsAlive (terminate_in s w)
terminate_in-IsAlive st_stopped w e v = v
terminate_in-IsAlive st_running w e v =
    interrupt-IsAlive st_terminating w (ground arith) (ground arith) v
terminate_in-IsAlive st_updating w e v =
    interrupt-IsAlive st_terminating w (ground arith) (ground arith) v
terminate_in-IsAlive st_resuming w e v =
    interrupt-IsAlive st_terminating w (ground arith) (ground arith) v
terminate_in-IsAlive st_terminating w e v =
    interrupt-IsAlive st_terminating w (ground arith) (ground arith) v
