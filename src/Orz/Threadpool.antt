-- ===== src/Orz/Threadpool.antt =====
-- source/deps/orz/threadpool.cpp: the queue of tasks, the threads that run them, and the thread that
-- owns the pool and calls `JoinAll` and the destructor. A step is what one thread does from the
-- lock of `m_mxTasks` to the next unlock or wait; a task runs between two steps, and
-- returns: tasks that raise are not modelled.

pub mod Steps
pub mod Moved
pub mod Preserved
pub mod Joined
use pictus.Base.{
  ℕ, zero, suc, ◌+◌, ◌%◌, Bool, true, false, ◌&&◌, ◌==◌, List, [], ◌∷◌, ◌++◌, if◌then◌else◌,
}
use pictus.Cache.Cacher.{size_mod, pred_size}

-- Where a thread of `Worker` is: at the lock in front of the loop, in the wait for work or notified
-- there, in a task, or at its end.
pub data Stage {ℓ} (T : Type ℓ) : Type ℓ where
  at_loop waits_for_work woken left : Stage T
  running : T → Stage T

-- Where the owner is: in other code, at the test of `JoinAll`, in its wait, behind it, or behind the
-- notice of the destructor.
pub data Owner : Type 0 where
  elsewhere at_test waits_for_idle joined closed : Owner

-- `added` has the tasks that were ever added, `finished` those that have returned.
pub record Threadpool {ℓ} (T : Type ℓ) : Type ℓ where
  pub tasks : List T
  pub terminate : Bool
  pub num_running : ℕ
  pub threads : List (Stage T)
  pub owner : Owner
  pub added : List T
  pub finished : List T

unfoldable pub is_empty {ℓ} : {A : Type ℓ} → List A → Bool
is_empty [] = true
is_empty (x ∷ xs) = false

unfoldable pub notified {ℓ} : {T : Type ℓ} → Stage T → Stage T
notified at_loop = at_loop
notified waits_for_work = woken
notified woken = woken
notified left = left
notified (running t) = running t

-- `m_cdWorkAvail.notify_all`
unfoldable pub wake {ℓ} : {T : Type ℓ} → List (Stage T) → List (Stage T)
unfolding notified
wake [] = []
wake (s ∷ ss) = notified s ∷ wake ss

-- `m_cdIdle.notify_all`
unfoldable pub notify_idle : Owner → Owner
notify_idle elsewhere = elsewhere
notify_idle at_test = at_test
notify_idle waits_for_idle = at_test
notify_idle joined = joined
notify_idle closed = closed

unfoldable pub add_task {ℓ} : {T : Type ℓ} → T → Threadpool T → Threadpool T
unfolding wake
add_task t p = record p {
  tasks = p.tasks ++ (t ∷ []);
  threads = wake p.threads;
  added = p.added ++ (t ∷ []);
}

-- The condition under which `JoinAll` returns.
unfoldable pub is_idle {ℓ} : {T : Type ℓ} → Threadpool T → Bool
unfolding is_empty
is_idle p = (p.num_running == 0) && is_empty p.tasks

unfoldable pub join_all {ℓ} : {T : Type ℓ} → Threadpool T → Threadpool T
unfolding is_idle
join_all p = record p { owner = if is_idle p then joined else waits_for_idle }

-- The end of the destructor, behind `JoinAll`.
unfoldable pub close {ℓ} : {T : Type ℓ} → Threadpool T → Threadpool T
unfolding wake
close p = record p { terminate = true; threads = wake p.threads; owner = closed }

-- The rest of the loop of `Worker` behind the test of the inner loop, for the thread between `xs` and
-- `ys`.
unfoldable pub seek_in {ℓ} :
    {T : Type ℓ} → Bool → List T → List (Stage T) → List (Stage T) → Threadpool T → Threadpool T
seek_in true q xs ys p = record p { threads = xs ++ (left ∷ ys) }
seek_in false [] xs ys p = record p { threads = xs ++ (waits_for_work ∷ ys) }
seek_in false (t ∷ q) xs ys p = record p {
  num_running = (p.num_running + 1) % size_mod;
  tasks = q;
  threads = xs ++ (running t ∷ ys);
}

unfoldable pub seek {ℓ} :
    {T : Type ℓ} → List (Stage T) → List (Stage T) → Threadpool T → Threadpool T
unfolding seek_in
seek xs ys p = seek_in p.terminate p.tasks xs ys p

unfoldable pub loop_in {ℓ} :
    {T : Type ℓ} → Bool → List (Stage T) → List (Stage T) → Threadpool T → Threadpool T
unfolding seek notify_idle
loop_in true xs ys p = record p { threads = xs ++ (left ∷ ys) }
loop_in false xs ys p = seek xs ys (record p { owner = notify_idle p.owner })

unfoldable pub loop {ℓ} :
    {T : Type ℓ} → List (Stage T) → List (Stage T) → Threadpool T → Threadpool T
unfolding loop_in
loop xs ys p = loop_in p.terminate xs ys p

-- The next step of a thread. A thread that waits may go on without a notice, as the condition
-- variables of C++ allow.
unfoldable pub work {ℓ} :
    {T : Type ℓ} → Stage T → List (Stage T) → List (Stage T) → Threadpool T → Threadpool T
unfolding loop seek pred_size
work at_loop xs ys p = loop xs ys p
work waits_for_work xs ys p = seek xs ys p
work woken xs ys p = seek xs ys p
work left xs ys p = p
work (running t) xs ys p =
    loop xs ys
      (record p { num_running = pred_size p.num_running; finished = p.finished ++ (t ∷ []) })

unfoldable pub new_threads {ℓ} : {T : Type ℓ} → ℕ → List (Stage T)
new_threads zero = []
new_threads (suc n) = at_loop ∷ new_threads n

unfoldable pub new_pool {ℓ} : {T : Type ℓ} → ℕ → Threadpool T
unfolding new_threads
new_pool n = record {
  tasks = [];
  terminate = false;
  num_running = 0;
  threads = new_threads n;
  owner = elsewhere;
  added = [];
  finished = [];
}
