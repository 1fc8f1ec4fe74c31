-- ===== src/Orz/Threadpool/Joined.antt =====
-- What `JoinAll` of source/deps/orz/threadpool.cpp waits for.
use pictus.Base.{
  ℕ, zero, suc, ◌+◌, ◌%◌, inl, inr, ◌⊎◌, ◌<◌, ◌≤◌, ◌≡◌, ◌≢◌, refl, sym, ◌∙◌, arith, Bool, true,
  false, ◌==◌, ◌&&◌, List, [], ◌∷◌, ◌++◌, if◌then◌else◌,
}
use pictus.Cache.Cacher.{size_mod, pred_size}
use pictus.Orz.Threadpool.{
  Threadpool, Stage, at_loop, waits_for_work, woken, left, running, Owner, elsewhere, at_test,
  waits_for_idle, joined, closed, is_empty, notify_idle, add_task, is_idle, join_all, close,
  seek_in, seek, loop_in, loop, work, new_pool,
}
use pictus.Orz.Threadpool.Steps.{
  Step, adds, works, calls, joins, returns, closes, Reached, created, stepped, total, tally,
  in_task, busy, able, total-moved, busy-able, Kept, IsAwaited,
}
use pictus.Orz.Threadpool.Preserved.{Reached-Kept}

none_in_task {ℓ} :
    {T : Type ℓ} (c : T → Bool) (ss : List (Stage T)) → total busy ss ≡ 0 → total (in_task c) ss ≡ 0
unfolding total busy in_task
none_in_task c [] h = refl
none_in_task c (at_loop ∷ ss) h = let a = none_in_task c ss (omega arith) in omega arith
none_in_task c (waits_for_work ∷ ss) h = let a = none_in_task c ss (omega arith) in omega arith
none_in_task c (woken ∷ ss) h = let a = none_in_task c ss (omega arith) in omega arith
none_in_task c (left ∷ ss) h = let a = none_in_task c ss (omega arith) in omega arith
none_in_task c (running t ∷ ss) h = absurd (omega arith)

idle_parts {ℓ} :
    {T : Type ℓ} (c : T → Bool) (k : ℕ) (ts : List T)
    → ((k == 0) && is_empty ts) ≡ true
    → (k ≡ 0) × (tally c ts ≡ 0)
unfolding is_empty tally
idle_parts c k [] h = (ground arith, refl)
idle_parts c k (t ∷ ts) h = absurd (ground arith)

-- In a pool of less than 2^64 threads, after any steps of its threads, of its owner and of those that
-- add tasks, in any order: where `JoinAll` does not wait, each task has returned as often as it was
-- added.
pub join_all-finished {ℓ} :
    {T : Type ℓ} (n : ℕ) (p : Threadpool T)
    → n < size_mod
    → Reached n p
    → (join_all p).owner ≡ joined
    → (c : T → Bool) → tally c (join_all p).finished ≡ tally c (join_all p).added
unfolding join_all is_idle
join_all-finished n p small r e c =
    let k = Reached-Kept n p small r in
    let (z, q) = idle_parts c p.num_running p.tasks (ground arith) in
    let h = k.counted c in
    let b = k.busy_ones in let i = none_in_task c p.threads (omega arith) in omega arith

idle_not-busy : (k : ℕ) (b : Bool) → k ≢ 0 → ((k == 0) && b) ≡ false
idle_not-busy k b h = ground arith

idle_not-empty : (k : ℕ) (b : Bool) → b ≡ false → ((k == 0) && b) ≡ false
idle_not-empty k b h = ground arith

is_empty-end {ℓ} : {T : Type ℓ} (ts : List T) (t : T) → is_empty (ts ++ (t ∷ [])) ≡ false
unfolding is_empty
is_empty-end [] t = refl
is_empty-end (x ∷ ts) t = refl

not_waiting : (o : Owner) → notify_idle o ≢ waits_for_idle
unfolding notify_idle
not_waiting elsewhere h = absurd (ground arith)
not_waiting at_test h = absurd (ground arith)
not_waiting waits_for_idle h = absurd (ground arith)
not_waiting joined h = absurd (ground arith)
not_waiting closed h = absurd (ground arith)

module _ {ℓ} {T : Type ℓ} (n : ℕ) (xs ys : List (Stage T)) where
  running_one : (t : T) → total busy (xs ++ (running t ∷ ys)) ≢ 0
  unfolding busy
  running_one t h = absurd (let m = total-moved busy xs ys (running t) woken in omega arith)

  seek_in-IsAwaited :
      (b : Bool) (q : List T) (p : Threadpool T)
      → p.tasks ≡ q
      → Kept n (seek_in b q xs ys p)
      → IsAwaited p
      → IsAwaited (seek_in b q xs ys p)
  unfolding seek_in is_idle IsAwaited
  seek_in-IsAwaited true q p d k a = a
  seek_in-IsAwaited false [] p d k a = a
  seek_in-IsAwaited false (t ∷ q) p d k a = λ h.
      idle_not-busy ((p.num_running + 1) % size_mod) (is_empty q)
        (λ z. running_one t (sym k.busy_ones ∙ z))

  seek_in-owner : (b : Bool) (q : List T) (p : Threadpool T) → (seek_in b q xs ys p).owner ≡ p.owner
  unfolding seek_in
  seek_in-owner true q p = refl
  seek_in-owner false [] p = refl
  seek_in-owner false (t ∷ q) p = refl

  loop_in-IsAwaited :
      (b : Bool) (p : Threadpool T)
      → p.terminate ≡ b
      → Kept n (loop_in b xs ys p)
      → IsAwaited (loop_in b xs ys p)
  unfolding loop_in seek IsAwaited
  loop_in-IsAwaited true p e k = λ h. let c = k.at_end e in absurd (ground arith)
  loop_in-IsAwaited false p e k = λ h. absurd (
      not_waiting p.owner
        (sym (seek_in-owner p.terminate p.tasks (record p { owner = notify_idle p.owner })) ∙ h))

  work-IsAwaited :
      (s : Stage T) (p : Threadpool T)
      → Kept n (work s xs ys p)
      → IsAwaited p
      → IsAwaited (work s xs ys p)
  unfolding work loop seek
  work-IsAwaited at_loop p k a = loop_in-IsAwaited p.terminate p refl k
  work-IsAwaited waits_for_work p k a = seek_in-IsAwaited p.terminate p.tasks p refl k a
  work-IsAwaited woken p k a = seek_in-IsAwaited p.terminate p.tasks p refl k a
  work-IsAwaited left p k a = a
  work-IsAwaited (running t) p k a =
      loop_in-IsAwaited p.terminate
        (record p { num_running = pred_size p.num_running; finished = p.finished ++ (t ∷ []) }) refl
        k

join_all-IsAwaited {ℓ} : {T : Type ℓ} (p : Threadpool T) → IsAwaited (join_all p)
unfolding join_all IsAwaited is_idle
join_all-IsAwaited p = test (is_idle p) refl
  where
    test :
        (b : Bool)
        → is_idle p ≡ b
        → (if b then joined else waits_for_idle) ≡ waits_for_idle
        → is_idle p ≡ false
    test true e h = absurd (ground arith)
    test false e h = e

add_task-IsAwaited {ℓ} : {T : Type ℓ} (p : Threadpool T) (t : T) → IsAwaited (add_task t p)
unfolding add_task IsAwaited is_idle
add_task-IsAwaited p t =
    λ h. idle_not-empty p.num_running (is_empty (p.tasks ++ (t ∷ []))) (is_empty-end p.tasks t)

Step-IsAwaited {ℓ} :
    {T : Type ℓ} (n : ℕ) (p q : Threadpool T) → Kept n q → IsAwaited p → Step p q → IsAwaited q
unfolding IsAwaited close
Step-IsAwaited n p _ k a (adds t) = add_task-IsAwaited p t
Step-IsAwaited n p _ k a (works s xs ys e) = work-IsAwaited n xs ys s p k a
Step-IsAwaited n p _ k a (joins j c e) = join_all-IsAwaited p
Step-IsAwaited n p _ k a (calls e) = λ h. absurd (ground arith)
Step-IsAwaited n p _ k a (returns e) = λ h. absurd (ground arith)
Step-IsAwaited n p _ k a (closes e) = λ h. absurd (ground arith)

Reached-IsAwaited {ℓ} :
    {T : Type ℓ} (n : ℕ) (p : Threadpool T) → n < size_mod → Reached n p → IsAwaited p
unfolding IsAwaited new_pool
Reached-IsAwaited n _ small created = λ h. absurd (ground arith)
Reached-IsAwaited n _ small (stepped p q r s) =
    Step-IsAwaited n p q (Reached-Kept n q small (stepped p q r s)) (Reached-IsAwaited n p small r)
      s

-- In a pool of at least one thread and less than 2^64, after any steps in any order: while the owner
-- waits in `JoinAll`, a thread of the pool can go on without a notice.
pub waiting-able {ℓ} :
    {T : Type ℓ} (n : ℕ) (p : Threadpool T)
    → 1 ≤ n
    → n < size_mod
    → Reached n p
    → p.owner ≡ waits_for_idle
    → 1 ≤ total able p.threads
unfolding is_idle IsAwaited
waiting-able n p some_thread small r w =
    let k = Reached-Kept n p small r in
    let few = busy-able p.threads in
    let b = k.busy_ones in
    let all = k.all_threads in
    elim (busy_or_pending p.num_running (is_empty p.tasks) (Reached-IsAwaited n p small r w)) [
      | inl some_running ↦ omega arith
      | inr pending ↦
          let a = k.awake pending in
          let g = k.present (running_on p.terminate refl k.at_end) in omega arith
    ]
  where
    running_on :
        (b : Bool) → p.terminate ≡ b → (p.terminate ≡ true → p.owner ≡ closed) → p.terminate ≡ false
    running_on true e h = let c = h e in absurd (ground arith)
    running_on false e h = e

    busy_or_pending : (k : ℕ) (b : Bool) → ((k == 0) && b) ≡ false → (k ≢ 0) ⊎ (b ≡ false)
    busy_or_pending zero true h = absurd (ground arith)
    busy_or_pending zero false h = inr refl
    busy_or_pending (suc k) b h = inl (omega arith)
