-- ===== src/Orz/Threadpool/Preserved.antt =====
-- Every step of a thread of source/deps/orz/threadpool.cpp keeps the accounts of the pool.
use pictus.Base.{
  ℕ, zero, suc, ◌+◌, ◌<◌, ◌≡◌, ◌≢◌, refl, sym, ◌∙◌, arith, Bool, List, [], ◌∷◌, if◌then◌else◌,
}
use pictus.Cache.Cacher.{size_mod}
use pictus.Orz.Threadpool.{
  Threadpool, Stage, at_loop, waits_for_work, woken, left, running, Owner, elsewhere, at_test,
  waits_for_idle, joined, closed, is_empty, notified, wake, add_task, is_idle, join_all, close,
  new_threads, new_pool,
}
use pictus.Orz.Threadpool.Steps.{
  Step, adds, works, calls, joins, returns, closes, Reached, created, stepped, total, tally,
  in_task, busy, asleep, gone, able, Kept, tally-end, total-wake,
}
use pictus.Orz.Threadpool.Moved.{work-Kept}

notified_counts {ℓ} :
    {T : Type ℓ} (p : Threadpool T)
    → ((c : T → Bool) → total (in_task c) (wake p.threads) ≡ total (in_task c) p.threads)
      × (total busy (wake p.threads) ≡ total busy p.threads)
      × (total gone (wake p.threads) ≡ total gone p.threads)
      × (total asleep (wake p.threads) ≡ 0)
      × (total asleep (wake p.threads) + total able (wake p.threads)
          ≡ total asleep p.threads + total able p.threads)
unfolding in_task busy gone asleep able notified wake total
notified_counts {T = T} p = (
  (λ c. total-wake (in_task c) (in_task c) (in_same c) p.threads),
  total-wake busy busy busy_same p.threads,
  total-wake gone gone gone_same p.threads,
  none_asleep p.threads,
  up_or_asleep p.threads,
)
  where
    in_same : (c : T → Bool) (s : Stage T) → in_task c (notified s) ≡ in_task c s
    in_same c at_loop = refl
    in_same c waits_for_work = refl
    in_same c woken = refl
    in_same c left = refl
    in_same c (running t) = refl

    busy_same : (s : Stage T) → busy (notified s) ≡ busy s
    busy_same at_loop = refl
    busy_same waits_for_work = refl
    busy_same woken = refl
    busy_same left = refl
    busy_same (running t) = refl

    gone_same : (s : Stage T) → gone (notified s) ≡ gone s
    gone_same at_loop = refl
    gone_same waits_for_work = refl
    gone_same woken = refl
    gone_same left = refl
    gone_same (running t) = refl

    none_asleep : (ss : List (Stage T)) → total asleep (wake ss) ≡ 0
    none_asleep [] = refl
    none_asleep (at_loop ∷ ss) = let h = none_asleep ss in omega arith
    none_asleep (waits_for_work ∷ ss) = let h = none_asleep ss in omega arith
    none_asleep (woken ∷ ss) = let h = none_asleep ss in omega arith
    none_asleep (left ∷ ss) = let h = none_asleep ss in omega arith
    none_asleep (running t ∷ ss) = let h = none_asleep ss in omega arith

    up_or_asleep :
        (ss : List (Stage T))
        → total asleep (wake ss) + total able (wake ss) ≡ total asleep ss + total able ss
    up_or_asleep [] = refl
    up_or_asleep (at_loop ∷ ss) = let h = up_or_asleep ss in omega arith
    up_or_asleep (waits_for_work ∷ ss) = let h = up_or_asleep ss in omega arith
    up_or_asleep (woken ∷ ss) = let h = up_or_asleep ss in omega arith
    up_or_asleep (left ∷ ss) = let h = up_or_asleep ss in omega arith
    up_or_asleep (running t ∷ ss) = let h = up_or_asleep ss in omega arith

add_task-Kept {ℓ} :
    {T : Type ℓ} (n : ℕ) (t : T) (p : Threadpool T) → Kept n p → Kept n (add_task t p)
unfolding add_task tally
add_task-Kept n t p k =
    let (i, b, g, a, l) = notified_counts p in
    record {
      counted = λ c.
          let h = k.counted c in
          let j = i c in
          let x = tally-end c p.tasks t in let y = tally-end c p.added t in omega arith;
      busy_ones = k.busy_ones ∙ sym b;
      all_threads = let h = k.all_threads in omega arith;
      awake = λ h. a;
      present = λ h. g ∙ k.present h;
      at_end = k.at_end;
    }

close-Kept {ℓ} : {T : Type ℓ} (n : ℕ) (p : Threadpool T) → Kept n p → Kept n (close p)
unfolding close
close-Kept n p k =
    let (i, b, g, a, l) = notified_counts p in
    record {
      counted = λ c. let h = k.counted c in let j = i c in omega arith;
      busy_ones = k.busy_ones ∙ sym b;
      all_threads = let h = k.all_threads in omega arith;
      awake = λ h. a;
      present = λ h. absurd (ground arith);
      at_end = λ h. refl;
    }

-- The owner goes on where the pool is not closed.
owner-Kept {ℓ} :
    {T : Type ℓ} (n : ℕ) (o : Owner) (p : Threadpool T)
    → p.owner ≢ closed
    → Kept n p
    → Kept n (record p { owner = o })
owner-Kept n o p h k = record {
  counted = k.counted;
  busy_ones = k.busy_ones;
  all_threads = k.all_threads;
  awake = k.awake;
  present = k.present;
  at_end = λ e. absurd (h (k.at_end e));
}

none_of {ℓ} : {T : Type ℓ} (f : Stage T → ℕ) → f at_loop ≡ 0 → (n : ℕ) → total f (new_threads n) ≡ 0
unfolding total new_threads
none_of f h zero = refl
none_of f h (suc n) = let a = none_of f h n in omega arith

all_able {ℓ} : (T : Type ℓ) (n : ℕ) → total (able {T = T}) (new_threads n) ≡ n
unfolding total new_threads able
all_able T zero = refl
all_able T (suc n) = let a = all_able T n in omega arith

new_pool-Kept {ℓ} : {T : Type ℓ} (n : ℕ) → Kept {T = T} n (new_pool n)
unfolding new_pool tally is_empty in_task busy asleep gone able
new_pool-Kept {T = T} n = record {
  counted = λ c. let h = none_of (in_task c) refl n in omega arith;
  busy_ones = sym (none_of (busy {T = T}) refl n);
  all_threads =
      let x = none_of (asleep {T = T}) refl n in
      let y = all_able T n in let z = none_of (gone {T = T}) refl n in omega arith;
  awake = λ h. absurd (ground arith);
  present = λ h. none_of (gone {T = T}) refl n;
  at_end = λ h. absurd (ground arith);
}

pub Step-Kept {ℓ} :
    {T : Type ℓ} (n : ℕ) (p q : Threadpool T) → n < size_mod → Kept n p → Step p q → Kept n q
unfolding join_all
Step-Kept n p _ small k (adds t) = add_task-Kept n t p k
Step-Kept n p _ small k (works s xs ys e) = work-Kept n small xs ys s p e k
Step-Kept n p _ small k (calls e) = owner-Kept n at_test p (ground arith) k
Step-Kept n p _ small k (joins j c e) =
    owner-Kept n (if is_idle p then joined else waits_for_idle) p c k
Step-Kept n p _ small k (returns e) = owner-Kept n elsewhere p (ground arith) k
Step-Kept n p _ small k (closes e) = close-Kept n p k

pub Reached-Kept {ℓ} :
    {T : Type ℓ} (n : ℕ) (p : Threadpool T) → n < size_mod → Reached n p → Kept n p
Reached-Kept n _ small created = new_pool-Kept n
Reached-Kept n _ small (stepped p q r s) = Step-Kept n p q small (Reached-Kept n p small r) s
