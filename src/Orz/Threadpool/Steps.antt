-- ===== src/Orz/Threadpool/Steps.antt =====
-- The steps of the threads of source/deps/orz/threadpool.cpp in any order, and what they keep.
use pictus.Base.{
  ℕ, ◌+◌, ◌≤◌, ◌≡◌, ◌≢◌, refl, arith, Bool, true, false, List, [], ◌∷◌, ◌++◌, if◌then◌else◌,
}
use pictus.Orz.Threadpool.{
  Threadpool, Stage, at_loop, waits_for_work, woken, left, running, elsewhere, at_test,
  waits_for_idle, joined, closed, is_empty, notified, wake, add_task, is_idle, join_all, close,
  work, new_pool,
}

-- One step of any thread. The owner calls `JoinAll` any number of times, and the destructor behind it;
-- tasks come at any time.
pub data Step {ℓ} {T : Type ℓ} (p : Threadpool T) : Threadpool T → Type ℓ where
  adds : (t : T) → Step p (add_task t p)
  works :
      (s : Stage T) (xs ys : List (Stage T)) → p.threads ≡ xs ++ (s ∷ ys) → Step p (work s xs ys p)
  calls : p.owner ≡ elsewhere → Step p (record p { owner = at_test })
  joins : p.owner ≢ joined → p.owner ≢ closed → p.owner ≢ elsewhere → Step p (join_all p)
  returns : p.owner ≡ joined → Step p (record p { owner = elsewhere })
  closes : p.owner ≡ joined → Step p (close p)

pub data Reached {ℓ} {T : Type ℓ} (n : ℕ) : Threadpool T → Type ℓ where
  created : Reached n (new_pool n)
  stepped : (p q : Threadpool T) → Reached n p → Step p q → Reached n q

unfoldable pub total {ℓ} : {T : Type ℓ} → (Stage T → ℕ) → List (Stage T) → ℕ
total f [] = 0
total f (s ∷ ss) = f s + total f ss

-- How often a list has an element that the test takes.
unfoldable pub tally {ℓ} : {T : Type ℓ} → (T → Bool) → List T → ℕ
tally c [] = 0
tally c (t ∷ ts) = (if c t then 1 else 0) + tally c ts

unfoldable pub in_task {ℓ} : {T : Type ℓ} → (T → Bool) → Stage T → ℕ
in_task c (running t) = if c t then 1 else 0
in_task c at_loop = 0
in_task c waits_for_work = 0
in_task c woken = 0
in_task c left = 0

unfoldable pub busy {ℓ} : {T : Type ℓ} → Stage T → ℕ
busy (running t) = 1
busy at_loop = 0
busy waits_for_work = 0
busy woken = 0
busy left = 0

unfoldable pub asleep {ℓ} : {T : Type ℓ} → Stage T → ℕ
asleep (running t) = 0
asleep at_loop = 0
asleep waits_for_work = 1
asleep woken = 0
asleep left = 0

unfoldable pub gone {ℓ} : {T : Type ℓ} → Stage T → ℕ
gone (running t) = 0
gone at_loop = 0
gone waits_for_work = 0
gone woken = 0
gone left = 1

-- A thread that goes on by itself.
unfoldable pub able {ℓ} : {T : Type ℓ} → Stage T → ℕ
able (running t) = 1
able at_loop = 1
able waits_for_work = 0
able woken = 1
able left = 0

pub record Kept {ℓ} {T : Type ℓ} (n : ℕ) (p : Threadpool T) : Type ℓ where
  pub counted :
      (c : T → Bool)
      → tally c p.finished + total (in_task c) p.threads + tally c p.tasks ≡ tally c p.added
  pub busy_ones : p.num_running ≡ total busy p.threads
  pub all_threads : total asleep p.threads + total able p.threads + total gone p.threads ≡ n
  pub awake : is_empty p.tasks ≡ false → total asleep p.threads ≡ 0
  pub present : p.terminate ≡ false → total gone p.threads ≡ 0
  pub at_end : p.terminate ≡ true → p.owner ≡ closed

-- Where the owner waits, there is something to wait for.
unfoldable pub IsAwaited {ℓ} : {T : Type ℓ} → Threadpool T → Type 0
IsAwaited p = p.owner ≡ waits_for_idle → is_idle p ≡ false

pub total-moved {ℓ} :
    {T : Type ℓ} (f : Stage T → ℕ) (xs ys : List (Stage T)) (s v : Stage T)
    → total f (xs ++ (v ∷ ys)) + f s ≡ total f (xs ++ (s ∷ ys)) + f v
unfolding total
total-moved f [] ys s v = omega arith
total-moved f (x ∷ xs) ys s v = let h = total-moved f xs ys s v in omega arith

pub busy-able {ℓ} : {T : Type ℓ} (ss : List (Stage T)) → total busy ss ≤ total able ss
unfolding total busy able
busy-able [] = omega arith
busy-able (at_loop ∷ ss) = let h = busy-able ss in omega arith
busy-able (waits_for_work ∷ ss) = let h = busy-able ss in omega arith
busy-able (woken ∷ ss) = let h = busy-able ss in omega arith
busy-able (left ∷ ss) = let h = busy-able ss in omega arith
busy-able (running t ∷ ss) = let h = busy-able ss in omega arith

pub tally-end {ℓ} :
    {T : Type ℓ} (c : T → Bool) (ts : List T) (t : T)
    → tally c (ts ++ (t ∷ [])) ≡ tally c ts + (if c t then 1 else 0)
unfolding tally
tally-end c [] t = omega arith
tally-end c (x ∷ ts) t = let h = tally-end c ts t in omega arith

pub total-wake {ℓ} :
    {T : Type ℓ} (f g : Stage T → ℕ)
    → ((s : Stage T) → f (notified s) ≡ g s)
    → (ss : List (Stage T)) → total f (wake ss) ≡ total g ss
unfolding total wake
total-wake f g h [] = refl
total-wake f g h (s ∷ ss) = let a = h s in let b = total-wake f g h ss in omega arith
