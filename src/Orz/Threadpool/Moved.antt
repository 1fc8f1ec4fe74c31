-- ===== src/Orz/Threadpool/Moved.antt =====
-- A step of Worker of source/deps/orz/threadpool.cpp keeps the accounts of the pool.
use pictus.Base.{
  ℕ, suc, ◌+◌, ◌<◌, ◌≤◌, ◌≡◌, refl, ap, ◌-◌, subst, arith, Bool, true, false, List, [], ◌∷◌, ◌++◌,
}
use native.Mathlib.Nat.{mod-eq_of_lt, mod-eq-sub-mod}
use pictus.Cache.Cacher.{size_mod, pred_size}
use pictus.Orz.Threadpool.{
  Threadpool, Stage, at_loop, waits_for_work, woken, left, running, is_empty, notify_idle, seek_in,
  seek, loop_in, loop, work,
}
use pictus.Orz.Threadpool.Steps.{
  total, tally, in_task, busy, asleep, gone, able, Kept, tally-end, total-moved, busy-able,
}

pred_size-less : (k : ℕ) → 1 ≤ k → k < size_mod → suc (pred_size k) ≡ k
unfolding pred_size
pred_size-less k h l = ground (
  arith,
  mod-eq-sub-mod {n = k + size_mod - 1} {m = size_mod},
  mod-eq_of_lt {n = k - 1} {m = size_mod},
)

-- The thread between `xs` and `ys` is in the inner loop.
module _ {ℓ} {T : Type ℓ} (n : ℕ) (small : n < size_mod) (xs ys : List (Stage T)) where
  seek_in-Kept :
      (b : Bool) (q : List T) (p : Threadpool T)
      → p.terminate ≡ b
      → p.tasks ≡ q
      → Kept n (record p { threads = xs ++ (woken ∷ ys) })
      → Kept n (seek_in b q xs ys p)
  unfolding seek_in in_task busy asleep able gone tally is_empty
  seek_in-Kept true q p e d k = record {
    counted =
        λ c. let a = k.counted c in let b = total-moved (in_task c) xs ys woken left in omega arith;
    busy_ones = let a = k.busy_ones in let b = total-moved busy xs ys woken left in omega arith;
    all_threads =
        let a = k.all_threads in
        let x = total-moved asleep xs ys woken left in
        let y = total-moved able xs ys woken left in
        let z = total-moved gone xs ys woken left in omega arith;
    awake = λ h. let a = k.awake h in let b = total-moved asleep xs ys woken left in omega arith;
    present = λ h. absurd (ground arith);
    at_end = k.at_end;
  }
  seek_in-Kept false [] p e d k = record {
    counted = λ c.
        let a = k.counted c in
        let b = total-moved (in_task c) xs ys woken waits_for_work in omega arith;
    busy_ones =
        let a = k.busy_ones in let b = total-moved busy xs ys woken waits_for_work in omega arith;
    all_threads =
        let a = k.all_threads in
        let x = total-moved asleep xs ys woken waits_for_work in
        let y = total-moved able xs ys woken waits_for_work in
        let z = total-moved gone xs ys woken waits_for_work in omega arith;
    awake = λ h. absurd (let u = ap is_empty d in ground arith);
    present = λ h.
        let a = k.present h in let b = total-moved gone xs ys woken waits_for_work in omega arith;
    at_end = k.at_end;
  }
  seek_in-Kept false (t ∷ q) p e d k = record {
    counted = λ c.
        let a = k.counted c in
        let b = total-moved (in_task c) xs ys woken (running t) in
        let u = ap (tally c) d in omega arith;
    busy_ones =
        let a = k.busy_ones in
        let b = total-moved busy xs ys woken (running t) in
        let few = busy-able (xs ++ (running t ∷ ys)) in
        let all = every in
        rw (mod-eq_of_lt {n = p.num_running + 1} {m = size_mod} (omega arith)) (omega arith);
    all_threads = every;
    awake = λ h.
        let a = k.awake (ap is_empty d) in
        let b = total-moved asleep xs ys woken (running t) in omega arith;
    present =
        λ h. let a = k.present h in let b = total-moved gone xs ys woken (running t) in omega arith;
    at_end = k.at_end;
  }
    where
      every :
          total asleep (xs ++ (running t ∷ ys))
            + total able (xs ++ (running t ∷ ys))
            + total gone (xs ++ (running t ∷ ys))
          ≡ n
      every =
          let a = k.all_threads in
          let x = total-moved asleep xs ys woken (running t) in
          let y = total-moved able xs ys woken (running t) in
          let z = total-moved gone xs ys woken (running t) in omega arith

  loop_in-Kept :
      (b : Bool) (p : Threadpool T)
      → p.terminate ≡ b
      → Kept n (record p { threads = xs ++ (woken ∷ ys) })
      → Kept n (loop_in b xs ys p)
  unfolding loop_in seek
  loop_in-Kept true p e k = seek_in-Kept true p.tasks p e refl k
  loop_in-Kept false p e k =
      seek_in-Kept p.terminate p.tasks (record p { owner = notify_idle p.owner }) refl refl
        (record {
          counted = k.counted;
          busy_ones = k.busy_ones;
          all_threads = k.all_threads;
          awake = k.awake;
          present = k.present;
          at_end = λ h. absurd (ground arith);
        })

  -- A thread at the lock or in the wait comes to the test of the inner loop.
  woken-Kept :
      (s : Stage T) (p : Threadpool T)
      → ((c : T → Bool) → in_task c s ≡ 0)
      → busy s ≡ 0
      → gone s ≡ 0
      → asleep s + able s ≡ 1
      → Kept n (record p { threads = xs ++ (s ∷ ys) })
      → Kept n (record p { threads = xs ++ (woken ∷ ys) })
  unfolding in_task busy asleep able gone
  woken-Kept s p i b g l k = record {
    counted = λ c.
        let a = k.counted c in
        let m = total-moved (in_task c) xs ys s woken in let z = i c in omega arith;
    busy_ones = let a = k.busy_ones in let m = total-moved busy xs ys s woken in omega arith;
    all_threads =
        let a = k.all_threads in
        let x = total-moved asleep xs ys s woken in
        let y = total-moved able xs ys s woken in
        let z = total-moved gone xs ys s woken in omega arith;
    awake = λ h. let a = k.awake h in let x = total-moved asleep xs ys s woken in omega arith;
    present = λ h. let a = k.present h in let z = total-moved gone xs ys s woken in omega arith;
    at_end = k.at_end;
  }

  finished-Kept :
      (t : T) (p : Threadpool T)
      → Kept n (record p { threads = xs ++ (running t ∷ ys) })
      → Kept n (record p {
        num_running = pred_size p.num_running;
        finished = p.finished ++ (t ∷ []);
        threads = xs ++ (woken ∷ ys);
      })
  unfolding in_task busy asleep able gone tally
  finished-Kept t p k = record {
    counted = λ c.
        let a = k.counted c in
        let m = total-moved (in_task c) xs ys (running t) woken in
        let z = tally-end c p.finished t in omega arith;
    busy_ones =
        let a = k.busy_ones in
        let m = total-moved busy xs ys (running t) woken in
        let few = busy-able (xs ++ (running t ∷ ys)) in
        let all = k.all_threads in
        let u = pred_size-less p.num_running (omega arith) (omega arith) in omega arith;
    all_threads =
        let a = k.all_threads in
        let x = total-moved asleep xs ys (running t) woken in
        let y = total-moved able xs ys (running t) woken in
        let z = total-moved gone xs ys (running t) woken in omega arith;
    awake =
        λ h. let a = k.awake h in let x = total-moved asleep xs ys (running t) woken in omega arith;
    present =
        λ h. let a = k.present h in let z = total-moved gone xs ys (running t) woken in omega arith;
    at_end = k.at_end;
  }

  pub work-Kept :
      (s : Stage T) (p : Threadpool T)
      → p.threads ≡ xs ++ (s ∷ ys)
      → Kept n p
      → Kept n (work s xs ys p)
  unfolding work loop seek in_task busy gone asleep able
  work-Kept s p e k = at_stage s e (subst (λ ts. Kept n (record p { threads = ts })) e k)
    where
      at_stage :
          (v : Stage T)
          → p.threads ≡ xs ++ (v ∷ ys)
          → Kept n (record p { threads = xs ++ (v ∷ ys) })
          → Kept n (work v xs ys p)
      at_stage at_loop d h =
          loop_in-Kept p.terminate p refl (woken-Kept at_loop p (λ c. refl) refl refl refl h)
      at_stage waits_for_work d h =
          seek_in-Kept p.terminate p.tasks p refl refl
            (woken-Kept waits_for_work p (λ c. refl) refl refl refl h)
      at_stage woken d h = seek_in-Kept p.terminate p.tasks p refl refl h
      at_stage left d h = k
      at_stage (running t) d h =
          loop_in-Kept p.terminate
            (record p { num_running = pred_size p.num_running; finished = p.finished ++ (t ∷ []) })
            refl (finished-Kept t p h)
