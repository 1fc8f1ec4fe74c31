-- ===== src/Tests/Pool.antt =====
-- The thread pool (source/deps/orz/threadpool.cpp) with one thread and one task.
use pictus.Base.{ℕ, ◌≤◌, ◌≡◌, refl, arith, [], ◌==◌}
use pictus.Orz.Threadpool.{
  Threadpool, at_loop, running, at_test, waits_for_idle, joined, new_pool, add_task, join_all, work,
  wake, notified, new_threads, is_idle, is_empty, loop, loop_in, seek, seek_in, notify_idle,
}
use pictus.Cache.Cacher.{pred_size}
use pictus.Orz.Threadpool.Steps.{
  adds, works, calls, joins, Reached, created, stepped, tally, total, able,
}
use pictus.Orz.Threadpool.Joined.{join_all-finished, waiting-able}

abbrev with_task : Threadpool ℕ
with_task = add_task 7 (new_pool 1)

abbrev in_join : Threadpool ℕ
in_join = record with_task { owner = at_test }

abbrev waiting : Threadpool ℕ
waiting = join_all in_join

abbrev at_work : Threadpool ℕ
at_work = work at_loop [] [] waiting

abbrev returned : Threadpool ℕ
returned = work (running 7) [] [] at_work

waiting-Reached : Reached 1 waiting
unfolding new_pool add_task wake notified new_threads
waiting-Reached =
    stepped in_join waiting
      (stepped with_task in_join (stepped (new_pool 1) with_task created (adds 7)) (calls refl))
      (joins (ground arith) (ground arith) (ground arith))

returned-Reached : Reached 1 returned
unfolding new_pool add_task wake notified new_threads join_all is_idle is_empty work loop loop_in
    seek seek_in notify_idle pred_size
returned-Reached =
    stepped at_work returned (stepped waiting at_work waiting-Reached (works at_loop [] [] refl))
      (works (running 7) [] [] refl)

-- The task was run, and the owner is at its test again.
returned_owner : returned.owner ≡ at_test
unfolding new_pool add_task wake notified new_threads join_all is_idle is_empty work loop loop_in
    seek seek_in notify_idle pred_size
returned_owner = refl

returned_joins : (join_all returned).owner ≡ joined
unfolding new_pool add_task wake notified new_threads join_all is_idle is_empty work loop loop_in
    seek seek_in notify_idle pred_size
returned_joins = refl

waiting_waits : waiting.owner ≡ waits_for_idle
unfolding new_pool add_task wake notified new_threads join_all is_idle is_empty
waiting_waits = refl

join_all-finished_example :
    tally (λ t. t == 7) (join_all returned).finished ≡ tally (λ t. t == 7) (join_all returned).added
join_all-finished_example =
    join_all-finished 1 returned (omega arith) returned-Reached returned_joins (λ t. t == 7)

waiting-able_example : 1 ≤ total able waiting.threads
waiting-able_example =
    waiting-able 1 waiting (omega arith) (omega arith) waiting-Reached waiting_waits
