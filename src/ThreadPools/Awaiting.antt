-- ===== src/ThreadPools/Awaiting.antt =====
-- How `main` of thread_pool.cpp, thread_pool_priority.cpp and thread_pool_withwait.cpp waits for
-- its tasks: `result.cond.wait(lock)`, which has no predicate.
use prog_playground.Prelude.{ℕ, zero, suc, ◌+◌, ◌≤◌, ◌<◌, ◌≡◌, refl, arith, Bool, true, false, ◌==◌}
use mathlib.Core.Path.{subst}

-- `enqueueing` is before the wait, `waiting` in it, `printing` behind it.
pub data Main : Type 0 where
  enqueueing waiting printing : Main

pub record Await : Type 0 where
  pub task_done_count : ℕ
  pub main : Main

-- The last task notifies; the notification is lost if nobody waits.
abbrev pub after_task : Main → (is_last : Bool) → Main
after_task enqueueing is_last = enqueueing
after_task printing is_last = printing
after_task waiting true = printing
after_task waiting false = waiting

-- With `task_count` tasks, of which each holds the mutex while it counts itself.
pub data AwaitStep (task_count : ℕ) : Await → Await → Type 0 where
  finish_task :
      (s : Await)
      → s.task_done_count < task_count
      → AwaitStep task_count s (record {
        task_done_count = s.task_done_count + 1;
        main = after_task s.main (s.task_done_count + 1 == task_count);
      })
  begin_wait :
      (s : Await) → s.main ≡ enqueueing → AwaitStep task_count s (record s { main = waiting })
  spurious_return :
      (s : Await) → s.main ≡ waiting → AwaitStep task_count s (record s { main = printing })

abbrev pub all_to_do : Await
all_to_do = record { task_done_count = 0; main = enqueueing }

pub data AwaitReach (task_count : ℕ) : Await → Type 0 where
  at_start : AwaitReach task_count all_to_do
  then_step :
      {s t : Await} → AwaitReach task_count s → AwaitStep task_count s t → AwaitReach task_count t

done_before : (n k : ℕ) → k ≤ n → AwaitReach n (record { task_done_count = k; main = enqueueing })
done_before n zero h = at_start
done_before n (suc k) h =
    let next : k + 1 ≡ suc k = omega arith in
    subst (λ j. AwaitReach n (record { task_done_count = j; main = enqueueing })) next
      (then_step (done_before n k (omega arith)) (finish_task _ h))

-- With any number of tasks from 1 on, main of the sample programs, which waits for its tasks
-- without a predicate, can reach a state in which every task is done and it still waits, and one
-- in which none is done and it prints the result.
pub wait_unguarded :
    (task_count : ℕ)
    → 0 < task_count
    → ((s : Await) × AwaitReach task_count s
        × (s.task_done_count ≡ task_count)
        × (s.main ≡ waiting))
      × ((s : Await) × AwaitReach task_count s × (s.task_done_count ≡ 0) × (s.main ≡ printing))
wait_unguarded n some_task = (
  (_, then_step (done_before n n (omega arith)) (begin_wait _ refl), refl, refl),
  (_, then_step (then_step at_start (begin_wait _ refl)) (spurious_return _ refl), refl, refl),
)
