-- ===== src/ThreadPools/Resize.antt =====
-- `ThreadPool::resize` of ioserver_demo/src/common/thread_pool.cpp, called by one thread besides the
-- steps of the pool. Its wait is on the condition of the workers, so `notify_one` may wake it in
-- place of one of them. A `stop` of another thread sets the flag; its joins are not steps.
pub mod Finished
pub mod Hanging
use prog_playground.Prelude.{ℕ, ◌-◌, ◌<◌, ◌≡◌, ◌≢◌, true, false, []}
use prog_playground.ThreadPools.{
  Phase, looping, exited, Pool, set_phase, wake, IsFree, Step, enqueue, wake_one, wake_nobody, stop,
  wake_all, enter, quit, doze, fall_asleep, leave, take_task, finish, spurious, new_pool,
}
use prog_playground.ThreadPools.Classes.{server_pool}

-- `waking` is at the test of the queue, `waiting` in the wait, `joining` between the unlock and the
-- end of the joins.
pub data Resizer : Type 0 where
  idle joining waking waiting : Resizer

pub record Managed (A : Type 0) : Type 0 where
  pub workers : ℕ
  pub pool : Pool A
  pub resizer : Resizer

-- A step that the waiting `resize` has no part in: it gets a notification that finds no sleeping
-- worker, and one to everybody.
abbrev pub IsOfWorkers : {A : Type 0} {n : ℕ} {s t : Pool A} → Step server_pool n s t → Type 0
IsOfWorkers (enqueue s t a fr) = Unit
IsOfWorkers (wake_one s w o b p) = Unit
IsOfWorkers (wake_nobody s o q) = ⊥
IsOfWorkers (stop s l) = Unit
IsOfWorkers (wake_all s o) = ⊥
IsOfWorkers (enter s w b p l) = Unit
IsOfWorkers (quit s w b p l q) = Unit
IsOfWorkers (doze s w b p fr l q) = Unit
IsOfWorkers (fall_asleep s w b p) = Unit
IsOfWorkers (leave s w b p fr l q) = Unit
IsOfWorkers (take_task s w t rest b p fr k) = Unit
IsOfWorkers (finish s w t b p) = Unit
IsOfWorkers (spurious s w b p) = Unit

-- `resize` sets the flag and calls `notify_all`, with the mutex held.
abbrev pub stopped : {A : Type 0} → Pool A → Pool A
stopped s = record s { stopping = true; phase = λ w. wake (s.phase w) }

-- The new workers of a pool that is no longer stopped.
abbrev pub restarted : {A : Type 0} → Pool A → Pool A
restarted s = record s { stopping = false; phase = λ w. looping }

pub data ResizeStep {A : Type 0} : Managed A → Managed A → Type 0 where
  of_pool :
      (n : ℕ) (s t : Pool A) (r : Resizer) (st : Step server_pool n s t)
      → (r ≡ waiting → IsOfWorkers st)
      → ResizeStep
          (record { workers = n; pool = s; resizer = r })
          (record { workers = n; pool = t; resizer = r })
  notify_resizer :
      (n : ℕ) (s : Pool A)
      → 0 < s.to_notify
      → ResizeStep
          (record { workers = n; pool = s; resizer = waiting })
          (record {
            workers = n;
            pool = record s { to_notify = s.to_notify - 1 };
            resizer = waking;
          })
  wake_both :
      (n : ℕ) (s : Pool A)
      → 0 < s.to_notify_all
      → ResizeStep
          (record { workers = n; pool = s; resizer = waiting })
          (record {
            workers = n;
            pool = record s { phase = λ w. wake (s.phase w); to_notify_all = s.to_notify_all - 1 };
            resizer = waking;
          })
  wake_resizer :
      (n : ℕ) (s : Pool A)
      → ResizeStep
          (record { workers = n; pool = s; resizer = waiting })
          (record { workers = n; pool = s; resizer = waking })
  call_resize :
      (n : ℕ) (s : Pool A)
      → ResizeStep
          (record { workers = n; pool = s; resizer = idle })
          (record { workers = n; pool = s; resizer = waking })
  wait_empty :
      (n : ℕ) (s : Pool A)
      → IsFree n s
      → s.queue ≢ []
      → ResizeStep
          (record { workers = n; pool = s; resizer = waking })
          (record { workers = n; pool = s; resizer = waiting })
  stop_workers :
      (n : ℕ) (s : Pool A)
      → IsFree n s
      → s.queue ≡ []
      → ResizeStep
          (record { workers = n; pool = s; resizer = waking })
          (record { workers = n; pool = stopped s; resizer = joining })
  restart :
      (n : ℕ) (s : Pool A) (num_threads : ℕ)
      → ((w : ℕ) → w < n → s.phase w ≡ exited)
      → ResizeStep
          (record { workers = n; pool = s; resizer = joining })
          (record { workers = num_threads; pool = restarted s; resizer = idle })

pub data ResizeReach {A : Type 0} : Managed A → Type 0 where
  begin : (n : ℕ) → ResizeReach (record { workers = n; pool = new_pool; resizer = idle })
  after : {s t : Managed A} → ResizeReach s → ResizeStep s t → ResizeReach t
