-- ===== src/Tests/Pools.antt =====
-- Inputs for the thread pools: one worker, one task, and the stop.
use prog_playground.Prelude.{ℕ, ◌+◌, ◌≡◌, ◌<◌, refl, arith, true, [], ◌∷◌}
use prog_playground.ThreadPools.{
  looping, exited, Pool, set_phase, take_in, enqueue, wake_nobody, stop, wake_all, enter, leave,
  take_task, finish, awake, running, Reach, here, next, new_pool, wake,
}
use prog_playground.ThreadPools.Classes.{Task, top, front, server_pool, priority_pool}
use prog_playground.ThreadPools.Conserve.{total, carried, Top-Keeps, Reach-IsConserved}
use prog_playground.ThreadPools.Chunks.{
  add_up, data_size, run_tasks, started, chunks, sum_of_futures,
}
use prog_playground.ThreadPools.Sums.{all_chunks_added}

abbrev pool0 : Pool ℕ
pool0 = new_pool

abbrev pool1 : Pool ℕ
pool1 = take_in 9 pool0

abbrev pool2 : Pool ℕ
pool2 = record pool1 { phase = set_phase pool1.phase 0 awake }

abbrev pool3 : Pool ℕ
pool3 = record pool2 { queue = []; phase = set_phase pool2.phase 0 (running 9) }

abbrev pool4 : Pool ℕ
pool4 = record pool3 { phase = set_phase pool3.phase 0 looping; finished = 9 ∷ [] }

abbrev notified4 : Pool ℕ
notified4 = record pool4 { to_notify = 0 }

abbrev flagged4 : Pool ℕ
flagged4 = record notified4 { stopping = true; to_notify_all = 1 }

abbrev pool5 : Pool ℕ
pool5 = record flagged4 { phase = λ w. wake (flagged4.phase w); to_notify_all = 0 }

abbrev pool6 : Pool ℕ
pool6 = record pool5 { phase = set_phase pool5.phase 0 awake }

abbrev pool7 : Pool ℕ
pool7 = record pool6 { phase = set_phase pool6.phase 0 exited }

reach1 : Reach server_pool 1 pool1
reach1 = next here (enqueue pool0 9 (λ e. refl) (λ w b e. absurd (cc)))

reach2 : Reach server_pool 1 pool2
reach2 = next reach1 (enter pool1 0 (omega arith) refl (λ e. absurd (cc)))

reach4 : Reach server_pool 1 pool4
reach4 =
    next
      (next reach2
        (take_task pool2 0 9 [] (omega arith) refl (λ w b e. ground (arith, e)) (front 9 [])))
      (finish pool3 0 9 (omega arith) refl)

reach6 : Reach server_pool 1 pool6
reach6 =
    next
      (next
        (next (next reach4 (wake_nobody pool4 (omega arith) (λ w b e. ground (arith, e))))
          (stop notified4 (λ l w b e. ground (arith, e))))
        (wake_all flagged4 (omega arith)))
      (enter pool5 0 (omega arith) refl (λ e. absurd (cc)))

reach7 : Reach server_pool 1 pool7
reach7 = next reach6 (leave pool6 0 (omega arith) refl (λ w b e. ground (arith, e)) refl refl)

all_exited : (w : ℕ) → w < 1 → pool7.phase w ≡ exited
all_exited w b = ground arith

abbrev size_of : ℕ → ℕ
size_of n = n + 1

-- A task of a high priority overtakes.
abbrev low : Task
low = record { priority = 1; id = 1 }

abbrev high : Task
high = record { priority = 5; id = 2 }

abbrev ranked0 : Pool Task
ranked0 = take_in high (take_in low new_pool)

abbrev ranked1 : Pool Task
ranked1 = record ranked0 { phase = set_phase ranked0.phase 1 awake }

abbrev ranked2 : Pool Task
ranked2 = record ranked1 { queue = low ∷ []; phase = set_phase ranked1.phase 1 (running high) }

ranked2-Reach : Reach priority_pool 2 ranked2
ranked2-Reach =
    next
      (next
        (next (next here (enqueue new_pool low (λ e. absurd (cc)) (λ w b e. absurd (cc))))
          (enqueue (take_in low new_pool) high (λ e. absurd (cc)) (λ w b e. absurd (cc))))
        (enter ranked0 1 (omega arith) refl (λ l. refl)))
      (take_task ranked1 1 high (low ∷ []) (omega arith) refl (λ w b e. ground (arith, e))
        (top (low ∷ []) high [] (omega arith, tt)))

abbrev id_of : Task → ℕ
id_of t = t.id

Reach-IsConserved_example :
    total id_of ranked2.submitted
    ≡ total id_of ranked2.queue + total id_of ranked2.finished + carried id_of 2 ranked2.phase
Reach-IsConserved_example = Reach-IsConserved id_of (Top-Keeps id_of) ranked2-Reach

abbrev twos : ℕ → ℕ
twos i = 2

all_chunks_added_example :
    let r = run_tasks twos chunks started in
    (r.sum ≡ add_up twos data_size 0)
    × (r.task_done_count ≡ r.task_count)
    × (r.notified ≡ 1)
    × (sum_of_futures twos chunks 0 ≡ add_up twos data_size 0)
all_chunks_added_example = all_chunks_added twos chunks (λ f. refl)
