-- ===== src/Tests/Pooled.antt =====
-- Inputs for the order of the tasks of a pool, and for a pool that is stopped or resized.
use prog_playground.Prelude.{ℕ, ◌≡◌, ◌<◌, refl, arith, true, false, [], ◌∷◌, ◌++◌}
use prog_playground.ThreadPools.{
  looping, asleep, exited, awake, running, Pool, set_phase, take_in, enqueue, enter, leave, finish,
  take_task, Reach, here, next, new_pool,
}
use prog_playground.ThreadPools.Classes.{front, plain_pool}
use prog_playground.ThreadPools.Conserve.{total}
use prog_playground.ThreadPools.Order.{in_order, started, fifo_order}
use prog_playground.ThreadPools.Stopping.{stop_unheard}
use prog_playground.ThreadPools.Awaiting
use prog_playground.ThreadPools.Awaiting.{Await, AwaitReach, wait_unguarded}
use prog_playground.ThreadPools.Resize.{
  Managed, idle, joining, waiting, stopped, of_pool, call_resize, stop_workers, ResizeReach, begin,
  after,
}
use prog_playground.ThreadPools.Resize.Finished.{all_finished_resized}
use prog_playground.ThreadPools.Resize.Hanging.{resize_hangs}

abbrev two_tasks : Pool ℕ
two_tasks = take_in 4 (take_in 9 new_pool)

abbrev at_queue : Pool ℕ
at_queue = record two_tasks { phase = set_phase two_tasks.phase 0 awake }

abbrev first_runs : Pool ℕ
first_runs = record at_queue { queue = 4 ∷ []; phase = set_phase at_queue.phase 0 (running 9) }

run : Reach plain_pool 1 first_runs
run =
    next
      (next
        (next (next here (enqueue new_pool 9 (λ e. refl) (λ w b e. absurd (cc))))
          (enqueue _ 4 (λ e. refl) (λ w b e. absurd (cc))))
        (enter two_tasks 0 (omega arith) refl (λ e. refl)))
      (take_task at_queue 0 9 (4 ∷ []) (omega arith) refl (λ w b e. ground (arith, e))
        (front 9 (4 ∷ [])))

fifo_order_example : in_order (4 ∷ 9 ∷ []) ≡ started run ++ 4 ∷ []
fifo_order_example = fifo_order (λ q t rest p. p) run

stop_unheard_example :
    (s : Pool ℕ) × Reach plain_pool 3 s
    × (s.stopping ≡ true)
    × (s.queue ≡ [])
    × (s.phase 0 ≡ asleep)
    × (s.to_notify_all ≡ 0)
stop_unheard_example = stop_unheard plain_pool 3 (omega arith) refl

resize_hangs_example :
    (s : Managed ℕ) × ResizeReach s
    × (s.workers ≡ 4)
    × (s.pool.queue ≡ 6 ∷ [])
    × (s.pool.stopping ≡ false)
    × (s.resizer ≡ waiting)
    × ((w : ℕ) → w < 4 → s.pool.phase w ≡ asleep)
    × (s.pool.to_notify ≡ 0)
    × (s.pool.to_notify_all ≡ 0)
resize_hangs_example = resize_hangs 4 5 6 (omega arith)

-- A task runs, the pool is resized, and its worker leaves.
abbrev queued : Pool ℕ
queued = take_in 9 new_pool

abbrev ready : Pool ℕ
ready = record queued { phase = set_phase queued.phase 0 awake }

abbrev busy : Pool ℕ
busy = record ready { queue = []; phase = set_phase ready.phase 0 (running 9) }

abbrev rested : Pool ℕ
rested = record busy { phase = set_phase busy.phase 0 looping; finished = 9 ∷ [] }

abbrev woken : Pool ℕ
woken = record (stopped rested) { phase = set_phase (stopped rested).phase 0 awake }

abbrev left : Managed ℕ
left = record {
  workers = 1;
  pool = record woken { phase = set_phase woken.phase 0 exited };
  resizer = joining;
}

left-ResizeReach : ResizeReach left
left-ResizeReach =
    let has_queued = after (begin 1) (
      of_pool 1 new_pool queued idle (enqueue new_pool 9 (λ e. refl) (λ w b e. absurd (cc)))
        (λ e. tt)) in
    let is_ready = after has_queued (
      of_pool 1 queued ready idle (enter queued 0 (omega arith) refl (λ e. absurd (cc)))
        (λ e. tt)) in
    let is_busy = after is_ready (
      of_pool 1 ready busy idle
        (take_task ready 0 9 [] (omega arith) refl (λ w b e. ground (arith, e)) (front 9 []))
        (λ e. tt)) in
    let is_rested =
      after is_busy (of_pool 1 busy rested idle (finish busy 0 9 (omega arith) refl) (λ e. tt)) in
    let is_stopped =
      after (after is_rested (call_resize 1 rested))
        (stop_workers 1 rested (λ w b e. ground (arith, e)) refl) in
    let is_woken = after is_stopped (
      of_pool 1 (stopped rested) woken joining
        (enter (stopped rested) 0 (omega arith) refl (λ e. absurd (cc))) (λ e. tt)) in
    after is_woken (
      of_pool 1 woken left.pool joining
        (leave woken 0 (omega arith) refl (λ w b e. ground (arith, e)) refl refl) (λ e. tt))

left-exited : (w : ℕ) → w < 1 → left.pool.phase w ≡ exited
left-exited w b = ground (arith, b)

all_finished_resized_example :
    total (λ t. t) left.pool.submitted ≡ total (λ t. t) left.pool.finished
all_finished_resized_example =
    all_finished_resized (λ t. t) left-ResizeReach (omega arith) left-exited

wait_unguarded_example :
    ((s : Await) × AwaitReach 8 s × (s.task_done_count ≡ 8) × (s.main ≡ Awaiting.waiting))
    × ((s : Await) × AwaitReach 8 s × (s.task_done_count ≡ 0) × (s.main ≡ Awaiting.printing))
wait_unguarded_example = wait_unguarded 8 (omega arith)
