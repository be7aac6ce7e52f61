-- ===== src/ThreadPools/Sums.antt =====
-- What the sample programs of the pools print in the end.
use prog_playground.Prelude.{ℕ, ◌+◌, ◌<◌, ◌≡◌, arith, List, [], ◌∷◌}
use prog_playground.ThreadPools.Conserve.{total}
use prog_playground.ThreadPools.Chunks.{
  Chunk, data_size, task_count, add_up, chunk_sum, run_tasks, started, chunks, sum_of_futures, one,
  run_tasks-Leaves, chunk_loop-sum, chunk_loop-count,
}

chunks-sum : (values : ℕ → ℕ) → total (chunk_sum values) chunks ≡ add_up values data_size 0
unfolding chunks
chunks-sum values = chunk_loop-sum values data_size data_size 0 (omega arith)

chunks-count : total one chunks ≡ task_count data_size
unfolding chunks
chunks-count = chunk_loop-count data_size data_size 0 (omega arith)

some_tasks : 0 < task_count data_size
unfolding task_count
some_tasks = omega arith

sum_of_futures-total :
    (values : ℕ → ℕ) (cs : List Chunk) (n : ℕ)
    → sum_of_futures values cs n ≡ n + total (chunk_sum values) cs
unfolding sum_of_futures
sum_of_futures-total values [] n = omega arith
sum_of_futures-total values (c ∷ cs) n =
    omega (arith, sum_of_futures-total values cs (n + chunk_sum values c))

-- If the tasks that are done are the chunks that main enqueues, in any order, the result is the
-- sum of all the data, the number of tasks done is the number that main has computed, and exactly
-- one task notifies; the futures add up to the same sum.
pub all_chunks_added :
    (values : ℕ → ℕ) (done : List Chunk)
    → ((f : Chunk → ℕ) → total f done ≡ total f chunks)
    → let r = run_tasks values done started in
      (r.sum ≡ add_up values data_size 0)
      × (r.task_done_count ≡ r.task_count)
      × (r.notified ≡ 1)
      × (sum_of_futures values chunks 0 ≡ add_up values data_size 0)
unfolding started
all_chunks_added values done same =
    let left = run_tasks-Leaves values done started in
    (
      omega (arith, left.sum, same (chunk_sum values), chunks-sum values),
      omega (arith, left.done, left.count, same one, chunks-count),
      ground (arith, left.notified, same one, chunks-count, some_tasks),
      omega (arith, sum_of_futures-total values chunks 0, chunks-sum values),
    )
