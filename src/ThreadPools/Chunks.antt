-- ===== src/ThreadPools/Chunks.antt =====
-- The sample programs of the pools: `main` cuts `data` into chunks, and each task adds up one.
-- The 10000000 values of `int` add up to less than 2 ^ 63 in size, so no sum of `long long`
-- overflows; the values are not negative.
use prog_playground.Prelude.{
  ℕ, zero, suc, ◌+◌, ◌-◌, ◌/◌, ◌%◌, ◌≤◌, ◌<◌, ◌≡◌, ◌∙◌, refl, sym, inl, inr, Bool-cases, ltb→lt,
  not_ltb→le, arith, ◌&&◌, not, List, [], ◌∷◌, ltb, ◌==◌, if◌then◌else◌,
}
use prog_playground.ThreadPools.Conserve.{total}

abbrev pub data_size : ℕ
data_size = 10000000

abbrev pub chunk : ℕ
chunk = data_size / 8

abbrev pub min : ℕ → ℕ → ℕ
min a b = if ltb a b then a else b

pub record Chunk : Type 0 where
  pub start : ℕ
  pub end : ℕ

-- The loop that enqueues, with at most `rounds` turns.
unfoldable pub chunk_loop : (size rounds i : ℕ) → List Chunk
chunk_loop size zero i = []
chunk_loop size (suc rounds) i =
    let rest = chunk_loop size rounds (i + chunk) in
    if ltb i size then record { start = i; end = min (i + chunk) size } ∷ rest else []

unfoldable pub task_count : (size : ℕ) → ℕ
task_count size = size / chunk + (if size % chunk == 0 then 0 else 1)

-- The sum of `rounds` values from `i` on.
unfoldable pub add_up : (values : ℕ → ℕ) → (rounds i : ℕ) → ℕ
add_up values zero i = 0
add_up values (suc rounds) i = values i + add_up values rounds (i + 1)

-- `notified` counts the calls of `notify_one`.
pub record Result : Type 0 where
  pub sum : ℕ
  pub task_count : ℕ
  pub task_done_count : ℕ
  pub notified : ℕ

-- The `task_run` of the asynchronous pool, which returns its sum.
unfoldable pub chunk_sum : (values : ℕ → ℕ) → Chunk → ℕ
unfolding add_up
chunk_sum values c = add_up values (c.end - c.start) c.start

-- The `task_run` of the others.
unfoldable pub task_run : (values : ℕ → ℕ) → Chunk → Result → Result
unfolding chunk_sum
task_run values c r = record r {
  sum = r.sum + chunk_sum values c;
  task_done_count = r.task_done_count + 1;
  notified = r.notified + (if r.task_done_count + 1 == r.task_count then 1 else 0);
}

-- The tasks one after the other, as the mutex of the result orders them.
unfoldable pub run_tasks : (values : ℕ → ℕ) → List Chunk → Result → Result
unfolding task_run
run_tasks values [] r = r
run_tasks values (c ∷ cs) r = run_tasks values cs (task_run values c r)

-- `result` as `main` sets it up, and the chunks that it enqueues.
unfoldable pub started : Result
unfolding task_count
started = record { sum = 0; task_count = task_count data_size; task_done_count = 0; notified = 0 }

unfoldable pub chunks : List Chunk
unfolding chunk_loop
chunks = chunk_loop data_size data_size 0

-- The results of the futures, which `main` of the asynchronous pool adds up in order.
unfoldable pub sum_of_futures : (values : ℕ → ℕ) → List Chunk → (total_sum : ℕ) → ℕ
unfolding chunk_sum
sum_of_futures values [] total_sum = total_sum
sum_of_futures values (c ∷ cs) total_sum = sum_of_futures values cs (total_sum + chunk_sum values c)

-- What each list of tasks leaves.
abbrev pub one : Chunk → ℕ
one c = 1

pub record Leaves (values : ℕ → ℕ) (cs : List Chunk) (r : Result) : Type 0 where
  pub sum : (run_tasks values cs r).sum ≡ r.sum + total (chunk_sum values) cs
  pub done : (run_tasks values cs r).task_done_count ≡ r.task_done_count + total one cs
  pub count : (run_tasks values cs r).task_count ≡ r.task_count
  pub notified :
      (run_tasks values cs r).notified
      ≡ r.notified
        + (if ltb r.task_done_count r.task_count
              && not (ltb (r.task_done_count + total one cs) r.task_count)
            then 1
            else 0)

pub run_tasks-Leaves : (values : ℕ → ℕ) (cs : List Chunk) (r : Result) → Leaves values cs r
unfolding run_tasks
run_tasks-Leaves values [] r = record {
  sum = omega arith;
  done = omega arith;
  count = refl;
  notified = ground arith;
}
run_tasks-Leaves values (c ∷ cs) r =
    let rest = run_tasks-Leaves values cs (task_run values c r) in
    record {
      sum = omega (arith, rest.sum);
      done = omega (arith, rest.done);
      count = rest.count;
      notified = ground (arith, rest.notified);
    }

zero_of : (size i : ℕ) → size ≤ i + 0 → size - i ≡ 0
zero_of size i h = omega arith

-- A sum depends on the numbers alone.
same_sum : (values : ℕ → ℕ) {m n i j : ℕ} → m ≡ n → i ≡ j → add_up values m i ≡ add_up values n j
same_sum values e f = λ k. add_up values (e k) (f k)

add_up-split :
    (values : ℕ → ℕ) (a b n i j : ℕ)
    → n ≡ a + b
    → j ≡ i + a
    → add_up values n i ≡ add_up values a i + add_up values b j
unfolding add_up
add_up-split values zero b n i j e f =
    same_sum values {m = n} {n = b} {i = i} {j = j} (omega (arith, e)) (omega (arith, f))
    ∙ zero_plus (add_up values b j)
  where
    zero_plus : (x : ℕ) → x ≡ 0 + x
    zero_plus x = omega arith
add_up-split values (suc a) b n i j e f =
    same_sum values {m = n} {n = suc (a + b)} {i = i} {j = i} (omega (arith, e)) refl
    ∙ omega (arith, add_up-split values a b (a + b) (i + 1) j refl (omega (arith, f)))

-- The first chunk and the others.
first_chunk :
    (values : ℕ → ℕ) (size i : ℕ)
    → i < size
    → add_up values (size - i) i
      ≡ add_up values (min (i + chunk) size - i) i + add_up values (size - (i + chunk)) (i + chunk)
unfolding add_up
first_chunk values size i h = elim (Bool-cases (ltb (i + chunk) size)) [
  | inl more ↦ rw more (
      add_up-split values (i + chunk - i) (size - (i + chunk)) (size - i) i (i + chunk)
        (omega (arith, ltb→lt (i + chunk) size more)) (omega arith))
  | inr last ↦
      rw (last, nothing_left size (i + chunk) (not_ltb→le (i + chunk) size last))
        (plus_zero (add_up values (size - i) i))
]
  where
    nothing_left : (a b : ℕ) → a ≤ b → a - b ≡ 0
    nothing_left a b k = omega arith

    plus_zero : (x : ℕ) → x ≡ x + 0
    plus_zero x = omega arith

pub chunk_loop-sum :
    (values : ℕ → ℕ) (size rounds i : ℕ)
    → size ≤ i + rounds
    → total (chunk_sum values) (chunk_loop size rounds i) ≡ add_up values (size - i) i
unfolding chunk_loop chunk_sum
chunk_loop-sum values size zero i h = same_sum values {i = i} {j = i} (sym (zero_of size i h)) refl
chunk_loop-sum values size (suc rounds) i h = elim (Bool-cases (ltb i size)) [
  | inl more ↦ rw more (
      omega (
        arith,
        first_chunk values size i (ltb→lt i size more),
        chunk_loop-sum values size rounds (i + chunk) (omega arith),
      ))
  | inr last ↦
      rw last
        (same_sum values {i = i} {j = i} (sym (nothing_from size i (not_ltb→le i size last))) refl)
]
  where
    nothing_from : (a b : ℕ) → a ≤ b → a - b ≡ 0
    nothing_from a b k = omega arith

pub chunk_loop-count :
    (size rounds i : ℕ)
    → size ≤ i + rounds
    → total one (chunk_loop size rounds i) ≡ task_count (size - i)
unfolding chunk_loop task_count
chunk_loop-count size zero i h = ground arith
chunk_loop-count size (suc rounds) i h = ground (arith, chunk_loop-count size rounds (i + chunk))
