-- ===== src/MutexCost.antt =====
-- The counters of concurrent/mutex_cost: mutex_cost.cpp adds under a mutex, atomic_cost.cpp by an
-- atomic addition. Under the mutex the addition is a load and a store.
pub mod Sum
pub mod Final
use prog_playground.Prelude.{ℕ, ◌+◌, ◌-◌, ◌<◌, ◌≡◌, ◌==◌, if◌then◌else◌}

-- The number of threads of both programs, and the rounds of each thread. The variable is an `int`,
-- which their product fits.
abbrev pub main_threads : ℕ
main_threads = 4

abbrev pub main_iterations : ℕ
main_iterations = 1000000

-- A thread outside of the locked part, with the mutex, or with the value that it has loaded.
pub data Phase : Type 0 where
  outside locked : Phase
  loaded : ℕ → Phase

-- `left w` are the rounds of the loop that thread `w` has still to finish.
pub record Shared : Type 0 where
  pub left : ℕ → ℕ
  pub phase : ℕ → Phase
  pub shared_variable : ℕ

abbrev pub start : (iterations : ℕ) → Shared
start iterations = record { left = λ w. iterations; phase = λ w. outside; shared_variable = 0 }

abbrev pub assign : {A : Type 0} → (ℕ → A) → ℕ → A → ℕ → A
assign f w a i = if i == w then a else f i

-- The steps of the threads of mutex_cost.cpp; `lock` waits until no thread has the mutex.
pub data MutexStep (num_threads : ℕ) : Shared → Shared → Type 0 where
  lock :
      (s : Shared) (w : ℕ)
      → w < num_threads
      → 0 < s.left w
      → ((v : ℕ) → v < num_threads → s.phase v ≡ outside)
      → MutexStep num_threads s (record s { phase = assign s.phase w locked })
  load :
      (s : Shared) (w : ℕ)
      → w < num_threads
      → s.phase w ≡ locked
      → MutexStep num_threads s (record s { phase = assign s.phase w (loaded s.shared_variable) })
  store :
      (s : Shared) (w n : ℕ)
      → w < num_threads
      → s.phase w ≡ loaded n
      → MutexStep num_threads s (record {
        left = assign s.left w (s.left w - 1);
        phase = assign s.phase w outside;
        shared_variable = n + 1;
      })

-- The step of a thread of atomic_cost.cpp.
pub data AtomicStep (num_threads : ℕ) : Shared → Shared → Type 0 where
  add :
      (s : Shared) (w : ℕ)
      → w < num_threads
      → 0 < s.left w
      → AtomicStep num_threads s (record s {
        left = assign s.left w (s.left w - 1);
        shared_variable = s.shared_variable + 1;
      })

-- The states that a program reaches from the start of its threads.
pub data Reach (iterations : ℕ) (Step : Shared → Shared → Type 0) : Shared → Type 0 where
  here : Reach iterations Step (start iterations)
  next : {s t : Shared} → Reach iterations Step s → Step s t → Reach iterations Step t

-- `join` of every thread returns.
abbrev pub AllJoined : (num_threads : ℕ) → Shared → Type 0
AllJoined num_threads s = (w : ℕ) → w < num_threads → s.left w ≡ 0
