-- ===== src/ThreadPools.antt =====
-- The thread pools: ioserver_demo/src/common/thread_pool.cpp, thread_pool/thread_pool.cpp,
-- thread_pool/thread_pool_priority.cpp, concurrent/base/thread_pool_withwait.cpp and
-- concurrent/std_async/thread_pool_async_withwait.cpp. They differ in the order of their queue, in
-- what a worker does between two tasks, in whether a stopped pool still takes tasks, and in whether
-- the flag is set under the mutex. A step is what a thread does while it holds the mutex, or
-- between two such parts. A task is notified behind the step that puts it into the queue, and a
-- stop behind the step that sets the flag: the pool counts the notifications that are still to come.
pub mod Classes
pub mod Conserve
pub mod Waking
pub mod Chunks
pub mod Sums
pub mod Draining
pub mod Order
pub mod Stopping
pub mod Awaiting
pub mod Resize
use prog_playground.Prelude.{
  ℕ, zero, suc, ◌+◌, ◌-◌, ◌≤◌, ◌<◌, ◌≡◌, ◌≢◌, Bool, true, false, List, [], ◌∷◌, ◌++◌, ◌==◌,
  if◌then◌else◌,
}

-- `looping` is between two tasks, `awake` at the wait with its condition still to be tested, `dozing`
-- with the condition found false and the mutex still held, `asleep` in the wait.
pub data Phase (A : Type 0) : Type 0 where
  looping asleep dozing awake exited : Phase A
  running : A → Phase A

-- `Picks queue t rest`: the worker may take `t` and leave `rest`.
pub record Discipline (A : Type 0) : Type 1 where
  pub Picks : List A → A → List A → Type 0
  pub leaves_on_stop : Bool
  pub rejects_when_stopped : Bool
  pub stop_locks : Bool

pub record Pool (A : Type 0) : Type 0 where
  pub queue : List A
  pub stopping : Bool
  pub phase : ℕ → Phase A
  pub submitted : List A
  pub finished : List A
  pub to_notify : ℕ
  pub to_notify_all : ℕ

abbrev pub set_phase : {A : Type 0} → (ℕ → Phase A) → ℕ → Phase A → ℕ → Phase A
set_phase f w p i = if i == w then p else f i

-- `notify_all`
abbrev pub wake : {A : Type 0} → Phase A → Phase A
wake looping = looping
wake asleep = awake
wake dozing = dozing
wake awake = awake
wake exited = exited
wake (running t) = running t

-- The constructor, which starts the workers.
abbrev pub new_pool : {A : Type 0} → Pool A
new_pool = record {
  queue = [];
  stopping = false;
  phase = λ w. looping;
  submitted = [];
  finished = [];
  to_notify = 0;
  to_notify_all = 0;
}

abbrev pub take_in : {A : Type 0} → A → Pool A → Pool A
take_in t s = record s {
  queue = s.queue ++ t ∷ [];
  submitted = t ∷ s.submitted;
  to_notify = s.to_notify + 1;
}

-- `enqueue` throws, if the discipline says so and the pool is stopped.
abbrev pub Accepts : {A : Type 0} → Discipline A → Pool A → Type 0
Accepts d s = d.rejects_when_stopped ≡ true → s.stopping ≡ false

-- No worker holds the mutex to fall asleep.
abbrev pub IsFree : {A : Type 0} → (n : ℕ) → Pool A → Type 0
IsFree n s = (w : ℕ) → w < n → s.phase w ≢ dozing

-- A pool with `n` workers. The first five steps are another thread's: `notify_one` wakes a sleeping
-- worker, if there is one.
pub data Step {A : Type 0} (d : Discipline A) (n : ℕ) : Pool A → Pool A → Type 0 where
  enqueue : (s : Pool A) (t : A) → Accepts d s → IsFree n s → Step d n s (take_in t s)
  wake_one :
      (s : Pool A) (w : ℕ)
      → 0 < s.to_notify
      → w < n
      → s.phase w ≡ asleep
      → Step d n s (record s { phase = set_phase s.phase w awake; to_notify = s.to_notify - 1 })
  wake_nobody :
      (s : Pool A)
      → 0 < s.to_notify
      → ((w : ℕ) → w < n → s.phase w ≢ asleep)
      → Step d n s (record s { to_notify = s.to_notify - 1 })
  stop :
      (s : Pool A)
      → (d.stop_locks ≡ true → IsFree n s)
      → Step d n s (record s { stopping = true; to_notify_all = s.to_notify_all + 1 })
  wake_all :
      (s : Pool A)
      → 0 < s.to_notify_all
      → Step d n s (record s { phase = λ w. wake (s.phase w); to_notify_all = s.to_notify_all - 1 })
  enter :
      (s : Pool A) (w : ℕ)
      → w < n
      → s.phase w ≡ looping
      → (d.leaves_on_stop ≡ true → s.stopping ≡ false)
      → Step d n s (record s { phase = set_phase s.phase w awake })
  quit :
      (s : Pool A) (w : ℕ)
      → w < n
      → s.phase w ≡ looping
      → d.leaves_on_stop ≡ true
      → s.stopping ≡ true
      → Step d n s (record s { phase = set_phase s.phase w exited })
  doze :
      (s : Pool A) (w : ℕ)
      → w < n
      → s.phase w ≡ awake
      → IsFree n s
      → s.stopping ≡ false
      → s.queue ≡ []
      → Step d n s (record s { phase = set_phase s.phase w dozing })
  fall_asleep :
      (s : Pool A) (w : ℕ)
      → w < n
      → s.phase w ≡ dozing
      → Step d n s (record s { phase = set_phase s.phase w asleep })
  leave :
      (s : Pool A) (w : ℕ)
      → w < n
      → s.phase w ≡ awake
      → IsFree n s
      → s.stopping ≡ true
      → s.queue ≡ []
      → Step d n s (record s { phase = set_phase s.phase w exited })
  take_task :
      (s : Pool A) (w : ℕ) (t : A) (rest : List A)
      → w < n
      → s.phase w ≡ awake
      → IsFree n s
      → d.Picks s.queue t rest
      → Step d n s (record s { queue = rest; phase = set_phase s.phase w (running t) })
  finish :
      (s : Pool A) (w : ℕ) (t : A)
      → w < n
      → s.phase w ≡ running t
      → Step d n s (record s { phase = set_phase s.phase w looping; finished = t ∷ s.finished })
  spurious :
      (s : Pool A) (w : ℕ)
      → w < n
      → s.phase w ≡ asleep
      → Step d n s (record s { phase = set_phase s.phase w awake })

pub data Reach {A : Type 0} (d : Discipline A) (n : ℕ) : Pool A → Type 0 where
  here : Reach d n new_pool
  next : {s t : Pool A} → Reach d n s → Step d n s t → Reach d n t
