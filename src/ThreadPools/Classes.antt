-- ===== src/ThreadPools/Classes.antt =====
-- The disciplines of the five classes, and their steps.
use prog_playground.Prelude.{ℕ, ◌≤◌, true, false, List, [], ◌∷◌, ◌++◌}
use prog_playground.ThreadPools.{Discipline, Pool, Step}

-- A queue gives its first task.
pub data First {A : Type 0} : List A → A → List A → Type 0 where
  front : (t : A) (rest : List A) → First (t ∷ rest) t rest

-- A priority queue gives a task of the highest priority, one of them if there are several.
pub record Task : Type 0 where
  pub priority : ℕ
  pub id : ℕ

abbrev pub AllUpTo : ℕ → List Task → Type 0
AllUpTo p [] = Unit
AllUpTo p (t ∷ ts) = (t.priority ≤ p) × AllUpTo p ts

pub data Top : List Task → Task → List Task → Type 0 where
  top :
      (before : List Task) (t : Task) (behind : List Task)
      → AllUpTo t.priority (before ++ behind)
      → Top (before ++ t ∷ behind) t (before ++ behind)

-- `utils::ThreadPool` of ioserver_demo: a worker leaves only when the queue is empty.
abbrev pub server_pool : {A : Type 0} → Discipline A
server_pool = record {
  Picks = First;
  leaves_on_stop = false;
  rejects_when_stopped = true;
  stop_locks = true;
}

-- `ThreadPool` of thread_pool.cpp: `while(!stop_)` between two tasks.
abbrev pub plain_pool : {A : Type 0} → Discipline A
plain_pool = record {
  Picks = First;
  leaves_on_stop = true;
  rejects_when_stopped = false;
  stop_locks = false;
}

-- `ThreadPool` of thread_pool_priority.cpp.
abbrev pub priority_pool : Discipline Task
priority_pool = record {
  Picks = Top;
  leaves_on_stop = true;
  rejects_when_stopped = false;
  stop_locks = false;
}

-- `ThreadPool` of thread_pool_withwait.cpp.
abbrev pub withwait_pool : {A : Type 0} → Discipline A
withwait_pool = record {
  Picks = First;
  leaves_on_stop = true;
  rejects_when_stopped = false;
  stop_locks = false;
}

-- `ThreadPool` of thread_pool_async_withwait.cpp.
abbrev pub async_pool : {A : Type 0} → Discipline A
async_pool = record {
  Picks = First;
  leaves_on_stop = true;
  rejects_when_stopped = true;
  stop_locks = false;
}

-- The steps of each class with `n` workers.
abbrev pub ServerStep : {A : Type 0} → ℕ → Pool A → Pool A → Type 0
ServerStep n s t = Step server_pool n s t

abbrev pub PlainStep : {A : Type 0} → ℕ → Pool A → Pool A → Type 0
PlainStep n s t = Step plain_pool n s t

abbrev pub PriorityStep : ℕ → Pool Task → Pool Task → Type 0
PriorityStep n s t = Step priority_pool n s t

abbrev pub WithwaitStep : {A : Type 0} → ℕ → Pool A → Pool A → Type 0
WithwaitStep n s t = Step withwait_pool n s t

abbrev pub AsyncStep : {A : Type 0} → ℕ → Pool A → Pool A → Type 0
AsyncStep n s t = Step async_pool n s t
