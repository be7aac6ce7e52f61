-- ===== src/ThreadPools/Waking.antt =====
-- No wake-up is lost in the pool of ioserver_demo.
use prog_playground.Prelude.{ℕ, ◌<◌, ◌≡◌, ◌⊎◌, []}
use prog_playground.ThreadPools.{Phase, looping, asleep, dozing, awake, exited, running, Pool}

module _ {A : Type 0} where
  -- A worker that comes back to the queue by itself.
  abbrev pub IsActive : Phase A → Type 0
  IsActive looping = Unit
  IsActive asleep = ⊥
  IsActive dozing = ⊥
  IsActive awake = Unit
  IsActive exited = ⊥
  IsActive (running t) = Unit

  abbrev pub HasActive : ℕ → (ℕ → Phase A) → Type 0
  HasActive n phase = (w : ℕ) × (w < n) × IsActive (phase w)

  -- No task waits, or a notification is to come, or a worker is active.
  abbrev pub IsServed : ℕ → Pool A → Type 0
  IsServed n s = (s.queue ≡ []) ⊎ ((0 < s.to_notify) ⊎ HasActive n s.phase)
