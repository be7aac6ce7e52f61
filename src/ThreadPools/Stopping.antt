-- ===== src/ThreadPools/Stopping.antt =====
-- The pools that set the flag without the mutex, when they are stopped.
use prog_playground.Prelude.{ℕ, ◌<◌, ◌≡◌, refl, arith, true, false, []}
use prog_playground.ThreadPools.{
  Discipline, Pool, asleep, stop, wake_all, enter, doze, fall_asleep, Reach, here, next, new_pool,
}

module _ {A : Type 0} where
  -- A pool that sets its flag without the mutex can, with any number of workers from 1 on, reach a
  -- state in which it is stopped, its queue is empty and no call of notify_all is still to come,
  -- while a worker sleeps.
  pub stop_unheard :
      (d : Discipline A) (n : ℕ)
      → 0 < n
      → d.stop_locks ≡ false
      → (s : Pool A) × Reach d n s
        × (s.stopping ≡ true)
        × (s.queue ≡ [])
        × (s.phase 0 ≡ asleep)
        × (s.to_notify_all ≡ 0)
  stop_unheard d n some_worker unlocked =
      let entered : Reach d n _ = next here (enter new_pool 0 some_worker refl (λ e. refl)) in
      let dozed : Reach d n _ =
        next entered (doze _ 0 some_worker refl (λ w b e. ground (arith, e)) refl refl) in
      let stopped : Reach d n _ = next dozed (stop _ (λ e. absurd (cc))) in
      let notified : Reach d n _ = next stopped (wake_all _ (omega arith)) in
      (_, next notified (fall_asleep _ 0 some_worker refl), refl, refl, refl, refl)
