-- ===== src/ThreadPools/Resize/Finished.antt =====
-- The tasks of a pool whose number of workers is changed.
use prog_playground.Prelude.{ℕ, ◌<◌, ◌≡◌, ap, arith, true, ◌+◌}
use mathlib.Core.Path.{subst}
use prog_playground.ThreadPools.{exited, Pool, Step, wake_all}
use prog_playground.ThreadPools.Classes.{server_pool}
use prog_playground.ThreadPools.Conserve.{
  total, carried-wake, IsConserved, Step-IsConserved, First-Keeps, carried-new,
}
use prog_playground.ThreadPools.Draining.{
  Fits, Fits-stop, Fits-wake, AllFit, Step-AllFit, carried-exited,
}
use prog_playground.ThreadPools.Resize.{
  Managed, Resizer, of_pool, notify_resizer, wake_both, wake_resizer, call_resize, wait_empty,
  stop_workers, restart, ResizeStep, ResizeReach, begin, after,
}

module _ {A : Type 0} (f : A → ℕ) where
  record IsSound (s : Managed A) : Type 0 where
    conserved : IsConserved f s.workers s.pool
    all_fit : AllFit s.workers s.pool

  pool_step :
      {n : ℕ} (s t : Pool A) (r : Resizer)
      → Step server_pool n s t
      → IsConserved f n s
      → AllFit n s
      → IsSound (record { workers = n; pool = t; resizer = r })
  pool_step s t r st c fit = record {
    conserved = Step-IsConserved f (First-Keeps f) st c;
    all_fit = Step-AllFit st fit;
  }

  Step-IsSound : {s t : Managed A} → ResizeStep s t → IsSound s → IsSound t
  Step-IsSound (of_pool n s t r st k) h = pool_step s t r st h.conserved h.all_fit
  Step-IsSound (notify_resizer n s o) h = record { conserved = h.conserved; all_fit = h.all_fit }
  Step-IsSound (wake_both n s o) h = pool_step s _ _ (wake_all s o) h.conserved h.all_fit
  Step-IsSound (wake_resizer n s) h = record { conserved = h.conserved; all_fit = h.all_fit }
  Step-IsSound (call_resize n s) h = record { conserved = h.conserved; all_fit = h.all_fit }
  Step-IsSound (wait_empty n s fr q) h = record { conserved = h.conserved; all_fit = h.all_fit }
  Step-IsSound (stop_workers n s fr q) h = record {
    conserved = omega (arith, h.conserved, carried-wake f n s.phase);
    all_fit = λ i c.
        Fits-wake s.queue true (s.to_notify_all + 1) s.to_notify_all (s.phase i)
          (Fits-stop s.queue s.stopping s.to_notify_all (s.phase i) (fr i c) (h.all_fit i c));
  }
  Step-IsSound (restart n s k e) h = record {
    conserved = omega (arith, h.conserved, carried-new f k, carried-exited f n s.phase e);
    all_fit = λ i c. tt;
  }

  Reach-IsSound : {s : Managed A} → ResizeReach s → IsSound s
  Reach-IsSound (begin n) = record {
    conserved = omega (arith, carried-new f n);
    all_fit = λ i c. tt;
  }
  Reach-IsSound (after r st) = Step-IsSound st (Reach-IsSound r)

  -- When all workers of a pool of ioserver_demo have left, of which there is at least one, then
  -- whatever steps and resizes came before, every task that was submitted is finished, as any
  -- measure of tasks adds them up.
  pub all_finished_resized :
      {s : Managed A}
      → ResizeReach s
      → 0 < s.workers
      → ((w : ℕ) → w < s.workers → s.pool.phase w ≡ exited)
      → total f s.pool.submitted ≡ total f s.pool.finished
  all_finished_resized {s = s} r b h =
      let sound = Reach-IsSound r in
      omega (
        arith,
        sound.conserved,
        carried-exited f s.workers s.pool.phase h,
        ap (total f)
            (subst (Fits s.pool.queue s.pool.stopping s.pool.to_notify_all) (h 0 b)
              (sound.all_fit 0 b)).0,
      )
