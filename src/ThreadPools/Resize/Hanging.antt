-- ===== src/ThreadPools/Resize/Hanging.antt =====
-- A run in which `resize` takes the wake-up of a task.
use prog_playground.Prelude.{
  ℕ, zero, suc, ◌<◌, ◌≤◌, ◌≡◌, ◌≢◌, ap, refl, Bool-cases, inl, inr, ltb, ltb→lt, not_ltb→le, arith,
  true, false, [], ◌∷◌, ◌==◌, ==_iff, if◌then◌else◌,
}
use prog_playground.ThreadPools.{
  Phase, looping, asleep, dozing, awake, running, Pool, set_phase, take_in, IsFree, enqueue,
  wake_one, enter, doze, fall_asleep, take_task, finish, new_pool,
}
use prog_playground.ThreadPools.Classes.{front}
use prog_playground.ThreadPools.Draining.{set_phase-each}
use prog_playground.ThreadPools.Resize.{
  Managed, Resizer, idle, waiting, of_pool, notify_resizer, call_resize, wait_empty, ResizeReach,
  begin, after,
}

module _ {A : Type 0} where
  -- Worker `w` comes to the queue and falls asleep.
  abbrev lulled : ℕ → (ℕ → Phase A) → ℕ → Phase A
  lulled w g = set_phase (set_phase (set_phase g w awake) w dozing) w asleep

  -- The first `n` workers, which all sleep.
  abbrev all_lulled : ℕ → ℕ → Phase A
  all_lulled zero = λ w. looping
  all_lulled (suc n) = lulled n (all_lulled n)

  lulled-each :
      (P : Phase A → Type 0) (n w : ℕ) (g : ℕ → Phase A)
      → P asleep
      → ((i : ℕ) → i < n → i ≢ w → P (g i))
      → (i : ℕ) → i < n
      → P (lulled w g i)
  lulled-each P n w g h k i b =
      elim (i == w)
          as (λ e.
            e ≡ (i == w)
            → P (if e then asleep else if e then dozing else if e then awake else g i)) [
              | true ↦ λ e. h
              | false ↦ λ e. k i b (λ same. absurd (ground (arith, e, same)))
            ]
        refl

  all_lulled-asleep : (n w : ℕ) → w < n → all_lulled n w ≡ asleep
  all_lulled-asleep zero w h = absurd (omega arith)
  all_lulled-asleep (suc n) w h =
      lulled-each (λ p. p ≡ asleep) (suc n) n (all_lulled n) refl
        (λ i b ne. all_lulled-asleep n i (ground (arith, b, ne))) w h

  all_lulled-looping : (n w : ℕ) → n ≤ w → all_lulled n w ≡ looping
  all_lulled-looping zero w h = refl
  all_lulled-looping (suc n) w h =
      let other : (w == n) ≡ false = ground (arith, h) in
      rw other (all_lulled-looping n w (omega arith))

  set_phase-same : (g : ℕ → Phase A) (w : ℕ) (p : Phase A) → set_phase g w p w ≡ p
  set_phase-same g w p = ap (λ e. if e then p else g w) ((==_iff w w).1 refl)

  -- No worker holds the mutex to fall asleep.
  abbrev IsCalm : ℕ → (ℕ → Phase A) → Type 0
  IsCalm n g = (w : ℕ) → w < n → g w ≢ dozing

  set_phase-IsCalm :
      (n w : ℕ) (g : ℕ → Phase A) (p : Phase A)
      → p ≢ dozing
      → IsCalm n g
      → IsCalm n (set_phase g w p)
  set_phase-IsCalm n w g p h calm = set_phase-each (λ q. q ≢ dozing) n w g p h calm

  all_lulled-IsCalm : (n k : ℕ) → IsCalm n (all_lulled k)
  all_lulled-IsCalm n k w b e = elim (Bool-cases (ltb w k)) [
    | inl inside ↦ absurd (cc (e, all_lulled-asleep k w (ltb→lt w k inside)))
    | inr outside ↦ absurd (cc (e, all_lulled-looping k w (not_ltb→le w k outside)))
  ]

  -- A worker that is between two tasks falls asleep.
  falls_asleep :
      {n w : ℕ} {s : Pool A} {r : Resizer}
      → w < n
      → IsFree n s
      → s.phase w ≡ looping
      → s.stopping ≡ false
      → s.queue ≡ []
      → ResizeReach (record { workers = n; pool = s; resizer = r })
      → ResizeReach
          (record { workers = n; pool = record s { phase = lulled w s.phase }; resizer = r })
  falls_asleep {n = n} {w = w} {s = s} {r = r} b fr p live empty reach =
      let entered : ResizeReach (record {
        workers = n;
        pool = record s { phase = set_phase s.phase w awake };
        resizer = r;
      }) =
        after reach (of_pool n s _ r (enter s w b p (λ e. live)) (λ e. tt)) in
      let dozed : ResizeReach (record {
        workers = n;
        pool = record s { phase = set_phase (set_phase s.phase w awake) w dozing };
        resizer = r;
      }) =
        after entered (
          of_pool n _ _ r
            (doze _ w b (set_phase-same s.phase w awake)
              (set_phase-IsCalm n w s.phase awake (λ e. absurd (cc)) fr) live empty)
            (λ e. tt)) in
      after dozed (
        of_pool n _ _ r (fall_asleep _ w b (set_phase-same (set_phase s.phase w awake) w dozing))
          (λ e. tt))

  all_asleep :
      (n k : ℕ)
      → k ≤ n
      → ResizeReach
          (record { workers = n; pool = record new_pool { phase = all_lulled k }; resizer = idle })
  all_asleep n zero h = begin n
  all_asleep n (suc k) h =
      falls_asleep {s = record new_pool { phase = all_lulled k }} h (all_lulled-IsCalm n k)
        (all_lulled-looping k k (omega arith)) refl refl (all_asleep n k (omega arith))

  -- After a task of worker 0.
  again_asleep :
      (n : ℕ) (t : A) (w : ℕ)
      → w < n
      → lulled 0
          (set_phase (set_phase (set_phase (all_lulled n) 0 awake) 0 (running t)) 0 looping)
          w
        ≡ asleep
  again_asleep n t w b = elim (Bool-cases (w == 0)) [
    | inl e ↦ rw e refl
    | inr e ↦ rw e (all_lulled-asleep n w b)
  ]

  woken : ℕ → ℕ → Phase A
  woken n = set_phase (all_lulled n) 0 awake

  woken-IsCalm : (n : ℕ) → IsCalm n (woken n)
  unfolding woken
  woken-IsCalm n =
      set_phase-IsCalm n 0 (all_lulled n) awake (λ e. absurd (cc)) (all_lulled-IsCalm n n)

  -- `resize` is called when a task waits for worker 0.
  resize_waits :
      (n : ℕ) (t : A)
      → 0 < n
      → ResizeReach (record {
        workers = n;
        pool = record new_pool { queue = t ∷ []; submitted = t ∷ []; phase = woken n };
        resizer = waiting;
      })
  unfolding woken
  resize_waits n t h =
      let one = after (all_asleep n n (omega arith)) (
        of_pool n _ _ idle
          (enqueue (record new_pool { phase = all_lulled n }) t (λ e. refl) (all_lulled-IsCalm n n))
          (λ e. tt)) in
      let two = after one (
        of_pool n _ _ idle
          (wake_one (take_in t (record new_pool { phase = all_lulled n })) 0 (omega arith) h
            (all_lulled-asleep n 0 h))
          (λ e. tt)) in
      after (after two (call_resize n _)) (wait_empty n _ (woken-IsCalm n) (λ e. absurd (cc)))

  -- With any number of workers from 1 on, a pool of ioserver_demo that is resized can reach a
  -- state in which a task waits in the queue, the pool is not stopped, every worker sleeps, resize
  -- itself sleeps in its wait, and no notification is still to come.
  pub resize_hangs :
      (n : ℕ) (t u : A)
      → 0 < n
      → (s : Managed A) × ResizeReach s
        × (s.workers ≡ n)
        × (s.pool.queue ≡ u ∷ [])
        × (s.pool.stopping ≡ false)
        × (s.resizer ≡ waiting)
        × ((w : ℕ) → w < n → s.pool.phase w ≡ asleep)
        × (s.pool.to_notify ≡ 0)
        × (s.pool.to_notify_all ≡ 0)
  unfolding woken
  resize_hangs n t u h =
      let ran = set_phase (woken n) 0 (running t) in
      let calm2 = set_phase-IsCalm n 0 (woken n) (running t) (λ e. absurd (cc)) (woken-IsCalm n) in
      let calm3 = set_phase-IsCalm n 0 ran looping (λ e. absurd (cc)) calm2 in
      let calm4 : IsCalm n (lulled 0 (set_phase ran 0 looping)) =
        λ w b e. absurd (cc (e, again_asleep n t w b)) in
      let taken = after (resize_waits n t h) (
        of_pool n _ _ waiting
          (take_task _ 0 t [] h (set_phase-same (all_lulled n) 0 awake) (woken-IsCalm n)
            (front t []))
          (λ e. tt)) in
      let done = after taken (
        of_pool n _ _ waiting (finish _ 0 t h (set_phase-same (woken n) 0 (running t)))
          (λ e. tt)) in
      let back =
        falls_asleep
          {s = record new_pool {
            phase = set_phase ran 0 looping;
            submitted = t ∷ [];
            finished = t ∷ [];
          }}
          h calm3 (set_phase-same ran 0 looping) refl refl done in
      (
        _,
        after
            (after (after back (of_pool n _ _ waiting (enqueue _ u (λ e. refl) calm4) (λ e. tt)))
              (notify_resizer n _ (omega arith)))
            (wait_empty n _ calm4 (λ e. absurd (cc))),
        refl,
        refl,
        refl,
        refl,
        again_asleep n t,
        refl,
        refl,
      )
