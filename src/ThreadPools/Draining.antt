-- ===== src/ThreadPools/Draining.antt =====
-- The pool of ioserver_demo when it is stopped: `stop` and the destructor set the flag under the mutex,
-- and a worker leaves only when the queue is empty.
use prog_playground.Prelude.{
  ℕ, zero, suc, ◌+◌, ◌-◌, ◌<◌, ◌⊎◌, inl, inr, ◌≡◌, ◌≢◌, ap, refl, arith, Bool, true, false, List,
  [], ◌∷◌, ◌++◌, ◌==◌, if◌then◌else◌,
}
use prog_playground.ThreadPools.{
  Phase, looping, asleep, dozing, awake, exited, running, Pool, set_phase, wake, Step, enqueue,
  wake_one, wake_nobody, stop, wake_all, enter, quit, doze, fall_asleep, leave, take_task, finish,
  spurious, Reach, here, next,
}
use prog_playground.ThreadPools.Classes.{front, server_pool}
use mathlib.Core.Path.{subst}
use prog_playground.ThreadPools.Conserve.{total, carried, weight, First-Keeps, Reach-IsConserved}

module _ {A : Type 0} where
  -- What a worker's phase says of the queue, the flag, and the calls of `notify_all` to come.
  abbrev pub Fits : List A → Bool → ℕ → Phase A → Type 0
  Fits q b k looping = Unit
  Fits q b k asleep = (b ≡ false) ⊎ (0 < k)
  Fits q b k dozing = (q ≡ []) × (b ≡ false)
  Fits q b k awake = Unit
  Fits q b k exited = (q ≡ []) × (b ≡ true)
  Fits q b k (running t) = Unit

  abbrev pub AllFit : ℕ → Pool A → Type 0
  AllFit n s = (w : ℕ) → w < n → Fits s.queue s.stopping s.to_notify_all (s.phase w)

  pub set_phase-each :
      (P : Phase A → Type 0) (n w : ℕ) (f : ℕ → Phase A) (p : Phase A)
      → P p
      → ((i : ℕ) → i < n → P (f i))
      → (i : ℕ) → i < n
      → P (set_phase f w p i)
  set_phase-each P n w f p h r i b = elim (i == w) as (λ e. P (if e then p else f i)) [
    | true ↦ h
    | false ↦ r i b
  ]

  Fits-enqueue :
      (q r : List A) (b : Bool) (k : ℕ) (p : Phase A)
      → b ≡ false
      → p ≢ dozing
      → Fits q b k p
      → Fits r b k p
  Fits-enqueue q r b k looping e d h = tt
  Fits-enqueue q r b k asleep e d h = h
  Fits-enqueue q r b k dozing e d h = absurd (d refl)
  Fits-enqueue q r b k awake e d h = tt
  Fits-enqueue q r b k exited e d h = absurd (cc)
  Fits-enqueue q r b k (running t) e d h = tt

  Fits-take :
      (t : A) (q : List A) (b : Bool) (k : ℕ) (p : Phase A)
      → p ≢ dozing
      → Fits (t ∷ q) b k p
      → Fits q b k p
  Fits-take t q b k looping d h = tt
  Fits-take t q b k asleep d h = h
  Fits-take t q b k dozing d h = absurd (d refl)
  Fits-take t q b k awake d h = tt
  Fits-take t q b k exited d h = absurd (cc)
  Fits-take t q b k (running x) d h = tt

  pub Fits-stop :
      (q : List A) (b : Bool) (k : ℕ) (p : Phase A)
      → p ≢ dozing
      → Fits q b k p
      → Fits q true (k + 1) p
  Fits-stop q b k looping d h = tt
  Fits-stop q b k asleep d h = inr (omega arith)
  Fits-stop q b k dozing d h = absurd (d refl)
  Fits-stop q b k awake d h = tt
  Fits-stop q b k exited d h = (h.0, refl)
  Fits-stop q b k (running x) d h = tt

  pub Fits-wake :
      (q : List A) (b : Bool) (k j : ℕ) (p : Phase A) → Fits q b k p → Fits q b j (wake p)
  Fits-wake q b k j looping h = tt
  Fits-wake q b k j asleep h = tt
  Fits-wake q b k j dozing h = h
  Fits-wake q b k j awake h = tt
  Fits-wake q b k j exited h = h
  Fits-wake q b k j (running x) h = tt

  pub Step-AllFit : {n : ℕ} {s t : Pool A} → Step server_pool n s t → AllFit n s → AllFit n t
  Step-AllFit (enqueue s t a fr) h = λ i c.
      Fits-enqueue s.queue (s.queue ++ t ∷ []) s.stopping s.to_notify_all (s.phase i) (a refl)
        (fr i c) (h i c)
  Step-AllFit {n = n} (wake_one s w o b p) h =
      set_phase-each (Fits s.queue s.stopping s.to_notify_all) n w s.phase awake tt h
  Step-AllFit (wake_nobody s o q) h = h
  Step-AllFit (stop s l) h =
      λ i c. Fits-stop s.queue s.stopping s.to_notify_all (s.phase i) (l refl i c) (h i c)
  Step-AllFit (wake_all s o) h =
      λ i c. Fits-wake s.queue s.stopping s.to_notify_all (s.to_notify_all - 1) (s.phase i) (h i c)
  Step-AllFit {n = n} (enter s w b p l) h =
      set_phase-each (Fits s.queue s.stopping s.to_notify_all) n w s.phase awake tt h
  Step-AllFit (quit s w b p l q) h = absurd (cc)
  Step-AllFit {n = n} (doze s w b p fr l q) h =
      set_phase-each (Fits s.queue s.stopping s.to_notify_all) n w s.phase dozing (q, l) h
  Step-AllFit {n = n} (fall_asleep s w b p) h =
      set_phase-each (Fits s.queue s.stopping s.to_notify_all) n w s.phase asleep
        (inl (subst (Fits s.queue s.stopping s.to_notify_all) p (h w b)).1) h
  Step-AllFit {n = n} (leave s w b p fr l q) h =
      set_phase-each (Fits s.queue s.stopping s.to_notify_all) n w s.phase exited (q, l) h
  Step-AllFit {n = n} (take_task s w t rest b p fr (front x xs)) h =
      set_phase-each (Fits xs s.stopping s.to_notify_all) n w s.phase (running x) tt
        (λ i c. Fits-take x xs s.stopping s.to_notify_all (s.phase i) (fr i c) (h i c))
  Step-AllFit {n = n} (finish s w t b p) h =
      set_phase-each (Fits s.queue s.stopping s.to_notify_all) n w s.phase looping tt h
  Step-AllFit {n = n} (spurious s w b p) h =
      set_phase-each (Fits s.queue s.stopping s.to_notify_all) n w s.phase awake tt h

  pub Reach-AllFit : {n : ℕ} {s : Pool A} → Reach server_pool n s → AllFit n s
  Reach-AllFit here = λ i c. tt
  Reach-AllFit (next r st) = Step-AllFit st (Reach-AllFit r)

  pub carried-exited :
      (f : A → ℕ) (n : ℕ) (phase : ℕ → Phase A)
      → ((w : ℕ) → w < n → phase w ≡ exited)
      → carried f n phase ≡ 0
  carried-exited f zero phase h = refl
  carried-exited f (suc n) phase h = omega (
    arith,
    ap (weight f) (h n (omega arith)),
    carried-exited f n phase (λ w c. h w (omega arith)),
  )

  -- When all workers of the pool of ioserver_demo have left, of which there is at least one, every
  -- task that was submitted is finished, as any measure of tasks adds them up.
  pub all_tasks_finished :
      (f : A → ℕ) {n : ℕ} {s : Pool A}
      → 0 < n
      → Reach server_pool n s
      → ((w : ℕ) → w < n → s.phase w ≡ exited)
      → total f s.submitted ≡ total f s.finished
  all_tasks_finished f {n = n} {s = s} b r h = omega (
    arith,
    Reach-IsConserved f (First-Keeps f) r,
    carried-exited f n s.phase h,
    ap (total f) (subst (Fits s.queue s.stopping s.to_notify_all) (h 0 b) (Reach-AllFit r 0 b)).0,
  )
