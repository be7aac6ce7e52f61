-- ===== src/ThreadPools/Conserve.antt =====
-- No task is lost or run twice.
use prog_playground.Prelude.{
  ℕ, zero, suc, ◌+◌, ◌≤◌, ◌<◌, ◌≡◌, ap, refl, Bool-cases, inl, inr, arith, List, [], ◌∷◌, ◌++◌,
  ◌==◌, ==_iff, if◌then◌else◌,
}
use prog_playground.ThreadPools.{
  Phase, looping, asleep, dozing, awake, exited, running, Discipline, Pool, set_phase, wake, Step,
  enqueue, wake_one, wake_nobody, stop, wake_all, enter, quit, doze, fall_asleep, leave, take_task,
  finish, spurious, Reach, here, next,
}
use prog_playground.ThreadPools.Classes.{First, front, Task, Top, top}

module _ {A : Type 0} (f : A → ℕ) where
  abbrev pub total : List A → ℕ
  total [] = 0
  total (t ∷ ts) = f t + total ts

  pub total-append : (xs ys : List A) → total (xs ++ ys) ≡ total xs + total ys
  total-append [] ys = omega arith
  total-append (x ∷ xs) ys = omega (arith, total-append xs ys)

  abbrev pub weight : Phase A → ℕ
  weight looping = 0
  weight asleep = 0
  weight dozing = 0
  weight awake = 0
  weight exited = 0
  weight (running t) = f t

  -- What the first `n` workers run.
  abbrev pub carried : ℕ → (ℕ → Phase A) → ℕ
  carried zero phase = 0
  carried (suc n) phase = weight (phase n) + carried n phase

  carried-outside :
      (n w : ℕ) (phase : ℕ → Phase A) (p : Phase A)
      → n ≤ w
      → carried n (set_phase phase w p) ≡ carried n phase
  carried-outside zero w phase p h = refl
  carried-outside (suc n) w phase p h =
      ground (arith, carried-outside n w phase p (omega arith), ==_iff n w)

  carried-set_phase :
      (n w : ℕ) (phase : ℕ → Phase A) (p : Phase A)
      → w < n
      → carried n (set_phase phase w p) + weight (phase w) ≡ carried n phase + weight p
  carried-set_phase zero w phase p h = absurd (omega arith)
  carried-set_phase (suc n) w phase p h = elim (Bool-cases (n == w)) [
    | inl e ↦ omega (
      arith,
      carried-outside n w phase p (omega (arith, (==_iff n w).0 e)),
      ap (λ i. weight (phase i)) ((==_iff n w).0 e),
      ap (λ b. weight (if b then p else phase n)) e,
    )
    | inr e ↦ omega (
      arith,
      carried-set_phase n w phase p (ground (arith, ==_iff n w)),
      ap (λ b. weight (if b then p else phase n)) e,
    )
  ]

  weight-wake : (p : Phase A) → weight (wake p) ≡ weight p
  weight-wake looping = refl
  weight-wake asleep = refl
  weight-wake dozing = refl
  weight-wake awake = refl
  weight-wake exited = refl
  weight-wake (running t) = refl

  pub carried-wake :
      (n : ℕ) (phase : ℕ → Phase A) → carried n (λ w. wake (phase w)) ≡ carried n phase
  carried-wake zero phase = refl
  carried-wake (suc n) phase = omega (arith, weight-wake (phase n), carried-wake n phase)

  -- A discipline neither loses nor makes tasks.
  abbrev pub Keeps : Discipline A → Type 0
  Keeps d = (q : List A) (t : A) (rest : List A) → d.Picks q t rest → total q ≡ f t + total rest

  abbrev pub IsConserved : ℕ → Pool A → Type 0
  IsConserved n s = total s.submitted ≡ total s.queue + total s.finished + carried n s.phase

  pub Step-IsConserved :
      {d : Discipline A} {n : ℕ} {s t : Pool A}
      → Keeps d
      → Step d n s t
      → IsConserved n s
      → IsConserved n t
  Step-IsConserved keeps (enqueue s t a fr) c = omega (arith, c, total-append s.queue (t ∷ []))
  Step-IsConserved {n = n} keeps (wake_one s w o b p) c =
      omega (arith, c, carried-set_phase n w s.phase awake b, ap weight p)
  Step-IsConserved keeps (wake_nobody s o q) c = c
  Step-IsConserved keeps (stop s l) c = c
  Step-IsConserved {n = n} keeps (wake_all s o) c = omega (arith, c, carried-wake n s.phase)
  Step-IsConserved {n = n} keeps (enter s w b p l) c =
      omega (arith, c, carried-set_phase n w s.phase awake b, ap weight p)
  Step-IsConserved {n = n} keeps (quit s w b p l q) c =
      omega (arith, c, carried-set_phase n w s.phase exited b, ap weight p)
  Step-IsConserved {n = n} keeps (doze s w b p fr l q) c =
      omega (arith, c, carried-set_phase n w s.phase dozing b, ap weight p)
  Step-IsConserved {n = n} keeps (fall_asleep s w b p) c =
      omega (arith, c, carried-set_phase n w s.phase asleep b, ap weight p)
  Step-IsConserved {n = n} keeps (leave s w b p fr l q) c =
      omega (arith, c, carried-set_phase n w s.phase exited b, ap weight p)
  Step-IsConserved {n = n} keeps (take_task s w t rest b p fr k) c =
      omega
        (arith, c, keeps s.queue t rest k, carried-set_phase n w s.phase (running t) b, ap weight p)
  Step-IsConserved {n = n} keeps (finish s w t b p) c =
      omega (arith, c, carried-set_phase n w s.phase looping b, ap weight p)
  Step-IsConserved {n = n} keeps (spurious s w b p) c =
      omega (arith, c, carried-set_phase n w s.phase awake b, ap weight p)

  pub carried-new : (n : ℕ) → carried n (λ w. looping) ≡ 0
  carried-new zero = refl
  carried-new (suc n) = omega (arith, carried-new n)

  -- In every state that a pool reaches, with any number of workers and any order of their steps,
  -- the tasks submitted are those in the queue, those finished and those that a worker runs, as
  -- any measure of tasks adds them up, if the order of the queue neither loses nor makes tasks.
  pub Reach-IsConserved :
      {d : Discipline A} {n : ℕ} {s : Pool A} → Keeps d → Reach d n s → IsConserved n s
  Reach-IsConserved {n = n} keeps here = omega (arith, carried-new n)
  Reach-IsConserved keeps (next r st) = Step-IsConserved keeps st (Reach-IsConserved keeps r)

  pub First-Keeps :
      (q : List A) (t : A) (rest : List A) → First q t rest → total q ≡ f t + total rest
  First-Keeps q t rest (front x xs) = refl

pub Top-Keeps :
    (f : Task → ℕ) (q : List Task) (t : Task) (rest : List Task)
    → Top q t rest
    → total f q ≡ f t + total f rest
Top-Keeps f q t rest (top before x behind a) =
    omega (arith, total-append f before (x ∷ behind), total-append f before behind)
