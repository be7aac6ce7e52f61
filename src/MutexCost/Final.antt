-- ===== src/MutexCost/Final.antt =====
-- The value that both programs print.
use prog_playground.Prelude.{
  ℕ, ◌+◌, ◌-◌, ◌*◌, ◌<◌, ◌≡◌, ◌≢◌, ◌⊎◌, inl, inr, ◌∙◌, refl, sym, ap, arith, ◌==◌, ==_iff,
  Bool-cases, if◌then◌else◌,
}
use mathlib.Core.Path.{subst}
use prog_playground.MutexCost.{
  Phase, outside, locked, loaded, Shared, start, assign, MutexStep, lock, load, store, AtomicStep,
  add, Reach, here, next, AllJoined,
}
use prog_playground.MutexCost.Sum.{sum, sum-assign, sum-constant, sum-zero}

module _ (num_threads iterations : ℕ) where
  -- What is done and what is left make up all rounds.
  abbrev IsBalanced : Shared → Type 0
  IsBalanced s = s.shared_variable + sum num_threads s.left ≡ num_threads * iterations

  -- What a thread with the mutex knows.
  abbrev Knows : (value left : ℕ) → Phase → Type 0
  Knows value left outside = Unit
  Knows value left locked = 0 < left
  Knows value left (loaded n) = (n ≡ value) × (0 < left)

  -- One thread is the only one that may have the mutex.
  record IsSound (s : Shared) : Type 0 where
    balanced : IsBalanced s
    owner : ℕ
    others : (w : ℕ) → w < num_threads → w ≢ owner → s.phase w ≡ outside
    knows : Knows s.shared_variable (s.left owner) (s.phase owner)

  one_round :
      (s : Shared) (w : ℕ)
      → w < num_threads
      → 0 < s.left w
      → IsBalanced s
      → s.shared_variable + 1 + sum num_threads (assign s.left w (s.left w - 1))
        ≡ num_threads * iterations
  one_round s w b h e = omega (arith, sum-assign num_threads w (s.left w - 1) s.left b, h, e)

  assign-miss : {A : Type 0} (f : ℕ → A) (w : ℕ) (a : A) (v : ℕ) → v ≢ w → assign f w a v ≡ f v
  assign-miss f w a v h = ground (arith, h)

  assign-hit : {A : Type 0} (f : ℕ → A) (w : ℕ) (a : A) → assign f w a w ≡ a
  assign-hit f w a = ap (λ e. if e then a else f w) ((==_iff w w).1 refl)

  -- A thread that is not outside is the owner.
  owner_lem :
      {s : Shared} (i : IsSound s) (w : ℕ) → w < num_threads → s.phase w ≢ outside → w ≡ i.owner
  owner_lem i w b h = elim (Bool-cases (w == i.owner)) [
    | inl e ↦ (==_iff w i.owner).0 e
    | inr e ↦ absurd (h (i.others w b (λ same. absurd (ground (arith, e, same)))))
  ]

  others_outside :
      {s : Shared} (i : IsSound s) (w : ℕ)
      → w ≡ i.owner
      → (v : ℕ) → v < num_threads
      → v ≢ w
      → s.phase v ≡ outside
  others_outside i w e v b h = i.others v b (λ k. h (cc (k, e)))

  owner-Knows :
      {s : Shared} (i : IsSound s) (w : ℕ) (p : Phase)
      → w ≡ i.owner
      → s.phase w ≡ p
      → Knows s.shared_variable (s.left w) p
  owner-Knows {s = s} i w p e h =
      subst (Knows s.shared_variable (s.left w)) h
        (subst (λ v. Knows s.shared_variable (s.left v) (s.phase v)) (sym e) i.knows)

  -- After a step of thread `w`, which then owns the mutex or has given it back.
  owned_by :
      (left : ℕ → ℕ) (phase : ℕ → Phase) (value w : ℕ) (p : Phase)
      → value + sum num_threads left ≡ num_threads * iterations
      → ((v : ℕ) → v < num_threads → v ≢ w → phase v ≡ outside)
      → Knows value (left w) p
      → IsSound (record { left = left; phase = assign phase w p; shared_variable = value })
  owned_by left phase value w p e others knows = record {
    balanced = e;
    owner = w;
    others = λ v b h. assign-miss phase w p v h ∙ others v b h;
    knows = subst (Knows value (left w)) (sym (assign-hit phase w p)) knows;
  }

  MutexStep-IsSound : {s t : Shared} → MutexStep num_threads s t → IsSound s → IsSound t
  MutexStep-IsSound (lock s w b h free) i =
      owned_by s.left s.phase s.shared_variable w locked i.balanced (λ v c ne. free v c) h
  MutexStep-IsSound (load s w b p) i =
      let own = owner_lem i w b (λ e. absurd (cc)) in
      owned_by s.left s.phase s.shared_variable w (loaded s.shared_variable) i.balanced
        (others_outside i w own) (refl, owner-Knows i w locked own p)
  MutexStep-IsSound (store s w n b p) i =
      let own = owner_lem i w b (λ e. absurd (cc)) in
      let (same, more) = owner-Knows i w (loaded n) own p in
      owned_by (assign s.left w (s.left w - 1)) s.phase (n + 1) w outside
        (omega (arith, one_round s w b more i.balanced, same)) (others_outside i w own) tt

  start-IsBalanced : IsBalanced (start iterations)
  start-IsBalanced = omega (arith, sum-constant num_threads iterations)

  Reach-IsSound : {s : Shared} → Reach iterations (MutexStep num_threads) s → IsSound s
  Reach-IsSound here = record {
    balanced = start-IsBalanced;
    owner = 0;
    others = λ w b h. refl;
    knows = tt;
  }
  Reach-IsSound (next r st) = MutexStep-IsSound st (Reach-IsSound r)

  Reach-IsBalanced : {s : Shared} → Reach iterations (AtomicStep num_threads) s → IsBalanced s
  Reach-IsBalanced here = start-IsBalanced
  Reach-IsBalanced (next r (add s w b h)) = one_round s w b h (Reach-IsBalanced r)

  -- In whatever order the threads take their steps, when all of them have ended the shared
  -- variable is the number of threads times the rounds of each, with the mutex as with the atomic
  -- addition.
  pub shared_variable_lem :
      {s : Shared}
      → Reach iterations (MutexStep num_threads) s ⊎ Reach iterations (AtomicStep num_threads) s
      → AllJoined num_threads s
      → s.shared_variable ≡ num_threads * iterations
  shared_variable_lem {s = s} r joined =
      let balanced : IsBalanced s = elim r [
        | inl m ↦ (Reach-IsSound m).balanced
        | inr a ↦ Reach-IsBalanced a
      ] in
      omega (arith, balanced, sum-zero num_threads s.left joined)
