-- ===== src/ThreadPools/Order.antt =====
-- The order in which the tasks of a pool start.
use prog_playground.Prelude.{ℕ, ◌≡◌, ◌∙◌, ap, sym, refl, List, [], ◌∷◌, ◌++◌}
use mathlib.Core.List.{append_assoc}
use prog_playground.ThreadPools.{
  Discipline, Pool, enqueue, wake_one, wake_nobody, stop, wake_all, enter, quit, doze, fall_asleep,
  leave, take_task, finish, spurious, Reach, here, next,
}
use prog_playground.ThreadPools.Classes.{First, front}

-- The tasks in the order of submission, from a list with the latest one first.
abbrev pub in_order : {A : Type 0} → List A → List A
in_order [] = []
in_order (t ∷ ts) = in_order ts ++ t ∷ []

First-split : {A : Type 0} {q rest : List A} {t : A} → First q t rest → q ≡ t ∷ rest
First-split (front t rest) = refl

module _ {A : Type 0} {d : Discipline A} where
  -- The tasks that a run has started, in order.
  abbrev pub started : {n : ℕ} {s : Pool A} → Reach d n s → List A
  started here = []
  started (next r (enqueue s t a fr)) = started r
  started (next r (wake_one s w o b p)) = started r
  started (next r (wake_nobody s o q)) = started r
  started (next r (stop s l)) = started r
  started (next r (wake_all s o)) = started r
  started (next r (enter s w b p l)) = started r
  started (next r (quit s w b p l q)) = started r
  started (next r (doze s w b p fr l q)) = started r
  started (next r (fall_asleep s w b p)) = started r
  started (next r (leave s w b p fr l q)) = started r
  started (next r (take_task s w t rest b p fr k)) = started r ++ t ∷ []
  started (next r (finish s w t b p)) = started r
  started (next r (spurious s w b p)) = started r

  -- If the queue of a pool gives its first task, then after any run with any number of workers the
  -- tasks that were submitted are, in that order, those that have started and those in the queue.
  pub fifo_order :
      ((q : List A) (t : A) (rest : List A) → d.Picks q t rest → First q t rest)
      → {n : ℕ} {s : Pool A} (r : Reach d n s) → in_order s.submitted ≡ started r ++ s.queue
  fifo_order first here = refl
  fifo_order first (next r (enqueue s t a fr)) =
      ap (λ ts. ts ++ t ∷ []) (fifo_order first r) ∙ append_assoc (started r) s.queue (t ∷ [])
  fifo_order first (next r (wake_one s w o b p)) = fifo_order first r
  fifo_order first (next r (wake_nobody s o q)) = fifo_order first r
  fifo_order first (next r (stop s l)) = fifo_order first r
  fifo_order first (next r (wake_all s o)) = fifo_order first r
  fifo_order first (next r (enter s w b p l)) = fifo_order first r
  fifo_order first (next r (quit s w b p l q)) = fifo_order first r
  fifo_order first (next r (doze s w b p fr l q)) = fifo_order first r
  fifo_order first (next r (fall_asleep s w b p)) = fifo_order first r
  fifo_order first (next r (leave s w b p fr l q)) = fifo_order first r
  fifo_order first (next r (take_task s w t rest b p fr k)) =
      fifo_order first r
      ∙ ap (◌++◌ (started r)) (First-split (first s.queue t rest k))
      ∙ sym (append_assoc (started r) (t ∷ []) rest)
  fifo_order first (next r (finish s w t b p)) = fifo_order first r
  fifo_order first (next r (spurious s w b p)) = fifo_order first r
