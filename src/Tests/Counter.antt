-- ===== src/Tests/Counter.antt =====
-- A run of two threads with one round each.
use prog_playground.Prelude.{◌*◌, ◌≡◌, refl, arith, inl}
use prog_playground.MutexCost.{
  Shared, MutexStep, outside, locked, loaded, start, assign, lock, load, store, Reach, here, next,
  AllJoined,
}
use prog_playground.MutexCost.Final.{shared_variable_lem}

abbrev counted : Shared
counted = record {
  left = assign (assign (λ w. 1) 1 0) 0 0;
  phase =
      assign
        (assign
          (assign (assign (assign (assign (λ w. outside) 1 locked) 1 (loaded 0)) 1 outside) 0
            locked)
          0 (loaded 1))
        0 outside;
  shared_variable = 2;
}

counted-Reach : Reach 1 (MutexStep 2) counted
counted-Reach =
    next
      (next
        (next
          (next
            (next (next here (lock (start 1) 1 (omega arith) (omega arith) (λ v b. refl)))
              (load _ 1 (omega arith) refl))
            (store _ 1 0 (omega arith) refl))
          (lock _ 0 (omega arith) (ground arith) (λ v b. ground arith)))
        (load _ 0 (omega arith) refl))
      (store _ 0 1 (omega arith) refl)

counted-AllJoined : AllJoined 2 counted
counted-AllJoined w b = ground (arith, b)

shared_variable_lem_example : counted.shared_variable ≡ 2 * 1
shared_variable_lem_example = shared_variable_lem 2 1 (inl counted-Reach) counted-AllJoined
