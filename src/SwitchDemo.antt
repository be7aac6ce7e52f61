-- ===== src/SwitchDemo.antt =====
-- The context switch demo cpu/cswch_demo/process_ctxswch.c after `fork`: two processes that hand
-- one byte back and forth through two pipes. A step is a system call of one of them that returns;
-- a call that would block has no step. Which process runs is the scheduler's choice.
pub mod Alternation
use prog_playground.Prelude.{ℕ, ◌+◌, ◌-◌, ◌<◌, ◌≡◌, Bool, true, false}

-- `i < 10000` of both loops.
abbrev pub rounds : ℕ
rounds = 10000

-- The loop counter of each process and where in its loop it stands, and the bytes in the pipes
-- `fd` (to the child) and `p` (to the parent).
pub record State : Type 0 where
  pub parent_i : ℕ
  pub parent_reads : Bool
  pub child_i : ℕ
  pub child_writes : Bool
  pub to_child : ℕ
  pub to_parent : ℕ

abbrev pub start : State
start = record {
  parent_i = 0;
  parent_reads = false;
  child_i = 0;
  child_writes = false;
  to_child = 0;
  to_parent = 0;
}

-- A pipe holds `capacity` bytes, and a write into a full one blocks.
pub data Step (capacity : ℕ) : State → State → Type 0 where
  parent_write :
      (s : State)
      → s.parent_i < rounds
      → s.parent_reads ≡ false
      → s.to_child < capacity
      → Step capacity s (record s { parent_reads = true; to_child = s.to_child + 1 })
  parent_read :
      (s : State)
      → s.parent_reads ≡ true
      → 0 < s.to_parent
      → Step capacity s (record s {
        parent_i = s.parent_i + 1;
        parent_reads = false;
        to_parent = s.to_parent - 1;
      })
  child_read :
      (s : State)
      → s.child_i < rounds
      → s.child_writes ≡ false
      → 0 < s.to_child
      → Step capacity s (record s { child_writes = true; to_child = s.to_child - 1 })
  child_write :
      (s : State)
      → s.child_writes ≡ true
      → s.to_parent < capacity
      → Step capacity s
          (record s { child_i = s.child_i + 1; child_writes = false; to_parent = s.to_parent + 1 })

-- Runs, with the number of their steps.
pub data Reach (capacity : ℕ) : ℕ → State → Type 0 where
  here : Reach capacity 0 start
  next : {n : ℕ} {s t : State} → Reach capacity n s → Step capacity s t → Reach capacity (n + 1) t
