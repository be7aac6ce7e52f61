-- ===== src/SwitchDemo/Alternation.antt =====
-- The two processes alternate strictly, never block one another for good, and end.
use prog_playground.Prelude.{
  ℕ, ◌+◌, ◌*◌, ◌≤◌, ◌<◌, ◌≡◌, ◌⊎◌, refl, inl, inr, arith, false, flag, Bool-cases, ltb, ltb→lt,
}
use prog_playground.SwitchDemo.{
  State, Step, Reach, rounds, parent_write, parent_read, child_read, child_write, here, next,
}

-- Exactly one thing is in one place: the parent is about to write, or the byte is on its way to
-- the child, or the child holds it, or it is on its way back. `n` is the number of calls made.
pub record IsTurn (n : ℕ) (s : State) : Type 0 where
  pub one_byte : s.to_child + flag s.child_writes + s.to_parent ≡ flag s.parent_reads
  pub answered : s.child_i ≡ s.parent_i + s.to_parent
  pub within : s.parent_i + flag s.parent_reads ≤ rounds
  pub calls : n ≡ 4 * s.parent_i + flag s.parent_reads + flag s.child_writes + 2 * s.to_parent

Step-IsTurn : {c n : ℕ} {s t : State} → Step c s t → IsTurn n s → IsTurn (n + 1) t
Step-IsTurn (parent_write s p r w) h = ground arith
Step-IsTurn (parent_read s r g) h = ground arith
Step-IsTurn (child_read s p w g) h = ground arith
Step-IsTurn (child_write s w g) h = ground arith

-- In every reached state at most one byte is on its way, the child has answered as many rounds as
-- the parent has finished or one more, the parent is within its rounds, and the counters give the
-- number of calls made.
pub Reach-IsTurn : {c n : ℕ} {s : State} → Reach c n s → IsTurn n s
Reach-IsTurn here = ground arith
Reach-IsTurn (next r st) = Step-IsTurn st (Reach-IsTurn r)

-- Both loops are done and the pipes are empty.
abbrev pub IsDone : State → Type 0
IsDone s =
    (s.parent_i ≡ rounds)
    × (s.child_i ≡ rounds)
    × (s.to_child ≡ 0)
    × (s.to_parent ≡ 0)
    × (s.parent_reads ≡ false)
    × (s.child_writes ≡ false)

-- With pipes that hold at least one byte, a state that the two processes reach is the end of both
-- loops, after exactly four calls a round, or some call can return.
pub no_deadlock :
    {c n : ℕ} {s : State}
    → Reach c n s
    → 0 < c
    → (IsDone s × (n ≡ 4 * rounds)) ⊎ ((t : State) × Step c s t)
no_deadlock {s} r h =
    let t = Reach-IsTurn r in
    elim (Bool-cases s.parent_reads) [
      | inl waits ↦ elim (Bool-cases s.child_writes) [
        | inl holds ↦ inr (_, child_write s holds (ground (arith, t)))
        | inr idle ↦ elim (Bool-cases (ltb 0 s.to_child)) [
          | inl sent ↦ inr (_, child_read s (ground (arith, t)) idle (ltb→lt 0 s.to_child sent))
          | inr back ↦ inr (_, parent_read s waits (ground (arith, t)))
        ]
      ]
      | inr ready ↦ elim (Bool-cases (ltb s.parent_i rounds)) [
        | inl more ↦
            inr (_, parent_write s (ltb→lt s.parent_i rounds more) ready (ground (arith, t)))
        | inr all ↦ inl (ground (arith, t), ground (arith, t))
      ]
    ]

Step-same : {c n : ℕ} {s t u : State} → IsTurn n s → Step c s t → Step c s u → t ≡ u
Step-same h (parent_write s p q w) (parent_write _ p' q' w') = refl
Step-same h (parent_write s p q w) (parent_read _ q' g') = absurd (ground arith)
Step-same h (parent_write s p q w) (child_read _ p' q' g') = absurd (ground arith)
Step-same h (parent_write s p q w) (child_write _ q' w') = absurd (ground arith)
Step-same h (parent_read s q g) (parent_write _ p' q' w') = absurd (ground arith)
Step-same h (parent_read s q g) (parent_read _ q' g') = refl
Step-same h (parent_read s q g) (child_read _ p' q' g') = absurd (ground arith)
Step-same h (parent_read s q g) (child_write _ q' w') = absurd (ground arith)
Step-same h (child_read s p q g) (parent_write _ p' q' w') = absurd (ground arith)
Step-same h (child_read s p q g) (parent_read _ q' g') = absurd (ground arith)
Step-same h (child_read s p q g) (child_read _ p' q' g') = refl
Step-same h (child_read s p q g) (child_write _ q' w') = absurd (ground arith)
Step-same h (child_write s q w) (parent_write _ p' q' w') = absurd (ground arith)
Step-same h (child_write s q w) (parent_read _ q' g') = absurd (ground arith)
Step-same h (child_write s q w) (child_read _ p' q' g') = absurd (ground arith)
Step-same h (child_write s q w) (child_write _ q' w') = refl

-- The scheduler has no choice: from a state that the two processes reach every step leads to the
-- same state.
pub Step-unique : {c n : ℕ} {s t u : State} → Reach c n s → Step c s t → Step c s u → t ≡ u
Step-unique r a b = Step-same (Reach-IsTurn r) a b
