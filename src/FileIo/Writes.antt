-- ===== src/FileIo/Writes.antt =====
-- What the writing functions write, and where.
use Prim.Native.Nat.{min}
use native.Mathlib.Nat.{mod-lt}
use prog_playground.Prelude.{
  ℕ, zero, suc, ◌+◌, ◌-◌, ◌*◌, ◌/◌, ◌≤◌, ◌<◌, ◌≡◌, refl, arith, true, false, some, List, [], ◌∷◌,
  length, take, ltb, if◌then◌else◌, Bool-cases, inl, inr, ltb→lt, not_ltb→le, le→not_ltb,
}
use prog_playground.FileIo.{
  buffer_size, total_bytes, Op, seek, write, read, fill, generate_random_buffer, write_loop,
  sequential_write, random_write_loop, random_write,
}

length-take : (n : ℕ) (xs : List ℕ) → length (take n xs) ≡ min n (length xs)
length-take zero xs = omega arith
length-take (suc n) [] = omega arith
length-take (suc n) (x ∷ xs) = omega (arith, length-take n xs)

abbrev next_size : ℕ → ℕ → ℕ
next_size total written = if ltb total (written + buffer_size) then total - written else buffer_size

next_size_bounds :
    (total written : ℕ)
    → written < total
    → (next_size total written ≤ buffer_size)
      × (written + next_size total written ≤ total)
      × (min buffer_size (total - written) ≤ next_size total written)
next_size_bounds total written h = ground arith

-- Bytes that the calls write in all.
abbrev pub written_bytes : List Op → ℕ
written_bytes [] = 0
written_bytes (write bs ∷ ops) = length bs + written_bytes ops
written_bytes (seek n ∷ ops) = written_bytes ops
written_bytes (read n ∷ ops) = written_bytes ops

-- Writes only, of one buffer at most.
abbrev pub AllWrites : List Op → Type 0
AllWrites [] = Unit
AllWrites (write bs ∷ ops) = (length bs ≤ buffer_size) × AllWrites ops
AllWrites (seek n ∷ ops) = ⊥
AllWrites (read n ∷ ops) = ⊥

-- Each seek is followed by a write, and the two together stay within `total` bytes.
abbrev pub AllWithin : ℕ → List Op → Type 0
AllWithin total [] = Unit
AllWithin total (seek offset ∷ write bs ∷ ops) = (offset + length bs ≤ total) × AllWithin total ops
AllWithin total (seek offset ∷ ops) = ⊥
AllWithin total (write bs ∷ ops) = ⊥
AllWithin total (read n ∷ ops) = ⊥

module _ (rand : ℕ → ℕ) where
  length-fill : (n k : ℕ) → length (fill rand n k) ≡ n + 1
  unfolding fill
  length-fill zero k = omega arith
  length-fill (suc n) k = omega (arith, length-fill n (k + 1))

  length-buffer : (k : ℕ) → length (generate_random_buffer rand buffer_size k) ≡ buffer_size
  unfolding generate_random_buffer
  length-buffer k = omega (arith, length-fill 4095 k)

  write_loop_lem :
      (fuel total written k : ℕ)
      → written ≤ total
      → total - written ≤ fuel * buffer_size
      → (ops : List Op) × (write_loop rand (suc fuel) total written k ≡ some ops)
        × AllWrites ops
        × (written_bytes ops ≡ total - written)
  unfolding write_loop
  write_loop_lem zero total written k h f =
      let stop : ltb written total ≡ false = le→not_ltb written total (omega arith) in
      ([], rw (write_loop, stop), tt, omega arith)
  write_loop_lem (suc fuel) total written k h f = elim (Bool-cases (ltb written total)) [
    | inr stop ↦
        let past = not_ltb→le written total stop in ([], rw (write_loop, stop), tt, omega arith)
    | inl more ↦
        let size = next_size total written in
        let (small, within, enough) = next_size_bounds total written (ltb→lt written total more) in
        let (ops, done, all, sum) =
          write_loop_lem fuel total (written + size) (k + (buffer_size - 1)) within (omega arith) in
        let long : length (take size (generate_random_buffer rand buffer_size k)) ≡ size =
          omega (
            arith,
            length-take size (generate_random_buffer rand buffer_size k),
            length-buffer k,
          ) in
        (
          write (take size (generate_random_buffer rand buffer_size k)) ∷ ops,
          rw (write_loop, more, done),
          (omega arith, all),
          omega arith,
        )
  ]

  -- If the file opens, sequential_write ends, whatever numbers rand gives, and its writes, none
  -- above one buffer, have 50 MB in all.
  pub sequential_write_lem :
      (k : ℕ)
      → (ops : List Op) × (sequential_write rand true k ≡ some ops)
        × AllWrites ops
        × (written_bytes ops ≡ total_bytes)
  unfolding sequential_write
  sequential_write_lem k =
      write_loop_lem (total_bytes / buffer_size) total_bytes 0 k (omega arith) (omega arith)

  random_write_loop-AllWithin :
      (total rounds k : ℕ)
      → buffer_size < total
      → AllWithin total (random_write_loop rand total rounds k)
  unfolding random_write_loop
  random_write_loop-AllWithin total zero k h = tt
  random_write_loop-AllWithin total (suc rounds) k h = (
    omega (arith, length-buffer (k + 1), mod-lt (rand k) {m = total - buffer_size} (omega arith)),
    random_write_loop-AllWithin total rounds (k + buffer_size) h,
  )

  -- If the file opens, then whatever numbers rand gives random_write ends, and every write of
  -- random_write follows a seek and stays within the 50 MB of the file.
  pub random_write-AllWithin :
      (k : ℕ) → (ops : List Op) × (random_write rand true k ≡ some ops) × AllWithin total_bytes ops
  unfolding random_write
  random_write-AllWithin k = (
    random_write_loop rand total_bytes (total_bytes / buffer_size) k,
    refl,
    random_write_loop-AllWithin total_bytes (total_bytes / buffer_size) k (omega arith),
  )
