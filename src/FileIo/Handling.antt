-- ===== src/FileIo/Handling.antt =====
-- What the handler does when its files open and its reads are not cut short.
use prog_playground.Prelude.{
  ℕ, zero, suc, ◌+◌, ◌-◌, ◌*◌, ◌/◌, ◌≤◌, ◌<◌, ◌≡◌, refl, ap, arith, true, false, some, List, [],
  ◌∷◌, replicate, ltb, lt→ltb, le→not_ltb, ◌==◌, Bool-cases, inl, inr,
}
use native.Mathlib.Nat.{mod-lt}
use prog_playground.FileIo.{
  Op, seek, read, write, buffer_size, total_bytes, Answers, Handled, after_write,
  after_random_write, signal_handler, read_loop, sequential_read, random_read_loop, random_read,
}
use prog_playground.FileIo.Writes.{
  AllWrites, AllWithin, written_bytes, sequential_write_lem, random_write-AllWithin,
}

-- Each seek is followed by a read of a buffer, and the two together stay within `total` bytes.
abbrev pub AllReadWithin : ℕ → List Op → Type 0
AllReadWithin total [] = Unit
AllReadWithin total (seek offset ∷ read n ∷ ops) = (offset + n ≤ total) × AllReadWithin total ops
AllReadWithin total (seek offset ∷ ops) = ⊥
AllReadWithin total (write bs ∷ ops) = ⊥
AllReadWithin total (read n ∷ ops) = ⊥

read_loop-full :
    (k total bytes : ℕ)
    → bytes + k * buffer_size ≡ total
    → read_loop (replicate k buffer_size) total bytes ≡ (replicate k (read buffer_size), total)
unfolding read_loop
read_loop-full zero total bytes h = ap (λ n. ([], n)) (omega (arith, h))
read_loop-full (suc k) total bytes h =
    let more : ltb bytes total ≡ true = lt→ltb bytes total (omega (arith, h)) in
    let whole : ltb total (bytes + buffer_size) ≡ false =
      le→not_ltb total (bytes + buffer_size) (omega (arith, h)) in
    let rest = read_loop-full k total (bytes + buffer_size) (omega (arith, h)) in
    rw (more, whole, rest) refl

random_read_loop-AllReadWithin :
    (rand : ℕ → ℕ) (total rounds : ℕ) (got : List ℕ) (k : ℕ)
    → buffer_size < total
    → AllReadWithin total (random_read_loop rand total rounds got k)
unfolding random_read_loop
random_read_loop-AllReadWithin rand total zero got k h = tt
random_read_loop-AllReadWithin rand total (suc rounds) [] k h = tt
random_read_loop-AllReadWithin rand total (suc rounds) (n ∷ got) k h =
    elim (Bool-cases (n == buffer_size)) [
      | inl full ↦ (
        omega (arith, mod-lt (rand k) {m = total - buffer_size} (omega arith)),
        rw full (random_read_loop-AllReadWithin rand total rounds got (k + 1) h),
      )
      | inr short ↦
          (omega (arith, mod-lt (rand k) {m = total - buffer_size} (omega arith)), rw short tt)
    ]

-- What a whole run of the handler does.
pub record IsHandled (h : Handled) : Type 0 where
  pub written_ops : List Op
  pub written_whole : h.written ≡ some written_ops
  pub all_writes : AllWrites written_ops
  pub fifty_megabytes : written_bytes written_ops ≡ total_bytes
  pub fetched_whole :
      h.fetched ≡ some (replicate (total_bytes / buffer_size) (read buffer_size), total_bytes)
  pub random_ops : List Op
  pub random_written_ops : h.random_written ≡ some random_ops
  pub random_within : AllWithin total_bytes random_ops
  pub fetched_ops : List Op
  pub random_fetched_ops : h.random_fetched ≡ some fetched_ops
  pub fetched_within : AllReadWithin total_bytes fetched_ops

-- If the four files open and no sequential read is cut short, then whatever numbers rand gives the
-- handler of the load generator ends: its sequential writes, none above one buffer, have 50 MB in
-- all, its sequential reads read as much, and every random write and read follows a seek and stays
-- within the 50 MB.
pub signal_handler-IsHandled :
    (rand : ℕ → ℕ) (a : Answers)
    → a.write_opens ≡ true
    → a.read_opens ≡ true
    → a.random_write_opens ≡ true
    → a.random_read_opens ≡ true
    → a.got ≡ replicate (total_bytes / buffer_size) buffer_size
    → (h : Handled) × (signal_handler rand true a ≡ some h) × IsHandled h
unfolding signal_handler sequential_read random_read
signal_handler-IsHandled rand a w r rw_opens rr_opens full =
    let buffers = total_bytes / buffer_size in
    let (ops, done, all, sum) = sequential_write_lem rand 0 in
    let (random_ops, random_done, within) = random_write-AllWithin rand (after_write a) in
    let fetched_ops =
      random_read_loop rand total_bytes buffers a.random_got (after_random_write a) in
    (
      _,
      refl,
      record {
        written_ops = ops;
        written_whole = rw w done;
        all_writes = all;
        fifty_megabytes = sum;
        fetched_whole = rw (r, full) (ap some (read_loop-full buffers total_bytes 0 (omega arith)));
        random_ops = random_ops;
        random_written_ops = rw rw_opens random_done;
        random_within = within;
        fetched_ops = fetched_ops;
        random_fetched_ops = rw rr_opens refl;
        fetched_within =
            random_read_loop-AllReadWithin rand total_bytes buffers a.random_got
              (after_random_write a) (omega arith);
      },
    )
