-- ===== src/FileIo.antt =====
-- The file I/O load generator flamegraph_sample/fileio/file_io_test.c. `rand` is a stream, of which
-- each function takes its numbers from a position on; what the C library answers to an open or a
-- read is an argument, and a call on the file is a value of `Op`.
pub mod Writes
pub mod Handling
use prog_playground.Prelude.{
  ℕ, zero, suc, ◌+◌, ◌-◌, ◌*◌, ◌/◌, ◌%◌, Bool, true, false, Option, none, some, List, [], ◌∷◌, ◌++◌,
  length, take, ltb, ◌==◌, if◌then◌else◌, codes,
}

abbrev pub buffer_size : ℕ
buffer_size = 4096

-- `WRITE_SIZE_MB * 1024 * 1024`
abbrev pub total_bytes : ℕ
total_bytes = 50 * 1024 * 1024

-- The 62 characters before the NUL of `charset`.
abbrev pub charset : List ℕ
charset = codes "abcdefghijklmnopqrstuvwxyzABCDEFGHIJKLMNOPQRSTUVWXYZ0123456789"

abbrev pub nth : List ℕ → ℕ → ℕ
nth [] i = 0
nth (x ∷ xs) zero = x
nth (x ∷ xs) (suc i) = nth xs i

pub data Op : Type 0 where
  seek : ℕ → Op
  write : List ℕ → Op
  read : ℕ → Op

module _ (rand : ℕ → ℕ) where
  -- `n` random characters and the NUL; the numbers are taken from position `k` on.
  unfoldable pub fill : ℕ → ℕ → List ℕ
  fill zero k = 0 ∷ []
  fill (suc n) k = nth charset (rand k % 62) ∷ fill n (k + 1)

  unfoldable pub generate_random_buffer : ℕ → ℕ → List ℕ
  generate_random_buffer size k = fill (size - 1) k

  -- `while (bytes_written < total_bytes)`; `none` means that the fuel ran out. The result of
  -- `fwrite` is not looked at.
  unfoldable pub write_loop : ℕ → ℕ → ℕ → ℕ → Option (List Op)
  write_loop zero total written k = none
  write_loop (suc fuel) total written k =
      let size = if ltb total (written + buffer_size) then total - written else buffer_size in
      let rest = write_loop fuel total (written + size) (k + (buffer_size - 1)) in
      if ltb written total
      then elim rest [
        | none ↦ none
        | some ops ↦ some (write (take size (generate_random_buffer buffer_size k)) ∷ ops)
      ]
      else some []

  -- The result is the list of calls on the file, or `none` if it could not be opened.
  unfoldable pub sequential_write : Bool → ℕ → Option (List Op)
  sequential_write opened k =
      if opened then write_loop (suc (total_bytes / buffer_size)) total_bytes 0 k else none

  -- `for (size_t i = 0; i < total_bytes / BUFFER_SIZE; i++)` with `rounds` turns left.
  unfoldable pub random_write_loop : ℕ → ℕ → ℕ → List Op
  random_write_loop total zero k = []
  random_write_loop total (suc rounds) k =
      seek (rand k % (total - buffer_size))
      ∷ (write (generate_random_buffer buffer_size (k + 1))
          ∷ random_write_loop total rounds (k + buffer_size))

  unfoldable pub random_write : Bool → ℕ → Option (List Op)
  random_write opened k =
      if opened then some (random_write_loop total_bytes (total_bytes / buffer_size) k) else none

  -- `got` are the counts that `fread` gives, one for each call; at a short one the loop breaks,
  -- whether the end of the file or an error made it short.
  unfoldable pub random_read_loop : ℕ → ℕ → List ℕ → ℕ → List Op
  random_read_loop total zero got k = []
  random_read_loop total (suc rounds) [] k = []
  random_read_loop total (suc rounds) (n ∷ got) k =
      let rest = random_read_loop total rounds got (k + 1) in
      seek (rand k % (total - buffer_size))
      ∷ (read buffer_size ∷ (if n == buffer_size then rest else []))

  unfoldable pub random_read : Bool → List ℕ → ℕ → Option (List Op)
  random_read opened got k =
      if opened then some (random_read_loop total_bytes (total_bytes / buffer_size) got k) else none

-- `while (bytes_read < total_bytes)` of `sequential_read`. The result has the calls made and the
-- final `bytes_read`.
unfoldable pub read_loop : List ℕ → ℕ → ℕ → List Op × ℕ
read_loop [] total bytes = ([], bytes)
read_loop (n ∷ got) total bytes =
    let size = if ltb total (bytes + buffer_size) then total - bytes else buffer_size in
    let rest = read_loop got total (bytes + size) in
    if ltb bytes total
    then (if n == size then (read size ∷ rest.0, rest.1) else (read size ∷ [], bytes))
    else ([], bytes)

unfoldable pub sequential_read : Bool → List ℕ → Option (List Op × ℕ)
sequential_read opened got = if opened then some (read_loop got total_bytes 0) else none

-- Which of the four files open, and what `fread` gives.
pub record Answers : Type 0 where
  pub write_opens : Bool
  pub read_opens : Bool
  pub random_write_opens : Bool
  pub random_read_opens : Bool
  pub got : List ℕ
  pub random_got : List ℕ

pub record Handled : Type 0 where
  pub written : Option (List Op)
  pub fetched : Option (List Op × ℕ)
  pub random_written : Option (List Op)
  pub random_fetched : Option (List Op)

-- How many numbers of `rand` are taken before each random function.
abbrev pub after_write : Answers → ℕ
after_write a = if a.write_opens then total_bytes / buffer_size * (buffer_size - 1) else 0

abbrev pub after_random_write : Answers → ℕ
after_random_write a =
    after_write a + (if a.random_write_opens then total_bytes / buffer_size * buffer_size else 0)

-- The handler, with the numbers of `rand` after `srand`; `none` is another signal than SIGUSR1.
unfoldable pub signal_handler : (rand : ℕ → ℕ) → (is_sigusr1 : Bool) → Answers → Option Handled
signal_handler rand false a = none
signal_handler rand true a = some (record {
  written = sequential_write rand a.write_opens 0;
  fetched = sequential_read a.read_opens a.got;
  random_written = random_write rand a.random_write_opens (after_write a);
  random_fetched = random_read rand a.random_read_opens a.random_got (after_random_write a);
})

-- The handler of each signal that `main` waits for; `none` is a handler that is not registered.
unfoldable pub main :
    (rand : ℕ → ℕ → ℕ)
    → (registered : Bool) → List (Bool × Answers)
    → Option (List (Option Handled))
unfolding signal_handler
main rand false signals = none
main rand true signals = some (handle_all 0 signals)
  where
    handle_all : ℕ → List (Bool × Answers) → List (Option Handled)
    handle_all i [] = []
    handle_all i ((is_sigusr1, a) ∷ rest) =
        signal_handler (rand i) is_sigusr1 a ∷ handle_all (i + 1) rest
