-- ===== src/Tests/Programs.antt =====
-- Inputs for the file, socket and context switch programs.
use prog_playground.Prelude.{
  ℕ, ◌*◌, ◌≡◌, ◌⊎◌, refl, arith, true, false, none, some, [], ◌∷◌, ◌/◌, replicate,
}
use prog_playground.FileIo.{total_bytes, buffer_size, fill, generate_random_buffer, read_loop, read}
use prog_playground.FileIo
use prog_playground.FileIo.Handling.{IsHandled, signal_handler-IsHandled}
use prog_playground.UnixSocket.{ServerAnswers, ClientAnswers, server_main}
use prog_playground.UnixSocket.Release.{given, closed, server_main-closes}
use prog_playground.SwitchDemo.{State, Step, Reach, start, here, next, parent_write, rounds}
use prog_playground.SwitchDemo.Alternation.{IsDone, IsTurn, no_deadlock, Reach-IsTurn}

abbrev counting : ℕ → ℕ
counting k = k

small_buffer : generate_random_buffer counting 4 60 ≡ b'8' ∷ b'9' ∷ b'a' ∷ 0 ∷ []
unfolding generate_random_buffer fill
small_buffer = refl

-- The second read comes short, and the loop breaks.
short_read : read_loop (4096 ∷ 100 ∷ 4096 ∷ []) 10000 0 ≡ (read 4096 ∷ read 4096 ∷ [], 4096)
unfolding read_loop
short_read = refl

abbrev no_message : ServerAnswers
no_message = record {
  server_fd = some 3;
  bound = true;
  listening = true;
  client_fd = some 4;
  received = none;
  replied = false;
}

server_main-closes_example :
    closed 4 (server_main no_message).calls ≡ given 4 (server_main no_message).calls
server_main-closes_example = server_main-closes no_message 4

abbrev refused : ClientAnswers
refused = record { sock_fd = some 3; connected = false; sent = true; received = some [] }

abbrev after_first : State
after_first = record start { parent_reads = true; to_child = 1 }

first-Step : Step 1 start after_first
first-Step = parent_write start (omega arith) refl (omega arith)

one_step : Reach 1 1 after_first
one_step = next here first-Step

no_deadlock_example : (IsDone after_first × (1 ≡ 4 * rounds)) ⊎ ((t : State) × Step 1 after_first t)
no_deadlock_example = no_deadlock one_step (omega arith)

Reach-IsTurn_example : IsTurn 1 after_first
Reach-IsTurn_example = Reach-IsTurn one_step

abbrev all_open : FileIo.Answers
all_open = record {
  write_opens = true;
  read_opens = true;
  random_write_opens = true;
  random_read_opens = true;
  got = replicate (total_bytes / buffer_size) buffer_size;
  random_got = 4096 ∷ 4096 ∷ 17 ∷ [];
}

signal_handler-IsHandled_example :
    (h : FileIo.Handled) × (FileIo.signal_handler counting true all_open ≡ some h) × IsHandled h
signal_handler-IsHandled_example =
    signal_handler-IsHandled counting all_open refl refl refl refl refl
