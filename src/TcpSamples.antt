-- ===== src/TcpSamples.antt =====
-- The programs around the states of a TCP connection: network/tcp_connect,
-- network/tcp_connect_fin_wait2 and network/tcp_timewait_rcv_syn. What the system answers to a call
-- is an argument, and a program is the list of its calls that matter to a descriptor.
pub mod Closing
use prog_playground.Prelude.{
  ℕ, zero, suc, ◌+◌, Bool, true, false, not, Option, none, some, List, [], ◌∷◌, ◌++◌, ℤ, pos,
  negsuc, ◌==◌, length, if◌then◌else◌,
}

pub data Call : Type 0 where
  gave closed sent_to : ℕ → Call
  read_from : ℕ → Call

-- The answers to one request of the client.
pub record RequestAnswers : Type 0 where
  pub socket : Option ℕ
  pub address_valid : Bool
  pub connected : Bool
  pub sent : Bool

-- `send_message` from its request `i` on, with `num_requests` left.
unfoldable pub send_message : (num_requests i : ℕ) → (ℕ → RequestAnswers) → List Call
send_message zero i answers = []
send_message (suc n) i answers =
    let rest = send_message n (i + 1) answers in
    elim (answers i).socket [
      | none ↦ []
      | some fd ↦
          if not (answers i).address_valid
          then gave fd ∷ closed fd ∷ []
          else if not (answers i).connected
          then gave fd ∷ closed fd ∷ []
          else gave fd ∷ ((if (answers i).sent then sent_to fd ∷ [] else []) ++ closed fd ∷ rest)
    ]

-- The loop of `main` that starts the threads, each of which makes one request: the calls of those
-- that were started, and whether all were. `created` tells which threads can be created; a failure
-- throws.
unfoldable pub run_threads :
    (num_requests i : ℕ) → (created : ℕ → Bool) → (ℕ → ℕ → RequestAnswers) → List (List Call) × Bool
unfolding send_message
run_threads zero i created answers = ([], true)
run_threads (suc n) i created answers =
    let (rest, all) = run_threads n (i + 1) created answers in
    if created i then (send_message 1 0 (answers i) ∷ rest, all) else ([], false)

-- What `main` returns, and the threads; or `stoi` throws, where its answer is `none`; or the program
-- is terminated with a number of threads that are started and not joined.
pub data Ended : Type 0 where
  exited : (status : ℕ) (threads : List (List Call)) → Ended
  thrown : Ended
  terminated : (started : ℕ) → Ended

unfoldable pub client_main :
    (argc : ℕ) (stoi : Option ℤ) → (created : ℕ → Bool) → (ℕ → ℕ → RequestAnswers) → Ended
unfolding run_threads
client_main argc stoi created answers = if not (argc == 3) then exited 1 [] else elim stoi [
  | none ↦ thrown
  | some (negsuc n) ↦ exited 1 []
  | some (pos zero) ↦ exited 1 []
  | some (pos (suc n)) ↦
      let (threads, all) = run_threads (suc n) 0 created answers in
      if all then exited 0 threads else terminated (length threads)
]

-- The answers to the first calls of a server; `socket` is its result as it is.
pub record StartAnswers : Type 0 where
  pub socket : ℤ
  pub option_set : Bool
  pub bound : Bool
  pub listening : Bool

-- The calls up to `exit(EXIT_FAILURE)`, or those that the endless loop has made.
pub data Run : Type 0 where
  failed serving : List Call → Run

abbrev pub is_zero : ℤ → Bool
is_zero (pos n) = n == 0
is_zero (negsuc n) = false

-- The listening descriptor, if `socket` gave one.
abbrev pub opened : ℤ → List Call
opened (pos fd) = gave fd ∷ []
opened (negsuc n) = []

-- The first calls of the servers of tcp_connect and tcp_connect_fin_wait2.
unfoldable pub start : StartAnswers → List Call → Run
start a calls =
    if is_zero a.socket
    then failed (opened a.socket)
    else if not a.bound
    then failed (opened a.socket)
    else if not a.listening
    then failed (opened a.socket)
    else serving (opened a.socket ++ calls)

-- The server of tcp_connect accepts nothing.
unfoldable pub idle_main : StartAnswers → Run
unfolding start
idle_main a = start a []

-- The loop of `recv`, over its answers: the bytes that it gave, where 0 is the end of the stream and
-- `none` an error.
unfoldable pub read_all : (fd : ℕ) → List (Option ℕ) → List Call
read_all fd [] = []
read_all fd (none ∷ rest) = read_from fd ∷ []
read_all fd (some zero ∷ rest) = read_from fd ∷ []
read_all fd (some (suc n) ∷ rest) = read_from fd ∷ read_all fd rest

-- The loop of tcp_connect_fin_wait2 over the answers of `accept`, with those of `recv`.
unfoldable pub keep_loop : List (Option (ℕ × List (Option ℕ))) → List Call
unfolding read_all
keep_loop [] = []
keep_loop (none ∷ rest) = keep_loop rest
keep_loop (some (fd, received) ∷ rest) = gave fd ∷ (read_all fd received ++ keep_loop rest)

unfoldable pub keep_main : StartAnswers → List (Option (ℕ × List (Option ℕ))) → Run
unfolding start keep_loop
keep_main a accepted = start a (keep_loop accepted)

-- The loop of tcp_timewait_rcv_syn, which reads once, and that of its variant, which does not.
unfoldable pub close_loop : (reads : Bool) → List (Option ℕ) → List Call
close_loop reads [] = []
close_loop reads (none ∷ rest) = close_loop reads rest
close_loop reads (some fd ∷ rest) =
    gave fd ∷ ((if reads then read_from fd ∷ [] else []) ++ closed fd ∷ close_loop reads rest)

unfoldable pub close_main : (reads : Bool) → StartAnswers → List (Option ℕ) → Run
unfolding start close_loop
close_main reads a accepted =
    if not a.option_set then failed (opened a.socket) else start a (close_loop reads accepted)

-- `main` of tcp_timewait_rcv_syn and of its variant without the call of `read`.
unfoldable pub timewait_main : StartAnswers → List (Option ℕ) → Run
unfolding close_main
timewait_main a accepted = close_main true a accepted

unfoldable pub noread_main : StartAnswers → List (Option ℕ) → Run
unfolding close_main
noread_main a accepted = close_main false a accepted
