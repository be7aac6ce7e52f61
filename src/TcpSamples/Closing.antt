-- ===== src/TcpSamples/Closing.antt =====
-- Which of the programs give their descriptors back.
use prog_playground.Prelude.{
  ℕ, zero, suc, ◌+◌, ◌≡◌, ◌∙◌, ap, sym, not, refl, arith, Bool, true, false, Option, none, some,
  List, [], ◌∷◌, ◌++◌, ℤ, pos, negsuc, ◌==◌, if◌then◌else◌, Bool-cases, inl, inr, length, ◌<◌, ◌⊎◌,
}
use prog_playground.TcpSamples.{
  Call, gave, closed, sent_to, read_from, RequestAnswers, send_message, run_threads, read_all,
  keep_loop, close_loop, Ended, exited, thrown, terminated, client_main, StartAnswers, Run, failed,
  serving, opened, start, is_zero, close_main, timewait_main, noread_main, keep_main,
}

abbrev pub given_times : ℕ → List Call → ℕ
given_times fd [] = 0
given_times fd (gave i ∷ cs) = (if i == fd then 1 else 0) + given_times fd cs
given_times fd (closed i ∷ cs) = given_times fd cs
given_times fd (sent_to i ∷ cs) = given_times fd cs
given_times fd (read_from i ∷ cs) = given_times fd cs

abbrev pub closed_times : ℕ → List Call → ℕ
closed_times fd [] = 0
closed_times fd (gave i ∷ cs) = closed_times fd cs
closed_times fd (closed i ∷ cs) = (if i == fd then 1 else 0) + closed_times fd cs
closed_times fd (sent_to i ∷ cs) = closed_times fd cs
closed_times fd (read_from i ∷ cs) = closed_times fd cs

-- As often closed as given.
abbrev pub IsClosed : ℕ → List Call → Type 0
IsClosed fd cs = closed_times fd cs ≡ given_times fd cs

pub send_message-IsClosed :
    (n i : ℕ) (answers : ℕ → RequestAnswers) (fd : ℕ) → IsClosed fd (send_message n i answers)
unfolding send_message
send_message-IsClosed zero i answers fd = refl
send_message-IsClosed (suc n) i answers fd =
    ground (arith, send_message-IsClosed n (i + 1) answers fd)

close_loop-IsClosed :
    (reads : Bool) (accepted : List (Option ℕ)) (fd : ℕ) → IsClosed fd (close_loop reads accepted)
unfolding close_loop
close_loop-IsClosed reads [] fd = refl
close_loop-IsClosed reads (none ∷ rest) fd = close_loop-IsClosed reads rest fd
close_loop-IsClosed true (some i ∷ rest) fd = omega (arith, close_loop-IsClosed true rest fd)
close_loop-IsClosed false (some i ∷ rest) fd = omega (arith, close_loop-IsClosed false rest fd)

read_all-closes :
    (i : ℕ) (received : List (Option ℕ)) (cs : List Call) (fd : ℕ)
    → closed_times fd (read_all i received ++ cs) ≡ closed_times fd cs
unfolding read_all
read_all-closes i [] cs fd = refl
read_all-closes i (none ∷ rest) cs fd = refl
read_all-closes i (some zero ∷ rest) cs fd = refl
read_all-closes i (some (suc n) ∷ rest) cs fd = read_all-closes i rest cs fd

keep_loop-closes :
    (accepted : List (Option (ℕ × List (Option ℕ)))) (fd : ℕ)
    → closed_times fd (keep_loop accepted) ≡ 0
unfolding keep_loop
keep_loop-closes [] fd = refl
keep_loop-closes (none ∷ rest) fd = keep_loop-closes rest fd
keep_loop-closes (some (i, received) ∷ rest) fd =
    read_all-closes i received (keep_loop rest) fd ∙ keep_loop-closes rest fd

abbrev pub AllClosed : ℕ → List (List Call) → Type 0
AllClosed fd [] = Unit
AllClosed fd (cs ∷ rest) = IsClosed fd cs × AllClosed fd rest

-- What `run_threads` leaves: all threads, or those before the first that cannot be created.
abbrev Started : ℕ → ℕ → ℕ → (ℕ → Bool) → List (List Call) × Bool → Type 0
Started fd n i created r =
    AllClosed fd r.0
    × (((r.1 ≡ true) × (length r.0 ≡ n))
        ⊎ ((r.1 ≡ false) × (length r.0 < n) × (created (i + length r.0) ≡ false)))

run_threads-Started :
    (n i : ℕ) (created : ℕ → Bool) (answers : ℕ → ℕ → RequestAnswers) (fd : ℕ)
    → Started fd n i created (run_threads n i created answers)
unfolding run_threads
run_threads-Started zero i created answers fd = (tt, inl (refl, refl))
run_threads-Started (suc n) i created answers fd = elim (Bool-cases (created i)) [
  | inr refused ↦
      let same : i + 0 ≡ i = omega arith in
      rw (refused, run_threads) (tt, inr (refl, omega arith, ap created same ∙ refused))
  | inl made ↦
      let (all, count) = run_threads-Started n (i + 1) created answers fd in
      let before = length (run_threads n (i + 1) created answers).0 in
      let same : i + suc before ≡ i + 1 + before = omega arith in
      rw (made, run_threads)
        (
          (send_message-IsClosed 1 0 (answers i) fd, all),
          elim count [
            | inl (done, k) ↦ inl (done, omega (arith, k))
            | inr (stuck, k, no_thread) ↦ inr (stuck, omega (arith, k), ap created same ∙ no_thread)
          ],
        )
]

-- Each descriptor is closed as often as it was given, in every thread; a program that ends with
-- success has had as many threads as it was told, one that ends with an error none, and one that is
-- terminated those before the first that cannot be created.
abbrev pub EndedClosed : ℕ → Option ℤ → (ℕ → Bool) → Ended → Type 0
EndedClosed fd stoi created thrown = stoi ≡ none
EndedClosed fd stoi created (terminated k) =
    (created k ≡ false) × (n : ℕ) × (stoi ≡ some (pos n)) × (k < n)
EndedClosed fd stoi created (exited zero threads) =
    AllClosed fd threads × (stoi ≡ some (pos (length threads)))
EndedClosed fd stoi created (exited (suc n) threads) = threads ≡ []

abbrev pub calls_of : Run → List Call
calls_of (failed calls) = calls
calls_of (serving calls) = calls

-- How often the descriptor is the one that `socket` gave.
abbrev pub listening_times : ℕ → ℤ → ℕ
listening_times fd (pos i) = if i == fd then 1 else 0
listening_times fd (negsuc n) = 0

-- As often closed as given, but for the listening one, which is never closed.
abbrev pub RunCloses : ℕ → StartAnswers → Run → Type 0
RunCloses fd a r =
    closed_times fd (calls_of r) + listening_times fd a.socket ≡ given_times fd (calls_of r)

abbrev pub NeverCloses : ℕ → Run → Type 0
NeverCloses fd r = closed_times fd (calls_of r) ≡ 0

client_main-EndedClosed :
    (fd argc : ℕ) (stoi : Option ℤ) (created : ℕ → Bool) (answers : ℕ → ℕ → RequestAnswers)
    → argc ≡ 3
    → EndedClosed fd stoi created (client_main argc stoi created answers)
unfolding client_main
client_main-EndedClosed fd argc none created answers e = rw e refl
client_main-EndedClosed fd argc (some (negsuc n)) created answers e = rw e refl
client_main-EndedClosed fd argc (some (pos zero)) created answers e = rw e refl
client_main-EndedClosed fd argc (some (pos (suc n))) created answers e =
    let (all, count) = run_threads-Started (suc n) 0 created answers fd in
    let before = length (run_threads (suc n) 0 created answers).0 in
    let same : before ≡ 0 + before = omega arith in
    rw e (elim count [
      | inl (done, k) ↦ rw done (all, ap (λ j. some (pos j)) (sym k))
      | inr (stuck, k, no_thread) ↦ rw stuck (ap created same ∙ no_thread, suc n, refl, k)
    ])

opened-closes :
    (socket : ℤ) (calls : List Call) (fd : ℕ)
    → closed_times fd (opened socket ++ calls) ≡ closed_times fd calls
opened-closes (pos i) calls fd = refl
opened-closes (negsuc n) calls fd = refl

opened-gives :
    (socket : ℤ) (calls : List Call) (fd : ℕ)
    → given_times fd (opened socket ++ calls) ≡ listening_times fd socket + given_times fd calls
opened-gives (pos i) calls fd = refl
opened-gives (negsuc n) calls fd = omega arith

opened_only :
    (socket : ℤ) (fd : ℕ)
    → (closed_times fd (opened socket) ≡ 0)
      × (given_times fd (opened socket) ≡ listening_times fd socket)
opened_only (pos i) fd = (refl, omega arith)
opened_only (negsuc n) fd = (refl, refl)

start-each :
    (P : Run → Type 0) (a : StartAnswers) (calls : List Call)
    → P (failed (opened a.socket))
    → P (serving (opened a.socket ++ calls))
    → P (start a calls)
unfolding start
start-each P a calls f s =
    both (is_zero a.socket) f (both (not a.bound) f (both (not a.listening) f s))
  where
    both : (b : Bool) {x y : Run} → P x → P y → P (if b then x else y)
    both true p q = p
    both false p q = q

failed-RunCloses : (fd : ℕ) (a : StartAnswers) → RunCloses fd a (failed (opened a.socket))
failed-RunCloses fd a = omega (arith, opened_only a.socket fd)

close_main-RunCloses :
    (reads : Bool) (fd : ℕ) (a : StartAnswers) (accepted : List (Option ℕ))
    → RunCloses fd a (close_main reads a accepted)
unfolding close_main
close_main-RunCloses reads fd a accepted = elim (Bool-cases a.option_set) [
  | inl set ↦
      let calls = close_loop reads accepted in
      rw set (
        start-each (RunCloses fd a) a calls (failed-RunCloses fd a) (
          omega (
            arith,
            opened-closes a.socket calls fd,
            opened-gives a.socket calls fd,
            close_loop-IsClosed reads accepted fd,
          )))
  | inr refused ↦ rw refused (failed-RunCloses fd a)
]

-- Whatever the system answers, every thread of the TCP client, run with its two arguments, closes
-- each descriptor as often as it was given it if main returns; both servers of
-- tcp_timewait_rcv_syn, failing or serving, close each descriptor as often as they were given it
-- but for the listening one, which they never close, and the server of tcp_connect_fin_wait2
-- closes none. The client ends by an exception only if the number is not one, starts as many
-- threads as it says if it ends with success and none if with an error, and is terminated only
-- with fewer than it says, when the next one cannot be created.
pub descriptors_closed :
    (fd : ℕ) (stoi : Option ℤ) (created : ℕ → Bool) (clients : ℕ → ℕ → RequestAnswers)
    (a : StartAnswers) (accepted : List (Option ℕ)) (kept : List (Option (ℕ × List (Option ℕ))))
    → EndedClosed fd stoi created (client_main 3 stoi created clients)
      × RunCloses fd a (timewait_main a accepted)
      × RunCloses fd a (noread_main a accepted)
      × NeverCloses fd (keep_main a kept)
unfolding timewait_main noread_main keep_main
descriptors_closed fd stoi created clients a accepted kept = (
  client_main-EndedClosed fd 3 stoi created clients refl,
  close_main-RunCloses true fd a accepted,
  close_main-RunCloses false fd a accepted,
  start-each (NeverCloses fd) a (keep_loop kept) (opened_only a.socket fd).0
      (opened-closes a.socket (keep_loop kept) fd ∙ keep_loop-closes kept fd),
)
