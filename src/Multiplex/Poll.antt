-- ===== src/Multiplex/Poll.antt =====
-- `PollIO`: a vector of `pollfd`.
use prog_playground.Prelude.{
  ℕ, ◌+◌, Bool, true, false, not, Option, none, some, List, [], ◌∷◌, ◌++◌, bit_and, bit_or, ◌==◌,
  if◌then◌else◌, ℤ, pos, negsuc,
}
use prog_playground.Multiplex.{
  EventType, read_type, write_type, error_type, has, Event, Operation, add_event, remove_event,
  modify_event,
}

-- The flags of poll.h on Linux.
abbrev pub pollin : ℕ
pollin = 1

abbrev pub pollout : ℕ
pollout = 4

abbrev pub pollerr : ℕ
pollerr = 8

-- The field `revents` is written by `poll` alone, whose answer gives it.
pub record PollFd : Type 0 where
  pub fd : ℕ
  pub events : ℕ

-- The three `|=` from 0 on.
abbrev pub flags_of : EventType → ℕ
flags_of type =
    let events1 = if has type read_type then bit_or 0 pollin else 0 in
    let events2 = if has type write_type then bit_or events1 pollout else events1 in
    if has type error_type then bit_or events2 pollerr else events2

unfoldable pub add : List PollFd → ℤ → EventType → List PollFd × Bool
add fds (negsuc n) type = (fds, false)
add fds (pos fd) type = (fds ++ record { fd = fd; events = flags_of type } ∷ [], true)

-- The loop that erases the entries of a descriptor.
unfoldable pub erase : ℕ → List PollFd → List PollFd
erase fd [] = []
erase fd (p ∷ ps) = if p.fd == fd then erase fd ps else p ∷ erase fd ps

unfoldable pub remove : List PollFd → ℤ → EventType → List PollFd × Bool
unfolding erase
remove fds (negsuc n) type = (fds, false)
remove fds (pos fd) type = (erase fd fds, true)

unfoldable pub modify : List PollFd → ℤ → EventType → List PollFd × Bool
unfolding add remove
modify fds fd type =
    let (fds', done) = remove fds fd type in if done then add fds' fd type else (fds', false)

unfoldable pub run : Operation → List PollFd → List PollFd × Bool
unfolding add remove modify
run (add_event fd type) fds = add fds fd type
run (remove_event fd type) fds = remove fds fd type
run (modify_event fd type) fds = modify fds fd type

abbrev pub is_set : ℕ → ℕ → Bool
is_set flags flag = not (bit_and flags flag == 0)

-- The type that a word of `revents` is reported as; `none` if it is passed over.
unfoldable pub type_of : ℕ → Option EventType
type_of revents =
    if is_set revents (bit_or (bit_or pollin pollout) pollerr)
    then some (
        if is_set revents pollin
        then read_type
        else if is_set revents pollout
        then write_type
        else if is_set revents pollerr
        then error_type
        else read_type)
    else none

-- The loop over the entries; `revents` gives what `poll` wrote into the entry at an index.
unfoldable pub collect : (revents : ℕ → ℕ) → List PollFd → (i : ℕ) → List Event
unfolding type_of
collect revents [] i = []
collect revents (p ∷ ps) i = elim (type_of (revents i)) [
  | none ↦ collect revents ps (i + 1)
  | some type ↦ record { fd = p.fd; type = type } ∷ collect revents ps (i + 1)
]

-- The answer of `poll`: an error, or its count and what it wrote.
pub data Polled : Type 0 where
  failed : Polled
  polled : (count : ℕ) (revents : ℕ → ℕ) → Polled

unfoldable pub wait : List PollFd → Polled → Option (ℕ × List Event)
unfolding collect
wait fds failed = none
wait fds (polled count revents) = some (count, collect revents fds 0)
