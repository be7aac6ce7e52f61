-- ===== src/Multiplex/Select.antt =====
-- `SelectIO`: three sets of descriptors. A descriptor from `FD_SETSIZE` on leaves the arrays of
-- `fd_set`, which is undefined and gives `none`.
use prog_playground.Prelude.{
  ℕ, zero, suc, ◌+◌, ◌*◌, ◌/◌, ◌%◌, Bool, true, false, Option, none, some, List, [], ◌∷◌, ◌++◌, ltb,
  ◌==◌, if◌then◌else◌, ℤ, pos, negsuc, ltb_ℤ,
}
use prog_playground.Multiplex.{
  EventType, read_type, write_type, error_type, has, Event, Operation, add_event, remove_event,
  modify_event,
}

abbrev pub fd_setsize : ℕ
fd_setsize = 1024

abbrev pub FdSet : Type 0
FdSet = ℕ → Bool

abbrev pub put : FdSet → ℕ → Bool → FdSet
put set fd b i = if i == fd then b else set i

pub record SelectIo : Type 0 where
  pub readfds : FdSet
  pub writefds : FdSet
  pub errorfds : FdSet
  pub maxfd : ℤ

abbrev pub new_select : SelectIo
new_select = record {
  readfds = λ i. false;
  writefds = λ i. false;
  errorfds = λ i. false;
  maxfd = negsuc 0;
}

-- `FD_SET` (or `FD_CLR`) on the sets that `type` names.
unfoldable pub mark : SelectIo → ℕ → EventType → Bool → SelectIo
mark s fd type b = record s {
  readfds = if has type read_type then put s.readfds fd b else s.readfds;
  writefds = if has type write_type then put s.writefds fd b else s.writefds;
  errorfds = if has type error_type then put s.errorfds fd b else s.errorfds;
}

-- The object after the call, and what the call returns.
unfoldable pub add : SelectIo → ℤ → EventType → Option (SelectIo × Bool)
unfolding mark
add s (negsuc n) type = some (s, false)
add s (pos fd) type =
    if ltb fd fd_setsize
    then some (
      record (mark s fd type true) { maxfd = if ltb_ℤ s.maxfd (pos fd) then pos fd else s.maxfd },
      true,
    )
    else none

unfoldable pub remove : SelectIo → ℤ → EventType → Option (SelectIo × Bool)
unfolding mark
remove s (negsuc n) type = some (s, false)
remove s (pos fd) type = if ltb fd fd_setsize then some (mark s fd type false, true) else none

-- The second half of `modifyEvent`, after what the removal gave.
unfoldable pub then_add : ℤ → EventType → Option (SelectIo × Bool) → Option (SelectIo × Bool)
unfolding add
then_add fd type none = none
then_add fd type (some (s, done)) = if done then add s fd type else some (s, false)

unfoldable pub modify : SelectIo → ℤ → EventType → Option (SelectIo × Bool)
unfolding then_add remove
modify s fd type = then_add fd type (remove s fd type)

unfoldable pub run : Operation → SelectIo → Option (SelectIo × Bool)
unfolding add remove modify
run (add_event fd type) s = add s fd type
run (remove_event fd type) s = remove s fd type
run (modify_event fd type) s = modify s fd type

-- The answer of `select`: an error, or its count and the three sets that it leaves.
pub data Selected : Type 0 where
  failed : Selected
  selected : (count : ℕ) (rfds wfds efds : FdSet) → Selected

abbrev pub events_of : FdSet → FdSet → FdSet → ℕ → List Event
events_of rfds wfds efds fd =
    (if rfds fd then record { fd = fd; type = read_type } ∷ [] else [])
    ++ ((if wfds fd then record { fd = fd; type = write_type } ∷ [] else [])
        ++ (if efds fd then record { fd = fd; type = error_type } ∷ [] else []))

-- The loop from `fd` on, with `rounds` descriptors left.
unfoldable pub collect : FdSet → FdSet → FdSet → (rounds fd : ℕ) → List Event
collect rfds wfds efds zero fd = []
collect rfds wfds efds (suc rounds) fd =
    events_of rfds wfds efds fd ++ collect rfds wfds efds rounds (fd + 1)

-- `maxfd_ + 1`
abbrev pub bound : ℤ → ℕ
bound (pos n) = n + 1
bound (negsuc n) = 0

-- `tv`, in seconds and microseconds; `none` is the null pointer, which waits without an end.
unfoldable pub timeval_of : (timeout : ℤ) → Option (ℕ × ℕ)
timeval_of (negsuc n) = none
timeval_of (pos n) = some (n / 1000, n % 1000 * 1000)

-- `none` is the result -1; else the result and the new content of `events`.
unfoldable pub wait : SelectIo → Selected → Option (ℕ × List Event)
unfolding collect
wait s failed = none
wait s (selected count rfds wfds efds) = some (count, collect rfds wfds efds (bound s.maxfd) 0)
