-- ===== src/Multiplex/Epoll.antt =====
-- `EpollIO`. The instance of epoll in the kernel is not code of the repository: it is an interface
-- with the documented behaviour of `epoll_ctl`.
use prog_playground.Prelude.{
  ℕ, ◌≡◌, Bool, true, false, not, Option, none, some, List, [], ◌∷◌, bit_and, bit_or, ◌==◌,
  if◌then◌else◌, ℤ, pos, negsuc,
}
use prog_playground.BpfMap.{is_some}
use prog_playground.Multiplex.{
  EventType, read_type, write_type, error_type, has, Event, Operation, add_event, remove_event,
  modify_event,
}

-- The flags of sys/epoll.h.
abbrev pub epollin : ℕ
epollin = 1

abbrev pub epollout : ℕ
epollout = 4

abbrev pub epollerr : ℕ
epollerr = 8

-- `EPOLL_CTL_ADD` fails on a registered descriptor, `EPOLL_CTL_MOD` and `EPOLL_CTL_DEL` on any
-- other. All three may fail for other reasons, and then change nothing.
pub record EpollInstance : Type 1 where
  pub State : Type 0
  pub registered : State → ℕ → Option ℕ
  pub ctl_add : State → ℕ → ℕ → State × Bool
  pub ctl_mod : State → ℕ → ℕ → State × Bool
  pub ctl_del : State → ℕ → State × Bool
  pub ctl_add_done :
      (s : State) (fd events : ℕ)
      → (ctl_add s fd events).1 ≡ true
      → (registered s fd ≡ none)
        × ((i : ℕ)
            → registered (ctl_add s fd events).0 i
              ≡ (if i == fd then some events else registered s i))
  pub ctl_mod_done :
      (s : State) (fd events : ℕ)
      → (ctl_mod s fd events).1 ≡ true
      → (is_some (registered s fd) ≡ true)
        × ((i : ℕ)
            → registered (ctl_mod s fd events).0 i
              ≡ (if i == fd then some events else registered s i))
  pub ctl_del_done :
      (s : State) (fd : ℕ)
      → (ctl_del s fd).1 ≡ true
      → (i : ℕ) → registered (ctl_del s fd).0 i ≡ (if i == fd then none else registered s i)
  pub ctl_add_failed :
      (s : State) (fd events : ℕ)
      → (ctl_add s fd events).1 ≡ false
      → (i : ℕ) → registered (ctl_add s fd events).0 i ≡ registered s i
  pub ctl_mod_failed :
      (s : State) (fd events : ℕ)
      → (ctl_mod s fd events).1 ≡ false
      → (i : ℕ) → registered (ctl_mod s fd events).0 i ≡ registered s i
  pub ctl_del_failed :
      (s : State) (fd : ℕ)
      → (ctl_del s fd).1 ≡ false
      → (i : ℕ) → registered (ctl_del s fd).0 i ≡ registered s i

abbrev pub flags_of : EventType → ℕ
flags_of type =
    let events1 = if has type read_type then bit_or 0 epollin else 0 in
    let events2 = if has type write_type then bit_or events1 epollout else events1 in
    if has type error_type then bit_or events2 epollerr else events2

abbrev pub is_set : ℕ → ℕ → Bool
is_set flags flag = not (bit_and flags flag == 0)

-- The constructor: the descriptor, or `none` where it throws.
unfoldable pub new_epoll : (epoll_create1 : ℤ) → Option ℕ
new_epoll (negsuc n) = none
new_epoll (pos fd) = some fd

-- The destructor: the descriptors that it closes.
unfoldable pub destroy : (epollfd : ℤ) → List ℕ
destroy (negsuc n) = []
destroy (pos fd) = fd ∷ []

-- The type that a word of `events` is reported as.
unfoldable pub type_of : ℕ → EventType
type_of events =
    if is_set events epollin
    then read_type
    else if is_set events epollout
    then write_type
    else if is_set events epollerr
    then error_type
    else read_type

-- The entries that `epoll_wait` filled, with the descriptor and the flags of each.
unfoldable pub collect : List (ℕ × ℕ) → List Event
unfolding type_of
collect [] = []
collect ((fd, events) ∷ rest) = record { fd = fd; type = type_of events } ∷ collect rest

-- `none` is the result -1; the result is the number of entries filled.
unfoldable pub wait : Option (List (ℕ × ℕ)) → Option (List Event)
unfolding collect
wait none = none
wait (some ready) = some (collect ready)

module _ (epoll : EpollInstance) where
  open epoll use {State, ctl_add, ctl_mod, ctl_del}

  unfoldable pub add : State → ℤ → EventType → State × Bool
  add s (negsuc n) type = (s, false)
  add s (pos fd) type = ctl_add s fd (flags_of type)

  unfoldable pub remove : State → ℤ → EventType → State × Bool
  remove s (negsuc n) type = (s, false)
  remove s (pos fd) type = ctl_del s fd

  unfoldable pub modify : State → ℤ → EventType → State × Bool
  modify s (negsuc n) type = (s, false)
  modify s (pos fd) type = ctl_mod s fd (flags_of type)

  unfoldable pub run : Operation → State → State × Bool
  unfolding add remove modify
  run (add_event fd type) s = add s fd type
  run (remove_event fd type) s = remove s fd type
  run (modify_event fd type) s = modify s fd type
