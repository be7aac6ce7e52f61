-- ===== src/Multiplex.antt =====
-- I/O multiplexing, ioserver_demo/include/io_multiplexing.h and src/server/io_multiplexing.cpp:
-- the three classes over `select`, `poll` and `epoll`. Descriptors are `int`, so they may be
-- negative; those that are stored are not.
pub mod Select
pub mod Poll
pub mod Epoll
pub mod Refines
pub mod Waiting
use prog_playground.Prelude.{
  ℕ, Bool, true, false, not, List, [], ◌∷◌, bit_and, ◌==◌, ℤ, pos, negsuc,
}

pub data EventType : Type 0 where
  read_type write_type error_type : EventType

-- `static_cast<int>(type)`
abbrev pub code : EventType → ℕ
code read_type = 1
code write_type = 2
code error_type = 4

-- `static_cast<int>(type) & static_cast<int>(EventType::...)`
abbrev pub has : EventType → EventType → Bool
has type bit = not (bit_and (code type) (code bit) == 0)

-- `struct Event`; nothing uses its `data`.
pub record Event : Type 0 where
  pub fd : ℕ
  pub type : EventType

-- A call of one of the three operations of `IOMultiplexing` that change what is watched.
pub data Operation : Type 0 where
  add_event remove_event modify_event : ℤ → EventType → Operation

-- What an object watches: the abstract view of the interface.
abbrev pub Interest : Type 0
Interest = ℕ → EventType → Bool
