-- ===== src/Tests/Watching.antt =====
-- Inputs for the classes that watch descriptors.
use prog_playground.Prelude.{
  ℕ, ◌≡◌, refl, arith, Bool, true, false, Option, none, some, List, [], ◌∷◌, ◌==◌, if◌then◌else◌,
  pos, negsuc, flag,
}
use prog_playground.BpfMap.{is_some}
use prog_playground.Multiplex.{
  EventType, read_type, write_type, error_type, Event, Operation, add_event, remove_event,
  modify_event,
}
use prog_playground.Multiplex.Select.{SelectIo, new_select, FdSet, selected, wait}
use prog_playground.Multiplex.Epoll
use prog_playground.Multiplex.Epoll.{EpollInstance}
use prog_playground.Multiplex.Refines.{meaning, meaning_of_select, run_meaning}
use prog_playground.Multiplex.Refines.OfPoll.{poll_watches, poll_run_all, poll_run_all-Refines}
use prog_playground.Multiplex.Refines.OfSelect.{
  select_watches, select_run_all, select_run_all-Refines, IsBounded,
}
use prog_playground.Multiplex.Refines.OfEpoll.{epoll_watches, epoll_run-Refines}
use prog_playground.Multiplex.Waiting.{left_in, times, wait-times}

abbrev operations : List Operation
operations =
    add_event (pos 4) read_type
    ∷ add_event (pos 4) write_type
    ∷ add_event (pos 7) read_type
    ∷ modify_event (pos 4) error_type
    ∷ remove_event (pos 7) read_type
    ∷ add_event (negsuc 0) read_type
    ∷ []

poll_run_all-Refines_example :
    poll_watches (poll_run_all operations []) 4 error_type
    ≡ run_meaning meaning operations (poll_watches []) 4 error_type
poll_run_all-Refines_example = poll_run_all-Refines operations [] 4 error_type

select_run_all-Refines_example :
    (s' : SelectIo) × (select_run_all operations new_select ≡ some s')
    × ((i : ℕ) (u : EventType)
        → select_watches s' i u
          ≡ run_meaning meaning_of_select operations (select_watches new_select) i u)
    × (IsBounded new_select → IsBounded s')
select_run_all-Refines_example =
    select_run_all-Refines operations new_select
      (omega arith, (omega arith, (omega arith, (omega arith, (omega arith, (tt, tt))))))

-- An instance whose three calls fail for the documented reasons only.
abbrev Registered : Type 0
Registered = ℕ → Option ℕ

abbrev entered_as : Registered → ℕ → Option ℕ → Registered
entered_as s fd o i = if i == fd then o else s i

abbrev add_to : Registered → ℕ → ℕ → Option ℕ → Registered × Bool
add_to s fd flags none = (entered_as s fd (some flags), true)
add_to s fd flags (some old) = (s, false)

abbrev modify_in : Registered → ℕ → ℕ → Option ℕ → Registered × Bool
modify_in s fd flags none = (s, false)
modify_in s fd flags (some old) = (entered_as s fd (some flags), true)

abbrev delete_from : Registered → ℕ → Option ℕ → Registered × Bool
delete_from s fd none = (s, false)
delete_from s fd (some old) = (entered_as s fd none, true)

add_to-done :
    (s : Registered) (fd flags : ℕ) (o : Option ℕ)
    → (add_to s fd flags o).1 ≡ true
    → (o ≡ none) × ((i : ℕ) → (add_to s fd flags o).0 i ≡ (if i == fd then some flags else s i))
add_to-done s fd flags none h = (refl, λ i. refl)
add_to-done s fd flags (some old) h = absurd (cc)

add_to-failed :
    (s : Registered) (fd flags : ℕ) (o : Option ℕ)
    → (add_to s fd flags o).1 ≡ false
    → (i : ℕ) → (add_to s fd flags o).0 i ≡ s i
add_to-failed s fd flags none h i = absurd (cc)
add_to-failed s fd flags (some old) h i = refl

modify_in-done :
    (s : Registered) (fd flags : ℕ) (o : Option ℕ)
    → (modify_in s fd flags o).1 ≡ true
    → (is_some o ≡ true)
      × ((i : ℕ) → (modify_in s fd flags o).0 i ≡ (if i == fd then some flags else s i))
modify_in-done s fd flags none h = absurd (cc)
modify_in-done s fd flags (some old) h = (refl, λ i. refl)

modify_in-failed :
    (s : Registered) (fd flags : ℕ) (o : Option ℕ)
    → (modify_in s fd flags o).1 ≡ false
    → (i : ℕ) → (modify_in s fd flags o).0 i ≡ s i
modify_in-failed s fd flags none h i = refl
modify_in-failed s fd flags (some old) h i = absurd (cc)

delete_from-done :
    (s : Registered) (fd : ℕ) (o : Option ℕ)
    → (delete_from s fd o).1 ≡ true
    → (i : ℕ) → (delete_from s fd o).0 i ≡ (if i == fd then none else s i)
delete_from-done s fd none h i = absurd (cc)
delete_from-done s fd (some old) h i = refl

delete_from-failed :
    (s : Registered) (fd : ℕ) (o : Option ℕ)
    → (delete_from s fd o).1 ≡ false
    → (i : ℕ) → (delete_from s fd o).0 i ≡ s i
delete_from-failed s fd none h i = refl
delete_from-failed s fd (some old) h i = absurd (cc)

abbrev table_instance : EpollInstance
table_instance = record {
  State = Registered;
  registered = λ s. s;
  ctl_add = λ s fd flags. add_to s fd flags (s fd);
  ctl_mod = λ s fd flags. modify_in s fd flags (s fd);
  ctl_del = λ s fd. delete_from s fd (s fd);
  ctl_add_done = λ s fd flags h. add_to-done s fd flags (s fd) h;
  ctl_mod_done = λ s fd flags h. modify_in-done s fd flags (s fd) h;
  ctl_del_done = λ s fd h. delete_from-done s fd (s fd) h;
  ctl_add_failed = λ s fd flags h. add_to-failed s fd flags (s fd) h;
  ctl_mod_failed = λ s fd flags h. modify_in-failed s fd flags (s fd) h;
  ctl_del_failed = λ s fd h. delete_from-failed s fd (s fd) h;
}

abbrev one_registered : Registered
one_registered i = if i == 4 then some 1 else none

epoll_run-Refines_example :
    epoll_watches table_instance
      (Epoll.run table_instance (modify_event (pos 4) write_type) one_registered).0
      4
      write_type
    ≡ (if (Epoll.run table_instance (modify_event (pos 4) write_type) one_registered).1
        then meaning
            (modify_event (pos 4) write_type)
            (epoll_watches table_instance one_registered)
            4
            write_type
        else epoll_watches table_instance one_registered 4 write_type)
epoll_run-Refines_example =
    epoll_run-Refines table_instance (modify_event (pos 4) write_type) one_registered 4 write_type

abbrev watched : List Operation
watched = add_event (pos 4) read_type ∷ []

abbrev only_4 : FdSet
only_4 i = i == 4

abbrev nothing : FdSet
nothing i = false

wait-times_example :
    (s : SelectIo) × (events : List Event) × (select_run_all watched new_select ≡ some s)
    × (wait s (selected 1 only_4 nothing nothing) ≡ some (1, events))
    × ((fd : ℕ) (t : EventType) → times fd t events ≡ flag (left_in only_4 nothing nothing t fd))
wait-times_example = wait-times watched 1 only_4 nothing nothing (omega arith, tt) within
  where
    within :
        (fd : ℕ) (t : EventType)
        → left_in only_4 nothing nothing t fd ≡ true
        → run_meaning meaning_of_select watched (λ i u. false) fd t ≡ true
    within fd read_type h = ground (arith, h)
    within fd write_type h = absurd (cc)
    within fd error_type h = absurd (cc)
