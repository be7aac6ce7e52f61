-- ===== src/Multiplex/Waiting.antt =====
-- The events that `SelectIO` reports are those of the sets that `select` leaves.
use prog_playground.Prelude.{
  pos, ℕ, zero, suc, ◌+◌, ◌*◌, ◌/◌, ◌%◌, ◌^◌, ◌<◌, ◌≡◌, ◌∙◌, refl, arith, Bool, true, false, ◌&&◌,
  flag, some, List, [], ◌∷◌, ◌++◌, ltb, leb, ◌==◌, ==_iff, if◌then◌else◌,
}
use prog_playground.Multiplex.{EventType, read_type, write_type, error_type, Event, Operation}
use prog_playground.Multiplex.Select.{
  SelectIo, FdSet, events_of, collect, bound, timeval_of, selected, wait, new_select,
}
use prog_playground.Multiplex.Refines.{
  same_type, meaning_of_select, run_meaning, run_meaning-Agree, select-Agree,
}
use prog_playground.Multiplex.Refines.OfSelect.{
  select_watches, AllFit, select_run_all, select_run_all-Refines, IsBounded,
}

-- How often an event stands in a list.
abbrev pub times : ℕ → EventType → List Event → ℕ
times fd t [] = 0
times fd t (e ∷ es) = flag (e.fd == fd && same_type e.type t) + times fd t es

times-append :
    (fd : ℕ) (t : EventType) (xs ys : List Event)
    → times fd t (xs ++ ys) ≡ times fd t xs + times fd t ys
times-append fd t [] ys = omega arith
times-append fd t (x ∷ xs) ys = omega (arith, times-append fd t xs ys)

abbrev pub left_in : FdSet → FdSet → FdSet → EventType → FdSet
left_in r w e read_type = r
left_in r w e write_type = w
left_in r w e error_type = e

times-events_of :
    (r w e : FdSet) (i fd : ℕ) (t : EventType)
    → times fd t (events_of r w e i) ≡ (if i == fd then flag (left_in r w e t fd) else 0)
times-events_of r w e i fd read_type = ground (arith, ==_iff i fd)
times-events_of r w e i fd write_type = ground (arith, ==_iff i fd)
times-events_of r w e i fd error_type = ground (arith, ==_iff i fd)

times-collect :
    (r w e : FdSet) (fd : ℕ) (t : EventType) (rounds from : ℕ)
    → times fd t (collect r w e rounds from)
      ≡ (if leb from fd && ltb fd (from + rounds) then flag (left_in r w e t fd) else 0)
unfolding collect
times-collect r w e fd t zero from = ground arith
times-collect r w e fd t (suc rounds) from =
    times-append fd t (events_of r w e from) (collect r w e rounds (from + 1))
    ∙ ground (
      arith,
      times-events_of r w e from fd t,
      times-collect r w e fd t rounds (from + 1),
      ==_iff from fd,
    )

none_watched : (s : SelectIo) → s ≡ new_select → IsBounded s
none_watched s e i read_type h = absurd (cc)
none_watched s e i write_type h = absurd (cc)
none_watched s e i error_type h = absurd (cc)

none_yet : (i : ℕ) (u : EventType) → select_watches new_select i u ≡ false
none_yet i read_type = refl
none_yet i write_type = refl
none_yet i error_type = refl

below_bound :
    (n fd : ℕ) (b : Bool)
    → (b ≡ true → fd < n)
    → (if leb 0 fd && ltb fd (0 + n) then flag b else 0) ≡ flag b
below_bound n fd b h = ground (arith, h)

-- The time that `select` is given is the timeout, and its microseconds are in range.
timeval_of-IsExact :
    (n : ℕ)
    → (sec : ℕ) × (usec : ℕ) × (timeval_of (pos n) ≡ some (sec, usec))
      × (usec < 10 ^ 6)
      × (sec * 10 ^ 6 + usec ≡ n * 1000)
unfolding timeval_of
timeval_of-IsExact n = (n / 1000, n % 1000 * 1000, refl, omega arith, omega arith)

-- After any operations on descriptors below FD_SETSIZE, if select leaves in its sets only watched
-- types of descriptors, the wait of SelectIO returns its count and reports each of them exactly
-- once and no other.
pub wait-times :
    (ops : List Operation) (count : ℕ) (r w e : FdSet)
    → AllFit ops
    → ((fd : ℕ) (t : EventType)
        → left_in r w e t fd ≡ true
        → run_meaning meaning_of_select ops (λ i u. false) fd t ≡ true)
    → (s : SelectIo) × (events : List Event) × (select_run_all ops new_select ≡ some s)
      × (wait s (selected count r w e) ≡ some (count, events))
      × ((fd : ℕ) (t : EventType) → times fd t events ≡ flag (left_in r w e t fd))
unfolding wait
wait-times ops count r w e fit within =
    let (s, ran, agree, bounded) = select_run_all-Refines ops new_select fit in
    (
      s,
      collect r w e (bound s.maxfd) 0,
      ran,
      refl,
      λ fd t.
          times-collect r w e fd t (bound s.maxfd) 0
          ∙ below_bound (bound s.maxfd) fd (left_in r w e t fd) (λ h.
            bounded (none_watched new_select refl) fd t (
              agree fd t
              ∙ run_meaning-Agree meaning_of_select ops (select_watches new_select) (λ i u. false)
                  select-Agree none_yet fd t
              ∙ within fd t h)),
    )
