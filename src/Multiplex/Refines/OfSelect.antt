-- ===== src/Multiplex/Refines/OfSelect.antt =====
-- `SelectIO` keeps to an abstract view of its own.
use prog_playground.Prelude.{
  ◌⊎◌, ==_iff, ℕ, ◌≡◌, ◌∙◌, ap, refl, arith, Bool, true, false, ◌&&◌, Option, none, some, List, [],
  ◌∷◌, ◌==◌, if◌then◌else◌, ℤ, pos, negsuc, ltb_ℤ, lt→ltb, ◌<◌,
}
use prog_playground.Multiplex.{
  EventType, read_type, write_type, error_type, Operation, add_event, remove_event, modify_event,
  Interest,
}
use prog_playground.Multiplex.Select
use prog_playground.Multiplex.Select.{SelectIo}
use prog_playground.Multiplex.Refines.{
  same_type, meaning_of_select, run_meaning, Agree, run_meaning-Agree, select-Agree,
}

abbrev pub select_watches : SelectIo → Interest
select_watches s i read_type = s.readfds i
select_watches s i write_type = s.writefds i
select_watches s i error_type = s.errorfds i

select_mark :
    (s : SelectIo) (fd : ℕ) (t : EventType) (b : Bool) (i : ℕ) (u : EventType)
    → select_watches (Select.mark s fd t b) i u
      ≡ (if i == fd && same_type u t then b else select_watches s i u)
unfolding Select.mark
select_mark s fd read_type b i read_type = ground arith
select_mark s fd read_type b i write_type = ground arith
select_mark s fd read_type b i error_type = ground arith
select_mark s fd write_type b i read_type = ground arith
select_mark s fd write_type b i write_type = ground arith
select_mark s fd write_type b i error_type = ground arith
select_mark s fd error_type b i read_type = ground arith
select_mark s fd error_type b i write_type = ground arith
select_mark s fd error_type b i error_type = ground arith

raised : SelectIo → ℤ → SelectIo
raised s fd = record s { maxfd = if ltb_ℤ s.maxfd fd then fd else s.maxfd }

select_raised :
    (s : SelectIo) (fd : ℤ) (i : ℕ) (u : EventType)
    → select_watches (raised s fd) i u ≡ select_watches s i u
unfolding raised
select_raised s fd i read_type = refl
select_raised s fd i write_type = refl
select_raised s fd i error_type = refl

-- The descriptor fits an `fd_set`, or is negative.
abbrev pub HasRoom : ℤ → Type 0
HasRoom (pos fd) = fd < Select.fd_setsize
HasRoom (negsuc n) = Unit

abbrev pub Fits : Operation → Type 0
Fits (add_event fd t) = HasRoom fd
Fits (remove_event fd t) = HasRoom fd
Fits (modify_event fd t) = HasRoom fd

abbrev pub AllFit : List Operation → Type 0
AllFit [] = Unit
AllFit (op ∷ ops) = Fits op × AllFit ops

-- `maxfd_` is high enough for what is watched.
abbrev pub IsBounded : SelectIo → Type 0
IsBounded s = (i : ℕ) (u : EventType) → select_watches s i u ≡ true → i < Select.bound s.maxfd

mark-IsBounded :
    (s : SelectIo) (fd : ℕ) (t : EventType) → IsBounded s → IsBounded (Select.mark s fd t false)
unfolding Select.mark
mark-IsBounded s fd t b i u e = b i u (unmarked s fd t i u e)
  where
    unmarked :
        (s : SelectIo) (fd : ℕ) (t : EventType) (i : ℕ) (u : EventType)
        → select_watches (Select.mark s fd t false) i u ≡ true
        → select_watches s i u ≡ true
    unmarked s fd t i u e = ground (arith, select_mark s fd t false i u, e)

raised-IsBounded :
    (s : SelectIo) (fd : ℕ) (t : EventType)
    → IsBounded s
    → IsBounded (raised (Select.mark s fd t true) (pos fd))
unfolding Select.mark raised
raised-IsBounded s fd t b i u e =
    reach (s.maxfd) fd i (select_watches s i u) (marked s fd t i u e) (b i u)
  where
    marked :
        (s : SelectIo) (fd : ℕ) (t : EventType) (i : ℕ) (u : EventType)
        → select_watches (raised (Select.mark s fd t true) (pos fd)) i u ≡ true
        → (i ≡ fd) ⊎ (select_watches s i u ≡ true)
    marked s fd t i u e = ground (
      arith,
      select_mark s fd t true i u,
      select_raised (Select.mark s fd t true) (pos fd) i u,
      ==_iff i fd,
      e,
    )

    reach :
        (m : ℤ) (fd i : ℕ) (w : Bool)
        → (i ≡ fd) ⊎ (w ≡ true)
        → (w ≡ true → i < Select.bound m)
        → i < Select.bound (if ltb_ℤ m (pos fd) then pos fd else m)
    reach (pos n) fd i w h k = ground arith
    reach (negsuc n) fd i w h k = ground arith

abbrev Done : Operation → SelectIo → Type 0
Done op s =
    (s' : SelectIo) × (done : Bool) × (Select.run op s ≡ some (s', done))
    × Agree (select_watches s') (meaning_of_select op (select_watches s))
    × (IsBounded s → IsBounded s')

select_add :
    (fd : ℕ) (t : EventType) (s : SelectIo)
    → fd < Select.fd_setsize
    → Select.add s (pos fd) t ≡ some (raised (Select.mark s fd t true) (pos fd), true)
unfolding Select.add raised
select_add fd t s h = rw (lt→ltb fd Select.fd_setsize h) refl

select_remove :
    (fd : ℕ) (t : EventType) (s : SelectIo)
    → fd < Select.fd_setsize
    → Select.remove s (pos fd) t ≡ some (Select.mark s fd t false, true)
unfolding Select.remove
select_remove fd t s h = rw (lt→ltb fd Select.fd_setsize h) refl

select_step : (op : Operation) (s : SelectIo) → Fits op → Done op s
unfolding Select.run Select.modify Select.then_add Select.add Select.remove
select_step (add_event (pos fd) t) s h = (
  raised (Select.mark s fd t true) (pos fd),
  true,
  select_add fd t s h,
  λ i u.
      select_raised (Select.mark s fd t true) (pos fd) i u
      ∙ ground (arith, select_mark s fd t true i u),
  raised-IsBounded s fd t,
)
select_step (add_event (negsuc n) t) s h = (s, false, refl, λ i u. refl, λ b. b)
select_step (remove_event (pos fd) t) s h = (
  Select.mark s fd t false,
  true,
  select_remove fd t s h,
  λ i u. ground (arith, select_mark s fd t false i u),
  mark-IsBounded s fd t,
)
select_step (remove_event (negsuc n) t) s h = (s, false, refl, λ i u. refl, λ b. b)
select_step (modify_event (pos fd) t) s h = (
  raised (Select.mark (Select.mark s fd t false) fd t true) (pos fd),
  true,
  ap (Select.then_add (pos fd) t) (select_remove fd t s h)
      ∙ select_add fd t (Select.mark s fd t false) h,
  λ i u.
      select_raised (Select.mark (Select.mark s fd t false) fd t true) (pos fd) i u
      ∙ ground (
        arith,
        select_mark (Select.mark s fd t false) fd t true i u,
        select_mark s fd t false i u,
      ),
  λ b. raised-IsBounded (Select.mark s fd t false) fd t (mark-IsBounded s fd t b),
)
select_step (modify_event (negsuc n) t) s h = (s, false, refl, λ i u. refl, λ b. b)

unfoldable pub select_run_all : List Operation → SelectIo → Option SelectIo
select_run_all [] s = some s
select_run_all (op ∷ ops) s = elim (Select.run op s) [
  | none ↦ none
  | some (s', done) ↦ select_run_all ops s'
]

-- After any operations on descriptors below FD_SETSIZE no array is left, and SelectIO watches the
-- types of descriptors that its abstract view says, in which a removal forgets one type and a
-- modification adds the type that it has just forgotten; the bound of the scan stays above every
-- watched descriptor.
pub select_run_all-Refines :
    (ops : List Operation) (s : SelectIo)
    → AllFit ops
    → (s' : SelectIo) × (select_run_all ops s ≡ some s')
      × ((i : ℕ) (u : EventType)
          → select_watches s' i u ≡ run_meaning meaning_of_select ops (select_watches s) i u)
      × (IsBounded s → IsBounded s')
unfolding select_run_all
select_run_all-Refines [] s h = (s, refl, λ i u. refl, λ b. b)
select_run_all-Refines (op ∷ ops) s h =
    let (s', done, ran, step, bounded) = select_step op s h.0 in
    let (s'', rest, agree, later) = select_run_all-Refines ops s' h.1 in
    (
      s'',
      rw (ran, select_run_all) rest,
      λ i u.
          agree i u
          ∙ run_meaning-Agree meaning_of_select ops (select_watches s')
              (meaning_of_select op (select_watches s)) select-Agree step i u,
      λ b. later (bounded b),
    )
