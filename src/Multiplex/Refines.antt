-- ===== src/Multiplex/Refines.antt =====
-- The three classes against an abstract view: which types of which descriptors are watched.
pub mod OfPoll
pub mod OfSelect
pub mod OfEpoll
use prog_playground.Prelude.{
  ℕ, ◌≡◌, ◌∙◌, ap, refl, sym, arith, Bool, true, false, ◌&&◌, ◌||◌, not, Option, none, some, List,
  [], ◌∷◌, ◌++◌, ◌==◌, ==_iff, if◌then◌else◌, ℤ, pos, negsuc, ltb, ltb_ℤ, lt→ltb, ◌<◌, Option-cases,
  Bool-cases, inl, inr,
}
use prog_playground.BpfMap.{is_some}
use prog_playground.Multiplex.{
  EventType, read_type, write_type, error_type, code, Event, Operation, add_event, remove_event,
  modify_event, Interest,
}

abbrev pub same_type : EventType → EventType → Bool
same_type t u = code t == code u

abbrev pub watch : ℤ → EventType → Interest → Interest
watch (negsuc n) type w i u = w i u
watch (pos fd) type w i u = (i == fd && same_type u type) || w i u

abbrev pub forget : ℤ → Interest → Interest
forget (negsuc n) w i u = w i u
forget (pos fd) w i u = not (i == fd) && w i u

abbrev pub forget_type : ℤ → EventType → Interest → Interest
forget_type (negsuc n) type w i u = w i u
forget_type (pos fd) type w i u = not (i == fd && same_type u type) && w i u

-- What an operation means for `PollIO` and `EpollIO`: a removal forgets the descriptor, and a
-- modification leaves it with the one type.
abbrev pub meaning : Operation → Interest → Interest
meaning (add_event fd type) w = watch fd type w
meaning (remove_event fd type) w = forget fd w
meaning (modify_event fd type) w = watch fd type (forget fd w)

-- What it means for `SelectIO`: only the named type is forgotten.
abbrev pub meaning_of_select : Operation → Interest → Interest
meaning_of_select (add_event fd type) w = watch fd type w
meaning_of_select (remove_event fd type) w = forget_type fd type w
meaning_of_select (modify_event fd type) w = watch fd type (forget_type fd type w)

abbrev pub run_meaning : (Operation → Interest → Interest) → List Operation → Interest → Interest
run_meaning f [] w = w
run_meaning f (op ∷ ops) w = run_meaning f ops (f op w)

-- The same types of the same descriptors.
abbrev pub Agree : Interest → Interest → Type 0
Agree v w = (i : ℕ) (u : EventType) → v i u ≡ w i u

pub run_meaning-Agree :
    (f : Operation → Interest → Interest) (ops : List Operation) (v w : Interest)
    → ((op : Operation) (x y : Interest) → Agree x y → Agree (f op x) (f op y))
    → Agree v w
    → Agree (run_meaning f ops v) (run_meaning f ops w)
run_meaning-Agree f [] v w c h = h
run_meaning-Agree f (op ∷ ops) v w c h = run_meaning-Agree f ops (f op v) (f op w) c (c op v w h)

pub meaning-Agree :
    (op : Operation) (v w : Interest) → Agree v w → Agree (meaning op v) (meaning op w)
meaning-Agree (add_event (pos n) t) v w h i u = ground (arith, h i u)
meaning-Agree (add_event (negsuc n) t) v w h i u = h i u
meaning-Agree (remove_event (pos n) t) v w h i u = ground (arith, h i u)
meaning-Agree (remove_event (negsuc n) t) v w h i u = h i u
meaning-Agree (modify_event (pos n) t) v w h i u = ground (arith, h i u)
meaning-Agree (modify_event (negsuc n) t) v w h i u = h i u

pub select-Agree :
    (op : Operation) (v w : Interest)
    → Agree v w
    → Agree (meaning_of_select op v) (meaning_of_select op w)
select-Agree (add_event (pos n) t) v w h i u = ground (arith, h i u)
select-Agree (add_event (negsuc n) t) v w h i u = h i u
select-Agree (remove_event (pos n) t) v w h i u = ground (arith, h i u)
select-Agree (remove_event (negsuc n) t) v w h i u = h i u
select-Agree (modify_event (pos n) t) v w h i u = ground (arith, h i u)
select-Agree (modify_event (negsuc n) t) v w h i u = h i u
