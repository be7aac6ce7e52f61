-- ===== src/Multiplex/Refines/OfPoll.antt =====
-- `PollIO` keeps to the abstract view.
use prog_playground.Prelude.{
  ℕ, ◌≡◌, ◌∙◌, refl, arith, false, ◌&&◌, ◌||◌, List, [], ◌∷◌, ◌++◌, ◌==◌, ==_iff, pos, negsuc,
}
use prog_playground.Multiplex.{
  EventType, read_type, write_type, error_type, Operation, add_event, remove_event, modify_event,
  Interest,
}
use prog_playground.Multiplex.Poll
use prog_playground.Multiplex.Poll.{PollFd}
use prog_playground.Multiplex.Refines.{
  same_type, watch, forget, meaning, run_meaning, Agree, run_meaning-Agree, meaning-Agree,
}

-- `PollIO` watches a type of a descriptor if some entry does.
abbrev pub poll_watches : List PollFd → Interest
poll_watches [] i u = false
poll_watches (p ∷ ps) i u =
    (i == p.fd && Poll.is_set p.events (Poll.flags_of u)) || poll_watches ps i u

poll_flags : (t u : EventType) → Poll.is_set (Poll.flags_of t) (Poll.flags_of u) ≡ same_type u t
poll_flags read_type read_type = refl
poll_flags read_type write_type = refl
poll_flags read_type error_type = refl
poll_flags write_type read_type = refl
poll_flags write_type write_type = refl
poll_flags write_type error_type = refl
poll_flags error_type read_type = refl
poll_flags error_type write_type = refl
poll_flags error_type error_type = refl

poll_watches-append :
    (ps : List PollFd) (fd : ℕ) (t : EventType) (i : ℕ) (u : EventType)
    → poll_watches (ps ++ record { fd = fd; events = Poll.flags_of t } ∷ []) i u
      ≡ watch (pos fd) t (poll_watches ps) i u
poll_watches-append [] fd t i u = ground (arith, poll_flags t u)
poll_watches-append (p ∷ ps) fd t i u = ground (arith, poll_watches-append ps fd t i u)

poll_watches-erase :
    (fd : ℕ) (ps : List PollFd) (i : ℕ) (u : EventType)
    → poll_watches (Poll.erase fd ps) i u ≡ forget (pos fd) (poll_watches ps) i u
unfolding Poll.erase
poll_watches-erase fd [] i u = ground arith
poll_watches-erase fd (p ∷ ps) i u =
    ground (arith, poll_watches-erase fd ps i u, ==_iff i fd, ==_iff p.fd fd, ==_iff i p.fd)

poll_step :
    (op : Operation) (fds : List PollFd)
    → Agree (poll_watches (Poll.run op fds).0) (meaning op (poll_watches fds))
unfolding Poll.run Poll.add Poll.remove Poll.modify
poll_step (add_event (pos fd) t) fds i u = poll_watches-append fds fd t i u
poll_step (add_event (negsuc n) t) fds i u = refl
poll_step (remove_event (pos fd) t) fds i u = poll_watches-erase fd fds i u
poll_step (remove_event (negsuc n) t) fds i u = refl
poll_step (modify_event (pos fd) t) fds i u =
    poll_watches-append (Poll.erase fd fds) fd t i u ∙ ground (arith, poll_watches-erase fd fds i u)
poll_step (modify_event (negsuc n) t) fds i u = refl

unfoldable pub poll_run_all : List Operation → List PollFd → List PollFd
poll_run_all [] fds = fds
poll_run_all (op ∷ ops) fds = poll_run_all ops (Poll.run op fds).0

-- After any operations PollIO watches the types of descriptors that the abstract view says: an
-- addition adds a type, a removal forgets the descriptor, a modification leaves it with one type,
-- and a negative descriptor changes nothing.
pub poll_run_all-Refines :
    (ops : List Operation) (fds : List PollFd) (i : ℕ) (u : EventType)
    → poll_watches (poll_run_all ops fds) i u ≡ run_meaning meaning ops (poll_watches fds) i u
unfolding poll_run_all
poll_run_all-Refines [] fds i u = refl
poll_run_all-Refines (op ∷ ops) fds i u =
    poll_run_all-Refines ops (Poll.run op fds).0 i u
    ∙ run_meaning-Agree meaning ops (poll_watches (Poll.run op fds).0)
        (meaning op (poll_watches fds)) meaning-Agree (poll_step op fds) i u
