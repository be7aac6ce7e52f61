-- ===== src/Multiplex/Refines/OfEpoll.antt =====
-- `EpollIO` keeps to the abstract view of `PollIO`, as far as the kernel does what it asks.
use prog_playground.Prelude.{
  ℕ, ◌≡◌, ◌∙◌, ap, refl, arith, Bool, true, false, Option, none, some, ◌==◌, ==_iff, if◌then◌else◌,
  pos, negsuc, Bool-cases, inl, inr,
}
use prog_playground.Multiplex.{
  EventType, read_type, write_type, error_type, Operation, add_event, remove_event, modify_event,
  Interest,
}
use prog_playground.Multiplex.Epoll
use prog_playground.Multiplex.Epoll.{EpollInstance}
use prog_playground.Multiplex.Refines.{same_type, meaning}

epoll_flags : (t u : EventType) → Epoll.is_set (Epoll.flags_of t) (Epoll.flags_of u) ≡ same_type u t
epoll_flags read_type read_type = refl
epoll_flags read_type write_type = refl
epoll_flags read_type error_type = refl
epoll_flags write_type read_type = refl
epoll_flags write_type write_type = refl
epoll_flags write_type error_type = refl
epoll_flags error_type read_type = refl
epoll_flags error_type write_type = refl
epoll_flags error_type error_type = refl

module _ (epoll : EpollInstance) where
  open epoll use {
    State, registered, ctl_add, ctl_mod, ctl_del, ctl_add_done, ctl_mod_done, ctl_del_done,
    ctl_add_failed, ctl_mod_failed, ctl_del_failed,
  }

  abbrev pub flags_watch : Option ℕ → EventType → Bool
  flags_watch none u = false
  flags_watch (some flags) u = Epoll.is_set flags (Epoll.flags_of u)

  abbrev pub epoll_watches : State → Interest
  epoll_watches s i u = flags_watch (registered s i) u

  flags_watch-if :
      (b : Bool) (n o : Option ℕ) (u : EventType)
      → flags_watch (if b then n else o) u ≡ (if b then flags_watch n u else flags_watch o u)
  flags_watch-if true n o u = refl
  flags_watch-if false n o u = refl

  unwatched :
      (s : State) (fd i : ℕ) (u : EventType)
      → registered s fd ≡ none
      → i ≡ fd
      → epoll_watches s i u ≡ false
  unwatched s fd i u e p = rw (p, e) refl

  same :
      (s s' : State) (i : ℕ) (u : EventType)
      → registered s' i ≡ registered s i
      → epoll_watches s' i u ≡ epoll_watches s i u
  same s s' i u e = ap (λ o. flags_watch o u) e

  -- An operation of EpollIO that returns true changes the watched types as the abstract view of
  -- PollIO says, and one that returns false leaves them, over any instance of epoll with the
  -- documented behaviour of epoll_ctl.
  pub epoll_run-Refines :
      (op : Operation) (s : State) (i : ℕ) (u : EventType)
      → epoll_watches (Epoll.run epoll op s).0 i u ≡ (
          if (Epoll.run epoll op s).1
          then meaning op (epoll_watches s) i u
          else epoll_watches s i u)
  unfolding Epoll.run Epoll.add Epoll.remove Epoll.modify
  epoll_run-Refines (add_event (pos fd) t) s i u =
      elim (Bool-cases (ctl_add s fd (Epoll.flags_of t)).1) [
        | inl ok ↦
            let done = ctl_add_done s fd (Epoll.flags_of t) ok in
            ap (λ o. flags_watch o u) (done.1 i)
            ∙ flags_watch-if (i == fd) (some (Epoll.flags_of t)) (registered s i) u
            ∙ rw ok (ground (arith, epoll_flags t u, unwatched s fd i u done.0, ==_iff i fd))
        | inr refused ↦
            same s (ctl_add s fd (Epoll.flags_of t)).0 i u
              (ctl_add_failed s fd (Epoll.flags_of t) refused i)
            ∙ rw refused refl
      ]
  epoll_run-Refines (add_event (negsuc n) t) s i u = refl
  epoll_run-Refines (remove_event (pos fd) t) s i u = elim (Bool-cases (ctl_del s fd).1) [
    | inl ok ↦
        let done = ctl_del_done s fd ok in
        ap (λ o. flags_watch o u) (done i)
        ∙ flags_watch-if (i == fd) none (registered s i) u
        ∙ rw ok (ground (arith))
    | inr refused ↦ same s (ctl_del s fd).0 i u (ctl_del_failed s fd refused i) ∙ rw refused refl
  ]
  epoll_run-Refines (remove_event (negsuc n) t) s i u = refl
  epoll_run-Refines (modify_event (pos fd) t) s i u =
      elim (Bool-cases (ctl_mod s fd (Epoll.flags_of t)).1) [
        | inl ok ↦
            let done = ctl_mod_done s fd (Epoll.flags_of t) ok in
            ap (λ o. flags_watch o u) (done.1 i)
            ∙ flags_watch-if (i == fd) (some (Epoll.flags_of t)) (registered s i) u
            ∙ rw ok (ground (arith, epoll_flags t u))
        | inr refused ↦
            same s (ctl_mod s fd (Epoll.flags_of t)).0 i u
              (ctl_mod_failed s fd (Epoll.flags_of t) refused i)
            ∙ rw refused refl
      ]
  epoll_run-Refines (modify_event (negsuc n) t) s i u = refl
