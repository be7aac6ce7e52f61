-- ===== src/Tcptrace/Release.antt =====
-- What `main` of test_tcptrace.c releases, and the status that it exits with.
use prog_playground.Prelude.{
  ℕ, zero, suc, ◌<◌, ◌≡◌, refl, ◌∙◌, arith, true, List, [], ◌∷◌, ◌++◌, Bool-cases, inl, inr, ℤ, pos,
  negsuc,
}
use prog_playground.Tcptrace.Session.{
  Poll, events, interrupted, failed, Answers, Call, set_print, open_skeleton, load_program,
  attach_probe, new_buffer, poll_buffer, sleep_second, free_buffer, destroy_skeleton, Result,
  exited, running, neg, is_error, cleanup, poll_loop, main,
}

-- The calls that release something.
abbrev pub releases : List Call → ℕ
releases [] = 0
releases (free_buffer ∷ cs) = suc (releases cs)
releases (destroy_skeleton ∷ cs) = suc (releases cs)
releases (c ∷ cs) = releases cs

-- If the result is an exit, its status is not 0 and it released the buffer and then the skeleton,
-- as its last two calls and at no other place.
abbrev pub EndsReleased : Result → Type 0
EndsReleased (running calls) = Unit
EndsReleased (exited status calls) =
    (is_error status ≡ true)
    × ((before : List Call) × (calls ≡ before ++ (free_buffer ∷ destroy_skeleton ∷ []))
        × (releases before ≡ 0))

is_error-neg : (err : ℤ) → is_error (neg err) ≡ is_error err
is_error-neg (pos zero) = refl
is_error-neg (pos (suc n)) = refl
is_error-neg (negsuc n) = refl

releases-append : (xs ys : List Call) → releases xs ≡ 0 → releases ys ≡ 0 → releases (xs ++ ys) ≡ 0
releases-append [] ys h k = k
releases-append (set_print ∷ xs) ys h k = releases-append xs ys h k
releases-append (open_skeleton ∷ xs) ys h k = releases-append xs ys h k
releases-append (load_program ∷ xs) ys h k = releases-append xs ys h k
releases-append (attach_probe ∷ xs) ys h k = releases-append xs ys h k
releases-append (new_buffer ∷ xs) ys h k = releases-append xs ys h k
releases-append (poll_buffer ∷ xs) ys h k = releases-append xs ys h k
releases-append (sleep_second ∷ xs) ys h k = releases-append xs ys h k
releases-append (free_buffer ∷ xs) ys h k = absurd (omega arith)
releases-append (destroy_skeleton ∷ xs) ys h k = absurd (omega arith)

cleanup-EndsReleased :
    (err : ℤ) (calls : List Call)
    → is_error err ≡ true
    → releases calls ≡ 0
    → EndsReleased (cleanup err calls)
unfolding cleanup
cleanup-EndsReleased err calls bad h = (is_error-neg err ∙ bad, (calls, refl, h))

poll_loop-EndsReleased :
    (ps : List Poll) (calls : List Call) → releases calls ≡ 0 → EndsReleased (poll_loop ps calls)
unfolding poll_loop
poll_loop-EndsReleased [] calls h = tt
poll_loop-EndsReleased (events n ∷ ps) calls h =
    poll_loop-EndsReleased ps _ (releases-append calls (poll_buffer ∷ sleep_second ∷ []) h refl)
poll_loop-EndsReleased (interrupted ∷ ps) calls h =
    poll_loop-EndsReleased ps _ (releases-append calls (poll_buffer ∷ sleep_second ∷ []) h refl)
poll_loop-EndsReleased (failed n ∷ ps) calls h =
    cleanup-EndsReleased (negsuc n) (calls ++ poll_buffer ∷ []) refl
      (releases-append calls (poll_buffer ∷ []) h refl)

-- Once the skeleton is open, and with an error number that is not 0, every exit of the tracer's
-- main has a status other than 0, and frees the buffer and destroys the skeleton as its last two
-- calls and at no other place.
pub main-EndsReleased :
    (a : Answers) (polls : List Poll)
    → a.opened ≡ true
    → 0 < a.buffer_errno
    → EndsReleased (main a polls)
unfolding main
main-EndsReleased a polls open_ok errno = elim (Bool-cases (is_error a.load_err)) [
  | inl bad ↦
      rw (main, open_ok, bad)
        (cleanup-EndsReleased a.load_err (set_print ∷ open_skeleton ∷ load_program ∷ []) bad refl)
  | inr loaded ↦ elim (Bool-cases (is_error a.attach_err)) [
    | inl bad ↦
        rw (main, open_ok, loaded, bad)
          (cleanup-EndsReleased a.attach_err
            (set_print ∷ open_skeleton ∷ load_program ∷ attach_probe ∷ []) bad refl)
    | inr attached ↦ elim (Bool-cases a.buffer_made) [
      | inl made ↦
          rw (main, open_ok, loaded, attached, made)
            (poll_loop-EndsReleased polls
              (set_print ∷ open_skeleton ∷ load_program ∷ attach_probe ∷ new_buffer ∷ []) refl)
      | inr missing ↦
          rw (main, open_ok, loaded, attached, missing)
            (cleanup-EndsReleased (neg (pos a.buffer_errno))
              (set_print ∷ open_skeleton ∷ load_program ∷ attach_probe ∷ new_buffer ∷ [])
              (errno_is_error a.buffer_errno errno) refl)
    ]
  ]
]
  where
    errno_is_error : (n : ℕ) → 0 < n → is_error (neg (pos n)) ≡ true
    errno_is_error zero h = absurd (omega arith)
    errno_is_error (suc n) h = refl
