-- ===== src/Tcptrace/Session.antt =====
-- `main` of network/ebpf/libbpf_tcptrace/test_tcptrace.c: what is opened, in which order, and what
-- is released. The answers of libbpf are an argument.
use prog_playground.Prelude.{
  ℕ, zero, suc, Bool, true, false, List, [], ◌∷◌, ◌++◌, if◌then◌else◌, ℤ, pos, negsuc,
}

-- A poll gives a count of events, or an error: the interrupted call, or another one by its number.
pub data Poll : Type 0 where
  events : ℕ → Poll
  interrupted : Poll
  failed : ℕ → Poll

pub record Answers : Type 0 where
  pub opened : Bool
  pub load_err : ℤ
  pub attach_err : ℤ
  pub buffer_made : Bool
  pub buffer_errno : ℕ

pub data Call : Type 0 where
  set_print open_skeleton load_program attach_probe new_buffer poll_buffer sleep_second : Call
  free_buffer destroy_skeleton : Call

-- `return -err`, with the calls made so far; `running` if the polls of the argument are used up.
pub data Result : Type 0 where
  exited : ℤ → List Call → Result
  running : List Call → Result

abbrev pub neg : ℤ → ℤ
neg (pos zero) = pos zero
neg (pos (suc n)) = negsuc n
neg (negsuc n) = pos (suc n)

abbrev pub is_error : ℤ → Bool
is_error (pos zero) = false
is_error (pos (suc n)) = true
is_error (negsuc n) = true

-- The label `cleanup`: both releases, whatever was made; freeing a null buffer does nothing.
unfoldable pub cleanup : ℤ → List Call → Result
cleanup err calls = exited (neg err) (calls ++ (free_buffer ∷ destroy_skeleton ∷ []))

unfoldable pub poll_loop : List Poll → List Call → Result
unfolding cleanup
poll_loop [] calls = running calls
poll_loop (events n ∷ ps) calls = poll_loop ps (calls ++ (poll_buffer ∷ sleep_second ∷ []))
poll_loop (interrupted ∷ ps) calls = poll_loop ps (calls ++ (poll_buffer ∷ sleep_second ∷ []))
poll_loop (failed n ∷ ps) calls = cleanup (negsuc n) (calls ++ poll_buffer ∷ [])

unfoldable pub main : Answers → List Poll → Result
unfolding cleanup poll_loop
main a polls =
    let opening = set_print ∷ open_skeleton ∷ [] in
    if a.opened
    then (let loading = opening ++ load_program ∷ [] in
        if is_error a.load_err
        then cleanup a.load_err loading
        else (let attaching = loading ++ attach_probe ∷ [] in
            if is_error a.attach_err
            then cleanup a.attach_err attaching
            else (let buffering = attaching ++ new_buffer ∷ [] in
                if a.buffer_made
                then poll_loop polls buffering
                else cleanup (neg (pos a.buffer_errno)) buffering)))
    else exited (pos 1) opening
