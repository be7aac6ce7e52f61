-- ===== src/IosnoopUser/Delivery.antt =====
-- From the probe in the kernel through the pipe to the printed row.
use prog_playground.Prelude.{
  ℕ, ◌%◌, ◌^◌, ◌<◌, ◌≡◌, ◌≢◌, ◌⊎◌, inl, inr, ◌∙◌, refl, ap, sym, arith, Option, some, [], ◌∷◌, ◌++◌,
}
use mathlib.Core.List.{append_assoc}
use prog_playground.Probes.Iosnoop.{Trace}
use prog_playground.IosnoopUser.Cstring.{
  upto, strrchr, strtok, Lacks, Lacks-append, upto-append, strchr-append, strrchr-append,
  strtok-append, strtok_token, strtok_final, strtok_cut, strtol_16,
}
use prog_playground.IosnoopUser.Line.{Text, Row, type_of, read_time, read_args, read_line}
use prog_playground.IosnoopUser.Printed.{
  Place, before, pipe_line, print_int, hexadecimal, args, message, AllDigits-Lacks,
  hexadecimal-AllDigits, hexadecimal-ne-nil, print_int-Lacks, print_int-ne-nil,
}

pub record IsPlace (p : Place) : Type 0 where
  pub task_line : Lacks b'\n' p.task
  pub task_bracket : Lacks b']' p.task
  pub irq_line : Lacks b'\n' p.irq
  pub irq_token : Lacks b' ' p.irq
  pub irq_some : p.irq ≢ []
  pub time_line : Lacks b'\n' p.time
  pub time_token : Lacks b' ' p.time
  pub time_colon : Lacks b':' p.time
  pub time_some : p.time ≢ []
  pub marker_line : Lacks b'\n' p.marker

-- What the tokens of a message are.
module _ (t : Trace) where
  len : Text
  len = print_int t.data_len

  flags : Text
  flags = hexadecimal 8 (t.cmd_flags % 2 ^ 32)

  lat : Text
  lat = print_int t.lat_us

  args-Lacks : (c : ℕ) → c ≢ b' ' → (c < b'-') ⊎ ((b'9' < c) × (c < b'a')) → Lacks c (args t)
  unfolding args
  args-Lacks c space out =
      Lacks-append c (print_int t.data_len) _ (print_int-Lacks c t.data_len out) (
        λ e. space (sym e),
        Lacks-append c (hexadecimal 8 (t.cmd_flags % 2 ^ 32)) _
            (AllDigits-Lacks c (hexadecimal 8 (t.cmd_flags % 2 ^ 32)) (below out)
              (hexadecimal-AllDigits 8 (t.cmd_flags % 2 ^ 32)))
            (λ e. space (sym e), print_int-Lacks c t.lat_us out),
      )
    where
      below : (c < b'-') ⊎ ((b'9' < c) × (c < b'a')) → (c < b'0') ⊎ ((b'9' < c) × (c < b'a'))
      below (inl h) = inl (omega arith)
      below (inr h) = inr h

  first_arg : strtok (args t) b' ' ≡ (
    some (print_int t.data_len),
    hexadecimal 8 (t.cmd_flags % 2 ^ 32) ++ (b' ' ∷ print_int t.lat_us),
  )
  unfolding args
  first_arg =
      strtok_token b' ' (print_int t.data_len)
        (hexadecimal 8 (t.cmd_flags % 2 ^ 32) ++ (b' ' ∷ print_int t.lat_us))
        (print_int-ne-nil t.data_len) (print_int-Lacks b' ' t.data_len (inl (omega arith)))

  second_arg :
      strtok (hexadecimal 8 (t.cmd_flags % 2 ^ 32) ++ (b' ' ∷ print_int t.lat_us)) b' '
      ≡ (some (hexadecimal 8 (t.cmd_flags % 2 ^ 32)), print_int t.lat_us)
  second_arg =
      strtok_token b' ' (hexadecimal 8 (t.cmd_flags % 2 ^ 32)) (print_int t.lat_us)
        (hexadecimal-ne-nil 7 (t.cmd_flags % 2 ^ 32))
        (AllDigits-Lacks b' ' (hexadecimal 8 (t.cmd_flags % 2 ^ 32)) (inl (omega arith))
          (hexadecimal-AllDigits 8 (t.cmd_flags % 2 ^ 32)))

  third_arg : strtok (print_int t.lat_us) b' ' ≡ (some (print_int t.lat_us), [])
  third_arg =
      strtok_final b' ' (print_int t.lat_us) (print_int-ne-nil t.lat_us)
        (print_int-Lacks b' ' t.lat_us (inl (omega arith)))

module _ (req_write : ℕ) (p : Place) (is_place : IsPlace p) where
  after_colon : Text
  after_colon = p.marker ++ b':' ∷ []

  after_irq : Text
  unfolding after_colon
  after_irq = p.time ++ b':' ∷ after_colon

  after_bracket : Text
  unfolding after_irq
  after_bracket = p.irq ++ b' ' ∷ after_irq

  cut_line : before p ++ b':' ∷ [] ≡ p.task ++ (b']' ∷ b' ' ∷ after_bracket)
  unfolding before after_bracket
  cut_line = simp append_assoc

  bracket_token : strtok (b']' ∷ b' ' ∷ after_bracket) b' ' ≡ (some (b']' ∷ []), after_bracket)
  bracket_token = strtok-append b' ' b']' [] after_bracket ((λ e. cc), tt)

  irq_token : strtok after_bracket b' ' ≡ (some p.irq, after_irq)
  unfolding after_bracket
  irq_token = strtok_token b' ' p.irq after_irq is_place.irq_some is_place.irq_token

  time_token : (t : Text) × ((strtok after_irq b' ').0 ≡ some t) × (upto b':' t ≡ p.time)
  unfolding after_irq
  time_token =
      strtok_cut b' ' b':' p.time after_colon is_place.time_some is_place.time_token
        is_place.time_colon

  abbrev pub row_of : (type_s : Text) (flags_s bytes_s lat_us_s : Option Text) → Row
  row_of type_s flags_s bytes_s lat_us_s = record {
    time_s = p.time;
    type_s = type_s;
    flags_s = flags_s;
    bytes_s = bytes_s;
    lat_us_s = lat_us_s;
  }

  -- The time is read from the line as the first token from the colon has cut it.
  read_time-before :
      (rest type_s : Text) (flags_s bytes_s lat_us_s : Option Text)
      → read_time (before p ++ b':' ∷ []) rest type_s flags_s bytes_s lat_us_s
        ≡ some (row_of type_s flags_s bytes_s lat_us_s)
  unfolding read_time
  read_time-before rest type_s flags_s bytes_s lat_us_s =
      let (t, token, cut) = time_token in
      rw
        (
          cut_line,
          strchr-append b']' p.task (b' ' ∷ after_bracket) is_place.task_bracket,
          bracket_token,
          irq_token,
          token,
          cut,
          read_time,
        )
        refl

  before-Lacks : Lacks b'\n' (before p)
  unfolding before
  before-Lacks = Lacks-append b'\n' p.task _ is_place.task_line (
    (λ e. cc),
    (
      (λ e. cc),
      Lacks-append b'\n' p.irq _ is_place.irq_line (
        (λ e. cc),
        Lacks-append b'\n' p.time _ is_place.time_line ((λ e. cc), is_place.marker_line),
      ),
    ),
  )

  -- The line without its newline.
  chomped : (t : Trace) → upto b'\n' (pipe_line p (message t)) ≡ before p ++ (b':' ∷ b' ' ∷ args t)
  unfolding pipe_line message
  chomped t =
      ap (upto b'\n') (sym (append_assoc (before p) (b':' ∷ b' ' ∷ args t) (b'\n' ∷ [])))
      ∙ upto-append b'\n' (before p ++ (b':' ∷ b' ' ∷ args t)) [] (
          Lacks-append b'\n' (before p) _ before-Lacks
            ((λ e. cc), ((λ e. cc), args-Lacks t b'\n' (λ e. cc) (inl (omega arith)))))

  colon_token : (t : Trace) → strtok (b':' ∷ b' ' ∷ args t) b' ' ≡ (some (b':' ∷ []), args t)
  colon_token t = strtok-append b' ' b':' [] (args t) ((λ e. cc), tt)

  colon_last :
      (t : Trace)
      → strrchr (before p ++ (b':' ∷ b' ' ∷ args t)) b':' ≡ some (before p, b':' ∷ b' ' ∷ args t)
  colon_last t =
      strrchr-append b':' (before p) (b' ' ∷ args t)
        ((λ e. cc), args-Lacks t b':' (λ e. cc) (inr (omega arith, omega arith)))

  read_args-message :
      (t : Trace)
      → read_args req_write (before p) (b':' ∷ b' ' ∷ args t)
        ≡ some (
            row_of
              (type_of req_write
                (strtol_16 (hexadecimal 8 (t.cmd_flags % 2 ^ 32)))
                (some (print_int t.data_len)))
              (some (hexadecimal 8 (t.cmd_flags % 2 ^ 32)))
              (some (print_int t.data_len))
              (some (print_int t.lat_us)))
  unfolding read_args
  read_args-message t =
      rw
        (
          colon_token t,
          first_arg t,
          second_arg t,
          third_arg t,
          upto-append b' ' (b':' ∷ []) (args t) ((λ e. cc), tt),
          read_args,
        )
        (read_time-before [] _ _ _ _)

  -- The colon of the message is the last one.
  pub read_line-pipe_line :
      (t : Trace)
      → read_line req_write (pipe_line p (message t))
        ≡ some (
            row_of
              (type_of req_write
                (strtol_16 (hexadecimal 8 (t.cmd_flags % 2 ^ 32)))
                (some (print_int t.data_len)))
              (some (hexadecimal 8 (t.cmd_flags % 2 ^ 32)))
              (some (print_int t.data_len))
              (some (print_int t.lat_us)))
  unfolding read_line
  read_line-pipe_line t = rw (chomped t, colon_last t, read_line) (read_args-message t)
