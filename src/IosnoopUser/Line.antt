-- ===== src/IosnoopUser/Line.antt =====
-- One line of the pipe, the loop over the lines, and `main`.
use prog_playground.Prelude.{
  ℕ, ◌-◌, Bool, true, false, not, Option, none, some, List, [], ◌∷◌, ◌++◌, length, replicate, codes,
  bit_and, ◌==◌, if◌then◌else◌,
}
use prog_playground.IosnoopUser.Cstring.{upto, strchr, strrchr, strtok, strtol_16}

abbrev pub Text : Type 0
Text = List ℕ

-- The pointers that a line is printed from.
pub record Row : Type 0 where
  pub time_s : Text
  pub type_s : Text
  pub flags_s : Option Text
  pub bytes_s : Option Text
  pub lat_us_s : Option Text

-- `strcmp(bytes_s, "0") == 0`, for a pointer that is not null.
abbrev pub is_zero_text : Option Text → Bool
is_zero_text none = false
is_zero_text (some []) = false
is_zero_text (some (c ∷ [])) = c == b'0'
is_zero_text (some (c ∷ d ∷ cs)) = false

-- From `strchr` on: `line` as it is cut by then, and the text that `strtok` would go on with.
unfoldable pub read_time :
    (line rest : Text) → (type_s : Text) (flags_s bytes_s lat_us_s : Option Text) → Option Row
read_time line rest type_s flags_s bytes_s lat_us_s =
    let start : Text = elim (strchr line b']') [ none ↦ rest | some ptr ↦ ptr ] in
    let (bracket, rest1) = strtok start b' ' in
    let (irq_s, rest2) = strtok rest1 b' ' in
    let (time_s, rest3) = strtok rest2 b' ' in
    elim time_s [
      | none ↦ none
      | some t ↦ some (record {
        time_s = upto b':' t;
        type_s = type_s;
        flags_s = flags_s;
        bytes_s = bytes_s;
        lat_us_s = lat_us_s;
      })
    ]

-- `REQ_WRITE` is a constant of the kernel's headers.
module _ (req_write : ℕ) where
  unfoldable pub type_of : (flags : ℕ) → (bytes_s : Option Text) → Text
  type_of flags bytes_s =
      if not (bit_and flags req_write == 0)
      then codes "W"
      else if is_zero_text bytes_s
      then codes "M"
      else codes "R"

  -- From the last colon on; the first token from there ends the line for the calls that follow.
  unfoldable pub read_args : (before at : Text) → Option Row
  unfolding read_time type_of
  read_args before at =
      let (colon, rest0) = strtok at b' ' in
      let (bytes_s, rest1) = strtok rest0 b' ' in
      let (flags_s, rest2) = strtok rest1 b' ' in
      let (lat_us_s, rest3) = strtok rest2 b' ' in
      let flags : ℕ = elim flags_s [ none ↦ 0 | some f ↦ strtol_16 f ] in
      read_time (before ++ upto b' ' at) rest3 (type_of flags bytes_s) flags_s bytes_s lat_us_s

  unfoldable pub read_line : Text → Option Row
  unfolding read_args
  read_line line = elim (strrchr (upto b'\n' line) b':') [
    | none ↦ none
    | some (before, at) ↦ read_args before at
  ]

-- `%-18s` and `%8s`, and what they print for a null pointer.
abbrev pub pad_right : ℕ → Text → Text
pad_right n s = s ++ replicate (n - length s) b' '

abbrev pub pad_left : ℕ → Text → Text
pad_left n s = replicate (n - length s) b' ' ++ s

abbrev pub shown : Option Text → Text
shown none = codes "(null)"
shown (some s) = s

unfoldable pub columns : (verbose : Bool) → (time type flags bytes lat : Text) → Text
columns verbose time type flags bytes lat =
    pad_right 18 time
    ++ (b' '
        ∷ (pad_right 2 type
            ++ (b' '
                ∷ ((if verbose then pad_right 9 flags ++ b' ' ∷ [] else [])
                    ++ (pad_right 7 bytes ++ (b' ' ∷ (pad_left 8 lat ++ b'\n' ∷ [])))))))

unfoldable pub print_header : (verbose : Bool) → Text
unfolding columns
print_header verbose =
    columns verbose (codes "TIME(s)") (codes "T") (codes "FLAGS") (codes "BYTES") (codes "LAT(us)")

unfoldable pub print_row : (verbose : Bool) → Row → Text
unfolding columns
print_row verbose r =
    columns verbose r.time_s r.type_s (shown r.flags_s) (shown r.bytes_s) (shown r.lat_us_s)

-- The loop over the lines that `fgets` gives.
unfoldable pub print_lines : (req_write : ℕ) (verbose : Bool) → List Text → Option (List Text)
unfolding read_line print_row
print_lines req_write verbose [] = some []
print_lines req_write verbose (line ∷ lines) = elim (read_line req_write line) [
  | none ↦ none
  | some r ↦ elim (print_lines req_write verbose lines) [
    | none ↦ none
    | some printed ↦ some (print_row verbose r ∷ printed)
  ]
]

-- `none` is a trace pipe that does not open.
unfoldable pub iosnoop_pipe :
    (req_write : ℕ) (verbose : Bool) → Option (List Text) → Option (List Text)
unfolding print_lines
iosnoop_pipe req_write verbose none = some []
iosnoop_pipe req_write verbose (some lines) = print_lines req_write verbose lines

unfoldable pub usage : List Text
usage =
    codes "USAGE: iosnoop [-hv]\n"
    ∷ codes "\t\t-h\t# help (this message)\n"
    ∷ codes "\t\t-v\t# verbose\n"
    ∷ []

-- The options as `getopt` gives them: `none` if one of them ends the program.
unfoldable pub read_options : (verbose : Bool) → List ℕ → Option Bool
read_options verbose [] = some verbose
read_options verbose (option ∷ options) = if option == b'v' then read_options true options else none

-- How `main` ends, with its status and what it has printed.
pub data Ended : Type 0 where
  exited : (status : ℕ) → List Text → Ended
  undefined : Ended

abbrev pub ended_with : List Text → Option (List Text) → Ended
ended_with header none = undefined
ended_with header (some printed) = exited 0 (header ++ printed)

-- `bpf_log_buf` is what the loader has written if it fails.
unfoldable pub main :
    (req_write : ℕ)
    → (options : List ℕ) → (load_failed : Bool) (bpf_log_buf : Text) → Option (List Text)
    → Ended
unfolding iosnoop_pipe usage read_options print_header
main req_write options load_failed bpf_log_buf trace_pipe = elim (read_options false options) [
  | none ↦ exited 1 usage
  | some verbose ↦
      if load_failed
      then exited 1 ((bpf_log_buf ++ b'\n' ∷ []) ∷ [])
      else ended_with (print_header verbose ∷ []) (iosnoop_pipe req_write verbose trace_pipe)
]
