-- ===== src/IosnoopUser/Printed.antt =====
-- The line that bpf_prog2 of iosnoop_kern.c prints, and where the kernel puts it in the pipe.
use prog_playground.Prelude.{
  ℕ, zero, suc, ◌+◌, ◌-◌, ◌*◌, ◌/◌, ◌%◌, ◌^◌, ◌≤◌, ◌<◌, ◌≡◌, ◌≢◌, ◌⊎◌, inl, inr, ◌∙◌, refl, ap,
  arith, some, List, [], ◌∷◌, ◌++◌, ltb, if◌then◌else◌, decimal, Bool-cases, ltb→lt, not_ltb→le,
}
use native.Mathlib.Nat.{pow-suc}
use prog_playground.Probes.Iosnoop.{Trace}
use prog_playground.IosnoopUser.Cstring.{
  hex_digit, hex_value, Lacks, strtol_16, signed_value, skip_space, unprefixed,
}

abbrev pub hex_char : ℕ → ℕ
hex_char d = if ltb d 10 then d + b'0' else d - 10 + b'a'

-- `%x` of a number with at most `fuel` digits.
unfoldable pub hexadecimal : (fuel n : ℕ) → List ℕ
hexadecimal zero n = []
hexadecimal (suc fuel) n =
    let front = hexadecimal fuel (n / 16) in
    (if ltb n 16 then [] else front) ++ hex_char (n % 16) ∷ []

-- `%d` of the low 32 bits of a register.
unfoldable pub print_int : ℕ → List ℕ
unfolding decimal
print_int v =
    let w = v % 2 ^ 32 in if ltb w (2 ^ 31) then decimal 10 w else b'-' ∷ decimal 10 (2 ^ 32 - w)

-- `"%d %x %d"`, and with its newline.
unfoldable pub args : Trace → List ℕ
unfolding print_int hexadecimal
args t =
    print_int t.data_len
    ++ (b' ' ∷ (hexadecimal 8 (t.cmd_flags % 2 ^ 32) ++ (b' ' ∷ print_int t.lat_us)))

unfoldable pub message : Trace → List ℕ
unfolding args
message t = args t ++ b'\n' ∷ []

-- A line of the pipe: the task and the processor, the flags of the interrupts, the time, what the
-- kernel puts between the time and the message (which depends on its version), and the message.
pub record Place : Type 0 where
  pub task : List ℕ
  pub irq : List ℕ
  pub time : List ℕ
  pub marker : List ℕ

unfoldable pub before : Place → List ℕ
before p = p.task ++ (b']' ∷ b' ' ∷ (p.irq ++ (b' ' ∷ (p.time ++ b':' ∷ p.marker))))

unfoldable pub pipe_line : Place → List ℕ → List ℕ
unfolding before
pipe_line p text = before p ++ (b':' ∷ b' ' ∷ text)

-- Digits of either base.
abbrev pub IsDigit : ℕ → Type 0
IsDigit c = ((b'0' ≤ c) × (c ≤ b'9')) ⊎ ((b'a' ≤ c) × (c ≤ b'f'))

abbrev pub AllDigits : List ℕ → Type 0
AllDigits [] = Unit
AllDigits (c ∷ cs) = IsDigit c × AllDigits cs

AllDigits-snoc : (xs : List ℕ) (c : ℕ) → AllDigits xs → IsDigit c → AllDigits (xs ++ c ∷ [])
AllDigits-snoc [] c h d = (d, tt)
AllDigits-snoc (x ∷ xs) c h d = (h.0, AllDigits-snoc xs c h.1 d)

pub AllDigits-Lacks :
    (c : ℕ) (xs : List ℕ) → (c < b'0') ⊎ ((b'9' < c) × (c < b'a')) → AllDigits xs → Lacks c xs
AllDigits-Lacks c [] out h = tt
AllDigits-Lacks c (x ∷ xs) out h = (λ e. ground arith, AllDigits-Lacks c xs out h.1)

IsDigit-char : (n : ℕ) → IsDigit (n % 10 + b'0')
IsDigit-char n = inl (omega arith, omega arith)

hex_char-IsDigit : (n : ℕ) → IsDigit (hex_char (n % 16))
hex_char-IsDigit n = elim (Bool-cases (ltb (n % 16) 10)) [
  | inl small ↦ rw small (inl (omega arith, omega (arith, ltb→lt (n % 16) 10 small)))
  | inr large ↦ rw large (inr (omega arith, omega (arith, not_ltb→le (n % 16) 10 large)))
]

pub decimal-AllDigits : (fuel n : ℕ) → AllDigits (decimal fuel n)
unfolding decimal
decimal-AllDigits zero n = tt
decimal-AllDigits (suc fuel) n = elim (Bool-cases (ltb n 10)) [
  | inl small ↦ rw (small, decimal) (IsDigit-char n, tt)
  | inr large ↦
      rw (large, decimal)
        (AllDigits-snoc (decimal fuel (n / 10)) (n % 10 + b'0') (decimal-AllDigits fuel (n / 10))
          (IsDigit-char n))
]

pub hexadecimal-AllDigits : (fuel n : ℕ) → AllDigits (hexadecimal fuel n)
unfolding hexadecimal
hexadecimal-AllDigits zero n = tt
hexadecimal-AllDigits (suc fuel) n = elim (Bool-cases (ltb n 16)) [
  | inl small ↦ rw (small, hexadecimal) (hex_char-IsDigit n, tt)
  | inr large ↦
      rw (large, hexadecimal)
        (AllDigits-snoc (hexadecimal fuel (n / 16)) (hex_char (n % 16))
          (hexadecimal-AllDigits fuel (n / 16)) (hex_char-IsDigit n))
]

snoc_ne_nil : (xs : List ℕ) (c : ℕ) → xs ++ c ∷ [] ≢ []
snoc_ne_nil [] c e = cc
snoc_ne_nil (x ∷ xs) c e = cc

pub decimal-ne-nil : (fuel n : ℕ) → decimal (suc fuel) n ≢ []
unfolding decimal
decimal-ne-nil fuel n = snoc_ne_nil (if ltb n 10 then [] else decimal fuel (n / 10)) (n % 10 + b'0')

pub hexadecimal-ne-nil : (fuel n : ℕ) → hexadecimal (suc fuel) n ≢ []
unfolding hexadecimal
hexadecimal-ne-nil fuel n =
    snoc_ne_nil (if ltb n 16 then [] else hexadecimal fuel (n / 16)) (hex_char (n % 16))

hex_digit-hex_char : (d : ℕ) → d < 16 → hex_digit (hex_char d) ≡ some d
unfolding hex_digit
hex_digit-hex_char d h = ground arith

digit_value : (c : ℕ) → IsDigit c → (d : ℕ) × (hex_digit c ≡ some d)
unfolding hex_digit
digit_value c (inl h) = (c - b'0', ground arith)
digit_value c (inr h) = (c - b'a' + 10, ground arith)

hex_value-snoc :
    (v : ℕ) (xs : List ℕ) (d : ℕ)
    → AllDigits xs
    → d < 16
    → hex_value v (xs ++ hex_char d ∷ []) ≡ hex_value v xs * 16 + d
unfolding hex_value
hex_value-snoc v [] d h b = rw (hex_digit-hex_char d b, hex_value) refl
hex_value-snoc v (x ∷ xs) d h b =
    let (e, same) = digit_value x h.0 in
    rw (same, hex_value) (hex_value-snoc (v * 16 + e) xs d h.1 b)

hex_value_one : (v d : ℕ) → d < 16 → hex_value v (hex_char d ∷ []) ≡ v * 16 + d
unfolding hex_value
hex_value_one v d h = rw (hex_digit-hex_char d h, hex_value) refl

hex_value-hexadecimal : (fuel n : ℕ) → n < 16 ^ fuel → hex_value 0 (hexadecimal fuel n) ≡ n
unfolding hexadecimal
hex_value-hexadecimal zero n h = unfold hex_value in (omega arith)
hex_value-hexadecimal (suc fuel) n h = elim (Bool-cases (ltb n 16)) [
  | inl small ↦
      rw (small, hexadecimal)
        (omega (arith, hex_value_one 0 (n % 16) (omega arith), ltb→lt n 16 small))
  | inr large ↦
      rw (large, hexadecimal)
        (omega (
          arith,
          hex_value-snoc 0 (hexadecimal fuel (n / 16)) (n % 16)
              (hexadecimal-AllDigits fuel (n / 16)) (omega arith),
          hex_value-hexadecimal fuel (n / 16) (omega (arith, pow-suc 16 fuel)),
        ))
]

-- A text of digits has neither a sign nor a prefix.
unprefixed-digits : (xs : List ℕ) → AllDigits xs → unprefixed xs ≡ hex_value 0 xs
unfolding unprefixed
unprefixed-digits [] h = unfold hex_value in refl
unprefixed-digits (a ∷ []) h = refl
unprefixed-digits (a ∷ b ∷ cs) (g, (inl d, h)) = ground arith
unprefixed-digits (a ∷ b ∷ cs) (g, (inr d, h)) = ground arith

signed_value-digits :
    (xs : List ℕ) → AllDigits xs → unprefixed xs < 2 ^ 63 → signed_value xs ≡ unprefixed xs
unfolding signed_value
signed_value-digits [] h s = unfold unprefixed in refl
signed_value-digits (c ∷ cs) (inl d, h) s = ground arith
signed_value-digits (c ∷ cs) (inr d, h) s = ground arith

skip_space-digits : (xs : List ℕ) → AllDigits xs → skip_space xs ≡ xs
unfolding skip_space
skip_space-digits [] h = refl
skip_space-digits (c ∷ cs) (inl d, h) = ground arith
skip_space-digits (c ∷ cs) (inr d, h) = ground arith

-- `strtol` reads what `%x` has printed.
pub strtol_16-hexadecimal : (n : ℕ) → n < 2 ^ 32 → strtol_16 (hexadecimal 8 n) ≡ n
unfolding strtol_16
strtol_16-hexadecimal n h =
    let digits = hexadecimal-AllDigits 8 n in
    let value : unprefixed (hexadecimal 8 n) ≡ n =
      unprefixed-digits (hexadecimal 8 n) digits ∙ hex_value-hexadecimal 8 n (omega arith) in
    ap signed_value (skip_space-digits (hexadecimal 8 n) digits)
    ∙ signed_value-digits (hexadecimal 8 n) digits (omega (arith, value))
    ∙ value

pub print_int-Lacks : (c v : ℕ) → (c < b'-') ⊎ ((b'9' < c) × (c < b'a')) → Lacks c (print_int v)
unfolding print_int
print_int-Lacks c v out = elim (Bool-cases (ltb (v % 2 ^ 32) (2 ^ 31))) [
  | inl positive ↦
      rw (positive, print_int)
        (AllDigits-Lacks c (decimal 10 (v % 2 ^ 32)) (below out)
          (decimal-AllDigits 10 (v % 2 ^ 32)))
  | inr negative ↦
      rw (negative, print_int)
        (
          λ e. ground arith,
          AllDigits-Lacks c (decimal 10 (2 ^ 32 - v % 2 ^ 32)) (below out)
              (decimal-AllDigits 10 (2 ^ 32 - v % 2 ^ 32)),
        )
]
  where
    below : (c < b'-') ⊎ ((b'9' < c) × (c < b'a')) → (c < b'0') ⊎ ((b'9' < c) × (c < b'a'))
    below (inl h) = inl (omega arith)
    below (inr h) = inr h

pub print_int-ne-nil : (v : ℕ) → print_int v ≢ []
unfolding print_int
print_int-ne-nil v = elim (Bool-cases (ltb (v % 2 ^ 32) (2 ^ 31))) [
  | inl positive ↦ rw (positive, print_int) (decimal-ne-nil 9 (v % 2 ^ 32))
  | inr negative ↦ rw (negative, print_int) (λ e. cc)
]
