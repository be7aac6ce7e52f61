-- ===== src/IosnoopUser/Cstring.antt =====
-- The functions of string.h and stdlib.h that the reader calls, on texts without a NUL.
use prog_playground.Prelude.{
  ℕ, ◌+◌, ◌-◌, ◌*◌, ◌%◌, ◌^◌, ◌≡◌, ◌≢◌, refl, ap, arith, Bool, ◌&&◌, ◌||◌, Option, none, some, List,
  [], ◌∷◌, ◌++◌, ltb, leb, ◌==◌, if◌then◌else◌,
}

-- The bytes before the first `c`, and those behind it.
unfoldable pub upto : ℕ → List ℕ → List ℕ
upto c [] = []
upto c (x ∷ xs) = if x == c then [] else x ∷ upto c xs

unfoldable pub behind : ℕ → List ℕ → List ℕ
behind c [] = []
behind c (x ∷ xs) = if x == c then xs else behind c xs

-- The text from the first `c` on.
unfoldable pub strchr : List ℕ → ℕ → Option (List ℕ)
strchr [] c = none
strchr (x ∷ xs) c = if x == c then some (x ∷ xs) else strchr xs c

-- The text before the last `c` and the text from there on.
unfoldable pub strrchr : List ℕ → ℕ → Option (List ℕ × List ℕ)
strrchr [] c = none
strrchr (x ∷ xs) c = elim (strrchr xs c) [
  | some (before, at) ↦ some (x ∷ before, at)
  | none ↦ if x == c then some ([], x ∷ xs) else none
]

unfoldable pub skip : ℕ → List ℕ → List ℕ
skip c [] = []
skip c (x ∷ xs) = if x == c then skip c xs else x ∷ xs

-- The token at the start of a text, and the text that the next call goes on with.
unfoldable pub first_token : ℕ → List ℕ → Option (List ℕ) × List ℕ
unfolding upto behind
first_token c [] = (none, [])
first_token c (x ∷ xs) = (some (upto c (x ∷ xs)), behind c (x ∷ xs))

-- `strtok` with one delimiter.
unfoldable pub strtok : List ℕ → ℕ → Option (List ℕ) × List ℕ
unfolding skip first_token
strtok s c = first_token c (skip c s)

unfoldable pub hex_digit : ℕ → Option ℕ
hex_digit c =
    if leb b'0' c && leb c b'9'
    then some (c - b'0')
    else if leb b'a' c && leb c b'f'
    then some (c - b'a' + 10)
    else if leb b'A' c && leb c b'F'
    then some (c - b'A' + 10)
    else none

-- The digits up to the first byte that is none.
unfoldable pub hex_value : (value : ℕ) → List ℕ → ℕ
unfolding hex_digit
hex_value value [] = value
hex_value value (c ∷ cs) = elim (hex_digit c) [
  | none ↦ value
  | some d ↦ hex_value (value * 16 + d) cs
]

unfoldable pub is_x : ℕ → Bool
is_x c = c == b'x' || c == b'X'

-- The prefix `0x` may stand before the digits.
unfoldable pub unprefixed : List ℕ → ℕ
unfolding hex_value is_x
unprefixed [] = 0
unprefixed (a ∷ []) = hex_value 0 (a ∷ [])
unprefixed (a ∷ b ∷ cs) = if a == b'0' && is_x b then hex_value 0 cs else hex_value 0 (a ∷ b ∷ cs)

abbrev pub min : ℕ → ℕ → ℕ
min a b = if ltb a b then a else b

-- `strtol` with the base 16, as the `unsigned long` that its result becomes: out of range it is the
-- nearest `long`.
unfoldable pub signed_value : List ℕ → ℕ
unfolding unprefixed
signed_value [] = 0
signed_value (c ∷ cs) =
    if c == b'-'
    then (2 ^ 64 - min (unprefixed cs) (2 ^ 63)) % 2 ^ 64
    else if c == b'+'
    then min (unprefixed cs) (2 ^ 63 - 1)
    else min (unprefixed (c ∷ cs)) (2 ^ 63 - 1)

abbrev pub is_space : ℕ → Bool
is_space c = c == b' ' || (leb 9 c && leb c 13)

unfoldable pub skip_space : List ℕ → List ℕ
skip_space [] = []
skip_space (c ∷ cs) = if is_space c then skip_space cs else c ∷ cs

unfoldable pub strtol_16 : List ℕ → ℕ
unfolding skip_space signed_value
strtol_16 s = signed_value (skip_space s)

-- A text without a byte.
abbrev pub Lacks : ℕ → List ℕ → Type 0
Lacks c [] = Unit
Lacks c (x ∷ xs) = (x ≢ c) × Lacks c xs

pub Lacks-append : (c : ℕ) (xs ys : List ℕ) → Lacks c xs → Lacks c ys → Lacks c (xs ++ ys)
Lacks-append c [] ys h k = k
Lacks-append c (x ∷ xs) ys h k = (h.0, Lacks-append c xs ys h.1 k)

pub upto-append : (c : ℕ) (xs ys : List ℕ) → Lacks c xs → upto c (xs ++ c ∷ ys) ≡ xs
unfolding upto
upto-append c [] ys h = ground arith
upto-append c (x ∷ xs) ys h = ground (arith, upto-append c xs ys)

pub upto_all : (c : ℕ) (xs : List ℕ) → Lacks c xs → upto c xs ≡ xs
unfolding upto
upto_all c [] h = refl
upto_all c (x ∷ xs) h = ground (arith, upto_all c xs)

pub behind-append : (c : ℕ) (xs ys : List ℕ) → Lacks c xs → behind c (xs ++ c ∷ ys) ≡ ys
unfolding behind
behind-append c [] ys h = ground arith
behind-append c (x ∷ xs) ys h = ground (arith, behind-append c xs ys)

pub behind_none : (c : ℕ) (xs : List ℕ) → Lacks c xs → behind c xs ≡ []
unfolding behind
behind_none c [] h = refl
behind_none c (x ∷ xs) h = ground (arith, behind_none c xs)

pub strchr-append : (c : ℕ) (xs ys : List ℕ) → Lacks c xs → strchr (xs ++ c ∷ ys) c ≡ some (c ∷ ys)
unfolding strchr
strchr-append c [] ys h = ground arith
strchr-append c (x ∷ xs) ys h = ground (arith, strchr-append c xs ys)

strrchr-none : (c : ℕ) (ys : List ℕ) → Lacks c ys → strrchr ys c ≡ none
unfolding strrchr
strrchr-none c [] h = refl
strrchr-none c (y ∷ ys) h = rw (strrchr-none c ys h.1) (ground arith)

pub strrchr-append :
    (c : ℕ) (xs ys : List ℕ) → Lacks c ys → strrchr (xs ++ c ∷ ys) c ≡ some (xs, c ∷ ys)
unfolding strrchr
strrchr-append c [] ys h = rw (strrchr-none c ys h) (ground arith)
strrchr-append c (x ∷ xs) ys h = rw (strrchr-append c xs ys h) refl

-- A token that does not start with the delimiter, with and without text behind it.
pub strtok-append :
    (c x : ℕ) (xs ys : List ℕ)
    → Lacks c (x ∷ xs)
    → strtok ((x ∷ xs) ++ c ∷ ys) c ≡ (some (x ∷ xs), ys)
unfolding strtok
strtok-append c x xs ys h = ground (arith, upto-append c xs ys, behind-append c xs ys)

pub strtok_last :
    (c x : ℕ) (xs : List ℕ) → Lacks c (x ∷ xs) → strtok (x ∷ xs) c ≡ (some (x ∷ xs), [])
unfolding strtok
strtok_last c x xs h = ground (arith, upto_all c xs, behind_none c xs)

pub strtok_token :
    (c : ℕ) (xs ys : List ℕ) → xs ≢ [] → Lacks c xs → strtok (xs ++ c ∷ ys) c ≡ (some xs, ys)
strtok_token c [] ys n h = absurd (n refl)
strtok_token c (x ∷ xs) ys n h = strtok-append c x xs ys h

pub strtok_final : (c : ℕ) (xs : List ℕ) → xs ≢ [] → Lacks c xs → strtok xs c ≡ (some xs, [])
strtok_final c [] n h = absurd (n refl)
strtok_final c (x ∷ xs) n h = strtok_last c x xs h

upto-upto :
    (c d : ℕ) (xs ys : List ℕ) → Lacks c xs → Lacks d xs → upto d (upto c (xs ++ d ∷ ys)) ≡ xs
unfolding upto
upto-upto c d [] ys h k = ground arith
upto-upto c d (x ∷ xs) ys h k = ground (arith, upto-upto c d xs ys)

first_token-cons :
    (c x : ℕ) (xs : List ℕ)
    → x ≢ c
    → strtok (x ∷ xs) c ≡ (some (upto c (x ∷ xs)), behind c (x ∷ xs))
unfolding strtok
first_token-cons c x xs h = ground arith

-- A token that is cut at another byte.
pub strtok_cut :
    (c d : ℕ) (xs ys : List ℕ)
    → xs ≢ []
    → Lacks c xs
    → Lacks d xs
    → (t : List ℕ) × ((strtok (xs ++ d ∷ ys) c).0 ≡ some t) × (upto d t ≡ xs)
strtok_cut c d [] ys n h k = absurd (n refl)
strtok_cut c d (x ∷ xs) ys n h k = (
  upto c (x ∷ (xs ++ d ∷ ys)),
  ap (λ r. r.0) (first_token-cons c x (xs ++ d ∷ ys) h.0),
  upto-upto c d (x ∷ xs) ys h k,
)
