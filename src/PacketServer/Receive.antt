-- ===== src/PacketServer/Receive.antt =====
-- The receiving loop gathers the bytes it asks for, in order, however they arrive.
use prog_playground.Prelude.{
  ℕ, zero, suc, ◌+◌, ◌-◌, ◌≤◌, ◌<◌, ◌≡◌, ◌≢◌, ◌∙◌, ap, refl, arith, Option, none, some, List, [],
  ◌∷◌, ◌++◌, length, take, drop, Option-cases, inl, inr,
}
use prog_playground.PacketServer.{Pieces, Socket, joined, recv_turns, recv_all}

module _ {ℓ} {A : Type ℓ} where
  pub length-take-le : (n : ℕ) (xs : List A) → length (take n xs) ≤ n
  length-take-le zero xs = omega arith
  length-take-le (suc n) [] = omega arith
  length-take-le (suc n) (x ∷ xs) = omega (arith, length-take-le n xs)

  pub length-drop : (n : ℕ) (xs : List A) → length (drop n xs) ≡ length xs - n
  length-drop zero xs = omega arith
  length-drop (suc n) [] = omega arith
  length-drop (suc n) (x ∷ xs) = omega (arith, length-drop n xs)

  take_nil : (n : ℕ) → take {A = A} n [] ≡ []
  take_nil zero = refl
  take_nil (suc n) = refl

  -- A first part of a first part and what the second one still has.
  take-rest :
      (n k : ℕ) (xs : List A)
      → take k (take n xs)
          ++ take (n - length (take k (take n xs))) (drop (length (take k (take n xs))) xs)
        ≡ take n xs
  take-rest n zero xs = ap (λ k. take k xs) (omega arith)
  take-rest zero (suc k) xs = refl
  take-rest (suc n) (suc k) [] = take_nil (suc n - 0)
  take-rest (suc n) (suc k) (x ∷ xs) =
      ap (λ m. x ∷ (take k (take n xs) ++ take m (drop (length (take k (take n xs))) xs)))
        (omega arith)
      ∙ ap (◌∷◌ x) (take-rest n k xs)

  drop_nil : (n : ℕ) → drop {A = A} n [] ≡ []
  drop_nil zero = refl
  drop_nil (suc n) = refl

  pub length-take-below : (n : ℕ) (xs : List A) → length (take n xs) ≤ length xs
  length-take-below zero xs = omega arith
  length-take-below (suc n) [] = omega arith
  length-take-below (suc n) (x ∷ xs) = omega (arith, length-take-below n xs)

  drop-drop : (n k : ℕ) (xs : List A) → k ≤ n → drop (n - k) (drop k xs) ≡ drop n xs
  drop-drop n zero xs h = ap (λ m. drop m xs) (omega arith)
  drop-drop zero (suc k) xs h = absurd (omega arith)
  drop-drop (suc n) (suc k) [] h = drop_nil (suc n - suc k)
  drop-drop (suc n) (suc k) (x ∷ xs) h =
      ap (λ m. drop m (drop k xs)) (omega arith) ∙ drop-drop n k xs (omega arith)

-- With no failing call, the bytes asked for arrive, if the peer sends as many.
abbrev pub Arrives : List ℕ → (len : ℕ) → Option (List ℕ) × Socket → Type 0
Arrives pending len (none, s) = length pending < len
Arrives pending len (some bs, s) =
    (len ≤ length pending) × (bs ≡ take len pending) × (s.pending ≡ drop len pending)

joined-Arrives :
    (most len b : ℕ) (bs : List ℕ) (r : Option (List ℕ) × Socket)
    → Arrives
        (drop (length (take most (take len bs))) bs)
        (len - length (take most (take len bs)))
        r
    → Arrives (b ∷ bs) (suc len) (joined (b ∷ take most (take len bs)) r)
joined-Arrives most len b bs (none, s) h =
    omega (arith, length-drop (length (take most (take len bs))) bs, h)
joined-Arrives most len b bs (some rest, s) (enough, same, left) =
    let n = length (take most (take len bs)) in
    let asked : n ≤ len =
      omega (arith, length-take-below most (take len bs), length-take-le len bs) in
    let there : n ≤ length bs =
      omega (arith, length-take-below most (take len bs), length-take-below len bs) in
    (
      omega (arith, enough, asked, there, length-drop n bs),
      ap (◌∷◌ b) (ap (◌++◌ (take most (take len bs))) same ∙ take-rest len most bs),
      left ∙ drop-drop len n bs asked,
    )

recv_turns-Arrives :
    (pieces : Pieces) (fuel len calls : ℕ) (pending : List ℕ)
    → ((k : ℕ) → pieces k ≢ none)
    → len ≤ fuel
    → Arrives pending len (recv_turns pieces fuel len calls pending)
unfolding recv_turns
recv_turns-Arrives pieces fuel zero calls pending sound h = (omega arith, refl, refl)
recv_turns-Arrives pieces zero (suc len) calls pending sound h = absurd (omega arith)
recv_turns-Arrives pieces (suc fuel) (suc len) calls [] sound h = omega arith
recv_turns-Arrives pieces (suc fuel) (suc len) calls (b ∷ bs) sound h =
    elim (Option-cases (pieces calls)) [
      | inl failing ↦ absurd (sound calls failing)
      | inr (most, ready) ↦
          let n = length (take most (take len bs)) in
          rw (ready, recv_turns)
            (joined-Arrives most len b bs (recv_turns pieces fuel (len - n) (calls + 1) (drop n bs))
              (recv_turns-Arrives pieces fuel (len - n) (calls + 1) (drop n bs) sound
                (omega arith)))
    ]

-- If no call of `recv` fails, the loop returns the first bytes that the peer sends, as many as it waits
-- for, and leaves the others; if there are fewer it fails.
pub recv_all-Arrives :
    (pieces : Pieces) (s : Socket) (len : ℕ)
    → ((k : ℕ) → pieces k ≢ none)
    → Arrives s.pending len (recv_all pieces s len)
unfolding recv_all
recv_all-Arrives pieces s len sound =
    recv_turns-Arrives pieces len len s.calls s.pending sound (omega arith)
