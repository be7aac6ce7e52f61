-- ===== src/IoServer/Sending.antt =====
-- The loop of `send` passes the bytes on in order.
use prog_playground.Prelude.{
  ℕ, zero, suc, ◌≡◌, ◌∙◌, ap, refl, List, [], ◌∷◌, ◌++◌, take, drop, length, ◌-◌, arith,
}
use mathlib.Core.List.{append_assoc}
use prog_playground.PacketServer.Receive.{length-drop}
use prog_playground.IoServer.{Text, Sent, took, send_again, send_failed, send_loop}

abbrev pub joined : List Text → Text
joined [] = []
joined (t ∷ ts) = t ++ joined ts

-- No answer is a failure, and together they take as many bytes.
abbrev pub Takes : List Sent → ℕ → Type 0
Takes [] n = n ≡ 0
Takes (took k ∷ answers) n = Takes answers (n - k)
Takes (send_again ∷ answers) n = Takes answers n
Takes (send_failed ∷ answers) n = ⊥

take-drop : (n : ℕ) (bs : Text) → take n bs ++ drop n bs ≡ bs
take-drop zero bs = refl
take-drop (suc n) [] = refl
take-drop (suc n) (b ∷ bs) = ap (◌∷◌ b) (take-drop n bs)

joined_all :
    (answers : List Sent) (bs : Text)
    → joined (send_loop answers bs).0 ++ (send_loop answers bs).1 ≡ bs
unfolding send_loop
joined_all answers [] = refl
joined_all [] (b ∷ bs) = refl
joined_all (took n ∷ answers) (b ∷ bs) =
    append_assoc (take n (b ∷ bs)) (joined (send_loop answers (drop n (b ∷ bs))).0)
      (send_loop answers (drop n (b ∷ bs))).1
    ∙ ap (◌++◌ (take n (b ∷ bs))) (joined_all answers (drop n (b ∷ bs)))
    ∙ take-drop n (b ∷ bs)
joined_all (send_again ∷ answers) (b ∷ bs) = joined_all answers (b ∷ bs)
joined_all (send_failed ∷ answers) (b ∷ bs) = refl

nothing_left :
    (answers : List Sent) (bs : Text) → Takes answers (length bs) → (send_loop answers bs).1 ≡ []
unfolding send_loop
nothing_left answers [] h = refl
nothing_left [] (b ∷ bs) h = absurd (omega (arith, h))
nothing_left (took n ∷ answers) (b ∷ bs) h =
    nothing_left answers (drop n (b ∷ bs)) (rw (length-drop n (b ∷ bs)) h)
nothing_left (send_again ∷ answers) (b ∷ bs) h = nothing_left answers (b ∷ bs) h
nothing_left (send_failed ∷ answers) (b ∷ bs) h = absurd h

-- The pieces that were taken and the bytes that are left are the bytes to send, and none is left if
-- the answers take as many.
pub send_loop-joined :
    (answers : List Sent) (bs : Text)
    → (joined (send_loop answers bs).0 ++ (send_loop answers bs).1 ≡ bs)
      × (Takes answers (length bs) → (send_loop answers bs).1 ≡ [])
send_loop-joined answers bs = (joined_all answers bs, nothing_left answers bs)
