-- ===== src/Histogram/Stars.antt =====
-- The bar of stars fits its buffer and has the length that the scale asks for.
use Prim.Native.Nat.{min}
use prog_playground.Prelude.{
  ℕ, zero, suc, ◌+◌, ◌-◌, ◌*◌, ◌/◌, ◌^◌, ◌≤◌, ◌<◌, ◌≡◌, arith, some, List, length, replicate,
  length-replicate, length-append, ap, [], ◌∷◌, ◌++◌,
}
use prog_playground.Histogram.{star, plus, star_loop, mark_overflow, stars}

star_loop_lem :
    (fuel scaled width i : ℕ)
    → width ≤ i + fuel
    → i ≤ min (scaled - 1) (width - 1)
    → star_loop fuel scaled width i ≡ min (scaled - 1) (width - 1)
unfolding star_loop
star_loop_lem zero scaled width i f h = omega arith
star_loop_lem (suc fuel) scaled width i f h =
    ground (arith, star_loop_lem fuel scaled width (i + 1))

-- For a value up to a positive maximum, whose product with the width is below 2 ^ 63, stars draws
-- as many stars as the scaled value less one, and at most one less than the width.
pub stars_lem :
    (val max width : ℕ)
    → 0 < max
    → val ≤ max
    → width * val < 2 ^ 63
    → stars val max width ≡ some (replicate (min (width * val / max - 1) (width - 1)) star)
unfolding stars
stars_lem val max width p le small = ground (arith, star_loop_lem width (width * val / max) width 0)

length-mark_overflow : (i : ℕ) (bar : List ℕ) → mark_overflow i ≡ some bar → length bar ≡ i
unfolding mark_overflow
length-mark_overflow zero bar h = cc
length-mark_overflow (suc i) bar h =
    let same : replicate i star ++ plus ∷ [] ≡ bar = cc in
    rw (← same)
      (omega (arith, length-append (replicate i star) (plus ∷ []), length-replicate i star))

-- Whatever bar stars draws leaves room for the final NUL in its buffer, if that has a byte.
pub stars_fits :
    (val max width : ℕ) (bar : List ℕ)
    → 0 < width
    → stars val max width ≡ some bar
    → length bar < width
unfolding stars
stars_fits val max width bar w h =
    let i = star_loop width (width * val / max) width 0 in
    let short : i < width =
      omega (arith, star_loop_lem width (width * val / max) width 0 (omega arith) (omega arith)) in
    ground (
      arith,
      length-mark_overflow i bar,
      length-replicate i star,
      λ (e : replicate i star ≡ bar). ap length e,
    )

div_at_least : (width val max : ℕ) → 0 < max → max < val → width ≤ width * val / max
div_at_least width val max p above = grind arith

-- A value above a positive maximum, whose product with the width is below 2 ^ 63, is drawn as a
-- full bar that ends in a plus sign, in a buffer of two bytes or more.
pub stars_above :
    (val max width : ℕ)
    → 0 < max
    → max < val
    → 1 < width
    → width * val < 2 ^ 63
    → stars val max width ≡ some (replicate (width - 2) star ++ plus ∷ [])
unfolding stars mark_overflow
stars_above val max width p above w small =
    let full : width ≤ width * val / max = div_at_least width val max p above in
    let i : star_loop width (width * val / max) width 0 ≡ suc (width - 2) =
      omega (arith, star_loop_lem width (width * val / max) width 0) in
    ground (arith, ap mark_overflow i)
