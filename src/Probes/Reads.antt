-- ===== src/Probes/Reads.antt =====
-- The histogram of vfsreadlat.c holds the latencies of the reads.
use prog_playground.Prelude.{
  ℕ, suc, ◌+◌, ◌-◌, ◌/◌, ◌%◌, ◌^◌, ◌≤◌, ◌<◌, ◌≡◌, ◌∙◌, ap, refl, inl, inr, none, some, List, [],
  ◌∷◌, map, arith, Option, Option-cases, nat_eq,
}
use prog_playground.BpfMap.{BpfMap}
use prog_playground.BpfArray.{BpfArray, increment, value_at}
use prog_playground.Probes.Iosnoop.{bpf_prog1, bpf_prog2}
use prog_playground.Probes.Pairing.{
  Event, started, completed, begun, starts, map_after, map_after-Follows, sub_u64_exact,
}
use prog_playground.Probes.Vfsreadlat.{log2l, key_of, do_entry, do_return}
use prog_playground.Probes.Dist.{occurrences, value_at-count}

pub data ReadEvent : Type 0 where
  entered returned : (pid_tgid time : ℕ) → ReadEvent

-- A read is to its thread what a request is to its address.
abbrev pub as_request : ReadEvent → Event
as_request (entered p t) = started (key_of p) t
as_request (returned p t) = completed (key_of p) t 0 0

abbrev pub with_latency : ℕ → Option ℕ → List ℕ → List ℕ
with_latency t none vs = vs
with_latency t (some ts) vs = (t - ts) / 1000 ∷ vs

-- The microseconds of the reads whose entry was seen; the newest event stands first.
abbrev pub latencies : List ReadEvent → List ℕ
latencies [] = []
latencies (entered p t ∷ older) = latencies older
latencies (returned p t ∷ older) =
    with_latency t (begun (key_of p) (map as_request older)) (latencies older)

abbrev pub AllUpTo : ℕ → List ReadEvent → Type 0
AllUpTo now [] = Unit
AllUpTo now (entered p t ∷ older) = (t ≤ now) × AllUpTo now older
AllUpTo now (returned p t ∷ older) = (t ≤ now) × AllUpTo now older

-- The clock does not run backwards, and its nanoseconds fit 64 bits.
abbrev pub IsTimed : List ReadEvent → Type 0
IsTimed [] = Unit
IsTimed (entered p t ∷ older) = (t < 2 ^ 64) × AllUpTo t older × IsTimed older
IsTimed (returned p t ∷ older) = (t < 2 ^ 64) × AllUpTo t older × IsTimed older

begun-AllUpTo :
    (now key ts : ℕ) (es : List ReadEvent)
    → AllUpTo now es
    → begun key (map as_request es) ≡ some ts
    → ts ≤ now
begun-AllUpTo now key ts [] u e = absurd (cc)
begun-AllUpTo now key ts (entered p t ∷ older) u e =
    ground (arith, begun-AllUpTo now key ts older u.1)
begun-AllUpTo now key ts (returned p t ∷ older) u e =
    ground (arith, begun-AllUpTo now key ts older u.1)

module _ (start : BpfMap ℕ ℕ) (dist : BpfArray 64) where
  open start use {Map, max_entries, keys, lookup}
  open dist use {Array}

  unfoldable pub state_after : List ReadEvent → Map → Array → Map × Array
  state_after [] m a = (m, a)
  state_after (entered p t ∷ older) m a =
      let (m', a') = state_after older m a in (do_entry start dist p t m', a')
  state_after (returned p t ∷ older) m a =
      let (m', a') = state_after older m a in do_return start dist p t m' a'

  same_map :
      (p t : ℕ) (m : Map) (a : Array)
      → (do_return start dist p t m a).0 ≡ (bpf_prog2 start (key_of p) t 0 0 m).0
  unfolding do_return bpf_prog2
  same_map p t m a = elim (Option-cases (lookup m (key_of p))) [
    | inl absent ↦ rw (absent, do_return, bpf_prog2) refl
    | inr (v, old) ↦ rw (old, do_return, bpf_prog2) refl
  ]

  map_of-state_after :
      (es : List ReadEvent) (m : Map) (a : Array)
      → (state_after es m a).0 ≡ map_after start (map as_request es) m
  unfolding state_after map_after do_entry bpf_prog1
  map_of-state_after [] m a = refl
  map_of-state_after (entered p t ∷ older) m a = rw (map_of-state_after older m a) refl
  map_of-state_after (returned p t ∷ older) m a =
      same_map p t (state_after older m a).0 (state_after older m a).1
      ∙ ap (λ x. (bpf_prog2 start (key_of p) t 0 0 x).0) (map_of-state_after older m a)

  -- What a return adds to the array, if its entry was seen at `o`.
  abbrev added : ℕ → Option ℕ → Array → Array
  added t none a = a
  added t (some ts) a = increment dist (log2l ((t - ts) / 1000)) a

  array_of-do_return :
      (p t : ℕ) (o : Option ℕ) (m : Map) (a : Array)
      → lookup m (key_of p) ≡ o
      → t < 2 ^ 64
      → ((ts : ℕ) → o ≡ some ts → ts ≤ t)
      → (do_return start dist p t m a).1 ≡ added t o a
  unfolding do_return
  array_of-do_return p t none m a e w h = rw (e, do_return) refl
  array_of-do_return p t (some ts) m a e w h =
      rw (e, do_return)
        (ap (λ d. increment dist (log2l (d / 1000)) a) (sub_u64_exact start t ts (h ts refl) w))

  value_at-added :
      (t : ℕ) (o : Option ℕ) (j base : ℕ) (vs : List ℕ) (a : Array)
      → t < 2 ^ 64
      → j < 63
      → value_at dist a (suc j) ≡ (base + occurrences (suc j) vs) % 2 ^ 64
      → value_at dist (added t o a) (suc j)
        ≡ (base + occurrences (suc j) (with_latency t o vs)) % 2 ^ 64
  value_at-added t none j base vs a w k e = e
  value_at-added t (some ts) j base vs a w k e =
      value_at-count dist ((t - ts) / 1000) j a (omega arith) k ∙ ground (arith, e)

  -- Tracing starts with an empty map and has seen no more entries into a read than the map holds,
  -- on a clock that does not run backwards and fits 64 bits: then each bucket from 1 to 63 of the
  -- array of vfsreadlat.c has grown, modulo 2 ^ 64, by the number of returns whose entry was seen
  -- and whose microseconds lie in the range of that bucket, if it held a 64-bit value.
  pub state_after_lem :
      (es : List ReadEvent) (m : Map) (a : Array) (j : ℕ)
      → keys m ≡ []
      → starts (map as_request es) ≤ max_entries
      → IsTimed es
      → j < 63
      → value_at dist a (suc j) < 2 ^ 64
      → value_at dist (state_after es m a).1 (suc j)
        ≡ (value_at dist a (suc j) + occurrences (suc j) (latencies es)) % 2 ^ 64
  unfolding state_after
  state_after_lem [] m a j empty room timed k w = omega arith
  state_after_lem (entered p t ∷ older) m a j empty room timed k w =
      state_after_lem older m a j empty (omega arith) timed.2 k w
  state_after_lem (returned p t ∷ older) m a j empty room timed k w =
      let begin = begun (key_of p) (map as_request older) in
      let seen : lookup (state_after older m a).0 (key_of p) ≡ begin =
        ap (λ x. lookup x (key_of p)) (map_of-state_after older m a)
        ∙ (map_after-Follows start (map as_request older) m empty room).1 (key_of p) in
      ap (λ x. value_at dist x (suc j))
        (array_of-do_return p t begin (state_after older m a).0 (state_after older m a).1 seen
          timed.0 (λ ts e. begun-AllUpTo t (key_of p) ts older timed.1 e))
      ∙ value_at-added t begin j (value_at dist a (suc j)) (latencies older)
          (state_after older m a).1 timed.0 k (state_after_lem older m a j empty room timed.2 k w)
