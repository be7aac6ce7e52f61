-- ===== src/Probes/Pairing.antt =====
-- A completion is paired with the last start of its request.
use prog_playground.Prelude.{
  ℕ, suc, ◌-◌, ◌/◌, ◌^◌, ◌≤◌, ◌<◌, ◌≡◌, ap, refl, ◌∙◌, inl, inr, true, Option, none, some, List, [],
  ◌∷◌, length, arith, if◌then◌else◌, ◌==◌, ==_iff, contains, Option-cases, nat_eq,
}
use prog_playground.BpfMap.{BpfMap, is_some}
use prog_playground.Probes.Iosnoop.{Trace, sub_u64, bpf_prog1, bpf_prog2, do_request, do_completion}

pub data Event : Type 0 where
  started : (rq time : ℕ) → Event
  completed : (rq time data_len cmd_flags : ℕ) → Event

-- The start that a completion of `rq` belongs to, after a history whose newest event stands first:
-- the newest event of that request, if it is a start.
abbrev pub begun : ℕ → List Event → Option ℕ
begun rq [] = none
begun rq (started q t ∷ older) = if q == rq then some t else begun rq older
begun rq (completed q t n f ∷ older) = if q == rq then none else begun rq older

abbrev pub starts : List Event → ℕ
starts [] = 0
starts (started q t ∷ older) = suc (starts older)
starts (completed q t n f ∷ older) = starts older

abbrev pub trace_of : ℕ → ℕ → ℕ → Trace
trace_of n g us = record { data_len = n; cmd_flags = g; lat_us = us }

-- The line for a completion at `now`: the microseconds since the start, if there is one.
abbrev pub line_for : (now data_len cmd_flags : ℕ) → Option ℕ → Option Trace
line_for now n g none = none
line_for now n g (some t) = some (trace_of n g ((now - t) / 1000))

module _ (start_ts : BpfMap ℕ ℕ) where
  open start_ts use {
    Map, max_entries, keys, lookup, update, delete, lookup-update, lookup-delete, length-update,
    length-delete, contains-keys,
  }

  -- The map after a history, by the probes of iosnoop_kern.c.
  unfoldable pub map_after : List Event → Map → Map
  map_after [] m = m
  map_after (started q t ∷ older) m = bpf_prog1 start_ts q t (map_after older m)
  map_after (completed q t n f ∷ older) m = (bpf_prog2 start_ts q t n f (map_after older m)).0

  abbrev pub Follows : List Event → Map → Type 0
  Follows es m = (length (keys m) ≤ starts es) × ((rq : ℕ) → lookup m rq ≡ begun rq es)

  step_started :
      (q t : ℕ) (es : List Event) (m : Map)
      → starts es < max_entries
      → Follows es m
      → Follows (started q t ∷ es) (bpf_prog1 start_ts q t m)
  unfolding bpf_prog1
  step_started q t es m room f = (
    omega (arith, length-update m q t, f.0),
    λ rq. rw (lookup-update m q rq t (inr (omega (arith, f.0))), f.1 rq),
  )

  same_key : {o : Option ℕ} (q rq : ℕ) (m : Map) → q ≡ rq → lookup m q ≡ o → lookup m rq ≡ o
  same_key q rq m p e = rw (← p, e)

  step_completed :
      (q t n g : ℕ) (es : List Event) (m : Map)
      → Follows es m
      → Follows (completed q t n g ∷ es) ((bpf_prog2 start_ts q t n g m).0)
  unfolding bpf_prog2
  step_completed q t n g es m f = elim (Option-cases (lookup m q)) [
    | inl absent ↦
        let rest : (rq : ℕ) → lookup m rq ≡ begun rq (completed q t n g ∷ es) =
          λ rq. ground (arith, f.1 rq, ==_iff q rq, same_key q rq m, absent) in
        rw (absent, bpf_prog2) (f.0, rest)
    | inr (v, old) ↦
        let kept : contains q (keys m) ≡ true = cc (contains-keys m q, ap is_some old) in
        rw (old, bpf_prog2)
          (omega (arith, length-delete m q kept, f.0), λ rq. rw (lookup-delete m q rq, f.1 rq))
  ]

  pub map_after-Follows :
      (es : List Event) (m : Map)
      → keys m ≡ []
      → starts es ≤ max_entries
      → Follows es (map_after es m)
  unfolding map_after
  map_after-Follows [] m empty room = (
    rw empty (omega arith),
    λ rq. elim (Option-cases (lookup m rq)) [
      | inl absent ↦ absent
      | inr (v, old) ↦ absurd (cc (contains-keys m rq, ap is_some old, ap (contains rq) empty))
    ],
  )
  map_after-Follows (started q t ∷ es) m empty room =
      step_started q t es (map_after es m) (omega arith)
        (map_after-Follows es m empty (omega arith))
  map_after-Follows (completed q t n g ∷ es) m empty room =
      step_completed q t n g es (map_after es m) (map_after-Follows es m empty room)

  -- The map after a history, by the probes of disksnoop.c.
  unfoldable pub disk_after : List Event → Map → Map
  disk_after [] m = m
  disk_after (started q t ∷ older) m = do_request start_ts t q (disk_after older m)
  disk_after (completed q t n f ∷ older) m = (do_completion start_ts t q n f (disk_after older m)).0

  same_completion :
      (q t n g : ℕ) (m : Map) → do_completion start_ts t q n g m ≡ bpf_prog2 start_ts q t n g m
  unfolding bpf_prog2 do_completion
  same_completion q t n g m = elim (Option-cases (lookup m q)) [
    | inl absent ↦ rw (absent, bpf_prog2, do_completion) refl
    | inr (v, old) ↦ rw (old, bpf_prog2, do_completion) refl
  ]

  disk_after_lem : (es : List Event) (m : Map) → disk_after es m ≡ map_after es m
  unfolding disk_after map_after do_request bpf_prog1
  disk_after_lem [] m = refl
  disk_after_lem (started q t ∷ es) m = rw (disk_after_lem es m) refl
  disk_after_lem (completed q t n g ∷ es) m =
      ap (λ x. (do_completion start_ts t q n g x).0) (disk_after_lem es m)
      ∙ ap (λ p. p.0) (same_completion q t n g (map_after es m))

  pub sub_u64_exact : (now t : ℕ) → t ≤ now → now < 2 ^ 64 → sub_u64 now t ≡ now - t
  unfolding sub_u64
  sub_u64_exact now t h w = omega arith

  report :
      (rq now n g : ℕ) (o : Option ℕ) (m : Map)
      → lookup m rq ≡ o
      → ((t : ℕ) → o ≡ some t → t ≤ now)
      → now < 2 ^ 64
      → (bpf_prog2 start_ts rq now n g m).1 ≡ line_for now n g o
  unfolding bpf_prog2
  report rq now n g none m e h w = rw (e, bpf_prog2) refl
  report rq now n g (some t) m e h w =
      rw (e, bpf_prog2)
        (ap (λ d. some (trace_of n g (d / 1000))) (sub_u64_exact now t (h t refl) w))

  -- Tracing starts with an empty map and has seen no more starts than the map has entries: then
  -- the completion of a request prints, in iosnoop_kern.c and in disksnoop.c, its length, its
  -- flags and the microseconds since its last start, if that start came after the last completion
  -- of that request, and prints nothing otherwise; the clock is not behind that start and fits 64
  -- bits.
  pub reported_latency :
      (es : List Event) (m : Map) (rq now n g : ℕ)
      → keys m ≡ []
      → starts es ≤ max_entries
      → ((t : ℕ) → begun rq es ≡ some t → t ≤ now)
      → now < 2 ^ 64
      → ((bpf_prog2 start_ts rq now n g (map_after es m)).1 ≡ line_for now n g (begun rq es))
        × ((do_completion start_ts now rq n g (disk_after es m)).1 ≡ line_for now n g (begun rq es))
  reported_latency es m rq now n g empty room past w =
      let paired : (bpf_prog2 start_ts rq now n g (map_after es m)).1
          ≡ line_for now n g (begun rq es) =
        report rq now n g (begun rq es) (map_after es m) ((map_after-Follows es m empty room).1 rq)
          past w in
      (paired, rw (disk_after_lem es m, same_completion rq now n g) paired)
