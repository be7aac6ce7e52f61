-- ===== src/Tests/Pipe.antt =====
-- Inputs for the path of a request from the probes to the printed row.
use prog_playground.Prelude.{
  ℕ, ◌-◌, ◌/◌, ◌≡◌, refl, arith, some, List, [], ◌∷◌, codes, decimal, Bool, true, not, ◌&&◌, ◌==◌,
  nat_eq,
}
use prog_playground.BpfMap.{BpfMap}
use prog_playground.BpfMap.Assoc.{Table, assoc_map}
use prog_playground.Probes.Iosnoop.{bpf_prog2}
use prog_playground.Probes.Pairing.{Event, started, completed, map_after}
use prog_playground.IosnoopUser.Printed.{Place, hexadecimal}
use prog_playground.IosnoopUser.Cstring.{Lacks}
use prog_playground.IosnoopUser.Delivery.{IsPlace}
use prog_playground.IosnoopUser.Reported.{kind, shown_for, latency_printed}

abbrev start_map : BpfMap ℕ ℕ
start_map = assoc_map 4096

abbrev no_starts : Table ℕ ℕ 4096
no_starts = record { entries = []; distinct = tt; small = omega arith }

-- Two requests start, and the first one is completed.
abbrev history : List Event
history = completed 11 5000 8 1 ∷ started 12 3000 ∷ started 11 1000 ∷ []

abbrev place : Place
place = record {
  task = codes "<idle>-0     [000";
  irq = codes "d.h.";
  time = codes "6012.345678";
  marker = codes " ";
}

abbrev lacks : ℕ → List ℕ → Bool
lacks c [] = true
lacks c (x ∷ xs) = not (x == c) && lacks c xs

lacks_lem : (c : ℕ) (xs : List ℕ) → lacks c xs ≡ true → Lacks c xs
lacks_lem c [] h = tt
lacks_lem c (x ∷ xs) h = (λ e. ground (arith, h, e), lacks_lem c xs (ground (arith, h)))

place-IsPlace : IsPlace place
place-IsPlace = record {
  task_line = lacks_lem b'\n' place.task refl;
  task_bracket = lacks_lem b']' place.task refl;
  irq_line = lacks_lem b'\n' place.irq refl;
  irq_token = lacks_lem b' ' place.irq refl;
  irq_some = λ e. absurd (cc);
  time_line = lacks_lem b'\n' place.time refl;
  time_token = lacks_lem b' ' place.time refl;
  time_colon = lacks_lem b':' place.time refl;
  time_some = λ e. absurd (cc);
  marker_line = lacks_lem b'\n' place.marker refl;
}

latency_printed_example :
    shown_for 1 place (bpf_prog2 start_map 12 9000 16 33 (map_after start_map history no_starts)).1
    ≡ some (record {
      time_s = codes "6012.345678";
      type_s = kind 1 33 16;
      flags_s = some (hexadecimal 8 33);
      bytes_s = some (decimal 10 16);
      lat_us_s = some (decimal 10 ((9000 - 3000) / 1000));
    })
latency_printed_example =
    latency_printed start_map 1 place history no_starts 12 9000 16 33 3000 place-IsPlace refl
      (omega arith) refl (omega arith) (omega arith) (omega arith) (omega arith) (omega arith)
