-- ===== src/Tcptrace/Laws.antt =====
-- The text of the flags, the event in memory, and a packet's way from the kernel to the terminal.
use prog_playground.Prelude.{
  holds_below, holds_below_lem, zero, suc, Option, none, some, Bool, false,
}
use prog_playground.Prelude.{
  ℕ, ◌+◌, ◌*◌, ◌/◌, ◌%◌, ◌≤◌, ◌<◌, ◌≡◌, refl, ◌∙◌, arith, true, List, [], ◌∷◌, ◌++◌, length, take,
  take_all, length-append, decimal, length-decimal, ltb, ◌==◌, ltb→lt, ==_iff, if◌then◌else◌,
  le_bytes, of_le_bytes-le_bytes,
}
use mathlib.Core.Path.{ap₂}
use prog_playground.Tcptrace.{Ipv4Data, IsInWidth, to_memory, of_memory}
use prog_playground.Tcptrace.Kernel.{load16, load32}
use prog_playground.Tcptrace.Flags.{flags2str}
use prog_playground.Tcptrace.Printing.{tcp_states, ntohs, dotted, endpoint}

flags_table : holds_below 256 (λ f. ltb (length (flags2str f)) 32) ≡ true
unfolding holds_below flags2str
flags_table = refl

-- The text of any flags byte fits the 32 bytes of tcp_flag_buff with its NUL.
pub flags2str_fits : (f : ℕ) → f < 256 → length (flags2str f) < 32
flags2str_fits f h = ltb→lt _ 32 (holds_below_lem 256 _ flags_table f h)

-- The mask that a name stands for, by its first letters.
abbrev mask_of : List ℕ → ℕ
mask_of [] = 0
mask_of (a ∷ []) = 0
mask_of (a ∷ b ∷ rest) =
    if a == b'F'
    then 0x01
    else if a == b'S'
    then 0x02
    else if a == b'R'
    then 0x04
    else if a == b'P'
    then 0x08
    else if a == b'A'
    then 0x10
    else if a == b'U'
    then 0x20
    else if a == b'E'
    then 0x40
    else if a == b'C'
    then 0x80
    else 0

-- Reads the flags back: the sum of the masks of the names between the bars.
abbrev pub read_flags : List ℕ → List ℕ → ℕ
read_flags name [] = mask_of name
read_flags name (c ∷ cs) =
    let after_bar = mask_of name + read_flags [] cs in
    let in_name = read_flags (name ++ c ∷ []) cs in if c == b'|' then after_bar else in_name

read_table : holds_below 256 (λ f. read_flags [] (flags2str f) == f) ≡ true
unfolding holds_below flags2str
read_table = refl

-- The text that flags2str makes of a flags byte determines the byte: adding up the masks of the
-- names between the bars gives it back.
pub read_flags-flags2str : (f : ℕ) → f < 256 → read_flags [] (flags2str f) ≡ f
read_flags-flags2str f h = (==_iff _ f).0 (holds_below_lem 256 _ read_table f h)

-- For an event whose fields keep to their widths, what the user side copies out of the buffer is
-- what the kernel side wrote, whatever follows in the buffer.
pub of_memory-to_memory :
    (e : Ipv4Data) (rest : List ℕ) → IsInWidth e → of_memory (to_memory e ++ rest) ≡ e
unfolding of_memory to_memory
of_memory-to_memory e rest w = λ i. record {
  pid = of_le_bytes-le_bytes 4 e.pid w.pid i;
  ip = of_le_bytes-le_bytes 8 e.ip w.ip i;
  saddr = of_le_bytes-le_bytes 4 e.saddr w.saddr i;
  daddr = of_le_bytes-le_bytes 4 e.daddr w.daddr i;
  sport = of_le_bytes-le_bytes 2 e.sport w.sport i;
  dport = of_le_bytes-le_bytes 2 e.dport w.dport i;
  state = of_le_bytes-le_bytes 1 e.state w.state i;
  tcpflags = of_le_bytes-le_bytes 1 e.tcpflags w.tcpflags i;
  stack_id = of_le_bytes-le_bytes 4 e.stack_id w.stack_id i;
}

abbrev pub is_named : Option (Option (List ℕ)) → Bool
is_named none = false
is_named (some none) = false
is_named (some (some name)) = true

states_table : holds_below 13 (λ s. is_named (tcp_states (suc s))) ≡ true
unfolding holds_below tcp_states
states_table = refl

pub named_state : (s : ℕ) → 0 < s → s < 14 → is_named (tcp_states s) ≡ true
named_state zero some_state h = absurd (omega arith)
named_state (suc s) some_state h = holds_below_lem 13 _ states_table s (omega arith)

-- Four bytes of an address and two of a port, as a person writes them.
abbrev pub written : (ℕ → ℕ) → ℕ → ℕ → List ℕ
written mem addr port =
    (decimal 3 (mem addr)
      ++ (b'.'
          ∷ (decimal 3 (mem (addr + 1))
              ++ (b'.' ∷ (decimal 3 (mem (addr + 2)) ++ (b'.' ∷ decimal 3 (mem (addr + 3))))))))
    ++ (b':' ∷ decimal 5 (mem port * 256 + mem (port + 1)))

bytes_of_load32 :
    (a b c d : ℕ)
    → a < 256
    → b < 256
    → c < 256
    → d < 256
    → le_bytes 4 (a + 256 * b + 65536 * c + 16777216 * d) ≡ a ∷ b ∷ c ∷ d ∷ []
bytes_of_load32 a b c d p q r s =
    let x : ℕ = a + 256 * b + 65536 * c + 16777216 * d in
    let e0 : x % 256 ≡ a = omega arith in
    let e1 : x / 256 % 256 ≡ b = omega arith in
    let e2 : x / 256 / 256 % 256 ≡ c = omega arith in
    let e3 : x / 256 / 256 / 256 % 256 ≡ d = omega arith in rw (e0, e1, e2, e3)

length-written : (mem : ℕ → ℕ) (addr port : ℕ) → length (written mem addr port) ≤ 63
length-written mem addr port =
    let d = λ (p : ℕ). decimal 3 (mem p) in
    let from3 = b'.' ∷ d (addr + 3) in
    let from2 = b'.' ∷ (d (addr + 2) ++ from3) in
    let from1 = b'.' ∷ (d (addr + 1) ++ from2) in
    omega (
      arith,
      length-append (d addr ++ from1) (b':' ∷ decimal 5 (mem port * 256 + mem (port + 1))),
      length-append (d addr) from1,
      length-append (d (addr + 1)) from2,
      length-append (d (addr + 2)) from3,
      length-decimal 3 (mem addr),
      length-decimal 3 (mem (addr + 1)),
      length-decimal 3 (mem (addr + 2)),
      length-decimal 3 (mem (addr + 3)),
      length-decimal 5 (mem port * 256 + mem (port + 1)),
    )

pub endpoint-written :
    (mem : ℕ → ℕ) (addr port : ℕ)
    → ((p : ℕ) → mem p < 256)
    → endpoint (load32 mem addr) (load16 mem port) ≡ written mem addr port
endpoint-written mem addr port b =
    let port_swapped : ntohs (load16 mem port) ≡ mem port * 256 + mem (port + 1) =
      omega (arith, b port, b (port + 1)) in
    let quad =
      bytes_of_load32 (mem addr) (mem (addr + 1)) (mem (addr + 2)) (mem (addr + 3)) (b addr)
        (b (addr + 1)) (b (addr + 2)) (b (addr + 3)) in
    ap₂ (λ bs p. take 63 (dotted bs ++ (b':' ∷ decimal 5 p))) quad port_swapped
    ∙ take_all 63 (written mem addr port) (length-written mem addr port)
