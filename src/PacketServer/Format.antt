-- ===== src/PacketServer/Format.antt =====
-- The packet that the servers expect: its fields, and its bytes in network order.
use prog_playground.Prelude.{
  ℕ, zero, suc, ◌/◌, ◌%◌, ◌^◌, ◌<◌, Bool, true, false, List, [], ◌∷◌, ◌++◌, le_bytes,
}
use prog_playground.PacketServer.{Layout, packed, natural}
use prog_playground.PacketServer.Serve.{
  Report, Call, new_body, delete_body, new_packet, delete_packet, close_client,
}

-- The `n` bytes of a number in network order.
abbrev pub be_bytes : (n x : ℕ) → List ℕ
be_bytes zero x = []
be_bytes (suc n) x = x / 256 ^ n % 256 ∷ be_bytes n x

pub record Packet : Type 0 where
  pub version : ℕ
  pub command : ℕ
  pub seq_num : ℕ
  pub timestamp : ℕ
  pub text : ℕ → ℕ

pub record IsInWidth (p : Packet) : Type 0 where
  pub version : p.version < 2 ^ 16
  pub command : p.command < 2 ^ 16
  pub seq_num : p.seq_num < 2 ^ 32
  pub timestamp : p.timestamp < 2 ^ 64

-- The padding of a struct that is not packed.
abbrev pub gap : Bool → (n : ℕ) → List ℕ
gap false n = []
gap true zero = []
gap true (suc n) = 0 ∷ gap true n

abbrev pub layout_of : Bool → Layout
layout_of false = packed
layout_of true = natural

abbrev pub body_of : Bool → Packet → List ℕ
body_of padded p =
    be_bytes 4 p.seq_num
    ++ (gap padded 4
        ++ (be_bytes 8 p.timestamp ++ (p.text 0 ∷ p.text 1 ∷ p.text 2 ∷ p.text 3 ∷ gap padded 4)))

abbrev pub header_of : Bool → Packet → (checksum : ℕ) → List ℕ
header_of padded p checksum =
    b'A'
    ∷ b'B'
    ∷ (be_bytes 2 p.version
        ++ (be_bytes 2 p.command
            ++ (gap padded 2
                ++ (be_bytes 4 (layout_of padded).size_of_body ++ be_bytes 4 checksum))))

-- The struct in memory after the conversions.
abbrev pub host_header : Bool → (version command body_len checksum : ℕ) → List ℕ
host_header padded v c n k =
    b'A'
    ∷ b'B'
    ∷ (le_bytes 2 v ++ (le_bytes 2 c ++ (gap padded 2 ++ (le_bytes 4 n ++ le_bytes 4 k))))

abbrev pub report_of : Bool → Packet → (checksum : ℕ) → Report
report_of padded p k = record {
  version = p.version;
  command = p.command;
  body_len = (layout_of padded).size_of_body;
  checksum = k;
  seq_num = p.seq_num;
  timestamp = p.timestamp;
  text = p.text 0 ∷ p.text 1 ∷ p.text 2 ∷ p.text 3 ∷ [];
  raw =
      host_header padded p.version p.command (layout_of padded).size_of_body k ++ body_of padded p;
}

abbrev pub all_calls : List Call
all_calls = new_body ∷ new_packet ∷ delete_body ∷ delete_packet ∷ close_client ∷ []
