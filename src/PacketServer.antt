-- ===== src/PacketServer.antt =====
-- The packet servers network/byte_order/case1_pragma_pack1/server.cpp to
-- case4_client_rawdata/server.cpp, which differ in the layout of their structs: the layouts, the
-- receiving loop, the checksum and the conversion of byte order.
pub mod Receive
pub mod Serve
pub mod Format
pub mod Release
pub mod Delivery
use prog_playground.Prelude.{
  ℕ, zero, suc, ◌+◌, ◌-◌, ◌*◌, ◌%◌, ◌^◌, Bool, Option, none, some, List, [], ◌∷◌, ◌++◌, length,
  take, drop, le_bytes, of_le_bytes,
}

-- Where the fields of `Header` and `Body` stand; the magic bytes are the first two.
pub record Layout : Type 0 where
  pub version_at : ℕ
  pub command_at : ℕ
  pub body_len_at : ℕ
  pub checksum_at : ℕ
  pub size_of_header : ℕ
  pub seq_num_at : ℕ
  pub timestamp_at : ℕ
  pub data_at : ℕ
  pub size_of_body : ℕ

-- Under `#pragma pack(push, 1)`.
abbrev pub packed : Layout
packed = record {
  version_at = 2;
  command_at = 4;
  body_len_at = 6;
  checksum_at = 10;
  size_of_header = 14;
  seq_num_at = 0;
  timestamp_at = 4;
  data_at = 12;
  size_of_body = 16;
}

-- Without it: each field is aligned to its size, and `Body` to 8.
abbrev pub natural : Layout
natural = record {
  version_at = 2;
  command_at = 4;
  body_len_at = 8;
  checksum_at = 12;
  size_of_header = 16;
  seq_num_at = 0;
  timestamp_at = 8;
  data_at = 16;
  size_of_body = 24;
}

-- What a call of `recv` may find: the call with this number fails, or `suc` of a number is the
-- most bytes that have come by then.
abbrev pub Pieces : Type 0
Pieces = ℕ → Option ℕ

-- A connection: the number of calls of `recv` made, and the bytes that the peer sends and the
-- server has not read. The peer closes behind them.
pub record Socket : Type 0 where
  pub calls : ℕ
  pub pending : List ℕ

abbrev pub joined : List ℕ → Option (List ℕ) × Socket → Option (List ℕ) × Socket
joined bs (none, s) = (none, s)
joined bs (some rest, s) = (some (bs ++ rest), s)

-- `recvAll` with `fuel` calls of `recv` left; its result with the bytes that it wrote.
unfoldable pub recv_turns :
    Pieces → (fuel len : ℕ) → (calls : ℕ) → List ℕ → Option (List ℕ) × Socket
recv_turns pieces fuel zero calls pending = (some [], record { calls = calls; pending = pending })
recv_turns pieces zero (suc len) calls pending = (none, record { calls = calls; pending = pending })
recv_turns pieces (suc fuel) (suc len) calls [] = (none, record { calls = calls + 1; pending = [] })
recv_turns pieces (suc fuel) (suc len) calls (b ∷ bs) = elim (pieces calls) [
  | none ↦ (none, record { calls = calls + 1; pending = b ∷ bs })
  | some most ↦
      let got = take most (take len bs) in
      joined (b ∷ got)
        (recv_turns pieces fuel (len - length got) (calls + 1) (drop (length got) bs))
]

-- Every call that goes on takes a byte.
unfoldable pub recv_all : Pieces → Socket → (len : ℕ) → Option (List ℕ) × Socket
recv_all pieces s len = recv_turns pieces len len s.calls s.pending

unfoldable pub add_bytes : ℕ → List ℕ → ℕ
add_bytes sum [] = sum
add_bytes sum (b ∷ bs) = add_bytes ((sum + b) % 2 ^ 32) bs

unfoldable pub calculate_checksum : List ℕ → ℕ
unfolding add_bytes
calculate_checksum bytes = add_bytes 0 bytes

abbrev pub of_be_bytes : ℕ → List ℕ → ℕ
of_be_bytes acc [] = acc
of_be_bytes acc (b ∷ bs) = of_be_bytes (acc * 256 + b) bs

-- `ntohs`, `ntohl` and `be64toh` on a little-endian machine, for 2, 4 and 8 bytes.
abbrev pub to_host : (size : ℕ) → ℕ → ℕ
to_host size x = of_be_bytes 0 (le_bytes size x)
