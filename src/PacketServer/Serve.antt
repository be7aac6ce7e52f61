-- ===== src/PacketServer/Serve.antt =====
-- One turn of the servers' loop, from the accepted connection to its close, and `main`.
use prog_playground.Prelude.{
  ℕ, ◌+◌, Bool, ◌&&◌, not, Option, none, some, List, [], ◌∷◌, ◌++◌, take, drop, le_bytes,
  of_le_bytes, ltb, ◌==◌, if◌then◌else◌,
}
use prog_playground.PacketServer.{
  Layout, packed, natural, Pieces, Socket, recv_all, calculate_checksum, to_host,
}

-- What `printPacket` prints: the converted fields, and the bytes of `fullPacket`.
pub record Report : Type 0 where
  pub version : ℕ
  pub command : ℕ
  pub body_len : ℕ
  pub checksum : ℕ
  pub seq_num : ℕ
  pub timestamp : ℕ
  pub text : List ℕ
  pub raw : List ℕ

pub data Ending : Type 0 where
  header_failed bad_magic body_failed checksum_mismatch body_too_small : Ending
  printed : Report → Ending

-- The calls of one turn that take or release something.
pub data Call : Type 0 where
  new_body delete_body new_packet delete_packet close_client : Call

pub record Turn : Type 0 where
  pub ending : Ending
  pub calls : List Call

abbrev pub turn : Ending → List Call → Turn
turn e cs = record { ending = e; calls = cs }

abbrev pub field : (offset size : ℕ) → List ℕ → ℕ
field offset size bytes = of_le_bytes (take size (drop offset bytes))

-- The memory of the struct after a field has been assigned.
abbrev pub assign : (offset size value : ℕ) → List ℕ → List ℕ
assign offset size value bytes =
    take offset bytes ++ (le_bytes size value ++ drop (offset + size) bytes)

-- `header.magic[0] != 'A' || header.magic[1] != 'B'`, negated.
abbrev pub has_magic : List ℕ → Bool
has_magic bytes = field 0 1 bytes == b'A' && field 1 1 bytes == b'B'

module _ (l : Layout) where
  -- The four conversions, each of which is written back to `header`.
  unfoldable pub convert_header : List ℕ → List ℕ
  convert_header bytes =
      let bytes1 = assign l.version_at 2 (to_host 2 (field l.version_at 2 bytes)) bytes in
      let bytes2 = assign l.command_at 2 (to_host 2 (field l.command_at 2 bytes1)) bytes1 in
      let bytes3 = assign l.body_len_at 4 (to_host 4 (field l.body_len_at 4 bytes2)) bytes2 in
      assign l.checksum_at 4 (to_host 4 (field l.checksum_at 4 bytes3)) bytes3

  -- From the copy of the body on; `header` holds the converted fields.
  unfoldable pub read_body : (header bytes : List ℕ) → Turn
  read_body header bytes =
      let body_len = field l.body_len_at 4 header in
      if ltb body_len l.size_of_body
      then turn body_too_small (new_body ∷ close_client ∷ [])
      else turn
          (printed (record {
            version = field l.version_at 2 header;
            command = field l.command_at 2 header;
            body_len = body_len;
            checksum = field l.checksum_at 4 header;
            seq_num = to_host 4 (field l.seq_num_at 4 bytes);
            timestamp = to_host 8 (field l.timestamp_at 8 bytes);
            text = take 4 (drop l.data_at bytes);
            raw = header ++ bytes;
          }))
          (new_body ∷ new_packet ∷ delete_body ∷ delete_packet ∷ close_client ∷ [])

  -- From the result of the receipt of the body on.
  unfoldable pub check_body : (header : List ℕ) → Option (List ℕ) → Turn
  unfolding read_body
  check_body header none = turn body_failed (new_body ∷ delete_body ∷ close_client ∷ [])
  check_body header (some bytes) =
      if field l.checksum_at 4 header == calculate_checksum bytes
      then read_body header bytes
      else turn checksum_mismatch (new_body ∷ delete_body ∷ close_client ∷ [])

  unfoldable pub receive_body : Pieces → Socket → (header : List ℕ) → Turn
  receive_body pieces s header =
      check_body header (recv_all pieces s (field l.body_len_at 4 header)).0

  unfoldable pub check_header : Pieces → Option (List ℕ) × Socket → Turn
  unfolding convert_header receive_body
  check_header pieces (none, s) = turn header_failed (close_client ∷ [])
  check_header pieces (some bytes, s) =
      if has_magic bytes
      then receive_body pieces s (convert_header bytes)
      else turn bad_magic (close_client ∷ [])

  unfoldable pub serve_client : Pieces → Socket → Turn
  serve_client pieces s = check_header pieces (recv_all pieces s l.size_of_header)

  -- The loop over the answers of `accept`; a failed one is passed over.
  unfoldable pub accept_loop : List (Option (Pieces × Socket)) → List Turn
  accept_loop [] = []
  accept_loop (none ∷ rest) = accept_loop rest
  accept_loop (some (pieces, s) ∷ rest) = serve_client pieces s ∷ accept_loop rest

-- How `main` ends, or that it is in its endless loop, with the turns that it has made.
pub data Run : Type 0 where
  no_socket : Run
  closed_after_failure : Run
  serving : List Turn → Run

-- The answers of `socket`, `bind` and `listen`, and those of `accept` so far.
pub record Answers : Type 0 where
  pub socket : Bool
  pub bind : Bool
  pub listen : Bool
  pub accepted : List (Option (Pieces × Socket))

unfoldable pub main_with : Layout → Answers → Run
unfolding accept_loop
main_with l a =
    if not a.socket
    then no_socket
    else if not a.bind
    then closed_after_failure
    else if not a.listen
    then closed_after_failure
    else serving (accept_loop l a.accepted)

-- `main` of each of the four servers; only the first packs its structs.
unfoldable pub case1_main : Answers → Run
unfolding main_with
case1_main a = main_with packed a

unfoldable pub case2_main : Answers → Run
unfolding main_with
case2_main a = main_with natural a

unfoldable pub case3_main : Answers → Run
unfolding main_with
case3_main a = main_with natural a

unfoldable pub case4_main : Answers → Run
unfolding main_with
case4_main a = main_with natural a
