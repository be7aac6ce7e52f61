-- ===== src/PacketServer/Release.antt =====
-- What a turn of the servers releases.
use prog_playground.Prelude.{
  ℕ, suc, ◌≡◌, arith, List, [], ◌∷◌, ◌⊎◌, ◌≢◌, ◌≤◌, inl, inr, Option, none, some, Bool-cases,
}
use prog_playground.PacketServer.{Layout, Pieces, Socket, recv_all}
use prog_playground.PacketServer.Serve.{
  Call, new_body, delete_body, new_packet, delete_packet, close_client, Turn, turn, bad_magic,
  body_too_small, field, has_magic, convert_header, read_body, check_body, receive_body,
  check_header, serve_client,
}

abbrev pub closes : List Call → ℕ
closes [] = 0
closes (close_client ∷ cs) = suc (closes cs)
closes (c ∷ cs) = closes cs

-- The buffers of one kind that a list of calls makes and deletes.
abbrev pub bodies_made : List Call → ℕ
bodies_made [] = 0
bodies_made (new_body ∷ cs) = suc (bodies_made cs)
bodies_made (c ∷ cs) = bodies_made cs

abbrev pub bodies_deleted : List Call → ℕ
bodies_deleted [] = 0
bodies_deleted (delete_body ∷ cs) = suc (bodies_deleted cs)
bodies_deleted (c ∷ cs) = bodies_deleted cs

abbrev pub packets_made : List Call → ℕ
packets_made [] = 0
packets_made (new_packet ∷ cs) = suc (packets_made cs)
packets_made (c ∷ cs) = packets_made cs

abbrev pub packets_deleted : List Call → ℕ
packets_deleted [] = 0
packets_deleted (delete_packet ∷ cs) = suc (packets_deleted cs)
packets_deleted (c ∷ cs) = packets_deleted cs

-- One close; each buffer is deleted as often as made, but for the body of a packet that is too
-- small, which is made and not deleted.
abbrev pub IsReleased : Turn → Type 0
IsReleased t =
    (closes t.calls ≡ 1)
    × (packets_deleted t.calls ≡ packets_made t.calls)
    × (packets_made t.calls ≤ 1)
    × (((t.ending ≢ body_too_small)
          × (bodies_deleted t.calls ≡ bodies_made t.calls)
          × (bodies_made t.calls ≤ 1))
        ⊎ ((t.ending ≡ body_too_small) × (bodies_made t.calls ≡ 1) × (bodies_deleted t.calls ≡ 0)))

read_body-IsReleased : (l : Layout) (header bytes : List ℕ) → IsReleased (read_body l header bytes)
unfolding read_body
read_body-IsReleased l header bytes = ground arith

check_body-IsReleased :
    (l : Layout) (header : List ℕ) (r : Option (List ℕ)) → IsReleased (check_body l header r)
unfolding check_body
check_body-IsReleased l header r = ground (arith, read_body-IsReleased l header)

bad_magic-IsReleased : IsReleased (turn bad_magic (close_client ∷ []))
bad_magic-IsReleased = ground arith

check_header-IsReleased :
    (l : Layout) (pieces : Pieces) (r : Option (List ℕ) × Socket)
    → IsReleased (check_header l pieces r)
unfolding check_header receive_body
check_header-IsReleased l pieces (none, s) = ground arith
check_header-IsReleased l pieces (some bytes, s) = elim (Bool-cases (has_magic bytes)) [
  | inl good ↦
      let header = convert_header l bytes in
      rw (good, check_header)
        (check_body-IsReleased l header (recv_all pieces s (field l.body_len_at 4 header)).0)
  | inr bad ↦ rw (bad, check_header) bad_magic-IsReleased
]

-- Whatever a peer sends and in whatever layout, a turn of the packet server closes the connection
-- once, makes at most one packet and deletes it as often as it makes it, and makes at most one
-- body and deletes it as often, unless it ends with a body that is too small: then it makes one
-- body and deletes none.
pub serve_client-IsReleased :
    (l : Layout) (pieces : Pieces) (s : Socket) → IsReleased (serve_client l pieces s)
unfolding serve_client
serve_client-IsReleased l pieces s =
    check_header-IsReleased l pieces (recv_all pieces s l.size_of_header)
