-- ===== src/PacketServer/Delivery.antt =====
-- A packet that a peer writes in network order is printed with the peer's values.
use prog_playground.Prelude.{
  ℕ, ◌+◌, ◌%◌, ◌^◌, ◌<◌, ◌≡◌, ◌≢◌, ◌∙◌, ap, refl, arith, Bool, true, false, none, some, List, [],
  ◌∷◌, ◌++◌, length, le_bytes, of_le_bytes, ==_iff, ◌==◌, Option, of_le_bytes-le_bytes,
  length-append, take-append, drop-append,
}
use prog_playground.PacketServer.{Pieces, Socket, recv_all, add_bytes, calculate_checksum, to_host}
use prog_playground.PacketServer.Receive.{Arrives, recv_all-Arrives}
use prog_playground.PacketServer.Serve.{
  printed, turn, convert_header, read_body, check_body, receive_body, check_header, serve_client,
  field,
}
use prog_playground.PacketServer.Format.{
  be_bytes, Packet, IsInWidth, layout_of, body_of, header_of, host_header, report_of, all_calls,
}

-- The conversions give back what was written.
swap_2 : (x : ℕ) → x < 2 ^ 16 → to_host 2 (of_le_bytes (be_bytes 2 x)) ≡ x
swap_2 x h = omega arith

swap_4 : (x : ℕ) → x < 2 ^ 32 → to_host 4 (of_le_bytes (be_bytes 4 x)) ≡ x
swap_4 x h = omega arith

swap_8 : (x : ℕ) → x < 2 ^ 64 → to_host 8 (of_le_bytes (be_bytes 8 x)) ≡ x
swap_8 x h = omega arith

same_2 : (x : ℕ) → x < 2 ^ 16 → of_le_bytes (le_bytes 2 x) ≡ x
same_2 x h = of_le_bytes-le_bytes 2 x h

same_4 : (x : ℕ) → x < 2 ^ 32 → of_le_bytes (le_bytes 4 x) ≡ x
same_4 x h = of_le_bytes-le_bytes 4 x h

convert_header-header_of :
    (padded : Bool) (p : Packet) (k : ℕ)
    → IsInWidth p
    → k < 2 ^ 32
    → convert_header (layout_of padded) (header_of padded p k)
      ≡ host_header padded p.version p.command (layout_of padded).size_of_body k
unfolding convert_header
convert_header-header_of false p k w h = λ i.
    host_header false (swap_2 p.version w.version i) (swap_2 p.command w.command i) 16
      (swap_4 k h i)
convert_header-header_of true p k w h = λ i.
    host_header true (swap_2 p.version w.version i) (swap_2 p.command w.command i) 24 (swap_4 k h i)

add_bytes-lt : (sum : ℕ) (bs : List ℕ) → sum < 2 ^ 32 → add_bytes sum bs < 2 ^ 32
unfolding add_bytes
add_bytes-lt sum [] h = h
add_bytes-lt sum (b ∷ bs) h = add_bytes-lt ((sum + b) % 2 ^ 32) bs (omega arith)

checksum_lt : (bs : List ℕ) → calculate_checksum bs < 2 ^ 32
unfolding calculate_checksum
checksum_lt bs = add_bytes-lt 0 bs (omega arith)

-- Exactly the bytes that are there.
recv_exact :
    (pieces : Pieces) (calls : ℕ) (xs ys : List ℕ)
    → ((k : ℕ) → pieces k ≢ none)
    → (calls' : ℕ) × (recv_all pieces (record { calls = calls; pending = xs ++ ys }) (length xs)
        ≡ (some xs, record { calls = calls'; pending = ys }))
recv_exact pieces calls xs ys sound =
    go (recv_all pieces (record { calls = calls; pending = xs ++ ys }) (length xs))
      (recv_all-Arrives pieces (record { calls = calls; pending = xs ++ ys }) (length xs) sound)
  where
    go :
        (r : Option (List ℕ) × Socket)
        → Arrives (xs ++ ys) (length xs) r
        → (calls' : ℕ) × (r ≡ (some xs, record { calls = calls'; pending = ys }))
    go (none, s) h = absurd (omega (arith, length-append xs ys, h))
    go (some bs, s) (enough, same, left) = (
      s.calls,
      λ i. (
        some ((same ∙ take-append xs ys) i),
        record { calls = s.calls; pending = (left ∙ drop-append xs ys) i },
      ),
    )

read_body_lem :
    (padded : Bool) (p : Packet) (k : ℕ)
    → IsInWidth p
    → k < 2 ^ 32
    → read_body
        (layout_of padded)
        (host_header padded p.version p.command (layout_of padded).size_of_body k)
        (body_of padded p)
      ≡ turn (printed (report_of padded p k)) all_calls
unfolding read_body
read_body_lem false p k w h = λ i.
    turn
      (printed (record (report_of false p k) {
        version = same_2 p.version w.version i;
        command = same_2 p.command w.command i;
        checksum = same_4 k h i;
        seq_num = swap_4 p.seq_num w.seq_num i;
        timestamp = swap_8 p.timestamp w.timestamp i;
      }))
      all_calls
read_body_lem true p k w h = λ i.
    turn
      (printed (record (report_of true p k) {
        version = same_2 p.version w.version i;
        command = same_2 p.command w.command i;
        checksum = same_4 k h i;
        seq_num = swap_4 p.seq_num w.seq_num i;
        timestamp = swap_8 p.timestamp w.timestamp i;
      }))
      all_calls

check_body-body_of :
    (padded : Bool) (p : Packet)
    → IsInWidth p
    → check_body
        (layout_of padded)
        (host_header padded p.version p.command
          (layout_of padded).size_of_body
          (calculate_checksum (body_of padded p)))
        (some (body_of padded p))
      ≡ turn (printed (report_of padded p (calculate_checksum (body_of padded p)))) all_calls
unfolding check_body
check_body-body_of false p w =
    let k = calculate_checksum (body_of false p) in
    let same : (field 10 4 (host_header false p.version p.command 16 k) == k) ≡ true =
      (==_iff _ k).1 (same_4 k (checksum_lt (body_of false p))) in
    rw same (read_body_lem false p k w (checksum_lt (body_of false p)))
check_body-body_of true p w =
    let k = calculate_checksum (body_of true p) in
    let same : (field 12 4 (host_header true p.version p.command 24 k) == k) ≡ true =
      (==_iff _ k).1 (same_4 k (checksum_lt (body_of true p))) in
    rw same (read_body_lem true p k w (checksum_lt (body_of true p)))

header_length :
    (padded : Bool) (p : Packet) (k : ℕ)
    → (layout_of padded).size_of_header ≡ length (header_of padded p k)
header_length false p k = refl
header_length true p k = refl

body_length :
    (padded : Bool) (p : Packet) (k : ℕ)
    → field
        (layout_of padded).body_len_at
        4
        (host_header padded p.version p.command (layout_of padded).size_of_body k)
      ≡ length (body_of padded p)
body_length false p k = refl
body_length true p k = refl

check_header-packet :
    (padded : Bool) (p : Packet) (pieces : Pieces) (calls : ℕ) (rest : List ℕ)
    → IsInWidth p
    → ((k : ℕ) → pieces k ≢ none)
    → check_header (layout_of padded) pieces (
      some (header_of padded p (calculate_checksum (body_of padded p))),
      record { calls = calls; pending = body_of padded p ++ rest },
    )
      ≡ turn (printed (report_of padded p (calculate_checksum (body_of padded p)))) all_calls
unfolding check_header receive_body
check_header-packet padded p pieces calls rest w sound =
    let k = calculate_checksum (body_of padded p) in
    let l = layout_of padded in
    let body : (calls' : ℕ) × (recv_all pieces
            (record { calls = calls; pending = body_of padded p ++ rest })
            (length (body_of padded p))
          ≡ (some (body_of padded p), record { calls = calls'; pending = rest })) =
      recv_exact pieces calls (body_of padded p) rest sound in
    ap (receive_body l pieces (record { calls = calls; pending = body_of padded p ++ rest }))
      (convert_header-header_of padded p k w (checksum_lt (body_of padded p)))
    ∙ ap
        (λ n.
          check_body l (host_header padded p.version p.command l.size_of_body k)
            (recv_all pieces (record { calls = calls; pending = body_of padded p ++ rest }) n).0)
        (body_length padded p k)
    ∙ ap (λ r. check_body l (host_header padded p.version p.command l.size_of_body k) r.0) body.1
    ∙ check_body-body_of padded p w

-- A packet whose fields fit their widths, written in network order in the packed or the natural
-- layout with its checksum, and arriving in any pieces and with any bytes behind it, is printed
-- with its fields; the bytes of the header are printed in host order, and both buffers and the
-- connection are released.
pub serve_client-packet :
    (padded : Bool) (p : Packet) (pieces : Pieces) (calls : ℕ) (rest : List ℕ)
    → IsInWidth p
    → ((k : ℕ) → pieces k ≢ none)
    → serve_client (layout_of padded) pieces (record {
      calls = calls;
      pending =
          header_of padded p (calculate_checksum (body_of padded p)) ++ (body_of padded p ++ rest);
    })
      ≡ turn (printed (report_of padded p (calculate_checksum (body_of padded p)))) all_calls
unfolding serve_client
serve_client-packet padded p pieces calls rest w sound =
    let k = calculate_checksum (body_of padded p) in
    let (calls', header) =
      recv_exact pieces calls (header_of padded p k) (body_of padded p ++ rest) sound in
    ap
      (λ n. check_header (layout_of padded) pieces (
        recv_all pieces
          (record { calls = calls; pending = header_of padded p k ++ (body_of padded p ++ rest) })
          n))
      (header_length padded p k)
    ∙ ap (check_header (layout_of padded) pieces) header
    ∙ check_header-packet padded p pieces calls' rest w sound
