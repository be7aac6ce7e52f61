-- ===== src/Tcptrace/Flags.antt =====
-- `flags2str` of network/ebpf/libbpf_tcptrace/test_tcptrace.c.
use prog_playground.Prelude.{
  ℕ, ◌+◌, bit_and, List, [], ◌∷◌, ◌++◌, length, if◌then◌else◌, ◌==◌, codes,
}

-- `if (flags & mask) { arr[count] = name; count++; }`
abbrev pub add_name : ℕ → ℕ → List ℕ → List (List ℕ) → List (List ℕ)
add_name flags mask name arr = if bit_and flags mask == 0 then arr else arr ++ name ∷ []

unfoldable pub flag_names : ℕ → List (List ℕ)
flag_names flags = add_name flags 0x80 (codes "CWR") (
    add_name flags 0x40 (codes "ECE") (
      add_name flags 0x20 (codes "URG") (
        add_name flags 0x10 (codes "ACK") (
          add_name flags 0x08 (codes "PSH") (
            add_name flags 0x04 (codes "RST")
              (add_name flags 0x02 (codes "SYN") (add_name flags 0x01 (codes "FIN") [])))))))

-- The loop at index `i` over the names that are left: each is followed by a bar but the last.
unfoldable pub join_from : ℕ → ℕ → List (List ℕ) → List ℕ → List ℕ
join_from count i [] result = result
join_from count i (name ∷ names) result =
    join_from count (i + 1) names ((result ++ name) ++ (if i + 1 == count then [] else b'|' ∷ []))

unfoldable pub flags2str : ℕ → List ℕ
unfolding flag_names join_from
flags2str flags = let arr = flag_names flags in join_from (length arr) 0 arr []
