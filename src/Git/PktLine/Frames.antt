-- ===== src/Git/PktLine/Frames.antt =====
-- Frames that were written are read back.
use omoplata.Prelude.{
  ◌≡◌, ◌⊎◌, inl, inr, ℕ, ◌+◌, ◌-◌, ◌<◌, ◌≤◌, ◌++◌, length, length-append, take-length-append,
  drop-length-append, ltb, nat_eq, ok, err, ◌>>=◌, Bool-cases, arith,
}
use omoplata.Git.Bytes.{Bytes, hex4}
use omoplata.Git.Bytes.Hex.{from_str_radix16-hex4, is_utf8-hex4}
use omoplata.Git.Error.{wire_proto}
use omoplata.Git.PktLine.{
  PktLine, data_line, max_payload, write_pkt_line, read_exact, parse_hex4, read_body, read_pkt,
}

read_exact-length : (xs ys : Bytes) (n : ℕ) → length xs ≡ n → read_exact (xs ++ ys) n ≡ ok (xs, ys)
unfolding read_exact
read_exact-length xs ys n e =
    rw (← e, take-length-append xs ys, drop-length-append xs ys)
      (ground (arith, length-append xs ys))

parse_hex4-hex4 : (n : ℕ) → n < 65536 → parse_hex4 (hex4 n) ≡ ok n
unfolding parse_hex4
parse_hex4-hex4 n h = rw (is_utf8-hex4 n h, from_str_radix16-hex4 n h)

read_body-data :
    (payload rest : Bytes)
    → read_body (length payload + 4) (payload ++ rest) ≡ ok (data_line payload, rest)
unfolding read_body
read_body-data payload rest =
    ground (arith, read_exact-length payload rest (length payload + 4 - 4) (omega arith))

read_pkt-parts :
    (r header r' : Bytes) (n : ℕ) (out : PktLine × Bytes)
    → read_exact r 4 ≡ ok (header, r')
    → parse_hex4 header ≡ ok n
    → read_body n r' ≡ ok out
    → read_pkt r ≡ ok out
unfolding read_pkt
read_pkt-parts r header r' n out exact parsed body = rw (exact, ◌>>=◌, parsed) body

-- A payload within the limit is framed behind what the writer has, in at most 0xffff bytes, and
-- reading the frame gives the payload and what stands behind it; a longer one is refused.
pub read_pkt-write_pkt_line :
    (w payload : Bytes)
    → ((frame : Bytes) × (write_pkt_line w payload ≡ ok (w ++ frame))
        × (length frame ≤ 0xffff)
        × ((rest : Bytes) → read_pkt (frame ++ rest) ≡ ok (data_line payload, rest)))
      ⊎ ((max_payload < length payload)
          × (write_pkt_line w payload ≡ err (wire_proto "pkt-line payload exceeds 65531 bytes")))
unfolding write_pkt_line
read_pkt-write_pkt_line w payload = elim (Bool-cases (ltb max_payload (length payload))) [
  | inl long ↦ inr (ground arith, ground arith)
  | inr short ↦ inl (
    hex4 (length payload + 4) ++ payload,
    ground arith,
    ground arith,
    λ rest.
        read_pkt-parts (hex4 (length payload + 4) ++ (payload ++ rest)) (hex4 (length payload + 4))
          (payload ++ rest) (length payload + 4) (data_line payload, rest)
          (read_exact-length (hex4 (length payload + 4)) (payload ++ rest) 4 (omega arith))
          (parse_hex4-hex4 (length payload + 4) (ground arith)) (read_body-data payload rest),
  )
]
