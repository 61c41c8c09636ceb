-- ===== src/Git/PktLine.antt =====
-- crates/omoplata-git/src/wire/pkt.rs: the framing of packet lines. A reader is the bytes that it
-- has still to give; a writer is the bytes that it got, and writing to it does not fail.
pub mod Frames
use omoplata.Prelude.{
  ℕ, zero, suc, ◌+◌, ◌-◌, String, Bool, true, false, Option, none, some, List, [], ◌∷◌, ◌++◌,
  length, take, drop, leb, ltb, ◌==◌, nat_eq, Result, ok, err, ◌>>=◌, ok_or, if◌then◌else◌,
}
use omoplata.Git.Bytes.{Bytes, is_utf8, from_str_radix16, hex4}
use omoplata.Git.Error.{GitError, wire_proto, wire}
use omoplata.Git.Oid.{GitOid, from_hex}
use omoplata.Git.Text.{find_byte}
use omoplata.Git.Trees.{utf8_or}

abbrev pub flush_pkt : Bytes
flush_pkt = b'0' ∷ b'0' ∷ b'0' ∷ b'0' ∷ []

abbrev pub max_payload : ℕ
max_payload = 0xffff - 4

pub data PktLine : Type 0 where
  data_line : Bytes → PktLine
  flush delim response_end : PktLine

unfoldable pub write_pkt_line : Bytes → Bytes → Result GitError Bytes
write_pkt_line w payload =
    if ltb max_payload (length payload)
    then err (wire_proto "pkt-line payload exceeds 65531 bytes")
    else ok (w ++ (hex4 (length payload + 4) ++ payload))

unfoldable pub write_flush : Bytes → Bytes
write_flush w = w ++ flush_pkt

-- `read_exact`: the bytes asked for, and the reader behind them.
unfoldable pub read_exact : Bytes → ℕ → Result GitError (Bytes × Bytes)
read_exact r n =
    if ltb (length r) n
    then err (wire "unexpected end of stream reading a pkt-line")
    else ok (take n r, drop n r)

unfoldable pub parse_hex4 : Bytes → Result GitError ℕ
parse_hex4 bytes =
    if is_utf8 bytes
    then ok_or (from_str_radix16 bytes) (wire_proto "pkt-line length prefix is not hex")
    else err (wire_proto "pkt-line length prefix is not ascii")

-- The match on the length, with the reader behind the prefix.
unfoldable pub read_body : ℕ → Bytes → Result GitError (PktLine × Bytes)
unfolding read_exact
read_body len r =
    if len == 0
    then ok (flush, r)
    else if len == 1
    then ok (delim, r)
    else if len == 2
    then ok (response_end, r)
    else if len == 3
    then err (wire_proto "pkt-line: reserved length 3")
    else do (payload, r') ← read_exact r (len - 4); ok (data_line payload, r')

unfoldable pub read_pkt : Bytes → Result GitError (PktLine × Bytes)
unfolding read_exact parse_hex4 read_body
read_pkt r = do (header, r') ← read_exact r 4; len ← parse_hex4 header; read_body len r'

abbrev pub payload_of : PktLine → Option Bytes
payload_of (data_line payload) = some payload
payload_of _ = none

unfoldable pub read_pkt_line : Bytes → Result GitError (Option Bytes × Bytes)
unfolding read_pkt
read_pkt_line r = do (line, r') ← read_pkt r; ok (payload_of line, r')

unfoldable pub trim_trailing_newline : Bytes → Bytes
trim_trailing_newline [] = []
trim_trailing_newline (b ∷ []) = if b == b'\n' then [] else b ∷ []
trim_trailing_newline (b ∷ c ∷ line) = b ∷ trim_trailing_newline (c ∷ line)

-- `map_err` where any error becomes that of the line.
abbrev pub oid_or : Result GitError GitOid → GitError → Result GitError GitOid
oid_or (ok oid) e = ok oid
oid_or (err old) e = err e

unfoldable pub parse_ref_line : Bytes → Result GitError (GitOid × Bytes)
unfolding trim_trailing_newline
parse_ref_line line = do
  (oid_hex, name) ←
      ok_or (find_byte b' ' (trim_trailing_newline line))
        (wire_proto "ref advertisement line has no space")
  oid_hex' ← utf8_or oid_hex (wire_proto "ref advertisement oid is not ascii")
  oid ← oid_or (from_hex oid_hex') (wire_proto "ref advertisement oid is not 40-hex")
  name' ← utf8_or name (wire_proto "ref name is not utf-8")
  ok (oid, name')
