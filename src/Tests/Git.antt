-- ===== src/Tests/Git.antt =====
-- The git formats at concrete inputs.
use omoplata.Prelude.{
  ◌<◌, ◌≤◌, ◌⊎◌, ◌≡◌, refl, none, some, List, [], ◌∷◌, ◌++◌, All, length, ok, err, arith,
}
use omoplata.Git.Bytes.{Bytes}
use omoplata.Git.Error.{wire_proto}
use omoplata.Git.PktLine.{data_line, max_payload, write_pkt_line, read_pkt}
use omoplata.Git.PktLine.Frames.{read_pkt-write_pkt_line}
use omoplata.Git.Pack.Sizes.{read_delta_size}
use omoplata.Git.Pack.Sizes.RoundTrip.{size_bytes}
use omoplata.Git.Pack.Delta.{delta_op, apply_delta}
use omoplata.Git.Pack.Delta.Format.{Instruction, copy, insert, run, IsRunnable, delta_of}
use omoplata.Git.Pack.Delta.Instructions.{apply_delta-delta_of}

abbrev have : Bytes
have = b'h' ∷ b'a' ∷ b'v' ∷ b'e' ∷ []

read_pkt-write_pkt_line_example :
    ((frame : Bytes) × (write_pkt_line [] have ≡ ok ([] ++ frame))
      × (length frame ≤ 0xffff)
      × ((rest : Bytes) → read_pkt (frame ++ rest) ≡ ok (data_line have, rest)))
    ⊎ ((max_payload < length have)
        × (write_pkt_line [] have ≡ err (wire_proto "pkt-line payload exceeds 65531 bytes")))
read_pkt-write_pkt_line_example = read_pkt-write_pkt_line [] have

-- A copy of 2 bytes from 1, with a byte of the offset and a byte of the size, and an insertion.
abbrev edit : List Instruction
edit =
    copy
      (record { o0 = some 1; o1 = none; o2 = none; o3 = none; s0 = some 2; s1 = none; s2 = none })
    ∷ insert (b'!' ∷ [])
    ∷ []

edit-IsRunnable : All (IsRunnable have) edit
edit-IsRunnable = (omega arith, ((omega arith, omega arith), tt))

abbrev result : Bytes
result = b'a' ∷ b'v' ∷ b'!' ∷ []

edited : apply_delta have (delta_of have edit) ≡ some (ok result)
unfolding apply_delta delta_op read_delta_size size_bytes
edited = refl

apply_delta-delta_of_example : apply_delta have (delta_of have edit) ≡ some (ok (run have edit))
apply_delta-delta_of_example =
    apply_delta-delta_of have edit edit-IsRunnable (omega arith) (omega arith)
