-- ===== src/Tests/Pack.antt =====
-- Objects and packs at concrete inputs.
use omoplata.Prelude.{
  ℕ, ◌<◌, ◌≡◌, refl, List, [], ◌∷◌, ◌++◌, get, length, replicate, Result, ok, arith,
}
use omoplata.Git.Bytes.{Bytes, utf8_from}
use omoplata.Git.Error.{GitError}
use omoplata.Git.Object.{blob, tree, body_of, canonical, blob_text, encode_object, decode_object}
use omoplata.Git.Object.RoundTrip.{decode_object-encode_object}
use omoplata.Git.Oid.{GitOid}
use omoplata.Git.Pack.Entries.{base_entry, parse_entry_at}
use omoplata.Git.Pack.Entries.Chains.{whole}
use omoplata.Git.Pack.Entries.Complete.{Resolves, resolve_complete}
use omoplata.Git.Pack.Index.{parse_idx, parse_pack_header}
use omoplata.Git.Pack.Reader.{PackDecode, oid_offsets, read_pack_detailed}
use omoplata.Git.Pack.Reader.Verified.{AreVerified, empty-IsSound, read_pack_detailed-AreVerified}
use omoplata.Git.Text.{find_byte, to_decimal, parse_usize}
use omoplata.Git.Trees.{GitTreeEntry, encode_tree}

abbrev abc : Bytes
abc = b'a' ∷ b'b' ∷ b'c' ∷ []

-- Streams that are stored as they are, up to the end of the pack.
abbrev stored : Bytes → Result GitError (Bytes × ℕ)
stored rest = ok (rest, length rest)

abbrev sevens : Bytes → Bytes
sevens bytes = replicate 20 7

abbrev small_pack : Bytes
small_pack = b'P' ∷ b'A' ∷ b'C' ∷ b'K' ∷ 0 ∷ 0 ∷ 0 ∷ 2 ∷ 0 ∷ 0 ∷ 0 ∷ 1 ∷ 0x33 ∷ abc

abbrev small_idx : Bytes
small_idx =
    0xff
    ∷ 0x74
    ∷ 0x4f
    ∷ 0x63
    ∷ 0
    ∷ 0
    ∷ 0
    ∷ 2
    ∷ (replicate 1020 0 ++ 0 ∷ 0 ∷ 0 ∷ 1 ∷ (replicate 20 7 ++ 0 ∷ 0 ∷ 0 ∷ 0 ∷ 0 ∷ 0 ∷ 0 ∷ 12 ∷ []))

abbrev small_decode : PackDecode
small_decode = record { objects = (replicate 20 7, blob abc) ∷ []; ofs_deltas = 0; ref_deltas = 0 }

small_read : read_pack_detailed stored sevens small_idx small_pack ≡ ok small_decode
unfolding read_pack_detailed get find_byte to_decimal utf8_from parse_usize
small_read = refl

read_pack_detailed-AreVerified_example :
    (index : List (GitOid × ℕ)) × (parse_idx small_idx ≡ ok index)
    × (parse_pack_header small_pack ≡ ok (length index))
    × AreVerified stored sevens small_pack (oid_offsets [] index) index small_decode.objects
read_pack_detailed-AreVerified_example =
    read_pack_detailed-AreVerified stored sevens small_pack small_idx small_decode small_read

small_entry : parse_entry_at stored small_pack 12 ≡ ok (base_entry 3 abc)
unfolding parse_entry_at
small_entry = refl

resolve_complete_example : Resolves stored small_pack [] 201 12 [] (3, abc)
resolve_complete_example =
    resolve_complete stored small_pack [] 200 0 12 [] (3, abc)
      (empty-IsSound stored sevens small_pack []) (whole small_entry) (omega arith)

abbrev listing : List GitTreeEntry
listing = record { mode = b'4' ∷ b'0' ∷ []; name = abc; oid = replicate 20 7 } ∷ []

listing-short : length (body_of (tree listing)) < 100
unfolding encode_tree
listing-short = omega arith

decode_object-encode_object_example :
    decode_object (encode_object (tree listing)) ≡ ok (tree listing)
unfolding utf8_from
decode_object-encode_object_example =
    decode_object-encode_object (tree listing)
      ((((refl, (refl, tt)), refl), ((refl, (refl, (refl, tt))), refl), refl), tt)
      (omega (arith, listing-short))

abc_decoded : decode_object (canonical blob_text abc) ≡ ok (blob abc)
unfolding decode_object find_byte to_decimal utf8_from parse_usize
abc_decoded = refl
