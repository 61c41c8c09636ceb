-- ===== src/Tests/Store.antt =====
-- The object store at concrete inputs.
use omoplata.Prelude.{
  ◌<◌, ◌≡◌, ◌≢◌, ◌⊎◌, refl, ap, sym, ◌∙◌, inl, inr, Bool, true, false, some, [], ◌∷◌, All, length,
  replicate, ◌==◌, nat_eq, list_eq, eq→eq, eq_self, ok, err, Bool-cases, if◌then◌else◌, get, arith,
}
use omoplata.Algebra.Doc.{Doc, from_lines, from_str, to_string}
use omoplata.Git.Text.{usize_mod}
use omoplata.Store.Text.{as_bytes}
use omoplata.Work.Autorebase.{load_doc, store_doc}
use omoplata.Work.Autorebase.Contents.{blob_of, load_doc-store_doc}
use omoplata.Git.Bytes.{Bytes, IsByte}
use omoplata.Store.Error.{invalid_name, panicked}
use omoplata.Git.Bytes.{utf8_from}
use omoplata.Git.Text.{find_byte, parse_usize, decimal_digits, to_decimal}
use omoplata.Git.Oid.{hex_encode}
use omoplata.Store.Ids.{
  alg_str, hex_decode, digit_pairs, is_char_boundary, is_even, parse_alg, ObjectId, sha256,
  id_to_string, parse_id,
}
use omoplata.Store.Ids.RoundTrip.{IsId}
use omoplata.Store.Trees.{TreeEntry, EntryKind, Tree, cmp, tree_insert, tree_get}
use omoplata.Store.Trees.Names.{IsName}
use omoplata.Store.Trees.Sorted.{IsSorted}
use omoplata.Store.Trees.Lookup.{tree_insert_lem}
use omoplata.Store.Object.{entry_lines, of_kind, Object, serialize, deserialize, id_with, id_of}
use omoplata.Store.Object.RoundTrip.{IsObject, deserialize-serialize}
use omoplata.Store.Object.Parsed.{IsTree, deserialize-IsTree}
use omoplata.Store.Repository.{object_path, Repository, write_object, read_object}
use omoplata.Store.Repository.Integrity.{IsStore, IsSha256, NoCollision, read_object-write_object}

abbrev greeting : Object
greeting = Object.blob (b'h' ∷ [])

-- A hash with two values.
toy_digest : Bool → Bytes
toy_digest b = replicate 32 (if b then 1 else 0)

abbrev toy_hash : Bytes → Bytes
toy_hash bytes = toy_digest (bytes == serialize greeting)

toy-sized : (b : Bool) → All IsByte (toy_digest b) × (length (toy_digest b) ≡ 32)
unfolding toy_digest
toy-sized b = ground arith

toy_hash-IsSha256 : IsSha256 toy_hash
toy_hash-IsSha256 bytes = toy-sized (bytes == serialize greeting)

toy-apart : toy_digest false ≢ toy_digest true
unfolding toy_digest
toy-apart same = absurd (cc (same))

greeting-NoCollision : NoCollision toy_hash greeting
greeting-NoCollision bytes same = elim (Bool-cases (bytes == serialize greeting)) [
  | inl one ↦ eq→eq bytes (serialize greeting) one
  | inr other ↦
      let self = eq_self (serialize greeting) in
      absurd (toy-apart (ap toy_digest (sym other) ∙ same ∙ ap toy_digest self))
]

abbrev nothing_stored : Repository
nothing_stored = record { files = [] }

nothing_stored-IsStore : IsStore toy_hash nothing_stored
unfolding get
nothing_stored-IsStore id is_id = inl refl

greeting-IsObject : IsObject greeting
greeting-IsObject = omega arith

read_object-write_object_example :
    (read_object toy_hash
        (write_object toy_hash nothing_stored greeting).0
        (write_object toy_hash nothing_stored greeting).1
      ≡ ok greeting)
    × ((id : ObjectId)
        → IsId id
        → id ≢ id_of toy_hash greeting
        → read_object toy_hash (write_object toy_hash nothing_stored greeting).0 id
          ≡ read_object toy_hash nothing_stored id)
read_object-write_object_example =
    read_object-write_object toy_hash nothing_stored greeting toy_hash-IsSha256 greeting-IsObject
      nothing_stored-IsStore greeting-NoCollision

read_greeting :
    read_object toy_hash (write_object toy_hash nothing_stored greeting).0 (id_of toy_hash greeting)
    ≡ ok greeting
unfolding write_object id_with
read_greeting = read_object-write_object_example.0

abbrev zero_id : ObjectId
zero_id = record { alg = sha256; digest = replicate 32 0 }

abbrev readme : TreeEntry
readme = record { name = b'r' ∷ b' ' ∷ b'm' ∷ []; kind = EntryKind.blob; id = zero_id }

abbrev source : TreeEntry
source = record { name = b's' ∷ []; kind = EntryKind.tree; id = zero_id }

abbrev listing : Tree
listing = readme ∷ source ∷ []

listing-IsSorted : IsSorted listing
unfolding cmp
listing-IsSorted = ((refl, tt), (tt, tt))

readme-IsName : IsName readme.name
readme-IsName = (
  refl,
  (λ same. absurd (cc (same)), λ same. absurd (cc (same))),
  ((refl, (refl, (refl, tt))), (refl, (refl, (refl, tt))), (refl, (refl, (refl, tt)))),
)

source-IsName : IsName source.name
source-IsName = (
  refl,
  (λ same. absurd (cc (same)), λ same. absurd (cc (same))),
  ((refl, tt), (refl, tt), (refl, tt)),
)

zero_id-IsId : IsId zero_id
zero_id-IsId = (ground arith, omega arith)

listing-IsObject : IsObject (Object.tree listing)
unfolding entry_lines id_to_string alg_str hex_encode utf8_from
listing-IsObject = (
  (
    listing-IsSorted,
    ((readme-IsName, refl, zero_id-IsId), ((source-IsName, refl, zero_id-IsId), tt)),
  ),
  omega arith,
)

deserialize-serialize_example :
    deserialize (serialize (Object.tree listing)) ≡ ok (Object.tree listing)
deserialize-serialize_example = deserialize-serialize (Object.tree listing) listing-IsObject

deserialize-IsTree_example : IsTree listing
deserialize-IsTree_example =
    deserialize-IsTree (serialize (Object.tree listing)) listing deserialize-serialize_example

abbrev middle : Bytes
middle = b's' ∷ b'/' ∷ []

tree_insert_lem_example :
    (IsName middle
      × ((t : Tree) × (tree_insert listing middle EntryKind.blob zero_id ≡ ok t)
          × IsSorted t
          × ((other : Bytes)
              → tree_get t other ≡ (
                  if middle == other
                  then some (record { name = middle; kind = EntryKind.blob; id = zero_id })
                  else tree_get listing other))))
    ⊎ (¬ IsName middle
        × (tree_insert listing middle EntryKind.blob zero_id ≡ err (invalid_name middle)))
tree_insert_lem_example = tree_insert_lem listing middle EntryKind.blob zero_id listing-IsSorted

-- A text of even length with a character that the slices cut: `sha256:a`, then two bytes, then a dot.
abbrev cut : Bytes
cut = b's' ∷ b'h' ∷ b'a' ∷ b'2' ∷ b'5' ∷ b'6' ∷ b':' ∷ b'a' ∷ 0xc3 ∷ 0xa9 ∷ b'.' ∷ []

cut_panics : parse_id cut ≡ err panicked
unfolding parse_id find_byte hex_decode digit_pairs is_char_boundary is_even parse_alg
cut_panics = refl

-- Bytes that are not the canonical ones pass the check of the id: the declared length has a sign.
abbrev signed : Bytes
signed = b'b' ∷ b'l' ∷ b'o' ∷ b'b' ∷ b' ' ∷ b'+' ∷ b'1' ∷ 0 ∷ b'h' ∷ []

signed_is_read :
    read_object toy_hash
      (record { files = (object_path (id_of toy_hash greeting), signed) ∷ [] })
      (id_of toy_hash greeting)
    ≡ ok greeting
unfolding read_object object_path alg_str hex_encode get deserialize find_byte parse_usize
    decimal_digits utf8_from id_with toy_digest serialize to_decimal of_kind
signed_is_read = refl

-- The document of the greeting.
abbrev greeting_doc : Doc
greeting_doc = from_lines ("h" ∷ [])

greeting_doc-NoCollision : NoCollision toy_hash (blob_of toy_hash greeting_doc)
unfolding as_bytes to_string
greeting_doc-NoCollision = greeting-NoCollision

greeting_doc-short : length (as_bytes (to_string greeting_doc)) < usize_mod
unfolding as_bytes to_string
greeting_doc-short = omega arith

load_doc-store_doc_example :
    (load_doc toy_hash
        (store_doc toy_hash nothing_stored greeting_doc).0
        (store_doc toy_hash nothing_stored greeting_doc).1
      ≡ ok (from_str (to_string greeting_doc)))
    × IsStore toy_hash (store_doc toy_hash nothing_stored greeting_doc).0
load_doc-store_doc_example =
    load_doc-store_doc toy_hash nothing_stored greeting_doc toy_hash-IsSha256 greeting_doc-short
      nothing_stored-IsStore greeting_doc-NoCollision
