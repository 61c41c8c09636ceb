-- ===== src/Git/Object.antt =====
-- crates/omoplata-git/src/object.rs: the encoding and decoding of objects. A text is its bytes.
pub mod RoundTrip
use omoplata.Prelude.{
  ℕ, Bool, true, false, Option, none, some, List, [], ◌∷◌, ◌++◌, length, ◌==◌, nat_eq, list_eq,
  Result, ok, err, ◌>>=◌, ok_or, if◌then◌else◌,
}
use omoplata.Git.Bytes.{Bytes, is_utf8}
use omoplata.Git.Error.{GitError}
use omoplata.Git.Headers.{GitCommit, GitTag, tree_text, tag_text, parse_commit, parse_tag}
use omoplata.Git.Text.{find_byte, parse_usize, usize_to_string}
use omoplata.Git.Trees.{GitTreeEntry, utf8_or, encode_tree, decode_tree}

pub data GitObject : Type 0 where
  blob : Bytes → GitObject
  tree : List GitTreeEntry → GitObject
  commit : GitCommit → GitObject
  tag : GitTag → GitObject

abbrev pub blob_text : Bytes
blob_text = b'b' ∷ b'l' ∷ b'o' ∷ b'b' ∷ []

abbrev pub commit_text : Bytes
commit_text = b'c' ∷ b'o' ∷ b'm' ∷ b'm' ∷ b'i' ∷ b't' ∷ []

abbrev pub type_str : GitObject → Bytes
type_str (blob b) = blob_text
type_str (tree entries) = tree_text
type_str (commit c) = commit_text
type_str (tag t) = tag_text

abbrev pub body_of : GitObject → Bytes
body_of (blob b) = b
body_of (tree entries) = encode_tree entries
body_of (commit c) = c.body
body_of (tag t) = t.body

-- `"{type} {len}\0{body}"`
abbrev pub canonical : Bytes → Bytes → Bytes
canonical ty body = ty ++ b' ' ∷ (usize_to_string (length body) ++ 0 ∷ body)

unfoldable pub encode_object : GitObject → Bytes
encode_object object = canonical (type_str object) (body_of object)

-- The match on the type.
unfoldable pub decode_body : Bytes → Bytes → Result GitError GitObject
decode_body ty body =
    if ty == blob_text
    then ok (blob body)
    else if ty == tree_text
    then (do entries ← decode_tree body; ok (tree entries))
    else if ty == commit_text
    then (do c ← parse_commit body; ok (commit c))
    else if ty == tag_text
    then (do t ← parse_tag body; ok (tag t))
    else err (GitError.decode "unknown object type")

abbrev pub decode_sized : Bytes → ℕ → Bytes → Result GitError GitObject
decode_sized ty size body =
    if length body == size
    then decode_body ty body
    else err (GitError.decode "declared size does not match body length")

unfoldable pub decode_object : Bytes → Result GitError GitObject
unfolding decode_body
decode_object bytes = do
  (ty, rest) ← ok_or (find_byte b' ' bytes) (GitError.decode "missing type/size separator")
  (size_s, body) ← ok_or (find_byte 0 rest) (GitError.decode "missing header NUL")
  size_s' ← utf8_or size_s (GitError.decode "non-utf8 size")
  size ← ok_or (parse_usize size_s') (GitError.decode "bad size")
  decode_sized ty size body

-- The oid of an object; `sha1` is the hash of the bytes.
unfoldable pub oid_of : (Bytes → Bytes) → GitObject → Bytes
unfolding encode_object
oid_of sha1 object = sha1 (encode_object object)
