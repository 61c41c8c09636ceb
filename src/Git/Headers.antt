-- ===== src/Git/Headers.antt =====
-- crates/omoplata-git/src/object.rs: the headers of commits and tags. A text is its bytes.
use omoplata.Prelude.{
  ℕ, Option, none, some, List, [], ◌∷◌, ◌++◌, length, ◌==◌, nat_eq, list_eq, Result, ok, err, ◌>>=◌,
  ok_or, if◌then◌else◌,
}
use omoplata.Git.Bytes.{Bytes, is_utf8}
use omoplata.Git.Error.{GitError}
use omoplata.Git.Oid.{GitOid, from_hex}
use omoplata.Git.Text.{find_byte, split_lines, trim_start, trim_end, utf8_lossy}

abbrev pub cons_header : ℕ → Bytes × Bytes → Bytes × Bytes
cons_header b (header, message) = (b ∷ header, message)

-- At the first empty line.
unfoldable pub split_headers : Bytes → Bytes × Bytes
split_headers [] = ([], [])
split_headers (b ∷ []) = (b ∷ [], [])
split_headers (b ∷ c ∷ body) =
    let rest = split_headers (c ∷ body) in
    if b == b'\n'
    then (if c == b'\n' then ([], body) else cons_header b rest)
    else cons_header b rest

-- A line that goes on with the value of the header before it, if there is one.
unfoldable pub continue_last : List (Bytes × Bytes) → Bytes → List (Bytes × Bytes)
continue_last [] cont = []
continue_last ((key, value) ∷ []) cont = (key, value ++ b'\n' ∷ cont) ∷ []
continue_last (h ∷ k ∷ headers) cont = h ∷ continue_last (k ∷ headers) cont

unfoldable pub header_of : Bytes → Bytes × Bytes
unfolding find_byte
header_of line = elim (find_byte b' ' line) [ some parts ↦ parts | none ↦ (line, []) ]

unfoldable pub add_line : List (Bytes × Bytes) → Bytes → List (Bytes × Bytes)
unfolding continue_last header_of
add_line headers [] = headers ++ header_of [] ∷ []
add_line headers (c ∷ cont) =
    if c == b' ' then continue_last headers cont else headers ++ header_of (c ∷ cont) ∷ []

unfoldable pub header_loop : List (Bytes × Bytes) → List Bytes → List (Bytes × Bytes)
header_loop headers [] = headers
header_loop headers (line ∷ lines) = header_loop (add_line headers line) lines

unfoldable pub parse_headers : Bytes → Result GitError (List (Bytes × Bytes))
unfolding header_loop split_lines
parse_headers block =
    if is_utf8 block
    then ok (header_loop [] (split_lines block))
    else err (GitError.decode "non-utf8 commit/tag header")

-- `GitOid::from_hex(value.trim())`, with the error that the caller gives it.
unfoldable pub trimmed_oid : Bytes → GitError → Result GitError GitOid
unfolding trim_start trim_end from_hex
trimmed_oid value reason =
    elim (from_hex (trim_end (length value) (trim_start (length value) value))) [
      | ok oid ↦ ok oid
      | err e ↦ err reason
    ]

pub record GitCommit : Type 0 where
  pub tree : GitOid
  pub parents : List GitOid
  pub author : Bytes
  pub committer : Bytes
  pub message : Bytes
  pub body : Bytes

-- What the loop over the headers of a commit keeps.
pub record CommitHeaders : Type 0 where
  pub tree : Option GitOid
  pub parents : List GitOid
  pub author : Bytes
  pub committer : Bytes

abbrev pub tree_text : Bytes
tree_text = b't' ∷ b'r' ∷ b'e' ∷ b'e' ∷ []

abbrev pub parent_text : Bytes
parent_text = b'p' ∷ b'a' ∷ b'r' ∷ b'e' ∷ b'n' ∷ b't' ∷ []

abbrev pub author_text : Bytes
author_text = b'a' ∷ b'u' ∷ b't' ∷ b'h' ∷ b'o' ∷ b'r' ∷ []

abbrev pub committer_text : Bytes
committer_text = b'c' ∷ b'o' ∷ b'm' ∷ b'm' ∷ b'i' ∷ b't' ∷ b't' ∷ b'e' ∷ b'r' ∷ []

unfoldable pub commit_header : CommitHeaders → Bytes × Bytes → Result GitError CommitHeaders
commit_header h (key, value) =
    if key == tree_text
    then elim (trimmed_oid value (GitError.decode "commit tree header is not a 40-hex oid")) [
      | err e ↦ err e
      | ok oid ↦ ok (record h { tree = some oid })
    ]
    else if key == parent_text
    then elim (trimmed_oid value (GitError.decode "commit parent header is not a 40-hex oid")) [
      | err e ↦ err e
      | ok oid ↦ ok (record h { parents = h.parents ++ oid ∷ [] })
    ]
    else if key == author_text
    then ok (record h { author = value })
    else if key == committer_text
    then ok (record h { committer = value })
    else ok h

unfoldable pub commit_headers : CommitHeaders → List (Bytes × Bytes) → Result GitError CommitHeaders
unfolding commit_header
commit_headers h [] = ok h
commit_headers h (kv ∷ headers) = do h' ← commit_header h kv; commit_headers h' headers

unfoldable pub parse_commit : Bytes → Result GitError GitCommit
unfolding split_headers parse_headers commit_headers
parse_commit body = do
  headers ← parse_headers (split_headers body).0
  h ← commit_headers (record { tree = none; parents = []; author = []; committer = [] }) headers
  tree ← ok_or h.tree (GitError.decode "commit missing tree header")
  ok (record {
    tree = tree;
    parents = h.parents;
    author = h.author;
    committer = h.committer;
    message = utf8_lossy (split_headers body).1;
    body = body;
  })

pub record GitTag : Type 0 where
  pub object : GitOid
  pub kind : Bytes
  pub tag : Bytes
  pub tagger : Bytes
  pub message : Bytes
  pub body : Bytes

-- What the loop over the headers of a tag keeps.
pub record TagHeaders : Type 0 where
  pub object : Option GitOid
  pub kind : Bytes
  pub tag : Bytes
  pub tagger : Bytes

abbrev pub object_text : Bytes
object_text = b'o' ∷ b'b' ∷ b'j' ∷ b'e' ∷ b'c' ∷ b't' ∷ []

abbrev pub type_text : Bytes
type_text = b't' ∷ b'y' ∷ b'p' ∷ b'e' ∷ []

abbrev pub tag_text : Bytes
tag_text = b't' ∷ b'a' ∷ b'g' ∷ []

abbrev pub tagger_text : Bytes
tagger_text = b't' ∷ b'a' ∷ b'g' ∷ b'g' ∷ b'e' ∷ b'r' ∷ []

unfoldable pub tag_header : TagHeaders → Bytes × Bytes → Result GitError TagHeaders
tag_header h (key, value) =
    if key == object_text
    then elim (trimmed_oid value (GitError.decode "tag object header is not a 40-hex oid")) [
      | err e ↦ err e
      | ok oid ↦ ok (record h { object = some oid })
    ]
    else if key == type_text
    then ok (record h { kind = value })
    else if key == tag_text
    then ok (record h { tag = value })
    else if key == tagger_text
    then ok (record h { tagger = value })
    else ok h

unfoldable pub tag_headers : TagHeaders → List (Bytes × Bytes) → Result GitError TagHeaders
unfolding tag_header
tag_headers h [] = ok h
tag_headers h (kv ∷ headers) = do h' ← tag_header h kv; tag_headers h' headers

unfoldable pub parse_tag : Bytes → Result GitError GitTag
unfolding split_headers parse_headers tag_headers
parse_tag body = do
  headers ← parse_headers (split_headers body).0
  h ← tag_headers (record { object = none; kind = []; tag = []; tagger = [] }) headers
  object ← ok_or h.object (GitError.decode "tag missing object header")
  ok (record {
    object = object;
    kind = h.kind;
    tag = h.tag;
    tagger = h.tagger;
    message = utf8_lossy (split_headers body).1;
    body = body;
  })
