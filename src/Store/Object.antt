-- ===== src/Store/Object.antt =====
-- crates/omoplata-store/src/object.rs: objects, their canonical bytes and their ids. A text is its
-- bytes; the hash of the `sha2` crate is a parameter.
pub mod Lines
pub mod Parsed
pub mod RoundTrip
use omoplata.Prelude.{
  ℕ, Bool, true, false, Option, none, some, List, [], ◌∷◌, ◌++◌, length, empty, ◌==◌, nat_eq,
  list_eq, String, Result, ok, err, ◌>>=◌, ok_or, if◌then◌else◌,
}
use omoplata.Git.Bytes.{Bytes, is_utf8}
use omoplata.Git.Text.{find_byte, split_lines, parse_usize, usize_to_string}
use omoplata.Store.Error.{ObjectError, corrupt, panicked}
use omoplata.Store.Ids.{HashAlg, sha256, ObjectId, id_to_string, parse_id}
use omoplata.Store.Trees.{EntryKind, TreeEntry, Tree, tree_insert}

pub data ObjectKind : Type 0 where
  blob tree : ObjectKind

abbrev pub blob_text : Bytes
blob_text = b'b' ∷ b'l' ∷ b'o' ∷ b'b' ∷ []

abbrev pub tree_text : Bytes
tree_text = b't' ∷ b'r' ∷ b'e' ∷ b'e' ∷ []

abbrev pub kind_str : ObjectKind → Bytes
kind_str ObjectKind.blob = blob_text
kind_str ObjectKind.tree = tree_text

abbrev pub parse_kind : Bytes → Option ObjectKind
parse_kind text =
    if text == blob_text
    then some ObjectKind.blob
    else if text == tree_text
    then some ObjectKind.tree
    else none

abbrev pub entry_kind_str : EntryKind → Bytes
entry_kind_str EntryKind.blob = blob_text
entry_kind_str EntryKind.tree = tree_text

abbrev pub parse_entry_kind : Bytes → Option EntryKind
parse_entry_kind text =
    if text == blob_text
    then some EntryKind.blob
    else if text == tree_text
    then some EntryKind.tree
    else none

pub data Object : Type 0 where
  blob : Bytes → Object
  tree : Tree → Object

abbrev pub kind_of : Object → ObjectKind
kind_of (Object.blob bytes) = ObjectKind.blob
kind_of (Object.tree entries) = ObjectKind.tree

-- `"{kind} {id} {name}"`
abbrev pub entry_line : TreeEntry → Bytes
entry_line e = entry_kind_str e.kind ++ b' ' ∷ (id_to_string e.id ++ b' ' ∷ e.name)

unfoldable pub entry_lines : Tree → Bytes
entry_lines [] = []
entry_lines (e ∷ entries) = entry_line e ++ b'\n' ∷ entry_lines entries

abbrev pub payload : Object → Bytes
payload (Object.blob bytes) = bytes
payload (Object.tree entries) = entry_lines entries

-- `"{kind} {payload_len}\0{payload}"`
unfoldable pub serialize : Object → Bytes
serialize object =
    let body = payload object in
    kind_str (kind_of object) ++ b' ' ∷ (usize_to_string (length body) ++ 0 ∷ body)

-- `text.split_terminator('\n')`: what `split` gives, less an empty text at the end.
unfoldable pub terminated : List Bytes → List Bytes
terminated [] = []
terminated (line ∷ []) = if empty line then [] else line ∷ []
terminated (line ∷ next ∷ lines) = line ∷ terminated (next ∷ lines)

-- The `map_err` of the id, which a panic passes by.
abbrev pub bad_id : Result ObjectError ObjectId → Result ObjectError ObjectId
bad_id (ok id) = ok id
bad_id (err panicked) = err panicked
bad_id (err _) = err (corrupt "tree entry: bad id")

abbrev pub bad_name : Result ObjectError Tree → Result ObjectError Tree
bad_name (ok entries) = ok entries
bad_name (err e) = err (corrupt "tree entry: bad name")

-- One round of the loop of `parse_tree`: the line's three parts, of which the name may have blanks.
unfoldable pub parse_entry : Tree → Bytes → Result ObjectError Tree
parse_entry entries line = do
  (kind_s, rest) ← ok_or (find_byte b' ' line) (corrupt "tree entry: no id")
  (id_s, name) ← ok_or (find_byte b' ' rest) (corrupt "tree entry: no name")
  kind ← ok_or (parse_entry_kind kind_s) (corrupt "tree entry: bad kind")
  id ← bad_id (parse_id id_s)
  bad_name (tree_insert entries name kind id)

unfoldable pub parse_entries : Tree → List Bytes → Result ObjectError Tree
unfolding parse_entry
parse_entries entries [] = ok entries
parse_entries entries (line ∷ lines) = do more ← parse_entry entries line; parse_entries more lines

-- `std::str::from_utf8(text)`, with the error that the caller gives it.
abbrev pub utf8_text : Bytes → String → Result ObjectError Bytes
utf8_text text reason = if is_utf8 text then ok text else err (corrupt reason)

unfoldable pub parse_tree : Bytes → Result ObjectError Tree
unfolding parse_entries terminated
parse_tree [] = ok []
parse_tree (b ∷ bytes) = do
  text ← utf8_text (b ∷ bytes) "non-utf8 tree payload"
  parse_entries [] (terminated (split_lines text))

unfoldable pub of_kind : ObjectKind → Bytes → Result ObjectError Object
unfolding parse_tree
of_kind ObjectKind.blob body = ok (Object.blob body)
of_kind ObjectKind.tree body = do entries ← parse_tree body; ok (Object.tree entries)

abbrev pub check_len : ObjectKind → ℕ → Bytes → Result ObjectError Object
check_len kind len body =
    if length body == len then of_kind kind body else err (corrupt "length mismatch")

unfoldable pub deserialize : Bytes → Result ObjectError Object
deserialize bytes = do
  (head, body) ← ok_or (find_byte 0 bytes) (corrupt "missing header terminator")
  header ← utf8_text head "non-utf8 header"
  (kind_s, len_s) ← ok_or (find_byte b' ' header) (corrupt "malformed header")
  kind ← ok_or (parse_kind kind_s) (corrupt "unknown kind")
  len ← ok_or (parse_usize len_s) (corrupt "bad length")
  check_len kind len body

module _ (hash : Bytes → Bytes) where
  -- Content address under an algorithm; `hash` is SHA-256.
  unfoldable pub id_with : HashAlg → Object → ObjectId
  unfolding serialize
  id_with sha256 object = record { alg = sha256; digest = hash (serialize object) }

  abbrev pub id_of : Object → ObjectId
  id_of object = id_with sha256 object
