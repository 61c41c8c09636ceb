-- ===== src/Git/Trees.antt =====
-- crates/omoplata-git/src/object.rs: the entries of a tree. A text is its bytes.
pub mod RoundTrip
use omoplata.Prelude.{
  ℕ, zero, suc, ◌+◌, ◌-◌, Bool, true, false, Option, none, some, List, [], ◌∷◌, ◌++◌, length, take,
  drop, leb, Result, ok, err, ◌>>=◌, ok_or, if◌then◌else◌,
}
use omoplata.Git.Bytes.{Bytes, is_utf8}
use omoplata.Git.Error.{GitError, returned}
use omoplata.Git.Text.{find_byte}

pub record GitTreeEntry : Type 0 where
  pub mode : Bytes
  pub name : Bytes
  pub oid : Bytes

abbrev pub encode_entry : GitTreeEntry → Bytes
encode_entry e = e.mode ++ b' ' ∷ (e.name ++ 0 ∷ e.oid)

unfoldable pub encode_tree : List GitTreeEntry → Bytes
encode_tree [] = []
encode_tree (e ∷ entries) = encode_entry e ++ encode_tree entries

-- `std::str::from_utf8(text)`, with the error that the caller gives it.
abbrev pub utf8_or : Bytes → GitError → Result GitError Bytes
utf8_or text reason = if is_utf8 text then ok text else err reason

abbrev pub entry_of : Bytes → Bytes → Bytes → Result GitError (GitTreeEntry × Bytes)
entry_of mode name rest =
    if leb 20 (length rest)
    then ok (record { mode = mode; name = name; oid = take 20 rest }, drop 20 rest)
    else err (GitError.decode "tree entry: truncated oid")

-- One round of the loop: an entry, and the body behind it.
unfoldable pub tree_entry : Bytes → Result GitError (GitTreeEntry × Bytes)
tree_entry body = do
  (mode, rest) ← ok_or (find_byte b' ' body) (GitError.decode "tree entry: missing mode separator")
  mode' ← utf8_or mode (GitError.decode "tree entry: non-utf8 mode")
  (name, rest') ← ok_or (find_byte 0 rest) (GitError.decode "tree entry: missing name NUL")
  name' ← utf8_or name (GitError.decode "tree entry: non-utf8 name")
  entry_of mode' name' rest'

-- The loop. Each entry takes a byte at least; `none` means that the fuel ran out.
unfoldable pub tree_loop :
    ℕ → List GitTreeEntry → Bytes → Option (Result GitError (List GitTreeEntry))
tree_loop fuel entries [] = some (ok entries)
tree_loop zero entries (b ∷ body) = none
tree_loop (suc fuel) entries (b ∷ body) = elim (tree_entry (b ∷ body)) [
  | err e ↦ some (err e)
  | ok (entry, rest) ↦ tree_loop fuel (entries ++ entry ∷ []) rest
]

unfoldable pub decode_tree : Bytes → Result GitError (List GitTreeEntry)
unfolding tree_loop
decode_tree body = returned (tree_loop (length body) [] body)
