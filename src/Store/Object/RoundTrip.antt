-- ===== src/Store/Object/RoundTrip.antt =====
-- An object is read back from its canonical bytes.
use mathlib.Core.List.{append_assoc}
use omoplata.Prelude.{
  ◌≡◌, refl, sym, ◌∙◌, ℕ, ◌<◌, some, [], ◌∷◌, ◌++◌, All, length, eq_self, nat_eq, list_eq, ok,
  ◌>>=◌, arith,
}
use omoplata.Git.Bytes.{Bytes, utf8_from, is_utf8}
use omoplata.Git.Text.{usize_mod, usize_to_string}
use omoplata.Git.Text.Find.{Lacks, Lacks-append, find_byte-append}
use omoplata.Git.Text.Lines.{is_utf8-append}
use omoplata.Git.Text.Decimal.{
  parse_usize-usize_to_string, usize_to_string-Lacks, is_utf8-usize_to_string,
}
use omoplata.Store.Trees.Sorted.{IsSorted}
use omoplata.Store.Object.{
  ObjectKind, Object, kind_str, kind_of, blob_text, tree_text, parse_kind, entry_lines, payload,
  serialize, of_kind, deserialize,
}
use omoplata.Store.Object.Lines.{IsEntry, parse_tree-entry_lines}

abbrev pub IsObject : Object → Type 0
IsObject (Object.blob bytes) = length bytes < usize_mod
IsObject (Object.tree entries) =
    (IsSorted entries × All IsEntry entries) × (length (entry_lines entries) < usize_mod)

of_kind-payload : (o : Object) → IsObject o → of_kind (kind_of o) (payload o) ≡ ok o
unfolding of_kind
of_kind-payload (Object.blob bytes) small = refl
of_kind-payload (Object.tree entries) ((sorted, all), small) =
    rw (parse_tree-entry_lines entries sorted all, ◌>>=◌)

payload-small : (o : Object) → IsObject o → length (payload o) < usize_mod
payload-small (Object.blob bytes) small = small
payload-small (Object.tree entries) (fine, small) = small

kind_str-Lacks : (sep : ℕ) (kind : ObjectKind) → sep < b'0' → Lacks sep (kind_str kind)
kind_str-Lacks sep ObjectKind.blob low = ground arith
kind_str-Lacks sep ObjectKind.tree low = ground arith

parse_kind-kind_str : (kind : ObjectKind) → parse_kind (kind_str kind) ≡ some kind
parse_kind-kind_str ObjectKind.blob = refl
parse_kind-kind_str ObjectKind.tree = refl

kind_str-utf8 :
    (kind : ObjectKind) (rest : Bytes) → is_utf8 (kind_str kind ++ b' ' ∷ rest) ≡ is_utf8 rest
unfolding utf8_from
kind_str-utf8 ObjectKind.blob rest = is_utf8-append (blob_text ++ b' ' ∷ []) rest refl
kind_str-utf8 ObjectKind.tree rest = is_utf8-append (tree_text ++ b' ' ∷ []) rest refl

-- The header and the payload are told apart again.
deserialize-header :
    (kind : ObjectKind) (body : Bytes)
    → length body < usize_mod
    → deserialize (kind_str kind ++ b' ' ∷ (usize_to_string (length body) ++ 0 ∷ body))
      ≡ of_kind kind body
unfolding deserialize
deserialize-header kind body small =
    let size = length body in
    let header = kind_str kind ++ b' ' ∷ usize_to_string size in
    rw (
      sym (append_assoc (kind_str kind) (b' ' ∷ usize_to_string size) (0 ∷ body)),
      find_byte-append 0 header body (
          Lacks-append 0 (kind_str kind) (b' ' ∷ usize_to_string size)
            (kind_str-Lacks 0 kind (omega arith))
            (refl, usize_to_string-Lacks size 0 small (omega arith))),
      ◌>>=◌,
      kind_str-utf8 kind (usize_to_string size) ∙ is_utf8-usize_to_string size small,
      ◌>>=◌,
      find_byte-append b' ' (kind_str kind) (usize_to_string size)
          (kind_str-Lacks b' ' kind (omega arith)),
      ◌>>=◌,
      parse_kind-kind_str kind,
      ◌>>=◌,
      parse_usize-usize_to_string size small,
      ◌>>=◌,
      eq_self size,
    )

-- A blob shorter than 2^64, and a tree that is sorted and whose entries have valid names in UTF-8 and
-- ids with a digest of 32 bytes, with a payload shorter than 2^64, are read back from their bytes.
pub deserialize-serialize : (o : Object) → IsObject o → deserialize (serialize o) ≡ ok o
unfolding serialize
deserialize-serialize o fine =
    deserialize-header (kind_of o) (payload o) (payload-small o fine) ∙ of_kind-payload o fine
