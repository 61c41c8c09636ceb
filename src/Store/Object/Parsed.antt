-- ===== src/Store/Object/Parsed.antt =====
-- A tree that was read is sorted, whatever the bytes that it was read from.
use omoplata.Prelude.{
  ◌≡◌, refl, ap, sym, ◌∙◌, inl, inr, List, [], ◌∷◌, All, length, ◌==◌, nat_eq, Result, ok, err,
  ◌>>=◌, ok_or, bind-ok, ok-inj, Bool-cases,
}
use omoplata.Git.Bytes.{Bytes}
use omoplata.Git.Text.{find_byte, split_lines, parse_usize}
use omoplata.Store.Error.{ObjectError, corrupt}
use omoplata.Store.Ids.{ObjectId, parse_id}
use omoplata.Store.Trees.{EntryKind, TreeEntry, Tree, place, tree_insert}
use omoplata.Store.Trees.Names.{IsName, validate_name-cases}
use omoplata.Store.Trees.Sorted.{IsSorted, All-place, place-IsSorted}
use omoplata.Store.Object.{
  ObjectKind, Object, parse_kind, parse_entry_kind, terminated, bad_id, bad_name, parse_entry,
  parse_entries, utf8_text, parse_tree, of_kind, deserialize,
}

-- Sorted, with a name in each entry that may stand there.
abbrev pub IsTree : Tree → Type 0
IsTree t = IsSorted t × All (λ (e : TreeEntry). IsName e.name) t

bad_name-ok : (r : Result ObjectError Tree) (t : Tree) → bad_name r ≡ ok t → r ≡ ok t
bad_name-ok (ok t') t h = h
bad_name-ok (err e) t h = absurd (cc (h))

tree_insert-IsTree :
    (t t' : Tree) (name : Bytes) (kind : EntryKind) (id : ObjectId)
    → IsTree t
    → tree_insert t name kind id ≡ ok t'
    → IsTree t'
unfolding tree_insert
tree_insert-IsTree t t' name kind id (sorted, names) h =
    let e : TreeEntry = record { name = name; kind = kind; id = id } in
    elim (validate_name-cases name) [
      | inl (good, valid) ↦
          let placed : place t e ≡ t' = ok-inj (sym (rw (valid, ◌>>=◌) refl) ∙ h) in
          rw (← placed) (
            (
              place-IsSorted t e sorted,
              All-place (λ (x : TreeEntry). IsName x.name) t e good names,
            ))
      | inr (bad, refused) ↦ absurd (cc (rw (refused, ◌>>=◌) at (h)))
    ]

parse_entry-IsTree :
    (t t' : Tree) (line : Bytes) → IsTree t → parse_entry t line ≡ ok t' → IsTree t'
unfolding parse_entry
parse_entry-IsTree t t' line fine h =
    let ((kind_s, rest), e1, h1) =
      bind-ok (ok_or (find_byte b' ' line) (corrupt "tree entry: no id")) _ h in
    let ((id_s, name), e2, h2) =
      bind-ok (ok_or (find_byte b' ' rest) (corrupt "tree entry: no name")) _ h1 in
    let (kind, e3, h3) =
      bind-ok (ok_or (parse_entry_kind kind_s) (corrupt "tree entry: bad kind")) _ h2 in
    let (id, e4, h4) = bind-ok (bad_id (parse_id id_s)) _ h3 in
    tree_insert-IsTree t t' name kind id fine (bad_name-ok (tree_insert t name kind id) t' h4)

parse_entries-IsTree :
    (t t' : Tree) (lines : List Bytes) → IsTree t → parse_entries t lines ≡ ok t' → IsTree t'
unfolding parse_entries
parse_entries-IsTree t t' [] fine h = rw (← ok-inj h) fine
parse_entries-IsTree t t' (line ∷ lines) fine h =
    let (more, e1, h1) = bind-ok (parse_entry t line) _ h in
    parse_entries-IsTree more t' lines (parse_entry-IsTree t more line fine e1) h1

parse_tree-IsTree : (text : Bytes) (t : Tree) → parse_tree text ≡ ok t → IsTree t
unfolding parse_tree
parse_tree-IsTree [] t h = rw (← ok-inj h) ((tt, tt))
parse_tree-IsTree (b ∷ text) t h =
    let (text', e1, h1) = bind-ok (utf8_text (b ∷ text) "non-utf8 tree payload") _ h in
    parse_entries-IsTree [] t (terminated (split_lines text')) (tt, tt) h1

of_kind-IsTree :
    (kind : ObjectKind) (body : Bytes) (t : Tree)
    → of_kind kind body ≡ ok (Object.tree t)
    → IsTree t
unfolding of_kind
of_kind-IsTree ObjectKind.blob body t h = absurd (cc (h))
of_kind-IsTree ObjectKind.tree body t h =
    let (t', e1, h1) = bind-ok (parse_tree body) (λ es. ok (Object.tree es)) h in
    let same : t' ≡ t =
      ap (λ (o : Result ObjectError Object). elim o [ ok (Object.tree es) ↦ es | _ ↦ t' ]) h1 in
    rw (← same) (parse_tree-IsTree body t' e1)

-- A tree that is read from any bytes is sorted, has no name twice, and no name in it is empty, `.` or
-- `..`, or holds a slash, a NUL or an end of line.
pub deserialize-IsTree :
    (bytes : Bytes) (t : Tree) → deserialize bytes ≡ ok (Object.tree t) → IsTree t
unfolding deserialize
deserialize-IsTree bytes t h =
    let ((head, body), e1, h1) =
      bind-ok (ok_or (find_byte 0 bytes) (corrupt "missing header terminator")) _ h in
    let (header, e2, h2) = bind-ok (utf8_text head "non-utf8 header") _ h1 in
    let ((kind_s, len_s), e3, h3) =
      bind-ok (ok_or (find_byte b' ' header) (corrupt "malformed header")) _ h2 in
    let (kind, e4, h4) = bind-ok (ok_or (parse_kind kind_s) (corrupt "unknown kind")) _ h3 in
    let (len, e5, h5) = bind-ok (ok_or (parse_usize len_s) (corrupt "bad length")) _ h4 in
    elim (Bool-cases (length body == len)) [
      | inl fits ↦ of_kind-IsTree kind body t (rw (fits) at (h5))
      | inr off ↦ absurd (cc (rw (off) at (h5)))
    ]
