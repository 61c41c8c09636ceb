-- ===== src/Store/Object/Lines.antt =====
-- The entries of a tree are read back from the lines they are written on.
use mathlib.Core.List.{append_assoc, append-nil}
use omoplata.Prelude.{
  ◌≡◌, refl, ap, sym, ◌∙◌, ℕ, ◌<◌, true, some, List, [], ◌∷◌, ◌++◌, All, nat_eq, list_eq, ok, ◌>>=◌,
  arith,
}
use omoplata.Git.Bytes.{Bytes, utf8_from, is_utf8}
use omoplata.Git.Text.{split_lines}
use omoplata.Git.Text.Find.{Lacks, Lacks-append, find_byte-append}
use omoplata.Git.Text.Lines.{split_lines-append, split_lines-line, is_utf8-append, is_utf8-ascii}
use omoplata.Store.Ids.{id_to_string}
use omoplata.Store.Ids.RoundTrip.{
  IsId, IsVisible, parse_id-id_to_string, id_to_string-IsVisible, id_to_string-Lacks,
}
use omoplata.Store.Trees.{EntryKind, TreeEntry, Tree, place, tree_insert}
use omoplata.Store.Trees.Names.{IsName, IsName-validate_name}
use omoplata.Store.Trees.Sorted.{Below, IsSorted, place-lt, place_first}
use omoplata.Store.Object.{
  entry_kind_str, parse_entry_kind, entry_line, entry_lines, terminated, bad_name, parse_entry,
  parse_entries, parse_tree,
}

-- What an entry has: a name that may stand in a tree, in UTF-8 as Rust's strings are, and an id with
-- a digest of 32 bytes.
abbrev pub IsEntry : TreeEntry → Type 0
IsEntry e = IsName e.name × (is_utf8 e.name ≡ true) × IsId e.id

-- An entry behind all others is put at the end.
place_last :
    (front : Tree) (e : TreeEntry)
    → All (λ (x : TreeEntry). Below x.name e) front
    → place front e ≡ front ++ e ∷ []
place_last [] e all = place_first e
place_last (x ∷ front) e (below, all) = rw (place-lt x e front below, place_last front e all)

entry_kind-Lacks : (sep : ℕ) (kind : EntryKind) → sep < b'0' → Lacks sep (entry_kind_str kind)
entry_kind-Lacks sep EntryKind.blob low = ground arith
entry_kind-Lacks sep EntryKind.tree low = ground arith

parse_entry_kind-entry_kind_str :
    (kind : EntryKind) → parse_entry_kind (entry_kind_str kind) ≡ some kind
parse_entry_kind-entry_kind_str EntryKind.blob = refl
parse_entry_kind-entry_kind_str EntryKind.tree = refl

parse_entry-entry_line :
    (front : Tree) (e : TreeEntry)
    → IsEntry e
    → All (λ (x : TreeEntry). Below x.name e) front
    → parse_entry front (entry_line e) ≡ ok (front ++ e ∷ [])
unfolding parse_entry tree_insert
parse_entry-entry_line front e (name, utf8, (small, all_32)) low =
    rw
      (
        find_byte-append b' ' (entry_kind_str e.kind) (id_to_string e.id ++ b' ' ∷ e.name)
            (entry_kind-Lacks b' ' e.kind (omega arith)),
        ◌>>=◌,
        find_byte-append b' ' (id_to_string e.id) e.name
            (id_to_string-Lacks b' ' e.id (omega arith) small),
        ◌>>=◌,
        parse_entry_kind-entry_kind_str e.kind,
        ◌>>=◌,
        parse_id-id_to_string e.id (small, all_32),
        ◌>>=◌,
        IsName-validate_name e.name name,
        ◌>>=◌,
      )
      (ap (λ (t : Tree). bad_name (ok t)) (place_last front e low))

-- Every entry of the one list is below every entry of the other.
abbrev Apart : Tree → Tree → Type 0
Apart front [] = Unit
Apart front (e ∷ entries) = All (λ (x : TreeEntry). Below x.name e) front × Apart front entries

Apart-append :
    (front : Tree) (e : TreeEntry) (entries : Tree)
    → Apart front entries
    → All (Below e.name) entries
    → Apart (front ++ e ∷ []) entries
Apart-append front e [] apart low = tt
Apart-append front e (x ∷ entries) (this, apart) (one, low) =
    (extend front this, Apart-append front e entries apart low)
  where
    extend :
        (front : Tree)
        → All (λ (y : TreeEntry). Below y.name x) front
        → All (λ (y : TreeEntry). Below y.name x) (front ++ e ∷ [])
    extend [] all = (one, tt)
    extend (y ∷ front) (first, all) = (first, extend front all)

lines_of : Tree → List Bytes
lines_of [] = []
lines_of (e ∷ entries) = entry_line e ∷ lines_of entries

parse_entries-lines_of :
    (front entries : Tree)
    → All IsEntry entries
    → IsSorted entries
    → Apart front entries
    → parse_entries front (lines_of entries) ≡ ok (front ++ entries)
unfolding parse_entries lines_of
parse_entries-lines_of front [] all sorted apart = ap ok (sym (append-nil front))
parse_entries-lines_of front (e ∷ entries) (one, all) (low, sorted) (this, apart) =
    rw (parse_entry-entry_line front e one this, ◌>>=◌)
      (parse_entries-lines_of (front ++ e ∷ []) entries all sorted
          (Apart-append front e entries apart low)
        ∙ ap ok (append_assoc front (e ∷ []) entries))

entry_line-Lacks : (e : TreeEntry) → IsEntry e → Lacks b'\n' (entry_line e)
entry_line-Lacks e ((some_byte, other, (slash, nul, line)), utf8, (small, all_32)) =
    Lacks-append b'\n' (entry_kind_str e.kind) (b' ' ∷ (id_to_string e.id ++ b' ' ∷ e.name))
      (entry_kind-Lacks b'\n' e.kind (omega arith))
      (
        refl,
        Lacks-append b'\n' (id_to_string e.id) (b' ' ∷ e.name)
            (id_to_string-Lacks b'\n' e.id (omega arith) small) (refl, line),
      )

terminated-lines :
    (line text : Bytes)
    → terminated (line ∷ split_lines text) ≡ line ∷ terminated (split_lines text)
unfolding terminated
terminated-lines line text = let (next, lines, found) = split_lines-line text in rw (found) refl

split_nothing : terminated (split_lines []) ≡ []
unfolding terminated split_lines
split_nothing = refl

split_lines-entry_lines :
    (entries : Tree)
    → All IsEntry entries
    → terminated (split_lines (entry_lines entries)) ≡ lines_of entries
unfolding entry_lines lines_of
split_lines-entry_lines [] all = split_nothing
split_lines-entry_lines (e ∷ entries) (one, all) =
    rw
      (
        split_lines-append (entry_line e) (entry_lines entries) (entry_line-Lacks e one),
        terminated-lines (entry_line e) (entry_lines entries),
      )
      (ap (λ (ls : List Bytes). entry_line e ∷ ls) (split_lines-entry_lines entries all))

entry_kind-ascii : (kind : EntryKind) → All (λ (b : ℕ). b < 0x80) (entry_kind_str kind)
entry_kind-ascii EntryKind.blob = ground arith
entry_kind-ascii EntryKind.tree = ground arith

visible_utf8 : (text : Bytes) → All IsVisible text → is_utf8 text ≡ true
visible_utf8 text all = is_utf8-ascii text (ascii text all)
  where
    ascii : (text : Bytes) → All IsVisible text → All (λ (b : ℕ). b < 0x80) text
    ascii [] all = tt
    ascii (b ∷ text) ((high, small), all) = (small, ascii text all)

blank : is_utf8 (b' ' ∷ []) ≡ true
unfolding utf8_from
blank = refl

end_of_line : is_utf8 (b'\n' ∷ []) ≡ true
unfolding utf8_from
end_of_line = refl

entry_line-utf8 :
    (e : TreeEntry) (rest : Bytes)
    → IsEntry e
    → is_utf8 (entry_line e ++ b'\n' ∷ rest) ≡ is_utf8 rest
entry_line-utf8 e rest (name, utf8, (small, all_32)) = rw (
  append_assoc (entry_kind_str e.kind) (b' ' ∷ (id_to_string e.id ++ b' ' ∷ e.name)) (b'\n' ∷ rest),
  append_assoc (id_to_string e.id) (b' ' ∷ e.name) (b'\n' ∷ rest),
  is_utf8-append (entry_kind_str e.kind)
      (b' ' ∷ (id_to_string e.id ++ b' ' ∷ (e.name ++ b'\n' ∷ rest)))
      (is_utf8-ascii (entry_kind_str e.kind) (entry_kind-ascii e.kind)),
  is_utf8-append (b' ' ∷ []) (id_to_string e.id ++ b' ' ∷ (e.name ++ b'\n' ∷ rest)) blank,
  is_utf8-append (id_to_string e.id) (b' ' ∷ (e.name ++ b'\n' ∷ rest))
      (visible_utf8 (id_to_string e.id) (id_to_string-IsVisible e.id small)),
  is_utf8-append (b' ' ∷ []) (e.name ++ b'\n' ∷ rest) blank,
  is_utf8-append e.name (b'\n' ∷ rest) utf8,
  is_utf8-append (b'\n' ∷ []) rest end_of_line,
)

entry_lines-utf8 : (entries : Tree) → All IsEntry entries → is_utf8 (entry_lines entries) ≡ true
unfolding entry_lines utf8_from
entry_lines-utf8 [] all = refl
entry_lines-utf8 (e ∷ entries) (one, all) =
    entry_line-utf8 e (entry_lines entries) one ∙ entry_lines-utf8 entries all

no_lines : parse_entries [] [] ≡ ok []
unfolding parse_entries
no_lines = refl

Apart-empty : (entries : Tree) → Apart [] entries
Apart-empty [] = tt
Apart-empty (e ∷ entries) = (tt, Apart-empty entries)

parse_text :
    (text : Bytes) (t : Tree)
    → is_utf8 text ≡ true
    → parse_entries [] (terminated (split_lines text)) ≡ ok t
    → parse_tree text ≡ ok t
unfolding parse_tree
parse_text [] t utf8 parsed = sym nothing ∙ parsed
  where
    nothing : parse_entries [] (terminated (split_lines [])) ≡ ok []
    nothing = rw (split_nothing) no_lines
parse_text (b ∷ text) t utf8 parsed = rw (utf8, ◌>>=◌) parsed

pub parse_tree-entry_lines :
    (entries : Tree)
    → IsSorted entries
    → All IsEntry entries
    → parse_tree (entry_lines entries) ≡ ok entries
parse_tree-entry_lines entries sorted all =
    parse_text (entry_lines entries) entries (entry_lines-utf8 entries all) (
      rw (split_lines-entry_lines entries all)
        (parse_entries-lines_of [] entries all sorted (Apart-empty entries)))
