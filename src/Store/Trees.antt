-- ===== src/Store/Trees.antt =====
-- crates/omoplata-store/src/object.rs: trees, the entries sorted by name. A text is its bytes.
pub mod Names
pub mod Order
pub mod Sorted
pub mod Lookup
use Prim.Native.Nat.{compare, Ordering}
use omoplata.Prelude.{
  ℕ, zero, suc, Bool, true, false, ◌||◌, Option, none, some, List, [], ◌∷◌, ◌++◌, get_elem?, set,
  empty, contains, ◌==◌, nat_eq, list_eq, Result, ok, err, ◌>>=◌, if◌then◌else◌,
}
use omoplata.Git.Bytes.{Bytes}
use omoplata.Store.Error.{ObjectError, invalid_name}
use omoplata.Store.Ids.{ObjectId}

pub data EntryKind : Type 0 where
  blob tree : EntryKind

pub record TreeEntry : Type 0 where
  pub name : Bytes
  pub kind : EntryKind
  pub id : ObjectId

-- The entries of a tree, which the code keeps to itself.
abbrev pub Tree : Type 0
Tree = List TreeEntry

-- `str::cmp`: the order of the bytes.
unfoldable pub cmp : Bytes → Bytes → Ordering
cmp [] [] = Ordering.eq
cmp [] (b ∷ bs) = Ordering.lt
cmp (a ∷ as') [] = Ordering.gt
cmp (a ∷ as') (b ∷ bs) = let rest = cmp as' bs in elim (compare a b) [ Ordering.eq ↦ rest | o ↦ o ]

-- What a binary search gives: where the entry is, or where it would stand.
pub data Searched : Type 0 where
  found : ℕ → Searched
  missing : ℕ → Searched

abbrev pub behind : Searched → Searched
behind (found i) = found (suc i)
behind (missing i) = missing (suc i)

-- `entries.binary_search_by(|e| e.name.cmp(name))` of entries that are sorted and have each name
-- once, which fixes what the search gives; every tree is such a one.
unfoldable pub binary_search : Bytes → Tree → Searched
unfolding cmp
binary_search name [] = missing 0
binary_search name (e ∷ entries) =
    let rest = binary_search name entries in
    elim (cmp e.name name) [
      | Ordering.lt ↦ behind rest
      | Ordering.eq ↦ found 0
      | Ordering.gt ↦ missing 0
    ]

-- `entries.insert(i, entry)`
unfoldable pub insert_entry : Tree → ℕ → TreeEntry → Tree
insert_entry entries zero entry = entry ∷ entries
insert_entry [] (suc i) entry = entry ∷ []
insert_entry (e ∷ entries) (suc i) entry = e ∷ insert_entry entries i entry

abbrev pub is_refused : Bytes → Bool
is_refused name =
    empty name
    || (name == b'.' ∷ []
        || (name == b'.' ∷ b'.' ∷ []
            || (contains name b'/' || (contains name 0 || contains name b'\n'))))

unfoldable pub validate_name : Bytes → Result ObjectError (Unit {0})
validate_name name = if is_refused name then err (invalid_name name) else ok tt

-- The match on what the search gave.
abbrev pub put : Tree → TreeEntry → Searched → Tree
put entries entry (found i) = set entries i entry
put entries entry (missing i) = insert_entry entries i entry

unfoldable pub place : Tree → TreeEntry → Tree
unfolding binary_search
place entries entry = put entries entry (binary_search entry.name entries)

unfoldable pub tree_insert : Tree → Bytes → EntryKind → ObjectId → Result ObjectError Tree
unfolding validate_name place
tree_insert entries name kind id = do
  valid ← validate_name name
  ok (place entries (record { name = name; kind = kind; id = id }))

abbrev pub entry_at : Tree → Searched → Option TreeEntry
entry_at entries (found i) = get_elem? entries i
entry_at entries (missing i) = none

unfoldable pub tree_get : Tree → Bytes → Option TreeEntry
unfolding binary_search
tree_get entries name = entry_at entries (binary_search name entries)
