-- ===== src/Store/Trees/Lookup.antt =====
-- A lookup in a tree sees what was inserted last.
use Prim.Native.Nat.{Ordering}
use omoplata.Prelude.{
  ◌≡◌, ◌≢◌, ◌⊎◌, refl, ap, sym, ◌∙◌, inl, inr, true, false, none, some, [], ◌∷◌, ◌==◌, nat_eq,
  list_eq, eq_self, eq-false_of_ne, ok, err, ◌>>=◌, if◌then◌else◌,
}
use omoplata.Git.Bytes.{Bytes}
use omoplata.Store.Error.{invalid_name}
use omoplata.Store.Ids.{ObjectId}
use omoplata.Store.Trees.{
  TreeEntry, EntryKind, Tree, cmp, found, missing, behind, Searched, entry_at, binary_search,
  insert_entry, place, tree_insert, tree_get,
}
use omoplata.Store.Trees.Order.{Ordering-cases, cmp_self, cmp_eq, cmp_gt, cmp_trans, cmp_lt}
use omoplata.Store.Trees.Sorted.{
  search-lt, search-eq, search-gt, place-lt, place-eq, place-gt, IsSorted, place-IsSorted,
}
use omoplata.Store.Trees.Names.{IsName, validate_name-cases}

entry_at-behind :
    (x : TreeEntry) (entries : Tree) (s : Searched)
    → entry_at (x ∷ entries) (behind s) ≡ entry_at entries s
entry_at-behind x entries (found i) = refl
entry_at-behind x entries (missing i) = refl

get-lt :
    (x : TreeEntry) (entries : Tree) (name : Bytes)
    → cmp x.name name ≡ Ordering.lt
    → tree_get (x ∷ entries) name ≡ tree_get entries name
unfolding tree_get
get-lt x entries name h =
    rw (search-lt x entries name h) (entry_at-behind x entries (binary_search name entries))

get-eq :
    (x : TreeEntry) (entries : Tree) (name : Bytes)
    → cmp x.name name ≡ Ordering.eq
    → tree_get (x ∷ entries) name ≡ some x
unfolding tree_get
get-eq x entries name h = rw (search-eq x entries name h) refl

get-gt :
    (x : TreeEntry) (entries : Tree) (name : Bytes)
    → cmp x.name name ≡ Ordering.gt
    → tree_get (x ∷ entries) name ≡ none
unfolding tree_get
get-gt x entries name h = rw (search-gt x entries name h) refl

no_entry_below :
    (e x : TreeEntry) (entries : Tree) (name : Bytes)
    → cmp x.name e.name ≡ Ordering.gt
    → cmp e.name name ≡ Ordering.gt
    → tree_get (x ∷ entries) name ≡ none
no_entry_below e x entries name h k =
    let below = cmp_trans name e.name x.name (cmp_gt e.name name k) (cmp_gt x.name e.name h) in
    get-gt x entries name (cmp_lt name x.name below)

cmp-same : (a b : Bytes) → cmp a b ≡ Ordering.eq → (a == b) ≡ true
cmp-same a b h = rw (cmp_eq a b h) (eq_self b)

cmp-other : (a b : Bytes) → cmp a b ≢ Ordering.eq → (a == b) ≡ false
cmp-other a b ne = eq-false_of_ne a b (λ same. ne (rw same (cmp_self b)))

other_than_after :
    (a b name : Bytes) → cmp a b ≡ Ordering.lt → cmp a name ≢ Ordering.lt → (b == name) ≡ false
other_than_after a b name below ne =
    eq-false_of_ne b name (λ same. ne (ap (cmp a) (sym same) ∙ below))

get_behind :
    (x e : TreeEntry) (entries placed : Tree) (name : Bytes)
    → cmp x.name e.name ≡ Ordering.lt
    → tree_get placed name ≡ (if e.name == name then some e else tree_get entries name)
    → tree_get (x ∷ placed) name ≡ (if e.name == name then some e else tree_get (x ∷ entries) name)
get_behind x e entries placed name below rest = elim (Ordering-cases (cmp x.name name)) [
  | inl low ↦ rw (get-lt x placed name low, get-lt x entries name low) rest
  | inr (inl same) ↦ rw (
    get-eq x placed name same,
    get-eq x entries name same,
    other_than_after x.name e.name name below (λ low. cc (low, same)),
  )
  | inr (inr high) ↦ rw (
    get-gt x placed name high,
    get-gt x entries name high,
    other_than_after x.name e.name name below (λ low. cc (low, high)),
  )
]

get_replaced :
    (x e : TreeEntry) (entries : Tree) (name : Bytes)
    → cmp x.name e.name ≡ Ordering.eq
    → tree_get (e ∷ entries) name ≡ (if e.name == name then some e else tree_get (x ∷ entries) name)
get_replaced x e entries name one =
    let same_name = cmp_eq x.name e.name one in
    elim (Ordering-cases (cmp e.name name)) [
      | inl low ↦ rw (
        get-lt e entries name low,
        cmp-other e.name name (λ same. cc (low, same)),
        get-lt x entries name (ap (λ (n : Bytes). cmp n name) same_name ∙ low),
      )
      | inr (inl same) ↦ rw (get-eq e entries name same, cmp-same e.name name same)
      | inr (inr high) ↦ rw (
        get-gt e entries name high,
        cmp-other e.name name (λ same. cc (high, same)),
        get-gt x entries name (ap (λ (n : Bytes). cmp n name) same_name ∙ high),
      )
    ]

get_in_front :
    (e : TreeEntry) (entries : Tree) (name : Bytes)
    → (cmp e.name name ≡ Ordering.gt → tree_get entries name ≡ none)
    → tree_get (e ∷ entries) name ≡ (if e.name == name then some e else tree_get entries name)
get_in_front e entries name none_below = elim (Ordering-cases (cmp e.name name)) [
  | inl low ↦ rw (get-lt e entries name low, cmp-other e.name name (λ same. cc (low, same)))
  | inr (inl same) ↦ rw (get-eq e entries name same, cmp-same e.name name same)
  | inr (inr high) ↦
      rw (
        get-gt e entries name high,
        cmp-other e.name name (λ same. cc (high, same)),
        none_below high,
      )
]

get_of_empty : (name : Bytes) → tree_get [] name ≡ none
unfolding tree_get binary_search
get_of_empty name = refl

pub tree_get-place :
    (entries : Tree) (e : TreeEntry) (name : Bytes)
    → tree_get (place entries e) name ≡ (if e.name == name then some e else tree_get entries name)
unfolding place binary_search insert_entry
tree_get-place [] e name = get_in_front e [] name (λ high. get_of_empty name)
tree_get-place (x ∷ entries) e name = elim (Ordering-cases (cmp x.name e.name)) [
  | inl below ↦
      rw (place-lt x e entries below)
        (get_behind x e entries (place entries e) name below (tree_get-place entries e name))
  | inr (inl same) ↦ rw (place-eq x e entries same) (get_replaced x e entries name same)
  | inr (inr above) ↦
      rw (place-gt x e entries above)
        (get_in_front e (x ∷ entries) name (no_entry_below e x entries name above))
]

-- In a sorted tree: inserting an entry with a valid name gives a sorted tree in which a lookup of
-- that name gives the entry and every other lookup is as before; a name that is empty, `.` or `..`,
-- or holds a slash, a NUL or an end of line, is refused.
pub tree_insert_lem :
    (entries : Tree) (name : Bytes) (kind : EntryKind) (id : ObjectId)
    → IsSorted entries
    → (IsName name
        × ((t : Tree) × (tree_insert entries name kind id ≡ ok t)
            × IsSorted t
            × ((other : Bytes)
                → tree_get t other ≡ (
                    if name == other
                    then some (record { name = name; kind = kind; id = id })
                    else tree_get entries other))))
      ⊎ (¬ IsName name × (tree_insert entries name kind id ≡ err (invalid_name name)))
unfolding tree_insert
tree_insert_lem entries name kind id sorted =
    let e : TreeEntry = record { name = name; kind = kind; id = id } in
    elim (validate_name-cases name) [
      | inl (good, valid) ↦ inl (
        good,
        (
          place entries e,
          rw (valid, ◌>>=◌) refl,
          place-IsSorted entries e sorted,
          tree_get-place entries e,
        ),
      )
      | inr (bad, refused) ↦ inr (bad, rw (refused, ◌>>=◌) refl)
    ]
