-- ===== src/Store/Trees/Sorted.antt =====
-- The entries of a tree stay sorted.
use Prim.Native.Nat.{Ordering}
use omoplata.Prelude.{◌≡◌, refl, inl, inr, [], ◌∷◌, All, nat_eq, list_eq}
use omoplata.Git.Bytes.{Bytes}
use omoplata.Store.Trees.{
  TreeEntry, Tree, cmp, found, missing, behind, Searched, put, binary_search, insert_entry, place,
}
use omoplata.Store.Trees.Order.{Ordering-cases, cmp_eq, cmp_gt, cmp_trans}

-- The names rise, so each is there once.
abbrev pub Below : Bytes → TreeEntry → Type 0
Below name e = cmp name e.name ≡ Ordering.lt

abbrev pub IsSorted : Tree → Type 0
IsSorted [] = Unit
IsSorted (e ∷ entries) = All (Below e.name) entries × IsSorted entries

pub search-lt :
    (x : TreeEntry) (entries : Tree) (name : Bytes)
    → cmp x.name name ≡ Ordering.lt
    → binary_search name (x ∷ entries) ≡ behind (binary_search name entries)
unfolding binary_search
search-lt x entries name h = rw (binary_search, h) refl

pub search-eq :
    (x : TreeEntry) (entries : Tree) (name : Bytes)
    → cmp x.name name ≡ Ordering.eq
    → binary_search name (x ∷ entries) ≡ found 0
unfolding binary_search
search-eq x entries name h = rw (binary_search, h) refl

pub search-gt :
    (x : TreeEntry) (entries : Tree) (name : Bytes)
    → cmp x.name name ≡ Ordering.gt
    → binary_search name (x ∷ entries) ≡ missing 0
unfolding binary_search
search-gt x entries name h = rw (binary_search, h) refl

put-behind :
    (x e : TreeEntry) (entries : Tree) (s : Searched)
    → put (x ∷ entries) e (behind s) ≡ x ∷ put entries e s
unfolding insert_entry
put-behind x e entries (found i) = refl
put-behind x e entries (missing i) = refl

pub place-lt :
    (x e : TreeEntry) (entries : Tree)
    → cmp x.name e.name ≡ Ordering.lt
    → place (x ∷ entries) e ≡ x ∷ place entries e
unfolding place
place-lt x e entries h =
    rw (search-lt x entries e.name h) (put-behind x e entries (binary_search e.name entries))

pub place_first : (e : TreeEntry) → place [] e ≡ e ∷ []
unfolding place binary_search insert_entry
place_first e = refl

pub place-eq :
    (x e : TreeEntry) (entries : Tree)
    → cmp x.name e.name ≡ Ordering.eq
    → place (x ∷ entries) e ≡ e ∷ entries
unfolding place
place-eq x e entries h = rw (search-eq x entries e.name h) refl

pub place-gt :
    (x e : TreeEntry) (entries : Tree)
    → cmp x.name e.name ≡ Ordering.gt
    → place (x ∷ entries) e ≡ e ∷ x ∷ entries
unfolding place insert_entry
place-gt x e entries h = rw (search-gt x entries e.name h) refl

pub All-place :
    (P : TreeEntry → Type 0) (entries : Tree) (e : TreeEntry)
    → P e
    → All P entries
    → All P (place entries e)
unfolding place binary_search insert_entry
All-place P [] e one all = (one, tt)
All-place P (x ∷ entries) e one (this, all) = elim (Ordering-cases (cmp x.name e.name)) [
  | inl below ↦ rw (place-lt x e entries below) ((this, All-place P entries e one all))
  | inr (inl same) ↦ rw (place-eq x e entries same) ((one, all))
  | inr (inr above) ↦ rw (place-gt x e entries above) ((one, (this, all)))
]

Below-All :
    (a b : Bytes) (entries : Tree)
    → cmp a b ≡ Ordering.lt
    → All (Below b) entries
    → All (Below a) entries
Below-All a b [] h all = tt
Below-All a b (e ∷ entries) h (one, all) = (cmp_trans a b e.name h one, Below-All a b entries h all)

pub place-IsSorted :
    (entries : Tree) (e : TreeEntry) → IsSorted entries → IsSorted (place entries e)
unfolding place binary_search insert_entry
place-IsSorted [] e sorted = (tt, tt)
place-IsSorted (x ∷ entries) e (low, sorted) = elim (Ordering-cases (cmp x.name e.name)) [
  | inl below ↦
      rw (place-lt x e entries below)
        ((All-place (Below x.name) entries e below low, place-IsSorted entries e sorted))
  | inr (inl same) ↦ rw (place-eq x e entries same) ((rw (← cmp_eq x.name e.name same) low, sorted))
  | inr (inr above) ↦
      let first = cmp_gt x.name e.name above in
      rw (place-gt x e entries above)
        (((first, Below-All e.name x.name entries first low), (low, sorted)))
]
