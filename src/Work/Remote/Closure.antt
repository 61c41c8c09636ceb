-- ===== src/Work/Remote/Closure.antt =====
-- A copy that succeeds leaves nothing of the closure behind.
use mathlib.Core.Path.{subst}
use omoplata.Prelude.{
  ◌≡◌, ◌⊎◌, refl, ap, sym, ◌∙◌, inl, inr, ℕ, zero, suc, true, Option, some, List, [], ◌∷◌, get,
  insert, get-insert, get-insert_self, ◌==◌, nat_eq, list_eq, Result, ok, err, ok-inj, Result-cases,
  Bool-cases, Option-cases,
}
use omoplata.Git.Bytes.{Bytes}
use omoplata.Store.Error.{StoreError}
use omoplata.Store.Ids.{HashAlg, sha256, ObjectId}
use omoplata.Store.Trees.{TreeEntry, Tree}
use omoplata.Store.Object.{Object, serialize, id_of, id_with}
use omoplata.Store.Repository.{Repository, object_path, has_object, read_object, write_object}
use omoplata.Store.Repository.Paths.{alg_unique}
use omoplata.Store.Repository.Integrity.{read_object-id_with, write-new, write-present}
use omoplata.Work.Remote.{push_entries, enqueue, copy_missing, copy_loop, copy_closure}

abbrev pub OnStack : ObjectId → List ObjectId → Type 0
OnStack id [] = ⊥
OnStack id (top ∷ stack) = (top ≡ id) ⊎ OnStack id stack

abbrev pub InTree : TreeEntry → Tree → Type 0
InTree e [] = ⊥
InTree e (x ∷ entries) = (x ≡ e) ⊎ InTree e entries

push-kept :
    (entries : Tree) (stack : List ObjectId) (id : ObjectId)
    → OnStack id stack
    → OnStack id (push_entries entries stack)
unfolding push_entries
push-kept [] stack id on = on
push-kept (e ∷ entries) stack id on = push-kept entries (e.id ∷ stack) id (inr on)

push-InTree :
    (entries : Tree) (stack : List ObjectId) (e : TreeEntry)
    → InTree e entries
    → OnStack e.id (push_entries entries stack)
unfolding push_entries
push-InTree [] stack e in_tree = absurd in_tree
push-InTree (x ∷ entries) stack e (inl same) =
    push-kept entries (x.id ∷ stack) e.id (inl (ap (λ (y : TreeEntry). y.id) same))
push-InTree (x ∷ entries) stack e (inr later) = push-InTree entries (x.id ∷ stack) e later

enqueue-kept :
    (object : Object) (stack : List ObjectId) (id : ObjectId)
    → OnStack id stack
    → OnStack id (enqueue object stack)
unfolding enqueue
enqueue-kept (Object.blob bytes) stack id on = on
enqueue-kept (Object.tree entries) stack id on = push-kept entries stack id on

enqueue-InTree :
    (entries : Tree) (stack : List ObjectId) (e : TreeEntry)
    → InTree e entries
    → OnStack e.id (enqueue (Object.tree entries) stack)
unfolding enqueue
enqueue-InTree entries stack e in_tree = push-InTree entries stack e in_tree

has-some :
    (repo : Repository) (id : ObjectId) (bytes : Bytes)
    → get repo.files (object_path id) ≡ some bytes
    → has_object repo id ≡ true
unfolding has_object
has-some repo id bytes h = rw (has_object, h) refl

has-file :
    (repo : Repository) (id : ObjectId)
    → has_object repo id ≡ true
    → (bytes : Bytes) × (get repo.files (object_path id) ≡ some bytes)
unfolding has_object
has-file repo id h = elim (Option-cases (get repo.files (object_path id))) [
  | inl missing ↦ absurd (cc (rw (has_object, missing) at (h)))
  | inr there ↦ there
]

inserted-has :
    (repo : Repository) (path bytes : Bytes) (id : ObjectId)
    → has_object repo id ≡ true
    → has_object (record { files = insert repo.files path bytes }) id ≡ true
inserted-has repo path bytes id h =
    let (old, there) = has-file repo id h in
    let now = get-insert repo.files path (object_path id) bytes in
    elim (Bool-cases (path == object_path id)) [
      | inl same ↦ has-some _ id bytes (now ∙ rw (same) refl)
      | inr other ↦ has-some _ id old (now ∙ rw (other) there)
    ]

module _ (hash : Bytes → Bytes) where
  write-has :
      (repo : Repository) (o : Object) (id : ObjectId)
      → has_object repo id ≡ true
      → has_object (write_object hash repo o).0 id ≡ true
  write-has repo o id h = elim (Option-cases (get repo.files (object_path (id_of hash o)))) [
    | inl new ↦
        rw (write-new hash repo o new)
          (inserted-has repo (object_path (id_of hash o)) (serialize o) id h)
    | inr (bytes, present) ↦ rw (write-present hash repo o bytes present) h
  ]

  write-has_self :
      (repo : Repository) (o : Object)
      → has_object (write_object hash repo o).0 (id_of hash o) ≡ true
  write-has_self repo o =
      let path = object_path (id_of hash o) in
      elim (Option-cases (get repo.files path)) [
        | inl new ↦ rw (write-new hash repo o new) (
            has-some _ (id_of hash o) (serialize o) (get-insert_self repo.files path (serialize o)))
        | inr (bytes, present) ↦
            rw (write-present hash repo o bytes present)
              (has-some repo (id_of hash o) bytes present)
      ]

  -- One object reaches another in a store.
  pub data Reaches (from : Repository) : ObjectId → ObjectId → Type 0 where
    here : {id : ObjectId} → Reaches from id id
    through :
        {id last : ObjectId} (entries : Tree) (e : TreeEntry)
        → read_object hash from id ≡ ok (Object.tree entries)
        → InTree e entries
        → Reaches from e.id last
        → Reaches from id last

  copied-has :
      (from to : Repository) (copied : ℕ) (id : ObjectId) (o : Object)
      → read_object hash from id ≡ ok o
      → (has_object (copy_missing hash (has_object to id) to copied o).0 id ≡ true)
        × ((other : ObjectId)
            → has_object to other ≡ true
            → has_object (copy_missing hash (has_object to id) to copied o).0 other ≡ true)
  copied-has from to copied id o read = elim (Bool-cases (has_object to id)) [
    | inl there ↦ (rw (there) there, λ other h. rw (there) h)
    | inr missing ↦
        let named : id_of hash o ≡ id =
          ap (λ (x : HashAlg). id_with hash x o) (alg_unique sha256 id.alg)
          ∙ read_object-id_with hash from id o read in
        (
          rw (missing)
              (ap (has_object (write_object hash to o).0) (sym named) ∙ write-has_self to o),
          λ other h. rw (missing) (write-has to o other h),
        )
  ]

  pub copy_loop-ok :
      (fuel : ℕ) (from to : Repository) (copied : ℕ) (id : ObjectId) (stack : List ObjectId)
      (o : Object)
      → read_object hash from id ≡ ok o
      → copy_loop hash (suc fuel) from to copied (id ∷ stack)
        ≡ copy_loop hash fuel from
            (copy_missing hash (has_object to id) to copied o).0
            (copy_missing hash (has_object to id) to copied o).1
            (enqueue o stack)
  unfolding copy_loop
  copy_loop-ok fuel from to copied id stack o read = rw (copy_loop, read) refl

  pub copy_loop-err :
      (fuel : ℕ) (from to : Repository) (copied : ℕ) (id : ObjectId) (stack : List ObjectId)
      (e : StoreError)
      → read_object hash from id ≡ err e
      → copy_loop hash (suc fuel) from to copied (id ∷ stack) ≡ some (err e)
  unfolding copy_loop
  copy_loop-err fuel from to copied id stack e read = rw (copy_loop, read) refl

  first_step :
      (from : Repository) (o : Object) (stack : List ObjectId) (id last : ObjectId)
      → read_object hash from id ≡ ok o
      → Reaches from id last
      → (id ≡ last) ⊎ ((e : TreeEntry) × OnStack e.id (enqueue o stack) × Reaches from e.id last)
  first_step from o stack id last read here = inl refl
  first_step from o stack id last read (through entries e is_tree in_tree more) =
      let one : Object.tree entries ≡ o = ok-inj (sym is_tree ∙ read) in
      inr (
        e,
        subst (λ (x : Object). OnStack e.id (enqueue x stack)) one
            (enqueue-InTree entries stack e in_tree),
        more,
      )

  Done : Repository → Repository → Repository → List ObjectId → Type 0
  Done from to to' stack =
      ((id last : ObjectId) → OnStack id stack → Reaches from id last → has_object to' last ≡ true)
      × ((id : ObjectId) → has_object to id ≡ true → has_object to' id ≡ true)

  copy_loop-Done :
      (fuel : ℕ) (from to to' : Repository) (copied n : ℕ) (stack : List ObjectId)
      → copy_loop hash fuel from to copied stack ≡ some (ok (to', n))
      → Done from to to' stack
  unfolding copy_loop Done
  copy_loop-Done fuel from to to' copied n [] h =
      let same : to ≡ to' =
        ap
          (λ (r : Option (Result StoreError (Repository × ℕ))). elim r [
            | some (ok (x, k)) ↦ x
            | _ ↦ to
          ])
          h in
      (
        λ id last on. absurd on,
        λ id there. ap (λ (x : Repository). has_object x id) (sym same) ∙ there,
      )
  copy_loop-Done zero from to to' copied n (id ∷ stack) h = absurd (cc (h))
  copy_loop-Done (suc fuel) from to to' copied n (id ∷ stack) h =
      elim (Result-cases (read_object hash from id)) [
        | inl (e, failed) ↦
            absurd (cc (sym (copy_loop-err fuel from to copied id stack e failed) ∙ h))
        | inr (o, read) ↦
            let (has, kept) = copied-has from to copied id o read in
            let (done, later) =
              copy_loop-Done fuel from _ to' _ n (enqueue o stack)
                (sym (copy_loop-ok fuel from to copied id stack o read) ∙ h) in
            let from_top : (last : ObjectId) → Reaches from id last → has_object to' last ≡ true =
              λ last reach. elim (first_step from o stack id last read reach) [
                | inl same ↦ later last (ap (has_object _) (sym same) ∙ has)
                | inr (e, on, more) ↦ done e.id last on more
              ] in
            (
              λ top last on reach. elim on [
                | inl same ↦
                    from_top last (subst (λ (x : ObjectId). Reaches from x last) (sym same) reach)
                | inr below ↦ done top last (enqueue-kept o stack top below) reach
              ],
              λ other there. later other (kept other there),
            )
      ]

  -- Where the copy ends without an error, the destination has every object that the root reaches in the
  -- source, and every object that it had.
  pub copy_closure-Reaches :
      (fuel : ℕ) (from to to' : Repository) (root : ObjectId) (n : ℕ)
      → copy_closure hash fuel from to root ≡ some (ok (to', n))
      → ((last : ObjectId) → Reaches from root last → has_object to' last ≡ true)
        × ((id : ObjectId) → has_object to id ≡ true → has_object to' id ≡ true)
  unfolding copy_closure Done
  copy_closure-Reaches fuel from to to' root n h =
      let (done, kept) = copy_loop-Done fuel from to to' 0 n (root ∷ []) h in
      (λ last reach. done root last (inl refl) reach, kept)
