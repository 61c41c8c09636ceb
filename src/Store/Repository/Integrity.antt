-- ===== src/Store/Repository/Integrity.antt =====
-- What is written is read back, and nothing is read that is not what its id names.
use omoplata.Prelude.{
  ◌≡◌, ◌≢◌, ◌⊎◌, refl, ap, sym, ◌∙◌, inl, inr, false, Option, none, some, All, length, ◌==◌, nat_eq,
  list_eq, eq→eq, eq_self, eq-false_of_ne, get, insert, get-insert, ok, ◌>>=◌, ok_or, bind-ok,
  ok-inj, Bool-cases, Option-cases, arith,
}
use omoplata.Git.Bytes.{Bytes, IsByte}
use omoplata.Store.Error.{object_not_found}
use omoplata.Store.Ids.{HashAlg, sha256, ObjectId, id_to_string}
use omoplata.Store.Ids.RoundTrip.{IsId}
use omoplata.Store.Object.{Object, serialize, deserialize, id_with, id_of}
use omoplata.Store.Object.RoundTrip.{IsObject, deserialize-serialize}
use omoplata.Store.Repository.{
  Repository, object_path, same_id, object_error, write_at, write_object, read_object,
}
use omoplata.Store.Repository.Paths.{alg_unique, same_id-eq, same_id_self, object_path-inj}

module _ (hash : Bytes → Bytes) where
  -- Whatever the files hold: an object that is read for an id has that id.
  pub read_object-id_with :
      (repo : Repository) (id : ObjectId) (o : Object)
      → read_object hash repo id ≡ ok o
      → id_with hash id.alg o ≡ id
  unfolding read_object
  read_object-id_with repo id o h =
      let (bytes, e1, h1) =
        bind-ok (ok_or (get repo.files (object_path id)) (object_not_found (id_to_string id))) _
          h in
      let (o', e2, h2) = bind-ok (object_error (deserialize bytes)) _ h1 in
      elim (Bool-cases (same_id (id_with hash id.alg o') id)) [
        | inl same ↦
            let one : o' ≡ o = ok-inj (sym (rw (same) refl) ∙ h2) in
            ap (id_with hash id.alg) (sym one) ∙ same_id-eq (id_with hash id.alg o') id same
        | inr other ↦ absurd (ground arith)
      ]

  -- Under an id's path stands nothing, or an object that has that id.
  abbrev pub Holds : Repository → ObjectId → Type 0
  Holds repo id =
      (get repo.files (object_path id) ≡ none)
      ⊎ ((o : Object) × IsObject o
          × (get repo.files (object_path id) ≡ some (serialize o))
          × (id_of hash o ≡ id))

  abbrev pub IsStore : Repository → Type 0
  IsStore repo = (id : ObjectId) → IsId id → Holds repo id

  -- What the hash gives has the length of the algorithm.
  abbrev pub IsSha256 : Type 0
  IsSha256 = (bytes : Bytes) → All IsByte (hash bytes) × (length (hash bytes) ≡ 32)

  pub id_of-IsId : IsSha256 → (o : Object) → IsId (id_of hash o)
  unfolding id_with
  id_of-IsId sized o = sized (serialize o)

  pub write-new :
      (repo : Repository) (o : Object)
      → get repo.files (object_path (id_of hash o)) ≡ none
      → write_object hash repo o ≡ (
        record { files = insert repo.files (object_path (id_of hash o)) (serialize o) },
        id_of hash o,
      )
  unfolding write_object
  write-new repo o h =
      ap
        (λ (old : Option Bytes).
          (write_at repo (object_path (id_of hash o)) (serialize o) old, id_of hash o))
        h

  pub write-present :
      (repo : Repository) (o : Object) (bytes : Bytes)
      → get repo.files (object_path (id_of hash o)) ≡ some bytes
      → write_object hash repo o ≡ (repo, id_of hash o)
  unfolding write_object
  write-present repo o bytes h =
      ap
        (λ (old : Option Bytes).
          (write_at repo (object_path (id_of hash o)) (serialize o) old, id_of hash o))
        h

  pub written_id : (repo : Repository) (o : Object) → (write_object hash repo o).1 ≡ id_of hash o
  unfolding write_object
  written_id repo o = refl

  inserted-IsStore :
      (repo : Repository) (o : Object)
      → IsSha256
      → IsObject o
      → IsStore repo
      → IsStore (record { files = insert repo.files (object_path (id_of hash o)) (serialize o) })
  inserted-IsStore repo o sized fine holds id is_id =
      let path = object_path (id_of hash o) in
      let here = get-insert repo.files path (object_path id) (serialize o) in
      elim (Bool-cases (path == object_path id)) [
        | inl same ↦ inr (
          o,
          fine,
          here ∙ rw (same) refl,
          object_path-inj (id_of hash o) id (id_of-IsId sized o) is_id
              (eq→eq path (object_path id) same),
        )
        | inr other ↦
            let kept : get (insert repo.files path (serialize o)) (object_path id)
                ≡ get repo.files (object_path id) =
              here ∙ rw (other) refl in
            elim (holds id is_id) [
              | inl nothing ↦ inl (kept ∙ nothing)
              | inr (o', fine', stored, named) ↦ inr (o', fine', kept ∙ stored, named)
            ]
      ]

  -- Every file of a store is an object at the path of its id, and writing an object keeps that.
  pub write_object-IsStore :
      (repo : Repository) (o : Object)
      → IsSha256
      → IsObject o
      → IsStore repo
      → IsStore (write_object hash repo o).0
  write_object-IsStore repo o sized fine holds =
      elim (Option-cases (get repo.files (object_path (id_of hash o)))) [
        | inl new ↦ rw (write-new repo o new) (inserted-IsStore repo o sized fine holds)
        | inr (bytes, present) ↦ rw (write-present repo o bytes present) holds
      ]

  id_with-alg : (alg : HashAlg) (o : Object) → id_with hash alg o ≡ id_of hash o
  id_with-alg alg o = ap (λ (x : HashAlg). id_with hash x o) (alg_unique alg sha256)

  read-stored :
      (repo : Repository) (id : ObjectId) (o : Object)
      → IsObject o
      → get repo.files (object_path id) ≡ some (serialize o)
      → id_of hash o ≡ id
      → read_object hash repo id ≡ ok o
  unfolding read_object
  read-stored repo id o fine stored named =
      rw
        (
          stored,
          ◌>>=◌,
          deserialize-serialize o fine,
          ◌>>=◌,
          id_with-alg id.alg o ∙ named,
          same_id_self id,
        )
        refl

  -- No other bytes have the hash of the object's.
  abbrev pub NoCollision : Object → Type 0
  NoCollision o = (bytes : Bytes) → hash bytes ≡ hash (serialize o) → bytes ≡ serialize o

  serialize-inj : (o o' : Object) → IsObject o → IsObject o' → serialize o ≡ serialize o' → o ≡ o'
  serialize-inj o o' fine fine' same =
      ok-inj
        (sym (deserialize-serialize o fine) ∙ ap deserialize same ∙ deserialize-serialize o' fine')

  same_hash :
      (o o' : Object) → id_of hash o ≡ id_of hash o' → hash (serialize o) ≡ hash (serialize o')
  unfolding id_with
  same_hash o o' same = ap (λ (id : ObjectId). id.digest) same

  write-read :
      (repo : Repository) (o : Object)
      → IsSha256
      → IsObject o
      → IsStore repo
      → NoCollision o
      → read_object hash (write_object hash repo o).0 (id_of hash o) ≡ ok o
  write-read repo o sized fine holds alone =
      let id = id_of hash o in
      elim (holds id (id_of-IsId sized o)) [
        | inl new ↦ rw (write-new repo o new) (
            read-stored _ id o fine
              (get-insert repo.files (object_path id) (object_path id) (serialize o)
                ∙ rw (eq_self (object_path id)) refl)
              refl)
        | inr (o', fine', stored, named) ↦
            let one : o' ≡ o =
              serialize-inj o' o fine' fine (alone (serialize o') (same_hash o' o named)) in
            rw (write-present repo o (serialize o') stored)
              (read-stored repo id o' fine' stored named ∙ ap ok one)
      ]

  same_file :
      (repo repo' : Repository) (id : ObjectId)
      → get repo'.files (object_path id) ≡ get repo.files (object_path id)
      → read_object hash repo' id ≡ read_object hash repo id
  unfolding read_object
  same_file repo repo' id same = rw (same) refl

  write-others :
      (repo : Repository) (o : Object) (id : ObjectId)
      → IsSha256
      → IsId id
      → id ≢ id_of hash o
      → read_object hash (write_object hash repo o).0 id ≡ read_object hash repo id
  write-others repo o id sized is_id ne =
      let path = object_path (id_of hash o) in
      elim (Option-cases (get repo.files path)) [
        | inl new ↦
            let apart : (path == object_path id) ≡ false =
              eq-false_of_ne path (object_path id) (λ same.
                ne (sym (object_path-inj (id_of hash o) id (id_of-IsId sized o) is_id same))) in
            rw (write-new repo o new) (
              same_file repo _ id
                (get-insert repo.files path (object_path id) (serialize o) ∙ rw (apart) refl))
        | inr (bytes, present) ↦ rw (write-present repo o bytes present) refl
      ]

  -- With a hash of 32 bytes, in a store whose files are objects at their ids' paths, a well-formed
  -- object whose hash no other bytes have is read back once written, and what is read for every
  -- other id is what was read before.
  pub read_object-write_object :
      (repo : Repository) (o : Object)
      → IsSha256
      → IsObject o
      → IsStore repo
      → NoCollision o
      → (read_object hash (write_object hash repo o).0 (write_object hash repo o).1 ≡ ok o)
        × ((id : ObjectId)
            → IsId id
            → id ≢ id_of hash o
            → read_object hash (write_object hash repo o).0 id ≡ read_object hash repo id)
  read_object-write_object repo o sized fine holds alone = (
    ap (read_object hash (write_object hash repo o).0) (written_id repo o)
        ∙ write-read repo o sized fine holds alone,
    λ id is_id ne. write-others repo o id sized is_id ne,
  )
