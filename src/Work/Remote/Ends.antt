-- ===== src/Work/Remote/Ends.antt =====
-- A copy ends, where no object of the source reaches itself.
use omoplata.Prelude.{
  ◌≡◌, refl, ◌∙◌, inl, inr, ℕ, zero, suc, ◌<◌, some, List, [], ◌∷◌, All, Result, ok, err,
  Result-cases, arith,
}
use omoplata.Git.Bytes.{Bytes}
use omoplata.Store.Error.{StoreError}
use omoplata.Store.Ids.{ObjectId}
use omoplata.Store.Trees.{TreeEntry, Tree}
use omoplata.Store.Object.{Object}
use omoplata.Store.Repository.{Repository, read_object}
use omoplata.Work.Remote.{push_entries, enqueue, copy_loop, copy_closure}
use omoplata.Work.Remote.Closure.{copy_loop-ok, copy_loop-err}

module _ (hash : Bytes → Bytes) (from : Repository) (rank : ObjectId → ℕ) where
  -- The entries of a tree rank below the tree.
  abbrev pub IsRanked : Type 0
  IsRanked =
      (id : ObjectId) (entries : Tree)
      → read_object hash from id ≡ ok (Object.tree entries)
      → All (λ (e : TreeEntry). rank e.id < rank id) entries

  Ends : List ObjectId → Type 0
  Ends stack =
      (to : Repository) (copied : ℕ)
      → (fuel : ℕ) × (r : Result StoreError (Repository × ℕ)) × (copy_loop hash fuel from to copied
            stack
          ≡ some r)

  nothing-Ends : Ends []
  unfolding Ends copy_loop
  nothing-Ends to copied = (0, ok (to, copied), refl)

  -- Whatever ranks below the bound can be put on a stack that ends.
  Pushes : ℕ → Type 0
  Pushes bound =
      (id : ObjectId) (stack : List ObjectId) → rank id < bound → Ends stack → Ends (id ∷ stack)

  push-Ends :
      (bound : ℕ) (entries : Tree) (stack : List ObjectId)
      → Pushes bound
      → All (λ (e : TreeEntry). rank e.id < bound) entries
      → Ends stack
      → Ends (push_entries entries stack)
  unfolding push_entries Pushes
  push-Ends bound [] stack pushes low ends = ends
  push-Ends bound (e ∷ entries) stack pushes (one, low) ends =
      push-Ends bound entries (e.id ∷ stack) pushes low (pushes e.id stack one ends)

  lower :
      (bound : ℕ) (id : ObjectId) (entries : Tree)
      → rank id < suc bound
      → All (λ (e : TreeEntry). rank e.id < rank id) entries
      → All (λ (e : TreeEntry). rank e.id < bound) entries
  lower bound id [] low all = tt
  lower bound id (e ∷ entries) low (one, all) = (omega arith, lower bound id entries low all)

  enqueue-Ends :
      (bound : ℕ) (id : ObjectId) (o : Object) (stack : List ObjectId)
      → Pushes bound
      → IsRanked
      → rank id < suc bound
      → read_object hash from id ≡ ok o
      → Ends stack
      → Ends (enqueue o stack)
  unfolding enqueue
  enqueue-Ends bound id (Object.blob bytes) stack pushes ranked low read ends = ends
  enqueue-Ends bound id (Object.tree entries) stack pushes ranked low read ends =
      push-Ends bound entries stack pushes (lower bound id entries low (ranked id entries read))
        ends

  top-Pushes : (bound : ℕ) → IsRanked → Pushes bound
  unfolding Pushes Ends
  top-Pushes zero ranked id stack low ends = absurd (omega arith)
  top-Pushes (suc bound) ranked id stack low ends = λ to copied.
      elim (Result-cases (read_object hash from id)) [
        | inl (e, failed) ↦ (1, err e, copy_loop-err hash 0 from to copied id stack e failed)
        | inr (o, read) ↦
            let (fuel, r, ended) =
              enqueue-Ends bound id o stack (top-Pushes bound ranked) ranked low read ends _ _ in
            (suc fuel, r, copy_loop-ok hash fuel from to copied id stack o read ∙ ended)
      ]

  -- Where the entries of each tree in the source rank below the tree, the copy of any root ends, with a
  -- result or an error.
  pub copy_closure-ends :
      (to : Repository) (root : ObjectId)
      → IsRanked
      → (fuel : ℕ) × (r : Result StoreError (Repository × ℕ)) × (copy_closure hash fuel from to root
          ≡ some r)
  unfolding copy_closure Ends Pushes
  copy_closure-ends to root ranked =
      top-Pushes (suc (rank root)) ranked root [] (omega arith) nothing-Ends to 0
