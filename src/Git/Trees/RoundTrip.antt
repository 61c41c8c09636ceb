-- ===== src/Git/Trees/RoundTrip.antt =====
-- The entries of a tree are read back, and written as they were read.
use mathlib.Core.List.{append_assoc, append-nil}
use omoplata.Prelude.{
  ◌≡◌, refl, ap, sym, ◌∙◌, inl, inr, ℕ, zero, suc, ◌<◌, ◌≤◌, true, false, Option, none, some, List,
  [], ◌∷◌, ◌++◌, All, length, length-append, take, drop, take-append-drop, take-length-append,
  drop-length-append, leb, le→leb, Result, ok, err, ◌>>=◌, ok_or, bind-ok, ok-inj, empty,
  Result-cases, Bool-cases, arith,
}
use omoplata.Git.Bytes.{Bytes, is_utf8}
use omoplata.Git.Error.{GitError, returned}
use omoplata.Git.Text.{find_byte}
use omoplata.Git.Text.Find.{Lacks, find_byte-append, find_byte-parts}
use omoplata.Git.Trees.{
  GitTreeEntry, encode_entry, encode_tree, utf8_or, entry_of, tree_entry, tree_loop, decode_tree,
}

-- What an entry of git has: a mode without a blank, a name without a NUL, both UTF-8, and an id of
-- 20 bytes.
abbrev pub IsEntry : GitTreeEntry → Type 0
IsEntry e =
    (Lacks b' ' e.mode × (is_utf8 e.mode ≡ true))
    × (Lacks 0 e.name × (is_utf8 e.name ≡ true))
    × (length e.oid ≡ 20)

found-ok :
    (o : Option (Bytes × Bytes)) (reason : GitError) (parts : Bytes × Bytes)
    → ok_or o reason ≡ ok parts
    → o ≡ some parts
found-ok none reason parts h = absurd (cc (h))
found-ok (some p) reason parts h = ground arith

utf8_or-same :
    (text text' : Bytes) (reason : GitError) → utf8_or text reason ≡ ok text' → text ≡ text'
utf8_or-same text text' reason h = ground arith

encode_entry-rest :
    (mode name oid rest : Bytes)
    → mode ++ b' ' ∷ (name ++ 0 ∷ (oid ++ rest))
      ≡ encode_entry (record { mode = mode; name = name; oid = oid }) ++ rest
encode_entry-rest mode name oid rest = sym (
    append_assoc mode (b' ' ∷ (name ++ 0 ∷ oid)) rest
    ∙ ap (λ (r : Bytes). mode ++ b' ' ∷ r) (append_assoc name (0 ∷ oid) rest))

entry_of-parts :
    (mode name rest rest' : Bytes) (e : GitTreeEntry)
    → entry_of mode name rest ≡ ok (e, rest')
    → mode ++ b' ' ∷ (name ++ 0 ∷ rest) ≡ encode_entry e ++ rest'
entry_of-parts mode name rest rest' e h = elim (Bool-cases (leb 20 (length rest))) [
  | inl enough ↦
      let read : entry_of mode name rest
          ≡ ok (record { mode = mode; name = name; oid = take 20 rest }, drop 20 rest) =
        rw enough refl in
      ap (λ (r : Bytes). mode ++ b' ' ∷ (name ++ 0 ∷ r)) (sym (take-append-drop 20 rest))
      ∙ encode_entry-rest mode name (take 20 rest) (drop 20 rest)
      ∙ ap (λ (p : GitTreeEntry × Bytes). encode_entry p.0 ++ p.1) (ok-inj (sym read ∙ h))
  | inr short ↦ absurd (ground arith)
]

tree_entry-parts :
    (body rest : Bytes) (e : GitTreeEntry)
    → tree_entry body ≡ ok (e, rest)
    → body ≡ encode_entry e ++ rest
unfolding tree_entry
tree_entry-parts body rest e h =
    let ((mode, rest1), e1, h1) =
      bind-ok (ok_or (find_byte b' ' body) (GitError.decode "tree entry: missing mode separator")) _
        h in
    let (mode', e2, h2) =
      bind-ok (utf8_or mode (GitError.decode "tree entry: non-utf8 mode")) _ h1 in
    let ((name, rest2), e3, h3) =
      bind-ok (ok_or (find_byte 0 rest1) (GitError.decode "tree entry: missing name NUL")) _ h2 in
    let (name', e4, h4) =
      bind-ok (utf8_or name (GitError.decode "tree entry: non-utf8 name")) _ h3 in
    find_byte-parts b' ' body mode rest1 (found-ok (find_byte b' ' body) _ (mode, rest1) e1)
    ∙ ap (λ (r : Bytes). mode ++ b' ' ∷ r)
        (find_byte-parts 0 rest1 name rest2 (found-ok (find_byte 0 rest1) _ (name, rest2) e3))
    ∙ rw (utf8_or-same mode mode' _ e2, utf8_or-same name name' _ e4)
        (entry_of-parts mode' name' rest2 rest e h4)

tree_entry-shorter :
    (body rest : Bytes) (e : GitTreeEntry)
    → tree_entry body ≡ ok (e, rest)
    → length rest < length body
tree_entry-shorter body rest e h = rw (tree_entry-parts body rest e h) (
    omega (
      arith,
      length-append (encode_entry e) rest,
      length-append e.mode (b' ' ∷ (e.name ++ 0 ∷ e.oid)),
    ))

-- Enough fuel: the bytes of the body.
tree_loop-ends :
    (fuel : ℕ) (entries : List GitTreeEntry) (body : Bytes)
    → length body ≤ fuel
    → (r : Result GitError (List GitTreeEntry)) × (tree_loop fuel entries body ≡ some r)
unfolding tree_loop
tree_loop-ends fuel entries [] h = (ok entries, refl)
tree_loop-ends zero entries (b ∷ body) h = absurd (omega arith)
tree_loop-ends (suc fuel) entries (b ∷ body) h = elim (Result-cases (tree_entry (b ∷ body))) [
  | inl (e, failed) ↦ (err e, rw (tree_loop, failed))
  | inr ((entry, rest), went) ↦
      rw (tree_loop, went)
        (tree_loop-ends fuel (entries ++ entry ∷ []) rest
          (omega (arith, tree_entry-shorter (b ∷ body) rest entry went)))
]

-- The loop over a tree always has fuel enough.
pub decode_tree-ends : (body : Bytes) → tree_loop (length body) [] body ≡ some (decode_tree body)
unfolding decode_tree
decode_tree-ends body =
    let (r, ended) = tree_loop-ends (length body) [] body (omega arith) in
    ended ∙ ap (λ o. some (returned o)) (sym ended)

tree_loop-step :
    (fuel : ℕ) (front : List GitTreeEntry) (body rest : Bytes) (entry : GitTreeEntry)
    → empty body ≡ false
    → tree_entry body ≡ ok (entry, rest)
    → tree_loop (suc fuel) front body ≡ tree_loop fuel (front ++ entry ∷ []) rest
unfolding tree_loop
tree_loop-step fuel front [] rest entry some_byte went = absurd (cc (some_byte))
tree_loop-step fuel front (b ∷ body) rest entry some_byte went = rw (tree_loop, went) refl

encode_entry-empty : (e : GitTreeEntry) (rest : Bytes) → empty (encode_entry e ++ rest) ≡ false
encode_entry-empty e rest =
    rw (append_assoc e.mode (b' ' ∷ (e.name ++ 0 ∷ e.oid)) rest)
      (separated e.mode ((e.name ++ 0 ∷ e.oid) ++ rest))
  where
    separated : (xs ys : Bytes) → empty (xs ++ b' ' ∷ ys) ≡ false
    separated [] ys = refl
    separated (x ∷ xs) ys = refl

entry_of-oid :
    (e : GitTreeEntry) (rest : Bytes)
    → length e.oid ≡ 20
    → entry_of e.mode e.name (e.oid ++ rest) ≡ ok (e, rest)
entry_of-oid e rest twenty =
    let within : leb 20 (length (e.oid ++ rest)) ≡ true =
      le→leb 20 (length (e.oid ++ rest)) (omega (arith, length-append e.oid rest)) in
    let taken : take 20 (e.oid ++ rest) ≡ e.oid =
      ap (λ (n : ℕ). take n (e.oid ++ rest)) (sym twenty) ∙ take-length-append e.oid rest in
    let dropped : drop 20 (e.oid ++ rest) ≡ rest =
      ap (λ (n : ℕ). drop n (e.oid ++ rest)) (sym twenty) ∙ drop-length-append e.oid rest in
    rw (within, taken, dropped)

tree_loop-encode_tree :
    (fuel : ℕ) (front : List GitTreeEntry) (body : Bytes) (entries : List GitTreeEntry)
    → tree_loop fuel front body ≡ some (ok entries)
    → (more : List GitTreeEntry) × (entries ≡ front ++ more) × (body ≡ encode_tree more)
unfolding tree_loop encode_tree
tree_loop-encode_tree fuel front [] entries h =
    ([], let same : front ≡ entries = ground arith in sym same ∙ sym (append-nil front), refl)
tree_loop-encode_tree zero front (b ∷ body) entries h = absurd (cc (h))
tree_loop-encode_tree (suc fuel) front (b ∷ body) entries h =
    elim (Result-cases (tree_entry (b ∷ body))) [
      | inl (e, failed) ↦
          let step : tree_loop (suc fuel) front (b ∷ body) ≡ some (err e) =
            rw (tree_loop, failed) refl in
          absurd (cc (sym step ∙ h))
      | inr ((entry, rest), went) ↦
          let step = tree_loop-step fuel front (b ∷ body) rest entry refl went in
          let (more, all, parts) =
            tree_loop-encode_tree fuel (front ++ entry ∷ []) rest entries (sym step ∙ h) in
          (
            entry ∷ more,
            all ∙ append_assoc front (entry ∷ []) more,
            tree_entry-parts (b ∷ body) rest entry went
                ∙ ap (λ (r : Bytes). encode_entry entry ++ r) parts,
          )
    ]

-- Entries that were read from a body are written as that body.
pub encode_tree-decode_tree :
    (body : Bytes) (entries : List GitTreeEntry)
    → decode_tree body ≡ ok entries
    → encode_tree entries ≡ body
encode_tree-decode_tree body entries h =
    let (more, all, parts) =
      tree_loop-encode_tree (length body) [] body entries (decode_tree-ends body ∙ ap some h) in
    ap encode_tree all ∙ sym parts

tree_entry-encode_entry :
    (e : GitTreeEntry) (rest : Bytes)
    → IsEntry e
    → tree_entry (encode_entry e ++ rest) ≡ ok (e, rest)
unfolding tree_entry
tree_entry-encode_entry e rest ((blank, mode_utf8), (nul, name_utf8), twenty) =
    let read = take-length-append e.oid rest in
    let left = drop-length-append e.oid rest in
    rw
      (
        ← encode_entry-rest e.mode e.name e.oid rest,
        find_byte-append b' ' e.mode (e.name ++ 0 ∷ (e.oid ++ rest)) blank,
        ◌>>=◌,
        mode_utf8,
        ◌>>=◌,
        find_byte-append 0 e.name (e.oid ++ rest) nul,
        ◌>>=◌,
        name_utf8,
        ◌>>=◌,
      )
      (entry_of-oid e rest twenty)

tree_loop-entries :
    (fuel : ℕ) (front entries : List GitTreeEntry)
    → All IsEntry entries
    → length entries ≤ fuel
    → tree_loop fuel front (encode_tree entries) ≡ some (ok (front ++ entries))
unfolding encode_tree tree_loop
tree_loop-entries fuel front [] all h = ap (λ es. some (ok es)) (sym (append-nil front))
tree_loop-entries zero front (e ∷ entries) all h = absurd (omega arith)
tree_loop-entries (suc fuel) front (e ∷ entries) (one, all) h =
    tree_loop-step fuel front (encode_entry e ++ encode_tree entries) (encode_tree entries) e
      (encode_entry-empty e (encode_tree entries))
      (tree_entry-encode_entry e (encode_tree entries) one)
    ∙ tree_loop-entries fuel (front ++ e ∷ []) entries all (omega arith)
    ∙ ap (λ es. some (ok es)) (append_assoc front (e ∷ []) entries)

length-encode_tree : (entries : List GitTreeEntry) → length entries ≤ length (encode_tree entries)
unfolding encode_tree
length-encode_tree [] = omega arith
length-encode_tree (e ∷ entries) = omega (
  arith,
  length-encode_tree entries,
  length-append (encode_entry e) (encode_tree entries),
  length-append e.mode (b' ' ∷ (e.name ++ 0 ∷ e.oid)),
)

-- The entries of a tree are read back from what was written.
pub decode_tree-encode_tree :
    (entries : List GitTreeEntry)
    → All IsEntry entries
    → decode_tree (encode_tree entries) ≡ ok entries
unfolding decode_tree
decode_tree-encode_tree entries all =
    ap returned
      (tree_loop-entries (length (encode_tree entries)) [] entries all (length-encode_tree entries))
