-- ===== src/Git/Pack/Entries/Chains.antt =====
-- What the resolution of an entry means: the chain of deltas that leads to a whole object.
use omoplata.Prelude.{
  ◌≡◌, refl, ap, sym, ◌∙◌, inl, inr, ℕ, zero, suc, none, some, ◌==◌, nat_eq, list_eq, eq→eq, Assoc,
  get, insert, get-insert, Result, ok, err, ok-inj, Result-cases, Option-cases, Bool-cases,
}
use omoplata.Git.Bytes.{Bytes}
use omoplata.Git.Error.{GitError, pack, returned}
use omoplata.Git.Oid.{GitOid}
use omoplata.Git.Pack.Delta.{apply_delta}
use omoplata.Git.Pack.Entries.{
  base_entry, ofs_delta, ref_delta, Resolved, Memo, on_base, remembered, parse_entry_at, resolve,
}

on_base-ok :
    (m : Result GitError (Resolved × Memo)) (delta : Bytes) (r : Resolved) (memo : Memo)
    → on_base m delta ≡ ok (r, memo)
    → (base : Resolved) × (m ≡ ok (base, memo))
      × (returned (apply_delta base.1 delta) ≡ ok r.1)
      × (base.0 ≡ r.0)
on_base-ok (err e) delta r memo h = absurd (cc (h))
on_base-ok (ok ((t, body), memo1)) delta r memo h =
    elim (Result-cases (returned (apply_delta body delta))) [
      | inl (e, failed) ↦ let h' = rw (on_base, failed) at h in absurd (cc (h'))
      | inr (out, went) ↦
          let same = ok-inj (rw (on_base, went) at h) in
          (
            (t, body),
            ap (λ (k : Memo). ok ((t, body), k)) (ap (λ p. p.1) same),
            went ∙ ap (λ p. ok p.0.1) same,
            ap (λ p. p.0.0) same,
          )
    ]

pub some-inj : {A : Type 0} {a b : A} → some a ≡ some b → a ≡ b
some-inj {a = a} h = ap (λ o. elim o [ some x ↦ x | none ↦ a ]) h

remembered-ok :
    (offset : ℕ) (m : Result GitError (Resolved × Memo)) (r : Resolved) (memo : Memo)
    → remembered offset m ≡ ok (r, memo)
    → (memo1 : Memo) × (m ≡ ok (r, memo1)) × (memo ≡ insert memo1 offset r)
remembered-ok offset (err e) r memo h = absurd (cc (h))
remembered-ok offset (ok (r1, memo1)) r memo h =
    let same = ok-inj h in
    (
      memo1,
      ap (λ p. ok (p.0, memo1)) same,
      sym (ap (λ p. p.1) same) ∙ ap (λ (p : Resolved × Memo). insert memo1 offset p.0) same,
    )

module _ (inflate : Bytes → Result GitError (Bytes × ℕ)) (bytes : Bytes)
    (oids : Assoc GitOid ℕ) where
  -- A chain of at most so many deltas, from the entry at the offset to a whole object, and what it
  -- denotes.
  pub data Chain : ℕ → ℕ → Resolved → Type 0 where
    whole :
        {n offset type_id : ℕ} {contents : Bytes}
        → parse_entry_at inflate bytes offset ≡ ok (base_entry type_id contents)
        → Chain n offset (type_id, contents)
    on_ofs :
        {n offset base_offset : ℕ} {delta : Bytes} {base r : Resolved}
        → parse_entry_at inflate bytes offset ≡ ok (ofs_delta base_offset delta)
        → Chain n base_offset base
        → returned (apply_delta base.1 delta) ≡ ok r.1
        → base.0 ≡ r.0
        → Chain (suc n) offset r
    on_ref :
        {n offset base_offset : ℕ} {base_oid : GitOid} {delta : Bytes} {base r : Resolved}
        → parse_entry_at inflate bytes offset ≡ ok (ref_delta base_oid delta)
        → get oids base_oid ≡ some base_offset
        → Chain n base_offset base
        → returned (apply_delta base.1 delta) ≡ ok r.1
        → base.0 ≡ r.0
        → Chain (suc n) offset r

  abbrev pub Denotes : ℕ → Resolved → Type 0
  Denotes offset r = (n : ℕ) × Chain n offset r

  -- The memo holds what chains denote.
  abbrev pub IsSound : Memo → Type 0
  IsSound memo = (offset : ℕ) (r : Resolved) → get memo offset ≡ some r → Denotes offset r

  Denotes-same :
      {offset offset' : ℕ} {r r' : Resolved}
      → offset ≡ offset'
      → r ≡ r'
      → Denotes offset r
      → Denotes offset' r'
  Denotes-same e f d = rw (← e, ← f) d

  pub insert-IsSound :
      (memo : Memo) (offset : ℕ) (r : Resolved)
      → IsSound memo
      → Denotes offset r
      → IsSound (insert memo offset r)
  insert-IsSound memo offset r sound denotes j q h = elim (Bool-cases (offset == j)) [
    | inl same ↦
        Denotes-same (eq→eq offset j same) (some-inj (rw (get-insert memo offset j r, same) at h))
          denotes
    | inr other ↦ sound j q (rw (get-insert memo offset j r, other) at h)
  ]

  remembered-IsSound :
      (offset : ℕ) (m : Result GitError (Resolved × Memo)) (r : Resolved) (memo : Memo)
      → remembered offset m ≡ ok (r, memo)
      → ((memo1 : Memo) → m ≡ ok (r, memo1) → Denotes offset r × IsSound memo1)
      → Denotes offset r × IsSound memo
  remembered-IsSound offset m r memo h step =
      let (memo1, e, f) = remembered-ok offset m r memo h in
      let (denotes, sound) = step memo1 e in
      (denotes, rw f (insert-IsSound memo1 offset r sound denotes))

  -- The branches of the resolution.
  pub resolve-hit :
      (left offset : ℕ) (memo : Memo) (cached : Resolved)
      → get memo offset ≡ some cached
      → resolve inflate left bytes offset oids memo ≡ ok (cached, memo)
  unfolding resolve
  resolve-hit zero offset memo cached hit = rw (resolve, hit) refl
  resolve-hit (suc left) offset memo cached hit = rw (resolve, hit) refl

  resolve-fail :
      (left offset : ℕ) (memo : Memo) (e : GitError)
      → get memo offset ≡ none
      → parse_entry_at inflate bytes offset ≡ err e
      → resolve inflate (suc left) bytes offset oids memo ≡ err e
  unfolding resolve
  resolve-fail left offset memo e miss failed = rw (resolve, miss, failed) refl

  pub resolve-whole :
      (left offset type_id : ℕ) (memo : Memo) (contents : Bytes)
      → get memo offset ≡ none
      → parse_entry_at inflate bytes offset ≡ ok (base_entry type_id contents)
      → resolve inflate (suc left) bytes offset oids memo
        ≡ remembered offset (ok ((type_id, contents), memo))
  unfolding resolve
  resolve-whole left offset type_id memo contents miss parsed = rw (resolve, miss, parsed) refl

  pub resolve-ofs :
      (left offset base_offset : ℕ) (memo : Memo) (delta : Bytes)
      → get memo offset ≡ none
      → parse_entry_at inflate bytes offset ≡ ok (ofs_delta base_offset delta)
      → resolve inflate (suc left) bytes offset oids memo
        ≡ remembered offset (on_base (resolve inflate left bytes base_offset oids memo) delta)
  unfolding resolve
  resolve-ofs left offset base_offset memo delta miss parsed = rw (resolve, miss, parsed) refl

  pub resolve-ref :
      (left offset : ℕ) (base_oid : GitOid) (memo : Memo) (delta : Bytes)
      → get memo offset ≡ none
      → parse_entry_at inflate bytes offset ≡ ok (ref_delta base_oid delta)
      → resolve inflate (suc left) bytes offset oids memo
        ≡ remembered offset (elim (get oids base_oid) [
          | none ↦ err (pack "packfile: ref-delta base not in this pack")
          | some base_offset ↦ on_base (resolve inflate left bytes base_offset oids memo) delta
        ])
  unfolding resolve
  resolve-ref left offset base_oid memo delta miss parsed = rw (resolve, miss, parsed) refl

  hit-IsSound :
      (left offset : ℕ) (memo memo' : Memo) (r cached : Resolved)
      → IsSound memo
      → get memo offset ≡ some cached
      → resolve inflate left bytes offset oids memo ≡ ok (r, memo')
      → Denotes offset r × IsSound memo'
  hit-IsSound left offset memo memo' r cached sound hit h =
      let same = ok-inj (sym (resolve-hit left offset memo cached hit) ∙ h) in
      (
        Denotes-same refl (ap (λ p. p.0) same) (sound offset cached hit),
        rw (← ap (λ p. p.1) same) sound,
      )

  -- From a sound memo, what the resolution gives is what the chain of the entry denotes, and the
  -- memo stays sound.
  pub resolve-Denotes :
      (left offset : ℕ) (memo memo' : Memo) (r : Resolved)
      → IsSound memo
      → resolve inflate left bytes offset oids memo ≡ ok (r, memo')
      → Denotes offset r × IsSound memo'
  unfolding resolve
  resolve-Denotes zero offset memo memo' r sound h = elim (Option-cases (get memo offset)) [
    | inr (cached, hit) ↦ hit-IsSound zero offset memo memo' r cached sound hit h
    | inl miss ↦ let h' = rw (resolve, miss) at h in absurd (cc (h'))
  ]
  resolve-Denotes (suc left) offset memo memo' r sound h = elim (Option-cases (get memo offset)) [
    | inr (cached, hit) ↦ hit-IsSound (suc left) offset memo memo' r cached sound hit h
    | inl miss ↦ elim (Result-cases (parse_entry_at inflate bytes offset)) [
      | inl (e, failed) ↦ absurd (cc (sym (resolve-fail left offset memo e miss failed) ∙ h))
      | inr (base_entry type_id contents, parsed) ↦
          remembered-IsSound offset (ok ((type_id, contents), memo)) r memo'
            (sym (resolve-whole left offset type_id memo contents miss parsed) ∙ h)
            (λ memo1 e. (
              Denotes-same refl (ap (λ p. p.0) (ok-inj e)) (0, whole parsed),
              rw (← ap (λ p. p.1) (ok-inj e)) sound,
            ))
      | inr (ofs_delta base_offset delta, parsed) ↦
          remembered-IsSound offset
            (on_base (resolve inflate left bytes base_offset oids memo) delta) r memo'
            (sym (resolve-ofs left offset base_offset memo delta miss parsed) ∙ h)
            (λ memo1 e.
              let (base, e1, e2, e3) =
                on_base-ok (resolve inflate left bytes base_offset oids memo) delta r memo1 e in
              let ((n, chain), sound1) =
                resolve-Denotes left base_offset memo memo1 base sound e1 in
              ((suc n, on_ofs parsed chain e2 e3), sound1))
      | inr (ref_delta base_oid delta, parsed) ↦ elim (Option-cases (get oids base_oid)) [
        | inl unknown ↦
            let h' =
              rw unknown at (sym (resolve-ref left offset base_oid memo delta miss parsed) ∙ h) in
            absurd (cc (h'))
        | inr (base_offset, known) ↦
            remembered-IsSound offset
              (on_base (resolve inflate left bytes base_offset oids memo) delta) r memo'
              (rw known at (sym (resolve-ref left offset base_oid memo delta miss parsed) ∙ h))
              (λ memo1 e.
                let (base, e1, e2, e3) =
                  on_base-ok (resolve inflate left bytes base_offset oids memo) delta r memo1 e in
                let ((n, chain), sound1) =
                  resolve-Denotes left base_offset memo memo1 base sound e1 in
                ((suc n, on_ref parsed known chain e2 e3), sound1))
      ]
    ]
  ]
