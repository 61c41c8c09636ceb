-- ===== src/Git/Pack/Entries/Complete.antt =====
-- Every chain that is short enough is resolved.
use omoplata.Prelude.{
  ◌≡◌, refl, ap, sym, ◌∙◌, inl, inr, ℕ, zero, suc, ◌≤◌, some, nat_eq, list_eq, Assoc, get, insert,
  Result, ok, ok-inj, Option-cases, arith,
}
use omoplata.Git.Bytes.{Bytes}
use omoplata.Git.Error.{GitError, returned}
use omoplata.Git.Oid.{GitOid}
use omoplata.Git.Pack.Delta.{apply_delta}
use omoplata.Git.Pack.Entries.{
  base_entry, ofs_delta, ref_delta, Resolved, Memo, on_base, remembered, resolve,
}
use omoplata.Git.Pack.Entries.Chains.{
  Chain, whole, on_ofs, on_ref, Denotes, IsSound, some-inj, insert-IsSound, resolve-hit,
  resolve-whole, resolve-ofs, resolve-ref,
}

pair_eq : (r r' : Resolved) → r.0 ≡ r'.0 → r.1 ≡ r'.1 → r ≡ r'
pair_eq (a, b) (c, d) e f = rw (e, f) refl

base_entry-inj :
    {t t' : ℕ} {c c' : Bytes}
    → base_entry t c ≡ base_entry t' c'
    → ◌≡◌ {A = ℕ × Bytes} (t, c) (t', c')
base_entry-inj {t = t} {c = c} e =
    ap (λ k. elim k [ base_entry x y ↦ (x, y) | ofs_delta x y ↦ (t, c) | ref_delta x y ↦ (t, c) ]) e

ofs_delta-inj :
    {b b' : ℕ} {d d' : Bytes}
    → ofs_delta b d ≡ ofs_delta b' d'
    → ◌≡◌ {A = ℕ × Bytes} (b, d) (b', d')
ofs_delta-inj {b = b} {d = d} e =
    ap (λ k. elim k [ base_entry x y ↦ (b, d) | ofs_delta x y ↦ (x, y) | ref_delta x y ↦ (b, d) ]) e

ref_delta-inj :
    {b b' : GitOid} {d d' : Bytes}
    → ref_delta b d ≡ ref_delta b' d'
    → ◌≡◌ {A = Bytes × Bytes} (b, d) (b', d')
ref_delta-inj {b = b} {d = d} e =
    ap (λ k. elim k [ base_entry x y ↦ (b, d) | ofs_delta x y ↦ (b, d) | ref_delta x y ↦ (x, y) ]) e

-- The same delta on the same base has the same target.
same_target :
    (base base' r r' : Resolved) (delta delta' : Bytes)
    → base ≡ base'
    → delta ≡ delta'
    → returned (apply_delta base.1 delta) ≡ ok r.1
    → base.0 ≡ r.0
    → returned (apply_delta base'.1 delta') ≡ ok r'.1
    → base'.0 ≡ r'.0
    → r ≡ r'
same_target base base' r r' delta delta' e f went ty went' ty' =
    pair_eq r r' (sym ty ∙ ap (λ (b : Resolved). b.0) e ∙ ty') (
      ok-inj (
        sym went
        ∙ ap (λ (b : Resolved). returned (apply_delta b.1 delta)) e
        ∙ ap (λ (d : Bytes). returned (apply_delta base'.1 d)) f
        ∙ went'))

module _ (inflate : Bytes → Result GitError (Bytes × ℕ)) (bytes : Bytes)
    (oids : Assoc GitOid ℕ) where
  moved-Chain :
      {n offset offset' : ℕ} {r : Resolved}
      → offset ≡ offset'
      → Chain inflate bytes oids n offset' r
      → Chain inflate bytes oids n offset r
  moved-Chain e chain = rw e chain

  -- An entry denotes one object at most.
  Chain-functional :
      {n m offset : ℕ} {r r' : Resolved}
      → Chain inflate bytes oids n offset r
      → Chain inflate bytes oids m offset r'
      → r ≡ r'
  Chain-functional (whole p) (whole q) = base_entry-inj (ok-inj (sym p ∙ q))
  Chain-functional (whole p) (on_ofs q chain' went' ty') = absurd (cc (ok-inj (sym p ∙ q)))
  Chain-functional (whole p) (on_ref q known' chain' went' ty') = absurd (cc (ok-inj (sym p ∙ q)))
  Chain-functional (on_ofs p chain went ty) (whole q) = absurd (cc (ok-inj (sym p ∙ q)))
  Chain-functional (on_ofs p chain went ty) (on_ofs q chain' went' ty') =
      let same = ofs_delta-inj (ok-inj (sym p ∙ q)) in
      same_target _ _ _ _ _ _ (Chain-functional chain (moved-Chain (ap (λ k. k.0) same) chain'))
        (ap (λ k. k.1) same) went ty went' ty'
  Chain-functional (on_ofs p chain went ty) (on_ref q known' chain' went' ty') =
      absurd (cc (ok-inj (sym p ∙ q)))
  Chain-functional (on_ref p known chain went ty) (whole q) = absurd (cc (ok-inj (sym p ∙ q)))
  Chain-functional (on_ref p known chain went ty) (on_ofs q chain' went' ty') =
      absurd (cc (ok-inj (sym p ∙ q)))
  Chain-functional (on_ref p known chain went ty) (on_ref q known' chain' went' ty') =
      let same = ref_delta-inj (ok-inj (sym p ∙ q)) in
      let same_offset = some-inj (sym known ∙ ap (get oids) (ap (λ k. k.0) same) ∙ known') in
      same_target _ _ _ _ _ _ (Chain-functional chain (moved-Chain same_offset chain'))
        (ap (λ k. k.1) same) went ty went' ty'

  abbrev pub Resolves : (left offset : ℕ) → Memo → Resolved → Type 0
  Resolves left offset memo r =
      (memo' : Memo) × (resolve inflate left bytes offset oids memo ≡ ok (r, memo'))
      × IsSound inflate bytes oids memo'

  hit-Resolves :
      (left n offset : ℕ) (memo : Memo) (r cached : Resolved)
      → IsSound inflate bytes oids memo
      → Chain inflate bytes oids n offset r
      → get memo offset ≡ some cached
      → Resolves left offset memo r
  hit-Resolves left n offset memo r cached sound chain hit =
      let (m, denotes) = sound offset cached hit in
      (
        memo,
        resolve-hit inflate bytes oids left offset memo cached hit
            ∙ ap (λ (k : Resolved). ok (k, memo)) (Chain-functional denotes chain),
        sound,
      )

  -- The step from the base to the target of a delta.
  delta-Resolves :
      (left base_offset offset : ℕ) (memo : Memo) (base r : Resolved) (delta : Bytes)
      → Resolves left base_offset memo base
      → returned (apply_delta base.1 delta) ≡ ok r.1
      → base.0 ≡ r.0
      → Denotes inflate bytes oids offset r
      → (memo' : Memo) × (remembered offset
            (on_base (resolve inflate left bytes base_offset oids memo) delta)
          ≡ ok (r, memo'))
        × IsSound inflate bytes oids memo'
  delta-Resolves left base_offset offset memo base r delta (memo1, resolved, sound1) went ty
        denotes =
      (
        insert memo1 offset r,
        rw (resolved, on_base, went)
            (ap (λ (k : Resolved). ok (k, insert memo1 offset k))
              (pair_eq (base.0, r.1) r ty refl)),
        insert-IsSound inflate bytes oids memo1 offset r sound1 denotes,
      )

  -- From a sound memo, an entry whose chain has no more deltas than the depth has left is resolved to
  -- what the chain denotes, and the memo stays sound.
  pub resolve_complete :
      (left n offset : ℕ) (memo : Memo) (r : Resolved)
      → IsSound inflate bytes oids memo
      → Chain inflate bytes oids n offset r
      → n ≤ left
      → Resolves (suc left) offset memo r
  resolve_complete left n offset memo (type_id, contents) sound (whole parsed) short =
      elim (Option-cases (get memo offset)) [
        | inr (cached, hit) ↦
            hit-Resolves (suc left) n offset memo (type_id, contents) cached sound (whole parsed)
              hit
        | inl miss ↦ (
          insert memo offset (type_id, contents),
          resolve-whole inflate bytes oids left offset type_id memo contents miss parsed,
          insert-IsSound inflate bytes oids memo offset (type_id, contents) sound (n, whole parsed),
        )
      ]
  resolve_complete zero (suc n) offset memo r sound (on_ofs parsed chain went ty) short =
      absurd (omega arith)
  resolve_complete zero (suc n) offset memo r sound (on_ref parsed known chain went ty) short =
      absurd (omega arith)
  resolve_complete (suc left) (suc n) offset memo r sound
        (on_ofs {base_offset = b} {delta = d} {base = base} parsed chain went ty) short =
      elim (Option-cases (get memo offset)) [
        | inr (cached, hit) ↦
            hit-Resolves (suc (suc left)) (suc n) offset memo r cached sound
              (on_ofs parsed chain went ty) hit
        | inl miss ↦
            let below = resolve_complete left n b memo base sound chain (omega arith) in
            let (memo', went_on, sound') =
              delta-Resolves (suc left) b offset memo base r d below went ty
                (suc n, on_ofs parsed chain went ty) in
            (
              memo',
              resolve-ofs inflate bytes oids (suc left) offset b memo d miss parsed ∙ went_on,
              sound',
            )
      ]
  resolve_complete (suc left) (suc n) offset memo r sound
        (on_ref {base_offset = b} {base_oid = o} {delta = d} {base = base} parsed known chain went
          ty)
        short =
      elim (Option-cases (get memo offset)) [
        | inr (cached, hit) ↦
            hit-Resolves (suc (suc left)) (suc n) offset memo r cached sound
              (on_ref parsed known chain went ty) hit
        | inl miss ↦
            let below = resolve_complete left n b memo base sound chain (omega arith) in
            let (memo', went_on, sound') =
              delta-Resolves (suc left) b offset memo base r d below went ty
                (suc n, on_ref parsed known chain went ty) in
            (
              memo',
              (rw known at (resolve-ref inflate bytes oids (suc left) offset o memo d miss parsed))
                  ∙ went_on,
              sound',
            )
      ]
