-- ===== src/Identity/Change/Acyclic.antt =====
-- The supersession edges stay acyclic.
use mathlib.Core.Path.{subst}
use omoplata.Prelude.{
  ℕ, ◌+◌, length, zero, suc, ◌≡◌, ◌⊎◌, inl, inr, refl, sym, ap, ◌∙◌, true, false, some, List, [],
  ◌∷◌, ok, ◌==◌, string_eq, eq→eq, eq_self, Assoc, get, insert, contains, get-insert, Bool-cases,
  arith,
}
use omoplata.Identity.Change.{CommitId, ChangeGraph, reaches_loop, reaches, supersede}

-- One or more edges lead from a commit to another.
pub data Leads (edges : Assoc CommitId CommitId) : CommitId → CommitId → Type 0 where
  one : {c d : CommitId} → get edges c ≡ some d → Leads edges c d
  onward : {c d e : CommitId} → get edges c ≡ some d → Leads edges d e → Leads edges c e

abbrev pub IsAcyclic : ChangeGraph → Type 0
IsAcyclic g = (c : CommitId) → Leads g.superseded_by c c → ⊥

module _ (edges : Assoc CommitId CommitId) (target : CommitId) where
  -- No edge leaves the commits that were seen but from the cursor, and none of them is the target.
  record IsTrail (cursor : CommitId) (seen : List CommitId) : Type 0 where
    inside :
        (s d : CommitId)
        → contains seen s ≡ true
        → get edges s ≡ some d
        → (s ≡ cursor) ⊎ (contains seen d ≡ true)
    apart : contains seen target ≡ false

  some_eq :
      (s cursor d next : CommitId)
      → get edges s ≡ some d
      → get edges cursor ≡ some next
      → s ≡ cursor
      → d ≡ next
  some_eq s cursor d next out e same = cc

  IsTrail-next :
      (cursor next : CommitId) (seen : List CommitId)
      → IsTrail cursor seen
      → get edges cursor ≡ some next
      → (next == target) ≡ false
      → IsTrail next (next ∷ seen)
  IsTrail-next cursor next seen t e away = record {
    inside = λ s d at out. ground (
      arith,
      t.inside s d,
      eq→eq next s,
      eq→eq next d,
      eq_self next,
      some_eq s cursor d next out e,
    );
    apart = ground (arith, t.apart);
  }

  -- What is closed under the edges and holds no target does not lead to it.
  closed_lem :
      (seen : List CommitId)
      → ((s d : CommitId) → contains seen s ≡ true → get edges s ≡ some d → contains seen d ≡ true)
      → contains seen target ≡ false
      → {s e : CommitId} → Leads edges s e
      → e ≡ target
      → contains seen s ≡ true
      → ⊥
  closed_lem seen closed apart (one {c} {d} at) same h = cc (closed c d h at, apart, same)
  closed_lem seen closed apart (onward {c} {d} at rest) same h =
      closed_lem seen closed apart rest same (closed c d h at)

  -- A trail that runs into itself is closed.
  IsTrail-closed :
      (cursor next : CommitId) (seen : List CommitId)
      → IsTrail cursor seen
      → get edges cursor ≡ some next
      → contains seen next ≡ true
      → (s d : CommitId) → contains (cursor ∷ seen) s ≡ true
      → get edges s ≡ some d
      → contains (cursor ∷ seen) d ≡ true
  IsTrail-closed cursor next seen t e again s d h out =
      ground (arith, t.inside s d, eq→eq cursor s, eq_self cursor, some_eq s cursor d next out e)

  Leads-first :
      {c d : CommitId}
      → Leads edges c d
      → (next : CommitId) × (get edges c ≡ some next) × ((next ≡ d) ⊎ Leads edges next d)
  Leads-first (one {c} {d} e) = (d, e, inl refl)
  Leads-first (onward {c} {d} e path) = (d, e, inr path)

  loop_cases :
      (fuel : ℕ) (cursor next : CommitId) (seen : List CommitId)
      → get edges cursor ≡ some next
      → reaches_loop (suc fuel) edges cursor seen target ≡ some false
      → ((next == target) ≡ false)
        × ((contains seen next ≡ true)
            ⊎ (reaches_loop fuel edges next (next ∷ seen) target ≡ some false))
  unfolding reaches_loop
  loop_cases fuel cursor next seen at e = ground arith

  -- The loop answers `false` only where the target is not ahead.
  reaches_loop-false :
      (fuel : ℕ) (cursor : CommitId) (seen : List CommitId)
      → IsTrail cursor seen
      → (cursor == target) ≡ false
      → reaches_loop fuel edges cursor seen target ≡ some false
      → Leads edges cursor target
      → ⊥
  unfolding reaches_loop
  reaches_loop-false zero cursor seen t away e path = cc
  reaches_loop-false (suc fuel) cursor seen t away e path =
      let (next, at, ahead) = Leads-first path in
      let (off, how) = loop_cases fuel cursor next seen at e in
      elim how [
        | inl again ↦
            closed_lem (cursor ∷ seen) (IsTrail-closed cursor next seen t at again)
              (ground (arith, t.apart)) path refl (ground (arith, eq_self cursor))
        | inr later ↦ elim ahead [
          | inl here ↦ cc (eq_self target, here, off)
          | inr rest ↦
              reaches_loop-false fuel next (next ∷ seen) (IsTrail-next cursor next seen t at off)
                off later rest
        ]
      ]

abbrev IsAtOrAhead : Assoc CommitId CommitId → CommitId → CommitId → Type 0
IsAtOrAhead edges c d = (c ≡ d) ⊎ Leads edges c d

module _ (edges : Assoc CommitId CommitId) (old new c d : CommitId) where
  pub insert_here : get (insert edges old new) c ≡ some d → (old == c) ≡ true → new ≡ d
  insert_here at same = ground (arith, get-insert edges old c new)

  pub insert_elsewhere :
      get (insert edges old new) c ≡ some d → (old == c) ≡ false → get edges c ≡ some d
  insert_elsewhere at other = ground (arith, get-insert edges old c new)

  lead_on : get edges c ≡ some d → IsAtOrAhead edges d old → IsAtOrAhead edges c old
  lead_on at (inl here) = inr (one (at ∙ ap some here))
  lead_on at (inr path) = inr (onward at path)

-- A path that may use the new edge either does not, or goes to its start and on from its end.
Leads-insert :
    (edges : Assoc CommitId CommitId) (old new : CommitId) {c d : CommitId}
    → Leads (insert edges old new) c d
    → Leads edges c d ⊎ (IsAtOrAhead edges c old × IsAtOrAhead edges new d)
Leads-insert edges old new (one {c} {d} at) = elim (Bool-cases (old == c)) [
  | inl same ↦ inr (inl (sym (eq→eq old c same)), inl (insert_here edges old new c d at same))
  | inr other ↦ inl (one (insert_elsewhere edges old new c d at other))
]
Leads-insert edges old new (onward {c} {d} {e} at path) = elim (Bool-cases (old == c)) [
  | inl same ↦ elim (Leads-insert edges old new path) [
    | inl plain ↦ inr (
      inl (sym (eq→eq old c same)),
      inr (subst (λ x. Leads edges x e) (sym (insert_here edges old new c d at same)) plain),
    )
    | inr (before, after) ↦ inr (inl (sym (eq→eq old c same)), after)
  ]
  | inr other ↦ elim (Leads-insert edges old new path) [
    | inl plain ↦ inl (onward (insert_elsewhere edges old new c d at other) plain)
    | inr (before, after) ↦
        inr (lead_on edges old new c d (insert_elsewhere edges old new c d at other) before, after)
  ]
]

-- The end of one path is the start of the next.
Leads-trans :
    {edges : Assoc CommitId CommitId} {c d e : CommitId}
    → Leads edges c d
    → Leads edges d e
    → Leads edges c e
Leads-trans (one at) q = onward at q
Leads-trans (onward at p) q = onward at (Leads-trans p q)

ahead_trans :
    {edges : Assoc CommitId CommitId} {c d e : CommitId}
    → IsAtOrAhead edges c d
    → IsAtOrAhead edges d e
    → IsAtOrAhead edges c e
ahead_trans {edges} {e} (inl p) q = subst (λ x. IsAtOrAhead edges x e) (sym p) q
ahead_trans {edges} {c} (inr p) (inl q) = inr (subst (Leads edges c) q p)
ahead_trans (inr p) (inr q) = inr (Leads-trans p q)

reaches-false :
    (g : ChangeGraph) (from target : CommitId)
    → reaches g from target ≡ some false
    → IsAtOrAhead g.superseded_by from target
    → ⊥
unfolding reaches
reaches-false g from target e path = elim (Bool-cases (from == target)) [
  | inl here ↦ cc (here, e)
  | inr away ↦ elim path [
    | inl same ↦ cc (same, eq_self target, away)
    | inr ahead ↦
        reaches_loop-false g.superseded_by target (length g.superseded_by + 1) from []
          (record { inside = λ s d h. absurd (cc (h)); apart = refl }) away (ground arith) ahead
  ]
]

supersede_parts :
    (g g' : ChangeGraph) (old new : CommitId)
    → supersede g old new ≡ ok g'
    → (reaches g new old ≡ some false)
      × (g' ≡ record g { superseded_by = insert g.superseded_by old new })
unfolding supersede
supersede_parts g g' old new e = ground arith

-- A supersession that is accepted keeps the edges free of cycles.
pub supersede-IsAcyclic :
    (g g' : ChangeGraph) (old new : CommitId)
    → IsAcyclic g
    → supersede g old new ≡ ok g'
    → IsAcyclic g'
supersede-IsAcyclic g g' old new acyclic e c path =
    let (apart, eq) = supersede_parts g g' old new e in
    elim (Leads-insert g.superseded_by old new
      (subst (λ (x : ChangeGraph). Leads x.superseded_by c c) eq path)) [
        | inl plain ↦ acyclic c plain
        | inr (before, after) ↦ reaches-false g new old apart (ahead_trans after before)
      ]
