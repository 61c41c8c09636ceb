-- ===== src/Work/Autorebase/Recorded.antt =====
-- What a rebase records: one operation in the log, and an edge in the change graph.
use mathlib.Core.Path.{subst}
use omoplata.Prelude.{
  ◌≡◌, ◌⊎◌, refl, ap, sym, ◌∙◌, inl, inr, none, length, string_eq, Result, ok, err, bind-ok, ok-inj,
  ◌>>=◌, Result-cases,
}
use omoplata.Algebra.Doc.{Doc}
use omoplata.Algebra.Rebase.{Rebased, rebase}
use omoplata.Git.Bytes.{Bytes}
use omoplata.Identity.Change.{ChangeId, CommitId, ChangeGraph}
use omoplata.Identity.Change.WellFormed.{IsWellFormed}
use omoplata.Store.Repository.{Repository}
use omoplata.Work.Error.{WorkError}
use omoplata.Work.OpLog.{OpKind, append}
use omoplata.Work.Autorebase.{
  RebaseOutcome, RebaseEngine, outcome_of, load_doc, store_doc, record_rebase, load_all, replay,
  auto_rebase,
}
use omoplata.Work.Autorebase.Edges.{Recorded, record_edge_lem}

-- An error is the same one in a result of another type.
same_error :
    {A B : Type 0} (d e : WorkError)
    → ◌≡◌ {A = Result WorkError A} (err d) (err e)
    → ◌≡◌ {A = Result WorkError B} (err d) (err e)
same_error d e h = ap err (cc (h))

module _ (hash : Bytes → Bytes) where
  -- A replay of contents that the store has.
  abbrev pub Replays : RebaseEngine → (base old_tip onto : CommitId) → Rebased → Type 0
  Replays engine base old_tip onto r =
      (b m o : Doc) × (load_doc hash engine.repo base ≡ ok b)
      × (load_doc hash engine.repo old_tip ≡ ok m)
      × (load_doc hash engine.repo onto ≡ ok o)
      × (r ≡ rebase b m o)

  abbrev pub tip_after : RebaseEngine → Rebased → CommitId
  tip_after engine r = (store_doc hash engine.repo r.result).1

  abbrev pub op_after : RebaseEngine → ChangeId → (old_tip onto : CommitId) → Rebased → OpKind
  op_after engine change old_tip onto r =
      OpKind.rebase change old_tip (tip_after engine r) onto (length r.conflicts)

  -- The move of a change on both axes, and the result of the call.
  abbrev pub Moves :
      RebaseEngine
      → ChangeId
      → (old_tip onto : CommitId) → Rebased
      → RebaseEngine × Result WorkError RebaseOutcome
      → Type 0
  Moves engine change old_tip onto r (engine', result) =
      (engine'.log ≡ append engine.log (op_after engine change old_tip onto r) none)
      × ((done : Result WorkError (Unit {0})) × (result ≡ outcome_of r (tip_after engine r) done)
          × Recorded engine'.graph old_tip (tip_after engine r) done)
      × IsWellFormed engine'.graph

  record_rebase-Moves :
      (engine : RebaseEngine) (change : ChangeId) (old_tip onto : CommitId) (r : Rebased)
      → IsWellFormed engine.graph
      → Moves engine change old_tip onto r (record_rebase hash engine change old_tip onto r)
  unfolding record_rebase
  record_rebase-Moves engine change old_tip onto r w =
      let (g', done, went, w', recorded) =
        record_edge_lem engine.graph change old_tip (tip_after engine r) w in
      let tip = tip_after engine r in
      (
        refl,
        (
          done,
          ap (λ (p : ChangeGraph × Result WorkError (Unit {0})). outcome_of r tip p.1) went,
          subst (λ (g : ChangeGraph). Recorded g old_tip tip done)
              (sym (ap (λ (p : ChangeGraph × Result WorkError (Unit {0})). p.0) went)) recorded,
        ),
        subst IsWellFormed (sym (ap (λ (p : ChangeGraph × Result WorkError (Unit {0})). p.0) went))
            w',
      )

  abbrev Loads : RebaseEngine → CommitId → Type 0
  Loads engine commit = (d : Doc) × (load_doc hash engine.repo commit ≡ ok d)

  -- The first of the three contents that cannot be loaded gives this error.
  abbrev pub Fails : RebaseEngine → (base old_tip onto : CommitId) → WorkError → Type 0
  Fails engine base old_tip onto e =
      (load_doc hash engine.repo base ≡ err e)
      ⊎ ((Loads engine base × (load_doc hash engine.repo old_tip ≡ err e))
          ⊎ (Loads engine base × Loads engine old_tip × (load_doc hash engine.repo onto ≡ err e)))

  load_all-Fails :
      (engine : RebaseEngine) (base old_tip onto : CommitId) (e : WorkError)
      → load_all hash engine.repo base old_tip onto ≡ err e
      → Fails engine base old_tip onto e
  unfolding load_all
  load_all-Fails engine base old_tip onto e h =
      elim (Result-cases (load_doc hash engine.repo base)) [
        | inl (d, at) ↦
            let first : load_all hash engine.repo base old_tip onto ≡ err d = rw (at, ◌>>=◌) refl in
            inl (at ∙ same_error d e (sym first ∙ h))
        | inr (b, at) ↦ elim (Result-cases (load_doc hash engine.repo old_tip)) [
          | inl (d, at2) ↦
              let second : load_all hash engine.repo base old_tip onto ≡ err d =
                rw (at, ◌>>=◌, at2, ◌>>=◌) refl in
              inr (inl ((b, at), at2 ∙ same_error d e (sym second ∙ h)))
          | inr (m, at2) ↦ elim (Result-cases (load_doc hash engine.repo onto)) [
            | inl (d, at3) ↦
                let third : load_all hash engine.repo base old_tip onto ≡ err d =
                  rw (at, ◌>>=◌, at2, ◌>>=◌, at3, ◌>>=◌) refl in
                inr (inr ((b, at), (m, at2), at3 ∙ same_error d e (sym third ∙ h)))
            | inr (o, at3) ↦
                let all_of : load_all hash engine.repo base old_tip onto ≡ ok (b, m, o) =
                  rw (at, ◌>>=◌, at2, ◌>>=◌, at3, ◌>>=◌) refl in
                absurd (cc (sym all_of ∙ h))
          ]
        ]
      ]

  load_all-parts :
      (repo : Repository) (base old_tip onto : CommitId) (b m o : Doc)
      → load_all hash repo base old_tip onto ≡ ok (b, m, o)
      → (load_doc hash repo base ≡ ok b)
        × (load_doc hash repo old_tip ≡ ok m)
        × (load_doc hash repo onto ≡ ok o)
  unfolding load_all
  load_all-parts repo base old_tip onto b m o h =
      let (b', e1, h1) = bind-ok (load_doc hash repo base) _ h in
      let (m', e2, h2) = bind-ok (load_doc hash repo old_tip) _ h1 in
      let (o', e3, h3) = bind-ok (load_doc hash repo onto) _ h2 in
      let same : ◌≡◌ {A = Doc × Doc × Doc} (b', m', o') (b, m, o) = ok-inj h3 in
      (
        e1 ∙ ap (λ (t : Doc × Doc × Doc). ok t.0) same,
        e2 ∙ ap (λ (t : Doc × Doc × Doc). ok t.1) same,
        e3 ∙ ap (λ (t : Doc × Doc × Doc). ok t.2) same,
      )

  replay-err :
      (engine : RebaseEngine) (change : ChangeId) (old_tip onto : CommitId) (e : WorkError)
      → replay hash engine change old_tip onto (err e) ≡ (engine, err e)
  unfolding replay
  replay-err engine change old_tip onto e = refl

  replay-ok :
      (engine : RebaseEngine) (change : ChangeId) (old_tip onto : CommitId) (b m o : Doc)
      → replay hash engine change old_tip onto (ok (b, m, o))
        ≡ record_rebase hash engine change old_tip onto (rebase b m o)
  unfolding replay
  replay-ok engine change old_tip onto b m o = refl

  auto_rebase-replay :
      (engine : RebaseEngine) (change : ChangeId) (base old_tip onto : CommitId)
      → auto_rebase hash engine change base old_tip onto
        ≡ replay hash engine change old_tip onto (load_all hash engine.repo base old_tip onto)
  unfolding auto_rebase
  auto_rebase-replay engine change base old_tip onto = refl

  pub auto_rebase-Moves :
      (engine : RebaseEngine) (change : ChangeId) (base old_tip onto : CommitId)
      → IsWellFormed engine.graph
      → ((e : WorkError) × Fails engine base old_tip onto e
          × (auto_rebase hash engine change base old_tip onto ≡ (engine, err e)))
        ⊎ ((r : Rebased) × Replays engine base old_tip onto r
            × Moves engine change old_tip onto r (auto_rebase hash engine change base old_tip onto))
  auto_rebase-Moves engine change base old_tip onto w =
      elim (Result-cases (load_all hash engine.repo base old_tip onto)) [
        | inl (e, failed) ↦ inl (
          e,
          load_all-Fails engine base old_tip onto e failed,
          auto_rebase-replay engine change base old_tip onto
              ∙ ap (replay hash engine change old_tip onto) failed
              ∙ replay-err engine change old_tip onto e,
        )
        | inr ((b, m, o), loaded) ↦
            let (e1, e2, e3) = load_all-parts engine.repo base old_tip onto b m o loaded in
            let same =
              auto_rebase-replay engine change base old_tip onto
              ∙ ap (replay hash engine change old_tip onto) loaded
              ∙ replay-ok engine change old_tip onto b m o in
            inr (
              rebase b m o,
              (b, m, o, e1, e2, e3, refl),
              subst (Moves engine change old_tip onto (rebase b m o)) (sym same)
                  (record_rebase-Moves engine change old_tip onto (rebase b m o) w),
            )
      ]
