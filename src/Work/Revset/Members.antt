-- ===== src/Work/Revset/Members.antt =====
-- What a revset expression means: which commits are members of its value.
use omoplata.Prelude.{
  ◌≡◌, refl, ap, sym, ◌⊎◌, inl, inr, String, Bool, true, false, ◌&&◌, ◌||◌, Option, none, some,
  List, [], ◌∷◌, ◌++◌, contains, filter, ◌==◌, string_eq, eq→eq, eq_self, ok, err, ◌>>=◌,
  Bool-cases, Option-cases, arith, if◌then◌else◌,
}
use omoplata.Identity.Change.{CommitId, Phase}
use omoplata.Work.Error.{unknown_ref}
use omoplata.Work.Revset.{
  RevExpr, ref, id, all, heads, and, or, not, draft, public, landed, RevsetContext, has_phase,
  lacks, phase_filter, eval,
}

abbrev pub is_commit : Option CommitId → CommitId → Bool
is_commit none c = false
is_commit (some commit) c = commit == c

-- Whether an expression holds of a commit.
abbrev pub holds : RevsetContext → RevExpr → CommitId → Bool
holds ctx (ref name) c = is_commit (ctx.resolve name) c
holds ctx (id hex) c = (hex == c) && contains ctx.universe c
holds ctx all c = contains ctx.universe c
holds ctx heads c = contains ctx.heads c
holds ctx (and a b) c = holds ctx a c && holds ctx b c
holds ctx (or a b) c = holds ctx a c || holds ctx b c
holds ctx (not a) c = contains ctx.universe c && (if holds ctx a c then false else true)
holds ctx draft c = contains ctx.universe c && has_phase Phase.draft (ctx.phase c)
holds ctx public c = contains ctx.universe c && has_phase Phase.public (ctx.phase c)
holds ctx (landed queue) c = contains (ctx.landed queue) c

-- Whether an expression names a ref.
abbrev pub mentions : RevExpr → String → Bool
mentions (ref name) n = name == n
mentions (and a b) n = mentions a n || mentions b n
mentions (or a b) n = mentions a n || mentions b n
mentions (not a) n = mentions a n
mentions _ n = false

contains-append :
    (xs ys : List CommitId) (c : CommitId)
    → contains (xs ++ ys) c ≡ (contains xs c || contains ys c)
contains-append [] ys c = refl
contains-append (x ∷ xs) ys c = ground (arith, contains-append xs ys c)

contains-filter :
    (p : CommitId → Bool) (xs : List CommitId) (c : CommitId)
    → contains (filter p xs) c ≡ (contains xs c && p c)
contains-filter p [] c = refl
contains-filter p (x ∷ xs) c = elim (Bool-cases (x == c)) [
  | inl same ↦
      let moved : p c ≡ p x = ap p (sym (eq→eq x c same)) in
      elim (Bool-cases (p x)) [
        | inl passes ↦ rw (passes, moved, passes, same) refl
        | inr fails ↦ rw (fails, moved, contains-filter p xs c) (ground arith)
      ]
  | inr other ↦ elim (Bool-cases (p x)) [
    | inl passes ↦ rw (passes, other) (contains-filter p xs c)
    | inr fails ↦ rw (fails, other) (contains-filter p xs c)
  ]
]

contains-known :
    (o : Option CommitId) (commit c : CommitId)
    → o ≡ some commit
    → contains (commit ∷ []) c ≡ is_commit o c
contains-known o commit c known = rw known (ground arith)

contains-literal :
    (universe : List CommitId) (hex c : CommitId)
    → contains (if contains universe hex then hex ∷ [] else []) c
      ≡ ((hex == c) && contains universe c)
contains-literal universe hex c = elim (Bool-cases (hex == c)) [
  | inl same ↦ rw (same, ← eq→eq hex c same) (ground (arith, eq_self hex))
  | inr other ↦ elim (Bool-cases (contains universe hex)) [
    | inl member ↦ rw (member, other) refl
    | inr missing ↦ rw (missing, other) refl
  ]
]

-- Evaluation either gives the set of the commits that the expression holds of, or fails with a ref
-- that the expression names and the context does not know.
pub eval-cases :
    (ctx : RevsetContext) (expr : RevExpr)
    → ((commits : List CommitId) × (eval expr ctx ≡ ok commits)
        × ((c : CommitId) → contains commits c ≡ holds ctx expr c))
      ⊎ ((name : String) × (eval expr ctx ≡ err (unknown_ref name))
          × (mentions expr name ≡ true)
          × (ctx.resolve name ≡ none))
unfolding eval phase_filter
eval-cases ctx (ref name) = elim (Option-cases (ctx.resolve name)) [
  | inl unknown ↦ inr (name, rw (unknown, ◌>>=◌) refl, eq_self name, unknown)
  | inr (commit, known) ↦
      inl
        (commit ∷ [], rw (known, ◌>>=◌) refl, λ c. contains-known (ctx.resolve name) commit c known)
]
eval-cases ctx (id hex) = inl (_, refl, contains-literal ctx.universe hex)
eval-cases ctx all = inl (ctx.universe, refl, λ c. refl)
eval-cases ctx heads = inl (ctx.heads, refl, λ c. refl)
eval-cases ctx (and a b) = elim (eval-cases ctx a) [
  | inr (name, failed, named, unknown) ↦ inr (name, rw (failed, ◌>>=◌) refl, ground arith, unknown)
  | inl (l, went, means) ↦ elim (eval-cases ctx b) [
    | inr (name, failed, named, unknown) ↦
        inr (name, rw (went, ◌>>=◌, failed, ◌>>=◌) refl, ground arith, unknown)
    | inl (r, went', means') ↦ inl (
      filter (contains r) l,
      rw (went, ◌>>=◌, went', ◌>>=◌) refl,
      λ c. rw (contains-filter (contains r) l c, means c, means' c) refl,
    )
  ]
]
eval-cases ctx (or a b) = elim (eval-cases ctx a) [
  | inr (name, failed, named, unknown) ↦ inr (name, rw (failed, ◌>>=◌) refl, ground arith, unknown)
  | inl (l, went, means) ↦ elim (eval-cases ctx b) [
    | inr (name, failed, named, unknown) ↦
        inr (name, rw (went, ◌>>=◌, failed, ◌>>=◌) refl, ground arith, unknown)
    | inl (r, went', means') ↦ inl (
      l ++ r,
      rw (went, ◌>>=◌, went', ◌>>=◌) refl,
      λ c. rw (contains-append l r c, means c, means' c) refl,
    )
  ]
]
eval-cases ctx (not a) = elim (eval-cases ctx a) [
  | inr (name, failed, named, unknown) ↦ inr (name, rw (failed, ◌>>=◌) refl, named, unknown)
  | inl (inner, went, means) ↦ inl (
    filter (lacks inner) ctx.universe,
    rw (went, ◌>>=◌) refl,
    λ c. rw (contains-filter (lacks inner) ctx.universe c, means c) refl,
  )
]
eval-cases ctx draft = inl (
  phase_filter ctx Phase.draft,
  refl,
  λ c. contains-filter (λ k. has_phase Phase.draft (ctx.phase k)) ctx.universe c,
)
eval-cases ctx public = inl (
  phase_filter ctx Phase.public,
  refl,
  λ c. contains-filter (λ k. has_phase Phase.public (ctx.phase k)) ctx.universe c,
)
eval-cases ctx (landed queue) = inl (ctx.landed queue, refl, λ c. refl)
