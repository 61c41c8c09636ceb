-- ===== src/Work/Queue/Batch/Disjoint.antt =====
-- The manifests of a batch that lands share no definition.
use mathlib.Core.Path.{subst}
use omoplata.Prelude.{
  ◌≡◌, refl, sym, ap, ◌∙◌, inl, inr, String, true, false, Option, none, some, List, [], ◌∷◌, ◌++◌,
  map, ok, ◌==◌, string_eq, eq→eq, get, contains, Bool-cases, Option-cases, arith,
}
use omoplata.Identity.Submission.{SubmissionId, Submission}
use omoplata.Work.Error.{WorkError}
use omoplata.Work.Queue.{QueuePolicy, LandResult, World}
use omoplata.Work.Queue.Batch.{
  BatchGates, Manifest, intersection, collision, shared_in, colliding, overlap_of, or_else,
  overlap_with, first_overlap, batch_gate, land_batch_in_queue,
}
use omoplata.Work.Queue.Batch.Refused.{batch_gate-parts}

-- No name, of a definition or of the whole file, is in the supports of a path in both manifests.
abbrev pub AreDisjoint : Manifest → Manifest → Type 0
AreDisjoint man_a man_b =
    (path def : String) (support_a support_b : List String)
    → get man_a path ≡ some support_a
    → get man_b path ≡ some support_b
    → contains support_a def ≡ true
    → contains support_b def ≡ false

intersection-nil :
    (xs ys : List String) (d : String)
    → intersection xs ys ≡ []
    → contains xs d ≡ true
    → contains ys d ≡ false
unfolding intersection
intersection-nil [] ys d e h = absurd (cc (h))
intersection-nil (a ∷ xs) ys d e h = elim (Bool-cases (contains ys a)) [
  | inl both ↦ absurd (ground arith)
  | inr one ↦ elim (Bool-cases (a == d)) [
    | inl same ↦ subst (λ x. contains ys x ≡ false) (eq→eq a d same) one
    | inr other ↦ intersection-nil xs ys d (ground arith) (ground arith)
  ]
]

map-nil : (f : String → String) (xs : List String) → map f xs ≡ [] → xs ≡ []
map-nil f [] e = refl
map-nil f (x ∷ xs) e = absurd (cc (e))

append-nil : (xs ys : List String) → xs ++ ys ≡ [] → (xs ≡ []) × (ys ≡ [])
append-nil [] ys e = (refl, e)
append-nil (x ∷ xs) ys e = absurd (cc (e))

colliding-nil : (man_a man_b : Manifest) → colliding man_a man_b ≡ [] → AreDisjoint man_a man_b
unfolding colliding get
colliding-nil [] man_b e path def xs ys at_a at_b h = absurd (cc (at_a))
colliding-nil ((p, support) ∷ man_a) man_b e path def xs ys at_a at_b h =
    let (here, there) = append-nil (shared_in p support (get man_b p)) (colliding man_a man_b) e in
    elim (Bool-cases (p == path)) [
      | inl same ↦
          let first : support ≡ xs = ground arith in
          let second : get man_b p ≡ some ys = ap (get man_b) (eq→eq p path same) ∙ at_b in
          intersection-nil xs ys def
            (map-nil (collision p) (intersection xs ys) (
              sym (ap (λ s. shared_in p s (get man_b p)) first ∙ ap (shared_in p xs) second)
              ∙ here))
            h
      | inr other ↦ colliding-nil man_a man_b there path def xs ys (ground arith) at_b h
    ]

or_else-none : (x y : Option WorkError) → or_else x y ≡ none → (x ≡ none) × (y ≡ none)
or_else-none (some e) y h = absurd (cc (h))
or_else-none none y h = (refl, h)

overlap_of-none :
    (a b : SubmissionId) (paths : List String) → overlap_of a b paths ≡ none → paths ≡ []
overlap_of-none a b [] e = refl
overlap_of-none a b (p ∷ ps) e = absurd (cc (e))

overlap_with-none :
    (a b : SubmissionId) (man_a man_b : Manifest) (between after : List (SubmissionId × Manifest))
    → overlap_with a man_a (between ++ (b, man_b) ∷ after) ≡ none
    → colliding man_a man_b ≡ []
unfolding overlap_with
overlap_with-none a b man_a man_b [] after e =
    overlap_of-none a b (colliding man_a man_b)
      (or_else-none (overlap_of a b (colliding man_a man_b)) (overlap_with a man_a after) e).0
overlap_with-none a b man_a man_b ((c, man_c) ∷ between) after e =
    overlap_with-none a b man_a man_b between after
      (or_else-none (overlap_of a c (colliding man_a man_c))
        (overlap_with a man_a (between ++ (b, man_b) ∷ after)) e).1

first_overlap-none :
    (a : SubmissionId) (man_a : Manifest) (before rest : List (SubmissionId × Manifest))
    → first_overlap (before ++ (a, man_a) ∷ rest) ≡ none
    → overlap_with a man_a rest ≡ none
unfolding first_overlap
first_overlap-none a man_a [] rest e =
    (or_else-none (overlap_with a man_a rest) (first_overlap rest) e).0
first_overlap-none a man_a ((c, man_c) ∷ before) rest e =
    first_overlap-none a man_a before rest
      (or_else-none (overlap_with c man_c (before ++ (a, man_a) ∷ rest))
        (first_overlap (before ++ (a, man_a) ∷ rest)) e).1

landed-gate :
    (ss : List Submission) (policy : QueuePolicy) (gates : BatchGates) (w w' : World)
    (rs : List LandResult)
    → land_batch_in_queue ss policy gates w ≡ (ok rs, w')
    → batch_gate ss policy gates ≡ none
unfolding land_batch_in_queue
landed-gate ss policy gates w w' rs e = elim (Option-cases (batch_gate ss policy gates)) [
  | inl through ↦ through
  | inr (d, shut) ↦ absurd (ground arith)
]

-- Where a batch has landed, any two of its manifests share no name in the supports of any path. The name
-- of a whole file is one of them, and like any other it is shared only where both have it.
pub land_batch_in_queue-AreDisjoint :
    (ss : List Submission) (policy : QueuePolicy) (gates : BatchGates) (w w' : World)
    (rs : List LandResult) (before between after : List (SubmissionId × Manifest))
    (a b : SubmissionId) (man_a man_b : Manifest)
    → land_batch_in_queue ss policy gates w ≡ (ok rs, w')
    → gates.manifests ≡ before ++ (a, man_a) ∷ (between ++ (b, man_b) ∷ after)
    → AreDisjoint man_a man_b
land_batch_in_queue-AreDisjoint ss policy gates w w' rs before between after a b man_a man_b e
      listed =
    let (approved, apart, content) =
      batch_gate-parts ss policy gates (landed-gate ss policy gates w w' rs e) in
    colliding-nil man_a man_b (
      overlap_with-none a b man_a man_b between after (
        first_overlap-none a man_a before (between ++ (b, man_b) ∷ after)
          (sym (ap first_overlap listed) ∙ apart)))
