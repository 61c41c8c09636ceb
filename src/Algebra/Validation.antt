-- ===== src/Algebra/Validation.antt =====
-- crates/omoplata-algebra/src/validation.rs: dynamic validation of an admission.
use omoplata.Prelude.{String, Bool, List, [], ◌∷◌, if◌then◌else◌, ◌≡◌, arith, true, ◌↔◌}
use omoplata.Algebra.Doc.{Doc}
use omoplata.Algebra.Merge.{Conflict}
use omoplata.Algebra.Kernel.{CommutationWitness, Admission, merged, conflict}

pub data Validated : Type 0 where
  accepted : Doc → Validated
  demoted : (conflict : Conflict) (reason : String) → Validated

abbrev pub three_sides : Doc → Doc → Doc → Conflict
three_sides base left right = record { base = base.lines; left = left.lines; right = right.lines }

-- `conflicts.into_iter().next().unwrap_or(…)`
abbrev pub first_or : Conflict → List Conflict → Conflict
first_or d [] = d
first_or d (c ∷ cs) = c

abbrev pub already_conflicted : String
already_conflicted = "merge already conflicted; nothing provisional to validate"

unfoldable pub dynamic_validate : Doc → Doc → Doc → Admission → Bool → String → Validated
dynamic_validate base left right (merged result witness) passed reason =
    if passed then accepted result else demoted (three_sides base left right) reason
dynamic_validate base left right (conflict conflicts) passed reason =
    demoted (first_or (three_sides base left right) conflicts) already_conflicted

-- A document is accepted exactly where the validation passed and the kernel had merged that very
-- document.
pub dynamic_validate-accepted :
    (base left right d : Doc) (admission : Admission) (passed : Bool) (reason : String)
    → (dynamic_validate base left right admission passed reason ≡ accepted d)
      ↔ ((passed ≡ true) × ((w : CommutationWitness) × (admission ≡ merged d w)))
unfolding dynamic_validate
dynamic_validate-accepted base left right d (merged result w) passed reason =
    (λ e. (ground arith, (w, ground arith)), λ h. ground (arith, h.0, h.1.1))
dynamic_validate-accepted base left right d (conflict cs) passed reason = (λ e. cc, λ h. cc (h.1.1))
