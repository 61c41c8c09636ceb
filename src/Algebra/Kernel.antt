-- ===== src/Algebra/Kernel.antt =====
-- crates/omoplata-algebra/src/kernel.rs: the admission boundary.
pub mod Admitted
pub mod Witness
use omoplata.Prelude.{Bool, false, not, ◌||◌, List, [], ◌∷◌, ◌==◌, Result, ok, err, if◌then◌else◌}
use omoplata.Algebra.Doc.{Doc, doc_eq}
use omoplata.Algebra.Patch.{Patch, apply, diff}
use omoplata.Algebra.Patch.Equality.{patch_eq}
use omoplata.Algebra.Commute.{Commutation, independent, overlap, commute, combine}
use omoplata.Algebra.Merge.{Conflict, merge3}

pub record CommutationWitness : Type 0 where
  pub p : Patch
  pub q : Patch

pub data Admission : Type 0 where
  merged : (result : Doc) (witness : CommutationWitness) → Admission
  conflict : List Conflict → Admission

unfoldable pub admit : Doc → Doc → Doc → Admission
admit base left right =
    let p = diff base left in
    let q = diff base right in
    elim (commute p q) [
      | independent p_rebased q_rebased ↦ elim (combine base p q_rebased) [
        | ok result ↦ merged result (record { p = p; q = q })
        | err e ↦ conflict (merge3 base left right).conflicts
      ]
      | overlap ↦ conflict (merge3 base left right).conflicts
    ]

-- The third check of `verify_witness`: the commuting application gives the result.
unfoldable pub reproduces : Doc → CommutationWitness → Doc → Bool
reproduces base w result = elim (commute w.p w.q) [
  | independent p_rebased q_rebased ↦ elim (combine base w.p q_rebased) [
    | ok reproduced ↦ reproduced == result
    | err e ↦ false
  ]
  | overlap ↦ false
]

unfoldable pub verify_witness : Doc → CommutationWitness → Doc → Bool
verify_witness base w result = elim (apply w.p base) [
  | err e ↦ false
  | ok left ↦ elim (apply w.q base) [
    | err e ↦ false
    | ok right ↦
        if not (diff base left == w.p) || not (diff base right == w.q)
        then false
        else reproduces base w result
  ]
]

unfoldable pub certify : Doc → Doc → Doc → Doc → Admission
certify base left right proposed = elim (admit base left right) [
  | merged result witness ↦
      if result == proposed
      then merged result witness
      else conflict (record { base = base.lines; left = result.lines; right = proposed.lines } ∷ [])
  | conflict conflicts ↦ conflict conflicts
]
