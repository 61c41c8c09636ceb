-- ===== src/Tests/Kernel.antt =====
-- The kernel and the validation on two edits that commute and two that do not.
use omoplata.Prelude.{◌≡◌, ◌≢◌, ◌↔◌, ◌⊎◌, refl, [], ◌∷◌, true}
use omoplata.Prelude.Int.{◌+ℤ◌, ◌-ℤ◌}
use omoplata.Algebra.Doc.{Doc, from_lines}
use omoplata.Algebra.Patch.{delta, delta_sum, apply, diff}
use omoplata.Algebra.Commute.{overlap, hunks_conflict, commute, rebase, combine}
use omoplata.Algebra.Merge.{merge3}
use omoplata.Algebra.Kernel.{merged, conflict, admit, verify_witness, certify}
use omoplata.Algebra.Kernel.Admitted.{witness_of, Merges, admit_cases, admit_comm}
use omoplata.Algebra.Kernel.Witness.{verify_witness_iff, certify-merged_iff, certify_cases}

abbrev base : Doc
base = from_lines ("a" ∷ "b" ∷ "c" ∷ "d" ∷ [])

abbrev left : Doc
left = from_lines ("A" ∷ "b" ∷ "c" ∷ "d" ∷ [])

abbrev right : Doc
right = from_lines ("a" ∷ "b" ∷ "c" ∷ "D" ∷ [])

abbrev both : Doc
both = from_lines ("A" ∷ "b" ∷ "c" ∷ "D" ∷ [])

abbrev lie : Doc
lie = from_lines ("A" ∷ "b" ∷ "c" ∷ "EVIL" ∷ [])

admits : admit base left right ≡ merged both (witness_of base left right)
unfolding admit diff commute hunks_conflict rebase delta_sum delta ◌+ℤ◌ ◌-ℤ◌ combine apply
admits = refl

admit_cases_example :
    ((result : Doc) × Merges base left right result
      × (admit base left right ≡ merged result (witness_of base left right)))
    ⊎ ((commute (diff base left) (diff base right) ≡ overlap)
        × (admit base left right ≡ conflict (merge3 base left right).conflicts))
admit_cases_example = admit_cases base left right

admit_comm_example : admit base right left ≡ merged both (witness_of base right left)
admit_comm_example = admit_comm base left right both (witness_of base left right) admits

verify_witness_iff_example : (verify_witness base (witness_of base left right) both ≡ true) ↔ (
    (l : Doc) × (r : Doc) × (witness_of base left right ≡ witness_of base l r)
    × (admit base l r ≡ merged both (witness_of base left right)))
verify_witness_iff_example = verify_witness_iff base (witness_of base left right) both

certify-merged_iff_example :
    (certify base left right both ≡ merged both (witness_of base left right))
    ↔ ((admit base left right ≡ merged both (witness_of base left right)) × (both ≡ both))
certify-merged_iff_example =
    certify-merged_iff base left right both both (witness_of base left right)

certify_cases_example :
    ((result : Doc) × Merges base left right result
      × (((result ≡ lie) × (certify base left right lie ≡ merged lie (witness_of base left right)))
          ⊎ ((result ≢ lie)
              × (certify base left right lie
                  ≡ conflict (
                      record { base = base.lines; left = result.lines; right = lie.lines } ∷ [])))))
    ⊎ ((commute (diff base left) (diff base right) ≡ overlap)
        × (certify base left right lie ≡ conflict (merge3 base left right).conflicts))
certify_cases_example = certify_cases base left right lie
