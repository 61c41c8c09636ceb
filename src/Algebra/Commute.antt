-- ===== src/Algebra/Commute.antt =====
-- crates/omoplata-algebra/src/commute.rs: the commutation check on pairs of patches.
pub mod Conflicts
pub mod Diamond
pub mod Sound
use omoplata.Prelude.{ℕ, ◌≡◌, Bool, not, List, [], ◌∷◌, Result, ◌>>=◌, leb, if◌then◌else◌, map, all}
use omoplata.Prelude.Int.{ℤ, pos, pos_part, ◌+ℤ◌}
use omoplata.Algebra.Doc.{Doc}
use omoplata.Algebra.Patch.{Hunk, Patch, ApplyError, from_hunks, support_end, delta_before, apply}

pub data Commutation : Type 0 where
  independent : (p_rebased q_rebased : Patch) → Commutation
  overlap : Commutation

-- `before == after`
abbrev pub same : Bool → Bool → Bool
same a b = if a then b else not b

unfoldable pub hunks_conflict : Hunk → Hunk → Bool
hunks_conflict h k = same (leb (support_end h) k.base_start) (leb (support_end k) h.base_start)

-- `(start as isize + shift).max(0) as usize`
abbrev pub shifted : ℕ → ℤ → ℕ
shifted start shift = pos_part (pos start +ℤ shift)

abbrev pub move : (ℕ → ℤ) → Hunk → Hunk
move shift h = record h { base_start = shifted h.base_start (shift h.base_start) }

unfoldable pub rebase : Patch → Patch → Patch
rebase p other = from_hunks (map (move (delta_before other)) p.hunks)

abbrev pub disjoint : List Hunk → List Hunk → Bool
disjoint hs ks = all (λ h. all (λ k. not (hunks_conflict h k)) ks) hs

unfoldable pub commute : Patch → Patch → Commutation
commute p q = if disjoint p.hunks q.hunks then independent (rebase p q) (rebase q p) else overlap

unfoldable pub combine : Doc → Patch → Patch → Result ApplyError Doc
combine base p q_rebased = do after_p ← apply p base; apply q_rebased after_p
