-- ===== src/Algebra/Patch/Equality.antt =====
-- `#[derive(PartialEq)]` of hunks and patches.
use omoplata.Prelude.{
  ◌≡◌, ◌↔◌, ap, Bool, true, ◌&&◌, PartialEq, ◌==◌, nat_eq, list_eq, string_eq, arith, eq→eq,
  eq_self,
}
use omoplata.Algebra.Patch.{Hunk, Patch, from_hunks}

abbrev pub hunk_beq : Hunk → Hunk → Bool
hunk_beq h k = h.base_start == k.base_start && (h.remove == k.remove && h.insert == k.insert)

hunk_beq-eq : (h k : Hunk) → hunk_beq h k ≡ true → h ≡ k
hunk_beq-eq h k e = ground (arith, eq→eq h.remove k.remove, eq→eq h.insert k.insert)

hunk_beq_self : (h : Hunk) → hunk_beq h h ≡ true
hunk_beq_self h = rw (eq_self h.base_start, eq_self h.remove) (eq_self h.insert)

pub hunk_beq_iff : (h k : Hunk) → (hunk_beq h k ≡ true) ↔ (h ≡ k)
hunk_beq_iff h k = (hunk_beq-eq h k, λ e. rw e (hunk_beq_self k))

instance abbrev pub hunk_eq : PartialEq Hunk
hunk_eq = record { eq = hunk_beq; eq_iff = hunk_beq_iff }

abbrev pub patch_beq : Patch → Patch → Bool
patch_beq p q = p.hunks == q.hunks

pub patch_beq_iff : (p q : Patch) → (patch_beq p q ≡ true) ↔ (p ≡ q)
patch_beq_iff p q = (
  λ h. ap from_hunks (((list_eq {A = Hunk}).eq_iff p.hunks q.hunks).0 h),
  λ h. ((list_eq {A = Hunk}).eq_iff p.hunks q.hunks).1 (ap (λ (x : Patch). x.hunks) h),
)

instance abbrev pub patch_eq : PartialEq Patch
patch_eq = record { eq = patch_beq; eq_iff = patch_beq_iff }
