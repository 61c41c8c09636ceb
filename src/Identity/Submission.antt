-- ===== src/Identity/Submission.antt =====
-- crates/omoplata-identity/src/submission.rs: review submissions and their approval.
use omoplata.Prelude.{Bool, true, false, String, List, [], ◌∷◌, ◌++◌, string_eq}
use omoplata.Identity.Change.{ChangeId, CommitId}

abbrev pub SubmissionId : Type 0
SubmissionId = String

pub record ApprovalCertificate : Type 0 where
  pub change_id : ChangeId
  pub original_commit : CommitId
  pub rebased_commit : CommitId
  pub approved_by : String
  pub proof_witness : String

pub data Approval : Type 0 where
  pending : Approval
  approved : (reviewer : String) (certificates : List ApprovalCertificate) → Approval
  rejected : (reason : String) → Approval

pub record Submission : Type 0 where
  pub id : SubmissionId
  pub title : String
  pub changes : List ChangeId
  pub author : String
  pub approval : Approval

abbrev pub submission : SubmissionId → String → List ChangeId → String → Submission
submission id title changes author = record {
  id = id;
  title = title;
  changes = changes;
  author = author;
  approval = pending;
}

abbrev pub approve : Submission → String → Submission
approve s reviewer = record s { approval = approved reviewer [] }

-- The certificate joins an approval; anything else stays as it is.
abbrev pub certified : Approval → ApprovalCertificate → Approval
certified (approved reviewer certificates) cert = approved reviewer (certificates ++ cert ∷ [])
certified other cert = other

abbrev pub add_certificate : Submission → ApprovalCertificate → Submission
add_certificate s cert = record s { approval = certified s.approval cert }

abbrev pub approves : Approval → Bool
approves (approved reviewer certificates) = true
approves _ = false

abbrev pub is_approved : Submission → Bool
is_approved s = approves s.approval
