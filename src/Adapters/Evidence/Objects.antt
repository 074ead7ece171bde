-- ===== src/Adapters/Evidence/Objects.antt =====
-- The accepted objects: what the state holds of each acceptance, whatever calls were made.
use nitip_cuy.Prelude.{ℕ, ◌≤◌, ◌≡◌, true, false, none, some, List, length}
use mathlib.Core.List.{append_cancel_left}
use nitip_cuy.Text.{Text, lit}
use nitip_cuy.Text.Decimal.{pad_start-injective}
use nitip_cuy.Number.{to_natural}
use nitip_cuy.Map.{TextMap, get}
use nitip_cuy.Failure.{ok}
use nitip_cuy.Application.Evidence.{AcceptedEvidence}
use nitip_cuy.Adapters.Evidence.{
  EvidenceContext, EvidenceRecord, Lifecycle, to_record_key, numbered_reference,
}
use nitip_cuy.Adapters.Evidence.Content.{detect_media_type}
use nitip_cuy.Adapters.Evidence.Inspection.{is_allowed}
use nitip_cuy.Adapters.Evidence.Acceptance.{acceptance_times}
use nitip_cuy.Adapters.Evidence.Deletion.{is_to_come}

abbrev pub object_prefix : Text
object_prefix = lit "mock-private-evidence-"

pub numbered-injective :
    (before : Text) (m n : ℕ) → numbered_reference before m ≡ numbered_reference before n → m ≡ n
unfolding numbered_reference
numbered-injective before m n h = pad_start-injective 4 m n (append_cancel_left before _ _ h)

module _ (c : EvidenceContext) where
  -- What was accepted are these bytes, and the policy lets them in.
  pub record IsEvidenceOf (a : AcceptedEvidence) (content : List ℕ) : Type 0 where
    pub digest : a.sha256 ≡ c.hashing.sha256_bytes content
    pub size : a.byte_length ≡ length content
    pub not_empty : 1 ≤ length content
    pub not_too_large : length content ≤ to_natural c.policy.maximum_byte_length
    pub detected : detect_media_type content ≡ some a.media_type
    pub allowed : is_allowed c (some a.media_type) ≡ true

  -- An acceptance of the record, made before `now` under a number that was given out.
  pub record IsAccepted (sequence now : ℕ) (r : EvidenceRecord) (a : AcceptedEvidence)
      : Type 0 where
    pub same_evidence : a.evidence_id ≡ r.evidence_id
    pub same_owner : a.owner_account_id ≡ r.owner_account_id
    pub same_classification : a.classification ≡ r.classification
    pub number : ℕ
    pub numbered : a.object_reference ≡ numbered_reference object_prefix number
    pub given_out : number ≤ sequence
    pub time : ℕ
    pub timed : acceptance_times c time ≡ ok (a.accepted_at, a.retention_expires_at)
    pub before : time ≤ now

  -- The record was deleted after its acceptance, when its retention was over, and its object with it.
  pub record IsDeleted (objects : TextMap (List ℕ)) (now : ℕ) (r : EvidenceRecord) : Type 0 where
    pub acceptance : AcceptedEvidence
    pub accepted : r.accepted ≡ some acceptance
    pub referred : r.deleted_object_reference ≡ some acceptance.object_reference
    pub dropped : get acceptance.object_reference objects ≡ none
    pub expired : is_to_come c acceptance.retention_expires_at now ≡ false

  pub record IsSound (objects : TextMap (List ℕ)) (sequence now : ℕ) (key : Text)
      (r : EvidenceRecord) : Type 0 where
    pub keyed : key ≡ to_record_key r.owner_account_id r.evidence_id
    pub acceptances : (a : AcceptedEvidence) → r.accepted ≡ some a → IsAccepted sequence now r a
    pub objects_kept :
        (a : AcceptedEvidence)
        → r.accepted ≡ some a
        → r.deleted_at ≡ none
        → (content : List ℕ) × (get a.object_reference objects ≡ some content)
          × IsEvidenceOf a content
    pub deletions : (at : Text) → r.deleted_at ≡ some at → IsDeleted objects now r

  -- The invariant: every record is sound, and an object is of one record only.
  pub record IsConsistentState (records : TextMap EvidenceRecord) (objects : TextMap (List ℕ))
      (sequence now : ℕ) : Type 0 where
    pub sound :
        (key : Text) (r : EvidenceRecord)
        → get key records ≡ some r
        → IsSound objects sequence now key r
    pub one_owner :
        (j k : Text) (q r : EvidenceRecord) (a b : AcceptedEvidence)
        → get j records ≡ some q
        → get k records ≡ some r
        → q.accepted ≡ some a
        → r.accepted ≡ some b
        → a.object_reference ≡ b.object_reference
        → j ≡ k

  abbrev pub IsConsistent : Lifecycle → ℕ → Type 0
  IsConsistent s now = IsConsistentState s.records s.accepted_objects s.reference_sequence now
