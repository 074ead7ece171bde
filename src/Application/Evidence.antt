-- ===== src/Application/Evidence.antt =====
-- packages/application/src/ports/evidence-lifecycle.ts: what the evidence lifecycle is asked and
-- what it answers. A byte is a natural number, and bytes are a list of them.
use nitip_cuy.Prelude.{ℕ, Bool, true, false, Option, List}
use nitip_cuy.Text.{Text, text_eq}

pub data EvidenceClassification : Type 0 where
  purchase collection weight dispatch delivery : EvidenceClassification
  -- a string outside the declared type, which the run-time guard refuses
  other_classification : Text → EvidenceClassification

pub data EvidenceMediaType : Type 0 where
  image_jpeg image_png image_webp : EvidenceMediaType
  -- a string outside the declared type, which the policy's guard refuses
  other_media : Text → EvidenceMediaType

-- `a === b`
unfoldable pub classification_eq : EvidenceClassification → EvidenceClassification → Bool
classification_eq purchase purchase = true
classification_eq collection collection = true
classification_eq weight weight = true
classification_eq dispatch dispatch = true
classification_eq delivery delivery = true
classification_eq (other_classification s) (other_classification t) = text_eq s t
classification_eq _ _ = false

-- `a === b`
unfoldable pub media_eq : EvidenceMediaType → EvidenceMediaType → Bool
media_eq image_jpeg image_jpeg = true
media_eq image_png image_png = true
media_eq image_webp image_webp = true
media_eq (other_media s) (other_media t) = text_eq s t
media_eq _ _ = false

pub record CreateEvidenceUploadIntentCommand : Type 0 where
  pub idempotency_key : Text
  pub evidence_id : Text
  pub owner_account_id : Text
  pub classification : EvidenceClassification

pub record EvidenceUploadIntent : Type 0 where
  pub evidence_id : Text
  pub upload_reference : Text
  pub quarantine_object_reference : Text
  pub allowed_media_types : List EvidenceMediaType
  pub maximum_byte_length : ℕ
  pub expires_at : Text

pub record InspectEvidenceQuery : Type 0 where
  pub evidence_id : Text
  pub owner_account_id : Text
  pub quarantine_object_reference : Text

pub data EvidenceLifecycleStatus : Type 0 where
  awaiting_upload verification_pending verified rejected accepted deleted : EvidenceLifecycleStatus

pub data EvidenceScanStatus : Type 0 where
  scan_not_started scan_pending scan_clean scan_rejected scan_unavailable : EvidenceScanStatus

pub data EvidenceVerificationReason : Type 0 where
  upload_expired empty_file file_too_large unsupported_media_type : EvidenceVerificationReason
  pending_scan unavailable_scan rejected_scan digest_mismatch : EvidenceVerificationReason

pub record AcceptedEvidence : Type 0 where
  pub evidence_id : Text
  pub owner_account_id : Text
  pub classification : EvidenceClassification
  pub object_reference : Text
  pub sha256 : Text
  pub byte_length : ℕ
  pub media_type : EvidenceMediaType
  pub scan_reference : Text
  pub accepted_at : Text
  pub retention_expires_at : Text

pub record EvidenceObservation : Type 0 where
  pub evidence_id : Text
  pub owner_account_id : Text
  pub classification : EvidenceClassification
  pub quarantine_object_reference : Text
  pub status : EvidenceLifecycleStatus
  pub scan_status : EvidenceScanStatus
  pub reason_code : Option EvidenceVerificationReason
  pub observed_sha256 : Option Text
  pub observed_byte_length : Option ℕ
  pub detected_media_type : Option EvidenceMediaType
  pub scan_reference : Option Text
  pub accepted_evidence : Option AcceptedEvidence
  pub deleted_at : Option Text

pub record AcceptEvidenceCommand : Type 0 where
  pub idempotency_key : Text
  -- the evidence id, the owner and the quarantine reference
  pub query : InspectEvidenceQuery

pub record DeleteExpiredEvidenceCommand : Type 0 where
  pub idempotency_key : Text
  pub evidence_id : Text
  pub owner_account_id : Text
  pub object_reference : Text

pub record DeletedEvidence : Type 0 where
  pub evidence_id : Text
  pub deleted_at : Text

-- What the operations of `EvidenceLifecyclePort` that write resolve with; one idempotency store
-- keeps them all.
pub data EvidenceResult : Type 0 where
  an_intent : EvidenceUploadIntent → EvidenceResult
  an_acceptance : AcceptedEvidence → EvidenceResult
  a_deletion : DeletedEvidence → EvidenceResult
