-- ===== src/Adapters/Evidence.antt =====
-- packages/adapters/src/in-memory-evidence-lifecycle.ts: the state of `InMemoryEvidenceLifecycle`
-- and how its operations find a record.
--
-- A record of the source is an object that its map never replaces or drops, so that a reference to
-- it is its key. A clock reading is a number of milliseconds since 1970 and does not move while an
-- operation runs. Freezing and copying change nothing of a value, and are not written; a time
-- stamp is never an empty text.
pub mod Policy
pub mod Content
pub mod Inspection
pub mod Intents
pub mod Fixtures
pub mod Acceptance
pub mod Deletion
pub mod Verified
pub mod Steps
pub mod Consistency
pub mod Changes
pub mod Histories
pub mod Growth
pub mod Objects
pub mod Retention
pub mod References
pub mod Acceptable
pub mod Policies
mod Tests
use nitip_cuy.Prelude.{ℕ, Option, none, some, List, ◌∷◌, ◌++◌, not}
use nitip_cuy.Text.{Text, lit, text_eq}
use nitip_cuy.Text.Decimal.{decimal_text, pad_start}
use nitip_cuy.Map.{TextMap, get}
use nitip_cuy.Failure.{Failure, Result, ok, err, ◌>>=◌, ◌>>◌, throw_if, evidence, fixed}
use nitip_cuy.Failure
use nitip_cuy.Platform.{Platform}
use nitip_cuy.Application.Idempotency.{IdempotencyStorePort, Run, Outcome, threw, thrown}
use nitip_cuy.Application.Evidence.{
  EvidenceClassification, EvidenceUploadIntent, AcceptedEvidence, InspectEvidenceQuery,
  EvidenceResult,
}
use nitip_cuy.Adapters.Fingerprint.{Hashing}
use Policy.{InMemoryEvidencePolicy, validate_policy, validate_identity}

-- What a lifecycle is built with, and what it calls of the runtime.
pub record EvidenceContext : Type 0 where
  pub platform : Platform
  pub hashing : Hashing
  pub policy : InMemoryEvidencePolicy

pub data ScanVerdict : Type 0 where
  clean_scan rejected_scan unavailable_scan : ScanVerdict

pub record ScanRecord : Type 0 where
  pub status : ScanVerdict
  pub scan_reference : Text
  pub scanned_sha256 : Option Text

pub record EvidenceRecord : Type 0 where
  pub evidence_id : Text
  pub owner_account_id : Text
  pub classification : EvidenceClassification
  pub intent : EvidenceUploadIntent
  -- the bytes in quarantine
  pub upload : Option (List ℕ)
  pub scan : Option ScanRecord
  pub accepted : Option AcceptedEvidence
  pub deleted_at : Option Text
  pub deleted_object_reference : Option Text

pub record Lifecycle : Type 0 where
  pub records : TextMap EvidenceRecord
  pub upload_references : TextMap Text
  pub quarantine_references : TextMap Text
  pub accepted_objects : TextMap (List ℕ)
  pub reference_sequence : ℕ

abbrev pub new_lifecycle : Lifecycle
new_lifecycle = record {
  records = List.[];
  upload_references = List.[];
  quarantine_references = List.[];
  accepted_objects = List.[];
  reference_sequence = 0;
}

-- The constructor: it throws on an invalid policy.
unfoldable pub build_lifecycle : EvidenceContext → Result Lifecycle
build_lifecycle c = validate_policy c.policy >> ok new_lifecycle

-- The owner and the evidence id with a NUL between them.
unfoldable pub to_record_key : Text → Text → Text
to_record_key owner_account_id evidence_id = owner_account_id ++ (0 ∷ evidence_id)

-- `${prefix}${sequence.toString().padStart(4, "0")}`
unfoldable pub numbered_reference : Text → ℕ → Text
numbered_reference before sequence = before ++ pad_start 4 (decimal_text sequence)

abbrev found_record : Failure → Option EvidenceRecord → Result EvidenceRecord
found_record missing none = err missing
found_record missing (some r) = ok r

unfoldable pub record_for_owner : Lifecycle → Text → Text → Result EvidenceRecord
unfolding to_record_key
record_for_owner s owner_account_id evidence_id =
    validate_identity evidence_id "Evidence ID"
    >> validate_identity owner_account_id "Evidence owner account ID"
    >> found_record (evidence Failure.not_found (fixed "Evidence lifecycle record was not found."))
        (get (to_record_key owner_account_id evidence_id) s.records)

unfoldable pub record_for_query : Lifecycle → InspectEvidenceQuery → Result EvidenceRecord
unfolding record_for_owner
record_for_query s q = do
  validate_identity q.evidence_id "Evidence ID"
  validate_identity q.owner_account_id "Evidence owner account ID"
  r ← record_for_owner s q.owner_account_id q.evidence_id
  throw_if (not (text_eq r.intent.quarantine_object_reference q.quarantine_object_reference)) (
      evidence Failure.object_mismatch
        (fixed "Evidence quarantine reference does not match the upload intent."))
  ok r

-- The key of the record under a reference, with the record.
abbrev pub record_by_reference :
    Failure → TextMap Text → TextMap EvidenceRecord → Text → Result (Text × EvidenceRecord)
record_by_reference missing references records reference = elim (get reference references) [
  | none ↦ err missing
  | some key ↦ elim (get key records) [ none ↦ err missing | some r ↦ ok (key, r) ]
]

unfoldable pub record_by_upload_reference : Lifecycle → Text → Result (Text × EvidenceRecord)
record_by_upload_reference s reference =
    record_by_reference
      (evidence Failure.not_found (fixed "Evidence upload reference was not found."))
      s.upload_references s.records reference

unfoldable pub record_by_quarantine_reference : Lifecycle → Text → Result (Text × EvidenceRecord)
record_by_quarantine_reference s reference =
    record_by_reference
      (evidence Failure.not_found (fixed "Evidence quarantine reference was not found."))
      s.quarantine_references s.records reference

-- A handler that throws before it asks the idempotency store for a lease.
abbrev pub refused : {S : Type 0} → Failure → S → Lifecycle → Run EvidenceResult Failure S Lifecycle
refused error store world = record { outcome = threw (thrown error); store = store; world = world }

-- The rest of a handler, on what its first checks returned.
abbrev pub checked :
    {S A : Type 0}
    → Result A
    → S
    → Lifecycle
    → (A → Run EvidenceResult Failure S Lifecycle)
    → Run EvidenceResult Failure S Lifecycle
checked (err error) store world rest = refused error store world
checked (ok value) store world rest = rest value
