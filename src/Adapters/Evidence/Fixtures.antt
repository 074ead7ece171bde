-- ===== src/Adapters/Evidence/Fixtures.antt =====
-- packages/adapters/src/in-memory-evidence-lifecycle.ts: `uploadToQuarantine` and
-- `recordScanResult`, which stand for the object storage and the scanner.
use nitip_cuy.Prelude.{ℕ, Bool, true, false, ◌||◌, ◌&&◌, not, String, Option, none, some, List}
use nitip_cuy.Text.{Text}
use nitip_cuy.Map.{put}
use nitip_cuy.Failure.{Failure, Result, ok, err, ◌>>=◌, ◌>>◌, throw_if, evidence, fixed}
use nitip_cuy.Failure
use nitip_cuy.Adapters.Evidence.{
  EvidenceContext, EvidenceRecord, ScanVerdict, unavailable_scan, ScanRecord, Lifecycle,
  record_by_upload_reference, record_by_quarantine_reference,
}
use nitip_cuy.Adapters.Evidence.Policy.{validate_identity}
use nitip_cuy.Adapters.Evidence.Content.{is_sha256}
use nitip_cuy.Adapters.Evidence.Inspection.{has_come}

-- What the client claims of the bytes is not read, and left out.
pub record QuarantineUploadFixture : Type 0 where
  pub upload_reference : Text
  pub content : List ℕ

pub data FixtureStatus : Type 0 where
  scan_status : ScanVerdict → FixtureStatus
  -- a string outside the declared type, which the run-time guard refuses
  other_status : Text → FixtureStatus

pub record EvidenceScanFixture : Type 0 where
  pub quarantine_object_reference : Text
  pub status : FixtureStatus
  pub scan_reference : Text
  pub scanned_sha256 : Option Text

abbrev pub is_some : {A : Type 0} → Option A → Bool
is_some none = false
is_some (some a) = true

-- `record.upload = …`
abbrev pub with_record : Lifecycle → Text → EvidenceRecord → Lifecycle
with_record s key r = record s { records = put key r s.records }

abbrev pub immutable : Failure
immutable =
    evidence Failure.upload_immutable
      (fixed "A quarantine upload cannot be replaced or reused after it is written.")

abbrev pub expired : Failure
expired = evidence Failure.upload_expired (fixed "Evidence upload intent has expired.")

-- The tests on the record of an upload.
unfoldable pub check_upload : EvidenceContext → EvidenceRecord → ℕ → Result (Unit {0})
unfolding has_come
check_upload c r now = do
  throw_if (is_some r.upload || is_some r.accepted || is_some r.deleted_at) immutable
  throw_if (has_come c r.intent.expires_at now) expired

unfoldable pub upload_to_quarantine :
    EvidenceContext → QuarantineUploadFixture → ℕ → Lifecycle → Result Lifecycle
unfolding record_by_upload_reference check_upload
upload_to_quarantine c f now s = do
  found ← record_by_upload_reference s f.upload_reference
  check_upload c found.1 now
  ok (with_record s found.0 (record (found.1) { upload = some f.content }))

abbrev invalid : String → Failure
invalid message = evidence Failure.validation_failed (fixed message)

abbrev is_unavailable : ScanVerdict → Bool
is_unavailable unavailable_scan = true
is_unavailable _ = false

-- `evidenceScanStatuses.has(status)`, and the status then.
abbrev supported_status : FixtureStatus → Result ScanVerdict
supported_status (scan_status verdict) = ok verdict
supported_status (other_status s) = err (invalid "Evidence scan status is unsupported.")

-- The tests on a scan's result and on the record that it is about, and what is stored of it.
unfoldable pub check_scan : EvidenceScanFixture → EvidenceRecord → Result ScanRecord
check_scan f r = do
  throw_if (not (is_some r.upload)) (
      evidence Failure.not_found
        (fixed "Evidence cannot be scanned before a quarantine object exists."))
  verdict ← supported_status f.status
  throw_if (not (is_unavailable verdict) && not (is_sha256 f.scanned_sha256))
      (invalid "A completed evidence scan must identify the scanned SHA-256 bytes.")
  throw_if (is_unavailable verdict && is_some f.scanned_sha256)
      (invalid "An unavailable evidence scan cannot claim a scanned digest.")
  validate_identity f.scan_reference "Evidence scan reference"
  ok (record {
    status = verdict;
    scan_reference = f.scan_reference;
    scanned_sha256 = f.scanned_sha256;
  })

unfoldable pub record_scan_result : EvidenceScanFixture → Lifecycle → Result Lifecycle
unfolding record_by_quarantine_reference check_scan
record_scan_result f s = do
  found ← record_by_quarantine_reference s f.quarantine_object_reference
  scan ← check_scan f found.1
  ok (with_record s found.0 (record (found.1) { scan = some scan }))
