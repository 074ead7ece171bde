-- ===== src/Adapters/Evidence/Inspection.antt =====
-- packages/adapters/src/in-memory-evidence-lifecycle.ts: `inspect`.
use nitip_cuy.Prelude.{ℕ, Bool, Option, none, some, List, not, ltb, ◌==◌, if◌then◌else◌, length}
use nitip_cuy.Text.{Text, text_eq}
use nitip_cuy.Number.{to_natural}
use nitip_cuy.Failure.{Result, ok, ◌>>=◌}
use nitip_cuy.Platform.{at_clock, is_not_after}
use nitip_cuy.Application.Evidence.{
  EvidenceMediaType, EvidenceObservation, EvidenceLifecycleStatus, EvidenceScanStatus,
  EvidenceVerificationReason, InspectEvidenceQuery, AcceptedEvidence, awaiting_upload,
  verification_pending, verified, rejected, accepted, deleted, scan_not_started, scan_pending,
  scan_clean, scan_rejected, scan_unavailable, upload_expired, empty_file, file_too_large,
  unsupported_media_type, pending_scan, unavailable_scan, rejected_scan, digest_mismatch,
}
use nitip_cuy.Adapters.Evidence.{
  EvidenceContext, EvidenceRecord, ScanVerdict, ScanRecord, Lifecycle, record_for_query,
}
use nitip_cuy.Adapters.Evidence.Policy.{media_includes}
use nitip_cuy.Adapters.Evidence.Content.{detect_media_type}

-- `ObservationValues`: an optional field that is not given is none.
pub record ObservationValues : Type 0 where
  pub status : EvidenceLifecycleStatus
  pub scan_status : EvidenceScanStatus
  pub reason_code : Option EvidenceVerificationReason
  pub observed_sha256 : Option Text
  pub observed_byte_length : Option ℕ
  pub detected_media_type : Option EvidenceMediaType
  pub scan_reference : Option Text
  pub accepted_evidence : Option AcceptedEvidence
  pub deleted_at : Option Text

unfoldable pub observation : EvidenceRecord → ObservationValues → EvidenceObservation
observation r v = record {
  evidence_id = r.evidence_id;
  owner_account_id = r.owner_account_id;
  classification = r.classification;
  quarantine_object_reference = r.intent.quarantine_object_reference;
  status = v.status;
  scan_status = v.scan_status;
  reason_code = v.reason_code;
  observed_sha256 = v.observed_sha256;
  observed_byte_length = v.observed_byte_length;
  detected_media_type = v.detected_media_type;
  scan_reference = v.scan_reference;
  accepted_evidence = v.accepted_evidence;
  deleted_at = v.deleted_at;
}

-- A status, the status of the scan and the reason, with nothing else given.
abbrev plain_values :
    EvidenceLifecycleStatus
    → EvidenceScanStatus
    → Option EvidenceVerificationReason
    → ObservationValues
plain_values status scan_status reason_code = record {
  status = status;
  scan_status = scan_status;
  reason_code = reason_code;
  observed_sha256 = none;
  observed_byte_length = none;
  detected_media_type = none;
  scan_reference = none;
  accepted_evidence = none;
  deleted_at = none;
}

-- The scan's status as an observation reports it.
abbrev pub scan_status_of : ScanVerdict → EvidenceScanStatus
scan_status_of ScanVerdict.clean_scan = scan_clean
scan_status_of ScanVerdict.rejected_scan = scan_rejected
scan_status_of ScanVerdict.unavailable_scan = scan_unavailable

-- Whether the scan names the digest of the bytes: `record.scan.scannedSha256 === observedSha256`.
abbrev pub names_digest : Option Text → Text → Bool
names_digest none digest = Bool.false
names_digest (some scanned) digest = text_eq scanned digest

module _ (c : EvidenceContext) where
  -- The observation of uploaded bytes, with the metadata.
  unfoldable pub content_values :
      List ℕ
      → EvidenceLifecycleStatus
      → EvidenceScanStatus
      → Option EvidenceVerificationReason
      → Option Text
      → ObservationValues
  content_values content status scan_status reason_code scan_reference =
      record (plain_values status scan_status reason_code) {
        observed_sha256 = some (c.hashing.sha256_bytes content);
        observed_byte_length = some (length content);
        detected_media_type = detect_media_type content;
        scan_reference = scan_reference;
      }

  -- A scan that was made of other bytes.
  abbrev mismatch : List ℕ → ScanRecord → ObservationValues
  mismatch content scan =
      content_values content rejected (scan_status_of scan.status) (some digest_mismatch)
        (some scan.scan_reference)

  -- The tests of the scan's result.
  unfoldable pub inspect_scan : List ℕ → Option ScanRecord → ObservationValues
  inspect_scan content none =
      content_values content verification_pending scan_pending (some pending_scan) none
  inspect_scan content (some scan) = elim scan.status [
    | ScanVerdict.unavailable_scan ↦
        content_values content verification_pending scan_unavailable (some unavailable_scan)
          (some scan.scan_reference)
    | ScanVerdict.rejected_scan ↦
        if not (names_digest scan.scanned_sha256 (c.hashing.sha256_bytes content))
        then mismatch content scan
        else content_values content rejected scan_rejected (some rejected_scan)
            (some scan.scan_reference)
    | ScanVerdict.clean_scan ↦
        if not (names_digest scan.scanned_sha256 (c.hashing.sha256_bytes content))
        then mismatch content scan
        else content_values content verified scan_clean none (some scan.scan_reference)
  ]

  -- Whether a media type was detected, and the policy allows it.
  unfoldable pub is_allowed : Option EvidenceMediaType → Bool
  is_allowed none = Bool.false
  is_allowed (some type) = media_includes c.policy.allowed_media_types type

  -- The tests of the bytes in quarantine.
  unfoldable pub inspect_content : List ℕ → Option ScanRecord → ObservationValues
  unfolding inspect_scan is_allowed
  inspect_content content scan =
      if length content == 0
      then content_values content rejected scan_not_started (some empty_file) none
      else if ltb (to_natural c.policy.maximum_byte_length) (length content)
      then content_values content rejected scan_not_started (some file_too_large) none
      else if not (is_allowed (detect_media_type content))
      then content_values content rejected scan_not_started (some unsupported_media_type) none
      else inspect_scan content scan

  -- `nowMilliseconds() >= Date.parse(text)`
  unfoldable pub has_come : Text → ℕ → Bool
  has_come text now = is_not_after (c.platform.parse_date text) (some (at_clock now))

  unfoldable pub record_values : EvidenceRecord → ℕ → ObservationValues
  unfolding inspect_content has_come
  record_values r now = elim r.deleted_at [
    | some at ↦ record (plain_values deleted scan_not_started none) { deleted_at = some at }
    | none ↦ elim r.accepted [
      | some a ↦ record (plain_values accepted scan_clean none) {
        scan_reference = some a.scan_reference;
        accepted_evidence = some a;
      }
      | none ↦ elim r.upload [
        | none ↦
            if has_come r.intent.expires_at now
            then plain_values rejected scan_not_started (some upload_expired)
            else plain_values awaiting_upload scan_not_started none
        | some content ↦ inspect_content content r.scan
      ]
    ]
  ]

  unfoldable pub inspect_record : Lifecycle → InspectEvidenceQuery → ℕ → Result EvidenceObservation
  unfolding record_values observation
  inspect_record s q now = do r ← record_for_query s q; ok (observation r (record_values r now))
