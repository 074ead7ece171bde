-- ===== src/Adapters/Evidence/Tests.antt =====
-- A run of the evidence lifecycle: a JPEG is announced, uploaded, scanned, accepted, and deleted a
-- minute later.
mod Witnesses
use nitip_cuy.Prelude.{
  ℕ, zero, suc, ◌+◌, ◌≡◌, refl, true, false, Option, none, some, List, [], ◌∷◌, ◌++◌, String,
}
use nitip_cuy.Text.{Text, lit, text_eq}
use nitip_cuy.Text.Chars.{is_lower_hex, matches, matches_exactly}
use nitip_cuy.Text.Decimal.{pad_start, decimal_text}
use nitip_cuy.Number.{whole}
use nitip_cuy.Map.{TextMap, get, put, delete}
use nitip_cuy.Failure.{Result, ok, err, evidence, fixed, retention_active}
use nitip_cuy.Platform.{Platform, IsIsoPlatform, at_clock}
use nitip_cuy.Application.Idempotency.{resolved}
use nitip_cuy.Application.Evidence.{
  purchase, image_jpeg, image_png, CreateEvidenceUploadIntentCommand, InspectEvidenceQuery,
  AcceptEvidenceCommand, DeleteExpiredEvidenceCommand, AcceptedEvidence, an_acceptance, media_eq,
}
use nitip_cuy.Adapters.Fingerprint.{Hashing}
use nitip_cuy.Adapters.Evidence.{
  EvidenceContext, EvidenceRecord, clean_scan, Lifecycle, new_lifecycle, to_record_key,
  numbered_reference, record_for_owner, record_for_query, record_by_upload_reference,
  record_by_quarantine_reference,
}
use nitip_cuy.Adapters.Evidence.Policy.{
  InMemoryEvidencePolicy, validate_identity, add_seconds, to_iso_instant,
}
use nitip_cuy.Adapters.Evidence.Content.{is_sha256, slice, starts_with, detect_media_type}
use nitip_cuy.Adapters.Evidence.Inspection.{
  observation, content_values, inspect_scan, is_allowed, inspect_content, has_come, record_values,
  inspect_record,
}
use nitip_cuy.Adapters.Evidence.Intents.{create_intent, check_intent, new_record, new_intent}
use nitip_cuy.Adapters.Evidence.Fixtures.{
  QuarantineUploadFixture, EvidenceScanFixture, scan_status, check_upload, upload_to_quarantine,
  check_scan, record_scan_result, immutable, expired,
}
use nitip_cuy.Adapters.Evidence.Acceptance.{
  accept_evidence, accept_record, accept_verified, require_verified, check_acceptance,
}
use nitip_cuy.Adapters.Evidence.Deletion.{
  delete_evidence, delete_record, check_deletion, check_deletable, check_retention, is_to_come,
  has_private_object,
}
use nitip_cuy.Adapters.Evidence.Acceptable.{IsHashing}

-- A time stamp of the example is the instant itself, as one code unit.
abbrev example_parse : Text → Option ℕ
example_parse (t ∷ []) = some t
example_parse _ = none

abbrev pub example_platform : Platform
example_platform = record {
  to_lower_case = λ s. s;
  to_locale_lower_case = λ s. s;
  to_upper_case = λ s. s;
  parse_date = example_parse;
  to_iso_string = λ t. t ∷ [];
  utc_date = λ t. [];
  is_time_zone = λ s. true;
  zone_date = λ t s. [];
}

pub example_iso : IsIsoPlatform example_platform
example_iso = record { parse-iso = λ t h. refl }

abbrev pub example_digest : Text
example_digest = lit "00000000000000000000000000000000000000000000000000000000000000ff"

abbrev pub example_hashing : Hashing
example_hashing = record {
  json_string = λ s. b'"' ∷ (s ++ (b'"' ∷ []));
  json_number = λ n. [];
  sha256_text = λ s. example_digest;
  sha256_bytes = λ b. example_digest;
}

pub example_hashes : IsHashing example_hashing
unfolding matches_exactly
example_hashes = record { hex_text = λ s. refl; hex_bytes = λ b. refl }

abbrev pub example_policy : InMemoryEvidencePolicy
example_policy = record {
  allowed_media_types = image_jpeg ∷ image_png ∷ [];
  maximum_byte_length = whole 1_000;
  upload_intent_ttl_seconds = whole 60;
  accepted_retention_seconds = whole 60;
}

abbrev pub example_context : EvidenceContext
example_context = record {
  platform = example_platform;
  hashing = example_hashing;
  policy = example_policy;
}

abbrev pub announcement : CreateEvidenceUploadIntentCommand
announcement = record {
  idempotency_key = lit "key-00000001";
  evidence_id = lit "evidence-1";
  owner_account_id = lit "account-1";
  classification = purchase;
}

abbrev pub example_key : Text
example_key = lit "account-1" ++ (0 ∷ lit "evidence-1")

abbrev pub query : InspectEvidenceQuery
query = record {
  evidence_id = lit "evidence-1";
  owner_account_id = lit "account-1";
  quarantine_object_reference = lit "mock-quarantine-0001";
}

abbrev pub jpeg : List ℕ
jpeg = 0xff ∷ 0xd8 ∷ 0xff ∷ 7 ∷ []

abbrev pub upload : QuarantineUploadFixture
upload = record { upload_reference = lit "mock-upload-0001"; content = jpeg }

abbrev pub scan : EvidenceScanFixture
scan = record {
  quarantine_object_reference = lit "mock-quarantine-0001";
  status = scan_status clean_scan;
  scan_reference = lit "scan-1";
  scanned_sha256 = some example_digest;
}

abbrev pub deletion : DeleteExpiredEvidenceCommand
deletion = record {
  idempotency_key = lit "key-00000003";
  evidence_id = lit "evidence-1";
  owner_account_id = lit "account-1";
  object_reference = lit "mock-private-evidence-0002";
}

abbrev pub example_record : EvidenceRecord
example_record =
    new_record example_context announcement
      (new_intent example_context announcement 1 (at_clock 61_000 ∷ []))

abbrev pub scanned_record : EvidenceRecord
scanned_record = record example_record {
  upload = some jpeg;
  scan = some (record {
    status = clean_scan;
    scan_reference = lit "scan-1";
    scanned_sha256 = some example_digest;
  });
}

abbrev pub example_acceptance : AcceptedEvidence
example_acceptance = record {
  evidence_id = lit "evidence-1";
  owner_account_id = lit "account-1";
  classification = purchase;
  object_reference = lit "mock-private-evidence-0002";
  sha256 = example_digest;
  byte_length = 4;
  media_type = image_jpeg;
  scan_reference = lit "scan-1";
  accepted_at = at_clock 2_000 ∷ [];
  retention_expires_at = at_clock 62_000 ∷ [];
}

abbrev pub accepted_record : EvidenceRecord
accepted_record = record scanned_record { upload = none; accepted = some example_acceptance }

abbrev pub deleted_record : EvidenceRecord
deleted_record = record accepted_record {
  deleted_at = some (at_clock 62_000 ∷ []);
  deleted_object_reference = some (lit "mock-private-evidence-0002");
}

-- A lifecycle with the one record.
abbrev pub holding : EvidenceRecord → TextMap (List ℕ) → ℕ → Lifecycle
holding r objects sequence = record {
  records = (example_key, r) ∷ [];
  upload_references = (lit "mock-upload-0001", example_key) ∷ [];
  quarantine_references = (lit "mock-quarantine-0001", example_key) ∷ [];
  accepted_objects = objects;
  reference_sequence = sequence;
}

abbrev pub announced : Lifecycle
announced = holding example_record [] 1

abbrev pub uploaded : Lifecycle
uploaded = holding (record example_record { upload = some jpeg }) [] 1

abbrev pub scanned : Lifecycle
scanned = holding scanned_record [] 1

abbrev pub accepted : Lifecycle
accepted = holding accepted_record ((lit "mock-private-evidence-0002", jpeg) ∷ []) 2

abbrev pub deleted : Lifecycle
deleted = holding deleted_record [] 2

pub announcement_checked : check_intent new_lifecycle announcement ≡ ok tt
unfolding create_intent check_intent check_upload upload_to_quarantine check_scan record_scan_result
    accept_evidence accept_record accept_verified require_verified check_acceptance check_deletion
    check_deletable check_retention delete_evidence delete_record is_to_come has_private_object
    validate_identity add_seconds to_iso_instant to_record_key numbered_reference record_for_owner
    record_for_query record_by_upload_reference record_by_quarantine_reference is_sha256 slice
    starts_with detect_media_type observation content_values inspect_scan is_allowed inspect_content
    has_come record_values inspect_record media_eq matches matches_exactly get put delete text_eq
    pad_start decimal_text
announcement_checked = refl

pub announcement_runs :
    (create_intent example_context announcement 1_000 new_lifecycle).1 ≡ announced
unfolding create_intent check_intent check_upload upload_to_quarantine check_scan record_scan_result
    accept_evidence accept_record accept_verified require_verified check_acceptance check_deletion
    check_deletable check_retention delete_evidence delete_record is_to_come has_private_object
    validate_identity add_seconds to_iso_instant to_record_key numbered_reference record_for_owner
    record_for_query record_by_upload_reference record_by_quarantine_reference is_sha256 slice
    starts_with detect_media_type observation content_values inspect_scan is_allowed inspect_content
    has_come record_values inspect_record media_eq matches matches_exactly get put delete text_eq
    pad_start decimal_text
announcement_runs = refl

pub upload_runs : upload_to_quarantine example_context upload 1_000 announced ≡ ok uploaded
unfolding create_intent check_intent check_upload upload_to_quarantine check_scan record_scan_result
    accept_evidence accept_record accept_verified require_verified check_acceptance check_deletion
    check_deletable check_retention delete_evidence delete_record is_to_come has_private_object
    validate_identity add_seconds to_iso_instant to_record_key numbered_reference record_for_owner
    record_for_query record_by_upload_reference record_by_quarantine_reference is_sha256 slice
    starts_with detect_media_type observation content_values inspect_scan is_allowed inspect_content
    has_come record_values inspect_record media_eq matches matches_exactly get put delete text_eq
    pad_start decimal_text
upload_runs = refl

second_upload_refused : upload_to_quarantine example_context upload 1_000 uploaded ≡ err immutable
unfolding create_intent check_intent check_upload upload_to_quarantine check_scan record_scan_result
    accept_evidence accept_record accept_verified require_verified check_acceptance check_deletion
    check_deletable check_retention delete_evidence delete_record is_to_come has_private_object
    validate_identity add_seconds to_iso_instant to_record_key numbered_reference record_for_owner
    record_for_query record_by_upload_reference record_by_quarantine_reference is_sha256 slice
    starts_with detect_media_type observation content_values inspect_scan is_allowed inspect_content
    has_come record_values inspect_record media_eq matches matches_exactly get put delete text_eq
    pad_start decimal_text
second_upload_refused = refl

late_upload_refused : upload_to_quarantine example_context upload 61_000 announced ≡ err expired
unfolding create_intent check_intent check_upload upload_to_quarantine check_scan record_scan_result
    accept_evidence accept_record accept_verified require_verified check_acceptance check_deletion
    check_deletable check_retention delete_evidence delete_record is_to_come has_private_object
    validate_identity add_seconds to_iso_instant to_record_key numbered_reference record_for_owner
    record_for_query record_by_upload_reference record_by_quarantine_reference is_sha256 slice
    starts_with detect_media_type observation content_values inspect_scan is_allowed inspect_content
    has_come record_values inspect_record media_eq matches matches_exactly get put delete text_eq
    pad_start decimal_text
late_upload_refused = refl

pub scan_runs : record_scan_result scan uploaded ≡ ok scanned
unfolding create_intent check_intent check_upload upload_to_quarantine check_scan record_scan_result
    accept_evidence accept_record accept_verified require_verified check_acceptance check_deletion
    check_deletable check_retention delete_evidence delete_record is_to_come has_private_object
    validate_identity add_seconds to_iso_instant to_record_key numbered_reference record_for_owner
    record_for_query record_by_upload_reference record_by_quarantine_reference is_sha256 slice
    starts_with detect_media_type observation content_values inspect_scan is_allowed inspect_content
    has_come record_values inspect_record media_eq matches matches_exactly get put delete text_eq
    pad_start decimal_text
scan_runs = refl

pub acceptance_checked : check_acceptance example_context scanned query 2_000 ≡ ok tt
unfolding create_intent check_intent check_upload upload_to_quarantine check_scan record_scan_result
    accept_evidence accept_record accept_verified require_verified check_acceptance check_deletion
    check_deletable check_retention delete_evidence delete_record is_to_come has_private_object
    validate_identity add_seconds to_iso_instant to_record_key numbered_reference record_for_owner
    record_for_query record_by_upload_reference record_by_quarantine_reference is_sha256 slice
    starts_with detect_media_type observation content_values inspect_scan is_allowed inspect_content
    has_come record_values inspect_record media_eq matches matches_exactly get put delete text_eq
    pad_start decimal_text
acceptance_checked = refl

pub acceptance_runs :
    accept_evidence example_context query 2_000 scanned
    ≡ (resolved (an_acceptance example_acceptance), accepted)
unfolding create_intent check_intent check_upload upload_to_quarantine check_scan record_scan_result
    accept_evidence accept_record accept_verified require_verified check_acceptance check_deletion
    check_deletable check_retention delete_evidence delete_record is_to_come has_private_object
    validate_identity add_seconds to_iso_instant to_record_key numbered_reference record_for_owner
    record_for_query record_by_upload_reference record_by_quarantine_reference is_sha256 slice
    starts_with detect_media_type observation content_values inspect_scan is_allowed inspect_content
    has_come record_values inspect_record media_eq matches matches_exactly get put delete text_eq
    pad_start decimal_text
acceptance_runs = refl

early_deletion_refused :
    check_deletion example_context accepted deletion 61_999
    ≡ err (evidence retention_active (fixed "Evidence retention has not expired."))
unfolding create_intent check_intent check_upload upload_to_quarantine check_scan record_scan_result
    accept_evidence accept_record accept_verified require_verified check_acceptance check_deletion
    check_deletable check_retention delete_evidence delete_record is_to_come has_private_object
    validate_identity add_seconds to_iso_instant to_record_key numbered_reference record_for_owner
    record_for_query record_by_upload_reference record_by_quarantine_reference is_sha256 slice
    starts_with detect_media_type observation content_values inspect_scan is_allowed inspect_content
    has_come record_values inspect_record media_eq matches matches_exactly get put delete text_eq
    pad_start decimal_text
early_deletion_refused = refl

pub deletion_checked : check_deletion example_context accepted deletion 62_000 ≡ ok tt
unfolding create_intent check_intent check_upload upload_to_quarantine check_scan record_scan_result
    accept_evidence accept_record accept_verified require_verified check_acceptance check_deletion
    check_deletable check_retention delete_evidence delete_record is_to_come has_private_object
    validate_identity add_seconds to_iso_instant to_record_key numbered_reference record_for_owner
    record_for_query record_by_upload_reference record_by_quarantine_reference is_sha256 slice
    starts_with detect_media_type observation content_values inspect_scan is_allowed inspect_content
    has_come record_values inspect_record media_eq matches matches_exactly get put delete text_eq
    pad_start decimal_text
deletion_checked = refl

pub deletion_runs : (delete_evidence example_context deletion 62_000 accepted).1 ≡ deleted
unfolding create_intent check_intent check_upload upload_to_quarantine check_scan record_scan_result
    accept_evidence accept_record accept_verified require_verified check_acceptance check_deletion
    check_deletable check_retention delete_evidence delete_record is_to_come has_private_object
    validate_identity add_seconds to_iso_instant to_record_key numbered_reference record_for_owner
    record_for_query record_by_upload_reference record_by_quarantine_reference is_sha256 slice
    starts_with detect_media_type observation content_values inspect_scan is_allowed inspect_content
    has_come record_values inspect_record media_eq matches matches_exactly get put delete text_eq
    pad_start decimal_text
deletion_runs = refl
