-- ===== src/Adapters/Evidence/Tests/Witnesses.antt =====
-- The theorems on evidence, at the run of the parent module.
use nitip_cuy.Prelude.{
  ℕ, ◌+◌, ◌*◌, ◌≤◌, ◌<◌, All, none, ◌≡◌, ◌↔◌, refl, ap, subst, true, false, some, List, [], ◌∷◌,
  arith,
}
use nitip_cuy.Text.Decimal.{pad_start, decimal_text}
use nitip_cuy.Text.{lit, text_eq}
use nitip_cuy.Map.{get, put}
use nitip_cuy.Failure.{ok}
use nitip_cuy.Platform.{at_clock}
use nitip_cuy.Application.Evidence
use nitip_cuy.Application.Evidence.{
  AcceptedEvidence, AcceptEvidenceCommand, EvidenceResult, an_acceptance, image_jpeg, media_eq,
}
use nitip_cuy.Application.Idempotency.{resolved, is_valid_idempotency_key, validate_operation}
use nitip_cuy.Application.Idempotency.Contract.{milliseconds}
use nitip_cuy.Application.Idempotency.Later.{PortCall, claiming, IsAllowed, after_port_calls}
use nitip_cuy.Adapters.Evidence.Intents.{evidence_operation, evidence_idempotency_retention_seconds}
use nitip_cuy.Adapters.Fingerprint.{
  no_field, field, string_value, null_value, command_fingerprint, canonicalize, text_leb,
}
use nitip_cuy.Adapters.Fingerprint.Order.{swap, fingerprint-Reordered}
use nitip_cuy.Adapters.Evidence.{
  EvidenceRecord, new_lifecycle, numbered_reference, record_for_query, record_for_owner,
  record_by_upload_reference, record_by_quarantine_reference, clean_scan, to_record_key,
}
use nitip_cuy.Adapters.Evidence.Policy.{
  validate_policy, validate_identity, add_seconds, to_iso_instant,
}
use nitip_cuy.Adapters.Evidence.Acceptance.{acceptance_times, accept, with_acceptance}
use nitip_cuy.Adapters.Evidence.Acceptable.Once.{accepted_once}
use nitip_cuy.Adapters.IdempotencyStore.{InMemoryIdempotencyStore, in_memory_port}
use nitip_cuy.Adapters.IdempotencyStore.View.{view, in_memory_contract}
use nitip_cuy.Text.Chars.{matches, matches_exactly}
use nitip_cuy.Adapters.Evidence.Content.{detect_media_type, starts_with}
use nitip_cuy.Adapters.Evidence.Inspection.{observation, record_values, is_allowed}
use nitip_cuy.Adapters.Evidence.Deletion.{has_private_object}
use nitip_cuy.Adapters.Evidence.Verified.{IsVerified, inspect_verified_iff}
use nitip_cuy.Adapters.Evidence.Histories.{
  History, start, wait, creates, uploads, scans, accepts, deletes,
}
use nitip_cuy.Adapters.Evidence.Growth.{IsContinued, record-IsContinued}
use nitip_cuy.Adapters.Evidence.Objects.{IsEvidenceOf}
use nitip_cuy.Adapters.Evidence.Retention.{retained, deleted_after_retention}
use nitip_cuy.Adapters.Evidence.References.{found_by_reference}
use nitip_cuy.Adapters.Evidence.Policies.{IsAcceptable, validate_policy_iff}
use nitip_cuy.Adapters.Evidence.Tests.{
  example_context, example_platform, example_iso, example_hashes, example_digest, jpeg,
  example_hashing, example_policy, example_key, scanned_record, accepted_record, deleted_record,
  example_acceptance, announcement, query, upload, scan, deletion, announced, uploaded, scanned,
  accepted, deleted, announcement_checked, announcement_runs, upload_runs, scan_runs,
  acceptance_checked, acceptance_runs, deletion_checked, deletion_runs,
}

to_announced : History example_context new_lifecycle 1_000 announced 1_000
to_announced =
    subst (λ s. History example_context new_lifecycle 1_000 s 1_000) announcement_runs
      (creates announcement (start new_lifecycle 1_000) announcement_checked
        (start new_lifecycle 1_000))

to_scanned : History example_context new_lifecycle 1_000 scanned 2_000
to_scanned =
    wait 2_000 (scans scan scanned (uploads upload uploaded to_announced upload_runs) scan_runs)
      (omega arith)

accepting : History example_context scanned 2_000 accepted 2_000
accepting =
    subst (λ s. History example_context scanned 2_000 s 2_000) (ap (λ run. run.1) acceptance_runs)
      (accepts query (start scanned 2_000) acceptance_checked (start scanned 2_000))

to_accepted : History example_context new_lifecycle 1_000 accepted 2_000
to_accepted =
    subst (λ s. History example_context new_lifecycle 1_000 s 2_000)
      (ap (λ run. run.1) acceptance_runs)
      (accepts query to_scanned acceptance_checked (start scanned 2_000))

to_deleted : History example_context new_lifecycle 1_000 deleted 62_000
to_deleted =
    subst (λ s. History example_context new_lifecycle 1_000 s 62_000) deletion_runs
      (deletes deletion (wait 62_000 to_accepted (omega arith)) deletion_checked
        (start accepted 62_000))

holds_scanned : get example_key scanned.records ≡ some scanned_record
unfolding get text_eq
holds_scanned = refl

holds_accepted : get example_key accepted.records ≡ some accepted_record
unfolding get text_eq
holds_accepted = refl

holds_deleted : get example_key deleted.records ≡ some deleted_record
unfolding get text_eq
holds_deleted = refl

record-IsContinued_example :
    (r : EvidenceRecord) × (get example_key accepted.records ≡ some r)
    × IsContinued scanned_record r
record-IsContinued_example =
    record-IsContinued example_context scanned accepted 2_000 2_000 example_key scanned_record
      accepting holds_scanned

retained_example :
    (content : List ℕ) × (get example_acceptance.object_reference accepted.accepted_objects
      ≡ some content)
    × IsEvidenceOf example_context example_acceptance content
retained_example =
    retained example_context example_iso accepted 1_000 2_000 example_key accepted_record
      example_acceptance (at_clock 2_000) to_accepted holds_accepted refl refl (omega arith)

deleted_after_retention_example :
    (a : AcceptedEvidence) × (since : ℕ) × (deleted_record.accepted ≡ some a)
    × (deleted_record.deleted_object_reference ≡ some a.object_reference)
    × (has_private_object deleted a.object_reference ≡ false)
    × (example_platform.parse_date a.accepted_at ≡ some since)
    × (since + 60 * 1_000 ≤ at_clock 62_000)
deleted_after_retention_example =
    deleted_after_retention example_context example_iso deleted 1_000 62_000 example_key
      deleted_record (at_clock 62_000 ∷ []) to_deleted holds_deleted refl

found_by_reference_example :
    (record_by_upload_reference scanned (lit "mock-upload-0001") ≡ ok (example_key, scanned_record))
    × (record_by_quarantine_reference scanned (lit "mock-quarantine-0001")
        ≡ ok (example_key, scanned_record))
unfolding numbered_reference pad_start decimal_text
found_by_reference_example =
    found_by_reference example_context scanned 1_000 2_000 example_key scanned_record to_scanned
      holds_scanned

inspect_verified_iff_example :
    ((observation scanned_record (record_values example_context scanned_record 2_000)).status
      ≡ Evidence.verified)
    ↔ IsVerified example_context scanned_record
inspect_verified_iff_example = inspect_verified_iff example_context scanned_record 2_000

validate_policy_iff_example : (validate_policy example_policy ≡ ok tt) ↔ IsAcceptable example_policy
validate_policy_iff_example = validate_policy_iff example_policy

fingerprint-Reordered_example :
    command_fingerprint example_hashing
      (field (lit "b") null_value (field (lit "a") (string_value (lit "x")) no_field))
    ≡ command_fingerprint example_hashing
        (field (lit "a") (string_value (lit "x")) (field (lit "b") null_value no_field))
fingerprint-Reordered_example =
    fingerprint-Reordered example_hashing _ _ (
      swap (lit "b") (lit "a") null_value (string_value (lit "x")) no_field
        (λ e. ground (arith, e)))

acceptance : AcceptEvidenceCommand
acceptance = record { idempotency_key = lit "key-00000002"; query = query }

empty_store : InMemoryIdempotencyStore EvidenceResult
empty_store = record { records = []; lease_sequence = 0 }

example_verified : IsVerified example_context scanned_record
unfolding detect_media_type is_allowed media_eq starts_with
example_verified = record {
  not_deleted = refl;
  not_accepted = refl;
  content = jpeg;
  type = image_jpeg;
  scan = record {
    status = clean_scan;
    scan_reference = lit "scan-1";
    scanned_sha256 = some example_digest;
  };
  uploaded = refl;
  scanned = refl;
  verified_content = record {
    not_empty = omega arith;
    not_too_large = omega arith;
    detected = refl;
    allowed = refl;
    clean = refl;
    same_digest = refl;
  };
}

query_found : record_for_query scanned query ≡ ok scanned_record
unfolding record_for_query record_for_owner validate_identity matches get text_eq to_record_key
    numbered_reference pad_start decimal_text
query_found = refl

times_in_range :
    acceptance_times example_context 2_000 ≡ ok (at_clock 2_000 ∷ [], at_clock 62_000 ∷ [])
unfolding add_seconds to_iso_instant
times_in_range = refl

key_valid : is_valid_idempotency_key (lit "key-00000002") ≡ true
unfolding is_valid_idempotency_key matches
key_valid = refl

-- A claim under another key, between the acceptance and its retry.
abbrev between : List (PortCall EvidenceResult)
between =
    claiming
      (evidence_operation query.owner_account_id "evidence.accept" (lit "key-00000003")
        example_digest)
      2_500
    ∷ []

between-IsAllowed :
    All (IsAllowed (λ t. t < 2_000 + milliseconds evidence_idempotency_retention_seconds)) between
unfolding validate_operation is_valid_idempotency_key matches matches_exactly
between-IsAllowed = ((refl, omega arith), tt)

accepted_found :
    record_for_query
      (with_acceptance scanned example_key scanned_record example_acceptance jpeg 2)
      query
    ≡ ok (let r = scanned_record in record r { accepted = some example_acceptance; upload = none })
unfolding record_for_query record_for_owner validate_identity matches get put text_eq to_record_key
    numbered_reference pad_start decimal_text
accepted_found = refl

accepted_once_example :
    let port = in_memory_port EvidenceResult in
    let first = accept example_context port acceptance 2_000 2_000 empty_store scanned in
    let later = after_port_calls port first.store between in
    let world = with_acceptance scanned example_key scanned_record example_acceptance jpeg 2 in
    (first.outcome ≡ resolved (an_acceptance example_acceptance))
    × (first.world ≡ world)
    × (accept example_context port acceptance 3_000 3_000 later world ≡ record {
      outcome = resolved (an_acceptance example_acceptance);
      store = later;
      world = world;
    })
unfolding acceptance numbered_reference pad_start decimal_text to_record_key example_verified
    empty_store command_fingerprint canonicalize get text_leb
accepted_once_example =
    accepted_once example_context example_hashes (in_memory_port EvidenceResult) view
      (in_memory_contract EvidenceResult) acceptance 2_000 2_000 3_000 3_000 empty_store scanned
      scanned_record example_verified (at_clock 2_000 ∷ [], at_clock 62_000 ∷ []) example_digest
      between (with_acceptance scanned example_key scanned_record example_acceptance jpeg 2)
      (let r = scanned_record in record r { accepted = some example_acceptance; upload = none })
      query_found (λ e. ground (arith, e)) times_in_range key_valid refl refl (omega arith)
      between-IsAllowed accepted_found refl refl (omega arith)
