-- ===== src/Adapters/Evidence/Intents.antt =====
-- packages/adapters/src/in-memory-evidence-lifecycle.ts: `createUploadIntent`.
use nitip_cuy.Prelude.{ℕ, ◌+◌, ◌*◌, Bool, true, false, not, String, Option, none, some, ◌++◌}
use nitip_cuy.Text.{Text, lit}
use nitip_cuy.Number.{to_natural}
use nitip_cuy.Map.{get, put}
use nitip_cuy.Failure.{Failure, Result, ok, err, ◌>>=◌, ◌>>◌, throw_if, evidence, fixed}
use nitip_cuy.Failure
use nitip_cuy.Application.Idempotency.{
  IdempotentOperation, IdempotencyStorePort, Run, Outcome, resolved, threw, execute_idempotently,
}
use nitip_cuy.Application.Evidence.{
  EvidenceClassification, purchase, collection, weight, dispatch, delivery, other_classification,
  classification_eq, CreateEvidenceUploadIntentCommand, EvidenceUploadIntent, EvidenceResult,
  an_intent,
}
use nitip_cuy.Adapters.Fingerprint.{Fields, no_field, field, string_value, command_fingerprint}
use nitip_cuy.Adapters.Evidence.{
  EvidenceContext, EvidenceRecord, Lifecycle, to_record_key, numbered_reference, checked,
}
use nitip_cuy.Adapters.Evidence.Policy.{validate_identity, add_seconds, to_iso_instant}

-- `EVIDENCE_IDEMPOTENCY_RETENTION_SECONDS`
abbrev pub evidence_idempotency_retention_seconds : ℕ
evidence_idempotency_retention_seconds = 30 * 24 * 60 * 60

-- An operation on evidence of an owner, as the idempotency store knows it.
abbrev pub evidence_operation : Text → String → Text → Text → IdempotentOperation
evidence_operation owner_account_id name key fingerprint = record {
  scope = lit "account:" ++ owner_account_id;
  operation = lit name;
  key = key;
  fingerprint = fingerprint;
  retention_seconds = evidence_idempotency_retention_seconds;
}

-- `evidenceClassifications.has(classification)`
abbrev pub is_classification : EvidenceClassification → Bool
is_classification (other_classification s) = false
is_classification _ = true

-- The name of a classification.
abbrev pub classification_text : EvidenceClassification → Text
classification_text purchase = lit "PURCHASE"
classification_text collection = lit "COLLECTION"
classification_text weight = lit "WEIGHT"
classification_text dispatch = lit "DISPATCH"
classification_text delivery = lit "DELIVERY"
classification_text (other_classification s) = s

abbrev pub intent_payload : CreateEvidenceUploadIntentCommand → Fields
intent_payload i = field (lit "evidenceId") (string_value i.evidence_id) (
    field (lit "ownerAccountId") (string_value i.owner_account_id)
      (field (lit "classification") (string_value (classification_text i.classification)) no_field))

-- A record of the key has another classification than the command.
abbrev pub changes_classification : Option EvidenceRecord → CreateEvidenceUploadIntentCommand → Bool
changes_classification none i = false
changes_classification (some r) i = not (classification_eq r.classification i.classification)

abbrev invalid : String → Failure
invalid message = evidence Failure.validation_failed (fixed message)

-- The checks before the lease is claimed.
unfoldable pub check_intent : Lifecycle → CreateEvidenceUploadIntentCommand → Result (Unit {0})
check_intent s i = do
  validate_identity i.evidence_id "Evidence ID"
  validate_identity i.owner_account_id "Evidence owner account ID"
  throw_if (not (is_classification i.classification))
      (invalid "Evidence classification is unsupported.")
  throw_if
      (changes_classification (get (to_record_key i.owner_account_id i.evidence_id) s.records) i)
      (invalid "Evidence classification cannot change after an upload intent exists.")

module _ (c : EvidenceContext) where
  -- When an intent that is created now expires.
  abbrev pub intent_expiry : ℕ → Result Text
  intent_expiry now =
      add_seconds now (to_natural c.policy.upload_intent_ttl_seconds) >>= to_iso_instant c.platform

  abbrev pub new_intent : CreateEvidenceUploadIntentCommand → ℕ → Text → EvidenceUploadIntent
  new_intent i sequence expires_at = record {
    evidence_id = i.evidence_id;
    upload_reference = numbered_reference (lit "mock-upload-") sequence;
    quarantine_object_reference = numbered_reference (lit "mock-quarantine-") sequence;
    allowed_media_types = c.policy.allowed_media_types;
    maximum_byte_length = to_natural c.policy.maximum_byte_length;
    expires_at = expires_at;
  }

  abbrev pub new_record : CreateEvidenceUploadIntentCommand → EvidenceUploadIntent → EvidenceRecord
  new_record i intent = record {
    evidence_id = i.evidence_id;
    owner_account_id = i.owner_account_id;
    classification = i.classification;
    intent = intent;
    upload = none;
    scan = none;
    accepted = none;
    deleted_at = none;
    deleted_object_reference = none;
  }

  -- The record and its two references are entered.
  abbrev pub with_intent :
      Lifecycle → CreateEvidenceUploadIntentCommand → EvidenceUploadIntent → ℕ → Lifecycle
  with_intent s i intent sequence =
      let key = to_record_key i.owner_account_id i.evidence_id in
      record s {
        records = put key (new_record i intent) s.records;
        upload_references = put intent.upload_reference key s.upload_references;
        quarantine_references = put intent.quarantine_object_reference key s.quarantine_references;
        reference_sequence = sequence;
      }

  -- What runs under the lease. The sequence is raised before the expiry is computed, which may
  -- throw.
  unfoldable pub create_intent :
      CreateEvidenceUploadIntentCommand → ℕ → Lifecycle → Outcome EvidenceResult Failure × Lifecycle
  unfolding to_record_key
  create_intent i now s = elim (get (to_record_key i.owner_account_id i.evidence_id) s.records) [
    | some current ↦ (resolved (an_intent current.intent), s)
    | none ↦ elim (intent_expiry now) [
      | err error ↦ (threw error, record s { reference_sequence = s.reference_sequence + 1 })
      | ok expires_at ↦
          let sequence = s.reference_sequence + 1 in
          let intent = new_intent i sequence expires_at in
          (resolved (an_intent intent), with_intent s i intent sequence)
    ]
  ]

  -- `started` is the time of the claim, `ended` that of what runs under the lease.
  unfoldable pub create_upload_intent :
      (port : IdempotencyStorePort EvidenceResult)
      → CreateEvidenceUploadIntentCommand
      → (started ended : ℕ) → port.Store
      → Lifecycle
      → Run EvidenceResult Failure port.Store Lifecycle
  unfolding create_intent check_intent
  create_upload_intent port i started ended store s =
      checked (check_intent s i >> command_fingerprint c.hashing (intent_payload i)) store s
        λ fingerprint.
          execute_idempotently port
            (evidence_operation i.owner_account_id "evidence.upload-intent.create" i.idempotency_key
              fingerprint)
            started ended (create_intent i ended) store s
