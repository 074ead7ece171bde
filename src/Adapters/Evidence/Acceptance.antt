-- ===== src/Adapters/Evidence/Acceptance.antt =====
-- packages/adapters/src/in-memory-evidence-lifecycle.ts: `accept`.
use nitip_cuy.Prelude.{
  ℕ, zero, suc, ◌+◌, Bool, true, false, ◌||◌, not, Option, none, some, List, ◌∷◌,
}
use nitip_cuy.Text.{Text, lit}
use nitip_cuy.Number.{to_natural}
use nitip_cuy.Map.{put}
use nitip_cuy.Failure.{Failure, Result, ok, err, ◌>>=◌, ◌>>◌, throw_if, evidence, fixed}
use nitip_cuy.Failure
use nitip_cuy.Application.Idempotency.{
  IdempotencyStorePort, Run, Outcome, resolved, threw, execute_idempotently,
}
use nitip_cuy.Application.Evidence.{
  EvidenceMediaType, EvidenceLifecycleStatus, EvidenceObservation, AcceptedEvidence,
  AcceptEvidenceCommand, InspectEvidenceQuery, EvidenceResult, an_acceptance,
}
use nitip_cuy.Application.Evidence
use nitip_cuy.Adapters.Fingerprint.{Fields, no_field, field, string_value, command_fingerprint}
use nitip_cuy.Adapters.Evidence.{
  EvidenceContext, EvidenceRecord, Lifecycle, to_record_key, numbered_reference, record_for_query,
  checked,
}
use nitip_cuy.Adapters.Evidence.Policy.{add_seconds, to_iso_instant}
use nitip_cuy.Adapters.Evidence.Inspection.{inspect_record}
use nitip_cuy.Adapters.Evidence.Intents.{evidence_operation}

abbrev pub is_verified : EvidenceLifecycleStatus → Bool
is_verified Evidence.verified = true
is_verified _ = false

abbrev pub is_accepted : EvidenceLifecycleStatus → Bool
is_accepted Evidence.accepted = true
is_accepted _ = false

abbrev pub accept_payload : InspectEvidenceQuery → Fields
accept_payload q = field (lit "evidenceId") (string_value q.evidence_id) (
    field (lit "ownerAccountId") (string_value q.owner_account_id) (
      field (lit "quarantineObjectReference") (string_value q.quarantine_object_reference)
        no_field))

-- What the server observed of the bytes in quarantine.
pub record Observed : Type 0 where
  pub content : List ℕ
  pub sha256 : Text
  pub byte_length : ℕ
  pub media_type : EvidenceMediaType
  pub scan_reference : Text

-- A value that JavaScript takes for false is refused: an empty text, zero, and null.
abbrev truthy_text : Failure → Option Text → Result Text
truthy_text error (some (c ∷ s)) = ok (c ∷ s)
truthy_text error _ = err error

abbrev truthy_number : Failure → Option ℕ → Result ℕ
truthy_number error none = err error
truthy_number error (some zero) = err error
truthy_number error (some (suc n)) = ok (suc n)

abbrev present : {A : Type 0} → Failure → Option A → Result A
present error none = err error
present error (some a) = ok a

abbrev pub changed : Failure
changed = evidence Failure.not_verified (fixed "Evidence verification changed before acceptance.")

-- The test before acceptance.
unfoldable pub require_verified : EvidenceRecord → EvidenceObservation → Result Observed
require_verified r o = do
  throw_if (not (is_verified o.status)) changed
  content ← present changed r.upload
  sha256 ← truthy_text changed o.observed_sha256
  byte_length ← truthy_number changed o.observed_byte_length
  media_type ← present changed o.detected_media_type
  scan_reference ← truthy_text changed o.scan_reference
  ok (record {
    content = content;
    sha256 = sha256;
    byte_length = byte_length;
    media_type = media_type;
    scan_reference = scan_reference;
  })

abbrev pub new_acceptance : EvidenceRecord → Observed → ℕ → Text × Text → AcceptedEvidence
new_acceptance r o sequence times = record {
  evidence_id = r.evidence_id;
  owner_account_id = r.owner_account_id;
  classification = r.classification;
  object_reference = numbered_reference (lit "mock-private-evidence-") sequence;
  sha256 = o.sha256;
  byte_length = o.byte_length;
  media_type = o.media_type;
  scan_reference = o.scan_reference;
  accepted_at = times.0;
  retention_expires_at = times.1;
}

-- The bytes are copied out of quarantine, and the record marked.
abbrev pub with_acceptance :
    Lifecycle → Text → EvidenceRecord → AcceptedEvidence → List ℕ → ℕ → Lifecycle
with_acceptance s key r a content sequence = record s {
  records = put key (record r { accepted = some a; upload = none }) s.records;
  accepted_objects = put a.object_reference content s.accepted_objects;
  reference_sequence = sequence;
}

abbrev pub query_key : InspectEvidenceQuery → Text
query_key q = to_record_key q.owner_account_id q.evidence_id

module _ (c : EvidenceContext) where
  -- The times of acceptance and of the end of retention.
  abbrev pub acceptance_times : ℕ → Result (Text × Text)
  acceptance_times now = do
    accepted_at ← to_iso_instant c.platform now
    retention_end ← add_seconds now (to_natural c.policy.accepted_retention_seconds)
    retention_expires_at ← to_iso_instant c.platform retention_end
    ok (accepted_at, retention_expires_at)

  -- The record is verified, and becomes accepted unless the clock is out of range.
  unfoldable pub accept_verified :
      InspectEvidenceQuery
      → EvidenceRecord
      → Observed
      → ℕ
      → Lifecycle
      → Outcome EvidenceResult Failure × Lifecycle
  accept_verified q r o now s = elim (acceptance_times now) [
    | err error ↦ (threw error, record s { reference_sequence = s.reference_sequence + 1 })
    | ok times ↦
        let sequence = s.reference_sequence + 1 in
        let a = new_acceptance r o sequence times in
        (resolved (an_acceptance a), with_acceptance s (query_key q) r a o.content sequence)
  ]

  -- What runs under the lease, on the record of the query.
  unfoldable pub accept_record :
      InspectEvidenceQuery
      → EvidenceRecord
      → ℕ
      → Lifecycle
      → Outcome EvidenceResult Failure × Lifecycle
  unfolding accept_verified require_verified inspect_record
  accept_record q r now s = elim r.accepted [
    | some a ↦ (resolved (an_acceptance a), s)
    | none ↦ elim (inspect_record c s q now >>= require_verified r) [
      | err error ↦ (threw error, s)
      | ok o ↦ accept_verified q r o now s
    ]
  ]

  unfoldable pub accept_evidence :
      InspectEvidenceQuery → ℕ → Lifecycle → Outcome EvidenceResult Failure × Lifecycle
  unfolding record_for_query accept_record
  accept_evidence q now s = elim (record_for_query s q) [
    | err error ↦ (threw error, s)
    | ok r ↦ accept_record q r now s
  ]

  -- The checks before the lease is claimed.
  unfoldable pub check_acceptance : Lifecycle → InspectEvidenceQuery → ℕ → Result (Unit {0})
  unfolding inspect_record
  check_acceptance s q now = do
    initial ← inspect_record c s q now
    throw_if (not (is_verified initial.status || is_accepted initial.status)) (
        evidence Failure.not_verified (
          fixed
            "Evidence must have matching server observations and a clean scan before acceptance."))

  -- `started` is the time of the checks and of the claim, `ended` that of what runs under the lease.
  unfoldable pub accept :
      (port : IdempotencyStorePort EvidenceResult)
      → AcceptEvidenceCommand
      → (started ended : ℕ) → port.Store
      → Lifecycle
      → Run EvidenceResult Failure port.Store Lifecycle
  unfolding check_acceptance accept_evidence
  accept port i started ended store s =
      checked
        (check_acceptance s i.query started
          >> command_fingerprint c.hashing (accept_payload i.query))
        store s
        λ fingerprint.
          execute_idempotently port
            (evidence_operation i.query.owner_account_id "evidence.accept" i.idempotency_key
              fingerprint)
            started ended (accept_evidence i.query ended) store s
