-- ===== src/Adapters/Evidence/Deletion.antt =====
-- packages/adapters/src/in-memory-evidence-lifecycle.ts: `deleteExpired` and `hasPrivateObject`.
use nitip_cuy.Prelude.{ℕ, Bool, not, Option, none, some}
use nitip_cuy.Text.{Text, lit, text_eq}
use nitip_cuy.Map.{get, put, delete}
use nitip_cuy.Failure.{Failure, Result, ok, err, ◌>>=◌, ◌>>◌, throw_if, evidence, fixed}
use nitip_cuy.Failure
use nitip_cuy.Platform.{at_clock, is_before}
use nitip_cuy.Application.Idempotency.{
  IdempotencyStorePort, Run, Outcome, resolved, threw, execute_idempotently,
}
use nitip_cuy.Application.Evidence.{
  AcceptedEvidence, DeleteExpiredEvidenceCommand, EvidenceResult, a_deletion,
}
use nitip_cuy.Adapters.Fingerprint.{Fields, no_field, field, string_value, command_fingerprint}
use nitip_cuy.Adapters.Evidence.{
  EvidenceContext, EvidenceRecord, Lifecycle, to_record_key, record_for_owner, checked,
}
use nitip_cuy.Adapters.Evidence.Policy.{to_iso_instant}
use nitip_cuy.Adapters.Evidence.Fixtures.{is_some}
use nitip_cuy.Adapters.Evidence.Intents.{evidence_operation}

abbrev mismatch : Failure
mismatch =
    evidence Failure.object_mismatch
      (fixed "Evidence deletion reference does not match the accepted object.")

abbrev pub delete_payload : DeleteExpiredEvidenceCommand → Fields
delete_payload d = field (lit "evidenceId") (string_value d.evidence_id) (
    field (lit "ownerAccountId") (string_value d.owner_account_id)
      (field (lit "objectReference") (string_value d.object_reference) no_field))

-- `reference === text`, for a reference that may be null
abbrev pub is_reference : Option Text → Text → Bool
is_reference none text = Bool.false
is_reference (some reference) text = text_eq reference text

-- The object is dropped, and the record marked.
abbrev pub with_deletion : Lifecycle → Text → EvidenceRecord → Text → Text → Lifecycle
with_deletion s key r reference at = record s {
  records =
      put key (record r { deleted_object_reference = some reference; deleted_at = some at })
        s.records;
  accepted_objects = delete reference s.accepted_objects;
}

module _ (c : EvidenceContext) where
  -- `nowMilliseconds() < Date.parse(text)`
  unfoldable pub is_to_come : Text → ℕ → Bool
  is_to_come text now = is_before (some (at_clock now)) (c.platform.parse_date text)

  -- The tests on a record that is not deleted.
  unfoldable pub check_retention : Option AcceptedEvidence → Text → ℕ → Result (Unit {0})
  unfolding is_to_come
  check_retention none reference now =
      err (
        evidence Failure.not_verified
          (fixed "Only accepted evidence can enter retention deletion."))
  check_retention (some a) reference now = do
    throw_if (not (text_eq a.object_reference reference)) mismatch
    throw_if (is_to_come a.retention_expires_at now)
        (evidence Failure.retention_active (fixed "Evidence retention has not expired."))

  -- The tests before the lease is claimed, on the record.
  unfoldable pub check_deletable : EvidenceRecord → Text → ℕ → Result (Unit {0})
  unfolding check_retention
  check_deletable r reference now = elim r.deleted_at [
    | some at ↦ throw_if (not (is_reference r.deleted_object_reference reference)) mismatch
    | none ↦ check_retention r.accepted reference now
  ]

  unfoldable pub check_deletion : Lifecycle → DeleteExpiredEvidenceCommand → ℕ → Result (Unit {0})
  unfolding record_for_owner check_deletable
  check_deletion s d now = do
    r ← record_for_owner s d.owner_account_id d.evidence_id
    check_deletable r d.object_reference now

  unfoldable pub delete_record :
      DeleteExpiredEvidenceCommand
      → EvidenceRecord
      → ℕ
      → Lifecycle
      → Outcome EvidenceResult Failure × Lifecycle
  delete_record d r now s = elim r.deleted_at [
    | some at ↦ (resolved (a_deletion (record { evidence_id = r.evidence_id; deleted_at = at })), s)
    | none ↦ elim (to_iso_instant c.platform now) [
      | err error ↦ (threw error, s)
      | ok at ↦ (
        resolved (a_deletion (record { evidence_id = r.evidence_id; deleted_at = at })),
        with_deletion s (to_record_key d.owner_account_id d.evidence_id) r d.object_reference at,
      )
    ]
  ]

  -- What runs under the lease: on the record that was found before, in its present state. A record
  -- that was found stays in its map, so that the first case does not arise.
  unfoldable pub delete_evidence :
      DeleteExpiredEvidenceCommand → ℕ → Lifecycle → Outcome EvidenceResult Failure × Lifecycle
  unfolding delete_record
  delete_evidence d now s = elim (get (to_record_key d.owner_account_id d.evidence_id) s.records) [
    | none ↦
        (threw (evidence Failure.not_found (fixed "Evidence lifecycle record was not found.")), s)
    | some r ↦ delete_record d r now s
  ]

  -- `started` is the time of the checks and of the claim, `ended` that of what runs under the lease.
  unfoldable pub delete_expired :
      (port : IdempotencyStorePort EvidenceResult)
      → DeleteExpiredEvidenceCommand
      → (started ended : ℕ) → port.Store
      → Lifecycle
      → Run EvidenceResult Failure port.Store Lifecycle
  unfolding check_deletion delete_evidence
  delete_expired port d started ended store s =
      checked (check_deletion s d started >> command_fingerprint c.hashing (delete_payload d)) store
        s
        λ fingerprint.
          execute_idempotently port
            (evidence_operation d.owner_account_id "evidence.delete-expired" d.idempotency_key
              fingerprint)
            started ended (delete_evidence d ended) store s

unfoldable pub has_private_object : Lifecycle → Text → Bool
has_private_object s reference = is_some (get reference s.accepted_objects)
