-- ===== src/Adapters/Evidence/Histories.antt =====
-- The calls of any number of callers on the evidence lifecycle, in any order.
--
-- A handler of the source awaits the idempotency store between its checks and what runs under the
-- lease. So a call is two events here: the checks pass on one state, and the work is done on a
-- later one. A step without a constructor of its own changes nothing: a check that fails, an upload
-- or a scan that is refused, a call that the idempotency store answers.
use nitip_cuy.Prelude.{ℕ, ◌≤◌, ◌≡◌}
use nitip_cuy.Failure.{ok}
use nitip_cuy.Application.Evidence.{
  CreateEvidenceUploadIntentCommand, InspectEvidenceQuery, DeleteExpiredEvidenceCommand,
}
use nitip_cuy.Adapters.Evidence.{EvidenceContext, Lifecycle}
use nitip_cuy.Adapters.Evidence.Intents.{check_intent, create_intent}
use nitip_cuy.Adapters.Evidence.Fixtures.{
  QuarantineUploadFixture, EvidenceScanFixture, upload_to_quarantine, record_scan_result,
}
use nitip_cuy.Adapters.Evidence.Acceptance.{check_acceptance, accept_evidence}
use nitip_cuy.Adapters.Evidence.Deletion.{check_deletion, delete_evidence}

-- From a state at a time to a later one.
pub data History (c : EvidenceContext) : Lifecycle → ℕ → Lifecycle → ℕ → Type 0 where
  start : (s : Lifecycle) (t : ℕ) → History c s t s t
  wait : {r s : Lifecycle} {t u : ℕ} (v : ℕ) → History c r t s u → u ≤ v → History c r t s v
  creates :
      {q r s : Lifecycle} {t u v : ℕ} (i : CreateEvidenceUploadIntentCommand)
      → History c q t r u
      → check_intent r i ≡ ok tt
      → History c r u s v
      → History c q t (create_intent c i v s).1 v
  uploads :
      {r s : Lifecycle} {t u : ℕ} (f : QuarantineUploadFixture) (after : Lifecycle)
      → History c r t s u
      → upload_to_quarantine c f u s ≡ ok after
      → History c r t after u
  scans :
      {r s : Lifecycle} {t u : ℕ} (f : EvidenceScanFixture) (after : Lifecycle)
      → History c r t s u
      → record_scan_result f s ≡ ok after
      → History c r t after u
  accepts :
      {q r s : Lifecycle} {t u v : ℕ} (i : InspectEvidenceQuery)
      → History c q t r u
      → check_acceptance c r i u ≡ ok tt
      → History c r u s v
      → History c q t (accept_evidence c i v s).1 v
  deletes :
      {q r s : Lifecycle} {t u v : ℕ} (d : DeleteExpiredEvidenceCommand)
      → History c q t r u
      → check_deletion c r d u ≡ ok tt
      → History c r u s v
      → History c q t (delete_evidence c d v s).1 v
