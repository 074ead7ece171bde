-- ===== src/Adapters/Evidence/Acceptable/Once.antt =====
-- A verified piece of evidence is accepted, and only once.
use nitip_cuy.Text.Chars.{matches}
use nitip_cuy.Prelude.{
  ℕ, arith, subst, ◌+◌, ◌≤◌, ◌<◌, ◌≡◌, ◌≢◌, refl, ◌∙◌, sym, ap, true, [], List, All, none, some,
}
use nitip_cuy.Text.{Text}
use nitip_cuy.Number.{max_safe_integer}
use nitip_cuy.Failure.{ok}
use nitip_cuy.Application.Idempotency.{
  IdempotentOperation, IdempotencyStorePort, resolved, is_valid_idempotency_key,
  execute_idempotently,
}
use nitip_cuy.Application.Idempotency.Contract.{KeyState, free, milliseconds, IsIdempotencyStore}
use nitip_cuy.Application.Idempotency.Later.{PortCall, IsAllowed, after_port_calls}
use nitip_cuy.Application.Idempotency.Once.{runs_once}
use nitip_cuy.Application.Evidence.{AcceptEvidenceCommand, EvidenceResult, an_acceptance}
use nitip_cuy.Adapters.Fingerprint.{command_fingerprint}
use nitip_cuy.Adapters.Evidence.{EvidenceContext, EvidenceRecord, Lifecycle, record_for_query}
use nitip_cuy.Adapters.Evidence.Policy.{validate_identity}
use nitip_cuy.Adapters.Evidence.Intents.{evidence_operation, evidence_idempotency_retention_seconds}
use nitip_cuy.Adapters.Evidence.Acceptance.{
  acceptance_times, new_acceptance, with_acceptance, query_key, accept_payload, accept_evidence,
  accept,
}
use nitip_cuy.Adapters.Evidence.Verified.{IsVerified}
use nitip_cuy.Adapters.Evidence.Acceptable.{
  IsHashing, operation_valid, observed_of, accepted_lem, fingerprint_hex, verified_checked,
  accepted_checked, accept_runs,
}

module _ (c : EvidenceContext) (hashes : IsHashing c.hashing)
    (port : IdempotencyStorePort EvidenceResult)
    (view : port.Store → IdempotentOperation → ℕ → KeyState EvidenceResult)
    (law : IsIdempotencyStore port view) where
  owner_valid :
      (s : Lifecycle) (i : AcceptEvidenceCommand) (r : EvidenceRecord)
      → record_for_query s i.query ≡ ok r
      → validate_identity i.query.owner_account_id "Evidence owner account ID" ≡ ok tt
  unfolding record_for_query
  owner_valid s i r h = ground arith

  -- A call to accept evidence that is found verified resolves with the acceptance of the bytes in
  -- quarantine and moves them to the private objects, where the key is a valid one that is free, the
  -- scan has a reference, the clock is in range and the store of the protocol keeps its contract.
  -- After it, let any calls be made on the store before the retention of the protocol ends, for
  -- valid operations, and let the lifecycle be any in which the evidence is found with that
  -- acceptance and not deleted: then a retry with the same key before that end resolves with the
  -- very same acceptance and changes neither.
  pub accepted_once :
      (i : AcceptEvidenceCommand) (started ended restarted reended : ℕ) (store : port.Store)
      (s : Lifecycle) (r : EvidenceRecord) (v : IsVerified c r) (times : Text × Text) (f : Text)
      (calls : List (PortCall EvidenceResult)) (s' : Lifecycle) (r' : EvidenceRecord)
      → record_for_query s i.query ≡ ok r
      → v.scan.scan_reference ≢ []
      → acceptance_times c ended ≡ ok times
      → is_valid_idempotency_key i.idempotency_key ≡ true
      → command_fingerprint c.hashing (accept_payload i.query) ≡ ok f
      → view store
          (evidence_operation i.query.owner_account_id "evidence.accept" i.idempotency_key f)
          started
        ≡ free
      → ended + milliseconds evidence_idempotency_retention_seconds ≤ max_safe_integer
      → All (IsAllowed (λ t. t < ended + milliseconds evidence_idempotency_retention_seconds)) calls
      → record_for_query s' i.query ≡ ok r'
      → r'.accepted
        ≡ some (new_acceptance r (observed_of c hashes v) (s.reference_sequence + 1) times)
      → r'.deleted_at ≡ none
      → restarted < ended + milliseconds evidence_idempotency_retention_seconds
      → let n = s.reference_sequence + 1 in
        let a = new_acceptance r (observed_of c hashes v) n times in
        let first = accept c port i started ended store s in
        let later = after_port_calls port first.store calls in
        (first.outcome ≡ resolved (an_acceptance a))
        × (first.world ≡ with_acceptance s (query_key i.query) r a v.content n)
        × (accept c port i restarted reended later s'
            ≡ record { outcome = resolved (an_acceptance a); store = later; world = s' })
  unfolding matches
  accepted_once i started ended restarted reended store s r v times f calls s' r' found named timed
        key printed is_free small allowed found' is_accepted alive soon =
      let n = s.reference_sequence + 1 in
      let a = new_acceptance r (observed_of c hashes v) n times in
      let w = with_acceptance s (query_key i.query) r a v.content n in
      let o = evidence_operation i.query.owner_account_id "evidence.accept" i.idempotency_key f in
      let valid =
        operation_valid i.query.owner_account_id "Evidence owner account ID" "evidence.accept"
          i.idempotency_key f (owner_valid s i r found) refl key
          (fingerprint_hex c hashes i.query f printed) in
      let ran = accepted_lem c hashes i.query ended s r v times found named timed in
      let again = accepted_checked c hashes i.query restarted s' r' a found' is_accepted alive in
      let (resolves, moved, retried) =
        runs_once port view law o o started ended restarted reended
          (accept_evidence c i.query ended) (accept_evidence c i.query reended) store s w s'
          (an_acceptance a) calls valid is_free ran small allowed
          (record { scope = refl; operation = refl; key = refl }) refl valid soon in
      let first =
        accept_runs c hashes port i started ended store s f
          (verified_checked c hashes i.query started s r v found) printed in
      let run =
        execute_idempotently port o started ended (accept_evidence c i.query ended) store s in
      let retry =
        accept_runs c hashes port i restarted reended (after_port_calls port run.store calls) s' f
          again printed
        ∙ retried in
      (
        ap (λ x. x.outcome) first ∙ resolves,
        ap (λ x. x.world) first ∙ moved,
        subst
            (λ x.
              accept c port i restarted reended (after_port_calls port x.store calls) s' ≡ record {
                outcome = resolved (an_acceptance a);
                store = after_port_calls port x.store calls;
                world = s';
              })
            (sym first) retry,
      )
