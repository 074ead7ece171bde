-- ===== src/Adapters/Evidence/Acceptable.antt =====
-- Acceptance end to end, with the idempotency protocol.
pub mod Once
use nitip_cuy.Prelude.{
  ℕ, suc, ◌+◌, ◌*◌, ◌≤◌, ◌<◌, ◌≡◌, ◌≢◌, refl, ◌∙◌, sym, ap, subst, Bool, true, false, ◌&&◌, Option,
  none, some, List, [], ◌∷◌, ◌++◌, arith, length, all, leb, if◌then◌else◌, both_of_and, String,
}
use nitip_cuy.Text.{Text, lit, text_eq_refl}
use nitip_cuy.Text.Chars.{
  is_alnum, is_safe_visible, is_lower, is_dotted_slug, is_lower_hex, matches, matches_exactly,
}
use nitip_cuy.Number.{max_safe_integer}
use nitip_cuy.Map.{get, get-put_self}
use nitip_cuy.Failure.{Failure, Result, ok, err, ◌>>=◌, ◌>>◌, after_bind, ok_path}
use nitip_cuy.Application.Idempotency.{
  IdempotentOperation, IdempotencyStorePort, Run, resolved, validate_operation,
  is_valid_idempotency_key, execute_idempotently,
}
use nitip_cuy.Application.Idempotency.Contract.{
  KeyState, free, SameKey, milliseconds, IsIdempotencyStore,
}
use nitip_cuy.Application.Idempotency.Once.{runs_once}
use nitip_cuy.Application.Evidence.{
  AcceptEvidenceCommand, InspectEvidenceQuery, EvidenceResult, an_acceptance, AcceptedEvidence,
}
use nitip_cuy.Adapters.Fingerprint.{Hashing, canonicalize, object_value, command_fingerprint}
use nitip_cuy.Adapters.Evidence.{
  EvidenceContext, EvidenceRecord, Lifecycle, record_for_query, record_for_owner, checked,
}
use nitip_cuy.Adapters.Evidence.Policy.{validate_identity}
use nitip_cuy.Adapters.Evidence.Inspection.{inspect_record, record_values, observation}
use nitip_cuy.Adapters.Evidence.Intents.{evidence_operation, evidence_idempotency_retention_seconds}
use nitip_cuy.Adapters.Evidence.Acceptance.{
  Observed, require_verified, acceptance_times, new_acceptance, with_acceptance, query_key,
  accept_payload, accept_evidence, accept_record, accept_verified, check_acceptance, accept,
}
use nitip_cuy.Adapters.Evidence.Verified.{IsVerified, verified_values, inspect_verified_iff}

-- `createHash("sha256")…digest("hex")` yields 64 lowercase hexadecimal digits.
pub record IsHashing (h : Hashing) : Type 0 where
  pub hex_text : (s : Text) → matches_exactly is_lower_hex 64 (h.sha256_text s) ≡ true
  pub hex_bytes : (b : List ℕ) → matches_exactly is_lower_hex 64 (h.sha256_bytes b) ≡ true

identity_scope :
    (owner : Text) (label : String)
    → validate_identity owner label ≡ ok tt
    → matches is_alnum is_safe_visible 2 191 (lit "account:" ++ owner) ≡ true
unfolding validate_identity matches
identity_scope [] label h = ground arith
identity_scope (c ∷ s) label h = ground arith

operation_valid :
    (owner : Text) (label name : String) (key f : Text)
    → validate_identity owner label ≡ ok tt
    → matches is_lower is_dotted_slug 2 63 (lit name) ≡ true
    → is_valid_idempotency_key key ≡ true
    → matches_exactly is_lower_hex 64 f ≡ true
    → validate_operation (evidence_operation owner name key f) ≡ none
unfolding validate_operation
operation_valid owner label name key f h n k e = ground (arith, identity_scope owner label h)

not_empty_hex : (s : Text) → matches_exactly is_lower_hex 64 s ≡ true → s ≢ []
unfolding matches_exactly
not_empty_hex [] h e = ground arith
not_empty_hex (c ∷ s) h e = ground arith

module _ (c : EvidenceContext) (hashes : IsHashing c.hashing) where
  -- What acceptance stores of a verified record.
  abbrev pub observed_of : {r : EvidenceRecord} → IsVerified c r → Observed
  observed_of v = record {
    content = v.content;
    sha256 = c.hashing.sha256_bytes v.content;
    byte_length = length v.content;
    media_type = v.type;
    scan_reference = v.scan.scan_reference;
  }

  verified_required :
      (r : EvidenceRecord) (now : ℕ) (v : IsVerified c r)
      → v.scan.scan_reference ≢ []
      → require_verified r (observation r (record_values c r now)) ≡ ok (observed_of v)
  unfolding require_verified observation
  verified_required r now v named =
      let (digest, size, type, scanned) = verified_values c r now v in
      ground (
        arith,
        (inspect_verified_iff c r now).1 v,
        v.uploaded,
        v.verified_content.not_empty,
        not_empty_hex (c.hashing.sha256_bytes v.content) (hashes.hex_bytes v.content),
        named,
      )

  accepted_lem :
      (q : InspectEvidenceQuery) (now : ℕ) (s : Lifecycle) (r : EvidenceRecord) (v : IsVerified c r)
      (times : Text × Text)
      → record_for_query s q ≡ ok r
      → v.scan.scan_reference ≢ []
      → acceptance_times c now ≡ ok times
      → let a = new_acceptance r (observed_of v) (s.reference_sequence + 1) times in
        accept_evidence c q now s ≡ (
          resolved (an_acceptance a),
          with_acceptance s (query_key q) r a v.content (s.reference_sequence + 1),
        )
  unfolding accept_evidence accept_record accept_verified inspect_record
  accepted_lem q now s r v times found named timed =
      rw (found, accept_evidence)
        (rw (accept_record, v.not_accepted, found)
          (rw (verified_required r now v named, accept_verified, timed) refl))

  fingerprint_hex :
      (q : InspectEvidenceQuery) (f : Text)
      → command_fingerprint c.hashing (accept_payload q) ≡ ok f
      → matches_exactly is_lower_hex 64 f ≡ true
  unfolding command_fingerprint
  fingerprint_hex q f h =
      after_bind (canonicalize c.hashing (object_value (accept_payload q))) _ h
        λ text read h'. rw (ok_path h') (hashes.hex_text text)

  verified_checked :
      (q : InspectEvidenceQuery) (now : ℕ) (s : Lifecycle) (r : EvidenceRecord)
      → IsVerified c r
      → record_for_query s q ≡ ok r
      → check_acceptance c s q now ≡ ok tt
  unfolding check_acceptance inspect_record observation
  verified_checked q now s r v found = ground (arith, found, (inspect_verified_iff c r now).1 v)

  -- The record of the query after the acceptance.
  found_accepted :
      (q : InspectEvidenceQuery) (s : Lifecycle) (r : EvidenceRecord) (a : AcceptedEvidence)
      (content : List ℕ) (n : ℕ)
      → record_for_query s q ≡ ok r
      → record_for_query (with_acceptance s (query_key q) r a content n) q
        ≡ ok (record r { accepted = some a; upload = none })
  unfolding record_for_query record_for_owner
  found_accepted q s r a content n found = ground (
    arith,
    found,
    get-put_self (query_key q) (record r { accepted = some a; upload = none }) s.records,
  )

  accepted_checked :
      (q : InspectEvidenceQuery) (now : ℕ) (s : Lifecycle) (r : EvidenceRecord)
      (a : AcceptedEvidence)
      → record_for_query s q ≡ ok r
      → r.accepted ≡ some a
      → r.deleted_at ≡ none
      → check_acceptance c s q now ≡ ok tt
  unfolding check_acceptance inspect_record observation record_values
  accepted_checked q now s r a found is_accepted alive = ground (arith, found)

  -- A handler whose checks pass runs the protocol.
  accept_runs :
      (port : IdempotencyStorePort EvidenceResult) (i : AcceptEvidenceCommand) (started ended : ℕ)
      (store : port.Store) (s : Lifecycle) (f : Text)
      → check_acceptance c s i.query started ≡ ok tt
      → command_fingerprint c.hashing (accept_payload i.query) ≡ ok f
      → accept c port i started ended store s
        ≡ execute_idempotently port
            (evidence_operation i.query.owner_account_id "evidence.accept" i.idempotency_key f)
            started
            ended
            (accept_evidence c i.query ended)
            store
            s
  unfolding accept
  accept_runs port i started ended store s f passed printed = rw (passed, printed) refl
