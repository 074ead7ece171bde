-- ===== src/Adapters/Evidence/Steps.antt =====
-- What each operation on evidence does to the state, by the cases of its code.
use nitip_cuy.Prelude.{ℕ, ◌+◌, ◌≡◌, refl, false, none, some, arith, Option-cases, inl, inr}
use nitip_cuy.Text.{Text}
use nitip_cuy.Map.{TextMap, get}
use nitip_cuy.Failure.{Failure, Result, ok, err, ◌>>=◌, after_bind, ok_path}
use nitip_cuy.Application.Evidence.{
  CreateEvidenceUploadIntentCommand, InspectEvidenceQuery, DeleteExpiredEvidenceCommand,
}
use nitip_cuy.Adapters.Evidence.{
  EvidenceContext, EvidenceRecord, ScanRecord, Lifecycle, to_record_key, record_for_query,
  record_for_owner, record_by_upload_reference, record_by_reference, record_by_quarantine_reference,
}
use nitip_cuy.Adapters.Evidence.Policy.{to_iso_instant}
use nitip_cuy.Adapters.Evidence.Inspection.{inspect_record, has_come}
use nitip_cuy.Adapters.Evidence.Intents.{create_intent, intent_expiry, new_intent, with_intent}
use nitip_cuy.Adapters.Evidence.Fixtures.{
  QuarantineUploadFixture, EvidenceScanFixture, upload_to_quarantine, check_upload, check_scan,
  record_scan_result, with_record,
}
use nitip_cuy.Adapters.Evidence.Acceptance.{
  Observed, accept_evidence, accept_record, accept_verified, require_verified, acceptance_times,
  new_acceptance, with_acceptance, query_key,
}
use nitip_cuy.Adapters.Evidence.Deletion.{delete_evidence, delete_record, with_deletion}

by_reference_lem :
    (missing : Failure) (references : TextMap Text) (records : TextMap EvidenceRecord)
    (reference : Text) (found : Text × EvidenceRecord)
    → record_by_reference missing references records reference ≡ ok found
    → (get reference references ≡ some found.0) × (get found.0 records ≡ some found.1)
by_reference_lem missing references records reference found h = ground arith

pub record_for_owner_found :
    (s : Lifecycle) (owner_account_id evidence_id : Text) (r : EvidenceRecord)
    → record_for_owner s owner_account_id evidence_id ≡ ok r
    → get (to_record_key owner_account_id evidence_id) s.records ≡ some r
unfolding record_for_owner
record_for_owner_found s owner_account_id evidence_id r h = ground arith

-- The record of a query is the one under its key, and has its quarantine reference.
pub record_for_query_found :
    (s : Lifecycle) (q : InspectEvidenceQuery) (r : EvidenceRecord)
    → record_for_query s q ≡ ok r
    → get (query_key q) s.records ≡ some r
unfolding record_for_query
record_for_query_found s q r h =
    ground (arith, record_for_owner_found s q.owner_account_id q.evidence_id r)

-- A scan that was recorded: the reference leads to the record, whose scan is replaced.
pub record IsScan (f : EvidenceScanFixture) (s : Lifecycle) (key : Text) (r : EvidenceRecord)
    (scan : ScanRecord) (after : Lifecycle) : Type 0 where
  pub referred : get f.quarantine_object_reference s.quarantine_references ≡ some key
  pub found : get key s.records ≡ some r
  pub result : after ≡ with_record s key (record r { scan = some scan })

pub scan_lem {ℓ} :
    {Goal : Type ℓ} (f : EvidenceScanFixture) (s after : Lifecycle)
    → record_scan_result f s ≡ ok after
    → ((key : Text) (r : EvidenceRecord) (scan : ScanRecord) → IsScan f s key r scan after → Goal)
    → Goal
unfolding record_scan_result record_by_quarantine_reference
scan_lem f s after h goal =
    after_bind (record_by_quarantine_reference s f.quarantine_object_reference) _ h
      λ found looked h'. after_bind (check_scan f found.1) _ h' λ scan passed h''.
        let (referred, kept) =
          by_reference_lem _ s.quarantine_references s.records f.quarantine_object_reference found
            looked in
        goal found.0 found.1 scan
          (record { referred = referred; found = kept; result = ok_path h'' })

module _ (c : EvidenceContext) where
  pub create_cases {ℓ} :
      (P : Lifecycle → Type ℓ) (i : CreateEvidenceUploadIntentCommand) (now : ℕ) (s : Lifecycle)
      → P s
      → P (record s { reference_sequence = s.reference_sequence + 1 })
      → ((expires_at : Text)
          → get (to_record_key i.owner_account_id i.evidence_id) s.records ≡ none
          → intent_expiry c now ≡ ok expires_at
          → P (
              with_intent c s i
                (new_intent c i (s.reference_sequence + 1) expires_at)
                (s.reference_sequence + 1)))
      → P (create_intent c i now s).1
  unfolding create_intent
  create_cases P i now s same failed entered =
      elim (Option-cases (get (to_record_key i.owner_account_id i.evidence_id) s.records)) [
        | inl e ↦ by_expiry e (intent_expiry c now) refl
        | inr (r, e) ↦ rw (e, create_intent) same
      ]
    where
      by_expiry :
          get (to_record_key i.owner_account_id i.evidence_id) s.records ≡ none
          → (expiry : Result Text) → intent_expiry c now ≡ expiry
          → P (create_intent c i now s).1
      by_expiry e (err error) e' = rw (e, create_intent, e') failed
      by_expiry e (ok expires_at) e' = rw (e, create_intent, e') (entered expires_at e e')

  -- An acceptance that was made: of a record in quarantine that was inspected and found verified.
  pub record IsAcceptance (q : InspectEvidenceQuery) (now : ℕ) (s : Lifecycle) (r : EvidenceRecord)
      (o : Observed) (times : Text × Text) : Type 0 where
    pub found : record_for_query s q ≡ ok r
    pub fresh : r.accepted ≡ none
    pub observed : inspect_record c s q now >>= require_verified r ≡ ok o
    pub timed : acceptance_times c now ≡ ok times

  pub accept_cases {ℓ} :
      (P : Lifecycle → Type ℓ) (q : InspectEvidenceQuery) (now : ℕ) (s : Lifecycle)
      → P s
      → P (record s { reference_sequence = s.reference_sequence + 1 })
      → ((r : EvidenceRecord) (o : Observed) (times : Text × Text)
          → IsAcceptance q now s r o times
          → P (
              with_acceptance s
                (query_key q)
                r
                (new_acceptance r o (s.reference_sequence + 1) times)
                o.content
                (s.reference_sequence + 1)))
      → P (accept_evidence c q now s).1
  unfolding accept_evidence accept_record accept_verified
  accept_cases P q now s same failed made = by_lookup (record_for_query s q) refl
    where
      by_times :
          (r : EvidenceRecord) (o : Observed) (times : Result (Text × Text))
          → acceptance_times c now ≡ times
          → record_for_query s q ≡ ok r
          → r.accepted ≡ none
          → inspect_record c s q now >>= require_verified r ≡ ok o
          → P (accept_verified c q r o now s).1
      by_times r o (err error) e found fresh observed = rw (e, accept_verified) failed
      by_times r o (ok times) e found fresh observed =
          rw (e, accept_verified)
            (made r o times
              (record { found = found; fresh = fresh; observed = observed; timed = e }))

      by_observation :
          (r : EvidenceRecord) (seen : Result Observed)
          → inspect_record c s q now >>= require_verified r ≡ seen
          → record_for_query s q ≡ ok r
          → r.accepted ≡ none
          → P (accept_record c q r now s).1
      by_observation r (err error) e found fresh = rw (accept_record, fresh, e) same
      by_observation r (ok o) e found fresh =
          rw (accept_record, fresh, e) (by_times r o (acceptance_times c now) refl found fresh e)

      by_acceptance :
          (r : EvidenceRecord) → record_for_query s q ≡ ok r → P (accept_record c q r now s).1
      by_acceptance r found = elim (Option-cases r.accepted) [
        | inl e ↦ by_observation r (inspect_record c s q now >>= require_verified r) refl found e
        | inr (a, e) ↦ rw (accept_record, e) same
      ]

      by_lookup :
          (looked : Result EvidenceRecord)
          → record_for_query s q ≡ looked
          → P (accept_evidence c q now s).1
      by_lookup (err error) e = rw (accept_evidence, e) same
      by_lookup (ok r) e = rw (accept_evidence, e) (by_acceptance r e)

  pub delete_cases {ℓ} :
      (P : Lifecycle → Type ℓ) (d : DeleteExpiredEvidenceCommand) (now : ℕ) (s : Lifecycle)
      → P s
      → ((r : EvidenceRecord) (at : Text)
          → get (to_record_key d.owner_account_id d.evidence_id) s.records ≡ some r
          → r.deleted_at ≡ none
          → to_iso_instant c.platform now ≡ ok at
          → P (
              with_deletion s
                (to_record_key d.owner_account_id d.evidence_id)
                r
                d.object_reference
                at))
      → P (delete_evidence c d now s).1
  unfolding delete_evidence delete_record
  delete_cases P d now s same made =
      elim (Option-cases (get (to_record_key d.owner_account_id d.evidence_id) s.records)) [
        | inl e ↦ rw (e, delete_evidence) same
        | inr (r, e) ↦ rw (e, delete_evidence) (by_mark r e)
      ]
    where
      by_time :
          (r : EvidenceRecord)
          → get (to_record_key d.owner_account_id d.evidence_id) s.records ≡ some r
          → r.deleted_at ≡ none
          → (time : Result Text) → to_iso_instant c.platform now ≡ time
          → P (delete_record c d r now s).1
      by_time r found e (err error) e' = rw (e, delete_record, e') same
      by_time r found e (ok at) e' = rw (e, delete_record, e') (made r at found e e')

      by_mark :
          (r : EvidenceRecord)
          → get (to_record_key d.owner_account_id d.evidence_id) s.records ≡ some r
          → P (delete_record c d r now s).1
      by_mark r found = elim (Option-cases r.deleted_at) [
        | inl e ↦ by_time r found e (to_iso_instant c.platform now) refl
        | inr (at, e) ↦ rw (delete_record, e) same
      ]

  check_upload_lem :
      (r : EvidenceRecord) (now : ℕ) {u : Unit {0}}
      → check_upload c r now ≡ ok u
      → (r.upload ≡ none)
        × (r.accepted ≡ none)
        × (r.deleted_at ≡ none)
        × (has_come c r.intent.expires_at now ≡ false)
  unfolding check_upload
  check_upload_lem r now h = ground arith

  -- An upload that was taken: the reference leads to a record with nothing in quarantine yet.
  pub record IsUpload (f : QuarantineUploadFixture) (now : ℕ) (s : Lifecycle) (key : Text)
      (r : EvidenceRecord) (after : Lifecycle) : Type 0 where
    pub referred : get f.upload_reference s.upload_references ≡ some key
    pub found : get key s.records ≡ some r
    pub no_upload : r.upload ≡ none
    pub not_accepted : r.accepted ≡ none
    pub not_deleted : r.deleted_at ≡ none
    pub in_time : has_come c r.intent.expires_at now ≡ false
    pub result : after ≡ with_record s key (record r { upload = some f.content })

  pub upload_lem {ℓ} :
      {Goal : Type ℓ} (f : QuarantineUploadFixture) (now : ℕ) (s after : Lifecycle)
      → upload_to_quarantine c f now s ≡ ok after
      → ((key : Text) (r : EvidenceRecord) → IsUpload f now s key r after → Goal)
      → Goal
  unfolding upload_to_quarantine record_by_upload_reference
  upload_lem f now s after h goal =
      after_bind (record_by_upload_reference s f.upload_reference) _ h λ found looked h'.
        after_bind (check_upload c found.1 now) _ h' λ done passed h''.
          let (referred, kept) =
            by_reference_lem _ s.upload_references s.records f.upload_reference found looked in
          let (no_upload, not_accepted, not_deleted, in_time) =
            check_upload_lem found.1 now passed in
          goal found.0 found.1 (record {
            referred = referred;
            found = kept;
            no_upload = no_upload;
            not_accepted = not_accepted;
            not_deleted = not_deleted;
            in_time = in_time;
            result = ok_path h'';
          })
