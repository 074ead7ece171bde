-- ===== src/Adapters/Evidence/Changes.antt =====
-- What enters or replaces a record keeps the state consistent.
pub mod Acceptances
pub mod Deletions
use nitip_cuy.Prelude.{
  ℕ, ◌+◌, ◌≤◌, ◌≡◌, ◌≢◌, refl, ◌∙◌, sym, ap, subst, Bool, true, false, Option, none, some, List,
  arith, length, if◌then◌else◌, inl, inr, Bool-cases,
}
use nitip_cuy.Text.{Text, lit, text_eq, text_eq_iff, text_eq_refl}
use nitip_cuy.Adapters.Evidence.Growth.{some_path}
use nitip_cuy.Map.{TextMap, get, put, delete, get-put, get-put_self, get-delete}
use nitip_cuy.Failure.{ok}
use nitip_cuy.Application.Evidence.{
  AcceptedEvidence, CreateEvidenceUploadIntentCommand, InspectEvidenceQuery,
  DeleteExpiredEvidenceCommand,
}
use nitip_cuy.Adapters.Evidence.{
  EvidenceContext, EvidenceRecord, Lifecycle, to_record_key, numbered_reference,
}
use nitip_cuy.Adapters.Evidence.Intents.{create_intent, new_record, new_intent}
use nitip_cuy.Adapters.Evidence.Fixtures.{with_record}
use nitip_cuy.Adapters.Evidence.Acceptance.{
  Observed, accept_evidence, query_key, new_acceptance, with_acceptance,
}
use nitip_cuy.Adapters.Evidence.Deletion.{is_to_come, delete_evidence, with_deletion}
use nitip_cuy.Adapters.Evidence.Steps.{
  create_cases, accept_cases, delete_cases, IsAcceptance, record_for_query_found,
}
use nitip_cuy.Adapters.Evidence.Verified.{IsObserved, accepted_IsObserved}
use nitip_cuy.Adapters.Evidence.Objects.{
  IsEvidenceOf, IsAccepted, IsDeleted, IsSound, IsConsistentState, IsConsistent, numbered-injective,
  object_prefix,
}
use nitip_cuy.Adapters.Evidence.Consistency.{
  IsSound-at, IsSound-later, later_IsConsistent, IsAccepted-later, IsDeleted-later, put_cases,
}

module _ (c : EvidenceContext) where
  -- A record is replaced by one with the same acceptance: an object is of one record still.
  pub replaced_one_owner :
      (s : Lifecycle) (now : ℕ) (key : Text) (q r : EvidenceRecord)
      → get key s.records ≡ some q
      → r.accepted ≡ q.accepted
      → IsConsistent c s now
      → (i j : Text) (p p' : EvidenceRecord) (a b : AcceptedEvidence)
      → get i (put key r s.records) ≡ some p
      → get j (put key r s.records) ≡ some p'
      → p.accepted ≡ some a
      → p'.accepted ≡ some b
      → a.object_reference ≡ b.object_reference
      → i ≡ j
  replaced_one_owner s now key q r found accepted x i j p p' a b h h' l l' same =
      let (p0, before, kept) = was i p h in
      let (p0', before', kept') = was j p' h' in
      x.one_owner i j p0 p0' a b before before' (kept ∙ l) (kept' ∙ l') same
    where
      was :
          (j : Text) (p : EvidenceRecord)
          → get j (put key r s.records) ≡ some p
          → (p0 : EvidenceRecord) × (get j s.records ≡ some p0) × (p0.accepted ≡ p.accepted)
      was j p h =
          put_cases j key r p s.records h
            (λ is_key is_record. (
              q,
              subst (λ k. get k s.records ≡ some q) is_key found,
              sym accepted ∙ ap (λ x. x.accepted) is_record,
            ))
            (λ is_other before. (p, before, refl))

  -- A record is replaced by one with the same identity, acceptance and deletion.
  pub replaced_IsConsistent :
      (s : Lifecycle) (now : ℕ) (key : Text) (q r : EvidenceRecord)
      → get key s.records ≡ some q
      → r.evidence_id ≡ q.evidence_id
      → r.owner_account_id ≡ q.owner_account_id
      → r.classification ≡ q.classification
      → r.accepted ≡ q.accepted
      → r.deleted_at ≡ q.deleted_at
      → r.deleted_object_reference ≡ q.deleted_object_reference
      → IsConsistent c s now
      → IsConsistent c (with_record s key r) now
  replaced_IsConsistent s now key q r found e f g accepted deleted referred x = record {
    sound = λ j p h.
        put_cases j key r p s.records h
          (IsSound-at c s.accepted_objects s.reference_sequence now (
            IsSound-later c s.accepted_objects s.accepted_objects s.reference_sequence
              s.reference_sequence now now key q r (omega arith) (omega arith) e f g accepted
              deleted referred (λ a l. refl) (x.sound key q found)))
          (λ is_other before. x.sound j p before);
    one_owner = λ i j p p' a b h h' l l' same.
        replaced_one_owner s now key q r found accepted x i j p p' a b h h' l l' same;
  }

  -- A record without an acceptance is entered.
  entered_IsConsistent :
      (s : Lifecycle) (now : ℕ) (key : Text) (r : EvidenceRecord)
      → key ≡ to_record_key r.owner_account_id r.evidence_id
      → r.accepted ≡ none
      → r.deleted_at ≡ none
      → IsConsistent c s now
      → IsConsistent c (with_record s key r) now
  entered_IsConsistent s now key r keyed fresh alive x = record {
    sound = λ j p h.
        put_cases j key r p s.records h
          (λ is_key is_record. record {
            keyed = sym is_key ∙ keyed ∙ rw is_record refl;
            acceptances = λ a l. absurd (ground (arith, ap (λ x. x.accepted) is_record));
            objects_kept = λ a l d. absurd (ground (arith, ap (λ x. x.accepted) is_record));
            deletions = λ at l. absurd (ground (arith, ap (λ x. x.deleted_at) is_record));
          })
          (λ is_other before. x.sound j p before);
    one_owner = λ i j p p' a b h h' l l' same.
        x.one_owner i j p p' a b (was i p a h l) (was j p' b h' l') l l' same;
  }
    where
      was :
          (j : Text) (p : EvidenceRecord) (a : AcceptedEvidence)
          → get j (put key r s.records) ≡ some p
          → p.accepted ≡ some a
          → get j s.records ≡ some p
      was j p a h l =
          put_cases j key r p s.records h
            (λ is_key is_record. absurd (ground (arith, ap (λ x. x.accepted) is_record)))
            (λ is_other before. before)

  pub create_IsConsistent :
      (i : CreateEvidenceUploadIntentCommand) (now : ℕ) (s : Lifecycle)
      → IsConsistent c s now
      → IsConsistent c (create_intent c i now s).1 now
  create_IsConsistent i now s x =
      create_cases c (λ after. IsConsistent c after now) i now s x
        (later_IsConsistent c s (s.reference_sequence + 1) now now (omega arith) (omega arith) x)
        λ expires_at absent timed.
          later_IsConsistent c
            (with_record s (to_record_key i.owner_account_id i.evidence_id)
              (new_record c i (new_intent c i (s.reference_sequence + 1) expires_at)))
            (s.reference_sequence + 1) now now (omega arith) (omega arith)
            (entered_IsConsistent s now (to_record_key i.owner_account_id i.evidence_id) _ refl refl
              refl x)
