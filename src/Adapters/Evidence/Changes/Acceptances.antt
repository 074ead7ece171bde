-- ===== src/Adapters/Evidence/Changes/Acceptances.antt =====
-- Acceptance keeps the state consistent.
use nitip_cuy.Prelude.{ℕ, ◌+◌, ◌≡◌, ◌≢◌, refl, ◌∙◌, sym, ap, subst, none, some, List, arith}
use nitip_cuy.Text.{Text, text_eq_iff}
use nitip_cuy.Adapters.Evidence.Growth.{some_path}
use nitip_cuy.Map.{TextMap, get, put, get-put, get-put_self}
use nitip_cuy.Application.Evidence.{AcceptedEvidence, InspectEvidenceQuery}
use nitip_cuy.Adapters.Evidence.{EvidenceContext, EvidenceRecord, Lifecycle, numbered_reference}
use nitip_cuy.Adapters.Evidence.Acceptance.{
  Observed, accept_evidence, query_key, new_acceptance, with_acceptance,
}
use nitip_cuy.Adapters.Evidence.Steps.{accept_cases, IsAcceptance, record_for_query_found}
use nitip_cuy.Adapters.Evidence.Verified.{accepted_IsObserved}
use nitip_cuy.Adapters.Evidence.Objects.{
  IsEvidenceOf, IsAccepted, IsSound, IsConsistent, numbered-injective, object_prefix,
}
use nitip_cuy.Adapters.Evidence.Consistency.{
  IsSound-at, IsSound-later, later_IsConsistent, put_cases,
}

module _ (c : EvidenceContext) where
  -- A number that was not given out names no acceptance.
  fresh_reference :
      (m now : ℕ) (r : EvidenceRecord) (a : AcceptedEvidence)
      → IsAccepted c m now r a
      → numbered_reference object_prefix (m + 1) ≢ a.object_reference
  fresh_reference m now r a x e =
      let same : m + 1 ≡ x.number =
        numbered-injective object_prefix (m + 1) x.number (e ∙ x.numbered) in
      absurd (omega (arith, x.given_out, same))

  -- An object that is put under a new reference leaves the others.
  object_elsewhere :
      (reference other : Text) (content : List ℕ) (objects : TextMap (List ℕ))
      → reference ≢ other
      → get other (put reference content objects) ≡ get other objects
  object_elsewhere reference other content objects h =
      ground (arith, get-put other reference content objects, text_eq_iff reference other)

  module _ (q : InspectEvidenceQuery) (now : ℕ) (s : Lifecycle) (r : EvidenceRecord) (o : Observed)
      (times : Text × Text) (made : IsAcceptance c q now s r o times)
      (x : IsConsistent c s now) where
    abbrev made_acceptance : AcceptedEvidence
    made_acceptance = new_acceptance r o (s.reference_sequence + 1) times

    abbrev made_record : EvidenceRecord
    made_record = record r { accepted = some made_acceptance; upload = none }

    made_IsEvidenceOf : IsEvidenceOf c made_acceptance o.content
    made_IsEvidenceOf =
        let y = accepted_IsObserved c q now s r o made.found made.observed in
        let v = y.verified.verified_content in
        record {
          digest = y.digest;
          size = y.size;
          not_empty = rw (sym y.same_content) v.not_empty;
          not_too_large = rw (sym y.same_content) v.not_too_large;
          detected = rw (y.type, sym y.same_content) v.detected;
          allowed = rw y.type v.allowed;
        }

    made_IsSound :
        IsSound c
          (put made_acceptance.object_reference o.content s.accepted_objects)
          (s.reference_sequence + 1)
          now
          (query_key q)
          made_record
    made_IsSound = record {
      keyed = (x.sound (query_key q) r (record_for_query_found s q r made.found)).keyed;
      acceptances = λ a l.
          subst (IsAccepted c (s.reference_sequence + 1) now made_record) (some_path l) (record {
            same_evidence = refl;
            same_owner = refl;
            same_classification = refl;
            number = s.reference_sequence + 1;
            numbered = refl;
            given_out = omega arith;
            time = now;
            timed = made.timed;
            before = omega arith;
          });
      objects_kept = λ a l d.
          subst
            (λ b.
              (content : List ℕ) × (get b.object_reference
                  (put made_acceptance.object_reference o.content s.accepted_objects)
                ≡ some content)
              × IsEvidenceOf c b content)
            (some_path l)
            (
              o.content,
              get-put_self made_acceptance.object_reference o.content s.accepted_objects,
              made_IsEvidenceOf,
            );
      deletions = λ at l. absurd (
          ground (
            arith,
            l,
            (accepted_IsObserved c q now s r o made.found made.observed).verified.not_deleted,
          ));
    }

    -- The reference of an older acceptance is not the new one.
    older :
        (j : Text) (p : EvidenceRecord) (b : AcceptedEvidence)
        → get j s.records ≡ some p
        → p.accepted ≡ some b
        → made_acceptance.object_reference ≢ b.object_reference
    older j p b found l =
        fresh_reference s.reference_sequence now p b ((x.sound j p found).acceptances b l)

    made_one_owner :
        (i j : Text) (p p' : EvidenceRecord) (a b : AcceptedEvidence)
        → get i (put (query_key q) made_record s.records) ≡ some p
        → get j (put (query_key q) made_record s.records) ≡ some p'
        → p.accepted ≡ some a
        → p'.accepted ≡ some b
        → a.object_reference ≡ b.object_reference
        → i ≡ j
    made_one_owner i j p p' a b h h' l l' same =
        put_cases i (query_key q) made_record p s.records h
          (λ is_i new.
            put_cases j (query_key q) made_record p' s.records h' (λ is_j new'. sym is_i ∙ is_j)
              (λ is_other before. absurd (
                older j p' b before l' (
                  ap (λ a. a.object_reference) (some_path (ap (λ r. r.accepted) new ∙ l)) ∙ same))))
          (λ is_other before.
            put_cases j (query_key q) made_record p' s.records h'
              (λ is_j new. absurd (
                older i p a before l (
                  ap (λ a. a.object_reference) (some_path (ap (λ r. r.accepted) new ∙ l'))
                  ∙ sym same)))
              (λ is_other' before'. x.one_owner i j p p' a b before before' l l' same))

    made_IsConsistent :
        IsConsistent c
          (with_acceptance s (query_key q) r made_acceptance o.content (s.reference_sequence + 1))
          now
    made_IsConsistent = record {
      sound = λ j p h.
          put_cases j (query_key q) made_record p s.records h
            (IsSound-at c (put made_acceptance.object_reference o.content s.accepted_objects)
              (s.reference_sequence + 1) now made_IsSound)
            (λ is_other before.
              IsSound-later c s.accepted_objects
                (put made_acceptance.object_reference o.content s.accepted_objects)
                s.reference_sequence (s.reference_sequence + 1) now now j p p (omega arith)
                (omega arith) refl refl refl refl refl refl
                (λ b l.
                  object_elsewhere made_acceptance.object_reference b.object_reference o.content
                    s.accepted_objects (older j p b before l))
                (x.sound j p before));
      one_owner = made_one_owner;
    }

  pub accept_IsConsistent :
      (q : InspectEvidenceQuery) (now : ℕ) (s : Lifecycle)
      → IsConsistent c s now
      → IsConsistent c (accept_evidence c q now s).1 now
  accept_IsConsistent q now s x =
      accept_cases c (λ after. IsConsistent c after now) q now s x
        (later_IsConsistent c s (s.reference_sequence + 1) now now (omega arith) (omega arith) x)
        λ r o times made. made_IsConsistent q now s r o times made x
