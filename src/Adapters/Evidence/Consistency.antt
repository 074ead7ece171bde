-- ===== src/Adapters/Evidence/Consistency.antt =====
-- Every call keeps the state consistent.
use nitip_cuy.Prelude.{
  ℕ, ◌≤◌, ◌≡◌, ◌≢◌, refl, ◌∙◌, sym, subst, false, none, some, List, arith, inl, inr, Bool-cases,
}
use nitip_cuy.Text.{Text, text_eq, text_eq_iff}
use nitip_cuy.Map.{TextMap, get, put, get-put}
use nitip_cuy.Application.Evidence.{AcceptedEvidence}
use nitip_cuy.Adapters.Evidence.{EvidenceContext, EvidenceRecord, Lifecycle}
use nitip_cuy.Adapters.Evidence.Deletion.{is_to_come}
use nitip_cuy.Adapters.Evidence.Objects.{IsAccepted, IsDeleted, IsSound, IsConsistent}

module _ (c : EvidenceContext) where
  -- What is over stays over.
  pub over_later :
      (text : Text) (now later : ℕ)
      → now ≤ later
      → is_to_come c text now ≡ false
      → is_to_come c text later ≡ false
  unfolding is_to_come
  over_later text now later h k = ground arith

  -- Later, and with more numbers given out, an acceptance is one still.
  pub IsAccepted-later :
      (m n now later : ℕ) (q r : EvidenceRecord) (a : AcceptedEvidence)
      → m ≤ n
      → now ≤ later
      → r.evidence_id ≡ q.evidence_id
      → r.owner_account_id ≡ q.owner_account_id
      → r.classification ≡ q.classification
      → IsAccepted c m now q a
      → IsAccepted c n later r a
  IsAccepted-later m n now later q r a h k e f g x = record {
    same_evidence = x.same_evidence ∙ sym e;
    same_owner = x.same_owner ∙ sym f;
    same_classification = x.same_classification ∙ sym g;
    number = x.number;
    numbered = x.numbered;
    given_out = omega (arith, h, x.given_out);
    time = x.time;
    timed = x.timed;
    before = omega (arith, k, x.before);
  }

  pub IsDeleted-later :
      (objects objects' : TextMap (List ℕ)) (now later : ℕ) (q r : EvidenceRecord)
      → now ≤ later
      → r.accepted ≡ q.accepted
      → r.deleted_object_reference ≡ q.deleted_object_reference
      → ((a : AcceptedEvidence)
          → q.accepted ≡ some a
          → get a.object_reference objects ≡ none
          → get a.object_reference objects' ≡ none)
      → IsDeleted c objects now q
      → IsDeleted c objects' later r
  IsDeleted-later objects objects' now later q r h e f keeps x = record {
    acceptance = x.acceptance;
    accepted = e ∙ x.accepted;
    referred = f ∙ x.referred;
    dropped = keeps x.acceptance x.accepted x.dropped;
    expired = over_later x.acceptance.retention_expires_at now later h x.expired;
  }

  -- A record stays sound when its acceptance and deletion are kept, and what its reference holds is.
  pub IsSound-later :
      (objects objects' : TextMap (List ℕ)) (m n now later : ℕ) (key : Text) (q r : EvidenceRecord)
      → m ≤ n
      → now ≤ later
      → r.evidence_id ≡ q.evidence_id
      → r.owner_account_id ≡ q.owner_account_id
      → r.classification ≡ q.classification
      → r.accepted ≡ q.accepted
      → r.deleted_at ≡ q.deleted_at
      → r.deleted_object_reference ≡ q.deleted_object_reference
      → ((a : AcceptedEvidence)
          → q.accepted ≡ some a
          → get a.object_reference objects' ≡ get a.object_reference objects)
      → IsSound c objects m now key q
      → IsSound c objects' n later key r
  IsSound-later objects objects' m n now later key q r h k e f g accepted deleted referred keeps x =
      record {
        keyed = rw (f, e) x.keyed;
        acceptances = λ a l.
            IsAccepted-later m n now later q r a h k e f g (x.acceptances a (sym accepted ∙ l));
        objects_kept = λ a l d.
            let (content, stored, facts) = x.objects_kept a (sym accepted ∙ l) (sym deleted ∙ d) in
            (content, keeps a (sym accepted ∙ l) ∙ stored, facts);
        deletions = λ at l.
            IsDeleted-later objects objects' now later q r k accepted referred
              (λ a l' gone. keeps a l' ∙ gone) (x.deletions at (sym deleted ∙ l));
      }

  -- The same state later, and with more numbers given out.
  pub later_IsConsistent :
      (s : Lifecycle) (n now later : ℕ)
      → s.reference_sequence ≤ n
      → now ≤ later
      → IsConsistent c s now
      → IsConsistent c (record s { reference_sequence = n }) later
  later_IsConsistent s n now later h k x = record {
    sound = λ key r found.
        IsSound-later s.accepted_objects s.accepted_objects s.reference_sequence n now later key r r
          h k refl refl refl refl refl refl (λ a l. refl) (x.sound key r found);
    one_owner = x.one_owner;
  }

-- A sound record, under another name.
pub IsSound-at :
    (c : EvidenceContext) (objects : TextMap (List ℕ)) (n now : ℕ) {key j : Text}
    {r p : EvidenceRecord}
    → IsSound c objects n now key r
    → key ≡ j
    → r ≡ p
    → IsSound c objects n now j p
IsSound-at c objects n now {r = r} x same_key same_record =
    subst (IsSound c objects n now _) same_record
      (subst (λ k. IsSound c objects n now k r) same_key x)

-- What a map holds after an entry was put: the new entry, or what it held before.
pub put_cases {ℓ} :
    {Goal : Type ℓ} (j key : Text) (r q : EvidenceRecord) (m : TextMap EvidenceRecord)
    → get j (put key r m) ≡ some q
    → (key ≡ j → r ≡ q → Goal)
    → (key ≢ j → get j m ≡ some q → Goal)
    → Goal
put_cases j key r q m h new old = elim (Bool-cases (text_eq key j)) [
  | inl same ↦ new ((text_eq_iff key j).0 same) (ground (arith, get-put j key r m))
  | inr other ↦
      old (λ e. ground (arith, (text_eq_iff key j).1 e)) (ground (arith, get-put j key r m))
]
