-- ===== src/Adapters/Evidence/Growth.antt =====
-- What no call changes: a record keeps its identity and its intent, the bytes that were uploaded
-- until they are accepted, its acceptance and its deletion.
use nitip_cuy.Prelude.{
  ℕ, ◌≡◌, ◌⊎◌, inl, inr, refl, ◌∙◌, sym, ap, subst, none, some, List, arith, Bool-cases,
  Option-cases,
}
use nitip_cuy.Text.{Text, text_eq, text_eq_iff}
use nitip_cuy.Map.{TextMap, get, put, get-put}
use nitip_cuy.Failure.{ok}
use nitip_cuy.Application.Evidence.{
  AcceptedEvidence, CreateEvidenceUploadIntentCommand, InspectEvidenceQuery,
  DeleteExpiredEvidenceCommand,
}
use nitip_cuy.Adapters.Evidence.Fixtures.{
  QuarantineUploadFixture, EvidenceScanFixture, upload_to_quarantine, record_scan_result,
}
use nitip_cuy.Adapters.Evidence.{EvidenceContext, EvidenceRecord, Lifecycle, to_record_key}
use nitip_cuy.Adapters.Evidence.Intents.{create_intent}
use nitip_cuy.Adapters.Evidence.Acceptance.{accept_evidence, query_key}
use nitip_cuy.Adapters.Evidence.Deletion.{delete_evidence}
use nitip_cuy.Adapters.Evidence.Steps.{
  create_cases, accept_cases, delete_cases, upload_lem, scan_lem, record_for_query_found,
}
use nitip_cuy.Adapters.Evidence.Histories.{
  History, start, wait, creates, uploads, scans, accepts, deletes,
}

-- The record `r'` is `r` at a later time.
pub record Keeps (r r' : EvidenceRecord) : Type 0 where
  pub same_evidence : r'.evidence_id ≡ r.evidence_id
  pub same_owner : r'.owner_account_id ≡ r.owner_account_id
  pub same_classification : r'.classification ≡ r.classification
  pub same_intent : r'.intent ≡ r.intent
  pub same_acceptance : (a : AcceptedEvidence) → r.accepted ≡ some a → r'.accepted ≡ some a
  pub same_deletion :
      (at : Text)
      → r.deleted_at ≡ some at
      → (r'.deleted_at ≡ some at) × (r'.deleted_object_reference ≡ r.deleted_object_reference)
  -- Bytes in quarantine stay, or are gone for good with the acceptance.
  pub same_upload :
      (content : List ℕ)
      → r.upload ≡ some content
      → (r'.upload ≡ some content)
        ⊎ ((r'.upload ≡ none) × ((a : AcceptedEvidence) × (r'.accepted ≡ some a)))
  pub no_second_upload :
      (a : AcceptedEvidence) → r.accepted ≡ some a → r.upload ≡ none → r'.upload ≡ none

Keeps-refl : (r : EvidenceRecord) → Keeps r r
Keeps-refl r = record {
  same_evidence = refl;
  same_owner = refl;
  same_classification = refl;
  same_intent = refl;
  same_acceptance = λ a h. h;
  same_deletion = λ at h. (h, refl);
  same_upload = λ content h. inl h;
  no_second_upload = λ a h k. k;
}

Keeps-trans : (q r s : EvidenceRecord) → Keeps q r → Keeps r s → Keeps q s
Keeps-trans q r s k l = record {
  same_evidence = l.same_evidence ∙ k.same_evidence;
  same_owner = l.same_owner ∙ k.same_owner;
  same_classification = l.same_classification ∙ k.same_classification;
  same_intent = l.same_intent ∙ k.same_intent;
  same_acceptance = λ a h. l.same_acceptance a (k.same_acceptance a h);
  same_deletion = λ at h.
      let (e, f) = k.same_deletion at h in let (e', f') = l.same_deletion at e in (e', f' ∙ f);
  same_upload = λ content h. elim (k.same_upload content h) [
    | inl e ↦ l.same_upload content e
    | inr (e, (a, e')) ↦ inr (l.no_second_upload a e' e, (a, l.same_acceptance a e'))
  ];
  no_second_upload =
      λ a h e. l.no_second_upload a (k.same_acceptance a h) (k.no_second_upload a h e);
}

-- Every record of the first state is there in the second, at a later time.
abbrev pub Grows : TextMap EvidenceRecord → TextMap EvidenceRecord → Type 0
Grows m m' =
    (key : Text) (r : EvidenceRecord)
    → get key m ≡ some r
    → (r' : EvidenceRecord) × (get key m' ≡ some r') × Keeps r r'

Grows-refl : (m : TextMap EvidenceRecord) → Grows m m
Grows-refl m key r h = (r, h, Keeps-refl r)

Grows-trans : (l m n : TextMap EvidenceRecord) → Grows l m → Grows m n → Grows l n
Grows-trans l m n g h key r e =
    let (r', e', k) = g key r e in
    let (r'', e'', k') = h key r' e' in (r'', e'', Keeps-trans r r' r'' k k')

pub some_path : {A : Type 0} {a b : A} → some a ≡ some b → a ≡ b
some_path h = cc

-- A record is replaced by itself at a later time.
put-Grows :
    (key : Text) (r r' : EvidenceRecord) (m : TextMap EvidenceRecord)
    → get key m ≡ some r
    → Keeps r r'
    → Grows m (put key r' m)
put-Grows key r r' m h k j q e = elim (Bool-cases (text_eq key j)) [
  | inl same ↦
      let is_key : key ≡ j = (text_eq_iff key j).0 same in
      let is_record : r ≡ q = some_path (sym h ∙ ap (λ x. get x m) is_key ∙ e) in
      (r', get-put j key r' m ∙ rw same refl, subst (λ x. Keeps x r') is_record k)
  | inr other ↦ (q, get-put j key r' m ∙ rw other e, Keeps-refl q)
]

-- A record is entered under a new key.
enter-Grows :
    (key : Text) (r : EvidenceRecord) (m : TextMap EvidenceRecord)
    → get key m ≡ none
    → Grows m (put key r m)
enter-Grows key r m h j q e =
    (q, ground (arith, get-put j key r m, text_eq_iff key j), Keeps-refl q)

module _ (c : EvidenceContext) where
  create-Grows :
      (i : CreateEvidenceUploadIntentCommand) (now : ℕ) (s : Lifecycle)
      → Grows s.records (create_intent c i now s).1.records
  create-Grows i now s =
      create_cases c (λ after. Grows s.records after.records) i now s (Grows-refl s.records)
        (Grows-refl s.records)
        λ expires_at absent timed.
          enter-Grows (to_record_key i.owner_account_id i.evidence_id) _ s.records absent

  accept-Grows :
      (q : InspectEvidenceQuery) (now : ℕ) (s : Lifecycle)
      → Grows s.records (accept_evidence c q now s).1.records
  accept-Grows q now s =
      accept_cases c (λ after. Grows s.records after.records) q now s (Grows-refl s.records)
        (Grows-refl s.records)
        λ r o times made.
          put-Grows (query_key q) r _ s.records (record_for_query_found s q r made.found) (record {
            same_evidence = refl;
            same_owner = refl;
            same_classification = refl;
            same_intent = refl;
            same_acceptance = λ a h. ground (arith, h, made.fresh);
            same_deletion = λ at h. (h, refl);
            same_upload = λ content h. inr (refl, (_, refl));
            no_second_upload = λ a h e. refl;
          })

  delete-Grows :
      (d : DeleteExpiredEvidenceCommand) (now : ℕ) (s : Lifecycle)
      → Grows s.records (delete_evidence c d now s).1.records
  delete-Grows d now s =
      delete_cases c (λ after. Grows s.records after.records) d now s (Grows-refl s.records)
        λ r at found alive timed.
          put-Grows (to_record_key d.owner_account_id d.evidence_id) r _ s.records found (record {
            same_evidence = refl;
            same_owner = refl;
            same_classification = refl;
            same_intent = refl;
            same_acceptance = λ a h. h;
            same_deletion = λ at h. ground (arith, h, alive);
            same_upload = λ content h. inl h;
            no_second_upload = λ a h e. e;
          })

  upload-Grows :
      (f : QuarantineUploadFixture) (now : ℕ) (s after : Lifecycle)
      → upload_to_quarantine c f now s ≡ ok after
      → Grows s.records after.records
  upload-Grows f now s after h = upload_lem c f now s after h λ key r made.
      subst (λ x. Grows s.records x.records) (sym made.result)
        (put-Grows key r _ s.records made.found (record {
          same_evidence = refl;
          same_owner = refl;
          same_classification = refl;
          same_intent = refl;
          same_acceptance = λ a h. h;
          same_deletion = λ at h. (h, refl);
          same_upload = λ content h. ground (arith, h, made.no_upload);
          no_second_upload = λ a h e. ground (arith, h, made.not_accepted);
        }))

  scan-Grows :
      (f : EvidenceScanFixture) (s after : Lifecycle)
      → record_scan_result f s ≡ ok after
      → Grows s.records after.records
  scan-Grows f s after h = scan_lem f s after h λ key r scan made.
      subst (λ x. Grows s.records x.records) (sym made.result)
        (put-Grows key r _ s.records made.found (record {
          same_evidence = refl;
          same_owner = refl;
          same_classification = refl;
          same_intent = refl;
          same_acceptance = λ a h. h;
          same_deletion = λ at h. (h, refl);
          same_upload = λ content h. inl h;
          no_second_upload = λ a h e. e;
        }))

  -- The records of a state, after any calls.
  pub records_grow : (r s : Lifecycle) (t u : ℕ) → History c r t s u → Grows r.records s.records
  records_grow r s t u (start _ _) = Grows-refl r.records
  records_grow r s t u (wait v h later) = records_grow r s _ _ h
  records_grow r s t u (creates i h checked k) =
      Grows-trans _ _ _ (records_grow _ _ _ _ h)
        (Grows-trans _ _ _ (records_grow _ _ _ _ k) (create-Grows i _ _))
  records_grow r s t u (uploads f after h made) =
      Grows-trans _ _ _ (records_grow _ _ _ _ h) (upload-Grows f _ _ after made)
  records_grow r s t u (scans f after h made) =
      Grows-trans _ _ _ (records_grow _ _ _ _ h) (scan-Grows f _ after made)
  records_grow r s t u (accepts i h checked k) =
      Grows-trans _ _ _ (records_grow _ _ _ _ h)
        (Grows-trans _ _ _ (records_grow _ _ _ _ k) (accept-Grows i _ _))
  records_grow r s t u (deletes d h checked k) =
      Grows-trans _ _ _ (records_grow _ _ _ _ h)
        (Grows-trans _ _ _ (records_grow _ _ _ _ k) (delete-Grows d _ _))

-- What a record is later: with the same identity, classification and intent, its acceptance and its
-- deletion as they were if it had one, and the bytes in quarantine as they were if there were any,
-- unless they were moved out by the acceptance.
pub record IsContinued (r r' : EvidenceRecord) : Type 0 where
  pub same_evidence : r'.evidence_id ≡ r.evidence_id
  pub same_owner : r'.owner_account_id ≡ r.owner_account_id
  pub same_classification : r'.classification ≡ r.classification
  pub same_intent : r'.intent ≡ r.intent
  pub acceptance : (r.accepted ≡ none) ⊎ (r'.accepted ≡ r.accepted)
  pub deletion :
      (r.deleted_at ≡ none)
      ⊎ ((r'.deleted_at ≡ r.deleted_at)
          × (r'.deleted_object_reference ≡ r.deleted_object_reference))
  pub quarantine :
      (r.upload ≡ none)
      ⊎ ((r'.upload ≡ r.upload)
          ⊎ ((r'.upload ≡ none) × ((a : AcceptedEvidence) × (r'.accepted ≡ some a))))

Keeps-IsContinued : (r r' : EvidenceRecord) → Keeps r r' → IsContinued r r'
Keeps-IsContinued r r' k = record {
  same_evidence = k.same_evidence;
  same_owner = k.same_owner;
  same_classification = k.same_classification;
  same_intent = k.same_intent;
  acceptance = elim (Option-cases r.accepted) [
    | inl e ↦ inl e
    | inr (a, e) ↦ inr (k.same_acceptance a e ∙ sym e)
  ];
  deletion = elim (Option-cases r.deleted_at) [
    | inl e ↦ inl e
    | inr (at, e) ↦ let (same, same') = k.same_deletion at e in inr (same ∙ sym e, same')
  ];
  quarantine = elim (Option-cases r.upload) [
    | inl e ↦ inl e
    | inr (content, e) ↦ elim (k.same_upload content e) [
      | inl same ↦ inr (inl (same ∙ sym e))
      | inr moved ↦ inr (inr moved)
    ]
  ];
}

-- Whatever calls are made, in any order and with any delay between the checks of a call and its
-- work, on a lifecycle in any state: a record is there afterwards with the same identity,
-- classification and intent, its acceptance and its deletion unchanged if it had one, and the same
-- bytes in quarantine if it had any, unless they were moved out by the acceptance.
pub record-IsContinued :
    (c : EvidenceContext) (s s' : Lifecycle) (t t' : ℕ) (key : Text) (r : EvidenceRecord)
    → History c s t s' t'
    → get key s.records ≡ some r
    → (r' : EvidenceRecord) × (get key s'.records ≡ some r') × IsContinued r r'
record-IsContinued c s s' t t' key r h found =
    let (r', found', k) = records_grow c s s' t t' h key r found in
    (r', found', Keeps-IsContinued r r' k)
