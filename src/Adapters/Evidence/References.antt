-- ===== src/Adapters/Evidence/References.antt =====
-- The references that were handed out: each leads to its own record.
use nitip_cuy.Prelude.{ℕ, ◌+◌, ◌≤◌, ◌≡◌, ◌≢◌, refl, ◌∙◌, sym, ap, subst, some, arith}
use nitip_cuy.Text.{Text, lit, text_eq_iff}
use nitip_cuy.Map.{TextMap, get, put, get-put, get-put_self}
use nitip_cuy.Failure.{ok}
use nitip_cuy.Application.Evidence.{CreateEvidenceUploadIntentCommand, EvidenceUploadIntent}
use nitip_cuy.Adapters.Evidence.{
  EvidenceContext, EvidenceRecord, Lifecycle, new_lifecycle, to_record_key, numbered_reference,
  record_by_upload_reference, record_by_quarantine_reference,
}
use nitip_cuy.Adapters.Evidence.Intents.{new_record, new_intent, with_intent}
use nitip_cuy.Adapters.Evidence.Acceptance.{query_key}
use nitip_cuy.Adapters.Evidence.Steps.{
  create_cases, accept_cases, delete_cases, upload_lem, scan_lem, record_for_query_found,
}
use nitip_cuy.Adapters.Evidence.Histories.{
  History, start, wait, creates, uploads, scans, accepts, deletes,
}
use nitip_cuy.Adapters.Evidence.Objects.{numbered-injective}
use nitip_cuy.Adapters.Evidence.Consistency.{put_cases}

-- The record's references were handed out under one number, and lead to its key.
pub record IsReferred (upload_map quarantine_map : TextMap Text) (sequence : ℕ) (key : Text)
    (r : EvidenceRecord) : Type 0 where
  pub number : ℕ
  pub given_out : number ≤ sequence
  pub upload_numbered : r.intent.upload_reference ≡ numbered_reference (lit "mock-upload-") number
  pub quarantine_numbered :
      r.intent.quarantine_object_reference ≡ numbered_reference (lit "mock-quarantine-") number
  pub upload_leads : get r.intent.upload_reference upload_map ≡ some key
  pub quarantine_leads : get r.intent.quarantine_object_reference quarantine_map ≡ some key

abbrev pub AllReferred : TextMap EvidenceRecord → TextMap Text → TextMap Text → ℕ → Type 0
AllReferred records upload_map quarantine_map sequence =
    (key : Text) (r : EvidenceRecord)
    → get key records ≡ some r
    → IsReferred upload_map quarantine_map sequence key r

abbrev pub StateReferred : Lifecycle → Type 0
StateReferred s =
    AllReferred s.records s.upload_references s.quarantine_references s.reference_sequence

more_numbers :
    (upload_map quarantine_map : TextMap Text) (m n : ℕ) (key : Text) (q r : EvidenceRecord)
    → m ≤ n
    → r.intent ≡ q.intent
    → IsReferred upload_map quarantine_map m key q
    → IsReferred upload_map quarantine_map n key r
more_numbers upload_map quarantine_map m n key q r h e x = record {
  number = x.number;
  given_out = omega (arith, h, x.given_out);
  upload_numbered = rw e x.upload_numbered;
  quarantine_numbered = rw e x.quarantine_numbered;
  upload_leads = rw e x.upload_leads;
  quarantine_leads = rw e x.quarantine_leads;
}

-- A record is replaced by one with the same intent.
replaced_referred :
    (s : Lifecycle) (n : ℕ) (key : Text) (q r : EvidenceRecord)
    → s.reference_sequence ≤ n
    → get key s.records ≡ some q
    → r.intent ≡ q.intent
    → StateReferred s
    → AllReferred (put key r s.records) s.upload_references s.quarantine_references n
replaced_referred s n key q r h found e x j p found' =
    put_cases j key r p s.records found'
      (λ is_key is_record.
        subst (λ k. IsReferred s.upload_references s.quarantine_references n k p) is_key
          (more_numbers s.upload_references s.quarantine_references s.reference_sequence n key q p h
            (sym (ap (λ x. x.intent) is_record) ∙ e) (x key q found)))
      (λ is_other before.
        more_numbers s.upload_references s.quarantine_references s.reference_sequence n j p p h refl
          (x j p before))

-- More numbers are given out.
more_records :
    (s : Lifecycle)
    → StateReferred s
    → StateReferred (record s { reference_sequence = s.reference_sequence + 1 })
more_records s x key r found =
    more_numbers s.upload_references s.quarantine_references s.reference_sequence
      (s.reference_sequence + 1) key r r (omega arith) refl (x key r found)

-- A new reference leaves the others.
put_elsewhere :
    (reference other key : Text) (references : TextMap Text)
    → reference ≢ other
    → get other (put reference key references) ≡ get other references
put_elsewhere reference other key references h =
    ground (arith, get-put other reference key references, text_eq_iff reference other)

module _ (c : EvidenceContext) where
  -- A record is entered under a new number.
  entered_referred :
      (s : Lifecycle) (i : CreateEvidenceUploadIntentCommand) (expires_at : Text)
      → StateReferred s
      → StateReferred (
          with_intent c s i
            (new_intent c i (s.reference_sequence + 1) expires_at)
            (s.reference_sequence + 1))
  entered_referred s i expires_at x j p found =
      put_cases j key (new_record c i intent) p s.records found
        (λ is_key is_record.
          subst (λ k. IsReferred upload_map quarantine_map n k p) is_key
            (subst (IsReferred upload_map quarantine_map n key) is_record new_referred))
        (λ is_other before. old_referred j p (x j p before))
    where
      n : ℕ
      n = s.reference_sequence + 1

      key : Text
      key = to_record_key i.owner_account_id i.evidence_id

      intent : EvidenceUploadIntent
      intent = new_intent c i n expires_at

      upload_map : TextMap Text
      upload_map = put intent.upload_reference key s.upload_references

      quarantine_map : TextMap Text
      quarantine_map = put intent.quarantine_object_reference key s.quarantine_references

      new_referred : IsReferred upload_map quarantine_map n key (new_record c i intent)
      new_referred = record {
        number = n;
        given_out = omega arith;
        upload_numbered = refl;
        quarantine_numbered = refl;
        upload_leads = get-put_self intent.upload_reference key s.upload_references;
        quarantine_leads =
            get-put_self intent.quarantine_object_reference key s.quarantine_references;
      }

      old_referred :
          (j : Text) (p : EvidenceRecord)
          → IsReferred s.upload_references s.quarantine_references s.reference_sequence j p
          → IsReferred upload_map quarantine_map n j p
      old_referred j p y = record {
        number = y.number;
        given_out = omega (arith, y.given_out);
        upload_numbered = y.upload_numbered;
        quarantine_numbered = y.quarantine_numbered;
        upload_leads =
            put_elsewhere intent.upload_reference p.intent.upload_reference key s.upload_references
              (λ e. absurd (
                omega (
                  arith,
                  y.given_out,
                  numbered-injective (lit "mock-upload-") n y.number (e ∙ y.upload_numbered),
                )))
            ∙ y.upload_leads;
        quarantine_leads =
            put_elsewhere intent.quarantine_object_reference p.intent.quarantine_object_reference
              key s.quarantine_references
              (λ e. absurd (
                omega (
                  arith,
                  y.given_out,
                  numbered-injective (lit "mock-quarantine-") n y.number
                      (e ∙ y.quarantine_numbered),
                )))
            ∙ y.quarantine_leads;
      }

  History-referred :
      (r s : Lifecycle) (t u : ℕ) → History c r t s u → StateReferred r → StateReferred s
  History-referred r s t u (start _ _) x = x
  History-referred r s t u (wait v h later) x = History-referred _ _ _ _ h x
  History-referred r s t u (creates {s = q} i h checked k) x =
      let y = History-referred _ _ _ _ k (History-referred _ _ _ _ h x) in
      create_cases c StateReferred i u q y (more_records q y)
        λ expires_at absent timed. entered_referred q i expires_at y
  History-referred r s t u (uploads {s = q} f after h made) x =
      upload_lem c f u q after made λ key p is. subst StateReferred (sym is.result) (
        replaced_referred q q.reference_sequence key p _ (omega arith) is.found refl
          (History-referred _ _ _ _ h x))
  History-referred r s t u (scans {s = q} f after h made) x =
      scan_lem f q after made λ key p scan is. subst StateReferred (sym is.result) (
        replaced_referred q q.reference_sequence key p _ (omega arith) is.found refl
          (History-referred _ _ _ _ h x))
  History-referred r s t u (accepts {s = q} i h checked k) x =
      let y = History-referred _ _ _ _ k (History-referred _ _ _ _ h x) in
      accept_cases c StateReferred i u q y (more_records q y) λ p o times made.
        replaced_referred q (q.reference_sequence + 1) (query_key i) p _ (omega arith)
          (record_for_query_found q i p made.found) refl y
  History-referred r s t u (deletes {s = q} d h checked k) x =
      let y = History-referred _ _ _ _ k (History-referred _ _ _ _ h x) in
      delete_cases c StateReferred d u q y λ p at found alive timed.
        replaced_referred q q.reference_sequence _ p _ (omega arith) found refl y

  new_referred : StateReferred new_lifecycle
  unfolding get
  new_referred key r h = absurd (ground arith)

  -- After any calls on a new lifecycle, a record is found by the upload reference and by the
  -- quarantine reference of its own intent.
  pub found_by_reference :
      (s : Lifecycle) (t now : ℕ) (key : Text) (r : EvidenceRecord)
      → History c new_lifecycle t s now
      → get key s.records ≡ some r
      → (record_by_upload_reference s r.intent.upload_reference ≡ ok (key, r))
        × (record_by_quarantine_reference s r.intent.quarantine_object_reference ≡ ok (key, r))
  unfolding record_by_upload_reference record_by_quarantine_reference
  found_by_reference s t now key r h found =
      let x = History-referred new_lifecycle s t now h new_referred key r found in
      (ground (arith, x.upload_leads), ground (arith, x.quarantine_leads))
