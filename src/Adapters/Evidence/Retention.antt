-- ===== src/Adapters/Evidence/Retention.antt =====
-- Accepted evidence is kept for its retention, whatever calls are made.
use nitip_cuy.Prelude.{
  ℕ, ◌+◌, ◌*◌, ◌≤◌, ◌<◌, ◌≡◌, refl, ◌∙◌, sym, ap, subst, false, none, some, List, arith,
  Option-cases, inl, inr,
}
use nitip_cuy.Text.{Text, text_eq_iff}
use nitip_cuy.Number.{to_natural}
use nitip_cuy.Map.{get}
use nitip_cuy.Failure.{ok, after_bind}
use nitip_cuy.Platform.{IsIsoPlatform, at_clock, last_instant}
use nitip_cuy.Application.Evidence.{AcceptedEvidence, DeleteExpiredEvidenceCommand}
use nitip_cuy.Adapters.Evidence.{
  EvidenceContext, EvidenceRecord, Lifecycle, new_lifecycle, to_record_key, record_for_owner,
}
use nitip_cuy.Adapters.Evidence.Policy.{add_seconds, to_iso_instant}
use nitip_cuy.Adapters.Evidence.Acceptance.{acceptance_times}
use nitip_cuy.Adapters.Evidence.Deletion.{
  is_to_come, check_deletion, check_deletable, check_retention, delete_evidence, with_deletion,
  has_private_object,
}
use nitip_cuy.Adapters.Evidence.Steps.{delete_cases, upload_lem, scan_lem, record_for_owner_found}
use nitip_cuy.Adapters.Evidence.Histories.{
  History, start, wait, creates, uploads, scans, accepts, deletes,
}
use nitip_cuy.Adapters.Evidence.Growth.{records_grow, some_path}
use nitip_cuy.Adapters.Evidence.Objects.{IsEvidenceOf, IsConsistent}
use nitip_cuy.Adapters.Evidence.Consistency.{later_IsConsistent, over_later}
use nitip_cuy.Adapters.Evidence.Changes.{create_IsConsistent, replaced_IsConsistent}
use nitip_cuy.Adapters.Evidence.Changes.Acceptances.{accept_IsConsistent}
use nitip_cuy.Adapters.Evidence.Changes.Deletions.{deleted_IsConsistent}

module _ (c : EvidenceContext) where
  new_IsConsistent : (now : ℕ) → IsConsistent c new_lifecycle now
  unfolding get
  new_IsConsistent now = record {
    sound = λ key r h. absurd (ground arith);
    one_owner = λ j k q r a b h. absurd (ground arith);
  }

  -- The tests of a deletion passed on a record that was not deleted: the object is its
  -- acceptance's, and the retention is over.
  checked_lem :
      (d : DeleteExpiredEvidenceCommand) (now : ℕ) (r : EvidenceRecord)
      → check_deletable c r d.object_reference now ≡ ok tt
      → r.deleted_at ≡ none
      → (a : AcceptedEvidence) × (r.accepted ≡ some a)
        × (a.object_reference ≡ d.object_reference)
        × (is_to_come c a.retention_expires_at now ≡ false)
  unfolding check_deletable check_retention
  checked_lem d now r h alive = elim (Option-cases r.accepted) [
    | inl e ↦ absurd (ground arith)
    | inr (a, e) ↦
        (a, e, ground (arith, text_eq_iff a.object_reference d.object_reference), ground arith)
  ]

  checked_record :
      (s : Lifecycle) (d : DeleteExpiredEvidenceCommand) (now : ℕ)
      → check_deletion c s d now ≡ ok tt
      → (r : EvidenceRecord) × (get (to_record_key d.owner_account_id d.evidence_id) s.records
          ≡ some r)
        × (check_deletable c r d.object_reference now ≡ ok tt)
  unfolding check_deletion
  checked_record s d now h =
      after_bind (record_for_owner s d.owner_account_id d.evidence_id) _ h
        λ r found h'. (r, record_for_owner_found s d.owner_account_id d.evidence_id r found, h')

  time_passes : (r s : Lifecycle) (u v : ℕ) → History c r u s v → u ≤ v
  time_passes r s u v (start _ _) = omega arith
  time_passes r s u v (wait w h later) = omega (arith, time_passes _ _ _ _ h, later)
  time_passes r s u v (creates i h checked k) =
      omega (arith, time_passes _ _ _ _ h, time_passes _ _ _ _ k)
  time_passes r s u v (uploads f after h made) = time_passes _ _ _ _ h
  time_passes r s u v (scans f after h made) = time_passes _ _ _ _ h
  time_passes r s u v (accepts i h checked k) =
      omega (arith, time_passes _ _ _ _ h, time_passes _ _ _ _ k)
  time_passes r s u v (deletes d h checked k) =
      omega (arith, time_passes _ _ _ _ h, time_passes _ _ _ _ k)

  -- The checks of a deletion passed on an earlier state; when the deletion is made, on a record
  -- that is not deleted, they would pass still.
  still_deletable :
      (r s : Lifecycle) (u v : ℕ) (d : DeleteExpiredEvidenceCommand) (p : EvidenceRecord)
      → check_deletion c r d u ≡ ok tt
      → History c r u s v
      → get (to_record_key d.owner_account_id d.evidence_id) s.records ≡ some p
      → p.deleted_at ≡ none
      → (a : AcceptedEvidence) × (p.accepted ≡ some a)
        × (a.object_reference ≡ d.object_reference)
        × (is_to_come c a.retention_expires_at v ≡ false)
  still_deletable r s u v d p checked h found alive =
      let (q, found', passed) = checked_record r d u checked in
      let (q', found'', k) =
        records_grow c r s u v h (to_record_key d.owner_account_id d.evidence_id) q found' in
      let same : q' ≡ p = some_path (sym found'' ∙ found) in
      let alive' : q.deleted_at ≡ none = elim (Option-cases q.deleted_at) [
        | inl e ↦ e
        | inr (at, e) ↦
            absurd (ground (arith, (k.same_deletion at e).0, ap (λ x. x.deleted_at) same))
      ] in
      let (a, accepted, referred, over) = checked_lem d u q passed alive' in
      (
        a,
        sym (ap (λ x. x.accepted) same) ∙ k.same_acceptance a accepted,
        referred,
        over_later c a.retention_expires_at u v (time_passes r s u v h) over,
      )

  delete_IsConsistent :
      (r s : Lifecycle) (u v : ℕ) (d : DeleteExpiredEvidenceCommand)
      → check_deletion c r d u ≡ ok tt
      → History c r u s v
      → IsConsistent c s v
      → IsConsistent c (delete_evidence c d v s).1 v
  delete_IsConsistent r s u v d checked h x =
      delete_cases c (λ after. IsConsistent c after v) d v s x
        λ p at found alive timed.
          let (a, accepted, referred, over) = still_deletable r s u v d p checked h found alive in
          let key = to_record_key d.owner_account_id d.evidence_id in
          subst (λ reference. IsConsistent c (with_deletion s key p reference at) v) referred
            (deleted_IsConsistent c key v s p a at found alive accepted over x)

  -- Whatever calls are made on a consistent state, in any order and with any delay between the
  -- checks of a call and its work, it stays consistent.
  pub History-IsConsistent :
      (r s : Lifecycle) (t u : ℕ) → History c r t s u → IsConsistent c r t → IsConsistent c s u
  History-IsConsistent r s t u (start _ _) x = x
  History-IsConsistent r s t u (wait {u = w} v h later) x =
      later_IsConsistent c s s.reference_sequence w v (omega arith) later
        (History-IsConsistent _ _ _ _ h x)
  History-IsConsistent r s t u (creates i h checked k) x =
      create_IsConsistent c i _ _
        (History-IsConsistent _ _ _ _ k (History-IsConsistent _ _ _ _ h x))
  History-IsConsistent r s t u (uploads {s = q} f after h made) x =
      upload_lem c f u q after made λ key p is.
        subst (λ y. IsConsistent c y u) (sym is.result)
          (replaced_IsConsistent c q u key p _ is.found refl refl refl refl refl refl
            (History-IsConsistent _ _ _ _ h x))
  History-IsConsistent r s t u (scans {s = q} f after h made) x =
      scan_lem f q after made λ key p scan is.
        subst (λ y. IsConsistent c y u) (sym is.result)
          (replaced_IsConsistent c q u key p _ is.found refl refl refl refl refl refl
            (History-IsConsistent _ _ _ _ h x))
  History-IsConsistent r s t u (accepts i h checked k) x =
      accept_IsConsistent c i _ _
        (History-IsConsistent _ _ _ _ k (History-IsConsistent _ _ _ _ h x))
  History-IsConsistent r s t u (deletes {r = q} {s = p} {u = w} d h checked k) x =
      delete_IsConsistent q p w u d checked k
        (History-IsConsistent _ _ _ _ k (History-IsConsistent _ _ _ _ h x))

  times_lem :
      (time : ℕ) (accepted_at retention_expires_at : Text)
      → acceptance_times c time ≡ ok (accepted_at, retention_expires_at)
      → let over = time + to_natural c.policy.accepted_retention_seconds * 1_000 in
        (accepted_at ≡ c.platform.to_iso_string (at_clock time))
        × (retention_expires_at ≡ c.platform.to_iso_string (at_clock over))
        × (at_clock over ≤ last_instant)
  unfolding to_iso_instant add_seconds
  times_lem time accepted_at retention_expires_at h = ground arith

  -- When the retention of an acceptance is over, by the clock.
  over_iff :
      IsIsoPlatform c.platform
      → (a : AcceptedEvidence) (time now accepted : ℕ)
      → acceptance_times c time ≡ ok (a.accepted_at, a.retention_expires_at)
      → c.platform.parse_date a.accepted_at ≡ some accepted
      → is_to_come c a.retention_expires_at now ≡ false
      → accepted + to_natural c.policy.accepted_retention_seconds * 1_000 ≤ at_clock now
  unfolding is_to_come
  over_iff iso a time now accepted timed parsed over =
      let (at, end, small) = times_lem time a.accepted_at a.retention_expires_at timed in
      let seconds = to_natural c.policy.accepted_retention_seconds in
      ground (
        arith,
        iso.parse-iso (at_clock time) (omega (arith, small)),
        iso.parse-iso (at_clock (time + seconds * 1_000)) small,
      )

  -- From the acceptance of evidence on, after any calls on a new lifecycle and until the retention
  -- of the policy has passed since, the private object is there, and its bytes are the ones that the
  -- acceptance describes: of its digest, size and media type, and within the policy. `Date.parse` is
  -- assumed to read back what `toISOString` writes.
  pub retained :
      IsIsoPlatform c.platform
      → (s : Lifecycle) (t now : ℕ) (key : Text) (r : EvidenceRecord) (a : AcceptedEvidence)
        (accepted : ℕ)
      → History c new_lifecycle t s now
      → get key s.records ≡ some r
      → r.accepted ≡ some a
      → c.platform.parse_date a.accepted_at ≡ some accepted
      → at_clock now < accepted + to_natural c.policy.accepted_retention_seconds * 1_000
      → (content : List ℕ) × (get a.object_reference s.accepted_objects ≡ some content)
        × IsEvidenceOf c a content
  retained iso s t now key r a accepted h found is_accepted parsed early =
      let x =
        (History-IsConsistent new_lifecycle s t now h (new_IsConsistent t)).sound key r found in
      let acceptance = x.acceptances a is_accepted in
      elim (Option-cases r.deleted_at) [
        | inl alive ↦ x.objects_kept a is_accepted alive
        | inr (at, e) ↦
            let gone = x.deletions at e in
            let same = some_path (sym gone.accepted ∙ is_accepted) in
            let over =
              subst (λ b. is_to_come c b.retention_expires_at now ≡ false) same gone.expired in
            let late = over_iff iso a acceptance.time now accepted acceptance.timed parsed over in
            absurd (omega arith)
      ]

  -- A record that is marked as deleted, after any calls on a new lifecycle, was accepted, the
  -- deletion names its object, this object is gone, and its retention has passed since the
  -- acceptance. `Date.parse` is assumed to read back what `toISOString` writes.
  pub deleted_after_retention :
      IsIsoPlatform c.platform
      → (s : Lifecycle) (t now : ℕ) (key : Text) (r : EvidenceRecord) (at : Text)
      → History c new_lifecycle t s now
      → get key s.records ≡ some r
      → r.deleted_at ≡ some at
      → (a : AcceptedEvidence) × (accepted : ℕ) × (r.accepted ≡ some a)
        × (r.deleted_object_reference ≡ some a.object_reference)
        × (has_private_object s a.object_reference ≡ false)
        × (c.platform.parse_date a.accepted_at ≡ some accepted)
        × (accepted + to_natural c.policy.accepted_retention_seconds * 1_000 ≤ at_clock now)
  unfolding has_private_object
  deleted_after_retention iso s t now key r at h found is_deleted =
      let x =
        (History-IsConsistent new_lifecycle s t now h (new_IsConsistent t)).sound key r found in
      let gone = x.deletions at is_deleted in
      let acceptance = x.acceptances gone.acceptance gone.accepted in
      let (written, end, small) = times_lem acceptance.time _ _ acceptance.timed in
      let parsed : c.platform.parse_date gone.acceptance.accepted_at
          ≡ some (at_clock acceptance.time) =
        ap c.platform.parse_date written
        ∙ iso.parse-iso (at_clock acceptance.time) (omega (arith, small)) in
      (
        gone.acceptance,
        at_clock acceptance.time,
        gone.accepted,
        gone.referred,
        rw gone.dropped refl,
        parsed,
        over_iff iso gone.acceptance acceptance.time now _ acceptance.timed parsed gone.expired,
      )
