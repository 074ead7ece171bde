-- ===== src/Adapters/Evidence/Changes/Deletions.antt =====
-- Deletion keeps the state consistent, if the retention is over.
use nitip_cuy.Prelude.{ℕ, ◌≡◌, ◌≢◌, refl, ◌∙◌, false, none, some, List, arith}
use nitip_cuy.Text.{Text, text_eq_iff, text_eq_refl}
use nitip_cuy.Map.{TextMap, get, delete, get-delete}
use nitip_cuy.Application.Evidence.{AcceptedEvidence}
use nitip_cuy.Adapters.Evidence.{EvidenceContext, EvidenceRecord, Lifecycle}
use nitip_cuy.Adapters.Evidence.Deletion.{is_to_come, with_deletion}
use nitip_cuy.Adapters.Evidence.Objects.{IsSound, IsConsistent}
use nitip_cuy.Adapters.Evidence.Consistency.{IsSound-at, IsSound-later, IsAccepted-later, put_cases}
use nitip_cuy.Adapters.Evidence.Changes.{replaced_one_owner}

module _ (c : EvidenceContext) where
  -- An object that is dropped leaves the others.
  dropped_elsewhere :
      (reference other : Text) (objects : TextMap (List ℕ))
      → reference ≢ other
      → get other (delete reference objects) ≡ get other objects
  dropped_elsewhere reference other objects h =
      ground (arith, get-delete other reference objects, text_eq_iff reference other)

  module _ (key : Text) (now : ℕ) (s : Lifecycle) (r : EvidenceRecord) (a : AcceptedEvidence)
      (at : Text) (found : get key s.records ≡ some r) (alive : r.deleted_at ≡ none)
      (was_accepted : r.accepted ≡ some a) (over : is_to_come c a.retention_expires_at now ≡ false)
      (x : IsConsistent c s now) where
    abbrev deleted_record : EvidenceRecord
    deleted_record = record r {
      deleted_object_reference = some a.object_reference;
      deleted_at = some at;
    }

    deleted_IsSound :
        IsSound c
          (delete a.object_reference s.accepted_objects)
          s.reference_sequence
          now
          key
          deleted_record
    deleted_IsSound = record {
      keyed = (x.sound key r found).keyed;
      acceptances = λ b l.
          IsAccepted-later c s.reference_sequence s.reference_sequence now now r deleted_record b
            (omega arith) (omega arith) refl refl refl ((x.sound key r found).acceptances b l);
      objects_kept = λ b l d. absurd (ground arith);
      deletions = λ at' l. record {
        acceptance = a;
        accepted = was_accepted;
        referred = refl;
        dropped =
            get-delete a.object_reference a.object_reference s.accepted_objects
            ∙ rw (text_eq_refl a.object_reference) refl;
        expired = over;
      };
    }

    pub deleted_IsConsistent : IsConsistent c (with_deletion s key r a.object_reference at) now
    deleted_IsConsistent = record {
      sound = λ j p h.
          put_cases j key deleted_record p s.records h
            (IsSound-at c (delete a.object_reference s.accepted_objects) s.reference_sequence now
              deleted_IsSound)
            (λ is_other before.
              IsSound-later c s.accepted_objects (delete a.object_reference s.accepted_objects)
                s.reference_sequence s.reference_sequence now now j p p (omega arith) (omega arith)
                refl refl refl refl refl refl
                (λ b l.
                  dropped_elsewhere a.object_reference b.object_reference s.accepted_objects
                    (λ e. is_other (x.one_owner key j r p a b found before was_accepted l e)))
                (x.sound j p before));
      one_owner = replaced_one_owner c s now key r deleted_record found refl x;
    }
