-- ===== src/Adapters/Evidence/Verified.antt =====
-- When `inspect` finds evidence verified, and what acceptance then stores of it.
use nitip_cuy.Prelude.{
  ℕ, ◌≤◌, ◌≡◌, ◌↔◌, refl, true, Option, none, some, List, arith, length, Option-cases, inl, inr,
}
use nitip_cuy.Text.{Text, text_eq_iff}
use nitip_cuy.Number.{to_natural}
use nitip_cuy.Failure.{ok, ◌>>=◌}
use nitip_cuy.Application.Evidence.{EvidenceMediaType, InspectEvidenceQuery, EvidenceObservation}
use nitip_cuy.Application.Evidence
use nitip_cuy.Adapters.Evidence.{
  EvidenceContext, EvidenceRecord, ScanRecord, clean_scan, Lifecycle, record_for_query,
}
use nitip_cuy.Adapters.Evidence.Content.{detect_media_type}
use nitip_cuy.Adapters.Evidence.Inspection.{
  record_values, inspect_content, inspect_scan, is_allowed, observation, inspect_record,
  content_values, names_digest,
}
use nitip_cuy.Adapters.Evidence.Acceptance.{is_verified, Observed, require_verified}

module _ (c : EvidenceContext) where
  -- A clean scan of exactly these bytes, which the policy lets in.
  pub record IsVerifiedContent (content : List ℕ) (type : EvidenceMediaType) (scan : ScanRecord)
      : Type 0 where
    pub not_empty : 1 ≤ length content
    pub not_too_large : length content ≤ to_natural c.policy.maximum_byte_length
    pub detected : detect_media_type content ≡ some type
    pub allowed : is_allowed c (some type) ≡ true
    pub clean : scan.status ≡ clean_scan
    pub same_digest : scan.scanned_sha256 ≡ some (c.hashing.sha256_bytes content)

  pub record IsVerified (r : EvidenceRecord) : Type 0 where
    pub not_deleted : r.deleted_at ≡ none
    pub not_accepted : r.accepted ≡ none
    pub content : List ℕ
    pub type : EvidenceMediaType
    pub scan : ScanRecord
    pub uploaded : r.upload ≡ some content
    pub scanned : r.scan ≡ some scan
    pub verified_content : IsVerifiedContent content type scan

  names_digest_iff :
      (scanned : Option Text) (digest : Text)
      → (names_digest scanned digest ≡ true) ↔ (scanned ≡ some digest)
  names_digest_iff none digest = ground arith
  names_digest_iff (some scanned) digest = ground (arith, text_eq_iff scanned digest)

  scan_verified :
      (content : List ℕ) (scan : ScanRecord)
      → is_verified (inspect_scan c content (some scan)).status ≡ true
      → (scan.status ≡ clean_scan) × (scan.scanned_sha256 ≡ some (c.hashing.sha256_bytes content))
  unfolding inspect_scan content_values
  scan_verified content scan h =
      ground (arith, names_digest_iff scan.scanned_sha256 (c.hashing.sha256_bytes content))

  content_verified :
      (content : List ℕ) (scan : Option ScanRecord) (type : EvidenceMediaType) (s : ScanRecord)
      → is_verified (inspect_content c content scan).status ≡ true
      → detect_media_type content ≡ some type
      → scan ≡ some s
      → IsVerifiedContent content type s
  unfolding inspect_content content_values is_allowed
  content_verified content scan type s h detected scanned =
      let v : is_verified (inspect_scan c content (some s)).status ≡ true = ground arith in
      let (clean, same_digest) = scan_verified content s v in
      record {
        not_empty = ground arith;
        not_too_large = ground arith;
        detected = detected;
        allowed = ground arith;
        clean = clean;
        same_digest = same_digest;
      }

  detected_type :
      (content : List ℕ) (scan : Option ScanRecord)
      → is_verified (inspect_content c content scan).status ≡ true
      → (type : EvidenceMediaType) × (detect_media_type content ≡ some type)
  unfolding inspect_content content_values is_allowed
  detected_type content scan h = elim (Option-cases (detect_media_type content)) [
    | inl e ↦ absurd (ground arith)
    | inr found ↦ found
  ]

  present_scan :
      (content : List ℕ) (scan : Option ScanRecord)
      → is_verified (inspect_content c content scan).status ≡ true
      → (s : ScanRecord) × (scan ≡ some s)
  unfolding inspect_content inspect_scan content_values
  present_scan content none h = absurd (ground arith)
  present_scan content (some s) h = (s, refl)

  present_upload :
      (r : EvidenceRecord) (now : ℕ)
      → is_verified (record_values c r now).status ≡ true
      → (content : List ℕ) × (r.upload ≡ some content)
  unfolding record_values
  present_upload r now h = elim (Option-cases r.upload) [
    | inl e ↦ absurd (ground arith)
    | inr found ↦ found
  ]

  pub record_verified :
      (r : EvidenceRecord) (now : ℕ)
      → is_verified (record_values c r now).status ≡ true
      → IsVerified r
  unfolding record_values
  record_verified r now h =
      let (content, uploaded) = present_upload r now h in
      let v : is_verified (inspect_content c content r.scan).status ≡ true = ground arith in
      let (type, detected) = detected_type content r.scan v in
      let (scan, scanned) = present_scan content r.scan v in
      record {
        not_deleted = ground arith;
        not_accepted = ground arith;
        content = content;
        type = type;
        scan = scan;
        uploaded = uploaded;
        scanned = scanned;
        verified_content = content_verified content r.scan type scan v detected scanned;
      }

  verified_record :
      (r : EvidenceRecord) (now : ℕ)
      → IsVerified r
      → is_verified (record_values c r now).status ≡ true
  unfolding record_values inspect_content inspect_scan content_values
  verified_record r now v =
      let w = v.verified_content in
      ground (
        arith,
        v.not_deleted,
        v.not_accepted,
        v.uploaded,
        v.scanned,
        w.not_empty,
        w.not_too_large,
        w.detected,
        w.allowed,
        w.clean,
        (names_digest_iff v.scan.scanned_sha256 (c.hashing.sha256_bytes v.content)).1 w.same_digest,
      )

  -- Evidence is found verified, at any time, exactly if it is neither deleted nor accepted, its
  -- bytes are there, not empty, no longer than the policy allows and of a detected media type that
  -- the policy allows, and its last scan is clean and names the SHA-256 of exactly these bytes.
  pub inspect_verified_iff :
      (r : EvidenceRecord) (now : ℕ)
      → ((observation r (record_values c r now)).status ≡ Evidence.verified) ↔ IsVerified r
  unfolding observation
  inspect_verified_iff r now =
      (λ h. record_verified r now (rw h refl), λ v. ground (arith, verified_record r now v))

  -- What acceptance stores of the record's bytes.
  pub record IsObserved (r : EvidenceRecord) (o : Observed) : Type 0 where
    pub verified : IsVerified r
    pub same_content : verified.content ≡ o.content
    pub digest : o.sha256 ≡ c.hashing.sha256_bytes o.content
    pub size : o.byte_length ≡ length o.content
    pub type : o.media_type ≡ verified.type
    pub scanned : o.scan_reference ≡ verified.scan.scan_reference

  require_verified_lem :
      (r : EvidenceRecord) (e : EvidenceObservation) (o : Observed)
      → require_verified r e ≡ ok o
      → (e.status ≡ Evidence.verified)
        × (r.upload ≡ some o.content)
        × (e.observed_sha256 ≡ some o.sha256)
        × (e.observed_byte_length ≡ some o.byte_length)
        × (e.detected_media_type ≡ some o.media_type)
        × (e.scan_reference ≡ some o.scan_reference)
  unfolding require_verified
  require_verified_lem r e o h = ground arith

  pub verified_values :
      (r : EvidenceRecord) (now : ℕ) (v : IsVerified r)
      → let w = record_values c r now in
        (w.observed_sha256 ≡ some (c.hashing.sha256_bytes v.content))
        × (w.observed_byte_length ≡ some (length v.content))
        × (w.detected_media_type ≡ some v.type)
        × (w.scan_reference ≡ some v.scan.scan_reference)
  unfolding record_values inspect_content inspect_scan content_values
  verified_values r now v =
      let w = v.verified_content in
      ground (
        arith,
        v.not_deleted,
        v.not_accepted,
        v.uploaded,
        v.scanned,
        w.not_empty,
        w.not_too_large,
        w.detected,
        w.allowed,
        w.clean,
        (names_digest_iff v.scan.scanned_sha256 (c.hashing.sha256_bytes v.content)).1 w.same_digest,
      )

  pub accepted_IsObserved :
      (q : InspectEvidenceQuery) (now : ℕ) (s : Lifecycle) (r : EvidenceRecord) (o : Observed)
      → record_for_query s q ≡ ok r
      → inspect_record c s q now >>= require_verified r ≡ ok o
      → IsObserved r o
  unfolding inspect_record observation
  accepted_IsObserved q now s r o found h =
      let seen : require_verified r (observation r (record_values c r now)) ≡ ok o =
        rw found at h in
      let (status, uploaded, digest, size, type, scanned) =
        require_verified_lem r (observation r (record_values c r now)) o seen in
      let v = (inspect_verified_iff r now).0 status in
      let (digest', size', type', scanned') = verified_values r now v in
      record {
        verified = v;
        same_content = ground (arith, v.uploaded);
        digest = ground (arith, v.uploaded);
        size = ground (arith, v.uploaded);
        type = ground arith;
        scanned = ground arith;
      }
