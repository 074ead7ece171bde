-- ===== src/Adapters/Evidence/Policies.antt =====
-- What an evidence policy is that the lifecycle accepts.
use nitip_cuy.Prelude.{
  ℕ, ◌≤◌, ◌≡◌, ◌≢◌, ◌↔◌, Bool, true, false, ◌||◌, not, List, [], ◌∷◌, arith, length, any, ◌==◌,
  Bool-cases, inl, inr, All,
}
use nitip_cuy.Text.{text_eq_iff}
use nitip_cuy.Number.{Number, to_natural, max_safe_integer}
use nitip_cuy.Failure.{ok}
use nitip_cuy.Application.Evidence.{
  EvidenceMediaType, image_jpeg, image_png, image_webp, other_media, media_eq,
}
use nitip_cuy.Domain.OrderRequest.{bounded_integer}
use nitip_cuy.Domain.OrderRequest.Bounds.{Denotes, bounded_integer_iff}
use nitip_cuy.Adapters.Evidence.Policy.{
  InMemoryEvidencePolicy, is_evidence_media, media_includes, distinct_media, is_out_of_range,
  validate_policy,
}

range_iff :
    (value : Number) (low high : ℕ)
    → 1 ≤ low
    → high ≤ max_safe_integer
    → (is_out_of_range value low high ≡ false)
      ↔ ((n : ℕ) × Denotes value n × (low ≤ n) × (n ≤ high))
unfolding is_out_of_range bounded_integer
range_iff value low high positive small = (
  λ h.
      let bounded : bounded_integer value "" low high ≡ ok (to_natural value) = ground (arith, h) in
      let (denotes, above, below) =
        (bounded_integer_iff value "" low high (to_natural value) positive small).0 bounded in
      (to_natural value, denotes, above, below),
  λ (n, denotes, above, below).
      ground
        (arith, (bounded_integer_iff value "" low high n positive small).1 (denotes, above, below)),
)

media_eq_iff : (a b : EvidenceMediaType) → (media_eq a b ≡ true) ↔ (a ≡ b)
unfolding media_eq
media_eq_iff image_jpeg b = ground arith
media_eq_iff image_png b = ground arith
media_eq_iff image_webp b = ground arith
media_eq_iff (other_media s) image_jpeg = ground arith
media_eq_iff (other_media s) image_png = ground arith
media_eq_iff (other_media s) image_webp = ground arith
media_eq_iff (other_media s) (other_media t) = ground (arith, text_eq_iff s t)

includes_iff :
    (types : List EvidenceMediaType) (t : EvidenceMediaType)
    → (media_includes types t ≡ false) ↔ All (λ u. t ≢ u) types
includes_iff [] t = ground arith
includes_iff (u ∷ types) t = ground (arith, media_eq_iff t u, includes_iff types t)

-- No media type stands twice.
abbrev pub IsDistinct : List EvidenceMediaType → Type 0
IsDistinct [] = Unit
IsDistinct (t ∷ types) = All (λ u. t ≢ u) types × IsDistinct types

length-distinct-le : (types : List EvidenceMediaType) → length (distinct_media types) ≤ length types
unfolding distinct_media
length-distinct-le [] = omega arith
length-distinct-le (t ∷ types) = ground (arith, length-distinct-le types)

distinct_iff :
    (types : List EvidenceMediaType)
    → (length (distinct_media types) ≡ length types) ↔ IsDistinct types
unfolding distinct_media
distinct_iff [] = ground arith
distinct_iff (t ∷ types) = elim (Bool-cases (media_includes types t)) [
  | inl e ↦ (
    λ h. absurd (ground (arith, length-distinct-le types)),
    λ (new, rest). absurd (ground (arith, (includes_iff types t).1 new)),
  )
  | inr e ↦ (
    λ h. ((includes_iff types t).0 e, (distinct_iff types).0 (ground arith)),
    λ (new, rest). ground (arith, (distinct_iff types).1 rest),
  )
]

-- A policy that the lifecycle accepts.
pub record IsAcceptable (p : InMemoryEvidencePolicy) : Type 0 where
  pub maximum : (n : ℕ) × Denotes p.maximum_byte_length n × (1 ≤ n) × (n ≤ 104_857_600)
  pub lifetime : (n : ℕ) × Denotes p.upload_intent_ttl_seconds n × (60 ≤ n) × (n ≤ 86_400)
  pub retention : (n : ℕ) × Denotes p.accepted_retention_seconds n × (60 ≤ n) × (n ≤ 31_536_000)
  pub some_type : p.allowed_media_types ≢ []
  pub distinct : IsDistinct p.allowed_media_types
  pub supported : All (λ t. is_evidence_media t ≡ true) p.allowed_media_types

supported_iff :
    (types : List EvidenceMediaType)
    → (any (λ type. not (is_evidence_media type)) types ≡ false)
      ↔ All (λ t. is_evidence_media t ≡ true) types
supported_iff [] = ground arith
supported_iff (t ∷ types) = ground (arith, supported_iff types)

abbrev bad_types : List EvidenceMediaType → Bool
bad_types types =
    (length types == 0)
    || not (length (distinct_media types) == length types)
    || any (λ type. not (is_evidence_media type)) types

types_iff :
    (types : List EvidenceMediaType)
    → (bad_types types ≡ false)
      ↔ ((types ≢ []) × IsDistinct types × All (λ t. is_evidence_media t ≡ true) types)
types_iff [] = ground arith
types_iff (t ∷ types) = ground (arith, distinct_iff (t ∷ types), supported_iff (t ∷ types))

policy_tests :
    (p : InMemoryEvidencePolicy)
    → validate_policy p ≡ ok tt
    → (is_out_of_range p.maximum_byte_length 1 104_857_600 ≡ false)
      × (is_out_of_range p.upload_intent_ttl_seconds 60 86_400 ≡ false)
      × (is_out_of_range p.accepted_retention_seconds 60 31_536_000 ≡ false)
      × (bad_types p.allowed_media_types ≡ false)
unfolding validate_policy
policy_tests p h = ground arith

-- A policy is accepted exactly if its sizes and times are whole numbers within their bounds (1 byte
-- to 100 MiB, a minute to a day, a minute to 365 days), and its media types are supported, at least
-- one, and none twice.
pub validate_policy_iff :
    (p : InMemoryEvidencePolicy) → (validate_policy p ≡ ok tt) ↔ IsAcceptable p
unfolding validate_policy
validate_policy_iff p =
    let maximum = range_iff p.maximum_byte_length 1 104_857_600 (omega arith) (omega arith) in
    let lifetime = range_iff p.upload_intent_ttl_seconds 60 86_400 (omega arith) (omega arith) in
    let retention =
      range_iff p.accepted_retention_seconds 60 31_536_000 (omega arith) (omega arith) in
    let types = types_iff p.allowed_media_types in
    (
      λ h.
          let (m, l, r, t) = policy_tests p h in
          let (some_type, distinct, supported) = types.0 t in
          record {
            maximum = maximum.0 m;
            lifetime = lifetime.0 l;
            retention = retention.0 r;
            some_type = some_type;
            distinct = distinct;
            supported = supported;
          },
      λ a. ground (
        arith,
        maximum.1 a.maximum,
        lifetime.1 a.lifetime,
        retention.1 a.retention,
        types.1 (a.some_type, a.distinct, a.supported),
      ),
    )
