-- ===== src/Adapters/Evidence/Policy.antt =====
-- packages/adapters/src/in-memory-evidence-lifecycle.ts: the policy of a lifecycle and the checks
-- of identities and times.
use nitip_cuy.Prelude.{
  ℕ, ◌+◌, ◌*◌, Bool, true, false, ◌||◌, not, String, List, [], ◌∷◌, length, any, ◌==◌, leb,
  if◌then◌else◌,
}
use nitip_cuy.Text.{Text}
use nitip_cuy.Text.Chars.{is_alnum, is_safe_visible, matches}
use nitip_cuy.Number.{Number, is_safe_integer, less_than, greater_than, max_safe_integer}
use nitip_cuy.Failure.{Failure, Result, ok, err, ◌>>◌, throw_if, evidence, fixed, about}
use nitip_cuy.Failure
use nitip_cuy.Platform.{Platform, at_clock, last_instant}
use nitip_cuy.Application.Evidence.{EvidenceMediaType, other_media, media_eq}

pub record InMemoryEvidencePolicy : Type 0 where
  pub allowed_media_types : List EvidenceMediaType
  pub maximum_byte_length : Number
  pub upload_intent_ttl_seconds : Number
  pub accepted_retention_seconds : Number

-- `evidenceMediaTypes.has(type)`
abbrev pub is_evidence_media : EvidenceMediaType → Bool
is_evidence_media (other_media s) = false
is_evidence_media _ = true

-- `types.includes(type)`
abbrev pub media_includes : List EvidenceMediaType → EvidenceMediaType → Bool
media_includes types type = any (media_eq type) types

-- `[...new Set(types)]`, the later one of each kept: only its size is used.
unfoldable pub distinct_media : List EvidenceMediaType → List EvidenceMediaType
distinct_media [] = []
distinct_media (t ∷ ts) =
    let rest = distinct_media ts in if media_includes ts t then rest else t ∷ rest

-- `!Number.isSafeInteger(value) || value < low || value > high`
unfoldable pub is_out_of_range : Number → ℕ → ℕ → Bool
is_out_of_range value low high =
    not (is_safe_integer value) || less_than value low || greater_than value high

abbrev invalid : String → Failure
invalid message = evidence Failure.validation_failed (fixed message)

unfoldable pub validate_policy : InMemoryEvidencePolicy → Result (Unit {0})
unfolding is_out_of_range distinct_media
validate_policy p = do
  throw_if (is_out_of_range p.maximum_byte_length 1 (100 * 1_024 * 1_024))
      (invalid "Evidence maximum byte length must be between 1 byte and 100 MiB.")
  throw_if (is_out_of_range p.upload_intent_ttl_seconds 60 86_400)
      (invalid "Evidence upload intent lifetime must be between 60 seconds and one day.")
  throw_if (is_out_of_range p.accepted_retention_seconds 60 31_536_000)
      (invalid "Evidence retention must be between 60 seconds and 365 days.")
  throw_if
      ((length p.allowed_media_types == 0)
        || not (length (distinct_media p.allowed_media_types) == length p.allowed_media_types)
        || any (λ type. not (is_evidence_media type)) p.allowed_media_types)
      (invalid "Evidence policy requires supported unique media types.")

unfoldable pub validate_identity : Text → String → Result (Unit {0})
validate_identity value label =
    throw_if (not (matches is_alnum is_safe_visible 2 127 value)) (
      evidence Failure.validation_failed
        (about label "must contain 3-128 safe visible characters."))

unfoldable pub add_seconds : ℕ → ℕ → Result ℕ
add_seconds now_milliseconds seconds =
    let result = now_milliseconds + seconds * 1_000 in
    if leb result max_safe_integer
    then ok result
    else err (invalid "Evidence timestamp exceeds the supported clock range.")

unfoldable pub to_iso_instant : Platform → ℕ → Result Text
to_iso_instant p milliseconds =
    if leb (at_clock milliseconds) last_instant
    then ok (p.to_iso_string (at_clock milliseconds))
    else err (invalid "Evidence clock produced an invalid timestamp.")
