-- ===== src/Application/Marketplace/Repositories.antt =====
-- packages/application/src/marketplace-foundation.ts: what the use cases on accounts, profiles,
-- trips and questions read and write, and the guards that they share.
use nitip_cuy.Prelude.{
  ℕ, Bool, ◌&&◌, ◌||◌, not, Option, none, some, List, ◌==◌, String, if◌then◌else◌, all,
}
use nitip_cuy.Text.{Text, lit, text_eq}
use nitip_cuy.Text.Chars.{is_upper, is_digit, matches}
use nitip_cuy.Text.Trim.{trim}
use nitip_cuy.Failure.{
  Result, ok, err, throw_if, use_case, plain, fixed, about, domain_validation, profile_not_found,
  profile_inactive, resource_not_owned,
}
use nitip_cuy.Platform.{Platform}
use nitip_cuy.Transaction.{Transaction, ◌>>=◌, ◌>>◌, lift, return}
use nitip_cuy.Domain.Offer.{TripOffer, JastipperPublicTerms}
use nitip_cuy.Domain.Account.{AuthenticatedActor, AssuranceLevel, Capability, is_uuid}
use nitip_cuy.Application.Marketplace.{
  AccountRecord, AuditRecord, MarketplaceTransactionContext, require_found,
}

-- `VerifiedExternalIdentity` (application/src/ports/platform-services.ts)
pub record VerifiedExternalIdentity : Type 0 where
  pub provider : Text
  pub issuer : Text
  pub subject : Text
  pub email : Option Text
  pub email_verified : Bool
  pub display_name : Text
  pub assurance : AssuranceLevel
  pub authenticated_at : Text

pub record JastipperProfileRecord : Type 0 where
  pub id : Text
  pub account_id : Text
  pub terms : JastipperPublicTerms
  -- `ACTIVE`, or else `SUSPENDED`
  pub is_active : Bool

-- `PublicDiscussionEntry` (domain/src/marketplace.ts)
pub record PublicDiscussionEntry : Type 0 where
  pub id : Text
  pub author_account_id : Text
  pub author_display_name : Text
  pub message : Text
  pub created_at : Text

pub record StoredPublicQuestion : Type 0 where
  pub entry : PublicDiscussionEntry
  pub trip_id : Text
  -- `VISIBLE`, or else `HIDDEN`
  pub is_visible : Bool
  -- with whether it is visible
  pub answer : Option (PublicDiscussionEntry × Bool)

pub record ResolveGoogleIdentityInput : Type 0 where
  pub identity_id : Text
  pub account_id : Text
  pub identity : VerifiedExternalIdentity

pub record ResolveGoogleIdentityResult : Type 0 where
  pub account : AccountRecord
  pub created : Bool

pub data Decision : Type 0 where
  approved rejected : Decision

pub record ModerationDecision : Type 0 where
  pub id : Text
  pub trip_id : Text
  pub moderator_account_id : Text
  pub decision : Decision
  pub reason_code : Text
  pub created_at : Text

-- `MarketplaceTransactionContext` in full: what order submission calls, and the rest.
pub record MarketplaceRepositories (S : Type 0) : Type 0 where
  pub shared : MarketplaceTransactionContext S
  pub resolve_google_identity :
      ResolveGoogleIdentityInput → Transaction S ResolveGoogleIdentityResult
  pub capabilities_for : Text → Transaction S (List Capability)
  pub create_profile : JastipperProfileRecord → Transaction S (Unit {0})
  pub find_profile_by_account : Text → Transaction S (Option JastipperProfileRecord)
  pub find_profile : Text → Transaction S (Option JastipperProfileRecord)
  pub create_trip : TripOffer → Transaction S (Unit {0})
  -- the offer, and the version that is expected
  pub save_trip : TripOffer → ℕ → Transaction S (Unit {0})
  pub record_moderation_decision : ModerationDecision → Transaction S (Unit {0})
  pub create_question : StoredPublicQuestion → Transaction S (Unit {0})
  pub find_question : Text → Transaction S (Option StoredPublicQuestion)
  -- the question, and the answer
  pub create_answer : Text → PublicDiscussionEntry → Transaction S (Unit {0})

-- `UseCaseDependencies`: the clock's reading, and the identifiers that come next.
pub record UseCaseDependencies : Type 0 where
  pub now : Text
  pub next_account : Text
  pub next_external_identity : Text
  pub next_jastipper_profile : Text
  pub next_moderation_decision : Text
  pub next_public_question : Text
  pub next_public_answer : Text
  pub next_outbox : Text

-- The record that a use case appends to the audit log.
abbrev pub audit_of : Text → String → String → Text → Text → Text → Text → AuditRecord
audit_of actor action target_type target_id reason_code occurred_at correlation_id = record {
  actor_id = actor;
  action = lit action;
  target_type = lit target_type;
  target_id = target_id;
  reason_code = reason_code;
  occurred_at = occurred_at;
  correlation_id = correlation_id;
}

module _ {S : Type 0} (repositories : MarketplaceRepositories S) where
  unfoldable pub require_active_profile : Text → Transaction S JastipperProfileRecord
  require_active_profile owner = do
    found ← repositories.find_profile_by_account owner
    profile ←
        lift (elim found [ none ↦ err (use_case profile_not_found) | some profile ↦ ok profile ])
    lift (throw_if (not profile.is_active) (use_case profile_inactive))
    return profile

  unfoldable pub require_owned_trip : AuthenticatedActor → Text → Transaction S TripOffer
  require_owned_trip actor id = do
    found ← repositories.shared.find_trip id
    trip ← lift (require_found found)
    lift (
        throw_if (not (text_eq trip.owner_account_id actor.account_id))
          (use_case resource_not_owned))
    return trip

-- `[A-Z0-9_]`
abbrev pub is_reason : ℕ → Bool
is_reason c = is_upper c || is_digit c || (c == b'_')

unfoldable pub normalize_reason_code : Platform → Text → Result Text
normalize_reason_code p value =
    let normalized = p.to_upper_case (trim value) in
    if not (matches is_upper is_reason 1 79 normalized)
    then err (domain_validation (fixed "Reason code is invalid."))
    else ok normalized

-- `requireUuid`, whose pattern is `uuidPattern` without the flag `i`.
unfoldable pub require_uuid : Platform → Text → String → Result Text
require_uuid p value field =
    let normalized = p.to_lower_case (trim value) in
    if not (is_uuid normalized && all (λ c. not (is_upper c)) normalized)
    then err (plain (about field "must be a UUID."))
    else ok normalized
