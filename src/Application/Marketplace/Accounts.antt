-- ===== src/Application/Marketplace/Accounts.antt =====
-- packages/application/src/marketplace-foundation.ts: `ResolveGoogleAccount` and
-- `CreateJastipperProfile`.
use nitip_cuy.Prelude.{Bool, true, false, Option, none, some, [], ◌∷◌, if◌then◌else◌}
use nitip_cuy.Text.{Text, lit}
use nitip_cuy.Failure.{throw_if, use_case, profile_already_exists}
use nitip_cuy.Platform.{Platform}
use nitip_cuy.Transaction.{Transaction, ◌>>=◌, ◌>>◌, lift, return}
use nitip_cuy.Domain.Offer.{JastipperPublicTerms, normalize_public_terms}
use nitip_cuy.Domain.Account.{AuthenticatedActor, account_id, jastipper_profile_id}
use nitip_cuy.Application.Marketplace.{
  require_active_account, require_current_actor, normalize_correlation_id,
}
use nitip_cuy.Application.Marketplace.Repositories.{
  VerifiedExternalIdentity, JastipperProfileRecord, ResolveGoogleIdentityResult,
  MarketplaceRepositories, UseCaseDependencies, audit_of, require_uuid,
}
use nitip_cuy.Application.Marketplace.Identity.{normalize_google_identity}

abbrev pub is_present : {A : Type 0} → Option A → Bool
is_present none = false
is_present (some a) = true

abbrev pub new_profile : AuthenticatedActor → JastipperPublicTerms → Text → JastipperProfileRecord
new_profile actor terms id = record {
  id = id;
  account_id = actor.account_id;
  terms = terms;
  is_active = true;
}

module _ {S : Type 0} (p : Platform) (repositories : MarketplaceRepositories S)
    (dependencies : UseCaseDependencies) where
  open repositories use {shared, resolve_google_identity, create_profile, find_profile_by_account}

  -- The trace of the sign-in: an account that was created is announced.
  unfoldable pub announce_account :
      VerifiedExternalIdentity → ResolveGoogleIdentityResult → Transaction S (Unit {0})
  announce_account identity result =
      if result.created
      then shared.enqueue (record {
        id = dependencies.next_outbox;
        topic = lit "account.created";
        aggregate_type = lit "account";
        aggregate_id = result.account.id;
        occurred_at = identity.authenticated_at;
        payload = (lit "accountId", result.account.id) ∷ [];
      })
      else return tt

  -- `ResolveGoogleAccount.execute`
  unfoldable pub resolve_google_account :
      VerifiedExternalIdentity → Text → Transaction S ResolveGoogleIdentityResult
  unfolding announce_account
  resolve_google_account identity_input correlation_id = do
    identity ← lift (normalize_google_identity p identity_input)
    correlation ← lift (normalize_correlation_id correlation_id)
    candidate ← lift (account_id p dependencies.next_account)
    identity_id ← lift (require_uuid p dependencies.next_external_identity "External identity ID")
    result ←
        resolve_google_identity
          (record { identity_id = identity_id; account_id = candidate; identity = identity })
    lift (require_active_account result.account)
    shared.append_audit (
        audit_of result.account.id
          (if result.created then "account.create" else "account.authenticate") "account"
          result.account.id
          (if result.created then lit "GOOGLE_IDENTITY_CREATED" else lit "GOOGLE_IDENTITY_MATCHED")
          identity.authenticated_at correlation)
    announce_account identity result
    return result

  -- `CreateJastipperProfile.execute`
  unfoldable pub create_jastipper_profile :
      AuthenticatedActor → JastipperPublicTerms → Text → Transaction S JastipperProfileRecord
  create_jastipper_profile actor terms_input correlation_id = do
    terms ← lift (normalize_public_terms terms_input)
    correlation ← lift (normalize_correlation_id correlation_id)
    id ← lift (jastipper_profile_id p dependencies.next_jastipper_profile)
    let profile = new_profile actor terms id
    account ← require_current_actor shared actor dependencies.now
    existing ← find_profile_by_account actor.account_id
    lift (throw_if (is_present existing) (use_case profile_already_exists))
    create_profile profile
    shared.append_audit (
        audit_of actor.account_id "jastipper-profile.create" "jastipper-profile" profile.id
          (lit "OWNER_CREATED") dependencies.now correlation)
    shared.enqueue (record {
      id = dependencies.next_outbox;
      topic = lit "jastipper-profile.created";
      aggregate_type = lit "jastipper-profile";
      aggregate_id = profile.id;
      occurred_at = dependencies.now;
      payload = (lit "accountId", actor.account_id) ∷ [];
    })
    return profile
