-- ===== src/Application/Marketplace/Trips.antt =====
-- packages/application/src/marketplace-foundation.ts: `CreateTripDraft`, `SubmitTripForModeration`
-- and `ModerateTrip`.
pub mod Moderated
use nitip_cuy.Prelude.{
  ℕ, Bool, true, false, ◌&&◌, ◌||◌, not, Option, none, some, List, [], ◌∷◌, any,
}
use nitip_cuy.Text.{Text, lit}
use nitip_cuy.Failure.{Result, throw_if, use_case, missing_capability, insufficient_assurance}
use nitip_cuy.Platform.{Platform}
use nitip_cuy.Transaction.{Transaction, ◌>>=◌, ◌>>◌, lift, return}
use nitip_cuy.Domain.Offer.{
  TripOffer, create_trip_offer, submit_trip_offer, approve_trip_offer, reject_trip_offer,
}
use nitip_cuy.Domain.Account.{
  AuthenticatedActor, Capability, moderate_trips, has_capability, phishing_resistant, assurance_is,
}
use nitip_cuy.Application.Marketplace.{
  require_found, require_current_actor, normalize_correlation_id,
}
use nitip_cuy.Application.Marketplace.Repositories.{
  Decision, approved, rejected, MarketplaceRepositories, UseCaseDependencies, audit_of,
  require_active_profile, require_owned_trip, normalize_reason_code, require_uuid,
}

-- `persistedCapabilities.has("MODERATE_TRIPS")`; there is one capability
abbrev pub holds_capability : List Capability → Bool
holds_capability capabilities = any (λ c. true) capabilities

abbrev pub decision_text : Decision → Text
decision_text approved = lit "APPROVED"
decision_text rejected = lit "REJECTED"

abbrev pub decision_topic : Decision → Text
decision_topic approved = lit "trip.published"
decision_topic rejected = lit "trip.rejected"

-- The decision on an offer, at a time, with a reason.
unfoldable pub decide : Platform → Decision → TripOffer → Text → Text → Result TripOffer
decide p approved offer occurred_at reason_code = approve_trip_offer p offer occurred_at
decide p rejected offer occurred_at reason_code = reject_trip_offer offer reason_code

module _ {S : Type 0} (p : Platform) (repositories : MarketplaceRepositories S)
    (dependencies : UseCaseDependencies) where
  open repositories use {
    shared, capabilities_for, create_trip, save_trip, record_moderation_decision,
  }
  open dependencies use {now}

  -- `CreateTripDraft.execute`; of `input`, the owner, the profile, the status and the version are
  -- not read.
  unfoldable pub create_trip_draft : AuthenticatedActor → TripOffer → Text → Transaction S TripOffer
  create_trip_draft actor input correlation_id = do
    correlation ← lift (normalize_correlation_id correlation_id)
    account ← require_current_actor shared actor now
    profile ← require_active_profile repositories actor.account_id
    offer ← lift (
        create_trip_offer p
          (record input { jastipper_profile_id = profile.id; owner_account_id = actor.account_id })
          profile.terms)
    create_trip offer
    shared.append_audit (
        audit_of actor.account_id "trip-draft.create" "trip-offer" offer.id (lit "OWNER_CREATED")
          now correlation)
    return offer

  -- `SubmitTripForModeration.execute`
  unfoldable pub submit_trip_for_moderation :
      AuthenticatedActor → Text → Text → Transaction S TripOffer
  submit_trip_for_moderation actor target_trip_id correlation_id = do
    correlation ← lift (normalize_correlation_id correlation_id)
    account ← require_current_actor shared actor now
    current ← require_owned_trip repositories actor target_trip_id
    submitted ← lift (submit_trip_offer current)
    save_trip submitted current.version
    shared.append_audit (
        audit_of actor.account_id "trip.submit-for-moderation" "trip-offer" target_trip_id
          (lit "OWNER_SUBMITTED") now correlation)
    shared.enqueue (record {
      id = dependencies.next_outbox;
      topic = lit "trip.moderation-requested";
      aggregate_type = lit "trip-offer";
      aggregate_id = target_trip_id;
      occurred_at = now;
      payload = (lit "ownerAccountId", actor.account_id) ∷ [];
    })
    return submitted

  -- The guards of a moderator: the capability in the session and in the database, and the assurance.
  unfoldable pub require_moderator : AuthenticatedActor → Transaction S (Unit {0})
  require_moderator actor = do
    account ← require_current_actor shared actor now
    persisted ← capabilities_for actor.account_id
    lift (
        throw_if (not (has_capability actor moderate_trips) || not (holds_capability persisted))
          (use_case missing_capability))
    lift (
        throw_if (not (assurance_is actor.assurance phishing_resistant))
          (use_case insufficient_assurance))

  -- What is stored of a decision.
  unfoldable pub record_moderation :
      AuthenticatedActor
      → Text
      → Decision
      → Text
      → Text
      → TripOffer
      → TripOffer
      → Transaction S TripOffer
  record_moderation actor trip_id decision reason correlation current moderated = do
    save_trip moderated current.version
    id ← lift (require_uuid p dependencies.next_moderation_decision "Moderation decision ID")
    record_moderation_decision (record {
      id = id;
      trip_id = trip_id;
      moderator_account_id = actor.account_id;
      decision = decision;
      reason_code = reason;
      created_at = now;
    })
    shared.append_audit
        (audit_of actor.account_id "trip.moderate" "trip-offer" trip_id reason now correlation)
    shared.enqueue (record {
      id = dependencies.next_outbox;
      topic = decision_topic decision;
      aggregate_type = lit "trip-offer";
      aggregate_id = trip_id;
      occurred_at = now;
      payload = (lit "decision", decision_text decision) ∷ [];
    })
    return moderated

  -- `ModerateTrip.execute`
  unfoldable pub moderate_trip :
      AuthenticatedActor → Text → Decision → Text → Text → Transaction S TripOffer
  unfolding decide require_moderator record_moderation
  moderate_trip actor trip_id decision reason_code correlation_id = do
    correlation ← lift (normalize_correlation_id correlation_id)
    reason ← lift (normalize_reason_code p reason_code)
    require_moderator actor
    found ← shared.find_trip trip_id
    current ← lift (require_found found)
    moderated ← lift (decide p decision current now reason)
    record_moderation actor trip_id decision reason correlation current moderated
