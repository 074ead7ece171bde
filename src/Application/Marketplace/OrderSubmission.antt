-- ===== src/Application/Marketplace/OrderSubmission.antt =====
-- `SubmitOrderRequest` of packages/application/src/marketplace-foundation.ts.
pub mod Eligible
use nitip_cuy.Prelude.{
  ℕ, ◌+◌, Bool, true, false, ◌||◌, not, Option, none, some, List, [], ◌∷◌, ◌++◌, ltb, if◌then◌else◌,
}
use nitip_cuy.Text.{Text, lit, text_eq}
use nitip_cuy.Failure.{
  Result, ok, err, throw_if, use_case, range, idempotency_conflict, idempotency_in_progress,
  self_order_denied, offer_ineligible, service_mode_unavailable, capacity_unavailable,
  offer_revision_stale,
}
use nitip_cuy.Platform.{Platform, is_before, is_not_after}
use nitip_cuy.Transaction.{Transaction, ◌>>=◌, ◌>>◌, lift, return}
use nitip_cuy.Domain.ServiceMode.{ServiceMode, shop_for_me, carry_my_item, unsupported, includes}
use nitip_cuy.Domain.OrderRequest.{
  NormalTerms, GivenTerms, service_mode, normalize_order_request_terms, requested_capacity_grams,
}
use nitip_cuy.Domain.Offer.{TripOffer, published, status_is}
use nitip_cuy.Domain.Account.{AuthenticatedActor, order_request_id}
use nitip_cuy.Application.Marketplace.{
  SubmittedOrderRequest, OrderSubmissionClaim, granted, replayed, conflicting, running,
  SubmissionKey, MarketplaceTransactionContext, require_found, require_current_actor,
  normalize_correlation_id, normalize_idempotency_key, remaining_capacity_grams,
}

-- `OrderSubmissionDependencies`: the digest, `JSON.stringify` of the object that
-- `canonicalSubmissionFingerprint` builds, and the identifiers that come next.
pub record OrderSubmissionDependencies : Type 0 where
  pub sha256 : Text → Text
  pub stringify_submission : Text → NormalTerms → Text
  pub next_order_request : Text
  pub next_outbox : Text

pub record OrderSubmission : Type 0 where
  pub trip_id : Text
  pub terms : GivenTerms
  pub correlation_id : Text
  pub idempotency_key : Text

-- The digest of the key, and the fingerprint of what is asked for.
abbrev pub submission_key :
    OrderSubmissionDependencies → Text → Text → Text → NormalTerms → SubmissionKey
submission_key dependencies customer idempotency_key trip_id terms = record {
  customer_account_id = customer;
  key_digest =
      dependencies.sha256 (lit "nitipcuy-order-idempotency-key-v1" ++ (0 ∷ idempotency_key));
  fingerprint = dependencies.sha256 (dependencies.stringify_submission trip_id terms);
}

-- `Number.isNaN(now) || Number.isNaN(opens) || Number.isNaN(closes) || now < opens || now >= closes`
abbrev pub is_closed : Option ℕ → Option ℕ → Option ℕ → Bool
is_closed (some now) (some opens) (some closes) = ltb now opens || not (ltb now closes)
is_closed _ _ _ = true

unfoldable pub require_order_eligible :
    Platform → TripOffer → Text → NormalTerms → Text → Result (Unit {0})
require_order_eligible p trip customer terms occurred_at =
    if text_eq trip.owner_account_id customer
    then err (use_case self_order_denied)
    else if not (status_is trip.status published)
    then err (use_case offer_ineligible)
    else if not (includes trip.schedule.service_modes (service_mode terms))
    then err (use_case service_mode_unavailable)
    else if is_closed (p.parse_date occurred_at) (p.parse_date trip.schedule.request_open_at)
        (p.parse_date trip.schedule.request_deadline)
    then err (use_case offer_ineligible)
    else ok tt

-- `if (!reservedAt) throw …`; an empty string is as good as null
unfoldable pub require_reserved : Option Text → Result Text
require_reserved (some (c ∷ s)) = ok (c ∷ s)
require_reserved _ = err (use_case offer_revision_stale)

-- Seven days in milliseconds.
abbrev pub week : ℕ
week = 604_800_000

-- `new Date(Date.parse(reservedAt) + 7 * 24 * 60 * 60 * 1_000).toISOString()`
unfoldable pub expiry_after : Platform → Text → Result Text
expiry_after p reserved_at = elim (p.parse_date reserved_at) [
  | none ↦ err range
  | some t ↦ ok (p.to_iso_string (t + week))
]

abbrev pub mode_name : ServiceMode → Text
mode_name shop_for_me = lit "SHOP_FOR_ME"
mode_name carry_my_item = lit "CARRY_MY_ITEM"
mode_name (unsupported s) = s

-- The request that is frozen and returned.
abbrev pub request_of : TripOffer → Text → Text → NormalTerms → Text → SubmittedOrderRequest
request_of trip customer id terms reserved_at = record {
  id = id;
  trip_id = trip.id;
  customer_account_id = customer;
  seller_account_id = trip.owner_account_id;
  jastipper_profile_id = trip.jastipper_profile_id;
  service_mode = service_mode terms;
  source_offer_version = trip.version;
  reserved_capacity_grams = requested_capacity_grams terms;
  submitted_at = reserved_at;
  origin_label = trip.schedule.origin_label;
  destination_label = trip.schedule.destination_label;
  order_open_at = trip.schedule.request_open_at;
  order_close_at = trip.schedule.request_deadline;
  transport_departure_at = trip.schedule.departure_at;
  estimated_arrival_at = trip.schedule.estimated_arrival_at;
  terms = terms;
}

module _ {S : Type 0} (p : Platform) (context : MarketplaceTransactionContext S) where
  -- From the claim that was granted to the capacity that is reserved.
  unfoldable pub reserve_order :
      AuthenticatedActor → Text → NormalTerms → Text → Transaction S (TripOffer × Text)
  reserve_order actor trip_id terms occurred_at = do
    found ← context.find_trip trip_id
    trip ← lift (require_found found)
    lift (require_order_eligible p trip actor.account_id terms occurred_at)
    eligible ← context.lock_eligible_seller trip.owner_account_id trip.jastipper_profile_id
    lift (throw_if (not eligible) (use_case offer_ineligible))
    remaining ← lift (remaining_capacity_grams trip.schedule.remaining_capacity_kg)
    lift (throw_if (ltb remaining (requested_capacity_grams terms)) (use_case capacity_unavailable))
    reserved ← context.reserve_capacity trip.id trip.version (requested_capacity_grams terms)
    reserved_at ← lift (require_reserved reserved)
    return (trip, reserved_at)

  -- The request, its trace in the audit log and the outbox, and the completion of the key.
  unfoldable pub record_order :
      AuthenticatedActor
      → Text
      → SubmissionKey
      → OrderSubmissionDependencies
      → SubmittedOrderRequest
      → Transaction S SubmittedOrderRequest
  record_order actor correlation key dependencies request = do
    context.create request
    context.append_audit (record {
      actor_id = actor.account_id;
      action = lit "order-request.submit";
      target_type = lit "order-request";
      target_id = request.id;
      reason_code = lit "CUSTOMER_SUBMITTED";
      occurred_at = request.submitted_at;
      correlation_id = correlation;
    })
    context.enqueue (record {
      id = dependencies.next_outbox;
      topic = lit "order-request.submitted";
      aggregate_type = lit "order-request";
      aggregate_id = request.id;
      occurred_at = request.submitted_at;
      payload =
          (lit "requestId", request.id)
          ∷ (lit "serviceMode", mode_name request.service_mode)
          ∷ (lit "tripId", request.trip_id)
          ∷ [];
    })
    expires_at ← lift (expiry_after p request.submitted_at)
    context.complete key request.id request.submitted_at expires_at
    return request

  -- What follows each answer to the claim.
  unfoldable pub after_submission_claim :
      AuthenticatedActor
      → Text
      → Text
      → NormalTerms
      → SubmissionKey
      → OrderSubmissionDependencies
      → Text
      → OrderSubmissionClaim
      → Transaction S SubmittedOrderRequest
  unfolding reserve_order record_order
  after_submission_claim actor correlation trip_id terms key dependencies occurred_at
        (replayed request) =
      return request
  after_submission_claim actor correlation trip_id terms key dependencies occurred_at conflicting =
      lift (err (use_case idempotency_conflict))
  after_submission_claim actor correlation trip_id terms key dependencies occurred_at running =
      lift (err (use_case idempotency_in_progress))
  after_submission_claim actor correlation trip_id terms key dependencies occurred_at granted = do
    reserved ← reserve_order actor trip_id terms occurred_at
    id ← lift (order_request_id p dependencies.next_order_request)
    record_order actor correlation key dependencies
        (request_of reserved.0 actor.account_id id terms reserved.1)

  -- `SubmitOrderRequest.execute`
  unfoldable pub submit_order_request :
      OrderSubmissionDependencies
      → AuthenticatedActor
      → OrderSubmission
      → Transaction S SubmittedOrderRequest
  unfolding after_submission_claim
  submit_order_request dependencies actor input = do
    correlation ← lift (normalize_correlation_id input.correlation_id)
    idempotency_key ← lift (normalize_idempotency_key input.idempotency_key)
    terms ← lift (normalize_order_request_terms input.terms)
    let key = submission_key dependencies actor.account_id idempotency_key input.trip_id terms
    occurred_at ← context.authoritative_now
    account ← require_current_actor context actor occurred_at
    answered ← context.claim key occurred_at
    after_submission_claim actor correlation input.trip_id terms key dependencies occurred_at
        answered
