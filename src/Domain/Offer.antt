-- ===== src/Domain/Offer.antt =====
-- packages/domain/src/marketplace.ts: the trip offer and its moderation states.
pub mod States
pub mod Projection
mod Tests
use nitip_cuy.Prelude.{
  ℕ, ◌+◌, Bool, true, false, ◌||◌, not, String, Option, none, some, List, [], ltb, ◌==◌, length,
}
use nitip_cuy.Text.{Text}
use nitip_cuy.Text.Trim.{trim}
use nitip_cuy.Number.{whole}
use nitip_cuy.Failure.{
  Result, ok, ◌>>=◌, ◌>>◌, throw_if, domain_validation, state_conflict, between, about,
}
use nitip_cuy.Platform.{Platform}
use nitip_cuy.Domain.ServiceMode.{unique_modes}
use nitip_cuy.Domain.Trip.{PublicQuestion, TripSchedule, PublishedTrip}
use nitip_cuy.Domain.Trip.Create.{create_published_trip}

pub data TripOfferStatus : Type 0 where
  draft pending_moderation published rejected archived : TripOfferStatus

abbrev pub status_rank : TripOfferStatus → ℕ
status_rank draft = 0
status_rank pending_moderation = 1
status_rank published = 2
status_rank rejected = 3
status_rank archived = 4

-- `offer.status === expected`
abbrev pub status_is : TripOfferStatus → TripOfferStatus → Bool
status_is a b = status_rank a == status_rank b

pub record JastipperPublicTerms : Type 0 where
  pub display_name : Text
  pub seller_location_label : Text
  pub delivery_summary : Text
  pub rate_summary : Text

pub record TripOffer : Type 0 where
  pub id : Text
  pub owner_account_id : Text
  pub jastipper_profile_id : Text
  pub schedule : TripSchedule
  pub status : TripOfferStatus
  pub version : ℕ
  pub moderation_reason : Option Text
  pub published_at : Option Text

-- `boundedText` of marketplace.ts, which tests no control characters.
unfoldable pub bounded_text : Text → String → ℕ → ℕ → Result Text
bounded_text value field minimum maximum = do
  let normalized = trim value
  throw_if (ltb (length normalized) minimum || ltb maximum (length normalized))
      (domain_validation (between field minimum maximum))
  ok normalized

unfoldable pub normalize_discussion_message : Text → Result Text
normalize_discussion_message value = bounded_text value "Public discussion message" 5 500

unfoldable pub normalize_display_name : Text → Result Text
normalize_display_name value = bounded_text value "Display name" 2 120

pub normalize_public_terms : JastipperPublicTerms → Result JastipperPublicTerms
unfolding normalize_display_name
normalize_public_terms input = do
  delivery_summary ← bounded_text input.delivery_summary "Delivery summary" 2 500
  display_name ← normalize_display_name input.display_name
  rate_summary ← bounded_text input.rate_summary "Rate summary" 2 500
  seller_location_label ← bounded_text input.seller_location_label "Seller location" 2 160
  ok (record {
    display_name = display_name;
    seller_location_label = seller_location_label;
    delivery_summary = delivery_summary;
    rate_summary = rate_summary;
  })

-- The input that an offer is projected from: no rating yet.
abbrev pub projection :
    Text → TripSchedule → JastipperPublicTerms → List PublicQuestion → PublishedTrip
projection id schedule terms questions = record {
  id = id;
  schedule = schedule;
  jastipper_display_name = terms.display_name;
  seller_location_label = terms.seller_location_label;
  delivery_summary = terms.delivery_summary;
  rate_summary = terms.rate_summary;
  rating = record { average = whole 0; count = whole 0 };
  public_questions = questions;
}

unfoldable pub require_status : TripOffer → TripOfferStatus → String → Result (Unit {0})
require_status offer expected operation =
    throw_if (not (status_is offer.status expected))
      (state_conflict (about operation "a trip in another state."))

unfoldable pub require_instant : Platform → Text → String → Result Text
require_instant p value field = do
  throw_if (elim (p.parse_date value) [ none ↦ true | some t ↦ false ])
      (domain_validation (about field "must be an ISO timestamp."))
  ok value

-- `validateProjectionShape`
unfoldable pub validate_projection_shape :
    Platform → TripOffer → JastipperPublicTerms → Result (Unit {0})
validate_projection_shape p input terms = do
  trip ← create_published_trip p (projection input.id input.schedule terms [])
  ok tt

-- `createTripOffer`: `input` has no status and version, so those fields of it are not read.
unfoldable pub create_trip_offer : Platform → TripOffer → JastipperPublicTerms → Result TripOffer
unfolding validate_projection_shape
create_trip_offer p input terms = do
  validate_projection_shape p input terms
  let schedule = input.schedule
  ok (record input {
    schedule = record schedule { service_modes = unique_modes input.schedule.service_modes };
    status = draft;
    version = 1;
  })

unfoldable pub submit_trip_offer : TripOffer → Result TripOffer
unfolding require_status
submit_trip_offer offer = do
  require_status offer draft "submit"
  ok (record offer { status = pending_moderation; version = offer.version + 1 })

unfoldable pub approve_trip_offer : Platform → TripOffer → Text → Result TripOffer
unfolding require_status require_instant
approve_trip_offer p offer published_at = do
  require_status offer pending_moderation "approve"
  instant ← require_instant p published_at "Publication timestamp"
  ok (record offer {
    status = published;
    version = offer.version + 1;
    published_at = some published_at;
  })

unfoldable pub reject_trip_offer : TripOffer → Text → Result TripOffer
unfolding require_status bounded_text
reject_trip_offer offer moderation_reason = do
  require_status offer pending_moderation "reject"
  reason ← bounded_text moderation_reason "Moderation reason" 2 500
  ok (record offer {
    status = rejected;
    version = offer.version + 1;
    moderation_reason = some reason;
  })

unfoldable pub to_published_trip :
    Platform → TripOffer → JastipperPublicTerms → List PublicQuestion → Result PublishedTrip
unfolding require_status
to_published_trip p offer terms questions = do
  require_status offer published "project"
  create_published_trip p (projection offer.id offer.schedule terms questions)
