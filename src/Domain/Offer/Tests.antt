-- ===== src/Domain/Offer/Tests.antt =====
-- A trip offer from its draft to its publication, and examples of what is proved of offers.
use nitip_cuy.Prelude.{◌+◌, ◌≤◌, ◌≡◌, ◌≢◌, refl, none, some, [], ◌∷◌}
use nitip_cuy.Text.{Text, lit, text_eq}
use nitip_cuy.Map.{get}
use nitip_cuy.Failure.{ok}
use nitip_cuy.Domain.ServiceMode.{shop_for_me, carry_my_item, unique_modes}
use nitip_cuy.Domain.Trip.Create.Tests.{sample_platform, sample_schedule, bare_accepted}
use nitip_cuy.Domain.Offer.{
  draft, pending_moderation, published, archived, JastipperPublicTerms, TripOffer,
  validate_projection_shape, create_trip_offer, submit_trip_offer, approve_trip_offer,
  require_instant,
}
use nitip_cuy.Domain.Offer.Projection.{to_published_trip-IsPublishable}
use nitip_cuy.Domain.Trip.Create.Publishable.{IsPublishable}
use nitip_cuy.Domain.Offer.{to_published_trip, projection}
use nitip_cuy.Domain.Trip.Create.Tests.{stored_accepted, bare_published}
use nitip_cuy.Domain.Offer.States.{
  Moves, submit, approve, Reaches, created, stepped, version_in, IsPublishedAt, step-Moves,
  reaches_lem, published_lem,
}

abbrev terms : JastipperPublicTerms
terms = record {
  display_name = lit "Sari";
  seller_location_label = lit "Tokyo";
  delivery_summary = lit "By hand";
  rate_summary = lit "Ten percent";
}

-- What `createTripOffer` is called with.
abbrev input : TripOffer
input = record {
  id = lit "tokyo-1";
  owner_account_id = lit "account-1";
  jastipper_profile_id = lit "profile-1";
  schedule = sample_schedule;
  status = archived;
  version = 0;
  moderation_reason = none;
  published_at = none;
}

abbrev drafted : TripOffer
drafted =
    let i = input in
    let s = sample_schedule in
    record i {
      schedule = record s { service_modes = shop_for_me ∷ carry_my_item ∷ [] };
      status = draft;
      version = 1;
    }

abbrev submitted : TripOffer
submitted = let o = drafted in record o { status = pending_moderation; version = 2 }

abbrev published_at : Text
published_at = lit "2026-07-20T00:00:00Z"

abbrev approved : TripOffer
approved =
    let o = drafted in
    record o { status = published; version = 3; published_at = some published_at }

input_is_drafted : create_trip_offer sample_platform input terms ≡ ok drafted
unfolding create_trip_offer validate_projection_shape unique_modes
input_is_drafted = rw bare_accepted refl

draft_submitted : submit_trip_offer drafted ≡ ok submitted
unfolding submit_trip_offer
draft_submitted = refl

submission_approved : approve_trip_offer sample_platform submitted published_at ≡ ok approved
unfolding approve_trip_offer require_instant get text_eq
submission_approved = refl

offer_approved : Reaches sample_platform input terms 2 approved
offer_approved =
    stepped (stepped (created input_is_drafted) (submit draft_submitted))
      (approve published_at submission_approved)

step-Moves_example :
    Moves drafted.status submitted.status
    × (submitted.version ≡ drafted.version + 1)
    × (submitted.id ≡ drafted.id)
    × (submitted.owner_account_id ≡ drafted.owner_account_id)
    × (submitted.jastipper_profile_id ≡ drafted.jastipper_profile_id)
    × (submitted.schedule ≡ drafted.schedule)
step-Moves_example = step-Moves sample_platform drafted submitted (submit draft_submitted)

reaches_lem_example :
    (approved.version ≡ 2 + 1)
    × (approved.version ≡ version_in approved.status)
    × (2 ≤ 2)
    × (approved.status ≢ archived)
    × (approved.id ≡ input.id)
    × (approved.owner_account_id ≡ input.owner_account_id)
reaches_lem_example = reaches_lem sample_platform input terms 2 approved offer_approved

published_lem_example : IsPublishedAt sample_platform approved
published_lem_example = published_lem sample_platform input terms 2 approved offer_approved refl

offer_projected : to_published_trip sample_platform approved terms [] ≡ ok bare_published
unfolding to_published_trip
offer_projected = rw stored_accepted refl

to_published_trip-IsPublishable_example :
    (approved.status ≡ published)
    × IsPublishable sample_platform
        (projection approved.id approved.schedule terms [])
        bare_published
to_published_trip-IsPublishable_example =
    to_published_trip-IsPublishable sample_platform approved terms [] bare_published offer_projected
