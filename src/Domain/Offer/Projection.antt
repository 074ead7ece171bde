-- ===== src/Domain/Offer/Projection.antt =====
-- The public projection of a trip offer.
use nitip_cuy.Prelude.{◌≡◌, List}
use nitip_cuy.Failure.{ok, after_bind}
use nitip_cuy.Platform.{Platform}
use nitip_cuy.Domain.Trip.{PublicQuestion, PublishedTrip}
use nitip_cuy.Domain.Trip.Create.Publishable.{IsPublishable, create-IsPublishable}
use nitip_cuy.Domain.Offer.{
  TripOffer, JastipperPublicTerms, published, projection, require_status, to_published_trip,
}
use nitip_cuy.Domain.Offer.States.{required}

-- Only a published offer has a public projection, and that projection satisfies the rules of
-- publication of `IsPublishable` for the offer's id and schedule, the seller's terms and the
-- questions given.
pub to_published_trip-IsPublishable :
    (p : Platform) (offer : TripOffer) (terms : JastipperPublicTerms)
    (questions : List PublicQuestion) (out : PublishedTrip)
    → to_published_trip p offer terms questions ≡ ok out
    → (offer.status ≡ published)
      × IsPublishable p (projection offer.id offer.schedule terms questions) out
unfolding to_published_trip
to_published_trip-IsPublishable p offer terms questions out h =
    after_bind (require_status offer published "project") _ h
      λ u e rest. (required offer published "project" e, create-IsPublishable p _ out rest)
