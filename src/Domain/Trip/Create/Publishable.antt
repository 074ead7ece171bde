-- ===== src/Domain/Trip/Create/Publishable.antt =====
-- What `createPublishedTrip` guarantees of every trip that it returns.
use nitip_cuy.Prelude.{◌≡◌, refl, sym, subst}
use nitip_cuy.Text.Trim.{trim}
use nitip_cuy.Failure.{ok, after_bind, ok_path}
use nitip_cuy.Platform.{Platform}
use nitip_cuy.Domain.ServiceMode.{unique_modes}
use nitip_cuy.Domain.Trip.{TripSchedule, PublishedTrip, require_label}
use nitip_cuy.Domain.Trip.Create.{require_schedule, require_questions, create_published_trip}
use nitip_cuy.Domain.Trip.Create.Valid.{
  IsLabel, IsRating, IsSchedule, require_schedule-IsSchedule, require_label-IsLabel,
}
use nitip_cuy.Domain.Trip.Create.Questions.{IsDiscussion, require_questions-IsDiscussion}

-- The labels and zones of the input are trimmed, and its modes without repetition.
abbrev pub normalized : TripSchedule → TripSchedule
normalized s = record s {
  origin_label = trim s.origin_label;
  origin_time_zone = trim s.origin_time_zone;
  destination_label = trim s.destination_label;
  destination_time_zone = trim s.destination_time_zone;
  service_modes = unique_modes s.service_modes;
}

pub record IsPublishable (p : Platform) (input out : PublishedTrip) : Type 0 where
  pub id : out.id ≡ input.id
  pub schedule : IsSchedule p out.schedule
  pub from_input : out.schedule ≡ normalized input.schedule
  pub rating : out.rating ≡ input.rating
  pub is_rating : IsRating out.rating
  pub questions : IsDiscussion p input.public_questions out.public_questions
  pub display_name : IsLabel out.jastipper_display_name
  pub location : IsLabel out.seller_location_label
  pub delivery : IsLabel out.delivery_summary
  pub rate : IsLabel out.rate_summary

-- A trip that `createPublishedTrip` returns has the input's id and rating, the input's schedule with
-- labels and zones trimmed and modes without repetition, and the input's questions normalized and
-- sorted. It satisfies the rules of publication: distinct trimmed labels, known time zones, ISO
-- timestamps, a departure date that is the local date of departure, windows and journey in order,
-- supported modes, a finite capacity that is not negative, a rating of up to five, questions of
-- distinct ids in the order of their times with ISO timestamps and no answer before its question,
-- and texts, of the trip and its questions and answers, that are trimmed and have two code units.
pub create-IsPublishable :
    (p : Platform) (input out : PublishedTrip)
    → create_published_trip p input ≡ ok out
    → IsPublishable p input out
unfolding create_published_trip
create-IsPublishable p input out h =
    after_bind (require_schedule p input.schedule input.rating) _ h λ s es h1.
      after_bind (require_questions p input.public_questions) _ h1 λ q eq h2.
        after_bind (require_label input.jastipper_display_name "Jastipper display name") _ h2
          λ d ed h3.
            after_bind (require_label input.seller_location_label "Seller location") _ h3 λ l el h4.
              after_bind (require_label input.delivery_summary "Delivery summary") _ h4 λ y ey h5.
                after_bind (require_label input.rate_summary "Rate summary") _ h5 λ r er h6.
                  let (valid, rating, from) =
                    require_schedule-IsSchedule p input.schedule input.rating s es in
                  subst (λ t. IsPublishable p input t) (sym (ok_path h6))
                    (record {
                      id = refl;
                      schedule = valid;
                      from_input = from;
                      rating = refl;
                      is_rating = rating;
                      questions = require_questions-IsDiscussion p input.public_questions q eq;
                      display_name = (require_label-IsLabel p _ _ d ed).0;
                      location = (require_label-IsLabel p _ _ l el).0;
                      delivery = (require_label-IsLabel p _ _ y ey).0;
                      rate = (require_label-IsLabel p _ _ r er).0;
                    })
