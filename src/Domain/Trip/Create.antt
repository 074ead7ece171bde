-- ===== src/Domain/Trip/Create.antt =====
-- `createPublishedTrip` of packages/domain/src/trip.ts, its checks in the order of the source.
pub mod Valid
pub mod Questions
pub mod Publishable
pub mod Tests
use nitip_cuy.Prelude.{
  ℕ, String, Bool, true, false, ◌||◌, not, Option, none, some, List, [], ◌∷◌, ◌==◌, if◌then◌else◌,
  leb, length, any,
}
use nitip_cuy.Text.{Text, text_eq}
use nitip_cuy.Number.{Number, is_finite, is_integer, less_than, greater_than}
use nitip_cuy.Failure.{Result, ok, ◌>>=◌, ◌>>◌, throw_if, domain_validation, fixed, Failure}
use nitip_cuy.Platform.{Platform, is_before, is_not_after}
use nitip_cuy.Domain.ServiceMode.{ServiceMode, is_supported, unique_modes}
use nitip_cuy.Domain.Trip.{
  RatingSummary, PublicQuestion, TripSchedule, PublishedTrip, require_label, require_date_only,
  require_iso_date_time, require_time_zone, date_in_time_zone, normalize_question,
}

-- `throw new DomainValidationError(message)`
abbrev pub reject : String → Failure
reject message = domain_validation (fixed message)

-- `publicQuestions.map(normalizeQuestion)`
pub normalize_questions : Platform → List PublicQuestion → Result (List PublicQuestion)
normalize_questions p [] = ok []
normalize_questions p (q ∷ qs) = do
  normalized ← normalize_question p q
  rest ← normalize_questions p qs
  ok (normalized ∷ rest)

-- The loop over `questionIds`: some question has an id that was seen before it.
pub repeats_id : List Text → List PublicQuestion → Bool
repeats_id seen [] = false
repeats_id seen (q ∷ qs) = any (text_eq q.id) seen || repeats_id (q.id ∷ seen) qs

-- The key of the sort; every timestamp has been parsed before.
abbrev pub instant_of : Platform → Text → ℕ
instant_of p s = elim (p.parse_date s) [ none ↦ 0 | some t ↦ t ]

abbrev pub asked_at : Platform → PublicQuestion → ℕ
asked_at p q = instant_of p q.created_at

-- `publicQuestions.sort(…)`, a stable sort by the time of the question.
pub insert_by_time : Platform → PublicQuestion → List PublicQuestion → List PublicQuestion
insert_by_time p q [] = q ∷ []
insert_by_time p q (r ∷ rs) =
    if leb (asked_at p q) (asked_at p r) then q ∷ r ∷ rs else r ∷ insert_by_time p q rs

pub sort_by_time : Platform → List PublicQuestion → List PublicQuestion
unfolding insert_by_time
sort_by_time p [] = []
sort_by_time p (q ∷ qs) = insert_by_time p q (sort_by_time p qs)

-- `requireIsoDateTime` on each of the six timestamps.
pub require_instants : Platform → TripSchedule → Result (Unit {0})
require_instants p s = do
  window_start ← require_iso_date_time p s.service_window_start_at "Service-window start"
  window_end ← require_iso_date_time p s.service_window_end_at "Service-window end"
  departure ← require_iso_date_time p s.departure_at "Departure timestamp"
  opening ← require_iso_date_time p s.request_open_at "Request opening"
  deadline ← require_iso_date_time p s.request_deadline "Request deadline"
  arrival ← require_iso_date_time p s.estimated_arrival_at "Estimated arrival"
  ok tt

-- The six comparisons of the timestamps.
pub require_order : Platform → TripSchedule → Result (Unit {0})
require_order p s = do
  let window_start = p.parse_date s.service_window_start_at
  let window_end = p.parse_date s.service_window_end_at
  let request_open = p.parse_date s.request_open_at
  let request_deadline = p.parse_date s.request_deadline
  let departure = p.parse_date s.departure_at
  let arrival = p.parse_date s.estimated_arrival_at
  throw_if (is_not_after window_end window_start)
      (reject "Service-window start must be before its end.")
  throw_if (is_not_after request_deadline request_open)
      (reject "Request opening must be before the request deadline.")
  throw_if (is_before window_end request_deadline)
      (reject "Request deadline cannot be after the service window ends.")
  throw_if (is_before departure window_end) (reject "Service window cannot end after departure.")
  throw_if (is_not_after departure request_deadline)
      (reject "Request deadline must be before departure.")
  throw_if (is_before arrival departure) (reject "Estimated arrival cannot be before departure.")
  ok tt

pub require_modes : List ServiceMode → Result (List ServiceMode)
require_modes modes = do
  let service_modes = unique_modes modes
  throw_if (length service_modes == 0)
      (reject "A published trip must support at least one service mode.")
  throw_if (any (λ mode. not (is_supported mode)) service_modes)
      (reject "A published trip contains an unsupported service mode.")
  ok service_modes

pub require_numbers : Number → RatingSummary → Result (Unit {0})
require_numbers capacity rating = do
  throw_if (not (is_finite capacity) || less_than capacity 0)
      (reject "Remaining capacity must be a non-negative number.")
  throw_if
      (not (is_finite rating.average)
        || less_than rating.average 0
        || greater_than rating.average 5
        || not (is_integer rating.count)
        || less_than rating.count 0)
      (reject "Rating summary is invalid.")
  ok tt

pub require_questions : Platform → List PublicQuestion → Result (List PublicQuestion)
require_questions p questions = do
  public_questions ← normalize_questions p questions
  throw_if (repeats_id [] public_questions)
      (reject "Public question IDs must be unique within a trip.")
  ok (sort_by_time p public_questions)

-- The schedule, with its labels and zones trimmed and its modes without repetition.
pub require_schedule : Platform → TripSchedule → RatingSummary → Result TripSchedule
require_schedule p s rating = do
  origin_label ← require_label s.origin_label "Origin"
  destination_label ← require_label s.destination_label "Destination"
  throw_if
      (text_eq (p.to_locale_lower_case origin_label) (p.to_locale_lower_case destination_label))
      (reject "Trip origin and destination must be different.")
  departure_date ← require_date_only p s.departure_date "Departure date"
  origin_time_zone ← require_time_zone p s.origin_time_zone "Origin timezone"
  destination_time_zone ← require_time_zone p s.destination_time_zone "Destination timezone"
  require_instants p s
  local_date ← date_in_time_zone p s.departure_at origin_time_zone
  throw_if (not (text_eq local_date s.departure_date))
      (reject "Departure date must match the local date in the departure timestamp.")
  require_order p s
  service_modes ← require_modes s.service_modes
  require_numbers s.remaining_capacity_kg rating
  ok (record s {
    origin_label = origin_label;
    origin_time_zone = origin_time_zone;
    destination_label = destination_label;
    destination_time_zone = destination_time_zone;
    service_modes = service_modes;
  })

pub create_published_trip : Platform → PublishedTrip → Result PublishedTrip
create_published_trip p input = do
  schedule ← require_schedule p input.schedule input.rating
  public_questions ← require_questions p input.public_questions
  jastipper_display_name ← require_label input.jastipper_display_name "Jastipper display name"
  seller_location_label ← require_label input.seller_location_label "Seller location"
  delivery_summary ← require_label input.delivery_summary "Delivery summary"
  rate_summary ← require_label input.rate_summary "Rate summary"
  ok (record input {
    schedule = schedule;
    jastipper_display_name = jastipper_display_name;
    seller_location_label = seller_location_label;
    delivery_summary = delivery_summary;
    rate_summary = rate_summary;
    public_questions = public_questions;
  })
