-- ===== src/Adapters/Discovery.antt =====
-- `InMemoryTripDiscoveryRepository` of packages/adapters/src/in-memory-trip-discovery.ts.
pub mod Pages
pub mod Limits
mod Tests
use nitip_cuy.Prelude.{
  ℕ, zero, suc, Bool, true, false, ◌&&◌, ◌||◌, not, Option, none, some, List, [], ◌∷◌, ◌==◌,
  if◌then◌else◌,
}
use nitip_cuy.Text.{Text, text_eq, truthy}
use nitip_cuy.Platform.{Platform}
use nitip_cuy.Domain.Trip.{PublishedTrip}
use nitip_cuy.Application.Discovery.{TripSearchCriteria}
use nitip_cuy.Adapters.Fingerprint.{text_leb}

abbrev starts_with : Text → Text → Bool
starts_with s [] = true
starts_with [] (d ∷ part) = false
starts_with (c ∷ s) (d ∷ part) = (c == d) && starts_with s part

-- `s.includes(part)`
unfoldable pub includes : Text → Text → Bool
includes [] part = starts_with [] part
includes (c ∷ s) part = starts_with (c ∷ s) part || includes s part

-- The filter's three tests; an empty text sets none.
abbrev pub destination_matches : Platform → Option Text → PublishedTrip → Bool
destination_matches p (some (c ∷ s)) trip =
    includes (p.to_locale_lower_case trip.schedule.destination_label)
      (p.to_locale_lower_case (c ∷ s))
destination_matches p _ trip = true

abbrev pub from_matches : Option Text → PublishedTrip → Bool
from_matches (some (c ∷ s)) trip = text_leb (c ∷ s) trip.schedule.departure_date
from_matches _ trip = true

abbrev pub to_matches : Option Text → PublishedTrip → Bool
to_matches (some (c ∷ s)) trip = text_leb trip.schedule.departure_date (c ∷ s)
to_matches _ trip = true

unfoldable pub filter_trips : (PublishedTrip → Bool) → List PublishedTrip → List PublishedTrip
filter_trips fits [] = []
filter_trips fits (trip ∷ trips) =
    let rest = filter_trips fits trips in if fits trip then trip ∷ rest else rest

-- Whether the comparison of two trips is not positive: by date, and then by identifier.
abbrev pub is_in_order : (Text → Text → Bool) → PublishedTrip → PublishedTrip → Bool
is_in_order locale_leb left right =
    if not (locale_leb right.schedule.departure_date left.schedule.departure_date)
    then true
    else locale_leb left.schedule.departure_date right.schedule.departure_date
      && locale_leb left.id right.id

unfoldable pub insert_trip_sorted :
    (Text → Text → Bool) → PublishedTrip → List PublishedTrip → List PublishedTrip
insert_trip_sorted locale_leb trip [] = trip ∷ []
insert_trip_sorted locale_leb trip (other ∷ others) =
    let rest = insert_trip_sorted locale_leb trip others in
    if is_in_order locale_leb trip other then trip ∷ other ∷ others else other ∷ rest

-- `sort`, which is stable
unfoldable pub sort_trips : (Text → Text → Bool) → List PublishedTrip → List PublishedTrip
unfolding insert_trip_sorted
sort_trips locale_leb [] = []
sort_trips locale_leb (trip ∷ trips) =
    insert_trip_sorted locale_leb trip (sort_trips locale_leb trips)

-- The trips that match, in order.
unfoldable pub matching :
    {L : Type 0}
    → Platform
    → (Text → Text → Bool)
    → List PublishedTrip
    → TripSearchCriteria L
    → List PublishedTrip
unfolding filter_trips sort_trips
matching p locale_leb trips criteria = sort_trips locale_leb (
    filter_trips
      (λ trip.
        destination_matches p criteria.destination trip
        && from_matches criteria.departure_from trip
        && to_matches criteria.departure_to trip)
      trips)

-- What stands after the first trip with the identifier.
unfoldable pub after_trip : Text → List PublishedTrip → Option (List PublishedTrip)
after_trip id [] = none
after_trip id (trip ∷ trips) = if text_eq trip.id id then some trips else after_trip id trips

unfoldable pub take : ℕ → List PublishedTrip → List PublishedTrip
take zero trips = []
take (suc n) [] = []
take (suc n) (trip ∷ trips) = trip ∷ take n trips

-- `criteria.limit ?? 20`
abbrev pub limit_or_default : Option ℕ → ℕ
limit_or_default none = 20
limit_or_default (some limit) = limit

-- The page of a list of matches that follows a cursor.
unfoldable pub page_of : Option Text → ℕ → List PublishedTrip → List PublishedTrip
unfolding after_trip
page_of none limit trips = take limit trips
page_of (some cursor) limit trips = elim (after_trip cursor trips) [
  | none ↦ []
  | some rest ↦ take limit rest
]

-- `searchPublished`
unfoldable pub search_published :
    Platform → (Text → Text → Bool) → List PublishedTrip → TripSearchCriteria ℕ → List PublishedTrip
unfolding matching page_of
search_published p locale_leb trips criteria =
    page_of (truthy criteria.cursor) (limit_or_default criteria.limit)
      (matching p locale_leb trips criteria)

-- `findPublishedById`
unfoldable pub find_published : Text → List PublishedTrip → Option PublishedTrip
find_published id [] = none
find_published id (trip ∷ trips) = if text_eq trip.id id then some trip else find_published id trips
