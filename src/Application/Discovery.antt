-- ===== src/Application/Discovery.antt =====
-- packages/application/src/trip-discovery.ts: the search for published trips. `localeCompare` is a
-- parameter: whether the first text does not come after the second.
use nitip_cuy.Prelude.{ℕ, Bool, true, false, ◌||◌, not, Option, none, some, ◌++◌, ltb, length}
use nitip_cuy.Text.{Text, lit, truthy}
use nitip_cuy.Text.Trim.{trim}
use nitip_cuy.Number.{Number, whole, is_integer, less_than, greater_than, to_natural}
use nitip_cuy.Failure.{Result, ok, err, ◌>>=◌, ◌>>◌, throw_if, domain_validation, fixed}
use nitip_cuy.Platform.{Platform}
use nitip_cuy.Domain.Trip.{trip_id}
use nitip_cuy.Domain.Trip.Iso.{is_date_shape}

-- `TripSearchCriteria`; a limit that is given is any number, and a normal one is whole.
pub record TripSearchCriteria (Limit : Type 0) : Type 0 where
  pub destination : Option Text
  pub departure_from : Option Text
  pub departure_to : Option Text
  pub cursor : Option Text
  pub limit : Option Limit

abbrev pub is_no_time : Option ℕ → Bool
is_no_time none = true
is_no_time (some t) = false

-- `normalizeDate`, of a date that is not empty
unfoldable pub require_date : Platform → Text → Result Text
require_date p value = do
  throw_if (not (is_date_shape value) || is_no_time (p.parse_date (value ++ lit "T00:00:00Z")))
      (domain_validation (fixed "Departure filters must use ISO dates."))
  ok value

-- What a function does to a value, if there is one.
unfoldable pub if_given : (Text → Result Text) → Option Text → Result (Option Text)
if_given f none = ok none
if_given f (some value) = elim (f value) [ err error ↦ err error | ok result ↦ ok (some result) ]

abbrev pub trim_option : Option Text → Option Text
trim_option none = none
trim_option (some text) = some (trim text)

abbrev pub is_longer : ℕ → Option Text → Bool
is_longer bound none = false
is_longer bound (some text) = ltb bound (length text)

-- `criteria.limit ?? 20`
abbrev pub given_limit : Option Number → Number
given_limit none = whole 20
given_limit (some limit) = limit

abbrev pub is_bad_limit : Number → Bool
is_bad_limit limit = not (is_integer limit) || less_than limit 1 || greater_than limit 50

-- `departureFrom && departureTo && departureFrom.localeCompare(departureTo) > 0`
abbrev pub is_reversed : (Text → Text → Bool) → Option Text → Option Text → Bool
is_reversed locale_leb (some start) (some end) = not (locale_leb start end)
is_reversed locale_leb _ _ = false

-- `normalizeTripSearchCriteria`
unfoldable pub normalize_trip_search_criteria :
    Platform → (Text → Text → Bool) → TripSearchCriteria Number → Result (TripSearchCriteria ℕ)
normalize_trip_search_criteria p locale_leb criteria = do
  let destination = truthy (trim_option criteria.destination)
  departure_from ← if_given (require_date p) (truthy criteria.departure_from)
  departure_to ← if_given (require_date p) (truthy criteria.departure_to)
  cursor ← if_given (trip_id p) (truthy criteria.cursor)
  let limit = given_limit criteria.limit
  throw_if (is_longer 160 destination) (domain_validation (fixed "Destination filter is too long."))
  throw_if (is_bad_limit limit)
      (domain_validation (fixed "Trip page size must be between 1 and 50."))
  throw_if (is_reversed locale_leb departure_from departure_to)
      (domain_validation (fixed "Departure start date cannot be after the end date."))
  ok (record {
    destination = destination;
    departure_from = departure_from;
    departure_to = departure_to;
    cursor = cursor;
    limit = some (to_natural limit);
  })

-- `ListPublishedTrips.execute`, over the search of a repository
unfoldable pub list_published_trips :
    {A : Type 0}
    → Platform
    → (Text → Text → Bool)
    → (TripSearchCriteria ℕ → A)
    → TripSearchCriteria Number
    → Result A
unfolding normalize_trip_search_criteria
list_published_trips p locale_leb repository criteria = do
  normal ← normalize_trip_search_criteria p locale_leb criteria
  ok (repository normal)
