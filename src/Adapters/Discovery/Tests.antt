-- ===== src/Adapters/Discovery/Tests.antt =====
-- A search of three trips, two of which match, in pages of one.
use nitip_cuy.Prelude.{ℕ, ◌≤◌, length, ◌≡◌, refl, none, some, List, [], ◌∷◌, arith}
use nitip_cuy.Text.{Text, lit, text_eq}
use nitip_cuy.Text.Trim.{trim}
use nitip_cuy.Text.Chars.{is_space}
use nitip_cuy.Number.{Number, whole}
use nitip_cuy.Failure.{ok}
use nitip_cuy.Domain.Trip.{PublishedTrip}
use nitip_cuy.Domain.Trip.Iso.{is_date_shape}
use nitip_cuy.Application.Discovery.{
  TripSearchCriteria, if_given, require_date, normalize_trip_search_criteria, list_published_trips,
}
use nitip_cuy.Adapters.Fingerprint.{text_leb}
use nitip_cuy.Adapters.Marketplace.Repositories.Tests.{dated_platform}
use nitip_cuy.Adapters.Marketplace.Orders.Tests.{platform}
use nitip_cuy.Adapters.Discovery.{
  includes, filter_trips, insert_trip_sorted, sort_trips, matching, take, page_of, search_published,
}
use nitip_cuy.Adapters.Discovery.Limits.{listed_at_most}
use nitip_cuy.Adapters.Discovery.Pages.{follow_pages, pages_list_all}

abbrev trip_to : Text → Text → Text → PublishedTrip
trip_to id destination date = record {
  id = id;
  schedule = record {
    origin_label = lit "Tokyo";
    origin_time_zone = lit "Asia/Tokyo";
    destination_label = destination;
    destination_time_zone = lit "Asia/Jakarta";
    service_window_start_at = [];
    service_window_end_at = [];
    departure_date = date;
    departure_at = [];
    request_open_at = [];
    request_deadline = [];
    estimated_arrival_at = [];
    service_modes = [];
    remaining_capacity_kg = whole 5;
  };
  jastipper_display_name = lit "Sari";
  seller_location_label = lit "Tokyo";
  delivery_summary = lit "By post";
  rate_summary = lit "Ten percent";
  rating = record { average = whole 0; count = whole 0 };
  public_questions = [];
}

abbrev later : PublishedTrip
later = trip_to (lit "trip-a") (lit "Jakarta") (lit "2026-05-01")

abbrev sooner : PublishedTrip
sooner = trip_to (lit "trip-b") (lit "Jakarta Pusat") (lit "2026-04-01")

abbrev elsewhere : PublishedTrip
elsewhere = trip_to (lit "trip-c") (lit "Osaka") (lit "2026-04-15")

abbrev all_trips : List PublishedTrip
all_trips = later ∷ sooner ∷ elsewhere ∷ []

abbrev to_jakarta : TripSearchCriteria ℕ
to_jakarta = record {
  destination = some (lit "Jakarta");
  departure_from = some (lit "2026-03-01");
  departure_to = none;
  cursor = none;
  limit = some 1;
}

two_match : matching platform text_leb all_trips to_jakarta ≡ sooner ∷ later ∷ []
unfolding matching filter_trips sort_trips insert_trip_sorted includes text_leb
two_match = refl

pages_list_all_example :
    follow_pages 3
      (λ c. search_published platform text_leb all_trips (record to_jakarta { cursor = c }))
      none
    ≡ matching platform text_leb all_trips to_jakarta
unfolding matching filter_trips sort_trips insert_trip_sorted includes text_leb text_eq
pages_list_all_example =
    pages_list_all platform text_leb all_trips to_jakarta 0 3 refl refl (omega arith)

abbrev asked : TripSearchCriteria Number
asked = record {
  destination = some (lit " Jakarta ");
  departure_from = some (lit "2026-03-01");
  departure_to = none;
  cursor = none;
  limit = some (whole 1);
}

one_listed :
    list_published_trips dated_platform text_leb
      (search_published dated_platform text_leb all_trips)
      asked
    ≡ ok (sooner ∷ [])
unfolding list_published_trips normalize_trip_search_criteria if_given require_date is_date_shape
    trim is_space search_published page_of take matching filter_trips sort_trips insert_trip_sorted
    includes text_leb
one_listed = refl

listed_at_most_example : length (sooner ∷ []) ≤ 50
listed_at_most_example =
    listed_at_most dated_platform text_leb all_trips asked (sooner ∷ []) one_listed
