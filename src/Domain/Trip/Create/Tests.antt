-- ===== src/Domain/Trip/Create/Tests.antt =====
-- A run of `createPublishedTrip`, and examples of what is proved of it and of trip offers.
use nitip_cuy.Prelude.{ℕ, ◌≡◌, refl, false, some, [], ◌∷◌, ◌==◌, if◌then◌else◌, any}
use nitip_cuy.Text.{Text, lit, text_eq}
use nitip_cuy.Text.Chars.{is_space}
use nitip_cuy.Text.Trim.{trim}
use nitip_cuy.Map.{TextMap, get}
use nitip_cuy.Number.{decimal, whole}
use nitip_cuy.Failure.{ok}
use nitip_cuy.Platform.{Platform}
use nitip_cuy.Domain.ServiceMode.{shop_for_me, carry_my_item, unique_modes}
use nitip_cuy.Domain.Trip.{
  PublicQuestion, TripSchedule, PublishedTrip, require_label, require_date_only, is_valid_date_only,
  require_time_zone, require_iso_date_time, date_in_time_zone, normalize_answer, optional_answer,
  normalize_question,
}
use nitip_cuy.Domain.Trip.Iso.{is_date_shape, match_iso_date_time}
use nitip_cuy.Domain.Trip.Create.{
  create_published_trip, require_schedule, require_instants, require_order, require_modes,
  insert_by_time, normalize_questions, repeats_id, require_numbers, require_questions, sort_by_time,
}
use nitip_cuy.Domain.Trip.Create.Publishable.{IsPublishable, create-IsPublishable}

-- The instants that the examples use, in days.
abbrev instants : TextMap ℕ
instants =
    (lit "2026-07-20T00:00:00Z", 20)
    ∷ (lit "2026-08-01T00:00:00Z", 32)
    ∷ (lit "2026-08-10T00:00:00Z", 41)
    ∷ (lit "2026-08-15T00:00:00Z", 46)
    ∷ (lit "2026-08-16T00:00:00Z", 47)
    ∷ []

abbrev date_of : ℕ → Text
date_of t =
    if t == 20
    then lit "2026-07-20"
    else if t == 32
    then lit "2026-08-01"
    else if t == 41
    then lit "2026-08-10"
    else if t == 46
    then lit "2026-08-15"
    else lit "2026-08-16"

abbrev pub sample_platform : Platform
sample_platform = record {
  to_lower_case = λ s. s;
  to_locale_lower_case = λ s. s;
  to_upper_case = λ s. s;
  parse_date = λ s. get s instants;
  to_iso_string = λ t. date_of t;
  utc_date = date_of;
  is_time_zone = λ s. any (text_eq s) (lit "Asia/Jakarta" ∷ lit "Asia/Tokyo" ∷ []);
  zone_date = λ t zone. date_of t;
}

abbrev pub sample_schedule : TripSchedule
sample_schedule = record {
  origin_label = lit "Tokyo ";
  origin_time_zone = lit "Asia/Tokyo";
  destination_label = lit "Jakarta";
  destination_time_zone = lit "Asia/Jakarta";
  service_window_start_at = lit "2026-08-01T00:00:00Z";
  service_window_end_at = lit "2026-08-15T00:00:00Z";
  departure_date = lit "2026-08-15";
  departure_at = lit "2026-08-15T00:00:00Z";
  request_open_at = lit "2026-07-20T00:00:00Z";
  request_deadline = lit "2026-08-10T00:00:00Z";
  estimated_arrival_at = lit "2026-08-16T00:00:00Z";
  service_modes = shop_for_me ∷ carry_my_item ∷ shop_for_me ∷ [];
  remaining_capacity_kg = decimal false 125 1;
}

abbrev question : Text → PublicQuestion
question created_at = record {
  id = created_at;
  author_display_name = lit "Budi";
  message = lit "May I order?";
  created_at = created_at;
  answer = some (record {
    author_display_name = lit "Sari";
    message = lit "Yes.";
    created_at = lit "2026-08-10T00:00:00Z";
  });
}

abbrev sample_trip : PublishedTrip
sample_trip = record {
  id = lit "tokyo-1";
  schedule = sample_schedule;
  jastipper_display_name = lit "Sari";
  seller_location_label = lit "Tokyo";
  delivery_summary = lit "By hand";
  rate_summary = lit "Ten percent";
  rating = record { average = whole 0; count = whole 0 };
  public_questions =
      question (lit "2026-08-01T00:00:00Z") ∷ question (lit "2026-07-20T00:00:00Z") ∷ [];
}

abbrev published_trip : PublishedTrip
published_trip =
    let t = sample_trip in
    let s = sample_schedule in
    record t {
      schedule = record s {
        origin_label = lit "Tokyo";
        service_modes = shop_for_me ∷ carry_my_item ∷ [];
      };
      public_questions =
          question (lit "2026-07-20T00:00:00Z") ∷ question (lit "2026-08-01T00:00:00Z") ∷ [];
    }

sample_accepted : create_published_trip sample_platform sample_trip ≡ ok published_trip
unfolding create_published_trip require_schedule require_label trim is_space text_eq
    require_date_only is_valid_date_only is_date_shape require_time_zone require_instants
    require_iso_date_time match_iso_date_time date_in_time_zone require_order require_modes
    unique_modes insert_by_time normalize_questions repeats_id require_numbers require_questions
    sort_by_time normalize_answer normalize_question optional_answer get
sample_accepted = refl

-- The same trip without questions, as the projection of an offer has it.
abbrev pub bare_trip : PublishedTrip
bare_trip = let t = sample_trip in record t { public_questions = [] }

abbrev pub bare_published : PublishedTrip
bare_published = let t = published_trip in record t { public_questions = [] }

pub bare_accepted : create_published_trip sample_platform bare_trip ≡ ok bare_published
unfolding create_published_trip require_schedule require_label trim is_space text_eq
    require_date_only is_valid_date_only is_date_shape require_time_zone require_instants
    require_iso_date_time match_iso_date_time date_in_time_zone require_order require_modes
    unique_modes insert_by_time normalize_questions repeats_id require_numbers require_questions
    sort_by_time normalize_answer normalize_question optional_answer get
bare_accepted = refl

-- The same again, as an offer stores it: its modes without repetition.
abbrev pub stored_trip : PublishedTrip
stored_trip =
    let t = bare_trip in
    let s = sample_schedule in
    record t { schedule = record s { service_modes = shop_for_me ∷ carry_my_item ∷ [] } }

pub stored_accepted : create_published_trip sample_platform stored_trip ≡ ok bare_published
unfolding create_published_trip require_schedule require_label trim is_space text_eq
    require_date_only is_valid_date_only is_date_shape require_time_zone require_instants
    require_iso_date_time match_iso_date_time date_in_time_zone require_order require_modes
    unique_modes insert_by_time normalize_questions repeats_id require_numbers require_questions
    sort_by_time normalize_answer normalize_question optional_answer get
stored_accepted = refl

create-IsPublishable_example : IsPublishable sample_platform sample_trip published_trip
create-IsPublishable_example =
    create-IsPublishable sample_platform sample_trip published_trip sample_accepted
