-- ===== src/Adapters/Marketplace/Orders/Tests.antt =====
-- An order that is placed, and its trip sold out; and examples of what is proved of submissions.
use nitip_cuy.Prelude.{
  ℕ, ◌+◌, ◌≤◌, ◌≡◌, refl, true, Option, none, some, List, [], ◌∷◌, ◌++◌, if◌then◌else◌, ◌==◌,
}
use nitip_cuy.Text.{Text, lit, text_eq}
use nitip_cuy.Text.Chars.{is_space, matches}
use nitip_cuy.Text.Trim.{trim}
use nitip_cuy.Number.{whole}
use nitip_cuy.Failure.{ok}
use nitip_cuy.Platform.{Platform, IsIsoPlatform}
use nitip_cuy.Transaction.{◌>>=◌, lift, return, reads, writes}
use nitip_cuy.Domain.ServiceMode.{shop_for_me, mode_eq}
use nitip_cuy.Domain.Trip.{trip_id}
use nitip_cuy.Domain.OrderRequest.{
  given, GivenTerms, NormalTerms, shop, bounded_text, bounded_integer, capacity_grams,
  require_boolean, optional_text, normalize_order_request_terms, requested_capacity_grams,
}
use nitip_cuy.Domain.Offer.{JastipperPublicTerms, published}
use nitip_cuy.Domain.Account.{
  active, base, AuthenticatedActor, is_uuid, branded_uuid, account_id, jastipper_profile_id,
  order_request_id,
}
use nitip_cuy.Application.Idempotency.{is_valid_idempotency_key}
use nitip_cuy.Application.Marketplace.{
  SubmittedOrderRequest, granted, replayed, SubmissionKey, require_found, require_active_account,
  require_current_actor, normalize_correlation_id, normalize_idempotency_key,
  remaining_capacity_grams,
}
use nitip_cuy.Application.Marketplace.OrderSubmission.{
  OrderSubmissionDependencies, require_order_eligible, require_reserved, expiry_after,
  reserve_order, record_order, after_submission_claim, submit_order_request,
}
use nitip_cuy.Application.Marketplace.OrderSubmission.Eligible.{IsPlacement, placed-IsPlacement}
use nitip_cuy.Adapters.Marketplace.{
  TripRow, OrderRow, shop_columns, Database, map_service_mode, map_service_modes, map_trip_offer,
  map_account, grams_to_decimal_kilograms,
}
use nitip_cuy.Adapters.Marketplace.Writing.{order_row, store_terms, date_column}
use nitip_cuy.Adapters.Marketplace.Orders.{
  Readings, count_matching, update_matching, authoritative_now, claim_found, claim_submission,
  reserve_candidate, reserve_capacity, lock_eligible_seller, create_order, complete_submission,
  map_found_trip, map_found_account, is_live, transaction_context,
}
use nitip_cuy.Adapters.Marketplace.{decimal_kilograms_to_grams}
use nitip_cuy.Adapters.Marketplace.Units.{requested_capacity_roundtrip}
use nitip_cuy.Adapters.Marketplace.Orders.RoundTrip.{IsStorable}
use nitip_cuy.Adapters.Marketplace.Orders.Replay.{recorded_claim}
use nitip_cuy.Prelude.{arith}
use nitip_cuy.Adapters.Marketplace.Orders.Conservation.{remaining_of, reserved_of}
use nitip_cuy.Adapters.Marketplace.Orders.Submissions.{
  Attempt, after_attempts, attempts_never_oversell,
}

-- A timestamp is an `@` and the instant.
abbrev read_instant : Text → Option ℕ
read_instant (c ∷ t ∷ []) = if c == b'@' then some t else none
read_instant _ = none

abbrev pub at : ℕ → Text
at t = b'@' ∷ t ∷ []

abbrev pub platform : Platform
platform = record {
  to_lower_case = λ s. s;
  to_locale_lower_case = λ s. s;
  to_upper_case = λ s. s;
  parse_date = read_instant;
  to_iso_string = at;
  utc_date = at;
  is_time_zone = λ s. true;
  zone_date = λ t zone. at t;
}

abbrev pub uuid : Text → Text
uuid last = lit "11111111-1111-4111-8111-11111111111" ++ last

abbrev pub seller : Text
seller = uuid (lit "1")

abbrev pub customer : Text
customer = uuid (lit "2")

abbrev pub profile : Text
profile = uuid (lit "3")

abbrev pub session : Text
session = uuid (lit "4")

abbrev pub trip_key : Text
trip_key = lit "trip-1"

-- 12.5 kg are left.
abbrev pub trip : TripRow
trip = record {
  id = trip_key;
  owner_account_id = seller;
  jastipper_profile_id = profile;
  status = published;
  version = 3;
  origin_label = lit "Tokyo";
  origin_time_zone = lit "Asia/Tokyo";
  destination_label = lit "Jakarta";
  destination_time_zone = lit "Asia/Jakarta";
  service_window_start_at = 10;
  service_window_end_at = 40;
  departure_date = 45;
  departure_at = 46;
  request_open_at = 5;
  request_deadline = 30;
  estimated_arrival_at = 47;
  service_modes = shop_for_me ∷ [];
  remaining_capacity = 1250;
  moderation_reason = none;
  published_at = some 4;
}

abbrev terms_of_seller : JastipperPublicTerms
terms_of_seller = record {
  display_name = lit "Sari";
  seller_location_label = lit "Tokyo";
  delivery_summary = lit "By post";
  rate_summary = lit "Ten percent";
}

abbrev pub database : Database
database = record {
  trips = trip ∷ [];
  orders = [];
  submissions = [];
  accounts =
      record { id = seller; status = active; display_name = lit "Sari"; session_version = 1 }
      ∷ record { id = customer; status = active; display_name = lit "Budi"; session_version = 2 }
      ∷ [];
  profiles =
      record { id = profile; account_id = seller; is_active = true; terms = terms_of_seller } ∷ [];
  sessions =
      record {
        id = session;
        account_id = customer;
        assurance = base;
        is_active = true;
        account_session_version = 2;
        idle_expires_at = 100;
        absolute_expires_at = 200;
      }
      ∷ [];
  audit = [];
  outbox = [];
  identities = [];
  capabilities = [];
  decisions = [];
  questions = [];
  answers = [];
}

abbrev actor : AuthenticatedActor
actor = record { account_id = customer; session_id = session; assurance = base; capabilities = [] }

abbrev dependencies : Text → OrderSubmissionDependencies
dependencies next = record {
  sha256 = λ s. s;
  stringify_submission = λ id terms. id;
  next_order_request = uuid next;
  next_outbox = uuid (lit "f");
}

-- 8 kg of tea.
abbrev tea : GivenTerms
tea = shop (record {
  item_description = given (lit "tea");
  quantity = whole 2;
  maximum_budget_idr = whole 150000;
  requested_capacity_grams = whole 8000;
  allow_substitution = given true;
  variation = none;
})

abbrev pub readings : Readings
readings = record { observed_at = 20; reserved_at = 21; lock_acquired = true }

abbrev attempt : Text → Text → Attempt
attempt next key = record {
  readings = readings;
  dependencies = dependencies next;
  actor = actor;
  input = record {
    trip_id = trip_key;
    terms = tea;
    correlation_id = lit "correlation-1";
    idempotency_key = key;
  };
}

abbrev two_attempts : List Attempt
two_attempts = attempt (lit "a") (lit "key-0001") ∷ attempt (lit "b") (lit "key-0002") ∷ []

-- The first is placed, and the second finds too little left.
two_attempted :
    (remaining_of trip_key (after_attempts platform database two_attempts).trips ≡ 450)
    × (reserved_of trip_key (after_attempts platform database two_attempts).orders ≡ 800)
unfolding remaining_of reserved_of after_attempts submit_order_request after_submission_claim
    reserve_order record_order require_current_actor require_found require_active_account
    normalize_correlation_id normalize_idempotency_key is_valid_idempotency_key matches trim
    is_space text_eq normalize_order_request_terms bounded_text bounded_integer capacity_grams
    require_boolean optional_text requested_capacity_grams remaining_capacity_grams
    require_order_eligible require_reserved expiry_after mode_eq is_uuid branded_uuid account_id
    jastipper_profile_id order_request_id trip_id ◌>>=◌ lift return reads writes map_service_mode
    map_service_modes map_trip_offer map_account grams_to_decimal_kilograms order_row store_terms
    date_column count_matching update_matching authoritative_now claim_found claim_submission
    reserve_candidate reserve_capacity lock_eligible_seller create_order complete_submission
    map_found_trip map_found_account is_live
two_attempted = (refl, refl)

attempts_never_oversell_example :
    let after = after_attempts platform database two_attempts in
    (remaining_of trip_key after.trips + reserved_of trip_key after.orders
      ≡ remaining_of trip_key database.trips + reserved_of trip_key database.orders)
    × (reserved_of trip_key after.orders
        ≤ remaining_of trip_key database.trips + reserved_of trip_key database.orders)
attempts_never_oversell_example = attempts_never_oversell platform database two_attempts trip_key

abbrev terms : NormalTerms
terms = shop (record {
  item_description = lit "tea";
  quantity = 2;
  maximum_budget_idr = 150000;
  requested_capacity_grams = 8000;
  allow_substitution = true;
  variation = none;
})

abbrev placed : SubmittedOrderRequest
placed = record {
  id = uuid (lit "a");
  trip_id = trip_key;
  customer_account_id = customer;
  seller_account_id = seller;
  jastipper_profile_id = profile;
  service_mode = shop_for_me;
  source_offer_version = 3;
  reserved_capacity_grams = 8000;
  submitted_at = at 21;
  origin_label = trip.origin_label;
  destination_label = trip.destination_label;
  order_open_at = at 5;
  order_close_at = at 30;
  transport_departure_at = at 46;
  estimated_arrival_at = at 47;
  terms = terms;
}

abbrev key : SubmissionKey
key = record {
  customer_account_id = customer;
  key_digest = lit "digest";
  fingerprint = lit "print";
}

abbrev placed_row : OrderRow
placed_row = record {
  id = placed.id;
  trip_id = trip_key;
  customer_account_id = customer;
  seller_account_id = seller;
  jastipper_profile_id = profile;
  source_offer_version = 3;
  reserved_capacity = 800;
  terms = shop_columns (lit "tea") 2 150000 true none;
  origin_label = trip.origin_label;
  destination_label = trip.destination_label;
  order_open_at = 5;
  order_close_at = 30;
  transport_departure_at = 46;
  estimated_arrival_at = 47;
  submitted_at = 21;
}

abbrev placed_database : Database
placed_database =
    let db = database in
    let row = trip in
    record db {
      trips = record row { remaining_capacity = 450; version = 4 } ∷ [];
      orders = placed_row ∷ [];
      submissions =
          record {
            customer_account_id = customer;
            key_digest = lit "digest";
            fingerprint = lit "print";
            request_id = placed.id;
            completed_at = 21;
            expires_at = 604_800_021;
          }
          ∷ [];
      audit =
          record {
            actor_id = customer;
            action = lit "order-request.submit";
            target_type = lit "order-request";
            target_id = placed.id;
            reason_code = lit "CUSTOMER_SUBMITTED";
            occurred_at = at 21;
            correlation_id = lit "correlation-1";
          }
          ∷ [];
      outbox =
          record {
            id = uuid (lit "f");
            topic = lit "order-request.submitted";
            aggregate_type = lit "order-request";
            aggregate_id = placed.id;
            occurred_at = at 21;
            payload =
                (lit "requestId", placed.id)
                ∷ (lit "serviceMode", lit "SHOP_FOR_ME")
                ∷ (lit "tripId", trip_key)
                ∷ [];
          }
          ∷ [];
    }

tea_placed :
    after_submission_claim platform
      (transaction_context platform readings)
      actor
      (lit "correlation-1")
      trip_key
      terms
      key
      (dependencies (lit "a"))
      (at 20)
      granted
      database
    ≡ ok (placed, placed_database)
unfolding after_submission_claim reserve_order record_order require_current_actor require_found
    require_active_account normalize_correlation_id normalize_idempotency_key
    is_valid_idempotency_key matches trim is_space text_eq normalize_order_request_terms
    bounded_text bounded_integer capacity_grams require_boolean optional_text
    requested_capacity_grams remaining_capacity_grams require_order_eligible require_reserved
    expiry_after mode_eq is_uuid branded_uuid account_id jastipper_profile_id order_request_id
    trip_id ◌>>=◌ lift return reads writes map_service_mode map_service_modes map_trip_offer
    map_account grams_to_decimal_kilograms order_row store_terms date_column count_matching
    update_matching authoritative_now claim_found claim_submission reserve_candidate
    reserve_capacity lock_eligible_seller create_order complete_submission map_found_trip
    map_found_account is_live
tea_placed = refl

placed-IsPlacement_example :
    IsPlacement platform
      (transaction_context platform readings)
      customer
      trip_key
      terms
      (uuid (lit "a"))
      (at 20)
      placed
placed-IsPlacement_example =
    placed-IsPlacement platform (transaction_context platform readings) actor (lit "correlation-1")
      trip_key terms key (dependencies (lit "a")) (at 20) database placed_database placed tea_placed

tea_normalized : normalize_order_request_terms tea ≡ ok terms
unfolding normalize_order_request_terms bounded_text bounded_integer capacity_grams require_boolean
    optional_text trim is_space
tea_normalized = refl

requested_capacity_roundtrip_example :
    (units : ℕ) × (grams_to_decimal_kilograms (requested_capacity_grams terms) ≡ ok units)
    × (decimal_kilograms_to_grams units ≡ ok (requested_capacity_grams terms))
requested_capacity_roundtrip_example = requested_capacity_roundtrip tea terms tea_normalized

abbrev recorded_database : Database
recorded_database = let db = placed_database in record db { trips = trip ∷ [] }

tea_recorded :
    record_order platform
      (transaction_context platform readings)
      actor
      (lit "correlation-1")
      key
      (dependencies (lit "a"))
      placed
      database
    ≡ ok (placed, recorded_database)
unfolding record_order expiry_after ◌>>=◌ lift return reads writes grams_to_decimal_kilograms
    order_row store_terms date_column create_order complete_submission text_eq
tea_recorded = refl

expiry_known : expiry_after platform (at 21) ≡ ok (at 604_800_021)
unfolding expiry_after
expiry_known = refl

abbrev later_readings : Readings
later_readings = record { observed_at = 500; reserved_at = 501; lock_acquired = true }

platform_iso : IsIsoPlatform platform
platform_iso = record { parse-iso = λ t range. refl }

placed-IsStorable : IsStorable platform placed
unfolding order_request_id account_id jastipper_profile_id trip_id branded_uuid is_uuid matches trim
    is_space requested_capacity_grams
placed-IsStorable = record {
  id = refl;
  trip = refl;
  customer = refl;
  seller = refl;
  profile = refl;
  opens = (5, omega arith, refl);
  closes = (30, omega arith, refl);
  departure = (46, omega arith, refl);
  arrival = (47, omega arith, refl);
  submitted = (21, omega arith, refl);
  input = tea;
  normalized = tea_normalized;
  mode = refl;
  capacity = refl;
}

recorded_claim_example :
    let current =
      after_attempts platform recorded_database (attempt (lit "b") (lit "key-0002") ∷ []) in
    claim_submission platform later_readings key (at 500) current ≡ ok (replayed placed, current)
unfolding text_eq
recorded_claim_example =
    recorded_claim platform readings later_readings actor (lit "correlation-1") key key
      (dependencies (lit "a")) placed placed (at 604_800_021) (at 500) 604_800_021 500 database
      recorded_database (attempt (lit "b") (lit "key-0002") ∷ []) platform_iso placed-IsStorable
      tea_recorded expiry_known refl ((omega arith, omega arith), tt) refl refl refl refl
      (omega arith)
