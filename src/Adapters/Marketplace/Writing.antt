-- ===== src/Adapters/Marketplace/Writing.antt =====
-- The rows that the repositories of packages/adapters/src/prisma-marketplace.ts write of a request
-- and of a trip.
use nitip_cuy.Prelude.{ℕ, Option, none, some, not, ◌++◌}
use nitip_cuy.Text.{truthy, Text, lit}
use nitip_cuy.Number.{Number}
use nitip_cuy.Failure.{Result, ok, err, ◌>>=◌, ◌>>◌, throw_if, plain, fixed}
use nitip_cuy.Platform.{Platform}
use nitip_cuy.Domain.Trip.Iso.{is_date_shape}
use nitip_cuy.Domain.OrderRequest.{NormalTerms, shop, carry}
use nitip_cuy.Domain.Offer.{TripOffer}
use nitip_cuy.Application.Marketplace.{SubmittedOrderRequest}
use nitip_cuy.Adapters.Marketplace.{
  TripRow, OrderRow, StoredTerms, shop_columns, carry_columns, grams_to_decimal_kilograms,
}

-- `new Date(text)` for a column; the client refuses an invalid date.
unfoldable pub date_column : Platform → Text → Result ℕ
date_column p text = elim (p.parse_date text) [
  | none ↦ err (plain (fixed "Invalid date."))
  | some t ↦ ok t
]

-- The columns of the terms.
unfoldable pub store_terms : NormalTerms → Result StoredTerms
unfolding grams_to_decimal_kilograms
store_terms (shop t) = ok (
    shop_columns t.item_description t.quantity t.maximum_budget_idr t.allow_substitution
      t.variation)
store_terms (carry t) = elim (grams_to_decimal_kilograms t.declared_weight_grams) [
  | err error ↦ err error
  | ok weight ↦ ok (
      carry_columns t.item_description t.declared_value_idr weight t.length_millimeters
        t.width_millimeters t.height_millimeters t.handling_instructions)
]

unfoldable pub order_row : Platform → SubmittedOrderRequest → Result OrderRow
unfolding store_terms date_column
order_row p request = do
  capacity ← grams_to_decimal_kilograms request.reserved_capacity_grams
  arrival ← date_column p request.estimated_arrival_at
  closes ← date_column p request.order_close_at
  opens ← date_column p request.order_open_at
  submitted ← date_column p request.submitted_at
  departure ← date_column p request.transport_departure_at
  terms ← store_terms request.terms
  ok (record {
    id = request.id;
    trip_id = request.trip_id;
    customer_account_id = request.customer_account_id;
    seller_account_id = request.seller_account_id;
    jastipper_profile_id = request.jastipper_profile_id;
    source_offer_version = request.source_offer_version;
    reserved_capacity = capacity;
    terms = terms;
    origin_label = request.origin_label;
    destination_label = request.destination_label;
    order_open_at = opens;
    order_close_at = closes;
    transport_departure_at = departure;
    estimated_arrival_at = arrival;
    submitted_at = submitted;
  })

-- `dateOnly`
unfoldable pub date_only : Platform → Text → Result ℕ
date_only p value = do
  throw_if (not (is_date_shape value)) (plain (fixed "Date-only value is invalid."))
  date_column p (value ++ lit "T00:00:00.000Z")

-- `offer.publishedAt ? new Date(offer.publishedAt) : null`
unfoldable pub optional_date : Platform → Option Text → Result (Option ℕ)
optional_date p none = ok none
optional_date p (some text) = elim (date_column p text) [
  | err error ↦ err error
  | ok t ↦ ok (some t)
]

-- `tripWriteData`, with the identifier of the row. What a column of kilograms holds of a number is
-- the database's.
unfoldable pub trip_row : Platform → (Number → Result ℕ) → TripOffer → Result TripRow
unfolding date_only optional_date
trip_row p decimal_column offer = do
  date ← date_only p offer.schedule.departure_date
  departure ← date_column p offer.schedule.departure_at
  arrival ← date_column p offer.schedule.estimated_arrival_at
  published ← optional_date p (truthy offer.published_at)
  capacity ← decimal_column offer.schedule.remaining_capacity_kg
  deadline ← date_column p offer.schedule.request_deadline
  opens ← date_column p offer.schedule.request_open_at
  window_end ← date_column p offer.schedule.service_window_end_at
  window_start ← date_column p offer.schedule.service_window_start_at
  ok (record {
    id = offer.id;
    owner_account_id = offer.owner_account_id;
    jastipper_profile_id = offer.jastipper_profile_id;
    status = offer.status;
    version = offer.version;
    origin_label = offer.schedule.origin_label;
    origin_time_zone = offer.schedule.origin_time_zone;
    destination_label = offer.schedule.destination_label;
    destination_time_zone = offer.schedule.destination_time_zone;
    service_window_start_at = window_start;
    service_window_end_at = window_end;
    departure_date = date;
    departure_at = departure;
    request_open_at = opens;
    request_deadline = deadline;
    estimated_arrival_at = arrival;
    service_modes = offer.schedule.service_modes;
    remaining_capacity = capacity;
    moderation_reason = offer.moderation_reason;
    published_at = published;
  })
