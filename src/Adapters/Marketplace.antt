-- ===== src/Adapters/Marketplace.antt =====
-- packages/adapters/src/prisma-marketplace.ts: the mapping of rows to the domain.
mod Rows
pub mod Writing
pub mod Reading
pub mod Units
pub mod Orders
pub mod Repositories
pub mod UnitOfWork
pub use Rows.*
use nitip_cuy.Prelude.{
  ℕ, ◌*◌, ◌/◌, ◌%◌, Bool, true, false, ◌||◌, not, Option, none, some, List, [], ◌∷◌, ◌==◌, leb, ltb,
  if◌then◌else◌,
}
use nitip_cuy.Text.{Text, truthy}
use nitip_cuy.Number.{decimal, max_safe_integer}
use nitip_cuy.Failure.{Result, ok, err, ◌>>=◌, ◌>>◌, throw_if, plain, fixed}
use nitip_cuy.Platform.{Platform}
use nitip_cuy.Domain.ServiceMode.{ServiceMode, shop_for_me, carry_my_item, unsupported}
use nitip_cuy.Domain.Trip.{trip_id}
use nitip_cuy.Domain.OrderRequest.{NormalTerms, shop, carry, service_mode}
use nitip_cuy.Domain.Offer.{TripOfferStatus, TripOffer}
use nitip_cuy.Domain.Account.{
  AccountStatus, AssuranceLevel, account_id, jastipper_profile_id, order_request_id,
}
use nitip_cuy.Application.Marketplace.{
  AccountRecord, AuditRecord, OutboxMessage, SubmittedOrderRequest,
}

-- `serviceMode`
pub map_service_mode : ServiceMode → Result ServiceMode
map_service_mode (unsupported s) =
    err (plain (fixed "Persisted trip contains an unsupported service mode."))
map_service_mode shop_for_me = ok shop_for_me
map_service_mode carry_my_item = ok carry_my_item

pub map_service_modes : List ServiceMode → Result (List ServiceMode)
map_service_modes [] = ok []
map_service_modes (m ∷ ms) = do
  mode ← map_service_mode m
  modes ← map_service_modes ms
  ok (mode ∷ modes)

abbrev iso_option : Platform → Option ℕ → Option Text
iso_option p none = none
iso_option p (some t) = some (p.to_iso_string t)

-- `mapTripOffer`
pub map_trip_offer : Platform → TripRow → Result TripOffer
unfolding map_service_modes
map_trip_offer p row = do
  id ← trip_id p row.id
  profile ← jastipper_profile_id p row.jastipper_profile_id
  owner ← account_id p row.owner_account_id
  modes ← map_service_modes row.service_modes
  ok (record {
    id = id;
    owner_account_id = owner;
    jastipper_profile_id = profile;
    schedule = record {
      origin_label = row.origin_label;
      origin_time_zone = row.origin_time_zone;
      destination_label = row.destination_label;
      destination_time_zone = row.destination_time_zone;
      service_window_start_at = p.to_iso_string row.service_window_start_at;
      service_window_end_at = p.to_iso_string row.service_window_end_at;
      departure_date = p.utc_date row.departure_date;
      departure_at = p.to_iso_string row.departure_at;
      request_open_at = p.to_iso_string row.request_open_at;
      request_deadline = p.to_iso_string row.request_deadline;
      estimated_arrival_at = p.to_iso_string row.estimated_arrival_at;
      service_modes = modes;
      remaining_capacity_kg = decimal false row.remaining_capacity 2;
    };
    status = row.status;
    version = row.version;
    moderation_reason = truthy row.moderation_reason;
    published_at = iso_option p row.published_at;
  })

-- `mapAccount`
pub map_account : Platform → AccountRow → Result AccountRecord
map_account p row = do
  id ← account_id p row.id
  ok (record {
    id = id;
    status = row.status;
    display_name = row.display_name;
    session_version = row.session_version;
  })

-- `gramsToDecimalKilograms`: the column's hundredths of a kilogram
pub grams_to_decimal_kilograms : ℕ → Result ℕ
grams_to_decimal_kilograms grams = do
  throw_if
      (not (leb grams max_safe_integer)
        || ltb grams 10
        || ltb 100_000_000 grams
        || not (grams % 10 == 0))
      (plain (fixed "Capacity grams are outside the persisted contract."))
  ok (grams / 10)

-- `decimalKilogramsToGrams`
pub decimal_kilograms_to_grams : ℕ → Result ℕ
decimal_kilograms_to_grams value = do
  throw_if (not (leb (value * 10) max_safe_integer))
      (plain (fixed "Persisted capacity is not an exact gram value."))
  ok (value * 10)

pub map_terms : StoredTerms → ℕ → Result NormalTerms
unfolding decimal_kilograms_to_grams
map_terms (shop_columns item quantity budget substitution variation) grams = ok (
    shop (record {
      item_description = item;
      quantity = quantity;
      maximum_budget_idr = budget;
      requested_capacity_grams = grams;
      allow_substitution = substitution;
      variation = truthy variation;
    }))
map_terms (carry_columns item value weight length width height handling) grams = do
  declared_weight ← decimal_kilograms_to_grams weight
  ok (
      carry (record {
        item_description = item;
        declared_value_idr = value;
        declared_weight_grams = declared_weight;
        length_millimeters = length;
        width_millimeters = width;
        height_millimeters = height;
        handling_instructions = truthy handling;
      }))

-- `mapSubmittedOrderRequest`
pub map_submitted_order_request : Platform → OrderRow → Result SubmittedOrderRequest
unfolding decimal_kilograms_to_grams map_terms
map_submitted_order_request p row = do
  grams ← decimal_kilograms_to_grams row.reserved_capacity
  terms ← map_terms row.terms grams
  customer ← account_id p row.customer_account_id
  id ← order_request_id p row.id
  profile ← jastipper_profile_id p row.jastipper_profile_id
  seller ← account_id p row.seller_account_id
  trip ← trip_id p row.trip_id
  ok (record {
    id = id;
    trip_id = trip;
    customer_account_id = customer;
    seller_account_id = seller;
    jastipper_profile_id = profile;
    service_mode = service_mode terms;
    source_offer_version = row.source_offer_version;
    reserved_capacity_grams = grams;
    submitted_at = p.to_iso_string row.submitted_at;
    origin_label = row.origin_label;
    destination_label = row.destination_label;
    order_open_at = p.to_iso_string row.order_open_at;
    order_close_at = p.to_iso_string row.order_close_at;
    transport_departure_at = p.to_iso_string row.transport_departure_at;
    estimated_arrival_at = p.to_iso_string row.estimated_arrival_at;
    terms = terms;
  })
