-- ===== src/Domain/OrderRequest.antt =====
-- packages/domain/src/order-request.ts: the terms of an order request and their normalisation.
--
-- A field of the input may hold a value of another type than the declared one at run time; the
-- guards test for that, so such a value is `ill_typed` (a `number` field that holds no number
-- fails the same tests as NaN and is written `nan`). What comes out has the declared types.
pub mod Bounds
pub mod Exact
mod Tests
use nitip_cuy.Prelude.{
  ℕ, ◌%◌, Bool, true, false, ◌||◌, not, String, Option, none, some, ltb, ◌==◌, length, any,
}
use nitip_cuy.Text.{Text}
use nitip_cuy.Text.Chars.{is_control}
use nitip_cuy.Text.Trim.{trim}
use nitip_cuy.Number.{Number, is_safe_integer, less_than, greater_than, to_natural}
use nitip_cuy.Domain.ServiceMode.{ServiceMode, shop_for_me, carry_my_item}
use nitip_cuy.Failure.{
  Result, ok, err, ◌>>=◌, ◌>>◌, throw_if, domain_validation, about, between, fixed,
}

pub data Given (A : Type 0) : Type 0 where
  given : A → Given A
  ill_typed : Given A

pub record ShopForMeRequestTerms (N B T : Type 0) : Type 0 where
  pub item_description : T
  pub quantity : N
  pub maximum_budget_idr : N
  pub requested_capacity_grams : N
  pub allow_substitution : B
  pub variation : Option T

pub record CarryMyItemRequestTerms (N T : Type 0) : Type 0 where
  pub item_description : T
  pub declared_value_idr : N
  pub declared_weight_grams : N
  pub length_millimeters : N
  pub width_millimeters : N
  pub height_millimeters : N
  pub handling_instructions : Option T

pub data OrderRequestTerms (N B T : Type 0) : Type 0 where
  shop : ShopForMeRequestTerms N B T → OrderRequestTerms N B T
  carry : CarryMyItemRequestTerms N T → OrderRequestTerms N B T

-- What a caller hands in, and what `normalizeOrderRequestTerms` returns.
abbrev pub GivenTerms : Type 0
GivenTerms = OrderRequestTerms Number (Given Bool) (Given Text)

abbrev pub NormalTerms : Type 0
NormalTerms = OrderRequestTerms ℕ Bool Text

-- `terms.serviceMode`
abbrev pub service_mode : {N B T : Type 0} → OrderRequestTerms N B T → ServiceMode
service_mode (shop t) = shop_for_me
service_mode (carry t) = carry_my_item

unfoldable pub bounded_integer : Number → String → ℕ → ℕ → Result ℕ
bounded_integer value field minimum maximum = do
  throw_if (not (is_safe_integer value) || less_than value minimum || greater_than value maximum)
      (domain_validation (between field minimum maximum))
  ok (to_natural value)

unfoldable pub capacity_grams : Number → Result ℕ
capacity_grams value = do
  normalized ← bounded_integer value "Requested capacity" 10 100_000_000
  throw_if (not (normalized % 10 == 0))
      (domain_validation (fixed "Requested capacity must use exact 10-gram increments."))
  ok normalized

unfoldable pub require_boolean : Given Bool → String → Result Bool
require_boolean (given value) field = ok value
require_boolean ill_typed field = err (domain_validation (about field "must be a boolean."))

unfoldable pub bounded_text : Given Text → String → ℕ → ℕ → Result Text
bounded_text ill_typed field minimum maximum = err (domain_validation (about field "must be text."))
bounded_text (given value) field minimum maximum = do
  let normalized = trim value
  throw_if
      (ltb (length normalized) minimum
        || ltb maximum (length normalized)
        || any is_control normalized)
      (domain_validation (between field minimum maximum))
  ok normalized

-- `input.variation === undefined ? {} : { variation: boundedText(input.variation, …) }`
unfoldable pub optional_text : Option (Given Text) → String → ℕ → ℕ → Result (Option Text)
optional_text none field minimum maximum = ok none
optional_text (some value) field minimum maximum = do
  normalized ← bounded_text value field minimum maximum
  ok (some normalized)

unfoldable pub normalize_shop :
    ShopForMeRequestTerms Number (Given Bool) (Given Text) → Result NormalTerms
normalize_shop input = do
  item_description ← bounded_text input.item_description "Item description" 3 500
  allow_substitution ← require_boolean input.allow_substitution "Substitution permission"
  maximum_budget_idr ←
      bounded_integer input.maximum_budget_idr "Maximum item budget" 1 2_000_000_000
  quantity ← bounded_integer input.quantity "Quantity" 1 100
  requested_capacity_grams ← capacity_grams input.requested_capacity_grams
  variation ← optional_text input.variation "Variation" 1 200
  ok (
      shop (record {
        item_description = item_description;
        quantity = quantity;
        maximum_budget_idr = maximum_budget_idr;
        requested_capacity_grams = requested_capacity_grams;
        allow_substitution = allow_substitution;
        variation = variation;
      }))

unfoldable pub normalize_carry : CarryMyItemRequestTerms Number (Given Text) → Result NormalTerms
normalize_carry input = do
  item_description ← bounded_text input.item_description "Item description" 3 500
  declared_value_idr ← bounded_integer input.declared_value_idr "Declared value" 1 2_000_000_000
  declared_weight_grams ← capacity_grams input.declared_weight_grams
  height_millimeters ← bounded_integer input.height_millimeters "Height" 1 10_000
  length_millimeters ← bounded_integer input.length_millimeters "Length" 1 10_000
  width_millimeters ← bounded_integer input.width_millimeters "Width" 1 10_000
  handling_instructions ← optional_text input.handling_instructions "Handling instructions" 1 500
  ok (
      carry (record {
        item_description = item_description;
        declared_value_idr = declared_value_idr;
        declared_weight_grams = declared_weight_grams;
        length_millimeters = length_millimeters;
        width_millimeters = width_millimeters;
        height_millimeters = height_millimeters;
        handling_instructions = handling_instructions;
      }))

unfoldable pub normalize_order_request_terms : GivenTerms → Result NormalTerms
unfolding normalize_shop normalize_carry
normalize_order_request_terms (shop input) = normalize_shop input
normalize_order_request_terms (carry input) = normalize_carry input

unfoldable pub requested_capacity_grams : NormalTerms → ℕ
requested_capacity_grams (shop t) = t.requested_capacity_grams
requested_capacity_grams (carry t) = t.declared_weight_grams
