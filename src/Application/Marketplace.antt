-- ===== src/Application/Marketplace.antt =====
-- packages/application/src/marketplace-foundation.ts: the records and guards that its use cases
-- share, and the part of `MarketplaceTransactionContext` that they call.
pub mod OrderSubmission
pub mod Repositories
pub mod Identity
pub mod Accounts
pub mod Trips
pub mod Discussion
use nitip_cuy.Prelude.{
  ℕ, ◌*◌, ◌+◌, ◌/◌, ◌-◌, ◌^◌, Bool, true, false, ◌&&◌, ◌||◌, not, Option, none, some, List, ◌==◌,
  if◌then◌else◌, ltb, leb, length,
}
use nitip_cuy.Text.{Text, text_eq}
use nitip_cuy.Text.Chars.{is_alnum, is_safe_visible, matches}
use nitip_cuy.Text.Trim.{trim}
use nitip_cuy.Number.{Number, decimal, max_safe_integer}
use nitip_cuy.Failure.{
  Result, ok, err, throw_if, use_case, plain, fixed, domain_validation, account_inactive,
  session_inactive, resource_not_found,
}
use nitip_cuy.Transaction.{Transaction, ◌>>=◌, ◌>>◌, lift, return}
use nitip_cuy.Domain.ServiceMode.{ServiceMode}
use nitip_cuy.Domain.OrderRequest.{NormalTerms}
use nitip_cuy.Domain.Offer.{TripOffer}
use nitip_cuy.Domain.Account.{AccountStatus, AuthenticatedActor, status_active}
use nitip_cuy.Application.Idempotency.{is_valid_idempotency_key}

pub record AccountRecord : Type 0 where
  pub id : Text
  pub status : AccountStatus
  pub display_name : Text
  pub session_version : ℕ

-- Outcome is `SUCCEEDED` wherever these use cases append a record.
pub record AuditRecord : Type 0 where
  pub actor_id : Text
  pub action : Text
  pub target_type : Text
  pub target_id : Text
  pub reason_code : Text
  pub occurred_at : Text
  pub correlation_id : Text

pub record OutboxMessage : Type 0 where
  pub id : Text
  pub topic : Text
  pub aggregate_type : Text
  pub aggregate_id : Text
  pub occurred_at : Text
  pub payload : List (Text × Text)

-- `SubmittedOrderRequest` (packages/domain/src/order-request.ts); its status is `SUBMITTED`.
pub record SubmittedOrderRequest : Type 0 where
  pub id : Text
  pub trip_id : Text
  pub customer_account_id : Text
  pub seller_account_id : Text
  pub jastipper_profile_id : Text
  pub service_mode : ServiceMode
  pub source_offer_version : ℕ
  pub reserved_capacity_grams : ℕ
  pub submitted_at : Text
  pub origin_label : Text
  pub destination_label : Text
  pub order_open_at : Text
  pub order_close_at : Text
  pub transport_departure_at : Text
  pub estimated_arrival_at : Text
  pub terms : NormalTerms

pub data OrderSubmissionClaim : Type 0 where
  granted : OrderSubmissionClaim
  replayed : SubmittedOrderRequest → OrderSubmissionClaim
  conflicting : OrderSubmissionClaim
  running : OrderSubmissionClaim

-- What identifies a submission; the operation is always `order.submit.v1`.
pub record SubmissionKey : Type 0 where
  pub customer_account_id : Text
  pub key_digest : Text
  pub fingerprint : Text

-- The calls of `MarketplaceTransactionContext` that order submission makes, on a database `S`.
pub record MarketplaceTransactionContext (S : Type 0) : Type 0 where
  pub authoritative_now : Transaction S Text
  pub find_account : Text → Transaction S (Option AccountRecord)
  pub is_session_active : AuthenticatedActor → Text → Transaction S Bool
  pub claim : SubmissionKey → Text → Transaction S OrderSubmissionClaim
  pub find_trip : Text → Transaction S (Option TripOffer)
  -- seller account, profile
  pub lock_eligible_seller : Text → Text → Transaction S Bool
  -- trip, expected version, grams
  pub reserve_capacity : Text → ℕ → ℕ → Transaction S (Option Text)
  pub create : SubmittedOrderRequest → Transaction S (Unit {0})
  pub append_audit : AuditRecord → Transaction S (Unit {0})
  pub enqueue : OutboxMessage → Transaction S (Unit {0})
  -- key, request, completion, expiry
  pub complete : SubmissionKey → Text → Text → Text → Transaction S (Unit {0})

unfoldable pub require_active_account : AccountRecord → Result (Unit {0})
require_active_account account =
    throw_if (not (status_active account.status)) (use_case account_inactive)

-- `if (!found) throw new MarketplaceUseCaseError("RESOURCE_NOT_FOUND")`
unfoldable pub require_found : {A : Type 0} → Option A → Result A
require_found none = err (use_case resource_not_found)
require_found (some value) = ok value

unfoldable pub require_current_actor :
    {S : Type 0}
    → MarketplaceTransactionContext S
    → AuthenticatedActor
    → Text
    → Transaction S AccountRecord
unfolding require_found require_active_account
require_current_actor context actor observed_at = do
  found ← context.find_account actor.account_id
  account ← lift (require_found found)
  lift (require_active_account account)
  live ← context.is_session_active actor observed_at
  lift (throw_if (not live) (use_case session_inactive))
  return account

unfoldable pub normalize_correlation_id : Text → Result Text
normalize_correlation_id value =
    let normalized = trim value in
    if not (matches is_alnum is_safe_visible 7 119 normalized)
    then err (plain (fixed "Correlation ID is invalid."))
    else ok normalized

unfoldable pub normalize_idempotency_key : Text → Result Text
normalize_idempotency_key value =
    let normalized = trim value in
    if not (text_eq normalized value) || not (is_valid_idempotency_key normalized)
    then err
        (domain_validation (fixed "Idempotency key must contain 8 to 128 safe visible characters."))
    else ok normalized

-- `remainingCapacityGrams`, without the rounding of the product: `Math.round` of the exact grams,
-- refused if it is more than a millionth of a gram off, or no safe integer.
unfoldable pub remaining_capacity_grams : Number → Result ℕ
remaining_capacity_grams (decimal negative digits places) =
    let scale = 10 ^ places in
    let grams = digits * 1_000 in
    let rounded = (grams + scale / 2) / scale in
    let gap = (grams - rounded * scale) + (rounded * scale - grams) in
    if (negative && not (digits == 0))
      || not (leb rounded max_safe_integer)
      || ltb scale (gap * 1_000_000)
    then err (plain (fixed "Persisted trip capacity is not exactly representable."))
    else ok rounded
remaining_capacity_grams _ =
    err (plain (fixed "Persisted trip capacity is not exactly representable."))
