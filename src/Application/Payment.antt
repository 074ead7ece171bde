-- ===== src/Application/Payment.antt =====
-- packages/application/src/payment-reconciliation.ts, over the snapshot of
-- packages/application/src/ports/payment-gateway.ts: what the platform concludes from what a
-- payment provider reports.
pub mod Verdicts
mod Tests
use nitip_cuy.Prelude.{
  ℕ, ℤ, eq_ℤ, is_positive, Bool, true, false, ◌&&◌, ◌||◌, not, Option, none, some, ◌==◌,
  if◌then◌else◌, length,
}
use nitip_cuy.Text.{Text, text_eq}
use nitip_cuy.Text.Trim.{trim}
use nitip_cuy.Failure.{Result, ok, ◌>>=◌, ◌>>◌, throw_if, plain, fixed}

pub data CollectionObservation : Type 0 where
  pending confirmed failed expired unknown : CollectionObservation

pub data HoldObservation : Type 0 where
  not_confirmed pending confirmed failed unknown : HoldObservation

pub data ReleaseObservation : Type 0 where
  not_requested pending confirmed failed unknown : ReleaseObservation

pub data RefundObservation : Type 0 where
  not_requested pending partially_confirmed confirmed failed unknown : RefundObservation

pub data SettlementObservation : Type 0 where
  not_started pending confirmed failed unknown : SettlementObservation

pub data ChargebackObservation : Type 0 where
  none_observed open_case resolved_for_customer resolved_for_marketplace unknown :
      ChargebackObservation

pub record PaymentProviderSnapshot : Type 0 where
  pub payment_attempt_id : Text
  pub payment_reference : Option Text
  pub observed_at : Text
  pub collection_status : CollectionObservation
  pub hold_status : HoldObservation
  pub release_status : ReleaseObservation
  pub refund_status : RefundObservation
  pub settlement_status : SettlementObservation
  pub chargeback_status : ChargebackObservation
  pub collected_amount_minor : Option ℤ
  pub held_amount_minor : Option ℤ
  pub refunded_amount_minor : Option ℤ
  pub settled_seller_amount_minor : Option ℤ
  pub settled_platform_amount_minor : Option ℤ

pub record PaymentProtectionExpectation : Type 0 where
  pub payment_attempt_id : Text
  pub amount_minor : ℤ

pub data AwaitingReason : Type 0 where
  collection_pending hold_confirmation_pending : AwaitingReason

pub data FailedReason : Type 0 where
  collection_failed collection_expired : FailedReason

pub data ReconciliationReason : Type 0 where
  unknown_provider_state payment_attempt_mismatch payment_reference_missing : ReconciliationReason
  contradictory_provider_state collected_amount_missing : ReconciliationReason
  collected_amount_mismatch held_amount_missing held_amount_mismatch : ReconciliationReason
  hold_failed_after_collection post_hold_activity_observed : ReconciliationReason

pub data PaymentProtectionAssessment : Type 0 where
  awaiting_confirmation : AwaitingReason → PaymentProtectionAssessment
  held_confirmed : PaymentProtectionAssessment
  failed : FailedReason → PaymentProtectionAssessment
  reconciliation_required : ReconciliationReason → PaymentProtectionAssessment

-- `=== "…"` on each of the observations that the code compares.
abbrev collection_rank : CollectionObservation → ℕ
collection_rank CollectionObservation.pending = 0
collection_rank CollectionObservation.confirmed = 1
collection_rank CollectionObservation.failed = 2
collection_rank CollectionObservation.expired = 3
collection_rank CollectionObservation.unknown = 4

abbrev hold_rank : HoldObservation → ℕ
hold_rank HoldObservation.not_confirmed = 0
hold_rank HoldObservation.pending = 1
hold_rank HoldObservation.confirmed = 2
hold_rank HoldObservation.failed = 3
hold_rank HoldObservation.unknown = 4

abbrev collection_is : CollectionObservation → CollectionObservation → Bool
collection_is a b = collection_rank a == collection_rank b

abbrev hold_is : HoldObservation → HoldObservation → Bool
hold_is a b = hold_rank a == hold_rank b

abbrev release_unknown : ReleaseObservation → Bool
release_unknown ReleaseObservation.unknown = true
release_unknown _ = false

abbrev release_idle : ReleaseObservation → Bool
release_idle ReleaseObservation.not_requested = true
release_idle _ = false

abbrev refund_unknown : RefundObservation → Bool
refund_unknown RefundObservation.unknown = true
refund_unknown _ = false

abbrev refund_idle : RefundObservation → Bool
refund_idle RefundObservation.not_requested = true
refund_idle _ = false

abbrev settlement_unknown : SettlementObservation → Bool
settlement_unknown SettlementObservation.unknown = true
settlement_unknown _ = false

abbrev settlement_idle : SettlementObservation → Bool
settlement_idle SettlementObservation.not_started = true
settlement_idle _ = false

abbrev chargeback_unknown : ChargebackObservation → Bool
chargeback_unknown ChargebackObservation.unknown = true
chargeback_unknown _ = false

abbrev chargeback_idle : ChargebackObservation → Bool
chargeback_idle ChargebackObservation.none_observed = true
chargeback_idle _ = false

-- `amount !== null`
abbrev is_present {ℓ} : {A : Type ℓ} → Option A → Bool
is_present none = false
is_present (some a) = true

-- The second guard: some observation is `UNKNOWN`.
any_unknown : PaymentProviderSnapshot → Bool
any_unknown s =
    collection_is s.collection_status CollectionObservation.unknown
    || hold_is s.hold_status HoldObservation.unknown
    || release_unknown s.release_status
    || refund_unknown s.refund_status
    || settlement_unknown s.settlement_status
    || chargeback_unknown s.chargeback_status

-- The third guard: money has moved, or was asked to move, after the hold.
post_hold_activity : PaymentProviderSnapshot → Bool
post_hold_activity s =
    not (release_idle s.release_status)
    || not (refund_idle s.refund_status)
    || not (settlement_idle s.settlement_status)
    || not (chargeback_idle s.chargeback_status)
    || is_present s.refunded_amount_minor
    || is_present s.settled_seller_amount_minor
    || is_present s.settled_platform_amount_minor

-- `paymentReference === null || paymentReference.trim().length === 0`
pub reference_missing : Option Text → Bool
reference_missing none = true
reference_missing (some reference) = length (trim reference) == 0

-- The checks of a collection that is `CONFIRMED`, from the payment reference on.
assess_collected : PaymentProviderSnapshot → ℤ → PaymentProtectionAssessment
assess_collected s amount =
    if reference_missing s.payment_reference
    then reconciliation_required payment_reference_missing
    else elim s.collected_amount_minor [
      | none ↦ reconciliation_required collected_amount_missing
      | some collected ↦
          if not (eq_ℤ collected amount)
          then reconciliation_required collected_amount_mismatch
          else if hold_is s.hold_status HoldObservation.failed
          then reconciliation_required hold_failed_after_collection
          else if hold_is s.hold_status HoldObservation.pending
              || hold_is s.hold_status HoldObservation.not_confirmed
          then awaiting_confirmation hold_confirmation_pending
          else elim s.held_amount_minor [
            | none ↦ reconciliation_required held_amount_missing
            | some held ↦
                if not (eq_ℤ held amount)
                then reconciliation_required held_amount_mismatch
                else held_confirmed
          ]
    ]

-- The two branches of a collection that ended without money.
assess_uncollected : PaymentProviderSnapshot → FailedReason → PaymentProtectionAssessment
assess_uncollected s reason =
    if is_present s.collected_amount_minor || is_present s.held_amount_minor
    then reconciliation_required contradictory_provider_state
    else failed reason

-- The checks from the contradiction between hold and collection on.
assess_statuses : PaymentProviderSnapshot → ℤ → PaymentProtectionAssessment
unfolding assess_collected assess_uncollected
assess_statuses s amount =
    if hold_is s.hold_status HoldObservation.confirmed
      && not (collection_is s.collection_status CollectionObservation.confirmed)
    then reconciliation_required contradictory_provider_state
    else if collection_is s.collection_status CollectionObservation.failed
    then assess_uncollected s collection_failed
    else if collection_is s.collection_status CollectionObservation.expired
    then assess_uncollected s collection_expired
    else if hold_is s.hold_status HoldObservation.failed
        && not (collection_is s.collection_status CollectionObservation.confirmed)
    then reconciliation_required contradictory_provider_state
    else if collection_is s.collection_status CollectionObservation.pending
    then awaiting_confirmation collection_pending
    else assess_collected s amount

-- The checks of the snapshot, once the expectation is known to be well formed.
assess_snapshot :
    PaymentProviderSnapshot → PaymentProtectionExpectation → PaymentProtectionAssessment
assess_snapshot snapshot expectation =
    if not (text_eq snapshot.payment_attempt_id expectation.payment_attempt_id)
    then reconciliation_required payment_attempt_mismatch
    else if any_unknown snapshot
    then reconciliation_required unknown_provider_state
    else if post_hold_activity snapshot
    then reconciliation_required post_hold_activity_observed
    else assess_statuses snapshot expectation.amount_minor

pub assess_payment_protection :
    PaymentProviderSnapshot → PaymentProtectionExpectation → Result PaymentProtectionAssessment
assess_payment_protection snapshot expectation = do
  throw_if (length (trim expectation.payment_attempt_id) == 0)
      (plain (fixed "Expected payment attempt id must be non-empty."))
  throw_if (not (is_positive expectation.amount_minor))
      (plain (fixed "Expected payment amount must be positive."))
  ok (assess_snapshot snapshot expectation)
