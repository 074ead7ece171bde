-- ===== src/Application/Payment/Tests.antt =====
-- Runs of `assessPaymentProtection`, and examples of what is proved of it.
use nitip_cuy.Prelude.{ℤ, pos, ◌≡◌, ◌↔◌, refl, Option, none, some}
use nitip_cuy.Text.{lit, text_eq}
use nitip_cuy.Text.Chars.{is_space}
use nitip_cuy.Text.Trim.{trim}
use nitip_cuy.Failure.{ok}
use nitip_cuy.Application.Payment.{
  CollectionObservation, HoldObservation, ReleaseObservation, RefundObservation,
  SettlementObservation, ChargebackObservation, PaymentProviderSnapshot,
  PaymentProtectionExpectation, PaymentProtectionAssessment, collection_expired, failed,
  held_confirmed, awaiting_confirmation, reconciliation_required, held_amount_mismatch,
  hold_confirmation_pending, assess_payment_protection, assess_snapshot, any_unknown,
  post_hold_activity, assess_statuses, reference_missing,
}
use nitip_cuy.Application.Payment.Verdicts.{
  IsAssessable, IsProtected, IsUncollected, Awaits, assess-ok_iff, held_confirmed_iff, failed_iff,
  awaiting_iff,
}

abbrev snapshot :
    CollectionObservation → HoldObservation → Option ℤ → Option ℤ → PaymentProviderSnapshot
snapshot collection hold collected held = record {
  payment_attempt_id = lit "attempt-1";
  payment_reference = some (lit "reference-1");
  observed_at = lit "2026-08-01T00:00:00Z";
  collection_status = collection;
  hold_status = hold;
  release_status = ReleaseObservation.not_requested;
  refund_status = RefundObservation.not_requested;
  settlement_status = SettlementObservation.not_started;
  chargeback_status = ChargebackObservation.none_observed;
  collected_amount_minor = collected;
  held_amount_minor = held;
  refunded_amount_minor = none;
  settled_seller_amount_minor = none;
  settled_platform_amount_minor = none;
}

abbrev expectation : PaymentProtectionExpectation
expectation = record { payment_attempt_id = lit "attempt-1"; amount_minor = pos 150000 }

abbrev paid : PaymentProviderSnapshot
paid =
    snapshot CollectionObservation.confirmed HoldObservation.confirmed (some (pos 150000))
      (some (pos 150000))

abbrev short_hold : PaymentProviderSnapshot
short_hold =
    snapshot CollectionObservation.confirmed HoldObservation.confirmed (some (pos 150000))
      (some (pos 149999))

paid_held : assess_payment_protection paid expectation ≡ ok held_confirmed
unfolding assess_payment_protection trim is_space assess_snapshot text_eq any_unknown
    post_hold_activity assess_statuses reference_missing
paid_held = refl

short_hold_flagged :
    assess_payment_protection short_hold expectation
    ≡ ok (reconciliation_required held_amount_mismatch)
unfolding assess_payment_protection trim is_space assess_snapshot text_eq any_unknown
    post_hold_activity assess_statuses reference_missing
short_hold_flagged = refl

assess-ok_iff_example :
    ((v : PaymentProtectionAssessment) × (assess_payment_protection short_hold expectation ≡ ok v))
    ↔ IsAssessable expectation
assess-ok_iff_example = assess-ok_iff short_hold expectation

held_confirmed_iff_example :
    (assess_payment_protection paid expectation ≡ ok held_confirmed)
    ↔ (IsAssessable expectation × IsProtected paid expectation)
held_confirmed_iff_example = held_confirmed_iff paid expectation

abbrev expired : PaymentProviderSnapshot
expired = snapshot CollectionObservation.expired HoldObservation.not_confirmed none none

failed_iff_example :
    (assess_payment_protection expired expectation ≡ ok (failed collection_expired))
    ↔ (IsAssessable expectation × IsUncollected expired expectation collection_expired)
failed_iff_example = failed_iff expired expectation collection_expired

abbrev unheld : PaymentProviderSnapshot
unheld = snapshot CollectionObservation.confirmed HoldObservation.pending (some (pos 150000)) none

awaiting_iff_example :
    (assess_payment_protection unheld expectation
      ≡ ok (awaiting_confirmation hold_confirmation_pending))
    ↔ (IsAssessable expectation × Awaits unheld expectation hold_confirmation_pending)
awaiting_iff_example = awaiting_iff unheld expectation hold_confirmation_pending
