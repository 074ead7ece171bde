-- ===== src/Application/Payment/Verdicts.antt =====
-- When each verdict of `assessPaymentProtection` is given.
use nitip_cuy.Prelude.{
  ◌<◌, ℤ, eq_ℤ_iff, is_positive, ◌≡◌, refl, ◌≢◌, ◌↔◌, ◌⊎◌, inl, inr, true, false, none, some, arith,
  length,
}
use nitip_cuy.Text.{text_eq, text_eq_iff}
use nitip_cuy.Text.Trim.{trim}
use nitip_cuy.Failure.{ok}
use nitip_cuy.Application.Payment.{
  CollectionObservation, HoldObservation, ReleaseObservation, RefundObservation,
  SettlementObservation, ChargebackObservation, PaymentProviderSnapshot,
  PaymentProtectionExpectation, PaymentProtectionAssessment, AwaitingReason, FailedReason,
  ReconciliationReason, payment_attempt_mismatch, unknown_provider_state,
  post_hold_activity_observed, awaiting_confirmation, held_confirmed, failed,
  reconciliation_required, any_unknown, post_hold_activity, reference_missing, assess_collected,
  assess_uncollected, assess_statuses, assess_snapshot, assess_payment_protection,
  collection_failed, collection_expired, collection_pending, hold_confirmation_pending,
}

-- The expectation names an attempt and a positive amount.
pub record IsAssessable (e : PaymentProtectionExpectation) : Type 0 where
  pub named : 0 < length (trim e.payment_attempt_id)
  pub positive : is_positive e.amount_minor ≡ true

-- The snapshot is of the attempt, and reports nothing beyond collection and hold.
pub record IsQuiet (s : PaymentProviderSnapshot) (e : PaymentProtectionExpectation) : Type 0 where
  pub same_attempt : s.payment_attempt_id ≡ e.payment_attempt_id
  pub release : s.release_status ≡ ReleaseObservation.not_requested
  pub refund : s.refund_status ≡ RefundObservation.not_requested
  pub settlement : s.settlement_status ≡ SettlementObservation.not_started
  pub chargeback : s.chargeback_status ≡ ChargebackObservation.none_observed
  pub refunded : s.refunded_amount_minor ≡ none
  pub settled_seller : s.settled_seller_amount_minor ≡ none
  pub settled_platform : s.settled_platform_amount_minor ≡ none

tests-IsQuiet :
    (s : PaymentProviderSnapshot) (e : PaymentProtectionExpectation)
    → text_eq s.payment_attempt_id e.payment_attempt_id ≡ true
    → post_hold_activity s ≡ false
    → IsQuiet s e
unfolding post_hold_activity
tests-IsQuiet s e a p = ground (arith, text_eq_iff s.payment_attempt_id e.payment_attempt_id)

IsQuiet-tests :
    (s : PaymentProviderSnapshot) (e : PaymentProtectionExpectation)
    → IsQuiet s e
    → (text_eq s.payment_attempt_id e.payment_attempt_id ≡ true) × (post_hold_activity s ≡ false)
unfolding post_hold_activity
IsQuiet-tests s e q = ground (arith, text_eq_iff s.payment_attempt_id e.payment_attempt_id)

-- What must hold of the snapshot for the payment to count as protected.
pub record IsProtected (s : PaymentProviderSnapshot) (e : PaymentProtectionExpectation)
    : Type 0 where
  pub quiet : IsQuiet s e
  pub collection : s.collection_status ≡ CollectionObservation.confirmed
  pub hold : s.hold_status ≡ HoldObservation.confirmed
  pub reference : reference_missing s.payment_reference ≡ false
  pub collected : s.collected_amount_minor ≡ some e.amount_minor
  pub held : s.held_amount_minor ≡ some e.amount_minor

-- The money is not there: the collection failed or expired as the reason says, and neither an
-- amount nor a hold is reported.
abbrev pub collection_of : FailedReason → CollectionObservation
collection_of collection_failed = CollectionObservation.failed
collection_of collection_expired = CollectionObservation.expired

pub record IsUncollected (s : PaymentProviderSnapshot) (e : PaymentProtectionExpectation)
    (r : FailedReason) : Type 0 where
  pub quiet : IsQuiet s e
  pub collection : s.collection_status ≡ collection_of r
  pub not_held : s.hold_status ≢ HoldObservation.confirmed
  pub hold_known : s.hold_status ≢ HoldObservation.unknown
  pub no_collected : s.collected_amount_minor ≡ none
  pub no_held : s.held_amount_minor ≡ none

-- The hold is still open.
abbrev pub IsOpen : HoldObservation → Type 0
IsOpen h = (h ≡ HoldObservation.pending) ⊎ (h ≡ HoldObservation.not_confirmed)

-- The provider has yet to confirm the collection, or, of a collection in full, the hold.
abbrev pub Awaits : PaymentProviderSnapshot → PaymentProtectionExpectation → AwaitingReason → Type 0
Awaits s e collection_pending =
    IsQuiet s e × (s.collection_status ≡ CollectionObservation.pending) × IsOpen s.hold_status
Awaits s e hold_confirmation_pending =
    IsQuiet s e
    × (s.collection_status ≡ CollectionObservation.confirmed)
    × IsOpen s.hold_status
    × (reference_missing s.payment_reference ≡ false)
    × (s.collected_amount_minor ≡ some e.amount_minor)

assess-IsAssessable :
    (s : PaymentProviderSnapshot) (e : PaymentProtectionExpectation)
    (v : PaymentProtectionAssessment)
    → assess_payment_protection s e ≡ ok v
    → IsAssessable e
unfolding assess_payment_protection
assess-IsAssessable s e v h = ground arith

-- The assessment returns a verdict exactly if the expectation names an attempt and a positive
-- amount, whatever the snapshot; otherwise it throws.
pub assess-ok_iff :
    (s : PaymentProviderSnapshot) (e : PaymentProtectionExpectation)
    → ((v : PaymentProtectionAssessment) × (assess_payment_protection s e ≡ ok v)) ↔ IsAssessable e
unfolding assess_payment_protection
assess-ok_iff s e = (λ h. assess-IsAssessable s e h.0 h.1, λ a. (assess_snapshot s e, ground arith))

-- The verdict of the guards before the statuses are compared.
assess-settled_iff :
    (s : PaymentProviderSnapshot) (e : PaymentProtectionExpectation)
    (v : PaymentProtectionAssessment)
    → ((r : ReconciliationReason) → v ≢ reconciliation_required r)
    → (assess_payment_protection s e ≡ ok v) ↔ (
        IsAssessable e
        × IsQuiet s e
        × (any_unknown s ≡ false)
        × (assess_statuses s e.amount_minor ≡ v))
unfolding assess_payment_protection assess_snapshot
assess-settled_iff s e v n = (
  λ h. ground (
    arith,
    tests-IsQuiet s e,
    n payment_attempt_mismatch,
    n unknown_provider_state,
    n post_hold_activity_observed,
  ),
  λ h. ground (arith, IsQuiet-tests s e h.1),
)

collected_held :
    (s : PaymentProviderSnapshot) (amount : ℤ)
    → (assess_collected s amount ≡ held_confirmed) ↔ (
        (reference_missing s.payment_reference ≡ false)
        × (s.collected_amount_minor ≡ some amount)
        × ((s.hold_status ≡ HoldObservation.confirmed) ⊎ (s.hold_status ≡ HoldObservation.unknown))
        × (s.held_amount_minor ≡ some amount))
unfolding assess_collected
collected_held s amount = grind (arith, eq_ℤ_iff)

collected_awaiting :
    (s : PaymentProviderSnapshot) (amount : ℤ) (r : AwaitingReason)
    → (assess_collected s amount ≡ awaiting_confirmation r) ↔ (
        (r ≡ hold_confirmation_pending)
        × (reference_missing s.payment_reference ≡ false)
        × (s.collected_amount_minor ≡ some amount)
        × IsOpen s.hold_status)
unfolding assess_collected
collected_awaiting s amount r = grind (arith, eq_ℤ_iff)

statuses_held :
    (s : PaymentProviderSnapshot) (amount : ℤ)
    → ((any_unknown s ≡ false) × (assess_statuses s amount ≡ held_confirmed)) ↔ (
        (any_unknown s ≡ false)
        × (s.collection_status ≡ CollectionObservation.confirmed)
        × (assess_collected s amount ≡ held_confirmed))
unfolding assess_statuses any_unknown
statuses_held s amount = ground arith

quiet_known :
    (s : PaymentProviderSnapshot) (e : PaymentProtectionExpectation)
    → IsQuiet s e
    → s.collection_status ≢ CollectionObservation.unknown
    → s.hold_status ≢ HoldObservation.unknown
    → any_unknown s ≡ false
unfolding any_unknown
quiet_known s e q c h = ground arith

known_hold :
    (s : PaymentProviderSnapshot) → any_unknown s ≡ false → s.hold_status ≢ HoldObservation.unknown
unfolding any_unknown
known_hold s q = ground arith

-- The verdict is `HELD_CONFIRMED` exactly if the expectation is well formed, the snapshot is of
-- that attempt, reports collection and hold as confirmed and nothing beyond them, carries a
-- payment reference, and both amounts are exactly the expected one.
pub held_confirmed_iff :
    (s : PaymentProviderSnapshot) (e : PaymentProtectionExpectation)
    → (assess_payment_protection s e ≡ ok held_confirmed) ↔ (IsAssessable e × IsProtected s e)
held_confirmed_iff s e =
    let (to, from) = assess-settled_iff s e held_confirmed (λ r. λ h. cc) in
    let (a, b) = statuses_held s e.amount_minor in
    let (c, d) = collected_held s e.amount_minor in
    (
      λ h. ground (arith, to h, a, c, known_hold s),
      λ h. ground (arith, d, b, quiet_known s e h.1.quiet),
    )

statuses_failed :
    (s : PaymentProviderSnapshot) (amount : ℤ) (r : FailedReason)
    → any_unknown s ≡ false
    → (assess_statuses s amount ≡ failed r) ↔ (
        (s.collection_status ≡ collection_of r)
        × (s.hold_status ≢ HoldObservation.confirmed)
        × (s.collected_amount_minor ≡ none)
        × (s.held_amount_minor ≡ none))
unfolding assess_statuses assess_uncollected assess_collected any_unknown
statuses_failed s amount collection_failed u = ground arith
statuses_failed s amount collection_expired u = ground arith

statuses_awaiting :
    (s : PaymentProviderSnapshot) (amount : ℤ) (r : AwaitingReason)
    → any_unknown s ≡ false
    → (assess_statuses s amount ≡ awaiting_confirmation r) ↔ (
        ((r ≡ collection_pending)
          × (s.collection_status ≡ CollectionObservation.pending)
          × IsOpen s.hold_status)
        ⊎ ((s.collection_status ≡ CollectionObservation.confirmed)
            × (assess_collected s amount ≡ awaiting_confirmation r)))
unfolding assess_statuses assess_uncollected any_unknown
statuses_awaiting s amount r u = ground arith

known_failure :
    {c : CollectionObservation} (r : FailedReason)
    → c ≡ collection_of r
    → c ≢ CollectionObservation.unknown
known_failure collection_failed e h = cc
known_failure collection_expired e h = cc

-- The verdict is `FAILED`, with the reason for it, exactly if the expectation is well formed and
-- the snapshot, of that attempt, reports the collection as failed (or expired), no confirmed and no
-- unknown hold, no amount, and nothing beyond collection and hold.
pub failed_iff :
    (s : PaymentProviderSnapshot) (e : PaymentProtectionExpectation) (r : FailedReason)
    → (assess_payment_protection s e ≡ ok (failed r)) ↔ (IsAssessable e × IsUncollected s e r)
failed_iff s e r =
    let (to, from) = assess-settled_iff s e (failed r) (λ q. λ h. cc) in
    (
      λ h.
          let k = to h in
          let (c, n, a, b) = (statuses_failed s e.amount_minor r k.2).0 k.3 in
          (
            k.0,
            record {
              quiet = k.1;
              collection = c;
              not_held = n;
              hold_known = known_hold s k.2;
              no_collected = a;
              no_held = b;
            },
          ),
      λ h.
          let u = h.1 in
          let known = quiet_known s e u.quiet (known_failure r u.collection) u.hold_known in
          from (
            h.0,
            u.quiet,
            known,
            (statuses_failed s e.amount_minor r known).1
                (u.collection, u.not_held, u.no_collected, u.no_held),
          ),
    )

module _ (s : PaymentProviderSnapshot) (e : PaymentProtectionExpectation) where
  assess_statuses-Awaits :
      (r : AwaitingReason)
      → IsQuiet s e
      → any_unknown s ≡ false
      → assess_statuses s e.amount_minor ≡ awaiting_confirmation r
      → Awaits s e r
  assess_statuses-Awaits collection_pending q u h = ground (
    arith,
    (statuses_awaiting s e.amount_minor collection_pending u).0 h,
    (collected_awaiting s e.amount_minor collection_pending).0,
  )
  assess_statuses-Awaits hold_confirmation_pending q u h = ground (
    arith,
    (statuses_awaiting s e.amount_minor hold_confirmation_pending u).0 h,
    (collected_awaiting s e.amount_minor hold_confirmation_pending).0,
  )

  Awaits-IsQuiet : (r : AwaitingReason) → Awaits s e r → IsQuiet s e
  Awaits-IsQuiet collection_pending h = h.0
  Awaits-IsQuiet hold_confirmation_pending h = h.0

  Awaits-any_unknown : (r : AwaitingReason) → Awaits s e r → any_unknown s ≡ false
  Awaits-any_unknown collection_pending h =
      quiet_known s e h.0 (λ c. ground arith) (λ c. ground arith)
  Awaits-any_unknown hold_confirmation_pending h =
      quiet_known s e h.0 (λ c. ground arith) (λ c. ground arith)

  Awaits-assess_statuses :
      (r : AwaitingReason)
      → Awaits s e r
      → any_unknown s ≡ false
      → assess_statuses s e.amount_minor ≡ awaiting_confirmation r
  Awaits-assess_statuses collection_pending h u =
      (statuses_awaiting s e.amount_minor collection_pending u).1 (inl (refl, h.1, h.2))
  Awaits-assess_statuses hold_confirmation_pending h u =
      (statuses_awaiting s e.amount_minor hold_confirmation_pending u).1 (
        inr (
          h.1,
          (collected_awaiting s e.amount_minor hold_confirmation_pending).1 (refl, h.3, h.4, h.2),
        ))

-- The verdict is `AWAITING_CONFIRMATION` exactly if the expectation is well formed and the
-- snapshot, of that attempt, reports nothing beyond collection and hold, an open hold, and either
-- a pending collection or, with a payment reference, one confirmed at the expected amount.
pub awaiting_iff :
    (s : PaymentProviderSnapshot) (e : PaymentProtectionExpectation) (r : AwaitingReason)
    → (assess_payment_protection s e ≡ ok (awaiting_confirmation r))
      ↔ (IsAssessable e × Awaits s e r)
awaiting_iff s e r =
    let (to, from) = assess-settled_iff s e (awaiting_confirmation r) (λ q. λ h. cc) in
    (
      λ h. let k = to h in (k.0, assess_statuses-Awaits s e r k.1 k.2 k.3),
      λ h.
          let known = Awaits-any_unknown s e r h.1 in
          from (h.0, Awaits-IsQuiet s e r h.1, known, Awaits-assess_statuses s e r h.1 known),
    )
