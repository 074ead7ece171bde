-- ===== src/Adapters/Marketplace/Orders/Persists.antt =====
-- A recorded order outlives every submission that is made before its key expires.
use nitip_cuy.Prelude.{ℕ, ◌≡◌, refl, Option, none, some, List, [], ◌∷◌, All}
use nitip_cuy.Text.{Text}
use nitip_cuy.Failure.{Result, ok, err}
use nitip_cuy.Platform.{Platform}
use nitip_cuy.Transaction.{Transaction, committed}
use nitip_cuy.Domain.OrderRequest.{NormalTerms}
use nitip_cuy.Domain.Account.{AuthenticatedActor}
use nitip_cuy.Application.Marketplace.{
  SubmittedOrderRequest, OrderSubmissionClaim, granted, replayed, conflicting, running,
  SubmissionKey, require_current_actor,
}
use nitip_cuy.Application.Marketplace.OrderSubmission.{
  OrderSubmissionDependencies, OrderSubmission, reserve_order, record_order, after_submission_claim,
  submit_order_request,
}
use nitip_cuy.Adapters.Marketplace.{TripRow, OrderRow, SubmissionRow, Database}
use nitip_cuy.Adapters.Marketplace.Orders.{
  Readings, reserve_candidate, reserve_capacity, transaction_context, authoritative_now,
  lock_eligible_seller,
}
use nitip_cuy.Adapters.Marketplace.Orders.Submissions.{Attempt, attempt_work, after_attempts}
use nitip_cuy.Adapters.Marketplace.Orders.Kept.{
  Preserves, Preserves-lift, Preserves-reads, Preserves-return, Preserves-after_return,
  Preserves->>=, Preserves-if, IsRecordedAs, IsLive, Kept, Kept-claim, Kept-create, Kept-same,
  Kept-complete,
}

module _ (p : Platform) (readings : Readings) (key : SubmissionKey) (submission : SubmissionRow)
    (order : OrderRow) where
  abbrev Keeps : {A : Type 0} → Transaction Database A → Type 0
  Keeps = Preserves (Kept p readings key submission order)

  abbrev P : Database → Type 0
  P = Kept p readings key submission order

  Kept-candidate :
      (trip_id : Text) (version units : ℕ) (candidate : Option TripRow)
      → Preserves P (reserve_candidate p readings trip_id version units candidate)
  unfolding reserve_candidate
  Kept-candidate trip_id version units none = Preserves-return P _
  Kept-candidate trip_id version units (some candidate) =
      Preserves-if P _ _ _ (Preserves-return P _) (
        Preserves->>= P _ _ (Preserves-reads P _) λ count.
          Preserves->>= P _ _
            (Kept-same p readings key submission order _ (λ db. refl) (λ db. refl))
            λ done. Preserves-return P _)

  Kept-capacity :
      (trip_id : Text) (version grams : ℕ)
      → Preserves P (reserve_capacity p readings trip_id version grams)
  unfolding reserve_capacity
  Kept-capacity trip_id version grams = Preserves->>= P _ _ (Preserves-lift P _) λ units.
      Preserves->>= P _ _ (Preserves-reads P _)
        λ candidate. Kept-candidate trip_id version units candidate

  Kept-actor :
      (actor : AuthenticatedActor) (observed_at : Text)
      → Preserves P (require_current_actor (transaction_context p readings) actor observed_at)
  unfolding require_current_actor
  Kept-actor actor observed_at =
      Preserves->>= P _ _ (Preserves->>= P _ _ (Preserves-reads P _) λ row. Preserves-lift P _)
        λ found. Preserves->>= P _ _ (Preserves-lift P _) λ account.
          Preserves->>= P _ _ (Preserves-lift P _) λ done.
            Preserves->>= P _ _ (Preserves-reads P _)
              λ live. Preserves->>= P _ _ (Preserves-lift P _) λ done'. Preserves-return P _

  Kept-reserve_order :
      (actor : AuthenticatedActor) (trip_id : Text) (terms : NormalTerms) (occurred_at : Text)
      → Preserves P
          (reserve_order p (transaction_context p readings) actor trip_id terms occurred_at)
  unfolding reserve_order lock_eligible_seller
  Kept-reserve_order actor trip_id terms occurred_at =
      Preserves->>= P _ _ (Preserves->>= P _ _ (Preserves-reads P _) λ row. Preserves-lift P _)
        λ found. Preserves->>= P _ _ (Preserves-lift P _) λ trip.
          Preserves->>= P _ _ (Preserves-lift P _) λ done.
            Preserves->>= P _ _ (Preserves-reads P _) λ eligible.
              Preserves->>= P _ _ (Preserves-lift P _) λ done'.
                Preserves->>= P _ _ (Preserves-lift P _) λ remaining.
                  Preserves->>= P _ _ (Preserves-lift P _) λ done''.
                    Preserves->>= P _ _ (Kept-capacity _ _ _) λ reserved.
                      Preserves->>= P _ _ (Preserves-lift P _) λ at. Preserves-return P _

  Kept-record_order :
      (actor : AuthenticatedActor) (correlation : Text) (other : SubmissionKey)
      (dependencies : OrderSubmissionDependencies) (request : SubmittedOrderRequest)
      → Preserves P (
          record_order p
            (transaction_context p readings)
            actor
            correlation
            other
            dependencies
            request)
  unfolding record_order
  Kept-record_order actor correlation other dependencies request =
      Preserves->>= P _ _ (Kept-create p readings key submission order request) λ created.
        Preserves->>= P _ _ (Kept-same p readings key submission order _ (λ db. refl) (λ db. refl))
          λ told.
            Preserves->>= P _ _
              (Kept-same p readings key submission order _ (λ db. refl) (λ db. refl))
              λ queued. Preserves->>= P _ _ (Preserves-lift P _) λ expires.
                Preserves->>= P _ _ (Kept-complete p readings key submission order other _ _ _)
                  λ done. Preserves-return P _

  Kept-answered :
      (actor : AuthenticatedActor) (correlation trip_id : Text) (terms : NormalTerms)
      (other : SubmissionKey) (dependencies : OrderSubmissionDependencies) (occurred_at : Text)
      (answered : OrderSubmissionClaim)
      → Preserves P (
          after_submission_claim p
            (transaction_context p readings)
            actor
            correlation
            trip_id
            terms
            other
            dependencies
            occurred_at
            answered)
  unfolding after_submission_claim
  Kept-answered actor correlation trip_id terms other dependencies occurred_at (replayed request) =
      Preserves-return P _
  Kept-answered actor correlation trip_id terms other dependencies occurred_at conflicting =
      Preserves-lift P _
  Kept-answered actor correlation trip_id terms other dependencies occurred_at running =
      Preserves-lift P _
  Kept-answered actor correlation trip_id terms other dependencies occurred_at granted =
      Preserves->>= P _ _ (Kept-reserve_order actor trip_id terms occurred_at) λ reserved.
        Preserves->>= P _ _ (Preserves-lift P _)
          λ id. Kept-record_order actor correlation other dependencies _

  Kept-submit :
      (dependencies : OrderSubmissionDependencies) (actor : AuthenticatedActor)
      (input : OrderSubmission)
      → IsLive p readings key submission order
      → Preserves P
          (submit_order_request p (transaction_context p readings) dependencies actor input)
  unfolding submit_order_request authoritative_now
  Kept-submit dependencies actor input live =
      Preserves->>= P _ _ (Preserves-lift P _) λ correlation.
        Preserves->>= P _ _ (Preserves-lift P _) λ idempotency_key.
          Preserves->>= P _ _ (Preserves-lift P _) λ terms.
            Preserves-after_return P (p.to_iso_string readings.observed_at) _ (
              Preserves->>= P _ _ (Kept-actor actor (p.to_iso_string readings.observed_at))
                λ account.
                  Preserves->>= P _ _ (Kept-claim p readings key submission order _ live)
                    λ answered.
                      Kept-answered actor correlation input.trip_id terms _ dependencies _ answered)

module _ (p : Platform) (key : SubmissionKey) (submission : SubmissionRow) (order : OrderRow) where
  Kept-committed :
      (a : Attempt) (db : Database)
      → IsLive p a.readings key submission order
      → IsRecordedAs key submission order db
      → IsRecordedAs key submission order (committed (attempt_work p a) db)
  unfolding Preserves
  Kept-committed a db live kept = go (attempt_work p a db) refl
    where
      go :
          (result : Result (SubmittedOrderRequest × Database))
          → attempt_work p a db ≡ result
          → IsRecordedAs key submission order
              (elim result [ err error ↦ db | ok (value, after) ↦ after ])
      go (err error) e = kept
      go (ok (out, after)) e =
          Kept-submit p a.readings key submission order a.dependencies a.actor a.input live db after
            out e kept

  -- Whatever submissions are made while the key is live, its order stays recorded.
  pub attempts-IsRecordedAs :
      (attempts : List Attempt) (db : Database)
      → All (λ a. IsLive p a.readings key submission order) attempts
      → IsRecordedAs key submission order db
      → IsRecordedAs key submission order (after_attempts p db attempts)
  unfolding after_attempts
  attempts-IsRecordedAs [] db live kept = kept
  attempts-IsRecordedAs (a ∷ attempts) db (now_live, live) kept =
      attempts-IsRecordedAs attempts (committed (attempt_work p a) db) live
        (Kept-committed a db now_live kept)
