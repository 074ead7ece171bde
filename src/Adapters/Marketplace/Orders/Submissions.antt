-- ===== src/Adapters/Marketplace/Orders/Submissions.antt =====
-- Order submission, and any sequence of submissions: capacity is conserved, and so never oversold.
use nitip_cuy.Prelude.{ℕ, ◌+◌, ◌≤◌, ◌≡◌, refl, sym, ◌∙◌, subst, ap, List, [], ◌∷◌, arith}
use nitip_cuy.Text.{Text}
use nitip_cuy.Failure.{Result, ok, err, ok_path}
use nitip_cuy.Platform.{Platform}
use nitip_cuy.Transaction.{
  Transaction, lift, return, writes, committed, after_part, lift-eq-ok, return-eq-ok,
}
use nitip_cuy.Domain.OrderRequest.{NormalTerms, normalize_order_request_terms}
use nitip_cuy.Domain.Account.{AuthenticatedActor, order_request_id}
use nitip_cuy.Application.Marketplace.{
  SubmittedOrderRequest, OrderSubmissionClaim, granted, replayed, conflicting, running,
  SubmissionKey, require_current_actor, normalize_correlation_id, normalize_idempotency_key,
}
use nitip_cuy.Application.Marketplace.OrderSubmission.{
  OrderSubmissionDependencies, OrderSubmission, expiry_after, request_of, submission_key,
  reserve_order, record_order, after_submission_claim, submit_order_request,
}
use nitip_cuy.Adapters.Marketplace.{OrderRow, Database}
use nitip_cuy.Adapters.Marketplace.Writing.{order_row}
use nitip_cuy.Adapters.Marketplace.Orders.{
  Readings, authoritative_now, create_order, transaction_context, claim_submission,
  complete_submission,
}
use nitip_cuy.Adapters.Marketplace.Orders.Conservation.{
  remaining_of, reserved_of, capacity_of, Same-trans, Keeps, Keeps-lift, Keeps-writes, Keeps-return,
  Keeps-claim, Keeps-complete, Keeps-actor,
}
use nitip_cuy.Adapters.Marketplace.Orders.Capacity.{
  IsCharged, order_row-lem, create_order-lem, reserve_order-IsCharged,
}

-- Every trip has the capacity, left and held together, that it had.
abbrev pub Conserves : Database → Database → Type 0
Conserves db after = (id : Text) → capacity_of id after ≡ capacity_of id db

-- The database holds one order more, and the trips are the same.
pub record IsRecorded (request : SubmittedOrderRequest) (row : OrderRow) (db after : Database)
    : Type 0 where
  pub trips : after.trips ≡ db.trips
  pub orders : after.orders ≡ row ∷ db.orders

module _ (p : Platform) (readings : Readings) where
  pub record_order-IsRecorded :
      (actor : AuthenticatedActor) (correlation : Text) (key : SubmissionKey)
      (dependencies : OrderSubmissionDependencies) (request out : SubmittedOrderRequest)
      (db after : Database)
      → record_order p
          (transaction_context p readings)
          actor
          correlation
          key
          dependencies
          request
          db
        ≡ ok (out, after)
      → (row : OrderRow) × (order_row p request ≡ ok row) × IsRecorded request row db after
  unfolding record_order Keeps
  record_order-IsRecorded actor correlation key dependencies request out db after h =
      after_part (create_order p readings request) _ db h λ u1 s1 e1 h1.
        after_part (writes _) _ s1 h1 λ u2 s2 e2 h2. after_part (writes _) _ s2 h2 λ u3 s3 e3 h3.
          after_part (lift (expiry_after p request.submitted_at)) _ s3 h3 λ expires s4 e4 h4.
            after_part (complete_submission p readings key request.id request.submitted_at expires)
              _ s4 h4
              λ u5 s5 e5 h5.
                let (row, written, created) = create_order-lem p readings request db s1 u1 e1 in
                let same =
                  Same-trans
                    (Keeps-writes _ (λ d. record { trips = refl; orders = refl }) s1 s2 u2 e2)
                    (Same-trans
                      (Keeps-writes _ (λ d. record { trips = refl; orders = refl }) s2 s3 u3 e3)
                      (Same-trans (Keeps-lift _ s3 s4 expires e4) (
                        Same-trans
                          (Keeps-complete p readings key request.id request.submitted_at expires s4
                            s5 u5 e5)
                          (Keeps-return request s5 after out h5)))) in
                (
                  row,
                  written,
                  record {
                    trips = same.trips ∙ ap (λ d. d.trips) created;
                    orders = same.orders ∙ ap (λ d. d.orders) created;
                  },
                )

  balance :
      (t id : Text) (units : ℕ) (row : OrderRow) (db mid after : Database)
      (request : SubmittedOrderRequest)
      → IsCharged t units db mid
      → IsRecorded request row mid after
      → row.trip_id ≡ t
      → row.reserved_capacity ≡ units
      → capacity_of id after ≡ capacity_of id db
  unfolding reserved_of
  balance t id units row db mid after request charged recorded et eu =
      let c = charged.trips id in
      rw (recorded.trips, recorded.orders, charged.orders, et, eu) (omega (arith, c))

  claimed-Conserves :
      (actor : AuthenticatedActor) (correlation trip_id : Text) (terms : NormalTerms)
      (key : SubmissionKey) (dependencies : OrderSubmissionDependencies) (occurred_at : Text)
      (claim : OrderSubmissionClaim) (db after : Database) (out : SubmittedOrderRequest)
      → after_submission_claim p
          (transaction_context p readings)
          actor
          correlation
          trip_id
          terms
          key
          dependencies
          occurred_at
          claim
          db
        ≡ ok (out, after)
      → Conserves db after
  unfolding after_submission_claim return lift
  claimed-Conserves actor correlation trip_id terms key dependencies occurred_at (replayed request)
        db after out h id =
      rw (return-eq-ok request out db after h).1 refl
  claimed-Conserves actor correlation trip_id terms key dependencies occurred_at conflicting db
        after out h id =
      absurd (ground arith)
  claimed-Conserves actor correlation trip_id terms key dependencies occurred_at running db after
        out h id =
      absurd (ground arith)
  claimed-Conserves actor correlation trip_id terms key dependencies occurred_at granted db after
        out h id =
      after_part (reserve_order p (transaction_context p readings) actor trip_id terms occurred_at)
        _ db h
        λ reserved s1 e1 h1.
          after_part (lift (order_request_id p dependencies.next_order_request)) _ s1 h1
            λ request_id s2 e2 h2.
              let (units, converted, charged) =
                reserve_order-IsCharged p readings actor trip_id terms occurred_at db s1 reserved
                  e1 in
              let (identified, same) =
                lift-eq-ok (order_request_id p dependencies.next_order_request) s1 s2 request_id
                  e2 in
              let request = request_of reserved.0 actor.account_id request_id terms reserved.1 in
              let (row, written, recorded) =
                record_order-IsRecorded actor correlation key dependencies request out s2 after
                  h2 in
              let (trip, held) = order_row-lem p readings request row written in
              balance reserved.0.id id units row db s2 after request
                (subst (IsCharged reserved.0.id units db) (sym same) charged) recorded trip
                (ok_path (sym converted ∙ held))

  -- A submission that returns conserves the capacity of every trip: what a trip's row loses is what
  -- the new order holds, and a replay changes neither.
  submit-Conserves :
      (dependencies : OrderSubmissionDependencies) (actor : AuthenticatedActor)
      (input : OrderSubmission) (db after : Database) (out : SubmittedOrderRequest)
      → submit_order_request p (transaction_context p readings) dependencies actor input db
        ≡ ok (out, after)
      → Conserves db after
  unfolding submit_order_request authoritative_now Keeps
  submit-Conserves dependencies actor input db after out h id =
      after_part (lift (normalize_correlation_id input.correlation_id)) _ db h
        λ correlation s1 e1 h1.
          after_part (lift (normalize_idempotency_key input.idempotency_key)) _ s1 h1
            λ idempotency_key s2 e2 h2.
              after_part (lift (normalize_order_request_terms input.terms)) _ s2 h2
                λ terms s3 e3 h3.
                  let key =
                    submission_key dependencies actor.account_id idempotency_key input.trip_id
                      terms in
                  after_part (return _) _ s3 h3 λ occurred_at s4 e4 h4.
                    after_part
                      (require_current_actor (transaction_context p readings) actor occurred_at) _
                      s4 h4
                      λ account s5 e5 h5.
                        after_part (claim_submission p readings key occurred_at) _ s5 h5
                          λ claim s6 e6 h6.
                            let same = Same-trans (Keeps-lift _ db s1 correlation e1) (
                              Same-trans (Keeps-lift _ s1 s2 idempotency_key e2) (
                                Same-trans (Keeps-lift _ s2 s3 terms e3) (
                                  Same-trans (Keeps-return _ s3 s4 occurred_at e4) (
                                    Same-trans
                                      (Keeps-actor p readings actor occurred_at s4 s5 account e5)
                                      (Keeps-claim p readings key occurred_at s5 s6 claim e6))))) in
                            claimed-Conserves actor correlation input.trip_id terms key dependencies
                              occurred_at claim s6 after out h6 id
                            ∙ rw (same.trips, same.orders) refl

-- A call of `SubmitOrderRequest.execute`, with what its transaction reads of its surroundings.
pub record Attempt : Type 0 where
  pub readings : Readings
  pub dependencies : OrderSubmissionDependencies
  pub actor : AuthenticatedActor
  pub input : OrderSubmission

abbrev pub attempt_work : Platform → Attempt → Transaction Database SubmittedOrderRequest
attempt_work p a =
    submit_order_request p (transaction_context p a.readings) a.dependencies a.actor a.input

-- Serializable transactions, one after another; one that throws is rolled back.
unfoldable pub after_attempts : Platform → Database → List Attempt → Database
after_attempts p db [] = db
after_attempts p db (a ∷ attempts) = after_attempts p (committed (attempt_work p a) db) attempts

committed-Conserves :
    (p : Platform) (a : Attempt) (db : Database) → Conserves db (committed (attempt_work p a) db)
committed-Conserves p a db id = go (attempt_work p a db) refl
  where
    go :
        (result : Result (SubmittedOrderRequest × Database))
        → attempt_work p a db ≡ result
        → capacity_of id (elim result [ err error ↦ db | ok (value, after) ↦ after ])
          ≡ capacity_of id db
    go (err error) e = refl
    go (ok (out, after)) e =
        submit-Conserves p a.readings a.dependencies a.actor a.input db after out e id

attempts-Conserves :
    (p : Platform) (db : Database) (attempts : List Attempt)
    → Conserves db (after_attempts p db attempts)
unfolding after_attempts
attempts-Conserves p db [] id = refl
attempts-Conserves p db (a ∷ attempts) id =
    attempts-Conserves p (committed (attempt_work p a) db) attempts id
    ∙ committed-Conserves p a db id

-- After any sequence of submissions, by any actors, with any inputs, at any times and whether they
-- return or throw, a trip's remaining capacity and what its orders hold add up to what they added
-- up to at the start; so the orders of a trip never hold more than that.
pub attempts_never_oversell :
    (p : Platform) (db : Database) (attempts : List Attempt) (id : Text)
    → let after = after_attempts p db attempts in
      (remaining_of id after.trips + reserved_of id after.orders
        ≡ remaining_of id db.trips + reserved_of id db.orders)
      × (reserved_of id after.orders ≤ remaining_of id db.trips + reserved_of id db.orders)
attempts_never_oversell p db attempts id =
    let e = attempts-Conserves p db attempts id in (e, omega (arith, e))
