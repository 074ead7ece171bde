-- ===== src/Adapters/Marketplace/Orders/Replay.antt =====
-- A submission that was recorded answers the claims of its key until it expires.
use nitip_cuy.Prelude.{
  ℕ, ◌≤◌, ◌<◌, ◌≡◌, All, [], refl, sym, ◌∙◌, ap, true, false, some, List, ◌∷◌, leb, if◌then◌else◌,
  arith, Bool-cases, inl, inr,
}
use nitip_cuy.Text.{Text, text_eq, text_eq_refl}
use nitip_cuy.Failure.{ok, throw_if, after_bind, ok_path}
use nitip_cuy.Platform.{Platform, IsIsoPlatform, last_instant}
use nitip_cuy.Transaction.{
  ◌>>=◌, lift, return, reads, writes, after_part, lift-eq-ok, reads-eq-ok, return-eq-ok,
  writes-eq-ok,
}
use nitip_cuy.Domain.Account.{AuthenticatedActor}
use nitip_cuy.Application.Marketplace.{SubmittedOrderRequest, SubmissionKey, replayed, conflicting}
use nitip_cuy.Application.Marketplace.OrderSubmission.{
  OrderSubmissionDependencies, expiry_after, record_order,
}
use nitip_cuy.Adapters.Marketplace.{
  OrderRow, SubmissionRow, Database, map_submitted_order_request, grams_to_decimal_kilograms,
}
use nitip_cuy.Adapters.Marketplace.Writing.{order_row, store_terms, date_column}
use nitip_cuy.Adapters.Marketplace.Orders.{
  Readings, replay_request, claim_found, claim_submission, create_order, complete_submission,
  transaction_context,
}
use nitip_cuy.Adapters.Marketplace.Orders.RoundTrip.{IsStorable, order_roundtrip}
use nitip_cuy.Adapters.Marketplace.Orders.Submissions.{
  Attempt, after_attempts, record_order-IsRecorded,
}
use nitip_cuy.Adapters.Marketplace.Orders.Kept.{IsRecordedAs, IsLive, find_same}
use nitip_cuy.Adapters.Marketplace.Orders.Persists.{attempts-IsRecordedAs}
use nitip_cuy.Adapters.Marketplace.Orders.Capacity.{create_order-lem}

-- The database holds the order and the completed key on top.
record Holds (request : SubmittedOrderRequest) (key : SubmissionKey) (row : OrderRow)
    (completed expiry : ℕ) (after : Database) : Type 0 where
  pub older_orders : List OrderRow
  pub older_submissions : List SubmissionRow
  pub orders : after.orders ≡ row ∷ older_orders
  pub submissions :
      after.submissions
      ≡ record {
        customer_account_id = key.customer_account_id;
        key_digest = key.key_digest;
        fingerprint = key.fingerprint;
        request_id = request.id;
        completed_at = completed;
        expires_at = expiry;
      }
        ∷ older_submissions

order_row-id :
    (p : Platform) (request : SubmittedOrderRequest) (row : OrderRow)
    → order_row p request ≡ ok row
    → row.id ≡ request.id
unfolding order_row
order_row-id p request row h =
    after_bind (grams_to_decimal_kilograms request.reserved_capacity_grams) _ h λ capacity e1 h1.
      after_bind (date_column p request.estimated_arrival_at) _ h1 λ arrival e2 h2.
        after_bind (date_column p request.order_close_at) _ h2 λ closes e3 h3.
          after_bind (date_column p request.order_open_at) _ h3 λ opens e4 h4.
            after_bind (date_column p request.submitted_at) _ h4 λ submitted e5 h5.
              after_bind (date_column p request.transport_departure_at) _ h5 λ departure e6 h6.
                after_bind (store_terms request.terms) _ h6 λ terms e7 h7. rw (ok_path h7) refl

date_of_ok :
    (p : Platform) (text : Text) (t : ℕ) → date_column p text ≡ ok t → p.parse_date text ≡ some t
unfolding date_column
date_of_ok p text t h = ground arith

module _ (p : Platform) (readings : Readings) where
  complete_submission-lem :
      (key : SubmissionKey) (id completed_at expires_at : Text) (db after : Database)
      (done : Unit {0})
      → complete_submission p readings key id completed_at expires_at db ≡ ok (done, after)
      → (completed : ℕ) × (expiry : ℕ) × (p.parse_date expires_at ≡ some expiry)
        × (after ≡ record db {
          submissions =
              record {
                customer_account_id = key.customer_account_id;
                key_digest = key.key_digest;
                fingerprint = key.fingerprint;
                request_id = id;
                completed_at = completed;
                expires_at = expiry;
              }
              ∷ db.submissions;
        })
  unfolding complete_submission
  complete_submission-lem key id completed_at expires_at db after done h =
      after_part (lift (date_column p completed_at)) _ db h λ completed s1 e1 h1.
        after_part (lift (date_column p expires_at)) _ s1 h1 λ expiry s2 e2 h2.
          after_part (reads _) _ s2 h2 λ taken s3 e3 h3.
            after_part (lift (throw_if taken _)) _ s3 h3 λ u s4 e4 h4.
              let k1 = (lift-eq-ok (date_column p completed_at) db s1 completed e1).1 in
              let (q, k2) = lift-eq-ok (date_column p expires_at) s1 s2 expiry e2 in
              let k3 = (reads-eq-ok _ s2 s3 taken e3).1 in
              let k4 = (lift-eq-ok (throw_if taken _) s3 s4 u e4).1 in
              (
                completed,
                expiry,
                date_of_ok p expires_at expiry q,
                writes-eq-ok _ s4 after done h4 ∙ rw (k4 ∙ k3 ∙ k2 ∙ k1) refl,
              )

  record_order-Holds :
      (actor : AuthenticatedActor) (correlation : Text) (key : SubmissionKey)
      (dependencies : OrderSubmissionDependencies) (request out : SubmittedOrderRequest)
      (row : OrderRow) (expires_at : Text) (expiry : ℕ) (db after : Database)
      → record_order p
          (transaction_context p readings)
          actor
          correlation
          key
          dependencies
          request
          db
        ≡ ok (out, after)
      → order_row p request ≡ ok row
      → expiry_after p request.submitted_at ≡ ok expires_at
      → p.parse_date expires_at ≡ some expiry
      → (completed : ℕ) × Holds request key row completed expiry after
  unfolding record_order
  record_order-Holds actor correlation key dependencies request out row expires_at expiry db after h
        written expires parsed =
      after_part (create_order p readings request) _ db h λ u1 s1 e1 h1.
        after_part (writes _) _ s1 h1 λ u2 s2 e2 h2. after_part (writes _) _ s2 h2 λ u3 s3 e3 h3.
          after_part (lift (expiry_after p request.submitted_at)) _ s3 h3 λ expires' s4 e4 h4.
            after_part (complete_submission p readings key request.id request.submitted_at expires')
              _ s4 h4
              λ u5 s5 e5 h5.
                let (row', written', k1) = create_order-lem p readings request db s1 u1 e1 in
                let k2 = writes-eq-ok _ s1 s2 u2 e2 in
                let k3 = writes-eq-ok _ s2 s3 u3 e3 in
                let (same_expiry, k4) =
                  lift-eq-ok (expiry_after p request.submitted_at) s3 s4 expires' e4 in
                let (completed, expiry', parsed', k5) =
                  complete_submission-lem key request.id request.submitted_at expires' s4 s5 u5
                    e5 in
                let k6 = (return-eq-ok request out s5 after h5).1 in
                let texts : expires' ≡ expires_at = ok_path (sym expires ∙ same_expiry) in
                let rows : row' ≡ row = ok_path (sym written ∙ written') in
                let times : expiry' ≡ expiry = ground (arith, texts) in
                (
                  completed,
                  record {
                    older_orders = db.orders;
                    older_submissions = s4.submissions;
                    orders =
                        ap (λ d. d.orders) (k6 ∙ k5)
                        ∙ ap (λ d. d.orders) (k4 ∙ k3)
                        ∙ ap (λ d. d.orders) k2
                        ∙ ap (λ d. d.orders) k1
                        ∙ rw rows refl;
                    submissions = ap (λ d. d.submissions) (k6 ∙ k5) ∙ rw times refl;
                  },
                )

-- The submission that is stored.
abbrev stored : SubmissionKey → SubmittedOrderRequest → ℕ → ℕ → SubmissionRow
stored key request completed expiry = record {
  customer_account_id = key.customer_account_id;
  key_digest = key.key_digest;
  fingerprint = key.fingerprint;
  request_id = request.id;
  completed_at = completed;
  expires_at = expiry;
}

Holds-IsRecordedAs :
    (request : SubmittedOrderRequest) (key : SubmissionKey) (row : OrderRow) (completed expiry : ℕ)
    (after : Database)
    → row.id ≡ request.id
    → Holds request key row completed expiry after
    → IsRecordedAs key (stored key request completed expiry) row after
Holds-IsRecordedAs request key row completed expiry after id holds = record {
  submitted =
      rw (holds.submissions, text_eq_refl key.customer_account_id, text_eq_refl key.key_digest)
        refl;
  ordered = rw (holds.orders, id, text_eq_refl request.id) refl;
}

-- A claim of the key, on a database that has it recorded.
claim-IsRecordedAs :
    (p : Platform) (later : Readings) (request : SubmittedOrderRequest) (key again : SubmissionKey)
    (row : OrderRow) (completed expiry now : ℕ) (observed_at : Text) (after : Database)
    → IsRecordedAs key (stored key request completed expiry) row after
    → map_submitted_order_request p row ≡ ok request
    → (again.customer_account_id ≡ key.customer_account_id) × (again.key_digest ≡ key.key_digest)
    → later.lock_acquired ≡ true
    → p.parse_date observed_at ≡ some now
    → now < expiry
    → claim_submission p later again observed_at after
      ≡ ok (
        if text_eq key.fingerprint again.fingerprint then replayed request else conflicting,
        after,
      )
unfolding claim_submission claim_found replay_request ◌>>=◌ reads return lift
claim-IsRecordedAs p later request key again row completed expiry now observed_at after recorded
      read same lock observed early =
    let live : leb expiry now ≡ false = ground arith in
    rw (lock, find_same key again after.submissions same, recorded.submitted, observed, live)
      (elim (Bool-cases (text_eq key.fingerprint again.fingerprint)) [
        | inl equal ↦ rw (equal, recorded.ordered, read) refl
        | inr other ↦ rw other refl
      ])

-- A submission that runs before the expiry, by the clock of the database.
abbrev pub IsEarly : ℕ → Attempt → Type 0
IsEarly expiry a = (a.readings.observed_at ≤ last_instant) × (a.readings.observed_at < expiry)

early-IsLive :
    (p : Platform) (key : SubmissionKey) (submission : SubmissionRow) (order : OrderRow)
    (attempts : List Attempt)
    → IsIsoPlatform p
    → All (IsEarly submission.expires_at) attempts
    → All (λ a. IsLive p a.readings key submission order) attempts
early-IsLive p key submission order [] iso early = tt
early-IsLive p key submission order (a ∷ attempts) iso ((range, soon), early) = (
  (a.readings.observed_at, iso.parse-iso a.readings.observed_at range, soon),
  early-IsLive p key submission order attempts iso early,
)

-- Let an order be recorded under a key, for a request as the use case makes it, and let any
-- submissions be made after it that observe a time before the expiry, whether they return or throw.
-- Then a claim of that key that observes a time before the expiry and finds its lock free is
-- answered from the record and changes nothing: under the same fingerprint it is a replay of the
-- very request, and under another it is a conflict. The platform reads back the timestamps that it
-- writes.
pub recorded_claim :
    (p : Platform) (readings later : Readings) (actor : AuthenticatedActor) (correlation : Text)
    (key again : SubmissionKey) (dependencies : OrderSubmissionDependencies)
    (request out : SubmittedOrderRequest) (expires_at observed_at : Text) (expiry now : ℕ)
    (db after : Database) (attempts : List Attempt)
    → IsIsoPlatform p
    → IsStorable p request
    → record_order p (transaction_context p readings) actor correlation key dependencies request db
      ≡ ok (out, after)
    → expiry_after p request.submitted_at ≡ ok expires_at
    → p.parse_date expires_at ≡ some expiry
    → All (IsEarly expiry) attempts
    → again.customer_account_id ≡ key.customer_account_id
    → again.key_digest ≡ key.key_digest
    → later.lock_acquired ≡ true
    → p.parse_date observed_at ≡ some now
    → now < expiry
    → let current = after_attempts p after attempts in
      claim_submission p later again observed_at current
      ≡ ok (
        if text_eq key.fingerprint again.fingerprint then replayed request else conflicting,
        current,
      )
recorded_claim p readings later actor correlation key again dependencies request out expires_at
      observed_at expiry now db after attempts iso storable h expires parsed early customer digest
      lock observed soon =
    let (row, written, recorded) =
      record_order-IsRecorded p readings actor correlation key dependencies request out db after
        h in
    let (completed, holds) =
      record_order-Holds p readings actor correlation key dependencies request out row expires_at
        expiry db after h written expires parsed in
    let submission = stored key request completed expiry in
    let first =
      Holds-IsRecordedAs request key row completed expiry after (order_row-id p request row written)
        holds in
    let kept =
      attempts-IsRecordedAs p key submission row attempts after
        (early-IsLive p key submission row attempts iso early) first in
    claim-IsRecordedAs p later request key again row completed expiry now observed_at
      (after_attempts p after attempts) kept (order_roundtrip p request row iso storable written)
      (customer, digest) lock observed soon
