-- ===== src/Adapters/Marketplace/Orders.antt =====
-- `PrismaOrderSubmissionRepository` of packages/adapters/src/prisma-marketplace.ts, with the
-- queries of the account and trip repositories that order submission makes.
pub mod Conservation
pub mod Capacity
pub mod Submissions
pub mod RoundTrip
pub mod Kept
pub mod Persists
pub mod Replay
pub mod Tests
use nitip_cuy.Prelude.{
  ℕ, ◌+◌, ◌-◌, ◌*◌, Bool, true, false, ◌&&◌, ◌||◌, not, Option, none, some, List, [], ◌∷◌, ◌==◌,
  leb, ltb, if◌then◌else◌, any,
}
use nitip_cuy.Text.{Text, text_eq}
use nitip_cuy.Failure.{Result, ok, err, throw_if, plain, fixed}
use nitip_cuy.Platform.{Platform}
use nitip_cuy.Transaction.{Transaction, ◌>>=◌, ◌>>◌, lift, return, reads, writes}
use nitip_cuy.Domain.Offer.{TripOffer, published, status_is}
use nitip_cuy.Domain.Account.{AuthenticatedActor, status_active, assurance_is}
use nitip_cuy.Application.Marketplace.{
  AccountRecord, AuditRecord, OutboxMessage, SubmittedOrderRequest, OrderSubmissionClaim, granted,
  replayed, conflicting, running, SubmissionKey, MarketplaceTransactionContext,
}
use nitip_cuy.Adapters.Marketplace.{
  TripRow, OrderRow, StoredTerms, shop_columns, carry_columns, SubmissionRow, AccountRow,
  ProfileRow, SessionRow, Database, map_trip_offer, map_account, grams_to_decimal_kilograms,
  map_submitted_order_request,
}
use nitip_cuy.Adapters.Marketplace.Writing.{order_row, date_column}

-- What one run of a transaction reads of its surroundings: the two readings of
-- `clock_timestamp()`, and whether the advisory lock of the key was free.
pub record Readings : Type 0 where
  pub observed_at : ℕ
  pub reserved_at : ℕ
  pub lock_acquired : Bool

-- `findUnique`: the first row that fits; the columns asked for are a key.
abbrev pub find : {Row : Type 0} → (Row → Bool) → List Row → Option Row
find fits [] = none
find fits (row ∷ rows) = if fits row then some row else find fits rows

-- How many rows fit.
unfoldable pub count_matching : {Row : Type 0} → (Row → Bool) → List Row → ℕ
count_matching fits [] = 0
count_matching fits (row ∷ rows) =
    let rest = count_matching fits rows in if fits row then rest + 1 else rest

-- `updateMany`: every row that fits is changed.
unfoldable pub update_matching : {Row : Type 0} → (Row → Bool) → (Row → Row) → List Row → List Row
update_matching fits change [] = []
update_matching fits change (row ∷ rows) =
    let rest = update_matching fits change rows in
    if fits row then change row ∷ rest else row ∷ rest

-- `delete`: the row goes.
unfoldable pub remove_matching : {Row : Type 0} → (Row → Bool) → List Row → List Row
remove_matching fits [] = []
remove_matching fits (row ∷ rows) =
    let rest = remove_matching fits rows in if fits row then rest else row ∷ rest

-- The primary key of a submission's row.
abbrev pub is_submission : SubmissionKey → SubmissionRow → Bool
is_submission key row =
    text_eq row.customer_account_id key.customer_account_id && text_eq row.key_digest key.key_digest

-- The conditions of the two statements of `reserveCapacity`.
abbrev pub is_reservable : Text → ℕ → ℕ → TripRow → Bool
is_reservable trip_id version units row =
    text_eq row.id trip_id
    && status_is row.status published
    && (row.version == version)
    && leb units row.remaining_capacity

-- `remainingCapacityKg: { decrement }, version: { increment: 1 }`
abbrev pub reserve_row : ℕ → TripRow → TripRow
reserve_row units row = record row {
  remaining_capacity = row.remaining_capacity - units;
  version = row.version + 1;
}

module _ (p : Platform) (readings : Readings) where
  pub authoritative_now : Transaction Database Text
  authoritative_now = return (p.to_iso_string readings.observed_at)

  -- `include: { request: true }`: the foreign key has a request in every row.
  pub replay_request : Option OrderRow → Transaction Database OrderSubmissionClaim
  replay_request none = lift (err (plain (fixed "Inconsistent query result.")))
  replay_request (some row) = do
    request ← lift (map_submitted_order_request p row)
    return (replayed request)

  pub claim_found :
      SubmissionKey → Text → Option SubmissionRow → Transaction Database OrderSubmissionClaim
  unfolding replay_request remove_matching
  claim_found key observed_at none = return granted
  claim_found key observed_at (some row) =
      if elim (p.parse_date observed_at) [ none ↦ false | some now ↦ leb row.expires_at now ]
      then (writes
            (λ db. record db { submissions = remove_matching (is_submission key) db.submissions })
          >> return granted)
      else if not (text_eq row.fingerprint key.fingerprint)
      then return conflicting
      else (reads (λ db. find (λ order. text_eq order.id row.request_id) db.orders)
          >>= replay_request)

  pub claim_submission : SubmissionKey → Text → Transaction Database OrderSubmissionClaim
  unfolding claim_found
  claim_submission key observed_at =
      if not readings.lock_acquired
      then return running
      else (reads (λ db. find (is_submission key) db.submissions) >>= claim_found key observed_at)

  -- `result.count === 1 ? candidate.reservedAt.toISOString() : null`
  abbrev reserved_answer : ℕ → Option Text
  reserved_answer count = if count == 1 then some (p.to_iso_string readings.reserved_at) else none

  pub reserve_candidate : Text → ℕ → ℕ → Option TripRow → Transaction Database (Option Text)
  unfolding count_matching update_matching
  reserve_candidate trip_id version units none = return none
  reserve_candidate trip_id version units (some candidate) =
      if ltb readings.reserved_at candidate.request_open_at
        || leb candidate.request_deadline readings.reserved_at
      then return none
      else do
        count ← reads (λ db. count_matching (is_reservable trip_id version units) db.trips)
        writes (λ db. record db {
          trips =
              update_matching (is_reservable trip_id version units) (reserve_row units) db.trips;
        })
        return (reserved_answer count)

  pub reserve_capacity : Text → ℕ → ℕ → Transaction Database (Option Text)
  unfolding reserve_candidate
  reserve_capacity trip_id version grams = do
    units ← lift (grams_to_decimal_kilograms grams)
    candidate ← reads (λ db. find (is_reservable trip_id version units) db.trips)
    reserve_candidate trip_id version units candidate

  pub lock_eligible_seller : Text → Text → Transaction Database Bool
  lock_eligible_seller seller profile = reads λ db.
      any
        (λ account.
          text_eq account.id seller
          && status_active account.status
          && any
              (λ row. text_eq row.account_id account.id && text_eq row.id profile && row.is_active)
              db.profiles)
        db.accounts

  pub create_order : SubmittedOrderRequest → Transaction Database (Unit {0})
  create_order request = do
    row ← lift (order_row p request)
    taken ← reads (λ db. any (λ other. text_eq other.id row.id) db.orders)
    lift (throw_if taken (plain (fixed "Unique constraint failed.")))
    writes (λ db. record db { orders = row ∷ db.orders })

  pub complete_submission : SubmissionKey → Text → Text → Text → Transaction Database (Unit {0})
  complete_submission key request_id completed_at expires_at = do
    completed ← lift (date_column p completed_at)
    expires ← lift (date_column p expires_at)
    taken ← reads (λ db. any (is_submission key) db.submissions)
    lift (throw_if taken (plain (fixed "Unique constraint failed.")))
    writes (λ db. record db {
      submissions =
          record {
            customer_account_id = key.customer_account_id;
            key_digest = key.key_digest;
            fingerprint = key.fingerprint;
            request_id = request_id;
            completed_at = completed;
            expires_at = expires;
          }
          ∷ db.submissions;
    })

  unfoldable pub map_found_trip : Option TripRow → Result (Option TripOffer)
  map_found_trip none = ok none
  map_found_trip (some row) = elim (map_trip_offer p row) [
    | err error ↦ err error
    | ok trip ↦ ok (some trip)
  ]

  unfoldable pub map_found_account : Option AccountRow → Result (Option AccountRecord)
  map_found_account none = ok none
  map_found_account (some row) = elim (map_account p row) [
    | err error ↦ err error
    | ok account ↦ ok (some account)
  ]

  -- The account of the session's row, which its foreign key makes exist.
  abbrev is_session_account : SessionRow → AccountRow → Bool
  is_session_account session account =
      text_eq account.id session.account_id
      && status_active account.status
      && (session.account_session_version == account.session_version)

  unfoldable pub is_live : AuthenticatedActor → Option ℕ → Database → Bool
  is_live actor none db = false
  is_live actor (some now) db =
      any
        (λ session.
          text_eq session.id actor.session_id
          && text_eq session.account_id actor.account_id
          && assurance_is session.assurance actor.assurance
          && session.is_active
          && any (is_session_account session) db.accounts
          && ltb now session.idle_expires_at
          && ltb now session.absolute_expires_at)
        db.sessions

  -- `createTransactionContext`, for what order submission calls.
  abbrev pub transaction_context : MarketplaceTransactionContext Database
  transaction_context = record {
    authoritative_now = authoritative_now;
    find_account = λ id. reads (λ db. find (λ row. text_eq row.id id) db.accounts) >>= λ row.
        lift (map_found_account row);
    is_session_active = λ actor observed_at. reads (is_live actor (p.parse_date observed_at));
    claim = claim_submission;
    find_trip = λ id.
        reads (λ db. find (λ row. text_eq row.id id) db.trips) >>= λ row. lift (map_found_trip row);
    lock_eligible_seller = lock_eligible_seller;
    reserve_capacity = reserve_capacity;
    create = create_order;
    append_audit = λ entry. writes (λ db. record db { audit = entry ∷ db.audit });
    enqueue = λ message. writes (λ db. record db { outbox = message ∷ db.outbox });
    complete = complete_submission;
  }
