-- ===== src/Lib.antt =====
-- NitipCuy is a marketplace for travellers who carry or shop for others. Its packages are a
-- domain (packages/domain), use cases over ports (packages/application), adapters that implement
-- the ports (packages/adapters) and a web application (apps/web). This library models the domain,
-- the idempotency protocol with its in-memory store, the lifecycle of evidence, the assessment of
-- payments, and the use cases of the marketplace down to the database.
--
-- Shared: Prelude, Text (JavaScript strings as UTF-16 code units), Map (a Map with string keys),
-- Number (JavaScript numbers as exact decimals), Failure (the error classes and the monad of
-- computations that may throw) and Platform (what the program takes from the runtime: Date.parse,
-- the time zones, the case tables; a parameter of every function that uses it).
--
-- Domain/OrderRequest models packages/domain/src/order-request.ts: normalizeOrderRequestTerms is
-- normalize_order_request_terms. Domain/ServiceMode and Domain/Trip model
-- packages/domain/src/trip.ts: createPublishedTrip is create_published_trip of
-- Domain/Trip/Create, its checks in the order of the source, cut into stages; Domain/Trip/Iso
-- reads the regular expression of timestamps. Domain/Offer models
-- packages/domain/src/marketplace.ts, and Domain/Offer/States its operations as steps.
--
-- Application/Idempotency models packages/application/src/idempotency.ts: executeIdempotently is
-- execute_idempotently over a port. Application/Idempotency/Contract says what to expect of a
-- port, and Application/Idempotency/Later has the calls that others make of it.
-- Adapters/IdempotencyStore models InMemoryIdempotencyStore of
-- packages/adapters/src/idempotency-support.ts and is such a port. A clock is passed as the
-- reading at each call, and the operation that is run is a function on a world.
-- Adapters/Fingerprint models commandFingerprint of the same file. Application/Payment models
-- assessPaymentProtection of packages/application/src/payment-reconciliation.ts.
--
-- Application/Evidence has the types of packages/application/src/ports/evidence-lifecycle.ts, and
-- Adapters/Evidence models InMemoryEvidenceLifecycle of
-- packages/adapters/src/in-memory-evidence-lifecycle.ts: createUploadIntent, uploadToQuarantine,
-- recordScanResult, inspect, accept and deleteExpired are create_upload_intent,
-- upload_to_quarantine, record_scan_result, inspect_record, accept and delete_expired.
-- Adapters/Evidence/Histories has the calls of many callers as steps, in which the checks of a
-- call and its work under the lease may lie apart.
--
-- Application/Marketplace models what the use cases of
-- packages/application/src/marketplace-foundation.ts share, and
-- Application/Marketplace/OrderSubmission its SubmitOrderRequest, over a
-- MarketplaceTransactionContext. The others are over the MarketplaceRepositories of
-- Application/Marketplace/Repositories: Accounts has ResolveGoogleAccount and
-- CreateJastipperProfile, with the checks of Identity; Trips has CreateTripDraft,
-- SubmitTripForModeration and ModerateTrip; Discussion has AskPublicQuestion and
-- AnswerPublicQuestion.
--
-- Adapters/Marketplace models these contexts as packages/adapters/src/prisma-marketplace.ts has
-- them: rows, their mapping, and the queries on a database that is passed along, those of order
-- submission in Orders and the others in Repositories. Transaction is the monad of work that is
-- rolled back if it throws. Transactions are serializable and run one after another; each reads
-- its two clock readings and the outcome of the advisory lock from its surroundings.
-- Adapters/Marketplace/UnitOfWork has the retries of PrismaMarketplaceUnitOfWork, over what each
-- of its calls of the database does. What a decimal column holds of a number is a parameter. The
-- check constraints and the concurrency inside one transaction are not modelled.
--
-- Application/Discovery models packages/application/src/trip-discovery.ts, and Adapters/Discovery
-- InMemoryTripDiscoveryRepository of packages/adapters/src/in-memory-trip-discovery.ts:
-- searchPublished is search_published. localeCompare is a parameter.
--
-- Every loop of the modelled code is over a list, but for the retries, which are on the attempts
-- that are left; the digits of a number are computed on a fuel that exceeds the number. Not
-- modelled: abuse protection, the request perimeter, sessions, the search for trips in the
-- database, and the gateways; SHA-256 and JSON.stringify, which are parameters; the rounding of
-- arithmetic on doubles.
pub mod Prelude
pub mod Text
pub mod Map
pub mod Number
pub mod Failure
pub mod Transaction
pub mod Platform
pub mod Domain
pub mod Application
pub mod Adapters
