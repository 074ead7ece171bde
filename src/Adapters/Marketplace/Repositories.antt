-- ===== src/Adapters/Marketplace/Repositories.antt =====
-- packages/adapters/src/prisma-marketplace.ts: the account, profile, trip and discussion
-- repositories. A write that would break a unique constraint of the schema throws.
pub mod Saved
pub mod Tests
use nitip_cuy.Prelude.{
  ℕ, Bool, true, ◌&&◌, ◌||◌, not, Option, none, some, List, ◌∷◌, [], ◌==◌, any, if◌then◌else◌,
}
use nitip_cuy.Text.{Text, text_eq}
use nitip_cuy.Number.{Number}
use nitip_cuy.Failure.{Result, ok, err, throw_if, plain, fixed}
use nitip_cuy.Platform.{Platform}
use nitip_cuy.Transaction.{Transaction, ◌>>=◌, ◌>>◌, lift, return, reads, writes}
use nitip_cuy.Domain.Offer.{TripOffer}
use nitip_cuy.Domain.Account.{Capability, active}
use nitip_cuy.Application.Marketplace.Repositories.{
  JastipperProfileRecord, PublicDiscussionEntry, StoredPublicQuestion, ResolveGoogleIdentityInput,
  ResolveGoogleIdentityResult, ModerationDecision, MarketplaceRepositories,
}
use nitip_cuy.Adapters.Marketplace.{
  TripRow, AccountRow, ProfileRow, IdentityRow, CapabilityRow, Database, map_account,
}
use nitip_cuy.Adapters.Marketplace.Reading.{option_map, map_profile, map_question}
use nitip_cuy.Adapters.Marketplace.Writing.{date_column, trip_row}
use nitip_cuy.Adapters.Marketplace.Orders.{
  Readings, find, count_matching, update_matching, transaction_context,
}

-- A row may be written if no row of the table has a key of it.
abbrev pub require_unique : Bool → Transaction Database (Unit {0})
require_unique taken = lift (throw_if taken (plain (fixed "Unique constraint failed.")))

-- The row that `updateMany` looks for in `save`.
abbrev pub is_expected_version : TripOffer → ℕ → TripRow → Bool
is_expected_version offer expected row = text_eq row.id offer.id && (row.version == expected)

module _ (p : Platform) where
  -- The first of two branches: the identity is known.
  unfoldable pub refresh_identity :
      ResolveGoogleIdentityInput → IdentityRow → Transaction Database ResolveGoogleIdentityResult
  refresh_identity input existing = do
    at ← lift (date_column p input.identity.authenticated_at)
    writes (λ db. record db {
      identities =
          update_matching (λ row. text_eq row.id existing.id)
            (λ row. record row {
              assurance = input.identity.assurance;
              email_verified = input.identity.email_verified;
              last_authenticated_at = at;
            })
            db.identities;
    })
    found ← reads (λ db. find (λ row. text_eq row.id existing.account_id) db.accounts)
    row ←
        lift
          (elim found [ none ↦ err (plain (fixed "Inconsistent query result.")) | some r ↦ ok r ])
    account ← lift (map_account p row)
    return (record { account = account; created = Bool.false })

  -- The other: an account is created with it. The schema's defaults are `ACTIVE` and version 1.
  unfoldable pub create_account :
      ResolveGoogleIdentityInput → Transaction Database ResolveGoogleIdentityResult
  create_account input = do
    at ← lift (date_column p input.identity.authenticated_at)
    taken ← reads (λ db.
        any (λ row. text_eq row.id input.account_id) db.accounts
        || any
            (λ row.
              text_eq row.id input.identity_id
              || (text_eq row.account_id input.account_id
                  && text_eq row.provider input.identity.provider))
            db.identities)
    require_unique taken
    let row : AccountRow = record {
      id = input.account_id;
      status = active;
      display_name = input.identity.display_name;
      session_version = 1;
    }
    writes (λ db. record db {
      accounts = row ∷ db.accounts;
      identities =
          record {
            id = input.identity_id;
            account_id = input.account_id;
            provider = input.identity.provider;
            issuer = input.identity.issuer;
            subject = input.identity.subject;
            email_verified = input.identity.email_verified;
            assurance = input.identity.assurance;
            last_authenticated_at = at;
          }
          ∷ db.identities;
    })
    account ← lift (map_account p row)
    return (record { account = account; created = true })

  unfoldable pub resolve_identity :
      ResolveGoogleIdentityInput → Transaction Database ResolveGoogleIdentityResult
  unfolding refresh_identity create_account
  resolve_identity input = do
    found ← reads (λ db.
        find
          (λ row.
            text_eq row.issuer input.identity.issuer && text_eq row.subject input.identity.subject)
          db.identities)
    elim found [ none ↦ create_account input | some existing ↦ refresh_identity input existing ]

  unfoldable pub insert_trip : (Number → Result ℕ) → TripOffer → Transaction Database (Unit {0})
  insert_trip decimal_column offer = do
    row ← lift (trip_row p decimal_column offer)
    taken ← reads (λ db. any (λ other. text_eq other.id row.id) db.trips)
    require_unique taken
    writes (λ db. record db { trips = row ∷ db.trips })

  -- `save`; `OptimisticConcurrencyError` if not one row has the version that is expected.
  unfoldable pub save_offer : (Number → Result ℕ) → TripOffer → ℕ → Transaction Database (Unit {0})
  save_offer decimal_column offer expected = do
    row ← lift (trip_row p decimal_column offer)
    count ← reads (λ db. count_matching (is_expected_version offer expected) db.trips)
    writes (λ db. record db {
      trips = update_matching (is_expected_version offer expected) (λ old. row) db.trips;
    })
    lift (
        throw_if (not (count == 1))
          (plain (fixed "The persisted aggregate changed before this command completed.")))

  unfoldable pub insert_decision : ModerationDecision → Transaction Database (Unit {0})
  insert_decision input = do
    at ← lift (date_column p input.created_at)
    taken ← reads (λ db. any (λ row. text_eq row.id input.id) db.decisions)
    require_unique taken
    writes (λ db. record db {
      decisions =
          record {
            id = input.id;
            trip_id = input.trip_id;
            moderator_account_id = input.moderator_account_id;
            decision = input.decision;
            reason_code = input.reason_code;
            created_at = at;
          }
          ∷ db.decisions;
    })

  unfoldable pub insert_question : StoredPublicQuestion → Transaction Database (Unit {0})
  insert_question question = do
    at ← lift (date_column p question.entry.created_at)
    taken ← reads (λ db. any (λ row. text_eq row.id question.entry.id) db.questions)
    require_unique taken
    writes (λ db. record db {
      questions =
          record {
            id = question.entry.id;
            trip_id = question.trip_id;
            author_account_id = question.entry.author_account_id;
            author_display_name = question.entry.author_display_name;
            message = question.entry.message;
            is_visible = question.is_visible;
            created_at = at;
          }
          ∷ db.questions;
    })

  unfoldable pub insert_answer : Text → PublicDiscussionEntry → Transaction Database (Unit {0})
  insert_answer question_id answer = do
    at ← lift (date_column p answer.created_at)
    taken ← reads (λ db.
        any (λ row. text_eq row.id answer.id || text_eq row.question_id question_id) db.answers)
    require_unique taken
    writes (λ db. record db {
      answers =
          record {
            id = answer.id;
            question_id = question_id;
            author_account_id = answer.author_account_id;
            author_display_name = answer.author_display_name;
            message = answer.message;
            is_visible = true;
            created_at = at;
          }
          ∷ db.answers;
    })

  unfoldable pub insert_profile : JastipperProfileRecord → Transaction Database (Unit {0})
  insert_profile profile = do
    taken ← reads (λ db.
        any (λ row. text_eq row.id profile.id || text_eq row.account_id profile.account_id)
          db.profiles)
    require_unique taken
    writes (λ db. record db {
      profiles =
          record {
            id = profile.id;
            account_id = profile.account_id;
            is_active = profile.is_active;
            terms = profile.terms;
          }
          ∷ db.profiles;
    })

  unfoldable pub find_profile_row :
      (ProfileRow → Bool) → Transaction Database (Option JastipperProfileRecord)
  find_profile_row fits = do
    found ← reads (λ db. find fits db.profiles)
    lift (option_map (map_profile p) found)

  -- `include: { answer: true }`
  unfoldable pub find_question_row : Text → Transaction Database (Option StoredPublicQuestion)
  find_question_row id = do
    found ← reads (λ db. find (λ row. text_eq row.id id) db.questions)
    answer ← reads (λ db. find (λ row. text_eq row.question_id id) db.answers)
    lift (option_map (λ row. map_question p row answer) found)

  -- `accountCapabilityGrant.findMany`
  abbrev pub capabilities_in : Text → List CapabilityRow → List Capability
  capabilities_in id [] = []
  capabilities_in id (row ∷ rows) =
      let rest = capabilities_in id rows in
      if text_eq row.account_id id then row.capability ∷ rest else rest

  -- `createTransactionContext`
  abbrev pub repositories : Readings → (Number → Result ℕ) → MarketplaceRepositories Database
  repositories readings decimal_column = record {
    shared = transaction_context p readings;
    resolve_google_identity = resolve_identity;
    capabilities_for = λ id. reads (λ db. capabilities_in id db.capabilities);
    create_profile = insert_profile;
    find_profile_by_account = λ owner. find_profile_row (λ row. text_eq row.account_id owner);
    find_profile = λ id. find_profile_row (λ row. text_eq row.id id);
    create_trip = insert_trip decimal_column;
    save_trip = save_offer decimal_column;
    record_moderation_decision = insert_decision;
    create_question = insert_question;
    find_question = find_question_row;
    create_answer = insert_answer;
  }
