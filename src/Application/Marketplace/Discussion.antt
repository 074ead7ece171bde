-- ===== src/Application/Marketplace/Discussion.antt =====
-- packages/application/src/marketplace-foundation.ts: `AskPublicQuestion` and
-- `AnswerPublicQuestion`.
pub mod Answered
use nitip_cuy.Prelude.{ℕ, Bool, true, false, ◌||◌, not, Option, none, some, if◌then◌else◌}
use nitip_cuy.Text.{Text, lit}
use nitip_cuy.Failure.{
  Result, ok, err, throw_if, use_case, resource_not_found, trip_not_published,
  answer_already_exists, profile_inactive,
}
use nitip_cuy.Platform.{Platform}
use nitip_cuy.Transaction.{Transaction, ◌>>=◌, ◌>>◌, lift, return}
use nitip_cuy.Domain.Offer.{
  TripOffer, published, status_is, normalize_discussion_message, normalize_display_name,
}
use nitip_cuy.Domain.Account.{AuthenticatedActor}
use nitip_cuy.Application.Marketplace.{
  AccountRecord, require_found, require_current_actor, normalize_correlation_id,
}
use nitip_cuy.Application.Marketplace.Repositories.{
  PublicDiscussionEntry, StoredPublicQuestion, JastipperProfileRecord, MarketplaceRepositories,
  UseCaseDependencies, audit_of, require_owned_trip, require_uuid,
}
use nitip_cuy.Application.Marketplace.Accounts.{is_present}

-- `!profile || profile.status !== "ACTIVE"`
unfoldable pub require_active : Option JastipperProfileRecord → Result JastipperProfileRecord
require_active none = err (use_case profile_inactive)
require_active (some profile) =
    if profile.is_active then ok profile else err (use_case profile_inactive)

module _ {S : Type 0} (p : Platform) (repositories : MarketplaceRepositories S)
    (dependencies : UseCaseDependencies) where
  open repositories use {shared, find_profile, create_question, find_question, create_answer}
  open dependencies use {now}

  -- `AskPublicQuestion.execute`
  unfoldable pub ask_public_question :
      AuthenticatedActor → Text → Text → Text → Transaction S StoredPublicQuestion
  ask_public_question actor trip_id message_input correlation_id = do
    correlation ← lift (normalize_correlation_id correlation_id)
    message ← lift (normalize_discussion_message message_input)
    account ← require_current_actor shared actor now
    found ← shared.find_trip trip_id
    trip ← lift (require_found found)
    lift (throw_if (not (status_is trip.status published)) (use_case trip_not_published))
    author ← lift (normalize_display_name account.display_name)
    id ← lift (require_uuid p dependencies.next_public_question "Public question ID")
    let question : StoredPublicQuestion = record {
      entry = record {
        id = id;
        author_account_id = actor.account_id;
        author_display_name = author;
        message = message;
        created_at = now;
      };
      trip_id = trip_id;
      is_visible = true;
      answer = none;
    }
    create_question question
    shared.append_audit (
        audit_of actor.account_id "public-question.create" "public-question" id
          (lit "AUTHENTICATED_CUSTOMER_CREATED") now correlation)
    return question

  -- The question that may be answered: it is visible, and has no answer.
  unfoldable pub require_open_question : Text → Transaction S StoredPublicQuestion
  require_open_question question_id = do
    found ← find_question question_id
    question ← lift (require_found found)
    lift (throw_if (not question.is_visible) (use_case resource_not_found))
    lift (throw_if (is_present question.answer) (use_case answer_already_exists))
    return question

  -- The actor's published trip, and its active profile.
  unfoldable pub require_answering_profile :
      AuthenticatedActor → Text → Transaction S JastipperProfileRecord
  require_answering_profile actor trip_id = do
    trip ← require_owned_trip repositories actor trip_id
    lift (throw_if (not (status_is trip.status published)) (use_case trip_not_published))
    found ← find_profile trip.jastipper_profile_id
    lift (require_active found)

  -- `AnswerPublicQuestion.execute`
  unfoldable pub answer_public_question :
      AuthenticatedActor → Text → Text → Text → Transaction S PublicDiscussionEntry
  unfolding require_open_question require_answering_profile
  answer_public_question actor question_id message_input correlation_id = do
    correlation ← lift (normalize_correlation_id correlation_id)
    message ← lift (normalize_discussion_message message_input)
    account ← require_current_actor shared actor now
    question ← require_open_question question_id
    profile ← require_answering_profile actor question.trip_id
    id ← lift (require_uuid p dependencies.next_public_answer "Public answer ID")
    let answer : PublicDiscussionEntry = record {
      id = id;
      author_account_id = actor.account_id;
      author_display_name = profile.terms.display_name;
      message = message;
      created_at = now;
    }
    create_answer question.entry.id answer
    shared.append_audit (
        audit_of actor.account_id "public-question.answer" "public-question" question.entry.id
          (lit "TRIP_OWNER_ANSWERED") now correlation)
    return answer
