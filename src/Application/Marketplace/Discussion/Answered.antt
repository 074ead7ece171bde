-- ===== src/Application/Marketplace/Discussion/Answered.antt =====
-- Who may answer a public question, and what the answer is.
use nitip_cuy.Prelude.{◌≡◌, refl, sym, true, false, not, Option, none, some, arith}
use nitip_cuy.Text.{Text, text_eq, text_eq_iff}
use nitip_cuy.Failure.{ok}
use nitip_cuy.Platform.{Platform}
use nitip_cuy.Transaction.{WasRead, after_part, after_lift, after_guard, lift-eq-ok, return-eq-ok}
use nitip_cuy.Domain.Offer.{TripOffer, published, status_is, normalize_discussion_message}
use nitip_cuy.Domain.Offer.States.{status_is_eq}
use nitip_cuy.Domain.Account.{AuthenticatedActor}
use nitip_cuy.Application.Marketplace.{
  AccountRecord, require_found, require_current_actor, normalize_correlation_id,
}
use nitip_cuy.Application.Marketplace.Repositories.{
  PublicDiscussionEntry, StoredPublicQuestion, JastipperProfileRecord, MarketplaceRepositories,
  UseCaseDependencies, require_owned_trip, require_uuid,
}
use nitip_cuy.Application.Marketplace.Accounts.{is_present}
use nitip_cuy.Application.Marketplace.Discussion.{
  require_active, require_open_question, require_answering_profile, answer_public_question,
}
use nitip_cuy.Application.Marketplace.Trips.Moderated.{
  IsCurrent, require_current_actor-IsCurrent, found_lem, negation_lem,
}

module _ {S : Type 0} (p : Platform) (repositories : MarketplaceRepositories S)
    (dependencies : UseCaseDependencies) where
  open repositories use {shared, find_profile, find_question}
  open dependencies use {now}

  -- The question was there, visible and without an answer.
  pub record IsOpen (question_id : Text) (question : StoredPublicQuestion) : Type 0 where
    pub found : WasRead (find_question question_id) (some question)
    pub visible : question.is_visible ≡ true
    pub unanswered : question.answer ≡ none

  not_present : {A : Type 0} (o : Option A) → is_present o ≡ false → o ≡ none
  not_present none h = refl
  not_present (some a) h = absurd (ground arith)

  require_open_question-IsOpen :
      (question_id : Text) (state after : S) (question : StoredPublicQuestion)
      → require_open_question p repositories dependencies question_id state ≡ ok (question, after)
      → IsOpen question_id question
  unfolding require_open_question
  require_open_question-IsOpen question_id state after question h =
      after_part (find_question question_id) _ state h λ found s1 e1 h1.
        after_lift (require_found found) _ s1 h1 λ q e2 h2.
          after_guard (not q.is_visible) _ _ s1 h2 λ visible h3.
            after_guard (is_present q.answer) _ _ s1 h3 λ unanswered h4.
              let same = (return-eq-ok q question s1 after h4).0 in
              record {
                found = record {
                  before = state;
                  after = s1;
                  read = rw (same, found_lem found q e2) e1;
                };
                visible = rw same (sym (negation_lem _ visible));
                unanswered = rw same (not_present q.answer unanswered);
              }

  -- The actor's own trip, published, and its active profile.
  pub record IsAnswering (actor : AuthenticatedActor) (trip_id : Text)
      (profile : JastipperProfileRecord) : Type 0 where
    pub trip : TripOffer
    pub found : WasRead (shared.find_trip trip_id) (some trip)
    pub owned : trip.owner_account_id ≡ actor.account_id
    pub is_published : trip.status ≡ published
    pub profile_found : WasRead (find_profile trip.jastipper_profile_id) (some profile)
    pub profile_active : profile.is_active ≡ true

  active_lem :
      (found : Option JastipperProfileRecord) (profile : JastipperProfileRecord)
      → require_active found ≡ ok profile
      → (some profile ≡ found) × (profile.is_active ≡ true)
  unfolding require_active
  active_lem none profile h = absurd (ground arith)
  active_lem (some q) profile h = (ground arith, ground arith)

  require_answering_profile-IsAnswering :
      (actor : AuthenticatedActor) (trip_id : Text) (state after : S)
      (profile : JastipperProfileRecord)
      → require_answering_profile p repositories dependencies actor trip_id state
        ≡ ok (profile, after)
      → IsAnswering actor trip_id profile
  unfolding require_answering_profile require_owned_trip
  require_answering_profile-IsAnswering actor trip_id state after profile h =
      after_part (require_owned_trip repositories actor trip_id) _ state h λ trip s1 e1 h1.
        after_guard (not (status_is trip.status published)) _ _ s1 h1 λ is_published h2.
          after_part (find_profile trip.jastipper_profile_id) _ s1 h2 λ found s3 e3 h3.
            let (called, same) = lift-eq-ok (require_active found) s3 after profile h3 in
            let (is_profile, is_active) = active_lem found profile called in
            after_part (shared.find_trip trip_id) _ state e1 λ found_trip s4 e4 h4.
              after_lift (require_found found_trip) _ s4 h4 λ t e5 h5.
                after_guard (not (text_eq t.owner_account_id actor.account_id)) _ _ s4 h5
                  λ owner h6.
                    let is_trip = (return-eq-ok t trip s4 s1 h6).0 in
                    record {
                      trip = trip;
                      found = record {
                        before = state;
                        after = s4;
                        read = rw (is_trip, found_lem found_trip t e5) e4;
                      };
                      owned = rw is_trip (
                          (text_eq_iff t.owner_account_id actor.account_id).0
                            (sym (negation_lem _ owner)));
                      is_published =
                          status_is_eq trip.status published (sym (negation_lem _ is_published));
                      profile_found = record { before = s1; after = s3; read = rw is_profile e3 };
                      profile_active = is_active;
                    }

  -- An answer that was given, as it is stored.
  pub record IsAnswer (actor : AuthenticatedActor) (question_id message_input : Text)
      (answer : PublicDiscussionEntry) : Type 0 where
    pub account : AccountRecord
    pub current : IsCurrent shared actor now account
    pub question : StoredPublicQuestion
    pub is_open : IsOpen question_id question
    pub profile : JastipperProfileRecord
    pub answering : IsAnswering actor question.trip_id profile
    pub identified :
        require_uuid p dependencies.next_public_answer "Public answer ID" ≡ ok answer.id
    pub said : normalize_discussion_message message_input ≡ ok answer.message
    pub signed : answer.author_account_id ≡ actor.account_id
    pub named : answer.author_display_name ≡ profile.terms.display_name
    pub dated : answer.created_at ≡ now

  -- An answer that is given is given by a signed-in actor, to a question that is visible and has no
  -- answer yet, on a published trip that the actor owns and whose profile is active; it is signed by
  -- the actor under the profile's name, and its message and identifier are in normal form.
  pub answered-IsAnswer :
      (actor : AuthenticatedActor) (question_id message_input correlation_id : Text)
      (state after : S) (out : PublicDiscussionEntry)
      → answer_public_question p repositories dependencies actor question_id message_input
          correlation_id state
        ≡ ok (out, after)
      → IsAnswer actor question_id message_input out
  unfolding answer_public_question
  answered-IsAnswer actor question_id message_input correlation_id state after out h =
      after_lift (normalize_correlation_id correlation_id) _ state h λ correlation e1 h1.
        after_lift (normalize_discussion_message message_input) _ state h1 λ message e2 h2.
          after_part (require_current_actor shared actor now) _ state h2 λ account s3 e3 h3.
            after_part (require_open_question p repositories dependencies question_id) _ s3 h3
              λ question s4 e4 h4.
                after_part
                  (require_answering_profile p repositories dependencies actor question.trip_id) _
                  s4 h4
                  λ profile s5 e5 h5.
                    after_lift (require_uuid p dependencies.next_public_answer "Public answer ID") _
                      s5 h5
                      λ id e6 h6. after_part (repositories.create_answer _ _) _ s5 h6 λ u7 s7 e7 h7.
                        after_part (shared.append_audit _) _ s7 h7 λ u8 s8 e8 h8.
                          let same = (return-eq-ok _ out s8 after h8).0 in
                          record {
                            account = account;
                            current =
                                require_current_actor-IsCurrent shared actor now account state s3
                                  e3;
                            question = question;
                            is_open = require_open_question-IsOpen question_id s3 s4 question e4;
                            profile = profile;
                            answering =
                                require_answering_profile-IsAnswering actor question.trip_id s4 s5
                                  profile e5;
                            identified = rw same e6;
                            said = rw same e2;
                            signed = rw same refl;
                            named = rw same refl;
                            dated = rw same refl;
                          }
