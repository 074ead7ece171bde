-- ===== src/Adapters/Marketplace/Repositories/Tests.antt =====
-- A decision on a trip, an answer to a question, and a trip that two commands save.
use nitip_cuy.Prelude.{ℕ, ◌≡◌, refl, true, false, Option, none, some, [], ◌∷◌}
use nitip_cuy.Text.{Text, lit, text_eq}
use nitip_cuy.Text.Chars.{is_space, matches}
use nitip_cuy.Text.Trim.{trim}
use nitip_cuy.Number.{Number, decimal}
use nitip_cuy.Failure.{Result, ok, err, plain, fixed}
use nitip_cuy.Platform.{Platform}
use nitip_cuy.Transaction.{◌>>=◌, lift, return, reads, writes}
use nitip_cuy.Domain.ServiceMode.{shop_for_me}
use nitip_cuy.Domain.Trip.{trip_id}
use nitip_cuy.Domain.Trip.Iso.{is_date_shape}
use nitip_cuy.Domain.Offer.{
  TripOffer, pending_moderation, published, approve_trip_offer, require_status, require_instant,
  bounded_text, normalize_discussion_message,
}
use nitip_cuy.Domain.Account.{
  AuthenticatedActor, moderate_trips, phishing_resistant, base, active, has_capability, is_uuid,
  branded_uuid, account_id, jastipper_profile_id,
}
use nitip_cuy.Application.Marketplace.{
  require_found, require_active_account, require_current_actor, normalize_correlation_id,
}
use nitip_cuy.Application.Marketplace.Repositories.{
  approved, PublicDiscussionEntry, UseCaseDependencies, require_owned_trip, normalize_reason_code,
  require_uuid,
}
use nitip_cuy.Application.Marketplace.Trips.{
  decide, require_moderator, record_moderation, moderate_trip,
}
use nitip_cuy.Application.Marketplace.Trips.Moderated.{IsDecided, moderated-IsDecided}
use nitip_cuy.Application.Marketplace.Discussion.{
  require_active, require_open_question, require_answering_profile, answer_public_question,
}
use nitip_cuy.Application.Marketplace.Discussion.Answered.{IsAnswer, answered-IsAnswer}
use nitip_cuy.Adapters.Marketplace.{
  TripRow, Database, map_service_mode, map_service_modes, map_trip_offer, map_account,
}
use nitip_cuy.Adapters.Marketplace.Reading.{map_profile, map_answer, map_question}
use nitip_cuy.Adapters.Marketplace.Writing.{date_column, date_only, optional_date, trip_row}
use nitip_cuy.Adapters.Marketplace.Orders.{
  count_matching, update_matching, map_found_trip, map_found_account, is_live,
}
use nitip_cuy.Adapters.Marketplace.Orders.Tests.{
  at, platform, uuid, seller, customer, profile, session, trip_key, trip, database, readings,
}
use nitip_cuy.Adapters.Marketplace.Repositories.{
  save_offer, insert_decision, insert_answer, find_profile_row, find_question_row, repositories,
}
use nitip_cuy.Adapters.Marketplace.Repositories.Saved.{saved_once}

-- Every date-only value is day 45.
abbrev read_date : Text → Option ℕ
read_date (c ∷ t ∷ []) = some t
read_date _ = some 45

abbrev pub dated_platform : Platform
dated_platform =
    let p = platform in record p { parse_date = read_date; utc_date = λ t. lit "2026-03-01" }

abbrev hundredths : Number → Result ℕ
hundredths (decimal false digits places) = ok digits
hundredths _ = err (plain (fixed "Invalid decimal."))

abbrev offer : TripOffer
offer = record {
  id = trip_key;
  owner_account_id = seller;
  jastipper_profile_id = profile;
  schedule = record {
    origin_label = lit "Tokyo";
    origin_time_zone = lit "Asia/Tokyo";
    destination_label = lit "Jakarta";
    destination_time_zone = lit "Asia/Jakarta";
    service_window_start_at = at 10;
    service_window_end_at = at 40;
    departure_date = lit "2026-03-01";
    departure_at = at 46;
    request_open_at = at 5;
    request_deadline = at 30;
    estimated_arrival_at = at 47;
    service_modes = shop_for_me ∷ [];
    remaining_capacity_kg = decimal false 1250 2;
  };
  status = published;
  version = 4;
  moderation_reason = none;
  published_at = some (at 20);
}

abbrev moderator : Text
moderator = uuid (lit "7")

-- The trip is pending, and a moderator is signed in.
abbrev pending_database : Database
pending_database =
    let db = database in
    let row = trip in
    record db {
      trips = record row { status = pending_moderation; published_at = none } ∷ [];
      accounts =
          record { id = moderator; status = active; display_name = lit "Mod"; session_version = 1 }
          ∷ [];
      sessions =
          record {
            id = session;
            account_id = moderator;
            assurance = phishing_resistant;
            is_active = true;
            account_session_version = 1;
            idle_expires_at = 100;
            absolute_expires_at = 200;
          }
          ∷ [];
      capabilities = record { account_id = moderator; capability = moderate_trips } ∷ [];
    }

abbrev published_row : TripRow
published_row = let row = trip in record row { version = 4; published_at = some 20 }

-- What was saved, without the rest of the decision.
abbrev saved_database : Database
saved_database = let db = pending_database in record db { trips = published_row ∷ [] }

offer_saved :
    save_offer dated_platform hundredths offer 3 pending_database ≡ ok (tt, saved_database)
unfolding save_offer trip_row date_only date_column optional_date is_date_shape count_matching
    update_matching ◌>>=◌ lift return reads writes text_eq
offer_saved = refl

saved_once_example : ¬ (
    (later : Database) × (save_offer dated_platform hundredths offer 3 saved_database
      ≡ ok (tt, later)))
saved_once_example =
    saved_once dated_platform hundredths offer offer 3 pending_database saved_database offer_saved
      refl refl

abbrev deciding : UseCaseDependencies
deciding = record {
  now = at 20;
  next_account = uuid (lit "a");
  next_external_identity = uuid (lit "b");
  next_jastipper_profile = uuid (lit "c");
  next_moderation_decision = uuid (lit "d");
  next_public_question = uuid (lit "e");
  next_public_answer = uuid (lit "f");
  next_outbox = uuid (lit "0");
}

abbrev moderating : AuthenticatedActor
moderating = record {
  account_id = moderator;
  session_id = session;
  assurance = phishing_resistant;
  capabilities = moderate_trips ∷ [];
}

abbrev moderated_database : Database
moderated_database =
    let db = saved_database in
    record db {
      decisions =
          record {
            id = uuid (lit "d");
            trip_id = trip_key;
            moderator_account_id = moderator;
            decision = approved;
            reason_code = lit "POLICY_OK";
            created_at = 20;
          }
          ∷ [];
      audit =
          record {
            actor_id = moderator;
            action = lit "trip.moderate";
            target_type = lit "trip-offer";
            target_id = trip_key;
            reason_code = lit "POLICY_OK";
            occurred_at = at 20;
            correlation_id = lit "correlation-1";
          }
          ∷ [];
      outbox =
          record {
            id = uuid (lit "0");
            topic = lit "trip.published";
            aggregate_type = lit "trip-offer";
            aggregate_id = trip_key;
            occurred_at = at 20;
            payload = (lit "decision", lit "APPROVED") ∷ [];
          }
          ∷ [];
    }

trip_moderated :
    moderate_trip dated_platform
      (repositories dated_platform readings hundredths)
      deciding
      moderating
      trip_key
      approved
      (lit "POLICY_OK")
      (lit "correlation-1")
      pending_database
    ≡ ok (offer, moderated_database)
unfolding moderate_trip decide require_moderator record_moderation require_current_actor
    require_found require_active_account normalize_correlation_id normalize_reason_code require_uuid
    matches trim is_space is_uuid text_eq branded_uuid account_id jastipper_profile_id trip_id
    approve_trip_offer require_status require_instant has_capability save_offer trip_row date_only
    date_column optional_date is_date_shape count_matching update_matching insert_decision
    map_found_trip map_found_account map_trip_offer map_account map_service_mode map_service_modes
    is_live ◌>>=◌ lift return reads writes
trip_moderated = refl

moderated-IsDecided_example :
    IsDecided dated_platform
      (repositories dated_platform readings hundredths)
      deciding
      moderating
      trip_key
      approved
      offer
moderated-IsDecided_example =
    moderated-IsDecided dated_platform (repositories dated_platform readings hundredths) deciding
      moderating trip_key approved (lit "POLICY_OK") (lit "correlation-1") pending_database
      moderated_database offer trip_moderated

-- The seller is signed in, and a customer has asked about the published trip.
abbrev asked_database : Database
asked_database =
    let db = database in
    record db {
      sessions =
          record {
            id = session;
            account_id = seller;
            assurance = base;
            is_active = true;
            account_session_version = 1;
            idle_expires_at = 100;
            absolute_expires_at = 200;
          }
          ∷ [];
      questions =
          record {
            id = uuid (lit "8");
            trip_id = trip_key;
            author_account_id = customer;
            author_display_name = lit "Budi";
            message = lit "Any tea?";
            is_visible = true;
            created_at = 12;
          }
          ∷ [];
    }

abbrev answering : AuthenticatedActor
answering = record {
  account_id = seller;
  session_id = session;
  assurance = base;
  capabilities = [];
}

abbrev answer : PublicDiscussionEntry
answer = record {
  id = uuid (lit "f");
  author_account_id = seller;
  author_display_name = lit "Sari";
  message = lit "Yes, two tins.";
  created_at = at 20;
}

abbrev answered_database : Database
answered_database =
    let db = asked_database in
    record db {
      answers =
          record {
            id = uuid (lit "f");
            question_id = uuid (lit "8");
            author_account_id = seller;
            author_display_name = lit "Sari";
            message = lit "Yes, two tins.";
            is_visible = true;
            created_at = 20;
          }
          ∷ [];
      audit =
          record {
            actor_id = seller;
            action = lit "public-question.answer";
            target_type = lit "public-question";
            target_id = uuid (lit "8");
            reason_code = lit "TRIP_OWNER_ANSWERED";
            occurred_at = at 20;
            correlation_id = lit "correlation-1";
          }
          ∷ [];
    }

question_answered :
    answer_public_question dated_platform
      (repositories dated_platform readings hundredths)
      deciding
      answering
      (uuid (lit "8"))
      (lit "Yes, two tins.")
      (lit "correlation-1")
      asked_database
    ≡ ok (answer, answered_database)
unfolding answer_public_question require_open_question require_answering_profile require_active
    require_owned_trip require_current_actor require_found require_active_account
    normalize_correlation_id normalize_discussion_message bounded_text require_uuid matches trim
    is_space is_uuid text_eq branded_uuid account_id jastipper_profile_id trip_id date_column
    insert_answer find_profile_row find_question_row map_profile map_answer map_question
    map_found_trip map_found_account map_trip_offer map_account map_service_mode map_service_modes
    is_live ◌>>=◌ lift return reads writes
question_answered = refl

answered-IsAnswer_example :
    IsAnswer dated_platform
      (repositories dated_platform readings hundredths)
      deciding
      answering
      (uuid (lit "8"))
      (lit "Yes, two tins.")
      answer
answered-IsAnswer_example =
    answered-IsAnswer dated_platform (repositories dated_platform readings hundredths) deciding
      answering (uuid (lit "8")) (lit "Yes, two tins.") (lit "correlation-1") asked_database
      answered_database answer question_answered
