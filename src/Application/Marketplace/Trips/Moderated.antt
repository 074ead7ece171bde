-- ===== src/Application/Marketplace/Trips/Moderated.antt =====
-- Who may decide on a trip, and what the decision does to it.
use nitip_cuy.Prelude.{
  ◌≡◌, refl, Bool, true, false, ◌||◌, not, some, List, arith, neither_of_or, Option, none, sym, ap,
}
use nitip_cuy.Text.{Text}
use nitip_cuy.Failure.{ok, throw_if-eq-ok, ok_path, after_bind}
use nitip_cuy.Platform.{Platform}
use nitip_cuy.Transaction.{WasRead, after_part, after_lift, after_guard, lift-eq-ok, return-eq-ok}
use nitip_cuy.Domain.Offer.{
  TripOffer, pending_moderation, require_status, approve_trip_offer, reject_trip_offer,
}
use nitip_cuy.Domain.Offer.States.{required}
use nitip_cuy.Domain.Account.{
  AuthenticatedActor, Capability, moderate_trips, has_capability, phishing_resistant, assurance_is,
  status_active,
}
use nitip_cuy.Application.Marketplace.{
  AccountRecord, MarketplaceTransactionContext, require_found, require_active_account,
  require_current_actor, normalize_correlation_id,
}
use nitip_cuy.Application.Marketplace.Repositories.{
  Decision, approved, rejected, MarketplaceRepositories, UseCaseDependencies, normalize_reason_code,
  require_uuid,
}
use nitip_cuy.Application.Marketplace.Trips.{
  holds_capability, decide, require_moderator, record_moderation, moderate_trip,
}

pub found_lem :
    {A : Type 0} (found : Option A) (a : A) → require_found found ≡ ok a → some a ≡ found
unfolding require_found
found_lem none a h = absurd (ground arith)
found_lem (some b) a h = ap some (sym (ok_path (sym h)))

pub negation_lem : (b : Bool) → not b ≡ false → true ≡ b
negation_lem true h = refl
negation_lem false h = absurd (ground arith)

module _ {S : Type 0} where
  -- The actor's account is active, and its session live at the time.
  pub record IsCurrent (context : MarketplaceTransactionContext S) (actor : AuthenticatedActor)
      (now : Text) (account : AccountRecord) : Type 0 where
    pub found : WasRead (context.find_account actor.account_id) (some account)
    pub is_active : status_active account.status ≡ true
    pub is_live : WasRead (context.is_session_active actor now) true

  pub require_current_actor-IsCurrent :
      (context : MarketplaceTransactionContext S) (actor : AuthenticatedActor) (now : Text)
      (account : AccountRecord) (state after : S)
      → require_current_actor context actor now state ≡ ok (account, after)
      → IsCurrent context actor now account
  unfolding require_current_actor require_found require_active_account
  require_current_actor-IsCurrent context actor now account state after h =
      after_part (context.find_account actor.account_id) _ state h λ found s1 e1 h1.
        after_lift (require_found found) _ s1 h1 λ account' e2 h2.
          after_lift (require_active_account account') _ s1 h2 λ u3 e3 h3.
            after_part (context.is_session_active actor now) _ s1 h3 λ live s4 e4 h4.
              after_guard (not live) _ _ s4 h4 λ alive h5.
                let same = (return-eq-ok account' account s4 after h5).0 in
                record {
                  found = record {
                    before = state;
                    after = s1;
                    read = rw (same, found_lem found account' e2) e1;
                  };
                  is_active = rw same (ground arith);
                  is_live = record {
                    before = s1;
                    after = s4;
                    read = rw (negation_lem live alive) e4;
                  };
                }

module _ {S : Type 0} (p : Platform) (repositories : MarketplaceRepositories S)
    (dependencies : UseCaseDependencies) where
  open repositories use {shared, capabilities_for}
  open dependencies use {now}

  -- A moderator: signed in, with the capability in the session and in the database, and with a
  -- phishing-resistant sign-in.
  pub record IsModerator (actor : AuthenticatedActor) : Type 0 where
    pub account : AccountRecord
    pub current : IsCurrent shared actor now account
    pub granted : has_capability actor moderate_trips ≡ true
    pub persisted : List Capability
    pub is_persisted : WasRead (capabilities_for actor.account_id) persisted
    pub holds : holds_capability persisted ≡ true
    pub assured : assurance_is actor.assurance phishing_resistant ≡ true

  require_moderator-IsModerator :
      (actor : AuthenticatedActor) (state after : S) (u : Unit {0})
      → require_moderator p repositories dependencies actor state ≡ ok (u, after)
      → IsModerator actor
  unfolding require_moderator
  require_moderator-IsModerator actor state after u h =
      after_part (require_current_actor shared actor now) _ state h λ account s1 e1 h1.
        after_part (capabilities_for actor.account_id) _ s1 h1 λ persisted s2 e2 h2.
          after_guard
            (not (has_capability actor moderate_trips) || not (holds_capability persisted)) _ _ s2
            h2
            λ capable h3.
              let (in_session, in_database) = neither_of_or _ _ capable in
              record {
                account = account;
                current = require_current_actor-IsCurrent shared actor now account state s1 e1;
                granted = sym (negation_lem _ in_session);
                persisted = persisted;
                is_persisted = record { before = s1; after = s2; read = e2 };
                holds = sym (negation_lem _ in_database);
                assured = sym (negation_lem _ (throw_if-eq-ok _ _ (lift-eq-ok _ s2 after u h3).0));
              }

  -- A decision that was made.
  pub record IsDecided (actor : AuthenticatedActor) (trip_id : Text) (decision : Decision)
      (out : TripOffer) : Type 0 where
    pub moderator : IsModerator actor
    pub reason : Text
    pub offer : TripOffer
    pub found : WasRead (shared.find_trip trip_id) (some offer)
    pub decided : decide p decision offer now reason ≡ ok out
    pub was_pending : offer.status ≡ pending_moderation

  decide_pending :
      (decision : Decision) (offer out : TripOffer) (reason : Text)
      → decide p decision offer now reason ≡ ok out
      → offer.status ≡ pending_moderation
  unfolding decide approve_trip_offer reject_trip_offer
  decide_pending approved offer out reason h =
      after_bind (require_status offer pending_moderation "approve") _ h
        λ u passed rest. required offer pending_moderation "approve" passed
  decide_pending rejected offer out reason h =
      after_bind (require_status offer pending_moderation "reject") _ h
        λ u passed rest. required offer pending_moderation "reject" passed

  record_moderation_lem :
      (actor : AuthenticatedActor) (trip_id : Text) (decision : Decision)
      (reason correlation : Text) (offer moderated out : TripOffer) (state after : S)
      → record_moderation p repositories dependencies actor trip_id decision reason correlation
          offer moderated state
        ≡ ok (out, after)
      → out ≡ moderated
  unfolding record_moderation
  record_moderation_lem actor trip_id decision reason correlation offer moderated out state after
        h =
      after_part (repositories.save_trip moderated offer.version) _ state h λ u1 s1 e1 h1.
        after_lift (require_uuid p dependencies.next_moderation_decision "Moderation decision ID") _
          s1 h1
          λ id e2 h2. after_part (repositories.record_moderation_decision _) _ s1 h2 λ u3 s3 e3 h3.
            after_part (shared.append_audit _) _ s3 h3 λ u4 s4 e4 h4.
              after_part (shared.enqueue _) _ s4 h4
                λ u5 s5 e5 h5. (return-eq-ok moderated out s5 after h5).0

  -- A decision on a trip that is made was made by a moderator, who is signed in, has the capability
  -- in the session and in the database, and signed in with a phishing-resistant factor; the trip was
  -- pending, and what is returned is the result of that decision on it.
  pub moderated-IsDecided :
      (actor : AuthenticatedActor) (trip_id : Text) (decision : Decision)
      (reason_code correlation_id : Text) (state after : S) (out : TripOffer)
      → moderate_trip p repositories dependencies actor trip_id decision reason_code correlation_id
          state
        ≡ ok (out, after)
      → IsDecided actor trip_id decision out
  unfolding moderate_trip
  moderated-IsDecided actor trip_id decision reason_code correlation_id state after out h =
      after_lift (normalize_correlation_id correlation_id) _ state h λ correlation e1 h1.
        after_lift (normalize_reason_code p reason_code) _ state h1 λ reason e2 h2.
          after_part (require_moderator p repositories dependencies actor) _ state h2 λ u3 s3 e3 h3.
            after_part (shared.find_trip trip_id) _ s3 h3 λ found s4 e4 h4.
              after_lift (require_found found) _ s4 h4 λ offer e5 h5.
                after_lift (decide p decision offer now reason) _ s4 h5 λ moderated e6 h6.
                  let same =
                    record_moderation_lem actor trip_id decision reason correlation offer moderated
                      out s4 after h6 in
                  record {
                    moderator = require_moderator-IsModerator actor state s3 u3 e3;
                    reason = reason;
                    offer = offer;
                    found = record {
                      before = s3;
                      after = s4;
                      read = rw (found_lem found offer e5) e4;
                    };
                    decided = rw same e6;
                    was_pending = decide_pending decision offer moderated reason e6;
                  }
