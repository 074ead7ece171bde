-- ===== src/Application/Marketplace/OrderSubmission/Eligible.antt =====
-- What the guards of `SubmitOrderRequest` guarantee of the order that it places.
use nitip_cuy.Prelude.{
  ℕ, ◌≤◌, ◌<◌, ◌≡◌, ◌≢◌, sym, ap, true, not, Option, none, some, [], ◌∷◌, ltb, arith,
}
use nitip_cuy.Text.{Text, text_eq_iff}
use nitip_cuy.Failure.{ok, ok_path}
use nitip_cuy.Platform.{Platform}
use nitip_cuy.Transaction.{WasRead, after_part, after_lift, after_guard, return-eq-ok}
use nitip_cuy.Domain.ServiceMode.{includes}
use nitip_cuy.Domain.OrderRequest.{NormalTerms, service_mode, requested_capacity_grams}
use nitip_cuy.Domain.Offer.{TripOffer, published}
use nitip_cuy.Domain.Offer.States.{status_is_eq}
use nitip_cuy.Domain.Account.{AuthenticatedActor, order_request_id}
use nitip_cuy.Application.Marketplace.{
  SubmittedOrderRequest, granted, SubmissionKey, MarketplaceTransactionContext, require_found,
  remaining_capacity_grams,
}
use nitip_cuy.Application.Marketplace.Trips.Moderated.{found_lem, negation_lem}
use nitip_cuy.Application.Marketplace.OrderSubmission.{
  OrderSubmissionDependencies, require_order_eligible, require_reserved, expiry_after, request_of,
  reserve_order, record_order, after_submission_claim,
}

-- The trip may be ordered from by the customer at the time: it is another's, it is published, it
-- has the mode, and the time is within its window.
pub record IsEligible (p : Platform) (trip : TripOffer) (customer : Text) (terms : NormalTerms)
    (occurred_at : Text) : Type 0 where
  pub of_another : trip.owner_account_id ≢ customer
  pub is_published : trip.status ≡ published
  pub has_mode : includes trip.schedule.service_modes (service_mode terms) ≡ true
  pub in_window :
      (now : ℕ) × (opens : ℕ) × (closes : ℕ) × (p.parse_date occurred_at ≡ some now)
      × (p.parse_date trip.schedule.request_open_at ≡ some opens)
      × (p.parse_date trip.schedule.request_deadline ≡ some closes)
      × (opens ≤ now)
      × (now < closes)

require_order_eligible-IsEligible :
    (p : Platform) (trip : TripOffer) (customer : Text) (terms : NormalTerms) (occurred_at : Text)
    {u : Unit {0}}
    → require_order_eligible p trip customer terms occurred_at ≡ ok u
    → IsEligible p trip customer terms occurred_at
unfolding require_order_eligible
require_order_eligible-IsEligible p trip customer terms occurred_at h = record {
  of_another = λ e. ground (arith, text_eq_iff trip.owner_account_id customer);
  is_published = status_is_eq trip.status published (ground arith);
  has_mode = ground arith;
  in_window = ground arith;
}

module _ {S : Type 0} (p : Platform) (context : MarketplaceTransactionContext S) where
  -- A trip that was found, and reserved at a time for a customer's terms.
  pub record IsReserved (customer trip_id : Text) (terms : NormalTerms) (occurred_at : Text)
      (trip : TripOffer) (reserved_at : Text) : Type 0 where
    pub found : WasRead (context.find_trip trip_id) (some trip)
    pub eligible : IsEligible p trip customer terms occurred_at
    pub seller :
        WasRead (context.lock_eligible_seller trip.owner_account_id trip.jastipper_profile_id) true
    pub remaining : ℕ
    pub remains : remaining_capacity_grams trip.schedule.remaining_capacity_kg ≡ ok remaining
    pub fits : requested_capacity_grams terms ≤ remaining
    pub reserved :
        WasRead
          (context.reserve_capacity trip.id trip.version (requested_capacity_grams terms))
          (some reserved_at)

  require_reserved_lem :
      (at : Option Text) (reserved_at : Text)
      → require_reserved at ≡ ok reserved_at
      → some reserved_at ≡ at
  unfolding require_reserved
  require_reserved_lem none reserved_at h = absurd (ground arith)
  require_reserved_lem (some []) reserved_at h = absurd (ground arith)
  require_reserved_lem (some (c ∷ s)) reserved_at h = ap some (sym (ok_path (sym h)))

  reserve_order-IsReserved :
      (actor : AuthenticatedActor) (trip_id : Text) (terms : NormalTerms) (occurred_at : Text)
      (state after : S) (out : TripOffer × Text)
      → reserve_order p context actor trip_id terms occurred_at state ≡ ok (out, after)
      → IsReserved actor.account_id trip_id terms occurred_at out.0 out.1
  unfolding reserve_order
  reserve_order-IsReserved actor trip_id terms occurred_at state after out h =
      after_part (context.find_trip trip_id) _ state h λ found s1 e1 h1.
        after_lift (require_found found) _ s1 h1 λ trip e2 h2.
          after_lift (require_order_eligible p trip actor.account_id terms occurred_at) _ s1 h2
            λ u3 e3 h3.
              after_part
                (context.lock_eligible_seller trip.owner_account_id trip.jastipper_profile_id) _ s1
                h3
                λ eligible s4 e4 h4. after_guard (not eligible) _ _ s4 h4 λ may_sell h5.
                  after_lift (remaining_capacity_grams trip.schedule.remaining_capacity_kg) _ s4 h5
                    λ remaining e6 h6.
                      after_guard (ltb remaining (requested_capacity_grams terms)) _ _ s4 h6
                        λ enough h7.
                          after_part
                            (context.reserve_capacity trip.id trip.version
                              (requested_capacity_grams terms))
                            _ s4 h7
                            λ at s8 e8 h8.
                              after_lift (require_reserved at) _ s8 h8 λ reserved_at e9 h9.
                                rw (return-eq-ok (trip, reserved_at) out s8 after h9).0 (record {
                                  found = record {
                                    before = state;
                                    after = s1;
                                    read = rw (found_lem found trip e2) e1;
                                  };
                                  eligible =
                                      require_order_eligible-IsEligible p trip actor.account_id
                                        terms occurred_at e3;
                                  seller = record {
                                    before = s1;
                                    after = s4;
                                    read = rw (negation_lem eligible may_sell) e4;
                                  };
                                  remaining = remaining;
                                  remains = e6;
                                  fits = ground arith;
                                  reserved = record {
                                    before = s4;
                                    after = s8;
                                    read = rw (require_reserved_lem at reserved_at e9) e8;
                                  };
                                })

  -- An order that was placed.
  pub record IsPlacement (customer trip_id : Text) (terms : NormalTerms)
      (next_id occurred_at : Text) (out : SubmittedOrderRequest) : Type 0 where
    pub trip : TripOffer
    pub reserved_at : Text
    pub reservation : IsReserved customer trip_id terms occurred_at trip reserved_at
    pub id : Text
    pub identified : order_request_id p next_id ≡ ok id
    pub request : out ≡ request_of trip customer id terms reserved_at

  -- An order that is placed on a granted claim is the request for the trip that was found under the
  -- identifier given: that trip is published and another account's, it has the mode and the capacity
  -- asked for, the time is within its order window, its seller was found eligible, and the capacity
  -- was reserved on the trip at the version found; the order names the trip's owner, version and
  -- schedule and the time of the reservation, and its identifier is a UUID.
  pub placed-IsPlacement :
      (actor : AuthenticatedActor) (correlation trip_id : Text) (terms : NormalTerms)
      (key : SubmissionKey) (dependencies : OrderSubmissionDependencies) (occurred_at : Text)
      (state after : S) (out : SubmittedOrderRequest)
      → after_submission_claim p context actor correlation trip_id terms key dependencies
          occurred_at granted state
        ≡ ok (out, after)
      → IsPlacement actor.account_id trip_id terms dependencies.next_order_request occurred_at out
  unfolding after_submission_claim record_order
  placed-IsPlacement actor correlation trip_id terms key dependencies occurred_at state after out
        h =
      after_part (reserve_order p context actor trip_id terms occurred_at) _ state h
        λ kept s1 e1 h1.
          after_lift (order_request_id p dependencies.next_order_request) _ s1 h1 λ id e2 h2.
            let request = request_of kept.0 actor.account_id id terms kept.1 in
            after_part (context.create request) _ s1 h2 λ u3 s3 e3 h3.
              after_part (context.append_audit _) _ s3 h3 λ u4 s4 e4 h4.
                after_part (context.enqueue _) _ s4 h4 λ u5 s5 e5 h5.
                  after_lift (expiry_after p request.submitted_at) _ s5 h5 λ expires e6 h6.
                    after_part (context.complete key request.id request.submitted_at expires) _ s5
                      h6
                      λ u7 s7 e7 h7. record {
                        trip = kept.0;
                        reserved_at = kept.1;
                        reservation =
                            reserve_order-IsReserved actor trip_id terms occurred_at state s1 kept
                              e1;
                        id = id;
                        identified = e2;
                        request = (return-eq-ok request out s7 after h7).0;
                      }
