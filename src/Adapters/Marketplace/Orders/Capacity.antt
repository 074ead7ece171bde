-- ===== src/Adapters/Marketplace/Orders/Capacity.antt =====
-- Order submission over the database neither makes nor loses capacity.
use nitip_cuy.Prelude.{
  ℕ, ◌+◌, ◌≡◌, refl, ◌∙◌, subst, Bool, true, false, not, Option, none, some, ◌∷◌, ltb, ◌==◌,
  if◌then◌else◌, arith,
}
use nitip_cuy.Text.{Text}
use nitip_cuy.Failure.{ok, throw_if, after_bind, ok_path}
use nitip_cuy.Platform.{Platform}
use nitip_cuy.Transaction.{
  Transaction, ◌>>=◌, ◌>>◌, lift, return, reads, writes, after_part, lift-eq-ok, reads-eq-ok,
  return-eq-ok, writes-eq-ok,
}
use nitip_cuy.Domain.OrderRequest.{NormalTerms, requested_capacity_grams}
use nitip_cuy.Domain.Offer.{TripOffer}
use nitip_cuy.Domain.Account.{AuthenticatedActor}
use nitip_cuy.Application.Marketplace.{
  SubmittedOrderRequest, require_found, remaining_capacity_grams,
}
use nitip_cuy.Application.Marketplace.OrderSubmission.{
  require_order_eligible, require_reserved, reserve_order,
}
use nitip_cuy.Adapters.Marketplace.{TripRow, OrderRow, Database, grams_to_decimal_kilograms}
use nitip_cuy.Adapters.Marketplace.Writing.{order_row, store_terms, date_column}
use nitip_cuy.Adapters.Marketplace.Orders.{
  Readings, count_matching, update_matching, is_reservable, reserve_row, reserve_candidate,
  reserve_capacity, create_order, transaction_context, lock_eligible_seller,
}
use nitip_cuy.Adapters.Marketplace.Orders.Conservation.{
  remaining_of, cost, remaining_of-update, Same, Same-trans, Keeps, Keeps-lift, Keeps-reads,
  Keeps->>=,
}

-- The reservation charged the trip `t`, and no other, with `units`.
pub record IsCharged (t : Text) (units : ℕ) (db after : Database) : Type 0 where
  pub orders : after.orders ≡ db.orders
  pub trips : (id : Text) → remaining_of id after.trips + cost t id units ≡ remaining_of id db.trips

module _ (p : Platform) (readings : Readings) where
  -- The work on a candidate that is open to orders.
  abbrev charge : Text → ℕ → ℕ → Transaction Database (Option Text)
  charge t version units =
      reads (λ db. count_matching (is_reservable t version units) db.trips) >>= λ count.
      writes (λ db. record db {
        trips = update_matching (is_reservable t version units) (reserve_row units) db.trips;
      })
      >> return (if count == 1 then some (p.to_iso_string readings.reserved_at) else none)

  charge-IsCharged :
      (t : Text) (version units : ℕ) (db after : Database) (at : Text)
      → charge t version units db ≡ ok (some at, after)
      → IsCharged t units db after
  unfolding return reads writes ◌>>=◌
  charge-IsCharged t version units db after at h =
      let one : count_matching (is_reservable t version units) db.trips ≡ 1 = ground arith in
      let e : after ≡ record db {
        trips = update_matching (is_reservable t version units) (reserve_row units) db.trips;
      } =
        ground arith in
      rw e (record {
        orders = refl;
        trips = λ id. remaining_of-update t id version units db.trips one;
      })

  candidate-IsCharged :
      (b : Bool) (t : Text) (version units : ℕ) (db after : Database) (at : Text)
      → (if b then return none else charge t version units) db ≡ ok (some at, after)
      → IsCharged t units db after
  unfolding return
  candidate-IsCharged true t version units db after at h = absurd (ground arith)
  candidate-IsCharged false t version units db after at h =
      charge-IsCharged t version units db after at h

  found-IsCharged :
      (t : Text) (version units : ℕ) (candidate : Option TripRow) (db after : Database) (at : Text)
      → reserve_candidate p readings t version units candidate db ≡ ok (some at, after)
      → IsCharged t units db after
  unfolding reserve_candidate return
  found-IsCharged t version units none db after at h = absurd (ground arith)
  found-IsCharged t version units (some c) db after at h =
      candidate-IsCharged _ t version units db after at h

  reserve-IsCharged :
      (t : Text) (version grams : ℕ) (db after : Database) (at : Text)
      → reserve_capacity p readings t version grams db ≡ ok (some at, after)
      → (units : ℕ) × (grams_to_decimal_kilograms grams ≡ ok units) × IsCharged t units db after
  unfolding reserve_capacity
  reserve-IsCharged t version grams db after at h =
      after_part (lift (grams_to_decimal_kilograms grams)) _ db h λ units s1 e1 h1.
        after_part (reads _) _ s1 h1 λ candidate s2 e2 h2.
          let (converted, same) = lift-eq-ok (grams_to_decimal_kilograms grams) db s1 units e1 in
          let (found, same') = reads-eq-ok _ s1 s2 candidate e2 in
          (
            units,
            converted,
            subst (λ s. IsCharged t units s after) (same' ∙ same)
                (found-IsCharged t version units candidate s2 after at h2),
          )

  -- What is written of a request carries its trip and its capacity.
  pub order_row-lem :
      (request : SubmittedOrderRequest) (row : OrderRow)
      → order_row p request ≡ ok row
      → (row.trip_id ≡ request.trip_id)
        × (grams_to_decimal_kilograms request.reserved_capacity_grams ≡ ok row.reserved_capacity)
  unfolding order_row
  order_row-lem request row h =
      after_bind (grams_to_decimal_kilograms request.reserved_capacity_grams) _ h λ capacity e1 h1.
        after_bind (date_column p request.estimated_arrival_at) _ h1 λ arrival e2 h2.
          after_bind (date_column p request.order_close_at) _ h2 λ closes e3 h3.
            after_bind (date_column p request.order_open_at) _ h3 λ opens e4 h4.
              after_bind (date_column p request.submitted_at) _ h4 λ submitted e5 h5.
                after_bind (date_column p request.transport_departure_at) _ h5 λ departure e6 h6.
                  after_bind (store_terms request.terms) _ h6
                    λ terms e7 h7. let e = ok_path h7 in (rw e refl, rw e e1)

  Same-IsCharged :
      (t : Text) (units : ℕ) (db next after : Database)
      → Same db next
      → IsCharged t units next after
      → IsCharged t units db after
  Same-IsCharged t units db next after same c = record {
    orders = c.orders ∙ same.orders;
    trips = λ id. c.trips id ∙ rw same.trips refl;
  }

  some_reserved :
      (at : Option Text) (reserved_at : Text)
      → require_reserved at ≡ ok reserved_at
      → at ≡ some reserved_at
  unfolding require_reserved
  some_reserved at reserved_at h = ground arith

  pub create_order-lem :
      (request : SubmittedOrderRequest) (db after : Database) (done : Unit {0})
      → create_order p readings request db ≡ ok (done, after)
      → (row : OrderRow) × (order_row p request ≡ ok row)
        × (after ≡ record db { orders = row ∷ db.orders })
  unfolding create_order
  create_order-lem request db after done h =
      after_part (lift (order_row p request)) _ db h λ row s1 e1 h1.
        after_part (reads _) _ s1 h1 λ taken s2 e2 h2.
          after_part (lift (throw_if taken _)) _ s2 h2 λ u s3 e3 h3.
            let (written, k1) = lift-eq-ok (order_row p request) db s1 row e1 in
            let (q, k2) = reads-eq-ok _ s1 s2 taken e2 in
            let (t, k3) = lift-eq-ok (throw_if taken _) s2 s3 u e3 in
            (row, written, writes-eq-ok _ s3 after done h3 ∙ rw (k3 ∙ k2 ∙ k1) refl)

  pub reserve_order-IsCharged :
      (actor : AuthenticatedActor) (trip_id : Text) (terms : NormalTerms) (occurred_at : Text)
      (db after : Database) (reserved : TripOffer × Text)
      → reserve_order p (transaction_context p readings) actor trip_id terms occurred_at db
        ≡ ok (reserved, after)
      → (units : ℕ) × (grams_to_decimal_kilograms (requested_capacity_grams terms) ≡ ok units)
        × IsCharged reserved.0.id units db after
  unfolding reserve_order lock_eligible_seller Keeps
  reserve_order-IsCharged actor trip_id terms occurred_at db after reserved h =
      after_part (_ >>= _) _ db h λ found s1 e1 h1.
        after_part (lift (require_found found)) _ s1 h1 λ trip s2 e2 h2.
          after_part (lift (require_order_eligible p trip actor.account_id terms occurred_at)) _ s2
            h2
            λ u3 s3 e3 h3. after_part (reads _) _ s3 h3 λ eligible s4 e4 h4.
              after_part (lift (throw_if (not eligible) _)) _ s4 h4 λ u5 s5 e5 h5.
                after_part (lift (remaining_capacity_grams trip.schedule.remaining_capacity_kg)) _
                  s5 h5
                  λ remaining s6 e6 h6.
                    after_part (lift (throw_if (ltb remaining (requested_capacity_grams terms)) _))
                      _ s6 h6
                      λ u7 s7 e7 h7.
                        after_part
                          (reserve_capacity p readings trip.id trip.version
                            (requested_capacity_grams terms))
                          _ s7 h7
                          λ at s8 e8 h8.
                            after_part (lift (require_reserved at)) _ s8 h8 λ reserved_at s9 e9 h9.
                              let (some_at, k9) =
                                lift-eq-ok (require_reserved at) s8 s9 reserved_at e9 in
                              let (is_trip, k10) = return-eq-ok _ reserved s9 after h9 in
                              let same =
                                Same-trans
                                  (Keeps->>= _ _ (Keeps-reads _) (λ row. Keeps-lift _) db s1 found
                                    e1)
                                  (Same-trans (Keeps-lift _ s1 s2 trip e2) (
                                    Same-trans (Keeps-lift _ s2 s3 u3 e3) (
                                      Same-trans (Keeps-reads _ s3 s4 eligible e4) (
                                        Same-trans (Keeps-lift _ s4 s5 u5 e5) (
                                          Same-trans (Keeps-lift _ s5 s6 remaining e6)
                                            (Keeps-lift _ s6 s7 u7 e7)))))) in
                              let (units, converted, charged) =
                                reserve-IsCharged trip.id trip.version
                                  (requested_capacity_grams terms) s7 s8 reserved_at
                                  (e8 ∙ rw (some_reserved at reserved_at some_at) refl) in
                              (
                                units,
                                converted,
                                rw (is_trip, k10 ∙ k9)
                                    (Same-IsCharged trip.id units db s7 s8 same charged),
                              )
