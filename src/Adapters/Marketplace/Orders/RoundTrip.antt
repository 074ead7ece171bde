-- ===== src/Adapters/Marketplace/Orders/RoundTrip.antt =====
-- A request that is written to a row is read back as it was.
use nitip_cuy.Prelude.{
  ℕ, ◌*◌, ◌/◌, ◌%◌, ◌≤◌, ◌≡◌, refl, sym, Option, none, some, [], ◌∷◌, arith, leb, true,
}
use nitip_cuy.Text.{Text, truthy}
use nitip_cuy.Number.{max_safe_integer}
use nitip_cuy.Failure.{Result, ok, err, after_bind, ok_path}
use nitip_cuy.Platform.{Platform, IsIsoPlatform, last_instant}
use nitip_cuy.Domain.Trip.{trip_id}
use nitip_cuy.Domain.OrderRequest.{
  Given, GivenTerms, NormalTerms, shop, carry, normalize_order_request_terms,
  requested_capacity_grams, service_mode,
}
use nitip_cuy.Domain.OrderRequest.Bounds.{OptionallyTrimsTo}
use nitip_cuy.Domain.OrderRequest.Exact.{normalize_iff}
use nitip_cuy.Domain.Account.{account_id, jastipper_profile_id, order_request_id}
use nitip_cuy.Application.Marketplace.{SubmittedOrderRequest}
use nitip_cuy.Adapters.Marketplace.{
  OrderRow, StoredTerms, carry_columns, grams_to_decimal_kilograms, decimal_kilograms_to_grams,
  map_terms, map_submitted_order_request,
}
use nitip_cuy.Adapters.Marketplace.Writing.{order_row, store_terms, date_column}

-- The text is what `toISOString` writes of an instant.
abbrev pub IsIsoText : Platform → Text → Type 0
IsIsoText p text = (t : ℕ) × (t ≤ last_instant) × (text ≡ p.to_iso_string t)

-- A request as the use case makes it: its identifiers are in normal form, its timestamps are those
-- of instants, its terms are normalized, and its mode and capacity are those of its terms.
pub record IsStorable (p : Platform) (request : SubmittedOrderRequest) : Type 0 where
  pub id : order_request_id p request.id ≡ ok request.id
  pub trip : trip_id p request.trip_id ≡ ok request.trip_id
  pub customer : account_id p request.customer_account_id ≡ ok request.customer_account_id
  pub seller : account_id p request.seller_account_id ≡ ok request.seller_account_id
  pub profile :
      jastipper_profile_id p request.jastipper_profile_id ≡ ok request.jastipper_profile_id
  pub opens : IsIsoText p request.order_open_at
  pub closes : IsIsoText p request.order_close_at
  pub departure : IsIsoText p request.transport_departure_at
  pub arrival : IsIsoText p request.estimated_arrival_at
  pub submitted : IsIsoText p request.submitted_at
  pub input : GivenTerms
  pub normalized : normalize_order_request_terms input ≡ ok request.terms
  pub mode : request.service_mode ≡ service_mode request.terms
  pub capacity : request.reserved_capacity_grams ≡ requested_capacity_grams request.terms

read_back :
    (grams units : ℕ)
    → grams_to_decimal_kilograms grams ≡ ok units
    → decimal_kilograms_to_grams units ≡ ok grams
unfolding grams_to_decimal_kilograms decimal_kilograms_to_grams
read_back grams units h =
    let (safe, tens, same) : (leb grams max_safe_integer ≡ true)
        × (grams % 10 ≡ 0)
        × (units ≡ grams / 10) =
      ground arith in
    let exact : units * 10 ≡ grams = omega arith in rw exact (ground arith)

date_back :
    (p : Platform) (text : Text) (t : ℕ)
    → IsIsoPlatform p
    → IsIsoText p text
    → date_column p text ≡ ok t
    → p.to_iso_string t ≡ text
unfolding date_column
date_back p text t iso (n, range, same) h =
    let parsed : p.parse_date text ≡ some n = rw same (iso.parse-iso n range) in
    let found : t ≡ n = ground arith in rw found (sym same)

truthy_back :
    (i : Option (Given Text)) (o : Option Text) (hi : ℕ) → OptionallyTrimsTo i o 1 hi → truthy o ≡ o
truthy_back i none hi h = refl
truthy_back i (some (c ∷ s)) hi h = refl
truthy_back none (some []) hi h = ground arith
truthy_back (some v) (some []) hi h = ground arith

terms_back :
    (input : GivenTerms) (terms : NormalTerms) (stored : StoredTerms)
    → normalize_order_request_terms input ≡ ok terms
    → store_terms terms ≡ ok stored
    → map_terms stored (requested_capacity_grams terms) ≡ ok terms
unfolding store_terms map_terms requested_capacity_grams
terms_back (shop i) (shop o) stored h e =
    let kept =
      truthy_back i.variation o.variation 200 ((normalize_iff (shop i) (shop o)).0 h).variation in
    rw (ok_path e) (rw kept refl)
terms_back (carry i) (carry o) stored h e =
    go (grams_to_decimal_kilograms o.declared_weight_grams) refl e
  where
    go :
        (weight : Result ℕ)
        → grams_to_decimal_kilograms o.declared_weight_grams ≡ weight
        → (elim weight [
          | err error ↦ err error
          | ok units ↦ ok (
              carry_columns o.item_description o.declared_value_idr units o.length_millimeters
                o.width_millimeters o.height_millimeters o.handling_instructions)
        ])
          ≡ ok stored
        → map_terms stored (requested_capacity_grams (carry o)) ≡ ok (carry o)
    go (err error) w k = absurd (ground arith)
    go (ok units) w k =
        let kept =
          truthy_back i.handling_instructions o.handling_instructions 500
            ((normalize_iff (carry i) (carry o)).0 h).handling_instructions in
        rw (ok_path k) (rw (read_back o.declared_weight_grams units w, kept) refl)
terms_back (shop i) (carry o) stored h e = absurd ((normalize_iff (shop i) (carry o)).0 h)
terms_back (carry i) (shop o) stored h e = absurd ((normalize_iff (carry i) (shop o)).0 h)

-- The row that is written of a request, read back, is the request.
pub order_roundtrip :
    (p : Platform) (request : SubmittedOrderRequest) (row : OrderRow)
    → IsIsoPlatform p
    → IsStorable p request
    → order_row p request ≡ ok row
    → map_submitted_order_request p row ≡ ok request
unfolding order_row map_submitted_order_request
order_roundtrip p request row iso storable h =
    after_bind (grams_to_decimal_kilograms request.reserved_capacity_grams) _ h λ capacity e1 h1.
      after_bind (date_column p request.estimated_arrival_at) _ h1 λ arrival e2 h2.
        after_bind (date_column p request.order_close_at) _ h2 λ closes e3 h3.
          after_bind (date_column p request.order_open_at) _ h3 λ opens e4 h4.
            after_bind (date_column p request.submitted_at) _ h4 λ submitted e5 h5.
              after_bind (date_column p request.transport_departure_at) _ h5 λ departure e6 h6.
                after_bind (store_terms request.terms) _ h6 λ stored e7 h7.
                  let grams = read_back request.reserved_capacity_grams capacity e1 in
                  let terms : map_terms stored request.reserved_capacity_grams ≡ ok request.terms =
                    rw storable.capacity
                      (terms_back storable.input request.terms stored storable.normalized e7) in
                  rw (ok_path h7) (
                    rw
                      (
                        grams, terms, storable.customer, storable.id, storable.profile,
                        storable.seller, storable.trip,
                      )
                      (rw
                        (
                          date_back p request.estimated_arrival_at arrival iso storable.arrival e2,
                          date_back p request.order_close_at closes iso storable.closes e3,
                          date_back p request.order_open_at opens iso storable.opens e4,
                          date_back p request.submitted_at submitted iso storable.submitted e5,
                          date_back p request.transport_departure_at departure iso
                              storable.departure e6,
                          sym storable.mode,
                        )
                        refl))
