-- ===== src/Adapters/Discovery/Limits.antt =====
-- How many trips a page of the list of published trips holds.
use nitip_cuy.Prelude.{
  ℕ, zero, suc, ◌≤◌, ◌≡◌, Bool, true, false, Option, none, some, List, [], ◌∷◌, ◌^◌, ◌/◌, arith,
  length,
}
use nitip_cuy.Text.{Text, truthy}
use nitip_cuy.Number.{Number, nan, infinite, decimal, to_natural}
use nitip_cuy.Failure.{ok, ok_path, after_bind, throw_if, throw_if-eq-ok}
use nitip_cuy.Platform.{Platform}
use nitip_cuy.Domain.Trip.{PublishedTrip, trip_id}
use nitip_cuy.Domain.OrderRequest.Bounds.{pow_pos, exact_quotient, le_of_scaled}
use nitip_cuy.Application.Discovery.{
  TripSearchCriteria, is_bad_limit, is_longer, is_reversed, given_limit, trim_option, if_given,
  require_date, normalize_trip_search_criteria, list_published_trips,
}
use nitip_cuy.Adapters.Discovery.{
  after_trip, take, page_of, limit_or_default, search_published, matching,
}

good_limit : (limit : Number) → is_bad_limit limit ≡ false → to_natural limit ≤ 50
good_limit nan h = absurd (ground arith)
good_limit (infinite negative) h = absurd (ground arith)
good_limit (decimal true digits places) h = ground (arith, pow_pos places)
good_limit (decimal false digits places) h = ground (
  arith,
  pow_pos places,
  exact_quotient digits (10 ^ places),
  le_of_scaled (digits / 10 ^ places) 50 (10 ^ places),
)

normalized_limit :
    (p : Platform) (locale_leb : Text → Text → Bool) (criteria : TripSearchCriteria Number)
    (out : TripSearchCriteria ℕ)
    → normalize_trip_search_criteria p locale_leb criteria ≡ ok out
    → limit_or_default out.limit ≤ 50
unfolding normalize_trip_search_criteria
normalized_limit p locale_leb criteria out h =
    after_bind (if_given (require_date p) (truthy criteria.departure_from)) _ h λ start e1 h1.
      after_bind (if_given (require_date p) (truthy criteria.departure_to)) _ h1 λ end e2 h2.
        after_bind (if_given (trip_id p) (truthy criteria.cursor)) _ h2 λ cursor e3 h3.
          after_bind (throw_if (is_longer 160 (truthy (trim_option criteria.destination))) _) _ h3
            λ u4 e4 h4.
              after_bind (throw_if (is_bad_limit (given_limit criteria.limit)) _) _ h4 λ u5 e5 h5.
                after_bind (throw_if (is_reversed locale_leb start end) _) _ h5 λ u6 e6 h6.
                  let same = ok_path h6 in
                  rw same (good_limit (given_limit criteria.limit) (throw_if-eq-ok _ _ e5))

length-take : (n : ℕ) (trips : List PublishedTrip) → length (take n trips) ≤ n
unfolding take
length-take zero trips = omega arith
length-take (suc n) [] = omega arith
length-take (suc n) (trip ∷ trips) = ground (arith, length-take n trips)

length-page_of :
    (cursor : Option Text) (limit : ℕ) (trips : List PublishedTrip)
    → length (page_of cursor limit trips) ≤ limit
unfolding page_of
length-page_of none limit trips = length-take limit trips
length-page_of (some cursor) limit trips =
    elim (after_trip cursor trips)
      as (λ found. length (elim found [ none ↦ [] | some rest ↦ take limit rest ]) ≤ limit) [
        | none ↦ omega arith
        | some rest ↦ length-take limit rest
      ]

-- Whatever criteria are given, a list of published trips that is returned holds at most 50.
pub listed_at_most :
    (p : Platform) (locale_leb : Text → Text → Bool) (trips : List PublishedTrip)
    (criteria : TripSearchCriteria Number) (page : List PublishedTrip)
    → list_published_trips p locale_leb (search_published p locale_leb trips) criteria ≡ ok page
    → length page ≤ 50
unfolding list_published_trips search_published
listed_at_most p locale_leb trips criteria page h =
    after_bind (normalize_trip_search_criteria p locale_leb criteria) _ h λ normal e1 h1.
      let small = normalized_limit p locale_leb criteria normal e1 in
      let fits =
        length-page_of (truthy normal.cursor) (limit_or_default normal.limit)
          (matching p locale_leb trips normal) in
      rw (ok_path h1) (omega arith)
