-- ===== src/Adapters/Discovery/Pages.antt =====
-- The pages of a search: who follows the cursors sees every match.
use nitip_cuy.Prelude.{
  ℕ, zero, suc, ◌<◌, ◌≡◌, refl, sym, ap, subst, ◌∙◌, Bool, true, false, ◌&&◌, not, Option, none,
  some, List, [], ◌∷◌, ◌++◌, arith, length, any,
}
use mathlib.Core.List.{append_assoc}
use nitip_cuy.Text.{Text, text_eq, text_eq_refl, truthy}
use nitip_cuy.Platform.{Platform}
use nitip_cuy.Domain.Trip.{PublishedTrip}
use nitip_cuy.Application.Discovery.{TripSearchCriteria}
use nitip_cuy.Adapters.Discovery.{
  after_trip, take, page_of, matching, search_published, limit_or_default,
}

abbrev pub last_trip : List PublishedTrip → Option PublishedTrip
last_trip [] = none
last_trip (trip ∷ []) = some trip
last_trip (trip ∷ next ∷ trips) = last_trip (next ∷ trips)

-- The pages one after another, each search with the identifier of the last trip of the page before
-- it as the cursor, until a page is empty.
unfoldable pub follow_pages :
    ℕ → (Option Text → List PublishedTrip) → Option Text → List PublishedTrip
follow_pages zero ask cursor = []
follow_pages (suc fuel) ask cursor =
    let rest = λ (trip : PublishedTrip). follow_pages fuel ask (some trip.id) in
    elim (last_trip (ask cursor)) [ none ↦ [] | some trip ↦ ask cursor ++ rest trip ]

abbrev is_empty_text : Text → Bool
is_empty_text [] = true
is_empty_text (c ∷ s) = false

-- Identifiers that are not empty, and no two of them the same.
abbrev pub have_distinct_ids : List PublishedTrip → Bool
have_distinct_ids [] = true
have_distinct_ids (trip ∷ trips) =
    not (is_empty_text trip.id)
    && not (any (λ other. text_eq trip.id other.id) trips)
    && have_distinct_ids trips

-- What is left of the matches after a cursor.
data IsRest (found : List PublishedTrip) : Option Text → List PublishedTrip → Type 0 where
  whole : IsRest found none found
  following :
      (before : List PublishedTrip) (trip : PublishedTrip) (rest : List PublishedTrip)
      → found ≡ before ++ (trip ∷ rest)
      → IsRest found (some trip.id) rest

differs :
    (id : Text) (before : List PublishedTrip) (trip : PublishedTrip) (rest : List PublishedTrip)
    → any (λ other. text_eq id other.id) (before ++ (trip ∷ rest)) ≡ false
    → text_eq id trip.id ≡ false
differs id [] trip rest h = ground arith
differs id (first ∷ before) trip rest h = differs id before trip rest (ground arith)

-- A trip among those whose identifiers differ is found by its own.
after_own :
    (before : List PublishedTrip) (trip : PublishedTrip) (rest : List PublishedTrip)
    → have_distinct_ids (before ++ (trip ∷ rest)) ≡ true
    → (after_trip trip.id (before ++ (trip ∷ rest)) ≡ some rest) × (is_empty_text trip.id ≡ false)
unfolding after_trip
after_own [] trip rest h = (rw (text_eq_refl trip.id) refl, ground arith)
after_own (first ∷ before) trip rest h =
    let no_other : any (λ other. text_eq first.id other.id) (before ++ (trip ∷ rest)) ≡ false =
      ground arith in
    let (found, filled) = after_own before trip rest (ground arith) in
    (rw (differs first.id before trip rest no_other) found, filled)

truthy_lem : (id : Text) → is_empty_text id ≡ false → truthy (some id) ≡ some id
truthy_lem [] h = absurd (ground arith)
truthy_lem (c ∷ s) h = refl

page_found :
    (found : List PublishedTrip) (id : Text) (rest : List PublishedTrip) (limit : ℕ)
    → truthy (some id) ≡ some id
    → after_trip id found ≡ some rest
    → page_of (truthy (some id)) limit found ≡ take limit rest
unfolding page_of
page_found found id rest limit filled own =
    ap (λ c. page_of c limit found) filled ∙ rw (page_of, own) refl

page_following :
    (found before : List PublishedTrip) (trip : PublishedTrip) (rest : List PublishedTrip)
    (limit : ℕ)
    → have_distinct_ids found ≡ true
    → found ≡ before ++ (trip ∷ rest)
    → page_of (truthy (some trip.id)) limit found ≡ take limit rest
unfolding page_of
page_following found before trip rest limit distinct same =
    let (own, filled) =
      after_own before trip rest (subst (λ l. have_distinct_ids l ≡ true) same distinct) in
    let own_found : after_trip trip.id found ≡ some rest = rw same own in
    page_found found trip.id rest limit (truthy_lem trip.id filled) own_found

-- A page is what comes first of what is left.
page_lem :
    (found : List PublishedTrip) (cursor : Option Text) (rest : List PublishedTrip) (limit : ℕ)
    → have_distinct_ids found ≡ true
    → IsRest found cursor rest
    → page_of (truthy cursor) limit found ≡ take limit rest
unfolding page_of
page_lem found none rest limit distinct whole = refl
page_lem found (some id) rest limit distinct (following before trip rest' same) =
    page_following found before trip rest limit distinct same

-- How a page of at least one trip divides what is left.
record Divided (limit : ℕ) (rest : List PublishedTrip) : Type 0 where
  start : List PublishedTrip
  final : PublishedTrip
  left : List PublishedTrip
  divides : rest ≡ start ++ (final ∷ left)
  is_page : take limit rest ≡ start ++ (final ∷ [])
  is_last : last_trip (take limit rest) ≡ some final
  is_less : length left < length rest

divided :
    (limit : ℕ) (first : PublishedTrip) (rest : List PublishedTrip)
    → Divided (suc limit) (first ∷ rest)
unfolding take
divided zero first rest = record {
  start = [];
  final = first;
  left = rest;
  divides = refl;
  is_page = refl;
  is_last = refl;
  is_less = omega arith;
}
divided (suc limit) first [] = record {
  start = [];
  final = first;
  left = [];
  divides = refl;
  is_page = refl;
  is_last = refl;
  is_less = omega arith;
}
divided (suc limit) first (second ∷ rest) =
    let d = divided limit second rest in
    record {
      start = first ∷ d.start;
      final = d.final;
      left = d.left;
      divides = ap (λ trips. first ∷ trips) d.divides;
      is_page = ap (λ trips. first ∷ trips) d.is_page;
      is_last = d.is_last;
      is_less = ground (arith, d.is_less);
    }

-- What is left after the last trip of a page.
next_rest :
    (found : List PublishedTrip) (cursor : Option Text) (rest start : List PublishedTrip)
    (final : PublishedTrip) (left : List PublishedTrip)
    → IsRest found cursor rest
    → rest ≡ start ++ (final ∷ left)
    → IsRest found (some final.id) left
next_rest found none rest start final left whole h = following start final left h
next_rest found (some id) rest start final left (following before trip rest' same) h =
    following (before ++ (trip ∷ start)) final left (
      same
      ∙ ap (λ l. before ++ (trip ∷ l)) h
      ∙ sym (append_assoc before (trip ∷ start) (final ∷ left)))

follow_end :
    (ask : Option Text → List PublishedTrip) (fuel : ℕ) (cursor : Option Text)
    → ask cursor ≡ []
    → follow_pages (suc fuel) ask cursor ≡ []
unfolding follow_pages
follow_end ask fuel cursor h = rw (follow_pages, h) refl

follow_page :
    (ask : Option Text → List PublishedTrip) (fuel : ℕ) (cursor : Option Text)
    (page : List PublishedTrip) (final : PublishedTrip)
    → ask cursor ≡ page
    → last_trip page ≡ some final
    → follow_pages (suc fuel) ask cursor ≡ page ++ follow_pages fuel ask (some final.id)
unfolding follow_pages
follow_page ask fuel cursor page final h last =
    rw (follow_pages, h, last) (ap (λ trips. trips ++ follow_pages fuel ask (some final.id)) h)

follow_rest :
    (found : List PublishedTrip) (limit fuel : ℕ) (cursor : Option Text) (rest : List PublishedTrip)
    → have_distinct_ids found ≡ true
    → IsRest found cursor rest
    → length rest < fuel
    → follow_pages fuel (λ c. page_of (truthy c) (suc limit) found) cursor ≡ rest
unfolding take
follow_rest found limit zero cursor rest distinct left enough = absurd (omega arith)
follow_rest found limit (suc fuel) cursor [] distinct left enough =
    follow_end _ fuel cursor (page_lem found cursor [] (suc limit) distinct left)
follow_rest found limit (suc fuel) cursor (first ∷ rest) distinct left enough =
    let d = divided limit first rest in
    let page = page_lem found cursor (first ∷ rest) (suc limit) distinct left in
    let after =
      follow_rest found limit fuel (some d.final.id) d.left distinct
        (next_rest found cursor (first ∷ rest) d.start d.final d.left left d.divides)
        (ground (arith, d.is_less)) in
    follow_page _ fuel cursor (take (suc limit) (first ∷ rest)) d.final page d.is_last
    ∙ ap (λ trips. take (suc limit) (first ∷ rest) ++ trips) after
    ∙ ap (λ trips. trips ++ d.left) d.is_page
    ∙ append_assoc d.start (d.final ∷ []) d.left
    ∙ sym d.divides

-- Who follows the cursors of the pages of a search sees every trip that matches, once and in order,
-- where the trips that match have different identifiers, none of them empty, and a page holds at
-- least one trip.
pub pages_list_all :
    (p : Platform) (locale_leb : Text → Text → Bool) (trips : List PublishedTrip)
    (criteria : TripSearchCriteria ℕ) (limit fuel : ℕ)
    → have_distinct_ids (matching p locale_leb trips criteria) ≡ true
    → limit_or_default criteria.limit ≡ suc limit
    → length (matching p locale_leb trips criteria) < fuel
    → follow_pages fuel
        (λ c. search_published p locale_leb trips (record criteria { cursor = c }))
        none
      ≡ matching p locale_leb trips criteria
unfolding search_published matching
pages_list_all p locale_leb trips criteria limit fuel distinct sized enough =
    let found = matching p locale_leb trips criteria in
    rw sized (follow_rest found limit fuel none found distinct whole enough)
