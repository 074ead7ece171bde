-- ===== src/Domain/Offer/States.antt =====
-- The states of a trip offer: what each operation of marketplace.ts changes, and the paths
-- from `createTripOffer`.
use nitip_cuy.Prelude.{
  ℕ, ◌+◌, ◌≡◌, ◌≢◌, ◌≤◌, refl, sym, subst, ◌∙◌, if◌then◌else◌, true, some, String, ◌==◌, arith,
  length,
}
use nitip_cuy.Text.{Text}
use nitip_cuy.Text.Trim.{trim}
use nitip_cuy.Failure.{ok, throw_if-eq-ok, after_bind, ok_path}
use nitip_cuy.Platform.{Platform}
use nitip_cuy.Domain.Offer.{
  TripOfferStatus, draft, pending_moderation, published, rejected, archived, status_rank, status_is,
  TripOffer, JastipperPublicTerms, require_status, require_instant, bounded_text,
  validate_projection_shape, create_trip_offer, submit_trip_offer, approve_trip_offer,
  reject_trip_offer,
}

-- The moderation states and the edges between them.
pub data Moves : TripOfferStatus → TripOfferStatus → Type 0 where
  submitted : Moves draft pending_moderation
  approved : Moves pending_moderation published
  turned_down : Moves pending_moderation rejected

-- One operation of marketplace.ts that succeeds.
pub data Step (p : Platform) (before after : TripOffer) : Type 0 where
  submit : submit_trip_offer before ≡ ok after → Step p before after
  approve : (at : Text) → approve_trip_offer p before at ≡ ok after → Step p before after
  reject : (reason : Text) → reject_trip_offer before reason ≡ ok after → Step p before after

unranked : ℕ → TripOfferStatus
unranked n =
    if n == 0
    then draft
    else if n == 1
    then pending_moderation
    else if n == 2
    then published
    else if n == 3
    then rejected
    else archived

unranked-status_rank : (a : TripOfferStatus) → unranked (status_rank a) ≡ a
unfolding unranked
unranked-status_rank draft = refl
unranked-status_rank pending_moderation = refl
unranked-status_rank published = refl
unranked-status_rank rejected = refl
unranked-status_rank archived = refl

pub status_is_eq : (a b : TripOfferStatus) → status_is a b ≡ true → a ≡ b
status_is_eq a b h =
    let e : status_rank a ≡ status_rank b = ground arith in
    sym (unranked-status_rank a) ∙ subst (λ n. unranked n ≡ b) (sym e) (unranked-status_rank b)

pub required :
    (o : TripOffer) (s : TripOfferStatus) (op : String) {u : Unit {0}}
    → require_status o s op ≡ ok u
    → o.status ≡ s
unfolding require_status
required o s op h = status_is_eq o.status s (ground (arith, throw_if-eq-ok _ _ h))

submit_lem :
    (o r : TripOffer)
    → submit_trip_offer o ≡ ok r
    → (o.status ≡ draft) × (r ≡ record o { status = pending_moderation; version = o.version + 1 })
unfolding submit_trip_offer
submit_lem o r h =
    after_bind (require_status o draft "submit") _ h λ u e rest. (required o _ _ e, ok_path rest)

approve_lem :
    (p : Platform) (o r : TripOffer) (at : Text)
    → approve_trip_offer p o at ≡ ok r
    → (o.status ≡ pending_moderation)
      × ((t : ℕ) × (p.parse_date at ≡ some t))
      × (r ≡ record o { status = published; version = o.version + 1; published_at = some at })
unfolding approve_trip_offer require_instant
approve_lem p o r at h = after_bind (require_status o pending_moderation "approve") _ h λ u e rest.
    after_bind (require_instant p at "Publication timestamp") _ rest
      λ i ei last. (required o _ _ e, ground arith, ok_path last)

reject_lem :
    (o r : TripOffer) (reason : Text)
    → reject_trip_offer o reason ≡ ok r
    → (o.status ≡ pending_moderation)
      × ((2 ≤ length (trim reason)) × (length (trim reason) ≤ 500))
      × (r ≡ record o {
        status = rejected;
        version = o.version + 1;
        moderation_reason = some (trim reason);
      })
unfolding reject_trip_offer bounded_text
reject_lem o r reason h = after_bind (require_status o pending_moderation "reject") _ h λ u e rest.
    after_bind (bounded_text reason "Moderation reason" 2 500) _ rest
      λ i ei last. (required o _ _ e, ground arith, ground arith)

-- An operation on an offer that succeeds moves along an edge of the state machine, raises the
-- version by exactly one, and changes neither the offer's identity, owner, profile nor schedule.
pub step-Moves :
    (p : Platform) (o r : TripOffer)
    → Step p o r
    → Moves o.status r.status
      × (r.version ≡ o.version + 1)
      × (r.id ≡ o.id)
      × (r.owner_account_id ≡ o.owner_account_id)
      × (r.jastipper_profile_id ≡ o.jastipper_profile_id)
      × (r.schedule ≡ o.schedule)
step-Moves p o r (submit h) =
    let (s, e) = submit_lem o r h in rw (e, s) (submitted, refl, refl, refl, refl, refl)
step-Moves p o r (approve at h) =
    let (s, i, e) = approve_lem p o r at h in rw (e, s) (approved, refl, refl, refl, refl, refl)
step-Moves p o r (reject reason h) =
    let (s, i, e) = reject_lem o r reason h in rw (e, s) (turned_down, refl, refl, refl, refl, refl)

-- The offers that follow from `create_trip_offer` on an input, with the number of operations.
pub data Reaches (p : Platform) (input : TripOffer) (terms : JastipperPublicTerms)
    : ℕ → TripOffer → Type 0 where
  created : {o : TripOffer} → create_trip_offer p input terms ≡ ok o → Reaches p input terms 0 o
  stepped :
      {n : ℕ} {o r : TripOffer}
      → Reaches p input terms n o
      → Step p o r
      → Reaches p input terms (n + 1) r

-- The version that an offer in a state has.
abbrev pub version_in : TripOfferStatus → ℕ
version_in draft = 1
version_in pending_moderation = 2
version_in published = 3
version_in rejected = 3
version_in archived = 0

version_in_after : {s t : TripOfferStatus} → Moves s t → version_in t ≡ version_in s + 1
version_in_after submitted = refl
version_in_after approved = refl
version_in_after turned_down = refl

version_bounds : {s t : TripOfferStatus} → Moves s t → (version_in t ≤ 3) × (t ≢ archived)
version_bounds submitted = (ground arith, λ e. cc)
version_bounds approved = (ground arith, λ e. cc)
version_bounds turned_down = (ground arith, λ e. cc)

-- A published offer carries the instant of its publication.
abbrev pub IsPublishedAt : Platform → TripOffer → Type 0
IsPublishedAt p o = (at : Text) × (t : ℕ) × (o.published_at ≡ some at) × (p.parse_date at ≡ some t)

create_lem :
    (p : Platform) (input o : TripOffer) (terms : JastipperPublicTerms)
    → create_trip_offer p input terms ≡ ok o
    → (o.status ≡ draft)
      × (o.version ≡ 1)
      × (o.id ≡ input.id)
      × (o.owner_account_id ≡ input.owner_account_id)
unfolding create_trip_offer
create_lem p input o terms h =
    after_bind (validate_projection_shape p input terms) _ h λ u e rest. ground arith

-- Every offer that arises from `createTripOffer` by any number n of operations has version n + 1,
-- which its state determines (draft 1, pending 2, published or rejected 3), so that n is at most 2;
-- it is never archived, and it keeps the id and the owner of the input.
pub reaches_lem :
    (p : Platform) (input : TripOffer) (terms : JastipperPublicTerms) (n : ℕ) (o : TripOffer)
    → Reaches p input terms n o
    → (o.version ≡ n + 1)
      × (o.version ≡ version_in o.status)
      × (n ≤ 2)
      × (o.status ≢ archived)
      × (o.id ≡ input.id)
      × (o.owner_account_id ≡ input.owner_account_id)
reaches_lem p input terms _ o (created h) =
    let (s, v, i, w) = create_lem p input o terms h in
    (v, rw (s, v) refl, ground arith, rw s (λ e. cc), i, w)
reaches_lem p input terms _ _ (stepped {n} {o} {r} before move) =
    let (v, vs, b, a, i, w) = reaches_lem p input terms n o before in
    let (m, v', i', w', pr, sc) = step-Moves p o r move in
    let after = version_in_after m in
    let (top, live) = version_bounds m in
    (ground arith, ground arith, ground arith, live, i' ∙ i, w' ∙ w)

-- An offer that arises from `createTripOffer` and is published carries an instant of publication.
pub published_lem :
    (p : Platform) (input : TripOffer) (terms : JastipperPublicTerms) (n : ℕ) (o : TripOffer)
    → Reaches p input terms n o
    → o.status ≡ published
    → IsPublishedAt p o
published_lem p input terms _ o (created h) e =
    absurd (let (s, v, i, w) = create_lem p input o terms h in ground arith)
published_lem p input terms _ _ (stepped {n} {o} {r} before (submit h)) e =
    absurd (let (s, x) = submit_lem o r h in ground arith)
published_lem p input terms _ _ (stepped {n} {o} {r} before (approve at h)) e =
    let (s, (t, i), x) = approve_lem p o r at h in (at, t, rw x refl, i)
published_lem p input terms _ _ (stepped {n} {o} {r} before (reject reason h)) e =
    absurd (let (s, i, x) = reject_lem o r reason h in ground arith)
