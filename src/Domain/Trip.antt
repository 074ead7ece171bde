-- ===== src/Domain/Trip.antt =====
-- packages/domain/src/trip.ts: the public projection of a trip and its validation.
-- The functions take the `Platform` first. Freezing an object and copying a list change nothing of
-- a value, and are not written.
pub mod Iso
pub mod Create
use nitip_cuy.Prelude.{
  ℕ, ◌+◌, Bool, true, false, ◌&&◌, ◌||◌, not, String, Option, none, some, List, [], ◌∷◌, ◌++◌, ltb,
  leb, ◌==◌, if◌then◌else◌, length, any,
}
use nitip_cuy.Text.{Text, lit, text_eq}
use nitip_cuy.Text.Trim.{trim}
use nitip_cuy.Text.Chars.{is_slug, is_digit, is_lower, matches}
use nitip_cuy.Number.{Number, is_finite, is_integer, less_than, greater_than}
use nitip_cuy.Failure.{
  Result, ok, err, ◌>>=◌, ◌>>◌, throw_if, domain_validation, range, about, fixed,
}
use nitip_cuy.Platform.{Platform, is_before, is_not_after}
use nitip_cuy.Domain.ServiceMode.{ServiceMode, is_supported, unique_modes}
use Iso.{IsoMatch, is_date_shape, match_iso_date_time, has_valid_offset}

pub record RatingSummary : Type 0 where
  pub average : Number
  pub count : Number

pub record PublicAnswer : Type 0 where
  pub author_display_name : Text
  pub message : Text
  pub created_at : Text

pub record PublicQuestion : Type 0 where
  pub id : Text
  pub author_display_name : Text
  pub message : Text
  pub created_at : Text
  pub answer : Option PublicAnswer

-- `TripScheduleInput` (packages/domain/src/marketplace.ts): the fields that an offer and its
-- projection share.
pub record TripSchedule : Type 0 where
  pub origin_label : Text
  pub origin_time_zone : Text
  pub destination_label : Text
  pub destination_time_zone : Text
  pub service_window_start_at : Text
  pub service_window_end_at : Text
  pub departure_date : Text
  pub departure_at : Text
  pub request_open_at : Text
  pub request_deadline : Text
  pub estimated_arrival_at : Text
  pub service_modes : List ServiceMode
  pub remaining_capacity_kg : Number

pub record PublishedTrip : Type 0 where
  pub id : Text
  pub schedule : TripSchedule
  pub jastipper_display_name : Text
  pub seller_location_label : Text
  pub delivery_summary : Text
  pub rate_summary : Text
  pub rating : RatingSummary
  pub public_questions : List PublicQuestion

-- `tripIdPattern`, `^[a-z0-9][a-z0-9-]{2,63}$`
abbrev is_trip_id_text : Text → Bool
is_trip_id_text s = matches (λ c. is_digit c || is_lower c) is_slug 2 63 s

pub require_label : Text → String → Result Text
require_label value field = do
  let normalized = trim value
  throw_if (ltb (length normalized) 2)
      (domain_validation (about field "must contain at least 2 characters."))
  ok normalized

module _ (p : Platform) where
  open p use {to_lower_case, to_locale_lower_case, parse_date, utc_date, is_time_zone, zone_date}

  -- `tripId`
  unfoldable pub trip_id : Text → Result Text
  trip_id value = do
    let normalized = to_lower_case (trim value)
    throw_if (not (is_trip_id_text normalized)) (
        domain_validation
          (fixed "Trip ID must contain 3 to 64 lowercase letters, numbers, or hyphens."))
    ok normalized

  pub is_valid_date_only : Text → Bool
  is_valid_date_only value = is_date_shape value && elim (parse_date (value ++ lit "T00:00:00Z")) [
    | none ↦ false
    | some parsed ↦ text_eq (utc_date parsed) value
  ]

  pub require_date_only : Text → String → Result Text
  require_date_only value field = do
    throw_if (not (is_valid_date_only value))
        (domain_validation (about field "must be an ISO date."))
    ok value

  -- `!date || !isValidDateOnly(date) || hour > 23 || … || Number.isNaN(Date.parse(value))`
  pub is_bad_instant : Text → IsoMatch → Bool
  is_bad_instant value m =
      not (is_valid_date_only m.date)
      || ltb 23 m.hour
      || ltb 59 m.minute
      || ltb 59 m.second
      || not (has_valid_offset m.zone)
      || elim (parse_date value) [ none ↦ true | some t ↦ false ]

  pub require_iso_date_time : Text → String → Result Text
  unfolding is_bad_instant
  require_iso_date_time value field = elim (match_iso_date_time value) [
    | none ↦ err (domain_validation (about field "must include an ISO date, time, and timezone."))
    | some m ↦
        if is_bad_instant value m
        then err (domain_validation (about field "must include an ISO date, time, and timezone."))
        else ok value
  ]

  pub require_time_zone : Text → String → Result Text
  require_time_zone value field = do
    let normalized = trim value
    throw_if (not (is_time_zone normalized))
        (domain_validation (about field "must be a valid IANA timezone."))
    ok normalized

  -- `formatToParts` of an invalid `Date` throws a `RangeError`.
  pub date_in_time_zone : Text → Text → Result Text
  date_in_time_zone value time_zone = elim (parse_date value) [
    | none ↦ err range
    | some t ↦ ok (zone_date t time_zone)
  ]

  pub normalize_answer : PublicAnswer → Result PublicAnswer
  normalize_answer answer = do
    author ← require_label answer.author_display_name "Answer author"
    message ← require_label answer.message "Answer"
    created_at ← require_iso_date_time answer.created_at "Answer timestamp"
    ok (record { author_display_name = author; message = message; created_at = created_at })

  pub optional_answer : Option PublicAnswer → Result (Option PublicAnswer)
  optional_answer none = ok none
  optional_answer (some answer) = do normalized ← normalize_answer answer; ok (some normalized)

  abbrev pub predates : Option PublicAnswer → Text → Bool
  predates none asked_at = false
  predates (some answer) asked_at = is_before (parse_date answer.created_at) (parse_date asked_at)

  pub normalize_question : PublicQuestion → Result PublicQuestion
  unfolding normalize_answer optional_answer
  normalize_question question = do
    created_at ← require_iso_date_time question.created_at "Question timestamp"
    answer ← optional_answer question.answer
    throw_if (predates answer question.created_at)
        (domain_validation (fixed "A public answer cannot predate its question."))
    id ← require_label question.id "Question ID"
    author ← require_label question.author_display_name "Question author"
    message ← require_label question.message "Question"
    ok (record {
      id = id;
      author_display_name = author;
      message = message;
      created_at = question.created_at;
      answer = answer;
    })
