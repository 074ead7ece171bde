-- ===== src/Domain/Trip/Create/Valid.antt =====
-- What the guards of `createPublishedTrip` guarantee of the schedule that it publishes.
use nitip_cuy.Prelude.{
  ℕ, ◌≤◌, ◌<◌, ◌≡◌, ◌≢◌, ◌∙◌, subst, true, false, not, some, List, [], String, arith, length, any,
}
use nitip_cuy.Text.{Text, text_eq, text_eq_iff}
use nitip_cuy.Text.Trim.{trim, trim_idem}
use nitip_cuy.Number.{Number, is_finite, is_integer, less_than, greater_than}
use nitip_cuy.Failure.{ok, throw_if, >>=-eq-ok, throw_if-eq-ok, after_bind}
use nitip_cuy.Platform.{Platform, is_before, is_not_after}
use nitip_cuy.Domain.ServiceMode.{ServiceMode, is_supported, unique_modes}
use nitip_cuy.Domain.Trip.{
  RatingSummary, TripSchedule, require_label, is_valid_date_only, require_date_only, is_bad_instant,
  require_iso_date_time, require_time_zone, date_in_time_zone,
}
use nitip_cuy.Domain.Trip.Iso.{IsoMatch, match_iso_date_time, has_valid_offset}
use nitip_cuy.Domain.Trip.Create.{
  require_instants, require_order, require_modes, require_numbers, require_schedule,
}

-- An average of up to five stars, of a whole number of ratings.
pub record IsRating (rating : RatingSummary) : Type 0 where
  pub finite : is_finite rating.average ≡ true
  pub not_negative : less_than rating.average 0 ≡ false
  pub at_most_five : greater_than rating.average 5 ≡ false
  pub counted : is_integer rating.count ≡ true
  pub count_not_negative : less_than rating.count 0 ≡ false

-- The text is trimmed and has at least two code units.
abbrev pub IsLabel : Text → Type 0
IsLabel s = (trim s ≡ s) × (2 ≤ length s)

module _ (p : Platform) where
  -- Both texts are instants, and the first is earlier, or no later.
  abbrev pub Before : Text → Text → Type 0
  Before a b = (t : ℕ) × (u : ℕ) × (p.parse_date a ≡ some t) × (p.parse_date b ≡ some u) × (t < u)

  abbrev pub NotAfter : Text → Text → Type 0
  NotAfter a b = (t : ℕ) × (u : ℕ) × (p.parse_date a ≡ some t) × (p.parse_date b ≡ some u) × (t ≤ u)

  -- The text is an ISO timestamp: it has the format, with a date that exists, a time of day and an
  -- offset in their ranges, and it is an instant.
  pub record IsInstant (value : Text) : Type 0 where
    pub parts : IsoMatch
    pub format : match_iso_date_time value ≡ some parts
    pub date : is_valid_date_only p parts.date ≡ true
    pub hour : parts.hour ≤ 23
    pub minute : parts.minute ≤ 59
    pub second : parts.second ≤ 59
    pub zone : has_valid_offset parts.zone ≡ true
    pub instant : (t : ℕ) × (p.parse_date value ≡ some t)

  matched_of_ok :
      (value : Text) (parts : IsoMatch)
      → match_iso_date_time value ≡ some parts
      → is_bad_instant p value parts ≡ false
      → IsInstant value
  unfolding is_bad_instant
  matched_of_ok value parts format good = record {
    parts = parts;
    format = format;
    date = ground arith;
    hour = ground arith;
    minute = ground arith;
    second = ground arith;
    zone = ground arith;
    instant = ground arith;
  }

  pub require_iso_date_time-IsInstant :
      (value : Text) (field : String) (out : Text)
      → require_iso_date_time p value field ≡ ok out
      → (out ≡ value) × IsInstant value
  unfolding require_iso_date_time
  require_iso_date_time-IsInstant value field out h =
      let (parts, format, good) : (parts : IsoMatch) × (match_iso_date_time value ≡ some parts)
          × (is_bad_instant p value parts ≡ false) =
        ground arith in
      (ground arith, matched_of_ok value parts format good)

  -- The windows and the journey are in order.
  pub record IsOrdered (s : TripSchedule) : Type 0 where
    pub window : Before s.service_window_start_at s.service_window_end_at
    pub requests : Before s.request_open_at s.request_deadline
    pub deadline_in_window : NotAfter s.request_deadline s.service_window_end_at
    pub window_before_departure : NotAfter s.service_window_end_at s.departure_at
    pub deadline_before_departure : Before s.request_deadline s.departure_at
    pub arrival : NotAfter s.departure_at s.estimated_arrival_at

  -- The departure date is the local date of departure at the origin.
  abbrev pub IsLocalDate : TripSchedule → Type 0
  IsLocalDate s =
      (t : ℕ) × (p.parse_date s.departure_at ≡ some t)
      × (p.zone_date t s.origin_time_zone ≡ s.departure_date)

  -- All six timestamps are instants.
  pub record HasInstants (s : TripSchedule) : Type 0 where
    pub window_start : IsInstant s.service_window_start_at
    pub window_end : IsInstant s.service_window_end_at
    pub departure : IsInstant s.departure_at
    pub request_open : IsInstant s.request_open_at
    pub request_deadline : IsInstant s.request_deadline
    pub arrival : IsInstant s.estimated_arrival_at

  pub record IsSchedule (s : TripSchedule) : Type 0 where
    pub origin : IsLabel s.origin_label
    pub destination : IsLabel s.destination_label
    pub distinct :
        text_eq (p.to_locale_lower_case s.origin_label) (p.to_locale_lower_case s.destination_label)
        ≡ false
    pub date : is_valid_date_only p s.departure_date ≡ true
    pub zones :
        (p.is_time_zone s.origin_time_zone ≡ true) × (p.is_time_zone s.destination_time_zone ≡ true)
    pub local_date : IsLocalDate s
    pub instants : HasInstants s
    pub ordered : IsOrdered s
    pub modes : (s.service_modes ≢ []) × (any (λ m. not (is_supported m)) s.service_modes ≡ false)
    pub capacity :
        (is_finite s.remaining_capacity_kg ≡ true) × (less_than s.remaining_capacity_kg 0 ≡ false)

  pub require_label-IsLabel :
      (value : Text) (field : String) (s : Text)
      → require_label value field ≡ ok s
      → IsLabel s × (trim value ≡ s)
  unfolding require_label
  require_label-IsLabel value field s h =
      let (e, l) : (trim value ≡ s) × (2 ≤ length s) = ground arith in
      ((subst (λ t. trim t ≡ t) e (trim_idem value), l), e)

  zone_of_ok :
      (value : Text) (field : String) (s : Text)
      → require_time_zone p value field ≡ ok s
      → (p.is_time_zone s ≡ true) × (trim value ≡ s)
  unfolding require_time_zone
  zone_of_ok value field s h = ground arith

  date_of_ok :
      (value : Text) (field : String) (s : Text)
      → require_date_only p value field ≡ ok s
      → (s ≡ value) × (is_valid_date_only p value ≡ true)
  unfolding require_date_only
  date_of_ok value field s h = ground arith

  require_instants-HasInstants :
      (s : TripSchedule) {u : Unit {0}} → require_instants p s ≡ ok u → HasInstants s
  unfolding require_instants
  require_instants-HasInstants s h =
      let (a, ea, h1) =
        >>=-eq-ok (require_iso_date_time p s.service_window_start_at "Service-window start") _ h in
      let (b, eb, h2) =
        >>=-eq-ok (require_iso_date_time p s.service_window_end_at "Service-window end") _ h1 in
      let (c, ec, h3) =
        >>=-eq-ok (require_iso_date_time p s.departure_at "Departure timestamp") _ h2 in
      let (d, ed, h4) =
        >>=-eq-ok (require_iso_date_time p s.request_open_at "Request opening") _ h3 in
      let (e, ee, h5) =
        >>=-eq-ok (require_iso_date_time p s.request_deadline "Request deadline") _ h4 in
      let (f, ef, h6) =
        >>=-eq-ok (require_iso_date_time p s.estimated_arrival_at "Estimated arrival") _ h5 in
      record {
        window_start = (require_iso_date_time-IsInstant _ _ a ea).1;
        window_end = (require_iso_date_time-IsInstant _ _ b eb).1;
        departure = (require_iso_date_time-IsInstant _ _ c ec).1;
        request_open = (require_iso_date_time-IsInstant _ _ d ed).1;
        request_deadline = (require_iso_date_time-IsInstant _ _ e ee).1;
        arrival = (require_iso_date_time-IsInstant _ _ f ef).1;
      }

  is_not_after-Before :
      (a b : Text)
      → (t : ℕ) × (p.parse_date a ≡ some t)
      → (t : ℕ) × (p.parse_date b ≡ some t)
      → is_not_after (p.parse_date b) (p.parse_date a) ≡ false
      → Before a b
  is_not_after-Before a b (t, ea) (u, eb) h = (t, u, ea, eb, ground arith)

  is_before-NotAfter :
      (a b : Text)
      → (t : ℕ) × (p.parse_date a ≡ some t)
      → (t : ℕ) × (p.parse_date b ≡ some t)
      → is_before (p.parse_date b) (p.parse_date a) ≡ false
      → NotAfter a b
  is_before-NotAfter a b (t, ea) (u, eb) h = (t, u, ea, eb, ground arith)

  require_order-IsOrdered :
      (s : TripSchedule) {u : Unit {0}} → HasInstants s → require_order p s ≡ ok u → IsOrdered s
  unfolding require_order
  require_order-IsOrdered s i h = record {
    window = is_not_after-Before _ _ i.window_start.instant i.window_end.instant (ground arith);
    requests =
        is_not_after-Before _ _ i.request_open.instant i.request_deadline.instant (ground arith);
    deadline_in_window =
        is_before-NotAfter _ _ i.request_deadline.instant i.window_end.instant (ground arith);
    window_before_departure =
        is_before-NotAfter _ _ i.window_end.instant i.departure.instant (ground arith);
    deadline_before_departure =
        is_not_after-Before _ _ i.request_deadline.instant i.departure.instant (ground arith);
    arrival = is_before-NotAfter _ _ i.departure.instant i.arrival.instant (ground arith);
  }

  modes_of_ok :
      (modes : List ServiceMode) (s : List ServiceMode)
      → require_modes modes ≡ ok s
      → (s ≡ unique_modes modes) × ((s ≢ []) × (any (λ m. not (is_supported m)) s ≡ false))
  unfolding require_modes
  modes_of_ok modes s h = ground arith

  numbers_of_ok :
      (capacity : Number) (rating : RatingSummary) {u : Unit {0}}
      → require_numbers capacity rating ≡ ok u
      → (is_finite capacity ≡ true) × (less_than capacity 0 ≡ false) × IsRating rating
  unfolding require_numbers
  numbers_of_ok capacity rating h = (
    ground arith,
    ground arith,
    record {
      finite = ground arith;
      not_negative = ground arith;
      at_most_five = ground arith;
      counted = ground arith;
      count_not_negative = ground arith;
    },
  )

  local_of_ok :
      (s : TripSchedule) (zone d : Text)
      → date_in_time_zone p s.departure_at zone ≡ ok d
      → (t : ℕ) × (p.parse_date s.departure_at ≡ some t) × (p.zone_date t zone ≡ d)
  unfolding date_in_time_zone
  local_of_ok s zone d h = ground arith

  -- A schedule that `require_schedule` returns is valid, as the rating is, and it is the input's with its labels and
  -- zones trimmed and its modes without repetition.
  pub require_schedule-IsSchedule :
      (s : TripSchedule) (rating : RatingSummary) (out : TripSchedule)
      → require_schedule p s rating ≡ ok out
      → IsSchedule out
        × IsRating rating
        × (out ≡ record s {
          origin_label = trim s.origin_label;
          origin_time_zone = trim s.origin_time_zone;
          destination_label = trim s.destination_label;
          destination_time_zone = trim s.destination_time_zone;
          service_modes = unique_modes s.service_modes;
        })
  unfolding require_schedule
  require_schedule-IsSchedule s rating out h =
      after_bind (require_label s.origin_label "Origin") _ h λ o eo h1.
        after_bind (require_label s.destination_label "Destination") _ h1 λ d ed h2.
          after_bind (throw_if (text_eq (p.to_locale_lower_case o) (p.to_locale_lower_case d)) _) _
            h2
            λ u0 eu0 h3.
              after_bind (require_date_only p s.departure_date "Departure date") _ h3 λ da eda h4.
                after_bind (require_time_zone p s.origin_time_zone "Origin timezone") _ h4
                  λ oz eoz h5.
                    after_bind (require_time_zone p s.destination_time_zone "Destination timezone")
                      _ h5
                      λ dz edz h6. after_bind (require_instants p s) _ h6 λ u1 eu1 h7.
                        after_bind (date_in_time_zone p s.departure_at oz) _ h7 λ ld eld h8.
                          after_bind (throw_if (not (text_eq ld s.departure_date)) _) _ h8
                            λ u2 eu2 h9. after_bind (require_order p s) _ h9 λ u3 eu3 h10.
                              after_bind (require_modes s.service_modes) _ h10 λ m em h11.
                                after_bind (require_numbers s.remaining_capacity_kg rating) _ h11
                                  λ u4 eu4 h12.
                                    subst
                                      (λ t.
                                        IsSchedule t
                                        × IsRating rating
                                        × (t ≡ record s {
                                          origin_label = trim s.origin_label;
                                          origin_time_zone = trim s.origin_time_zone;
                                          destination_label = trim s.destination_label;
                                          destination_time_zone = trim s.destination_time_zone;
                                          service_modes = unique_modes s.service_modes;
                                        }))
                                      (schedule_of_path _ out h12)
                                      (
                                        record {
                                          origin = (require_label-IsLabel _ _ o eo).0;
                                          destination = (require_label-IsLabel _ _ d ed).0;
                                          distinct = throw_if-eq-ok _ _ eu0;
                                          date = (date_of_ok _ _ da eda).1;
                                          zones = (
                                            (zone_of_ok _ _ oz eoz).0,
                                            (zone_of_ok _ _ dz edz).0,
                                          );
                                          instants =
                                              (let i = require_instants-HasInstants s eu1 in
                                                record {
                                                  window_start = i.window_start;
                                                  window_end = i.window_end;
                                                  departure = i.departure;
                                                  request_open = i.request_open;
                                                  request_deadline = i.request_deadline;
                                                  arrival = i.arrival;
                                                });
                                          local_date =
                                              local_at_origin ld oz (local_of_ok s oz ld eld)
                                                (throw_if-eq-ok _ _ eu2);
                                          ordered =
                                              (let w =
                                                  require_order-IsOrdered s
                                                    (require_instants-HasInstants s eu1) eu3 in
                                                record {
                                                  window = w.window;
                                                  requests = w.requests;
                                                  deadline_in_window = w.deadline_in_window;
                                                  window_before_departure =
                                                      w.window_before_departure;
                                                  deadline_before_departure =
                                                      w.deadline_before_departure;
                                                  arrival = w.arrival;
                                                });
                                          modes = (modes_of_ok s.service_modes m em).1;
                                          capacity =
                                              (let n =
                                                  numbers_of_ok s.remaining_capacity_kg rating
                                                    eu4 in
                                                (n.0, n.1));
                                        },
                                        (numbers_of_ok s.remaining_capacity_kg rating eu4).2,
                                        ground (
                                          arith,
                                          (require_label-IsLabel _ _ o eo).1,
                                          (require_label-IsLabel _ _ d ed).1,
                                          (zone_of_ok _ _ oz eoz).1,
                                          (zone_of_ok _ _ dz edz).1,
                                          (modes_of_ok s.service_modes m em).0,
                                        ),
                                      )
    where
      schedule_of_path : (a b : TripSchedule) → ok a ≡ ok b → a ≡ b
      schedule_of_path a b e = cc

      local_at_origin :
          (ld oz : Text)
          → (t : ℕ) × (p.parse_date s.departure_at ≡ some t) × (p.zone_date t oz ≡ ld)
          → not (text_eq ld s.departure_date) ≡ false
          → (t : ℕ) × (p.parse_date s.departure_at ≡ some t) × (p.zone_date t oz ≡ s.departure_date)
      local_at_origin ld oz (t, e, z) n =
          (t, e, z ∙ (text_eq_iff ld s.departure_date).0 (ground arith))
