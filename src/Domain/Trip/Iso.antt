-- ===== src/Domain/Trip/Iso.antt =====
-- `dateOnlyPattern` and `isoDateTimePattern` of packages/domain/src/trip.ts. After each part the
-- next unit decides how the pattern goes on, so a reader needs no backtracking.
use nitip_cuy.Prelude.{
  ℕ, ◌+◌, ◌-◌, ◌*◌, Bool, true, false, ◌&&◌, ◌||◌, Option, none, some, List, [], ◌∷◌, ltb, leb,
  ◌==◌, if◌then◌else◌, all,
}
use nitip_cuy.Text.Chars.{is_digit}

abbrev Text : Type 0
Text = List ℕ

-- `Z`, or an offset's hours and minutes; its sign is read and not used.
pub data Zone : Type 0 where
  utc : Zone
  offset : ℕ → ℕ → Zone

pub record IsoMatch : Type 0 where
  pub date : Text
  pub hour : ℕ
  pub minute : ℕ
  pub second : ℕ
  pub zone : Zone

-- `^\d{4}-\d{2}-\d{2}$`
unfoldable pub is_date_shape : Text → Bool
is_date_shape (a ∷ b ∷ c ∷ d ∷ h ∷ e ∷ f ∷ k ∷ g ∷ i ∷ []) =
    all is_digit (a ∷ b ∷ c ∷ d ∷ e ∷ f ∷ g ∷ i ∷ []) && (h == b'-') && (k == b'-')
is_date_shape _ = false

-- Two digits, as the number that they are, and what follows.
unfoldable pub two_digits : Text → Option (ℕ × Text)
two_digits (a ∷ b ∷ rest) =
    if is_digit a && is_digit b then some ((a - b'0') * 10 + (b - b'0'), rest) else none
two_digits _ = none

-- One given unit, and what follows.
unfoldable pub expect : ℕ → Text → Option Text
expect u [] = none
expect u (c ∷ rest) = if c == u then some rest else none

infixl 5 ◌>>=◌
abbrev ◌>>=◌ {ℓ κ} : {A : Type ℓ} {B : Type κ} → Option A → (A → Option B) → Option B
none >>= f = none
some a >>= f = f a

-- `(?:\.(\d{3}))?`
unfoldable pub skip_fraction : Text → Option Text
skip_fraction (c ∷ x ∷ y ∷ z ∷ rest) =
    if c == b'.'
    then (if is_digit x && is_digit y && is_digit z then some rest else none)
    else some (c ∷ x ∷ y ∷ z ∷ rest)
skip_fraction (c ∷ rest) = if c == b'.' then none else some (c ∷ rest)
skip_fraction [] = some []

-- `(?::(\d{2})(?:\.(\d{3}))?)?`, where a missing second is "0"
unfoldable pub read_second : Text → Option (ℕ × Text)
unfolding two_digits skip_fraction
read_second [] = some (0, [])
read_second (c ∷ rest) =
    if c == b':'
    then (do seconds ← two_digits rest; after ← skip_fraction seconds.1; some (seconds.0, after))
    else some (0, c ∷ rest)

-- `(Z|([+-])(\d{2}):(\d{2}))$`
unfoldable pub read_offset : Text → Option Zone
unfolding two_digits expect
read_offset s = do
  hours ← two_digits s
  colon ← expect b':' hours.1
  minutes ← two_digits colon
  elim (minutes.1) [ [] ↦ some (offset hours.0 minutes.0) | c ∷ r ↦ none ]

unfoldable pub read_zone : Text → Option Zone
unfolding read_offset
read_zone [] = none
read_zone (c ∷ rest) =
    if c == b'Z'
    then elim rest [ [] ↦ some utc | d ∷ r ↦ none ]
    else if (c == b'+') || (c == b'-')
    then read_offset rest
    else none

-- The time and the zone, after the date.
unfoldable pub read_time : Text → Text → Option IsoMatch
unfolding two_digits expect read_second read_zone
read_time date s = do
  t ← expect b'T' s
  hours ← two_digits t
  colon ← expect b':' hours.1
  minutes ← two_digits colon
  seconds ← read_second minutes.1
  zone ← read_zone seconds.1
  some (record { date = date; hour = hours.0; minute = minutes.0; second = seconds.0; zone = zone })

-- `isoDateTimePattern.exec(value)`
unfoldable pub match_iso_date_time : Text → Option IsoMatch
unfolding is_date_shape read_time
match_iso_date_time (a ∷ b ∷ c ∷ d ∷ h ∷ e ∷ f ∷ k ∷ g ∷ i ∷ rest) =
    let date = a ∷ b ∷ c ∷ d ∷ h ∷ e ∷ f ∷ k ∷ g ∷ i ∷ [] in
    if is_date_shape date then read_time date rest else none
match_iso_date_time _ = none

-- `timezone === "Z" || (offsetHour <= 14 && offsetMinute <= 59 && …)`
abbrev pub has_valid_offset : Zone → Bool
has_valid_offset utc = true
has_valid_offset (offset hours minutes) =
    leb hours 14 && leb minutes 59 && (ltb hours 14 || (minutes == 0))
