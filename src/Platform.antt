-- ===== src/Platform.antt =====
-- What the program takes from the JavaScript runtime and its data files, and the model as a
-- parameter: the Unicode case tables, `Date.parse` (whose reading of a text that is no ISO
-- timestamp is left to the engine), and the time zones of `Intl`.
--
-- An instant is the number of milliseconds since the earliest one that a `Date` holds, so that it
-- is a natural number; only differences and the order of instants are used.
use nitip_cuy.Prelude.{ℕ, ◌+◌, ◌≤◌, ◌≡◌, Bool, Option, some, ltb, leb}
use nitip_cuy.Text.{Text}

pub record Platform : Type 0 where
  -- `s.toLowerCase()` and `s.toLocaleLowerCase()`
  pub to_lower_case : Text → Text
  pub to_locale_lower_case : Text → Text
  -- `s.toUpperCase()`
  pub to_upper_case : Text → Text
  -- `Date.parse(s)`, where `none` is NaN
  pub parse_date : Text → Option ℕ
  -- `new Date(t).toISOString()`
  pub to_iso_string : ℕ → Text
  -- `new Date(t).toISOString().slice(0, 10)`
  pub utc_date : ℕ → Text
  -- whether `new Intl.DateTimeFormat("en-US", { timeZone })` accepts the zone
  pub is_time_zone : Text → Bool
  -- the local date of the instant in the zone, as `year-month-day`
  pub zone_date : ℕ → Text → Text

-- A clock reading, in milliseconds since 1970, as an instant; and the last instant of a `Date`.
abbrev pub at_clock : ℕ → ℕ
at_clock milliseconds = milliseconds + 8_640_000_000_000_000

abbrev pub last_instant : ℕ
last_instant = 17_280_000_000_000_000

-- `Date.parse` reads back what `toISOString` wrote.
pub record IsIsoPlatform (p : Platform) : Type 0 where
  pub parse-iso : (t : ℕ) → t ≤ last_instant → p.parse_date (p.to_iso_string t) ≡ some t

-- Comparisons of two results of `Date.parse`: with NaN each is false.
abbrev pub is_before : Option ℕ → Option ℕ → Bool
is_before (some a) (some b) = ltb a b
is_before _ _ = Bool.false

abbrev pub is_not_after : Option ℕ → Option ℕ → Bool
is_not_after (some a) (some b) = leb a b
is_not_after _ _ = Bool.false
