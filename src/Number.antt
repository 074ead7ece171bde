-- ===== src/Number.antt =====
-- JavaScript's `number` and the tests that the guards make on one.
--
-- A finite number is exact: a sign, and digits with some of them after the point. Every double is
-- such a decimal. The rounding of an arithmetic operation on doubles is not modelled.
use nitip_cuy.Prelude.{ℕ, ◌*◌, ◌/◌, ◌%◌, ◌^◌, Bool, true, false, ◌&&◌, not, ltb, leb, ◌==◌}

pub data Number : Type 0 where
  nan : Number
  -- an infinity, with whether it is the negative one
  infinite : Bool → Number
  -- whether it is negative, the digits, and how many of them stand after the point
  decimal : Bool → ℕ → ℕ → Number

abbrev pub whole : ℕ → Number
whole n = decimal false n 0

-- `Number.MAX_SAFE_INTEGER`
abbrev pub max_safe_integer : ℕ
max_safe_integer = 9_007_199_254_740_991

-- `Number.isFinite`
abbrev pub is_finite : Number → Bool
is_finite (decimal negative digits places) = true
is_finite _ = false

-- `Number.isInteger`
abbrev pub is_integer : Number → Bool
is_integer (decimal negative digits places) = digits % 10 ^ places == 0
is_integer _ = false

-- `Number.isSafeInteger`
abbrev pub is_safe_integer : Number → Bool
is_safe_integer (decimal negative digits places) =
    (digits % 10 ^ places == 0) && leb (digits / 10 ^ places) max_safe_integer
is_safe_integer _ = false

-- `value < bound`, for a bound that is a natural number
abbrev pub less_than : Number → ℕ → Bool
less_than nan bound = false
less_than (infinite negative) bound = negative
less_than (decimal true digits places) bound = not ((digits == 0) && (bound == 0))
less_than (decimal false digits places) bound = ltb digits (bound * 10 ^ places)

-- `value > bound`
abbrev pub greater_than : Number → ℕ → Bool
greater_than nan bound = false
greater_than (infinite negative) bound = not negative
greater_than (decimal true digits places) bound = false
greater_than (decimal false digits places) bound = ltb (bound * 10 ^ places) digits

-- The natural number that a number is, where it is a non-negative integer.
abbrev pub to_natural : Number → ℕ
to_natural (decimal negative digits places) = digits / 10 ^ places
to_natural _ = 0
