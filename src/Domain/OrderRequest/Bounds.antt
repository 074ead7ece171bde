-- ===== src/Domain/OrderRequest/Bounds.antt =====
-- What each guard of order-request.ts accepts, and what it returns.
use nitip_cuy.Prelude.{
  ℕ, ◌*◌, ◌/◌, ◌%◌, ◌^◌, ◌≤◌, ◌<◌, ◌≡◌, refl, ◌↔◌, ◌∙◌, ◌⊎◌, inl, Bool, true, false, ◌||◌, not,
  String, Option, none, some, arith, ltb, leb, ◌==◌, length, any,
}
use nitip_cuy.Text.{Text}
use nitip_cuy.Text.Chars.{is_control}
use nitip_cuy.Text.Trim.{trim}
use nitip_cuy.Number.{Number, nan, infinite, decimal, max_safe_integer}
use native.Mathlib.Nat.{one-le-pow}
use mathlib.Core.Bool.{◌&&◌}
use nitip_cuy.Failure.{Failure, domain_validation, between, ok, ◌>>◌, throw_if, >>=-eq-ok}
use nitip_cuy.Domain.OrderRequest.{
  Given, given, ill_typed, bounded_integer, capacity_grams, require_boolean, bounded_text,
  optional_text,
}

-- The number is the natural number `n`: not negative, and its digits are those of `n`.
abbrev pub Denotes : Number → ℕ → Type 0
Denotes (decimal negative digits places) n =
    (digits ≡ n * 10 ^ places) × ((negative ≡ false) ⊎ (n ≡ 0))
Denotes _ n = ⊥

pub pow_pos : (k : ℕ) → 0 < 10 ^ k
pow_pos k = one-le-pow k 10 (omega arith)

pub exact_quotient : (d p : ℕ) → 0 < p → d % p ≡ 0 → d ≡ d / p * p
exact_quotient d p h e = grind arith

quotient_mul : (n p : ℕ) → 0 < p → (n * p / p ≡ n) × (n * p % p ≡ 0)
quotient_mul n p h = grind arith

pub le_of_scaled : (a b p : ℕ) → 0 < p → a * p ≤ b * p → a ≤ b
le_of_scaled a b p h e = grind arith

scaled_le : (a b p : ℕ) → a ≤ b → a * p ≤ b * p
scaled_le a b p e = grind arith

bounded_decimal :
    (d p : ℕ) (field : String) (lo hi n : ℕ)
    → 0 < p
    → (throw_if
          (not ((d % p == 0) && leb (d / p) max_safe_integer) || ltb d (lo * p) || ltb (hi * p) d)
          (domain_validation (between field lo hi))
        >> ok (d / p))
      ≡ ok n
    → (d ≡ n * p) × (lo ≤ n) × (n ≤ hi)
bounded_decimal d p field lo hi n h e =
    ground (arith, exact_quotient d p, le_of_scaled lo (d / p) p, le_of_scaled (d / p) hi p)

decimal_bounded :
    (d p : ℕ) (field : String) (lo hi n : ℕ)
    → 0 < p
    → hi ≤ max_safe_integer
    → d ≡ n * p
    → lo ≤ n
    → n ≤ hi
    → (throw_if
          (not ((d % p == 0) && leb (d / p) max_safe_integer) || ltb d (lo * p) || ltb (hi * p) d)
          (domain_validation (between field lo hi))
        >> ok (d / p))
      ≡ ok n
decimal_bounded d p field lo hi n h m e l u =
    ground (arith, quotient_mul n p, scaled_le lo n p, scaled_le n hi p)

-- A bounded integer is accepted exactly if it is a natural number within its bounds.
pub bounded_integer_iff :
    (value : Number) (field : String) (lo hi n : ℕ)
    → 1 ≤ lo
    → hi ≤ max_safe_integer
    → (bounded_integer value field lo hi ≡ ok n) ↔ (Denotes value n × (lo ≤ n) × (n ≤ hi))
unfolding bounded_integer
bounded_integer_iff nan field lo hi n p q = (λ h. cc, λ h. absurd h.0)
bounded_integer_iff (infinite s) field lo hi n p q = (λ h. cc, λ h. absurd h.0)
bounded_integer_iff (decimal false d k) field lo hi n p q = (
  λ h.
      let (e, l, u) = bounded_decimal d (10 ^ k) field lo hi n (pow_pos k) h in
      ((e, inl refl), l, u),
  λ h. decimal_bounded d (10 ^ k) field lo hi n (pow_pos k) q h.0.0 h.1 h.2,
)
bounded_integer_iff (decimal true d k) field lo hi n p q =
    (ground (arith, pow_pos k), λ h. ground arith)

multiple_of_ten :
    (m n : ℕ) (f : Failure)
    → (throw_if (not (m % 10 == 0)) f >> ok m) ≡ ok n
    → (m ≡ n) × (m % 10 ≡ 0)
multiple_of_ten m n f h = ground arith

-- A capacity is accepted exactly if it is a multiple of ten grams, from ten grams to 100 tonnes.
pub capacity_grams_iff :
    (value : Number) (n : ℕ)
    → (capacity_grams value ≡ ok n)
      ↔ (Denotes value n × (10 ≤ n) × (n ≤ 100_000_000) × (n % 10 ≡ 0))
unfolding capacity_grams
capacity_grams_iff value n =
    let (to, from) =
      bounded_integer_iff value "Requested capacity" 10 100_000_000 n (omega arith) (omega arith) in
    (
      λ h.
          let (m, e, rest) =
            >>=-eq-ok (bounded_integer value "Requested capacity" 10 100_000_000) _ h in
          let (same, tens) = multiple_of_ten m n _ rest in
          let (denotes, low, high) = to (rw same at e) in (denotes, low, high, rw same at tens),
      λ h. rw (from (h.0, h.1, h.2)) (ground arith),
    )

pub require_boolean_iff :
    (value : Given Bool) (field : String) (b : Bool)
    → (require_boolean value field ≡ ok b) ↔ (value ≡ given b)
unfolding require_boolean
require_boolean_iff (given v) field b = ground arith
require_boolean_iff ill_typed field b = ground arith

-- The text is trimmed, has from `lo` to `hi` code units, and holds no control unit.
abbrev pub IsBounded : Text → ℕ → ℕ → Type 0
IsBounded s lo hi = (lo ≤ length s) × (length s ≤ hi) × (any is_control s ≡ false)

-- The value is a text, and trimming it gives `s`.
abbrev pub TrimsTo : Given Text → Text → Type 0
TrimsTo (given t) s = trim t ≡ s
TrimsTo ill_typed s = ⊥

pub bounded_text_iff :
    (value : Given Text) (field : String) (lo hi : ℕ) (s : Text)
    → (bounded_text value field lo hi ≡ ok s) ↔ (TrimsTo value s × IsBounded s lo hi)
unfolding bounded_text
bounded_text_iff ill_typed field lo hi s = ground arith
bounded_text_iff (given t) field lo hi s = ground arith

-- An optional text is left out, or accepted as a text is.
abbrev pub OptionallyTrimsTo : Option (Given Text) → Option Text → ℕ → ℕ → Type 0
OptionallyTrimsTo none none lo hi = Unit
OptionallyTrimsTo (some value) (some s) lo hi = TrimsTo value s × IsBounded s lo hi
OptionallyTrimsTo _ _ lo hi = ⊥

pub optional_text_iff :
    (value : Option (Given Text)) (field : String) (lo hi : ℕ) (s : Option Text)
    → (optional_text value field lo hi ≡ ok s) ↔ OptionallyTrimsTo value s lo hi
unfolding optional_text
optional_text_iff none field lo hi none = (λ h. tt, λ h. refl)
optional_text_iff none field lo hi (some s) = (λ h. cc, λ h. absurd h)
optional_text_iff (some value) field lo hi none =
    (λ h. let (t, e, r) = >>=-eq-ok (bounded_text value field lo hi) _ h in cc, λ h. absurd h)
optional_text_iff (some value) field lo hi (some s) =
    let (to, from) = bounded_text_iff value field lo hi s in
    (
      λ h. let (t, e, r) = >>=-eq-ok (bounded_text value field lo hi) _ h in to (e ∙ cc),
      λ h. rw (from h),
    )
