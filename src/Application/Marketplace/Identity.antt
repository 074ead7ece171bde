-- ===== src/Application/Marketplace/Identity.antt =====
-- packages/application/src/marketplace-foundation.ts: `normalizeGoogleIdentity` and `isEmail`.
use nitip_cuy.Prelude.{
  ℕ, Bool, true, false, ◌&&◌, ◌||◌, not, Option, none, some, [], ◌∷◌, ◌==◌, leb, ltb, if◌then◌else◌,
  length, all, any,
}
use nitip_cuy.Text.{Text, lit, text_eq}
use nitip_cuy.Text.Chars.{is_space, is_control}
use nitip_cuy.Text.Trim.{trim}
use nitip_cuy.Failure.{Result, ok, err, ◌>>=◌, use_case, identity_invalid, google_email_unverified}
use nitip_cuy.Platform.{Platform}
use nitip_cuy.Domain.Offer.{normalize_display_name}
use nitip_cuy.Application.Marketplace.Repositories.{VerifiedExternalIdentity}

-- `googleIssuer` (packages/domain/src/account.ts)
abbrev pub google_issuer : Text
google_issuer = lit "https://accounts.google.com"

-- `[^\s@]`
abbrev pub is_address_unit : ℕ → Bool
is_address_unit c = not (is_space c) && not (c == b'@')

-- `[^\s@]+\.[^\s@]+$`, where the units are of an address: a dot with units on both sides.
unfoldable pub has_inner_dot : Text → Bool
has_inner_dot [] = false
has_inner_dot (c ∷ []) = false
has_inner_dot (c ∷ d ∷ []) = false
has_inner_dot (c ∷ d ∷ e ∷ s) = (d == b'.') || has_inner_dot (d ∷ e ∷ s)

-- `^[^\s@]+@`, after `seen` whether there was a unit, and then the rest.
unfoldable pub local_part : Bool → Text → Option Text
local_part seen [] = none
local_part seen (c ∷ s) =
    let rest = local_part true s in
    if c == b'@' then (if seen then some s else none) else if is_space c then none else rest

abbrev pub is_domain : Text → Bool
is_domain domain = all is_address_unit domain && has_inner_dot domain

abbrev pub is_domain_of : Option Text → Bool
is_domain_of none = false
is_domain_of (some domain) = is_domain domain

unfoldable pub is_email : Text → Bool
unfolding has_inner_dot local_part
is_email value =
    leb (length value) 320 && is_domain_of (local_part false value) && not (any is_control value)

-- `!value`, for a text that may be missing
abbrev pub email_of : Platform → VerifiedExternalIdentity → Option Text
email_of p identity = elim identity.email [
  | none ↦ none
  | some email ↦ some (p.to_lower_case (trim email))
]

abbrev pub is_usable_email : Option Text → Bool
is_usable_email none = false
is_usable_email (some []) = false
is_usable_email (some (c ∷ s)) = is_email (c ∷ s)

abbrev is_nan : Option ℕ → Bool
is_nan none = true
is_nan (some t) = false

unfoldable pub is_invalid_identity : Platform → VerifiedExternalIdentity → Bool
is_invalid_identity p identity =
    let subject = trim identity.subject in
    not (text_eq identity.provider (lit "GOOGLE"))
    || not (text_eq identity.issuer google_issuer)
    || ltb (length subject) 1
    || ltb 255 (length subject)
    || is_nan (p.parse_date identity.authenticated_at)

unfoldable pub normalize_google_identity :
    Platform → VerifiedExternalIdentity → Result VerifiedExternalIdentity
unfolding is_invalid_identity
normalize_google_identity p identity =
    if is_invalid_identity p identity
    then err (use_case identity_invalid)
    else if not identity.email_verified || not (is_usable_email (email_of p identity))
    then err (use_case google_email_unverified)
    else do
      display_name ← normalize_display_name identity.display_name
      ok (record identity {
        display_name = display_name;
        email = email_of p identity;
        subject = trim identity.subject;
      })
