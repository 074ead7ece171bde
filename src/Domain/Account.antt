-- ===== src/Domain/Account.antt =====
-- packages/domain/src/account.ts: the identifiers of accounts, profiles and sessions, and the
-- actor that a session stands for; and `orderRequestId` of packages/domain/src/order-request.ts.
use nitip_cuy.Prelude.{
  ℕ, zero, suc, Bool, true, false, ◌&&◌, ◌||◌, not, List, [], ◌∷◌, String, ◌==◌, leb, any,
}
use nitip_cuy.Text.{Text}
use nitip_cuy.Text.Chars.{is_digit}
use nitip_cuy.Text.Trim.{trim}
use nitip_cuy.Failure.{Result, ok, ◌>>◌, throw_if, plain, about}
use nitip_cuy.Platform.{Platform}

pub data AccountStatus : Type 0 where
  active suspended closed : AccountStatus

pub data AssuranceLevel : Type 0 where
  base strong phishing_resistant : AssuranceLevel

pub data Capability : Type 0 where
  moderate_trips : Capability

pub record AuthenticatedActor : Type 0 where
  pub account_id : Text
  pub session_id : Text
  pub assurance : AssuranceLevel
  pub capabilities : List Capability

-- `hasCapability`; there is one capability
unfoldable pub has_capability : AuthenticatedActor → Capability → Bool
has_capability actor moderate_trips = any (λ c. true) actor.capabilities

abbrev pub status_active : AccountStatus → Bool
status_active active = true
status_active _ = false

abbrev assurance_rank : AssuranceLevel → ℕ
assurance_rank base = 0
assurance_rank strong = 1
assurance_rank phishing_resistant = 2

-- `row.assurance === actor.assurance`
abbrev pub assurance_is : AssuranceLevel → AssuranceLevel → Bool
assurance_is a b = assurance_rank a == assurance_rank b

-- A hexadecimal digit under the flag `i`.
abbrev is_hex : ℕ → Bool
is_hex c = is_digit c || (leb b'a' c && leb c b'f') || (leb b'A' c && leb c b'F')

-- `count` hexadecimal digits, and then what the rest has to be.
abbrev hex : ℕ → (Text → Bool) → Text → Bool
hex zero rest s = rest s
hex (suc count) rest [] = false
hex (suc count) rest (c ∷ s) = is_hex c && hex count rest s

abbrev one : (ℕ → Bool) → (Text → Bool) → Text → Bool
one class rest [] = false
one class rest (c ∷ s) = class c && rest s

abbrev dash : (Text → Bool) → Text → Bool
dash = one (λ c. c == b'-')

abbrev at_end : Text → Bool
at_end [] = true
at_end (c ∷ s) = false

abbrev is_version : ℕ → Bool
is_version c = leb b'1' c && leb c b'8'

abbrev is_variant : ℕ → Bool
is_variant c =
    (c == b'8') || (c == b'9') || (c == b'a') || (c == b'b') || (c == b'A') || (c == b'B')

-- `uuidPattern`
unfoldable pub is_uuid : Text → Bool
is_uuid = hex 8 (
    dash (
      hex 4 (dash (one is_version (hex 3 (dash (one is_variant (hex 3 (dash (hex 12 at_end))))))))))

-- `brandedUuid`
unfoldable pub branded_uuid : Platform → Text → String → Result Text
unfolding is_uuid
branded_uuid p value field = do
  let normalized = p.to_lower_case (trim value)
  throw_if (not (is_uuid normalized)) (plain (about field "must be a UUID."))
  ok normalized

unfoldable pub account_id : Platform → Text → Result Text
account_id p value = branded_uuid p value "Account ID"

unfoldable pub jastipper_profile_id : Platform → Text → Result Text
jastipper_profile_id p value = branded_uuid p value "Jastipper profile ID"

unfoldable pub session_id : Platform → Text → Result Text
session_id p value = branded_uuid p value "Session ID"

unfoldable pub order_request_id : Platform → Text → Result Text
order_request_id p value = branded_uuid p value "Order request ID"
