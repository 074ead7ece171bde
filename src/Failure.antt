-- ===== src/Failure.antt =====
-- What the program throws: the error classes of the domain, the use cases, the idempotency
-- protocol and the adapters, and the monad of computations that may throw.
use nitip_cuy.Prelude.{ℕ, Bool, true, false, String, ◌≡◌, refl, arith}

-- What an error's message says: a fixed text, or one that names a field and perhaps its bounds.
pub data Message : Type 0 where
  fixed : String → Message
  about : String → String → Message
  between : String → ℕ → ℕ → Message

-- `MarketplaceErrorCode` (application/src/marketplace-foundation.ts)
pub data UseCaseCode : Type 0 where
  account_inactive answer_already_exists google_email_unverified identity_invalid : UseCaseCode
  insufficient_assurance missing_capability capacity_unavailable : UseCaseCode
  idempotency_conflict idempotency_in_progress offer_ineligible offer_revision_stale : UseCaseCode
  profile_inactive profile_already_exists profile_not_found : UseCaseCode
  resource_not_found resource_not_owned self_order_denied session_inactive : UseCaseCode
  service_mode_unavailable trip_not_published : UseCaseCode

-- `EvidenceLifecycleErrorCode` (application/src/ports/evidence-lifecycle.ts)
pub data EvidenceLifecycleErrorCode : Type 0 where
  validation_failed not_found upload_expired upload_immutable : EvidenceLifecycleErrorCode
  not_verified object_mismatch retention_active : EvidenceLifecycleErrorCode

-- The error classes. `plain` is a bare `Error`, and `range` the `RangeError` of an invalid date.
pub data Failure : Type 0 where
  domain_validation : Message → Failure
  state_conflict : Message → Failure
  use_case : UseCaseCode → Failure
  evidence : EvidenceLifecycleErrorCode → Message → Failure
  plain : Message → Failure
  range : Failure

-- What a synchronous function does: it returns a value, or throws.
pub data Result {ℓ} (A : Type ℓ) : Type ℓ where
  err : Failure → Result A
  ok : A → Result A

-- `if (bad) throw error`
abbrev pub throw_if : (bad : Bool) → Failure → Result (Unit {0})
throw_if false error = ok tt
throw_if true error = err error

-- The statements after a call run on the value that it returned, unless it threw.
infixl 5 ◌>>◌ ◌>>=◌
abbrev pub ◌>>=◌ {ℓ κ} :
    {Value : Type ℓ} {Next : Type κ} (call : Result Value) (rest : Value → Result Next)
    → Result Next
err error >>= rest = err error
ok value >>= rest = rest value

abbrev pub ◌>>◌ {κ} : {Next : Type κ} (check : Result (Unit {0})) (rest : Result Next) → Result Next
check >> rest = check >>= λ passed. rest

pub throw_if-eq-ok :
    (bad : Bool) (error : Failure) {u : Unit {0}} → throw_if bad error ≡ ok u → bad ≡ false
throw_if-eq-ok false error h = refl
throw_if-eq-ok true error h = cc

-- Statements that returned: the call returned, and the statements after it did, from its value.
pub after_bind {ℓ κ μ} :
    {Value : Type ℓ} {Next : Type κ} {Goal : Type μ} (call : Result Value)
    (rest : Value → Result Next) {out : Next}
    → call >>= rest ≡ ok out
    → ((value : Value) → call ≡ ok value → rest value ≡ ok out → Goal)
    → Goal
after_bind (err error) rest h goal = absurd (ground arith)
after_bind (ok value) rest h goal = goal value refl h

-- The same as a triple.
pub >>=-eq-ok {ℓ κ} :
    {Value : Type ℓ} {Next : Type κ} (call : Result Value) (rest : Value → Result Next) {out : Next}
    → call >>= rest ≡ ok out
    → (value : Value) × (call ≡ ok value) × (rest value ≡ ok out)
>>=-eq-ok call rest h = after_bind call rest h λ value called rested. (value, called, rested)

-- What a result that is known returned.
pub ok_path {ℓ} : {A : Type ℓ} {a b : A} → ok a ≡ ok b → b ≡ a
ok_path h = cc
