-- ===== src/Application/Idempotency.antt =====
-- packages/application/src/idempotency.ts: the protocol that runs an operation at most once.
--
-- A clock reading is a number of milliseconds. An asynchronous call that resolves or rejects is a
-- function to its outcome; what other callers do between two calls of it is in Later.
pub mod Contract
pub mod Later
pub mod Once
pub mod Valid
use nitip_cuy.Prelude.{ℕ, Bool, not, ◌||◌, Option, none, some, leb, ltb, if◌then◌else◌}
use nitip_cuy.Text.{Text}
use nitip_cuy.Text.Chars.{
  is_alnum, is_safe_visible, is_lower, is_dotted_slug, is_lower_hex, matches, matches_exactly,
}
use nitip_cuy.Number.{max_safe_integer}
use nitip_cuy.Failure.{Failure, Message, fixed}

-- What identifies an operation to the store: `ClaimIdempotencyCommand` and `IdempotentOperation`
-- have the same fields. `retentionSeconds` is an integer constant at every caller.
pub record IdempotentOperation : Type 0 where
  pub scope : Text
  pub operation : Text
  pub key : Text
  pub fingerprint : Text
  pub retention_seconds : ℕ

-- `IdempotencyClaim`, for results of type `R`. A lease id of the source is a fixed prefix with a
-- number, and stands for that number.
pub data IdempotencyClaim (R : Type 0) : Type 0 where
  claimed : ℕ → IdempotencyClaim R
  replay : R → IdempotencyClaim R
  conflict : IdempotencyClaim R
  in_progress : IdempotencyClaim R
  recovery_required : IdempotencyClaim R

-- `IdempotencyStorePort`: each call takes the store and the time at which it runs. `complete` and
-- `requireRecovery` answer with the error that rejects them, or none.
pub record IdempotencyStorePort (R : Type 0) : Type 1 where
  pub Store : Type 0
  pub claim : Store → IdempotentOperation → ℕ → IdempotencyClaim R × Store
  pub complete : Store → IdempotentOperation → ℕ → R → ℕ → Option Failure × Store
  pub require_recovery : Store → IdempotentOperation → ℕ → ℕ → Option Failure × Store

-- What `execute` does: it resolves with a result or throws.
pub data Outcome (R E : Type 0) : Type 0 where
  resolved : R → Outcome R E
  threw : E → Outcome R E

-- What `executeIdempotently` throws: its own error classes, the error of `execute`, both errors
-- together if the recovery could not be recorded, or the error of `complete`.
pub data IdempotencyError (E : Type 0) : Type 0 where
  validation_error : Message → IdempotencyError E
  conflict_error : Text → IdempotencyError E
  in_progress_error : Text → IdempotencyError E
  recovery_required_error : Text → IdempotencyError E
  thrown : E → IdempotencyError E
  aggregate_error : E → Failure → IdempotencyError E
  completion_rejected : Failure → IdempotencyError E

unfoldable pub is_valid_idempotency_key : Text → Bool
is_valid_idempotency_key value = matches is_alnum is_safe_visible 7 127 value

-- The error that `validateOperation` throws, if it throws.
unfoldable pub validate_operation : IdempotentOperation → Option Message
unfolding is_valid_idempotency_key
validate_operation o =
    if not (matches is_alnum is_safe_visible 2 191 o.scope)
    then some (fixed "Idempotency scope must contain 3-192 safe visible characters.")
    else if not (matches is_lower is_dotted_slug 2 63 o.operation)
    then some (fixed "Idempotency operation namespace is invalid.")
    else if not (is_valid_idempotency_key o.key)
    then some (fixed "Idempotency key must contain 8-128 safe visible characters.")
    else if not (matches_exactly is_lower_hex 64 o.fingerprint)
    then some (fixed "Idempotency fingerprint must be a lowercase SHA-256 value.")
    else if not (leb o.retention_seconds max_safe_integer)
        || ltb o.retention_seconds 60
        || ltb 31_536_000 o.retention_seconds
    then some (fixed "Idempotency retention must be between 60 seconds and 365 days.")
    else none

-- What a call leaves: its outcome, the store, and the state that `execute` works on.
pub record Run (R E S A : Type 0) : Type 0 where
  pub outcome : Outcome R (IdempotencyError E)
  pub store : S
  pub world : A

module _ {R E A : Type 0} (port : IdempotencyStorePort R) where
  open port use {Store, claim, complete, require_recovery}

  -- The `catch` of `execute`: the lease is marked for recovery, and the error thrown again.
  pub after_error : IdempotentOperation → ℕ → ℕ → E → Store → A → Run R E Store A
  after_error o lease now error s w =
      let (rejection, s') = require_recovery s o lease now in
      record {
        outcome = elim rejection [
          | none ↦ threw (thrown error)
          | some state_error ↦ threw (aggregate_error error state_error)
        ];
        store = s';
        world = w;
      }

  -- The completion of the lease by the result.
  pub after_result : IdempotentOperation → ℕ → ℕ → R → Store → A → Run R E Store A
  after_result o lease now result s w =
      let (rejection, s') = complete s o lease result now in
      record {
        outcome = elim rejection [
          | none ↦ resolved result
          | some error ↦ threw (completion_rejected error)
        ];
        store = s';
        world = w;
      }

  pub after_execute : IdempotentOperation → ℕ → ℕ → Outcome R E × A → Store → Run R E Store A
  unfolding after_error after_result
  after_execute o lease now (resolved result, w) s = after_result o lease now result s w
  after_execute o lease now (threw error, w) s = after_error o lease now error s w

  -- What follows each answer of the store; `execute` runs only on a claimed lease.
  pub after_claim :
      IdempotentOperation
      → ℕ
      → (A → Outcome R E × A)
      → IdempotencyClaim R
      → Store
      → A
      → Run R E Store A
  unfolding after_execute
  after_claim o now execute (claimed lease) s w = after_execute o lease now (execute w) s
  after_claim o now execute (replay result) s w = record {
    outcome = resolved result;
    store = s;
    world = w;
  }
  after_claim o now execute conflict s w = record {
    outcome = threw (conflict_error o.operation);
    store = s;
    world = w;
  }
  after_claim o now execute in_progress s w = record {
    outcome = threw (in_progress_error o.operation);
    store = s;
    world = w;
  }
  after_claim o now execute recovery_required s w = record {
    outcome = threw (recovery_required_error o.operation);
    store = s;
    world = w;
  }

  -- `started` is the time of the claim, `ended` that of the completion.
  pub execute_idempotently :
      IdempotentOperation → ℕ → ℕ → (A → Outcome R E × A) → Store → A → Run R E Store A
  unfolding after_claim
  execute_idempotently o started ended execute s w = elim (validate_operation o) [
    | some message ↦ record { outcome = threw (validation_error message); store = s; world = w }
    | none ↦ after_claim o ended execute (claim s o started).0 (claim s o started).1 w
  ]
