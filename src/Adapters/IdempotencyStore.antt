-- ===== src/Adapters/IdempotencyStore.antt =====
-- packages/adapters/src/idempotency-support.ts: `InMemoryIdempotencyStore`. A stored result is a
-- value of the model, so `cloneValue` copies nothing; `commandFingerprint` is in Adapters/Fingerprint.
pub mod View
pub mod Leases
pub mod Keys
mod Tests
use nitip_cuy.Prelude.{
  ℕ, ◌+◌, ◌*◌, Bool, false, ◌||◌, not, Option, none, some, List, [], ◌∷◌, ◌++◌, ◌==◌, leb,
  if◌then◌else◌,
}
use nitip_cuy.Text.{Text, text_eq}
use nitip_cuy.Map.{TextMap, get, put, delete}
use nitip_cuy.Number.{max_safe_integer}
use nitip_cuy.Failure.{Failure, plain, fixed}
use nitip_cuy.Application.Idempotency.{
  IdempotentOperation, IdempotencyClaim, claimed, replay, conflict, in_progress, recovery_required,
  IdempotencyStorePort,
}

pub data IdempotencyRecord (R : Type 0) : Type 0 where
  -- fingerprint, lease, retention in seconds
  pending : Text → ℕ → ℕ → IdempotencyRecord R
  -- fingerprint, result, expiry in milliseconds
  completed : Text → R → ℕ → IdempotencyRecord R
  recovery : Text → IdempotencyRecord R

pub record InMemoryIdempotencyStore (R : Type 0) : Type 0 where
  pub records : TextMap (IdempotencyRecord R)
  pub lease_sequence : ℕ

-- The three parts with a NUL between them.
unfoldable pub to_scoped_key : Text → Text → Text → Text
to_scoped_key scope operation key = scope ++ (0 ∷ (operation ++ (0 ∷ key)))

abbrev pub scoped_key : IdempotentOperation → Text
scoped_key o = to_scoped_key o.scope o.operation o.key

-- `addRetention`: the expiry, or the error of a clock out of range.
unfoldable pub add_retention : ℕ → ℕ → Option ℕ
add_retention now retention_seconds =
    let expires_at = now + retention_seconds * 1_000 in
    if leb expires_at max_safe_integer then some expires_at else none

module _ {R : Type 0} where
  -- A new lease on the key.
  fresh_claim :
      InMemoryIdempotencyStore R
      → IdempotentOperation
      → IdempotencyClaim R × InMemoryIdempotencyStore R
  fresh_claim s o =
      let lease = s.lease_sequence + 1 in
      (
        claimed lease,
        record {
          records = put (scoped_key o) (pending o.fingerprint lease o.retention_seconds) s.records;
          lease_sequence = lease;
        },
      )

  -- The chain of tests of `claim` on what the key holds.
  claim_existing :
      Option (IdempotencyRecord R)
      → InMemoryIdempotencyStore R
      → IdempotentOperation
      → ℕ
      → IdempotencyClaim R × InMemoryIdempotencyStore R
  unfolding fresh_claim
  claim_existing none s o now = fresh_claim s o
  claim_existing (some (completed fingerprint result expires_at)) s o now =
      if leb expires_at now
      then fresh_claim (record s { records = delete (scoped_key o) s.records }) o
      else if not (text_eq fingerprint o.fingerprint)
      then (conflict, s)
      else (replay result, s)
  claim_existing (some (pending fingerprint lease retention)) s o now =
      if not (text_eq fingerprint o.fingerprint) then (conflict, s) else (in_progress, s)
  claim_existing (some (recovery fingerprint)) s o now =
      if not (text_eq fingerprint o.fingerprint) then (conflict, s) else (recovery_required, s)

  pub claim :
      InMemoryIdempotencyStore R
      → IdempotentOperation
      → ℕ
      → IdempotencyClaim R × InMemoryIdempotencyStore R
  unfolding claim_existing
  claim s o now = claim_existing (get (scoped_key o) s.records) s o now

  -- Whether the record is the active claim of the fingerprint and the lease.
  pub owns_claim : Option (IdempotencyRecord R) → Text → ℕ → Bool
  owns_claim (some (pending fingerprint lease retention)) f l =
      not (not (text_eq fingerprint f) || not (lease == l))
  owns_claim _ f l = false

  abbrev retention_of : Option (IdempotencyRecord R) → ℕ
  retention_of (some (pending fingerprint lease retention)) = retention
  retention_of _ = 0

  pub complete :
      InMemoryIdempotencyStore R
      → IdempotentOperation
      → ℕ
      → R
      → ℕ
      → Option Failure × InMemoryIdempotencyStore R
  unfolding owns_claim
  complete s o lease result now =
      let existing = get (scoped_key o) s.records in
      if not (owns_claim existing o.fingerprint lease)
      then (some (plain (fixed "Idempotency completion does not own the active claim.")), s)
      else elim (add_retention now (retention_of existing)) [
        | none ↦ (some (plain (fixed "Idempotency expiry exceeds the supported clock range.")), s)
        | some expires_at ↦ (
          none,
          record s {
            records = put (scoped_key o) (completed o.fingerprint result expires_at) s.records;
          },
        )
      ]

  pub require_recovery :
      InMemoryIdempotencyStore R
      → IdempotentOperation
      → ℕ
      → ℕ
      → Option Failure × InMemoryIdempotencyStore R
  unfolding owns_claim
  require_recovery s o lease now =
      if not (owns_claim (get (scoped_key o) s.records) o.fingerprint lease)
      then (
        some (plain (fixed "Idempotency recovery transition does not own the active claim.")),
        s,
      )
      else (none, record s { records = put (scoped_key o) (recovery o.fingerprint) s.records })

-- The store as the port that `executeIdempotently` takes.
abbrev pub in_memory_port : (R : Type 0) → IdempotencyStorePort R
in_memory_port R = record {
  Store = InMemoryIdempotencyStore R;
  claim = claim;
  complete = complete;
  require_recovery = require_recovery;
}
