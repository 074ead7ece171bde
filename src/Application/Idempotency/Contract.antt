-- ===== src/Application/Idempotency/Contract.antt =====
-- What `executeIdempotently` relies on of an `IdempotencyStorePort`: the abstract state of a key,
-- and how each call answers and moves it.
use nitip_cuy.Prelude.{
  ℕ, ◌+◌, ◌*◌, ◌≤◌, ◌≡◌, ◌≢◌, Bool, false, ◌&&◌, ◌==◌, none, leb, if◌then◌else◌,
}
use nitip_cuy.Text.{Text, text_eq}
use nitip_cuy.Number.{max_safe_integer}
use nitip_cuy.Application.Idempotency.{
  IdempotentOperation, IdempotencyClaim, replay, conflict, in_progress, recovery_required,
  IdempotencyStorePort, validate_operation,
}

-- What a key is worth at a moment: free, held under a lease, done with a result, or in need of
-- recovery; all but the first with the fingerprint that claimed it.
pub data KeyState (R : Type 0) : Type 0 where
  free : KeyState R
  -- fingerprint, lease, retention in seconds
  held : Text → ℕ → ℕ → KeyState R
  done : Text → R → KeyState R
  stuck : Text → KeyState R

-- The answer to a claim of a key that is not free.
abbrev pub answer : {R : Type 0} → KeyState R → Text → IdempotencyClaim R
answer free f = conflict
answer (held g lease retention) f = if text_eq g f then in_progress else conflict
answer (done g result) f = if text_eq g f then replay result else conflict
answer (stuck g) f = if text_eq g f then recovery_required else conflict

pub record SameKey (o p : IdempotentOperation) : Type 0 where
  pub scope : o.scope ≡ p.scope
  pub operation : o.operation ≡ p.operation
  pub key : o.key ≡ p.key

-- Two valid operations with different keys.
pub record AreApart (o p : IdempotentOperation) : Type 0 where
  pub valid : validate_operation o ≡ none
  pub other_valid : validate_operation p ≡ none
  pub apart : ¬ SameKey o p

-- Whether the key is held by the fingerprint under the lease.
abbrev pub is_held_under : {R : Type 0} → KeyState R → Text → ℕ → Bool
is_held_under (held g lease retention) f l = text_eq g f && (lease == l)
is_held_under _ f l = false

abbrev pub milliseconds : ℕ → ℕ
milliseconds seconds = seconds * 1_000

-- `view` is the state of an operation's key at a time; it depends on the key alone. A call on the
-- key of one valid operation leaves the keys of the others as they are.
pub record IsIdempotencyStore {R : Type 0} (port : IdempotencyStorePort R)
    (view : port.Store → IdempotentOperation → ℕ → KeyState R) : Type 0 where
  pub view_key :
      (s : port.Store) (o p : IdempotentOperation) (now : ℕ)
      → SameKey o p
      → view s o now ≡ view s p now
  pub claim_free :
      (s : port.Store) (o : IdempotentOperation) (now : ℕ)
      → view s o now ≡ free
      → (lease : ℕ) × ((port.claim s o now).0 ≡ IdempotencyClaim.claimed lease)
        × ((later : ℕ)
            → view (port.claim s o now).1 o later ≡ held o.fingerprint lease o.retention_seconds)
  pub claim_taken :
      (s : port.Store) (o : IdempotentOperation) (now : ℕ)
      → view s o now ≢ free
      → port.claim s o now ≡ (answer (view s o now) o.fingerprint, s)
  pub complete_held :
      (s : port.Store) (o : IdempotentOperation) (lease retention : ℕ) (result : R) (now : ℕ)
      → view s o now ≡ held o.fingerprint lease retention
      → now + milliseconds retention ≤ max_safe_integer
      → ((port.complete s o lease result now).0 ≡ none)
        × ((later : ℕ)
            → view (port.complete s o lease result now).1 o later ≡ (
                if leb (now + milliseconds retention) later
                then free
                else done o.fingerprint result))
  pub recovery_held :
      (s : port.Store) (o : IdempotentOperation) (lease retention now : ℕ)
      → view s o now ≡ held o.fingerprint lease retention
      → ((port.require_recovery s o lease now).0 ≡ none)
        × ((later : ℕ) → view (port.require_recovery s o lease now).1 o later ≡ stuck o.fingerprint)
  pub complete_unheld :
      (s : port.Store) (o : IdempotentOperation) (lease : ℕ) (result : R) (now : ℕ)
      → is_held_under (view s o now) o.fingerprint lease ≡ false
      → (port.complete s o lease result now).1 ≡ s
  pub recovery_unheld :
      (s : port.Store) (o : IdempotentOperation) (lease now : ℕ)
      → is_held_under (view s o now) o.fingerprint lease ≡ false
      → (port.require_recovery s o lease now).1 ≡ s
  pub claim_other :
      (s : port.Store) (o p : IdempotentOperation) (now : ℕ)
      → AreApart o p
      → (later : ℕ) → view (port.claim s o now).1 p later ≡ view s p later
  pub complete_other :
      (s : port.Store) (o p : IdempotentOperation) (lease : ℕ) (result : R) (now : ℕ)
      → AreApart o p
      → (later : ℕ) → view (port.complete s o lease result now).1 p later ≡ view s p later
  pub recovery_other :
      (s : port.Store) (o p : IdempotentOperation) (lease now : ℕ)
      → AreApart o p
      → (later : ℕ) → view (port.require_recovery s o lease now).1 p later ≡ view s p later
