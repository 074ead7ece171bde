-- ===== src/Application/Idempotency/Once.antt =====
-- `executeIdempotently` runs an operation at most once, over any store that keeps the contract.
use nitip_cuy.Prelude.{ℕ, ◌+◌, ◌≤◌, ◌<◌, ◌≡◌, ◌≢◌, refl, ◌∙◌, none, if◌then◌else◌, arith, List, All}
use nitip_cuy.Text.{text_eq, text_eq_refl}
use nitip_cuy.Number.{max_safe_integer}
use nitip_cuy.Application.Idempotency.{
  IdempotentOperation, claimed, IdempotencyStorePort, Outcome, resolved, threw, IdempotencyError,
  conflict_error, in_progress_error, recovery_required_error, thrown, validate_operation,
  after_claim, execute_idempotently,
}
use nitip_cuy.Application.Idempotency.Later.{PortCall, IsAllowed, after_port_calls, IsSettled-kept}
use nitip_cuy.Application.Idempotency.Contract.{
  KeyState, free, held, done, stuck, answer, SameKey, milliseconds, IsIdempotencyStore,
}

-- What a caller gets who finds the key done, held or stuck under a fingerprint.
abbrev pub refusal :
    {R E : Type 0} → KeyState R → IdempotentOperation → Outcome R (IdempotencyError E)
refusal free o = threw (conflict_error o.operation)
refusal (held g lease retention) o =
    if text_eq g o.fingerprint
    then threw (in_progress_error o.operation)
    else threw (conflict_error o.operation)
refusal (done g result) o =
    if text_eq g o.fingerprint then resolved result else threw (conflict_error o.operation)
refusal (stuck g) o =
    if text_eq g o.fingerprint
    then threw (recovery_required_error o.operation)
    else threw (conflict_error o.operation)

module _ {R E A : Type 0} (port : IdempotencyStorePort R)
    (view : port.Store → IdempotentOperation → ℕ → KeyState R)
    (law : IsIdempotencyStore port view) where
  open port use {Store, claim, complete, require_recovery}
  open law use {view_key, claim_free, claim_taken, complete_held, recovery_held}

  after_answer :
      (k : KeyState R) (o : IdempotentOperation) (ended : ℕ) (execute : A → Outcome R E × A)
      (s : Store) (w : A)
      → k ≢ free
      → after_claim port o ended execute (answer k o.fingerprint) s w
        ≡ record { outcome = refusal k o; store = s; world = w }
  unfolding after_claim
  after_answer free o ended execute s w n = absurd (n refl)
  after_answer (held g l q) o ended execute s w n = ground arith
  after_answer (done g r) o ended execute s w n = ground arith
  after_answer (stuck g) o ended execute s w n = ground arith

  -- A call on a key that is not free does not run `execute`: store and world are left as they
  -- were, and the outcome is told by the key's state and its fingerprint alone.
  pub taken_key_not_executed :
      (o : IdempotentOperation) (started ended : ℕ) (execute : A → Outcome R E × A) (s : Store)
      (w : A)
      → validate_operation o ≡ none
      → view s o started ≢ free
      → execute_idempotently port o started ended execute s w
        ≡ record { outcome = refusal (view s o started) o; store = s; world = w }
  unfolding execute_idempotently
  taken_key_not_executed o started ended execute s w valid taken =
      rw (valid, execute_idempotently, claim_taken s o started taken)
        (after_answer (view s o started) o ended execute s w taken)

  claimed_resolved :
      (o : IdempotentOperation) (lease ended : ℕ) (execute : A → Outcome R E × A) (s : Store)
      (w : A) (result : R) (w' : A)
      → execute w ≡ (resolved result, w')
      → (complete s o lease result ended).0 ≡ none
      → after_claim port o ended execute (claimed lease) s w ≡ record {
        outcome = resolved result;
        store = (complete s o lease result ended).1;
        world = w';
      }
  unfolding after_claim
  claimed_resolved o lease ended execute s w result w' ran accepted = rw (ran, accepted)

  claimed_threw :
      (o : IdempotentOperation) (lease ended : ℕ) (execute : A → Outcome R E × A) (s : Store)
      (w : A) (error : E) (w' : A)
      → execute w ≡ (threw error, w')
      → (require_recovery s o lease ended).0 ≡ none
      → after_claim port o ended execute (claimed lease) s w ≡ record {
        outcome = threw (thrown error);
        store = (require_recovery s o lease ended).1;
        world = w';
      }
  unfolding after_claim
  claimed_threw o lease ended execute s w error w' ran accepted = rw (ran, accepted)

  first_claim :
      (o : IdempotentOperation) (started ended : ℕ) (execute : A → Outcome R E × A) (s : Store)
      (w : A)
      → validate_operation o ≡ none
      → view s o started ≡ free
      → (lease : ℕ) × (execute_idempotently port o started ended execute s w
          ≡ after_claim port o ended execute (claimed lease) (claim s o started).1 w)
        × ((later : ℕ)
            → view (claim s o started).1 o later ≡ held o.fingerprint lease o.retention_seconds)
  unfolding execute_idempotently
  first_claim o started ended execute s w valid is_free =
      let (lease, answered, holds) = claim_free s o started is_free in
      (lease, rw (valid, execute_idempotently, answered), holds)

  -- A valid first call on a free key whose `execute` resolves returns its result and leaves its
  -- world. After it, let any calls be made on the store before the expiry, for valid operations with
  -- this key or others: then a valid call with that key and fingerprint before the expiry returns
  -- the same result, leaves store and world as they are and runs nothing. The clock is assumed to
  -- stay so small that the expiry is a safe integer.
  pub runs_once :
      (o p : IdempotentOperation) (started ended restarted reended : ℕ)
      (execute execute' : A → Outcome R E × A) (s : Store) (w w' v : A) (result : R)
      (calls : List (PortCall R))
      → validate_operation o ≡ none
      → view s o started ≡ free
      → execute w ≡ (resolved result, w')
      → ended + milliseconds o.retention_seconds ≤ max_safe_integer
      → All (IsAllowed (λ t. t < ended + milliseconds o.retention_seconds)) calls
      → SameKey p o
      → p.fingerprint ≡ o.fingerprint
      → validate_operation p ≡ none
      → restarted < ended + milliseconds o.retention_seconds
      → let first = execute_idempotently port o started ended execute s w in
        let later = after_port_calls port first.store calls in
        (first.outcome ≡ resolved result)
        × (first.world ≡ w')
        × (execute_idempotently port p restarted reended execute' later v
            ≡ record { outcome = resolved result; store = later; world = v })
  runs_once o p started ended restarted reended execute execute' s w w' v result calls valid is_free
        ran small allowed same f valid' soon =
      let (lease, e, holds) = first_claim o started ended execute s w valid is_free in
      let c = (claim s o started).1 in
      let (accepted, after) =
        complete_held c o lease o.retention_seconds result ended (holds ended) small in
      let e' = e ∙ claimed_resolved o lease ended execute c w result w' ran accepted in
      let s' = (complete c o lease result ended).1 in
      let later = after_port_calls port s' calls in
      let kept =
        IsSettled-kept port view law (λ t. t < ended + milliseconds o.retention_seconds)
          (done o.fingerprint result) o s' calls valid allowed
          (record {
            not_free = λ q. ground (arith, q);
            not_held = λ g l. refl;
            state = λ t early. after t ∙ ground arith;
          }) in
      let is_done : view later p restarted ≡ done p.fingerprint result =
        view_key later p o restarted same ∙ kept.state restarted soon ∙ rw f refl in
      rw e' (
        refl,
        refl,
        taken_key_not_executed p restarted reended execute' later v valid'
              (λ h. ground (arith, is_done))
            ∙ rw is_done (rw (text_eq_refl p.fingerprint)),
      )

  -- A valid first call on a free key whose `execute` throws hands that error on and leaves the key
  -- stuck. After it, let any calls be made on the store, at any times, for valid operations with
  -- this key or others: then a valid call with that key runs nothing and leaves store and world as
  -- they are; it asks for recovery, or reports a conflict if its fingerprint differs.
  pub failure_sticks :
      (o p : IdempotentOperation) (started ended restarted reended : ℕ)
      (execute execute' : A → Outcome R E × A) (s : Store) (w w' v : A) (error : E)
      (calls : List (PortCall R))
      → validate_operation o ≡ none
      → view s o started ≡ free
      → execute w ≡ (threw error, w')
      → All (IsAllowed (λ t. Unit {0})) calls
      → SameKey p o
      → validate_operation p ≡ none
      → let first = execute_idempotently port o started ended execute s w in
        let later = after_port_calls port first.store calls in
        (first.outcome ≡ threw (thrown error))
        × (first.world ≡ w')
        × (execute_idempotently port p restarted reended execute' later v ≡ record {
          outcome =
              if text_eq o.fingerprint p.fingerprint
              then threw (recovery_required_error p.operation)
              else threw (conflict_error p.operation);
          store = later;
          world = v;
        })
  failure_sticks o p started ended restarted reended execute execute' s w w' v error calls valid
        is_free ran allowed same valid' =
      let (lease, e, holds) = first_claim o started ended execute s w valid is_free in
      let c = (claim s o started).1 in
      let (accepted, after) = recovery_held c o lease o.retention_seconds ended (holds ended) in
      let e' = e ∙ claimed_threw o lease ended execute c w error w' ran accepted in
      let s' = (require_recovery c o lease ended).1 in
      let later = after_port_calls port s' calls in
      let kept =
        IsSettled-kept port view law (λ t. Unit {0}) (stuck o.fingerprint) o s' calls valid allowed
          (record {
            not_free = λ q. ground (arith, q);
            not_held = λ g l. refl;
            state = λ t any. after t;
          }) in
      let is_stuck : view later p restarted ≡ stuck o.fingerprint =
        view_key later p o restarted same ∙ kept.state restarted tt in
      rw e' (
        refl,
        refl,
        taken_key_not_executed p restarted reended execute' later v valid'
              (λ h. ground (arith, is_stuck))
            ∙ rw is_stuck,
      )
