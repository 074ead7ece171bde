-- ===== src/Adapters/IdempotencyStore/Tests.antt =====
-- Runs of the idempotency protocol over the in-memory store, and examples of what is proved of it.
use nitip_cuy.Prelude.{ℕ, ◌+◌, ◌≡◌, ◌↔◌, refl, none, ◌<◌, List, [], ◌∷◌, All, arith}
use nitip_cuy.Text.{Text, lit, text_eq}
use nitip_cuy.Text.Chars.{matches, matches_exactly}
use nitip_cuy.Map.{get, put}
use nitip_cuy.Application.Idempotency.{
  IdempotentOperation, Outcome, resolved, threw, thrown, in_progress_error, recovery_required_error,
  in_progress, validate_operation, execute_idempotently,
}
use nitip_cuy.Application.Idempotency.Valid.{IsValidOperation, validate_operation_iff}
use nitip_cuy.Application.Idempotency.Contract.{SameKey, IsIdempotencyStore}
use nitip_cuy.Application.Idempotency.Later.{
  PortCall, claiming, completing, IsAllowed, after_port_calls,
}
use nitip_cuy.Application.Idempotency.Once.{taken_key_not_executed, runs_once, failure_sticks}
use nitip_cuy.Adapters.IdempotencyStore.{
  InMemoryIdempotencyStore, scoped_key, pending, claim, in_memory_port, to_scoped_key,
}
use nitip_cuy.Adapters.IdempotencyStore.View.{view, in_memory_contract}
use nitip_cuy.Adapters.IdempotencyStore.Leases.{
  after_call, claims, after_calls, IsForeign, empty, lease_excludes, leases_unique,
}
use nitip_cuy.Adapters.IdempotencyStore.Keys.{scoped_key_injective}

abbrev fingerprint : Text
fingerprint = lit "0123456789abcdef0123456789abcdef0123456789abcdef0123456789abcdef"

abbrev operation_for : Text → IdempotentOperation
operation_for key = record {
  scope = lit "account:1";
  operation = lit "order.submit";
  key = key;
  fingerprint = fingerprint;
  retention_seconds = 60;
}

abbrev order : IdempotentOperation
order = operation_for (lit "key-0001")

abbrev other : IdempotentOperation
other = operation_for (lit "key-0002")

order_valid : validate_operation order ≡ none
unfolding validate_operation matches matches_exactly
order_valid = refl

-- An operation that counts its runs, and one that fails.
abbrev count : ℕ → Outcome ℕ Text × ℕ
count w = (resolved (w + 1), w + 1)

abbrev fail : ℕ → Outcome ℕ Text × ℕ
fail w = (threw (lit "down"), w + 1)

abbrev store : InMemoryIdempotencyStore ℕ
store = empty

same_order : SameKey order order
same_order = record { scope = refl; operation = refl; key = refl }

other_valid : validate_operation other ≡ none
unfolding validate_operation matches matches_exactly
other_valid = refl

-- Calls that are made in between: on another key, and on this one.
abbrev between : List (PortCall ℕ)
between = claiming other 3000 ∷ completing other 2 5 4000 ∷ claiming order 5000 ∷ []

between-IsAllowed : All (IsAllowed (λ t. t < 2000 + 60_000)) between
between-IsAllowed =
    ((other_valid, omega arith), ((other_valid, omega arith), ((order_valid, omega arith), tt)))

between_valid : All (IsAllowed (λ t. Unit {0})) between
between_valid = ((other_valid, tt), ((other_valid, tt), ((order_valid, tt), tt)))

runs_once_example :
    let first = execute_idempotently (in_memory_port ℕ) order 1000 2000 count store 0 in
    let later = after_port_calls (in_memory_port ℕ) first.store between in
    (first.outcome ≡ resolved 1)
    × (first.world ≡ 1)
    × (execute_idempotently (in_memory_port ℕ) order 61_999 62_500 fail later 7
        ≡ record { outcome = resolved 1; store = later; world = 7 })
unfolding get
runs_once_example =
    runs_once (in_memory_port ℕ) view (in_memory_contract ℕ) order order 1000 2000 61_999 62_500
      count fail store 0 1 7 1 between order_valid refl refl (omega arith) between-IsAllowed
      same_order refl order_valid (omega arith)

failure_sticks_example :
    let first = execute_idempotently (in_memory_port ℕ) order 1000 2000 fail store 0 in
    let later = after_port_calls (in_memory_port ℕ) first.store between in
    (first.outcome ≡ threw (thrown (lit "down")))
    × (first.world ≡ 1)
    × (execute_idempotently (in_memory_port ℕ) order 90_000 90_500 count later 7 ≡ record {
      outcome = threw (recovery_required_error order.operation);
      store = later;
      world = 7;
    })
unfolding get text_eq
failure_sticks_example =
    failure_sticks (in_memory_port ℕ) view (in_memory_contract ℕ) order order 1000 2000 90_000
      90_500 fail count store 0 1 7 (lit "down") between order_valid refl refl between_valid
      same_order order_valid

-- A store in which the key is held.
abbrev held_store : InMemoryIdempotencyStore ℕ
held_store = record {
  records = (scoped_key order, pending fingerprint 1 60) ∷ [];
  lease_sequence = 1;
}

taken_key_not_executed_example :
    execute_idempotently (in_memory_port ℕ) order 3000 4000 count held_store 5
    ≡ record { outcome = threw (in_progress_error order.operation); store = held_store; world = 5 }
unfolding get text_eq to_scoped_key
taken_key_not_executed_example =
    taken_key_not_executed (in_memory_port ℕ) view (in_memory_contract ℕ) order 3000 4000 count
      held_store 5 order_valid (λ e. ground arith)

validate_operation_iff_example : (validate_operation order ≡ none) ↔ IsValidOperation order
validate_operation_iff_example = validate_operation_iff order

foreign :
    All
      (IsForeign {R = ℕ} (scoped_key order) fingerprint 1)
      (claims other 20 ∷ claims order 30 ∷ [])
foreign = (tt, (tt, tt))

lease_excludes_example :
    (claim
      (after_calls (claim store order 10).1 (claims other 20 ∷ claims order 30 ∷ []))
      order
      90_000_000).0
    ≡ in_progress
unfolding text_eq claim get
lease_excludes_example =
    lease_excludes store order order 10 90_000_000 1 (claims other 20 ∷ claims order 30 ∷ []) refl
      foreign refl

leases_unique_example : scoped_key order ≡ scoped_key order
unfolding after_calls after_call claim get put text_eq to_scoped_key
leases_unique_example =
    leases_unique {R = ℕ} (claims order 10 ∷ claims other 20 ∷ []) (scoped_key order)
      (scoped_key order) fingerprint fingerprint 1 60 60 refl refl

scoped_key_injective_example : SameKey order order
scoped_key_injective_example = scoped_key_injective order order order_valid order_valid refl

in_memory_contract_example : IsIdempotencyStore (in_memory_port ℕ) view
in_memory_contract_example = in_memory_contract ℕ
