-- ===== src/Adapters/IdempotencyStore/View.antt =====
-- The in-memory store keeps the contract of the idempotency protocol.
use nitip_cuy.Prelude.{
  ℕ, ◌+◌, ◌*◌, ◌≤◌, ◌≡◌, ◌≢◌, Option, none, some, leb, if◌then◌else◌, arith, ap, refl, false,
  Bool-cases, inl, inr,
}
use nitip_cuy.Text.{Text, text_eq, text_eq_iff, text_eq_refl}
use nitip_cuy.Map.{get, delete, get-put_self, get-put, get-delete}
use nitip_cuy.Number.{max_safe_integer}
use nitip_cuy.Application.Idempotency.{IdempotentOperation, claimed}
use nitip_cuy.Application.Idempotency.Contract.{
  KeyState, free, held, done, stuck, answer, SameKey, AreApart, is_held_under, milliseconds,
  IsIdempotencyStore,
}
use nitip_cuy.Adapters.IdempotencyStore.{
  IdempotencyRecord, pending, completed, recovery, InMemoryIdempotencyStore, scoped_key,
  add_retention, retention_of, owns_claim, claim, complete, require_recovery, in_memory_port,
}
use nitip_cuy.Adapters.IdempotencyStore.Keys.{scoped_key_injective}

-- Operations that are apart have different scoped keys.
apart_lem :
    (o p : IdempotentOperation) → AreApart o p → text_eq (scoped_key o) (scoped_key p) ≡ false
apart_lem o p a = elim (Bool-cases (text_eq (scoped_key o) (scoped_key p))) [
  | inl same ↦ absurd (
      a.apart (
        scoped_key_injective o p a.valid a.other_valid
          ((text_eq_iff (scoped_key o) (scoped_key p)).0 same)))
  | inr different ↦ different
]

module _ {R : Type 0} where
  -- What a record is worth at a time: a completed one whose expiry has come is free.
  abbrev pub worth : Option (IdempotencyRecord R) → ℕ → KeyState R
  worth none now = free
  worth (some (pending f lease retention)) now = held f lease retention
  worth (some (completed f result expires_at)) now =
      if leb expires_at now then free else done f result
  worth (some (recovery f)) now = stuck f

  abbrev pub view : InMemoryIdempotencyStore R → IdempotentOperation → ℕ → KeyState R
  view s o now = worth (get (scoped_key o) s.records) now

  view_key :
      (s : InMemoryIdempotencyStore R) (o p : IdempotentOperation) (now : ℕ)
      → SameKey o p
      → view s o now ≡ view s p now
  view_key s o p now k = rw (k.scope, k.operation, k.key)

  -- What `claim` does with a key that is free: a new lease, which the key then holds.
  claim_free_lem :
      (s : InMemoryIdempotencyStore R) (o : IdempotentOperation) (now : ℕ)
      → view s o now ≡ free
      → ((claim s o now).0 ≡ claimed (s.lease_sequence + 1))
        × (get (scoped_key o) (claim s o now).1.records
            ≡ some (pending o.fingerprint (s.lease_sequence + 1) o.retention_seconds))
  unfolding claim
  claim_free_lem s o now h = ground (
    arith,
    get-put_self (scoped_key o) (pending o.fingerprint (s.lease_sequence + 1) o.retention_seconds)
        s.records,
    get-put_self (scoped_key o) (pending o.fingerprint (s.lease_sequence + 1) o.retention_seconds)
        (delete (scoped_key o) s.records),
  )

  claim_taken :
      (s : InMemoryIdempotencyStore R) (o : IdempotentOperation) (now : ℕ)
      → view s o now ≢ free
      → claim s o now ≡ (answer (view s o now) o.fingerprint, s)
  unfolding claim
  claim_taken s o now h = ground arith

  complete_held :
      (s : InMemoryIdempotencyStore R) (o : IdempotentOperation) (lease retention : ℕ) (result : R)
      (now : ℕ)
      → view s o now ≡ held o.fingerprint lease retention
      → now + milliseconds retention ≤ max_safe_integer
      → ((complete s o lease result now).0 ≡ none)
        × (get (scoped_key o) (complete s o lease result now).1.records
            ≡ some (completed o.fingerprint result (now + milliseconds retention)))
  unfolding complete add_retention
  complete_held s o lease retention result now h small = ground (
    arith,
    text_eq_refl o.fingerprint,
    get-put_self (scoped_key o) (completed o.fingerprint result (now + milliseconds retention))
        s.records,
  )

  recovery_held :
      (s : InMemoryIdempotencyStore R) (o : IdempotentOperation) (lease retention now : ℕ)
      → view s o now ≡ held o.fingerprint lease retention
      → ((require_recovery s o lease now).0 ≡ none)
        × (get (scoped_key o) (require_recovery s o lease now).1.records
            ≡ some (recovery o.fingerprint))
  unfolding require_recovery
  recovery_held s o lease retention now h = ground (
    arith,
    text_eq_refl o.fingerprint,
    get-put_self (scoped_key o) (recovery o.fingerprint) s.records,
  )

  worth_pending :
      (r : Option (IdempotencyRecord R)) (f : Text) (lease retention now : ℕ)
      → r ≡ some (pending f lease retention)
      → worth r now ≡ held f lease retention
  worth_pending r f lease retention now h = rw h

  -- A key that is not held under the lease is not owned by it.
  unheld-owns_claim :
      (r : Option (IdempotencyRecord R)) (f : Text) (lease now : ℕ)
      → is_held_under (worth r now) f lease ≡ false
      → owns_claim r f lease ≡ false
  unfolding owns_claim
  unheld-owns_claim none f lease now h = refl
  unheld-owns_claim (some (pending g l retention)) f lease now h = ground arith
  unheld-owns_claim (some (completed g result expires_at)) f lease now h = refl
  unheld-owns_claim (some (recovery g)) f lease now h = refl

  complete_unheld :
      (s : InMemoryIdempotencyStore R) (o : IdempotentOperation) (lease : ℕ) (result : R) (now : ℕ)
      → is_held_under (view s o now) o.fingerprint lease ≡ false
      → (complete s o lease result now).1 ≡ s
  unfolding complete
  complete_unheld s o lease result now h =
      rw (unheld-owns_claim (get (scoped_key o) s.records) o.fingerprint lease now h) refl

  recovery_unheld :
      (s : InMemoryIdempotencyStore R) (o : IdempotentOperation) (lease now : ℕ)
      → is_held_under (view s o now) o.fingerprint lease ≡ false
      → (require_recovery s o lease now).1 ≡ s
  unfolding require_recovery
  recovery_unheld s o lease now h =
      rw (unheld-owns_claim (get (scoped_key o) s.records) o.fingerprint lease now h) refl

  get-claim_other :
      (s : InMemoryIdempotencyStore R) (o : IdempotentOperation) (now : ℕ) (k : Text)
      → text_eq (scoped_key o) k ≡ false
      → get k (claim s o now).1.records ≡ get k s.records
  unfolding claim
  get-claim_other s o now k h =
      let fresh : IdempotencyRecord R =
        pending o.fingerprint (s.lease_sequence + 1) o.retention_seconds in
      ground (
        arith,
        h,
        get-put k (scoped_key o) fresh s.records,
        get-put k (scoped_key o) fresh (delete (scoped_key o) s.records),
        get-delete k (scoped_key o) s.records,
      )

  get-complete_other :
      (s : InMemoryIdempotencyStore R) (o : IdempotentOperation) (lease : ℕ) (result : R) (now : ℕ)
      (k : Text)
      → text_eq (scoped_key o) k ≡ false
      → get k (complete s o lease result now).1.records ≡ get k s.records
  unfolding complete add_retention
  get-complete_other s o lease result now k h = ground (
    arith,
    h,
    get-put k (scoped_key o)
        (completed o.fingerprint result (now + retention_of (get (scoped_key o) s.records) * 1_000))
        s.records,
  )

  get-recovery_other :
      (s : InMemoryIdempotencyStore R) (o : IdempotentOperation) (lease now : ℕ) (k : Text)
      → text_eq (scoped_key o) k ≡ false
      → get k (require_recovery s o lease now).1.records ≡ get k s.records
  unfolding require_recovery
  get-recovery_other s o lease now k h =
      ground (arith, h, get-put k (scoped_key o) (recovery o.fingerprint) s.records)

-- The in-memory store, for results of any type, keeps the contract of the idempotency protocol,
-- where the state of a key is read off its record.
pub in_memory_contract : (R : Type 0) → IsIdempotencyStore (in_memory_port R) view
in_memory_contract R = record {
  view_key = view_key;
  claim_free = λ s o now h.
      let (answered, kept) = claim_free_lem s o now h in
      (s.lease_sequence + 1, answered, λ later. worth_pending _ o.fingerprint _ _ later kept);
  claim_taken = claim_taken;
  complete_held = λ s o lease retention result now h small.
      let (answered, kept) = complete_held s o lease retention result now h small in
      (answered, λ later. ap (λ r. worth r later) kept);
  recovery_held = λ s o lease retention now h.
      let (answered, kept) = recovery_held s o lease retention now h in
      (answered, λ later. ap (λ r. worth r later) kept);
  complete_unheld = complete_unheld;
  recovery_unheld = recovery_unheld;
  claim_other = λ s o p now a later.
      ap (λ r. worth r later) (get-claim_other s o now (scoped_key p) (apart_lem o p a));
  complete_other = λ s o p lease result now a later.
      ap (λ r. worth r later)
        (get-complete_other s o lease result now (scoped_key p) (apart_lem o p a));
  recovery_other = λ s o p lease now a later.
      ap (λ r. worth r later) (get-recovery_other s o lease now (scoped_key p) (apart_lem o p a));
}
