-- ===== src/Adapters/IdempotencyStore/Leases.antt =====
-- The calls of any number of callers, in any order, at any times: a lease excludes the others.
use nitip_cuy.Prelude.{
  ℕ, ◌+◌, ◌*◌, ◌≤◌, ◌≡◌, ◌⊎◌, sym, ◌∙◌, subst, some, List, [], ◌∷◌, if◌then◌else◌, arith, inl, inr,
  All,
}
use nitip_cuy.Text.{Text, text_eq, text_eq_iff, text_eq_refl}
use nitip_cuy.Map.{get, delete, get-put, get-delete}
use nitip_cuy.Application.Idempotency.{IdempotentOperation, claimed, conflict, in_progress}
use nitip_cuy.Adapters.IdempotencyStore.{
  pending, completed, recovery, InMemoryIdempotencyStore, scoped_key, add_retention, claim,
  complete, require_recovery, retention_of,
}

pub data Call (R : Type 0) : Type 0 where
  claims : IdempotentOperation → ℕ → Call R
  completes : IdempotentOperation → ℕ → R → ℕ → Call R
  recovers : IdempotentOperation → ℕ → ℕ → Call R

module _ {R : Type 0} where
  unfoldable pub after_call : InMemoryIdempotencyStore R → Call R → InMemoryIdempotencyStore R
  after_call s (claims o now) = (claim s o now).1
  after_call s (completes o lease result now) = (complete s o lease result now).1
  after_call s (recovers o lease now) = (require_recovery s o lease now).1

  unfoldable pub after_calls :
      InMemoryIdempotencyStore R → List (Call R) → InMemoryIdempotencyStore R
  after_calls s [] = s
  after_calls s (c ∷ cs) = after_calls (after_call s c) cs

  -- The call does not end the lease `l` of the key `k` under the fingerprint `f`.
  abbrev pub IsForeign : Text → Text → ℕ → Call R → Type 0
  IsForeign k f l (claims o now) = Unit
  IsForeign k f l (completes o lease result now) =
      ¬ ((scoped_key o ≡ k) × (o.fingerprint ≡ f) × (lease ≡ l))
  IsForeign k f l (recovers o lease now) =
      ¬ ((scoped_key o ≡ k) × (o.fingerprint ≡ f) × (lease ≡ l))

  get-claim :
      (s : InMemoryIdempotencyStore R) (o : IdempotentOperation) (now : ℕ) (k f : Text) (l q : ℕ)
      → get k s.records ≡ some (pending f l q)
      → get k (claim s o now).1.records ≡ some (pending f l q)
  unfolding claim
  get-claim s o now k f l q h = ground (
    arith,
    text_eq_iff (scoped_key o) k,
    get-put k (scoped_key o) (pending o.fingerprint (s.lease_sequence + 1) o.retention_seconds)
        s.records,
    get-put k (scoped_key o) (pending o.fingerprint (s.lease_sequence + 1) o.retention_seconds)
        (delete (scoped_key o) s.records),
    get-delete k (scoped_key o) s.records,
  )

  get-complete :
      (s : InMemoryIdempotencyStore R) (o : IdempotentOperation) (lease : ℕ) (result : R) (now : ℕ)
      (k f : Text) (l q : ℕ)
      → get k s.records ≡ some (pending f l q)
      → ¬ ((scoped_key o ≡ k) × (o.fingerprint ≡ f) × (lease ≡ l))
      → get k (complete s o lease result now).1.records ≡ some (pending f l q)
  unfolding complete add_retention
  get-complete s o lease result now k f l q h n = ground (
    arith,
    text_eq_iff (scoped_key o) k,
    text_eq_iff f o.fingerprint,
    get-put k (scoped_key o)
        (completed o.fingerprint result (now + retention_of (get (scoped_key o) s.records) * 1000))
        s.records,
  )

  get-recover :
      (s : InMemoryIdempotencyStore R) (o : IdempotentOperation) (lease now : ℕ) (k f : Text)
      (l q : ℕ)
      → get k s.records ≡ some (pending f l q)
      → ¬ ((scoped_key o ≡ k) × (o.fingerprint ≡ f) × (lease ≡ l))
      → get k (require_recovery s o lease now).1.records ≡ some (pending f l q)
  unfolding require_recovery
  get-recover s o lease now k f l q h n = ground (
    arith,
    text_eq_iff (scoped_key o) k,
    text_eq_iff f o.fingerprint,
    get-put k (scoped_key o) (recovery o.fingerprint) s.records,
  )

  get-after_call :
      (s : InMemoryIdempotencyStore R) (c : Call R) (k f : Text) (l q : ℕ)
      → IsForeign k f l c
      → get k s.records ≡ some (pending f l q)
      → get k (after_call s c).records ≡ some (pending f l q)
  unfolding after_call
  get-after_call s (claims o now) k f l q n h = get-claim s o now k f l q h
  get-after_call s (completes o lease result now) k f l q n h =
      get-complete s o lease result now k f l q h n
  get-after_call s (recovers o lease now) k f l q n h = get-recover s o lease now k f l q h n

  get-after_calls :
      (s : InMemoryIdempotencyStore R) (cs : List (Call R)) (k f : Text) (l q : ℕ)
      → All (IsForeign k f l) cs
      → get k s.records ≡ some (pending f l q)
      → get k (after_calls s cs).records ≡ some (pending f l q)
  unfolding after_calls
  get-after_calls s [] k f l q n h = h
  get-after_calls s (c ∷ cs) k f l q n h =
      get-after_calls (after_call s c) cs k f l q n.1 (get-after_call s c k f l q n.0 h)

  claimed_pending :
      (s : InMemoryIdempotencyStore R) (o : IdempotentOperation) (now l : ℕ)
      → (claim s o now).0 ≡ claimed l
      → get (scoped_key o) (claim s o now).1.records
        ≡ some (pending o.fingerprint l o.retention_seconds)
  unfolding claim
  claimed_pending s o now l h = ground (
    arith,
    text_eq_refl (scoped_key o),
    get-put (scoped_key o) (scoped_key o)
        (pending o.fingerprint (s.lease_sequence + 1) o.retention_seconds) s.records,
    get-put (scoped_key o) (scoped_key o)
        (pending o.fingerprint (s.lease_sequence + 1) o.retention_seconds)
        (delete (scoped_key o) s.records),
  )

  claim_of_pending :
      (s : InMemoryIdempotencyStore R) (o : IdempotentOperation) (now : ℕ) (f : Text) (l q : ℕ)
      → get (scoped_key o) s.records ≡ some (pending f l q)
      → (claim s o now).0 ≡ (if text_eq f o.fingerprint then in_progress else conflict)
  unfolding claim
  claim_of_pending s o now f l q h = ground arith

  -- From the moment that a claim is granted a lease, and through any calls of any callers at any
  -- times that do not complete or recover that very lease, every claim of the same key is refused:
  -- as in progress under the same fingerprint, as a conflict under another.
  pub lease_excludes :
      (s : InMemoryIdempotencyStore R) (o p : IdempotentOperation) (now later l : ℕ)
      (cs : List (Call R))
      → (claim s o now).0 ≡ claimed l
      → All (IsForeign (scoped_key o) o.fingerprint l) cs
      → scoped_key p ≡ scoped_key o
      → (claim (after_calls (claim s o now).1 cs) p later).0
        ≡ (if text_eq o.fingerprint p.fingerprint then in_progress else conflict)
  lease_excludes s o p now later l cs granted foreign same =
      claim_of_pending (after_calls (claim s o now).1 cs) p later o.fingerprint l
        o.retention_seconds
        (subst
          (λ k.
            get k (after_calls (claim s o now).1 cs).records
            ≡ some (pending o.fingerprint l o.retention_seconds))
          (sym same)
          (get-after_calls (claim s o now).1 cs (scoped_key o) o.fingerprint l o.retention_seconds
            foreign (claimed_pending s o now l granted)))

  -- Every lease that is out was numbered by the sequence, and no two keys are under one lease.
  pub record HasUniqueLeases (s : InMemoryIdempotencyStore R) : Type 0 where
    pub numbered :
        (k f : Text) (l q : ℕ) → get k s.records ≡ some (pending f l q) → l ≤ s.lease_sequence
    pub unique :
        (k j f g : Text) (l q p : ℕ)
        → get k s.records ≡ some (pending f l q)
        → get j s.records ≡ some (pending g l p)
        → k ≡ j

  -- Where a lease that is out after a call comes from: it was out before, or the call made it.
  abbrev IsOld :
      InMemoryIdempotencyStore R → InMemoryIdempotencyStore R → Text → Text → ℕ → ℕ → Type 0
  IsOld s s' k f l q =
      (get k s.records ≡ some (pending f l q)) × (s.lease_sequence ≤ s'.lease_sequence)

  abbrev IsNew :
      InMemoryIdempotencyStore R → InMemoryIdempotencyStore R → Call R → Text → ℕ → Type 0
  IsNew s s' (claims o now) k l =
      (k ≡ scoped_key o) × (l ≡ s.lease_sequence + 1) × (s'.lease_sequence ≡ l)
  IsNew s s' _ k l = ⊥

  pending_origin :
      (s : InMemoryIdempotencyStore R) (c : Call R) (k f : Text) (l q : ℕ)
      → get k (after_call s c).records ≡ some (pending f l q)
      → IsOld s (after_call s c) k f l q ⊎ IsNew s (after_call s c) c k l
  unfolding after_call claim complete add_retention require_recovery
  pending_origin s (claims o now) k f l q h = ground (
    arith,
    text_eq_iff (scoped_key o) k,
    get-put k (scoped_key o) (pending o.fingerprint (s.lease_sequence + 1) o.retention_seconds)
        s.records,
    get-put k (scoped_key o) (pending o.fingerprint (s.lease_sequence + 1) o.retention_seconds)
        (delete (scoped_key o) s.records),
    get-delete k (scoped_key o) s.records,
  )
  pending_origin s (completes o lease result now) k f l q h = ground (
    arith,
    text_eq_iff (scoped_key o) k,
    get-put k (scoped_key o)
        (completed o.fingerprint result (now + retention_of (get (scoped_key o) s.records) * 1000))
        s.records,
  )
  pending_origin s (recovers o lease now) k f l q h = ground (
    arith,
    text_eq_iff (scoped_key o) k,
    get-put k (scoped_key o) (recovery o.fingerprint) s.records,
  )

  after_call-HasUniqueLeases :
      (s : InMemoryIdempotencyStore R) (c : Call R)
      → HasUniqueLeases s
      → HasUniqueLeases (after_call s c)
  after_call-HasUniqueLeases s c h = record {
    numbered = λ k f l q out.
        numbered_after c k f l q (pending_origin s c k f l q out) (h.numbered k f l q);
    unique = λ k j f g l q p out out'.
        unique_after c k j f g l q p (pending_origin s c k f l q out)
          (pending_origin s c j g l p out') (h.numbered k f l q) (h.numbered j g l p)
          (h.unique k j f g l q p);
  }
    where
      numbered_after :
          (c : Call R) (k f : Text) (l q : ℕ)
          → IsOld s (after_call s c) k f l q ⊎ IsNew s (after_call s c) c k l
          → (get k s.records ≡ some (pending f l q) → l ≤ s.lease_sequence)
          → l ≤ (after_call s c).lease_sequence
      numbered_after c k f l q (inl (out, grows)) before = omega (arith, before out)
      numbered_after (claims o now) k f l q (inr (same, is_new, ends)) before = omega arith
      numbered_after (completes o lease result now) k f l q (inr none_new) before = absurd none_new
      numbered_after (recovers o lease now) k f l q (inr none_new) before = absurd none_new

      unique_after :
          (c : Call R) (k j f g : Text) (l q p : ℕ)
          → IsOld s (after_call s c) k f l q ⊎ IsNew s (after_call s c) c k l
          → IsOld s (after_call s c) j g l p ⊎ IsNew s (after_call s c) c j l
          → (get k s.records ≡ some (pending f l q) → l ≤ s.lease_sequence)
          → (get j s.records ≡ some (pending g l p) → l ≤ s.lease_sequence)
          → (get k s.records ≡ some (pending f l q)
              → get j s.records ≡ some (pending g l p)
              → k ≡ j)
          → k ≡ j
      unique_after c k j f g l q p (inl a) (inl b) nk nj u = u a.0 b.0
      unique_after (claims o now) k j f g l q p (inl a) (inr b) nk nj u =
          absurd (omega (arith, nk a.0, b.1))
      unique_after (claims o now) k j f g l q p (inr a) (inl b) nk nj u =
          absurd (omega (arith, nj b.0, a.1))
      unique_after (claims o now) k j f g l q p (inr a) (inr b) nk nj u = a.0 ∙ sym b.0
      unique_after (completes o lease result now) k j f g l q p (inr a) b nk nj u = absurd a
      unique_after (recovers o lease now) k j f g l q p (inr a) b nk nj u = absurd a
      unique_after (completes o lease result now) k j f g l q p (inl a) (inr b) nk nj u = absurd b
      unique_after (recovers o lease now) k j f g l q p (inl a) (inr b) nk nj u = absurd b

  abbrev pub empty : InMemoryIdempotencyStore R
  empty = record { records = []; lease_sequence = 0 }

  empty-HasUniqueLeases : HasUniqueLeases empty
  unfolding get
  empty-HasUniqueLeases = record {
    numbered = λ k f l q h. ground arith;
    unique = λ k j f g l q p h h'. ground arith;
  }

  after_calls-HasUniqueLeases_from :
      (s : InMemoryIdempotencyStore R) (cs : List (Call R))
      → HasUniqueLeases s
      → HasUniqueLeases (after_calls s cs)
  unfolding after_calls
  after_calls-HasUniqueLeases_from s [] h = h
  after_calls-HasUniqueLeases_from s (c ∷ cs) h =
      after_calls-HasUniqueLeases_from (after_call s c) cs (after_call-HasUniqueLeases s c h)

  -- After any sequence of calls on a new store, two keys that are held under leases of one number
  -- are the same key.
  pub leases_unique :
      (cs : List (Call R)) (k j f g : Text) (l q p : ℕ)
      → get k (after_calls empty cs).records ≡ some (pending f l q)
      → get j (after_calls empty cs).records ≡ some (pending g l p)
      → k ≡ j
  leases_unique cs = (after_calls-HasUniqueLeases_from empty cs empty-HasUniqueLeases).unique
