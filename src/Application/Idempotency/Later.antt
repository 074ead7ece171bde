-- ===== src/Application/Idempotency/Later.antt =====
-- What other calls of a store do to a key that is settled: nothing. The calls are those that
-- `executeIdempotently` makes of an `IdempotencyStorePort`, for any operations that are valid.
use nitip_cuy.Prelude.{
  ℕ, ◌≡◌, ◌≢◌, ◌∙◌, ap, sym, false, List, [], ◌∷◌, All, Bool-cases, ◌⊎◌, inl, inr, none, arith,
}
use nitip_cuy.Text.{Text, text_eq, text_eq_iff}
use nitip_cuy.Application.Idempotency.{
  IdempotentOperation, IdempotencyStorePort, validate_operation,
}
use nitip_cuy.Application.Idempotency.Contract.{
  KeyState, free, SameKey, is_held_under, IsIdempotencyStore,
}

-- A call of a store, with the time at which it runs.
pub data PortCall (R : Type 0) : Type 0 where
  claiming : IdempotentOperation → ℕ → PortCall R
  -- the operation, the lease and the result
  completing : IdempotentOperation → ℕ → R → ℕ → PortCall R
  recovering : IdempotentOperation → ℕ → ℕ → PortCall R

abbrev pub operation_of : {R : Type 0} → PortCall R → IdempotentOperation
operation_of (claiming o now) = o
operation_of (completing o lease result now) = o
operation_of (recovering o lease now) = o

abbrev pub time_of : {R : Type 0} → PortCall R → ℕ
time_of (claiming o now) = now
time_of (completing o lease result now) = now
time_of (recovering o lease now) = now

-- The call is for a valid operation, at a time that is allowed.
abbrev pub IsAllowed : {R : Type 0} → (ℕ → Type 0) → PortCall R → Type 0
IsAllowed During c = (validate_operation (operation_of c) ≡ none) × During (time_of c)

SameKey-cases : (o p : IdempotentOperation) → SameKey o p ⊎ (¬ SameKey o p)
SameKey-cases o p = elim (Bool-cases (text_eq o.scope p.scope)) [
  | inr different ↦ inr (λ k. differ o.scope p.scope different k.scope)
  | inl scope ↦ elim (Bool-cases (text_eq o.operation p.operation)) [
    | inr different ↦ inr (λ k. differ o.operation p.operation different k.operation)
    | inl operation ↦ elim (Bool-cases (text_eq o.key p.key)) [
      | inr different ↦ inr (λ k. differ o.key p.key different k.key)
      | inl key ↦ inl (record {
        scope = (text_eq_iff o.scope p.scope).0 scope;
        operation = (text_eq_iff o.operation p.operation).0 operation;
        key = (text_eq_iff o.key p.key).0 key;
      })
    ]
  ]
]
  where
    differ : (s t : Text) → text_eq s t ≡ false → s ≡ t → ⊥
    differ s t h e = ground (arith, text_eq_iff s t)

module _ {R : Type 0} (port : IdempotencyStorePort R) where
  open port use {Store, claim, complete, require_recovery}

  abbrev pub after_port_call : Store → PortCall R → Store
  after_port_call s (claiming o now) = (claim s o now).1
  after_port_call s (completing o lease result now) = (complete s o lease result now).1
  after_port_call s (recovering o lease now) = (require_recovery s o lease now).1

  unfoldable pub after_port_calls : Store → List (PortCall R) → Store
  after_port_calls s [] = s
  after_port_calls s (c ∷ calls) = after_port_calls (after_port_call s c) calls

module _ {R : Type 0} (port : IdempotencyStorePort R)
    (view : port.Store → IdempotentOperation → ℕ → KeyState R)
    (law : IsIdempotencyStore port view) where
  open port use {Store, claim}
  open law use {
    view_key, claim_taken, complete_unheld, recovery_unheld, claim_other, complete_other,
    recovery_other,
  }

  -- A key that is neither free nor held, at every time that is allowed.
  pub record IsSettled (During : ℕ → Type 0) (k : KeyState R) (o : IdempotentOperation) (s : Store)
      : Type 0 where
    pub not_free : k ≢ free
    pub not_held : (f : Text) (lease : ℕ) → is_held_under k f lease ≡ false
    pub state : (t : ℕ) → During t → view s o t ≡ k

  kept_call :
      (During : ℕ → Type 0) (k : KeyState R) (o : IdempotentOperation) (s : Store) (c : PortCall R)
      → validate_operation o ≡ none
      → IsAllowed During c
      → IsSettled During k o s
      → (SameKey (operation_of c) o ⊎ (¬ SameKey (operation_of c) o))
      → (t : ℕ) → During t
      → view (after_port_call port s c) o t ≡ k
  kept_call During k o s (claiming p now) valid allowed settled (inl same) t during =
      let here : view s p now ≡ k = view_key s p o now same ∙ settled.state now allowed.1 in
      ap (λ answered. view answered.1 o t)
        (claim_taken s p now (λ e. settled.not_free (sym here ∙ e)))
      ∙ settled.state t during
  kept_call During k o s (completing p lease result now) valid allowed settled (inl same) t during =
      let here : view s p now ≡ k = view_key s p o now same ∙ settled.state now allowed.1 in
      ap (λ x. view x o t)
        (complete_unheld s p lease result now (rw here (settled.not_held p.fingerprint lease)))
      ∙ settled.state t during
  kept_call During k o s (recovering p lease now) valid allowed settled (inl same) t during =
      let here : view s p now ≡ k = view_key s p o now same ∙ settled.state now allowed.1 in
      ap (λ x. view x o t)
        (recovery_unheld s p lease now (rw here (settled.not_held p.fingerprint lease)))
      ∙ settled.state t during
  kept_call During k o s (claiming p now) valid allowed settled (inr apart) t during =
      claim_other s p o now (record { valid = allowed.0; other_valid = valid; apart = apart }) t
      ∙ settled.state t during
  kept_call During k o s (completing p lease result now) valid allowed settled (inr apart) t
        during =
      complete_other s p o lease result now
        (record { valid = allowed.0; other_valid = valid; apart = apart }) t
      ∙ settled.state t during
  kept_call During k o s (recovering p lease now) valid allowed settled (inr apart) t during =
      recovery_other s p o lease now
        (record { valid = allowed.0; other_valid = valid; apart = apart }) t
      ∙ settled.state t during

  -- A settled key stays settled, whatever calls are allowed.
  pub IsSettled-kept :
      (During : ℕ → Type 0) (k : KeyState R) (o : IdempotentOperation) (s : Store)
      (calls : List (PortCall R))
      → validate_operation o ≡ none
      → All (IsAllowed During) calls
      → IsSettled During k o s
      → IsSettled During k o (after_port_calls port s calls)
  unfolding after_port_calls
  IsSettled-kept During k o s [] valid allowed settled = settled
  IsSettled-kept During k o s (c ∷ calls) valid allowed settled =
      IsSettled-kept During k o (after_port_call port s c) calls valid allowed.1 (record {
        not_free = settled.not_free;
        not_held = settled.not_held;
        state = kept_call During k o s c valid allowed.0 settled (SameKey-cases (operation_of c) o);
      })
