-- ===== src/Adapters/Marketplace/UnitOfWork/Retries.antt =====
-- The retry loop of the unit of work settles within its three attempts.
use nitip_cuy.Prelude.{ℕ, zero, suc, ◌+◌, ◌≤◌, ◌≡◌, refl, Bool, true, false, ◌||◌, not, ◌==◌, arith}
use nitip_cuy.Adapters.Marketplace.UnitOfWork.{
  Outcome, returned, failed, TransactionError, is_retryable_transaction_conflict, execute_from,
  execute,
}

-- A conflict that the loop retries.
abbrev is_conflict : {A : Type 0} → Outcome A → Bool
is_conflict (returned answer) = false
is_conflict (failed error) = is_retryable_transaction_conflict error

-- The attempts that are made: the first, and one after each conflict.
pub data IsMade {A : Type 0} (runs : ℕ → Outcome A) : ℕ → Type 0 where
  first : IsMade runs 1
  again :
      (attempt : ℕ)
      → IsMade runs attempt
      → is_conflict (runs attempt) ≡ true
      → IsMade runs (attempt + 1)

-- The attempt whose outcome is the loop's: it was made, and is the last one or no conflict.
pub record IsSettledBy {A : Type 0} (runs : ℕ → Outcome A) (out : Outcome A) : Type 0 where
  pub attempt : ℕ
  pub in_budget : attempt ≤ 3
  pub made : IsMade runs attempt
  pub outcome : out ≡ runs attempt
  pub settled : ((attempt == 3) || not (is_conflict (runs attempt))) ≡ true

-- An attempt settles the loop, or what follows it does.
settled_by :
    {A : Type 0} (runs : ℕ → Outcome A) (left attempt : ℕ)
    → attempt ≤ 3
    → IsMade runs attempt
    → ((attempt == 3) ≡ false
        → is_conflict (runs attempt) ≡ true
        → IsSettledBy runs (execute_from runs left (attempt + 1)))
    → IsSettledBy runs (execute_from runs (suc left) attempt)
unfolding execute_from
settled_by {A} runs left attempt budget made next = go (runs attempt) refl
  where
    stop :
        ((attempt == 3) || not (is_conflict (runs attempt))) ≡ true
        → IsSettledBy runs (runs attempt)
    stop done = record {
      attempt = attempt;
      in_budget = budget;
      made = made;
      outcome = refl;
      settled = done;
    }

    by_outcome :
        execute_from runs (suc left) attempt ≡ runs attempt
        → ((attempt == 3) || not (is_conflict (runs attempt))) ≡ true
        → IsSettledBy runs (execute_from runs (suc left) attempt)
    by_outcome same done = rw same (stop done)

    by_rest :
        execute_from runs (suc left) attempt ≡ execute_from runs left (attempt + 1)
        → (attempt == 3) ≡ false
        → is_conflict (runs attempt) ≡ true
        → IsSettledBy runs (execute_from runs (suc left) attempt)
    by_rest same more conflict = rw same (next more conflict)

    after :
        (error : TransactionError) (third retried : Bool)
        → runs attempt ≡ failed error
        → (attempt == 3) ≡ third
        → is_retryable_transaction_conflict error ≡ retried
        → IsSettledBy runs (execute_from runs (suc left) attempt)
    after error true retried e at_third q = by_outcome (ground arith) (ground arith)
    after error false true e more q = by_rest (ground arith) more (ground arith)
    after error false false e more q = by_outcome (ground arith) (ground arith)

    go :
        (outcome : Outcome A)
        → runs attempt ≡ outcome
        → IsSettledBy runs (execute_from runs (suc left) attempt)
    go (returned answer) e = by_outcome (ground arith) (ground arith)
    go (failed error) e =
        after error (attempt == 3) (is_retryable_transaction_conflict error) e refl refl

settled_from :
    {A : Type 0} (runs : ℕ → Outcome A) (left attempt : ℕ)
    → attempt + left ≡ 3
    → IsMade runs attempt
    → IsSettledBy runs (execute_from runs (suc left) attempt)
settled_from runs zero attempt total made =
    settled_by runs zero attempt (omega arith) made λ more conflict. absurd (ground arith)
settled_from runs (suc n) attempt total made =
    settled_by runs (suc n) attempt (omega arith) made
      λ more conflict. settled_from runs n (attempt + 1) (omega arith) (again attempt made conflict)

-- The loop ends within three attempts: its outcome is that of an attempt that was made, each before
-- it having ended in a conflict, and the attempt is the third or ended in no conflict.
pub execute-IsSettledBy : {A : Type 0} (runs : ℕ → Outcome A) → IsSettledBy runs (execute runs)
execute-IsSettledBy runs = settled_from runs 2 1 refl first
