-- ===== src/Adapters/Marketplace/UnitOfWork.antt =====
-- `PrismaMarketplaceUnitOfWork` of packages/adapters/src/prisma-marketplace.ts: the transaction is
-- run again, at most twice, where the database reports a conflict with another transaction.
pub mod Retries
mod Tests
use nitip_cuy.Prelude.{
  ℕ, zero, suc, ◌+◌, Bool, true, false, ◌&&◌, ◌||◌, not, ◌==◌, String, if◌then◌else◌,
}
use nitip_cuy.Text.{Text, lit, text_eq}
use nitip_cuy.Failure.{Failure, plain, fixed}

-- A value of type `unknown`: a text, an object with what `Reflect.get` finds in it, or another.
pub data Unknown : Type 0 where
  text : Text → Unknown
  object : (Text → Unknown) → Unknown
  other : Unknown

-- What a transaction may throw: an error of the database client, with its code and its `meta`, or
-- an error of the work in it.
pub data TransactionError : Type 0 where
  known_request : Text → Unknown → TransactionError
  thrown : Failure → TransactionError

-- What a call of `$transaction` does.
pub data Outcome (A : Type 0) : Type 0 where
  returned : A → Outcome A
  failed : TransactionError → Outcome A

-- `Reflect.get(value, name)`, where it is looked up only in an object
abbrev member : Text → Unknown → Unknown
member name (object members) = members name
member name _ = other

-- `value === expected`
abbrev is_text : String → Unknown → Bool
is_text expected (text s) = text_eq s (lit expected)
is_text expected _ = false

unfoldable pub is_raw_transaction_write_conflict : Unknown → Bool
is_raw_transaction_write_conflict meta =
    let cause = member (lit "cause") (member (lit "driverAdapterError") meta) in
    is_text "TransactionWriteConflict" (member (lit "kind") cause)
    && is_text "40001" (member (lit "originalCode") cause)

unfoldable pub is_retryable_transaction_conflict : TransactionError → Bool
unfolding is_raw_transaction_write_conflict
is_retryable_transaction_conflict (thrown failure) = false
is_retryable_transaction_conflict (known_request code meta) =
    text_eq code (lit "P2002")
    || text_eq code (lit "P2034")
    || (text_eq code (lit "P2010") && is_raw_transaction_write_conflict meta)

-- The loop from an attempt on, with how many attempts are left; `runs` is what each call does.
unfoldable pub execute_from : {A : Type 0} → (ℕ → Outcome A) → ℕ → ℕ → Outcome A
execute_from runs zero attempt =
    failed (thrown (plain (fixed "Transaction retry budget was exhausted.")))
execute_from runs (suc left) attempt =
    let rest = execute_from runs left (attempt + 1) in
    elim (runs attempt) [
      | returned answer ↦ returned answer
      | failed error ↦
          if (attempt == 3) || not (is_retryable_transaction_conflict error)
          then failed error
          else rest
    ]

-- `execute`
abbrev pub execute : {A : Type 0} → (ℕ → Outcome A) → Outcome A
execute runs = execute_from runs 3 1
