-- ===== src/Application/Idempotency/Valid.antt =====
-- What an operation that passes `validateOperation` looks like.
use nitip_cuy.Prelude.{◌≤◌, ◌≡◌, ◌↔◌, true, none, arith}
use nitip_cuy.Text.Chars.{
  is_alnum, is_safe_visible, is_lower, is_dotted_slug, is_lower_hex, matches, matches_exactly,
}
use nitip_cuy.Application.Idempotency.{IdempotentOperation, validate_operation}

pub record IsValidOperation (o : IdempotentOperation) : Type 0 where
  pub scope : matches is_alnum is_safe_visible 2 191 o.scope ≡ true
  pub operation : matches is_lower is_dotted_slug 2 63 o.operation ≡ true
  pub key : matches is_alnum is_safe_visible 7 127 o.key ≡ true
  pub fingerprint : matches_exactly is_lower_hex 64 o.fingerprint ≡ true
  pub at_least_a_minute : 60 ≤ o.retention_seconds
  pub at_most_a_year : o.retention_seconds ≤ 31_536_000

pub validate_operation_iff :
    (o : IdempotentOperation) → (validate_operation o ≡ none) ↔ IsValidOperation o
unfolding validate_operation
validate_operation_iff o = ground arith
