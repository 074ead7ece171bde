-- ===== src/Adapters/Marketplace/UnitOfWork/Tests.antt =====
-- A unit of work whose first transaction meets a conflict.
use nitip_cuy.Prelude.{ℕ, ◌==◌, ◌≡◌, refl, if◌then◌else◌}
use nitip_cuy.Text.{lit, text_eq}
use nitip_cuy.Adapters.Marketplace.UnitOfWork.{
  Outcome, returned, failed, known_request, other, is_retryable_transaction_conflict, execute_from,
  execute,
}
use nitip_cuy.Adapters.Marketplace.UnitOfWork.Retries.{IsSettledBy, execute-IsSettledBy}

abbrev one_conflict : ℕ → Outcome ℕ
one_conflict attempt =
    if attempt == 1 then failed (known_request (lit "P2034") other) else returned 7

second_attempt_returns : execute one_conflict ≡ returned 7
unfolding execute_from is_retryable_transaction_conflict text_eq
second_attempt_returns = refl

execute-IsSettledBy_example : IsSettledBy one_conflict (execute one_conflict)
execute-IsSettledBy_example = execute-IsSettledBy one_conflict
