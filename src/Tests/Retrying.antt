-- ===== src/Tests/Retrying.antt =====
-- The theorem on the retry of transactions, at an operation that meets one conflict.
use grok_bot_v.Prelude.{ℕ, zero, suc, ◌+◌, ◌≤◌, ◌≡◌, ◌⊎◌, refl, true, false, none, some}
use grok_bot_v.TransactionRetry.{Outcome, returned, thrown, with_transaction_retry}
use grok_bot_v.TransactionRetry.Attempts.{
  conflicted, attempt, conflicts, with_transaction_retry_lem,
}

-- The state counts the attempts.
abbrev settles_later : ℕ → Outcome ℕ × ℕ
settles_later zero = (thrown (record { code = some "P2034"; original_code = none }), 1)
settles_later (suc n) = (returned 7, suc n + 1)

second_attempt : with_transaction_retry settles_later 0 ≡ some (returned 7, 2)
unfolding with_transaction_retry
second_attempt = refl

with_transaction_retry_lem_example :
    (k : ℕ) × (k ≤ 2)
    × (with_transaction_retry settles_later 0 ≡ some (attempt settles_later k 0))
    × (conflicts settles_later k 0 ≡ true)
    × ((conflicted (attempt settles_later k 0).0 ≡ false) ⊎ (k ≡ 2))
with_transaction_retry_lem_example = with_transaction_retry_lem settles_later 0
