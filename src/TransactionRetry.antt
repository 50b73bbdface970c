-- ===== src/TransactionRetry.antt =====
-- packages/db/src/transaction-retry.ts: an operation on the database that met a conflict with another
-- transaction is tried again.
pub mod Attempts
use grok_bot_v.Prelude.{
  ℕ, zero, suc, ◌+◌, Bool, true, false, ◌||◌, String, Option, none, some, if◌then◌else◌, leb, not,
  str_eq,
}

abbrev pub max_transaction_attempts : ℕ
max_transaction_attempts = 3

-- What the retry reads of an error: its code, and the code that the database itself gave.
pub record DatabaseError : Type 0 where
  pub code : Option String
  pub original_code : Option String

abbrev pub has_code : Option String → String → Bool
has_code none code = false
has_code (some c) code = str_eq c code

abbrev pub retryable_database_code : Option String → Bool
retryable_database_code code = has_code code "40001" || has_code code "40P01"

-- An error without a code is none of Prisma's.
abbrev pub is_conflict : Option String → Option String → Bool
is_conflict none original_code = false
is_conflict (some code) original_code = str_eq code "P2034" || retryable_database_code original_code

abbrev pub is_retryable_transaction_conflict : DatabaseError → Bool
is_retryable_transaction_conflict e = is_conflict e.code e.original_code

pub data Outcome (A : Type 0) : Type 0 where
  returned : A → Outcome A
  thrown : DatabaseError → Outcome A

module _ {A S : Type 0} where
  -- After an attempt: what it gave, or else the rest of the loop.
  abbrev pub settle : ℕ → Outcome A → S → Option (Outcome A × S) → Option (Outcome A × S)
  settle attempt (returned a) s rest = some (returned a, s)
  settle attempt (thrown e) s rest =
      if not (is_retryable_transaction_conflict e) || leb max_transaction_attempts attempt
      then some (thrown e, s)
      else rest

  module _ (operation : S → Outcome A × S) where
    -- The loop from an attempt on, with fuel; none says that the fuel ran out.
    unfoldable pub attempts_from : ℕ → ℕ → S → Option (Outcome A × S)
    attempts_from zero attempt s = none
    attempts_from (suc fuel) attempt s =
        let ran = operation s in settle attempt ran.0 ran.1 (attempts_from fuel (attempt + 1) ran.1)

    unfoldable pub with_transaction_retry : S → Option (Outcome A × S)
    unfolding attempts_from
    with_transaction_retry s = attempts_from max_transaction_attempts 1 s
