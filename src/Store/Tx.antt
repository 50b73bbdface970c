-- ===== src/Store/Tx.antt =====
-- Transactions: actions on the database that return a result or throw. A throw rolls back, so an
-- action that throws has no database to return. The actions on one table are those of the database
-- client: `findFirst`, `findMany`, `updateMany`, `update`, `deleteMany` and `create`.
pub mod Keeps
pub mod Returns
pub mod Makes
pub mod Turns
use grok_bot_v.Prelude.{
  ℕ, Bool, Option, none, some, List, ◌∷◌, if◌then◌else◌, any, keep, delete_where, count_where,
  find_where, update_where,
}
use grok_bot_v.Store.Schema.{Db}
use grok_bot_v.Store.Tables.{Table}

pub data DbError : Type 0 where
  record_not_found unique_violation run_history_write attempt_unavailable task_unavailable : DbError
  computer_busy bot_without_computer illegal_transition : DbError

pub data Result (A : Type 0) : Type 0 where
  ok : A → Result A
  err : DbError → Result A

abbrev pub Tx : Type 0 → Type 0
Tx A = Db → Result (A × Db)

unfoldable pub continue_with : {A B : Type 0} → Result (A × Db) → (A → Tx B) → Result (B × Db)
continue_with (ok (a, db)) f = f a db
continue_with (err e) f = err e

infixl 5 ◌>>=◌ ◌>>◌
unfoldable pub ◌>>=◌ : {A B : Type 0} → Tx A → (A → Tx B) → Tx B
unfolding continue_with
◌>>=◌ m f db = continue_with (m db) f

unfoldable pub ◌>>◌ : {A B : Type 0} → Tx A → Tx B → Tx B
unfolding ◌>>=◌
m >> k = m >>= λ _. k

unfoldable pub pure : {A : Type 0} → A → Tx A
pure a db = ok (a, db)

unfoldable pub throw : {A : Type 0} → DbError → Tx A
throw e db = err e

-- `if (!x) return null;` of a transaction's body
abbrev pub or_null : {A B : Type 0} → Option A → (A → Tx (Option B)) → Tx (Option B)
or_null none k = pure none
or_null (some a) k = k a

-- `if (!test) return null;`
abbrev pub null_unless : {B : Type 0} → Bool → Tx (Option B) → Tx (Option B)
null_unless b k = if b then k else pure none

module _ {A : Type 0} (t : Table A) where
  unfoldable pub find_first : (A → Bool) → Tx (Option A)
  find_first p db = ok (find_where p (t.rows db), db)

  unfoldable pub find_many : (A → Bool) → Tx (List A)
  find_many p db = ok (keep p (t.rows db), db)

  -- The number of rows that the update met.
  unfoldable pub update_many : (A → Bool) → (A → A) → Tx ℕ
  update_many p f db = ok (count_where p (t.rows db), t.put (update_where p f (t.rows db)) db)

  unfoldable pub delete_many : (A → Bool) → Tx (Unit {0})
  delete_many p db = ok (tt, t.put (delete_where p (t.rows db)) db)

  -- The update of the row that a unique filter names, which must exist; the result is the new row.
  unfoldable pub update_one : (A → Bool) → (A → A) → Tx A
  update_one p f db = elim (find_where p (t.rows db)) [
    | none ↦ err record_not_found
    | some row ↦ ok (f row, t.put (update_where p f (t.rows db)) db)
  ]

  -- A new row, unless a row is there that a unique index does not let it stand beside.
  unfoldable pub create : (A → Bool) → A → Tx A
  create clash row db =
      if any clash (t.rows db) then err unique_violation else ok (row, t.put (row ∷ t.rows db) db)

-- `$transaction`: the database is the new one if the action returns, and the old one if it throws.
unfoldable pub transaction : {A : Type 0} → Tx A → Db → Result A × Db
transaction m db = elim (m db) [ ok (a, db') ↦ (ok a, db') | err e ↦ (err e, db) ]
