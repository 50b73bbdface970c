-- ===== src/Store/Tx/Makes.antt =====
-- What holds after an action whatever held before it: some step makes it true, and the rest keeps it.
use mathlib.Core.Path.{subst}
use grok_bot_v.Prelude.{◌≡◌, Bool, delete_where}
use grok_bot_v.Store.Schema.{Db}
use grok_bot_v.Store.Tables.{Table}
use grok_bot_v.Store.Tx.{Tx, ◌>>=◌, ◌>>◌, ok, delete_many}
use grok_bot_v.Store.Tx.Keeps.{Keeps, bind-eq-ok, ok-injective}

-- If `m` returns, it leaves a database in which `P` holds.
pub record Makes {A : Type 0} (P : Db → Type 0) (m : Tx A) : Type 0 where
  pub at : (db : Db) {a : A} {db' : Db} → m db ≡ ok (a, db') → P db'

module _ {P : Db → Type 0} where
  pub Makes-bind_last :
      {A B : Type 0} (m : Tx A) (f : A → Tx B) → ((a : A) → Makes P (f a)) → Makes P (m >>= f)
  unfolding ◌>>=◌
  Makes-bind_last m f kf = record {
    at = λ db e. let (a, db₁, _, rest) = bind-eq-ok (m db) f e in (kf a).at db₁ rest;
  }

  pub Makes-bind_first :
      {A B : Type 0} (m : Tx A) (f : A → Tx B)
      → Makes P m
      → ((a : A) → Keeps P (f a))
      → Makes P (m >>= f)
  unfolding ◌>>=◌
  Makes-bind_first m f km kf = record {
    at = λ db e.
        let (a, db₁, first, rest) = bind-eq-ok (m db) f e in (kf a).at db₁ (km.at db first) rest;
  }

  pub Makes-then_last : {A B : Type 0} (m : Tx A) (k : Tx B) → Makes P k → Makes P (m >> k)
  unfolding ◌>>◌
  Makes-then_last m k kk = Makes-bind_last m (λ _. k) (λ _. kk)

  pub Makes-then_first :
      {A B : Type 0} (m : Tx A) (k : Tx B) → Makes P m → Keeps P k → Makes P (m >> k)
  unfolding ◌>>◌
  Makes-then_first m k km kk = Makes-bind_first m (λ _. k) km (λ _. kk)

  pub Makes-delete_many :
      {A : Type 0} (t : Table A) (p : A → Bool)
      → ((db : Db) → P (t.put (delete_where p (t.rows db)) db))
      → Makes P (delete_many t p)
  unfolding delete_many
  Makes-delete_many t p h = record { at = λ db e. subst P (ok-injective e).1 (h db) }

pub ruleset makes_last = (Makes-bind_last, Makes-then_last)
