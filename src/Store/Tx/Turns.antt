-- ===== src/Store/Tx/Turns.antt =====
-- What an action makes of a precondition: some step turns `P` into `Q`, the steps before it keep `P`
-- and the steps after it keep `Q`.
use mathlib.Core.Path.{subst}
use grok_bot_v.Prelude.{◌≡◌, Bool, update_where}
use grok_bot_v.Store.Schema.{Db}
use grok_bot_v.Store.Tables.{Table}
use grok_bot_v.Store.Tx.{Tx, ◌>>=◌, ◌>>◌, ok, update_one}
use grok_bot_v.Store.Tx.Keeps.{Keeps, bind-eq-ok, update_one-eq-ok}

-- If `m` returns from a database in which `P` holds, it leaves one in which `Q` holds.
pub record Turns {A : Type 0} (P Q : Db → Type 0) (m : Tx A) : Type 0 where
  pub at : (db : Db) {a : A} {db' : Db} → P db → m db ≡ ok (a, db') → Q db'

module _ {P Q : Db → Type 0} where
  pub Turns-bind_last :
      {A B : Type 0} (m : Tx A) (f : A → Tx B)
      → Keeps P m
      → ((a : A) → Turns P Q (f a))
      → Turns P Q (m >>= f)
  unfolding ◌>>=◌
  Turns-bind_last m f km kf = record {
    at = λ db h e.
        let (a, db₁, first, rest) = bind-eq-ok (m db) f e in (kf a).at db₁ (km.at db h first) rest;
  }

  pub Turns-bind_first :
      {A B : Type 0} (m : Tx A) (f : A → Tx B)
      → Turns P Q m
      → ((a : A) → Keeps Q (f a))
      → Turns P Q (m >>= f)
  unfolding ◌>>=◌
  Turns-bind_first m f km kf = record {
    at = λ db h e.
        let (a, db₁, first, rest) = bind-eq-ok (m db) f e in (kf a).at db₁ (km.at db h first) rest;
  }

  pub Turns-then_last :
      {A B : Type 0} (m : Tx A) (k : Tx B) → Keeps P m → Turns P Q k → Turns P Q (m >> k)
  unfolding ◌>>◌
  Turns-then_last m k km kk = Turns-bind_last m (λ _. k) km (λ _. kk)

  pub Turns-then_first :
      {A B : Type 0} (m : Tx A) (k : Tx B) → Turns P Q m → Keeps Q k → Turns P Q (m >> k)
  unfolding ◌>>◌
  Turns-then_first m k km kk = Turns-bind_first m (λ _. k) km (λ _. kk)

  pub Turns-update_one :
      {A : Type 0} (t : Table A) (p : A → Bool) (f : A → A)
      → ((db : Db) → P db → Q (t.put (update_where p f (t.rows db)) db))
      → Turns P Q (update_one t p f)
  Turns-update_one t p f kf = record {
    at =
        λ db h e. let (row, found, _, same) = update_one-eq-ok t p f db e in subst Q same (kf db h);
  }

pub ruleset turns_last = (Turns-bind_last, Turns-then_last)
