-- ===== src/Store/Tx/Keeps.antt =====
-- Invariants of transactions, one rule for each way to build one.
use mathlib.Core.Path.{subst}
use grok_bot_v.Prelude.{
  ◌≡◌, refl, Bool, true, false, Option, none, some, ◌∷◌, inl, inr, ◌⊎◌, arith, Option-cases, any,
  delete_where, find_where, update_where, if◌then◌else◌,
}
use grok_bot_v.Store.Schema.{Db}
use grok_bot_v.Store.Tables.{Table}
use grok_bot_v.Store.Tx.{
  Tx, ◌>>=◌, ◌>>◌, pure, throw, Result, ok, err, DbError, find_first, find_many, update_many,
  update_one, delete_many, create, or_null, transaction, continue_with,
}

-- If `m` returns, it leaves a database in which `P` holds.
pub record Keeps {A : Type 0} (P : Db → Type 0) (m : Tx A) : Type 0 where
  pub at : (db : Db) {a : A} {db' : Db} → P db → m db ≡ ok (a, db') → P db'

pub Result-cases :
    {A : Type 0} (r : Result (A × Db))
    → ((a : A) × (db : Db) × (r ≡ ok (a, db))) ⊎ ((x : DbError) × (r ≡ err x))
Result-cases (ok (a, db)) = inl (a, db, refl)
Result-cases (err x) = inr (x, refl)

-- Inversion of a bind that returns.
pub bind-eq-ok :
    {A B : Type 0} (r : Result (A × Db)) (f : A → Tx B) {b : B} {db' : Db}
    → continue_with r f ≡ ok (b, db')
    → (a : A) × (db₁ : Db) × (r ≡ ok (a, db₁)) × (f a db₁ ≡ ok (b, db'))
unfolding continue_with
bind-eq-ok (ok (a, db₁)) f e = (a, db₁, refl, e)
bind-eq-ok (err x) f e = cc

pub ok-injective :
    {A : Type 0} {a b : A} {x y : Db}
    → ◌≡◌ {A = Result (A × Db)} (ok (a, x)) (ok (b, y))
    → (a ≡ b) × (x ≡ y)
ok-injective e = (cc, cc)

module _ {A : Type 0} (t : Table A) where
  pub update_one-eq-ok :
      (p : A → Bool) (f : A → A) (db : Db) {a : A} {db' : Db}
      → update_one t p f db ≡ ok (a, db')
      → (row : A) × (find_where p (t.rows db) ≡ some row)
        × (a ≡ f row)
        × (t.put (update_where p f (t.rows db)) db ≡ db')
  unfolding update_one
  update_one-eq-ok p f db e = elim (Option-cases (find_where p (t.rows db))) [
    | inl missing ↦ ground arith
    | inr (row, found) ↦ (row, found, ground arith, ground arith)
  ]

  pub create-eq-ok :
      (clash : A → Bool) (row : A) (db : Db) {a : A} {db' : Db}
      → create t clash row db ≡ ok (a, db')
      → (any clash (t.rows db) ≡ false) × (a ≡ row) × (t.put (row ∷ t.rows db) db ≡ db')
  unfolding create
  create-eq-ok clash row db e = ground arith

-- A transaction keeps what its action keeps: a throw leaves the old database.
pub Keeps-transaction :
    {A : Type 0} {P : Db → Type 0} (m : Tx A) (db : Db) → Keeps P m → P db → P (transaction m db).1
unfolding transaction
Keeps-transaction {P} m db km h = elim (Result-cases (m db)) [
  | inl (a, db', e) ↦ rw (e, transaction) (km.at db h e)
  | inr (x, e) ↦ rw (e, transaction) h
]

module _ {P : Db → Type 0} where
  pub Keeps-pure : {A : Type 0} (a : A) → Keeps P (pure a)
  unfolding pure
  Keeps-pure a = record { at = λ db h e. subst P (ok-injective e).1 h }

  pub Keeps-throw : {A : Type 0} (x : DbError) → Keeps P (throw {A = A} x)
  unfolding throw
  Keeps-throw x = record { at = λ db h e. cc }

  pub Keeps-bind :
      {A B : Type 0} (m : Tx A) (f : A → Tx B)
      → Keeps P m
      → ((a : A) → Keeps P (f a))
      → Keeps P (m >>= f)
  unfolding ◌>>=◌
  Keeps-bind m f km kf = record {
    at = λ db h e.
        let (a, db₁, first, rest) = bind-eq-ok (m db) f e in (kf a).at db₁ (km.at db h first) rest;
  }

  pub Keeps-then : {A B : Type 0} (m : Tx A) (k : Tx B) → Keeps P m → Keeps P k → Keeps P (m >> k)
  unfolding ◌>>◌
  Keeps-then m k km kk = Keeps-bind m (λ _. k) km (λ _. kk)

  pub Keeps-if :
      {A : Type 0} (b : Bool) (m n : Tx A) → Keeps P m → Keeps P n → Keeps P (if b then m else n)
  Keeps-if true m n km kn = km
  Keeps-if false m n km kn = kn

  pub Keeps-or_null :
      {A B : Type 0} (o : Option A) (k : A → Tx (Option B))
      → ((a : A) → Keeps P (k a))
      → Keeps P (or_null o k)
  Keeps-or_null none k kk = Keeps-pure none
  Keeps-or_null (some a) k kk = kk a

module _ {P : Db → Type 0} {A : Type 0} (t : Table A) where
  pub Keeps-find_first : (p : A → Bool) → Keeps P (find_first t p)
  unfolding find_first
  Keeps-find_first p = record { at = λ db h e. subst P (ok-injective e).1 h }

  pub Keeps-find_many : (p : A → Bool) → Keeps P (find_many t p)
  unfolding find_many
  Keeps-find_many p = record { at = λ db h e. subst P (ok-injective e).1 h }

  pub Keeps-update_many :
      (p : A → Bool) (f : A → A)
      → ((db : Db) → P db → P (t.put (update_where p f (t.rows db)) db))
      → Keeps P (update_many t p f)
  unfolding update_many
  Keeps-update_many p f kf = record { at = λ db h e. subst P (ok-injective e).1 (kf db h) }

  pub Keeps-delete_many :
      (p : A → Bool)
      → ((db : Db) → P db → P (t.put (delete_where p (t.rows db)) db))
      → Keeps P (delete_many t p)
  unfolding delete_many
  Keeps-delete_many p kf = record { at = λ db h e. subst P (ok-injective e).1 (kf db h) }

  pub Keeps-update_one :
      (p : A → Bool) (f : A → A)
      → ((db : Db) → P db → P (t.put (update_where p f (t.rows db)) db))
      → Keeps P (update_one t p f)
  Keeps-update_one p f kf = record {
    at =
        λ db h e. let (row, found, _, same) = update_one-eq-ok t p f db e in subst P same (kf db h);
  }

  pub Keeps-create :
      (clash : A → Bool) (row : A)
      → ((db : Db) → any clash (t.rows db) ≡ false → P db → P (t.put (row ∷ t.rows db) db))
      → Keeps P (create t clash row)
  Keeps-create clash row kf = record {
    at = λ db h e.
        let (fresh, _, same) = create-eq-ok t clash row db e in subst P same (kf db fresh h);
  }

pub ruleset keeps_rules = (
  Keeps-pure, Keeps-throw, Keeps-bind, Keeps-then, Keeps-if, Keeps-or_null, Keeps-find_first,
  Keeps-find_many, Keeps-update_many, Keeps-delete_many, Keeps-update_one,
)
