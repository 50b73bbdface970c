-- ===== src/Store/Tx/Returns.antt =====
-- What the result of a transaction's action satisfies, one rule for each way to build the action.
use mathlib.Core.Path.{subst}
use grok_bot_v.Prelude.{◌≡◌, Bool, true, false, if◌then◌else◌}
use grok_bot_v.Store.Schema.{Db}
use grok_bot_v.Store.Tx.{Tx, ◌>>=◌, ◌>>◌, pure, throw, ok, DbError}
use grok_bot_v.Store.Tx.Keeps.{bind-eq-ok, ok-injective}

-- If `m` returns, its result satisfies `Q`.
pub record Returns {A : Type 0} (Q : A → Type 0) (m : Tx A) : Type 0 where
  pub at : (db : Db) {a : A} {db' : Db} → m db ≡ ok (a, db') → Q a

pub Returns-pure : {A : Type 0} {Q : A → Type 0} (a : A) → Q a → Returns Q (pure a)
unfolding pure
Returns-pure {Q} a q = record { at = λ db e. subst Q (ok-injective e).0 q }

pub Returns-throw : {A : Type 0} {Q : A → Type 0} (x : DbError) → Returns Q (throw x)
unfolding throw
Returns-throw x = record { at = λ db e. cc }

pub Returns-bind :
    {A B : Type 0} {Q : B → Type 0} (m : Tx A) (f : A → Tx B)
    → ((a : A) → Returns Q (f a))
    → Returns Q (m >>= f)
unfolding ◌>>=◌
Returns-bind m f kf = record {
  at = λ db e. let (a, db₁, _, rest) = bind-eq-ok (m db) f e in (kf a).at db₁ rest;
}

pub Returns-then :
    {A B : Type 0} {Q : B → Type 0} (m : Tx A) (k : Tx B) → Returns Q k → Returns Q (m >> k)
unfolding ◌>>◌
Returns-then m k kk = Returns-bind m (λ _. k) (λ _. kk)

pub Returns-if :
    {A : Type 0} {Q : A → Type 0} (b : Bool) (m n : Tx A)
    → Returns Q m
    → Returns Q n
    → Returns Q (if b then m else n)
Returns-if true m n km kn = km
Returns-if false m n km kn = kn

pub ruleset returns_rules = (Returns-pure, Returns-throw, Returns-bind, Returns-then, Returns-if)
