-- ===== src/Events/Transitions/Rules.antt =====
-- Actions that change the runs once and along the transition table, one rule for each way to build
-- one.
use mathlib.Core.Path.{subst}
use grok_bot_v.Prelude.{
  ◌≡◌, refl, sym, ap, ◌⊎◌, inl, inr, Bool, true, false, Option, none, some, List, arith, In,
  In-cons, In-update_where, update_where, NoClash, NoClash-eq, if◌then◌else◌, Bool-cases, any,
  any-false,
}
use grok_bot_v.RunState.{can_transition}
use grok_bot_v.Store.Schema.{Db, Run}
use grok_bot_v.Store.Tables.{runs}
use grok_bot_v.Store.Tx.{Tx, ◌>>=◌, ◌>>◌, pure, ok, update_many, create, or_null, transaction}
use grok_bot_v.Store.Tx.Keeps.{
  Keeps, keeps_rules, bind-eq-ok, ok-injective, create-eq-ok, Result-cases,
}
use grok_bot_v.History.Log.{same_run}

-- Every run of the second table that is in the first has the status that it had, or one that the
-- transition table allows next.
abbrev pub Follows : List Run → List Run → Type 0
Follows before after =
    (r r' : Run)
    → In r before
    → In r' after
    → r.id ≡ r'.id
    → (r.status ≡ r'.status) ⊎ (can_transition r.status r'.status ≡ true)

-- If `m` returns, the runs that it leaves follow those that it found.
pub record Steps {A : Type 0} (m : Tx A) : Type 0 where
  pub at :
      (db : Db) {a : A} {db' : Db}
      → NoClash same_run db.runs
      → m db ≡ ok (a, db')
      → Follows db.runs db'.runs

-- `m` leaves the runs as they are.
abbrev pub Leaves : {A : Type 0} → Tx A → Type 0
Leaves m = (rs : List Run) → Keeps (λ d. d.runs ≡ rs) m

pub Follows-refl : {rs : List Run} → NoClash same_run rs → Follows rs rs
Follows-refl {rs} unique r r' i j e = inl (
    ap (λ (x : Run). x.status)
      (NoClash-eq same_run (λ a b. ground arith) rs unique i j (ground arith)))

pub Steps-transaction :
    {A : Type 0} (m : Tx A) (db : Db)
    → Steps m
    → NoClash same_run db.runs
    → Follows db.runs (transaction m db).1.runs
unfolding transaction
Steps-transaction m db s unique = elim (Result-cases (m db)) [
  | inl (a, db', e) ↦ rw (e, transaction) (s.at db unique e)
  | inr (x, e) ↦ rw (e, transaction) (Follows-refl unique)
]

pub Steps-Leaves : {A : Type 0} (m : Tx A) → Leaves m → Steps m
Steps-Leaves m l = record {
  at = λ db unique e. rw ((l db.runs).at db refl e) (Follows-refl unique);
}

pub Steps-bind_last :
    {A B : Type 0} (m : Tx A) (f : A → Tx B) → Leaves m → ((a : A) → Steps (f a)) → Steps (m >>= f)
unfolding ◌>>=◌
Steps-bind_last m f l s = record {
  at = λ db {a} {db'} unique e.
      let (x, db₁, first, rest) = bind-eq-ok (m db) f e in
      let same = (l db.runs).at db refl first in rw (← same) ((s x).at db₁ (rw same unique) rest);
}

pub Steps-bind_first :
    {A B : Type 0} (m : Tx A) (f : A → Tx B) → Steps m → ((a : A) → Leaves (f a)) → Steps (m >>= f)
unfolding ◌>>=◌
Steps-bind_first m f s l = record {
  at = λ db {a} {db'} unique e.
      let (x, db₁, first, rest) = bind-eq-ok (m db) f e in
      let same = (l x db₁.runs).at db₁ refl rest in rw same (s.at db unique first);
}

pub Steps-then_last : {A B : Type 0} (m : Tx A) (k : Tx B) → Leaves m → Steps k → Steps (m >> k)
unfolding ◌>>◌
Steps-then_last m k l s = Steps-bind_last m (λ _. k) l (λ _. s)

pub Steps-then_first : {A B : Type 0} (m : Tx A) (k : Tx B) → Steps m → Leaves k → Steps (m >> k)
unfolding ◌>>◌
Steps-then_first m k s l = Steps-bind_first m (λ _. k) s (λ _. l)

pub Steps-if : {A : Type 0} (b : Bool) (m n : Tx A) → Steps m → Steps n → Steps (if b then m else n)
Steps-if true m n sm sn = sm
Steps-if false m n sm sn = sn

pub Steps-or_null :
    {A B : Type 0} (o : Option A) (k : A → Tx (Option B))
    → ((a : A) → Steps (k a))
    → Steps (or_null o k)
Steps-or_null none k s = Steps-Leaves (pure none) (λ rs. search keeps_rules)
Steps-or_null (some a) k s = s a

-- The run `x` of the table gives the run `r'` of the updated table.
updated :
    (p : Run → Bool) (f : Run → Run) (x r' : Run)
    → (p x ≡ true → can_transition x.status (f x).status ≡ true)
    → r' ≡ (if p x then f x else x)
    → (x.status ≡ r'.status) ⊎ (can_transition x.status r'.status ≡ true)
updated p f x r' g is = elim (Bool-cases (p x)) [
  | inl hit ↦ let now : r' ≡ f x = ground arith in inr (rw now (g hit))
  | inr miss ↦ let now : r' ≡ x = ground arith in inl (rw now)
]

pub Follows-update :
    (p : Run → Bool) (f : Run → Run) (rs : List Run)
    → ((r : Run) → ((f r).id ≡ r.id) × (p r ≡ true → can_transition r.status (f r).status ≡ true))
    → NoClash same_run rs
    → Follows rs (update_where p f rs)
Follows-update p f rs g unique r r' i j same =
    let (x, k, is) = In-update_where p f rs j in
    let kept = (g x).0 in
    let eq : x ≡ r =
      NoClash-eq same_run (λ a b. ground arith) rs unique k i (ground (arith, kept)) in
    subst (λ (y : Run). (y.status ≡ r'.status) ⊎ (can_transition y.status r'.status ≡ true)) eq
      (updated p f x r' (g x).1 is)

pub Steps-update :
    (p : Run → Bool) (f : Run → Run)
    → ((r : Run) → ((f r).id ≡ r.id) × (p r ≡ true → can_transition r.status (f r).status ≡ true))
    → Steps (update_many runs p f)
unfolding update_many
Steps-update p f g = record {
  at = λ db unique e.
      subst (λ (d : Db). Follows db.runs d.runs) (ok-injective e).1
        (Follows-update p f db.runs g unique);
}

pub Steps-new_run :
    (clash : Run → Bool) (new : Run)
    → ((db : Db) → any clash db.runs ≡ false → any (same_run new) db.runs ≡ false)
    → Steps (create runs clash new)
Steps-new_run clash new g = record {
  at = λ db unique e r r' i j same.
      let (fresh, _, is) = create-eq-ok runs clash new db e in
      elim (In-cons (subst (λ (d : Db). In r' d.runs) (sym is) j)) [
        | inl now ↦
            let other = any-false (same_run new) db.runs (g db fresh) i in
            absurd (ground (arith, other, now))
        | inr old ↦ Follows-refl unique r r' i old same
      ];
}

pub ruleset steps_rules = (
  Steps-Leaves, Steps-bind_last, Steps-bind_first, Steps-then_last, Steps-then_first, Steps-if,
  Steps-or_null,
)
