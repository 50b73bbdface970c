-- ===== src/Reconciler/Keys.antt =====
-- The order in which the reconciler's queries list their rows: by a time, where null comes last, and
-- then by the identifier.
use grok_bot_v.Prelude.{
  ℕ, ◌≡◌, refl, Bool, true, false, ◌&&◌, ◌||◌, Option, none, some, ◌==◌, ltb, arith,
}
use grok_bot_v.Store.Blocks.{RowId}

pub record Key : Type 0 where
  pub at : Option ℕ
  pub id : RowId

abbrev pub comes_before : Option ℕ → Option ℕ → Bool → Bool
comes_before (some a) (some b) ids = ltb a b || a == b && ids
comes_before (some a) none ids = true
comes_before none (some b) ids = false
comes_before none none ids = ids

-- The row with the one key comes before the row with the other; so also the filters of the queries
-- that continue after a cursor.
abbrev pub precedes : Key → Key → Bool
precedes a b = comes_before a.at b.at (ltb a.id b.id)

before_trans :
    (a b c : Option ℕ) (i j k : ℕ)
    → comes_before a b (ltb i j) ≡ true
    → comes_before b c (ltb j k) ≡ true
    → comes_before a c (ltb i k) ≡ true
before_trans (some a) (some b) (some c) i j k e f = ground arith
before_trans (some a) b none i j k e f = refl
before_trans (some a) none (some c) i j k e f = cc
before_trans none (some b) c i j k e f = cc
before_trans none none (some c) i j k e f = cc
before_trans none none none i j k e f = ground arith

pub precedes_trans : (a b c : Key) → precedes a b ≡ true → precedes b c ≡ true → precedes a c ≡ true
precedes_trans a b c e f = before_trans a.at b.at c.at a.id b.id c.id e f

before_asym :
    (a b : Option ℕ) (i j : ℕ)
    → comes_before a b (ltb i j) ≡ true
    → comes_before b a (ltb j i) ≡ false
before_asym (some a) (some b) i j e = ground arith
before_asym (some a) none i j e = refl
before_asym none (some b) i j e = cc
before_asym none none i j e = ground arith

pub precedes_asym : (a b : Key) → precedes a b ≡ true → precedes b a ≡ false
precedes_asym a b e = before_asym a.at b.at a.id b.id e

before_total :
    (a b : Option ℕ) (i j : ℕ)
    → comes_before a b (ltb i j) ≡ false
    → comes_before b a (ltb j i) ≡ false
    → i ≡ j
before_total (some a) (some b) i j e f = ground arith
before_total (some a) none i j e f = cc
before_total none (some b) i j e f = cc
before_total none none i j e f = ground arith

-- Keys of which neither comes before the other have one identifier.
pub precedes_total : (a b : Key) → precedes a b ≡ false → precedes b a ≡ false → a.id ≡ b.id
precedes_total a b e f = before_total a.at b.at a.id b.id e f

before_irrefl : (a : Option ℕ) (i : ℕ) → comes_before a a (ltb i i) ≡ false
before_irrefl (some a) i = ground arith
before_irrefl none i = ground arith

pub precedes_irrefl : (a : Key) → precedes a a ≡ false
precedes_irrefl a = before_irrefl a.at a.id
