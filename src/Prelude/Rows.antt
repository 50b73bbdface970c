-- ===== src/Prelude/Rows.antt =====
-- The queries and updates of a table of rows, as functions on lists. The order of the list is the
-- model's: a database table has none, and a query that orders its rows sorts them.
use Prim.Native.Nat.{ℕ, suc}
use mathlib.Core.Path.{◌≡◌, refl, sym, ap}
use mathlib.Core.Logic.{inl, inr}
use mathlib.Core.Bool.{Bool, true, false, ◌||◌}
use mathlib.Core.Option.{Option, none, some}
use mathlib.Core.List.{List, [], ◌∷◌, map}
use native.Mathlib.Omega.{arith}
use grok_bot_v.Prelude.Tests.{if◌then◌else◌, Bool-cases}
use grok_bot_v.Prelude.Lists.{In, here, there}

module _ {ℓ} {A : Type ℓ} (p : A → Bool) where
  abbrev pub any : List A → Bool
  any [] = false
  any (x ∷ xs) = p x || any xs

  abbrev pub keep : List A → List A
  keep [] = []
  keep (x ∷ xs) = if p x then x ∷ keep xs else keep xs

  abbrev pub delete_where : List A → List A
  delete_where [] = []
  delete_where (x ∷ xs) = if p x then delete_where xs else x ∷ delete_where xs

  abbrev pub count_where : List A → ℕ
  count_where [] = 0
  count_where (x ∷ xs) = if p x then suc (count_where xs) else count_where xs

  abbrev pub find_where : List A → Option A
  find_where [] = none
  find_where (x ∷ xs) = if p x then some x else find_where xs

  abbrev pub update_where : (A → A) → List A → List A
  update_where f [] = []
  update_where f (x ∷ xs) = (if p x then f x else x) ∷ update_where f xs

  -- Every row after an update comes from a row before it.
  pub In-update_where :
      (f : A → A) {y : A} (xs : List A)
      → In y (update_where f xs)
      → (x : A) × In x xs × (y ≡ (if p x then f x else x))
  In-update_where f [] m = elim m [ ]
  In-update_where f (x ∷ xs) (here e) = (x, here refl, sym e)
  In-update_where f (x ∷ xs) (there m) = let (z, i, e) = In-update_where f xs m in (z, there i, e)

  In-kept :
      {x y : A} {xs ys : List A}
      → p x ≡ false
      → (In y xs → In y ys × (p y ≡ false))
      → In y (x ∷ xs)
      → In y (x ∷ ys) × (p y ≡ false)
  In-kept miss ih (here e) = (here e, rw (← e) miss)
  In-kept miss ih (there m) = let (i, e) = ih m in (there i, e)

  pub In-delete_where : {y : A} (xs : List A) → In y (delete_where xs) → In y xs × (p y ≡ false)
  In-delete_where [] m = elim m [ ]
  In-delete_where (x ∷ xs) m = elim (Bool-cases (p x)) [
    | inl hit ↦ let (i, e) = In-delete_where xs (rw hit at m) in (there i, e)
    | inr miss ↦ In-kept miss (In-delete_where xs) (rw miss at m)
  ]

  In-chosen :
      {x y : A} {xs ys : List A}
      → p x ≡ true
      → (In y xs → In y ys × (p y ≡ true))
      → In y (x ∷ xs)
      → In y (x ∷ ys) × (p y ≡ true)
  In-chosen hit ih (here e) = (here e, rw (← e) hit)
  In-chosen hit ih (there m) = let (i, e) = ih m in (there i, e)

  pub In-keep : {y : A} (xs : List A) → In y (keep xs) → In y xs × (p y ≡ true)
  In-keep [] m = elim m [ ]
  In-keep (x ∷ xs) m = elim (Bool-cases (p x)) [
    | inl hit ↦ In-chosen hit (In-keep xs) (rw hit at m)
    | inr miss ↦ let (i, e) = In-keep xs (rw miss at m) in (there i, e)
  ]

  -- A row that a filter finds is in the table and passes the filter.
  pub find_where-In : (xs : List A) {y : A} → find_where xs ≡ some y → In y xs × (p y ≡ true)
  find_where-In [] e = cc
  find_where-In (x ∷ xs) {y} e = elim (Bool-cases (p x)) [
    | inl hit ↦ let same : x ≡ y = ground arith in (here same, rw (← same) hit)
    | inr miss ↦ let (i, t) = find_where-In xs (rw miss at e) in (there i, t)
  ]

  -- What passes the filter is found, if anything does.
  pub find_where-none : (xs : List A) {y : A} → find_where xs ≡ none → In y xs → p y ≡ false
  find_where-none [] e m = elim m [ ]
  find_where-none (x ∷ xs) e (here same) = rw (← same) (ground arith)
  find_where-none (x ∷ xs) e (there m) = find_where-none xs (ground arith) m

  pub any-false : (xs : List A) {y : A} → any xs ≡ false → In y xs → p y ≡ false
  any-false [] e m = elim m [ ]
  any-false (x ∷ xs) e (here same) = rw (← same) (ground arith)
  any-false (x ∷ xs) e (there m) = any-false xs (ground arith) m

  pub any-none : (xs : List A) → ((y : A) → In y xs → p y ≡ false) → any xs ≡ false
  any-none [] h = refl
  any-none (x ∷ xs) h = rw (h x (here refl)) (any-none xs (λ y i. h y (there i)))

  pub any-In : (xs : List A) → any xs ≡ true → (y : A) × In y xs × (p y ≡ true)
  any-In [] e = cc
  any-In (x ∷ xs) e = elim (Bool-cases (p x)) [
    | inl hit ↦ (x, here refl, hit)
    | inr miss ↦ let (y, i, t) = any-In xs (ground arith) in (y, there i, t)
  ]

  -- An update that meets no row changes nothing.
  pub update_where-none : (f : A → A) (xs : List A) → count_where xs ≡ 0 → update_where f xs ≡ xs
  update_where-none f [] e = refl
  update_where-none f (x ∷ xs) e = ground (arith, update_where-none f xs)

module _ {ℓ} {A : Type ℓ} where
  pub In-keep_of : (p : A → Bool) (xs : List A) {y : A} → In y xs → p y ≡ true → In y (keep p xs)
  In-keep_of p [] i e = elim i [ ]
  In-keep_of p (x ∷ xs) (here same) e = let hit : p x ≡ true = rw same e in rw hit (here same)
  In-keep_of p (x ∷ xs) (there i) e = elim (Bool-cases (p x)) [
    | inl hit ↦ rw hit (there (In-keep_of p xs i e))
    | inr miss ↦ rw miss (In-keep_of p xs i e)
  ]

  -- Filters that agree on the rows of a table make the same update.
  pub update_where_congr :
      (p q : A → Bool) (f : A → A) (xs : List A)
      → ((x : A) → In x xs → p x ≡ q x)
      → update_where p f xs ≡ update_where q f xs
  update_where_congr p q f [] h = refl
  update_where_congr p q f (x ∷ xs) h =
      ground (arith, h x (here refl), update_where_congr p q f xs (λ y i. h y (there i)))

  pub update_where_never : (f : A → A) (xs : List A) → update_where (λ _. false) f xs ≡ xs
  update_where_never f [] = refl
  update_where_never f (x ∷ xs) = rw (update_where_never f xs)

module _ {ℓ κ} {A : Type ℓ} {B : Type κ} (f : A → B) where
  pub In-map : (xs : List A) {y : B} → In y (map f xs) → (x : A) × In x xs × (f x ≡ y)
  In-map [] i = elim i [ ]
  In-map (x ∷ xs) (here e) = (x, here refl, e)
  In-map (x ∷ xs) (there i) = let (z, j, e) = In-map xs i in (z, there j, e)

  pub In-map_of : (xs : List A) {x : A} → In x xs → In (f x) (map f xs)
  In-map_of [] i = elim i [ ]
  In-map_of (x ∷ xs) (here e) = here (ap f e)
  In-map_of (x ∷ xs) (there i) = there (In-map_of xs i)

module _ {ℓ} {A : Type ℓ} (p : A → Bool) where
  pub any-of : (xs : List A) {y : A} → In y xs → p y ≡ true → any p xs ≡ true
  any-of [] i e = elim i [ ]
  any-of (x ∷ xs) (here same) e = let hit : p x ≡ true = rw same e in rw hit refl
  any-of (x ∷ xs) (there i) e = ground (arith, any-of xs i e)

  pub count_where-none : (xs : List A) → ((y : A) → In y xs → p y ≡ false) → count_where p xs ≡ 0
  count_where-none [] h = refl
  count_where-none (x ∷ xs) h = rw (h x (here refl)) (count_where-none xs (λ y i. h y (there i)))
