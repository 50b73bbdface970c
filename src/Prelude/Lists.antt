-- ===== src/Prelude/Lists.antt =====
-- Lists measured by native numbers, membership, and predicates on all elements.
use Prim.Native.Nat.{ℕ, zero, suc, ◌+◌}
use mathlib.Core.Path.{◌≡◌}
use mathlib.Core.Logic.{◌⊎◌, inl, inr}
use mathlib.Core.List.{List, [], ◌∷◌, ◌++◌}
use native.Mathlib.Omega.{arith}

module _ {ℓ} {A : Type ℓ} where
  abbrev pub length : List A → ℕ
  length [] = 0
  length (x ∷ xs) = suc (length xs)

  abbrev pub take : ℕ → List A → List A
  take zero xs = []
  take (suc n) [] = []
  take (suc n) (x ∷ xs) = x ∷ take n xs

  abbrev pub drop : ℕ → List A → List A
  drop zero xs = xs
  drop (suc n) [] = []
  drop (suc n) (x ∷ xs) = drop n xs

  pub length-append : (xs ys : List A) → length (xs ++ ys) ≡ length xs + length ys
  length-append [] ys = omega arith
  length-append (x ∷ xs) ys = omega (arith, length-append xs ys)

  -- The occurrences of an element in a list.
  pub data In (a : A) : List A → Type ℓ where
    here : {x : A} {xs : List A} → x ≡ a → In a (x ∷ xs)
    there : {x : A} {xs : List A} → In a xs → In a (x ∷ xs)

module _ {ℓ} {A : Type ℓ} where
  pub In-cons : {a x : A} {xs : List A} → In a (x ∷ xs) → (x ≡ a) ⊎ In a xs
  In-cons (here e) = inl e
  In-cons (there m) = inr m

  pub In-append_left : {a : A} {xs : List A} (ys : List A) → In a xs → In a (xs ++ ys)
  In-append_left ys (here e) = here e
  In-append_left ys (there m) = there (In-append_left ys m)

  pub In-append_right : {a : A} (xs : List A) {ys : List A} → In a ys → In a (xs ++ ys)
  In-append_right [] m = m
  In-append_right (x ∷ xs) m = there (In-append_right xs m)

  pub In-append : {a : A} (xs ys : List A) → In a (xs ++ ys) → In a xs ⊎ In a ys
  In-append [] ys m = inr m
  In-append (x ∷ xs) ys (here e) = inl (here e)
  In-append (x ∷ xs) ys (there m) = elim (In-append xs ys m) [
    | inl p ↦ inl (there p)
    | inr q ↦ inr q
  ]

-- A predicate by recursion computes to tuples, which the tactics read and build.
module _ {ℓ κ} {A : Type ℓ} (P : A → Type κ) where
  abbrev pub All : List A → Type κ
  All [] = Unit
  All (x ∷ xs) = P x × All xs
