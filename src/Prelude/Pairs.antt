-- ===== src/Prelude/Pairs.antt =====
-- Predicates on all elements of a list and on all its pairs, kept by filters and by reversal.
use mathlib.Core.Path.{◌≡◌, refl, sym, subst}
use mathlib.Core.Logic.{inl, inr}
use mathlib.Core.Bool.{Bool, true, false}
use mathlib.Core.List.{List, [], ◌∷◌, ◌++◌, reverse, reverse-cons, append-nil}
use Prim.Native.Nat.{ℕ, zero, suc}
use native.Mathlib.Omega.{arith}
use grok_bot_v.Prelude.Tests.{if◌then◌else◌, Bool-cases}
use grok_bot_v.Prelude.Lists.{All, In, here, there, In-cons, In-append, take}
use grok_bot_v.Prelude.Rows.{keep}

module _ {ℓ κ} {A : Type ℓ} (P : A → Type κ) where
  pub All-append : (xs ys : List A) → All P xs → All P ys → All P (xs ++ ys)
  All-append [] ys h k = k
  All-append (x ∷ xs) ys h k = (h.0, All-append xs ys h.1 k)

  pub All-of : (xs : List A) → ((x : A) → In x xs → P x) → All P xs
  All-of [] h = tt
  All-of (x ∷ xs) h = (h x (here refl), All-of xs (λ y i. h y (there i)))

  pub All-In : (xs : List A) {x : A} → All P xs → In x xs → P x
  All-In [] h i = elim i [ ]
  All-In (x ∷ xs) h (here e) = subst P e h.0
  All-In (x ∷ xs) h (there i) = All-In xs h.1 i

  pub All-keep : (p : A → Bool) (xs : List A) → All P xs → All P (keep p xs)
  All-keep p [] h = tt
  All-keep p (x ∷ xs) h = elim (Bool-cases (p x)) [
    | inl hit ↦ rw hit (h.0, All-keep p xs h.1)
    | inr miss ↦ rw miss (All-keep p xs h.1)
  ]

module _ {ℓ κ} {A : Type ℓ} (R : A → A → Type κ) where
  -- Every element stands in the relation to each later one.
  abbrev pub Pairs : List A → Type κ
  Pairs [] = Unit
  Pairs (x ∷ xs) = All (R x) xs × Pairs xs

  pub Pairs-keep : (p : A → Bool) (xs : List A) → Pairs xs → Pairs (keep p xs)
  Pairs-keep p [] h = tt
  Pairs-keep p (x ∷ xs) h = elim (Bool-cases (p x)) [
    | inl hit ↦ rw hit (All-keep (R x) p xs h.0, Pairs-keep p xs h.1)
    | inr miss ↦ rw miss (Pairs-keep p xs h.1)
  ]

  pub Pairs-append_last :
      (xs : List A) (y : A) → Pairs xs → All (λ x. R x y) xs → Pairs (xs ++ y ∷ [])
  Pairs-append_last [] y h k = (tt, tt)
  Pairs-append_last (x ∷ xs) y h k =
      (All-append (R x) xs (y ∷ []) h.0 (k.0, tt), Pairs-append_last xs y h.1 k.1)

module _ {ℓ} {A : Type ℓ} where
  pub In-reverse : (xs : List A) {y : A} → In y (reverse xs) → In y xs
  In-reverse [] i = i
  In-reverse (x ∷ xs) {y} i =
      elim (In-append (reverse xs) (x ∷ [])
        (subst (λ (l : List A). In y l) (reverse-cons x xs) i)) [
          | inl m ↦ there (In-reverse xs m)
          | inr m ↦ elim (In-cons m) [ inl e ↦ here e | inr never ↦ elim never [ ] ]
        ]

  pub In-take : (n : ℕ) (xs : List A) {y : A} → In y (take n xs) → In y xs
  In-take zero xs i = elim i [ ]
  In-take (suc n) [] i = elim i [ ]
  In-take (suc n) (x ∷ xs) (here e) = here e
  In-take (suc n) (x ∷ xs) (there i) = there (In-take n xs i)

  abbrev pub tail : List A → List A
  tail [] = []
  tail (x ∷ xs) = xs

  pub keep-append : (p : A → Bool) (xs ys : List A) → keep p (xs ++ ys) ≡ keep p xs ++ keep p ys
  keep-append p [] ys = refl
  keep-append p (x ∷ xs) ys = elim (Bool-cases (p x)) [
    | inl hit ↦ rw (hit, keep-append p xs ys) refl
    | inr miss ↦ rw (miss, keep-append p xs ys) refl
  ]

  pub keep-All : (p : A → Bool) (xs : List A) → All (λ x. p x ≡ true) xs → keep p xs ≡ xs
  keep-All p [] h = refl
  keep-All p (x ∷ xs) h = rw (h.0, keep-All p xs h.1) refl

  pub keep-keep :
      (p q r : A → Bool) (xs : List A)
      → ((x : A) → (if q x then p x else false) ≡ r x)
      → keep p (keep q xs) ≡ keep r xs
  keep-keep p q r [] h = refl
  keep-keep p q r (x ∷ xs) h = ground (arith, h x, keep-keep p q r xs h)

module _ {ℓ κ} {A : Type ℓ} (R : A → A → Type κ) where
  pub Pairs-reverse : (xs : List A) → Pairs (λ a b. R b a) xs → Pairs R (reverse xs)
  Pairs-reverse [] h = tt
  Pairs-reverse (x ∷ xs) h = rw (reverse-cons x xs) (
      Pairs-append_last R (reverse xs) x (Pairs-reverse xs h.1)
        (All-of (λ y. R y x) (reverse xs) (λ y i. All-In (λ y. R y x) xs h.0 (In-reverse xs i))))

module _ {ℓ} {A : Type ℓ} where
  pub keep-reverse : (p : A → Bool) (xs : List A) → keep p (reverse xs) ≡ reverse (keep p xs)
  keep-reverse p [] = refl
  keep-reverse p (x ∷ xs) = elim (Bool-cases (p x)) [
    | inl hit ↦
        rw (reverse-cons x xs, keep-append p (reverse xs) (x ∷ []), keep-reverse p xs, hit)
          (sym (reverse-cons x (keep p xs)))
    | inr miss ↦
        rw (reverse-cons x xs, keep-append p (reverse xs) (x ∷ []), keep-reverse p xs, miss)
          (append-nil _)
  ]
