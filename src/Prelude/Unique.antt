-- ===== src/Prelude/Unique.antt =====
-- Tables under a unique index: no row clashes with a later one.
use mathlib.Core.Path.{◌≡◌, refl, sym, ◌∙◌, fun_ext}
use mathlib.Core.Logic.{inl, inr}
use mathlib.Core.Bool.{Bool, true, false}
use mathlib.Core.List.{List, [], ◌∷◌}
use native.Mathlib.Omega.{arith}
use grok_bot_v.Prelude.Tests.{Bool-cases}
use grok_bot_v.Prelude.Lists.{In, here, there}
use grok_bot_v.Prelude.Rows.{any, delete_where, update_where, any-false}

module _ {ℓ} {A : Type ℓ} (clash : A → A → Bool) where
  abbrev pub NoClash : List A → Type 0
  NoClash [] = Unit
  NoClash (x ∷ xs) = (any (clash x) xs ≡ false) × NoClash xs

  pub NoClash-eq :
      ((a b : A) → clash a b ≡ clash b a)
      → (xs : List A) {a b : A} → NoClash xs
      → In a xs
      → In b xs
      → clash a b ≡ true
      → a ≡ b
  NoClash-eq flip [] h i j e = elim i [ ]
  NoClash-eq flip (x ∷ xs) h (here p) (here q) e = sym p ∙ q
  NoClash-eq flip (x ∷ xs) {a} {b} h (here p) (there j) e = cc (any-false (clash x) xs h.0 j, p)
  NoClash-eq flip (x ∷ xs) {a} {b} h (there i) (here q) e =
      cc (any-false (clash x) xs h.0 i, q, flip a b)
  NoClash-eq flip (x ∷ xs) h (there i) (there j) e = NoClash-eq flip xs h.1 i j e

module _ {ℓ} {A : Type ℓ} (c : A → Bool) where
  pub any-delete_where :
      (p : A → Bool) (xs : List A) → any c xs ≡ false → any c (delete_where p xs) ≡ false
  any-delete_where p [] e = refl
  any-delete_where p (x ∷ xs) e = ground (arith, any-delete_where p xs)

  pub any-update_where :
      (p : A → Bool) (f : A → A) (xs : List A)
      → ((x : A) → c (f x) ≡ c x)
      → any c (update_where p f xs) ≡ any c xs
  any-update_where p f [] same = refl
  any-update_where p f (x ∷ xs) same = ground (arith, any-update_where p f xs same, same x)

module _ {ℓ} {A : Type ℓ} (clash : A → A → Bool) where
  pub NoClash-delete_where :
      (p : A → Bool) (xs : List A) → NoClash clash xs → NoClash clash (delete_where p xs)
  NoClash-delete_where p [] h = tt
  NoClash-delete_where p (x ∷ xs) h = elim (Bool-cases (p x)) [
    | inl hit ↦ rw hit (NoClash-delete_where p xs h.1)
    | inr miss ↦ rw miss (any-delete_where (clash x) p xs h.0, NoClash-delete_where p xs h.1)
  ]

  pub NoClash-update_where :
      (p : A → Bool) (f : A → A) (xs : List A)
      → ((x y : A) → clash (f x) y ≡ clash x y)
      → ((x y : A) → clash x (f y) ≡ clash x y)
      → NoClash clash xs
      → NoClash clash (update_where p f xs)
  NoClash-update_where p f [] l r h = tt
  NoClash-update_where p f (x ∷ xs) l r h =
      let rest = NoClash-update_where p f xs l r h.1 in
      elim (Bool-cases (p x)) [
        | inl hit ↦
            rw hit
              (rw (any-update_where (clash (f x)) p f xs (r (f x))) (rw (fun_ext (l x)) h.0), rest)
        | inr miss ↦ rw miss (rw (any-update_where (clash x) p f xs (r x)) h.0, rest)
      ]
