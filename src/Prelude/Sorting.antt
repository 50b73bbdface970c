-- ===== src/Prelude/Sorting.antt =====
-- Lists in the order of a numeric key: insertion sort, which stands for `ORDER BY key`, and what it
-- keeps. A descending order is the reverse, since no two of the rows sorted share their key.
use Prim.Native.Nat.{ℕ, zero, suc, ◌+◌, ◌≤◌, ◌<◌}
use mathlib.Core.Path.{◌≡◌, refl, sym, ap, ◌∙◌, subst}
use mathlib.Core.Logic.{◌≢◌, inl, inr}
use mathlib.Core.Bool.{Bool, true, false}
use mathlib.Core.List.{List, [], ◌∷◌, ◌++◌, reverse, reverse-cons, reverse-reverse}
use native.Mathlib.Omega.{arith}
use grok_bot_v.Prelude.Tests.{if◌then◌else◌, ltb, leb, Bool-cases}
use grok_bot_v.Prelude.Lists.{All, In, here, there, In-cons, In-append_right, take, drop}
use grok_bot_v.Prelude.Rows.{keep}
use grok_bot_v.Prelude.Pairs.{All-In, All-of, All-keep, Pairs, In-take, tail, keep-All}

module _ {ℓ} {A : Type ℓ} (key : A → ℕ) where
  abbrev pub insert_by : A → List A → List A
  insert_by x [] = x ∷ []
  insert_by x (y ∷ ys) = if leb (key x) (key y) then x ∷ y ∷ ys else y ∷ insert_by x ys

  abbrev pub sort_by : List A → List A
  sort_by [] = []
  sort_by (x ∷ xs) = insert_by x (sort_by xs)

  abbrev pub Ascends : List A → Type 0
  Ascends = Pairs (λ a b. key a < key b)

  abbrev pub Descends : List A → Type 0
  Descends = Pairs (λ a b. key b < key a)

  abbrev pub Distinct : List A → Type 0
  Distinct = Pairs (λ a b. key a ≢ key b)

  pub All-insert_by {κ} :
      (P : A → Type κ) (x : A) (ys : List A) → P x → All P ys → All P (insert_by x ys)
  All-insert_by P x [] h k = (h, tt)
  All-insert_by P x (y ∷ ys) h k = elim (Bool-cases (leb (key x) (key y))) [
    | inl le ↦ rw le (h, k)
    | inr gt ↦ rw gt (k.0, All-insert_by P x ys h k.1)
  ]

  pub All-sort_by {κ} : (P : A → Type κ) (xs : List A) → All P xs → All P (sort_by xs)
  All-sort_by P [] h = tt
  All-sort_by P (x ∷ xs) h = All-insert_by P x (sort_by xs) h.0 (All-sort_by P xs h.1)

  All-below :
      (x : A) (ys : List A) → All (λ b. key b < key x) ys → All (λ b. ltb (key b) (key x) ≡ true) ys
  All-below x [] h = tt
  All-below x (y ∷ ys) h = (ground (arith, h.0), All-below x ys h.1)

  All-from :
      (lo : ℕ) (z : A) (zs : List A)
      → lo ≤ key z
      → All (λ b. key z < key b) zs
      → All (λ b. suc lo ≤ key b) zs
  All-from lo z [] le h = tt
  All-from lo z (y ∷ ys) le h = (omega (arith, h.0), All-from lo z ys le h.1)

  All-above :
      (x y : A) (ys : List A)
      → key x < key y
      → All (λ b. key y < key b) ys
      → All (λ b. key x < key b) ys
  All-above x y [] lt h = tt
  All-above x y (z ∷ zs) lt h = (omega (arith, h.0), All-above x y zs lt h.1)

  Ascends-insert_by :
      (x : A) (ys : List A) → All (λ b. key x ≢ key b) ys → Ascends ys → Ascends (insert_by x ys)
  Ascends-insert_by x [] new h = (tt, tt)
  Ascends-insert_by x (y ∷ ys) new h = elim (Bool-cases (leb (key x) (key y))) [
    | inl le ↦
        let lt : key x < key y = ground (arith, new.0) in rw le ((lt, All-above x y ys lt h.0), h)
    | inr gt ↦ rw gt (
      All-insert_by (λ b. key y < key b) x ys (ground arith) h.0,
      Ascends-insert_by x ys new.1 h.1,
    )
  ]

  -- Rows with distinct keys are sorted into a strictly rising order.
  pub Ascends-sort_by : (xs : List A) → Distinct xs → Ascends (sort_by xs)
  Ascends-sort_by [] h = tt
  Ascends-sort_by (x ∷ xs) h =
      Ascends-insert_by x (sort_by xs) (All-sort_by (λ b. key x ≢ key b) xs h.0)
        (Ascends-sort_by xs h.1)

  pub In-insert_by : (x : A) (ys : List A) {z : A} → In z (x ∷ ys) → In z (insert_by x ys)
  In-insert_by x [] i = i
  In-insert_by x (y ∷ ys) i = elim (Bool-cases (leb (key x) (key y))) [
    | inl le ↦ rw le i
    | inr gt ↦ rw gt (elim (In-cons i) [
      | inl same ↦ there (In-insert_by x ys (here same))
      | inr rest ↦ elim (In-cons rest) [
        | inl this ↦ here this
        | inr later ↦ there (In-insert_by x ys (there later))
      ]
    ])
  ]

  pub In-sort_by : (xs : List A) {z : A} → In z xs → In z (sort_by xs)
  In-sort_by [] i = elim i [ ]
  In-sort_by (x ∷ xs) (here same) = In-insert_by x (sort_by xs) (here same)
  In-sort_by (x ∷ xs) (there i) = In-insert_by x (sort_by xs) (there (In-sort_by xs i))

  pub In-unsorted : (xs : List A) {z : A} → In z (sort_by xs) → In z xs
  In-unsorted xs i =
      All-In (λ z. In z xs) (sort_by xs)
        (All-sort_by (λ z. In z xs) xs (All-of (λ z. In z xs) xs (λ z j. j))) i

  insert_by-least : (x : A) (ys : List A) → All (λ b. key x < key b) ys → insert_by x ys ≡ x ∷ ys
  insert_by-least x [] h = refl
  insert_by-least x (y ∷ ys) h =
      let le : leb (key x) (key y) ≡ true = ground (arith, h.0) in rw le refl

  insert_by-keep :
      (p : A → Bool) (x : A) (ys : List A)
      → All (λ b. key x ≢ key b) ys
      → Ascends ys
      → keep p (insert_by x ys) ≡ (if p x then insert_by x (keep p ys) else keep p ys)
  insert_by-keep p x [] new h = refl
  insert_by-keep p x (y ∷ ys) new h = elim (Bool-cases (leb (key x) (key y))) [
    | inl le ↦
        let lt : key x < key y = ground (arith, new.0) in
        let all : All (λ b. key x < key b) (y ∷ ys) = (lt, All-above x y ys lt h.0) in
        let least =
          insert_by-least x (keep p (y ∷ ys)) (All-keep (λ b. key x < key b) p (y ∷ ys) all) in
        rw le (elim (Bool-cases (p x)) [ inl hit ↦ rw hit (sym least) | inr miss ↦ rw miss refl ])
    | inr gt ↦
        rw (gt, insert_by-keep p x ys new.1 h.1)
          (elim (Bool-cases (p x)) [
            | inl hit ↦ rw hit (elim (Bool-cases (p y)) [
              | inl also ↦ rw (also, gt) refl
              | inr differs ↦ rw differs refl
            ])
            | inr miss ↦ rw miss refl
          ])
  ]

  -- A filter of the rows and a filter of the sorted rows give the same.
  pub sort_by-keep :
      (p : A → Bool) (xs : List A) → Distinct xs → sort_by (keep p xs) ≡ keep p (sort_by xs)
  sort_by-keep p [] h = refl
  sort_by-keep p (x ∷ xs) h =
      let step =
        insert_by-keep p x (sort_by xs) (All-sort_by (λ b. key x ≢ key b) xs h.0)
          (Ascends-sort_by xs h.1) in
      elim (Bool-cases (p x)) [
        | inl hit ↦ rw (hit, step, hit, sort_by-keep p xs h.1) refl
        | inr miss ↦ rw (miss, step, miss, sort_by-keep p xs h.1) refl
      ]

  below_self :
      (x : A) (xs : List A)
      → All (λ b. key b < key x) xs
      → keep (λ b. ltb (key b) (key x)) (x ∷ xs) ≡ xs
  below_self x xs h =
      let out : ltb (key x) (key x) ≡ false = ground arith in
      rw out (keep-All (λ b. ltb (key b) (key x)) xs (All-below x xs h))

  keep-below_end :
      (n : ℕ) (xs : List A) (x : A) (ys : List A)
      → Descends xs
      → take (suc n) xs ≡ ys ++ x ∷ []
      → keep (λ b. ltb (key b) (key x)) xs ≡ drop (suc n) xs
  keep-below_end n [] x ys h e = refl
  keep-below_end zero (z ∷ zs) x [] h e =
      let same : z ≡ x = cc in
      subst (λ (w : A). keep (λ b. ltb (key b) (key w)) (z ∷ zs) ≡ zs) same (below_self z zs h.0)
  keep-below_end zero (z ∷ zs) x (w ∷ []) h e = cc
  keep-below_end zero (z ∷ zs) x (w ∷ v ∷ ws) h e = cc
  keep-below_end (suc n) (z ∷ []) x [] h e =
      let same : z ≡ x = cc in
      subst (λ (w : A). keep (λ b. ltb (key b) (key w)) (z ∷ []) ≡ []) same (below_self z [] tt)
  keep-below_end (suc n) (z ∷ y ∷ zs) x [] h e = cc
  keep-below_end (suc n) (z ∷ zs) x (w ∷ ws) h e =
      let rest : take (suc n) zs ≡ ws ++ x ∷ [] = ap tail e in
      let last : In x (take (suc n) zs) =
        subst (λ (l : List A). In x l) (sym rest) (In-append_right ws (here refl)) in
      let lt : key x < key z = All-In (λ b. key b < key z) zs h.0 (In-take (suc n) zs last) in
      let out : ltb (key z) (key x) ≡ false = ground arith in
      rw out (keep-below_end n zs x ws h.1 rest)

  -- Of descending rows, those below the last of the first n are what comes after the first n.
  pub keep-below_last :
      (n : ℕ) (xs : List A) (x : A) (ys : List A)
      → Descends xs
      → reverse (take (suc n) xs) ≡ x ∷ ys
      → keep (λ b. ltb (key b) (key x)) xs ≡ drop (suc n) xs
  keep-below_last n xs x ys h e =
      keep-below_end n xs x (reverse ys) h
        (sym (reverse-reverse (take (suc n) xs)) ∙ ap reverse e ∙ reverse-cons x ys)

  -- A row whose key is less than n beyond a bound is among the first n of the rows from there on.
  pub In-take_window :
      (n lo : ℕ) (xs : List A) {x : A}
      → Ascends xs
      → All (λ b. lo ≤ key b) xs
      → In x xs
      → key x < lo + n
      → In x (take n xs)
  In-take_window zero lo xs {x} up from i lt =
      absurd (omega (arith, All-In (λ b. lo ≤ key b) xs from i))
  In-take_window (suc n) lo [] up from i lt = elim i [ ]
  In-take_window (suc n) lo (z ∷ zs) up from (here e) lt = here e
  In-take_window (suc n) lo (z ∷ zs) {x} up from (there i) lt =
      there (In-take_window n (suc lo) zs up.1 (All-from lo z zs from.0 up.0) i (omega arith))
