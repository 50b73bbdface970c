-- ===== src/Reconciler/Progress.antt =====
-- A scan gets to every row that stays due.

use grok_bot_v.Prelude.{
  ℕ, zero, suc, ◌≤◌, ◌<◌, ◌≡◌, ◌⊎◌, refl, ap, Bool, true, false, Option, none, some, List, [], ◌∷◌,
  ◌++◌, ◌==◌, keep, take, length, count_where, All, In, here, there, In-cons, In-keep, and-eq-true,
  Bool-cases, if_both, if_cases, inl, inr, arith,
}
use grok_bot_v.Prelude.Pairs.{Pairs, All-In, All-of, In-take}
use grok_bot_v.Reconciler.Keys.{Key, precedes, precedes_trans, precedes_asym}
use grok_bot_v.Reconciler.Scan.{
  insert_by_key, sort_by_key, after_cursor, scanned, scan_rows, last_key, next_cursor,
}

module _ {A : Type 0} (key : A → Key) where
  abbrev pub InOrder : A → A → Type 0
  InOrder a b = precedes (key b) (key a) ≡ false

  -- Successive scans of the same rows, each with the rows that are due at its time.
  unfoldable pub scan_all : ℕ → List A → Option Key → List (A → Bool) → List A
  scan_all size rows cursor [] = []
  scan_all size rows cursor (due ∷ dues) =
      let batch = scan_rows key size due cursor rows in
      batch ++ scan_all size rows (next_cursor key size batch) dues

  In-insert : (x : A) (ys : List A) {z : A} → In z (x ∷ ys) → In z (insert_by_key key x ys)
  In-insert x [] i = i
  In-insert x (y ∷ ys) i = elim (Bool-cases (precedes (key x) (key y))) [
    | inl before ↦ rw before i
    | inr behind ↦ rw behind (elim (In-cons i) [
      | inl same ↦ there (In-insert x ys (here same))
      | inr rest ↦ elim (In-cons rest) [
        | inl this ↦ here this
        | inr later ↦ there (In-insert x ys (there later))
      ]
    ])
  ]

  pub In-sort : (xs : List A) {z : A} → In z xs → In z (sort_by_key key xs)
  In-sort [] i = elim i [ ]
  In-sort (x ∷ xs) (here e) = In-insert x (sort_by_key key xs) (here e)
  In-sort (x ∷ xs) (there i) = In-insert x (sort_by_key key xs) (there (In-sort xs i))

  All-insert :
      (P : A → Type 0) (x : A) (ys : List A) → P x → All P ys → All P (insert_by_key key x ys)
  All-insert P x [] h k = (h, tt)
  All-insert P x (y ∷ ys) h k =
      if_both (All P) (precedes (key x) (key y)) (h, k) (k.0, All-insert P x ys h k.1)

  All-sort : (P : A → Type 0) (xs : List A) → All P xs → All P (sort_by_key key xs)
  All-sort P [] h = tt
  All-sort P (x ∷ xs) h = All-insert P x (sort_by_key key xs) h.0 (All-sort P xs h.1)

  not_before : (x y z : A) → precedes (key x) (key y) ≡ true → InOrder y z → InOrder x z
  not_before x y z e h = elim (Bool-cases (precedes (key z) (key x))) [
    | inr out ↦ out
    | inl hit ↦ cc (precedes_trans (key z) (key x) (key y) hit e)
  ]

  All-InOrder :
      (x y : A) (zs : List A)
      → precedes (key x) (key y) ≡ true
      → All (InOrder y) zs
      → All (InOrder x) zs
  All-InOrder x y [] e h = tt
  All-InOrder x y (z ∷ zs) e h = (not_before x y z e h.0, All-InOrder x y zs e h.1)

  Pairs-insert : (x : A) (ys : List A) → Pairs InOrder ys → Pairs InOrder (insert_by_key key x ys)
  Pairs-insert x [] h = (tt, tt)
  Pairs-insert x (y ∷ ys) h =
      if_cases (Pairs InOrder) (precedes (key x) (key y))
        (λ e. ((precedes_asym (key x) (key y) e, All-InOrder x y ys e h.0), h))
        (λ e. (All-insert (InOrder y) x ys e h.0, Pairs-insert x ys h.1))

  pub Pairs-sort : (xs : List A) → Pairs InOrder (sort_by_key key xs)
  Pairs-sort [] = tt
  Pairs-sort (x ∷ xs) = Pairs-insert x (sort_by_key key xs) (Pairs-sort xs)

  -- A row is among the first of an ordered list, or these are as many as were asked for and none of
  -- them comes after it.
  pub taken_or_full :
      (n : ℕ) (xs : List A) (r : A)
      → Pairs InOrder xs
      → In r xs
      → In r (take n xs) ⊎ ((length (take n xs) ≡ n) × All (λ y. InOrder y r) (take n xs))
  taken_or_full zero xs r h i = inr (refl, tt)
  taken_or_full (suc n) [] r h i = elim i [ ]
  taken_or_full (suc n) (x ∷ xs) r h (here e) = inl (here e)
  taken_or_full (suc n) (x ∷ xs) r h (there i) = elim (taken_or_full n xs r h.1 i) [
    | inl j ↦ inl (there j)
    | inr full ↦ inr (ap suc full.0, (All-In (InOrder x) xs h.0 i, full.1))
  ]

  pub last_key-In :
      (k : Option Key) (x : A) (xs : List A)
      → (l : A) × In l (x ∷ xs) × (last_key key k (x ∷ xs) ≡ some (key l))
  last_key-In k x [] = (x, here refl, refl)
  last_key-In k x (y ∷ ys) = let (l, i, e) = last_key-In (some (key x)) y ys in (l, there i, e)

  count_where-le :
      (p q : A → Bool) (xs : List A)
      → ((x : A) → q x ≡ true → p x ≡ true)
      → count_where q xs ≤ count_where p xs
  count_where-le p q [] h = omega arith
  count_where-le p q (x ∷ xs) h = ground (arith, h x, count_where-le p q xs h)

  pub count_where-less :
      (p q : A → Bool) (xs : List A) {l : A}
      → ((x : A) → q x ≡ true → p x ≡ true)
      → In l xs
      → p l ≡ true
      → q l ≡ false
      → count_where q xs < count_where p xs
  count_where-less p q [] h i e f = elim i [ ]
  count_where-less p q (x ∷ xs) h (here same) e f =
      let hit : p x ≡ true = rw same e in
      let miss : q x ≡ false = rw same f in ground (arith, count_where-le p q xs h)
  count_where-less p q (x ∷ xs) h (there i) e f =
      ground (arith, h x, count_where-less p q xs h i e f)

  pub count_where-pos :
      (p : A → Bool) (xs : List A) {l : A} → In l xs → p l ≡ true → 0 < count_where p xs
  count_where-pos p [] i e = elim i [ ]
  count_where-pos p (x ∷ xs) (here same) e = let hit : p x ≡ true = rw same e in ground arith
  count_where-pos p (x ∷ xs) (there i) e = ground (arith, count_where-pos p xs i e)

  pub count_where-le_length : (p : A → Bool) (xs : List A) → count_where p xs ≤ length xs
  count_where-le_length p [] = omega arith
  count_where-le_length p (x ∷ xs) = ground (arith, count_where-le_length p xs)

  pub after_later :
      (cursor : Option Key) (l x : A)
      → after_cursor key cursor l ≡ true
      → after_cursor key (some (key l)) x ≡ true
      → after_cursor key cursor x ≡ true
  after_later none l x e f = refl
  after_later (some c) l x e f = precedes_trans c (key l) (key x) e f

  module _ (size : ℕ) (rows : List A) (due : A → Bool) (cursor : Option Key) where
    pub scanned-In :
        {x : A}
        → In x (scan_rows key size due cursor rows)
        → In x rows × (after_cursor key cursor x ≡ true)
    unfolding scan_rows
    scanned-In {x} i =
        let chosen = keep (scanned key due cursor) rows in
        All-In (λ x. In x rows × (after_cursor key cursor x ≡ true)) (sort_by_key key chosen)
          (All-sort (λ x. In x rows × (after_cursor key cursor x ≡ true)) chosen
            (All-of (λ x. In x rows × (after_cursor key cursor x ≡ true)) chosen
              (λ y j.
                let (k, e) = In-keep (scanned key due cursor) rows j in
                (k, (and-eq-true (due y) (after_cursor key cursor y) e).1))))
          (In-take size (sort_by_key key chosen) i)

    -- Where a batch ends: at a row beyond the cursor, or at the end of the rows.
    pub batch_end :
        ((l : A) × In l (scan_rows key size due cursor rows)
          × (next_cursor key size (scan_rows key size due cursor rows) ≡ some (key l)))
        ⊎ (next_cursor key size (scan_rows key size due cursor rows) ≡ none)
    unfolding next_cursor
    batch_end = end_of (scan_rows key size due cursor rows)
      where
        end_of :
            (batch : List A)
            → ((l : A) × In l batch × (next_cursor key size batch ≡ some (key l)))
              ⊎ (next_cursor key size batch ≡ none)
        end_of [] = inr (if_both (λ c. c ≡ none) (0 == size) refl refl)
        end_of (x ∷ xs) =
            let (l, i, e) = last_key-In none x xs in
            if_both (λ c. ((m : A) × In m (x ∷ xs) × (c ≡ some (key m))) ⊎ (c ≡ none))
              (length (x ∷ xs) == size) (inl (l, i, e)) (inr refl)
