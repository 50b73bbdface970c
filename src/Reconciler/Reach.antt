-- ===== src/Reconciler/Reach.antt =====
-- However far the cursor is, a row that stays due is scanned within a bounded number of scans.
use mathlib.Core.Path.{subst}
use grok_bot_v.Prelude.{
  ℕ, ◌+◌, ◌≤◌, ◌<◌, ◌≡◌, ◌⊎◌, refl, sym, Bool, true, Option, none, some, List, [], ◌∷◌, ◌==◌, keep,
  take, length, count_where, All, In, In-keep_of, In-append_left, In-append_right, ==_iff,
  Bool-cases, inl, inr, arith,
}
use grok_bot_v.Prelude.Pairs.{All-In}
use grok_bot_v.Reconciler.Keys.{Key, precedes, precedes_total, precedes_irrefl}
use grok_bot_v.Reconciler.Scan.{sort_by_key, after_cursor, scanned, scan_rows, next_cursor}
use grok_bot_v.Reconciler.Progress.{
  InOrder, scan_all, In-sort, Pairs-sort, taken_or_full, last_key-In, count_where-less,
  count_where-pos, count_where-le_length, after_later, scanned-In, batch_end,
}

-- No two rows have one identifier.
abbrev pub OneEach : {A : Type 0} → (A → Key) → List A → Type 0
OneEach {A} key rows = (a b : A) → In a rows → In b rows → (key a).id ≡ (key b).id → a ≡ b

module _ {A : Type 0} (key : A → Key) (size : ℕ) (rows : List A) (r : A) (pos : 0 < size)
    (one : OneEach key rows) (i : In r rows) where
  abbrev Goes : (A → Bool) → Option Key → Type 0
  Goes due cursor =
      In r (scan_rows key size due cursor rows)
      ⊎ ((l : A) × In l (scan_rows key size due cursor rows)
          × (next_cursor key size (scan_rows key size due cursor rows) ≡ some (key l))
          × (precedes (key l) (key r) ≡ true))

  module _ (due : A → Bool) (cursor : Option Key) where
    full_Goes :
        (batch : List A)
        → ((l : A) → In l batch → In l rows)
        → length batch ≡ size
        → All (λ y. InOrder key y r) batch
        → In r batch
          ⊎ ((l : A) × In l batch
              × (next_cursor key size batch ≡ some (key l))
              × (precedes (key l) (key r) ≡ true))
    unfolding next_cursor
    full_Goes [] within full behind = absurd (omega (arith, full))
    full_Goes (x ∷ xs) within full behind =
        let (l, j, e) = last_key-In key none x xs in
        let is_full : (length (x ∷ xs) == size) ≡ true = (==_iff (length (x ∷ xs)) size).1 full in
        elim (Bool-cases (precedes (key l) (key r))) [
          | inl before ↦ inr (l, j, rw is_full e, before)
          | inr not_before ↦
              let same = one l r (within l j) i (
                precedes_total (key l) (key r) not_before
                  (All-In (λ y. InOrder key y r) (x ∷ xs) behind j)) in
              inl (subst (λ (y : A). In y (x ∷ xs)) same j)
        ]

    scan-Goes : due r ≡ true → after_cursor key cursor r ≡ true → Goes due cursor
    unfolding scan_rows
    scan-Goes is_due after =
        let chosen = keep (scanned key due cursor) rows in
        let both : scanned key due cursor r ≡ true = ground arith in
        elim (taken_or_full key size (sort_by_key key chosen) r (Pairs-sort key chosen)
          (In-sort key chosen (In-keep_of (scanned key due cursor) rows i both))) [
            | inl taken ↦ inl taken
            | inr (full, behind) ↦
                full_Goes (take size (sort_by_key key chosen))
                  (λ l j. (scanned-In key size rows due cursor j).0) full behind
          ]

  abbrev left_after : Option Key → ℕ
  left_after cursor = count_where (after_cursor key cursor) rows

  -- The rows after the cursor get fewer when it moves to one of them.
  left-less :
      (cursor : Option Key) (l : A)
      → In l rows
      → after_cursor key cursor l ≡ true
      → left_after (some (key l)) < left_after cursor
  left-less cursor l j e =
      count_where-less key (after_cursor key cursor) (after_cursor key (some (key l))) rows
        (λ x f. after_later key cursor l x e f) j e (precedes_irrefl (key l))

  reach_ahead :
      (cursor : Option Key) (dues : List (A → Bool))
      → All (λ (due : A → Bool). due r ≡ true) dues
      → after_cursor key cursor r ≡ true
      → left_after cursor ≤ length dues
      → In r (scan_all key size rows cursor dues)
  unfolding scan_all
  reach_ahead cursor [] stays after enough =
      absurd (omega (arith, count_where-pos key (after_cursor key cursor) rows i after))
  reach_ahead cursor (due ∷ dues) stays after enough =
      let batch = scan_rows key size due cursor rows in
      elim (scan-Goes due cursor stays.0 after) [
        | inl taken ↦
            In-append_left (scan_all key size rows (next_cursor key size batch) dues) taken
        | inr (l, j, moved, before) ↦
            let (k, e) = scanned-In key size rows due cursor j in
            let later =
              reach_ahead (some (key l)) dues stays.1 before
                (omega (arith, enough, left-less cursor l k e)) in
            In-append_right batch
              (subst (λ (c : Option Key). In r (scan_all key size rows c dues)) (sym moved) later)
      ]

  pub reach :
      (cursor : Option Key) (dues : List (A → Bool))
      → All (λ (due : A → Bool). due r ≡ true) dues
      → left_after cursor + length rows < length dues
      → In r (scan_all key size rows cursor dues)
  unfolding scan_all
  reach cursor [] stays enough = absurd (omega (arith, enough))
  reach cursor (due ∷ dues) stays enough =
      let batch = scan_rows key size due cursor rows in
      elim (Bool-cases (after_cursor key cursor r)) [
        | inl after ↦ reach_ahead cursor (due ∷ dues) stays after (omega (arith, enough))
        | inr passed ↦ elim (batch_end key size rows due cursor) [
          | inl (l, j, moved) ↦
              let (k, e) = scanned-In key size rows due cursor j in
              let later =
                reach (some (key l)) dues stays.1 (omega (arith, enough, left-less cursor l k e)) in
              In-append_right batch
                (subst (λ (c : Option Key). In r (scan_all key size rows c dues)) (sym moved) later)
          | inr over ↦
              let later =
                reach_ahead none dues stays.1 refl
                  (omega (arith, enough, count_where-le_length key (after_cursor key none) rows)) in
              In-append_right batch
                (subst (λ (c : Option Key). In r (scan_all key size rows c dues)) (sym over) later)
        ]
      ]
