-- ===== src/TransactionRetry/Attempts.antt =====
-- Which attempt decides.
use grok_bot_v.Prelude.{
  ℕ, zero, suc, ◌+◌, ◌<◌, ◌≤◌, ◌≡◌, ◌⊎◌, refl, ap, ◌∙◌, Bool, true, false, ◌&&◌, Option, none, some,
  inl, inr, arith, Bool-cases,
}
use grok_bot_v.TransactionRetry.{
  Outcome, returned, thrown, is_retryable_transaction_conflict, max_transaction_attempts, settle,
  attempts_from, with_transaction_retry,
}

abbrev pub conflicted : {A : Type 0} → Outcome A → Bool
conflicted (returned a) = false
conflicted (thrown e) = is_retryable_transaction_conflict e

module _ {A S : Type 0} (operation : S → Outcome A × S) where
  -- What an attempt gives, counted from 0, and the state after it.
  abbrev pub attempt : ℕ → S → Outcome A × S
  attempt zero s = operation s
  attempt (suc k) s = attempt k (operation s).1

  -- Whether each of the attempts before it met a conflict.
  abbrev pub conflicts : ℕ → S → Bool
  conflicts zero s = true
  conflicts (suc k) s = conflicted (operation s).0 && conflicts k (operation s).1

  -- The attempt that decides, of those left after the first.
  abbrev pub Decides : ℕ → S → Option (Outcome A × S) → ℕ → Type 0
  Decides left s r k =
      (k ≤ left)
      × (r ≡ some (attempt k s))
      × (conflicts k s ≡ true)
      × ((conflicted (attempt k s).0 ≡ false) ⊎ (k ≡ left))

  settle_last :
      (n : ℕ) (o : Outcome A) (s : S) (rest : Option (Outcome A × S))
      → max_transaction_attempts ≤ n
      → settle n o s rest ≡ some (o, s)
  settle_last n (returned a) s rest e = refl
  settle_last n (thrown c) s rest e = ground arith

  settle-conflicted :
      (n : ℕ) (o : Outcome A) (s : S) (rest : Option (Outcome A × S))
      → n < max_transaction_attempts
      → conflicted o ≡ true
      → settle n o s rest ≡ rest
  settle-conflicted n (returned a) s rest e f = cc
  settle-conflicted n (thrown c) s rest e f = ground arith

  settle_done :
      (n : ℕ) (o : Outcome A) (s : S) (rest : Option (Outcome A × S))
      → conflicted o ≡ false
      → settle n o s rest ≡ some (o, s)
  settle_done n (returned a) s rest f = refl
  settle_done n (thrown c) s rest f = ground arith

  attempts_from-Decides :
      (left n : ℕ) (s : S)
      → left + n ≡ max_transaction_attempts
      → (k : ℕ) × Decides left s (attempts_from operation (suc left) n s) k
  unfolding attempts_from
  attempts_from-Decides zero n s e = (
    0,
    (
      omega arith,
      settle_last n (operation s).0 (operation s).1 none (omega (arith, e)),
      refl,
      inr refl,
    ),
  )
  attempts_from-Decides (suc left) n s e =
      let o = (operation s).0 in
      let later = (operation s).1 in
      let rest = attempts_from operation (suc left) (n + 1) later in
      let next = attempts_from-Decides left (n + 1) later (omega (arith, e)) in
      elim (Bool-cases (conflicted o)) [
        | inl again ↦
            let k = next.0 in
            (
              suc k,
              (
                omega (arith, next.1.0),
                settle-conflicted n o later rest (omega (arith, e)) again ∙ next.1.1,
                rw again next.1.2,
                elim next.1.3 [ inl done ↦ inl done | inr last ↦ inr (ap suc last) ],
              ),
            )
        | inr done ↦ (0, (omega arith, settle_done n o later rest done, refl, inl done))
      ]

  -- A call returns, with what one of at most three attempts gave and the state that it left: every
  -- attempt before it met a conflict that may be tried again, and it did not or is the third.
  pub with_transaction_retry_lem :
      (s : S)
      → (k : ℕ) × (k ≤ 2)
        × (with_transaction_retry operation s ≡ some (attempt k s))
        × (conflicts k s ≡ true)
        × ((conflicted (attempt k s).0 ≡ false) ⊎ (k ≡ 2))
  unfolding with_transaction_retry
  with_transaction_retry_lem s =
      let d = attempts_from-Decides 2 1 s refl in (d.0, d.1.0, d.1.1, d.1.2, d.1.3)
