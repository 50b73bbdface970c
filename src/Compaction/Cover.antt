-- ===== src/Compaction/Cover.antt =====
-- A cursor that advances passes over no message.

use grok_bot_v.Prelude.{
  ℕ, zero, suc, ◌+◌, ◌≤◌, ◌<◌, ◌≡◌, ◌≢◌, refl, true, Option, List, [], ◌∷◌, ◌==◌, take, length,
  keep, All, In, NoClash, In-keep, In-keep_of, any-false, and-eq-true, Bool-cases, inl, inr, arith,
}
use grok_bot_v.Prelude.Pairs.{All-of}
use grok_bot_v.Prelude.Sorting.{
  sort_by, Ascends, Distinct, Ascends-sort_by, All-sort_by, In-sort_by, In-take_window,
}
use grok_bot_v.Store.Blocks.{RowId}
use grok_bot_v.Store.Schema.{Db, Message}
use grok_bot_v.History.{message_clash}
use grok_bot_v.Compaction.Plan.{
  compaction_batch_size, first_uncompacted, uncompacted, next_batch, contiguous, seq_of,
  last_seq_or,
}

pub contiguous-last :
    (lo : ℕ) (m : Message) (ms : List Message)
    → contiguous lo (m ∷ ms) ≡ true
    → suc (last_seq_or m.seq ms) ≡ lo + length (m ∷ ms)
contiguous-last lo m [] e = ground arith
contiguous-last lo m (x ∷ xs) e =
    let (first, rest) = and-eq-true (m.seq == lo) _ e in
    omega (arith, contiguous-last (suc lo) x xs rest)

pub contiguous-take :
    (n lo : ℕ) (ms : List Message) → contiguous lo ms ≡ true → contiguous lo (take n ms) ≡ true
contiguous-take zero lo ms e = refl
contiguous-take (suc n) lo [] e = refl
contiguous-take (suc n) lo (m ∷ ms) e = ground (arith, contiguous-take n (suc lo) ms)

All-take {ℓ} : {A : Type 0} (P : A → Type ℓ) (n : ℕ) (xs : List A) → All P xs → All P (take n xs)
All-take P zero xs h = tt
All-take P (suc n) [] h = tt
All-take P (suc n) (x ∷ xs) h = (h.0, All-take P n xs h.1)

Ascends-take : (n : ℕ) (xs : List Message) → Ascends seq_of xs → Ascends seq_of (take n xs)
Ascends-take zero xs h = tt
Ascends-take (suc n) [] h = tt
Ascends-take (suc n) (x ∷ xs) h = (All-take (λ y. x.seq < y.seq) n xs h.0, Ascends-take n xs h.1)

module _ (thread_id : RowId) (cursor : Option ℕ) where
  Distinct-uncompacted :
      (rows : List Message)
      → NoClash message_clash rows
      → Distinct seq_of (keep (uncompacted thread_id cursor) rows)
  Distinct-uncompacted [] h = tt
  Distinct-uncompacted (x ∷ xs) h = elim (Bool-cases (uncompacted thread_id cursor x)) [
    | inl hit ↦ rw hit (
      All-of (λ y. x.seq ≢ y.seq) (keep (uncompacted thread_id cursor) xs)
          (λ y i.
            let kept = In-keep (uncompacted thread_id cursor) xs i in
            let apart = any-false (message_clash x) xs h.0 kept.0 in
            λ same. ground (arith, kept.1)),
      Distinct-uncompacted xs h.1,
    )
    | inr miss ↦ rw miss (Distinct-uncompacted xs h.1)
  ]

  All-Fresh_sorted :
      (db : Db)
      → All
          (λ m. first_uncompacted cursor ≤ m.seq)
          (sort_by seq_of (keep (uncompacted thread_id cursor) db.messages))
  All-Fresh_sorted db =
      All-sort_by seq_of (λ m. first_uncompacted cursor ≤ m.seq)
        (keep (uncompacted thread_id cursor) db.messages)
        (All-of (λ m. first_uncompacted cursor ≤ m.seq)
          (keep (uncompacted thread_id cursor) db.messages)
          (λ m i.
            let hit = (In-keep (uncompacted thread_id cursor) db.messages i).1 in ground arith))

  -- A message that is not compacted and comes soon enough is in the batch, and among its first.
  pub In-next_batch :
      (n : ℕ) (db : Db) {m : Message}
      → NoClash message_clash db.messages
      → n ≤ compaction_batch_size
      → In m db.messages
      → m.thread_id ≡ thread_id
      → first_uncompacted cursor ≤ m.seq
      → m.seq < first_uncompacted cursor + n
      → In m (take n (next_batch thread_id cursor db))
  unfolding next_batch
  In-next_batch n db {m} h small i same from lt =
      let chosen = keep (uncompacted thread_id cursor) db.messages in
      let sorted = sort_by seq_of chosen in
      let fresh = All-Fresh_sorted db in
      let hit : uncompacted thread_id cursor m ≡ true = ground arith in
      let up = Ascends-sort_by seq_of chosen (Distinct-uncompacted db.messages h) in
      let in_batch =
        In-take_window seq_of compaction_batch_size (first_uncompacted cursor) sorted up fresh
          (In-sort_by seq_of chosen (In-keep_of (uncompacted thread_id cursor) db.messages i hit))
          (omega arith) in
      In-take_window seq_of n (first_uncompacted cursor) (take compaction_batch_size sorted)
        (Ascends-take compaction_batch_size sorted up)
        (All-take (λ (m : Message). first_uncompacted cursor ≤ m.seq) compaction_batch_size sorted
          fresh)
        in_batch lt
