-- ===== src/Events/Follow/Order.antt =====
-- The order in which a subscriber of a thread gets its events, and when it has got them all.
use grok_bot_v.Prelude.{
  ℕ, zero, suc, ◌≤◌, ◌<◌, ◌≡◌, ◌↔◌, refl, ap, ◌∙◌, Bool, true, false, ◌||◌, List, [], ◌∷◌, ◌++◌,
  arith, ◌==◌, leb, Option, none, some, any, keep, take, length, All, In, here, there, In-cons,
  In-keep_of, NoClash, Bool-cases, inl, inr,
}
use grok_bot_v.Store.Blocks.{RowId}
use grok_bot_v.Store.Schema.{Event}
use grok_bot_v.History.{event_clash}
use grok_bot_v.Events.Follow.{
  event_batch_size, first_beyond, wanted, insert_by_seq, sort_by_seq, events_after, last_seq,
  follow, reads_again,
}

-- The event has a number beyond the cursor: any number, if the cursor is -1.
abbrev pub IsBeyond : Option ℕ → Event → Type 0
IsBeyond none e = Unit
IsBeyond (some cursor) e = cursor < e.seq

-- The sequence numbers rise from one event to the next, from beyond the cursor on.
abbrev pub Ascends : Option ℕ → List Event → Type 0
Ascends cursor [] = Unit
Ascends cursor (e ∷ es) = IsBeyond cursor e × Ascends (some e.seq) es

-- The same by the test of the query.
abbrev Rises : Option ℕ → List Event → Type 0
Rises cursor [] = Unit
Rises cursor (e ∷ es) = (first_beyond cursor ≤ e.seq) × Rises (some e.seq) es

first_beyond-IsBeyond :
    (cursor : Option ℕ) (e : Event) → (first_beyond cursor ≤ e.seq) ↔ IsBeyond cursor e
first_beyond-IsBeyond none e = (λ le. tt, λ any. omega arith)
first_beyond-IsBeyond (some c) e = (λ le. omega (arith, le), λ lt. omega (arith, lt))

Rises-Ascends : (cursor : Option ℕ) (es : List Event) → Rises cursor es → Ascends cursor es
Rises-Ascends cursor [] h = tt
Rises-Ascends cursor (e ∷ es) h =
    ((first_beyond-IsBeyond cursor e).0 h.0, Rises-Ascends (some e.seq) es h.1)

Rises-append :
    (cursor : Option ℕ) (xs ys : List Event)
    → Rises cursor xs
    → Rises (last_seq cursor xs) ys
    → Rises cursor (xs ++ ys)
Rises-append cursor [] ys h k = k
Rises-append cursor (x ∷ xs) ys h k = (h.0, Rises-append (some x.seq) xs ys h.1 k)

Rises-take :
    (n : ℕ) (cursor : Option ℕ) (xs : List Event) → Rises cursor xs → Rises cursor (take n xs)
Rises-take zero cursor xs h = tt
Rises-take (suc n) cursor [] h = tt
Rises-take (suc n) cursor (x ∷ xs) h = (h.0, Rises-take n (some x.seq) xs h.1)

abbrev has_seq : ℕ → Event → Bool
has_seq s e = e.seq == s

Rises-insert :
    (cursor : Option ℕ) (e : Event) (xs : List Event)
    → first_beyond cursor ≤ e.seq
    → any (has_seq e.seq) xs ≡ false
    → Rises cursor xs
    → Rises cursor (insert_by_seq e xs)
Rises-insert cursor e [] lt new h = (lt, tt)
Rises-insert cursor e (x ∷ xs) lt new h = elim (Bool-cases (leb e.seq x.seq)) [
  | inl le ↦ rw le (lt, (ground arith, h.1))
  | inr gt ↦ rw gt (h.0, Rises-insert (some x.seq) e xs (ground arith) (ground arith) h.1)
]

any-insert :
    (p : Event → Bool) (e : Event) (xs : List Event)
    → any p (insert_by_seq e xs) ≡ (p e || any p xs)
any-insert p e [] = refl
any-insert p e (x ∷ xs) = ground (arith, any-insert p e xs)

any-sort : (p : Event → Bool) (xs : List Event) → any p (sort_by_seq xs) ≡ any p xs
any-sort p [] = refl
any-sort p (x ∷ xs) = ground (arith, any-insert p x (sort_by_seq xs), any-sort p xs)

any-keep :
    (p q r : Event → Bool) (xs : List Event)
    → ((y : Event) → p y ≡ true → r y ≡ true → q y ≡ true)
    → any q xs ≡ false
    → any r (keep p xs) ≡ false
any-keep p q r [] h e = refl
any-keep p q r (x ∷ xs) h e = elim (Bool-cases (p x)) [
  | inl hit ↦ elim (Bool-cases (r x)) [
    | inl also ↦ absurd (ground (arith, h x hit also))
    | inr differs ↦ rw (hit, differs) (any-keep p q r xs h (ground arith))
  ]
  | inr miss ↦ rw miss (any-keep p q r xs h (ground arith))
]

module _ (thread_id : RowId) (cursor : Option ℕ) where
  Rises-sort :
      (xs : List Event)
      → NoClash event_clash xs
      → Rises cursor (sort_by_seq (keep (wanted thread_id cursor) xs))
  Rises-sort [] unique = tt
  Rises-sort (x ∷ xs) unique = elim (Bool-cases (wanted thread_id cursor x)) [
    | inl hit ↦
        let new : any (has_seq x.seq) (keep (wanted thread_id cursor) xs) ≡ false =
          any-keep (wanted thread_id cursor) (event_clash x) (has_seq x.seq) xs
            (λ y p r. ground arith) unique.0 in
        rw hit (
          Rises-insert cursor x (sort_by_seq (keep (wanted thread_id cursor) xs)) (ground arith)
            (any-sort (has_seq x.seq) (keep (wanted thread_id cursor) xs) ∙ new)
            (Rises-sort xs unique.1))
    | inr miss ↦ rw miss (Rises-sort xs unique.1)
  ]

follow-Rises :
    (thread_id : RowId) (cursor : Option ℕ) (reads : List (List Event))
    → All (NoClash event_clash) reads
    → Rises cursor (follow thread_id cursor reads)
unfolding follow events_after
follow-Rises thread_id cursor [] unique = tt
follow-Rises thread_id cursor (now ∷ later) unique =
    let batch = events_after thread_id cursor (some event_batch_size) now in
    Rises-append cursor batch _
      (Rises-take event_batch_size cursor _ (Rises-sort thread_id cursor now unique.0))
      (follow-Rises thread_id (last_seq cursor batch) later unique.1)

-- If at every read no two events of the database share a thread and a sequence number, a subscriber
-- gets events with rising sequence numbers, all beyond its cursor, which
-- may be -1: none twice, and none out of order.
pub follow-Ascends :
    (thread_id : RowId) (cursor : Option ℕ) (reads : List (List Event))
    → All (NoClash event_clash) reads
    → Ascends cursor (follow thread_id cursor reads)
follow-Ascends thread_id cursor reads unique =
    Rises-Ascends cursor (follow thread_id cursor reads)
      (follow-Rises thread_id cursor reads unique)

In-insert : (e : Event) (xs : List Event) {y : Event} → In y (e ∷ xs) → In y (insert_by_seq e xs)
In-insert e [] i = i
In-insert e (x ∷ xs) i = elim (Bool-cases (leb e.seq x.seq)) [
  | inl le ↦ rw le i
  | inr gt ↦ rw gt (elim (In-cons i) [
    | inl same ↦ there (In-insert e xs (here same))
    | inr rest ↦ elim (In-cons rest) [
      | inl this ↦ here this
      | inr later ↦ there (In-insert e xs (there later))
    ]
  ])
]

In-sort : (xs : List Event) {y : Event} → In y xs → In y (sort_by_seq xs)
In-sort [] i = i
In-sort (x ∷ xs) (here same) = In-insert x (sort_by_seq xs) (here same)
In-sort (x ∷ xs) (there i) = In-insert x (sort_by_seq xs) (there (In-sort xs i))

length-take_le : (n : ℕ) (xs : List Event) → length (take n xs) ≤ n
length-take_le zero xs = omega arith
length-take_le (suc n) [] = omega arith
length-take_le (suc n) (x ∷ xs) = omega (arith, length-take_le n xs)

take-short : (n : ℕ) (xs : List Event) → length (take n xs) < n → take n xs ≡ xs
take-short zero xs lt = absurd (ground arith)
take-short (suc n) [] lt = refl
take-short (suc n) (x ∷ xs) lt = ap (λ ys. x ∷ ys) (take-short n xs (omega (arith, lt)))

take-not_full : (n : ℕ) (xs : List Event) → (length (take n xs) == n) ≡ false → take n xs ≡ xs
take-not_full n xs short = take-short n xs (ground (arith, length-take_le n xs))

take-not_full_In :
    (n : ℕ) (xs : List Event) {e : Event}
    → (length (take n xs) == n) ≡ false
    → In e xs
    → In e (take n xs)
take-not_full_In n xs short i = rw (take-not_full n xs short) i

wanted-true :
    (thread_id : RowId) (cursor : Option ℕ) (e : Event)
    → e.thread_id ≡ thread_id
    → first_beyond cursor ≤ e.seq
    → wanted thread_id cursor e ≡ true
wanted-true thread_id cursor e same lt = ground arith

-- When the loop stops reading because a batch is not full, the batch holds every event of the thread
-- beyond the cursor, which may be -1, that the database had at that read.
pub events_after_complete :
    (thread_id : RowId) (cursor : Option ℕ) (now : List Event) (e : Event)
    → reads_again (events_after thread_id cursor (some event_batch_size) now) ≡ false
    → In e now
    → e.thread_id ≡ thread_id
    → IsBeyond cursor e
    → In e (events_after thread_id cursor (some event_batch_size) now)
unfolding events_after reads_again
events_after_complete thread_id cursor now e short i same lt =
    take-not_full_In event_batch_size (sort_by_seq (keep (wanted thread_id cursor) now)) short (
      In-sort (keep (wanted thread_id cursor) now) (
        In-keep_of (wanted thread_id cursor) now i
          (wanted-true thread_id cursor e same ((first_beyond-IsBeyond cursor e).1 lt))))
