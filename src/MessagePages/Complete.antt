-- ===== src/MessagePages/Complete.antt =====
-- All messages of a thread, loaded page by page, are the messages of the thread.
use mathlib.Core.Path.{subst}
use mathlib.Core.List.{
  reverse, reverse-append, reverse-cons, reverse-reverse, cons-ne-nil, append_assoc, append-nil,
  map-append,
}
use mathlib.Core.Option
use grok_bot_v.Prelude.{
  ℕ, zero, suc, ◌-◌, ◌*◌, ◌≤◌, ◌<◌, ◌≡◌, ◌≢◌, ◌⊎◌, refl, sym, ap, ◌∙◌, Bool, true, false, Option,
  none, some, List, [], ◌∷◌, ◌++◌, map, if◌then◌else◌, ltb, keep, take, drop, length, All, In, here,
  there, NoClash, Bool-cases, any-false, ==_iff, length-append, In-keep, inl, inr, arith,
}
use grok_bot_v.Prelude.Pairs.{
  All-of, All-In, Pairs-keep, Pairs-reverse, keep-reverse, keep-keep, In-reverse, In-take,
}
use grok_bot_v.Prelude.Sorting.{
  sort_by, Descends, Distinct, Ascends-sort_by, All-sort_by, sort_by-keep, keep-below_last,
}
use grok_bot_v.Store.Blocks.{RowId}
use grok_bot_v.Store.Schema.{Message}
use grok_bot_v.History.{message_clash}
use grok_bot_v.MessagePages.{
  ThreadMessage, to_thread_message, seq_of, of_thread, newest_first, older_than, first_seq,
  load_pages, load_all_messages, flat, MessagePage, and_older,
}

-- The messages of a thread, the oldest first.
abbrev pub in_order : RowId → List Message → List Message
in_order thread_id rows = sort_by seq_of (keep (of_thread thread_id) rows)

-- Below each message that the thread had at the first read, a later read finds what the first did:
-- nothing was deleted there, inserted or changed.
abbrev pub SameBelow : RowId → List Message → List Message → Type 0
SameBelow thread_id first now =
    (m : Message)
    → In m first
    → m.thread_id ≡ thread_id
    → keep (older_than thread_id m.seq) now ≡ keep (older_than thread_id m.seq) first

pub Distinct-keep_thread :
    (thread_id : RowId) (rows : List Message)
    → NoClash message_clash rows
    → Distinct seq_of (keep (of_thread thread_id) rows)
Distinct-keep_thread thread_id [] h = tt
Distinct-keep_thread thread_id (x ∷ xs) h = elim (Bool-cases (of_thread thread_id x)) [
  | inl hit ↦ rw hit (
    All-of (λ y. x.seq ≢ y.seq) (keep (of_thread thread_id) xs)
        (λ y i.
          let kept = In-keep (of_thread thread_id) xs i in
          let apart = any-false (message_clash x) xs h.0 kept.0 in λ same. ground (arith, kept.1)),
    Distinct-keep_thread thread_id xs h.1,
  )
  | inr miss ↦ rw miss (Distinct-keep_thread thread_id xs h.1)
]

abbrev below : ℕ → Message → Bool
below s m = ltb m.seq s

newest_first-below :
    (thread_id : RowId) (s : ℕ) (rows : List Message)
    → NoClash message_clash rows
    → newest_first thread_id (some s) rows ≡ keep (below s) (newest_first thread_id none rows)
newest_first-below thread_id s rows h =
    let chosen = keep (of_thread thread_id) rows in
    let twice : keep (below s) chosen ≡ keep (older_than thread_id s) rows =
      keep-keep (below s) (of_thread thread_id) (older_than thread_id s) rows (λ x. ground arith) in
    let sorted = sort_by-keep seq_of (below s) chosen (Distinct-keep_thread thread_id rows h) in
    ap (λ l. reverse (sort_by seq_of l)) (sym twice)
    ∙ ap reverse sorted
    ∙ sym (keep-reverse (below s) (sort_by seq_of chosen))

take-take : (n : ℕ) (xs : List Message) → take n (take (suc n) xs) ≡ take n xs
take-take zero xs = refl
take-take (suc n) [] = refl
take-take (suc n) (x ∷ xs) = ap (λ l. x ∷ l) (take-take n xs)

more_than-take : (n : ℕ) (xs : List Message) → ltb n (length (take (suc n) xs)) ≡ ltb n (length xs)
more_than-take zero [] = refl
more_than-take zero (x ∷ xs) = ground arith
more_than-take (suc n) [] = refl
more_than-take (suc n) (x ∷ xs) = ground (arith, more_than-take n xs)

take_all : (n : ℕ) (xs : List Message) → length xs ≤ n → take n xs ≡ xs
take_all zero [] le = refl
take_all zero (x ∷ xs) le = absurd (omega arith)
take_all (suc n) [] le = refl
take_all (suc n) (x ∷ xs) le = ap (λ l. x ∷ l) (take_all n xs (omega arith))

take-append-drop : (n : ℕ) (xs : List Message) → take n xs ++ drop n xs ≡ xs
take-append-drop zero xs = refl
take-append-drop (suc n) [] = refl
take-append-drop (suc n) (x ∷ xs) = ap (λ l. x ∷ l) (take-append-drop n xs)

length-drop : (n : ℕ) (xs : List Message) → length (drop n xs) ≡ length xs - n
length-drop zero xs = omega arith
length-drop (suc n) [] = omega arith
length-drop (suc n) (x ∷ xs) = omega (arith, length-drop n xs)

In-drop : (n : ℕ) (xs : List Message) {y : Message} → In y (drop n xs) → In y xs
In-drop zero xs i = i
In-drop (suc n) [] i = i
In-drop (suc n) (x ∷ xs) i = there (In-drop n xs i)

Descends-newest_first :
    (thread_id : RowId) (rows : List Message)
    → NoClash message_clash rows
    → Descends seq_of (newest_first thread_id none rows)
Descends-newest_first thread_id rows h =
    let chosen = keep (of_thread thread_id) rows in
    Pairs-reverse (λ a b. b.seq < a.seq) (sort_by seq_of chosen)
      (Ascends-sort_by seq_of chosen (Distinct-keep_thread thread_id rows h))

-- What a read before a cursor has to find, in terms of the rows that are still to come.
abbrev Finds : RowId → List Message → List Message → Type 0
Finds thread_id rest now =
    (m : Message) → In m rest → newest_first thread_id (some m.seq) now ≡ keep (below m.seq) rest

module _ (thread_id : RowId) (n : ℕ) (rest : List Message) (x : Message) (ys : List Message)
    (h : Descends seq_of rest) (e : reverse (take (suc n) rest) ≡ x ∷ ys) where
  drop-below : drop (suc n) rest ≡ keep (below x.seq) rest
  drop-below = sym (keep-below_last seq_of n rest x ys h e)

  In-drop-below : {m : Message} → In m (drop (suc n) rest) → below x.seq m ≡ true
  In-drop-below {m} i = (In-keep (below x.seq) rest (subst (λ l. In m l) drop-below i)).1

  Finds-drop :
      (now : List Message) → Finds thread_id rest now → Finds thread_id (drop (suc n) rest) now
  Finds-drop now finds m i =
      let lower = In-drop-below i in
      finds m (In-drop (suc n) rest i)
      ∙ sym (keep-keep (below m.seq) (below x.seq) (below m.seq) rest (λ y. ground arith))
      ∙ ap (keep (below m.seq)) (sym drop-below)

  All-Finds-drop :
      (reads : List (List Message))
      → All (Finds thread_id rest) reads
      → All (Finds thread_id (drop (suc n) rest)) reads
  All-Finds-drop [] f = tt
  All-Finds-drop (now ∷ later) f = (Finds-drop now f.0, All-Finds-drop later f.1)

flat-append : (ps qs : List (List ThreadMessage)) → flat (ps ++ qs) ≡ flat ps ++ flat qs
flat-append [] qs = refl
flat-append (p ∷ ps) qs =
    ap (λ l. p ++ l) (flat-append ps qs) ∙ sym (append_assoc p (flat ps) (flat qs))

abbrev joined : Option (List (List ThreadMessage)) → Option (List ThreadMessage)
joined = Option.map (λ pages. flat (reverse pages))

joined-cons :
    (p : List ThreadMessage) (rest : Option (List (List ThreadMessage))) (all : List ThreadMessage)
    → joined rest ≡ some all
    → joined (Option.map (λ (pages : List (List ThreadMessage)). p ∷ pages) rest) ≡ some (all ++ p)
joined-cons p none all e = cc
joined-cons p (some pages) all e =
    let same : flat (reverse pages) ≡ all = cc in
    ap some (
      ap flat (reverse-cons p pages)
      ∙ flat-append (reverse pages) (p ∷ [])
      ∙ rw same (ap (λ l. all ++ l) (append-nil p)))

page-joined :
    (n : ℕ) (rest : List Message)
    → map to_thread_message (reverse (drop n rest)) ++ map to_thread_message (reverse (take n rest))
      ≡ map to_thread_message (reverse rest)
page-joined n rest =
    sym (map-append to_thread_message (reverse (drop n rest)) (reverse (take n rest)))
    ∙ ap (map to_thread_message)
        (sym (reverse-append (take n rest) (drop n rest)) ∙ ap reverse (take-append-drop n rest))

-- The page of the rows that are still to come, when a row more than it holds was asked for.
abbrev page_from : RowId → ℕ → List Message → Bool → List Message → MessagePage
page_from thread_id n rest more chosen = record {
  thread_id = thread_id;
  messages = map to_thread_message chosen;
  older_cursor = if more then first_seq (map to_thread_message chosen) else none;
}

load_pages-cons :
    (thread_id : RowId) (n : ℕ) (before : Option ℕ) (rest now : List Message)
    (later : List (List Message))
    → newest_first thread_id before now ≡ rest
    → load_pages thread_id n before (now ∷ later)
      ≡ and_older
          (page_from thread_id n rest (ltb n (length rest)) (reverse (take n rest)))
          (λ cursor. load_pages thread_id n (some cursor) later)
unfolding load_pages
load_pages-cons thread_id n before rest now later e =
    rw (e, take-take n rest, more_than-take n rest) refl

list-cases : (xs : List Message) → (xs ≡ []) ⊎ ((x : Message) × (ys : List Message) × (xs ≡ x ∷ ys))
list-cases [] = inl refl
list-cases (x ∷ xs) = inr (x, xs, refl)

In-first :
    (n : ℕ) (rest : List Message) (x : Message) (ys : List Message)
    → reverse (take (suc n) rest) ≡ x ∷ ys
    → In x rest
In-first n rest x ys e =
    In-take (suc n) rest
      (In-reverse (take (suc n) rest) (subst (λ (l : List Message). In x l) (sym e) (here refl)))

not_empty : (n : ℕ) (rest : List Message) → reverse (take (suc n) rest) ≡ [] → length rest ≡ 0
not_empty n [] e = refl
not_empty n (x ∷ xs) e =
    absurd (cons-ne-nil x (take n xs) (sym (reverse-reverse (x ∷ take n xs)) ∙ ap reverse e))

load_pages-rest :
    (thread_id : RowId) (n : ℕ) (before : Option ℕ) (rest now : List Message)
    (later : List (List Message))
    → Descends seq_of rest
    → newest_first thread_id before now ≡ rest
    → All (Finds thread_id rest) later
    → length rest ≤ suc n * suc (length later)
    → joined (load_pages thread_id (suc n) before (now ∷ later))
      ≡ some (map to_thread_message (reverse rest))
load_pages-rest thread_id n before rest now [] h e finds enough =
    let last : ltb (suc n) (length rest) ≡ false = ground arith in
    rw
      (
        load_pages-cons thread_id (suc n) before rest now [] e,
        last,
        take_all (suc n) rest (ground arith),
      )
      (ap some (append-nil _))
load_pages-rest thread_id n before rest now (next ∷ others) h e finds enough =
    rw (load_pages-cons thread_id (suc n) before rest now (next ∷ others) e)
      (elim (Bool-cases (ltb (suc n) (length rest))) [
        | inl more ↦ elim (list-cases (reverse (take (suc n) rest))) [
          | inl none_left ↦ absurd (ground (arith, not_empty n rest none_left))
          | inr (x, ys, first) ↦
              let left = drop (suc n) rest in
              let here_on : left ≡ keep (below x.seq) rest =
                drop-below thread_id n rest x ys h first in
              let ih =
                load_pages-rest thread_id n (some x.seq) left next others
                  (subst (Descends seq_of) (sym here_on)
                    (Pairs-keep (λ a b. b.seq < a.seq) (below x.seq) rest h))
                  (finds.0 x (In-first n rest x ys first) ∙ sym here_on)
                  (All-Finds-drop thread_id n rest x ys h first others finds.1)
                  (omega (arith, length-drop (suc n) rest)) in
              rw (more, first)
                (joined-cons (map to_thread_message (x ∷ ys)) _
                    (map to_thread_message (reverse left)) ih
                  ∙ ap some (
                      ap
                        (λ (c : List Message).
                          map to_thread_message (reverse left) ++ map to_thread_message c)
                        (sym first)
                      ∙ page-joined (suc n) rest))
        ]
        | inr last ↦ rw (last, take_all (suc n) rest (ground arith)) (ap some (append-nil _))
      ])

length-reverse : (xs : List Message) → length (reverse xs) ≡ length xs
length-reverse [] = refl
length-reverse (x ∷ xs) =
    ap length (reverse-cons x xs)
    ∙ omega (arith, length-append (reverse xs) (x ∷ []), length-reverse xs)

In-unsort :
    (thread_id : RowId) (first : List Message) {m : Message}
    → In m (newest_first thread_id none first)
    → In m first × (m.thread_id ≡ thread_id)
In-unsort thread_id first {m} i =
    let sorted = In-reverse (in_order thread_id first) i in
    let kept =
      All-In (λ x. In x first × (x.thread_id ≡ thread_id)) (in_order thread_id first)
        (All-sort_by seq_of (λ x. In x first × (x.thread_id ≡ thread_id))
          (keep (of_thread thread_id) first)
          (All-of (λ x. In x first × (x.thread_id ≡ thread_id)) (keep (of_thread thread_id) first)
            (λ x j.
              let k = In-keep (of_thread thread_id) first j in
              (k.0, (==_iff x.thread_id thread_id).0 k.1))))
        sorted in
    kept

SameBelow-Finds :
    (thread_id : RowId) (first now : List Message)
    → NoClash message_clash first
    → SameBelow thread_id first now
    → Finds thread_id (newest_first thread_id none first) now
SameBelow-Finds thread_id first now h same m i =
    let there_at_first = In-unsort thread_id first i in
    ap (λ l. reverse (sort_by seq_of l)) (same m there_at_first.0 there_at_first.1)
    ∙ newest_first-below thread_id m.seq first h

All-SameBelow-Finds :
    (thread_id : RowId) (first : List Message) (reads : List (List Message))
    → NoClash message_clash first
    → All (SameBelow thread_id first) reads
    → All (Finds thread_id (newest_first thread_id none first)) reads
All-SameBelow-Finds thread_id first [] h same = tt
All-SameBelow-Finds thread_id first (now ∷ later) h same = (
  SameBelow-Finds thread_id first now h same.0,
  All-SameBelow-Finds thread_id first later h same.1,
)

-- With pages of at least one message, no two messages of the first read at one place of a thread,
-- and every later read finding the same rows of the thread, in the same order of the table, below each
-- message that the thread had at the first read, so that none of them is deleted, inserted or changed:
-- loadAllMessages ends within as many reads as full pages and one more hold the messages, and
-- returns the messages that the thread had at the first read, in the order of their numbers.
pub load_all_messages_lem :
    (thread_id page_size : ℕ) (first : List Message) (later : List (List Message))
    → 0 < page_size
    → NoClash message_clash first
    → All (SameBelow thread_id first) later
    → length (in_order thread_id first) ≤ page_size * suc (length later)
    → load_all_messages thread_id page_size (first ∷ later)
      ≡ some (map to_thread_message (in_order thread_id first))
unfolding load_all_messages
load_all_messages_lem thread_id zero first later pos h same enough = absurd (omega arith)
load_all_messages_lem thread_id (suc n) first later pos h same enough =
    let rest = newest_first thread_id none first in
    load_pages-rest thread_id n none rest first later (Descends-newest_first thread_id first h) refl
      (All-SameBelow-Finds thread_id first later h same)
      (subst (λ (k : ℕ). k ≤ suc n * suc (length later))
        (sym (length-reverse (in_order thread_id first))) enough)
    ∙ ap some (ap (map to_thread_message) (reverse-reverse (in_order thread_id first)))
