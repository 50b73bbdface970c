-- ===== src/Redactor/Values.antt =====
-- The values that a redactor looks for: none is empty, and the first is as long as any.

use grok_bot_v.Prelude.Pairs.{All-keep}
use grok_bot_v.Prelude.{
  ℕ, ◌≤◌, ◌<◌, not, List, [], ◌∷◌, leb, length, keep, All, if_both, if_cases, arith,
}
use grok_bot_v.Redactor.{
  Units, same_units, is_given, distinct, insert_longest, sort_longest, values_of, max_length,
}

-- Values that are no longer than a bound, and not empty.
abbrev pub Fits : ℕ → Units → Type 0
Fits max v = (0 < length v) × (length v ≤ max)

-- The values are sorted, so that the first is as long as any, and none is empty.
All-insert :
    (P : Units → Type 0) (s : Units) (ts : List Units)
    → P s
    → All P ts
    → All P (insert_longest s ts)
All-insert P s [] h k = (h, tt)
All-insert P s (t ∷ ts) h k =
    if_both (All P) (leb (length t) (length s)) (h, k) (k.0, All-insert P s ts h k.1)

All-sort : (P : Units → Type 0) (ss : List Units) → All P ss → All P (sort_longest ss)
All-sort P [] h = tt
All-sort P (s ∷ ss) h = All-insert P s (sort_longest ss) h.0 (All-sort P ss h.1)

All-distinct : (P : Units → Type 0) (ss : List Units) → All P ss → All P (distinct ss)
All-distinct P [] h = tt
All-distinct P (s ∷ ss) h =
    (h.0, All-keep P (λ t. not (same_units s t)) (distinct ss) (All-distinct P ss h.1))

All-given : (ss : List Units) → All (λ (v : Units). 0 < length v) (keep is_given ss)
All-given [] = tt
All-given ([] ∷ ss) = All-given ss
All-given ((c ∷ s) ∷ ss) = (omega arith, All-given ss)

abbrev Below : ℕ → Units → Type 0
Below max v = length v ≤ max

All-Below_more : (a b : ℕ) (ts : List Units) → a ≤ b → All (Below a) ts → All (Below b) ts
All-Below_more a b [] le h = tt
All-Below_more a b (t ∷ ts) le h = (omega (arith, h.0), All-Below_more a b ts le h.1)

first_longest-insert :
    (s : Units) (ts : List Units)
    → All (Below (max_length ts)) ts
    → All (Below (max_length (insert_longest s ts))) (insert_longest s ts)
first_longest-insert s [] h = (omega arith, tt)
first_longest-insert s (t ∷ ts) h =
    if_cases (λ (l : List Units). All (Below (max_length l)) l) (leb (length t) (length s))
      (λ le. (omega arith, All-Below_more (length t) (length s) (t ∷ ts) (ground arith) h))
      (λ gt. (omega arith, All-insert (Below (length t)) s ts (ground arith) h.1))

first_longest-sort :
    (ss : List Units) → All (Below (max_length (sort_longest ss))) (sort_longest ss)
first_longest-sort [] = tt
first_longest-sort (s ∷ ss) = first_longest-insert s (sort_longest ss) (first_longest-sort ss)

All-both :
    (max : ℕ) (vs : List Units)
    → All (λ (v : Units). 0 < length v) vs
    → All (Below max) vs
    → All (Fits max) vs
All-both max [] h k = tt
All-both max (v ∷ vs) h k = ((h.0, k.0), All-both max vs h.1 k.1)

pub values_of-fit :
    (secrets : List Units) → All (Fits (max_length (values_of secrets))) (values_of secrets)
unfolding values_of
values_of-fit secrets =
    let given = distinct (keep is_given secrets) in
    All-both (max_length (sort_longest given)) (sort_longest given)
      (All-sort (λ v. 0 < length v) given
        (All-distinct (λ v. 0 < length v) (keep is_given secrets) (All-given secrets)))
      (first_longest-sort given)
