-- ===== src/JobQueue/Coupling.antt =====
-- The index and the handles of a job queue agree with the timers that are pending.
use mathlib.Core.Option
use mathlib.Core.Path.{subst}
use grok_bot_v.Prelude.{
  ℕ, ◌<◌, ◌≡◌, ◌⊎◌, refl, sym, ap, ◌∙◌, String, Bool, true, false, Option, none, some, List, [],
  ◌∷◌, map, if◌then◌else◌, ◌==◌, str_eq, text_is, delete_where, find_where, All, In, here, there,
  NoClash, NoClash-eq, NoClash-delete_where, find_where-In, find_where-none, ==_refl, Bool-cases,
  Option-cases, inl, inr, arith, eq_iff,
}
use grok_bot_v.JobQueue.{
  Payload, Timer, Queue, key_of, is_timer, lookup, remove, clear_timeout, cancel_timer, cancel,
}

abbrev pub same_id : Timer → Timer → Bool
same_id a b = a.id == b.id

abbrev pub same_text : Option String → Option String → Bool
same_text none other = false
same_text (some key) other = text_is other key

abbrev pub has_key : String → Timer → Bool
has_key key t = text_is (key_of t.job) key

abbrev pub same_key : Timer → Timer → Bool
same_key a b = same_text (key_of a.job) (key_of b.job)

abbrev pub id_of : Timer → ℕ
id_of t = t.id

-- Each pending timer has a handle of its own, and none shares its key with another; the index has for
-- each key the handle of the timer with that key, and the set of handles is that of the timers.
pub record IsCoupled (q : Queue) : Type 0 where
  pub ids : NoClash same_id q.pending
  pub keys : NoClash same_key q.pending
  pub fresh : All (λ (t : Timer). t.id < q.next_id) q.pending
  pub index :
      (key : String) → lookup key q.keyed ≡ Option.map id_of (find_where (has_key key) q.pending)
  pub handles : q.timers ≡ map id_of q.pending

module _ {ℓ} {A : Type ℓ} (p q : A → Bool) where
  -- A search is not disturbed by the deletion of rows that it does not look for.
  pub find_where-delete_other :
      (xs : List A)
      → ((x : A) → In x xs → p x ≡ true → q x ≡ false)
      → find_where q (delete_where p xs) ≡ find_where q xs
  find_where-delete_other [] h = refl
  find_where-delete_other (x ∷ xs) h =
      ground (arith, h x (here refl), find_where-delete_other xs (λ y i. h y (there i)))

  pub find_where-delete_all :
      (xs : List A)
      → ((x : A) → In x xs → q x ≡ true → p x ≡ true)
      → find_where q (delete_where p xs) ≡ none
  find_where-delete_all [] h = refl
  find_where-delete_all (x ∷ xs) h =
      ground (arith, h x (here refl), find_where-delete_all xs (λ y i. h y (there i)))

pub find_where-clear :
    (n id : ℕ) (ts : List Timer)
    → find_where (is_timer n) (clear_timeout id ts)
      ≡ (if n == id then none else find_where (is_timer n) ts)
find_where-clear n id [] = ground arith
find_where-clear n id (t ∷ ts) = ground (arith, find_where-clear n id ts)

pub lookup-remove :
    (k j : String) (m : List (String × ℕ))
    → lookup k (remove j m) ≡ (if str_eq j k then none else lookup k m)
lookup-remove k j [] = ground arith
lookup-remove k j ((i, v) ∷ m) =
    ground (arith, eq_iff i j, eq_iff i k, eq_iff j k, lookup-remove k j m)

map-clear :
    (id : ℕ) (ts : List Timer)
    → delete_where (λ t. t == id) (map id_of ts) ≡ map id_of (clear_timeout id ts)
map-clear id [] = refl
map-clear id (t ∷ ts) = ground (arith, map-clear id ts)

All-clear :
    (n id : ℕ) (ts : List Timer)
    → All (λ (t : Timer). t.id < n) ts
    → All (λ (t : Timer). t.id < n) (clear_timeout id ts)
All-clear n id [] h = tt
All-clear n id (t ∷ ts) h = elim (Bool-cases (t.id == id)) [
  | inl hit ↦ rw hit (All-clear n id ts h.1)
  | inr miss ↦ rw miss (h.0, All-clear n id ts h.1)
]

same_text-flip : (a b : Option String) → same_text a b ≡ same_text b a
same_text-flip none none = refl
same_text-flip none (some b) = refl
same_text-flip (some a) none = refl
same_text-flip (some a) (some b) = ground (arith, eq_iff a b, eq_iff b a)

text_is-two : (o : Option String) (a b : String) → text_is o a ≡ true → text_is o b ≡ true → a ≡ b
text_is-two none a b e e' = cc
text_is-two (some k) a b e e' = sym ((eq_iff k a).0 e) ∙ (eq_iff k b).0 e'

module _ (q : Queue) (c : IsCoupled q) (t : Timer) (i : In t q.pending) where
  pub its_timer : (x : Timer) → In x q.pending → is_timer t.id x ≡ true → x ≡ t
  its_timer x j e = NoClash-eq same_id (λ a b. ground arith) q.pending c.ids j i e

  pub its_key :
      (key : String)
      → key_of t.job ≡ some key
      → (x : Timer) → In x q.pending
      → has_key key x ≡ true
      → x ≡ t
  its_key key k x j e = sym (
      NoClash-eq same_key (λ a b. same_text-flip (key_of a.job) (key_of b.job)) q.pending c.keys i j
        (rw k e))

  pub its_handle : (key : String) → key_of t.job ≡ some key → lookup key q.keyed ≡ some t.id
  its_handle key k = elim (Option-cases (find_where (has_key key) q.pending)) [
    | inl nothing ↦
        let out = find_where-none (has_key key) q.pending nothing i in
        cc (out, (eq_iff key key).1 refl, ap (λ (o : Option String). text_is o key) k)
    | inr (x, found) ↦
        let (j, e) = find_where-In (has_key key) q.pending found in
        c.index key
        ∙ ap (Option.map id_of) found
        ∙ ap (λ (y : Timer). some y.id) (its_key key k x j e)
  ]

  -- The index after the timer and its key are taken out.
  pub index-remove :
      (key : String)
      → key_of t.job ≡ some key
      → (other : String)
      → lookup other (remove key q.keyed)
        ≡ Option.map id_of (find_where (has_key other) (clear_timeout t.id q.pending))
  index-remove key k other =
      lookup-remove other key q.keyed ∙ elim (Bool-cases (str_eq key other)) [
        | inl same ↦ rw same (
            sym (
              ap (Option.map id_of) (
                find_where-delete_all (is_timer t.id) (has_key other) q.pending (λ x j e.
                  let is_it = its_key key k x j (
                    subst (λ (o : String). has_key o x ≡ true) (sym ((eq_iff key other).0 same))
                      e) in
                  subst (λ (y : Timer). is_timer t.id y ≡ true) (sym is_it) (==_refl t.id)))))
        | inr differs ↦ rw differs (
            c.index other
            ∙ ap (Option.map id_of) (
                sym (
                  find_where-delete_other (is_timer t.id) (has_key other) q.pending (λ x j e.
                    subst (λ (y : Timer). has_key other y ≡ false) (sym (its_timer x j e))
                      (ap (λ (o : Option String). text_is o other) k ∙ differs)))))
      ]

  pub index-unkeyed :
      key_of t.job ≡ none
      → (other : String)
      → lookup other q.keyed
        ≡ Option.map id_of (find_where (has_key other) (clear_timeout t.id q.pending))
  index-unkeyed k other =
      c.index other
      ∙ ap (Option.map id_of) (
          sym (
            find_where-delete_other (is_timer t.id) (has_key other) q.pending (λ x j e.
              subst (λ (y : Timer). has_key other y ≡ false) (sym (its_timer x j e))
                (ap (λ (o : Option String). text_is o other) k))))

  -- Taking the timer out, with its handle and its place in the index.
  pub removed :
      (keyed : List (String × ℕ))
      → ((other : String)
          → lookup other keyed
            ≡ Option.map id_of (find_where (has_key other) (clear_timeout t.id q.pending)))
      → (done : List Payload)
      → IsCoupled (record q {
        pending = clear_timeout t.id q.pending;
        keyed = keyed;
        timers = delete_where (λ id. id == t.id) q.timers;
        dispatched = done;
      })
  removed keyed index done = record {
    ids = NoClash-delete_where same_id (is_timer t.id) q.pending c.ids;
    keys = NoClash-delete_where same_key (is_timer t.id) q.pending c.keys;
    fresh = All-clear q.next_id t.id q.pending c.fresh;
    index = index;
    handles = ap (delete_where (λ id. id == t.id)) c.handles ∙ map-clear t.id q.pending;
  }

-- A cancellation that finds nothing to cancel, or takes out the timer of the key.
pub cancel-cases :
    (key : String) (q : Queue)
    → IsCoupled q
    → ((cancel key q ≡ q) × (find_where (has_key key) q.pending ≡ none))
      ⊎ ((t : Timer) × In t q.pending
          × (has_key key t ≡ true)
          × (cancel key q ≡ record q {
            pending = clear_timeout t.id q.pending;
            keyed = remove key q.keyed;
            timers = delete_where (λ id. id == t.id) q.timers;
          }))
unfolding cancel
cancel-cases key q c = elim (Option-cases (find_where (has_key key) q.pending)) [
  | inl nothing ↦
      inl (ap (λ o. cancel_timer key o q) (c.index key ∙ ap (Option.map id_of) nothing), nothing)
  | inr (t, found) ↦
      let (i, e) = find_where-In (has_key key) q.pending found in
      inr (t, i, e, ap (λ o. cancel_timer key o q) (c.index key ∙ ap (Option.map id_of) found))
]

pub text_is-some : (o : Option String) (key : String) → text_is o key ≡ true → o ≡ some key
text_is-some none key e = cc
text_is-some (some k) key e = ap some ((eq_iff k key).0 e)

pub cancel-IsCoupled : (key : String) (q : Queue) → IsCoupled q → IsCoupled (cancel key q)
cancel-IsCoupled key q c = elim (cancel-cases key q c) [
  | inl (same, nothing) ↦ subst IsCoupled (sym same) c
  | inr (t, i, e, same) ↦ subst IsCoupled (sym same) (
      removed q c t i (remove key q.keyed)
        (index-remove q c t i key (text_is-some (key_of t.job) key e)) q.dispatched)
]
