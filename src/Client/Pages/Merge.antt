-- ===== src/Client/Pages/Merge.antt =====
-- What the merge of two pages by identifier keeps.
use grok_bot_v.Prelude.{
  ◌≡◌, refl, Bool, true, false, ◌||◌, List, [], ◌∷◌, ◌++◌, arith, ap, ==_iff, eq_iff, In-cons, any,
  any-none, In, here, there, NoClash, Bool-cases, inl, inr, ==_refl,
}
use grok_bot_v.Client.Pages.{
  MessageId, MessageIdentity, same_id, has_seen, first_of_each, merge_messages_by_id, stored,
  progress, subagent,
}

abbrev pub clash : MessageIdentity → MessageIdentity → Bool
clash a b = same_id a.id b.id

same_id-eq : (a b : MessageId) → same_id a b ≡ true → a ≡ b
same_id-eq (stored a) (stored b) e = ap stored ((==_iff a b).0 e)
same_id-eq (progress a) (progress b) e = ap progress ((eq_iff a b).0 e)
same_id-eq (subagent a) (subagent b) e = ap subagent ((eq_iff a b).0 e)
same_id-eq (stored a) (progress b) e = cc
same_id-eq (stored a) (subagent b) e = cc
same_id-eq (progress a) (stored b) e = cc
same_id-eq (progress a) (subagent b) e = cc
same_id-eq (subagent a) (stored b) e = cc
same_id-eq (subagent a) (progress b) e = cc

same_id_refl : (a : MessageId) → same_id a a ≡ true
same_id_refl (stored a) = ==_refl a
same_id_refl (progress a) = (eq_iff a a).1 refl
same_id_refl (subagent a) = (eq_iff a a).1 refl

same_id-swap : (a b : MessageId) → same_id a b ≡ true → same_id b a ≡ true
same_id-swap a b e = rw (same_id-eq a b e) (same_id_refl b)

-- Nothing that was seen comes again.
unseen :
    (id : MessageId) (seen : List MessageId) (ms : List MessageIdentity)
    → has_seen seen id ≡ true
    → any (λ m. same_id id m.id) (first_of_each seen ms) ≡ false
unfolding first_of_each
unseen id seen [] e = refl
unseen id seen (m ∷ ms) e = elim (Bool-cases (has_seen seen m.id)) [
  | inl again ↦ rw again (unseen id seen ms e)
  | inr new ↦
      let differs : same_id id m.id ≡ false = elim (Bool-cases (same_id id m.id)) [
        | inl same ↦ let eq = same_id-eq id m.id same in absurd (cc (eq, e, new))
        | inr distinct ↦ distinct
      ] in
      rw (new, differs) (unseen id (m.id ∷ seen) ms (ground (arith, e)))
]

first_of_each-NoClash :
    (seen : List MessageId) (ms : List MessageIdentity) → NoClash clash (first_of_each seen ms)
unfolding first_of_each
first_of_each-NoClash seen [] = tt
first_of_each-NoClash seen (m ∷ ms) = elim (Bool-cases (has_seen seen m.id)) [
  | inl again ↦ rw again (first_of_each-NoClash seen ms)
  | inr new ↦ rw new (
    unseen m.id (m.id ∷ seen) ms (rw (same_id_refl m.id) refl),
    first_of_each-NoClash (m.id ∷ seen) ms,
  )
]

first_of_each-In :
    (seen : List MessageId) (ms : List MessageIdentity) {m : MessageIdentity}
    → In m (first_of_each seen ms)
    → In m ms
unfolding first_of_each
first_of_each-In seen [] i = i
first_of_each-In seen (x ∷ ms) {m} i = elim (Bool-cases (has_seen seen x.id)) [
  | inl again ↦ there (first_of_each-In seen ms (rw again at i))
  | inr new ↦ elim (In-cons (rw new at i)) [
    | inl same ↦ here same
    | inr later ↦ there (first_of_each-In (x.id ∷ seen) ms later)
  ]
]

or_true : (b : Bool) → (b || true) ≡ true
or_true b = ground arith

-- Every message is represented, or its identifier was seen before.
first_of_each-represents :
    (seen : List MessageId) (ms : List MessageIdentity) {m : MessageIdentity}
    → In m ms
    → (has_seen seen m.id || any (clash m) (first_of_each seen ms)) ≡ true
unfolding first_of_each
first_of_each-represents seen [] i = elim i [ ]
first_of_each-represents seen (x ∷ ms) {m} (here same) = elim (Bool-cases (has_seen seen x.id)) [
  | inl again ↦ ground (arith, same)
  | inr new ↦ rw (new, ← same, same_id_refl x.id) (or_true (has_seen seen x.id))
]
first_of_each-represents seen (x ∷ ms) {m} (there i) = elim (Bool-cases (has_seen seen x.id)) [
  | inl again ↦ rw again (first_of_each-represents seen ms i)
  | inr new ↦ rw new (elim (Bool-cases (same_id x.id m.id)) [
    | inl same ↦ ground (arith, same_id-swap x.id m.id same)
    | inr differs ↦ ground (arith, first_of_each-represents (x.id ∷ seen) ms i)
  ])
]

-- The first page stays in front, if no identifier comes twice in it.
first_of_each-append :
    (seen : List MessageId) (first second : List MessageIdentity)
    → NoClash clash first
    → any (λ m. has_seen seen m.id) first ≡ false
    → (rest : List MessageIdentity) × (first_of_each seen (first ++ second) ≡ first ++ rest)
unfolding first_of_each
first_of_each-append seen [] second unique e = (first_of_each seen second, refl)
first_of_each-append seen (m ∷ ms) second unique e =
    let (rest, eq) =
      first_of_each-append (m.id ∷ seen) ms second unique.1
        (any_or (clash m) (λ x. has_seen seen x.id) ms unique.0 (ground arith)) in
    let new : has_seen seen m.id ≡ false = ground arith in (rest, rw new (ap (λ xs. m ∷ xs) eq))
  where
    any_or :
        (p q : MessageIdentity → Bool) (xs : List MessageIdentity)
        → any p xs ≡ false
        → any q xs ≡ false
        → any (λ x. p x || q x) xs ≡ false
    any_or p q [] a b = refl
    any_or p q (x ∷ xs) a b = ground (arith, any_or p q xs)

-- The merge of two pages holds no identifier twice, only messages of the pages, and a message for
-- each identifier of the pages; if the first page holds no identifier twice, it is the front of the
-- merge.
pub merge_messages_by_id_lem :
    (first second : List MessageIdentity)
    → NoClash clash (merge_messages_by_id first second)
      × ((m : MessageIdentity) → In m (merge_messages_by_id first second) → In m (first ++ second))
      × ((m : MessageIdentity)
          → In m (first ++ second)
          → any (clash m) (merge_messages_by_id first second) ≡ true)
      × (NoClash clash first
          → (rest : List MessageIdentity) × (merge_messages_by_id first second ≡ first ++ rest))
unfolding merge_messages_by_id
merge_messages_by_id_lem first second = (
  first_of_each-NoClash [] (first ++ second),
  λ m. first_of_each-In [] (first ++ second),
  λ m. first_of_each-represents [] (first ++ second),
  λ unique. first_of_each-append [] first second unique (any-none _ first (λ y i. refl)),
)
