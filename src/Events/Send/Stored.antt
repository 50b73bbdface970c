-- ===== src/Events/Send/Stored.antt =====
-- The message of a send, from its creation to the search for it under its nonce.
use grok_bot_v.Prelude.{
  ℕ, String, ◌≡◌, refl, sym, ap, ◌∙◌, Bool, true, Option, none, some, List, [], ◌∷◌, arith, In,
  here, there, update_where, ◌==◌, Bool-cases, Option-cases, inl, inr, NoClash, NoClash-eq,
  find_where, find_where-In, find_where-none, text_is, str_eq, eq_iff, and-eq-true, ==_iff, ◌&&◌,
  ◌||◌,
}
use grok_bot_v.Store.Blocks.{RowId}
use grok_bot_v.Store.Schema.{Db, Message, Event, Run}
use grok_bot_v.Store.Tx.{Tx, ok, ◌>>=◌}
use grok_bot_v.Store.Tx.Keeps.{Keeps, keeps_rules, Keeps-create, bind-eq-ok}
use grok_bot_v.Store.Tx.Returns.{Returns, returns_rules}
use grok_bot_v.History.{
  same_nonce, message_clash, CreateThreadMessageInput, create_thread_message_in_transaction,
}
use grok_bot_v.History.Keeps.{create_thread_message-eq-ok, Keeps-append_event_of}
use grok_bot_v.Events.Send.{
  SendIds, SendUserMessageInput, SendUserMessageResult, nonce_is, given_nonce, replay, replay_of,
  find_busy, link_message, start_run, send_in_transaction,
}

-- The message is stored, under the nonce that it was given.
abbrev pub Stored : RowId → Option String → Message → Db → Type 0
Stored thread_id nonce m db =
    (x : Message) × In x db.messages
    × (x.id ≡ m.id)
    × (x.seq ≡ m.seq)
    × (x.thread_id ≡ thread_id)
    × (x.client_nonce ≡ nonce)

module _ (thread_id : RowId) (nonce : Option String) (m : Message) where
  linked :
      (p : Message → Bool) (run_id : RowId) (xs : List Message) {x : Message}
      → In x xs
      → (y : Message) × In y (update_where p (λ z. record z { run_id = some run_id }) xs)
        × (y.id ≡ x.id)
        × (y.seq ≡ x.seq)
        × (y.thread_id ≡ x.thread_id)
        × (y.client_nonce ≡ x.client_nonce)
  linked p run_id [] i = elim i [ ]
  linked p run_id (z ∷ zs) {x} (here same) = elim (Bool-cases (p z)) [
    | inl hit ↦
        rw (hit, same) (record x { run_id = some run_id }, here refl, refl, refl, refl, refl)
    | inr miss ↦ rw (miss, same) (x, here refl, refl, refl, refl, refl)
  ]
  linked p run_id (z ∷ zs) {x} (there i) =
      let (y, j, a, b, c, d) = linked p run_id zs i in (y, there j, a, b, c, d)

  Stored-linked :
      (p : Message → Bool) (run_id : RowId) (db : Db)
      → Stored thread_id nonce m db
      → Stored thread_id nonce m (record db {
        messages = update_where p (λ z. record z { run_id = some run_id }) db.messages;
      })
  Stored-linked p run_id db (x, i, a, b, c, d) =
      let (y, j, a', b', c', d') = linked p run_id db.messages i in
      (y, j, a' ∙ a, b' ∙ b, c' ∙ c, d' ∙ d)

  Keeps-link_message :
      (link : Bool) (sent : Message) (run : Run)
      → Keeps (Stored thread_id nonce m) (link_message link sent run)
  Keeps-link_message link sent run = search (keeps_rules, Stored-linked) depth 10

  Keeps-find_busy :
      (input : SendUserMessageInput) → Keeps (Stored thread_id nonce m) (find_busy input)
  Keeps-find_busy input = search keeps_rules depth 10

  Keeps-start_run :
      (now : ℕ) (ids : SendIds) (input : SendUserMessageInput) (sent : Message) (busy : Option Run)
      → Keeps (Stored thread_id nonce m) (start_run now ids input sent busy)
  unfolding start_run
  Keeps-start_run now ids input sent (some busy) = search keeps_rules
  Keeps-start_run now ids input sent none =
      search (keeps_rules, Keeps-create, Keeps-link_message) depth 20

-- What the first step establishes and the rest keeps, together with what the rest returns.
after-first :
    {A B : Type 0} {P : A → Db → Type 0} {Q : A → B → Type 0} (m : Tx A) (f : A → Tx B) (db : Db)
    {b : B} {db' : Db}
    → (m >>= f) db ≡ ok (b, db')
    → ((a : A) (db₁ : Db) → m db ≡ ok (a, db₁) → P a db₁)
    → ((a : A) → Keeps (P a) (f a))
    → ((a : A) → Returns (Q a) (f a))
    → (a : A) × P a db' × Q a b
unfolding ◌>>=◌
after-first m f db e made kept returned =
    let (a, db₁, first, rest) = bind-eq-ok (m db) f e in
    (a, (kept a).at db₁ (made a db₁ first) rest, (returned a).at db₁ rest)

created-Stored :
    (id : RowId) (new : CreateThreadMessageInput) (db : Db) (m : Message) (db' : Db)
    → create_thread_message_in_transaction id new db ≡ ok (m, db')
    → Stored new.thread_id new.client_nonce m db'
created-Stored id new db m db' e =
    let (row, _, _, _, is, same) = create_thread_message-eq-ok id new db e in
    let i : In m db'.messages = rw (← same) (here (sym is)) in
    (
      m,
      i,
      refl,
      refl,
      ap (λ (x : Message). x.thread_id) is,
      ap (λ (x : Message). x.client_nonce) is,
    )

-- The result of a send names its message.
abbrev Names : Message → SendUserMessageResult × Event → Type 0
Names m r = (r.0.message_id ≡ m.id) × (r.0.seq ≡ m.seq)

pub send-Stored :
    (now : ℕ) (ids : SendIds) (input : SendUserMessageInput) (db : Db) {r : SendUserMessageResult}
    {event : Event} {db' : Db}
    → send_in_transaction now ids input db ≡ ok ((r, event), db')
    → (m : Message) × Stored input.thread_id input.client_nonce m db' × Names m (r, event)
unfolding send_in_transaction
send-Stored now ids input db e =
    after-first {P = Stored input.thread_id input.client_nonce} {Q = Names} _ _ db e
      (λ m db₁ made. created-Stored _ _ db m db₁ made)
      (λ m. search (keeps_rules, Keeps-find_busy, Keeps-start_run, Keeps-append_event_of) depth 20)
      (λ m. search returns_rules depth 20)

text_is_refl : (a : String) → text_is (some a) a ≡ true
text_is_refl a = (eq_iff a a).1 refl

text_is-eq : (o : Option String) (a : String) → text_is o a ≡ true → o ≡ some a
text_is-eq none a e = cc
text_is-eq (some b) a e = ap some ((eq_iff b a).0 e)

str_eq-swap : (a b : String) → str_eq a b ≡ true → str_eq b a ≡ true
str_eq-swap a b e = (eq_iff b a).1 (sym ((eq_iff a b).0 e))

str_eq_comm : (a b : String) → str_eq a b ≡ str_eq b a
str_eq_comm a b = elim (Bool-cases (str_eq a b)) [
  | inl same ↦ same ∙ sym (str_eq-swap a b same)
  | inr differs ↦ elim (Bool-cases (str_eq b a)) [
    | inl back ↦ absurd (cc (differs, str_eq-swap b a back))
    | inr too ↦ differs ∙ sym too
  ]
]

same_nonce_comm : (a b : Option String) → same_nonce a b ≡ same_nonce b a
same_nonce_comm none none = refl
same_nonce_comm none (some b) = refl
same_nonce_comm (some a) none = refl
same_nonce_comm (some a) (some b) = str_eq_comm a b

message_clash_comm : (a b : Message) → message_clash a b ≡ message_clash b a
message_clash_comm a b = ground (arith, same_nonce_comm a.client_nonce b.client_nonce)

same_nonce_refl :
    (thread_id : RowId) (nonce : String) (seq seq' : ℕ)
    → (thread_id == thread_id && (seq == seq' || same_nonce (some nonce) (some nonce))) ≡ true
same_nonce_refl thread_id nonce seq seq' = ground (arith, text_is_refl nonce)

clash-of :
    (x y : Message) (nonce : String)
    → x.thread_id ≡ y.thread_id
    → x.client_nonce ≡ some nonce
    → y.client_nonce ≡ some nonce
    → message_clash y x ≡ true
clash-of x y nonce t a b = elim (Bool-cases (x.id == y.id)) [
  | inl same ↦ rw same refl
  | inr differs ↦ rw (differs, t, a, b) (same_nonce_refl y.thread_id nonce x.seq y.seq)
]

nonce_is-true :
    (thread_id : RowId) (nonce : String)
    → (thread_id == thread_id && text_is (some nonce) nonce) ≡ true
nonce_is-true thread_id nonce = ground (arith, text_is_refl nonce)

-- A stored message is found again under its nonce.
pub replay-Stored :
    (input : SendUserMessageInput) (nonce : String) (m : Message) (db : Db)
    → NoClash message_clash db.messages
    → given_nonce input.client_nonce ≡ some nonce
    → Stored input.thread_id (some nonce) m db
    → (r : SendUserMessageResult) × (replay input db ≡ some r)
      × (r.message_id ≡ m.id)
      × (r.seq ≡ m.seq)
unfolding replay
replay-Stored input nonce m db unique given (x, i, a, b, c, d) =
    let hit : nonce_is input.thread_id nonce x ≡ true =
      rw (c, d) (nonce_is-true input.thread_id nonce) in
    elim (Option-cases (find_where (nonce_is input.thread_id nonce) db.messages)) [
      | inl missing ↦
          absurd (cc (hit, find_where-none (nonce_is input.thread_id nonce) db.messages missing i))
      | inr (y, found) ↦
          let (j, hit') = find_where-In (nonce_is input.thread_id nonce) db.messages found in
          let (t, n) =
            and-eq-true (y.thread_id == input.thread_id) (text_is y.client_nonce nonce) hit' in
          let at : x.thread_id ≡ y.thread_id = c ∙ sym ((==_iff y.thread_id input.thread_id).0 t) in
          let clash = clash-of x y nonce at d (text_is-eq y.client_nonce nonce n) in
          let same : y ≡ x =
            NoClash-eq message_clash message_clash_comm db.messages unique j i clash in
          (
            replay_of y db,
            rw (given, found) refl,
            ap (λ (z : Message). z.id) same ∙ a,
            ap (λ (z : Message). z.seq) same ∙ b,
          )
    ]
