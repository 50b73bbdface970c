-- ===== src/Events/Send/Retry.antt =====
-- `sendUserMessage` under a nonce: what a second send does.
use grok_bot_v.Prelude.{
  ℕ, String, ◌≡◌, refl, sym, ap, ◌∙◌, Option, none, some, arith, Option-cases, inl, inr,
}
use grok_bot_v.Store.Schema.{Db, Event}
use grok_bot_v.Store.Tx.{DbError, Result, ok, err, transaction}
use grok_bot_v.Store.Tx.Keeps.{Result-cases}
use grok_bot_v.History.Log.{IsConsistent}
use grok_bot_v.Events.Server.{Server, notify_realtime, publication}
use grok_bot_v.Events.Consistent.{Keeps-send}
use grok_bot_v.Events.Send.{
  SendIds, SendUserMessageInput, SendUserMessageResult, given_nonce, replay, send_in_transaction,
  send_user_message, after_commit,
}
use grok_bot_v.Events.Send.Stored.{send-Stored, replay-Stored}

given_nonce-eq : (o : Option String) (nonce : String) → given_nonce o ≡ some nonce → o ≡ some nonce
given_nonce-eq none nonce e = cc
given_nonce-eq (some a) nonce e = ground arith

-- Under a nonce, the database that a send leaves replays its message.
replay-send :
    (now : ℕ) (ids : SendIds) (input : SendUserMessageInput) (nonce : String) (db : Db)
    {r : SendUserMessageResult} {event : Event} {db' : Db}
    → IsConsistent db
    → given_nonce input.client_nonce ≡ some nonce
    → send_in_transaction now ids input db ≡ ok ((r, event), db')
    → (r' : SendUserMessageResult) × (replay input db' ≡ some r')
      × (r'.message_id ≡ r.message_id)
      × (r'.seq ≡ r.seq)
replay-send now ids input nonce db {r} {event} {db'} h given e =
    let (m, stored, named) = send-Stored now ids input db e in
    let after : IsConsistent db' = (Keeps-send now ids input).at db h e in
    let under = given_nonce-eq input.client_nonce nonce given in
    let (r', found, a, b) =
      replay-Stored input nonce m db' after.messages_unique given (rw under at stored) in
    (r', found, a ∙ sym named.0, b ∙ sym named.1)

replayed :
    (before after : Db → Db) (now : ℕ) (ids : SendIds) (input : SendUserMessageInput) (s : Server)
    (r : SendUserMessageResult)
    → replay input s.db ≡ some r
    → send_user_message before after now ids input s ≡ (ok r, s)
unfolding send_user_message
replayed before after now ids input s r found = rw (found, send_user_message) refl

failed-send :
    (input : SendUserMessageInput) (x : DbError) (db : Db) (s : Server)
    → replay input db ≡ none
    → after_commit (λ d. d) input (err x, db) s ≡ (err x, record s { db = db })
failed-send input x db s new = rw (new, after_commit) refl

-- What a send that finds no earlier one has done, if it returns.
committed-send :
    (now : ℕ) (ids : SendIds) (input : SendUserMessageInput) (s s' : Server)
    (r : SendUserMessageResult)
    → replay input s.db ≡ none
    → send_user_message (λ d. d) (λ d. d) now ids input s ≡ (ok r, s')
    → (event : Event) × (send_in_transaction now ids input s.db ≡ ok ((r, event), s'.db))
unfolding send_user_message transaction notify_realtime
committed-send now ids input s s' r new e =
    elim (Result-cases (send_in_transaction now ids input s.db)) [
      | inl ((r₀, event), db', done) ↦
          let e' : ◌≡◌ {A = Result SendUserMessageResult × Server}
              (ok r₀, notify_realtime (publication event) (record s { db = db' })) (ok r, s') =
            rw (new, done, transaction, send_user_message) at e in
          let same : r₀ ≡ r = cc in
          let kept : db' ≡ s'.db = ap (λ (x : Result SendUserMessageResult × Server). x.1.db) e' in
          (event, rw (done, same, kept) refl)
      | inr (x, failed) ↦
          let e₁ : after_commit (λ d. d) input (err x, s.db) s ≡ (ok r, s') =
            rw (new, failed, transaction, send_user_message) at e in
          let e' = sym (failed-send input x s.db s new) ∙ e₁ in
          let thrown : err x ≡ ok r = ap (λ (y : Result SendUserMessageResult × Server). y.0) e' in
          absurd cc
    ]

-- A send under a nonce that returns on a consistent database, with nothing in between: sending again
-- under the nonce, at any time and with whatever else going on meanwhile, returns the same message
-- and leaves the server as it is.
pub send_user_message-retry :
    (now : ℕ) (ids : SendIds) (input : SendUserMessageInput) (nonce : String) (s s' : Server)
    (r : SendUserMessageResult)
    → IsConsistent s.db
    → given_nonce input.client_nonce ≡ some nonce
    → send_user_message (λ d. d) (λ d. d) now ids input s ≡ (ok r, s')
    → (before after : Db → Db) (later : ℕ) (new_ids : SendIds)
    → (r' : SendUserMessageResult) × (send_user_message before after later new_ids input s'
        ≡ (ok r', s'))
      × (r'.message_id ≡ r.message_id)
      × (r'.seq ≡ r.seq)
send_user_message-retry now ids input nonce s s' r h given e before after later new_ids =
    elim (Option-cases (replay input s.db)) [
      | inl new ↦
          let (event, done) = committed-send now ids input s s' r new e in
          let (r', found, a, b) = replay-send now ids input nonce s.db h given done in
          (r', replayed before after later new_ids input s' r' found, a, b)
      | inr (x, found) ↦
          let e' = sym (replayed (λ d. d) (λ d. d) now ids input s x found) ∙ e in
          let same : s ≡ s' = ap (λ (y : Result SendUserMessageResult × Server). y.1) e' in
          let there_still : replay input s'.db ≡ some x = rw (← same) found in
          let named : ok x ≡ ok r = ap (λ (y : Result SendUserMessageResult × Server). y.0) e' in
          let eq : x ≡ r = cc in
          (
            x,
            replayed before after later new_ids input s' x there_still,
            ap (λ (y : SendUserMessageResult). y.message_id) eq,
            ap (λ (y : SendUserMessageResult). y.seq) eq,
          )
    ]
