-- ===== src/History/Log.antt =====
-- The invariant of the history of the threads: the unique indexes hold, and every message and event
-- lies below the counter of its thread.
use grok_bot_v.Prelude.{
  ◌+◌, ◌≤◌, ◌<◌, ◌≡◌, Bool, false, List, ◌∷◌, ◌==◌, arith, refl, In, In-update_where,
  In-delete_where, update_where, delete_where, NoClash, NoClash-eq, NoClash-update_where,
  NoClash-delete_where, any, inl, inr, some, find_where, find_where-In, In-cons, any-none,
  any-false, none,
}
use grok_bot_v.Store.Schema.{Thread, Run, Message, Event, Db}
use grok_bot_v.History.{message_clash, event_clash, shares_bot, shares_nonce, thread_is, next_event}

abbrev pub same_thread : Thread → Thread → Bool
same_thread s t = t.id == s.id

abbrev pub same_run : Run → Run → Bool
same_run q r = r.id == q.id

pub record IsLogged (threads : List Thread) (runs : List Run) (messages : List Message)
    (events : List Event) : Type 0 where
  pub threads_unique : NoClash same_thread threads
  pub bots_unique : NoClash shares_bot threads
  pub runs_unique : NoClash same_run runs
  pub nonces_unique : NoClash shares_nonce runs
  pub messages_unique : NoClash message_clash messages
  pub events_unique : NoClash event_clash events
  pub messages_below :
      (m : Message) (t : Thread)
      → In m messages
      → In t threads
      → t.id ≡ m.thread_id
      → m.seq < t.next_message_seq
  pub events_below :
      (e : Event) (t : Thread)
      → In e events
      → In t threads
      → t.id ≡ e.thread_id
      → e.seq < t.next_event_seq

abbrev pub IsConsistent : Db → Type 0
IsConsistent db = IsLogged db.threads db.runs db.messages db.events

-- An update that lets the counters of a thread grow, or leaves them.
abbrev pub Grows : (Thread → Thread) → Type 0
Grows f =
    (t : Thread)
    → ((f t).id ≡ t.id)
      × ((f t).bot_id ≡ t.bot_id)
      × (t.next_message_seq ≤ (f t).next_message_seq)
      × (t.next_event_seq ≤ (f t).next_event_seq)

-- An update that leaves what the unique indexes of the runs are on.
abbrev pub KeepsKeys : (Run → Run) → Type 0
KeepsKeys f =
    (r : Run)
    → ((f r).id ≡ r.id)
      × ((f r).workspace_id ≡ r.workspace_id)
      × ((f r).client_nonce ≡ r.client_nonce)

module _ {ts : List Thread} {rs : List Run} {ms : List Message} {es : List Event}
    (h : IsLogged ts rs ms es) where
  pub IsLogged-threads :
      (p : Thread → Bool) (f : Thread → Thread) → Grows f → IsLogged (update_where p f ts) rs ms es
  IsLogged-threads p f g = record {
    runs_unique = h.runs_unique;
    nonces_unique = h.nonces_unique;
    messages_unique = h.messages_unique;
    events_unique = h.events_unique;
    threads_unique =
        NoClash-update_where same_thread p f ts (λ x y. ground (arith, g x))
          (λ x y. ground (arith, g y)) h.threads_unique;
    bots_unique =
        NoClash-update_where shares_bot p f ts (λ x y. rw (g x).1 refl) (λ x y. rw (g y).1 refl)
          h.bots_unique;
    messages_below = λ m t i j e.
        let (x, k, same) = In-update_where p f ts j in
        ground (arith, g x, h.messages_below m x i k);
    events_below = λ m t i j e.
        let (x, k, same) = In-update_where p f ts j in ground (arith, g x, h.events_below m x i k);
  }

  pub IsLogged-runs :
      (p : Run → Bool) (f : Run → Run) → KeepsKeys f → IsLogged ts (update_where p f rs) ms es
  IsLogged-runs p f g = record {
    threads_unique = h.threads_unique;
    bots_unique = h.bots_unique;
    messages_unique = h.messages_unique;
    events_unique = h.events_unique;
    messages_below = h.messages_below;
    events_below = h.events_below;
    runs_unique =
        NoClash-update_where same_run p f rs (λ x y. ground (arith, g x))
          (λ x y. ground (arith, g y)) h.runs_unique;
    nonces_unique =
        NoClash-update_where shares_nonce p f rs (λ x y. rw ((g x).1, (g x).2) refl)
          (λ x y. rw ((g y).1, (g y).2) refl) h.nonces_unique;
  }

  pub IsLogged-new_run :
      (r : Run)
      → any (same_run r) rs ≡ false
      → any (shares_nonce r) rs ≡ false
      → IsLogged ts (r ∷ rs) ms es
  IsLogged-new_run r fresh fresh_nonce = record {
    threads_unique = h.threads_unique;
    bots_unique = h.bots_unique;
    messages_unique = h.messages_unique;
    events_unique = h.events_unique;
    messages_below = h.messages_below;
    events_below = h.events_below;
    runs_unique = (fresh, h.runs_unique);
    nonces_unique = (fresh_nonce, h.nonces_unique);
  }

  pub IsLogged-delete_messages : (p : Message → Bool) → IsLogged ts rs (delete_where p ms) es
  IsLogged-delete_messages p = record {
    threads_unique = h.threads_unique;
    bots_unique = h.bots_unique;
    runs_unique = h.runs_unique;
    nonces_unique = h.nonces_unique;
    events_unique = h.events_unique;
    events_below = h.events_below;
    messages_unique = NoClash-delete_where message_clash p ms h.messages_unique;
    messages_below = λ m t i j e. h.messages_below m t (In-delete_where p ms i).0 j e;
  }

  pub IsLogged-delete_events : (p : Event → Bool) → IsLogged ts rs ms (delete_where p es)
  IsLogged-delete_events p = record {
    threads_unique = h.threads_unique;
    bots_unique = h.bots_unique;
    runs_unique = h.runs_unique;
    nonces_unique = h.nonces_unique;
    messages_unique = h.messages_unique;
    messages_below = h.messages_below;
    events_unique = NoClash-delete_where event_clash p es h.events_unique;
    events_below = λ m t i j e. h.events_below m t (In-delete_where p es i).0 j e;
  }

  pub IsLogged-update_messages :
      (p : Message → Bool) (f : Message → Message)
      → ((m : Message)
          → ((f m).id ≡ m.id)
            × ((f m).thread_id ≡ m.thread_id)
            × ((f m).seq ≡ m.seq)
            × ((f m).client_nonce ≡ m.client_nonce))
      → IsLogged ts rs (update_where p f ms) es
  IsLogged-update_messages p f g = record {
    threads_unique = h.threads_unique;
    bots_unique = h.bots_unique;
    runs_unique = h.runs_unique;
    nonces_unique = h.nonces_unique;
    messages_unique =
        NoClash-update_where message_clash p f ms (λ x y. ground (arith, g x))
          (λ x y. ground (arith, g y)) h.messages_unique;
    events_unique = h.events_unique;
    messages_below = λ m t i j e.
        let (x, k, same) = In-update_where p f ms i in
        ground (arith, g x, h.messages_below x t k j);
    events_below = h.events_below;
  }

  pub thread_unique : {s t : Thread} → In s ts → In t ts → s.id ≡ t.id → s ≡ t
  thread_unique i j e =
      NoClash-eq same_thread (λ a b. ground arith) ts h.threads_unique i j (ground arith)

  -- A new message at the counter of its thread, and the counter one further.
  pub IsLogged-new_message :
      (f : Thread → Thread) (row : Thread) (m : Message)
      → ((t : Thread)
          → ((f t).id ≡ t.id)
            × ((f t).bot_id ≡ t.bot_id)
            × ((f t).next_message_seq ≡ t.next_message_seq + 1)
            × ((f t).next_event_seq ≡ t.next_event_seq))
      → find_where (thread_is m.thread_id) ts ≡ some row
      → m.seq ≡ row.next_message_seq
      → any (message_clash m) ms ≡ false
      → IsLogged (update_where (thread_is m.thread_id) f ts) rs (m ∷ ms) es
  IsLogged-new_message f row m g found at fresh =
      let p = thread_is m.thread_id in
      let grown =
        IsLogged-threads p f
          (λ t. ((g t).0, (g t).1, omega (arith, (g t).2), omega (arith, (g t).3))) in
      let (there_, hit) = find_where-In p ts found in
      record {
        threads_unique = grown.threads_unique;
        bots_unique = grown.bots_unique;
        runs_unique = h.runs_unique;
        nonces_unique = h.nonces_unique;
        messages_unique = (fresh, h.messages_unique);
        events_unique = h.events_unique;
        messages_below = λ n t i j e. elim (In-cons i) [
          | inl same ↦
              let (x, k, now) = In-update_where p f ts j in
              let is_row = thread_unique k there_ in ground (arith, g x, is_row)
          | inr old ↦ grown.messages_below n t old j e
        ];
        events_below = grown.events_below;
      }

  pub IsLogged-new_event :
      (row : Thread) (e : Event)
      → find_where (thread_is e.thread_id) ts ≡ some row
      → e.seq ≡ row.next_event_seq
      → any (event_clash e) es ≡ false
      → IsLogged (update_where (thread_is e.thread_id) next_event ts) rs ms (e ∷ es)
  IsLogged-new_event row e found at fresh =
      let p = thread_is e.thread_id in
      let grown = IsLogged-threads p next_event (λ t. (refl, refl, omega arith, omega arith)) in
      let (there_, hit) = find_where-In p ts found in
      record {
        threads_unique = grown.threads_unique;
        bots_unique = grown.bots_unique;
        runs_unique = h.runs_unique;
        nonces_unique = h.nonces_unique;
        messages_unique = h.messages_unique;
        events_unique = (fresh, h.events_unique);
        messages_below = grown.messages_below;
        events_below = λ n t i j q. elim (In-cons i) [
          | inl same ↦
              let (x, k, now) = In-update_where p next_event ts j in
              let is_row = thread_unique k there_ in ground (arith, is_row)
          | inr old ↦ grown.events_below n t old j q
        ];
      }

  -- Under the invariant the unique indexes never refuse the next event, nor the next message
  -- without a nonce.
  pub event_clash-free :
      (row : Thread) (e : Event)
      → find_where (thread_is e.thread_id) ts ≡ some row
      → any (λ x. x.id == e.id) es ≡ false
      → e.seq ≡ row.next_event_seq
      → any (event_clash e) es ≡ false
  event_clash-free row e found unused at =
      let (i, hit) = find_where-In (thread_is e.thread_id) ts found in
      any-none (event_clash e) es
        (λ y j. ground (arith, any-false (λ x. x.id == e.id) es unused j, h.events_below y row j i))

  pub message_clash-free :
      (row : Thread) (m : Message)
      → find_where (thread_is m.thread_id) ts ≡ some row
      → any (λ x. x.id == m.id) ms ≡ false
      → m.client_nonce ≡ none
      → m.seq ≡ row.next_message_seq
      → any (message_clash m) ms ≡ false
  message_clash-free row m found unused plain at =
      let (i, hit) = find_where-In (thread_is m.thread_id) ts found in
      any-none (message_clash m) ms (λ y j.
        ground (arith, any-false (λ x. x.id == m.id) ms unused j, h.messages_below y row j i))
