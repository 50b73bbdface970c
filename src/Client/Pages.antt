-- ===== src/Client/Pages.antt =====
-- packages/core/src/message-pages.ts: how the pages of a thread's history are joined. The identifier
-- of a message names a stored message, or begins with "progress:" or "subagent:".
pub mod Merge
use grok_bot_v.Prelude.{
  ℕ, min, String, Bool, true, false, ◌&&◌, Option, none, some, List, [], ◌∷◌, ◌++◌, ◌==◌, ltb,
  str_eq, opt_eq, any, keep, if◌then◌else◌,
}
use grok_bot_v.Store.Blocks.{RowId}

pub data MessageId : Type 0 where
  stored : RowId → MessageId
  progress subagent : String → MessageId

pub record MessageIdentity : Type 0 where
  pub id : MessageId
  pub seq : Option ℕ

pub record ThreadHistory : Type 0 where
  pub thread_id : RowId
  pub messages : List MessageIdentity
  pub older_cursor : Option ℕ

abbrev pub same_id : MessageId → MessageId → Bool
same_id (stored a) (stored b) = a == b
same_id (progress a) (progress b) = str_eq a b
same_id (subagent a) (subagent b) = str_eq a b
same_id _ _ = false

abbrev pub is_durable_message : MessageIdentity → Bool
is_durable_message m = elim m.id [ stored n ↦ true | progress s ↦ false | subagent s ↦ false ]

-- `seen.has(id)`
abbrev pub has_seen : List MessageId → MessageId → Bool
has_seen seen id = any (λ s. same_id s id) seen

unfoldable pub first_of_each : List MessageId → List MessageIdentity → List MessageIdentity
first_of_each seen [] = []
first_of_each seen (m ∷ ms) =
    if has_seen seen m.id then first_of_each seen ms else m ∷ first_of_each (m.id ∷ seen) ms

unfoldable pub merge_messages_by_id :
    List MessageIdentity → List MessageIdentity → List MessageIdentity
unfolding first_of_each
merge_messages_by_id first second = first_of_each [] (first ++ second)

abbrev pub min_seq : Option ℕ → Option ℕ → Option ℕ
min_seq none seq = seq
min_seq (some a) none = some a
min_seq (some a) (some b) = some (min a b)

-- the reduction over the recent page, from what was found so far
abbrev pub first_seq : Option ℕ → List MessageIdentity → Option ℕ
first_seq first [] = first
first_seq first (m ∷ ms) =
    first_seq (if is_durable_message m then min_seq first m.seq else first) ms

abbrev pub is_before : ℕ → MessageIdentity → Bool
is_before limit m = is_durable_message m && elim m.seq [ none ↦ false | some s ↦ ltb s limit ]

unfoldable pub merge_message_pages :
    List MessageIdentity → List MessageIdentity → List MessageIdentity
unfolding merge_messages_by_id
merge_message_pages previous recent = elim (first_seq none recent) [
  | none ↦ merge_messages_by_id [] recent
  | some limit ↦ merge_messages_by_id (keep (is_before limit) previous) recent
]

abbrev pub merge_loaded : ThreadHistory → ThreadHistory → ThreadHistory
merge_loaded previous recent = record recent {
  messages = merge_message_pages previous.messages recent.messages;
  older_cursor = previous.older_cursor;
}

unfoldable pub merge_thread_history : Option ThreadHistory → ThreadHistory → Bool → ThreadHistory
merge_thread_history none recent preserve_loaded_history = recent
merge_thread_history (some previous) recent preserve_loaded_history =
    if previous.thread_id == recent.thread_id && preserve_loaded_history
    then merge_loaded previous recent
    else recent

abbrev pub prepend_page : ThreadHistory → ThreadHistory → ThreadHistory
prepend_page previous page = record previous {
  messages = merge_messages_by_id page.messages previous.messages;
  older_cursor = page.older_cursor;
}

unfoldable pub prepend_thread_history_page :
    Option ThreadHistory → ThreadHistory → Option ThreadHistory
prepend_thread_history_page none page = none
prepend_thread_history_page (some previous) page = elim previous.older_cursor [
  | none ↦ some previous
  | some cursor ↦
      if previous.thread_id == page.thread_id
      then some (prepend_page previous page)
      else some previous
]
