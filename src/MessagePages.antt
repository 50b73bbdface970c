-- ===== src/MessagePages.antt =====
-- apps/api/src/thread-message-pages.ts: a page of the messages of a thread, before a cursor or around
-- a message, and all messages of a thread, page by page. Each query is a read of its own, so a
-- function that makes several takes the rows of the table at each.
pub mod Complete
pub mod Window
use mathlib.Core.List.{reverse}
use mathlib.Core.Option
use grok_bot_v.Prelude.{
  ℕ, suc, ◌+◌, ◌-◌, ◌/◌, Bool, true, false, ◌&&◌, Option, none, some, List, [], ◌∷◌, ◌++◌, map,
  if◌then◌else◌, ◌==◌, ltb, leb, keep, find_where, any, take, length,
}
use grok_bot_v.Prelude.Sorting.{sort_by}
use grok_bot_v.Store.Blocks.{RowId, MessageBlock}
use grok_bot_v.Store.Schema.{Message, Role}

pub record ThreadMessage : Type 0 where
  pub id : RowId
  pub thread_id : RowId
  pub seq : ℕ
  pub role : Role
  pub blocks : List MessageBlock
  pub bot_id : Option RowId
  pub reply_to_message_id : Option RowId
  pub run_id : Option RowId

abbrev pub to_thread_message : Message → ThreadMessage
to_thread_message row = record {
  id = row.id;
  thread_id = row.thread_id;
  seq = row.seq;
  role = row.role;
  blocks = row.blocks;
  bot_id = row.bot_id;
  reply_to_message_id = row.reply_to_message_id;
  run_id = row.run_id;
}

pub record MessagePage : Type 0 where
  pub thread_id : RowId
  pub messages : List ThreadMessage
  pub older_cursor : Option ℕ

pub record Around : Type 0 where
  pub message_id : Option RowId
  pub seq : Option ℕ

abbrev pub seq_of : Message → ℕ
seq_of m = m.seq

abbrev pub of_thread : RowId → Message → Bool
of_thread thread_id m = m.thread_id == thread_id

-- `{ threadId, ...(before === undefined ? {} : { seq: { lt: before } }) }`
abbrev pub wanted : RowId → Option ℕ → Message → Bool
wanted thread_id none m = of_thread thread_id m
wanted thread_id (some before) m = of_thread thread_id m && ltb m.seq before

-- `orderBy: { seq: "desc" }`
abbrev pub newest_first : RowId → Option ℕ → List Message → List Message
newest_first thread_id before rows = reverse (sort_by seq_of (keep (wanted thread_id before) rows))

abbrev pub first_seq : List ThreadMessage → Option ℕ
first_seq [] = none
first_seq (m ∷ ms) = some m.seq

-- A page from the rows of the query, of which one more than the page holds was asked for.
abbrev pub page_of : RowId → ℕ → List Message → MessagePage
page_of thread_id page_size rows =
    let messages = map to_thread_message (reverse (take page_size rows)) in
    record {
      thread_id = thread_id;
      messages = messages;
      older_cursor = if ltb page_size (length rows) then first_seq messages else none;
    }

unfoldable pub load_page_before : RowId → Option ℕ → ℕ → List Message → MessagePage
load_page_before thread_id before page_size now =
    page_of thread_id page_size (take (suc page_size) (newest_first thread_id before now))

abbrev pub has_id : RowId → RowId → Message → Bool
has_id thread_id id m = m.id == id && of_thread thread_id m

abbrev pub seq_found : Option Message → Option ℕ
seq_found none = none
seq_found (some m) = some m.seq

abbrev pub seq_of_message : RowId → List Message → Option RowId → Option ℕ
seq_of_message thread_id found none = none
seq_of_message thread_id found (some id) = seq_found (find_where (has_id thread_id id) found)

abbrev pub seq_or : Option ℕ → Option ℕ → Option ℕ
seq_or none other = other
seq_or (some s) other = some s

-- The sequence number that a page is wanted around, if there is one.
unfoldable pub target_seq : RowId → List Message → Around → Option ℕ
target_seq thread_id found around =
    seq_or around.seq (seq_of_message thread_id found around.message_id)

abbrev pub in_window : RowId → ℕ → ℕ → Message → Bool
in_window thread_id low high m = of_thread thread_id m && (leb low m.seq && leb m.seq high)

abbrev pub older_than : RowId → ℕ → Message → Bool
older_than thread_id s m = of_thread thread_id m && ltb m.seq s

abbrev pub cursor_if_older : RowId → List Message → Option ℕ → Option ℕ
cursor_if_older thread_id counted none = none
cursor_if_older thread_id counted (some s) =
    if any (older_than thread_id s) counted then some s else none

-- The page around a sequence number: the rows of the window at one read, and whether there are older
-- ones at the next.
unfoldable pub load_page_around : RowId → ℕ → ℕ → List Message → List Message → MessagePage
load_page_around thread_id page_size target now counted =
    let half = page_size / 2 in
    let rows = sort_by seq_of (keep (in_window thread_id (target - half) (target + half)) now) in
    let messages = map to_thread_message (take page_size rows) in
    record {
      thread_id = thread_id;
      messages = messages;
      older_cursor = cursor_if_older thread_id counted (first_seq messages);
    }

abbrev pub page_around_or :
    RowId → ℕ → List Message → List Message → MessagePage → Option ℕ → MessagePage
page_around_or thread_id page_size now counted otherwise none = otherwise
page_around_or thread_id page_size now counted otherwise (some target) =
    load_page_around thread_id page_size target now counted

abbrev pub target_of : RowId → List Message → Option Around → Option ℕ
target_of thread_id found none = none
target_of thread_id found (some around) = target_seq thread_id found around

-- The rows are those of the table at each query: the search for the message, the page, the count.
unfoldable pub load_message_page :
    RowId → Option ℕ → ℕ → Option Around → List Message → List Message → List Message → MessagePage
unfolding target_seq load_page_around load_page_before
load_message_page thread_id before page_size around found now counted =
    page_around_or thread_id page_size now counted (load_page_before thread_id before page_size now)
      (target_of thread_id found around)

-- The page, and the older pages if it has a cursor.
abbrev pub and_older :
    MessagePage → (ℕ → Option (List (List ThreadMessage))) → Option (List (List ThreadMessage))
and_older page older = elim (page.older_cursor) [
  | none ↦ some (page.messages ∷ [])
  | some cursor ↦
      Option.map (λ (pages : List (List ThreadMessage)). page.messages ∷ pages) (older cursor)
]

-- The pages, the newest first, from reads of the table one after the other; none if the loop would
-- read once more.
unfoldable pub load_pages :
    RowId → ℕ → Option ℕ → List (List Message) → Option (List (List ThreadMessage))
unfolding load_message_page
load_pages thread_id page_size before [] = none
load_pages thread_id page_size before (now ∷ later) =
    and_older (load_message_page thread_id before page_size none now now now)
      (λ cursor. load_pages thread_id page_size (some cursor) later)

abbrev pub flat : List (List ThreadMessage) → List ThreadMessage
flat [] = []
flat (page ∷ pages) = page ++ flat pages

unfoldable pub load_all_messages : RowId → ℕ → List (List Message) → Option (List ThreadMessage)
unfolding load_pages
load_all_messages thread_id page_size reads =
    Option.map (λ pages. flat (reverse pages)) (load_pages thread_id page_size none reads)
