-- ===== src/Compaction/Select.antt =====
-- `selectCompactedHistory`: a run's history is the summary and the messages after it, or, where that
-- would leave a gap, every message of the window.
use grok_bot_v.Prelude.{
  ℕ, ◌+◌, ◌≤◌, ◌<◌, ◌≡◌, refl, ◌∙◌, String, Bool, true, false, ◌&&◌, Option, none, some, List, [],
  ◌∷◌, if◌then◌else◌, ◌==◌, ltb, keep, In, In-keep, In-keep_of, if_cases, arith, and-eq-true,
  ==_iff,
}
use grok_bot_v.Prelude.Sorting.{sort_by, In-sort_by, In-unsorted}
use grok_bot_v.Prelude.Text.{text_length}
use grok_bot_v.Compaction.Plan.{
  history_window_size, legacy_history_window_size, max_compacted_summary_chars, previous_summary,
}

pub data HistoryRole : Type 0 where
  user assistant system : HistoryRole

pub record CompactedHistoryMessage : Type 0 where
  pub seq : ℕ
  pub role : HistoryRole
  pub content : String

pub record CompactedHistorySelection : Type 0 where
  pub history : List CompactedHistoryMessage
  pub summary : Option String
  pub used_local_summary : Bool

abbrev pub seq_of : CompactedHistoryMessage → ℕ
seq_of m = m.seq

abbrev pub beyond : ℕ → CompactedHistoryMessage → Bool
beyond cursor m = ltb cursor m.seq

-- `uncompacted[index]!.seq !== cursor + index + 1` for no index
abbrev pub follows : ℕ → List CompactedHistoryMessage → Bool
follows cursor [] = true
follows cursor (m ∷ ms) = m.seq == cursor + 1 && follows (cursor + 1) ms

abbrev pub whole_history : List CompactedHistoryMessage → CompactedHistorySelection
whole_history messages = record { history = messages; summary = none; used_local_summary = false }

abbrev pub with_summary : List CompactedHistoryMessage → String → ℕ → CompactedHistorySelection
with_summary messages summary cursor =
    let rest = keep (beyond cursor) messages in
    if follows cursor rest
    then record { history = rest; summary = some summary; used_local_summary = true }
    else whole_history messages

abbrev pub select_from :
    List CompactedHistoryMessage → Option String → Option ℕ → CompactedHistorySelection
select_from messages none cursor = whole_history messages
select_from messages (some summary) none = whole_history messages
select_from messages (some summary) (some cursor) =
    if ltb max_compacted_summary_chars (text_length summary)
    then whole_history messages
    else with_summary messages summary cursor

unfoldable pub select_compacted_history :
    List CompactedHistoryMessage → Option String → Option ℕ → CompactedHistorySelection
select_compacted_history messages summary cursor =
    select_from (sort_by seq_of messages) (previous_summary summary) cursor

unfoldable pub window_size : Bool → Bool → Bool → ℕ
window_size semantic_memory_enabled compacted recall_succeeded =
    if semantic_memory_enabled && (compacted && recall_succeeded)
    then history_window_size
    else legacy_history_window_size

-- The numbers go up by one from a first number on.
pub data Consecutive : ℕ → List CompactedHistoryMessage → Type 0 where
  last : {first : ℕ} → Consecutive first []
  more :
      {first : ℕ} {m : CompactedHistoryMessage} {ms : List CompactedHistoryMessage}
      → m.seq ≡ first
      → Consecutive (first + 1) ms
      → Consecutive first (m ∷ ms)

-- A selection that uses the summary, or one that is the whole window.
pub data Sound (messages : List CompactedHistoryMessage) (summary : Option String)
    (cursor : Option ℕ) (r : CompactedHistorySelection) : Type 0 where
  summarised :
      {c : ℕ} {s : String}
      → cursor ≡ some c
      → previous_summary summary ≡ some s
      → r.summary ≡ some s
      → r.used_local_summary ≡ true
      → text_length s ≤ max_compacted_summary_chars
      → Consecutive (c + 1) r.history
      → ((m : CompactedHistoryMessage) → In m r.history → In m messages × (c < m.seq))
      → ((m : CompactedHistoryMessage) → In m messages → c < m.seq → In m r.history)
      → Sound messages summary cursor r
  whole :
      r.summary ≡ none
      → r.used_local_summary ≡ false
      → r.history ≡ sort_by seq_of messages
      → Sound messages summary cursor r

follows-Consecutive :
    (cursor : ℕ) (ms : List CompactedHistoryMessage)
    → follows cursor ms ≡ true
    → Consecutive (cursor + 1) ms
follows-Consecutive cursor [] e = last
follows-Consecutive cursor (m ∷ ms) e =
    let (first, rest) = and-eq-true (m.seq == cursor + 1) _ e in
    more ((==_iff m.seq (cursor + 1)).0 first) (follows-Consecutive (cursor + 1) ms rest)

module _ (messages : List CompactedHistoryMessage) (summary : Option String) where
  whole-Sound :
      (cursor : Option ℕ) → Sound messages summary cursor (whole_history (sort_by seq_of messages))
  whole-Sound cursor = whole refl refl refl

  In-beyond :
      (c : ℕ) {m : CompactedHistoryMessage}
      → In m (keep (beyond c) (sort_by seq_of messages))
      → In m messages × (c < m.seq)
  In-beyond c i =
      let (j, hit) = In-keep (beyond c) (sort_by seq_of messages) i in
      (In-unsorted seq_of messages j, ground arith)

  with_summary-Sound :
      (s : String) (c : ℕ)
      → previous_summary summary ≡ some s
      → text_length s ≤ max_compacted_summary_chars
      → Sound messages summary (some c) (with_summary (sort_by seq_of messages) s c)
  with_summary-Sound s c is small =
      if_cases (Sound messages summary (some c))
        (follows c (keep (beyond c) (sort_by seq_of messages)))
        (λ e.
          summarised refl is refl refl small (follows-Consecutive c _ e) (λ m i. In-beyond c i)
            (λ m i lt.
              In-keep_of (beyond c) (sort_by seq_of messages) (In-sort_by seq_of messages i)
                (ground arith)))
        (λ e. whole-Sound (some c))

  select_from-Sound :
      (o : Option String) (cursor : Option ℕ)
      → previous_summary summary ≡ o
      → Sound messages summary cursor (select_from (sort_by seq_of messages) o cursor)
  select_from-Sound none cursor is = whole-Sound cursor
  select_from-Sound (some s) none is = whole-Sound none
  select_from-Sound (some s) (some c) is =
      if_cases (Sound messages summary (some c)) (ltb max_compacted_summary_chars (text_length s))
        (λ large. whole-Sound (some c)) (λ small. with_summary-Sound s c is (ground arith))

Consecutive-follows :
    (first cursor : ℕ) (ms : List CompactedHistoryMessage)
    → first ≡ cursor + 1
    → Consecutive first ms
    → follows cursor ms ≡ true
Consecutive-follows first cursor [] e last = refl
Consecutive-follows first cursor (m ∷ ms) e (more same rest) =
    let later = Consecutive-follows (first + 1) (cursor + 1) ms (omega arith) rest in
    let now : (m.seq == cursor + 1) ≡ true = (==_iff m.seq (cursor + 1)).1 (same ∙ e) in
    rw (now, later) refl

-- A summary and a cursor after which the messages of the window follow one another.
abbrev pub Usable : List CompactedHistoryMessage → Option String → Option ℕ → Type 0
Usable messages summary cursor =
    (s : String) × (c : ℕ) × (previous_summary summary ≡ some s)
    × (cursor ≡ some c)
    × (text_length s ≤ max_compacted_summary_chars)
    × Consecutive (c + 1) (keep (λ m. ltb c m.seq) (sort_by seq_of messages))

Usable-used :
    (messages : List CompactedHistoryMessage) (summary : Option String) (cursor : Option ℕ)
    → Usable messages summary cursor
    → (select_compacted_history messages summary cursor).used_local_summary ≡ true
unfolding select_compacted_history
Usable-used messages summary cursor (s, c, e, e', small, run) =
    let fits : ltb max_compacted_summary_chars (text_length s) ≡ false = ground arith in
    rw (e, e', fits, Consecutive-follows (c + 1) c _ refl run) refl

-- A selected history either has the given summary, without the spaces around it and of at most 20,000
-- units, and then holds just the messages beyond the cursor, which bear the numbers from the cursor's
-- successor on with none missing; or has none, and is then every message that was given, in the order
-- of their numbers. The summary is used if it is not blank and of that size, there is a cursor, and
-- the messages beyond it do follow one another.
pub select_compacted_history-Sound :
    (messages : List CompactedHistoryMessage) (summary : Option String) (cursor : Option ℕ)
    → Sound messages summary cursor (select_compacted_history messages summary cursor)
      × (Usable messages summary cursor
          → (select_compacted_history messages summary cursor).used_local_summary ≡ true)
unfolding select_compacted_history
select_compacted_history-Sound messages summary cursor = (
  select_from-Sound messages summary (previous_summary summary) cursor refl,
  Usable-used messages summary cursor,
)
