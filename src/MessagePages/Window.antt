-- ===== src/MessagePages/Window.antt =====
-- The page around a message holds it.
use mathlib.Core.Path.{subst}
use grok_bot_v.Prelude.{
  ℕ, ◌+◌, ◌-◌, ◌/◌, ◌≤◌, ◌<◌, ◌≡◌, ◌≢◌, refl, Bool, true, ◌&&◌, Option, some, List, [], ◌∷◌, map,
  leb, keep, take, All, In, NoClash, In-keep, In-keep_of, In-map_of, arith,
}
use grok_bot_v.Prelude.Pairs.{All-of, All-In, Pairs-keep, keep-keep, In-take}
use grok_bot_v.Prelude.Sorting.{
  sort_by, Distinct, Ascends-sort_by, In-sort_by, All-sort_by, In-take_window,
}
use grok_bot_v.Store.Schema.{Message}
use grok_bot_v.History.{message_clash}
use grok_bot_v.MessagePages.{
  ThreadMessage, to_thread_message, seq_of, of_thread, in_window, Around, target_seq,
  load_page_around, load_message_page,
}
use grok_bot_v.MessagePages.Complete.{Distinct-keep_thread}

abbrev in_range : ℕ → ℕ → Message → Bool
in_range low high m = leb low m.seq && leb m.seq high

abbrev Fits : ℕ → ℕ → ℕ → Message → Type 0
Fits thread_id low high x = (x.thread_id ≡ thread_id) × (low ≤ x.seq) × (x.seq ≤ high)

module _ (thread_id low high : ℕ) (now : List Message) where
  Distinct-chosen :
      NoClash message_clash now → Distinct seq_of (keep (in_window thread_id low high) now)
  Distinct-chosen h =
      subst (Distinct seq_of)
        (keep-keep (in_range low high) (of_thread thread_id) (in_window thread_id low high) now
          (λ x. ground arith))
        (Pairs-keep (λ a b. a.seq ≢ b.seq) (in_range low high) (keep (of_thread thread_id) now)
          (Distinct-keep_thread thread_id now h))

  All-Fits :
      All (Fits thread_id low high) (sort_by seq_of (keep (in_window thread_id low high) now))
  All-Fits =
      All-sort_by seq_of (Fits thread_id low high) (keep (in_window thread_id low high) now) (
        All-of (Fits thread_id low high) (keep (in_window thread_id low high) now) (λ x i.
          let k = (In-keep (in_window thread_id low high) now i).1 in
          (ground arith, ground arith, ground arith)))

window-true :
    (thread_id : ℕ) (m : Message) (half : ℕ)
    → m.thread_id ≡ thread_id
    → in_window thread_id (m.seq - half) (m.seq + half) m ≡ true
window-true thread_id m half same = ground arith

-- Near enough to the target, and of its thread.
abbrev pub Near : ℕ → ℕ → ℕ → ThreadMessage → Type 0
Near thread_id target half x =
    (x.thread_id ≡ thread_id) × (target ≤ x.seq + half) × (x.seq ≤ target + half)

page_around-target :
    (thread_id : ℕ) (before : Option ℕ) (page_size : ℕ) (around : Around)
    (found now counted : List Message) (target : ℕ)
    → target_seq thread_id found around ≡ some target
    → load_message_page thread_id before page_size (some around) found now counted
      ≡ load_page_around thread_id page_size target now counted
unfolding load_message_page
page_around-target thread_id before page_size around found now counted target e =
    rw (load_message_page, e) refl

Near-map :
    (thread_id target half : ℕ) (rows : List Message)
    → All (Fits thread_id (target - half) (target + half)) rows
    → All (Near thread_id target half) (map to_thread_message rows)
Near-map thread_id target half [] h = tt
Near-map thread_id target half (x ∷ xs) h =
    ((h.0.0, omega (arith, h.0.1), h.0.2), Near-map thread_id target half xs h.1)

All-take_of : (P : Message → Type 0) (n : ℕ) (xs : List Message) → All P xs → All P (take n xs)
All-take_of P n xs h = All-of P (take n xs) (λ x i. All-In P xs h (In-take n xs i))

load_page_around-window :
    (thread_id page_size : ℕ) (now counted : List Message) (m : Message)
    → 0 < page_size
    → NoClash message_clash now
    → In m now
    → m.thread_id ≡ thread_id
    → In (to_thread_message m) ((load_page_around thread_id page_size m.seq now counted).messages)
      × All
          (Near thread_id m.seq (page_size / 2))
          ((load_page_around thread_id page_size m.seq now counted).messages)
unfolding load_page_around
load_page_around-window thread_id page_size now counted m room h i same =
    let half : ℕ = page_size / 2 in
    let low : ℕ = m.seq - half in
    let high : ℕ = m.seq + half in
    let rows = sort_by seq_of (keep (in_window thread_id low high) now) in
    let fits = All-Fits thread_id low high now in
    let chosen =
      In-sort_by seq_of (keep (in_window thread_id low high) now)
        (In-keep_of (in_window thread_id low high) now i (window-true thread_id m half same)) in
    (
      In-map_of to_thread_message (take page_size rows) (
          In-take_window seq_of page_size low rows
            (Ascends-sort_by seq_of (keep (in_window thread_id low high) now)
              (Distinct-chosen thread_id low high now h))
            (All-of (λ x. low ≤ x.seq) rows
              (λ x j. (All-In (Fits thread_id low high) rows fits j).1))
            chosen (omega arith)),
      Near-map thread_id m.seq half (take page_size rows)
          (All-take_of (Fits thread_id low high) page_size rows fits),
    )

-- A page around a message that the thread has at the read, with room for a message and no two
-- messages at one place of a thread, holds the message, and otherwise only messages of the thread
-- at most half a page before or after it.
pub load_message_page-around :
    (thread_id : ℕ) (before : Option ℕ) (page_size : ℕ) (around : Around)
    (found now counted : List Message) (m : Message)
    → 0 < page_size
    → NoClash message_clash now
    → In m now
    → m.thread_id ≡ thread_id
    → target_seq thread_id found around ≡ some m.seq
    → In
        (to_thread_message m)
        ((load_message_page thread_id before page_size (some around) found now counted).messages)
      × All
          (Near thread_id m.seq (page_size / 2))
          ((load_message_page thread_id before page_size (some around) found now counted).messages)
load_message_page-around thread_id before page_size around found now counted m room h i same
      target =
    rw (page_around-target thread_id before page_size around found now counted m.seq target)
      (load_page_around-window thread_id page_size now counted m room h i same)
