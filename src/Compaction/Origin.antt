-- ===== src/Compaction/Origin.antt =====
-- Where the batch of a compaction comes from.
use grok_bot_v.Prelude.{
  ℕ, ◌≤◌, ◌<◌, ◌≡◌, ◌⊎◌, refl, sym, ap, ◌∙◌, String, true, false, ◌&&◌, ◌||◌, Option, none, some,
  List, [], ◌∷◌, ◌==◌, ltb, length, ==_iff, and-eq-true, if_cases, if_both, inl, inr, arith,
  is_none,
}
use grok_bot_v.Store.Blocks.{RowId}
use grok_bot_v.Store.Schema.{Thread, Message}
use grok_bot_v.Compaction.Plan.{
  legacy_history_window_size, first_uncompacted, next_batch, legacy_batch, contiguous, first_seq_or,
  Batch, Planned, skip, compact, Views, plan, plan_next, plan_legacy, plan_cursor, last_seq_or,
  was_cleared, previous_summary, too_large,
}

-- A batch of the messages that follow the cursor, or one that a cursor of an earlier version covers.
pub record IsNext (cursor : Option ℕ) (rows : List Message) (batch : Batch) : Type 0 where
  pub is_new : batch.bootstrapping ≡ false
  pub all_rows : batch.rows ≡ rows
  pub no_gap : contiguous (first_uncompacted cursor) batch.rows ≡ true
  pub not_empty : 0 < length batch.rows

-- What is known of a thread when its batch is planned.
pub record Planning : Type 0 where
  pub thread_id : RowId
  pub generation : ℕ
  pub cursor : Option ℕ
  pub summary : Option String
  pub views : Views

abbrev pub planned_for : RowId → ℕ → Option ℕ → Option String → Views → Planning
planned_for thread_id generation cursor summary views = record {
  thread_id = thread_id;
  generation = generation;
  cursor = cursor;
  summary = summary;
  views = views;
}

abbrev pub next_rows : Planning → List Message
next_rows p = next_batch p.thread_id p.cursor ((p.views).at_batch)

abbrev pub old_rows : RowId → Option ℕ → Views → List Message
old_rows thread_id none views = []
old_rows thread_id (some cursor) views = legacy_batch thread_id cursor views.at_legacy

pub record IsLegacy (p : Planning) (batch : Batch) : Type 0 where
  pub is_old : batch.bootstrapping ≡ true
  pub all_rows : batch.rows ≡ old_rows p.thread_id p.cursor p.views
  pub first_generation : p.generation ≡ 0
  pub no_summary : p.summary ≡ none
  pub ends : p.cursor ≡ some (last_seq_or 0 batch.rows)
  pub not_empty : 0 < length batch.rows
  pub few : length batch.rows ≤ legacy_history_window_size
  pub no_gap : contiguous (first_seq_or 0 batch.rows) batch.rows ≡ true
  pub from_start :
      (was_cleared p.thread_id ((p.views).at_events) || first_seq_or 0 batch.rows == 0) ≡ true

abbrev pub Origin : Planning → Planned → Type 0
Origin p (skip reason) = Unit {0}
Origin p (compact batch) = IsNext p.cursor (next_rows p) batch ⊎ IsLegacy p batch

Origin-next :
    (p : Planning) (rows : List Message) → rows ≡ next_rows p → Origin p (plan_next p.cursor rows)
Origin-next p [] same = tt
Origin-next p (m ∷ ms) same =
    if_cases (Origin p) (contiguous (first_uncompacted p.cursor) (m ∷ ms))
      (λ e. inl (record { is_new = refl; all_rows = same; no_gap = e; not_empty = omega arith }))
      (λ e. tt)

Origin-legacy :
    (p : Planning) (cursor : ℕ) (old : List Message) (next : Planned)
    → p.cursor ≡ some cursor
    → old ≡ old_rows p.thread_id p.cursor p.views
    → p.generation ≡ 0
    → p.summary ≡ none
    → Origin p next
    → Origin p (plan_legacy cursor (was_cleared p.thread_id ((p.views).at_events)) old next)
Origin-legacy p cursor [] next is same first blank h = h
Origin-legacy p cursor (m ∷ ms) next is same first blank h =
    let cleared = was_cleared p.thread_id ((p.views).at_events) in
    if_cases (Origin p) (ltb legacy_history_window_size (length (m ∷ ms))) (λ large. tt)
      (λ small.
        if_cases (Origin p)
          (last_seq_or cursor (m ∷ ms) == cursor
            && (contiguous m.seq (m ∷ ms) && (cleared || m.seq == 0)))
          (λ e.
            let (last, rest) = and-eq-true _ _ e in
            let (dense, from) = and-eq-true _ _ rest in
            inr (record {
              is_old = refl;
              all_rows = same;
              first_generation = first;
              no_summary = blank;
              ends = is ∙ ap some (sym ((==_iff (last_seq_or m.seq ms) cursor).0 last));
              not_empty = omega arith;
              few = ground arith;
              no_gap = dense;
              from_start = from;
            }))
          (λ e. tt))

is_none-eq : (o : Option String) → is_none o ≡ true → o ≡ none
is_none-eq none e = refl
is_none-eq (some s) e = cc

Origin-cursor :
    (thread_id generation : ℕ) (cursor : Option ℕ) (summary : Option String) (views : Views)
    → Origin
        (planned_for thread_id generation cursor summary views)
        (plan_cursor thread_id generation cursor summary views)
Origin-cursor thread_id generation none summary views =
    let p = planned_for thread_id generation none summary views in Origin-next p (next_rows p) refl
Origin-cursor thread_id generation (some c) summary views =
    let p = planned_for thread_id generation (some c) summary views in
    let next = Origin-next p (next_rows p) refl in
    if_cases (Origin p) (generation == 0 && is_none summary)
      (λ e.
        let (first, blank) = and-eq-true _ _ e in
        Origin-legacy p c (legacy_batch thread_id c views.at_legacy)
          (plan_next (some c) (next_rows p)) refl refl ((==_iff generation 0).0 first)
          (is_none-eq summary blank) next)
      (λ e. next)

abbrev pub planning : Thread → Views → Planning
planning read views =
    planned_for read.id read.history_compaction_generation read.history_compacted_up_to_seq
      (previous_summary read.history_compaction_summary) views

pub Origin-plan : (read : Thread) (views : Views) → Origin (planning read views) (plan read views)
unfolding plan
Origin-plan read views =
    if_both (Origin (planning read views))
      (too_large (previous_summary read.history_compaction_summary)) tt
      (Origin-cursor read.id read.history_compaction_generation read.history_compacted_up_to_seq
        (previous_summary read.history_compaction_summary) views)
